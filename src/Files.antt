-- ===== src/Files.antt =====
-- Files, their Stats and Preconditions (src/file.rs, src/precondition.rs). A `Timestamp` of jiff is
-- only copied: it stands as its number of nanoseconds.
use tidings.Base.Tests.{ℕ, Bool, true, false, Option, none, some, ◌==◌}
use tidings.Base.Text.{Text}

-- A `u128`.
abbrev pub Revision : Type 0
Revision = ℕ

abbrev pub Timestamp : Type 0
Timestamp = ℕ

pub record Stat : Type 0 where
  pub modified : Timestamp
  pub revision : Revision

pub record File : Type 0 where
  pub path : Text
  pub contents : Text
  pub stat : Stat

pub data Precondition : Type 0 where
  any absent : Precondition
  unchanged_since : Revision → Precondition

-- `==` of `Option<Revision>`.
abbrev pub same_revision : Option Revision → Option Revision → Bool
same_revision none none = true
same_revision none (some s) = false
same_revision (some r) none = false
same_revision (some r) (some s) = r == s

-- `Precondition::holds`.
unfoldable pub holds : Precondition → Option Revision → Bool
holds any current = true
holds absent none = true
holds absent (some r) = false
holds (unchanged_since revision) current = same_revision current (some revision)
