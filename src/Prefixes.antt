-- ===== src/Prefixes.antt =====
-- Prefixes (src/prefix.rs): empty, or a Path with a `/` behind it.
pub mod Segments
pub mod Tests
use tidings.Base.Tests.{Bool, Option, none, some, [], ◌∷◌, if◌then◌else◌}
use tidings.Base.Results.{ok, err}
use tidings.Base.Text.{Text, slash, strip_suffix, starts_with, text_eq}
use tidings.Crates.{Crates}
use tidings.Error.{InvalidPathReason, no_trailing_slash, not_relative, invalid_path, Outcome}
use tidings.Paths.{refusal}

-- `Prefix::covers`.
unfoldable pub covers : Text → Text → Bool
covers prefix path = starts_with prefix path

module _ (c : Crates) where
  unfoldable pub prefix_refusal : Text → Option InvalidPathReason
  prefix_refusal prefix = if text_eq prefix [] then none else elim (strip_suffix slash prefix) [
    | none ↦ some no_trailing_slash
    | some [] ↦ some not_relative
    | some (x ∷ path) ↦ refusal c (x ∷ path)
  ]

  -- `Prefix::new`.
  unfoldable pub new : Text → Outcome Text
  unfolding prefix_refusal
  new prefix = elim (prefix_refusal prefix) [
    | some reason ↦ err (invalid_path prefix reason)
    | none ↦ ok prefix
  ]
