-- ===== src/StoreState.antt =====
-- `StoreState` (src/backend/mod.rs): what a Store holds when a Commit runs, as a Backend reads it.
-- `Views` is what a Backend promises of it.
use tidings.Base.Tests.{◌≡◌, Option, List}
use tidings.Base.Results.{ok}
use tidings.Base.Text.{Text}
use tidings.Base.BTreeMap.{BTreeMap, get, keys, retain}
use tidings.Base.BTreeMap.Sorted.{IsSorted}
use tidings.Error.{Outcome}
use tidings.Files.{Revision}
use tidings.Prefixes.{covers}

pub record StoreState : Type 0 where
  pub revision : Text → Outcome (Option Revision)
  pub revisions_under : Text → Outcome (List (Text × Revision))
  pub paths_under : Text → Outcome (List Text)
  pub paths_named_like : Text → Text → Outcome (List Text)

-- The Store's Files have these Revisions, and reading them does not fail.
pub record Views (s : StoreState) (revisions : BTreeMap Revision) : Type 0 where
  pub sorted : IsSorted revisions
  pub revision_lem : (path : Text) → s.revision path ≡ ok (get path revisions)
  pub revisions_under_lem :
      (prefix : Text) → s.revisions_under prefix ≡ ok (retain (covers prefix) revisions)
  pub paths_under_lem :
      (prefix : Text) → s.paths_under prefix ≡ ok (keys (retain (covers prefix) revisions))
  pub paths_named_like_lem :
      (name fold : Text) → (paths : List Text) × (s.paths_named_like name fold ≡ ok paths)
