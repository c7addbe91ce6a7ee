-- ===== src/Commits.antt =====
-- What a Commit changes (src/backend/mod.rs): `CommitRequest::plan` works it out, by the rules
-- that every Backend shares, and `Plan::apply` makes the changes.
pub mod Steps
pub mod Names
pub mod Expand
pub mod LeftOut
pub mod Effect
pub mod Conflicts
pub mod Clashes
pub mod Refusals
use tidings.Base.Tests.{Bool, false, Option, none, some, List, [], ◌∷◌, ◌++◌}
use tidings.Base.Results.{Result, ok, err, ◌>>=◌, ◌>>◌}
use tidings.Base.Text.{Text}
use tidings.Base.BTreeMap.{BTreeMap, get}
use tidings.ChangeFeed.{ChangeKind, changed, removed, Origin, RawChange}
use tidings.Crates.{Crates}
use tidings.Error.{Error, panicked, Outcome}
use tidings.Files.{Revision, Timestamp, Stat}
use tidings.Staging.{Action, delete, Staged}
use tidings.StoreState.{StoreState}
use Steps.{Planning, check_preconditions, expand_prefix_deletes, leave_out_what_changes_nothing}
use Names.{refuse_clashing_paths}

pub record CommitRequest : Type 0 where
  pub timestamp : Timestamp
  pub staged : Staged

pub data Planned : Type 0 where
  write : Text → Stat → Planned
  remove : Revision → Planned

pub record Plan : Type 0 where
  pub changes : List (Text × Planned)
  pub revisions : BTreeMap Revision

pub data Observed : Type 0 where
  changes : Origin → List RawChange → Observed
  missed : Observed

pub record CommitOutcome : Type 0 where
  pub revisions : BTreeMap Revision
  pub changes : List RawChange
  pub observed_before : List Observed
  pub pending : Bool

-- `revisions[&path]`, which panics where there is none.
unfoldable pub index : BTreeMap Revision → Text → Outcome Revision
index m path = elim (get path m) [ some r ↦ ok r | none ↦ err panicked ]

unfoldable pub planned : Timestamp → Planning → Text → Action → Outcome Planned
unfolding index
planned timestamp p path (Action.write contents) = do
  revision ← index p.written path
  ok (write contents (record { modified = timestamp; revision = revision }))
planned timestamp p path delete = do revision ← index p.removed path; ok (remove revision)

-- The map over the actions that are left.
unfoldable pub plan_changes :
    Timestamp → Planning → BTreeMap Action → Outcome (List (Text × Planned))
plan_changes timestamp p [] = ok []
plan_changes timestamp p ((path, action) ∷ actions) = do
  change ← planned timestamp p path action
  rest ← plan_changes timestamp p actions
  ok ((path, change) ∷ rest)

module _ (c : Crates) (current : StoreState) where
  -- `CommitRequest::plan`.
  unfoldable pub plan : CommitRequest → Outcome Plan
  plan request = do
    check_preconditions c current request.staged
    expanded ← expand_prefix_deletes current request.staged
    (left, p) ← leave_out_what_changes_nothing c current expanded
    refuse_clashing_paths c current left.actions
    planned_changes ← plan_changes request.timestamp p left.actions
    ok (record { changes = planned_changes; revisions = p.written })

-- The kind of a change.
unfoldable pub kind_of : Planned → ChangeKind
kind_of (write _ _) = changed
kind_of (remove _) = removed

-- `Plan::apply`, over the state that `change` works on. What was changed before an error stays.
module _ {S : Type 0} (change : Text → Planned → S → S × Outcome (Unit {0})) where
  unfoldable pub apply_each :
      List (Text × Planned) → List RawChange → S → S × Outcome (List RawChange)
  apply_each [] done s = (s, ok done)
  apply_each ((path, p) ∷ rest) done s =
      let (s', made) = change path p s in
      let more = apply_each rest (done ++ (record { path = path; kind = kind_of p } ∷ [])) s' in
      elim made [ err e ↦ (s', err e) | ok _ ↦ more ]

  unfoldable pub apply : Plan → S → S × Outcome CommitOutcome
  apply p s =
      let (s', made) = apply_each p.changes [] s in
      (
        s',
        do
          raw_changes ← made
          ok (record {
            revisions = p.revisions;
            changes = raw_changes;
            observed_before = [];
            pending = false;
          }),
      )
