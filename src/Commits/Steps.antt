-- ===== src/Commits/Steps.antt =====
-- The first three steps of a Commit's plan: `Staged::check_preconditions`,
-- `expand_prefix_deletes` and `leave_out_what_changes_nothing` (src/staging.rs). A read that fails
-- ends the step with its error.
use tidings.Base.Tests.{Option, none, some, List, [], ◌∷◌, if◌then◌else◌}
use tidings.Base.Results.{ok, err, ◌>>=◌}
use tidings.Base.Text.{Text}
use tidings.Base.BTreeMap.{BTreeMap, get, insert, remove, keys}
use tidings.Crates.{Crates}
use tidings.Error.{conflict, Outcome}
use tidings.Files.{Revision, Precondition, holds, same_revision}
use tidings.Revisions.{PrefixRevision, of, differences}
use tidings.Staging.{Action, write, delete, Staged}
use tidings.StoreState.{StoreState}

-- `BTreeSet::extend`.
unfoldable pub extend : BTreeMap (Unit {0}) → BTreeMap (Unit {0}) → BTreeMap (Unit {0})
extend set [] = set
extend set ((path, _) ∷ paths) = extend (insert path tt set) paths

-- `entry(path).or_insert(Action::Delete)`.
unfoldable pub or_insert_delete : Text → BTreeMap Action → BTreeMap Action
or_insert_delete path actions = elim (get path actions) [
  | some _ ↦ actions
  | none ↦ insert path delete actions
]

unfoldable pub or_delete : List Text → BTreeMap Action → BTreeMap Action
or_delete [] actions = actions
or_delete (path ∷ paths) actions = or_delete paths (or_insert_delete path actions)

-- `remove`, for each of `paths`.
unfoldable pub remove_all : List Text → BTreeMap Action → BTreeMap Action
remove_all [] actions = actions
remove_all (path ∷ paths) actions = remove_all paths (remove path actions)

-- `PlannedRevisions`, with the Paths of what changes nothing.
pub record Planning : Type 0 where
  pub written : BTreeMap Revision
  pub removed : BTreeMap Revision
  pub unchanged : List Text

-- The test after the loops.
unfoldable pub conclude : BTreeMap (Unit {0}) → Outcome (Unit {0})
conclude [] = ok tt
conclude (p ∷ conflicts) = err (conflict (keys (p ∷ conflicts)))

abbrev pub none_planned : Planning
none_planned = record { written = []; removed = []; unchanged = [] }

module _ (current : StoreState) where
  -- The first loop of `check_preconditions`.
  unfoldable pub failing :
      List (Text × Precondition) → BTreeMap (Unit {0}) → Outcome (BTreeMap (Unit {0}))
  failing [] conflicts = ok conflicts
  failing ((path, precondition) ∷ rest) conflicts = do
    now ← current.revision path
    failing rest (if holds precondition now then conflicts else insert path tt conflicts)

  -- The loop of `expand_prefix_deletes`.
  unfoldable pub expand_each : List Text → BTreeMap Action → Outcome (BTreeMap Action)
  expand_each [] actions = ok actions
  expand_each (prefix ∷ prefixes) actions = do
    paths ← current.paths_under prefix
    expand_each prefixes (or_delete paths actions)

  -- `take` leaves no Prefix deletes.
  unfoldable pub expand_prefix_deletes : Staged → Outcome Staged
  unfolding expand_each
  expand_prefix_deletes staged = do
    actions ← expand_each (keys staged.prefix_deletes) staged.actions
    ok (record staged { actions = actions; prefix_deletes = [] })

module _ (c : Crates) where
  -- The match in the loop of `leave_out_what_changes_nothing`.
  unfoldable pub plan_one : Text → Action → Option Revision → Planning → Planning
  plan_one path (write contents) now p = record p {
    written = insert path (of c contents) p.written;
    unchanged =
        if same_revision now (some (of c contents)) then path ∷ p.unchanged else p.unchanged;
  }
  plan_one path delete (some now) p = record p { removed = insert path now p.removed }
  plan_one path delete none p = record p { unchanged = path ∷ p.unchanged }

module _ (c : Crates) (current : StoreState) where
  -- The second loop.
  unfoldable pub failing_prefixes :
      List (Text × PrefixRevision) → BTreeMap (Unit {0}) → Outcome (BTreeMap (Unit {0}))
  failing_prefixes [] conflicts = ok conflicts
  failing_prefixes ((_, prefix_revision) ∷ rest) conflicts = do
    now ← current.revisions_under prefix_revision.prefix
    failing_prefixes rest (extend conflicts (differences c prefix_revision now))

  unfoldable pub check_preconditions : Staged → Outcome (Unit {0})
  check_preconditions staged = do
    conflicts ← failing current staged.preconditions []
    all_conflicts ← failing_prefixes staged.prefix_preconditions conflicts
    conclude all_conflicts

  unfoldable pub plan_each : BTreeMap Action → Planning → Outcome Planning
  plan_each [] p = ok p
  plan_each ((path, action) ∷ actions) p = do
    now ← current.revision path
    plan_each actions (plan_one c path action now p)

  unfoldable pub leave_out_what_changes_nothing : Staged → Outcome (Staged × Planning)
  leave_out_what_changes_nothing staged = do
    p ← plan_each staged.actions none_planned
    ok (record staged { actions = remove_all p.unchanged staged.actions }, p)
