-- ===== src/Memory/Tests.antt =====
-- Runs of the memory Backend (src/backend/memory.rs), and the theorems on a Commit's plan
-- (src/backend/mod.rs) and on the memory Backend at concrete Files.
use tidings.Commits.Refusals.{plan-FailsRightly, FailsRightly}
use tidings.Commits.Clashes.{refuse_clashing_paths_lem}
use tidings.Paths.{in_range, range_under, letter_case_fold}
use tidings.Prefixes.{covers}
use tidings.Commits.Names.{
  has_name, before_slash, first_segments, without_trailing_slash, prefixes, prefixes_and_path,
  segments_of, is_deleted, refuse_name, check_store, check_name, check_names, check_writes,
  refuse_clashing_paths,
}
use tidings.Base.BTreeMap.{BTreeMap, keys, retain, remove, insert, get}
use tidings.Base.Tests.{◌≡◌, refl, false, none, [], ◌∷◌}
use tidings.Base.Results.{ok, err}
use tidings.Base.Text.{as_bytes, text_eq, strip_suffix, starts_with, cmp, Text, codes}
use tidings.Base.BTreeMap.Sorted.{IsSorted}
use tidings.ChangeFeed.{changed, removed}
use tidings.Crates.Ascii.{ascii}
use tidings.Error.{conflict}
use tidings.Files.{holds, absent}
use tidings.Revisions.{of_bytes, of}
use tidings.Staging.{Staging, Action, new}
use tidings.Commits.{
  planned, kind_of, apply_each, apply, index, plan_changes, CommitRequest, CommitOutcome, Planned,
  Plan, plan,
}
use tidings.Commits.Steps.{
  remove_all, plan_one, plan_each, leave_out_what_changes_nothing, or_delete, or_insert_delete,
  expand_each, expand_prefix_deletes, extend, conclude, failing_prefixes, failing,
  check_preconditions,
}
use tidings.Commits.Conflicts.{Checked, check_preconditions-Checked}
use tidings.Commits.Effect.{made_at, effective, plan_effect}
use tidings.Commits.LeftOut.{written_at}
use tidings.Memory.{
  paths_in_range, list, change, commit_plan, Stored, Held, revisions, held_state, commit,
}
use tidings.Memory.Views.{held_state-Views}
use tidings.Memory.Commit.{Done, commit_effect, commit_atomic}

abbrev stored : Text → Stored
stored contents = record {
  contents = contents;
  stat = record { modified = 5; revision = of ascii contents };
}

abbrev held : Held
held = record { files = (codes "a", stored (codes "x")) ∷ []; folds = (codes "a", codes "a") ∷ [] }

-- A write of a File that must be new, and a delete of the one there is.
abbrev staged : Staging
staged = record new {
  actions = (codes "a", Action.delete) ∷ (codes "b", Action.write (codes "y")) ∷ [];
  preconditions = (codes "b", absent) ∷ [];
}

abbrev request : CommitRequest
request = record { timestamp = 7; staged = staged }

abbrev late : CommitRequest
late = record { timestamp = 7; staged = record staged { preconditions = (codes "a", absent) ∷ [] } }

abbrev outcome : CommitOutcome
outcome = record {
  revisions = (codes "b", of ascii (codes "y")) ∷ [];
  changes =
      record { path = codes "a"; kind = removed }
      ∷ record { path = codes "b"; kind = changed }
      ∷ [];
  observed_before = [];
  pending = false;
}

abbrev the_plan : Plan
the_plan = record {
  changes =
      (codes "a", Planned.remove (of ascii (codes "x")))
      ∷ (
        codes "b",
        Planned.write (codes "y") (record { modified = 7; revision = of ascii (codes "y") }),
      )
      ∷ [];
  revisions = (codes "b", of ascii (codes "y")) ∷ [];
}

is_planned : plan ascii (held_state held) request ≡ ok the_plan
unfolding plan plan_changes planned index check_preconditions failing failing_prefixes conclude
    extend expand_prefix_deletes expand_each or_insert_delete or_delete
    leave_out_what_changes_nothing plan_each plan_one remove_all refuse_clashing_paths check_writes
    check_names check_name check_store refuse_name is_deleted segments_of prefixes_and_path prefixes
    without_trailing_slash first_segments before_slash has_name held_state list paths_in_range
    revisions covers letter_case_fold range_under in_range holds of of_bytes get insert remove
    retain keys starts_with strip_suffix text_eq cmp as_bytes
is_planned = refl

committed : (commit ascii held request).1 ≡ ok outcome
unfolding commit commit_plan apply apply_each kind_of change plan plan_changes planned index
    check_preconditions failing failing_prefixes conclude extend expand_prefix_deletes expand_each
    or_insert_delete or_delete leave_out_what_changes_nothing plan_each plan_one remove_all
    refuse_clashing_paths check_writes check_names check_name check_store refuse_name is_deleted
    segments_of prefixes_and_path prefixes without_trailing_slash first_segments before_slash
    has_name held_state list paths_in_range revisions covers letter_case_fold range_under in_range
    holds of of_bytes get insert remove retain keys starts_with strip_suffix text_eq cmp as_bytes
committed = refl

refused : (commit ascii held late).1 ≡ err (conflict (codes "a" ∷ []))
unfolding commit commit_plan plan plan_changes planned index check_preconditions failing
    failing_prefixes conclude extend expand_prefix_deletes expand_each or_insert_delete or_delete
    leave_out_what_changes_nothing plan_each plan_one remove_all refuse_clashing_paths check_writes
    check_names check_name check_store refuse_name is_deleted segments_of prefixes_and_path prefixes
    without_trailing_slash first_segments before_slash has_name held_state list paths_in_range
    revisions covers letter_case_fold range_under in_range holds of of_bytes get insert remove
    retain keys starts_with strip_suffix text_eq cmp as_bytes
refused = refl

held-IsSorted : IsSorted held.files
held-IsSorted = (tt, tt)

staged-IsSorted : IsSorted staged.actions
unfolding cmp
staged-IsSorted = ((refl, tt), (tt, tt))

plan_effect_example :
    ((q : Text)
      → (get q the_plan.changes
          ≡ made_at ascii 7
              (effective staged (revisions held.files) q)
              (get q (revisions held.files)))
        × (get q the_plan.revisions
            ≡ written_at ascii (effective staged (revisions held.files) q) none))
    × IsSorted the_plan.changes
plan_effect_example =
    plan_effect ascii (held_state held) (revisions held.files) (held_state-Views held held-IsSorted)
      request the_plan staged-IsSorted is_planned

check_preconditions-Checked_example :
    Checked ascii (revisions held.files) staged (check_preconditions ascii (held_state held) staged)
check_preconditions-Checked_example =
    check_preconditions-Checked ascii (revisions held.files) (held_state held)
      (held_state-Views held held-IsSorted) staged

commit_effect_example :
    Done ascii held request held-IsSorted staged-IsSorted (commit ascii held request).0 outcome
commit_effect_example =
    commit_effect ascii held request held-IsSorted staged-IsSorted outcome committed

commit_atomic_example :
    ((commit ascii held late).0 ≡ held)
    × (plan ascii (held_state held) late ≡ err (conflict (codes "a" ∷ [])))
commit_atomic_example = commit_atomic ascii held late (conflict (codes "a" ∷ [])) refused

abbrev writes : BTreeMap Action
writes = (codes "d/b", Action.write (codes "x")) ∷ (codes "d/c", Action.write (codes "y")) ∷ []

passes : refuse_clashing_paths ascii (held_state held) writes ≡ ok tt
unfolding commit commit_plan apply apply_each kind_of change plan plan_changes planned index
    check_preconditions failing failing_prefixes conclude extend expand_prefix_deletes expand_each
    or_insert_delete or_delete leave_out_what_changes_nothing plan_each plan_one remove_all
    refuse_clashing_paths check_writes check_names check_name check_store refuse_name is_deleted
    segments_of prefixes_and_path prefixes without_trailing_slash first_segments before_slash
    has_name held_state list paths_in_range revisions covers letter_case_fold range_under in_range
    holds of of_bytes get insert remove retain keys starts_with strip_suffix text_eq cmp as_bytes
passes = refl

refuse_clashing_paths_lem_example : codes "d/" ≡ codes "d/"
refuse_clashing_paths_lem_example =
    refuse_clashing_paths_lem ascii (held_state held) writes (codes "d/b") (codes "d/c") (codes "x")
      (codes "y") (codes "d/") (codes "d/") passes (unfold get text_eq in refl)
      (unfold get text_eq in refl) (unfold prefixes_and_path prefixes text_eq in refl)
      (unfold prefixes_and_path prefixes text_eq in refl) refl

plan-FailsRightly_example : FailsRightly (plan ascii (held_state held) late)
plan-FailsRightly_example =
    plan-FailsRightly ascii (held_state held) (revisions held.files)
      (held_state-Views held held-IsSorted) late staged-IsSorted
