-- ===== src/Store/Tests.antt =====
-- A Store in memory, and its Change feed after two Commits (src/store.rs).
use tidings.Revisions.{of_bytes, of}
use tidings.Paths.{in_range, range_under, letter_case_fold}
use tidings.Prefixes.{covers}
use tidings.Commits.Names.{
  has_name, before_slash, first_segments, without_trailing_slash, prefixes, prefixes_and_path,
  segments_of, is_deleted, refuse_name, check_store, check_name, check_names, check_writes,
  refuse_clashing_paths,
}
use tidings.Commits.Steps.{
  remove_all, plan_one, plan_each, leave_out_what_changes_nothing, or_delete, or_insert_delete,
  expand_each, expand_prefix_deletes, extend, conclude, failing_prefixes, failing,
  check_preconditions,
}
use tidings.Commits.{index, planned, plan_changes, plan, kind_of, apply_each, apply}
use tidings.Base.Tests.{◌≡◌, refl, List, [], ◌∷◌}
use tidings.Base.Text.{as_bytes, cmp, text_eq, strip_suffix, starts_with, codes}
use tidings.Base.BTreeMap.{keys, retain, remove, insert, get}
use tidings.ChangeFeed.Unread.{next}
use tidings.ChangeFeed.Batches.{change_at, given}
use tidings.Base.Results.{err}
use tidings.Error.{conflict}
use tidings.Crates.Ascii.{ascii}
use tidings.Files.{holds, Timestamp, absent}
use tidings.Staging
use tidings.Staging.{Staging, refuse_wrong_prefix_revisions}
use tidings.Staging.Calls.{Call}
use tidings.Memory.{revisions, paths_in_range, list, held_state, change, commit_plan, Held}
use tidings.Memory
use tidings.Store.{new, memory, commit, commit_checked, conclude_commit}
use tidings.Store.Failures.{commit-fails}
use tidings.Store.Reflects.{Agrees, commit_all, feed-reflects}

abbrev held : Held
held = record {
  files =
      (codes "a", record { contents = codes "x"; stat = record { modified = 5; revision = 6 } })
      ∷ [];
  folds = (codes "a", codes "a") ∷ [];
}

-- The second fails, since `b` is there.
abbrev commits : List (Timestamp × List Call)
commits =
    (7, Call.write (codes "b") (codes "y") ∷ Call.delete (codes "a") ∷ [])
    ∷ (8, Call.write_requiring (codes "b") (codes "z") absent ∷ [])
    ∷ []

feed-reflects_example :
    Agrees
      (change_at (codes "a") (given (next (commit_all ascii (new 1 held) commits).feed.unread).0))
      (get (codes "a") held.files)
      (get (codes "a") (commit_all ascii (new 1 held) commits).backend.files)
feed-reflects_example = feed-reflects ascii 1 held commits (tt, tt) (codes "a")

abbrev late : Staging
late = record Staging.new { preconditions = (codes "a", absent) ∷ [] }

refused : (commit ascii (memory ascii) (new 1 held) 9 late).1 ≡ err (conflict (codes "a" ∷ []))
unfolding commit new memory commit_checked conclude_commit refuse_wrong_prefix_revisions
    Memory.commit commit_plan apply apply_each kind_of change plan plan_changes planned index
    check_preconditions failing failing_prefixes conclude extend expand_prefix_deletes expand_each
    or_insert_delete or_delete leave_out_what_changes_nothing plan_each plan_one remove_all
    refuse_clashing_paths check_writes check_names check_name check_store refuse_name is_deleted
    segments_of prefixes_and_path prefixes without_trailing_slash first_segments before_slash
    has_name held_state list paths_in_range revisions covers letter_case_fold range_under in_range
    holds of of_bytes get insert remove retain keys starts_with strip_suffix text_eq cmp as_bytes
refused = refl

commit-fails_example : (commit ascii (memory ascii) (new 1 held) 9 late).0 ≡ new 1 held
commit-fails_example =
    commit-fails ascii (new 1 held) 9 late (unfold new in (tt, tt)) tt (conflict (codes "a" ∷ []))
      refused
