-- ===== src/Memory/RenameTests.antt =====
-- A File renamed by letter case in the memory Backend (src/backend/memory.rs): after that its name
-- is free for other letter cases.
use tidings.Files.{holds}
use tidings.Prefixes.{covers}
use tidings.Commits.Names.{
  has_name, before_slash, first_segments, without_trailing_slash, prefixes, prefixes_and_path,
  segments_of, is_deleted, refuse_name, check_store, check_name, check_names, check_writes,
  refuse_clashing_paths,
}
use tidings.Commits.Steps.{
  remove_all, plan_one, plan_each, leave_out_what_changes_nothing, or_delete, or_insert_delete,
  expand_each, expand_prefix_deletes, extend, conclude, failing_prefixes, failing,
  check_preconditions,
}
use Prim.Native.Nat.{Ordering}
use tidings.Base.Tests.{◌≡◌, refl, false, Bool-cases, inl, inr, none, some, [], ◌∷◌, arith}
use tidings.Base.Results.{ok}
use tidings.Base.Text.{as_bytes, strip_suffix, starts_with, Text, codes, cmp, text_eq, text_eq_iff}
use tidings.Base.BTreeMap.{retain, remove, insert, keys, get}
use tidings.Base.BTreeMap.Sorted.{IsSorted}
use tidings.ChangeFeed.{changed, removed}
use tidings.Crates.Ascii.{ascii}
use tidings.Paths.{in_range, range_under, letter_case_fold}
use tidings.Revisions.{of_bytes, of}
use tidings.Staging.{Staging, Action, new}
use tidings.Commits.{
  index, planned, plan_changes, plan, kind_of, apply_each, apply, CommitRequest, CommitOutcome,
}
use tidings.Commits.Effect.{effective}
use tidings.Memory.{
  paths_in_range, list, held_state, change, commit_plan, Stored, Held, revisions, commit,
}
use tidings.Memory.Folds.{commit-folds_lost}

abbrev stored : Text → Stored
stored contents = record {
  contents = contents;
  stat = record { modified = 5; revision = of ascii contents };
}

abbrev held : Held
held = record {
  files = (codes "foo", stored (codes "x")) ∷ [];
  folds = (codes "foo", codes "foo") ∷ [];
}

abbrev renaming : Staging
renaming = record new {
  actions = (codes "Foo", Action.write (codes "x")) ∷ (codes "foo", Action.delete) ∷ [];
}

abbrev rename : CommitRequest
rename = record { timestamp = 7; staged = renaming }

abbrev renamed : CommitOutcome
renamed = record {
  revisions = (codes "Foo", of ascii (codes "x")) ∷ [];
  changes =
      record { path = codes "Foo"; kind = changed }
      ∷ record { path = codes "foo"; kind = removed }
      ∷ [];
  observed_before = [];
  pending = false;
}

is_renamed : (commit ascii held rename).1 ≡ ok renamed
unfolding commit commit_plan apply apply_each kind_of change plan plan_changes planned index
    check_preconditions failing failing_prefixes conclude extend expand_prefix_deletes expand_each
    or_insert_delete or_delete leave_out_what_changes_nothing plan_each plan_one remove_all
    refuse_clashing_paths check_writes check_names check_name check_store refuse_name is_deleted
    segments_of prefixes_and_path prefixes without_trailing_slash first_segments before_slash
    has_name held_state list paths_in_range revisions covers letter_case_fold range_under in_range
    holds of of_bytes get insert remove retain keys starts_with strip_suffix text_eq cmp as_bytes
is_renamed = refl

held-IsSorted : IsSorted held.files
held-IsSorted = (tt, tt)

renaming-IsSorted : IsSorted renaming.actions
unfolding cmp
renaming-IsSorted = ((refl, tt), (tt, tt))

-- The only Path that is written.
written_before :
    (s y : Text)
    → effective renaming (revisions held.files) s ≡ some (Action.write y)
    → letter_case_fold ascii s ≡ letter_case_fold ascii (codes "foo")
    → cmp s (codes "foo") ≡ Ordering.lt
unfolding effective get keys revisions
written_before s y e f = elim (Bool-cases (text_eq s (codes "Foo"))) [
  | inl same ↦ rw ((text_eq_iff s (codes "Foo")).0 same) (unfold cmp in refl)
  | inr other ↦ ground arith
]

foo_deleted : effective renaming (revisions held.files) (codes "foo") ≡ some Action.delete
unfolding effective get keys revisions text_eq
foo_deleted = refl

foo_there : get (codes "foo") held.files ≡ some (stored (codes "x"))
unfolding get text_eq
foo_there = refl

foo_written :
    effective renaming (revisions held.files) (codes "Foo") ≡ some (Action.write (codes "x"))
unfolding effective get keys revisions text_eq
foo_written = refl

foo_absent : get (codes "Foo") held.files ≡ none
unfolding get text_eq
foo_absent = refl

same_fold : letter_case_fold ascii (codes "Foo") ≡ letter_case_fold ascii (codes "foo")
unfolding letter_case_fold
same_fold = refl

commit-folds_lost_example :
    (get (codes "Foo") (commit ascii held rename).0.files
      ≡ some (record {
        contents = codes "x";
        stat = record { modified = 7; revision = of ascii (codes "x") };
      }))
    × (get (letter_case_fold ascii (codes "Foo")) (commit ascii held rename).0.folds ≡ none)
commit-folds_lost_example =
    commit-folds_lost ascii held rename held-IsSorted renaming-IsSorted (codes "foo") (codes "Foo")
      (codes "x") (stored (codes "x")) renamed is_renamed foo_deleted foo_there foo_written
      foo_absent same_fold written_before

-- A Commit that writes `FOO` beside `Foo`.
abbrev clash : CommitRequest
clash = record {
  timestamp = 9;
  staged = record new { actions = (codes "FOO", Action.write (codes "y")) ∷ [] };
}

abbrev written : CommitOutcome
written = record {
  revisions = (codes "FOO", of ascii (codes "y")) ∷ [];
  changes = record { path = codes "FOO"; kind = changed } ∷ [];
  observed_before = [];
  pending = false;
}

is_accepted : (commit ascii (commit ascii held rename).0 clash).1 ≡ ok written
unfolding commit commit_plan apply apply_each kind_of change plan plan_changes planned index
    check_preconditions failing failing_prefixes conclude extend expand_prefix_deletes expand_each
    or_insert_delete or_delete leave_out_what_changes_nothing plan_each plan_one remove_all
    refuse_clashing_paths check_writes check_names check_name check_store refuse_name is_deleted
    segments_of prefixes_and_path prefixes without_trailing_slash first_segments before_slash
    has_name held_state list paths_in_range revisions covers letter_case_fold range_under in_range
    holds of of_bytes get insert remove retain keys starts_with strip_suffix text_eq cmp as_bytes
is_accepted = refl
