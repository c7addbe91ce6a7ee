-- ===== src/WorkingCopy/Tests/Commits.antt =====
-- A Commit of what is changed in a folder to a Store in memory (cli/src/working_copy.rs).
use tidings.WorkingCopy.Attempts.{Change}
use tidings.WorkingCopy.Commit.Ends.{commit_loop-ends, at_most_twice}
use tidings.WorkingCopy.Commit.Recorded.{recorded-unchanged}
use tidings.WorkingCopy.Attempts.{Working}
use tidings.WorkingCopy.Commit.{try_commit, rebase_each, commit_loop}
use tidings.WorkingCopy.Scan.Depth.{scan_directory-enough}
use tidings.WorkingCopy.Commit.NoOverwrite.{commit-overwrites_nothing}
use tidings.WorkingCopy.Theirs.{depth}
use tidings.Memory.{revision_of}
use tidings.Base.BTreeMap.{keys, get}
use tidings.Crates.Ascii.{ascii}
use tidings.WorkingCopy.Differences.Changes.{changes-at, difference_of, change_at}
use tidings.WorkingCopy.Differences.{Difference, unfit_paths, changes, Scan}
use tidings.WorkingCopy.Commit.Staged.{selected, Stages}
use tidings.WorkingCopy.Scan.{scan_directory, Gitignore}
use tidings.Base.Tests.{is_some, suc, ◌+◌, ◌≡◌, refl, some, none, true, false, List, [], ◌∷◌, arith}
use tidings.Base.Results.{ok}
use tidings.Base.Text.{cmp, contains, Text, codes, text_eq}
use tidings.Memory.{Held}
use tidings.Store.{Committed, memory, new, commit}
use tidings.WorkingCopy.Commit.Staged.{stage-Stages, Stages, selected}
use tidings.Staging
use tidings.Staging.{Action, Staging}
use tidings.Files.{absent, unchanged_since}
use tidings.WorkingCopy.Commit
use tidings.WorkingCopy.Reports.{LocalChange}
use tidings.WorkingCopy.Selection.{Selection}
use tidings.WorkingCopy.Tests.{env, disk, copy, base}

-- Nothing is ignored.
abbrev pub ignore_nothing : Gitignore (Unit {0})
ignore_nothing = record {
  empty = tt;
  add_line = λ g line. ok g;
  build = λ g. ok g;
  is_ignore = λ g name is_directory. false;
}

abbrev pub found : Scan
found = record {
  bases = copy.bases;
  files = (codes "a", codes "x") ∷ (codes "b", codes "local") ∷ [];
  invalid = [];
  ignored = [];
}

scan_directory-enough_example :
    scan_directory env ignore_nothing (3 + suc (depth (keys disk))) tt disk [] false found
    ≡ scan_directory env ignore_nothing (suc (depth (keys disk))) tt disk [] false found
scan_directory-enough_example = scan_directory-enough env ignore_nothing tt disk 3 false found

changes-at_example :
    change_at (codes "a") (changes env found)
    ≡ difference_of env
        (get (codes "a") found.files)
        (get (codes "a") found.bases)
        (contains (codes "a") (unfit_paths env found.invalid))
unfolding tidings.Base.Text.cmp
changes-at_example = changes-at env (codes "a") found ((refl, tt), (tt, tt)) (tt, tt)

abbrev staging : Staging
staging = record {
  preconditions = (codes "a", absent) ∷ (codes "b", unchanged_since 1) ∷ [];
  prefix_preconditions = [];
  actions = (codes "a", Action.write (codes "x")) ∷ (codes "b", Action.write (codes "local")) ∷ [];
  prefix_deletes = [];
}

abbrev changed : List Change
changed = (codes "a", LocalChange.added) ∷ (codes "b", LocalChange.modified) ∷ []

staged : Commit.stage env found Selection.all ≡ ok (staging, changed)
unfolding Commit.stage changes get text_eq tidings.WorkingCopy.Selection.covers
    Staging.write_requiring tidings.Paths.new tidings.Base.Text.starts_with tidings.Base.Text.split
    tidings.Paths.is_portable_name tidings.Base.Text.len
    tidings.Paths.is_device_name_sanitize_filename_misses tidings.Paths.trim_end_spaces
    tidings.Base.Text.split_once tidings.Paths.is_reserved tidings.Paths.letter_case_fold
    tidings.Paths.is_temporary_file_name tidings.Base.Text.rsplit_once tidings.Base.BTreeMap.insert
    tidings.Base.Digits.is_ascii_digit tidings.Base.Digits.is_lower_hexdigit
    tidings.Base.Text.as_bytes tidings.Base.Text.cmp tidings.Base.Text.strip_prefix
    tidings.Paths.device_of tidings.Paths.is_temporary tidings.Paths.refusal
    Staging.add_precondition Staging.delete_requiring Staging.stage Commit.stage_each
    tidings.WorkingCopy.Differences.changed tidings.WorkingCopy.Differences.deleted_paths
    tidings.WorkingCopy.Differences.local_change tidings.WorkingCopy.Differences.path_of_name
    unfit_paths tidings.WorkingCopy.Record.base_holds tidings.WorkingCopy.Record.hash_of
    tidings.WorkingCopy.Selection.target_covers
staged = refl

stage-Stages_example : Stages Staging.new staging (selected Selection.all (changes env found))
stage-Stages_example = (stage-Stages env Selection.all found (staging, changed) staged).0

abbrev kept : Held
kept = record {
  files =
      (codes "b", record { contents = codes "was"; stat = record { modified = 5; revision = 1 } })
      ∷ [];
  folds = (codes "b", codes "b") ∷ [];
}

abbrev done : Committed
done = record { timestamp = 9; revisions = (codes "a", 377) ∷ (codes "b", 1593954799372) ∷ [] }

committed_both : (commit ascii (memory ascii) (new 1 kept) 9 staging).1 ≡ ok done
unfolding tidings.Store.new tidings.Store.memory tidings.Store.commit_checked
    tidings.Store.conclude_commit tidings.Staging.refuse_wrong_prefix_revisions tidings.Store.commit
    tidings.Memory.commit tidings.Memory.commit_plan tidings.Commits.apply
    tidings.Commits.apply_each tidings.Commits.kind_of tidings.Memory.change tidings.Commits.plan
    tidings.Commits.plan_changes tidings.Commits.planned tidings.Commits.index
    tidings.Commits.Steps.check_preconditions tidings.Commits.Steps.failing
    tidings.Commits.Steps.failing_prefixes tidings.Commits.Steps.conclude
    tidings.Commits.Steps.extend tidings.Commits.Steps.expand_prefix_deletes
    tidings.Commits.Steps.expand_each tidings.Commits.Steps.or_insert_delete
    tidings.Commits.Steps.or_delete tidings.Commits.Steps.leave_out_what_changes_nothing
    tidings.Commits.Steps.plan_each tidings.Commits.Steps.plan_one tidings.Commits.Steps.remove_all
    tidings.Commits.Names.refuse_clashing_paths tidings.Commits.Names.check_writes
    tidings.Commits.Names.check_names tidings.Commits.Names.check_name
    tidings.Commits.Names.check_store tidings.Commits.Names.refuse_name
    tidings.Commits.Names.is_deleted tidings.Commits.Names.segments_of
    tidings.Commits.Names.prefixes_and_path tidings.Commits.Names.prefixes
    tidings.Commits.Names.without_trailing_slash tidings.Commits.Names.first_segments
    tidings.Commits.Names.before_slash tidings.Commits.Names.has_name tidings.Memory.held_state
    tidings.Memory.list tidings.Memory.paths_in_range tidings.Memory.revisions
    tidings.Prefixes.covers tidings.Paths.letter_case_fold tidings.Paths.range_under
    tidings.Paths.in_range tidings.Files.holds tidings.Revisions.of tidings.Revisions.of_bytes
    tidings.Base.BTreeMap.get tidings.Base.BTreeMap.insert tidings.Base.BTreeMap.remove
    tidings.Base.BTreeMap.retain tidings.Base.BTreeMap.keys tidings.Base.Text.starts_with
    tidings.Base.Text.strip_suffix tidings.Base.Text.text_eq tidings.Base.Text.cmp
    tidings.Base.Text.as_bytes
committed_both = refl

b_there :
    change_at (codes "b") (selected Selection.all (changes env found))
    ≡ some (Difference.modified (codes "local") base)
unfolding changes get text_eq tidings.WorkingCopy.Selection.covers
    tidings.WorkingCopy.Record.base_holds tidings.WorkingCopy.Record.hash_of
    tidings.Base.Text.as_bytes
b_there = refl

commit-overwrites_nothing_example :
    revision_of (get (codes "b") (new 1 kept).backend.files) ≡ some 1
commit-overwrites_nothing_example =
    commit-overwrites_nothing env found Selection.all (new 1 kept) (unfold new in (tt, tt)) 9
      (staging, changed) done (codes "b") (Difference.modified (codes "local") base) staged
      committed_both b_there

-- What a scan finds once the Commit is recorded.
abbrev found_after : Scan
found_after = record found {
  bases = (rebase_each env done.revisions found.files changed copy).bases;
}

b_given : is_some (get (codes "b") done.revisions) ≡ true
unfolding get cmp text_eq
b_given = refl

recorded-unchanged_example : change_at (codes "b") (changes env found_after) ≡ none
unfolding tidings.Base.Text.cmp text_eq
recorded-unchanged_example =
    recorded-unchanged env done.revisions found.files found_after changed copy (codes "b")
      ((refl, tt), (tt, tt)) (tt, tt) refl refl refl (λ there. b_given)

abbrev working : Working Held
working = record { store = new 1 kept; record_now = copy; saved = copy; disk = disk }

commit_loop-ends_example :
    commit_loop env (memory ascii) ignore_nothing 2 (λ again. 9) Selection.all false working
    ≡ some (
        at_most_twice env
          (memory ascii)
          ignore_nothing
          (λ again. 9)
          Selection.all
          (try_commit env (memory ascii) ignore_nothing working 9 Selection.all))
commit_loop-ends_example =
    commit_loop-ends env (memory ascii) ignore_nothing (λ again. 9) Selection.all 2 working
      (omega arith)
