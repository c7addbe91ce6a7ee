-- ===== src/WorkingCopy/Tests/Settles.antt =====
-- `discard` and `resolve` tried on a folder (cli/src/working_copy/settle.rs).
use tidings.WorkingCopy.Status.{statuses}
use tidings.WorkingCopy.Status.Refusals.{statuses-refused, is_refused, is_changed_at}
use tidings.Base.Lists.{any}
use tidings.WorkingCopy.Settle.Chosen.{discardable-chosen}
use tidings.WorkingCopy.Differences.{Scan, unfit_paths, changes}
use tidings.WorkingCopy.Differences.Changes.{change_at}
use tidings.WorkingCopy.Settle.Discard.{discard-keeps}
use tidings.WorkingCopy.Settle.{chosen_at, discardable, discard}
use tidings.Base.BTreeMap.{get}
use tidings.Disk.Leaves.{held}
use tidings.WorkingCopy.Resolve.Settled.{
  resolve-IsResolved, resolve-refuses, not_diverged, IsResolved,
}
use tidings.Base.Tests.{
  not, ◌∙◌, sym, ◌≡◌, ◌≢◌, refl, none, false, ◌&&◌, ◌||◌, is_some, List, [], ◌∷◌,
}
use tidings.Base.Results.{ok, is_ok}
use tidings.Base.Text.{contains, Text, codes, text_eq}
use tidings.Memory.{Held}
use tidings.Store.{memory, new}
use tidings.WorkingCopy.Attempts.{Working}
use tidings.WorkingCopy.Selection.{
  refuse_invalid, refuse_diverged, Selection, NamedPath, Target, covers,
}
use tidings.WorkingCopy.Resolve.{resolve}
use tidings.Crates.Ascii.{ascii}
use tidings.WorkingCopy.Tests.Commits.{ignore_nothing, found}
use tidings.WorkingCopy.Tests.{env, disk, copy}

abbrev empty : Held
empty = record { files = []; folds = [] }

abbrev working : Working Held
working = record {
  store = new 1 empty;
  record_now = record copy { divergences = (codes "b", record { theirs = none }) ∷ [] };
  saved = copy;
  disk = disk;
}

abbrev name_a : NamedPath
name_a = record { given = codes "a"; target = Target.under (codes "a") }

abbrev name_b : NamedPath
name_b = record { given = codes "b"; target = Target.under (codes "b") }

a_given : not_diverged env (memory ascii) working.record_now (name_a ∷ []) ≡ name_a.given ∷ []
unfolding tidings.Paths.refusal text_eq tidings.Base.Text.starts_with tidings.Base.Text.split
    tidings.Paths.is_portable_name tidings.Base.Text.len
    tidings.Paths.is_device_name_sanitize_filename_misses tidings.Paths.trim_end_spaces
    tidings.Base.Text.split_once tidings.Paths.is_reserved tidings.Paths.letter_case_fold
    tidings.Paths.is_temporary_file_name tidings.Base.Text.rsplit_once get
    tidings.Base.Digits.is_ascii_digit tidings.Base.Digits.is_lower_hexdigit
    tidings.Base.Text.as_bytes tidings.Base.Text.cmp tidings.Base.Text.strip_prefix
    tidings.Paths.device_of tidings.Paths.is_temporary tidings.WorkingCopy.Differences.path_of_name
a_given = refl

a_refused : not_diverged env (memory ascii) working.record_now (name_a ∷ []) ≢ []
a_refused h = absurd (cons_not_nil (sym a_given ∙ h))
  where
    cons_not_nil : ◌≡◌ {A = List Text} (name_a.given ∷ []) [] → ⊥
    cons_not_nil h = cc

resolve-refuses_example :
    ((resolve env (memory ascii) (Selection.named (name_a ∷ [])) working).0 ≡ working)
    × (is_ok (resolve env (memory ascii) (Selection.named (name_a ∷ [])) working).1 ≡ false)
resolve-refuses_example = resolve-refuses env (memory ascii) (name_a ∷ []) working a_refused

discardable-chosen_example :
    is_some (get (codes "a") (discardable env found working.record_now Selection.all)) ≡ (
      (covers Selection.all (codes "a") && is_some (get (codes "a") working.record_now.divergences))
      || (chosen_at env working.record_now Selection.all (codes "a")
          && (is_some (change_at (codes "a") (changes env found))
              || contains (codes "a") (unfit_paths env found.invalid))))
discardable-chosen_example =
    discardable-chosen env working.record_now Selection.all (codes "a") found

-- `a` is not chosen, as it has no Base and isn't named.
a_spared :
    (scanned : Scan)
    → is_some (get (codes "a") (discardable env scanned working.record_now Selection.all)) ≡ false
unfolding get text_eq tidings.WorkingCopy.Selection.names_itself
    tidings.WorkingCopy.Selection.covers
a_spared scanned =
    discardable-chosen env working.record_now Selection.all (codes "a") scanned ∙ refl

discard-keeps_example :
    held (codes "a") (discard env (memory ascii) ignore_nothing Selection.all working).0.disk
    ≡ held (codes "a") disk
unfolding tidings.Base.Text.starts_with
discard-keeps_example =
    discard-keeps env (codes "a") (memory ascii) refl ignore_nothing Selection.all working
      (λ scanned h. a_spared scanned)

abbrev resolved : Working Held
resolved = record working {
  record_now = record copy { bases = [] };
  saved = record copy { bases = [] };
}

b_resolved : resolve env (memory ascii) (Selection.named (name_b ∷ [])) working ≡ (
  resolved,
  ok (record { resolved = record { path = codes "b"; revision = none } ∷ []; events = [] }),
)
unfolding resolve tidings.Paths.refusal text_eq tidings.Base.Text.starts_with
    tidings.Base.Text.split tidings.Paths.is_portable_name tidings.Base.Text.len
    tidings.Paths.is_device_name_sanitize_filename_misses tidings.Paths.trim_end_spaces
    tidings.Base.Text.split_once tidings.Paths.is_reserved tidings.Paths.letter_case_fold
    tidings.Paths.is_temporary_file_name tidings.Base.Text.rsplit_once get
    tidings.Base.Digits.is_ascii_digit tidings.Base.Digits.is_lower_hexdigit
    tidings.Base.Text.as_bytes tidings.Base.Text.cmp tidings.Base.Text.strip_prefix
    tidings.Paths.device_of tidings.Paths.is_temporary tidings.WorkingCopy.Differences.path_of_name
    tidings.WorkingCopy.Commit.save new tidings.Base.BTreeMap.keys tidings.Base.BTreeMap.insert
    tidings.Base.BTreeMap.remove tidings.Disk.children tidings.Disk.file_type tidings.Disk.is_child
    tidings.Disk.read_dir tidings.Disk.read_entry tidings.Disk.remove_dir tidings.Disk.remove_file
    tidings.Disk.symlink_metadata tidings.WorkingCopy.Folder.under_top
    tidings.WorkingCopy.Record.set_base tidings.WorkingCopy.Record.theirs_revision
    tidings.WorkingCopy.Resolve.resolve_each tidings.WorkingCopy.Resolve.sort_named
    tidings.WorkingCopy.Theirs.remove_stale_theirs tidings.WorkingCopy.Theirs.remove_stale_theirs_in
    tidings.WorkingCopy.Theirs.sweep_entries
b_resolved = refl

resolve-IsResolved_example :
    IsResolved env (memory ascii) (codes "b") (name_b ∷ []) working resolved
resolve-IsResolved_example =
    resolve-IsResolved env (memory ascii) (codes "b") (name_b ∷ []) working resolved
      (record { resolved = record { path = codes "b"; revision = none } ∷ []; events = [] })
      b_resolved

statuses-refused_example :
    (any (is_changed_at (codes "a")) (statuses env working.record_now found) ≡ (
      not (is_some (get (codes "a") working.record_now.divergences))
      && is_some (change_at (codes "a") (changes env found))))
    × (any is_refused (statuses env working.record_now found) ≡ (
        not (is_ok (refuse_diverged working.record_now Selection.all))
        || not (is_ok (refuse_invalid found.invalid Selection.all))))
statuses-refused_example = statuses-refused env working.record_now found (codes "a")
