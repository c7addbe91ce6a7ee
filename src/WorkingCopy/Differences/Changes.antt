-- ===== src/WorkingCopy/Differences/Changes.antt =====
-- How the folder differs from the Bases (cli/src/working_copy/scan.rs, `Scan::changes`).
use tidings.Base.Tests.{
  ◌≡◌, refl, Bool, true, ◌||◌, Option, none, some, List, [], ◌∷◌, ◌++◌, arith, is_some,
  if◌then◌else◌,
}
use tidings.Base.Text.{Text, contains, text_eq, text_eq_iff}
use tidings.Base.BTreeMap.{BTreeMap, get}
use tidings.Base.BTreeMap.Sorted.{AllAbove, IsSorted, get_of_AllAbove}
use tidings.WorkingCopy.Record.{Base, base_holds}
use tidings.WorkingCopy.Folder.{Env}
use tidings.WorkingCopy.Differences.{Scan, Difference, changed, unfit_paths, deleted_paths, changes}

-- What a list of changes says of a Path.
abbrev pub change_at : Text → List (Text × Difference) → Option Difference
change_at path [] = none
change_at path ((other, difference) ∷ more) =
    if text_eq path other then some difference else change_at path more

abbrev or_else : Option Difference → Option Difference → Option Difference
or_else none other = other
or_else (some difference) other = some difference

change_at-append :
    (path : Text) (xs ys : List (Text × Difference))
    → change_at path (xs ++ ys) ≡ or_else (change_at path xs) (change_at path ys)
change_at-append path [] ys = refl
change_at-append path ((other, difference) ∷ xs) ys = ground (arith, change_at-append path xs ys)

module _ (env : Env) where
  open env use {crates}

  -- How a file differs from its Base.
  abbrev pub file_difference : Text → Option Base → Option Difference
  file_difference contents none = some (Difference.added contents)
  file_difference contents (some base) =
      if base_holds crates base contents then none else some (Difference.modified contents base)

  -- How a Path differs from its Base, whatever else there is: by the file there, the Base, and
  -- whether something that can't be a File stands there.
  abbrev pub difference_of : Option Text → Option Base → Bool → Option Difference
  difference_of (some contents) base unfit = file_difference contents base
  difference_of none none unfit = none
  difference_of none (some base) unfit = if unfit then none else some (Difference.deleted base)

  absent_above :
      {V : Type 0} (path j : Text) (v : V) (m : BTreeMap V)
      → AllAbove j m
      → text_eq path j ≡ true
      → get path m ≡ none
  absent_above path j v m above here = rw ((text_eq_iff path j).0 here) (get_of_AllAbove j m above)

  changed-at :
      (path : Text) (bases : BTreeMap Base) (files : BTreeMap Text)
      → IsSorted files
      → change_at path (changed env bases files) ≡ (elim (get path files) [
        | none ↦ none
        | some contents ↦ file_difference contents (get path bases)
      ])
  unfolding changed get
  changed-at path bases [] s = refl
  changed-at path bases ((j, contents) ∷ files) (above, s) = ground (
    arith,
    changed-at path bases files s,
    absent_above path j contents files above,
    text_eq_iff path j,
  )

  deleted-at :
      (path : Text) (files : BTreeMap Text) (unfit : List Text) (bases : BTreeMap Base)
      → IsSorted bases
      → change_at path (deleted_paths env files unfit bases) ≡ (elim (get path bases) [
        | none ↦ none
        | some base ↦
            if is_some (get path files) || contains path unfit
            then none
            else some (Difference.deleted base)
      ])
  unfolding deleted_paths get
  deleted-at path files unfit [] s = refl
  deleted-at path files unfit ((j, base) ∷ bases) (above, s) = ground (
    arith,
    deleted-at path files unfit bases s,
    absent_above path j base bases above,
    text_eq_iff path j,
  )

  -- What the changes of a scan, its files and Bases in order of Path, say of each Path is how it
  -- differs from its Base: nothing where its contents are the Base's; and a Path where something
  -- can't be a File is not deleted.
  pub changes-at :
      (path : Text) (scan : Scan)
      → IsSorted scan.files
      → IsSorted scan.bases
      → change_at path (changes env scan)
        ≡ difference_of
            (get path scan.files)
            (get path scan.bases)
            (contains path (unfit_paths env scan.invalid))
  unfolding changes
  changes-at path scan files_sorted bases_sorted =
      let unfit = unfit_paths env scan.invalid in
      ground (
        arith,
        change_at-append path (changed env scan.bases scan.files)
            (deleted_paths env scan.files unfit scan.bases),
        changed-at path scan.bases scan.files files_sorted,
        deleted-at path scan.files unfit scan.bases bases_sorted,
      )
