-- ===== src/WorkingCopy/Differences.antt =====
-- What a scan of a Working copy's folder finds, and how that differs from the Bases
-- (cli/src/working_copy/scan.rs).
pub mod Changes
use tidings.Base.Digits.{decimal}
use Prim.Native.Nat.{Ordering}
use tidings.Base.Tests.{
  ℕ, zero, suc, ◌+◌, Bool, true, false, not, ◌&&◌, ◌||◌, Option, none, some, List, [], ◌∷◌, ◌++◌,
  is_some, ◌==◌, leb, if◌then◌else◌,
}
use tidings.Base.Lists.{all}
use tidings.Base.Results.{Result, ok, err, ◌>>=◌}
use tidings.Base.Lines.{lines}
use tidings.Base.Text.{Text, slash, codes, cmp, contains, split, text_eq, starts_with, strip_prefix}
use tidings.Base.BTreeMap.{BTreeMap, get, insert, keys}
use tidings.Error.{InvalidPathReason}
use tidings.Paths.{refusal}
use tidings.Disk.{
  Node, file, not_text, symlink, special, dir, Disk, ErrorKind, not_found, invalid_data, IoError,
  map_error, symlink_metadata, read_to_string, read_dir, read_entry, file_type,
}
use tidings.WorkingCopy.Record.{Base, Record, base_holds}
use tidings.WorkingCopy.Reports.{record_directory, ignore_file, join, LocalName, Unfit, LocalChange}
use tidings.WorkingCopy.Failures.{Failure, failure, reason_text}
use tidings.WorkingCopy.Folder.{Env, failed_at}
use tidings.WorkingCopy.Theirs.{depth}

pub record Scan : Type 0 where
  pub bases : BTreeMap Base
  pub files : BTreeMap Text
  pub invalid : List Unfit
  pub ignored : List LocalName

pub data Difference : Type 0 where
  added : Text → Difference
  modified : Text → Base → Difference
  deleted : Base → Difference

-- `Difference::local_change`.
unfoldable pub local_change : Difference → LocalChange
local_change (Difference.added contents) = LocalChange.added
local_change (Difference.modified contents base) = LocalChange.modified
local_change (Difference.deleted base) = LocalChange.deleted

module _ (env : Env) where
  open env use {crates}

  -- `LocalName::path`.
  unfoldable pub path_of_name : LocalName → Option Text
  path_of_name name = elim (refusal crates name) [ some _ ↦ none | none ↦ some name ]

  -- The files that are added or modified, in order.
  unfoldable pub changed : BTreeMap Base → BTreeMap Text → List (Text × Difference)
  changed bases [] = []
  changed bases ((path, contents) ∷ files) =
      let rest = changed bases files in
      elim (get path bases) [
        | none ↦ (path, Difference.added contents) ∷ rest
        | some base ↦
            if base_holds crates base contents
            then rest
            else (path, Difference.modified contents base) ∷ rest
      ]

  -- The Paths of the files that can't become Files.
  unfoldable pub unfit_paths : List Unfit → List Text
  unfolding path_of_name
  unfit_paths [] = []
  unfit_paths (unfit ∷ more) = elim (path_of_name unfit.name) [
    | none ↦ unfit_paths more
    | some path ↦ path ∷ unfit_paths more
  ]

  -- The Paths that are deleted, in order.
  unfoldable pub deleted_paths :
      BTreeMap Text → List Text → BTreeMap Base → List (Text × Difference)
  deleted_paths files unfit [] = []
  deleted_paths files unfit ((path, base) ∷ bases) =
      let rest = deleted_paths files unfit bases in
      if is_some (get path files) || contains path unfit
      then rest
      else (path, Difference.deleted base) ∷ rest

  -- `Scan::changes`.
  unfoldable pub changes : Scan → List (Text × Difference)
  unfolding changed deleted_paths unfit_paths
  changes scan =
      changed scan.bases scan.files
      ++ deleted_paths scan.files (unfit_paths scan.invalid) scan.bases
