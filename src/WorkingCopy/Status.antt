-- ===== src/WorkingCopy/Status.antt =====
-- `status` of a Working copy (cli/src/working_copy.rs), under its lock. Whether `sync.lock` is held is
-- given.
pub mod Refusals
use tidings.Base.Tests.{
  Bool, true, false, not, Option, none, some, List, [], ◌∷◌, ◌++◌, is_some, map, if◌then◌else◌,
}
use tidings.Base.Lists.{filter}
use tidings.Base.Results.{Result, ok, err, ◌>>=◌}
use tidings.Base.Text.{Text}
use tidings.Base.BTreeMap.{BTreeMap, get}
use tidings.Disk.{Disk}
use tidings.WorkingCopy.Record.{Record}
use tidings.WorkingCopy.Reports.{DivergedPath, LocalChange, Unfit}
use tidings.WorkingCopy.Failures.{Failure}
use tidings.WorkingCopy.Folder.{Env}
use tidings.WorkingCopy.Differences.{Scan, Difference, local_change, path_of_name, changes}
use tidings.WorkingCopy.Scan.{Gitignore, sort_by_name, scan}
use tidings.WorkingCopy.Selection.{Selection, diverged_paths}

pub data PathStatus : Type 0 where
  changed : Text → LocalChange → PathStatus
  diverged : DivergedPath → PathStatus
  invalid : Unfit → PathStatus

-- `PathStatus::name`.
abbrev pub name_of : PathStatus → Text
name_of (changed path change) = path
name_of (diverged at) = at.path
name_of (invalid unfit) = unfit.name

pub record StatusReport : Type 0 where
  pub paths : List PathStatus
  pub syncing : Bool

module _ (env : Env) where
  -- The local changes of the Paths that aren't Diverged.
  unfoldable pub changed_statuses : Record → List (Text × Difference) → List PathStatus
  unfolding local_change
  changed_statuses r [] = []
  changed_statuses r ((path, difference) ∷ more) =
      let rest = changed_statuses r more in
      if is_some (get path r.divergences)
      then rest
      else changed path (local_change difference) ∷ rest

  abbrev pub names_diverged : Record → Option Text → Bool
  names_diverged r none = false
  names_diverged r (some path) = is_some (get path r.divergences)

  -- The files that can't become Files, but for those at a Diverged Path.
  unfoldable pub invalid_statuses : Record → List Unfit → List PathStatus
  unfolding path_of_name
  invalid_statuses r [] = []
  invalid_statuses r (unfit ∷ more) =
      let rest = invalid_statuses r more in
      if names_diverged r (path_of_name env unfit.name) then rest else invalid unfit ∷ rest

  unfoldable pub statuses : Record → Scan → List PathStatus
  unfolding changed_statuses invalid_statuses diverged_paths sort_by_name
  statuses r found = sort_by_name name_of (
      changed_statuses r (changes env found)
      ++ (map diverged (diverged_paths r Selection.all) ++ invalid_statuses r found.invalid))

  -- `WorkingCopy::status`.
  unfoldable pub status :
      {G : Type 0} → Gitignore G → Result Failure Bool → Record → Disk → Result Failure StatusReport
  unfolding statuses
  status gitignore syncing r d = syncing >>= λ held. scan env gitignore d r.bases >>= λ found.
      ok (record { paths = statuses r found; syncing = held })
