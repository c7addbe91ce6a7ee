-- ===== src/WorkingCopy/Theirs.antt =====
-- The `theirs` files of a Working copy, in `.tidings/theirs/` (cli/src/working_copy.rs).
pub mod Outside
use tidings.Base.Tests.{
  ℕ, zero, suc, ◌+◌, Bool, true, false, not, ◌&&◌, Option, none, some, List, [], ◌∷◌, ◌++◌, is_some,
  if◌then◌else◌,
}
use tidings.Base.Lists.{length}
use tidings.Base.Results.{Result, ok, err}
use tidings.Base.Text.{Text, codes, text_eq}
use tidings.Base.BTreeMap.{BTreeMap, get, keys}
use tidings.Paths.{refusal}
use tidings.Disk.{
  Node, file, not_text, symlink, special, dir, Disk, ErrorKind, not_found, directory_not_empty,
  IoError, Io, pure, fail, map_err, map_error, symlink_metadata, read_dir, read_entry, file_type,
  remove_dir, remove_file,
}
use tidings.WorkingCopy.Record.{Record}
use tidings.WorkingCopy.Reports.{
  record_directory, theirs_directory, join, Blocked, reason, SyncEvent,
}
use tidings.WorkingCopy.Failures.{Failure, failure, in_context, of_io}
use tidings.WorkingCopy.Folder.{
  Env, under_top, theirs_file, blocking_directory, write, remove_file_and_emptied_directories,
}

-- `.tidings/theirs`.
abbrev pub theirs_top : Text
theirs_top = join record_directory theirs_directory

-- `metadata.is_file()`.
abbrev pub is_file : Result IoError Node → Bool
is_file (ok (file _)) = true
is_file (ok not_text) = true
is_file _ = false

-- The closure `failed` of `settle_theirs_at`.
unfoldable pub failed_under : Text → Text → IoError → Failure
failed_under at name e = if text_eq name at then of_io e else in_context (of_io e) name

-- What a sweep of `theirs/` has come to: the folder, and the events.
abbrev pub Swept : Type 0
Swept = Disk × List SyncEvent

abbrev pub depth : List Text → ℕ
depth [] = 0
depth (name ∷ names) = length name + depth names

module _ (env : Env) where
  open env use {crates, os, is_utf8}

  abbrev pub written_theirs : Text → Text → Bool → Io Failure (Unit {0})
  written_theirs at contents true = pure tt
  written_theirs at contents false = write env (failed_under at) at contents

  abbrev removed_theirs : Text → Result IoError Node → Io Failure (Unit {0})
  removed_theirs at (ok _) = remove_file_and_emptied_directories env (failed_under at) theirs_top at
  removed_theirs at (err e) = elim e.kind [ not_found ↦ pure tt | _ ↦ fail (of_io e) ]

  abbrev settled_at :
      Text → Option Text → Bool → Result Failure (Option Blocked) → Io Failure (Unit {0})
  settled_at at theirs force (err f) d = (d, err f)
  settled_at at (some _) force (ok (some blocked)) d =
      (d, err (failure (reason blocked ++ (codes " in " ++ record_directory))))
  settled_at at (some contents) force (ok none) d =
      written_theirs at contents (not force && is_file (symlink_metadata os d at)) d
  settled_at at none force (ok (some _)) d = (d, ok tt)
  settled_at at none force (ok none) d = removed_theirs at (symlink_metadata os d at) d

  -- `WorkingCopy::settle_theirs_at`.
  unfoldable pub settle_theirs_at : Text → Option Text → Bool → Io Failure (Unit {0})
  unfolding write remove_file_and_emptied_directories failed_under
  settle_theirs_at at theirs force d =
      settled_at at theirs force (blocking_directory env record_directory d at) d

  -- `WorkingCopy::settle_theirs`.
  unfoldable pub settle_theirs : Text → Option Text → Bool → Io Failure (Unit {0})
  unfolding settle_theirs_at
  settle_theirs path theirs force =
      map_err
        (λ f.
          in_context f (
            codes (if is_some theirs then "can't write " else "can't remove ") ++ theirs_file path))
        (settle_theirs_at (theirs_file path) theirs force)

  -- The closure `failed` of `remove_stale_theirs_in`, at this name in the folder.
  unfoldable pub sweep_failed : Text → Text → IoError → List SyncEvent
  unfolding under_top
  sweep_failed at what e =
      let path = under_top theirs_top at in
      elim (refusal crates path) [
        | some _ ↦ []
        | none ↦
            SyncEvent.error path
              (codes "can't " ++ (what ++ (codes " " ++ (at ++ (codes ": " ++ e.text)))))
            ∷ []
      ]

  abbrev is_path : Text → Bool
  is_path name = not (is_some (refusal crates name))

  abbrev swept_dir : Text → List SyncEvent → Disk × Result IoError (Unit {0}) → Swept
  swept_dir at events (after, ok _) = (after, events)
  swept_dir at events (after, err e) = elim e.kind [
    | directory_not_empty ↦ (after, events)
    | _ ↦ (after, events ++ sweep_failed at (codes "remove") e)
  ]

  abbrev swept_file : Text → List SyncEvent → Disk × Result IoError (Unit {0}) → Swept
  swept_file at events (after, ok _) = (after, events)
  swept_file at events (after, err e) = (after, events ++ sweep_failed at (codes "remove") e)

  abbrev remove_stale_dir : Text → Swept → Swept
  remove_stale_dir at (d, events) = swept_dir at events (remove_dir os at d)

  -- An entry that no Diverged Path has, by what it is.
  abbrev sweep_typed : (Text → Swept → Swept) → Text → Result IoError Node → Swept → Swept
  sweep_typed inner at (err e) (d, events) = (d, events ++ sweep_failed at (codes "read") e)
  sweep_typed inner at (ok dir) (d, events) = remove_stale_dir at (inner at (d, events))
  sweep_typed inner at (ok _) (d, events) =
      if is_path (under_top theirs_top at)
      then swept_file at events (remove_file os at d)
      else (d, events)

  -- One round of the loop of `remove_stale_theirs_in`.
  abbrev sweep_entry : (Text → Swept → Swept) → Record → Text → Swept → Swept
  sweep_entry inner r at (d, events) =
      let path = under_top theirs_top at in
      if not (is_utf8 at)
      then (d, events)
      else if is_path path && is_some (get path r.divergences)
      then (d, events)
      else sweep_typed inner at (file_type os d at) (d, events)

  -- The loop; an entry that can't be read ends it.
  unfoldable pub sweep_entries : (Text → Swept → Swept) → Record → Text → List Text → Swept → Swept
  unfolding sweep_failed
  sweep_entries inner r at [] s = s
  sweep_entries inner r at (child ∷ children) (d, events) =
      let rest = sweep_entries inner r at children (sweep_entry inner r child (d, events)) in
      elim (read_entry os d child) [
        | err e ↦ (d, events ++ sweep_failed at (codes "read") e)
        | ok _ ↦ rest
      ]

  -- `remove_stale_theirs_in`, with fuel for each level of directories.
  unfoldable pub remove_stale_theirs_in : ℕ → Record → Text → Swept → Swept
  unfolding sweep_entries
  remove_stale_theirs_in zero r at s = s
  remove_stale_theirs_in (suc fuel) r at (d, events) = elim (read_dir os d at) [
    | err e ↦ (d, events ++ sweep_failed at (codes "read") e)
    | ok children ↦ sweep_entries (remove_stale_theirs_in fuel r) r at children (d, events)
  ]

  -- `WorkingCopy::remove_stale_theirs`. No directory is deeper than its name is long.
  unfoldable pub remove_stale_theirs : Record → Disk → Swept
  unfolding remove_stale_theirs_in
  remove_stale_theirs r d = elim (symlink_metadata os d theirs_top) [
    | ok dir ↦ remove_stale_theirs_in (suc (depth (keys d))) r theirs_top (d, [])
    | _ ↦ (d, [])
  ]
