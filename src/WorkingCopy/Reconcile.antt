-- ===== src/WorkingCopy/Reconcile.antt =====
-- Reconciling Paths of a Working copy with what the Store holds (cli/src/working_copy.rs): one
-- Path, and then many, with their `theirs` files. The Store is `read`, which is asked once for each
-- Path. A call that fails gives no record: the one that was saved stays.
pub mod Safety
pub mod Updates
pub mod Settles
pub mod Again
pub mod Paths
use tidings.Base.Tests.{
  Bool, true, false, not, ◌&&◌, ◌||◌, Option, none, some, List, [], ◌∷◌, ◌++◌, is_some,
  if◌then◌else◌,
}
use tidings.Base.Results.{Result, ok, err}
use tidings.Base.Text.{Text, codes, text_eq}
use tidings.Base.BTreeMap.{BTreeMap, get, insert, remove, keys}
use tidings.Error.{Outcome}
use tidings.Files.{Revision, File, same_revision}
use tidings.Disk.{
  Node, file, not_text, symlink, special, dir, Disk, ErrorKind, not_found, IoError, Io, ◌>>=◌, ◌>>◌,
  pure, fail, symlink_metadata,
}
use tidings.WorkingCopy.Record.{
  Base, Divergence, Record, base_of_file, base_holds, set_base, theirs_revision,
}
use tidings.WorkingCopy.Reports.{
  record_directory, theirs_directory, join, Blocked, reason, DivergedPath, SyncEvent, Local,
  Reconciled, path_of,
}
use tidings.WorkingCopy.Failures.{Failure, failure, in_context, of_io, of_error}
use tidings.WorkingCopy.Folder.{
  Env, theirs_file, blocking_directory, local, write, remove_file_and_emptied_directories, apply,
}

abbrev pub revision_of : Option File → Option Revision
revision_of none = none
revision_of (some f) = some f.stat.revision

abbrev pub base_revision : Option Base → Option Revision
base_revision none = none
base_revision (some base) = some base.revision

abbrev pub recorded_theirs : Option Divergence → Option (Option Revision)
recorded_theirs none = none
recorded_theirs (some divergence) = some (theirs_revision divergence)

-- `==` of `Option<Option<Revision>>`.
abbrev pub same_theirs : Option (Option Revision) → Option (Option Revision) → Bool
same_theirs none none = true
same_theirs none (some s) = false
same_theirs (some r) none = false
same_theirs (some r) (some s) = same_revision r s

-- `resolve`.
unfoldable pub resolve : Record → Text → Record × Option SyncEvent
resolve r path = elim (get path r.divergences) [
  | none ↦ (r, none)
  | some _ ↦ (record r { divergences = remove path r.divergences }, some (SyncEvent.resolved path))
]

abbrev pub same_as_store : Local → Option File → Bool
same_as_store Local.absent none = true
same_as_store Local.directory none = true
same_as_store (Local.file contents) (some theirs) = text_eq contents theirs.contents
same_as_store _ _ = false

-- A directory at the Path itself blocks too.
abbrev pub blocked_by : Option Blocked → Local → Text → Option Blocked
blocked_by none Local.directory path = some (Blocked.directory path)
blocked_by blocked _ path = blocked

module _ (env : Env) where
  open env use {crates, os}

  abbrev pub base_of_theirs : Option File → Option Base
  base_of_theirs none = none
  base_of_theirs (some theirs) = some (base_of_file crates theirs)

  abbrev pub theirs_of : Option File → Text → Option Text
  theirs_of none path = none
  theirs_of (some _) path = some (theirs_file path)

  -- `diverge`.
  unfoldable pub diverge : Record → Text → Option File → Option Blocked → Record × Option SyncEvent
  diverge r path theirs blocked =
      let divergence : Divergence = record { theirs = base_of_theirs theirs } in
      (
        record r { divergences = insert path divergence r.divergences },
        if same_theirs (recorded_theirs (get path r.divergences))
              (some (theirs_revision divergence))
            then none
            else some (
                SyncEvent.diverged
                  (record { path = path; theirs_file = theirs_of theirs path; blocked = blocked })),
      )

  abbrev pub unchanged : Local → Option Base → Bool
  unchanged Local.absent none = true
  unchanged Local.directory none = true
  unchanged (Local.file contents) (some base) = base_holds crates base contents
  unchanged _ _ = false

  -- The Base becomes the Store's File.
  abbrev pub rebased : Record → Text → Option File → Record
  rebased r path theirs = set_base r path (base_of_theirs theirs)

  -- What `reconcile_path` does where the local file is unchanged and not the Store's.
  abbrev pub apply_unblocked :
      Record → Text → Option File → Local → Option Blocked → Io Failure (Record × Option SyncEvent)
  apply_unblocked r path theirs held (some blocked) = pure (diverge r path theirs (some blocked))
  apply_unblocked r path theirs held none = apply env path held theirs >>= λ event.
      pure (rebased (record r { divergences = remove path r.divergences }) path theirs, some event)

  -- The rest of `reconcile_path`, once it is known what blocks the Path and what is there.
  unfoldable pub reconcile_local :
      Record → Text → Option File → Option Blocked → Local → Io Failure (Record × Option SyncEvent)
  unfolding apply diverge resolve
  reconcile_local r path theirs blocked held =
      let resolved = resolve r path in
      if same_as_store held theirs
      then pure (rebased resolved.0 path theirs, resolved.1)
      else if not (unchanged held (get path r.bases))
      then pure (diverge r path theirs none)
      else apply_unblocked r path theirs held (blocked_by blocked held path)

  abbrev pub reconcile_found :
      Record → Text → Option File → Result Failure Local → Io Failure (Record × Option SyncEvent)
  reconcile_found r path theirs (err f) = fail f
  reconcile_found r path theirs (ok held) = reconcile_local r path theirs none held

  -- Under a symlink nothing is read; under a file there is nothing.
  abbrev pub reconcile_under :
      Record
      → Text
      → Option File
      → Result Failure (Option Blocked)
      → Io Failure (Record × Option SyncEvent)
  reconcile_under r path theirs (err f) d = (d, err f)
  reconcile_under r path theirs (ok none) d = reconcile_found r path theirs (local env d path) d
  reconcile_under r path theirs (ok (some (Blocked.symlink name))) d =
      (d, ok (diverge r path theirs (some (Blocked.symlink name))))
  reconcile_under r path theirs (ok (some (Blocked.not_a_directory name))) d =
      reconcile_local r path theirs (some (Blocked.not_a_directory name)) Local.absent d
  reconcile_under r path theirs (ok (some (Blocked.directory name))) d =
      reconcile_local r path theirs (some (Blocked.directory name)) Local.absent d

  -- `WorkingCopy::reconcile_path`.
  unfoldable pub reconcile_path :
      Record → Text → Option File → Io Failure (Record × Option SyncEvent)
  unfolding reconcile_local blocking_directory local resolve diverge
  reconcile_path r path theirs d =
      if same_revision (revision_of theirs) (base_revision (get path r.bases))
      then (d, ok (resolve r path))
      else reconcile_under r path theirs (blocking_directory env [] d path) d
