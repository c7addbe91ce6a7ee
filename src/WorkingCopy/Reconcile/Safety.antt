-- ===== src/WorkingCopy/Reconcile/Safety.antt =====
-- What reconciling a Path leaves in the folder (cli/src/working_copy.rs).
use tidings.Base.Tests.{◌≡◌, refl, Bool, true, false, Option, none, some, [], arith}
use tidings.Base.Results.{Result, ok, err}
use tidings.Base.Text.{Text, text_eq, text_eq_iff, text_eq_refl}
use tidings.Base.BTreeMap.{get}
use tidings.Files.{File}
use tidings.Disk.{
  Node, file, not_text, symlink, special, dir, Disk, ErrorKind, Call, IoError, Os, symlink_metadata,
  read_to_string,
}
use tidings.Disk.Leaves.{held, Leaves, >>=-Leaves, pure-Leaves}
use tidings.WorkingCopy.Record.{Base, Record, base_holds}
use tidings.WorkingCopy.Reports.{Blocked, Local}
use tidings.WorkingCopy.Failures.{Failure}
use tidings.WorkingCopy.Folder.{Env, tmp, blocking_directory, local, apply}
use tidings.WorkingCopy.Folder.Outcomes.{apply-Leaves}
use tidings.WorkingCopy.Reconcile.{
  blocked_by, unchanged, apply_unblocked, reconcile_local, reconcile_found, reconcile_under,
  reconcile_path,
}

abbrev pub kind_of : Option IoError → ErrorKind
kind_of none = ErrorKind.other
kind_of (some e) = e.kind

-- An error that the operating system makes up is of no kind that the source takes for an answer.
pub record IsHonest (os : Os) : Type 0 where
  pub kinds :
      (d : Disk) (call : Call) (name : Text) → kind_of (os.refuses d call name) ≡ ErrorKind.other

module _ (env : Env) where
  open env use {crates, os}

  -- Whether what is at a Path is what its Base says, a directory being no File.
  abbrev pub as_based : Option Node → Option Base → Bool
  as_based none none = true
  as_based (some (file contents)) (some base) = base_holds crates base contents
  as_based _ _ = false

  -- What `local` says of a Path, as what is held there.
  abbrev pub seen : Local → Option Node → Bool
  seen Local.absent none = true
  seen Local.directory none = true
  seen (Local.file contents) (some (file there)) = text_eq contents there
  seen Local.other (some _) = true
  seen _ _ = false

  seen-at :
      (d : Disk) (path : Text) (l : Local) (there : Option Node)
      → IsHonest os
      → get path d ≡ there
      → local env d path ≡ ok l
      → seen l (held path d) ≡ true
  unfolding local symlink_metadata read_to_string held
  seen-at d path l (some (file contents)) honest g h = ground (
    arith,
    honest.kinds d Call.asks_metadata path,
    honest.kinds d Call.reads path,
    text_eq_refl contents,
  )
  seen-at d path l none honest g h =
      ground (arith, honest.kinds d Call.asks_metadata path, honest.kinds d Call.reads path)
  seen-at d path l (some dir) honest g h =
      ground (arith, honest.kinds d Call.asks_metadata path, honest.kinds d Call.reads path)
  seen-at d path l (some symlink) honest g h =
      ground (arith, honest.kinds d Call.asks_metadata path, honest.kinds d Call.reads path)
  seen-at d path l (some special) honest g h =
      ground (arith, honest.kinds d Call.asks_metadata path, honest.kinds d Call.reads path)
  seen-at d path l (some not_text) honest g h =
      ground (arith, honest.kinds d Call.asks_metadata path, honest.kinds d Call.reads path)

  -- What `local` says is so.
  pub local-seen :
      (d : Disk) (path : Text) (l : Local)
      → IsHonest os
      → local env d path ≡ ok l
      → seen l (held path d) ≡ true
  local-seen d path l honest h = seen-at d path l (get path d) honest refl h

  seen-unchanged :
      (l : Local) (base : Option Base) (there : Option Node)
      → seen l there ≡ true
      → as_based there base ≡ false
      → unchanged env l base ≡ false
  seen-unchanged Local.absent base none h k = ground arith
  seen-unchanged Local.directory base none h k = ground arith
  seen-unchanged (Local.file contents) base (some (file there)) h k =
      ground (arith, (text_eq_iff contents there).0)
  seen-unchanged Local.other base there h k = ground arith
  seen-unchanged Local.absent base (some there) h k = cc
  seen-unchanged Local.directory base (some there) h k = cc
  seen-unchanged (Local.file contents) base none h k = cc
  seen-unchanged (Local.file contents) base (some not_text) h k = cc
  seen-unchanged (Local.file contents) base (some symlink) h k = cc
  seen-unchanged (Local.file contents) base (some special) h k = cc
  seen-unchanged (Local.file contents) base (some dir) h k = cc

  module _ (r : Record) (path : Text) (theirs : Option File) where
    changed_untouched :
        (blocked : Option Blocked) (l : Local) (d : Disk)
        → unchanged env l (get path r.bases) ≡ false
        → (reconcile_local env r path theirs blocked l d).0 ≡ d
    unfolding reconcile_local
    changed_untouched blocked l d h = ground arith

    blocked_untouched :
        (blocked : Blocked) (d : Disk)
        → (reconcile_local env r path theirs (some blocked) Local.absent d).0 ≡ d
    unfolding reconcile_local
    blocked_untouched blocked d = ground arith

    under_untouched :
        (found : Result Failure (Option Blocked)) (d : Disk)
        → IsHonest os
        → as_based (held path d) (get path r.bases) ≡ false
        → (reconcile_under env r path theirs found d).0 ≡ d
    under_untouched (err f) d honest h = refl
    under_untouched (ok (some (Blocked.symlink name))) d honest h = refl
    under_untouched (ok (some (Blocked.not_a_directory name))) d honest h =
        blocked_untouched (Blocked.not_a_directory name) d
    under_untouched (ok (some (Blocked.directory name))) d honest h =
        blocked_untouched (Blocked.directory name) d
    under_untouched (ok none) d honest h = found_untouched (local env d path) refl
      where
        found_untouched :
            (found : Result Failure Local)
            → local env d path ≡ found
            → (reconcile_found env r path theirs found d).0 ≡ d
        found_untouched (err f) e = refl
        found_untouched (ok l) e =
            changed_untouched none l d
              (seen-unchanged l (get path r.bases) (held path d) (local-seen d path l honest e) h)

    -- Whatever comes of it, reconciling a Path that holds a local change changes nothing in the
    -- folder.
    pub reconcile_path-untouched :
        (d : Disk)
        → IsHonest os
        → as_based (held path d) (get path r.bases) ≡ false
        → (reconcile_path env r path theirs d).0 ≡ d
    unfolding reconcile_path
    reconcile_path-untouched d honest h =
        ground (arith, under_untouched (blocking_directory env [] d path) d honest h)

    module _ (name : Text) (apart : text_eq name path ≡ false)
        (not_tmp : text_eq name tmp ≡ false) where
      apply_unblocked-Leaves :
          (l : Local) (blocked : Option Blocked)
          → Leaves name (apply_unblocked env r path theirs l blocked)
      apply_unblocked-Leaves l (some blocked) = pure-Leaves name _
      apply_unblocked-Leaves l none =
          >>=-Leaves name (apply env path l theirs) _
            (apply-Leaves env name path l theirs apart not_tmp) (λ event. pure-Leaves name _)

      local_leaves :
          (blocked : Option Blocked) (l : Local) (d : Disk)
          → held name (reconcile_local env r path theirs blocked l d).0 ≡ held name d
      unfolding reconcile_local
      local_leaves blocked l d =
          ground (arith, (apply_unblocked-Leaves l (blocked_by blocked l path)).same d)

      found_leaves :
          (found : Result Failure Local) (d : Disk)
          → held name (reconcile_found env r path theirs found d).0 ≡ held name d
      found_leaves (err f) d = refl
      found_leaves (ok l) d = local_leaves none l d

      under_leaves :
          (found : Result Failure (Option Blocked)) (d : Disk)
          → held name (reconcile_under env r path theirs found d).0 ≡ held name d
      under_leaves (err f) d = refl
      under_leaves (ok none) d = found_leaves (local env d path) d
      under_leaves (ok (some (Blocked.symlink b))) d = refl
      under_leaves (ok (some (Blocked.not_a_directory b))) d =
          local_leaves (some (Blocked.not_a_directory b)) Local.absent d
      under_leaves (ok (some (Blocked.directory b))) d =
          local_leaves (some (Blocked.directory b)) Local.absent d

      path_leaves : (d : Disk) → held name (reconcile_path env r path theirs d).0 ≡ held name d
      unfolding reconcile_path
      path_leaves d = ground (arith, under_leaves (blocking_directory env [] d path) d)

      -- Reconciling a Path leaves every other file of the folder.
      pub reconcile_path-Leaves : Leaves name (reconcile_path env r path theirs)
      reconcile_path-Leaves = record { same = path_leaves }
