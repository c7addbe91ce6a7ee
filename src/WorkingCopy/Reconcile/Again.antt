-- ===== src/WorkingCopy/Reconcile/Again.antt =====
-- A Path that is reconciled a second time with the same File (cli/src/working_copy.rs).
use tidings.Base.Tests.{
  ◌≡◌, refl, ap, subst, ◌⊎◌, inl, inr, true, false, Option, none, some, arith, Bool-cases, [],
}
use tidings.Base.Results.{Result, ok, err}
use tidings.Base.Text.{Text, text_eq_refl}
use tidings.Base.BTreeMap.{get, remove, get-remove}
use tidings.Files.{File, same_revision}
use tidings.Disk.{Disk}
use tidings.WorkingCopy.Record.{Record}
use tidings.WorkingCopy.Reports.{Blocked, SyncEvent, Local}
use tidings.WorkingCopy.Failures.{Failure}
use tidings.WorkingCopy.Folder.{Env, blocking_directory, local, apply}
use tidings.WorkingCopy.Reconcile.{
  revision_of, base_revision, resolve, same_as_store, blocked_by, rebased, base_of_theirs, diverge,
  unchanged, apply_unblocked, reconcile_local, reconcile_found, reconcile_under, reconcile_path,
}
use tidings.WorkingCopy.Reconcile.Safety.{IsHonest}
use tidings.WorkingCopy.Reconcile.Settles.{
  IsInStep, IsDiverged, reconcile_path-IsSettled, same_outcome, applied-ok, Reconciled,
}
use tidings.WorkingCopy.Reconcile.Updates.{
  same_revision_refl, resolve-none, diverge_again, set_base-divergences, get-resolve, diverge-bases,
}

module _ (env : Env) (r : Record) (path : Text) (theirs : Option File) (d : Disk) where
  open env use {os}

  -- A Path that is not Diverged and whose Base is of the Store's Revision is left alone.
  in_step_again :
      (after : Disk) (r' : Record)
      → get path r'.divergences ≡ none
      → base_revision (get path r'.bases) ≡ revision_of theirs
      → reconcile_path env r' path theirs after ≡ (after, ok (r', none))
  unfolding reconcile_path
  in_step_again after r' clear based =
      let matched : same_revision (revision_of theirs) (base_revision (get path r'.bases)) ≡ true =
        rw based (same_revision_refl (revision_of theirs)) in
      rw (matched, resolve-none r' path clear) refl

  -- Either the Path is not Diverged after the first time, or the second time goes the same way.
  abbrev Repeats : (Record → Reconciled env r path theirs d) → Disk → Record → Type 0
  Repeats again after r' =
      (get path r'.divergences ≡ none)
      ⊎ ((after ≡ d) × (r'.bases ≡ r.bases) × (again r' ≡ (d, ok (r', none))))

  repeated : Record × Option SyncEvent → Reconciled env r path theirs d
  repeated m = (d, ok m)

  rebased-clear :
      (cleared : Record)
      → get path cleared.divergences ≡ none
      → get path (rebased env cleared path theirs).divergences ≡ none
  rebased-clear cleared h = rw (set_base-divergences cleared path (base_of_theirs env theirs)) h

  resolve-clear : get path (resolve r path).0.divergences ≡ none
  resolve-clear = ground (arith, get-resolve r path path, text_eq_refl path)

  unblocked-Repeats :
      (l : Local) (blocked : Option Blocked) (after : Disk) (r' : Record) (event : Option SyncEvent)
      → apply_unblocked env r path theirs l blocked d ≡ (after, ok (r', event))
      → Repeats (λ s. apply_unblocked env s path theirs l blocked d) after r'
  unfolding repeated
  unblocked-Repeats l (some blocked) after r' event h =
      let marked = diverge env r path theirs (some blocked) in
      same_outcome env r path theirs d
        (Repeats (λ s. apply_unblocked env s path theirs l (some blocked) d)) d after marked.0 r'
        marked.1 event h
        (inr (
          refl,
          diverge-bases env r path theirs (some blocked),
          ap (λ (m : Record × Option SyncEvent). repeated m)
              (diverge_again env r path theirs (some blocked) (some blocked)),
        ))
  unblocked-Repeats l none after r' event h =
      let cleared = record r { divergences = remove path r.divergences } in
      let (e, applied, same) =
        applied-ok env r path theirs d (apply env path l theirs d) (rebased env cleared path theirs)
          after r' event h in
      inl (
        subst (λ s. get path s.divergences ≡ none) same
          (rebased-clear cleared
            (ground (arith, get-remove path path r.divergences, text_eq_refl path))))

  local-again :
      (blocked : Option Blocked) (l : Local) (after : Disk) (r' : Record)
      → same_as_store l theirs ≡ false
      → unchanged env l (get path r.bases) ≡ true
      → Repeats (λ s. apply_unblocked env s path theirs l (blocked_by blocked l path) d) after r'
      → Repeats (λ s. reconcile_local env s path theirs blocked l d) after r'
  unfolding reconcile_local
  local-again blocked l after r' differs still (inl clear) = inl clear
  local-again blocked l after r' differs still (inr (same, bases, again)) =
      let still' : unchanged env l (get path r'.bases) ≡ true = rw bases still in
      inr (same, bases, rw (differs, still') again)

  path-again :
      (after : Disk) (r' : Record)
      → same_revision (revision_of theirs) (base_revision (get path r.bases)) ≡ false
      → Repeats
          (λ s. reconcile_under env s path theirs (blocking_directory env [] d path) d)
          after
          r'
      → Repeats (λ s. reconcile_path env s path theirs d) after r'
  unfolding reconcile_path
  path-again after r' differs (inl clear) = inl clear
  path-again after r' differs (inr (same, bases, again)) =
      let differs' : same_revision (revision_of theirs) (base_revision (get path r'.bases))
          ≡ false =
        rw bases differs in
      inr (same, bases, rw differs' again)

  module _ (after : Disk) (r' : Record) (event : Option SyncEvent) where
    local-Repeats :
        (blocked : Option Blocked) (l : Local)
        → reconcile_local env r path theirs blocked l d ≡ (after, ok (r', event))
        → Repeats (λ s. reconcile_local env s path theirs blocked l d) after r'
    unfolding reconcile_local diverge repeated
    local-Repeats blocked l h = elim (Bool-cases (same_as_store l theirs)) [
      | inl same ↦
          let resolved = resolve r path in
          let there : get path (rebased env resolved.0 path theirs).divergences ≡ none =
            rebased-clear resolved.0 resolve-clear in
          same_outcome env r path theirs d
            (λ b s. Repeats (λ t. reconcile_local env t path theirs blocked l d) b s) d after
            (rebased env resolved.0 path theirs) r' resolved.1 event (rw same at h) (inl there)
      | inr differs ↦ elim (Bool-cases (unchanged env l (get path r.bases))) [
        | inr changed ↦
            let marked = diverge env r path theirs none in
            same_outcome env r path theirs d
              (Repeats (λ s. reconcile_local env s path theirs blocked l d)) d after marked.0 r'
              marked.1 event (rw (differs, changed) at h)
              (inr (
                refl,
                refl,
                rw (differs, changed)
                    (ap (λ (m : Record × Option SyncEvent). repeated m)
                      (diverge_again env r path theirs none none)),
              ))
        | inl still ↦ local-again blocked l after r' differs still (
            unblocked-Repeats l (blocked_by blocked l path) after r' event
              (rw (differs, still) at h))
      ]
    ]

    under-Repeats :
        (found : Result Failure (Option Blocked))
        → reconcile_under env r path theirs found d ≡ (after, ok (r', event))
        → Repeats (λ s. reconcile_under env s path theirs found d) after r'
    unfolding repeated
    under-Repeats (err f) h = cc
    under-Repeats (ok (some (Blocked.symlink name))) h =
        let blocked = some (Blocked.symlink name) in
        let marked = diverge env r path theirs blocked in
        same_outcome env r path theirs d
          (Repeats (λ s. reconcile_under env s path theirs (ok blocked) d)) d after marked.0 r'
          marked.1 event h
          (inr (
            refl,
            diverge-bases env r path theirs blocked,
            ap (λ (m : Record × Option SyncEvent). repeated m)
                (diverge_again env r path theirs blocked blocked),
          ))
    under-Repeats (ok (some (Blocked.not_a_directory name))) h =
        local-Repeats (some (Blocked.not_a_directory name)) Local.absent h
    under-Repeats (ok (some (Blocked.directory name))) h =
        local-Repeats (some (Blocked.directory name)) Local.absent h
    under-Repeats (ok none) h = found-Repeats (local env d path) h
      where
        found-Repeats :
            (found : Result Failure Local)
            → reconcile_found env r path theirs found d ≡ (after, ok (r', event))
            → Repeats (λ s. reconcile_found env s path theirs found d) after r'
        found-Repeats (err f) h' = cc
        found-Repeats (ok l) h' = local-Repeats none l h'

    path-Repeats :
        reconcile_path env r path theirs d ≡ (after, ok (r', event))
        → Repeats (λ s. reconcile_path env s path theirs d) after r'
    unfolding reconcile_path
    path-Repeats h =
        elim (Bool-cases (same_revision (revision_of theirs) (base_revision (get path r.bases)))) [
          | inl same ↦
              same_outcome env r path theirs d (Repeats (λ s. reconcile_path env s path theirs d)) d
                after (resolve r path).0 r' (resolve r path).1 event (rw same at h)
                (inl resolve-clear)
          | inr differs ↦
              path-again after r' differs
                (under-Repeats (blocking_directory env [] d path) (rw differs at h))
        ]

  -- Where the operating system's refusals are of no kind that the source takes for an answer, and
  -- a reconcile of a Path succeeds, the same reconcile again, of the same File, reports nothing
  -- and changes nothing.
  pub reconcile_path-again :
      (after : Disk) (r' : Record) (event : Option SyncEvent)
      → IsHonest os
      → reconcile_path env r path theirs d ≡ (after, ok (r', event))
      → reconcile_path env r' path theirs after ≡ (after, ok (r', none))
  reconcile_path-again after r' event honest h =
      settled (reconcile_path-IsSettled env r path theirs d after r' event honest h).0
        (path-Repeats after r' event h)
    where
      settled :
          IsInStep env r path theirs d after r' ⊎ IsDiverged env r path theirs d after r'
          → Repeats (λ s. reconcile_path env s path theirs d) after r'
          → reconcile_path env r' path theirs after ≡ (after, ok (r', none))
      settled (inl step) repeats = in_step_again after r' step.0 step.1
      settled (inr diverged) (inl clear) = cc
      settled (inr diverged) (inr (same, bases, again)) = rw same again
