-- ===== src/WorkingCopy/Reconcile/Settles.antt =====
-- What a reconcile of a Path that succeeds comes to (cli/src/working_copy.rs).
use tidings.Base.Tests.{
  ◌≡◌, refl, sym, ap, subst, ◌∙◌, ◌⊎◌, inl, inr, true, false, Option, none, some, [], arith,
  Bool-cases, if◌then◌else◌,
}
use tidings.Base.Results.{Result, ok, err}
use tidings.Base.Text.{Text, text_eq, text_eq_iff, text_eq_refl}
use tidings.Base.BTreeMap.{get, remove, get-remove}
use tidings.Files.{File, same_revision}
use tidings.Disk.{Node, file, Disk, and_then, pure}
use tidings.Disk.Leaves.{held}
use tidings.WorkingCopy.Record.{Record, base_of_file, base_of}
use tidings.WorkingCopy.Reports.{Blocked, SyncEvent, Local}
use tidings.WorkingCopy.Failures.{Failure}
use tidings.WorkingCopy.Folder.{Env, blocking_directory, local, apply}
use tidings.WorkingCopy.Folder.Outcomes.{as_node, apply-Places}
use tidings.WorkingCopy.Reconcile.{
  revision_of, base_revision, resolve, same_as_store, blocked_by, rebased, base_of_theirs, diverge,
  unchanged, apply_unblocked, reconcile_local, reconcile_found, reconcile_under, reconcile_path,
}
use tidings.WorkingCopy.Reconcile.Safety.{IsHonest, seen, local-seen}
use tidings.WorkingCopy.Reconcile.Updates.{
  same_revision_iff, get-set_base, set_base-divergences, get-resolve, resolve-bases, divergence_of,
  get-diverge,
}

-- What is at a Path, where nothing is in the way to it.
abbrev pub unless_blocked : Result Failure (Option Blocked) → Option Node → Option Node
unless_blocked (err f) there = none
unless_blocked (ok (some blocked)) there = none
unless_blocked (ok none) there = there

unless_blocked-same :
    (blocked : Result Failure (Option Blocked)) (there other : Option Node)
    → (blocked ≡ ok none → there ≡ other)
    → unless_blocked blocked there ≡ unless_blocked blocked other
unless_blocked-same (err f) there other same = refl
unless_blocked-same (ok (some blocked)) there other same = refl
unless_blocked-same (ok none) there other same = same refl

-- What a map has at any other Path than this one.
abbrev pub elsewhere {ℓ} : {A : Type ℓ} → Text → Text → Option A → Option A
elsewhere path j there = if text_eq j path then none else there

pub elsewhere-apart :
    {A : Type 0} (path j : Text) (there other : Option A)
    → text_eq j path ≡ false
    → elsewhere path j there ≡ elsewhere path j other
    → there ≡ other
elsewhere-apart path j there other apart same = ground (arith, apart, same)

elsewhere-same :
    {A : Type 0} (path j : Text) (there other : Option A)
    → (text_eq j path ≡ false → there ≡ other)
    → elsewhere path j there ≡ elsewhere path j other
elsewhere-same path j there other same = elim (Bool-cases (text_eq j path)) [
  | inl here ↦ rw here refl
  | inr apart ↦ rw (same apart) refl
]

module _ (env : Env) (r : Record) (path : Text) (theirs : Option File) (d : Disk) where
  open env use {os}

  -- The Path is not Diverged, and its Base is of the Store's Revision. Either it was already, and
  -- only the Divergence is gone, or the Base is the Store's File now, which the folder holds.
  abbrev pub IsInStep : Disk → Record → Type 0
  IsInStep after r' =
      (get path r'.divergences ≡ none)
      × (base_revision (get path r'.bases) ≡ revision_of theirs)
      × (((after ≡ d) × (r'.bases ≡ r.bases))
          ⊎ ((get path r'.bases ≡ base_of_theirs env theirs)
              × (unless_blocked (blocking_directory env [] d path) (held path after)
                  ≡ unless_blocked (blocking_directory env [] d path) (as_node env theirs))))

  -- The Path is Diverged with the Store's File as it is, and nothing else has changed.
  abbrev pub IsDiverged : Disk → Record → Type 0
  IsDiverged after r' =
      (get path r'.divergences ≡ some (divergence_of env theirs))
      × (r'.bases ≡ r.bases)
      × (after ≡ d)

  abbrev pub IsElsewhereSame : Record → Type 0
  IsElsewhereSame r' =
      (j : Text)
      → (elsewhere path j (get j r'.bases) ≡ elsewhere path j (get j r.bases))
        × (elsewhere path j (get j r'.divergences) ≡ elsewhere path j (get j r.divergences))

  abbrev pub IsSettled : Disk → Record → Type 0
  IsSettled after r' = (IsInStep after r' ⊎ IsDiverged after r') × IsElsewhereSame r'

  resolved-IsSettled :
      same_revision (revision_of theirs) (base_revision (get path r.bases)) ≡ true
      → IsSettled d (resolve r path).0
  resolved-IsSettled h =
      let same = same_revision_iff (revision_of theirs) (base_revision (get path r.bases)) h in
      let bases = resolve-bases r path in
      (
        inl (
          ground (arith, get-resolve r path path, text_eq_refl path),
          ap (λ bases. base_revision (get path bases)) bases ∙ sym same,
          inl (refl, bases),
        ),
        λ j. (
          ap (λ m. elsewhere path j (get j m)) bases,
          elsewhere-same path j _ _ (λ apart. ground (arith, get-resolve r path j)),
        ),
      )

  diverged-IsSettled :
      (blocked : Option Blocked) → IsSettled d (diverge env r path theirs blocked).0
  unfolding diverge
  diverged-IsSettled blocked = (
    inr (ground (arith, get-diverge env r path path theirs blocked, text_eq_refl path), refl, refl),
    λ j. (
      refl,
      elsewhere-same path j _ _ (λ apart. ground (arith, get-diverge env r path j theirs blocked)),
    ),
  )

  rebased_revision : base_revision (base_of_theirs env theirs) ≡ revision_of theirs
  unfolding base_of_file base_of
  rebased_revision = ground arith

  -- A record whose Divergence at the Path is gone, and nothing else, given the Store's File.
  rebased-IsSettled :
      (cleared : Record) (after : Disk)
      → ((j : Text)
          → get j cleared.divergences ≡ (if text_eq j path then none else get j r.divergences))
      → cleared.bases ≡ r.bases
      → (blocking_directory env [] d path ≡ ok none → held path after ≡ as_node env theirs)
      → IsSettled after (rebased env cleared path theirs)
  rebased-IsSettled cleared after divergences bases there =
      let base = base_of_theirs env theirs in
      let here : get path (rebased env cleared path theirs).bases ≡ base =
        ground (arith, get-set_base cleared path path base, text_eq_refl path) in
      let divergences' = set_base-divergences cleared path base in
      (
        inl (
          ap (get path) divergences' ∙ ground (arith, divergences path, text_eq_refl path),
          ap base_revision here ∙ rebased_revision,
          inr (here, unless_blocked-same _ _ _ there),
        ),
        λ j. (
          elsewhere-same path j _ _
              (λ apart. ground (arith, get-set_base cleared path j base, bases)),
          elsewhere-same path j _ _
              (λ apart. ap (get j) divergences' ∙ ground (arith, divergences j)),
        ),
      )

  same-seen :
      (l : Local) (there : Option Node) (given : Option File)
      → seen env l there ≡ true
      → same_as_store l given ≡ true
      → there ≡ as_node env given
  same-seen Local.absent none none h k = refl
  same-seen Local.directory none none h k = refl
  same-seen (Local.file contents) (some (file there)) (some given) h k =
      ground (arith, (text_eq_iff contents there).0, (text_eq_iff contents given.contents).0)
  same-seen l there given h k = ground arith

  -- What the chain after `apply` gives where it succeeds.
  pub applied-ok :
      (first : Disk × Result Failure SyncEvent) (next : Record) (after : Disk) (r' : Record)
      (event : Option SyncEvent)
      → and_then {B = Record × Option SyncEvent} first (λ e. pure (next, some e))
        ≡ (after, ok (r', event))
      → (e : SyncEvent) × (first ≡ (after, ok e)) × (next ≡ r')
  applied-ok (b, err f) next after r' event h = cc
  applied-ok (b, ok e) next after r' event h = (e, cc, cc)

  abbrev pub Reconciled : Type 0
  Reconciled = Disk × Result Failure (Record × Option SyncEvent)

  -- Where both are the outcome, what holds of one state after holds of the other.
  pub same_outcome {ℓ} :
      (Q : Disk → Record → Type ℓ) (b after : Disk) (s r' : Record) (e event : Option SyncEvent)
      → ◌≡◌ {A = Reconciled} (b, ok (s, e)) (after, ok (r', event))
      → Q b s
      → Q after r'
  same_outcome Q b after s r' e event h q =
      let same_disk : b ≡ after = cc in
      let same_record : s ≡ r' = cc in
      subst (λ b. Q b r') same_disk (subst (λ s. Q b s) same_record q)

  applied-IsSettled :
      (l : Local) (after : Disk) (r' : Record) (event : Option SyncEvent)
      → apply_unblocked env r path theirs l none d ≡ (after, ok (r', event))
      → IsSettled after r'
  applied-IsSettled l after r' event h =
      let cleared = record r { divergences = remove path r.divergences } in
      let (e, applied, same) =
        applied-ok (apply env path l theirs d) (rebased env cleared path theirs) after r' event h in
      subst (λ s. IsSettled after s) same
        (rebased-IsSettled cleared after (λ j. get-remove path j r.divergences) refl
          (λ _. (apply-Places env path l theirs).placed d after e applied))

  unblocked-IsSettled :
      (l : Local) (blocked : Option Blocked) (after : Disk) (r' : Record) (event : Option SyncEvent)
      → apply_unblocked env r path theirs l blocked d ≡ (after, ok (r', event))
      → IsSettled after r'
  unblocked-IsSettled l none after r' event h = applied-IsSettled l after r' event h
  unblocked-IsSettled l (some blocked) after r' event h =
      let marked = diverge env r path theirs (some blocked) in
      same_outcome IsSettled d after marked.0 r' marked.1 event h
        (diverged-IsSettled (some blocked))

  module _ (after : Disk) (r' : Record) (event : Option SyncEvent) where
    local-IsSettled :
        (blocked : Option Blocked) (l : Local)
        → (blocking_directory env [] d path ≡ ok none → seen env l (held path d) ≡ true)
        → reconcile_local env r path theirs blocked l d ≡ (after, ok (r', event))
        → IsSettled after r'
    unfolding reconcile_local
    local-IsSettled blocked l there h = elim (Bool-cases (same_as_store l theirs)) [
      | inl same ↦
          let resolved = resolve r path in
          same_outcome IsSettled d after (rebased env resolved.0 path theirs) r' resolved.1 event
            (rw same at h)
            (rebased-IsSettled resolved.0 d (get-resolve r path) (resolve-bases r path)
              (λ free. same-seen l (held path d) theirs (there free) same))
      | inr differs ↦ elim (Bool-cases (unchanged env l (get path r.bases))) [
        | inr changed ↦
            let marked = diverge env r path theirs none in
            same_outcome IsSettled d after marked.0 r' marked.1 event (rw (differs, changed) at h)
              (diverged-IsSettled none)
        | inl still ↦
            unblocked-IsSettled l (blocked_by blocked l path) after r' event
              (rw (differs, still) at h)
      ]
    ]

    under-IsSettled :
        (found : Result Failure (Option Blocked))
        → IsHonest os
        → blocking_directory env [] d path ≡ found
        → reconcile_under env r path theirs found d ≡ (after, ok (r', event))
        → IsSettled after r'
    under-IsSettled (err f) honest e h = cc
    under-IsSettled (ok (some (Blocked.symlink name))) honest e h =
        let blocked = some (Blocked.symlink name) in
        let marked = diverge env r path theirs blocked in
        same_outcome IsSettled d after marked.0 r' marked.1 event h (diverged-IsSettled blocked)
    under-IsSettled (ok (some (Blocked.not_a_directory name))) honest e h =
        local-IsSettled (some (Blocked.not_a_directory name)) Local.absent (λ free. cc) h
    under-IsSettled (ok (some (Blocked.directory name))) honest e h =
        local-IsSettled (some (Blocked.directory name)) Local.absent (λ free. cc) h
    under-IsSettled (ok none) honest e h = found-IsSettled (local env d path) refl h
      where
        found-IsSettled :
            (found : Result Failure Local)
            → local env d path ≡ found
            → reconcile_found env r path theirs found d ≡ (after, ok (r', event))
            → IsSettled after r'
        found-IsSettled (err f) e' h' = cc
        found-IsSettled (ok l) e' h' =
            local-IsSettled none l (λ _. local-seen env d path l honest e') h'

    -- Where the operating system's refusals are of no kind that the source takes for an answer, a
    -- reconcile of a Path that succeeds leaves the Path in step with the Store, or Diverged with
    -- the Store's File as it is and nothing else changed. In step, the Base is of the Store's
    -- Revision, and either only the Divergence is gone, or the Base is the Store's File and, with
    -- nothing in the way to the Path, the folder holds that File. What the record says of every
    -- other Path stays.
    pub reconcile_path-IsSettled :
        IsHonest os
        → reconcile_path env r path theirs d ≡ (after, ok (r', event))
        → IsSettled after r'
    unfolding reconcile_path
    reconcile_path-IsSettled honest h =
        elim (Bool-cases (same_revision (revision_of theirs) (base_revision (get path r.bases)))) [
          | inl same ↦
              let resolved = resolve r path in
              same_outcome IsSettled d after resolved.0 r' resolved.1 event (rw same at h)
                (resolved-IsSettled same)
          | inr differs ↦
              under-IsSettled (blocking_directory env [] d path) honest refl (rw differs at h)
        ]
