-- ===== src/WorkingCopy/Reconcile/Paths/Rounds.antt =====
-- What the rounds of a reconcile of Paths do to where a Path stands (cli/src/working_copy.rs).
use tidings.Base.Tests.{
  subst, ◌≤◌, ◌≡◌, refl, sym, ap, ◌∙◌, ◌⊎◌, inl, inr, Option, none, some, List, [], ◌∷◌, ◌++◌,
  arith, Bool-cases,
}
use tidings.Base.Results.{Result, ok, err}
use tidings.Base.Text.{Text, text_eq, text_eq_iff}
use tidings.Base.BTreeMap.{get}
use tidings.Files.{File}
use tidings.Disk.{Disk, Io, and_then}
use tidings.WorkingCopy.Record.{Record}
use tidings.WorkingCopy.Reports.{SyncEvent}
use tidings.WorkingCopy.Failures.{Failure}
use tidings.WorkingCopy.Folder.{Env}
use tidings.WorkingCopy.Reconcile.{revision_of, base_revision, reconcile_path}
use tidings.WorkingCopy.Reconcile.Updates.{divergence_of}
use tidings.WorkingCopy.Reconcile.Safety.{IsHonest}
use tidings.WorkingCopy.Reconcile.Settles.{IsSettled, elsewhere-apart, reconcile_path-IsSettled}
use tidings.WorkingCopy.Reconcile.Paths.{Item, Progress, settle_path, reconcile_each, note_swept}
use tidings.WorkingCopy.Reconcile.Paths.Counts.{count_items, settle_path-record}

-- A chain that succeeds has a first part that does.
pub and_then-eq-ok :
    {A B : Type 0} (first : Disk × Result Failure A) (next : A → Io Failure B) (after : Disk)
    (b : B)
    → and_then first next ≡ (after, ok b)
    → (e : Disk) × (a : A) × (first ≡ (e, ok a)) × (next a e ≡ (after, ok b))
and_then-eq-ok (e, err f) next after b h = cc
and_then-eq-ok (e, ok a) next after b h = (e, a, refl, h)

pub err_not_ok : {F A : Type 0} (f : F) (a : A) → ◌≡◌ {A = Result F A} (err f) (ok a) → ⊥
err_not_ok f a h = cc

pub note_swept-record :
    (env : Env) (events : List SyncEvent) (p : Progress)
    → (note_swept env events p).record_now ≡ p.record_now
unfolding note_swept
note_swept-record env [] p = refl
note_swept-record env (event ∷ events) p = note_swept-record env events _

pub same_progress :
    (d after : Disk) (p p' : Progress)
    → ◌≡◌ {A = Disk × Result Failure Progress} (d, ok p) (after, ok p')
    → p ≡ p'
same_progress d after p p' h = cc

module _ (env : Env) (q : Text) (theirs : Option File) where
  open env use {os}

  -- The Path is in step with the Store's File, or Diverged with it.
  abbrev pub StandsWith : Record → Type 0
  StandsWith r =
      ((get q r.divergences ≡ none) × (base_revision (get q r.bases) ≡ revision_of theirs))
      ⊎ (get q r.divergences ≡ some (divergence_of env theirs))

  -- Each of the items at the Path has the Store's File.
  abbrev pub AllAt : List Item → Type 0
  AllAt [] = Unit
  AllAt ((path, given) ∷ items) = (q ≡ path → given ≡ theirs) × AllAt items

  pub AllAt-append : (xs ys : List Item) → AllAt xs → AllAt ys → AllAt (xs ++ ys)
  AllAt-append [] ys a b = b
  AllAt-append ((path, given) ∷ xs) ys (first, a) b = (first, AllAt-append xs ys a b)

  stands_still :
      (r s : Record)
      → get q s.divergences ≡ get q r.divergences
      → get q s.bases ≡ get q r.bases
      → StandsWith r
      → StandsWith s
  stands_still r s divergences bases (inl (clear, in_step)) =
      inl (divergences ∙ clear, ap base_revision bases ∙ in_step)
  stands_still r s divergences bases (inr diverged) = inr (divergences ∙ diverged)

  module _ (honest : IsHonest os) where
    -- The round of the Path itself.
    own-StandsWith :
        (p : Progress) (path : Text) (given : Option File) (d e : Disk) (r : Record)
        (event : Option SyncEvent)
        → q ≡ path
        → given ≡ theirs
        → reconcile_path env p.record_now path given d ≡ (e, ok (r, event))
        → StandsWith r
    own-StandsWith p path given d e r event here same h = settled (
        reconcile_path-IsSettled env p.record_now q theirs d e r event honest (rw (here, ← same) h))
      where
        settled : IsSettled env p.record_now q theirs d e r → StandsWith r
        settled (inl (clear, in_step, how), others) = inl (clear, in_step)
        settled (inr (diverged, bases, left), others) = inr diverged

    -- One round leaves the Path as it stands, or comes to it.
    round :
        (p : Progress) (path : Text) (given : Option File) (items : List Item) (d e : Disk)
        (r : Record) (event : Option SyncEvent)
        → (q ≡ path → given ≡ theirs)
        → StandsWith p.record_now ⊎ (1 ≤ count_items q ((path, given) ∷ items))
        → reconcile_path env p.record_now path given d ≡ (e, ok (r, event))
        → StandsWith r ⊎ (1 ≤ count_items q items)
    round p path given items d e r event same before h = elim (Bool-cases (text_eq q path)) [
      | inl here ↦
          let at = (text_eq_iff q path).0 here in
          inl (own-StandsWith p path given d e r event at (same at) h)
      | inr apart ↦
          let others =
            (reconcile_path-IsSettled env p.record_now path given d e r event honest h).1 q in
          elim before [
            | inl stands ↦ inl (
                stands_still p.record_now r (elsewhere-apart path q _ _ apart others.1)
                  (elsewhere-apart path q _ _ apart others.0) stands)
            | inr there ↦ inr (ground (arith, there, apart))
          ]
    ]

    pub each-StandsWith :
        (items : List Item) (p p' : Progress) (d after : Disk)
        → AllAt items
        → StandsWith p.record_now ⊎ (1 ≤ count_items q items)
        → reconcile_each env items p d ≡ (after, ok p')
        → StandsWith p'.record_now
    unfolding reconcile_each
    each-StandsWith [] p p' d after here (inl stands) h =
        subst (λ (x : Progress). StandsWith x.record_now) (same_progress d after p p' h) stands
    each-StandsWith [] p p' d after here (inr some_there) h = absurd (omega (arith, some_there))
    each-StandsWith ((path, given) ∷ items) p p' d after (first, here) before h =
        let (b, p1, both, rest) =
          and_then-eq-ok
            (and_then (reconcile_path env p.record_now path given d) (settle_path env p path given))
            (λ s. reconcile_each env items s) after p' h in
        let (e, done, reconciled, settling) =
          and_then-eq-ok (reconcile_path env p.record_now path given d)
            (settle_path env p path given) b p1 both in
        let recorded = settle_path-record env p p1 path given done e b settling in
        each-StandsWith items p1 p' b after here
          (subst (λ r. StandsWith r ⊎ (1 ≤ count_items q items)) (sym recorded)
            (round p path given items d e done.0 done.1 first before reconciled))
          rest
