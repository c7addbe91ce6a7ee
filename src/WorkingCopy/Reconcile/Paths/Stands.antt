-- ===== src/WorkingCopy/Reconcile/Paths/Stands.antt =====
-- Where each Path stands once Paths are reconciled (cli/src/working_copy.rs).
use tidings.Base.Tests.{
  subst, ◌≡◌, refl, sym, ap, ◌∙◌, inl, inr, Bool, true, false, Option, List, [], ◌++◌, arith,
}
use tidings.Base.Results.{Result, ok, err}
use tidings.Base.Text.{Text, contains}
use tidings.Error.{Outcome}
use tidings.Files.{File}
use tidings.Disk.{Disk}
use tidings.WorkingCopy.Record.{Record}
use tidings.WorkingCopy.Failures.{Failure, of_error}
use tidings.WorkingCopy.Theirs.{remove_stale_theirs}
use tidings.WorkingCopy.Folder.{Env}
use tidings.WorkingCopy.Reconcile.Safety.{IsHonest}
use tidings.WorkingCopy.Reconcile.Paths.{
  TheirsFailures, Covered, Item, Progress, sort_paths, reconcile_sorted, reconcile_paths,
  note_swept, swept_after, covered, is_all, reconcile,
}
use tidings.WorkingCopy.Reconcile.Paths.Counts.{count_items-append, ReadsAtPath}
use tidings.WorkingCopy.Reconcile.Paths.Rounds.{
  StandsWith, AllAt-append, each-StandsWith, and_then-eq-ok, err_not_ok, note_swept-record,
  same_progress,
}
use tidings.WorkingCopy.Reconcile.Paths.Taken.{sort_paths-AllTaken}

module _ (env : Env) (q : Text) (theirs : Option File) where
  open env use {os}

  swept_after-record :
      (every : Bool) (p p' : Progress) (d after : Disk)
      → swept_after env every p d ≡ (after, ok p')
      → p'.record_now ≡ p.record_now
  swept_after-record false p p' d after h =
      ap (λ (x : Progress). x.record_now) (sym (same_progress d after p p' h))
  swept_after-record true p p' d after h =
      let (e, events) = remove_stale_theirs env p.record_now d in
      ap (λ (x : Progress). x.record_now)
        (sym (same_progress e after (note_swept env events p) p' h))
      ∙ note_swept-record env events p

  module _ (honest : IsHonest os) where
    reconcile_paths-StandsWith :
        (read : Text → Outcome (Option File)) (r : Record) (paths : List Text)
        (failures : TheirsFailures) (d after : Disk) (p : Progress)
        → ReadsAtPath read
        → read q ≡ ok theirs
        → contains q paths ≡ true
        → reconcile_paths env read r paths failures d ≡ (after, ok p)
        → StandsWith env q theirs p.record_now
    unfolding reconcile_paths
    reconcile_paths-StandsWith read r paths failures d after p names holds there h =
        sorts (sort_paths read r failures paths) refl h
      where
        start : Progress
        start = record { record_now = r; theirs_failures = failures; events = [] }

        sorts :
            (sorted : Outcome (List Item × List Item))
            → sort_paths read r failures paths ≡ sorted
            → reconcile_sorted env start sorted d ≡ (after, ok p)
            → StandsWith env q theirs p.record_now
        sorts (err e) eq k = absurd (
            err_not_ok (of_error env.debug e) p
              (ap (λ (x : Disk × Result Failure Progress). x.1) k))
        sorts (ok sorted) eq k =
            let (a, b, taken) =
              sort_paths-AllTaken env q theirs read r failures paths sorted names holds eq in
            let sum = count_items-append q sorted.0 sorted.1 in
            each-StandsWith env q theirs honest (sorted.0 ++ sorted.1) start p d after
              (AllAt-append env q theirs sorted.0 sorted.1 a b)
              (elim (taken there) [
                | inl stands ↦ inl stands
                | inr some_there ↦ inr (omega (arith, sum, some_there))
              ])
              k

    -- Where the operating system's refusals are of no kind that the source takes for an answer, the
    -- Store reads a File at its own Path, and a reconcile succeeds, each Path that it covers is in
    -- step with the Store's File, its Base of that Revision and not Diverged, or is Diverged with
    -- that File, whatever the other Paths are.
    pub reconcile-StandsWith :
        (read : Text → Outcome (Option File)) (listed : Outcome (List Text)) (paths : Covered)
        (r : Record) (failures : TheirsFailures) (d : Disk) (due : List Text) (after : Disk)
        (p : Progress)
        → ReadsAtPath read
        → read q ≡ ok theirs
        → covered env paths listed r failures ≡ ok due
        → contains q due ≡ true
        → reconcile env read listed paths r failures d ≡ (after, ok p)
        → StandsWith env q theirs p.record_now
    unfolding reconcile
    reconcile-StandsWith read listed paths r failures d due after p names holds covers there h =
        let (e, p1, reconciled, swept) =
          and_then-eq-ok (reconcile_paths env read r due failures d)
            (swept_after env (is_all env paths)) after p (rw covers at h) in
        subst (StandsWith env q theirs)
          (sym (swept_after-record (is_all env paths) p1 p e after swept))
          (reconcile_paths-StandsWith read r due failures d e p1 names holds there reconciled)
