-- ===== src/WorkingCopy/Reconcile/Paths/Keeps.antt =====
-- What a reconcile leaves of local changes (cli/src/working_copy.rs).
use tidings.WorkingCopy.Reconcile.Paths.Counts.{
  settle_path-record, count-keys, extend-IsSorted, InOrder, count_items-append, sort_paths-count,
  count, count_items, ReadsAtPath,
}
use tidings.Base.Tests.{
  ◌≤◌, ◌≡◌, refl, sym, ap, ◌∙◌, inl, inr, Bool, true, false, ◌||◌, Option, List, [], ◌∷◌, ◌++◌,
  arith, Bool-cases,
}
use tidings.Base.Results.{Result, ok, err}
use tidings.Base.Text.{Text, text_eq, text_eq_iff}
use tidings.Base.BTreeMap.{get, keys}
use tidings.Base.BTreeMap.Sorted.{IsSorted}
use tidings.Error.{Outcome}
use tidings.Files.{File}
use tidings.Disk.{Disk, Io, and_then, ◌>>=◌}
use tidings.Disk.Leaves.{and_then-held, pure-Leaves, >>=-Leaves, held, Leaves}
use tidings.WorkingCopy.Record.{Record}
use tidings.WorkingCopy.Reports.{SyncEvent}
use tidings.WorkingCopy.Failures.{Failure}
use tidings.WorkingCopy.Folder.{Env}
use tidings.WorkingCopy.Theirs.Outside.{
  in_record, settle_theirs-Leaves, remove_stale_theirs-held, not_tmp,
}
use tidings.WorkingCopy.Reconcile.{reconcile_path}
use tidings.WorkingCopy.Reconcile.Safety.{
  IsHonest, as_based, reconcile_path-untouched, reconcile_path-Leaves,
}
use tidings.WorkingCopy.Reconcile.Settles.{elsewhere-apart, reconcile_path-IsSettled}
use tidings.WorkingCopy.Reconcile.Paths.{
  reconcile_sorted, reconcile_covered, TheirsFailures, Covered, all, only, Item, extend, Progress,
  sort_paths, noted, is_changed, is_retrying, settle_needed, theirs_to_hold, settle_path,
  reconcile_each, reconcile_paths, swept_after, covered, is_all, reconcile,
}

module _ (env : Env) (n : Text) (outside : in_record n ≡ false) where
  open env use {os}

  noted-held :
      (p : Progress) (path : Text) (r : Record) (event : Option SyncEvent) (theirs : Option Text)
      (changed retrying : Bool) (settled : Disk × Result Failure (Unit {0}))
      → held n (noted env p path r event theirs changed retrying settled).0 ≡ held n settled.0
  noted-held p path r event theirs changed retrying (d, ok _) = refl
  noted-held p path r event theirs changed retrying (d, err f) = refl

  settle_needed-held :
      (path : Text) (held_there : Option Text) (force : Bool) (d : Disk)
      → held n (settle_needed env path held_there force d).0 ≡ held n d
  unfolding settle_needed
  settle_needed-held path held_there force d =
      ground (arith, (settle_theirs-Leaves env n outside path held_there force).same d)

  settle_path-held :
      (p : Progress) (path : Text) (theirs : Option File) (done : Record × Option SyncEvent)
      (d : Disk)
      → held n (settle_path env p path theirs done d).0 ≡ held n d
  unfolding settle_path
  settle_path-held p path theirs (r, event) d =
      let held_there = theirs_to_hold r path theirs in
      let changed = is_changed env p path r in
      let retrying = is_retrying env p path in
      noted-held p path r event held_there changed retrying
        (settle_needed env path held_there (changed || retrying) d)
      ∙ settle_needed-held path held_there (changed || retrying) d

  one-Leaves :
      (p : Progress) (path : Text) (theirs : Option File)
      → text_eq n path ≡ false
      → Leaves n (reconcile_path env p.record_now path theirs >>= settle_path env p path theirs)
  one-Leaves p path theirs apart =
      >>=-Leaves n (reconcile_path env p.record_now path theirs) _
        (reconcile_path-Leaves env p.record_now path theirs n apart (not_tmp env n outside))
        (λ done. record { same = settle_path-held p path theirs done })

  -- A Path that the loop does not come to.
  pub each-Leaves :
      (items : List Item) (p : Progress)
      → count_items n items ≡ 0
      → Leaves n (reconcile_each env items p)
  unfolding reconcile_each
  each-Leaves [] p h = pure-Leaves n (ok p)
  each-Leaves ((path, theirs) ∷ items) p h =
      >>=-Leaves n _ _ (one-Leaves p path theirs (ground (arith, Bool-cases (text_eq n path))))
        (λ q. each-Leaves items q (ground arith))

  pub swept-Leaves : (every : Bool) (p : Progress) → Leaves n (swept_after env every p)
  swept-Leaves false p = pure-Leaves n (ok p)
  swept-Leaves true p = record { same = remove_stale_theirs-held env n outside p.record_now }

  abbrev IsChanged : Disk → Record → Type 0
  IsChanged d r = as_based env (held n d) (get n r.bases) ≡ false

  module _ (honest : IsHonest os) where
    -- The round of another Path leaves the file and its Base, so the change is still there.
    other_round :
        (path : Text) (theirs : Option File) (p : Progress) (d : Disk)
        (next : Progress → Io Failure Progress) (apart : text_eq n path ≡ false)
        → IsChanged d p.record_now
        → ((q : Progress) (e : Disk) → IsChanged e q.record_now → held n (next q e).0 ≡ held n e)
        → held n
            (and_then
              (and_then
                (reconcile_path env p.record_now path theirs d)
                (settle_path env p path theirs))
              next).0
          ≡ held n d
    other_round path theirs p d next apart changed then_on =
        first_done (reconcile_path env p.record_now path theirs d) refl
      where
        second_done :
            (r : Record) (e : Disk) (second : Disk × Result Failure Progress)
            → held n e ≡ held n d
            → get n r.bases ≡ get n p.record_now.bases
            → held n second.0 ≡ held n e
            → ((q : Progress) → second.1 ≡ ok q → q.record_now ≡ r)
            → held n (and_then second next).0 ≡ held n d
        second_done r e (b, err f) same bases settled recorded = settled ∙ same
        second_done r e (b, ok q) same bases settled recorded =
            then_on q b (rw (settled ∙ same, recorded q refl, bases) changed) ∙ settled ∙ same

        first_done :
            (first : Disk × Result Failure (Record × Option SyncEvent))
            → reconcile_path env p.record_now path theirs d ≡ first
            → held n (and_then (and_then first (settle_path env p path theirs)) next).0 ≡ held n d
        first_done (e, err f) done =
            ap (λ (x : Disk × Result Failure (Record × Option SyncEvent)). held n x.0) (sym done)
            ∙ (reconcile_path-Leaves env p.record_now path theirs n apart
                  (not_tmp env n outside)).same
                d
        first_done (e, ok (r, event)) done =
            second_done r e (settle_path env p path theirs (r, event) e)
              (ap (λ (x : Disk × Result Failure (Record × Option SyncEvent)). held n x.0) (sym done)
                ∙ (reconcile_path-Leaves env p.record_now path theirs n apart
                      (not_tmp env n outside)).same
                    d)
              (elsewhere-apart path n _ _ apart
                ((reconcile_path-IsSettled env p.record_now path theirs d e r event honest done).1
                  n).0)
              (settle_path-held p path theirs (r, event) e)
              (λ q settled.
                settle_path-record env p q path theirs (r, event) e
                  (settle_path env p path theirs (r, event) e).0 (cc))

    -- The round of the Path itself leaves the file, and no later round comes to it.
    own_round :
        (path : Text) (theirs : Option File) (p : Progress) (d : Disk)
        (next : Progress → Io Failure Progress)
        → IsChanged d p.record_now
        → n ≡ path
        → ((q : Progress) → Leaves n (next q))
        → held n
            (and_then
              (and_then
                (reconcile_path env p.record_now path theirs d)
                (settle_path env p path theirs))
              next).0
          ≡ held n d
    own_round path theirs p d next changed here next_leaves =
        let untouched =
          reconcile_path-untouched env p.record_now path theirs d honest (rw here at changed) in
        let first =
          and_then-held n (reconcile_path env p.record_now path theirs d)
            (settle_path env p path theirs) (held n d) (ap (held n) untouched)
            (λ done. record { same = settle_path-held p path theirs done }) in
        and_then-held n _ next (held n d) first next_leaves

    each-keeps :
        (items : List Item) (p : Progress) (d : Disk)
        → count_items n items ≤ 1
        → IsChanged d p.record_now
        → held n (reconcile_each env items p d).0 ≡ held n d
    unfolding reconcile_each
    each-keeps [] p d once changed = refl
    each-keeps ((path, theirs) ∷ items) p d once changed = elim (Bool-cases (text_eq n path)) [
      | inl here ↦
          own_round path theirs p d (λ q. reconcile_each env items q) changed
            ((text_eq_iff n path).0 here) (λ q. each-Leaves items q (ground arith))
      | inr apart ↦
          other_round path theirs p d (λ q. reconcile_each env items q) apart changed
            (λ q e still. each-keeps items q e (ground arith) still)
    ]

    -- A reconcile of Paths, each once, leaves every file that holds a local change, whether the
    -- Path is among them or not, and whether the reconcile succeeds or fails.
    pub reconcile_paths-keeps :
        (read : Text → Outcome (Option File)) (r : Record) (paths : List Text)
        (failures : TheirsFailures) (d : Disk)
        → ReadsAtPath read
        → count n paths ≤ 1
        → IsChanged d r
        → held n (reconcile_paths env read r paths failures d).0 ≡ held n d
    unfolding reconcile_paths
    reconcile_paths-keeps read r paths failures d names once changed =
        sorts (sort_paths read r failures paths) refl
      where
        start : Progress
        start = record { record_now = r; theirs_failures = failures; events = [] }

        sorts :
            (sorted : Outcome (List Item × List Item))
            → sort_paths read r failures paths ≡ sorted
            → held n (reconcile_sorted env start sorted d).0 ≡ held n d
        sorts (err e) eq = refl
        sorts (ok sorted) eq =
            let few = sort_paths-count n read r failures paths sorted names eq in
            let sum = count_items-append n sorted.0 sorted.1 in
            each-keeps (sorted.0 ++ sorted.1) start d (omega (arith, few, sum, once)) changed

    covered_once :
        (paths : Covered) (listed : Outcome (List Text)) (r : Record) (failures : TheirsFailures)
        (due : List Text)
        → InOrder paths
        → covered env paths listed r failures ≡ ok due
        → count n due ≤ 1
    covered_once all (err e) r failures due sorted h = cc
    covered_once all (ok listed) r failures due sorted h =
        let paths =
          extend (extend (extend (extend [] listed) (keys r.bases)) (keys r.divergences))
            (keys failures) in
        let in_order : IsSorted paths = extend-IsSorted _ (keys failures) (
          extend-IsSorted _ (keys r.divergences)
            (extend-IsSorted _ (keys r.bases) (extend-IsSorted [] listed tt))) in
        let same : keys paths ≡ due = cc in rw (← same) (count-keys n paths in_order)
    covered_once (only given) listed r failures due sorted h =
        let paths = extend (extend given (keys r.divergences)) (keys failures) in
        let in_order : IsSorted paths =
          extend-IsSorted _ (keys failures) (extend-IsSorted given (keys r.divergences) sorted) in
        let same : keys paths ≡ due = cc in rw (← same) (count-keys n paths in_order)

    -- Where the operating system's refusals are of no kind that the source takes for an answer,
    -- and the Store reads a File at its own Path, no reconcile of a Working copy loses a local
    -- change: what stands at a name outside `.tidings/`, where it isn't what the name's Base
    -- says, is there after as before, whichever Paths are reconciled, whatever the Store holds
    -- and whatever fails.
    pub reconcile-keeps :
        (read : Text → Outcome (Option File)) (listed : Outcome (List Text)) (paths : Covered)
        (r : Record) (failures : TheirsFailures) (d : Disk)
        → ReadsAtPath read
        → InOrder paths
        → IsChanged d r
        → held n (reconcile env read listed paths r failures d).0 ≡ held n d
    unfolding reconcile
    reconcile-keeps read listed paths r failures d names sorted changed =
        covers (covered env paths listed r failures) refl
      where
        covers :
            (due : Outcome (List Text))
            → covered env paths listed r failures ≡ due
            → held n (reconcile_covered env read (is_all env paths) r failures due d).0 ≡ held n d
        covers (err e) eq = refl
        covers (ok due) eq =
            and_then-held n (reconcile_paths env read r due failures d)
              (swept_after env (is_all env paths)) (held n d)
              (reconcile_paths-keeps read r due failures d names
                (covered_once paths listed r failures due sorted eq) changed)
              (swept-Leaves (is_all env paths))
