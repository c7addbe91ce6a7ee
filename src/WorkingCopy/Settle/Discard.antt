-- ===== src/WorkingCopy/Settle/Discard.antt =====
-- What `discard` leaves alone (cli/src/working_copy/settle.rs).
use tidings.Base.Tests.{
  ◌≡◌, refl, sym, ap, ◌∙◌, Bool, true, false, not, Option, List, [], ◌∷◌, arith, is_some,
}
use tidings.Base.Lists.{all}
use tidings.Base.Results.{Result, ok, err, ◌>>◌, >>=-eq-ok}
use tidings.Base.Text.{Text, text_eq}
use tidings.Base.BTreeMap.{BTreeMap, get}
use tidings.Error.{Outcome}
use tidings.Files.{File}
use tidings.Store
use tidings.Store.{Backend}
use tidings.Disk.{Disk}
use tidings.Disk.Leaves.{held}
use tidings.WorkingCopy.Reports.{Blocked, SyncEvent}
use tidings.WorkingCopy.Failures.{Failure}
use tidings.WorkingCopy.Folder.{Env, apply, blocking_directory}
use tidings.WorkingCopy.Folder.Outcomes.{apply-Leaves}
use tidings.WorkingCopy.Theirs.Outside.{in_record, remove_stale_theirs-held, not_tmp}
use tidings.WorkingCopy.Differences.{Scan}
use tidings.WorkingCopy.Scan.{Gitignore, scan}
use tidings.WorkingCopy.Selection.{Selection, NamingCommand, check_each_names_something}
use tidings.WorkingCopy.Attempts.{Working}
use tidings.WorkingCopy.Commit.{Done, save}
use tidings.WorkingCopy.Settle.{
  DiscardedChange, Discarded, Discarding, discardable, refuse_unfit_names, Sorted, sort_one,
  found_at, sort_chosen, discarded_of, settled_record, failed_after, discard_applied,
  with_discarded, discard_each, discard_saved, discard_done, discard_sorted, discard_checked,
  discard_prepared, discard, in_failure,
}

-- Whether none of what is to be discarded is at a name.
abbrev pub spares : Text → List Discarding → Bool
spares n = all (λ (one : Discarding). not (text_eq n one.path))

module _ (env : Env) (n : Text) where
  open env use {crates}

  sort_one-spares :
      (one : Discarding) (way : Option Blocked) (rest : Sorted env)
      → text_eq n one.path ≡ false
      → spares n rest.0 ≡ true
      → spares n (sort_one env one way rest).0 ≡ true
  sort_one-spares one way (doing, blocked) apart h = ground arith

  sort_chosen-spares :
      (read : Text → Outcome (Option File)) (d : Disk) (chosen : BTreeMap DiscardedChange)
      (sorted : Sorted env)
      → is_some (get n chosen) ≡ false
      → sort_chosen env read d chosen ≡ ok sorted
      → spares n sorted.0 ≡ true
  unfolding sort_chosen get
  sort_chosen-spares read d [] sorted h k =
      let same : ◌≡◌ {A = Sorted env} ([], []) sorted = cc in
      ap (λ (s : Sorted env). spares n s.0) (sym same)
  sort_chosen-spares read d ((path, change) ∷ chosen) sorted h k =
      let (theirs, a, after_read) = >>=-eq-ok (in_failure env (read path)) _ k in
      let (found, e, after_found) =
        >>=-eq-ok (found_at env d path (blocking_directory env [] d path)) _ after_read in
      let (rest, f, done) = >>=-eq-ok (sort_chosen env read d chosen) _ after_found in
      let one : Discarding = record {
        path = path;
        change = change;
        store_file = theirs;
        local_there = found.1;
      } in
      let same : sort_one env one found.0 rest ≡ sorted = cc in
      ap (λ (s : Sorted env). spares n s.0) (sym same)
      ∙ sort_one-spares one found.0 rest (ground arith)
          (sort_chosen-spares read d chosen rest (ground arith) f)

  module _ {S V : Type 0} (b : Backend S V) (outside : in_record n ≡ false) where
    save-disk : (w : Working S) → (save env b w).0.disk ≡ w.disk
    unfolding save
    save-disk w = ground arith

    failed-disk :
        (f : Failure) (done : Done env b (Unit {0}))
        → (failed_after env b f done).0.disk ≡ done.0.disk
    failed-disk f (w, err g) = refl
    failed-disk f (w, ok _) = refl

    listed-disk :
        (one : Discarded) (done : Done env b (List Discarded))
        → (with_discarded env b one done).0.disk ≡ done.0.disk
    listed-disk one (w, err f) = refl
    listed-disk one (w, ok more) = refl

    applied-held :
        (w : Working S) (one : Discarding) (next : Working S → Done env b (List Discarded))
        (applied : Disk × Result Failure SyncEvent)
        → held n applied.0 ≡ held n w.disk
        → ((v : Working S) → held n (next v).0.disk ≡ held n v.disk)
        → held n (discard_applied env b w one next applied).0.disk ≡ held n w.disk
    applied-held w one next (d, err f) h k =
        ap (held n)
          (failed-disk f (save env b (record w { disk = d })) ∙ save-disk (record w { disk = d }))
        ∙ h
    applied-held w one next (d, ok _) h k = k _ ∙ h

    each-held :
        (doing : List Discarding) (w : Working S)
        → spares n doing ≡ true
        → held n (discard_each env b doing w).0.disk ≡ held n w.disk
    unfolding discard_each
    each-held [] w h = refl
    each-held (one ∷ more) w h =
        let next = λ (v : Working S).
          with_discarded env b (discarded_of env one) (discard_each env b more v) in
        let next_held : (v : Working S) → held n (next v).0.disk ≡ held n v.disk = λ v.
          ap (held n) (listed-disk (discarded_of env one) (discard_each env b more v))
          ∙ each-held more v (ground arith) in
        let leaves =
          apply-Leaves env n one.path one.local_there one.store_file (ground arith)
            (not_tmp env n outside) in
        let applied =
          applied-held w one next (apply env one.path one.local_there one.store_file w.disk)
            (leaves.same w.disk) next_held in
        let kept = next_held (record w { record_now = settled_record env w.record_now one }) in
        ground (arith, applied, kept)

    saved-held :
        (discarded : List Discarded) (done : Done env b (Unit {0}))
        → held n (discard_saved env b discarded done).0.disk ≡ held n done.0.disk
    saved-held discarded (w, err f) = refl
    saved-held discarded (w, ok _) = remove_stale_theirs-held env n outside w.record_now w.disk

    done-held :
        (done : Done env b (List Discarded))
        → held n (discard_done env b done).0.disk ≡ held n done.0.disk
    done-held (w, err f) = refl
    done-held (w, ok discarded) = saved-held discarded (save env b w) ∙ ap (held n) (save-disk w)

    sorted-held :
        (w : Working S) (sorted : Result Failure (Sorted env))
        → ((s : Sorted env) → sorted ≡ ok s → spares n s.0 ≡ true)
        → held n (discard_sorted env b w sorted).0.disk ≡ held n w.disk
    sorted-held w (err f) h = refl
    sorted-held w (ok (doing, [])) h =
        done-held (discard_each env b doing w) ∙ each-held doing w (h (doing, []) refl)
    sorted-held w (ok (doing, way ∷ ways)) h = refl

    checked-spares :
        (selection : Selection) (w : Working S) (found : Scan) (s : Sorted env)
        → is_some (get n (discardable env found w.record_now selection)) ≡ false
        → discard_checked env b selection w found ≡ ok s
        → spares n s.0 ≡ true
    checked-spares selection w found s not_chosen h =
        let (u, checked, sorting) =
          >>=-eq-ok
            (check_each_names_something selection found w.record_now NamingCommand.discard
              >> refuse_unfit_names env found selection)
            (λ _.
              sort_chosen env (Store.read crates b w.store) w.disk
                (discardable env found w.record_now selection))
            h in
        sort_chosen-spares (Store.read crates b w.store) w.disk
          (discardable env found w.record_now selection) s not_chosen sorting

    -- `discard` leaves what stands at every name outside `.tidings/` that it does not choose, in
    -- any scan of the folder that succeeds, whether `discard` succeeds or fails.
    pub discard-keeps :
        {G : Type 0} (gitignore : Gitignore G) (selection : Selection) (w : Working S)
        → ((found : Scan)
            → scan env gitignore w.disk w.record_now.bases ≡ ok found
            → is_some (get n (discardable env found w.record_now selection)) ≡ false)
        → held n (discard env b gitignore selection w).0.disk ≡ held n w.disk
    unfolding discard
    discard-keeps gitignore selection w not_chosen =
        sorted-held w (discard_prepared env b gitignore selection w) (λ s h.
          let (found, scanned, after) =
            >>=-eq-ok (scan env gitignore w.disk w.record_now.bases)
              (discard_checked env b selection w) h in
          checked-spares selection w found s (not_chosen found scanned) after)
