-- ===== src/WorkingCopy/Status/Refusals.antt =====
-- What `status` of a Working copy says that `commit` would do (cli/src/working_copy.rs).
use tidings.Base.Tests.{
  ◌≡◌, refl, ap, ◌∙◌, Bool, true, false, not, ◌&&◌, ◌||◌, Option, none, some, List, [], ◌∷◌, ◌++◌,
  is_some, map, arith,
}
use tidings.Base.Lists.{any, any-append}
use tidings.Base.Results.{is_ok}
use tidings.Base.Text.{Text, text_eq, text_eq_iff}
use tidings.Base.BTreeMap.{BTreeMap, get}
use tidings.WorkingCopy.Record.{Divergence, Record}
use tidings.WorkingCopy.Reports.{DivergedPath, Unfit}
use tidings.WorkingCopy.Folder.{Env}
use tidings.WorkingCopy.Differences.{Scan, Difference, path_of_name, changes}
use tidings.WorkingCopy.Differences.Changes.{change_at}
use tidings.WorkingCopy.Scan.{insert_by_name, sort_by_name}
use tidings.WorkingCopy.Selection.{
  Selection, covers, diverged_in, diverged_paths, refuse_diverged, refuse_invalid,
}
use tidings.WorkingCopy.Status.{
  PathStatus, changed, diverged, invalid, name_of, changed_statuses, names_diverged,
  invalid_statuses, statuses,
}

any-insert_by_name :
    {A : Type 0} (p : A → Bool) (name : A → Text) (x : A) (xs : List A)
    → any p (insert_by_name name x xs) ≡ (p x || any p xs)
unfolding insert_by_name
any-insert_by_name p name x [] = refl
any-insert_by_name p name x (y ∷ ys) = ground (arith, any-insert_by_name p name x ys)

any-sort_by_name :
    {A : Type 0} (p : A → Bool) (name : A → Text) (xs : List A)
    → any p (sort_by_name name xs) ≡ any p xs
unfolding sort_by_name
any-sort_by_name p name [] = refl
any-sort_by_name p name (x ∷ xs) =
    any-insert_by_name p name x (sort_by_name name xs) ∙ ground (arith, any-sort_by_name p name xs)

-- What `commit` would commit at a Path.
abbrev pub is_changed_at : Text → PathStatus → Bool
is_changed_at q (changed path change) = text_eq q path
is_changed_at q (diverged at) = false
is_changed_at q (invalid unfit) = false

-- What `commit` would refuse.
abbrev pub is_refused : PathStatus → Bool
is_refused (changed path change) = false
is_refused (diverged at) = true
is_refused (invalid unfit) = true

module _ (env : Env) (r : Record) where
  changed-changed_at :
      (q : Text) (changes : List (Text × Difference))
      → any (is_changed_at q) (changed_statuses env r changes)
        ≡ (not (is_some (get q r.divergences)) && is_some (change_at q changes))
  unfolding changed_statuses
  changed-changed_at q [] = ground arith
  changed-changed_at q ((path, difference) ∷ more) =
      ground (arith, changed-changed_at q more, text_eq_iff q path)

  diverged-changed_at :
      (q : Text) (paths : List DivergedPath) → any (is_changed_at q) (map diverged paths) ≡ false
  diverged-changed_at q [] = refl
  diverged-changed_at q (at ∷ paths) = diverged-changed_at q paths

  invalid-changed_at :
      (q : Text) (unfit : List Unfit) → any (is_changed_at q) (invalid_statuses env r unfit) ≡ false
  unfolding invalid_statuses
  invalid-changed_at q [] = refl
  invalid-changed_at q (unfit ∷ more) = ground (arith, invalid-changed_at q more)

  changed-refused :
      (changes : List (Text × Difference)) → any is_refused (changed_statuses env r changes) ≡ false
  unfolding changed_statuses
  changed-refused [] = refl
  changed-refused ((path, difference) ∷ more) = ground (arith, changed-refused more)

  none_named : (path : Option Text) → r.divergences ≡ [] → names_diverged env r path ≡ false
  unfolding get
  none_named none none_diverged = refl
  none_named (some path) none_diverged = rw none_diverged refl

  invalid-refused :
      (unfit : List Unfit)
      → r.divergences ≡ []
      → any is_refused (invalid_statuses env r unfit)
        ≡ not (is_ok (refuse_invalid unfit Selection.all))
  unfolding invalid_statuses refuse_invalid covers
  invalid-refused [] none_diverged = refl
  invalid-refused (unfit ∷ more) none_diverged =
      rw (none_named (path_of_name env unfit.name) none_diverged) refl

  none_listed : r.divergences ≡ [] → diverged_paths r Selection.all ≡ []
  unfolding diverged_paths
  none_listed none_diverged = ap (diverged_in Selection.all) none_diverged

  some_listed :
      (path : Text) (divergence : Divergence) (divergences : BTreeMap Divergence)
      → r.divergences ≡ (path, divergence) ∷ divergences
      → any is_refused (map diverged (diverged_paths r Selection.all)) ≡ true
  unfolding diverged_paths covers
  some_listed path divergence divergences some_diverged = rw some_diverged refl

  some_refused :
      (path : Text) (divergence : Divergence) (divergences : BTreeMap Divergence)
      → r.divergences ≡ (path, divergence) ∷ divergences
      → is_ok (refuse_diverged r Selection.all) ≡ false
  unfolding refuse_diverged diverged_paths covers
  some_refused path divergence divergences some_diverged = rw some_diverged refl

  none_refused : r.divergences ≡ [] → is_ok (refuse_diverged r Selection.all) ≡ true
  unfolding refuse_diverged diverged_paths
  none_refused none_diverged = rw none_diverged refl

  -- Where a Path is Diverged, that is refused; where none is, it is what can't be a File.
  diverged-refused :
      (divergences : BTreeMap Divergence) (unfit : List Unfit)
      → r.divergences ≡ divergences
      → (any is_refused (map diverged (diverged_paths r Selection.all))
          || any is_refused (invalid_statuses env r unfit))
        ≡ (not (is_ok (refuse_diverged r Selection.all))
            || not (is_ok (refuse_invalid unfit Selection.all)))
  diverged-refused [] unfit none_diverged =
      rw (none_listed none_diverged, none_refused none_diverged)
        (invalid-refused unfit none_diverged)
  diverged-refused ((path, divergence) ∷ divergences) unfit some_diverged = ground (
    arith,
    some_listed path divergence divergences some_diverged,
    some_refused path divergence divergences some_diverged,
  )

  -- `status` lists a Path as changed exactly where it isn't Diverged and is changed against its Base,
  -- and lists something as Diverged or invalid exactly where a `commit` of everything is refused for
  -- what is Diverged or can't become a File.
  pub statuses-refused :
      (found : Scan) (q : Text)
      → (any (is_changed_at q) (statuses env r found)
          ≡ (not (is_some (get q r.divergences)) && is_some (change_at q (changes env found))))
        × (any is_refused (statuses env r found) ≡ (
            not (is_ok (refuse_diverged r Selection.all))
            || not (is_ok (refuse_invalid found.invalid Selection.all))))
  unfolding statuses
  statuses-refused found q =
      let committed = changed_statuses env r (changes env found) in
      let at_diverged = map diverged (diverged_paths r Selection.all) in
      let unfit = invalid_statuses env r found.invalid in
      (
        any-sort_by_name (is_changed_at q) name_of (committed ++ (at_diverged ++ unfit))
            ∙ ground (
              arith,
              any-append (is_changed_at q) committed (at_diverged ++ unfit),
              any-append (is_changed_at q) at_diverged unfit,
              changed-changed_at q (changes env found),
              diverged-changed_at q (diverged_paths r Selection.all),
              invalid-changed_at q found.invalid,
            ),
        any-sort_by_name is_refused name_of (committed ++ (at_diverged ++ unfit))
            ∙ ground (
              arith,
              any-append is_refused committed (at_diverged ++ unfit),
              any-append is_refused at_diverged unfit,
              changed-refused (changes env found),
              diverged-refused r.divergences found.invalid refl,
            ),
      )
