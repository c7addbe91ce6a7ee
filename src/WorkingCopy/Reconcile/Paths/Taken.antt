-- ===== src/WorkingCopy/Reconcile/Paths/Taken.antt =====
-- Which Paths the first loop of a reconcile takes (cli/src/working_copy.rs).
use tidings.Base.Tests.{
  subst, ◌+◌, ◌≤◌, ◌≡◌, refl, sym, ap, ◌∙◌, ◌⊎◌, inl, inr, Bool, true, false, Option, none, some,
  List, [], ◌∷◌, arith, Bool-cases,
}
use tidings.Base.Results.{ok, err}
use tidings.Base.Text.{Text, text_eq, text_eq_iff, contains}
use tidings.Base.BTreeMap.{get}
use tidings.Error.{Outcome}
use tidings.Files.{File}
use tidings.WorkingCopy.Record.{Record}
use tidings.WorkingCopy.Folder.{Env}
use tidings.WorkingCopy.Reconcile.{revision_of, base_revision}
use tidings.WorkingCopy.Reconcile.Updates.{same_revision_iff}
use tidings.WorkingCopy.Reconcile.Paths.{TheirsFailures, Item, is_due, sorted_in, sort_paths}
use tidings.WorkingCopy.Reconcile.Paths.Counts.{count_items, ReadsAtPath}
use tidings.WorkingCopy.Reconcile.Paths.Rounds.{StandsWith, AllAt, err_not_ok}

module _ (env : Env) (q : Text) (theirs : Option File) where
  ok_same :
      {given other : Option File}
      → ◌≡◌ {A = Outcome (Option File)} (ok given) (ok other)
      → given ≡ other
  ok_same h = cc

  -- What the first loop takes.
  sorted_in-AllAt :
      (due : Bool) (path : Text) (given : Option File) (sorted : List Item × List Item)
      → (q ≡ path → given ≡ theirs)
      → ((f : File) → given ≡ some f → f.path ≡ path)
      → AllAt env q theirs sorted.0
      → AllAt env q theirs sorted.1
      → AllAt env q theirs (sorted_in due path given sorted).0
        × AllAt env q theirs (sorted_in due path given sorted).1
  sorted_in-AllAt false path given (removed, written) same named a b = (a, b)
  sorted_in-AllAt true path none (removed, written) same named a b = ((same, a), b)
  sorted_in-AllAt true path (some f) (removed, written) same named a b =
      (a, ((λ here. same (here ∙ named f refl)), b))

  sorted_in-count_own :
      (path : Text) (given : Option File) (sorted : List Item × List Item)
      → text_eq q path ≡ true
      → ((f : File) → given ≡ some f → f.path ≡ path)
      → 1
        ≤ count_items q (sorted_in true path given sorted).0
          + count_items q (sorted_in true path given sorted).1
  sorted_in-count_own path none (removed, written) here named = ground (arith, here)
  sorted_in-count_own path (some f) (removed, written) here named =
      ground (arith, here, named f refl)

  sorted_in-count_more :
      (due : Bool) (path : Text) (given : Option File) (sorted : List Item × List Item)
      → count_items q sorted.0 + count_items q sorted.1
        ≤ count_items q (sorted_in due path given sorted).0
          + count_items q (sorted_in due path given sorted).1
  sorted_in-count_more false path given (removed, written) = ground arith
  sorted_in-count_more true path none (removed, written) = ground arith
  sorted_in-count_more true path (some f) (removed, written) = ground arith

  -- A Path that is not due is in step.
  not_due :
      (r : Record) (failures : TheirsFailures)
      → is_due r failures q theirs ≡ false
      → StandsWith env q theirs r
  unfolding is_due
  not_due r failures h = inl (
    ground (arith, h),
    sym (
        same_revision_iff (revision_of theirs) (base_revision (get q r.bases)) (ground (arith, h))),
  )

  abbrev pub IsTaken : Record → List Item × List Item → Type 0
  IsTaken r sorted =
      StandsWith env q theirs r ⊎ (1 ≤ count_items q sorted.0 + count_items q sorted.1)

  one-IsTaken :
      (r : Record) (failures : TheirsFailures) (path : Text) (given : Option File)
      (sorted : List Item × List Item) (paths : List Text)
      → (q ≡ path → given ≡ theirs)
      → ((f : File) → given ≡ some f → f.path ≡ path)
      → (contains q paths ≡ true → IsTaken r sorted)
      → contains q (path ∷ paths) ≡ true
      → IsTaken r (sorted_in (is_due r failures path given) path given sorted)
  one-IsTaken r failures path given sorted paths same named rest there =
      elim (Bool-cases (text_eq q path)) [
        | inl here ↦
            let at = (text_eq_iff q path).0 here in
            elim (Bool-cases (is_due r failures path given)) [
              | inl due ↦ inr (rw due (sorted_in-count_own path given sorted here named))
              | inr early ↦ inl (not_due r failures (rw (at, ← same at) early))
            ]
        | inr apart ↦ elim (rest (ground (arith, apart, there))) [
          | inl stands ↦ inl stands
          | inr taken ↦ inr (
              ground (
                arith,
                taken,
                sorted_in-count_more (is_due r failures path given) path given sorted,
              ))
        ]
      ]

  abbrev pub AllTaken : Record → List Text → List Item × List Item → Type 0
  AllTaken r paths sorted =
      AllAt env q theirs sorted.0
      × AllAt env q theirs sorted.1
      × (contains q paths ≡ true → IsTaken r sorted)

  none-AllTaken : (r : Record) → AllTaken r [] ([], [])
  none-AllTaken r = (tt, tt, λ there. absurd (false_not_true there))
    where
      false_not_true : ◌≡◌ {A = Bool} false true → ⊥
      false_not_true h = cc

  pub sort_paths-AllTaken :
      (read : Text → Outcome (Option File)) (r : Record) (failures : TheirsFailures)
      (paths : List Text) (sorted : List Item × List Item)
      → ReadsAtPath read
      → read q ≡ ok theirs
      → sort_paths read r failures paths ≡ ok sorted
      → AllTaken r paths sorted
  unfolding sort_paths
  sort_paths-AllTaken read r failures [] sorted names holds h =
      let e : ◌≡◌ {A = List Item × List Item} ([], []) sorted = cc in
      subst (λ s. AllTaken r [] s) e (none-AllTaken r)
  sort_paths-AllTaken read r failures (path ∷ paths) sorted names holds h =
      split (read path) (sort_paths read r failures paths) refl
        (λ s e. sort_paths-AllTaken read r failures paths s names holds e) h
    where
      split :
          (found : Outcome (Option File)) (rest : Outcome (List Item × List Item))
          → read path ≡ found
          → ((s : List Item × List Item) → rest ≡ ok s → AllTaken r paths s)
          → (elim found [
            | err e ↦ err e
            | ok given ↦ elim rest [
              | err e ↦ err e
              | ok s ↦ ok (sorted_in (is_due r failures path given) path given s)
            ]
          ])
            ≡ ok sorted
          → AllTaken r (path ∷ paths) sorted
      split (err e) rest found ih k = absurd (err_not_ok e sorted k)
      split (ok given) (err e) found ih k = absurd (err_not_ok e sorted k)
      split (ok given) (ok s) found ih k =
          let (a, b, rest) = ih s refl in
          let same : q ≡ path → given ≡ theirs =
            λ at. ok_same (sym found ∙ ap read (sym at) ∙ holds) in
          let named : (f : File) → given ≡ some f → f.path ≡ path =
            λ f e. names.at_path path f (found ∙ ap (λ t. ok t) e) in
          let at = sorted_in-AllAt (is_due r failures path given) path given s same named a b in
          let e : sorted_in (is_due r failures path given) path given s ≡ sorted = cc in
          subst (λ t. AllTaken r (path ∷ paths) t) e
            (at.0, at.1, one-IsTaken r failures path given s paths same named rest)
