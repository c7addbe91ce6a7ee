-- ===== src/Commits/Clashes.antt =====
-- The names that one Commit writes do not clash (src/staging.rs, `refuse_clashing_paths`).
use tidings.Base.Tests.{
  ◌≡◌, refl, subst, true, not, Option, none, some, List, [], ◌∷◌, arith, if◌then◌else◌, Bool-cases,
  inl, inr,
}
use tidings.Base.Lists.{find}
use tidings.Base.Results.{ok, err, ◌>>=◌, >>=-eq-ok}
use tidings.Base.Text.{Text, contains, text_eq, text_eq_iff}
use tidings.Base.BTreeMap.{BTreeMap, get, insert, get-insert}
use tidings.Crates.{Crates}
use tidings.Error.{Outcome}
use tidings.Paths.{letter_case_fold}
use tidings.Staging.{Action, write, delete}
use tidings.StoreState.{StoreState}
use tidings.Commits.Names.{
  without_trailing_slash, prefixes_and_path, is_deleted, refuse_name, check_store, check_name,
  check_names, check_writes, first_segments, segments_of, refuse_clashing_paths,
}

ok_inj : {a b : BTreeMap Text} → ◌≡◌ {A = Outcome (BTreeMap Text)} (ok a) (ok b) → a ≡ b
ok_inj e = cc

module _ (c : Crates) (current : StoreState) (actions : BTreeMap Action) where
  -- The fold that a name enters.
  abbrev pub fold_of : Text → Text
  fold_of name = letter_case_fold c (without_trailing_slash name)

  -- A fold that is entered stays so, and `name` is entered.
  abbrev Enters : Text → BTreeMap Text → BTreeMap Text → Type 0
  Enters name written more =
      ((f n : Text) → get f written ≡ some n → get f more ≡ some n)
      × (get (fold_of name) more ≡ some name)

  insert-Enters :
      (name : Text) (written more : BTreeMap Text)
      → get (fold_of name) written ≡ none
      → insert (fold_of name) name written ≡ more
      → Enters name written more
  insert-Enters name written more vacant e = (
    λ f n h.
        rw (← e)
          (ground (arith, get-insert (fold_of name) f name written, text_eq_iff f (fold_of name))),
    rw (← e) (
        ground (
          arith,
          get-insert (fold_of name) (fold_of name) name written,
          text_eq_iff (fold_of name) (fold_of name),
        )),
  )

  refuse_name-not :
      (path name other : Text) (more : BTreeMap Text) → refuse_name path name other ≡ ok more → ⊥
  unfolding refuse_name
  refuse_name-not path name other more e = ground arith

  check_store-Enters :
      (path name : Text) (written more : BTreeMap Text)
      → get (fold_of name) written ≡ none
      → check_store c current actions path name (fold_of name) written ≡ ok more
      → Enters name written more
  unfolding check_store
  check_store-Enters path name written more vacant e =
      go (current.paths_named_like name (fold_of name)) e
    where
      go :
          (r : Outcome (List Text))
          → (r >>= (λ others. elim (find (λ other. not (is_deleted actions other)) others) [
            | none ↦ ok (insert (fold_of name) name written)
            | some other ↦ refuse_name path name (first_segments other (segments_of name))
          ]))
            ≡ ok more
          → Enters name written more
      go (err e) h = cc
      go (ok others) h = found (find (λ other. not (is_deleted actions other)) others) h
        where
          found :
              (o : Option Text)
              → (elim o [
                | none ↦ ok (insert (fold_of name) name written)
                | some other ↦ refuse_name path name (first_segments other (segments_of name))
              ])
                ≡ ok more
              → Enters name written more
          found none k = insert-Enters name written more vacant (cc)
          found (some other) k = absurd (refuse_name-not path name _ more k)

  check_name-Enters :
      (path name : Text) (written more : BTreeMap Text)
      → check_name c current actions path name written ≡ ok more
      → Enters name written more
  unfolding check_name
  check_name-Enters path name written more e = go (get (fold_of name) written) refl e
    where
      go :
          (o : Option Text)
          → get (fold_of name) written ≡ o
          → (elim o [
            | some other ↦
                if text_eq other name
                then ok written
                else refuse_name path name (without_trailing_slash other)
            | none ↦ check_store c current actions path name (fold_of name) written
          ])
            ≡ ok more
          → Enters name written more
      go none vacant h = check_store-Enters path name written more vacant h
      go (some other) there h = elim (Bool-cases (text_eq other name)) [
        | inl same ↦
            let unchanged : written ≡ more = ground arith in
            let named : other ≡ name = (text_eq_iff other name).0 same in
            (λ f n k. rw (← unchanged) k, rw (← unchanged, there, named) refl)
        | inr differs ↦
            absurd (refuse_name-not path name (without_trailing_slash other) more (ground arith))
      ]

  check_names-Enters :
      (path : Text) (names : List Text) (written more : BTreeMap Text)
      → check_names c current actions path names written ≡ ok more
      → ((f n : Text) → get f written ≡ some n → get f more ≡ some n)
        × ((name : Text) → contains name names ≡ true → get (fold_of name) more ≡ some name)
  unfolding check_names
  check_names-Enters path [] written more e = (λ f n k. rw (← ok_inj e) k, λ name k. cc)
  check_names-Enters path (name ∷ names) written more e =
      let (next, made, h) =
        >>=-eq-ok (check_name c current actions path name written)
          (check_names c current actions path names) e in
      let one = check_name-Enters path name written next made in
      let rest = check_names-Enters path names next more h in
      (
        λ f n k. rest.0 f n (one.0 f n k),
        λ m k. elim (Bool-cases (text_eq m name)) [
          | inl same ↦ rw ((text_eq_iff m name).0 same) (rest.0 (fold_of name) name one.1)
          | inr other ↦ rest.1 m (ground arith)
        ],
      )

  check_writes-Enters :
      (writes : BTreeMap Action) (written more : BTreeMap Text)
      → check_writes c current actions writes written ≡ ok more
      → ((f n : Text) → get f written ≡ some n → get f more ≡ some n)
        × ((path x name : Text)
            → get path writes ≡ some (write x)
            → contains name (prefixes_and_path path) ≡ true
            → get (fold_of name) more ≡ some name)
  unfolding check_writes get
  check_writes-Enters [] written more e = (λ f n k. rw (← ok_inj e) k, λ q x name there k. cc)
  check_writes-Enters ((path, delete) ∷ rest) written more e =
      let later = check_writes-Enters rest written more e in
      (later.0, λ q x name there k. later.1 q x name (ground arith) k)
  check_writes-Enters ((path, write y) ∷ rest) written more e =
      let (next, made, h) =
        >>=-eq-ok (check_names c current actions path (prefixes_and_path path) written)
          (check_writes c current actions rest) e in
      let one = check_names-Enters path (prefixes_and_path path) written next made in
      let later = check_writes-Enters rest next more h in
      (
        λ f n k. later.0 f n (one.0 f n k),
        λ q x name there k. elim (Bool-cases (text_eq q path)) [
          | inl same ↦ later.0 (fold_of name) name (
              one.1 name (
                subst (λ p. contains name (prefixes_and_path p) ≡ true)
                  ((text_eq_iff q path).0 same) k))
          | inr other ↦ later.1 q x name (ground arith) k
        ],
      )

  -- Where a Commit's names pass the check, no two names that it writes are alike but for letter
  -- case, and none is both a Path and a Prefix: two of the Paths it writes and the Prefixes they
  -- are under that have one fold, without the `/` at their end, are the same name.
  pub refuse_clashing_paths_lem :
      (p q x y n m : Text)
      → refuse_clashing_paths c current actions ≡ ok tt
      → get p actions ≡ some (write x)
      → get q actions ≡ some (write y)
      → contains n (prefixes_and_path p) ≡ true
      → contains m (prefixes_and_path q) ≡ true
      → fold_of n ≡ fold_of m
      → n ≡ m
  unfolding refuse_clashing_paths
  refuse_clashing_paths_lem p q x y n m e wp wq np mq same =
      let (more, made, _) =
        >>=-eq-ok (check_writes c current actions actions []) (λ written. ok tt) e in
      let enters = (check_writes-Enters actions [] more made).1 in
      let fn = enters p x n wp np in let fm = enters q y m wq mq in cc (fn, fm, same)
