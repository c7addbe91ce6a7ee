-- ===== src/Commits/Refusals.antt =====
-- How the plan of a Commit can fail (src/backend/mod.rs, src/staging.rs).
use tidings.Base.Tests.{
  Bool, true, false, not, Option, none, some, List, [], ◌∷◌, if◌then◌else◌, Bool-cases, inl, inr,
}
use tidings.Base.Lists.{find}
use tidings.Base.Results.{◌>>◌, ok, err, ◌>>=◌}
use tidings.Base.Text.{Text, text_eq}
use tidings.Base.BTreeMap.{BTreeMap, get, insert}
use tidings.Base.BTreeMap.Sorted.{IsSorted}
use tidings.Crates.{Crates}
use tidings.Error.{Error, conflict, invalid_path, Outcome}
use tidings.Files.{Revision}
use tidings.Paths.{letter_case_fold}
use tidings.Staging.{Action, write, delete, Staged}
use tidings.StoreState.{StoreState, Views}
use tidings.Commits.{CommitRequest, plan}
use tidings.Commits.Steps.{check_preconditions}
use tidings.Commits.Conflicts.{Checked, check_preconditions-Checked}
use tidings.Commits.Effect.{the_plan, plan-eq, all_actions}
use tidings.Commits.LeftOut.{left}
use tidings.Commits.Names.{
  without_trailing_slash, prefixes_and_path, is_deleted, refuse_name, check_store, check_name,
  check_names, check_writes, first_segments, segments_of, refuse_clashing_paths,
}

-- A Conflict that names a Path, or a Path that is refused.
abbrev pub IsRefusal : Error → Type 0
IsRefusal (conflict []) = ⊥
IsRefusal (conflict (p ∷ paths)) = Unit
IsRefusal (invalid_path path reason) = Unit
IsRefusal _ = ⊥

abbrev pub FailsRightly {ℓ} : {A : Type ℓ} → Outcome A → Type 0
FailsRightly (ok a) = Unit
FailsRightly (err e) = IsRefusal e

>>=-FailsRightly :
    {A B : Type 0} (first : Outcome A) (next : A → Outcome B)
    → FailsRightly first
    → ((a : A) → FailsRightly (next a))
    → FailsRightly (first >>= next)
>>=-FailsRightly (ok a) next h k = k a
>>=-FailsRightly (err e) next h k = h

refuse_name-FailsRightly : (path name other : Text) → FailsRightly (refuse_name path name other)
unfolding refuse_name
refuse_name-FailsRightly path name other =
    elim (Bool-cases (text_eq other (without_trailing_slash name))) [
      | inl e ↦ rw e tt
      | inr e ↦ rw e tt
    ]

both-FailsRightly :
    {A : Type 0} (first second : Outcome (Unit {0})) (a : A)
    → FailsRightly first
    → FailsRightly second
    → FailsRightly (first >> second >> ok a)
both-FailsRightly (ok _) (ok _) a h k = tt
both-FailsRightly (ok _) (err e) a h k = k
both-FailsRightly (err e) second a h k = h

if-FailsRightly :
    {A : Type 0} (b : Bool) (a : A) (r : Outcome A)
    → FailsRightly r
    → FailsRightly (if b then ok a else r)
if-FailsRightly true a r h = tt
if-FailsRightly false a r h = h

module _ (c : Crates) (current : StoreState) (revisions : BTreeMap Revision)
    (v : Views current revisions) where
  module _ (actions : BTreeMap Action) where
    found-FailsRightly :
        (path name fold : Text) (written : BTreeMap Text) (o : Option Text)
        → FailsRightly {A = BTreeMap Text} (elim o [
          | none ↦ ok (insert fold name written)
          | some other ↦ refuse_name path name (first_segments other (segments_of name))
        ])
    found-FailsRightly path name fold written none = tt
    found-FailsRightly path name fold written (some other) = refuse_name-FailsRightly path name _

    check_store-FailsRightly :
        (path name fold : Text) (written : BTreeMap Text)
        → FailsRightly (check_store c current actions path name fold written)
    unfolding check_store
    check_store-FailsRightly path name fold written =
        let (others, e) = v.paths_named_like_lem name fold in
        rw e (
          found-FailsRightly path name fold written
            (find (λ other. not (is_deleted actions other)) others))

    check_name-FailsRightly :
        (path name : Text) (written : BTreeMap Text)
        → FailsRightly (check_name c current actions path name written)
    unfolding check_name
    check_name-FailsRightly path name written =
        go (letter_case_fold c (without_trailing_slash name))
          (get (letter_case_fold c (without_trailing_slash name)) written)
      where
        go :
            (fold : Text) (o : Option Text)
            → FailsRightly {A = BTreeMap Text} (elim o [
              | some other ↦
                  if text_eq other name
                  then ok written
                  else refuse_name path name (without_trailing_slash other)
              | none ↦ check_store c current actions path name fold written
            ])
        go fold none = check_store-FailsRightly path name fold written
        go fold (some other) =
            if-FailsRightly (text_eq other name) written
              (refuse_name path name (without_trailing_slash other))
              (refuse_name-FailsRightly path name (without_trailing_slash other))

    check_names-FailsRightly :
        (path : Text) (names : List Text) (written : BTreeMap Text)
        → FailsRightly (check_names c current actions path names written)
    unfolding check_names
    check_names-FailsRightly path [] written = tt
    check_names-FailsRightly path (name ∷ names) written =
        >>=-FailsRightly (check_name c current actions path name written) _
          (check_name-FailsRightly path name written)
          (λ more. check_names-FailsRightly path names more)

    check_writes-FailsRightly :
        (writes : BTreeMap Action) (written : BTreeMap Text)
        → FailsRightly (check_writes c current actions writes written)
    unfolding check_writes
    check_writes-FailsRightly [] written = tt
    check_writes-FailsRightly ((path, delete) ∷ rest) written =
        check_writes-FailsRightly rest written
    check_writes-FailsRightly ((path, write x) ∷ rest) written =
        >>=-FailsRightly (check_names c current actions path (prefixes_and_path path) written) _
          (check_names-FailsRightly path (prefixes_and_path path) written)
          (λ more. check_writes-FailsRightly rest more)

    refuse_clashing_paths-FailsRightly : FailsRightly (refuse_clashing_paths c current actions)
    unfolding refuse_clashing_paths
    refuse_clashing_paths-FailsRightly =
        >>=-FailsRightly (check_writes c current actions actions []) _
          (check_writes-FailsRightly actions []) (λ more. tt)

  Checked-FailsRightly :
      (staged : Staged) (r : Outcome (Unit {0})) → Checked c revisions staged r → FailsRightly r
  Checked-FailsRightly staged (ok _) h = tt
  Checked-FailsRightly staged (err (conflict [])) h = h
  Checked-FailsRightly staged (err (conflict (p ∷ paths))) h = tt
  Checked-FailsRightly staged (err e) h = absurd h

  -- Over a state of the Store that reads its Files as they are, a Commit of a Staging that is in
  -- order is planned, or it fails with a Conflict that names a Path, or with a Path that is
  -- refused: it fails in no other way, and the plan does not panic.
  pub plan-FailsRightly :
      (request : CommitRequest)
      → IsSorted request.staged.actions
      → FailsRightly (plan c current request)
  plan-FailsRightly request s = rw (plan-eq c current revisions v request s) (
      both-FailsRightly (check_preconditions c current request.staged)
        (refuse_clashing_paths c current
          (left c revisions (all_actions c current revisions v request.staged)))
        (the_plan c current revisions v request)
        (Checked-FailsRightly request.staged _
          (check_preconditions-Checked c revisions current v request.staged))
        (refuse_clashing_paths-FailsRightly
          (left c revisions (all_actions c current revisions v request.staged))))
