-- ===== src/Commits/Effect.antt =====
-- What a Commit's plan does at each Path, over any Backend's `StoreState` (src/backend/mod.rs).
use tidings.Base.Tests.{
  ◌≡◌, refl, sym, ◌∙◌, ◌&&◌, Option, none, some, is_some, [], ◌∷◌, arith, if◌then◌else◌,
}
use tidings.Base.Results.{ok, err, ◌>>=◌, ◌>>◌}
use tidings.Base.Text.{Text, text_eq_iff}
use tidings.Base.BTreeMap.{BTreeMap, get, keys}
use tidings.Base.BTreeMap.Sorted.{AllAbove, IsSorted, get_of_AllAbove}
use tidings.Crates.{Crates}
use tidings.Error.{Outcome}
use tidings.Files.{Revision, Timestamp}
use tidings.Revisions.{of}
use tidings.Staging.{Action, write, delete, Staged}
use tidings.StoreState.{StoreState, Views}
use tidings.Commits.{Planned, Plan, CommitRequest, planned, plan_changes, plan}
use tidings.Commits.Steps.{
  Planning, none_planned, check_preconditions, expand_prefix_deletes,
  leave_out_what_changes_nothing,
}
use tidings.Commits.Names.{refuse_clashing_paths}
use tidings.Commits.Expand.{
  or_else_delete, any_covers, expanded, expand_each-expanded, get-expanded, expanded-IsSorted,
}
use tidings.Commits.LeftOut.{
  is_noop, written_at, plan_all, left, get-left, left-IsSorted, get-written-plan_all,
  get-removed-plan_all, plan_each-plan_all,
}

-- What a Staging does to a Path: what is staged for it, or else a delete if there is a File that a
-- staged Prefix delete covers.
unfoldable pub effective : Staged → BTreeMap Revision → Text → Option Action
effective staged revisions p =
    or_else_delete (get p staged.actions)
      (any_covers p (keys staged.prefix_deletes) && is_some (get p revisions))

module _ (c : Crates) (timestamp : Timestamp) where
  -- The change that an action makes to a File with this Revision, or to none.
  abbrev pub made : Action → Option Revision → Planned
  made (write x) now = Planned.write x (record { modified = timestamp; revision = of c x })
  made delete none = Planned.remove 0
  made delete (some r) = Planned.remove r

  abbrev pub made_at : Option Action → Option Revision → Option Planned
  made_at none now = none
  made_at (some a) now = if is_noop c a now then none else some (made a now)

  module _ (revisions : BTreeMap Revision) where
    unfoldable pub made_all : BTreeMap Action → BTreeMap Planned
    made_all [] = []
    made_all ((path, a) ∷ m) = (path, made a (get path revisions)) ∷ made_all m

    abbrev some_made : Option Action → Option Revision → Option Planned
    some_made none now = none
    some_made (some a) now = some (made a now)

    get-made_all :
        (p : Text) (m : BTreeMap Action)
        → get p (made_all m) ≡ some_made (get p m) (get p revisions)
    unfolding made_all get
    get-made_all p [] = refl
    get-made_all p ((path, a) ∷ m) = ground (arith, get-made_all p m, text_eq_iff p path)

    made_all-AllAbove : (k : Text) (m : BTreeMap Action) → AllAbove k m → AllAbove k (made_all m)
    unfolding made_all
    made_all-AllAbove k [] a = tt
    made_all-AllAbove k ((path, _) ∷ m) (h, a) = (h, made_all-AllAbove k m a)

    made_all-IsSorted : (m : BTreeMap Action) → IsSorted m → IsSorted (made_all m)
    unfolding made_all
    made_all-IsSorted [] s = tt
    made_all-IsSorted ((path, _) ∷ m) (a, s) = (made_all-AllAbove path m a, made_all-IsSorted m s)

    plan_changes-made_all :
        (p : Planning) (m : BTreeMap Action)
        → IsSorted m
        → ((path : Text) (a : Action)
            → get path m ≡ some a
            → planned timestamp p path a ≡ ok (made a (get path revisions)))
        → plan_changes timestamp p m ≡ ok (made_all m)
    unfolding plan_changes made_all get
    plan_changes-made_all p [] s each = refl
    plan_changes-made_all p ((path, a) ∷ m) (above, s) each = rw (
      each path a (ground (arith, text_eq_iff path path)),
      plan_changes-made_all p m s
          (λ q b e. each q b (ground (arith, get_of_AllAbove path m above, text_eq_iff q path))),
    )

    -- No Revision that is looked up is missing.
    planned-made :
        (m : BTreeMap Action) (path : Text) (a : Action)
        → IsSorted m
        → get path (left c revisions m) ≡ some a
        → planned timestamp (plan_all c revisions m none_planned) path a
          ≡ ok (made a (get path revisions))
    unfolding planned get
    planned-made m path (write x) s e = ground (
      arith,
      get-left c revisions path m s,
      get-written-plan_all c revisions path m none_planned s,
    )
    planned-made m path delete s e = ground (
      arith,
      get-left c revisions path m s,
      get-removed-plan_all c revisions path m none_planned s,
    )

-- Two checks, and then a step that succeeds.
checks_then :
    {A B : Type 0} (first second : Outcome (Unit {0})) (m : Outcome A) (a : A) (f : A → Outcome B)
    → m ≡ ok a
    → (first >>= λ _. second >>= λ _. m >>= f) ≡ (first >> second >> f a)
checks_then (ok _) (ok _) m a f e = rw e
checks_then (ok _) (err x) m a f e = refl
checks_then (err x) second m a f e = refl

then_ok :
    {A : Type 0} (first second : Outcome (Unit {0})) (a b : A)
    → (first >> second >> ok a) ≡ ok b
    → (first ≡ ok tt) × (second ≡ ok tt) × (b ≡ a)
then_ok (ok _) (ok _) a b e = (refl, refl, cc)
then_ok (ok _) (err x) a b e = cc
then_ok (err x) second a b e = cc

module _ (c : Crates) (current : StoreState) (revisions : BTreeMap Revision)
    (v : Views current revisions) where
  -- The actions of a Staging once its Prefix deletes are expanded.
  abbrev pub all_actions : Staged → BTreeMap Action
  all_actions staged = expanded current revisions v (keys staged.prefix_deletes) staged.actions

  all_actions-IsSorted : (staged : Staged) → IsSorted staged.actions → IsSorted (all_actions staged)
  all_actions-IsSorted staged s =
      expanded-IsSorted current revisions v (keys staged.prefix_deletes) staged.actions s

  get-all_actions :
      (p : Text) (staged : Staged) → get p (all_actions staged) ≡ effective staged revisions p
  unfolding effective
  get-all_actions p staged =
      get-expanded current revisions v p (keys staged.prefix_deletes) staged.actions

  -- The plan, if neither check refuses it.
  abbrev pub the_plan : CommitRequest → Plan
  the_plan request = record {
    changes =
        made_all c request.timestamp revisions (left c revisions (all_actions request.staged));
    revisions = (plan_all c revisions (all_actions request.staged) none_planned).written;
  }

  -- The steps with what they give written out.
  pub plan-eq :
      (request : CommitRequest)
      → IsSorted request.staged.actions
      → plan c current request ≡ (
          check_preconditions c current request.staged
          >> refuse_clashing_paths c current (left c revisions (all_actions request.staged))
          >> ok (the_plan request))
  unfolding plan expand_prefix_deletes leave_out_what_changes_nothing left
  plan-eq request s =
      let m = all_actions request.staged in
      let sorted = all_actions-IsSorted request.staged s in
      let p = plan_all c revisions m none_planned in
      rw
        (
          expand_each-expanded current revisions v (keys request.staged.prefix_deletes)
              request.staged.actions,
          plan_each-plan_all c revisions current v m none_planned,
        )
        (checks_then (check_preconditions c current request.staged)
          (refuse_clashing_paths c current (left c revisions m))
          (plan_changes request.timestamp p (left c revisions m))
          (made_all c request.timestamp revisions (left c revisions m))
          (λ changes. ok (record { changes = changes; revisions = p.written }))
          (plan_changes-made_all c request.timestamp revisions p (left c revisions m)
            (left-IsSorted c revisions m sorted)
            (λ path a e. planned-made c request.timestamp revisions m path a sorted e)))

  plan-ok :
      (request : CommitRequest) (p : Plan)
      → IsSorted request.staged.actions
      → plan c current request ≡ ok p
      → p ≡ the_plan request
  plan-ok request p s e =
      (then_ok (check_preconditions c current request.staged)
        (refuse_clashing_paths c current (left c revisions (all_actions request.staged)))
        (the_plan request) p (sym (plan-eq request s) ∙ e)).2

  -- When a Commit is planned on a Store whose Files can be read, the plan has one change for each
  -- Path that the Staging does something to that changes its File: a write of the staged contents,
  -- with the Commit's time and the Revision of the contents, unless the File has that Revision
  -- already; or a removal with the File's Revision, where there is a File. The changes are in order
  -- of Path, and the Revisions are those of every write, changing or not.
  pub plan_effect :
      (request : CommitRequest) (p : Plan)
      → IsSorted request.staged.actions
      → plan c current request ≡ ok p
      → ((q : Text)
          → (get q p.changes
              ≡ made_at c request.timestamp
                  (effective request.staged revisions q)
                  (get q revisions))
            × (get q p.revisions ≡ written_at c (effective request.staged revisions q) none))
        × IsSorted p.changes
  plan_effect request p s e =
      let m = all_actions request.staged in
      let sorted = all_actions-IsSorted request.staged s in
      rw (plan-ok request p s e) (
        λ q. (
          get-made_all c request.timestamp revisions q (left c revisions m)
              ∙ rw (get-left c revisions q m sorted, get-all_actions q request.staged)
                  (ground arith),
          get-written-plan_all c revisions q m none_planned sorted
              ∙ rw (get-all_actions q request.staged) (unfold get in refl),
        ),
        made_all-IsSorted c request.timestamp revisions (left c revisions m)
            (left-IsSorted c revisions m sorted),
      )
