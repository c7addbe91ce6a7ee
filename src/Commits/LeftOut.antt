-- ===== src/Commits/LeftOut.antt =====
-- What is left to do once writes and deletes that change nothing are left out, and the Revisions
-- that the step gives (src/staging.rs).
use tidings.Base.Tests.{
  ◌≡◌, refl, ◌∙◌, Bool, false, not, ◌&&◌, ◌||◌, Option, none, some, is_some, List, [], ◌∷◌, arith,
  if◌then◌else◌,
}
use tidings.Base.Results.{ok}
use tidings.Base.Text.{Text, contains, text_eq, text_eq_iff}
use tidings.Base.BTreeMap.{BTreeMap, get, remove, get-insert, get-remove}
use tidings.Base.BTreeMap.Sorted.{IsSorted, remove-IsSorted, get_of_AllAbove}
use tidings.Crates.{Crates}
use tidings.Files.{Revision, same_revision}
use tidings.Revisions.{of}
use tidings.Staging.{Action, write, delete}
use tidings.StoreState.{StoreState, Views}
use tidings.Commits.Steps.{Planning, none_planned, remove_all, plan_one, plan_each}

get-remove_all :
    (p : Text) (paths : List Text) (m : BTreeMap Action)
    → get p (remove_all paths m) ≡ (if contains p paths then none else get p m)
unfolding remove_all
get-remove_all p [] m = refl
get-remove_all p (q ∷ paths) m = get-remove_all p paths (remove q m) ∙ rw get-remove (ground arith)

pub remove_all-IsSorted :
    (paths : List Text) (m : BTreeMap Action) → IsSorted m → IsSorted (remove_all paths m)
unfolding remove_all
remove_all-IsSorted [] m s = s
remove_all-IsSorted (q ∷ paths) m s = remove_all-IsSorted paths (remove q m) (remove-IsSorted q m s)

module _ (c : Crates) where
  -- Whether an action would change nothing of a File with this Revision, or of none.
  abbrev pub is_noop : Action → Option Revision → Bool
  is_noop (write contents) now = same_revision now (some (of c contents))
  is_noop delete now = not (is_some now)

  abbrev pub noop_at : Option Action → Option Revision → Bool
  noop_at none now = false
  noop_at (some a) now = is_noop a now

  -- The Revision a write gives.
  abbrev pub written_at : Option Action → Option Revision → Option Revision
  written_at (some (write contents)) old = some (of c contents)
  written_at _ old = old

  -- The Revision of a File that a delete removes.
  abbrev pub removed_at : Option Action → Option Revision → Option Revision → Option Revision
  removed_at (some delete) (some now) old = some now
  removed_at _ now old = old

  written-plan_one :
      (q path : Text) (a : Action) (now : Option Revision) (p : Planning)
      → get q (plan_one c path a now p).written
        ≡ (if text_eq q path then written_at (some a) (get q p.written) else get q p.written)
  unfolding plan_one
  written-plan_one q path (write x) now p = get-insert path q (of c x) p.written
  written-plan_one q path delete none p = ground arith
  written-plan_one q path delete (some r) p = ground arith

  removed-plan_one :
      (q path : Text) (a : Action) (now : Option Revision) (p : Planning)
      → get q (plan_one c path a now p).removed
        ≡ (if text_eq q path then removed_at (some a) now (get q p.removed) else get q p.removed)
  unfolding plan_one
  removed-plan_one q path (write x) now p = ground arith
  removed-plan_one q path delete none p = ground arith
  removed-plan_one q path delete (some r) p = get-insert path q r p.removed

  unchanged-plan_one :
      (q path : Text) (a : Action) (now : Option Revision) (p : Planning)
      → contains q (plan_one c path a now p).unchanged
        ≡ (contains q p.unchanged || (text_eq q path && is_noop a now))
  unfolding plan_one
  unchanged-plan_one q path (write x) now p = ground arith
  unchanged-plan_one q path delete none p = ground arith
  unchanged-plan_one q path delete (some r) p = ground arith

  module _ (revisions : BTreeMap Revision) where
    -- The loop, where reading does not fail.
    unfoldable pub plan_all : BTreeMap Action → Planning → Planning
    plan_all [] p = p
    plan_all ((path, action) ∷ actions) p =
        plan_all actions (plan_one c path action (get path revisions) p)

    pub get-written-plan_all :
        (q : Text) (m : BTreeMap Action) (p : Planning)
        → IsSorted m
        → get q (plan_all m p).written ≡ written_at (get q m) (get q p.written)
    unfolding plan_all get
    get-written-plan_all q [] p s = refl
    get-written-plan_all q ((path, a) ∷ m) p (above, s) =
        get-written-plan_all q m _ s
        ∙ ground (
          arith,
          written-plan_one q path a (get path revisions) p,
          get_of_AllAbove path m above,
          text_eq_iff q path,
        )

    pub get-removed-plan_all :
        (q : Text) (m : BTreeMap Action) (p : Planning)
        → IsSorted m
        → get q (plan_all m p).removed ≡ removed_at (get q m) (get q revisions) (get q p.removed)
    unfolding plan_all get
    get-removed-plan_all q [] p s = refl
    get-removed-plan_all q ((path, a) ∷ m) p (above, s) =
        get-removed-plan_all q m _ s
        ∙ ground (
          arith,
          removed-plan_one q path a (get path revisions) p,
          get_of_AllAbove path m above,
          text_eq_iff q path,
        )

    pub contains-unchanged-plan_all :
        (q : Text) (m : BTreeMap Action) (p : Planning)
        → IsSorted m
        → contains q (plan_all m p).unchanged
          ≡ (contains q p.unchanged || noop_at (get q m) (get q revisions))
    unfolding plan_all get
    contains-unchanged-plan_all q [] p s = ground arith
    contains-unchanged-plan_all q ((path, a) ∷ m) p (above, s) =
        contains-unchanged-plan_all q m _ s
        ∙ ground (
          arith,
          unchanged-plan_one q path a (get path revisions) p,
          get_of_AllAbove path m above,
          text_eq_iff q path,
        )

    -- The actions that are left.
    unfoldable pub left : BTreeMap Action → BTreeMap Action
    left m = remove_all (plan_all m none_planned).unchanged m

    -- An action is left exactly where it changes something.
    pub get-left :
        (q : Text) (m : BTreeMap Action)
        → IsSorted m
        → get q (left m) ≡ (if noop_at (get q m) (get q revisions) then none else get q m)
    unfolding left
    get-left q m s =
        get-remove_all q (plan_all m none_planned).unchanged m
        ∙ rw (contains-unchanged-plan_all q m none_planned s)

    pub left-IsSorted : (m : BTreeMap Action) → IsSorted m → IsSorted (left m)
    unfolding left
    left-IsSorted m s = remove_all-IsSorted (plan_all m none_planned).unchanged m s

    pub plan_each-plan_all :
        (current : StoreState)
        → Views current revisions
        → (m : BTreeMap Action) (p : Planning) → plan_each c current m p ≡ ok (plan_all m p)
    unfolding plan_each plan_all
    plan_each-plan_all current v [] p = refl
    plan_each-plan_all current v ((path, a) ∷ m) p =
        rw (v.revision_lem path) (plan_each-plan_all current v m _)
