-- ===== src/Commits/Conflicts.antt =====
-- When a Commit is a Conflict, and which Paths it names (src/staging.rs).
use tidings.Base.Tests.{
  ◌≡◌, refl, ◌∙◌, sym, Bool, false, not, ◌&&◌, ◌||◌, is_some, List, [], ◌∷◌, arith, if◌then◌else◌,
}
use tidings.Base.Results.{ok, err}
use tidings.Base.Text.{Text, contains, text_eq}
use tidings.Base.BTreeMap.{BTreeMap, get, insert, retain, keys, get-insert, contains-keys}
use tidings.Base.BTreeMap.Sorted.{IsSorted, insert-IsSorted}
use tidings.Crates.{Crates}
use tidings.Error.{conflict, Outcome}
use tidings.Files.{Revision, Precondition, holds}
use tidings.Prefixes.{covers}
use tidings.Revisions.{PrefixRevision, differences}
use tidings.Staging.{Staged}
use tidings.StoreState.{StoreState, Views}
use tidings.Commits.Steps.{extend, conclude, failing, failing_prefixes, check_preconditions}

get-extend :
    (q : Text) (set more : BTreeMap (Unit {0}))
    → is_some (get q (extend set more)) ≡ (is_some (get q set) || is_some (get q more))
unfolding extend get
get-extend q set [] = ground arith
get-extend q set ((p, _) ∷ more) =
    get-extend q (insert p tt set) more ∙ rw get-insert (ground arith)

extend-IsSorted : (set more : BTreeMap (Unit {0})) → IsSorted set → IsSorted (extend set more)
unfolding extend
extend-IsSorted set [] s = s
extend-IsSorted set ((p, _) ∷ more) s =
    extend-IsSorted (insert p tt set) more (insert-IsSorted p tt set s)

module _ (revisions : BTreeMap Revision) where
  -- Whether a Precondition on this Path fails.
  abbrev pub fails_at : Text → List (Text × Precondition) → Bool
  fails_at q [] = false
  fails_at q ((path, precondition) ∷ rest) =
      (text_eq q path && not (holds precondition (get path revisions))) || fails_at q rest

module _ (c : Crates) (revisions : BTreeMap Revision) where
  -- Whether a required Prefix Revision says that this Path differs now.
  abbrev pub differs_at : Text → List (Text × PrefixRevision) → Bool
  differs_at q [] = false
  differs_at q ((_, r) ∷ rest) =
      is_some (get q (differences c r (retain (covers r.prefix) revisions))) || differs_at q rest

  -- The Paths of a Conflict.
  abbrev pub conflicts_at : Text → Staged → Bool
  conflicts_at q staged =
      fails_at revisions q staged.preconditions || differs_at q staged.prefix_preconditions

  failing_all : List (Text × Precondition) → BTreeMap (Unit {0}) → BTreeMap (Unit {0})
  failing_all [] set = set
  failing_all ((path, precondition) ∷ rest) set =
      failing_all rest (if holds precondition (get path revisions) then set else insert path tt set)

  failing_prefixes_all : List (Text × PrefixRevision) → BTreeMap (Unit {0}) → BTreeMap (Unit {0})
  failing_prefixes_all [] set = set
  failing_prefixes_all ((_, r) ∷ rest) set =
      failing_prefixes_all rest (extend set (differences c r (retain (covers r.prefix) revisions)))

  get-failing_all :
      (q : Text) (l : List (Text × Precondition)) (set : BTreeMap (Unit {0}))
      → is_some (get q (failing_all l set)) ≡ (is_some (get q set) || fails_at revisions q l)
  unfolding failing_all
  get-failing_all q [] set = ground arith
  get-failing_all q ((path, pre) ∷ rest) set =
      get-failing_all q rest _ ∙ ground (arith, get-insert path q tt set)

  get-failing_prefixes_all :
      (q : Text) (l : List (Text × PrefixRevision)) (set : BTreeMap (Unit {0}))
      → is_some (get q (failing_prefixes_all l set)) ≡ (is_some (get q set) || differs_at q l)
  unfolding failing_prefixes_all
  get-failing_prefixes_all q [] set = ground arith
  get-failing_prefixes_all q ((_, r) ∷ rest) set =
      get-failing_prefixes_all q rest _ ∙ rw get-extend (ground arith)

  -- What the check of the Preconditions gives.
  abbrev pub Checked : Staged → Outcome (Unit {0}) → Type 0
  Checked staged (ok _) = (q : Text) → conflicts_at q staged ≡ false
  Checked staged (err (conflict [])) = ⊥
  Checked staged (err (conflict (p ∷ paths))) =
      (q : Text) → contains q (p ∷ paths) ≡ conflicts_at q staged
  Checked staged (err _) = ⊥

  conclude-Checked :
      (staged : Staged) (set : BTreeMap (Unit {0}))
      → ((q : Text) → is_some (get q set) ≡ conflicts_at q staged)
      → Checked staged (conclude set)
  unfolding conclude get
  conclude-Checked staged [] h = λ q. sym (h q)
  conclude-Checked staged ((p, u) ∷ set) h =
      unfold keys in λ q. unfold keys in contains-keys q ((p, u) ∷ set) ∙ h q

  module _ (current : StoreState) (v : Views current revisions) where
    failing-eq :
        (l : List (Text × Precondition)) (set : BTreeMap (Unit {0}))
        → failing current l set ≡ ok (failing_all l set)
    unfolding failing failing_all
    failing-eq [] set = refl
    failing-eq ((path, pre) ∷ rest) set = rw (v.revision_lem path) (failing-eq rest _)

    failing_prefixes-eq :
        (l : List (Text × PrefixRevision)) (set : BTreeMap (Unit {0}))
        → failing_prefixes c current l set ≡ ok (failing_prefixes_all l set)
    unfolding failing_prefixes failing_prefixes_all
    failing_prefixes-eq [] set = refl
    failing_prefixes-eq ((_, r) ∷ rest) set =
        rw (v.revisions_under_lem r.prefix) (failing_prefixes-eq rest _)

    all_conflicts : Staged → BTreeMap (Unit {0})
    all_conflicts staged =
        failing_prefixes_all staged.prefix_preconditions (failing_all staged.preconditions [])

    check_preconditions-eq :
        (staged : Staged) → check_preconditions c current staged ≡ conclude (all_conflicts staged)
    unfolding check_preconditions all_conflicts
    check_preconditions-eq staged = rw (
      failing-eq staged.preconditions [],
      failing_prefixes-eq staged.prefix_preconditions (failing_all staged.preconditions []),
    )

    get-all_conflicts :
        (q : Text) (staged : Staged)
        → is_some (get q (all_conflicts staged)) ≡ conflicts_at q staged
    unfolding all_conflicts get
    get-all_conflicts q staged =
        get-failing_prefixes_all q staged.prefix_preconditions _
        ∙ rw (get-failing_all q staged.preconditions [])

    -- Over a state of the Store that reads its Files as they are, the check of the Preconditions
    -- passes exactly where no Path has a Precondition that fails and none differs from a required
    -- Prefix Revision. Otherwise it is a Conflict, which names one Path or more: exactly those
    -- Paths.
    pub check_preconditions-Checked :
        (staged : Staged) → Checked staged (check_preconditions c current staged)
    check_preconditions-Checked staged =
        rw (check_preconditions-eq staged)
          (conclude-Checked staged (all_conflicts staged) (λ q. get-all_conflicts q staged))
