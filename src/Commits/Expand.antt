-- ===== src/Commits/Expand.antt =====
-- What expanding the Prefix deletes leaves to do at each Path (src/staging.rs).
use tidings.Base.Tests.{
  ◌≡◌, refl, ◌∙◌, Bool, true, false, ◌&&◌, ◌||◌, Option, none, some, is_some, List, [], ◌∷◌, arith,
  if◌then◌else◌,
}
use tidings.Base.Results.{ok}
use tidings.Base.Text.{Text, contains, text_eq, text_eq_iff}
use tidings.Base.BTreeMap.{BTreeMap, get, retain, keys, get-insert, get-retain, contains-keys}
use tidings.Base.BTreeMap.Sorted.{IsSorted, insert-IsSorted}
use tidings.Files.{Revision}
use tidings.Prefixes.{covers}
use tidings.Staging.{Action, delete}
use tidings.StoreState.{StoreState, Views}
use tidings.Commits.Steps.{or_insert_delete, or_delete, expand_each}

-- A staged action, or else a delete where the Path is to be deleted.
abbrev pub or_else_delete : Option Action → Bool → Option Action
or_else_delete (some a) b = some a
or_else_delete none b = if b then some delete else none

-- Whether a Prefix of the list covers the Path.
abbrev pub any_covers : Text → List Text → Bool
any_covers path [] = false
any_covers path (prefix ∷ prefixes) = covers prefix path || any_covers path prefixes

get-or_insert_delete :
    (p q : Text) (m : BTreeMap Action)
    → get p (or_insert_delete q m) ≡ or_else_delete (get p m) (text_eq p q)
unfolding or_insert_delete
get-or_insert_delete p q m = ground (arith, text_eq_iff p q, get-insert q p delete m)

or_insert_delete-IsSorted :
    (q : Text) (m : BTreeMap Action) → IsSorted m → IsSorted (or_insert_delete q m)
unfolding or_insert_delete
or_insert_delete-IsSorted q m s = ground (arith, insert-IsSorted q delete m s)

or_else_delete_twice :
    (o : Option Action) (a b : Bool)
    → or_else_delete (or_else_delete o a) b ≡ or_else_delete o (a || b)
or_else_delete_twice (some x) a b = refl
or_else_delete_twice none true b = refl
or_else_delete_twice none false b = refl

pub get-or_delete :
    (p : Text) (paths : List Text) (m : BTreeMap Action)
    → get p (or_delete paths m) ≡ or_else_delete (get p m) (contains p paths)
unfolding or_delete
get-or_delete p [] m = ground arith
get-or_delete p (q ∷ paths) m =
    get-or_delete p paths (or_insert_delete q m) ∙ rw (get-or_insert_delete, or_else_delete_twice)

or_delete-IsSorted :
    (paths : List Text) (m : BTreeMap Action) → IsSorted m → IsSorted (or_delete paths m)
unfolding or_delete
or_delete-IsSorted [] m s = s
or_delete-IsSorted (q ∷ paths) m s =
    or_delete-IsSorted paths (or_insert_delete q m) (or_insert_delete-IsSorted q m s)

module _ (current : StoreState) (revisions : BTreeMap Revision) (v : Views current revisions) where
  -- The actions after the Prefix deletes are expanded.
  unfoldable pub expanded : List Text → BTreeMap Action → BTreeMap Action
  expanded [] m = m
  expanded (prefix ∷ prefixes) m =
      expanded prefixes (or_delete (keys (retain (covers prefix) revisions)) m)

  pub expand_each-expanded :
      (prefixes : List Text) (m : BTreeMap Action)
      → expand_each current prefixes m ≡ ok (expanded prefixes m)
  unfolding expand_each expanded
  expand_each-expanded [] m = refl
  expand_each-expanded (prefix ∷ prefixes) m =
      rw (v.paths_under_lem prefix) (expand_each-expanded prefixes _)

  pub get-expanded :
      (p : Text) (prefixes : List Text) (m : BTreeMap Action)
      → get p (expanded prefixes m)
        ≡ or_else_delete (get p m) (any_covers p prefixes && is_some (get p revisions))
  unfolding expanded
  get-expanded p [] m = ground arith
  get-expanded p (prefix ∷ prefixes) m =
      get-expanded p prefixes _
      ∙ rw (get-or_delete, contains-keys, get-retain, or_else_delete_twice) (ground arith)

  pub expanded-IsSorted :
      (prefixes : List Text) (m : BTreeMap Action) → IsSorted m → IsSorted (expanded prefixes m)
  unfolding expanded
  expanded-IsSorted [] m s = s
  expanded-IsSorted (prefix ∷ prefixes) m s =
      expanded-IsSorted prefixes _ (or_delete-IsSorted _ m s)
