-- ===== src/Base/BTreeMap.antt =====
-- `BTreeMap<String, V>` as the list of its entries, in order of key. A `BTreeSet` is the map to
-- `Unit`. The laws on `get` hold of every list; those on order need `IsSorted`.
pub mod Sorted
use Prim.Native.Nat.{Ordering}
use tidings.Base.Tests.{
  is_some, ◌≡◌, refl, Bool, Option, none, some, List, [], ◌∷◌, arith, if◌then◌else◌,
}
use tidings.Base.Text.{contains, Text, cmp, text_eq, text_eq_iff, cmp-eq_iff}

abbrev pub BTreeMap {ℓ} : Type ℓ → Type ℓ
BTreeMap V = List (Text × V)

module _ {ℓ} {V : Type ℓ} where
  unfoldable pub get : Text → BTreeMap V → Option V
  get k [] = none
  get k ((j, v) ∷ m) = if text_eq k j then some v else get k m

  unfoldable pub insert : Text → V → BTreeMap V → BTreeMap V
  insert k v [] = (k, v) ∷ []
  insert k v ((j, w) ∷ m) =
      let rest = (j, w) ∷ insert k v m in
      elim (cmp k j) [
        | Ordering.lt ↦ (k, v) ∷ (j, w) ∷ m
        | Ordering.eq ↦ (k, v) ∷ m
        | Ordering.gt ↦ rest
      ]

  unfoldable pub remove : Text → BTreeMap V → BTreeMap V
  remove k [] = []
  remove k ((j, w) ∷ m) = let rest = remove k m in if text_eq k j then rest else (j, w) ∷ rest

  unfoldable pub retain : (Text → Bool) → BTreeMap V → BTreeMap V
  retain p [] = []
  retain p ((j, w) ∷ m) = let rest = retain p m in if p j then (j, w) ∷ rest else rest

  unfoldable pub keys : BTreeMap V → List Text
  keys [] = []
  keys ((j, _) ∷ m) = j ∷ keys m

  pub get-insert :
      (k j : Text) (v : V) (m : BTreeMap V)
      → get j (insert k v m) ≡ (if text_eq j k then some v else get j m)
  unfolding get insert
  get-insert k j v [] = refl
  get-insert k j v ((i, w) ∷ m) =
      ground (arith, get-insert k j v m, cmp-eq_iff k i, text_eq_iff j i, text_eq_iff j k)

  pub get-remove :
      (k j : Text) (m : BTreeMap V) → get j (remove k m) ≡ (if text_eq j k then none else get j m)
  unfolding get remove
  get-remove k j [] = ground arith
  get-remove k j ((i, w) ∷ m) =
      ground (arith, get-remove k j m, text_eq_iff k i, text_eq_iff j i, text_eq_iff j k)

  pub get-retain :
      (p : Text → Bool) (j : Text) (m : BTreeMap V)
      → get j (retain p m) ≡ (if p j then get j m else none)
  unfolding get retain
  get-retain p j [] = ground arith
  get-retain p j ((i, w) ∷ m) = ground (arith, get-retain p j m, text_eq_iff j i)

  pub contains-keys : (k : Text) (m : BTreeMap V) → contains k (keys m) ≡ is_some (get k m)
  unfolding keys get
  contains-keys k [] = refl
  contains-keys k ((j, w) ∷ m) = ground (arith, contains-keys k m)
