-- ===== src/Base/BTreeMap/Sorted.antt =====
-- The entries of a `BTreeMap` stay in order of key, one to a key.
use Prim.Native.Nat.{Ordering}
use tidings.Base.Tests.{◌≡◌, refl, Bool, none, [], ◌∷◌, ◌++◌, arith}
use tidings.Base.Text.{Text, cmp, text_eq_iff, cmp-eq_iff, cmp-lt-gt, cmp-lt_trans}
use tidings.Base.BTreeMap.{BTreeMap, get, insert, remove, retain}

module _ {ℓ} {V : Type ℓ} where
  abbrev pub AllAbove : Text → BTreeMap V → Type 0
  AllAbove k [] = Unit
  AllAbove k ((j, _) ∷ m) = (cmp k j ≡ Ordering.lt) × AllAbove k m

  abbrev pub IsSorted : BTreeMap V → Type 0
  IsSorted [] = Unit
  IsSorted ((k, _) ∷ m) = AllAbove k m × IsSorted m

  AllAbove-trans :
      (i k : Text) (m : BTreeMap V) → cmp i k ≡ Ordering.lt → AllAbove k m → AllAbove i m
  AllAbove-trans i k [] h a = tt
  AllAbove-trans i k ((j, _) ∷ m) h (a, as') = (cmp-lt_trans i k j h a, AllAbove-trans i k m h as')

  insert-AllAbove :
      (i k : Text) (v : V) (m : BTreeMap V)
      → cmp i k ≡ Ordering.lt
      → AllAbove i m
      → AllAbove i (insert k v m)
  unfolding insert
  insert-AllAbove i k v [] h a = (h, tt)
  insert-AllAbove i k v ((j, w) ∷ m) h a = ground (arith, insert-AllAbove i k v m h a.1)

  pub insert-IsSorted : (k : Text) (v : V) (m : BTreeMap V) → IsSorted m → IsSorted (insert k v m)
  unfolding insert
  insert-IsSorted k v [] s = (tt, tt)
  insert-IsSorted k v ((j, w) ∷ m) (a, s) = ground (
    arith,
    insert-IsSorted k v m s,
    AllAbove-trans k j m,
    cmp-eq_iff k j,
    cmp-lt-gt j k,
    insert-AllAbove j k v m,
  )

  remove-AllAbove : (i k : Text) (m : BTreeMap V) → AllAbove i m → AllAbove i (remove k m)
  unfolding remove
  remove-AllAbove i k [] a = tt
  remove-AllAbove i k ((j, w) ∷ m) a = ground (arith, remove-AllAbove i k m a.1)

  pub remove-IsSorted : (k : Text) (m : BTreeMap V) → IsSorted m → IsSorted (remove k m)
  unfolding remove
  remove-IsSorted k [] s = tt
  remove-IsSorted k ((j, w) ∷ m) (a, s) =
      ground (arith, remove-IsSorted k m s, remove-AllAbove j k m a)

  retain-AllAbove :
      (p : Text → Bool) (i : Text) (m : BTreeMap V) → AllAbove i m → AllAbove i (retain p m)
  unfolding retain
  retain-AllAbove p i [] a = tt
  retain-AllAbove p i ((j, w) ∷ m) a = ground (arith, retain-AllAbove p i m a.1)

  pub retain-IsSorted : (p : Text → Bool) (m : BTreeMap V) → IsSorted m → IsSorted (retain p m)
  unfolding retain
  retain-IsSorted p [] s = tt
  retain-IsSorted p ((j, w) ∷ m) (a, s) =
      ground (arith, retain-IsSorted p m s, retain-AllAbove p j m a)

  pub get_of_AllAbove : (k : Text) (m : BTreeMap V) → AllAbove k m → get k m ≡ none
  unfolding get
  get_of_AllAbove k [] a = refl
  get_of_AllAbove k ((j, w) ∷ m) a =
      ground (arith, get_of_AllAbove k m a.1, text_eq_iff k j, cmp-eq_iff k j)

  above_end :
      (j k : Text) (v : V) (m rest : BTreeMap V)
      → AllAbove j (m ++ ((k, v) ∷ rest))
      → cmp j k ≡ Ordering.lt
  above_end j k v [] rest a = a.0
  above_end j k v (e ∷ m) rest a = above_end j k v m rest a.1

  -- An entry whose key is above the others goes to the end.
  pub insert-last :
      (k : Text) (v : V) (m rest : BTreeMap V)
      → IsSorted (m ++ ((k, v) ∷ rest))
      → insert k v m ≡ m ++ ((k, v) ∷ [])
  unfolding insert
  insert-last k v [] rest s = refl
  insert-last k v ((j, w) ∷ m) rest (above, s) =
      let below = above_end j k v m rest above in
      ground (arith, cmp-lt-gt j k, insert-last k v m rest s)
