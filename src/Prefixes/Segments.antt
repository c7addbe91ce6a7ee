-- ===== src/Prefixes/Segments.antt =====
-- What a Prefix is, and what it covers, in whole segments (src/prefix.rs).
use tidings.Base.Tests.{
  ℕ, Option-cases, ◌≡◌, refl, sym, ap, ◌∙◌, ◌↔◌, ◌⊎◌, inl, inr, true, Option, none, some, List, [],
  ◌∷◌, ◌++◌, append_assoc, arith, ◌==◌, Bool-cases,
}
use tidings.Base.Text.{Text, slash, cons_head, split, strip_suffix, starts_with, text_eq}
use tidings.Crates.{Crates}
use tidings.Error.{empty}
use tidings.Paths.{refusal}
use tidings.Prefixes.{covers, prefix_refusal}

-- The segments with `/`s between them.
join : List Text → Text
join [] = []
join (s ∷ []) = s
join (s ∷ t ∷ ss) = s ++ (slash ∷ join (t ∷ ss))

join-cons_head : (x : ℕ) (ss : List Text) → join (cons_head x ss) ≡ x ∷ join ss
unfolding join
join-cons_head x [] = refl
join-cons_head x (s ∷ []) = refl
join-cons_head x (s ∷ t ∷ ss) = refl

-- A split has a first segment.
split-cons : (t : Text) → (s : Text) × (ss : List Text) × (split slash t ≡ s ∷ ss)
unfolding split
split-cons [] = ([], [], refl)
split-cons (x ∷ xs) = elim (Bool-cases (x == slash)) [
  | inl e ↦ ([], split slash xs, rw e)
  | inr e ↦ let (s, ss, p) = split-cons xs in (x ∷ s, ss, rw (e, p))
]

join-nil : (t : Text) → join ([] ∷ split slash t) ≡ slash ∷ join (split slash t)
unfolding join
join-nil t = let (s, ss, p) = split-cons t in rw p

cons_head-append :
    (x : ℕ) (t : Text) (r : List Text)
    → cons_head x (split slash t ++ r) ≡ cons_head x (split slash t) ++ r
cons_head-append x t r = let (s, ss, p) = split-cons t in rw p

join-split : (t : Text) → join (split slash t) ≡ t
unfolding split
join-split [] = unfold join in refl
join-split (x ∷ xs) = elim (Bool-cases (x == slash)) [
  | inl e ↦ rw (e, join-nil, join-split xs) (ap (λ (c : ℕ). c ∷ xs) (ground arith))
  | inr e ↦ rw (e, join-cons_head, join-split xs)
]

split-append :
    (q rest : Text) → split slash (q ++ (slash ∷ rest)) ≡ split slash q ++ split slash rest
unfolding split
split-append [] rest = refl
split-append (x ∷ q) rest = elim (Bool-cases (x == slash)) [
  | inl e ↦ rw (e, split-append q rest)
  | inr e ↦ rw (e, split-append q rest, cons_head-append)
]

join-append : (q rest : Text) → join (split slash q ++ split slash rest) ≡ q ++ (slash ∷ rest)
join-append q rest = rw (← split-append q rest) (join-split (q ++ (slash ∷ rest)))

starts_with_iff : (p t : Text) → (starts_with p t ≡ true) ↔ ((rest : Text) × (t ≡ p ++ rest))
unfolding starts_with
starts_with_iff [] t = (λ _. (t, refl), λ _. refl)
starts_with_iff (x ∷ p) [] = ground arith
starts_with_iff (x ∷ p) (y ∷ t) = (
  λ h. let (rest, e) = (starts_with_iff p t).0 (ground arith) in (rest, ground arith),
  λ (rest, e). let h = (starts_with_iff p t).1 (rest, ground arith) in ground arith,
)

covers-slash :
    (q path : Text)
    → (covers (q ++ (slash ∷ [])) path ≡ true)
      ↔ ((rest : Text) × (split slash path ≡ split slash q ++ split slash rest))
unfolding covers
covers-slash q path = (
  λ h.
      let (rest, e) = (starts_with_iff (q ++ (slash ∷ [])) path).0 h in
      (rest, rw (e, append_assoc) (split-append q rest)),
  λ (rest, e).
      (starts_with_iff (q ++ (slash ∷ [])) path).1
        (rest, sym (join-split path) ∙ rw (e, append_assoc) (join-append q rest)),
)

strip_suffix_sound : (t s : Text) → strip_suffix slash t ≡ some s → t ≡ s ++ (slash ∷ [])
unfolding strip_suffix
strip_suffix_sound [] s h = cc
strip_suffix_sound (x ∷ []) s h = ground arith
strip_suffix_sound (x ∷ y ∷ xs) s h = elim (Option-cases (strip_suffix slash (y ∷ xs))) [
  | inl e ↦ absurd (ground arith)
  | inr (r, e) ↦
      let same : x ∷ r ≡ s = ground arith in
      rw (← same) (ap (◌∷◌ x) (strip_suffix_sound (y ∷ xs) r e))
]

strip_suffix-append : (s : Text) → strip_suffix slash (s ++ (slash ∷ [])) ≡ some s
unfolding strip_suffix
strip_suffix-append [] = refl
strip_suffix-append (x ∷ []) = refl
strip_suffix-append (x ∷ y ∷ s) = rw (strip_suffix-append (y ∷ s))

module _ (c : Crates) where
  prefix_refusal-append :
      (x : ℕ) (path : Text) → prefix_refusal c ((x ∷ path) ++ (slash ∷ [])) ≡ refusal c (x ∷ path)
  unfolding prefix_refusal text_eq
  prefix_refusal-append x path = rw (strip_suffix-append (x ∷ path))

  -- The three outcomes of `strip_suffix`.
  by_suffix :
      (x : ℕ) (xs : Text) (o : Option Text)
      → strip_suffix slash (x ∷ xs) ≡ o
      → prefix_refusal c (x ∷ xs) ≡ none
      → (path : Text) × (x ∷ xs ≡ path ++ (slash ∷ [])) × (refusal c path ≡ none)
  unfolding prefix_refusal text_eq
  by_suffix x xs none e h = absurd (ground arith)
  by_suffix x xs (some []) e h = absurd (ground arith)
  by_suffix x xs (some (y ∷ path)) e h =
      (y ∷ path, strip_suffix_sound (x ∷ xs) (y ∷ path) e, ground arith)

  refusal-nil : refusal c [] ≡ some empty
  unfolding refusal text_eq
  refusal-nil = refl

  prefix_refusal-nil : prefix_refusal c [] ≡ none
  unfolding prefix_refusal text_eq
  prefix_refusal-nil = refl

  -- Empty, or a valid Path with a `/` behind it.
  abbrev pub IsPrefixText : Text → Type 0
  IsPrefixText prefix =
      (prefix ≡ []) ⊎ ((path : Text) × (prefix ≡ path ++ (slash ∷ [])) × (refusal c path ≡ none))

  accepted : (prefix : Text) → prefix_refusal c prefix ≡ none → IsPrefixText prefix
  accepted [] h = inl refl
  accepted (x ∷ xs) h = inr (by_suffix x xs (strip_suffix slash (x ∷ xs)) refl h)

  accepts : (prefix : Text) → IsPrefixText prefix → prefix_refusal c prefix ≡ none
  accepts prefix (inl e) = rw (e, prefix_refusal-nil)
  accepts prefix (inr ([], e, r)) = cc (refusal-nil)
  accepts prefix (inr (x ∷ path, e, r)) = rw (e, prefix_refusal-append x path) r

  -- A text is a Prefix exactly when it is empty, or a valid Path with a `/` behind it.
  pub prefix_refusal_iff : (prefix : Text) → (prefix_refusal c prefix ≡ none) ↔ IsPrefixText prefix
  prefix_refusal_iff prefix = (accepted prefix, accepts prefix)

  abbrev split_path : Option Text → List Text
  split_path none = []
  split_path (some path) = split slash path

  -- The segments that a Prefix names: none where it is empty, or else those before the `/` at its end.
  abbrev pub prefix_segments : Text → List Text
  prefix_segments [] = []
  prefix_segments (x ∷ xs) = split_path (strip_suffix slash (x ∷ xs))

  prefix_segments-append : (path : Text) → prefix_segments (path ++ (slash ∷ [])) ≡ split slash path
  prefix_segments-append [] = ap split_path (strip_suffix-append [])
  prefix_segments-append (x ∷ path) = ap split_path (strip_suffix-append (x ∷ path))

  covers-nil : (path : Text) → covers [] path ≡ true
  unfolding covers starts_with
  covers-nil path = refl

  -- A valid Prefix, the empty one among them, covers a text exactly when the text's segments are
  -- those that the Prefix names and then those of some rest: whole segments match, and one more
  -- follows.
  pub covers_segments :
      (prefix path : Text)
      → prefix_refusal c prefix ≡ none
      → (covers prefix path ≡ true)
        ↔ ((rest : Text) × (split slash path ≡ prefix_segments prefix ++ split slash rest))
  covers_segments prefix path valid = by_kind (accepted prefix valid)
    where
      by_kind :
          IsPrefixText prefix
          → (covers prefix path ≡ true)
            ↔ ((rest : Text) × (split slash path ≡ prefix_segments prefix ++ split slash rest))
      by_kind (inl e) = rw e ((λ h. (path, refl)), (λ _. covers-nil path))
      by_kind (inr (q, e, r)) = rw (e, prefix_segments-append q) (covers-slash q path)
