-- ===== src/Base/Text.antt =====
-- Rust's `str` and `String`: a list of characters, each its Unicode scalar value.
-- `len`, `as_bytes` and `bytes` go by the UTF-8 encoding, as Rust's do.
use Prim.Native.Nat.{compare, Ordering}
use Prim.Native.Char.{code}
use Prim.Native.String.{String}
use tidings.Base.Tests.{
  ℕ, ◌+◌, ◌/◌, ◌%◌, ◌≡◌, refl, ◌↔◌, Bool, true, false, ◌&&◌, ◌||◌, Option, none, some, List, [],
  ◌∷◌, ◌++◌, arith, ltb, ◌==◌, if◌then◌else◌,
}
use tidings.Base.Lists.{length}

abbrev pub Text : Type 0
Text = List ℕ

-- A literal of the source.
abbrev pub codes : String → Text
codes String.[] = []
codes (String.◌∷◌ c s) = code c ∷ codes s

abbrev pub slash : ℕ
slash = 47

abbrev pub cons_head {ℓ} : {A : Type ℓ} → A → List (List A) → List (List A)
cons_head x [] = (x ∷ []) ∷ []
cons_head x (s ∷ ss) = (x ∷ s) ∷ ss

-- `str::split`, by one character.
unfoldable pub split : ℕ → Text → List Text
split c [] = [] ∷ []
split c (x ∷ xs) = let rest = split c xs in if x == c then [] ∷ rest else cons_head x rest

-- `str::split_once`, by one character.
unfoldable pub split_once : ℕ → Text → Option (Text × Text)
split_once c [] = none
split_once c (x ∷ xs) = elim (x == c) [
  | true ↦ some ([], xs)
  | false ↦ elim (split_once c xs) [ none ↦ none | some (a, b) ↦ some (x ∷ a, b) ]
]

-- `str::strip_prefix`.
unfoldable pub strip_prefix : Text → Text → Option Text
strip_prefix [] t = some t
strip_prefix (p ∷ ps) [] = none
strip_prefix (p ∷ ps) (x ∷ xs) = let rest = strip_prefix ps xs in if p == x then rest else none

-- `str::starts_with`, its argument first.
unfoldable pub starts_with : Text → Text → Bool
starts_with [] t = true
starts_with (p ∷ ps) [] = false
starts_with (p ∷ ps) (x ∷ xs) = p == x && starts_with ps xs

-- `str::rsplit_once`: at the last place where the separator stands.
unfoldable pub rsplit_once : Text → Text → Option (Text × Text)
unfolding strip_prefix
rsplit_once sep [] = elim (strip_prefix sep []) [ none ↦ none | some rest ↦ some ([], rest) ]
rsplit_once sep (x ∷ xs) = elim (rsplit_once sep xs) [
  | some (a, b) ↦ some (x ∷ a, b)
  | none ↦ elim (strip_prefix sep (x ∷ xs)) [ none ↦ none | some rest ↦ some ([], rest) ]
]

-- `str::strip_suffix`, by one character.
unfoldable pub strip_suffix : ℕ → Text → Option Text
strip_suffix c [] = none
strip_suffix c (x ∷ []) = if x == c then some [] else none
strip_suffix c (x ∷ y ∷ xs) = elim (strip_suffix c (y ∷ xs)) [ none ↦ none | some s ↦ some (x ∷ s) ]

-- `char::encode_utf8`.
abbrev pub encode_utf8 : ℕ → List ℕ
encode_utf8 c =
    if ltb c 0x80
    then c ∷ []
    else if ltb c 0x800
    then (0xC0 + c / 64) ∷ (0x80 + c % 64) ∷ []
    else if ltb c 0x10000
    then (0xE0 + c / 4096) ∷ (0x80 + c / 64 % 64) ∷ (0x80 + c % 64) ∷ []
    else (0xF0 + c / 262144) ∷ (0x80 + c / 4096 % 64) ∷ (0x80 + c / 64 % 64) ∷ (0x80 + c % 64) ∷ []

unfoldable pub as_bytes : Text → List ℕ
as_bytes [] = []
as_bytes (c ∷ t) = encode_utf8 c ++ as_bytes t

-- `str::len`.
unfoldable pub len : Text → ℕ
unfolding as_bytes
len t = length (as_bytes t)

-- `str::cmp`: for UTF-8 the order of bytes is the order of characters.
unfoldable pub cmp : Text → Text → Ordering
cmp [] [] = Ordering.eq
cmp [] (b ∷ bs) = Ordering.lt
cmp (a ∷ as') [] = Ordering.gt
cmp (a ∷ as') (b ∷ bs) =
    let rest = cmp as' bs in
    elim (compare a b) [
      | Ordering.lt ↦ Ordering.lt
      | Ordering.gt ↦ Ordering.gt
      | Ordering.eq ↦ rest
    ]

-- `str::eq`.
unfoldable pub text_eq : Text → Text → Bool
text_eq [] [] = true
text_eq (a ∷ as') (b ∷ bs) = a == b && text_eq as' bs
text_eq _ _ = false

pub text_eq_iff : (a b : Text) → (text_eq a b ≡ true) ↔ (a ≡ b)
unfolding text_eq
text_eq_iff [] [] = (λ _. refl, λ _. refl)
text_eq_iff [] (b ∷ bs) = ground arith
text_eq_iff (a ∷ as') [] = ground arith
text_eq_iff (a ∷ as') (b ∷ bs) = ground (arith, text_eq_iff as' bs)

pub text_eq_refl : (a : Text) → text_eq a a ≡ true
text_eq_refl a = (text_eq_iff a a).1 refl

pub cmp-eq_iff : (a b : Text) → (cmp a b ≡ Ordering.eq) ↔ (a ≡ b)
unfolding cmp
cmp-eq_iff [] [] = (λ _. refl, λ _. refl)
cmp-eq_iff [] (b ∷ bs) = ground arith
cmp-eq_iff (a ∷ as') [] = ground arith
cmp-eq_iff (a ∷ as') (b ∷ bs) = ground (arith, cmp-eq_iff as' bs)

pub cmp-lt-gt : (a b : Text) → (cmp a b ≡ Ordering.lt) ↔ (cmp b a ≡ Ordering.gt)
unfolding cmp
cmp-lt-gt [] [] = ground arith
cmp-lt-gt [] (b ∷ bs) = ground arith
cmp-lt-gt (a ∷ as') [] = ground arith
cmp-lt-gt (a ∷ as') (b ∷ bs) = ground (arith, cmp-lt-gt as' bs)

pub cmp-lt_trans :
    (a b c : Text) → cmp a b ≡ Ordering.lt → cmp b c ≡ Ordering.lt → cmp a c ≡ Ordering.lt
unfolding cmp
cmp-lt_trans [] [] c h k = k
cmp-lt_trans [] (b ∷ bs) [] h k = cc
cmp-lt_trans [] (b ∷ bs) (c ∷ cs) h k = refl
cmp-lt_trans (a ∷ as') [] c h k = cc
cmp-lt_trans (a ∷ as') (b ∷ bs) [] h k = cc
cmp-lt_trans (a ∷ as') (b ∷ bs) (c ∷ cs) h k = ground (arith, cmp-lt_trans as' bs cs)

-- Whether a list of texts holds a text.
abbrev pub contains : Text → List Text → Bool
contains k [] = false
contains k (x ∷ xs) = text_eq k x || contains k xs

-- `str::replace`, of one character.
unfoldable pub replace : ℕ → Text → Text → Text
replace c new [] = []
replace c new (x ∷ t) = let rest = replace c new t in if x == c then new ++ rest else x ∷ rest
