-- ===== src/Revisions/Hashed.antt =====
-- The bytes that a Prefix Revision's hash is taken over, read back (src/revision.rs, `hash`).
use native.Mathlib.Nat.{pow-suc}
use tidings.Base.Tests.{
  ℕ, zero, suc, ◌+◌, ◌-◌, ◌*◌, ◌/◌, ◌%◌, ◌^◌, ◌<◌, ◌≡◌, refl, sym, ap, ◌∙◌, true, not, List, [],
  ◌∷◌, ◌++◌, append_assoc, ◌==◌, ltb, arith, if◌then◌else◌,
}
use tidings.Base.Lists.{all}
use tidings.Base.Text.{Text, encode_utf8, as_bytes}
use tidings.Base.Digits.{to_le_bytes}
use tidings.Files.{Revision}
use tidings.Revisions.{hashed_bytes}

-- A Path has no NUL, and a Revision is a `u128`.
abbrev pub Fits : List (Text × Revision) → Type 0
Fits [] = Unit
Fits ((path, revision) ∷ files) =
    (all (λ c. not (c == 0)) path ≡ true) × (revision < 2 ^ 128) × Fits files

-- The first character of UTF-8 bytes, and the bytes after it.
abbrev two : ℕ → List ℕ → ℕ × List ℕ
two b (x ∷ bs) = ((b - 0xC0) * 64 + (x - 0x80), bs)
two b bs = (0, bs)

abbrev three : ℕ → List ℕ → ℕ × List ℕ
three b (x ∷ y ∷ bs) = ((b - 0xE0) * 4096 + (x - 0x80) * 64 + (y - 0x80), bs)
three b bs = (0, bs)

abbrev four : ℕ → List ℕ → ℕ × List ℕ
four b (x ∷ y ∷ z ∷ bs) =
    ((b - 0xF0) * 262144 + (x - 0x80) * 4096 + (y - 0x80) * 64 + (z - 0x80), bs)
four b bs = (0, bs)

abbrev first_char : List ℕ → ℕ × List ℕ
first_char [] = (0, [])
first_char (b ∷ bs) =
    if ltb b 0x80
    then (b, bs)
    else if ltb b 0xE0
    then two b bs
    else if ltb b 0xF0
    then three b bs
    else four b bs

first_char-encode_utf8 : (c : ℕ) (bs : List ℕ) → first_char (encode_utf8 c ++ bs) ≡ (c, bs)
first_char-encode_utf8 c bs = ground arith

encode_utf8-same :
    (c d : ℕ) (as' bs : List ℕ) → encode_utf8 c ++ as' ≡ encode_utf8 d ++ bs → (c ≡ d) × (as' ≡ bs)
encode_utf8-same c d as' bs h =
    let both : ◌≡◌ {A = ℕ × List ℕ} (c, as') (d, bs) =
      sym (first_char-encode_utf8 c as') ∙ ap first_char h ∙ first_char-encode_utf8 d bs in
    (ap (λ (x : ℕ × List ℕ). x.0) both, ap (λ (x : ℕ × List ℕ). x.1) both)

cons_same : (x y : ℕ) (xs ys : List ℕ) → x ∷ xs ≡ y ∷ ys → (x ≡ y) × (xs ≡ ys)
cons_same x y xs ys h = (cc, cc)

to_le_bytes-same :
    (w m n : ℕ) (as' bs : List ℕ)
    → m < 256 ^ w
    → n < 256 ^ w
    → to_le_bytes w m ++ as' ≡ to_le_bytes w n ++ bs
    → (m ≡ n) × (as' ≡ bs)
unfolding to_le_bytes
to_le_bytes-same zero m n as' bs p q h = (omega (arith, p, q), h)
to_le_bytes-same (suc w) m n as' bs p q h =
    let (here, after) = cons_same (m % 256) (n % 256) _ _ h in
    let small =
      to_le_bytes-same w (m / 256) (n / 256) as' bs (omega (arith, p, pow-suc 256 w))
        (omega (arith, q, pow-suc 256 w)) after in
    (omega (arith, here, small.0), small.1)

nul_first : (c : ℕ) (rest after bs : List ℕ) → 0 ∷ bs ≡ (encode_utf8 c ++ rest) ++ after → c ≡ 0
nul_first c rest after bs h =
    let both : ◌≡◌ {A = ℕ × List ℕ} (0, bs) (c, rest ++ after) =
      ap first_char h
      ∙ ap first_char (append_assoc (encode_utf8 c) rest after)
      ∙ first_char-encode_utf8 c (rest ++ after) in
    ap (λ (x : ℕ × List ℕ). x.0) (sym both)

-- A Path ends at its NUL.
as_bytes-same :
    (p q : Text) (as' bs : List ℕ)
    → all (λ c. not (c == 0)) p ≡ true
    → all (λ c. not (c == 0)) q ≡ true
    → as_bytes p ++ (0 ∷ as') ≡ as_bytes q ++ (0 ∷ bs)
    → (p ≡ q) × (as' ≡ bs)
unfolding as_bytes
as_bytes-same [] [] as' bs g h e = (refl, (cons_same 0 0 as' bs e).1)
as_bytes-same [] (d ∷ q) as' bs g h e =
    absurd (ground (arith, h, nul_first d (as_bytes q) (0 ∷ bs) as' e))
as_bytes-same (c ∷ p) [] as' bs g h e =
    absurd (ground (arith, g, nul_first c (as_bytes p) (0 ∷ as') bs (sym e)))
as_bytes-same (c ∷ p) (d ∷ q) as' bs g h e =
    let (here, after) = encode_utf8-same c d (as_bytes p ++ (0 ∷ as')) (as_bytes q ++ (0 ∷ bs)) (
      sym (append_assoc (encode_utf8 c) (as_bytes p) (0 ∷ as'))
      ∙ e
      ∙ append_assoc (encode_utf8 d) (as_bytes q) (0 ∷ bs)) in
    let rest = as_bytes-same p q as' bs (ground (arith, g)) (ground (arith, h)) after in
    (ap2 here rest.0, rest.1)
  where
    ap2 : c ≡ d → p ≡ q → c ∷ p ≡ d ∷ q
    ap2 here rest = cc

not_empty : (p : Text) (bs : List ℕ) → as_bytes p ++ (0 ∷ bs) ≡ [] → ⊥
unfolding as_bytes
not_empty [] bs h = cc
not_empty (c ∷ p) bs h = ground (arith, h)

pub hashed_bytes-same :
    (xs ys : List (Text × Revision))
    → Fits xs
    → Fits ys
    → hashed_bytes xs ≡ hashed_bytes ys
    → xs ≡ ys
unfolding hashed_bytes
hashed_bytes-same [] [] f g h = refl
hashed_bytes-same [] ((q, s) ∷ ys) f g h = absurd (not_empty q _ (sym h))
hashed_bytes-same ((p, r) ∷ xs) [] f g h = absurd (not_empty p _ h)
hashed_bytes-same ((p, r) ∷ xs) ((q, s) ∷ ys) (p_fits, r_fits, xs_fit) (q_fits, s_fits, ys_fit) h =
    let (paths, after) =
      as_bytes-same p q (to_le_bytes 16 r ++ hashed_bytes xs) (to_le_bytes 16 s ++ hashed_bytes ys)
        p_fits q_fits h in
    let (revisions, rest) =
      to_le_bytes-same 16 r s (hashed_bytes xs) (hashed_bytes ys) r_fits s_fits after in
    let more = hashed_bytes-same xs ys xs_fit ys_fit rest in cc
