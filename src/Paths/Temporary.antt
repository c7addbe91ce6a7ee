-- ===== src/Paths/Temporary.antt =====
-- A temporary file's name is known for one, so no Path has it (src/path.rs).
use tidings.Base.Tests.{
  ℕ, zero, suc, ◌+◌, ◌-◌, ◌/◌, ◌%◌, ◌≤◌, ◌<◌, ◌≡◌, refl, ◌∙◌, Bool, true, false, none, some, [],
  ◌∷◌, ◌++◌, arith, ltb, leb, ◌==◌, Bool-cases, inl, inr, if◌then◌else◌,
}
use tidings.Base.Lists.{length, length-append, all, all-append, all-imp}
use tidings.Base.Text.{
  Text, codes, split_once, strip_prefix, rsplit_once, starts_with, encode_utf8, as_bytes, len,
}
use tidings.Base.Digits.{
  hex_digit, hex_pad, decimal, decimal_fuel, is_ascii_digit, is_lower_hexdigit, length-hex_pad,
  all-hex_pad, as_bytes_of_ascii,
}
use tidings.Paths.{cut_short, temporary_file_name, is_temporary, is_temporary_file_name}

-- The character does not stand in the text.
abbrev is_not : ℕ → ℕ → Bool
is_not c x = if x == c then false else true

module _ (sep : Text) where
  rsplit_once_absent : (t : Text) → all (is_not b'.') t ≡ true → rsplit_once (b'.' ∷ sep) t ≡ none
  unfolding rsplit_once
  rsplit_once_absent [] h = refl
  rsplit_once_absent (x ∷ t) h = ground (arith, rsplit_once_absent t)

  strip_prefix-append : (post : Text) → strip_prefix sep (sep ++ post) ≡ some post
  unfolding strip_prefix
  strip_prefix-append post = go sep
    where
      go : (s : Text) → strip_prefix s (s ++ post) ≡ some post
      go [] = refl
      go (x ∷ s) = rw (go s) (ground arith)

  rsplit_once-append :
      (pre post : Text)
      → all (is_not b'.') (sep ++ post) ≡ true
      → rsplit_once (b'.' ∷ sep) (pre ++ (b'.' ∷ (sep ++ post))) ≡ some (pre, post)
  unfolding rsplit_once
  rsplit_once-append [] post h =
      ground (arith, rsplit_once_absent (sep ++ post) h, strip_prefix-append post)
  rsplit_once-append (x ∷ pre) post h = rw (rsplit_once-append pre post h)

split_once-append :
    (c : ℕ) (pre post : Text)
    → all (is_not c) pre ≡ true
    → split_once c (pre ++ (c ∷ post)) ≡ some (pre, post)
unfolding split_once
split_once-append c [] post h = ground arith
split_once-append c (x ∷ pre) post h = ground (arith, split_once-append c pre post)

decimal_fuel-digits : (f n : ℕ) → all is_ascii_digit (decimal_fuel f n) ≡ true
unfolding decimal_fuel is_ascii_digit
decimal_fuel-digits zero n = refl
decimal_fuel-digits (suc f) n = elim (Bool-cases (ltb n 10)) [
  | inl small ↦ rw small (ground arith)
  | inr large ↦ rw large (
      all-append is_ascii_digit (decimal_fuel f (n / 10)) _
      ∙ rw (decimal_fuel-digits f (n / 10)) (ground arith))
]

decimal-digits : (n : ℕ) → all is_ascii_digit (decimal n) ≡ true
unfolding decimal
decimal-digits n = decimal_fuel-digits (suc n) n

length-decimal : (n : ℕ) → 0 < length (decimal n)
unfolding decimal
length-decimal n = elim (Bool-cases (ltb n 10)) [
  | inl small ↦ rw small (omega arith)
  | inr large ↦
      rw large (omega (arith, length-append (decimal_fuel n (n / 10)) ((48 + n % 10) ∷ [])))
]

hex_digit-is_lower_hexdigit : (d : ℕ) → d < 16 → is_lower_hexdigit (hex_digit d) ≡ true
unfolding hex_digit is_lower_hexdigit
hex_digit-is_lower_hexdigit d h = ground arith

hex-lower : (w n : ℕ) → all is_lower_hexdigit (hex_pad w n) ≡ true
hex-lower w n = all-hex_pad is_lower_hexdigit w n hex_digit-is_lower_hexdigit

-- A lowercase digit, in hexadecimal or not, is ASCII and none of the separators.
lower_ascii : (c : ℕ) → is_lower_hexdigit c ≡ true → ltb c 128 ≡ true
unfolding is_lower_hexdigit
lower_ascii c h = ground arith

digit_lower : (c : ℕ) → is_ascii_digit c ≡ true → is_lower_hexdigit c ≡ true
unfolding is_lower_hexdigit is_ascii_digit
digit_lower c h = ground arith

lower_not : (d c : ℕ) → d < 48 → is_lower_hexdigit c ≡ true → is_not d c ≡ true
unfolding is_lower_hexdigit
lower_not d c k h = ground arith

module _ (t : Text) (h : all is_lower_hexdigit t ≡ true) where
  bytes_of_lower : as_bytes t ≡ t
  bytes_of_lower = as_bytes_of_ascii t (all-imp is_lower_hexdigit _ t lower_ascii h)

  lower_without : (d : ℕ) → d < 48 → all (is_not d) t ≡ true
  lower_without d k = all-imp is_lower_hexdigit _ t (λ c. lower_not d c k) h

decimal-lower : (n : ℕ) → all is_lower_hexdigit (decimal n) ≡ true
decimal-lower n = all-imp is_ascii_digit _ (decimal n) digit_lower (decimal-digits n)

length-encode_utf8 : (c : ℕ) → (0 < length (encode_utf8 c)) × (length (encode_utf8 c) ≤ 4)
length-encode_utf8 c = ground arith

-- Some of the name is kept.
cut_short-cons :
    (x : ℕ) (name : Text)
    → cut_short 200 (x ∷ name) ≡ x ∷ cut_short (200 - length (encode_utf8 x)) name
unfolding cut_short
cut_short-cons x name =
    let fits : leb (length (encode_utf8 x)) 200 ≡ true = ground (arith, length-encode_utf8 x) in
    rw fits

is_temporary_lem :
    (x : ℕ) (kept : Text) (commit_id n : ℕ)
    → is_temporary (b'.' ∷ x ∷ kept) (hex_pad 32 commit_id) (decimal n) ≡ true
unfolding is_temporary len as_bytes starts_with
is_temporary_lem x kept commit_id n =
    rw
      (
        bytes_of_lower (hex_pad 32 commit_id) (hex-lower 32 commit_id),
        bytes_of_lower (decimal n) (decimal-lower n),
        length-hex_pad 32 commit_id,
        hex-lower 32 commit_id,
        decimal-digits n,
      )
      (ground (
        arith,
        length-decimal n,
        length-encode_utf8 x,
        length-append (encode_utf8 x) (as_bytes kept),
      ))

recognised :
    {before id commit_id n : Text} (name : Text)
    → rsplit_once (codes ".tidings-") name ≡ some (before, id)
    → split_once b'-' id ≡ some (commit_id, n)
    → is_temporary_file_name name ≡ is_temporary before commit_id n
unfolding is_temporary_file_name
recognised name p q = ground arith

-- For every name and every numbers of a Commit and of a write, the temporary file's name is known
-- as one.
pub is_temporary-temporary_file_name :
    (x : ℕ) (name : Text) (commit_id n : ℕ)
    → is_temporary_file_name (temporary_file_name (x ∷ name) commit_id n) ≡ true
unfolding temporary_file_name
is_temporary-temporary_file_name x name commit_id n =
    let kept = cut_short (200 - length (encode_utf8 x)) name in
    let post = hex_pad 32 commit_id ++ (b'-' ∷ decimal n) in
    let clear : all (is_not b'.') (codes "tidings-" ++ post) ≡ true =
      all-append (is_not b'.') (hex_pad 32 commit_id) (b'-' ∷ decimal n)
      ∙ rw (
        lower_without (hex_pad 32 commit_id) (hex-lower 32 commit_id) b'.' (omega arith),
        lower_without (decimal n) (decimal-lower n) b'.' (omega arith),
      ) in
    let shape : temporary_file_name (x ∷ name) commit_id n
        ≡ (b'.' ∷ x ∷ kept) ++ (codes ".tidings-" ++ post) =
      rw (cut_short-cons x name) in
    rw shape (
      recognised _ (rsplit_once-append (codes "tidings-") (b'.' ∷ x ∷ kept) post clear) (
        split_once-append b'-' (hex_pad 32 commit_id) (decimal n)
          (lower_without (hex_pad 32 commit_id) (hex-lower 32 commit_id) b'-' (omega arith)))
      ∙ is_temporary_lem x kept commit_id n)
