-- ===== src/Journal/Hex.antt =====
-- Revisions in the journal's hexadecimal (src/backend/fs/journal.rs).
use tidings.Base.Tests.{
  ℕ, zero, suc, sym, ◌*◌, ◌%◌, ◌/◌, ◌^◌, ◌<◌, ◌≡◌, refl, ap, ◌∙◌, Bool, true, not, some, List, [],
  ◌∷◌, ◌==◌, ltb, arith,
}
use tidings.Base.Lists.{all, length, length-append, all-append}
use tidings.Base.Text.{len}
use tidings.Base.Digits.{
  hex_digit, hex_pad, from_str_radix_16, hex_value_from, to_le_bytes, length-hex_pad, all-hex_pad,
  as_bytes_of_ascii, hex_value_from-hex_pad,
}
use tidings.Files.{Revision}
use tidings.Revisions.{to_bytes}
use tidings.Revisions.Digits.{
  from_bytes-to_bytes, from_str_radix_16-unsigned, hex_digit-is_ascii_hexdigit, hex_digit-ascii,
}
use tidings.Journal.{backslash, unescape, hex_of_bytes, to_hex, bytes_of_hex, from_hex}
use tidings.Base.Fields.{is_in_field}
use tidings.Journal.Escapes.{unescape_of_plain}

hex_digit-in_field : (d : ℕ) → d < 16 → is_in_field (hex_digit d) ≡ true
unfolding hex_digit
hex_digit-in_field d h = ground arith

hex_of_bytes-all :
    (p : ℕ → Bool) (bs : List ℕ)
    → ((d : ℕ) → d < 16 → p (hex_digit d) ≡ true)
    → all p (hex_of_bytes bs) ≡ true
unfolding hex_of_bytes
hex_of_bytes-all p [] h = refl
hex_of_bytes-all p (b ∷ bs) h =
    all-append p (hex_pad 2 b) (hex_of_bytes bs)
    ∙ rw (all-hex_pad p 2 b h, hex_of_bytes-all p bs h) refl

length-hex_of_bytes : (bs : List ℕ) → length (hex_of_bytes bs) ≡ 2 * length bs
unfolding hex_of_bytes
length-hex_of_bytes [] = refl
length-hex_of_bytes (b ∷ bs) =
    length-append (hex_pad 2 b) (hex_of_bytes bs)
    ∙ omega (arith, length-hex_pad 2 b, length-hex_of_bytes bs)

length-to_le_bytes : (w n : ℕ) → length (to_le_bytes w n) ≡ w
unfolding to_le_bytes
length-to_le_bytes zero n = refl
length-to_le_bytes (suc w) n = omega (arith, length-to_le_bytes w (n / 256))

abbrev is_byte : ℕ → Bool
is_byte b = ltb b 256

bytes-to_le_bytes : (w n : ℕ) → all is_byte (to_le_bytes w n) ≡ true
unfolding to_le_bytes
bytes-to_le_bytes zero n = refl
bytes-to_le_bytes (suc w) n = ground (arith, bytes-to_le_bytes w (n / 256))

-- The two digits of a byte.
two_digits : (b : ℕ) → hex_pad 2 b ≡ hex_digit (b / 16 % 16) ∷ hex_digit (b % 16) ∷ []
unfolding hex_pad
two_digits b = refl

byte_read :
    (b : ℕ)
    → b < 256
    → from_str_radix_16 256 (hex_digit (b / 16 % 16) ∷ hex_digit (b % 16) ∷ []) ≡ some b
byte_read b h =
    from_str_radix_16-unsigned 256 (hex_digit (b / 16 % 16)) _
      (hex_digit-is_ascii_hexdigit (b / 16 % 16) (omega arith))
    ∙ ap (hex_value_from 256 0) (sym (two_digits b))
    ∙ hex_value_from-hex_pad 2 b 256 (omega arith) h

bytes_of_hex-cons :
    (c d : ℕ) (cs : List ℕ) (b : ℕ) (bs : List ℕ)
    → from_str_radix_16 256 (c ∷ d ∷ []) ≡ some b
    → bytes_of_hex cs ≡ some bs
    → bytes_of_hex (c ∷ d ∷ cs) ≡ some (b ∷ bs)
unfolding bytes_of_hex
bytes_of_hex-cons c d cs b bs h k = ground arith

bytes_of_hex-hex_of_bytes :
    (bs : List ℕ) → all is_byte bs ≡ true → bytes_of_hex (hex_of_bytes bs) ≡ some bs
unfolding hex_of_bytes
bytes_of_hex-hex_of_bytes [] h = unfold bytes_of_hex in refl
bytes_of_hex-hex_of_bytes (b ∷ bs) h = rw (two_digits b) (
    bytes_of_hex-cons _ _ (hex_of_bytes bs) b bs (byte_read b (ground arith))
      (bytes_of_hex-hex_of_bytes bs (ground arith)))

-- Every Revision is read back from the journal's digits.
pub from_hex-to_hex : (r : Revision) → r < 2 ^ 128 → from_hex (to_hex r) ≡ some r
unfolding from_hex to_hex len
from_hex-to_hex r h =
    let bs = to_bytes r in
    let ascii = hex_of_bytes-all (λ c. ltb c 128) bs hex_digit-ascii in
    let size : length bs ≡ 16 = unfold to_bytes in length-to_le_bytes 16 r in
    let bytes : all is_byte bs ≡ true = unfold to_bytes in bytes-to_le_bytes 16 r in
    rw
      (
        as_bytes_of_ascii (hex_of_bytes bs) ascii,
        ascii,
        length-hex_of_bytes bs,
        size,
        bytes_of_hex-hex_of_bytes bs bytes,
        from_bytes-to_bytes r h,
      )
      refl

pub to_hex-clear : (r : Revision) → all is_in_field (to_hex r) ≡ true
unfolding to_hex
to_hex-clear r = hex_of_bytes-all is_in_field (to_bytes r) hex_digit-in_field

hex_digit-plain : (d : ℕ) → d < 16 → not (hex_digit d == backslash) ≡ true
unfolding hex_digit
hex_digit-plain d h = ground arith

pub unescape-to_hex : (r : Revision) → unescape (to_hex r) ≡ to_hex r
unfolding to_hex
unescape-to_hex r =
    unescape_of_plain (hex_of_bytes (to_bytes r))
      (hex_of_bytes-all (λ c. not (c == backslash)) (to_bytes r) hex_digit-plain)
