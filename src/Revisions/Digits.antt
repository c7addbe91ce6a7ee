-- ===== src/Revisions/Digits.antt =====
-- A Revision in its two formats, 32 hexadecimal digits and 16 bytes (src/revision.rs).
use tidings.Base.Tests.{ℕ, ◌^◌, ◌<◌, ◌≡◌, refl, ◌∙◌, true, not, some, [], ◌∷◌, ◌==◌, ltb, arith}
use tidings.Base.Lists.{all, length}
use tidings.Base.Text.{Text, as_bytes, len}
use tidings.Base.Digits.{
  hex_digit, hex_pad, is_ascii_hexdigit, from_str_radix_16, hex_value_from, length-hex_pad,
  all-hex_pad, as_bytes_of_ascii, hex_value_from-hex_pad, from_le_bytes-to_le_bytes,
}
use tidings.Files.{Revision}
use tidings.Revisions.{to_bytes, from_bytes, to_string, from_str}

pub hex_digit-is_ascii_hexdigit : (d : ℕ) → d < 16 → is_ascii_hexdigit (hex_digit d) ≡ true
unfolding hex_digit is_ascii_hexdigit
hex_digit-is_ascii_hexdigit d h = ground arith

pub hex_digit-ascii : (d : ℕ) → d < 16 → ltb (hex_digit d) 128 ≡ true
unfolding hex_digit
hex_digit-ascii d h = ground arith

pub as_bytes-hex_pad : (w n : ℕ) → as_bytes (hex_pad w n) ≡ hex_pad w n
as_bytes-hex_pad w n =
    as_bytes_of_ascii (hex_pad w n) (all-hex_pad (λ c. ltb c 128) w n hex_digit-ascii)

-- Digits that begin with no sign are read as digits.
pub from_str_radix_16-unsigned :
    (bound c : ℕ) (cs : Text)
    → is_ascii_hexdigit c ≡ true
    → from_str_radix_16 bound (c ∷ cs) ≡ hex_value_from bound 0 (c ∷ cs)
unfolding from_str_radix_16 is_ascii_hexdigit
from_str_radix_16-unsigned bound c [] h = refl
from_str_radix_16-unsigned bound c (d ∷ cs) h = ground arith

radix_of_digits :
    (bound : ℕ) (t : Text)
    → not (length t == 0) ≡ true
    → all is_ascii_hexdigit t ≡ true
    → from_str_radix_16 bound t ≡ hex_value_from bound 0 t
radix_of_digits bound [] h k = cc
radix_of_digits bound (c ∷ cs) h k = from_str_radix_16-unsigned bound c cs (ground arith)

-- Every Revision is read back from its text.
pub from_str-to_string : (r : Revision) → r < 2 ^ 128 → from_str (to_string r) ≡ some r
unfolding from_str to_string len
from_str-to_string r h =
    rw
      (
        as_bytes-hex_pad 32 r,
        length-hex_pad 32 r,
        all-hex_pad is_ascii_hexdigit 32 r hex_digit-is_ascii_hexdigit,
      )
      (radix_of_digits (2 ^ 128) (hex_pad 32 r) (rw (length-hex_pad 32 r) refl)
          (all-hex_pad is_ascii_hexdigit 32 r hex_digit-is_ascii_hexdigit)
        ∙ hex_value_from-hex_pad 32 r (2 ^ 128) h h)

-- Every Revision is read back from its bytes.
pub from_bytes-to_bytes : (r : Revision) → r < 2 ^ 128 → from_bytes (to_bytes r) ≡ r
unfolding from_bytes to_bytes
from_bytes-to_bytes r h = from_le_bytes-to_le_bytes 16 r h

-- A number of 128 bits is read from the digits of `{:032x}`.
pub from_hash :
    (h : ℕ) → h < 2 ^ 128 → from_str_radix_16 (2 ^ 128) (as_bytes (hex_pad 32 h)) ≡ some h
from_hash h small = rw (as_bytes-hex_pad 32 h) (
    radix_of_digits (2 ^ 128) (hex_pad 32 h) (rw (length-hex_pad 32 h) refl)
      (all-hex_pad is_ascii_hexdigit 32 h hex_digit-is_ascii_hexdigit)
    ∙ hex_value_from-hex_pad 32 h (2 ^ 128) small small)
