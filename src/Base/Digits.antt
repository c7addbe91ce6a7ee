-- ===== src/Base/Digits.antt =====
-- Numbers written in digits, as Rust's formatting and `from_str_radix` do, and in bytes.
use native.Mathlib.Nat.{pow-suc}
use tidings.Base.Tests.{
  inl, inr, Option-cases, ℕ, zero, suc, ◌+◌, ◌-◌, ◌*◌, ◌/◌, ◌%◌, ◌^◌, ◌<◌, ◌≡◌, refl, ap, ◌∙◌, Bool,
  true, ◌&&◌, ◌||◌, Option, none, some, List, [], ◌∷◌, ◌++◌, arith, ltb, leb, ◌==◌, if◌then◌else◌,
}
use tidings.Base.Lists.{length, length-append, all, all-append}
use tidings.Base.Text.{Text, as_bytes}

-- The lowercase hexadecimal digit of a value below 16.
unfoldable pub hex_digit : ℕ → ℕ
hex_digit d = if ltb d 10 then b'0' + d else b'a' + (d - 10)

-- `{:0w$x}` of a number below 16 ^ w: exactly `w` digits.
unfoldable pub hex_pad : ℕ → ℕ → Text
hex_pad zero n = []
hex_pad (suc w) n = hex_pad w (n / 16) ++ (hex_digit (n % 16) ∷ [])

-- The value of a hexadecimal digit, in either case (`char::to_digit(16)`).
unfoldable pub to_digit : ℕ → Option ℕ
to_digit c =
    if leb b'0' c && leb c b'9'
    then some (c - b'0')
    else if leb b'a' c && leb c b'f'
    then some (c - b'a' + 10)
    else if leb b'A' c && leb c b'F'
    then some (c - b'A' + 10)
    else none

-- `u8::is_ascii_hexdigit` and `u8::is_ascii_digit`.
unfoldable pub is_ascii_hexdigit : ℕ → Bool
is_ascii_hexdigit c =
    (leb b'0' c && leb c b'9') || (leb b'a' c && leb c b'f') || (leb b'A' c && leb c b'F')

unfoldable pub is_ascii_digit : ℕ → Bool
is_ascii_digit c = leb b'0' c && leb c b'9'

-- One digit more of `from_str_radix(_, 16)`, with its overflow checks, on a type whose values are
-- below `bound`.
unfoldable pub hex_step : ℕ → ℕ → ℕ → Option ℕ
unfolding to_digit
hex_step bound acc c = elim (to_digit c) [
  | none ↦ none
  | some d ↦ if ltb (acc * 16 + d) bound then some (acc * 16 + d) else none
]

unfoldable pub hex_value_from : ℕ → ℕ → List ℕ → Option ℕ
hex_value_from bound acc [] = some acc
hex_value_from bound acc (c ∷ cs) = elim (hex_step bound acc c) [
  | none ↦ none
  | some a ↦ hex_value_from bound a cs
]

-- `from_str_radix(_, 16)` on an unsigned type: a sign `+` is taken, and no digits are an error.
unfoldable pub from_str_radix_16 : ℕ → List ℕ → Option ℕ
unfolding hex_value_from
from_str_radix_16 bound [] = none
from_str_radix_16 bound (c ∷ []) = hex_value_from bound 0 (c ∷ [])
from_str_radix_16 bound (c ∷ d ∷ cs) =
    if c == b'+' then hex_value_from bound 0 (d ∷ cs) else hex_value_from bound 0 (c ∷ d ∷ cs)

unfoldable pub decimal_fuel : ℕ → ℕ → Text
decimal_fuel zero n = []
decimal_fuel (suc f) n =
    let rest = decimal_fuel f (n / 10) in
    if ltb n 10 then (b'0' + n) ∷ [] else rest ++ ((b'0' + n % 10) ∷ [])

-- `{}` of a number. A number has no more digits than its value and one.
unfoldable pub decimal : ℕ → Text
unfolding decimal_fuel
decimal n = decimal_fuel (suc n) n

-- `to_le_bytes` on a type of `w` bytes, and `from_le_bytes`.
unfoldable pub to_le_bytes : ℕ → ℕ → List ℕ
to_le_bytes zero n = []
to_le_bytes (suc w) n = (n % 256) ∷ to_le_bytes w (n / 256)

unfoldable pub from_le_bytes : List ℕ → ℕ
from_le_bytes [] = 0
from_le_bytes (b ∷ bs) = b + 256 * from_le_bytes bs

pub length-hex_pad : (w n : ℕ) → length (hex_pad w n) ≡ w
unfolding hex_pad
length-hex_pad zero n = refl
length-hex_pad (suc w) n =
    length-append (hex_pad w (n / 16)) _ ∙ omega (arith, length-hex_pad w (n / 16))

-- A digit that a journal, a record and a temporary file's name take: in lower case.
unfoldable pub is_lower_hexdigit : ℕ → Bool
is_lower_hexdigit c = (leb b'0' c && leb c b'9') || (leb b'a' c && leb c b'f')

pub all-hex_pad :
    (p : ℕ → Bool) (w n : ℕ)
    → ((d : ℕ) → d < 16 → p (hex_digit d) ≡ true)
    → all p (hex_pad w n) ≡ true
unfolding hex_pad
all-hex_pad p zero n h = refl
all-hex_pad p (suc w) n h =
    all-append p (hex_pad w (n / 16)) _ ∙ rw (all-hex_pad p w (n / 16) h, h (n % 16) (omega arith))

pub as_bytes_of_ascii : (t : List ℕ) → all (λ c. ltb c 128) t ≡ true → as_bytes t ≡ t
unfolding as_bytes
as_bytes_of_ascii [] h = refl
as_bytes_of_ascii (c ∷ t) h =
    let rest : as_bytes t ≡ t = as_bytes_of_ascii t (ground arith) in
    let small : ltb c 128 ≡ true = ground arith in rw (small, rest)

hex_step-hex_digit :
    (bound acc d : ℕ)
    → d < 16
    → acc * 16 + d < bound
    → hex_step bound acc (hex_digit d) ≡ some (acc * 16 + d)
unfolding hex_step hex_digit
hex_step-hex_digit bound acc d h k = ground arith

hex_value_from-append :
    (bound acc : ℕ) (cs : List ℕ) (d v w : ℕ)
    → hex_value_from bound acc cs ≡ some v
    → hex_step bound v d ≡ some w
    → hex_value_from bound acc (cs ++ (d ∷ [])) ≡ some w
unfolding hex_value_from
hex_value_from-append bound acc [] d v w h k = ground arith
hex_value_from-append bound acc (c ∷ cs) d v w h k = elim (Option-cases (hex_step bound acc c)) [
  | inl bad ↦ absurd (ground arith)
  | inr (a, good) ↦
      let later = hex_value_from-append bound a cs d v w (ground arith) k in ground arith
]

-- Digits written below the bound are read back.
pub hex_value_from-hex_pad :
    (w n bound : ℕ) → n < 16 ^ w → n < bound → hex_value_from bound 0 (hex_pad w n) ≡ some n
unfolding hex_pad hex_value_from
hex_value_from-hex_pad zero n bound h k = ground arith
hex_value_from-hex_pad (suc w) n bound h k =
    let small : n / 16 < 16 ^ w = omega (arith, pow-suc 16 w) in
    let whole : n / 16 * 16 + n % 16 ≡ n = omega arith in
    hex_value_from-append bound 0 (hex_pad w (n / 16)) (hex_digit (n % 16)) (n / 16) n
      (hex_value_from-hex_pad w (n / 16) bound small (omega arith))
      (hex_step-hex_digit bound (n / 16) (n % 16) (omega arith) (omega arith) ∙ ap some whole)

pub from_le_bytes-to_le_bytes : (w n : ℕ) → n < 256 ^ w → from_le_bytes (to_le_bytes w n) ≡ n
unfolding to_le_bytes from_le_bytes
from_le_bytes-to_le_bytes zero n h = omega arith
from_le_bytes-to_le_bytes (suc w) n h =
    omega (arith, from_le_bytes-to_le_bytes w (n / 256) (omega (arith, pow-suc 256 w)))
