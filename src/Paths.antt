-- ===== src/Paths.antt =====
-- Which names a File may have (src/path.rs), over the crates that judge a name.
-- `Path` is its text: `new` is the only way to make one, but for reading back what was stored.
pub mod Temporary
pub mod Valid
pub mod Range
pub mod Tests
use Prim.Native.Nat.{Ordering}
use tidings.Base.Tests.{
  ℕ, ◌-◌, Bool, true, false, not, ◌&&◌, ◌||◌, Option, none, some, List, [], ◌∷◌, ◌++◌, leb, ltb,
  ◌==◌, if◌then◌else◌,
}
use tidings.Base.Lists.{length, any, all}
use tidings.Base.Results.{ok, err}
use tidings.Base.Text.{
  Text, codes, slash, split, split_once, starts_with, rsplit_once, encode_utf8, as_bytes, len, cmp,
  text_eq,
}
use tidings.Base.Digits.{hex_pad, decimal, is_ascii_digit, is_lower_hexdigit}
use tidings.Crates.{Component, cur_dir, parent_dir, normal, Crates}
use tidings.Error.{
  InvalidPathReason, empty, not_relative, empty_segment, dot_segment, unportable_name, not_nfc,
  reserved, invalid_path, Outcome,
}

-- `RESERVED`.
abbrev pub reserved_name : Text
reserved_name = codes ".tidings"

-- `Component::as_str`.
abbrev pub as_str : Component → Text
as_str cur_dir = codes "."
as_str parent_dir = codes ".."
as_str (normal s) = s

abbrev pub is_normal : Component → Bool
is_normal (normal _) = true
is_normal _ = false

-- `char::is_control`: the category Cc.
abbrev pub is_control : ℕ → Bool
is_control c = ltb c 32 || (leb 127 c && leb c 159)

-- `trim_end_matches(' ')`.
unfoldable pub trim_end_spaces : Text → Text
trim_end_spaces [] = []
trim_end_spaces (x ∷ xs) = elim (trim_end_spaces xs) [
  | [] ↦ if x == b' ' then [] else x ∷ []
  | y ∷ ys ↦ x ∷ y ∷ ys
]

-- `DEVICE_NAMES_SANITIZE_FILENAME_MISSES`.
abbrev pub device_names_sanitize_filename_misses : List Text
device_names_sanitize_filename_misses =
    (codes "COM" ++ (0xb9 ∷ []))
    ∷ (codes "COM" ++ (0xb2 ∷ []))
    ∷ (codes "COM" ++ (0xb3 ∷ []))
    ∷ (codes "LPT" ++ (0xb9 ∷ []))
    ∷ (codes "LPT" ++ (0xb2 ∷ []))
    ∷ (codes "LPT" ++ (0xb3 ∷ []))
    ∷ codes "CONIN$"
    ∷ codes "CONOUT$"
    ∷ []

-- `COMMIT_ID_DIGITS`.
abbrev pub commit_id_digits : ℕ
commit_id_digits = 32

-- The loop of `temporary_file_name` that looks for a character boundary: the longest start of the
-- name, in whole characters, that has at most `budget` bytes.
unfoldable pub cut_short : ℕ → Text → Text
cut_short budget [] = []
cut_short budget (c ∷ t) =
    let width = length (encode_utf8 c) in
    let rest = cut_short (budget - width) t in if leb width budget then c ∷ rest else []

-- `commit_id` is a `u128`: below 2 ^ 128 the format gives exactly `commit_id_digits` digits.
unfoldable pub temporary_file_name : Text → ℕ → ℕ → Text
unfolding cut_short
temporary_file_name name commit_id n =
    codes "."
    ++ (cut_short 200 name
        ++ (codes ".tidings-" ++ (hex_pad commit_id_digits commit_id ++ (codes "-" ++ decimal n))))

-- The conjunction that `is_temporary_file_name` returns.
unfoldable pub is_temporary : Text → Text → Text → Bool
is_temporary before commit_id n =
    ltb 1 (len before)
    && starts_with (codes ".") before
    && len commit_id == commit_id_digits
    && all is_lower_hexdigit (as_bytes commit_id)
    && not (len n == 0)
    && all is_ascii_digit (as_bytes n)

unfoldable pub is_temporary_file_name : Text → Bool
unfolding is_temporary
is_temporary_file_name name = elim (rsplit_once (codes ".tidings-") name) [
  | none ↦ false
  | some (before, id) ↦ elim (split_once b'-' id) [
    | none ↦ false
    | some (commit_id, n) ↦ is_temporary before commit_id n
  ]
]

-- `range_under`: where the range starts, and where it ends.
unfoldable pub range_under : Text → Text × Text
range_under name = (name ++ (slash ∷ []), name ++ (b'0' ∷ []))

-- Whether a text is in a half-open range.
unfoldable pub in_range : Text × Text → Text → Bool
in_range (from, to) text = elim (cmp text from) [
  | Ordering.lt ↦ false
  | _ ↦ elim (cmp text to) [ Ordering.lt ↦ true | _ ↦ false ]
]

module _ (c : Crates) where
  open c use {components, is_sanitized, is_nfc, nfd, to_uppercase, default_case_fold}

  unfoldable pub letter_case_fold : Text → Text
  letter_case_fold name = nfd (default_case_fold (nfd (to_uppercase name)))

  -- `split_once('.').map_or(name, ..)`.
  unfoldable pub device_of : Text → Text
  device_of name =
      trim_end_spaces (elim (split_once b'.' name) [ none ↦ name | some (base, _) ↦ base ])

  unfoldable pub is_device_name_sanitize_filename_misses : Text → Bool
  unfolding device_of
  is_device_name_sanitize_filename_misses name =
      any (text_eq (to_uppercase (device_of name))) device_names_sanitize_filename_misses
      || not (is_sanitized (device_of name))

  unfoldable pub is_portable_name : Text → Bool
  is_portable_name name =
      is_sanitized name
      && not (any is_control name)
      && not (is_device_name_sanitize_filename_misses name)

  unfoldable pub is_reserved : Text → Bool
  is_reserved name = text_eq (letter_case_fold name) reserved_name

  -- `Path`'s rules, in the order they are tried.
  unfoldable pub refusal : Text → Option InvalidPathReason
  refusal path =
      let segments = components path in
      if text_eq path []
      then some empty
      else if starts_with (slash ∷ []) path
      then some not_relative
      else if not (length segments == length (split slash path))
      then some empty_segment
      else if any (λ segment. not (is_normal segment)) segments
      then some dot_segment
      else if any (λ segment. not (is_portable_name (as_str segment))) segments
      then some unportable_name
      else if any
          (λ segment. is_reserved (as_str segment) || is_temporary_file_name (as_str segment))
          segments
      then some reserved
      else if not (is_nfc path)
      then some not_nfc
      else none

  -- `Path::new`.
  unfoldable pub new : Text → Outcome Text
  unfolding refusal
  new path = elim (refusal path) [ some reason ↦ err (invalid_path path reason) | none ↦ ok path ]
