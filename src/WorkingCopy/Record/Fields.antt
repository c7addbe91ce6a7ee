-- ===== src/WorkingCopy/Record/Fields.antt =====
-- One line of a record is read back (cli/src/working_copy/record.rs).
use tidings.Base.Tests.{
  ℕ, ◌≡◌, refl, sym, ◌∙◌, true, false, List, [], ◌∷◌, ◌++◌, map, append_assoc, ◌==◌, arith,
}
use tidings.Base.Lists.{all, all-append}
use tidings.Base.Results.{◌>>=◌}
use tidings.Base.Text.{Text}
use tidings.Base.Lines.{newline, lines, lines-line}
use tidings.Base.Fields.{is_in_field, joined, joined-in_line, split-joined}
use tidings.Crates.{Crates}
use tidings.Journal
use tidings.Journal.Escapes.{escape-escape_chars, escape_chars}
use tidings.WorkingCopy.Record.{backslash, escape_char, escape, unescape, line}
use tidings.WorkingCopy.Record.Parse.{Read, parse_fields, parse_lines}

escape-clear : (t : Text) → all is_in_field (escape t) ≡ true
unfolding escape
escape-clear [] = refl
escape-clear (c ∷ t) =
    all-append is_in_field (escape_char c) (escape t) ∙ ground (arith, escape-clear t)

unescape-plain : (c : ℕ) (t : Text) → (c == backslash) ≡ false → unescape (c ∷ t) ≡ c ∷ unescape t
unfolding unescape
unescape-plain c [] h = rw h refl
unescape-plain c (d ∷ t) h = rw h refl

unescape-escape_char : (c : ℕ) (t : Text) → unescape (escape_char c ++ t) ≡ c ∷ unescape t
unescape-escape_char c t = let plain = unescape-plain c t in unfold unescape in ground arith

unescape-escape : (t : Text) → unescape (escape t) ≡ t
unfolding escape
unescape-escape [] = unfold unescape in refl
unescape-escape (c ∷ t) = unescape-escape_char c (escape t) ∙ rw (unescape-escape t) refl

escape-chars : (t : Text) → escape t ≡ escape_chars t
unfolding escape escape_chars
escape-chars [] = refl
escape-chars (c ∷ t) = rw (escape-chars t) refl

-- The record and the journal escape every text in the same way.
pub escape_same : (t : Text) → escape t ≡ Journal.escape t
escape_same t = escape-chars t ∙ sym (escape-escape_chars t)

all-escape-clear : (fs : List Text) → all (all is_in_field) (map escape fs) ≡ true
all-escape-clear [] = refl
all-escape-clear (f ∷ fs) = rw (escape-clear f, all-escape-clear fs) refl

map-unescape-escape : (fs : List Text) → map unescape (map escape fs) ≡ fs
map-unescape-escape [] = refl
map-unescape-escape (f ∷ fs) = rw (unescape-escape f, map-unescape-escape fs) refl

-- A line is read as the fields it was written with.
pub parse_lines-line :
    (c : Crates) (f : Text) (fs : List Text) (rest : Text) (r : Read)
    → parse_lines c (lines (line (f ∷ fs) ++ rest)) r
      ≡ (parse_fields c (f ∷ fs) r >>= parse_lines c (lines rest))
unfolding parse_lines line
parse_lines-line c f fs rest r =
    rw
      (
        append_assoc (joined (escape f) (map escape fs)) (newline ∷ []) rest,
        lines-line (joined (escape f) (map escape fs)) rest
            (joined-in_line (escape f) (map escape fs) (all-escape-clear (f ∷ fs))),
        split-joined (escape f) (map escape fs) (all-escape-clear (f ∷ fs)),
        unescape-escape f,
        map-unescape-escape fs,
      )
      refl
