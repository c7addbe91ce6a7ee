-- ===== src/Journal/Escapes.antt =====
-- Escaping in the journal (src/backend/fs/journal.rs).
use tidings.Base.Tests.{
  ℕ, ◌≡◌, refl, ◌∙◌, true, false, not, [], ◌∷◌, ◌++◌, ◌==◌, arith, if◌then◌else◌, Bool-cases, inl,
  inr,
}
use tidings.Base.Lists.{all, all-append}
use tidings.Base.Text.{Text, replace}
use tidings.Base.Lines.{newline, carriage_return, tab}
use tidings.Base.Fields.{is_in_field}
use tidings.Journal.{backslash, escape, unescape}

-- What the four replacements make of one character.
abbrev pub escape_char : ℕ → Text
escape_char c =
    if c == backslash
    then backslash ∷ backslash ∷ []
    else if c == tab
    then backslash ∷ b't' ∷ []
    else if c == newline
    then backslash ∷ b'n' ∷ []
    else if c == carriage_return
    then backslash ∷ b'r' ∷ []
    else c ∷ []

unfoldable pub escape_chars : Text → Text
escape_chars [] = []
escape_chars (c ∷ t) = escape_char c ++ escape_chars t

replace-same :
    (c : ℕ) (new : Text) (x : ℕ) (t : Text)
    → (x == c) ≡ true
    → replace c new (x ∷ t) ≡ new ++ replace c new t
unfolding replace
replace-same c new x t h = rw h refl

replace-other :
    (c : ℕ) (new : Text) (x : ℕ) (t : Text)
    → (x == c) ≡ false
    → replace c new (x ∷ t) ≡ x ∷ replace c new t
unfolding replace
replace-other c new x t h = rw h refl

-- A character that the next replacements pass over.
abbrev step : ℕ → Text → Text
step c t = escape (c ∷ t)

escape-cons : (c : ℕ) (t : Text) → escape (c ∷ t) ≡ escape_char c ++ escape t
unfolding escape
escape-cons c t = elim (Bool-cases (c == backslash)) [
  | inl b ↦
      rw (b, replace-same backslash (backslash ∷ backslash ∷ []) c t b) (unfold replace in refl)
  | inr nb ↦ elim (Bool-cases (c == tab)) [
    | inl b ↦
        rw
          (
            nb,
            b,
            replace-other backslash (backslash ∷ backslash ∷ []) c t nb,
            replace-same tab (backslash ∷ b't' ∷ []) c _ b,
          )
          (unfold replace in refl)
    | inr nt ↦ elim (Bool-cases (c == newline)) [
      | inl b ↦
          rw
            (
              nb,
              nt,
              b,
              replace-other backslash (backslash ∷ backslash ∷ []) c t nb,
              replace-other tab (backslash ∷ b't' ∷ []) c _ nt,
              replace-same newline (backslash ∷ b'n' ∷ []) c _ b,
            )
            (unfold replace in refl)
      | inr nn ↦ elim (Bool-cases (c == carriage_return)) [
        | inl b ↦
            rw
              (
                nb,
                nt,
                nn,
                b,
                replace-other backslash (backslash ∷ backslash ∷ []) c t nb,
                replace-other tab (backslash ∷ b't' ∷ []) c _ nt,
                replace-other newline (backslash ∷ b'n' ∷ []) c _ nn,
                replace-same carriage_return (backslash ∷ b'r' ∷ []) c _ b,
              )
              refl
        | inr nr ↦
            rw
              (
                nb,
                nt,
                nn,
                nr,
                replace-other backslash (backslash ∷ backslash ∷ []) c t nb,
                replace-other tab (backslash ∷ b't' ∷ []) c _ nt,
                replace-other newline (backslash ∷ b'n' ∷ []) c _ nn,
                replace-other carriage_return (backslash ∷ b'r' ∷ []) c _ nr,
              )
              refl
      ]
    ]
  ]
]

-- The four replacements, one after the other, escape each character by itself.
pub escape-escape_chars : (t : Text) → escape t ≡ escape_chars t
unfolding escape_chars
escape-escape_chars [] = unfold escape replace in refl
escape-escape_chars (c ∷ t) = escape-cons c t ∙ rw (escape-escape_chars t) refl

escape_chars-clear : (t : Text) → all is_in_field (escape_chars t) ≡ true
unfolding escape_chars
escape_chars-clear [] = refl
escape_chars-clear (c ∷ t) =
    all-append is_in_field (escape_char c) (escape_chars t) ∙ ground (arith, escape_chars-clear t)

pub escape-clear : (t : Text) → all is_in_field (escape t) ≡ true
escape-clear t = rw (escape-escape_chars t) (escape_chars-clear t)

unescape-plain : (c : ℕ) (t : Text) → (c == backslash) ≡ false → unescape (c ∷ t) ≡ c ∷ unescape t
unfolding unescape
unescape-plain c [] h = rw h refl
unescape-plain c (d ∷ t) h = rw h refl

unescape-escape_char : (c : ℕ) (t : Text) → unescape (escape_char c ++ t) ≡ c ∷ unescape t
unescape-escape_char c t = let plain = unescape-plain c t in unfold unescape in ground arith

unescape-escape_chars : (t : Text) → unescape (escape_chars t) ≡ t
unfolding escape_chars
unescape-escape_chars [] = unfold unescape in refl
unescape-escape_chars (c ∷ t) =
    unescape-escape_char c (escape_chars t) ∙ rw (unescape-escape_chars t) refl

pub unescape-escape : (t : Text) → unescape (escape t) ≡ t
unescape-escape t = rw (escape-escape_chars t) (unescape-escape_chars t)

-- A text without `\` is left as it is.
pub unescape_of_plain : (t : Text) → all (λ c. not (c == backslash)) t ≡ true → unescape t ≡ t
unescape_of_plain [] h = unfold unescape in refl
unescape_of_plain (c ∷ t) h =
    unescape-plain c t (ground arith) ∙ rw (unescape_of_plain t (ground arith)) refl
