-- ===== src/Base/Lines.antt =====
-- `str::lines`, and fields parted by one character.
use tidings.Base.Tests.{
  ℕ, ◌≡◌, refl, ◌∙◌, Bool, true, not, ◌&&◌, List, [], ◌∷◌, ◌++◌, ◌==◌, arith, if◌then◌else◌,
}
use tidings.Base.Lists.{all}
use tidings.Base.Text.{Text, split, cons_head}

-- The characters of a line's end.
abbrev pub newline : ℕ
newline = 10

abbrev pub carriage_return : ℕ
carriage_return = 13

abbrev pub tab : ℕ
tab = 9

-- `str::lines`: each ends before a line feed, or a carriage return and a line feed, or at the end.
unfoldable pub lines : Text → List Text
lines [] = []
lines (c ∷ []) = if c == newline then [] ∷ [] else (c ∷ []) ∷ []
lines (c ∷ d ∷ t) =
    let after = lines (d ∷ t) in
    let beyond = lines t in
    if c == newline
    then [] ∷ after
    else if (c == carriage_return) && (d == newline)
    then [] ∷ beyond
    else cons_head c after

-- No line ends in it.
abbrev pub is_in_line : ℕ → Bool
is_in_line c = not (c == newline) && not (c == carriage_return)

lines-newline : (t : Text) → lines (newline ∷ t) ≡ [] ∷ lines t
unfolding lines
lines-newline [] = refl
lines-newline (d ∷ t) = refl

lines-cons :
    (c d : ℕ) (t : Text) → is_in_line c ≡ true → lines (c ∷ d ∷ t) ≡ cons_head c (lines (d ∷ t))
unfolding lines
lines-cons c d t h = ground arith

-- A line is read back.
pub lines-line : (l t : Text) → all is_in_line l ≡ true → lines (l ++ (newline ∷ t)) ≡ l ∷ lines t
lines-line [] t h = lines-newline t
lines-line (c ∷ []) t h = lines-cons c newline t (ground arith) ∙ rw (lines-newline t) refl
lines-line (c ∷ d ∷ l) t h =
    lines-cons c d (l ++ (newline ∷ t)) (ground arith)
    ∙ rw (lines-line (d ∷ l) t (ground arith)) refl

-- Fields that hold no separator are parted again.
pub split-field :
    (s : ℕ) (a b : Text) → all (λ c. not (c == s)) a ≡ true → split s (a ++ (s ∷ b)) ≡ a ∷ split s b
unfolding split
split-field s [] b h = ground arith
split-field s (c ∷ a) b h = ground (arith, split-field s a b)

pub split-last : (s : ℕ) (a : Text) → all (λ c. not (c == s)) a ≡ true → split s a ≡ a ∷ []
unfolding split
split-last s [] h = refl
split-last s (c ∷ a) h = ground (arith, split-last s a)
