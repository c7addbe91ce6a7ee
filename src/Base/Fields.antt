-- ===== src/Base/Fields.antt =====
-- Fields that a tab parts on one line.
use tidings.Base.Tests.{ℕ, ◌≡◌, refl, ◌∙◌, Bool, true, not, ◌&&◌, List, [], ◌∷◌, ◌++◌, ◌==◌, arith}
use tidings.Base.Lists.{all, all-append, all-imp}
use tidings.Base.Text.{Text, split}
use tidings.Base.Lines.{newline, carriage_return, tab, is_in_line, split-field, split-last}

-- No tab and no end of a line.
abbrev pub is_in_field : ℕ → Bool
is_in_field c = not (c == tab) && not (c == newline) && not (c == carriage_return)

-- `join("\t")`, of a first field and the rest.
abbrev pub joined : Text → List Text → Text
joined f [] = f
joined f (g ∷ fs) = f ++ (tab ∷ joined g fs)

in_line : (f : Text) → all is_in_field f ≡ true → all is_in_line f ≡ true
in_line f h = all-imp is_in_field is_in_line f (λ c k. ground arith) h

no_tab : (f : Text) → all is_in_field f ≡ true → all (λ c. not (c == tab)) f ≡ true
no_tab f h = all-imp is_in_field (λ c. not (c == tab)) f (λ c k. ground arith) h

pub joined-in_line :
    (f : Text) (fs : List Text)
    → all (all is_in_field) (f ∷ fs) ≡ true
    → all is_in_line (joined f fs) ≡ true
joined-in_line f [] h = in_line f (ground arith)
joined-in_line f (g ∷ fs) h =
    all-append is_in_line f (tab ∷ joined g fs)
    ∙ rw (in_line f (ground arith), joined-in_line g fs (ground arith)) refl

pub split-joined :
    (f : Text) (fs : List Text)
    → all (all is_in_field) (f ∷ fs) ≡ true
    → split tab (joined f fs) ≡ f ∷ fs
split-joined f [] h = split-last tab f (no_tab f (ground arith))
split-joined f (g ∷ fs) h =
    split-field tab f (joined g fs) (no_tab f (ground arith))
    ∙ rw (split-joined g fs (ground arith)) refl
