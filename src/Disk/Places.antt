-- ===== src/Disk/Places.antt =====
-- What a name holds once a call on the folder has succeeded.
use tidings.Base.Tests.{◌≡◌, refl, sym, ap, ◌∙◌, Option, none, some, arith}
use tidings.Base.Results.{Result, ok, err}
use tidings.Base.Text.{Text, text_eq_refl}
use tidings.Base.BTreeMap.{get-insert, get-remove}
use tidings.Disk.{
  Node, file, Disk, Os, Io, and_then, ◌>>=◌, ◌>>◌, map_err, map_error, remove_file, rename,
}
use tidings.Disk.Leaves.{held, Leaves}

pub record Places {ℓ κ} {E : Type ℓ} {A : Type κ} (name : Text) (what : Option Node) (call : Io E A)
    : Type (ℓ ⊔ κ) where
  pub placed : (d after : Disk) (a : A) → call d ≡ (after, ok a) → held name after ≡ what

and_then-first {ℓ κ μ} :
    {E : Type ℓ} {A : Type κ} {B : Type μ} (name : Text) (what : Option Node)
    (first : Disk × Result E A) (next : A → Io E B) (after : Disk) (b : B)
    → and_then first next ≡ (after, ok b)
    → ((d : Disk) (a : A) → first ≡ (d, ok a) → held name d ≡ what)
    → ((a : A) → Leaves name (next a))
    → held name after ≡ what
and_then-first name what (d, err e) next after b h p k = cc
and_then-first {E = E} {B = B} name what (d, ok a) next after b h p k =
    ap (λ (r : Disk × Result E B). held name r.0) (sym h) ∙ (k a).same d ∙ p d a refl

and_then-next {ℓ κ μ} :
    {E : Type ℓ} {A : Type κ} {B : Type μ} (name : Text) (what : Option Node)
    (first : Disk × Result E A) (next : A → Io E B) (after : Disk) (b : B)
    → and_then first next ≡ (after, ok b)
    → ((a : A) → Places name what (next a))
    → held name after ≡ what
and_then-next name what (d, err e) next after b h k = cc
and_then-next name what (d, ok a) next after b h k = (k a).placed d after b h

pub >>=-Places_first {ℓ κ μ} :
    {E : Type ℓ} {A : Type κ} {B : Type μ} (name : Text) (what : Option Node) (first : Io E A)
    (next : A → Io E B)
    → Places name what first
    → ((a : A) → Leaves name (next a))
    → Places name what (first >>= next)
>>=-Places_first name what first next p k = record {
  placed = λ d after b h. and_then-first name what (first d) next after b h (p.placed d) k;
}

pub >>-Places_first {ℓ κ μ} :
    {E : Type ℓ} {A : Type κ} {B : Type μ} (name : Text) (what : Option Node) (first : Io E A)
    (next : Io E B)
    → Places name what first
    → Leaves name next
    → Places name what (first >> next)
>>-Places_first name what first next p k = record {
  placed =
      λ d after b h. and_then-first name what (first d) (λ _. next) after b h (p.placed d) (λ _. k);
}

pub >>-Places_next {ℓ κ μ} :
    {E : Type ℓ} {A : Type κ} {B : Type μ} (name : Text) (what : Option Node) (first : Io E A)
    (next : Io E B)
    → Places name what next
    → Places name what (first >> next)
>>-Places_next name what first next k = record {
  placed = λ d after b h. and_then-next name what (first d) (λ _. next) after b h (λ _. k);
}

unmapped {ℓ κ μ} :
    {E : Type ℓ} {F : Type κ} {A : Type μ} (f : E → F) (r : Disk × Result E A) (after : Disk)
    (a : A)
    → ◌≡◌ {A = Disk × Result F A} (r.0, map_error f r.1) (after, ok a)
    → r ≡ (after, ok a)
unmapped f (d, ok v) after a k = cc
unmapped f (d, err e) after a k = cc

pub map_err-Places {ℓ κ μ} :
    {E : Type ℓ} {F : Type κ} {A : Type μ} (name : Text) (what : Option Node) (f : E → F)
    (call : Io E A)
    → Places name what call
    → Places name what (map_err f call)
map_err-Places name what f call p = record {
  placed = λ d after a h. p.placed d after a (unmapped f (call d) after a h);
}

module _ (os : Os) where
  renamed-there :
      (contents at : Text) (d after : Disk) (u : Unit {0})
      → rename os contents at d ≡ (after, ok u)
      → held at after ≡ some (file contents)
  unfolding rename held
  renamed-there contents at d after u h =
      ground (arith, get-insert at at (file contents) d, text_eq_refl at)

  pub rename-Places :
      (contents at : Text) → Places at (some (file contents)) (rename os contents at)
  rename-Places contents at = record { placed = renamed-there contents at }

  removed-gone :
      (at : Text) (d after : Disk) (u : Unit {0})
      → remove_file os at d ≡ (after, ok u)
      → held at after ≡ none
  unfolding remove_file held
  removed-gone at d after u h = ground (arith, get-remove at at d, text_eq_refl at)

  pub remove_file-Places : (at : Text) → Places at none (remove_file os at)
  remove_file-Places at = record { placed = removed-gone at }
