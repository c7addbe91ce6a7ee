-- ===== src/Disk/Leaves.antt =====
-- What a call on the folder leaves as it was: whatever is there but directories, at every name but
-- the ones it is about.
use tidings.Base.Tests.{◌≡◌, refl, ◌∙◌, false, Option, none, some, List, [], ◌∷◌, arith}
use tidings.Base.Results.{Result, ok, err}
use tidings.Base.Text.{Text, text_eq, text_eq_iff}
use tidings.Base.BTreeMap.{get, get-insert, get-remove}
use tidings.Disk.{
  Node, file, not_text, symlink, special, dir, Disk, Os, Io, and_then, ◌>>=◌, ◌>>◌, map_err, touch,
  remove_file, remove_dir, create_dir, create_dir_all, create_missing, rename, Call,
}

abbrev pub not_directory : Option Node → Option Node
not_directory none = none
not_directory (some dir) = none
not_directory (some (file contents)) = some (file contents)
not_directory (some not_text) = some not_text
not_directory (some symlink) = some symlink
not_directory (some special) = some special

unfoldable pub held : Text → Disk → Option Node
held name d = not_directory (get name d)

-- The call leaves what this name holds, but for directories.
pub record Leaves {ℓ κ} {E : Type ℓ} {A : Type κ} (name : Text) (call : Io E A) : Type (ℓ ⊔ κ) where
  pub same : (d : Disk) → held name (call d).0 ≡ held name d

pub pure-Leaves {ℓ κ} :
    {E : Type ℓ} {A : Type κ} (name : Text) (r : Result E A) → Leaves name (λ d. (d, r))
pure-Leaves name r = record { same = λ d. refl }

pub and_then-held {ℓ κ μ} :
    {E : Type ℓ} {A : Type κ} {B : Type μ} (name : Text) (first : Disk × Result E A)
    (next : A → Io E B) (was : Option Node)
    → held name first.0 ≡ was
    → ((a : A) → Leaves name (next a))
    → held name (and_then first next).0 ≡ was
and_then-held name (d, err e) next was h k = h
and_then-held name (d, ok a) next was h k = (k a).same d ∙ h

pub >>=-Leaves {ℓ κ μ} :
    {E : Type ℓ} {A : Type κ} {B : Type μ} (name : Text) (first : Io E A) (next : A → Io E B)
    → Leaves name first
    → ((a : A) → Leaves name (next a))
    → Leaves name (first >>= next)
>>=-Leaves name first next h k = record {
  same = λ d. and_then-held name (first d) next _ (h.same d) k;
}

pub >>-Leaves {ℓ κ μ} :
    {E : Type ℓ} {A : Type κ} {B : Type μ} (name : Text) (first : Io E A) (next : Io E B)
    → Leaves name first
    → Leaves name next
    → Leaves name (first >> next)
>>-Leaves name first next h k = record {
  same = λ d. and_then-held name (first d) (λ _. next) _ (h.same d) (λ _. k);
}

pub map_err-Leaves {ℓ κ μ} :
    {E : Type ℓ} {F : Type κ} {A : Type μ} (name : Text) (f : E → F) (call : Io E A)
    → Leaves name call
    → Leaves name (map_err f call)
map_err-Leaves name f call h = record { same = h.same }

module _ (os : Os) where
  touch-held :
      (name at : Text) (call : Call) → (d : Disk) → held name (touch os call at d).0 ≡ held name d
  unfolding touch
  touch-held name at call d = ground arith

  pub touch-Leaves : (name at : Text) (call : Call) → Leaves name (touch os call at)
  touch-Leaves name at call = record { same = touch-held name at call }

  remove_file-held :
      (name at : Text)
      → text_eq name at ≡ false
      → (d : Disk) → held name (remove_file os at d).0 ≡ held name d
  unfolding remove_file held
  remove_file-held name at h d = ground (arith, get-remove at name d)

  pub remove_file-Leaves :
      (name at : Text) → text_eq name at ≡ false → Leaves name (remove_file os at)
  remove_file-Leaves name at h = record { same = remove_file-held name at h }

  remove_dir-held : (name at : Text) → (d : Disk) → held name (remove_dir os at d).0 ≡ held name d
  unfolding remove_dir held
  remove_dir-held name at d = ground (arith, get-remove at name d, text_eq_iff name at)

  pub remove_dir-Leaves : (name at : Text) → Leaves name (remove_dir os at)
  remove_dir-Leaves name at = record { same = remove_dir-held name at }

  create_dir-held : (name at : Text) → (d : Disk) → held name (create_dir os at d).0 ≡ held name d
  unfolding create_dir held
  create_dir-held name at d = ground (arith, get-insert at name dir d, text_eq_iff name at)

  pub create_dir-Leaves : (name at : Text) → Leaves name (create_dir os at)
  create_dir-Leaves name at = record { same = create_dir-held name at }

  create_missing-held :
      (name at : Text) → (d : Disk) → held name (create_missing os at d).0 ≡ held name d
  create_missing-held name at d = ground (arith, create_dir-held name at d)

  create_missing-Leaves : (name at : Text) → Leaves name (create_missing os at)
  create_missing-Leaves name at = record { same = create_missing-held name at }

  pub create_dir_all-Leaves :
      (name : Text) (names : List Text) → Leaves name (create_dir_all os names)
  unfolding create_dir_all
  create_dir_all-Leaves name [] = pure-Leaves name (ok tt)
  create_dir_all-Leaves name (at ∷ names) =
      >>-Leaves name (create_missing os at) (create_dir_all os names)
        (create_missing-Leaves name at) (create_dir_all-Leaves name names)

  rename-held :
      (name at contents : Text)
      → text_eq name at ≡ false
      → (d : Disk) → held name (rename os contents at d).0 ≡ held name d
  unfolding rename held
  rename-held name at contents h d = ground (arith, get-insert at name (file contents) d)

  pub rename-Leaves :
      (name at contents : Text) → text_eq name at ≡ false → Leaves name (rename os contents at)
  rename-Leaves name at contents h = record { same = rename-held name at contents h }
