-- ===== src/Base/Results.antt =====
-- `Result<T, E>`, with `?` as the bind of a `do` block.
use tidings.Base.Tests.{◌≡◌, refl, Bool, true, false}

pub data Result {ℓ κ} (E : Type ℓ) (A : Type κ) : Type (ℓ ⊔ κ) where
  ok : A → Result E A
  err : E → Result E A

-- `?` returns the error as it is.
infixl 5 ◌>>=◌
abbrev pub ◌>>=◌ {ℓ κ μ} :
    {A : Type ℓ} {B : Type κ} {E : Type μ} → Result E A → (A → Result E B) → Result E B
err error >>= next = err error
ok value >>= next = next value

infixl 5 ◌>>◌
abbrev pub ◌>>◌ {ℓ κ μ} :
    {A : Type ℓ} {B : Type κ} {E : Type μ} → Result E A → Result E B → Result E B
first >> then = first >>= (λ value. then)

-- What a chain that succeeds went through.
pub >>=-eq-ok {ℓ κ μ} :
    {A : Type ℓ} {B : Type κ} {E : Type μ} {given : B} (first : Result E A) (next : A → Result E B)
    → (first >>= next) ≡ ok given
    → (value : A) × (first ≡ ok value) × (next value ≡ ok given)
>>=-eq-ok (err error) next e = cc
>>=-eq-ok (ok value) next e = (value, refl, e)

abbrev pub is_ok {ℓ κ} : {A : Type ℓ} {E : Type κ} → Result E A → Bool
is_ok (ok value) = true
is_ok (err error) = false
