-- ===== src/Crates.antt =====
-- The functions that the source takes from other crates, and what it relies on in them. The
-- Unicode tables of the standard library (`str::to_uppercase`) stand here too. `Ascii` is an
-- instance for tests.
pub mod Ascii
use tidings.Base.Tests.{
  ℕ, ◌^◌, ◌<◌, ◌≡◌, Bool, true, false, List, [], ◌∷◌, ◌++◌, ◌==◌, if◌then◌else◌,
}
use tidings.Base.Lists.{all}
use tidings.Base.Text.{Text, slash, codes, split, text_eq}

-- `relative_path::Component`.
pub data Component : Type 0 where
  cur_dir parent_dir : Component
  normal : Text → Component

pub record Crates : Type 0 where
  -- `RelativePath::components`
  pub components : Text → List Component
  -- `sanitize_filename::is_sanitized_with_options`, with Windows' rules and truncation
  pub is_sanitized : Text → Bool
  -- `unicode_normalization::is_nfc`, `nfd`
  pub is_nfc : Text → Bool
  pub nfd : Text → Text
  -- `str::to_uppercase`, `Caseless::default_case_fold`
  pub to_uppercase : Text → Text
  pub default_case_fold : Text → Text
  -- `xxh3_128`, of bytes
  pub xxh3_128 : List ℕ → ℕ

-- A component for each segment that is not empty, as `relative_path` documents.
abbrev pub components_of : List Text → List Component
components_of [] = []
components_of ([] ∷ ss) = components_of ss
components_of ((x ∷ xs) ∷ ss) =
    (if text_eq (x ∷ xs) (codes ".")
      then cur_dir
      else if text_eq (x ∷ xs) (codes "..")
      then parent_dir
      else normal (x ∷ xs))
    ∷ components_of ss

-- A letter-case operation works on each side of a `/` and leaves the `/`.
pub record KeepsSlashes (f : Text → Text) : Type 0 where
  pub at_slash : (a b : Text) → f (a ++ (slash ∷ b)) ≡ f a ++ (slash ∷ f b)
  pub no_slash :
      (a : Text)
      → all (λ c. if c == slash then false else true) a ≡ true
      → all (λ c. if c == slash then false else true) (f a) ≡ true

pub record CratesLaws (c : Crates) : Type 0 where
  pub components_lem : (path : Text) → c.components path ≡ components_of (split slash path)
  pub nfd_slashes : KeepsSlashes c.nfd
  pub to_uppercase_slashes : KeepsSlashes c.to_uppercase
  pub default_case_fold_slashes : KeepsSlashes c.default_case_fold
  pub xxh3_128_fits : (bytes : List ℕ) → c.xxh3_128 bytes < 2 ^ 128
