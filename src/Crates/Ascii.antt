-- ===== src/Crates/Ascii.antt =====
-- An instance of the other crates' functions, on which the theorems are tried: letter case of
-- ASCII alone, names of at most 255 bytes, and a small hash.
use tidings.Base.Tests.{
  ℕ, ◌+◌, ◌-◌, ◌*◌, ◌%◌, ◌^◌, ◌<◌, ◌≡◌, refl, true, false, ◌&&◌, List, [], ◌∷◌, ◌++◌, map, arith,
  ltb, leb, ◌==◌, if◌then◌else◌,
}
use tidings.Base.Lists.{all}
use tidings.Base.Text.{Text, slash, split, len}
use tidings.Crates.{Crates, components_of, KeepsSlashes, CratesLaws}

abbrev upper : ℕ → ℕ
upper c = if leb b'a' c && leb c b'z' then c - 32 else c

abbrev lower : ℕ → ℕ
lower c = if leb b'A' c && leb c b'Z' then c + 32 else c

abbrev checksum : List ℕ → ℕ
checksum [] = 1
checksum (b ∷ bs) = (b + 257 * checksum bs) % 2 ^ 128

abbrev pub ascii : Crates
ascii = record {
  components = λ path. components_of (split slash path);
  is_sanitized = λ name. leb (len name) 255;
  is_nfc = λ path. all (λ c. ltb c 128) path;
  nfd = λ t. t;
  to_uppercase = map upper;
  default_case_fold = map lower;
  xxh3_128 = checksum;
}

map-KeepsSlashes :
    (f : ℕ → ℕ) → f slash ≡ slash → ((x : ℕ) → (x == slash) ≡ (f x == slash)) → KeepsSlashes (map f)
map-KeepsSlashes f at_slash same = record { at_slash = at; no_slash = no_slash }
  where
    at : (a b : Text) → map f (a ++ (slash ∷ b)) ≡ map f a ++ (slash ∷ map f b)
    at [] b = ground arith
    at (x ∷ a) b = ground (arith, at a b)

    no_slash :
        (a : Text)
        → all (λ c. if c == slash then false else true) a ≡ true
        → all (λ c. if c == slash then false else true) (map f a) ≡ true
    no_slash [] h = refl
    no_slash (x ∷ a) h = ground (arith, same x, no_slash a)

checksum_fits : (bytes : List ℕ) → checksum bytes < 2 ^ 128
checksum_fits [] = omega arith
checksum_fits (b ∷ bs) = omega arith

pub ascii-CratesLaws : CratesLaws ascii
ascii-CratesLaws = record {
  components_lem = λ path. refl;
  nfd_slashes = record { at_slash = λ a b. refl; no_slash = λ a h. h };
  to_uppercase_slashes = map-KeepsSlashes upper refl (λ x. ground arith);
  default_case_fold_slashes = map-KeepsSlashes lower refl (λ x. ground arith);
  xxh3_128_fits = checksum_fits;
}
