-- ===== src/Paths/Valid.antt =====
-- The rules of `refusal` (src/path.rs), against what they mean of the segments between the `/`s.
use tidings.Base.Tests.{
  ◌≤◌, ◌≡◌, refl, ◌↔◌, Bool, true, false, not, ◌&&◌, ◌||◌, none, List, [], ◌∷◌, map, arith, ◌==◌,
  Bool-cases, inl, inr,
}
use tidings.Base.Lists.{length, any, all}
use tidings.Base.Text.{Text, codes, slash, split, starts_with, text_eq}
use tidings.Crates.{Crates, CratesLaws, normal, components_of}
use tidings.Paths.{
  as_str, is_normal, is_temporary_file_name, is_portable_name, is_reserved, refusal,
}

abbrev pub is_filled : Text → Bool
is_filled s = not (text_eq s [])

abbrev pub is_no_dots : Text → Bool
is_no_dots s = not (text_eq s (codes ".")) && not (text_eq s (codes ".."))

length-components_of-le : (ss : List Text) → length (components_of ss) ≤ length ss
length-components_of-le [] = omega arith
length-components_of-le ([] ∷ ss) = omega (arith, length-components_of-le ss)
length-components_of-le ((x ∷ xs) ∷ ss) = omega (arith, length-components_of-le ss)

length-components_of :
    (ss : List Text) → (length (components_of ss) == length ss) ≡ all is_filled ss
unfolding text_eq
length-components_of [] = refl
length-components_of ([] ∷ ss) = ground (arith, length-components_of-le ss)
length-components_of ((x ∷ xs) ∷ ss) = ground (arith, length-components_of ss)

any-not-normal :
    (ss : List Text)
    → all is_filled ss ≡ true
    → any (λ k. not (is_normal k)) (components_of ss) ≡ not (all is_no_dots ss)
any-not-normal [] h = refl
any-not-normal ([] ∷ ss) h = unfold text_eq in cc
any-not-normal ((x ∷ xs) ∷ ss) h = ground (arith, any-not-normal ss)

components_of-normal :
    (ss : List Text)
    → all is_filled ss ≡ true
    → all is_no_dots ss ≡ true
    → components_of ss ≡ map normal ss
components_of-normal [] h k = refl
components_of-normal ([] ∷ ss) h k = unfold text_eq in cc
components_of-normal ((x ∷ xs) ∷ ss) h k = ground (arith, components_of-normal ss)

any-map-normal :
    (p : Text → Bool) (ss : List Text)
    → any (λ k. not (p (as_str k))) (map normal ss) ≡ not (all p ss)
any-map-normal p [] = refl
any-map-normal p (s ∷ ss) = ground (arith, any-map-normal p ss)

split-filled : (path : Text) → text_eq path [] ≡ true → all is_filled (split slash path) ≡ false
unfolding text_eq split
split-filled [] h = refl
split-filled (x ∷ xs) h = cc

split-not-slash :
    (path : Text) → starts_with (slash ∷ []) path ≡ true → all is_filled (split slash path) ≡ false
unfolding split starts_with text_eq
split-not-slash [] h = cc
split-not-slash (x ∷ xs) h = ground arith

module _ (c : Crates) where
  -- What a name may be.
  abbrev pub is_own : Text → Bool
  is_own s = not (is_reserved c s || is_temporary_file_name s)

  -- Every segment between the `/`s is a name, and the whole is in NFC form.
  abbrev pub is_valid : Text → Bool
  is_valid path =
      all is_filled (split slash path)
      && all is_no_dots (split slash path)
      && all (is_portable_name c) (split slash path)
      && all is_own (split slash path)
      && c.is_nfc path

  any-own :
      (ss : List Text)
      → any (λ k. is_reserved c (as_str k) || is_temporary_file_name (as_str k)) (map normal ss)
        ≡ not (all is_own ss)
  any-own [] = refl
  any-own (s ∷ ss) = ground (arith, any-own ss)

  module _ (laws : CratesLaws c) where
    -- A text is refused for no reason exactly when every segment between its `/`s is a name that is
    -- not empty, `.` or `..`, is portable, and is not kept by tidings, and the whole is in NFC form.
    pub refusal-is_valid : (path : Text) → (refusal c path ≡ none) ↔ (is_valid path ≡ true)
    unfolding refusal
    refusal-is_valid path =
        let ss = split slash path in
        rw (laws.components_lem path) (elim (Bool-cases (all is_filled ss)) [
          | inl filled ↦ elim (Bool-cases (all is_no_dots ss)) [
            | inl no_dots ↦ ground (
              arith,
              components_of-normal ss filled no_dots,
              length-components_of ss,
              any-not-normal ss filled,
              any-map-normal (is_portable_name c) ss,
              any-own ss,
              split-filled path,
              split-not-slash path,
            )
            | inr dots ↦ ground (
              arith,
              length-components_of ss,
              any-not-normal ss filled,
              split-filled path,
              split-not-slash path,
            )
          ]
          | inr gap ↦ ground (arith, length-components_of ss)
        ])
