-- ===== src/WorkingCopy/Record/Bases.antt =====
-- The lines of the Bases are read back (cli/src/working_copy/record.rs).
use tidings.Base.Tests.{
  ℕ, ◌^◌, ◌<◌, ◌≡◌, refl, ◌∙◌, none, [], ◌∷◌, ◌++◌, append_assoc, append-nil, arith,
}
use tidings.Base.Results.{ok}
use tidings.Base.Text.{Text, codes, text_eq}
use tidings.Base.Lines.{lines}
use tidings.Base.BTreeMap.{BTreeMap, insert}
use tidings.Base.BTreeMap.Sorted.{IsSorted, insert-last}
use tidings.Crates.{Crates}
use tidings.Paths.{refusal}
use tidings.Revisions.{to_string}
use tidings.Revisions.Digits.{from_str-to_string, from_hash}
use tidings.WorkingCopy.Record.{Base, hash_text, parse_hash, parse_base, base_lines}
use tidings.WorkingCopy.Record.Parse.{parse_path, parse_kind, parse_fields, parse_lines, Read}
use tidings.WorkingCopy.Record.Fields.{parse_lines-line}

-- A Revision and a hash are `u128`s.
abbrev pub BaseFits : Base → Type 0
BaseFits b = (b.revision < 2 ^ 128) × (b.hash < 2 ^ 128)

abbrev pub BasesFit : BTreeMap Base → Type 0
BasesFit [] = Unit {0}
BasesFit ((path, b) ∷ m) = BaseFits b × BasesFit m

parse_hash-hash_text : (h : ℕ) → h < 2 ^ 128 → parse_hash (hash_text h) ≡ ok h
unfolding parse_hash hash_text
parse_hash-hash_text h small = let read = from_hash h small in ground arith

pub parse_base-text :
    (b : Base) → BaseFits b → parse_base (to_string b.revision) (hash_text b.hash) ≡ ok b
unfolding parse_base
parse_base-text b (r, h) =
    let revision = from_str-to_string b.revision r in
    let hash = parse_hash-hash_text b.hash h in ground arith

module _ (c : Crates) where
  -- The Paths of a map are valid and in order.
  abbrev pub KeysValid {ℓ} : {V : Type ℓ} → BTreeMap V → Type 0
  KeysValid [] = Unit {0}
  KeysValid ((path, v) ∷ m) = (refusal c path ≡ none) × KeysValid m

  pub parse_path-ok : (path : Text) → refusal c path ≡ none → parse_path c path ≡ ok path
  unfolding parse_path
  parse_path-ok path h = ground arith

  base_fields :
      (path : Text) (b : Base) (r : Read)
      → refusal c path ≡ none
      → BaseFits b
      → parse_fields c (codes "base" ∷ path ∷ to_string b.revision ∷ hash_text b.hash ∷ []) r
        ≡ ok (record r { bases = insert path b r.bases })
  unfolding parse_fields parse_kind text_eq
  base_fields path b r valid fits = rw (parse_path-ok path valid, parse_base-text b fits) refl

  pub parse_lines-base_lines :
      (m : BTreeMap Base) (rest : Text) (r : Read)
      → KeysValid m
      → BasesFit m
      → IsSorted (r.bases ++ m)
      → parse_lines c (lines (base_lines m ++ rest)) r
        ≡ parse_lines c (lines rest) (record r { bases = r.bases ++ m })
  unfolding base_lines
  parse_lines-base_lines [] rest r v f s = rw append-nil refl
  parse_lines-base_lines ((path, b) ∷ m) rest r (valid, v) (fits, f) s =
      let at_end = insert-last path b r.bases m s in
      rw append_assoc (
        parse_lines-line c (codes "base") _ (base_lines m ++ rest) r
        ∙ rw (base_fields path b r valid fits, at_end)
            (parse_lines-base_lines m rest (record r { bases = r.bases ++ ((path, b) ∷ []) }) v f
                (rw append_assoc s)
              ∙ rw append_assoc refl))
