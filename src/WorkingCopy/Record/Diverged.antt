-- ===== src/WorkingCopy/Record/Diverged.antt =====
-- The lines of the divergences are read back (cli/src/working_copy/record.rs).
use tidings.Base.Tests.{◌≡◌, refl, ◌∙◌, Option, none, some, [], ◌∷◌, ◌++◌, append_assoc, append-nil}
use tidings.Base.Results.{ok}
use tidings.Base.Text.{Text, codes, text_eq}
use tidings.Base.Lines.{lines}
use tidings.Base.BTreeMap.{BTreeMap, insert}
use tidings.Base.BTreeMap.Sorted.{IsSorted, insert-last}
use tidings.Crates.{Crates}
use tidings.Paths.{refusal}
use tidings.Revisions.{to_string}
use tidings.WorkingCopy.Record.{Base, Divergence, hash_text, diverged_line, diverged_lines}
use tidings.WorkingCopy.Record.Parse.{parse_kind, parse_fields, parse_lines, Read}
use tidings.WorkingCopy.Record.Fields.{parse_lines-line}
use tidings.WorkingCopy.Record.Bases.{BaseFits, KeysValid, parse_base-text, parse_path-ok}

abbrev pub TheirsFit : Option Base → Type 0
TheirsFit none = Unit {0}
TheirsFit (some b) = BaseFits b

abbrev pub DivergencesFit : BTreeMap Divergence → Type 0
DivergencesFit [] = Unit {0}
DivergencesFit ((path, d) ∷ m) = TheirsFit d.theirs × DivergencesFit m

module _ (c : Crates) where
  without_file :
      (path : Text) (r : Read)
      → refusal c path ≡ none
      → parse_fields c (codes "diverged" ∷ path ∷ []) r
        ≡ ok (record r { divergences = insert path (record { theirs = none }) r.divergences })
  unfolding parse_fields parse_kind text_eq
  without_file path r valid = rw (parse_path-ok c path valid) refl

  with_file :
      (path : Text) (b : Base) (r : Read)
      → refusal c path ≡ none
      → BaseFits b
      → parse_fields c (codes "diverged" ∷ path ∷ to_string b.revision ∷ hash_text b.hash ∷ []) r
        ≡ ok (record r { divergences = insert path (record { theirs = some b }) r.divergences })
  unfolding parse_fields parse_kind text_eq
  with_file path b r valid fits = rw (parse_base-text b fits, parse_path-ok c path valid) refl

  parse_diverged_line :
      (path : Text) (theirs : Option Base) (rest : Text) (r : Read)
      → refusal c path ≡ none
      → TheirsFit theirs
      → parse_lines c (lines (diverged_line path theirs ++ rest)) r
        ≡ parse_lines c
            (lines rest)
            (record r { divergences = insert path (record { theirs = theirs }) r.divergences })
  parse_diverged_line path none rest r valid fits =
      parse_lines-line c (codes "diverged") _ rest r ∙ rw (without_file path r valid) refl
  parse_diverged_line path (some b) rest r valid fits =
      parse_lines-line c (codes "diverged") _ rest r ∙ rw (with_file path b r valid fits) refl

  pub parse_lines-diverged_lines :
      (m : BTreeMap Divergence) (r : Read)
      → KeysValid c m
      → DivergencesFit m
      → IsSorted (r.divergences ++ m)
      → parse_lines c (lines (diverged_lines m)) r
        ≡ ok (record r { divergences = r.divergences ++ m })
  unfolding diverged_lines
  parse_lines-diverged_lines [] r v f s = unfold lines parse_lines in rw append-nil refl
  parse_lines-diverged_lines ((path, d) ∷ m) r (valid, v) (fits, f) s =
      let at_end = insert-last path d r.divergences m s in
      parse_diverged_line path d.theirs (diverged_lines m) r valid fits
      ∙ rw at_end (
          parse_lines-diverged_lines m
            (record r { divergences = r.divergences ++ ((path, d) ∷ []) }) v f (rw append_assoc s)
          ∙ rw append_assoc refl)
