-- ===== src/WorkingCopy/Record/RoundTrip.antt =====
-- A record is read back from its text (cli/src/working_copy/record.rs).
use tidings.Base.Tests.{◌≡◌, ◌≢◌, refl, ◌∙◌, some, [], ◌∷◌, ◌++◌}
use tidings.Base.Results.{ok}
use tidings.Base.Text.{Text, codes, text_eq}
use tidings.Base.Lines.{newline, lines, lines-line}
use tidings.Base.BTreeMap.Sorted.{IsSorted}
use tidings.Crates.{Crates}
use tidings.WorkingCopy.Record.{
  BackendName, fs, sqlite, memory, Record, format, line, base_lines, diverged_lines, to_text,
  parse_backend, parse_value, backend_text,
}
use tidings.WorkingCopy.Record.Parse.{
  parse, parse_first, parse_after_format, parse_lines, parse_fields, parse_kind, nothing_read, Read,
  finish,
}
use tidings.WorkingCopy.Record.Fields.{parse_lines-line}
use tidings.WorkingCopy.Record.Bases.{KeysValid, BasesFit, parse_lines-base_lines}
use tidings.WorkingCopy.Record.Diverged.{DivergencesFit, parse_lines-diverged_lines}

module _ (c : Crates) where
  -- The maps are in order of Path, their Paths are valid, their Revisions and hashes are 128 bits,
  -- and the Store is not in memory.
  pub record IsValid (r : Record) : Type 0 where
    pub not_memory : r.store.backend ≢ memory
    pub bases_sorted : IsSorted r.bases
    pub bases_valid : KeysValid c r.bases
    pub bases_fit : BasesFit r.bases
    pub divergences_sorted : IsSorted r.divergences
    pub divergences_valid : KeysValid c r.divergences
    pub divergences_fit : DivergencesFit r.divergences

  store_line :
      (location rest : Text) (r : Read)
      → parse_lines c (lines (line (codes "store" ∷ location ∷ []) ++ rest)) r
        ≡ parse_lines c (lines rest) (record r { location = some location })
  unfolding parse_fields parse_kind text_eq
  store_line location rest r = parse_lines-line c (codes "store") (location ∷ []) rest r

  parse_backend-backend_text :
      (b : BackendName) → b ≢ memory → parse_backend (backend_text b) ≡ ok b
  unfolding parse_backend parse_value backend_text text_eq
  parse_backend-backend_text fs h = refl
  parse_backend-backend_text sqlite h = refl
  parse_backend-backend_text memory h = absurd (h refl)

  backend_line :
      (b : BackendName) (rest : Text) (r : Read)
      → b ≢ memory
      → parse_lines c (lines (line (codes "backend" ∷ backend_text b ∷ []) ++ rest)) r
        ≡ parse_lines c (lines rest) (record r { backend = some b })
  unfolding parse_fields parse_kind text_eq
  backend_line b rest r h =
      parse_lines-line c (codes "backend") (backend_text b ∷ []) rest r
      ∙ rw (parse_backend-backend_text b h) refl

  parse_first-format :
      (rest : Text) → parse c (format ++ (newline ∷ rest)) ≡ parse_after_format c (lines rest)
  unfolding parse parse_first text_eq
  parse_first-format rest = rw (lines-line format rest refl) refl

  -- Every valid record is read back from its text.
  pub parse-to_text : (r : Record) → IsValid r → parse c (to_text r) ≡ ok r
  unfolding to_text parse_after_format finish
  parse-to_text r v =
      let started : Read = record nothing_read { location = some r.store.location } in
      let addressed : Read = record started { backend = some r.store.backend } in
      let based : Read = record addressed { bases = r.bases } in
      let rest = base_lines r.bases ++ diverged_lines r.divergences in
      parse_first-format _
      ∙ rw
          (
            store_line r.store.location
                (line (codes "backend" ∷ backend_text r.store.backend ∷ []) ++ rest) nothing_read,
            backend_line r.store.backend rest started v.not_memory,
            parse_lines-base_lines c r.bases (diverged_lines r.divergences) addressed v.bases_valid
                v.bases_fit v.bases_sorted,
            parse_lines-diverged_lines c r.divergences based v.divergences_valid v.divergences_fit
                v.divergences_sorted,
          )
          refl
