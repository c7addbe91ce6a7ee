-- ===== src/WorkingCopy/Record/Parse.antt =====
-- Parsing the record of a Working copy (cli/src/working_copy/record.rs, `Record::parse`).
use tidings.Base.Tests.{Bool, ◌||◌, Option, none, some, List, [], ◌∷◌, map, if◌then◌else◌}
use tidings.Base.Results.{ok, err, ◌>>=◌}
use tidings.Base.Text.{Text, codes, split, starts_with, text_eq}
use tidings.Base.Lines.{tab, lines}
use tidings.Base.BTreeMap.{BTreeMap, insert}
use tidings.Crates.{Crates}
use tidings.Paths.{refusal}
use tidings.WorkingCopy.Record.{
  format, format_name, Base, Divergence, BackendName, Record, Parsed, unescape, parse_base,
  parse_backend,
}

-- What the loop of `parse` has read.
pub record Read : Type 0 where
  pub location : Option Text
  pub backend : Option BackendName
  pub bases : BTreeMap Base
  pub divergences : BTreeMap Divergence

abbrev pub nothing_read : Read
nothing_read = record { location = none; backend = none; bases = []; divergences = [] }

-- A kind of line from before a Store was one Location.
abbrev pub is_old : Text → Bool
is_old kind =
    text_eq kind (codes "root") || text_eq kind (codes "identity") || text_eq kind (codes "area")

-- The end of `parse`.
unfoldable pub finish : Read → Parsed Record
finish r = elim r.location [
  | none ↦ err (codes "doesn't say where the Store is")
  | some location ↦ elim r.backend [
    | none ↦ err (codes "doesn't say the Backend")
    | some backend ↦ ok (record {
      store = record { location = location; backend = backend };
      bases = r.bases;
      divergences = r.divergences;
    })
  ]
]

abbrev pub cannot_read {ℓ} : {A : Type ℓ} → Parsed A
cannot_read = err (codes "has a line it can't read")

module _ (c : Crates) where
  unfoldable pub parse_path : Text → Parsed Text
  parse_path path = elim (refusal c path) [
    | none ↦ ok path
    | some reason ↦ err (codes "has an invalid Path")
  ]

  -- The match on the fields of a line, after the old kinds: no kind that follows is one of them.
  unfoldable pub parse_kind : Text → List Text → Read → Parsed Read
  parse_kind kind (a ∷ []) r =
      if text_eq kind (codes "store")
      then ok (record r { location = some a })
      else if text_eq kind (codes "backend")
      then (do backend ← parse_backend a; ok (record r { backend = some backend }))
      else if text_eq kind (codes "diverged")
      then (do
        path ← parse_path a
        ok (record r { divergences = insert path (record { theirs = none }) r.divergences }))
      else cannot_read
  parse_kind kind (path ∷ revision ∷ hash ∷ []) r =
      if text_eq kind (codes "base")
      then (do
        valid ← parse_path path
        base ← parse_base revision hash
        ok (record r { bases = insert valid base r.bases }))
      else if text_eq kind (codes "diverged")
      then (do
        theirs ← parse_base revision hash
        valid ← parse_path path
        ok (record r {
          divergences = insert valid (record { theirs = some theirs }) r.divergences;
        }))
      else cannot_read
  parse_kind kind fields r = cannot_read

  unfoldable pub parse_fields : List Text → Read → Parsed Read
  parse_fields [] r = cannot_read
  parse_fields (kind ∷ fields) r =
      if is_old kind
      then err (codes "is in a format this version doesn't know")
      else parse_kind kind fields r

  unfoldable pub parse_lines : List Text → Read → Parsed Read
  parse_lines [] r = ok r
  parse_lines (l ∷ ls) r = do
    next ← parse_fields (map unescape (split tab l)) r
    parse_lines ls next

  unfoldable pub parse_after_format : List Text → Parsed Record
  parse_after_format ls = do r ← parse_lines ls nothing_read; finish r

  unfoldable pub parse_first : List Text → Parsed Record
  parse_first [] = err (codes "is not a Working copy's record")
  parse_first (first ∷ ls) =
      if text_eq first format
      then parse_after_format ls
      else if starts_with format_name first
      then err (codes "is in a format this version doesn't know")
      else err (codes "is not a Working copy's record")

  -- `Record::parse`.
  unfoldable pub parse : Text → Parsed Record
  parse text = parse_first (lines text)
