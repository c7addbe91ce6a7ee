-- ===== src/WorkingCopy/Record.antt =====
-- The record of a Working copy, as text (cli/src/working_copy/record.rs). The text of an error
-- leaves out the text that it quotes. The Store's Location is a text, as `to_string_lossy` gives it.
-- Reading and writing the file are not modelled.
pub mod Parse
pub mod Fields
pub mod Bases
pub mod Diverged
pub mod RoundTrip
pub mod Tests
use tidings.Base.Tests.{
  ℕ, ◌^◌, Bool, true, false, ◌||◌, Option, none, some, List, [], ◌∷◌, ◌++◌, map, ◌==◌,
  if◌then◌else◌,
}
use tidings.Base.Results.{Result, ok, err, ◌>>=◌}
use tidings.Base.Text.{Text, codes, split, starts_with, text_eq, as_bytes}
use tidings.Base.Lines.{newline, carriage_return, tab, lines}
use tidings.Base.Fields.{joined}
use tidings.Base.Digits.{hex_pad, from_str_radix_16}
use tidings.Base.BTreeMap.{BTreeMap, insert, remove}
use tidings.Crates.{Crates}
use tidings.Files.{Revision, File}
use tidings.Paths.{refusal}
use tidings.Revisions.{to_string, from_str}

-- `FORMAT` and `FORMAT_NAME`.
abbrev pub format : Text
format = codes "tidings working-copy 1"

abbrev pub format_name : Text
format_name = codes "tidings working-copy "

-- A `u128`.
abbrev pub Hash : Type 0
Hash = ℕ

pub record Base : Type 0 where
  pub revision : Revision
  pub hash : Hash

pub record Divergence : Type 0 where
  pub theirs : Option Base

-- `BackendName` and `StoreAddress` (cli/src/location.rs).
pub data BackendName : Type 0 where
  fs sqlite memory : BackendName

pub record StoreAddress : Type 0 where
  pub location : Text
  pub backend : BackendName

pub record Record : Type 0 where
  pub store : StoreAddress
  pub bases : BTreeMap Base
  pub divergences : BTreeMap Divergence

-- What is wrong with a record.
abbrev pub Parsed {ℓ} : Type ℓ → Type ℓ
Parsed A = Result Text A

-- `Divergence::theirs_revision`.
unfoldable pub theirs_revision : Divergence → Option Revision
theirs_revision d = elim d.theirs [ none ↦ none | some theirs ↦ some theirs.revision ]

-- `Record::new`.
unfoldable pub new : StoreAddress → Record
new store = record { store = store; bases = []; divergences = [] }

unfoldable pub set_base : Record → Text → Option Base → Record
set_base r path (some base) = record r { bases = insert path base r.bases }
set_base r path none = record r { bases = remove path r.bases }

abbrev pub backslash : ℕ
backslash = 92

-- The match of `escape` on one character.
abbrev pub escape_char : ℕ → Text
escape_char c =
    if c == backslash
    then backslash ∷ backslash ∷ []
    else if c == tab
    then backslash ∷ b't' ∷ []
    else if c == newline
    then backslash ∷ b'n' ∷ []
    else if c == carriage_return
    then backslash ∷ b'r' ∷ []
    else c ∷ []

unfoldable pub escape : Text → Text
escape [] = []
escape (c ∷ field) = escape_char c ++ escape field

abbrev pub unescaped : ℕ → ℕ
unescaped c =
    if c == b't'
    then tab
    else if c == b'n'
    then newline
    else if c == b'r'
    then carriage_return
    else c

-- A `\` at the end stands for nothing.
unfoldable pub unescape : Text → Text
unescape [] = []
unescape (c ∷ []) = if c == backslash then [] else c ∷ []
unescape (c ∷ d ∷ field) =
    let after = unescape (d ∷ field) in
    let beyond = unescape field in if c == backslash then unescaped d ∷ beyond else c ∷ after

-- `Hash::to_text` and `Hash::parse`.
unfoldable pub hash_text : Hash → Text
hash_text hash = hex_pad 32 hash

unfoldable pub parse_hash : Text → Parsed Hash
parse_hash text = elim (from_str_radix_16 (2 ^ 128) (as_bytes text)) [
  | none ↦ err (codes "has a hash it can't read")
  | some hash ↦ ok hash
]

unfoldable pub parse_base : Text → Text → Parsed Base
parse_base revision hash = elim (from_str revision) [
  | none ↦ err (codes "has a Revision it can't read")
  | some r ↦ do h ← parse_hash hash; ok (record { revision = r; hash = h })
]

-- `Display for BackendName`, the name of its command-line value.
unfoldable pub backend_text : BackendName → Text
backend_text fs = codes "fs"
backend_text sqlite = codes "sqlite"
backend_text memory = codes "memory"

-- `parse_value`, and `parse_backend`, which takes no memory Backend.
unfoldable pub parse_value : Text → Parsed BackendName
parse_value name =
    if text_eq name (codes "fs")
    then ok fs
    else if text_eq name (codes "sqlite")
    then ok sqlite
    else if text_eq name (codes "memory")
    then ok memory
    else err (codes "has a name it can't read")

unfoldable pub parse_backend : Text → Parsed BackendName
parse_backend name = elim (parse_value name) [
  | err e ↦ err e
  | ok memory ↦ err (codes "has a Backend it can't read")
  | ok fs ↦ ok fs
  | ok sqlite ↦ ok sqlite
]

-- The closure `line` of `to_text`.
unfoldable pub line : List Text → Text
line [] = newline ∷ []
line (field ∷ fields) = joined (escape field) (map escape fields) ++ (newline ∷ [])

unfoldable pub base_lines : BTreeMap Base → Text
base_lines [] = []
base_lines ((path, base) ∷ bases) =
    line (codes "base" ∷ path ∷ to_string base.revision ∷ hash_text base.hash ∷ [])
    ++ base_lines bases

abbrev pub diverged_line : Text → Option Base → Text
diverged_line path none = line (codes "diverged" ∷ path ∷ [])
diverged_line path (some theirs) =
    line (codes "diverged" ∷ path ∷ to_string theirs.revision ∷ hash_text theirs.hash ∷ [])

unfoldable pub diverged_lines : BTreeMap Divergence → Text
diverged_lines [] = []
diverged_lines ((path, divergence) ∷ divergences) =
    diverged_line path divergence.theirs ++ diverged_lines divergences

-- `Record::to_text`.
unfoldable pub to_text : Record → Text
to_text r =
    format
    ++ (newline
        ∷ (line (codes "store" ∷ r.store.location ∷ [])
            ++ (line (codes "backend" ∷ backend_text r.store.backend ∷ [])
                ++ (base_lines r.bases ++ diverged_lines r.divergences))))

module _ (c : Crates) where
  -- `Hash::of`, `Base::of`, `Base::of_file` and `Base::holds`.
  unfoldable pub hash_of : Text → Hash
  hash_of contents = c.xxh3_128 (as_bytes contents)

  unfoldable pub base_of : Revision → Text → Base
  base_of revision contents = record { revision = revision; hash = hash_of contents }

  unfoldable pub base_of_file : File → Base
  base_of_file file = base_of file.stat.revision file.contents

  unfoldable pub base_holds : Base → Text → Bool
  base_holds base contents = base.hash == hash_of contents
