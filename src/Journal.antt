-- ===== src/Journal.antt =====
-- The journal of a filesystem Commit, as text (src/backend/fs/journal.rs). The text of an error
-- leaves out which file it is about and the text that it quotes. Finishing and discarding a Commit
-- change the disk and are not modelled.
pub mod Escapes
pub mod Hex
pub mod Items
pub mod RoundTrip
pub mod Tests
use tidings.Base.Tests.{
  ℕ, ◌*◌, Bool, true, false, not, ◌||◌, Option, none, some, List, [], ◌∷◌, ◌++◌, map, ◌==◌, ltb,
  if◌then◌else◌,
}
use tidings.Base.Lists.{all}
use tidings.Base.Results.{ok, err, ◌>>=◌}
use tidings.Base.Text.{Text, codes, split, replace, text_eq, as_bytes, len}
use tidings.Base.Lines.{newline, carriage_return, tab, lines}
use tidings.Base.Digits.{hex_pad, from_str_radix_16}
use tidings.Crates.{Crates}
use tidings.Error.{Error, backend, Outcome}
use tidings.Files.{Revision}
use tidings.Paths.{refusal}
use tidings.Revisions.{to_bytes, from_bytes}

-- `FORMAT`.
abbrev pub format : Text
format = codes "tidings journal 2"

-- A path on disk: text, or bytes that are no text.
pub data PathBuf : Type 0 where
  unicode : Text → PathBuf
  not_unicode : List ℕ → PathBuf

pub data State : Type 0 where
  prepared committed : State

pub data Target : Type 0 where
  at_path : Target
  linked : PathBuf → Target

pub record Replace : Type 0 where
  pub path : Text
  pub temporary : PathBuf
  pub target : Target

pub record Remove : Type 0 where
  pub path : Text
  pub revision : Revision

pub record Journal : Type 0 where
  pub state : State
  pub replaces : List Replace
  pub removes : List Remove

-- `Journal::prepared`, and the state that `Journal::commit` writes.
unfoldable pub new_prepared : List Replace → List Remove → Journal
new_prepared replaces removes = record { state = prepared; replaces = replaces; removes = removes }

unfoldable pub commit : Journal → Journal
commit j = record j { state = committed }

abbrev pub backslash : ℕ
backslash = 92

unfoldable pub escape : Text → Text
escape text = replace carriage_return (backslash ∷ b'r' ∷ []) (
    replace newline (backslash ∷ b'n' ∷ [])
      (replace tab (backslash ∷ b't' ∷ []) (replace backslash (backslash ∷ backslash ∷ []) text)))

-- What a character after a `\` stands for.
abbrev pub unescaped : ℕ → ℕ
unescaped c =
    if c == b't'
    then tab
    else if c == b'n'
    then newline
    else if c == b'r'
    then carriage_return
    else c

unfoldable pub unescape : Text → Text
unescape [] = []
unescape (c ∷ []) = if c == backslash then backslash ∷ [] else c ∷ []
unescape (c ∷ d ∷ t) =
    let after = unescape (d ∷ t) in
    let beyond = unescape t in if c == backslash then unescaped d ∷ beyond else c ∷ after

unfoldable pub escaped : PathBuf → Outcome Text
escaped (unicode t) = ok (escape t)
escaped (not_unicode bytes) = err (backend (codes "isn't valid Unicode, so it can't be journaled"))

unfoldable pub hex_of_bytes : List ℕ → Text
hex_of_bytes [] = []
hex_of_bytes (b ∷ bs) = hex_pad 2 b ++ hex_of_bytes bs

unfoldable pub to_hex : Revision → Text
to_hex revision = hex_of_bytes (to_bytes revision)

-- The loop over `chunks(2)`.
unfoldable pub bytes_of_hex : List ℕ → Option (List ℕ)
bytes_of_hex [] = some []
bytes_of_hex (c ∷ []) = elim (from_str_radix_16 256 (c ∷ [])) [
  | none ↦ none
  | some b ↦ some (b ∷ [])
]
bytes_of_hex (c ∷ d ∷ cs) =
    let rest = bytes_of_hex cs in
    elim (from_str_radix_16 256 (c ∷ d ∷ [])) [
      | none ↦ none
      | some b ↦ elim rest [ none ↦ none | some bs ↦ some (b ∷ bs) ]
    ]

unfoldable pub from_hex : Text → Option Revision
from_hex hex =
    if not (len hex == 2 * 16) || not (all (λ c. ltb c 128) hex)
    then none
    else elim (bytes_of_hex (as_bytes hex)) [ none ↦ none | some bs ↦ some (from_bytes bs) ]

-- `"{kind}\t{field}\t..\n"`.
abbrev pub line_of : Text → Text → List Text → Text
line_of kind field [] = kind ++ (tab ∷ (field ++ (newline ∷ [])))
line_of kind field (next ∷ fields) = kind ++ (tab ∷ line_of field next fields)

-- The match on the target, after its temporary file.
unfoldable pub target_line : Text → Text → Target → Outcome Text
target_line path from at_path = ok (line_of (codes "write") from (escape path ∷ []))
target_line path from (linked target) = do
  to ← escaped target
  ok (line_of (codes "replace") from (escape path ∷ to ∷ []))

unfoldable pub replace_line : Replace → Outcome Text
replace_line r = do from ← escaped r.temporary; target_line r.path from r.target

unfoldable pub replace_lines : List Replace → Outcome Text
replace_lines [] = ok []
replace_lines (r ∷ rs) = do one ← replace_line r; rest ← replace_lines rs; ok (one ++ rest)

unfoldable pub remove_lines : List Remove → Text
remove_lines [] = []
remove_lines (r ∷ rs) =
    line_of (codes "remove") (escape r.path) (to_hex r.revision ∷ []) ++ remove_lines rs

unfoldable pub state_name : State → Text
state_name prepared = codes "prepared"
state_name committed = codes "committed"

-- `Journal::to_text`.
unfoldable pub to_text : Journal → Outcome Text
to_text j = do
  replaced ← replace_lines j.replaces
  ok (
      format
      ++ (newline ∷ (state_name j.state ++ (newline ∷ (replaced ++ remove_lines j.removes)))))

abbrev pub unreadable : Text → Error
unreadable why = backend (codes "the journal can't be read: " ++ why)

module _ (c : Crates) where
  unfoldable pub parse_path : Text → Outcome Text
  parse_path path = elim (refusal c path) [
    | none ↦ ok path
    | some _ ↦ err (unreadable (codes "a Path is invalid"))
  ]

  abbrev not_an_item : Outcome Journal
  not_an_item = err (unreadable (codes "it isn't an item it can have"))

  -- The match on the fields of a line.
  unfoldable pub read_item : List Text → Journal → Outcome Journal
  read_item (kind ∷ a ∷ b ∷ []) j =
      if text_eq kind (codes "write")
      then (do
        path ← parse_path b
        ok (record j {
          replaces =
              j.replaces ++ (record { path = path; temporary = unicode a; target = at_path } ∷ []);
        }))
      else if text_eq kind (codes "remove")
      then elim (from_hex b) [
        | none ↦ err (unreadable (codes "it isn't a Revision it can have"))
        | some revision ↦ do
          path ← parse_path a
          ok (record j {
            removes = j.removes ++ (record { path = path; revision = revision } ∷ []);
          })
      ]
      else not_an_item
  read_item (kind ∷ a ∷ b ∷ target ∷ []) j =
      if text_eq kind (codes "replace")
      then (do
        path ← parse_path b
        ok (record j {
          replaces =
              j.replaces
              ++ (record { path = path; temporary = unicode a; target = linked (unicode target) }
                  ∷ []);
        }))
      else not_an_item
  read_item fields j = not_an_item

  unfoldable pub read_items : List Text → Journal → Outcome Journal
  read_items [] j = ok j
  read_items (line ∷ ls) j = do
    next ← read_item (map unescape (split tab line)) j
    read_items ls next

  unfoldable pub read_state : List Text → Outcome Journal
  read_state [] = err (unreadable (codes "it has no state"))
  read_state (line ∷ ls) =
      if text_eq line (codes "prepared")
      then read_items ls (new_prepared [] [])
      else if text_eq line (codes "committed")
      then read_items ls (commit (new_prepared [] []))
      else err (unreadable (codes "it has no state"))

  unfoldable pub read_lines : List Text → Outcome Journal
  read_lines [] = err (unreadable (codes "it isn't in a format this version of tidings knows"))
  read_lines (first ∷ ls) =
      if text_eq first format
      then read_state ls
      else err (unreadable (codes "it isn't in a format this version of tidings knows"))

  -- `Journal::read`, of what the file holds, if it is there.
  unfoldable pub read : Outcome (Option Text) → Outcome (Option Journal)
  read (err e) = err e
  read (ok none) = ok none
  read (ok (some text)) = do j ← read_lines (lines text); ok (some j)
