-- ===== src/WorkingCopy/Scan.antt =====
-- Scanning the folder of a Working copy (cli/src/working_copy/scan.rs). The matcher of the `ignore`
-- crate is a parameter, asked by the name in the folder.
use tidings.WorkingCopy.Differences.{Scan}
use tidings.Base.Digits.{decimal}
pub mod Depth
use Prim.Native.Nat.{Ordering}
use tidings.Base.Tests.{
  ℕ, zero, suc, ◌+◌, Bool, true, false, not, ◌&&◌, ◌||◌, Option, none, some, List, [], ◌∷◌, ◌++◌,
  is_some, ◌==◌, leb, if◌then◌else◌,
}
use tidings.Base.Lists.{all}
use tidings.Base.Results.{Result, ok, err, ◌>>=◌}
use tidings.Base.Lines.{lines}
use tidings.Base.Text.{Text, slash, codes, cmp, contains, split, text_eq, starts_with, strip_prefix}
use tidings.Base.BTreeMap.{BTreeMap, get, insert, keys}
use tidings.Error.{InvalidPathReason}
use tidings.Paths.{refusal}
use tidings.Disk.{
  Node, file, not_text, symlink, special, dir, Disk, ErrorKind, not_found, invalid_data, IoError,
  map_error, symlink_metadata, read_to_string, read_dir, read_entry, file_type,
}
use tidings.WorkingCopy.Record.{Base, Record, base_holds}
use tidings.WorkingCopy.Reports.{record_directory, ignore_file, join, LocalName, Unfit, LocalChange}
use tidings.WorkingCopy.Failures.{Failure, failure, reason_text}
use tidings.WorkingCopy.Folder.{Env, failed_at}
use tidings.WorkingCopy.Theirs.{depth}

-- `Gitignore` of the `ignore` crate, and its builder.
pub record Gitignore (G : Type 0) : Type 0 where
  pub empty : G
  pub add_line : G → Text → Result Text G
  pub build : G → Result Text G
  -- whether a name is left out, given whether it is a directory
  pub is_ignore : G → Text → Bool → Bool

-- `sort_by`, of what has a name; `insert_by_name` puts one in its place.
unfoldable pub insert_by_name {ℓ} : {A : Type ℓ} → (A → Text) → A → List A → List A
insert_by_name name x [] = x ∷ []
insert_by_name name x (y ∷ ys) =
    let rest = y ∷ insert_by_name name x ys in
    elim (cmp (name x) (name y)) [ Ordering.gt ↦ rest | _ ↦ x ∷ y ∷ ys ]

unfoldable pub sort_by_name {ℓ} : {A : Type ℓ} → (A → Text) → List A → List A
unfolding insert_by_name
sort_by_name name [] = []
sort_by_name name (x ∷ xs) = insert_by_name name x (sort_by_name name xs)

-- `str::eq_ignore_ascii_case`.
abbrev pub to_ascii_lowercase : ℕ → ℕ
to_ascii_lowercase c = if leb b'A' c && leb c b'Z' then c + 32 else c

unfoldable pub eq_ignore_ascii_case : Text → Text → Bool
eq_ignore_ascii_case [] [] = true
eq_ignore_ascii_case (a ∷ s) (b ∷ t) =
    to_ascii_lowercase a == to_ascii_lowercase b && eq_ignore_ascii_case s t
eq_ignore_ascii_case _ _ = false

abbrev pub first_part : List Text → Text
first_part [] = []
first_part (part ∷ _) = part

-- `AsPath`.
pub data AsPath : Type 0 where
  valid : Text → AsPath
  not_utf8 : AsPath
  invalid : InvalidPathReason → AsPath

module _ (env : Env) where
  open env use {crates, os, is_utf8}

  -- `is_record_directory`.
  unfoldable pub is_record_directory : Text → Bool
  is_record_directory name = is_utf8 name && eq_ignore_ascii_case name record_directory

  -- `LocalName::of`.
  unfoldable pub local_name : Text → Option LocalName
  unfolding is_record_directory
  local_name relative =
      if is_record_directory (first_part (split slash relative)) then none else some relative

  -- `as_path`.
  unfoldable pub as_path : LocalName → AsPath
  as_path name = if not (is_utf8 name) then AsPath.not_utf8 else elim (refusal crates name) [
    | none ↦ AsPath.valid name
    | some reason ↦ AsPath.invalid reason
  ]

  abbrev with_unfit : Scan → LocalName → Text → Scan
  with_unfit scan name why = record scan {
    invalid = scan.invalid ++ (record { name = name; reason = why } ∷ []);
  }

  abbrev scanned_text : Scan → LocalName → Text → Result IoError Text → Result Failure Scan
  scanned_text scan name path (ok contents) =
      ok (record scan { files = insert path contents scan.files })
  scanned_text scan name path (err e) = elim e.kind [
    | invalid_data ↦ ok (with_unfit scan name (codes "isn't UTF-8 text"))
    | _ ↦ err (failed_at env path e)
  ]

  abbrev scanned_type : Scan → LocalName → Text → Disk → Node → Result Failure Scan
  scanned_type scan name path d symlink = ok (with_unfit scan name (codes "is a symlink"))
  scanned_type scan name path d special = ok (with_unfit scan name (codes "isn't a regular file"))
  scanned_type scan name path d dir = ok (with_unfit scan name (codes "isn't a regular file"))
  scanned_type scan name path d (file _) = scanned_text scan name path (read_to_string os d path)
  scanned_type scan name path d not_text = scanned_text scan name path (read_to_string os d path)

  abbrev has_base : BTreeMap Base → AsPath → Bool
  has_base bases (AsPath.valid path) = is_some (get path bases)
  has_base bases AsPath.not_utf8 = false
  has_base bases (AsPath.invalid _) = false

  abbrev scanned_as : Scan → LocalName → Disk → Node → AsPath → Result Failure Scan
  scanned_as scan name d type AsPath.not_utf8 =
      ok (with_unfit scan name (codes "has a name that isn't UTF-8"))
  scanned_as scan name d type (AsPath.invalid reason) =
      ok (with_unfit scan name (codes "isn't a valid Path: " ++ reason_text reason))
  scanned_as scan name d type (AsPath.valid path) = scanned_type scan name path d type

  -- `Scanner::scan_file`.
  unfoldable pub scan_file : Disk → LocalName → Node → Bool → Scan → Result Failure Scan
  unfolding as_path
  scan_file d name type ignored scan =
      let as_path = as_path name in
      if ignored && not (has_base scan.bases as_path)
      then ok (record scan { ignored = scan.ignored ++ (name ∷ []) })
      else scanned_as scan name d type as_path

  module _ {G : Type 0} (gitignore : Gitignore G) where
    -- `read_ignore_file`, once its text is there. The loop over its lines, numbered.
    unfoldable pub add_lines : Text → ℕ → G → List Text → Result Failure G
    add_lines shown number g [] = elim (gitignore.build g) [
      | err e ↦ err (failure (shown ++ (codes ": " ++ e)))
      | ok built ↦ ok built
    ]
    add_lines shown number g (line ∷ more) = elim (gitignore.add_line g line) [
      | err e ↦ err (failure (shown ++ (codes ":" ++ (decimal number ++ (codes ": " ++ e)))))
      | ok h ↦ add_lines shown (suc number) h more
    ]

    -- The name of the ignore file in the folder, and as it is shown.
    abbrev at_ignore : Text
    at_ignore = join record_directory ignore_file

    abbrev refuse_ignore : Text → Failure
    refuse_ignore why = failure (join env.folder at_ignore ++ why)

    -- A byte order mark at the start is skipped.
    abbrev without_mark : Text → Text
    without_mark text = elim (strip_prefix (0xFEFF ∷ []) text) [ none ↦ text | some rest ↦ rest ]

    -- The text of the ignore file. The message leaves out the number of a line that isn't UTF-8.
    abbrev ignore_text : Result IoError Text → Result Failure G
    ignore_text (ok text) =
        add_lines (join env.folder at_ignore) 1 gitignore.empty (lines (without_mark text))
    ignore_text (err e) = elim e.kind [
      | invalid_data ↦
          err (refuse_ignore (codes ": isn't UTF-8 text: save the ignore file as UTF-8"))
      | _ ↦ err (failed_at env at_ignore e)
    ]

    abbrev ignore_found : Disk → Result IoError Node → Result Failure G
    ignore_found d (ok (file _)) = ignore_text (read_to_string os d at_ignore)
    ignore_found d (ok not_text) = ignore_text (read_to_string os d at_ignore)
    ignore_found d (ok symlink) =
        err (refuse_ignore (codes ": is a symlink, which isn't followed: make it a regular file"))
    ignore_found d (ok special) = err (refuse_ignore (codes ": isn't a regular file"))
    ignore_found d (ok dir) = err (refuse_ignore (codes ": isn't a regular file"))
    ignore_found d (err e) = elim e.kind [
      | not_found ↦ ok gitignore.empty
      | _ ↦ err (failed_at env at_ignore e)
    ]

    -- `read_ignore_file`.
    unfoldable pub read_ignore_file : Disk → Result Failure G
    unfolding add_lines
    read_ignore_file d = ignore_found d (symlink_metadata os d at_ignore)

    -- What is done with an entry that has a name in the Store, by its type.
    abbrev pub scan_typed :
        (Text → Bool → Scan → Result Failure Scan)
        → G
        → Disk
        → Text
        → LocalName
        → Bool
        → Scan
        → Result IoError Node
        → Result Failure Scan
    scan_typed inner g d at name ignored scan (err e) = err (failed_at env at e)
    scan_typed inner g d at name ignored scan (ok dir) =
        inner name (ignored || gitignore.is_ignore g name true) scan
    scan_typed inner g d at name ignored scan (ok (file contents)) =
        scan_file d name (file contents) (ignored || gitignore.is_ignore g name false) scan
    scan_typed inner g d at name ignored scan (ok not_text) =
        scan_file d name not_text (ignored || gitignore.is_ignore g name false) scan
    scan_typed inner g d at name ignored scan (ok symlink) =
        scan_file d name symlink (ignored || gitignore.is_ignore g name false) scan
    scan_typed inner g d at name ignored scan (ok special) =
        scan_file d name special (ignored || gitignore.is_ignore g name false) scan

    -- One round of the loop of `scan_directory`.
    abbrev pub scan_entry :
        (Text → Bool → Scan → Result Failure Scan)
        → G
        → Disk
        → Text
        → Bool
        → Text
        → Scan
        → Result Failure Scan
    scan_entry inner g d at ignored child scan = elim (read_entry os d child) [
      | err e ↦ err (failed_at env at e)
      | ok _ ↦ elim (local_name child) [
        | none ↦ ok scan
        | some name ↦ scan_typed inner g d at name ignored scan (file_type os d child)
      ]
    ]

    unfoldable pub scan_entries :
        (Text → Bool → Scan → Result Failure Scan)
        → G
        → Disk
        → Text
        → Bool
        → List Text
        → Scan
        → Result Failure Scan
    unfolding scan_file local_name
    scan_entries inner g d at ignored [] scan = ok scan
    scan_entries inner g d at ignored (child ∷ children) scan =
        scan_entry inner g d at ignored child scan >>= λ next.
        scan_entries inner g d at ignored children next

    -- What is done with a directory once its entries are asked for.
    abbrev pub scan_listed :
        (Text → Bool → Scan → Result Failure Scan)
        → G
        → Disk
        → Text
        → Bool
        → Scan
        → Result IoError (List Text)
        → Result Failure Scan
    scan_listed inner g d at ignored scan (err e) = err (failed_at env at e)
    scan_listed inner g d at ignored scan (ok children) =
        scan_entries inner g d at ignored children scan

    -- `Scanner::scan_directory`, with fuel for each level of directories.
    unfoldable pub scan_directory : ℕ → G → Disk → Text → Bool → Scan → Result Failure Scan
    unfolding scan_entries
    scan_directory zero g d at ignored scan = ok scan
    scan_directory (suc fuel) g d at ignored scan =
        scan_listed (scan_directory fuel g d) g d at ignored scan (read_dir os d at)

    abbrev sorted_scan : Scan → Scan
    sorted_scan scan = record scan {
      invalid = sort_by_name (λ (unfit : Unfit). unfit.name) scan.invalid;
      ignored = sort_by_name (λ (name : LocalName). name) scan.ignored;
    }

    -- `scan`.
    unfoldable pub scan : Disk → BTreeMap Base → Result Failure Scan
    unfolding scan_directory read_ignore_file sort_by_name
    scan d bases = read_ignore_file d >>= λ g.
        scan_directory (suc (depth (keys d))) g d [] false
          (record { bases = bases; files = []; invalid = []; ignored = [] })
        >>= λ found. ok (sorted_scan found)
