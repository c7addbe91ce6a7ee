-- ===== src/WorkingCopy/Failures.antt =====
-- How a command fails, and with which exit code (cli/src/failure.rs). `Display` for `Error`
-- (src/error.rs) and `InvalidPathReason` (src/path.rs) stand here, as only a `Failure` takes them.
-- `debug` is `Debug` of a `str`.
use tidings.Base.Tests.{ℕ, Option, none, some, List, [], ◌∷◌, ◌++◌}
use tidings.Base.Text.{Text, codes}
use tidings.Error.{
  InvalidPathReason, empty, not_relative, empty_segment, dot_segment, unportable_name, not_nfc,
  reserved, no_trailing_slash, letter_case_clash, file_under_file, same_file, directory_link,
  nested, BackendKind, fs, sqlite, Error, invalid_path, not_text, pending, wrong_backend,
  nested_location, wrong_prefix_revision, unsupported, backend, panicked,
}
use tidings.Disk.{IoError}
use tidings.WorkingCopy.Reports.{DivergedPath, Reconciled, Unfit, Blocked}

pub data FailureKind : Type 0 where
  error missing conflict : FailureKind

pub data Outcomes : Type 0 where
  diverged : List DivergedPath → Outcomes
  conflict : List Reconciled → Outcomes
  invalid : List Unfit → Outcomes
  blocked : List (Text × Blocked) → Outcomes

pub record Failure : Type 0 where
  pub kind : FailureKind
  pub message : Text
  pub outcomes : Option Outcomes

-- `Failure::error`.
unfoldable pub failure : Text → Failure
failure message = record { kind = FailureKind.error; message = message; outcomes = none }

-- `Failure::conflict`.
unfoldable pub conflicting : Text → Option Outcomes → Failure
conflicting message outcomes = record {
  kind = FailureKind.conflict;
  message = message;
  outcomes = outcomes;
}

-- `Failure::diverged`.
unfoldable pub refused_diverged : List DivergedPath → Failure
unfolding conflicting
refused_diverged paths =
    conflicting
      (codes
        "can't commit Diverged Paths: merge each and `tidings resolve` it, or `tidings discard` it, or name only other paths to commit")
      (some (Outcomes.diverged paths))

-- `Failure::conflicted`.
unfoldable pub conflicted : List Reconciled → Failure
unfolding conflicting
conflicted reconciled =
    conflicting
      (codes "Conflict: the Store changed these since their Base, so nothing was committed")
      (some (Outcomes.conflict reconciled))

-- `Failure::invalid`.
unfoldable pub refused_invalid : List Unfit → Failure
refused_invalid unfit = record {
  kind = FailureKind.error;
  message =
      codes
        "can't commit files that can't be Files: rename or remove each, or leave it out with .tidings/ignore";
  outcomes = some (Outcomes.invalid unfit);
}

-- `Failure::blocked`.
unfoldable pub refused_blocked : List (Text × Blocked) → Failure
refused_blocked paths = record {
  kind = FailureKind.error;
  message =
      codes
        "can't discard these, since what is in the folder keeps the Store's version from being put there: move it out of the way, or name only other paths";
  outcomes = some (Outcomes.blocked paths);
}

-- `Failure::missing`.
unfoldable pub missing_file : Text → Failure
missing_file path = record {
  kind = FailureKind.missing;
  message = codes "no File at " ++ path;
  outcomes = none;
}

-- `Failure::with_note`.
unfoldable pub with_note : Failure → Text → Failure
with_note f note = record f { message = f.message ++ (codes ": " ++ note) }

-- `Failure::in_context`.
unfoldable pub in_context : Failure → Text → Failure
in_context f context = record f { message = context ++ (codes ": " ++ f.message) }

-- `Failure::exit_code`.
unfoldable pub exit_code : Failure → ℕ
exit_code f = elim f.kind [
  | FailureKind.error ↦ 1
  | FailureKind.missing ↦ 2
  | FailureKind.conflict ↦ 3
]

-- `From<std::io::Error>`.
unfoldable pub of_io : IoError → Failure
unfolding failure
of_io e = failure e.text

-- `[Path]::join(", ")`.
abbrev pub comma_separated : List Text → Text
comma_separated [] = []
comma_separated (path ∷ []) = path
comma_separated (path ∷ other ∷ paths) = path ++ (codes ", " ++ comma_separated (other ∷ paths))

-- `Display for InvalidPathReason`.
unfoldable pub reason_text : InvalidPathReason → Text
reason_text empty = codes "it is empty"
reason_text not_relative = codes "it is not relative"
reason_text empty_segment = codes "it has an empty segment"
reason_text dot_segment = codes "it has a `.` or `..` segment"
reason_text unportable_name = codes "a segment is not a name every platform accepts"
reason_text not_nfc = codes "it is not in Unicode NFC form"
reason_text reserved =
    codes
      "it has a name that is `.tidings`, or one like a temporary file's, which tidings keeps for itself"
reason_text no_trailing_slash = codes "it is a Prefix that doesn't end with `/`"
reason_text letter_case_clash =
    codes "it differs only in letter case from another Path in the Store"
reason_text file_under_file = codes "it would be under another File, or have other Files under it"
reason_text same_file =
    codes "it is written, and is the same file on disk as another Path the Commit writes or deletes"
reason_text directory_link =
    codes "it is, or is under, a symlink to a directory, which is left out of the Store"
reason_text nested =
    codes
      "it is, or is under, a directory holding `.tidings/`, as another Store's Location does, which is left out of the Store"

-- `BackendKind::name` (src/backend/mod.rs).
unfoldable pub kind_name : BackendKind → Text
kind_name fs = codes "fs"
kind_name sqlite = codes "sqlite"

module _ (debug : Text → Text) where
  debug_list : List Text → Text
  debug_list [] = []
  debug_list (path ∷ []) = debug path
  debug_list (path ∷ other ∷ paths) = debug path ++ (codes ", " ++ debug_list (other ∷ paths))

  -- `Display for Error`. A panic gives no text.
  unfoldable pub error_text : Error → Text
  unfolding reason_text kind_name debug_list
  error_text (invalid_path path reason) =
      codes "invalid path " ++ (debug path ++ (codes ": " ++ reason_text reason))
  error_text (not_text path) = path ++ codes " is not valid UTF-8 text"
  error_text (Error.conflict paths) =
      codes "conflict: a Precondition failed for [" ++ (debug_list paths ++ codes "]")
  error_text pending = codes "the Commit happened, but isn't finished yet"
  error_text (wrong_backend found) =
      codes "the Location belongs to the " ++ (kind_name found ++ codes " Backend")
  error_text (nested_location outer) =
      codes "the Location is inside " ++ (outer ++ codes ", which holds a `.tidings/` directory")
  error_text (wrong_prefix_revision prefix) =
      codes "the Prefix Revision required for "
      ++ (prefix ++ codes " was taken for another Prefix or Store")
  error_text unsupported = codes "not supported by this Store's Backend"
  error_text (backend text) = codes "the Store's Backend failed: " ++ text
  error_text panicked = []

  -- `From<tidings::Error>`.
  unfoldable pub of_error : Error → Failure
  unfolding conflicting failure error_text
  of_error (Error.conflict paths) =
      conflicting (codes "Conflict: a Precondition did not hold for " ++ comma_separated paths) none
  of_error e = failure (error_text e)
