-- ===== src/Error.antt =====
-- `Error` (src/error.rs) and `InvalidPathReason` (src/path.rs). A wrapped error of a Backend keeps
-- its text alone.
use tidings.Base.Tests.{List}
use tidings.Base.Text.{Text}
use tidings.Base.Results.{Result}

pub data InvalidPathReason : Type 0 where
  empty not_relative empty_segment dot_segment unportable_name not_nfc reserved : InvalidPathReason
  no_trailing_slash letter_case_clash file_under_file same_file directory_link : InvalidPathReason
  nested : InvalidPathReason

pub data BackendKind : Type 0 where
  fs sqlite : BackendKind

pub data Error : Type 0 where
  invalid_path : Text → InvalidPathReason → Error
  not_text : Text → Error
  conflict : List Text → Error
  pending : Error
  wrong_backend : BackendKind → Error
  nested_location : Text → Error
  wrong_prefix_revision : Text → Error
  unsupported : Error
  backend : Text → Error
  -- A panic of the source, which is no error of its.
  panicked : Error

-- `Result<T>` of the crate.
abbrev pub Outcome {ℓ} : Type ℓ → Type ℓ
Outcome A = Result Error A
