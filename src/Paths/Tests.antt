-- ===== src/Paths/Tests.antt =====
-- The theorems on Paths at concrete names (src/path.rs).
use tidings.Base.Tests.{◌≡◌, ◌↔◌, true, none}
use tidings.Base.Text.{codes}
use tidings.Crates.Ascii.{ascii, ascii-CratesLaws}
use tidings.Paths.{temporary_file_name, is_temporary_file_name, refusal}
use tidings.Paths.Temporary.{is_temporary-temporary_file_name}
use tidings.Paths.Valid.{is_valid, refusal-is_valid}

is_temporary-temporary_file_name_example :
    is_temporary_file_name (temporary_file_name (codes "a.txt") 255 12) ≡ true
is_temporary-temporary_file_name_example =
    is_temporary-temporary_file_name b'a' (codes ".txt") 255 12

refusal-is_valid_example :
    (refusal ascii (codes "a/b.txt") ≡ none) ↔ (is_valid ascii (codes "a/b.txt") ≡ true)
refusal-is_valid_example = refusal-is_valid ascii ascii-CratesLaws (codes "a/b.txt")
