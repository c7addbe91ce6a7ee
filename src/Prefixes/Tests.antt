-- ===== src/Prefixes/Tests.antt =====
-- The theorems on Prefixes at concrete names (src/prefix.rs).
use tidings.Base.Tests.{◌≡◌, refl, ◌↔◌, true, none, ◌++◌}
use tidings.Base.Text.{Text, slash, codes, split}
use tidings.Crates.Ascii.{ascii}
use tidings.Prefixes.{covers, prefix_refusal}
use tidings.Prefixes.Segments.{covers_segments, prefix_segments, IsPrefixText, prefix_refusal_iff}

valid_prefix : prefix_refusal ascii (codes "a/") ≡ none
unfolding prefix_refusal tidings.Base.Text.text_eq tidings.Base.Text.strip_suffix
    tidings.Paths.refusal tidings.Base.Text.starts_with split tidings.Paths.is_portable_name
    tidings.Base.Text.len tidings.Paths.is_device_name_sanitize_filename_misses
    tidings.Paths.trim_end_spaces tidings.Base.Text.split_once tidings.Paths.is_reserved
    tidings.Paths.letter_case_fold tidings.Paths.is_temporary_file_name
    tidings.Base.Text.rsplit_once
valid_prefix = refl

covers_segments_example : (covers (codes "a/") (codes "a/b/c") ≡ true) ↔ (
    (rest : Text) × (split slash (codes "a/b/c")
      ≡ prefix_segments ascii (codes "a/") ++ split slash rest))
covers_segments_example = covers_segments ascii (codes "a/") (codes "a/b/c") valid_prefix

prefix_refusal_iff_example :
    (prefix_refusal ascii (codes "a/") ≡ none) ↔ IsPrefixText ascii (codes "a/")
prefix_refusal_iff_example = prefix_refusal_iff ascii (codes "a/")
