-- ===== src/WorkingCopy/Record/Tests.antt =====
-- A record written and read (cli/src/working_copy/record.rs).
use tidings.Paths.{
  trim_end_spaces, is_temporary, is_temporary_file_name, letter_case_fold, device_of,
  is_device_name_sanitize_filename_misses, is_portable_name, is_reserved, refusal,
}
use tidings.Base.Tests.{◌≡◌, refl, some, none, [], ◌∷◌, arith}
use tidings.Base.Results.{ok}
use tidings.Base.Text.{
  len, as_bytes, text_eq, starts_with, strip_prefix, rsplit_once, split_once, split, codes, cmp,
}
use tidings.Crates.Ascii.{ascii}
use tidings.WorkingCopy.Record.{fs, Record, to_text}
use tidings.WorkingCopy.Record.Parse.{parse}
use tidings.WorkingCopy.Record.RoundTrip.{IsValid, parse-to_text}

abbrev copy : Record
copy = record {
  store = record { location = codes "/a\\b"; backend = fs };
  bases =
      (codes "a", record { revision = 1; hash = 2 })
      ∷ (codes "b", record { revision = 3; hash = 4 })
      ∷ [];
  divergences =
      (codes "b", record { theirs = some (record { revision = 5; hash = 6 }) })
      ∷ (codes "c", record { theirs = none })
      ∷ [];
}

copy-IsValid : IsValid ascii copy
unfolding refusal is_reserved is_portable_name is_device_name_sanitize_filename_misses device_of
    letter_case_fold is_temporary_file_name is_temporary trim_end_spaces split split_once
    rsplit_once strip_prefix starts_with text_eq as_bytes len cmp
copy-IsValid = record {
  not_memory = cc;
  bases_sorted = ((refl, tt), (tt, tt));
  bases_valid = (refl, (refl, tt));
  bases_fit = ((omega arith, omega arith), ((omega arith, omega arith), tt));
  divergences_sorted = ((refl, tt), (tt, tt));
  divergences_valid = (refl, (refl, tt));
  divergences_fit = ((omega arith, omega arith), (tt, tt));
}

parse-to_text_example : parse ascii (to_text copy) ≡ ok copy
parse-to_text_example = parse-to_text ascii copy copy-IsValid
