-- ===== src/Journal/Tests.antt =====
-- A journal written and read (src/backend/fs/journal.rs).
use tidings.Base.Digits.{hex_digit, hex_pad, to_le_bytes}
use tidings.Revisions.{to_bytes}
use tidings.Paths.{
  trim_end_spaces, is_temporary, is_temporary_file_name, letter_case_fold, device_of,
  is_device_name_sanitize_filename_misses, is_portable_name, is_reserved, refusal,
}
use tidings.Base.Tests.{◌≡◌, refl, some, [], ◌∷◌, ◌++◌, arith}
use tidings.Base.Lists.{all}
use tidings.Base.Results.{ok, is_ok}
use tidings.Base.Text.{
  len, as_bytes, text_eq, starts_with, strip_prefix, rsplit_once, split_once, split, replace, Text,
  codes,
}
use tidings.Base.Lines.{newline, tab}
use tidings.Crates.Ascii.{ascii}
use tidings.Journal.{
  state_name, hex_of_bytes, to_hex, remove_lines, escape, escaped, target_line, replace_line,
  replace_lines, unicode, committed, at_path, linked, Journal, to_text, read,
}
use tidings.Journal.RoundTrip.{
  ReplacesValid, RemovesValid, read-to_text, is_writable, to_text-is_writable,
}

abbrev journal : Journal
journal = record {
  state = committed;
  replaces =
      record { path = codes "a"; temporary = unicode (codes "/t\\1"); target = at_path }
      ∷ record {
        path = codes "b";
        temporary = unicode (codes "/t2");
        target = linked (unicode (codes "/l"));
      }
      ∷ [];
  removes = record { path = codes "c"; revision = 0xAF } ∷ [];
}

abbrev text : Text
text =
    codes "tidings journal 2"
    ++ (newline
        ∷ (codes "committed"
            ++ (newline
                ∷ (codes "write"
                    ++ (tab
                        ∷ (codes "/t\\\\1"
                            ++ (tab
                                ∷ (codes "a"
                                    ++ (newline
                                        ∷ (codes "replace"
                                            ++ (tab
                                                ∷ (codes "/t2"
                                                    ++ (tab
                                                        ∷ (codes "b"
                                                            ++ (tab
                                                            ∷ (codes "/l"
                                                            ++ (newline
                                                            ∷ (codes "remove"
                                                            ++ (tab
                                                            ∷ (codes "c"
                                                            ++ (tab
                                                            ∷ (codes
                                                            "af000000000000000000000000000000"
                                                            ++ (newline ∷ [])))))))))))))))))))))))

is_text : to_text journal ≡ ok text
unfolding to_text replace_lines replace_line target_line escaped escape replace remove_lines to_hex
    hex_of_bytes to_bytes to_le_bytes hex_pad hex_digit state_name
is_text = refl

replaces_valid : ReplacesValid ascii journal.replaces
unfolding refusal is_reserved is_portable_name is_device_name_sanitize_filename_misses device_of
    letter_case_fold is_temporary_file_name is_temporary trim_end_spaces split split_once
    rsplit_once strip_prefix starts_with text_eq as_bytes len
replaces_valid = (refl, (refl, tt))

removes_valid : RemovesValid ascii journal.removes
unfolding refusal is_reserved is_portable_name is_device_name_sanitize_filename_misses device_of
    letter_case_fold is_temporary_file_name is_temporary trim_end_spaces split split_once
    rsplit_once strip_prefix starts_with text_eq as_bytes len
removes_valid = (refl, omega arith, tt)

read-to_text_example : read ascii (ok (some text)) ≡ ok (some journal)
read-to_text_example = read-to_text ascii journal text replaces_valid removes_valid is_text

to_text-is_writable_example : is_ok (to_text journal) ≡ all is_writable journal.replaces
to_text-is_writable_example = to_text-is_writable journal
