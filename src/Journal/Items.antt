-- ===== src/Journal/Items.antt =====
-- One line of a journal is read back (src/backend/fs/journal.rs).
use tidings.Base.Tests.{
  ◌^◌, ◌<◌, ◌≡◌, refl, sym, ◌∙◌, true, none, List, [], ◌∷◌, ◌++◌, map, append_assoc, arith,
}
use tidings.Base.Lists.{all}
use tidings.Base.Results.{ok, ◌>>=◌}
use tidings.Base.Text.{Text, codes, text_eq}
use tidings.Base.Lines.{newline, tab, lines, lines-line}
use tidings.Crates.{Crates}
use tidings.Files.{Revision}
use tidings.Paths.{refusal}
use tidings.Journal.{
  unicode, at_path, linked, Journal, escape, unescape, to_hex, line_of, parse_path, read_item,
  read_items,
}
use tidings.Base.Fields.{is_in_field, joined, joined-in_line, split-joined}
use tidings.Journal.Escapes.{escape-clear, unescape-escape}
use tidings.Journal.Hex.{from_hex-to_hex, to_hex-clear, unescape-to_hex}

line_of-joined :
    (k f : Text) (fs : List Text) (rest : Text)
    → line_of k f fs ++ rest ≡ joined k (f ∷ fs) ++ (newline ∷ rest)
line_of-joined k f [] rest = rw (append_assoc, append_assoc, append_assoc) refl
line_of-joined k f (g ∷ fs) rest =
    append_assoc k (tab ∷ line_of f g fs) rest
    ∙ rw (line_of-joined f g fs rest)
        (sym (append_assoc k (tab ∷ joined f (g ∷ fs)) (newline ∷ rest)))

keyword_write : unescape (codes "write") ≡ codes "write"
unfolding unescape
keyword_write = refl

keyword_replace : unescape (codes "replace") ≡ codes "replace"
unfolding unescape
keyword_replace = refl

keyword_remove : unescape (codes "remove") ≡ codes "remove"
unfolding unescape
keyword_remove = refl

module _ (c : Crates) where
  -- A line of clear fields is read as an item of them.
  read_items-line_of :
      (k f : Text) (fs : List Text) (rest : Text) (j : Journal)
      → all (all is_in_field) (k ∷ f ∷ fs) ≡ true
      → read_items c (lines (line_of k f fs ++ rest)) j
        ≡ (read_item c (map unescape (k ∷ f ∷ fs)) j >>= read_items c (lines rest))
  unfolding read_items
  read_items-line_of k f fs rest j h =
      rw
        (
          line_of-joined k f fs rest,
          lines-line (joined k (f ∷ fs)) rest (joined-in_line k (f ∷ fs) h),
          split-joined k (f ∷ fs) h,
        )
        refl

  module _ (path : Text) (valid : refusal c path ≡ none) where
    parse_path-ok : parse_path c path ≡ ok path
    unfolding parse_path
    parse_path-ok = ground arith

    write_item :
        (t : Text) (j : Journal)
        → read_item c (codes "write" ∷ t ∷ path ∷ []) j
          ≡ ok (record j {
            replaces =
                j.replaces
                ++ (record { path = path; temporary = unicode t; target = at_path } ∷ []);
          })
    unfolding read_item text_eq
    write_item t j = rw parse_path-ok refl

    replace_item :
        (t to : Text) (j : Journal)
        → read_item c (codes "replace" ∷ t ∷ path ∷ to ∷ []) j
          ≡ ok (record j {
            replaces =
                j.replaces
                ++ (record { path = path; temporary = unicode t; target = linked (unicode to) }
                    ∷ []);
          })
    unfolding read_item text_eq
    replace_item t to j = rw parse_path-ok refl

    remove_item :
        (r : Revision) (j : Journal)
        → r < 2 ^ 128
        → read_item c (codes "remove" ∷ path ∷ to_hex r ∷ []) j
          ≡ ok (record j { removes = j.removes ++ (record { path = path; revision = r } ∷ []) })
    unfolding read_item text_eq
    remove_item r j h = rw (from_hex-to_hex r h, parse_path-ok) refl

    pub read_write :
        (t rest : Text) (j : Journal)
        → read_items c (lines (line_of (codes "write") (escape t) (escape path ∷ []) ++ rest)) j
          ≡ read_items c (lines rest) (record j {
            replaces =
                j.replaces
                ++ (record { path = path; temporary = unicode t; target = at_path } ∷ []);
          })
    read_write t rest j =
        read_items-line_of (codes "write") (escape t) (escape path ∷ []) rest j
          (rw (escape-clear t, escape-clear path) refl)
        ∙ rw (keyword_write, unescape-escape t, unescape-escape path, write_item t j) refl

    pub read_replace :
        (t to rest : Text) (j : Journal)
        → read_items c
            (lines (line_of (codes "replace") (escape t) (escape path ∷ escape to ∷ []) ++ rest))
            j
          ≡ read_items c (lines rest) (record j {
            replaces =
                j.replaces
                ++ (record { path = path; temporary = unicode t; target = linked (unicode to) }
                    ∷ []);
          })
    read_replace t to rest j =
        read_items-line_of (codes "replace") (escape t) (escape path ∷ escape to ∷ []) rest j
          (rw (escape-clear t, escape-clear path, escape-clear to) refl)
        ∙ rw
            (
              keyword_replace,
              unescape-escape t,
              unescape-escape path,
              unescape-escape to,
              replace_item t to j,
            )
            refl

    pub read_remove :
        (r : Revision) (rest : Text) (j : Journal)
        → r < 2 ^ 128
        → read_items c (lines (line_of (codes "remove") (escape path) (to_hex r ∷ []) ++ rest)) j
          ≡ read_items c
              (lines rest)
              (record j { removes = j.removes ++ (record { path = path; revision = r } ∷ []) })
    read_remove r rest j h =
        read_items-line_of (codes "remove") (escape path) (to_hex r ∷ []) rest j
          (rw (escape-clear path, to_hex-clear r) refl)
        ∙ rw (keyword_remove, unescape-escape path, unescape-to_hex r, remove_item r j h) refl
