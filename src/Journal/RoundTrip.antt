-- ===== src/Journal/RoundTrip.antt =====
-- A journal is read back from its text (src/backend/fs/journal.rs).
use tidings.Base.Tests.{
  ◌^◌, ◌<◌, ◌≡◌, refl, ◌∙◌, Bool, true, false, ◌&&◌, none, some, List, [], ◌∷◌, ◌++◌, append_assoc,
  append-nil,
}
use tidings.Base.Lists.{all}
use tidings.Base.Results.{ok, err, ◌>>=◌, >>=-eq-ok, is_ok}
use tidings.Base.Text.{Text, codes, text_eq}
use tidings.Base.Lines.{newline, lines, is_in_line, lines-line}
use tidings.Crates.{Crates}
use tidings.Error.{Outcome}
use tidings.Paths.{refusal}
use tidings.Journal.{
  PathBuf, unicode, not_unicode, State, prepared, committed, Target, at_path, linked, Replace,
  Remove, Journal, new_prepared, commit, escape, escaped, line_of, target_line, replace_line,
  replace_lines, remove_lines, state_name, to_text, read_items, read_state, read_lines, read,
  format,
}
use tidings.Journal.Items.{read_write, read_replace, read_remove}

module _ (c : Crates) where
  read_target :
      (path : Text) (temporary : PathBuf) (target : Target) (line rest : Text) (j : Journal)
      → refusal c path ≡ none
      → (escaped temporary >>= (λ from. target_line path from target)) ≡ ok line
      → read_items c (lines (line ++ rest)) j
        ≡ read_items c (lines rest) (record j {
          replaces =
              j.replaces ++ (record { path = path; temporary = temporary; target = target } ∷ []);
        })
  unfolding escaped target_line
  read_target path (not_unicode bs) target line rest j valid e = cc
  read_target path (unicode t) at_path line rest j valid e =
      let given : line_of (codes "write") (escape t) (escape path ∷ []) ≡ line = cc in
      rw (← given) (read_write c path valid t rest j)
  read_target path (unicode t) (linked (not_unicode bs)) line rest j valid e = cc
  read_target path (unicode t) (linked (unicode to)) line rest j valid e =
      let given : line_of (codes "replace") (escape t) (escape path ∷ escape to ∷ []) ≡ line = cc in
      rw (← given) (read_replace c path valid t to rest j)

  -- A `Path` is valid, and a Revision a `u128`.
  abbrev pub ReplacesValid : List Replace → Type 0
  ReplacesValid [] = Unit {0}
  ReplacesValid (r ∷ rs) = (refusal c r.path ≡ none) × ReplacesValid rs

  abbrev pub RemovesValid : List Remove → Type 0
  RemovesValid [] = Unit {0}
  RemovesValid (r ∷ rs) = (refusal c r.path ≡ none) × (r.revision < 2 ^ 128) × RemovesValid rs

  read_replaces :
      (rs : List Replace) (text rest : Text) (j : Journal)
      → ReplacesValid rs
      → replace_lines rs ≡ ok text
      → read_items c (lines (text ++ rest)) j
        ≡ read_items c (lines rest) (record j { replaces = j.replaces ++ rs })
  unfolding replace_lines replace_line
  read_replaces [] text rest j v e = let given : [] ≡ text = cc in rw (← given, append-nil) refl
  read_replaces (r ∷ rs) text rest j (valid, v) e =
      let (one, made, e') =
        >>=-eq-ok (replace_line r) (λ one. replace_lines rs >>= (λ more. ok (one ++ more))) e in
      let (more, made_more, e'') = >>=-eq-ok (replace_lines rs) (λ more. ok (one ++ more)) e' in
      let whole : one ++ more ≡ text = cc in
      rw (← whole, append_assoc one more rest)
        (read_target r.path r.temporary r.target one (more ++ rest) j valid made
          ∙ read_replaces rs more rest _ v made_more
          ∙ rw append_assoc refl)

  read_removes :
      (rs : List Remove) (j : Journal)
      → RemovesValid rs
      → read_items c (lines (remove_lines rs)) j ≡ ok (record j { removes = j.removes ++ rs })
  unfolding remove_lines
  read_removes [] j v = unfold lines read_items in rw append-nil refl
  read_removes (r ∷ rs) j (valid, small, v) =
      read_remove c r.path valid r.revision (remove_lines rs) j small
      ∙ read_removes rs _ v
      ∙ rw append_assoc refl

  read_state-state_name :
      (s : State) (ls : List Text)
      → read_state c (state_name s ∷ ls)
        ≡ read_items c ls (record { state = s; replaces = []; removes = [] })
  unfolding read_state state_name new_prepared commit text_eq
  read_state-state_name prepared ls = refl
  read_state-state_name committed ls = refl

  state_name-in_line : (s : State) → all is_in_line (state_name s) ≡ true
  unfolding state_name
  state_name-in_line prepared = refl
  state_name-in_line committed = refl

  read_lines-format : (ls : List Text) → read_lines c (format ∷ ls) ≡ read_state c ls
  unfolding read_lines text_eq
  read_lines-format ls = refl

  read_lines-text :
      (j : Journal) (replaced : Text)
      → ReplacesValid j.replaces
      → RemovesValid j.removes
      → replace_lines j.replaces ≡ ok replaced
      → read_lines c (
          lines (
            format
            ++ (newline
                ∷ (state_name j.state ++ (newline ∷ (replaced ++ remove_lines j.removes))))))
        ≡ ok j
  read_lines-text j replaced vs ws made =
      rw
        (
          lines-line format (state_name j.state ++ (newline ∷ (replaced ++ remove_lines j.removes)))
              refl,
          lines-line (state_name j.state) (replaced ++ remove_lines j.removes)
              (state_name-in_line j.state),
          read_lines-format,
          read_state-state_name,
        )
        (read_replaces j.replaces replaced (remove_lines j.removes) _ vs made
          ∙ read_removes j.removes _ ws)

  -- A journal whose Paths are valid and whose Revisions are 128 bits is read back from the text it
  -- is written as, where it can be written.
  pub read-to_text :
      (j : Journal) (text : Text)
      → ReplacesValid j.replaces
      → RemovesValid j.removes
      → to_text j ≡ ok text
      → read c (ok (some text)) ≡ ok (some j)
  unfolding to_text read
  read-to_text j text vs ws e =
      let (replaced, made, e') =
        >>=-eq-ok (replace_lines j.replaces)
          (λ replaced. ok (
            format
            ++ (newline
                ∷ (state_name j.state ++ (newline ∷ (replaced ++ remove_lines j.removes))))))
          e in
      let whole : format
            ++ (newline ∷ (state_name j.state ++ (newline ∷ (replaced ++ remove_lines j.removes))))
          ≡ text =
        cc in
      rw (← whole, read_lines-text j replaced vs ws made) refl

abbrev is_unicode : PathBuf → Bool
is_unicode (unicode t) = true
is_unicode (not_unicode bs) = false

abbrev is_unicode_target : Target → Bool
is_unicode_target at_path = true
is_unicode_target (linked to) = is_unicode to

-- The paths on disk of a write are text.
abbrev pub is_writable : Replace → Bool
is_writable r = is_unicode r.temporary && is_unicode_target r.target

replace_line-is_writable : (r : Replace) → is_ok (replace_line r) ≡ is_writable r
unfolding replace_line escaped target_line
replace_line-is_writable r = go r.path r.temporary r.target
  where
    go :
        (path : Text) (temporary : PathBuf) (target : Target)
        → is_ok (escaped temporary >>= (λ from. target_line path from target))
          ≡ (is_unicode temporary && is_unicode_target target)
    go path (not_unicode bs) target = refl
    go path (unicode t) at_path = refl
    go path (unicode t) (linked (unicode to)) = refl
    go path (unicode t) (linked (not_unicode bs)) = refl

is_ok-both :
    (one more : Outcome Text)
    → is_ok (one >>= (λ a. more >>= (λ b. ok (a ++ b)))) ≡ (is_ok one && is_ok more)
is_ok-both (err e) more = refl
is_ok-both (ok a) (err e) = refl
is_ok-both (ok a) (ok b) = refl

replace_lines-is_writable : (rs : List Replace) → is_ok (replace_lines rs) ≡ all is_writable rs
unfolding replace_lines
replace_lines-is_writable [] = refl
replace_lines-is_writable (r ∷ rs) =
    is_ok-both (replace_line r) (replace_lines rs)
    ∙ rw (replace_line-is_writable r, replace_lines-is_writable rs) refl

-- A journal can be written exactly when every temporary file's path and every linked target is
-- text.
pub to_text-is_writable : (j : Journal) → is_ok (to_text j) ≡ all is_writable j.replaces
unfolding to_text
to_text-is_writable j = go _ (replace_lines j.replaces) ∙ replace_lines-is_writable j.replaces
  where
    go : (f : Text → Text) (r : Outcome Text) → is_ok (r >>= (λ t. ok (f t))) ≡ is_ok r
    go f (ok t) = refl
    go f (err e) = refl
