-- ===== src/Commits/Names.antt =====
-- The last step of a Commit's plan, `Staged::refuse_clashing_paths`, and what it calls
-- (src/staging.rs): names that some platform can't hold together are refused. A name is a Path, or
-- a Prefix it is under.
use tidings.Base.Tests.{
  ℕ, ◌+◌, ◌-◌, Bool, true, false, not, none, some, List, [], ◌∷◌, ◌++◌, map, ◌==◌, if◌then◌else◌,
}
use tidings.Base.Lists.{length, find, filter}
use tidings.Base.Results.{ok, err, ◌>>=◌}
use tidings.Base.Text.{Text, slash, strip_suffix, starts_with, text_eq}
use tidings.Base.BTreeMap.{BTreeMap, get, insert}
use tidings.Crates.{Crates}
use tidings.Error.{letter_case_clash, file_under_file, invalid_path, Outcome}
use tidings.Paths.{letter_case_fold}
use tidings.Staging.{Action, write, delete}
use tidings.StoreState.{StoreState}

-- `ends_with('/')`.
abbrev pub ends_with_slash : Text → Bool
ends_with_slash name = elim (strip_suffix slash name) [ none ↦ false | some _ ↦ true ]

unfoldable pub has_name : Text → Text → Bool
has_name path name = if ends_with_slash name then starts_with name path else text_eq path name

-- The text before its slash of this number, counted from 0; all of it if there is none.
unfoldable pub before_slash : Text → ℕ → Text
before_slash [] n = []
before_slash (x ∷ path) n = elim (x == slash) [
  | true ↦ elim (n == 0) [ true ↦ [] | false ↦ x ∷ before_slash path (n - 1) ]
  | false ↦ x ∷ before_slash path n
]

-- `count.saturating_sub(1)` is `-`.
unfoldable pub first_segments : Text → ℕ → Text
unfolding before_slash
first_segments path count = before_slash path (count - 1)

unfoldable pub without_trailing_slash : Text → Text
without_trailing_slash name = elim (strip_suffix slash name) [ none ↦ name | some s ↦ s ]

-- Each start of the text up to a `/` and with it.
unfoldable pub prefixes : Text → List Text
prefixes [] = []
prefixes (x ∷ path) =
    let rest = map (◌∷◌ x) (prefixes path) in if x == slash then (x ∷ []) ∷ rest else rest

unfoldable pub prefixes_and_path : Text → List Text
unfolding prefixes
prefixes_and_path path = prefixes path ++ (path ∷ [])

-- `matches('/').count() + usize::from(!name.ends_with('/'))`.
unfoldable pub segments_of : Text → ℕ
segments_of name = length (filter (λ x. x == slash) name) + (if ends_with_slash name then 0 else 1)

-- `matches!(self.actions.get(path), Some(Action::Delete))`.
unfoldable pub is_deleted : BTreeMap Action → Text → Bool
is_deleted actions path = elim (get path actions) [
  | some delete ↦ true
  | some (write _) ↦ false
  | none ↦ false
]

-- The reason, and the refusal of `path`.
unfoldable pub refuse_name : Text → Text → Text → Outcome (BTreeMap Text)
refuse_name path name other =
    if text_eq other (without_trailing_slash name)
    then err (invalid_path path file_under_file)
    else err (invalid_path path letter_case_clash)

module _ (c : Crates) (current : StoreState) (actions : BTreeMap Action) where
  -- An entry of `written` that is vacant: the Store is asked, and the name is entered.
  unfoldable pub check_store : Text → Text → Text → BTreeMap Text → Outcome (BTreeMap Text)
  check_store path name fold written = do
    others ← current.paths_named_like name fold
    elim (find (λ other. not (is_deleted actions other)) others) [
      | none ↦ ok (insert fold name written)
      | some other ↦ refuse_name path name (first_segments other (segments_of name))
    ]

  -- One turn of the inner loop. `written` has each name written so far, by its fold.
  unfoldable pub check_name : Text → Text → BTreeMap Text → Outcome (BTreeMap Text)
  check_name path name written =
      let fold = letter_case_fold c (without_trailing_slash name) in
      elim (get fold written) [
        | some other ↦
            if text_eq other name
            then ok written
            else refuse_name path name (without_trailing_slash other)
        | none ↦ check_store path name fold written
      ]

  unfoldable pub check_names : Text → List Text → BTreeMap Text → Outcome (BTreeMap Text)
  check_names path [] written = ok written
  check_names path (name ∷ names) written = do
    more ← check_name path name written
    check_names path names more

  -- The outer loop, over the writes alone.
  unfoldable pub check_writes : BTreeMap Action → BTreeMap Text → Outcome (BTreeMap Text)
  check_writes [] written = ok written
  check_writes ((path, delete) ∷ rest) written = check_writes rest written
  check_writes ((path, write _) ∷ rest) written = do
    more ← check_names path (prefixes_and_path path) written
    check_writes rest more

  unfoldable pub refuse_clashing_paths : Outcome (Unit {0})
  refuse_clashing_paths = do written ← check_writes actions []; ok tt
