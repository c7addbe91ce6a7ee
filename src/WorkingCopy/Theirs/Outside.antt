-- ===== src/WorkingCopy/Theirs/Outside.antt =====
-- What settling and sweeping `theirs` files does outside `.tidings/`
-- (cli/src/working_copy.rs).
use tidings.Base.Tests.{
  Option-cases, ℕ, zero, suc, ◌≡◌, refl, ◌∙◌, Bool, true, false, not, ◌&&◌, Option, none, some,
  List, [], inl, inr, Option-cases, ◌∷◌, ◌++◌, arith,
}
use tidings.Base.Lists.{all-filter, all}
use tidings.Base.Results.{Result, ok, err}
use tidings.Base.Text.{Text, slash, starts_with, strip_prefix, text_eq, text_eq_iff}
use tidings.Base.BTreeMap.{keys}
use tidings.Disk.{
  Node, file, not_text, symlink, special, dir, Disk, IoError, children, is_child, symlink_metadata,
  read_dir, file_type, remove_dir, remove_file,
}
use tidings.Disk.Leaves.{
  held, Leaves, pure-Leaves, map_err-Leaves, remove_file-Leaves, remove_dir-Leaves,
}
use tidings.WorkingCopy.Record.{Record}
use tidings.WorkingCopy.Reports.{record_directory, join, Blocked, SyncEvent}
use tidings.WorkingCopy.Failures.{Failure}
use tidings.WorkingCopy.Folder.{Env, tmp, theirs_file, blocking_directory}
use tidings.WorkingCopy.Folder.Outcomes.{write-Leaves, remove-Leaves}
use tidings.WorkingCopy.Theirs.{
  depth, theirs_top, failed_under, is_file, written_theirs, removed_theirs, settled_at,
  settle_theirs_at, settle_theirs, Swept, swept_dir, swept_file, remove_stale_dir, sweep_typed,
  sweep_entry, sweep_entries, remove_stale_theirs_in, remove_stale_theirs,
}

-- Whether a name is in `.tidings/`.
abbrev pub in_record : Text → Bool
in_record name = starts_with (join record_directory []) name

apart :
    (p name at : Text)
    → starts_with p name ≡ false
    → starts_with p at ≡ true
    → text_eq name at ≡ false
apart p name at h k = ground (arith, (text_eq_iff name at).0)

starts_with-longer : (p s t : Text) → starts_with p s ≡ true → starts_with p (s ++ t) ≡ true
unfolding starts_with
starts_with-longer [] s t h = refl
starts_with-longer (c ∷ p) [] t h = cc
starts_with-longer (c ∷ p) (x ∷ s) t h = ground (arith, starts_with-longer p s t)

strip_prefix-starts :
    (a p t rest : Text)
    → starts_with a p ≡ true
    → strip_prefix p t ≡ some rest
    → starts_with a t ≡ true
unfolding starts_with strip_prefix
strip_prefix-starts [] p t rest h k = refl
strip_prefix-starts (c ∷ a) [] t rest h k = cc
strip_prefix-starts (c ∷ a) (x ∷ p) [] rest h k = cc
strip_prefix-starts (c ∷ a) (x ∷ p) (y ∷ t) rest h k =
    ground (arith, strip_prefix-starts a p t rest)

child-in_record :
    (at child : Text) → in_record at ≡ true → is_child at child ≡ true → in_record child ≡ true
unfolding is_child starts_with
child-in_record [] child h k = cc
child-in_record (x ∷ at) child h k =
    elim (Option-cases (strip_prefix ((x ∷ at) ++ (slash ∷ [])) child)) [
      | inl nothing ↦ ground arith
      | inr (rest, stripped) ↦
          strip_prefix-starts (join record_directory []) ((x ∷ at) ++ (slash ∷ [])) child rest
            (starts_with-longer (join record_directory []) (x ∷ at) (slash ∷ []) h) stripped
    ]

children-in_record :
    (at : Text) (d : Disk) → in_record at ≡ true → all in_record (children at d) ≡ true
unfolding children
children-in_record at d h =
    all-filter (is_child at) in_record (keys d) (λ child k. child-in_record at child h k)

module _ (env : Env) (name : Text) (outside : in_record name ≡ false) where
  open env use {crates, os}

  not_at : (at : Text) → in_record at ≡ true → text_eq name at ≡ false
  not_at at h = apart (join record_directory []) name at outside h

  pub not_tmp : text_eq name tmp ≡ false
  unfolding starts_with
  not_tmp = not_at tmp refl

  module _ (at : Text) (inside : in_record at ≡ true) where
    written-Leaves :
        (contents : Text) (skip : Bool) → Leaves name (written_theirs env at contents skip)
    written-Leaves contents true = pure-Leaves name _
    written-Leaves contents false =
        write-Leaves env (failed_under at) name at contents (not_at at inside) not_tmp

    removed-Leaves : (seen : Result IoError Node) → Leaves name (removed_theirs env at seen)
    removed-Leaves (ok node) =
        remove-Leaves env (failed_under at) name theirs_top at (not_at at inside)
    removed-Leaves (err e) = record { same = λ d. ground arith }

    settled-held :
        (theirs : Option Text) (force : Bool) (blocked : Result Failure (Option Blocked)) (d : Disk)
        → held name (settled_at env at theirs force blocked d).0 ≡ held name d
    settled-held theirs force (err f) d = refl
    settled-held (some contents) force (ok (some blocked)) d = refl
    settled-held (some contents) force (ok none) d =
        (written-Leaves contents (not force && is_file (symlink_metadata os d at))).same d
    settled-held none force (ok (some blocked)) d = refl
    settled-held none force (ok none) d = (removed-Leaves (symlink_metadata os d at)).same d

    settle_theirs_at-Leaves :
        (theirs : Option Text) (force : Bool) → Leaves name (settle_theirs_at env at theirs force)
    unfolding settle_theirs_at
    settle_theirs_at-Leaves theirs force = record {
      same = λ d. settled-held theirs force (blocking_directory env record_directory d at) d;
    }

  theirs_file-in_record : (path : Text) → in_record (theirs_file path) ≡ true
  unfolding theirs_file starts_with
  theirs_file-in_record path = refl

  -- Settling a `theirs` file leaves every file outside `.tidings/`.
  pub settle_theirs-Leaves :
      (path : Text) (theirs : Option Text) (force : Bool)
      → Leaves name (settle_theirs env path theirs force)
  unfolding settle_theirs
  settle_theirs-Leaves path theirs force =
      map_err-Leaves name _ _
        (settle_theirs_at-Leaves (theirs_file path) (theirs_file-in_record path) theirs force)

  -- The sweep of a directory in `.tidings/`, as `sweep_entries` goes into it.
  abbrev IsOutside : (Text → Swept → Swept) → Type 0
  IsOutside inner =
      (at : Text) (s : Swept) → in_record at ≡ true → held name (inner at s).0 ≡ held name s.0

  swept_dir-held :
      (at : Text) (events : List SyncEvent) (removed : Disk × Result IoError (Unit {0}))
      → held name (swept_dir env at events removed).0 ≡ held name removed.0
  swept_dir-held at events (after, ok _) = refl
  swept_dir-held at events (after, err e) = ground arith

  swept_file-held :
      (at : Text) (events : List SyncEvent) (removed : Disk × Result IoError (Unit {0}))
      → held name (swept_file env at events removed).0 ≡ held name removed.0
  swept_file-held at events (after, ok _) = refl
  swept_file-held at events (after, err e) = refl

  stale_dir-held : (at : Text) (s : Swept) → held name (remove_stale_dir env at s).0 ≡ held name s.0
  stale_dir-held at (d, events) =
      swept_dir-held at events (remove_dir os at d) ∙ (remove_dir-Leaves os name at).same d

  stale_file-held :
      (at : Text) (d : Disk) (events : List SyncEvent)
      → in_record at ≡ true
      → held name (swept_file env at events (remove_file os at d)).0 ≡ held name d
  stale_file-held at d events inside =
      swept_file-held at events (remove_file os at d)
      ∙ (remove_file-Leaves os name at (not_at at inside)).same d

  module _ (inner : Text → Swept → Swept) (inner_outside : IsOutside inner) where
    typed-held :
        (at : Text) (type : Result IoError Node) (s : Swept)
        → in_record at ≡ true
        → held name (sweep_typed env inner at type s).0 ≡ held name s.0
    typed-held at (err e) (d, events) inside = refl
    typed-held at (ok dir) (d, events) inside =
        stale_dir-held at (inner at (d, events)) ∙ inner_outside at (d, events) inside
    typed-held at (ok (file _)) (d, events) inside =
        ground (arith, stale_file-held at d events inside)
    typed-held at (ok not_text) (d, events) inside =
        ground (arith, stale_file-held at d events inside)
    typed-held at (ok symlink) (d, events) inside =
        ground (arith, stale_file-held at d events inside)
    typed-held at (ok special) (d, events) inside =
        ground (arith, stale_file-held at d events inside)

    entry-held :
        (r : Record) (at : Text) (s : Swept)
        → in_record at ≡ true
        → held name (sweep_entry env inner r at s).0 ≡ held name s.0
    entry-held r at (d, events) inside =
        ground (arith, typed-held at (file_type os d at) (d, events) inside)

    entries-held :
        (r : Record) (at : Text) (entries : List Text) (s : Swept)
        → all in_record entries ≡ true
        → held name (sweep_entries env inner r at entries s).0 ≡ held name s.0
    unfolding sweep_entries
    entries-held r at [] s inside = refl
    entries-held r at (child ∷ entries) (d, events) inside =
        let next = sweep_entry env inner r child (d, events) in
        ground (arith, entry-held r child (d, events), entries-held r at entries next)

  stale_in-held :
      (fuel : ℕ) (r : Record) (at : Text) (s : Swept)
      → in_record at ≡ true
      → held name (remove_stale_theirs_in env fuel r at s).0 ≡ held name s.0
  unfolding remove_stale_theirs_in read_dir
  stale_in-held zero r at s inside = refl
  stale_in-held (suc fuel) r at (d, events) inside =
      let entries =
        entries-held (remove_stale_theirs_in env fuel r) (λ at s h. stale_in-held fuel r at s h) r
          at (children at d) (d, events) (children-in_record at d inside) in
      ground (arith, entries)

  -- Sweeping `.tidings/theirs/` leaves every file outside `.tidings/`.
  pub remove_stale_theirs-held :
      (r : Record) (d : Disk) → held name (remove_stale_theirs env r d).0 ≡ held name d
  unfolding remove_stale_theirs starts_with
  remove_stale_theirs-held r d =
      ground (arith, stale_in-held (suc (depth (keys d))) r theirs_top (d, []) refl)
