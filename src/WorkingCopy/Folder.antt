-- ===== src/WorkingCopy/Folder.antt =====
-- The folder of a Working copy: what it holds at a Path, and writing and removing there
-- (cli/src/working_copy.rs). A name is relative to the folder, as `Disk` has it. The temporary file
-- of `write` is gone once the call ends, so it does not show.
pub mod Outcomes
use mathlib.Core.List.{reverse}
use tidings.Base.Tests.{
  ℕ, Bool, true, false, not, Option, none, some, List, [], ◌∷◌, ◌++◌, map, ◌==◌, if◌then◌else◌,
}
use tidings.Base.Lists.{take_while}
use tidings.Base.Results.{Result, ok, err}
use tidings.Base.Text.{Text, slash, codes, strip_prefix, text_eq}
use tidings.Crates.{Crates}
use tidings.Files.{File}
use tidings.Disk.{
  Node, file, not_text, symlink, special, dir, Disk, ErrorKind, not_found, not_a_directory,
  directory_not_empty, invalid_data, IoError, Os, Io, ◌>>=◌, ◌>>◌, pure, fail, given, map_error,
  map_err, symlink_metadata, read_to_string, touch, remove_file, remove_dir, create_dir,
  create_dir_all, rename, Call,
}
use tidings.WorkingCopy.Failures.{Failure, failure, in_context, of_io}
use tidings.WorkingCopy.Reports.{
  record_directory, tmp_directory, theirs_directory, join, Blocked, SyncEvent, Local,
}

-- What a command runs in: the crates, the operating system, the folder's own name, `Debug` of a
-- `str`, and which names are UTF-8, the others standing as `to_string_lossy` shows them.
pub record Env : Type 0 where
  pub crates : Crates
  pub os : Os
  pub folder : Text
  pub debug : Text → Text
  pub is_utf8 : Text → Bool

-- The directories that a name is in, the outermost first.
unfoldable pub directories_of : Text → List Text
directories_of [] = []
directories_of (x ∷ name) =
    let rest = map (λ directory. x ∷ directory) (directories_of name) in
    if x == slash then [] ∷ rest else rest

-- `ancestors().skip(1).take_while(|directory| *directory != top)`.
unfoldable pub ancestors_below : Text → Text → List Text
unfolding directories_of
ancestors_below top at =
    take_while (λ directory. not (text_eq directory top)) (reverse (directories_of at))

-- `parent()`, a name in the folder itself being in no other directory.
abbrev pub innermost : List Text → Option Text
innermost [] = none
innermost (directory ∷ _) = some directory

-- `parent()`, the folder included.
abbrev pub parent : Text → Text
parent name = elim (innermost (reverse (directories_of name))) [ none ↦ [] | some above ↦ above ]

-- `strip_prefix(top)`, for a name under `top`. The folder is the name without characters.
unfoldable pub under_top : Text → Text → Text
under_top [] name = name
under_top (x ∷ top) name = elim (strip_prefix (x ∷ top) name) [
  | none ↦ name
  | some [] ↦ []
  | some (y ∷ rest) ↦ if y == slash then rest else name
]

-- `theirs_file`.
unfoldable pub theirs_file : Text → Text
theirs_file path = join record_directory (join theirs_directory path)

-- `.tidings/tmp`.
abbrev pub tmp : Text
tmp = join record_directory tmp_directory

-- What the metadata of a directory that a name is in says: whether to go on.
abbrev pub seen_directory : Text → Text → Node → Option Blocked
seen_directory top directory symlink = some (Blocked.symlink (under_top top directory))
seen_directory top directory dir = none
seen_directory top directory (file _) = some (Blocked.not_a_directory (under_top top directory))
seen_directory top directory not_text = some (Blocked.not_a_directory (under_top top directory))
seen_directory top directory special = some (Blocked.not_a_directory (under_top top directory))

module _ (env : Env) where
  open env use {os, folder}

  -- `failed_at`: the name is shown with the folder's.
  unfoldable pub failed_at : Text → IoError → Failure
  failed_at name e = in_context (of_io e) (join folder name)

  -- The loop of `blocking_directory`, from the outermost directory.
  unfoldable pub first_blocking : Text → Disk → List Text → Result Failure (Option Blocked)
  unfolding failed_at
  first_blocking top d [] = ok none
  first_blocking top d (directory ∷ directories) =
      let rest = first_blocking top d directories in
      elim (symlink_metadata os d directory) [
        | err e ↦ elim e.kind [ not_found ↦ ok none | _ ↦ err (failed_at directory e) ]
        | ok node ↦ elim (seen_directory top directory node) [
          | some blocked ↦ ok (some blocked)
          | none ↦ rest
        ]
      ]

  -- `blocking_directory`.
  unfoldable pub blocking_directory : Text → Disk → Text → Result Failure (Option Blocked)
  unfolding first_blocking ancestors_below
  blocking_directory top d at = first_blocking top d (reverse (ancestors_below top at))

  abbrev pub read_local : Text → Result IoError Text → Result Failure Local
  read_local path (ok contents) = ok (Local.file contents)
  read_local path (err e) = elim e.kind [
    | invalid_data ↦ ok Local.other
    | _ ↦ err (failed_at path e)
  ]

  abbrev pub stated_local : Disk → Text → Result IoError Node → Result Failure Local
  stated_local d path (err e) = elim e.kind [
    | not_found ↦ ok Local.absent
    | not_a_directory ↦ ok Local.absent
    | _ ↦ err (failed_at path e)
  ]
  stated_local d path (ok dir) = ok Local.directory
  stated_local d path (ok symlink) = ok Local.other
  stated_local d path (ok special) = ok Local.other
  stated_local d path (ok (file _)) = read_local path (read_to_string os d path)
  stated_local d path (ok not_text) = read_local path (read_to_string os d path)

  -- `WorkingCopy::local`.
  unfoldable pub local : Disk → Text → Result Failure Local
  local d path = stated_local d path (symlink_metadata os d path)

  -- `make_tmp_directory`. `create_dir_all` finds the record's directory there, since its lock is
  -- held.
  abbrev made_tmp : Result IoError Node → Io IoError (Unit {0})
  made_tmp (ok dir) = pure tt
  made_tmp (ok symlink) = remove_file os tmp >> create_dir os tmp
  made_tmp (ok _) = fail (record {
    kind = ErrorKind.other;
    text = codes "isn't a directory, as tidings needs it to be: remove it";
  })
  made_tmp (err e) = elim e.kind [
    | not_found ↦ create_dir_all os (record_directory ∷ tmp ∷ [])
    | _ ↦ fail e
  ]

  unfoldable pub make_tmp_directory : Io IoError (Unit {0})
  make_tmp_directory d = made_tmp (symlink_metadata os d tmp) d

  module _ (failed : Text → IoError → Failure) where
    -- `sync_parent`, with `sync_directory` on Unix. The folder is synced under its own name.
    unfoldable pub sync_parent : Text → Io Failure (Unit {0})
    sync_parent at = map_err (failed (parent at)) (touch os Call.syncs_dir (parent at))

    -- The permissions of the file that is replaced.
    abbrev keep_permissions : Text → Result IoError Node → Io Failure (Unit {0})
    keep_permissions at (ok (file _)) = map_err (failed at) (touch os Call.sets_permissions at)
    keep_permissions at (ok not_text) = map_err (failed at) (touch os Call.sets_permissions at)
    keep_permissions at _ = pure tt

    unfoldable pub set_permissions : Text → Io Failure (Unit {0})
    set_permissions at d = keep_permissions at (symlink_metadata os d at) d

    -- `WorkingCopy::write`, up to the rename.
    unfoldable pub prepare : Text → Io Failure (Unit {0})
    unfolding make_tmp_directory set_permissions
    prepare at =
        map_err (failed tmp) make_tmp_directory
        >> map_err (failed tmp) (touch os Call.makes_tempfile tmp)
        >> map_err (failed at) (touch os Call.writes at)
        >> set_permissions at
        >> map_err (failed at) (touch os Call.syncs at)
        >> map_err (failed (parent at)) (create_dir_all os (directories_of at))

    -- `WorkingCopy::write`.
    unfoldable pub write : Text → Text → Io Failure (Unit {0})
    unfolding prepare sync_parent
    write at contents = prepare at >> map_err (failed at) (rename os contents at) >> sync_parent at

    -- The match of `remove_file_and_emptied_directories` on what removing a directory gave.
    abbrev go_on :
        Text
        → Io Failure (Unit {0})
        → Disk × Result IoError (Unit {0})
        → Disk × Result Failure (Unit {0})
    go_on directory next (after, ok _) = next after
    go_on directory next (after, err e) = elim e.kind [
      | directory_not_empty ↦ (after, ok tt)
      | _ ↦ (after, err (failed directory e))
    ]

    unfoldable pub remove_emptied : List Text → Io Failure (Unit {0})
    remove_emptied [] d = (d, ok tt)
    remove_emptied (directory ∷ directories) d =
        go_on directory (remove_emptied directories) (remove_dir os directory d)

    unfoldable pub remove_file_and_emptied_directories : Text → Text → Io Failure (Unit {0})
    unfolding sync_parent remove_emptied ancestors_below
    remove_file_and_emptied_directories top at =
        map_err (failed at) (remove_file os at)
        >> sync_parent at
        >> remove_emptied (ancestors_below top at)

  abbrev as_event : SyncEvent → Io Failure (Unit {0}) → Io Failure SyncEvent
  as_event event call = call >>= λ _. pure event

  -- `WorkingCopy::apply`.
  unfoldable pub apply : Text → Local → Option File → Io Failure SyncEvent
  unfolding write remove_file_and_emptied_directories
  apply path Local.absent (some theirs) =
      as_event (SyncEvent.created path) (write failed_at path theirs.contents)
  apply path _ (some theirs) =
      as_event (SyncEvent.updated path) (write failed_at path theirs.contents)
  apply path _ none =
      as_event (SyncEvent.removed path) (remove_file_and_emptied_directories failed_at [] path)
