-- ===== src/WorkingCopy/Folder/Outcomes.antt =====
-- What writing and removing in the folder of a Working copy does (cli/src/working_copy.rs).
use tidings.Disk.Places.{
  rename-Places, >>-Places_next, remove_file-Places, map_err-Places, >>=-Places_first,
  >>-Places_first, Places,
}
use tidings.Base.Tests.{◌≡◌, ◌∙◌, false, Option, none, some, List, [], ◌∷◌, arith}
use tidings.Base.Results.{Result, ok, err}
use tidings.Base.Text.{Text, text_eq}
use tidings.Files.{File}
use tidings.Disk.{
  Node, file, not_text, symlink, special, dir, Disk, IoError, Io, map_err, touch, remove_file,
  remove_dir, create_dir, symlink_metadata, Call,
}
use tidings.Disk.Leaves.{
  held, Leaves, >>=-Leaves, >>-Leaves, map_err-Leaves, touch-Leaves, remove_file-Leaves,
  remove_dir-Leaves, pure-Leaves, create_dir-Leaves, create_dir_all-Leaves, rename-Leaves,
}
use tidings.WorkingCopy.Reports.{record_directory, Local, SyncEvent}
use tidings.WorkingCopy.Failures.{Failure}
use tidings.WorkingCopy.Folder.{
  prepare, Env, tmp, parent, ancestors_below, failed_at, directories_of, made_tmp,
  make_tmp_directory, sync_parent, keep_permissions, set_permissions, write, go_on, remove_emptied,
  remove_file_and_emptied_directories, as_event, apply,
}

module _ (env : Env) where
  open env use {os}

  made_tmp-Leaves :
      (name : Text) (seen : Result IoError Node)
      → text_eq name tmp ≡ false
      → Leaves name (made_tmp env seen)
  made_tmp-Leaves name (ok dir) h = pure-Leaves name _
  made_tmp-Leaves name (ok symlink) h =
      >>-Leaves name (remove_file os tmp) (create_dir os tmp) (remove_file-Leaves os name tmp h)
        (create_dir-Leaves os name tmp)
  made_tmp-Leaves name (ok (file _)) h = pure-Leaves name _
  made_tmp-Leaves name (ok not_text) h = pure-Leaves name _
  made_tmp-Leaves name (ok special) h = pure-Leaves name _
  made_tmp-Leaves name (err e) h =
      let made = create_dir_all-Leaves os name (record_directory ∷ tmp ∷ []) in
      record { same = λ d. ground (arith, made.same d) }

  module _ (failed : Text → IoError → Failure) where
    touched-Leaves :
        (name at : Text) (call : Call) → Leaves name (map_err (failed at) (touch os call at))
    touched-Leaves name at call =
        map_err-Leaves name (failed at) (touch os call at) (touch-Leaves os name at call)

    keep_permissions-Leaves :
        (name at : Text) (seen : Result IoError Node)
        → Leaves name (keep_permissions env failed at seen)
    keep_permissions-Leaves name at (ok (file _)) = touched-Leaves name at Call.sets_permissions
    keep_permissions-Leaves name at (ok not_text) = touched-Leaves name at Call.sets_permissions
    keep_permissions-Leaves name at (ok dir) = pure-Leaves name _
    keep_permissions-Leaves name at (ok symlink) = pure-Leaves name _
    keep_permissions-Leaves name at (ok special) = pure-Leaves name _
    keep_permissions-Leaves name at (err e) = pure-Leaves name _

    make_tmp-Leaves :
        (name : Text)
        → text_eq name tmp ≡ false
        → Leaves name (map_err (failed tmp) (make_tmp_directory env))
    unfolding make_tmp_directory
    make_tmp-Leaves name k = record {
      same = λ d. (made_tmp-Leaves name (symlink_metadata os d tmp) k).same d;
    }

    set_permissions-Leaves : (name at : Text) → Leaves name (set_permissions env failed at)
    unfolding set_permissions
    set_permissions-Leaves name at = record {
      same = λ d. (keep_permissions-Leaves name at (symlink_metadata os d at)).same d;
    }

    sync_parent-Leaves : (name at : Text) → Leaves name (sync_parent env failed at)
    unfolding sync_parent
    sync_parent-Leaves name at = touched-Leaves name (parent at) Call.syncs_dir

    prepare-Leaves :
        (name at : Text) → text_eq name tmp ≡ false → Leaves name (prepare env failed at)
    unfolding prepare
    prepare-Leaves name at k =
        let made = make_tmp-Leaves name k in
        let opened = >>-Leaves name _ _ made (touched-Leaves name tmp Call.makes_tempfile) in
        let written = >>-Leaves name _ _ opened (touched-Leaves name at Call.writes) in
        let permitted = >>-Leaves name _ _ written (set_permissions-Leaves name at) in
        let synced = >>-Leaves name _ _ permitted (touched-Leaves name at Call.syncs) in
        let parents = create_dir_all-Leaves os name (directories_of at) in
        >>-Leaves name _ _ synced (map_err-Leaves name (failed (parent at)) _ parents)

    -- Writing a file leaves every other one.
    pub write-Leaves :
        (name at contents : Text)
        → text_eq name at ≡ false
        → text_eq name tmp ≡ false
        → Leaves name (write env failed at contents)
    unfolding write
    write-Leaves name at contents h k =
        let moved = map_err-Leaves name (failed at) _ (rename-Leaves os name at contents h) in
        >>-Leaves name _ _ (>>-Leaves name _ _ (prepare-Leaves name at k) moved)
          (sync_parent-Leaves name at)

    removed_next-held :
        (name directory : Text) (directories : List Text)
        (removed : Disk × Result IoError (Unit {0})) (was : Option Node)
        → held name removed.0 ≡ was
        → Leaves name (remove_emptied env failed directories)
        → held name (go_on env failed directory (remove_emptied env failed directories) removed).0
          ≡ was
    removed_next-held name directory directories (after, ok _) was h next = next.same after ∙ h
    removed_next-held name directory directories (after, err e) was h next = ground arith

    remove_emptied-Leaves :
        (name : Text) (directories : List Text)
        → Leaves name (remove_emptied env failed directories)
    unfolding remove_emptied
    remove_emptied-Leaves name [] = pure-Leaves name (ok tt)
    remove_emptied-Leaves name (directory ∷ directories) = record {
      same = λ d.
          removed_next-held name directory directories (remove_dir os directory d) (held name d)
            ((remove_dir-Leaves os name directory).same d) (remove_emptied-Leaves name directories);
    }

    pub remove-Leaves :
        (name top at : Text)
        → text_eq name at ≡ false
        → Leaves name (remove_file_and_emptied_directories env failed top at)
    unfolding remove_file_and_emptied_directories
    remove-Leaves name top at h =
        let removed = map_err-Leaves name (failed at) _ (remove_file-Leaves os name at h) in
        >>-Leaves name _ _ (>>-Leaves name _ _ removed (sync_parent-Leaves name at))
          (remove_emptied-Leaves name (ancestors_below top at))

    -- A file that was written is there.
    write-Places :
        (at contents : Text) → Places at (some (file contents)) (write env failed at contents)
    unfolding write
    write-Places at contents =
        let moved = map_err-Places at _ (failed at) _ (rename-Places os contents at) in
        let prepared = >>-Places_next at _ (prepare env failed at) _ moved in
        >>-Places_first at _ _ _ prepared (sync_parent-Leaves at at)

    -- A file that was removed is gone.
    remove-Places :
        (top at : Text) → Places at none (remove_file_and_emptied_directories env failed top at)
    unfolding remove_file_and_emptied_directories
    remove-Places top at =
        let removed = map_err-Places at none (failed at) _ (remove_file-Places os at) in
        >>-Places_first at none _ _ (>>-Places_first at none _ _ removed (sync_parent-Leaves at at))
          (remove_emptied-Leaves at (ancestors_below top at))

  -- What a File is in the folder.
  abbrev pub as_node : Option File → Option Node
  as_node none = none
  as_node (some theirs) = some (file theirs.contents)

  as_event-Leaves :
      (name : Text) (event : SyncEvent) (call : Io Failure (Unit {0}))
      → Leaves name call
      → Leaves name (as_event env event call)
  as_event-Leaves name event call h = >>=-Leaves name call _ h (λ _. pure-Leaves name (ok event))

  as_event-Places :
      (name : Text) (what : Option Node) (event : SyncEvent) (call : Io Failure (Unit {0}))
      → Places name what call
      → Places name what (as_event env event call)
  as_event-Places name what event call p =
      >>=-Places_first name what call _ p (λ _. pure-Leaves name (ok event))

  -- Applying the Store's File at a Path leaves every other file of the folder.
  pub apply-Leaves :
      (name path : Text) (held_there : Local) (theirs : Option File)
      → text_eq name path ≡ false
      → text_eq name tmp ≡ false
      → Leaves name (apply env path held_there theirs)
  unfolding apply
  apply-Leaves name path Local.absent (some theirs) h k =
      as_event-Leaves name _ _ (write-Leaves (failed_at env) name path theirs.contents h k)
  apply-Leaves name path Local.directory (some theirs) h k =
      as_event-Leaves name _ _ (write-Leaves (failed_at env) name path theirs.contents h k)
  apply-Leaves name path Local.other (some theirs) h k =
      as_event-Leaves name _ _ (write-Leaves (failed_at env) name path theirs.contents h k)
  apply-Leaves name path (Local.file _) (some theirs) h k =
      as_event-Leaves name _ _ (write-Leaves (failed_at env) name path theirs.contents h k)
  apply-Leaves name path Local.absent none h k =
      as_event-Leaves name _ _ (remove-Leaves (failed_at env) name [] path h)
  apply-Leaves name path Local.directory none h k =
      as_event-Leaves name _ _ (remove-Leaves (failed_at env) name [] path h)
  apply-Leaves name path Local.other none h k =
      as_event-Leaves name _ _ (remove-Leaves (failed_at env) name [] path h)
  apply-Leaves name path (Local.file _) none h k =
      as_event-Leaves name _ _ (remove-Leaves (failed_at env) name [] path h)

  -- Where it succeeds, the folder holds the Store's File there.
  pub apply-Places :
      (path : Text) (held_there : Local) (theirs : Option File)
      → Places path (as_node theirs) (apply env path held_there theirs)
  unfolding apply
  apply-Places path Local.absent (some theirs) =
      as_event-Places path _ _ _ (write-Places (failed_at env) path theirs.contents)
  apply-Places path Local.directory (some theirs) =
      as_event-Places path _ _ _ (write-Places (failed_at env) path theirs.contents)
  apply-Places path Local.other (some theirs) =
      as_event-Places path _ _ _ (write-Places (failed_at env) path theirs.contents)
  apply-Places path (Local.file _) (some theirs) =
      as_event-Places path _ _ _ (write-Places (failed_at env) path theirs.contents)
  apply-Places path Local.absent none =
      as_event-Places path _ _ _ (remove-Places (failed_at env) [] path)
  apply-Places path Local.directory none =
      as_event-Places path _ _ _ (remove-Places (failed_at env) [] path)
  apply-Places path Local.other none =
      as_event-Places path _ _ _ (remove-Places (failed_at env) [] path)
  apply-Places path (Local.file _) none =
      as_event-Places path _ _ _ (remove-Places (failed_at env) [] path)
