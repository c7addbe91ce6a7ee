-- ===== src/WorkingCopy/Reports.antt =====
-- What the commands of a Working copy report (cli/src/working_copy.rs, and `Unfit` and `LocalName`
-- of cli/src/working_copy/scan.rs).
use tidings.Base.Tests.{Bool, Option, none, some, List, ◌∷◌, ◌++◌}
use tidings.Base.Text.{Text, codes, slash}
use tidings.Files.{Revision}

-- `RECORD_DIRECTORY`, `TMP_DIRECTORY`, `THEIRS_DIRECTORY` and `IGNORE_FILE`.
abbrev pub record_directory : Text
record_directory = codes ".tidings"

abbrev pub tmp_directory : Text
tmp_directory = codes "tmp"

abbrev pub theirs_directory : Text
theirs_directory = codes "theirs"

abbrev pub ignore_file : Text
ignore_file = codes "ignore"

-- `join`, of names under the folder.
abbrev pub join : Text → Text → Text
join directory name = directory ++ (slash ∷ name)

pub data Blocked : Type 0 where
  symlink not_a_directory directory : Text → Blocked

-- `Blocked::reason`.
unfoldable pub reason : Blocked → Text
reason (symlink name) = name ++ codes " is a symlink"
reason (not_a_directory name) = name ++ codes " isn't a directory"
reason (directory path) = path ++ codes " is a directory"

pub record DivergedPath : Type 0 where
  pub path : Text
  pub theirs_file : Option Text
  pub blocked : Option Blocked

pub data SyncEvent : Type 0 where
  created updated removed resolved : Text → SyncEvent
  diverged : DivergedPath → SyncEvent
  -- the Path and the message
  error : Text → Text → SyncEvent
  resync caught_up : SyncEvent

-- `SyncEvent::path`.
unfoldable pub path_of : SyncEvent → Option Text
path_of (created path) = some path
path_of (updated path) = some path
path_of (removed path) = some path
path_of (resolved path) = some path
path_of (diverged d) = some d.path
path_of (error path message) = some path
path_of resync = none
path_of caught_up = none

-- `Local`.
pub data Local : Type 0 where
  absent directory other : Local
  file : Text → Local

pub data LocalChange : Type 0 where
  added modified deleted : LocalChange

-- `Reconciled`.
pub data Reconciled : Type 0 where
  event : SyncEvent → Reconciled
  took_stores_file : Text → Reconciled

-- A `LocalName` is its text.
abbrev pub LocalName : Type 0
LocalName = Text

pub record Unfit : Type 0 where
  pub name : LocalName
  pub reason : Text

pub record CommittedChange : Type 0 where
  pub path : Text
  pub change : LocalChange
  pub revision : Option Revision

pub record CommitReport : Type 0 where
  pub changes : List CommittedChange
  pub pending : Bool
  pub events : List SyncEvent
