-- ===== src/WorkingCopy/Attempts.antt =====
-- One attempt of `commit` of a Working copy, what it comes to, and what became of each Path of a
-- Conflict (cli/src/working_copy.rs).
use tidings.Base.Tests.{Bool, true, false, none, some, List, [], ◌∷◌, ◌++◌, map}
use tidings.Base.Lists.{all}
use tidings.Base.Text.{Text, codes}
use tidings.Base.BTreeMap.{BTreeMap, get, insert, keys}
use tidings.Store.{Store}
use tidings.Disk.{Disk}
use tidings.WorkingCopy.Record.{Record}
use tidings.WorkingCopy.Reports.{
  record_directory, join, SyncEvent, Reconciled, took_stores_file, event, LocalChange, path_of,
}
use tidings.WorkingCopy.Reconcile.Paths.{extend}

-- `RECORD_FILE`, in the record's directory.
abbrev pub record_file : Text
record_file = join record_directory (codes "working-copy")

-- A Path and what its local change is.
abbrev pub Change : Type 0
Change = Text × LocalChange

-- `CommitOutcome`.
pub data CommitOutcome : Type 0 where
  committed : CommitOutcome
  pending : List SyncEvent → CommitOutcome
  conflict : List Reconciled → CommitOutcome

pub record Attempt : Type 0 where
  pub changes : List Change
  pub files : BTreeMap Text
  pub outcome : CommitOutcome

-- The Store, the record in hand and as it was saved, and the folder.
pub record Working (S : Type 0) : Type 0 where
  pub store : Store S
  pub record_now : Record
  pub saved : Record
  pub disk : Disk

abbrev pub nothing_each : List Text → BTreeMap (List SyncEvent)
nothing_each [] = []
nothing_each (path ∷ paths) = insert path [] (nothing_each paths)

-- The loop of `reconciled` over the events.
unfoldable pub by_path : List SyncEvent → BTreeMap (List SyncEvent) → BTreeMap (List SyncEvent)
by_path [] events_of = events_of
by_path (e ∷ events) events_of = by_path events (elim (path_of e) [
  | none ↦ events_of
  | some path ↦
      insert path (elim (get path events_of) [ none ↦ e ∷ [] | some before ↦ before ++ (e ∷ []) ])
        events_of
])

-- What became of one Path, and of each.
abbrev pub reconciled_path : Text → List SyncEvent → List Reconciled
reconciled_path path [] = took_stores_file path ∷ []
reconciled_path path (e ∷ events) = event e ∷ map event events

unfoldable pub reconciled_each : BTreeMap (List SyncEvent) → List Reconciled
reconciled_each [] = []
reconciled_each ((path, events) ∷ more) = reconciled_path path events ++ reconciled_each more

-- `reconciled`.
unfoldable pub reconciled : List Text → List SyncEvent → List Reconciled
unfolding by_path reconciled_each
reconciled paths events = reconciled_each (by_path events (nothing_each paths))

abbrev pub took : Reconciled → Bool
took (event _) = false
took (took_stores_file _) = true

-- `all_took_stores_file`.
unfoldable pub all_took_stores_file : List Reconciled → Bool
all_took_stores_file outcomes = all took outcomes

-- Whether `commit` tries once more after an attempt.
abbrev pub tries_again : CommitOutcome → Bool
tries_again committed = false
tries_again (pending _) = false
tries_again (conflict outcomes) = all_took_stores_file outcomes

-- The set of some Paths, in order.
abbrev pub set_of : List Text → List Text
set_of paths = keys (extend [] paths)
