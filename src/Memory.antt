-- ===== src/Memory.antt =====
-- The memory Backend (src/backend/memory.rs). The lock is held for a whole operation, so each is a
-- function on `Held`. The sharing of the Files with Snapshots by `Arc` is not modelled: a Snapshot
-- is the value of the Files.
pub mod Views
pub mod Changes
pub mod Commit
pub mod Folds
pub mod Tests
pub mod RenameTests
use tidings.Base.Tests.{Bool, not, Option, none, some, List, [], ◌∷◌, ◌++◌, if◌then◌else◌}
use tidings.Base.Lists.{filter}
use tidings.Base.Results.{ok, err}
use tidings.Base.Text.{Text}
use tidings.Base.BTreeMap.{BTreeMap, get, insert, remove, retain, keys}
use tidings.Crates.{Crates}
use tidings.Error.{Error, Outcome}
use tidings.Files.{Revision, Stat, File}
use tidings.Paths.{letter_case_fold, range_under, in_range}
use tidings.Prefixes.{covers}
use tidings.StoreState.{StoreState}
use tidings.Commits.{Planned, CommitRequest, CommitOutcome, Plan, plan, apply}
use tidings.Commits.Names.{has_name}

pub record Stored : Type 0 where
  pub contents : Text
  pub stat : Stat

pub record Held : Type 0 where
  pub files : BTreeMap Stored
  -- Each Path, by its fold.
  pub folds : BTreeMap Text

-- `MemoryBackend::default`.
abbrev pub empty : Held
empty = record { files = []; folds = [] }

abbrev pub MemorySnapshot : Type 0
MemorySnapshot = BTreeMap Stored

unfoldable pub read : BTreeMap Stored → Text → Option File
read files path = elim (get path files) [
  | none ↦ none
  | some stored ↦ some (record { path = path; contents = stored.contents; stat = stored.stat })
]

unfoldable pub stat : BTreeMap Stored → Text → Option Stat
stat files path = elim (get path files) [ none ↦ none | some stored ↦ some stored.stat ]

unfoldable pub list : BTreeMap Stored → Text → List Text
list files prefix = keys (retain (covers prefix) files)

-- `MemoryBackend::snapshot`.
unfoldable pub snapshot : Held → MemorySnapshot
snapshot held = held.files

-- The Revision of each File.
unfoldable pub revisions : BTreeMap Stored → BTreeMap Revision
revisions [] = []
revisions ((path, stored) ∷ files) = (path, stored.stat.revision) ∷ revisions files

abbrev pub revision_of : Option Stored → Option Revision
revision_of none = none
revision_of (some stored) = some stored.stat.revision

-- The Paths of the folds in the range.
unfoldable pub paths_in_range : Text × Text → BTreeMap Text → List Text
paths_in_range range [] = []
paths_in_range range ((fold, path) ∷ folds) =
    let rest = paths_in_range range folds in if in_range range fold then path ∷ rest else rest

abbrev pub to_list {ℓ} : {A : Type ℓ} → Option A → List A
to_list none = []
to_list (some a) = a ∷ []

-- `impl StoreState for Held`.
unfoldable pub held_state : Held → StoreState
held_state held = record {
  revision = λ path. ok (revision_of (get path held.files));
  revisions_under = λ prefix. ok (revisions (retain (covers prefix) held.files));
  paths_under = λ prefix. ok (list held.files prefix);
  paths_named_like = λ name fold. ok (
      filter (λ path. not (has_name path name))
        (to_list (get fold held.folds) ++ paths_in_range (range_under fold) held.folds));
}

module _ (c : Crates) where
  -- The closure of `commit`: a File written where there was none enters its fold.
  unfoldable pub change : Text → Planned → Held → Held × Outcome (Unit {0})
  change path (Planned.write contents stat) held = (
    record {
      files = insert path (record { contents = contents; stat = stat }) held.files;
      folds = elim (get path held.files) [
        | none ↦ insert (letter_case_fold c path) path held.folds
        | some _ ↦ held.folds
      ];
    },
    ok tt,
  )
  change path (Planned.remove _) held = (
    record { files = remove path held.files; folds = remove (letter_case_fold c path) held.folds },
    ok tt,
  )

  -- The rest of `commit`, after the plan and its `?`.
  unfoldable pub commit_plan : Held → Outcome Plan → Held × Outcome CommitOutcome
  commit_plan held (err e) = (held, err e)
  commit_plan held (ok p) = apply change p held

  -- `MemoryBackend::commit`: the Files after it, and what it gives.
  unfoldable pub commit : Held → CommitRequest → Held × Outcome CommitOutcome
  commit held request = commit_plan held (plan c (held_state held) request)
