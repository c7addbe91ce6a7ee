-- ===== src/Store.antt =====
-- The Store's layer above a Backend (src/store.rs, src/committed.rs, src/snapshot.rs). A Backend is
-- a record of its operations (`Backend` of src/backend/mod.rs); the memory Backend is one. A Commit
-- is one step, as it holds its turn from its start to its end. The clock is an argument.
pub mod Steps
pub mod Reflects
pub mod Failures
pub mod Tests
use tidings.Base.Tests.{Bool, true, false, Option, List, [], ◌∷◌, if◌then◌else◌}
use tidings.Base.Results.{ok, err, ◌>>=◌}
use tidings.Base.Text.{Text}
use tidings.Base.BTreeMap.{BTreeMap}
use tidings.ChangeFeed.{Origin, local, external, RawChange, ChangeKind}
use tidings.ChangeFeed.FeedSender
use tidings.ChangeFeed.FeedSender.{Shared, feed}
use tidings.Crates.{Crates}
use tidings.Error.{pending, Outcome}
use tidings.Files.{Revision, Timestamp, Stat, File}
use tidings.Paths
use tidings.Prefixes
use tidings.Revisions.{StoreId, PrefixRevision, prefix_revision_of}
use tidings.Staging.{Staging, refuse_wrong_prefix_revisions}
use tidings.Commits.{CommitRequest, Observed, missed, CommitOutcome}
use tidings.Memory
use tidings.Memory.{Held, MemorySnapshot}

-- The operations of a Backend whose state is `S` and whose Snapshots are `V`.
pub record Backend (S V : Type 0) : Type 0 where
  pub read : S → Text → Outcome (Option File)
  pub stat : S → Text → Outcome (Option Stat)
  pub list : S → Text → Outcome (List Text)
  pub revisions_under : S → Text → Outcome (List (Text × Revision))
  pub supports_snapshots : Bool
  pub snapshot : S → Outcome V
  pub commit : S → CommitRequest → S × Outcome CommitOutcome

-- The memory Backend, as `Backend::Memory` calls it.
unfoldable pub memory : Crates → Backend Held MemorySnapshot
memory c = record {
  read = λ held path. ok (Memory.read held.files path);
  stat = λ held path. ok (Memory.stat held.files path);
  list = λ held prefix. ok (Memory.list held.files prefix);
  revisions_under = λ held prefix. (Memory.held_state held).revisions_under prefix;
  supports_snapshots = true;
  snapshot = λ held. ok (Memory.snapshot held);
  commit = λ held request. Memory.commit c held request;
}

-- `Inner`.
pub record Store (S : Type 0) : Type 0 where
  pub id : StoreId
  pub backend : S
  pub feed : Shared

pub record Committed : Type 0 where
  pub timestamp : Timestamp
  pub revisions : BTreeMap Revision

-- `Store::new`.
unfoldable pub new : {S : Type 0} → StoreId → S → Store S
new id backend = record { id = id; backend = backend; feed = FeedSender.feed }

unfoldable pub record_observed : Shared → Observed → Shared
record_observed f (Observed.changes origin raw) = FeedSender.record_changes f raw origin
record_observed f missed = FeedSender.resync f

unfoldable pub record_all_observed : Shared → List Observed → Shared
record_all_observed f [] = f
record_all_observed f (o ∷ os) = record_all_observed (record_observed f o) os

module _ (c : Crates) {S V : Type 0} (b : Backend S V) where
  unfoldable pub read : Store S → Text → Outcome (Option File)
  read s path = do valid ← Paths.new c path; b.read s.backend valid

  unfoldable pub stat : Store S → Text → Outcome (Option Stat)
  stat s path = do valid ← Paths.new c path; b.stat s.backend valid

  unfoldable pub list : Store S → Text → Outcome (List Text)
  list s prefix = do valid ← Prefixes.new c prefix; b.list s.backend valid

  unfoldable pub stat_prefix : Store S → Text → Outcome PrefixRevision
  stat_prefix s prefix = do
    valid ← Prefixes.new c prefix
    files ← b.revisions_under s.backend valid
    ok (prefix_revision_of c s.id valid files)

  unfoldable pub snapshot : Store S → Outcome V
  snapshot s = b.snapshot s.backend

  -- What is done with the outcome of the Backend's commit.
  unfoldable pub conclude_commit :
      Store S → Timestamp → S × Outcome CommitOutcome → Store S × Outcome Committed
  conclude_commit s timestamp (after, err e) = (record s { backend = after }, err e)
  conclude_commit s timestamp (after, ok outcome) = (
    record s {
      backend = after;
      feed =
          FeedSender.record_changes (record_all_observed s.feed outcome.observed_before)
            outcome.changes local;
    },
    if outcome.pending
        then err pending
        else ok (record { timestamp = timestamp; revisions = outcome.revisions }),
  )

  -- The rest of `Store::commit`, after the check of the required Prefix Revisions.
  unfoldable pub commit_checked :
      Store S → Timestamp → Staging → Outcome (Unit {0}) → Store S × Outcome Committed
  commit_checked s timestamp staged (err e) = (s, err e)
  commit_checked s timestamp staged (ok _) =
      conclude_commit s timestamp
        (b.commit s.backend (record { timestamp = timestamp; staged = staged }))

  -- `Store::commit`, at this time of the clock.
  unfoldable pub commit : Store S → Timestamp → Staging → Store S × Outcome Committed
  commit s timestamp staged =
      commit_checked s timestamp staged (refuse_wrong_prefix_revisions staged s.id)

  -- `Store::inject_external_change`.
  unfoldable pub inject_external_change : Store S → Text → ChangeKind → Store S × Outcome (Unit {0})
  inject_external_change s path kind = elim (Paths.new c path) [
    | err e ↦ (s, err e)
    | ok valid ↦ (
      record s {
        feed =
            FeedSender.record_changes s.feed (record { path = valid; kind = kind } ∷ []) external;
      },
      ok tt,
    )
  ]
