-- ===== src/WorkingCopy/Commit.antt =====
-- `commit` of a Working copy (cli/src/working_copy.rs): one Commit of its local changes to a Store
-- over any Backend. No one else commits to the Store meanwhile. The command holds the lock, so the
-- record is the one that was saved until it changes it.
pub mod Ends
pub mod Staged
pub mod NoOverwrite
pub mod Recorded
use tidings.WorkingCopy.Attempts.{
  tries_again, record_file, set_of, reconciled, Attempt, Working, Change, CommitOutcome,
}
use tidings.Base.Tests.{
  ℕ, zero, suc, Bool, true, false, not, ◌&&◌, ◌||◌, Option, none, some, List, [], ◌∷◌, ◌++◌, map,
  is_some, if◌then◌else◌,
}
use tidings.Base.Lists.{all}
use tidings.Base.Results.{Result, ok, err, ◌>>=◌, ◌>>◌}
use tidings.Base.Text.{Text, codes}
use tidings.Base.BTreeMap.{BTreeMap, get, insert, keys}
use tidings.Error.{Error, Outcome}
use tidings.Files.{Revision, Timestamp, File, Precondition, absent, unchanged_since}
use tidings.Staging
use tidings.Staging.{Staging}
use tidings.Store
use tidings.Store.{Backend, Store, Committed}
use tidings.Disk.{Disk, Call, Io}
use tidings.WorkingCopy.Record.{Base, Record, base_of, base_holds, set_base}
use tidings.WorkingCopy.Reports.{
  record_directory, join, SyncEvent, Reconciled, took_stores_file, event, LocalChange,
  CommittedChange, CommitReport, path_of,
}
use tidings.WorkingCopy.Failures.{Failure, of_error, conflicted}
use tidings.WorkingCopy.Folder.{Env, failed_at}
use tidings.WorkingCopy.Reconcile.Paths.{Progress, extend, reconcile_paths}
use tidings.WorkingCopy.Differences.{Scan, Difference, local_change, changes}
use tidings.WorkingCopy.Scan.{Gitignore, scan}
use tidings.WorkingCopy.Selection.{
  Selection, NamingCommand, covers, check_each_names_something, refuse_diverged, refuse_invalid,
}

module _ (env : Env) where
  open env use {crates, os, debug}

  abbrev pub in_failure {ℓ} : {A : Type ℓ} → Outcome A → Result Failure A
  in_failure (ok a) = ok a
  in_failure (err e) = err (of_error debug e)

  -- The match of `stage` on how a Path differs.
  abbrev pub stage_difference : Staging → Text → Difference → Outcome Staging
  stage_difference s path (Difference.added contents) =
      Staging.write_requiring crates s path contents absent
  stage_difference s path (Difference.modified contents base) =
      Staging.write_requiring crates s path contents (unchanged_since base.revision)
  stage_difference s path (Difference.deleted base) =
      Staging.delete_requiring crates s path (unchanged_since base.revision)

  -- The loop of `WorkingCopy::stage`.
  unfoldable pub stage_each :
      Selection
      → List (Text × Difference)
      → Staging × List Change
      → Result Failure (Staging × List Change)
  stage_each selection [] staged = ok staged
  stage_each selection ((path, difference) ∷ more) (s, staged) =
      let skipped = stage_each selection more (s, staged) in
      let kept = in_failure (stage_difference s path difference) >>= λ t.
      stage_each selection more (t, staged ++ ((path, local_change difference) ∷ [])) in
      if not (covers selection path) then skipped else kept

  -- `WorkingCopy::stage`.
  unfoldable pub stage : Scan → Selection → Result Failure (Staging × List Change)
  unfolding stage_each
  stage found selection = stage_each selection (changes env found) (Staging.new, [])

  -- A successful Commit's Revision becomes the Base of each Path, and a deleted one loses it.
  abbrev pub new_base : BTreeMap Revision → BTreeMap Text → Text → Option Base
  new_base revisions files path = elim (get path revisions) [
    | none ↦ none
    | some revision ↦ elim (get path files) [
      | none ↦ none
      | some contents ↦ some (base_of crates revision contents)
    ]
  ]

  unfoldable pub rebase_each : BTreeMap Revision → BTreeMap Text → List Change → Record → Record
  rebase_each revisions files [] r = r
  rebase_each revisions files ((path, _) ∷ more) r =
      rebase_each revisions files more (set_base r path (new_base revisions files path))

  -- The report on one committed change.
  abbrev pub committed_change : Record → BTreeMap Text → Change → CommittedChange
  committed_change r files (path, change) = record {
    path = path;
    change = change;
    revision = elim (get path r.bases) [
      | none ↦ none
      | some base ↦ elim (get path files) [
        | none ↦ none
        | some contents ↦ if base_holds crates base contents then some base.revision else none
      ]
    ];
  }

  module _ {S V : Type 0} (b : Backend S V) where
    -- A call on the Working copy that may fail.
    abbrev pub Done {ℓ} : Type ℓ → Type ℓ
    Done A = Working S × Result Failure A

    abbrev and_go {ℓ κ} : {A : Type ℓ} {B : Type κ} → Done A → (A → Working S → Done B) → Done B
    and_go (w, err f) next = (w, err f)
    and_go (w, ok a) next = next a w

    -- `WorkingCopy::save`.
    unfoldable pub save : Working S → Done (Unit {0})
    save w = elim (os.refuses w.disk Call.writes record_file) [
      | some e ↦ (w, err (failed_at env record_file e))
      | none ↦ (record w { saved = w.record_now }, ok tt)
    ]

    abbrev reconciled_after : Working S → Disk × Result Failure Progress → Done (List SyncEvent)
    reconciled_after w (d, err f) = (record w { disk = d }, err f)
    reconciled_after w (d, ok p) = (record w { disk = d; record_now = p.record_now }, ok p.events)

    -- `WorkingCopy::reconcile_after_commit`.
    unfoldable pub reconcile_after_commit : Working S → List Text → Done (List SyncEvent)
    unfolding reconcile_paths
    reconcile_after_commit w paths =
        reconciled_after w
          (reconcile_paths env (Store.read crates b w.store) w.record_now paths [] w.disk)

    abbrev pending_after : Done (List SyncEvent) → Done CommitOutcome
    pending_after (w, err f) = (w, err f)
    pending_after (w, ok events) = (w, ok (CommitOutcome.pending events))

    abbrev conflict_after : List Text → Done (List SyncEvent) → Done CommitOutcome
    conflict_after paths (w, err f) = (w, err f)
    conflict_after paths (w, ok events) = (w, ok (CommitOutcome.conflict (reconciled paths events)))

    -- `WorkingCopy::record_commit`.
    unfoldable pub record_commit :
        Working S → List Change → BTreeMap Text → Outcome Committed → Done CommitOutcome
    unfolding reconcile_after_commit rebase_each reconciled
    record_commit w changes files (ok done) = (
      record w { record_now = rebase_each done.revisions files changes w.record_now },
      ok CommitOutcome.committed,
    )
    record_commit w changes files (err Error.pending) =
        pending_after (reconcile_after_commit w (set_of (map (λ (c : Change). c.0) changes)))
    record_commit w changes files (err (Error.conflict paths)) =
        conflict_after (set_of paths) (reconcile_after_commit w (set_of paths))
    record_commit w changes files (err e) = (w, err (of_error debug e))

    abbrev saved_attempt : List Change → BTreeMap Text → Done CommitOutcome → Done (Option Attempt)
    saved_attempt changes files (w, err f) = (w, err f)
    saved_attempt changes files (w, ok outcome) =
        and_go (save w)
          (λ _ v. (v, ok (some (record { changes = changes; files = files; outcome = outcome }))))

    -- The Commit of what is staged; nothing is committed where nothing has changed.
    unfoldable pub commit_staged :
        Working S → Timestamp → BTreeMap Text → Staging × List Change → Done (Option Attempt)
    unfolding record_commit save
    commit_staged w now files (staging, []) = (w, ok none)
    commit_staged w now files (staging, change ∷ more) =
        let (store, result) = Store.commit crates b w.store now staging in
        saved_attempt (change ∷ more) files
          (record_commit (record w { store = store }) (change ∷ more) files result)

    module _ {G : Type 0} (gitignore : Gitignore G) where
      -- What is staged, or why nothing may be.
      unfoldable pub prepare :
          Working S → Selection → Result Failure (BTreeMap Text × (Staging × List Change))
      unfolding stage
      prepare w selection = scan env gitignore w.disk w.record_now.bases >>= λ found.
          check_each_names_something selection found w.record_now NamingCommand.commit
          >> refuse_invalid found.invalid selection
          >> (stage found selection >>= λ staged. ok (found.files, staged))

      abbrev commit_prepared :
          Working S
          → Timestamp
          → Result Failure (BTreeMap Text × (Staging × List Change))
          → Done (Option Attempt)
      commit_prepared w now (err f) = (w, err f)
      commit_prepared w now (ok (files, staged)) = commit_staged w now files staged

      -- `WorkingCopy::try_commit`, at this time of the clock.
      unfoldable pub try_commit : Working S → Timestamp → Selection → Done (Option Attempt)
      unfolding prepare commit_staged
      try_commit w now selection = commit_prepared w now (prepare w selection)

      -- What one turn of the loop of `commit` does with its attempt: `next` is the next turn.
      abbrev pub attempted :
          (Working S → Option (Done (Option Attempt)))
          → Bool
          → Done (Option Attempt)
          → Option (Done (Option Attempt))
      attempted next retried (w, err f) = some (w, err f)
      attempted next retried (w, ok none) = some (w, ok none)
      attempted next retried (w, ok (some attempt)) =
          let again = next w in
          if not retried && tries_again attempt.outcome then again else some (w, ok (some attempt))

      -- The loop of `WorkingCopy::commit`, with fuel for each turn, at the time of the clock before
      -- the retry and at the retry. With no fuel left there is no result.
      unfoldable pub commit_loop :
          ℕ → (Bool → Timestamp) → Selection → Bool → Working S → Option (Done (Option Attempt))
      unfolding try_commit
      commit_loop zero clock selection retried w = none
      commit_loop (suc fuel) clock selection retried w =
          attempted (commit_loop fuel clock selection true) retried
            (try_commit w (clock retried) selection)

      abbrev pub report : Working S → Attempt → Bool → List SyncEvent → CommitReport
      report w attempt is_pending events = record {
        changes = map (committed_change w.record_now attempt.files) attempt.changes;
        pending = is_pending;
        events = events;
      }

      abbrev pub concluded : Working S → Attempt → CommitOutcome → Result Failure CommitReport
      concluded w attempt CommitOutcome.committed = ok (report w attempt false [])
      concluded w attempt (CommitOutcome.pending events) = ok (report w attempt true events)
      concluded w attempt (CommitOutcome.conflict outcomes) = err (conflicted outcomes)

      abbrev pub conclude : Option (Done (Option Attempt)) → Option (Done CommitReport)
      conclude none = none
      conclude (some (w, err f)) = some (w, err f)
      conclude (some (w, ok none)) =
          some (w, ok (record { changes = []; pending = false; events = [] }))
      conclude (some (w, ok (some attempt))) = some (w, concluded w attempt attempt.outcome)

      abbrev pub commit_unless :
          Result Failure (Unit {0})
          → (Bool → Timestamp)
          → Selection
          → Working S
          → Option (Done CommitReport)
      commit_unless (err f) clock selection w = some (w, err f)
      commit_unless (ok _) clock selection w = conclude (commit_loop 2 clock selection false w)

      -- `WorkingCopy::commit`, under its lock, of what `select` gave.
      unfoldable pub commit :
          (Bool → Timestamp) → Selection → Working S → Option (Done CommitReport)
      unfolding commit_loop refuse_diverged
      commit clock selection w =
          commit_unless (refuse_diverged w.record_now selection) clock selection w
