-- ===== src/Store/Failures.antt =====
-- What a Commit to a Store in memory that fails leaves (src/store.rs).
use tidings.Base.Tests.{arith, ◌≡◌, refl, ap, sym, ◌∙◌, false, if◌then◌else◌}
use tidings.Base.Results.{ok, err}
use tidings.Base.BTreeMap.Sorted.{IsSorted}
use tidings.Crates.{Crates}
use tidings.Error.{Error, pending, Outcome}
use tidings.Files.{Timestamp}
use tidings.Staging
use tidings.Staging.{refuse_wrong_prefix_revisions}
use tidings.Commits.{CommitRequest, CommitOutcome}
use tidings.Memory
use tidings.Memory.{Held}
use tidings.Memory.Commit.{commit_atomic}
use tidings.Store.{Store, Committed, memory, commit, commit_checked, conclude_commit}
use tidings.Store.Steps.{commit-Told}

module _ (c : Crates) (s : Store Held) (timestamp : Timestamp) (staged : Staging.Staging)
    (sorted : IsSorted s.backend.files) (ordered : IsSorted staged.actions) where
  abbrev request : CommitRequest
  request = record { timestamp = timestamp; staged = staged }

  not_pending :
      (outcome : CommitOutcome) (e : Error) (committed : Committed)
      → outcome.pending ≡ false
      → ◌≡◌ {A = Outcome Committed} (if outcome.pending then err pending else ok committed) (err e)
      → ⊥
  not_pending outcome e committed h k = ground arith

  concluded :
      (r : Held × Outcome CommitOutcome) (e : Error)
      → Memory.commit c s.backend request ≡ r
      → (conclude_commit c (memory c) s timestamp r).1 ≡ err e
      → (conclude_commit c (memory c) s timestamp r).0 ≡ s
  unfolding conclude_commit
  concluded (after, err x) e h k =
      let failed : (Memory.commit c s.backend request).1 ≡ err x = ap (λ r. r.1) h in
      let kept : after ≡ s.backend =
        sym (ap (λ r. r.0) h) ∙ (commit_atomic c s.backend request x failed).0 in
      ap (λ b. record s { backend = b }) kept
  concluded (after, ok outcome) e h k =
      let made : (Memory.commit c s.backend request).1 ≡ ok outcome = ap (λ r. r.1) h in
      let told = commit-Told c s.backend request sorted ordered outcome made in
      absurd (not_pending outcome e _ told.2 k)

  checked :
      (r : Outcome (Unit {0})) (e : Error)
      → (commit_checked c (memory c) s timestamp staged r).1 ≡ err e
      → (commit_checked c (memory c) s timestamp staged r).0 ≡ s
  unfolding commit_checked memory
  checked (err x) e k = refl
  checked (ok _) e k = concluded (Memory.commit c s.backend request) e refl k

  -- A Commit to a Store in memory that fails, whatever the error, leaves the Store as it was: its
  -- Files, and its Change feed too.
  pub commit-fails :
      (e : Error)
      → (commit c (memory c) s timestamp staged).1 ≡ err e
      → (commit c (memory c) s timestamp staged).0 ≡ s
  unfolding commit
  commit-fails e h = checked (refuse_wrong_prefix_revisions staged s.id) e h
