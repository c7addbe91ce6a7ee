-- ===== src/WorkingCopy/Commit/NoOverwrite.antt =====
-- What a Commit of local changes finds in a Store in memory (cli/src/working_copy.rs).
use tidings.WorkingCopy.Attempts.{Change}
use tidings.Base.Tests.{
  ◌≡◌, refl, sym, ◌∙◌, true, false, Option, none, some, List, [], ◌∷◌, map, arith,
}
use tidings.Base.Results.{ok, err, >>=-eq-ok}
use tidings.Base.Text.{Text, text_eq_iff}
use tidings.Base.BTreeMap.{BTreeMap, get}
use tidings.Base.BTreeMap.Sorted.{IsSorted}
use tidings.Crates.{Crates}
use tidings.Error.{Outcome}
use tidings.Files.{Revision, Timestamp, holds}
use tidings.Staging.{Staging, refuse_wrong_prefix_revisions}
use tidings.Commits.{CommitRequest, CommitOutcome, Plan, plan}
use tidings.Commits.Steps.{check_preconditions}
use tidings.Commits.Conflicts.{fails_at, Checked, check_preconditions-Checked}
use tidings.Memory
use tidings.Memory.{Held, revisions, revision_of, held_state, commit_plan}
use tidings.Memory.Views.{get-revisions, held_state-Views}
use tidings.Store.{Store, Committed, memory, commit, commit_checked, conclude_commit}
use tidings.WorkingCopy.Folder.{Env}
use tidings.WorkingCopy.Reconcile.Updates.{same_revision_iff}
use tidings.WorkingCopy.Differences.{Scan, Difference, changes}
use tidings.WorkingCopy.Differences.Changes.{change_at}
use tidings.WorkingCopy.Selection.{Selection}
use tidings.WorkingCopy.Commit
use tidings.WorkingCopy.Commit.Staged.{required, requirement, selected, stage-Stages}

-- The Revision that a difference is against, where there is a Base.
abbrev pub base_of_difference : Difference → Option Revision
base_of_difference (Difference.added contents) = none
base_of_difference (Difference.modified contents base) = some base.revision
base_of_difference (Difference.deleted base) = some base.revision

holds-required :
    (difference : Difference) (now : Option Revision)
    → holds (required difference) now ≡ true
    → now ≡ base_of_difference difference
unfolding holds
holds-required (Difference.added contents) none h = refl
holds-required (Difference.added contents) (some r) h = cc
holds-required (Difference.modified contents base) now h =
    same_revision_iff now (some base.revision) h
holds-required (Difference.deleted base) now h = same_revision_iff now (some base.revision) h

none_fails :
    (revisions : BTreeMap Revision) (path : Text) (these : List (Text × Difference))
    (difference : Difference)
    → fails_at revisions path (map requirement these) ≡ false
    → change_at path these ≡ some difference
    → holds (required difference) (get path revisions) ≡ true
none_fails revisions path [] difference h k = cc
none_fails revisions path ((other, found) ∷ these) difference h k =
    ground (arith, none_fails revisions path these difference, text_eq_iff path other)

module _ (c : Crates) (s : Store Held) (sorted : IsSorted s.backend.files) (now : Timestamp)
    (staged : Staging) where
  abbrev request : CommitRequest
  request = record { timestamp = now; staged = staged }

  checked_ok :
      (p : Plan)
      → plan c (held_state s.backend) request ≡ ok p
      → (u : Unit {0}) × (check_preconditions c (held_state s.backend) staged ≡ ok u)
  unfolding plan
  checked_ok p h =
      let (u, first, rest) = >>=-eq-ok (check_preconditions c (held_state s.backend) staged) _ h in
      (u, first)

  planned_ok :
      (r : Outcome Plan) (outcome : CommitOutcome)
      → (commit_plan c s.backend r).1 ≡ ok outcome
      → (p : Plan) × (r ≡ ok p)
  unfolding commit_plan
  planned_ok (err e) outcome h = cc
  planned_ok (ok p) outcome h = (p, refl)

  concluded_ok :
      (r : Held × Outcome CommitOutcome) (done : Committed)
      → (conclude_commit c (memory c) s now r).1 ≡ ok done
      → (outcome : CommitOutcome) × (r.1 ≡ ok outcome)
  unfolding conclude_commit
  concluded_ok (after, err e) done h = cc
  concluded_ok (after, ok outcome) done h = (outcome, refl)

  store_ok :
      (r : Outcome (Unit {0})) (done : Committed)
      → (commit_checked c (memory c) s now staged r).1 ≡ ok done
      → (outcome : CommitOutcome) × ((Memory.commit c s.backend request).1 ≡ ok outcome)
  unfolding commit_checked memory
  store_ok (err e) done h = cc
  store_ok (ok _) done h = concluded_ok (Memory.commit c s.backend request) done h

  -- Where a Commit to a Store in memory succeeds, no Precondition on a Path fails.
  commit-checks :
      (done : Committed)
      → (commit c (memory c) s now staged).1 ≡ ok done
      → (q : Text) → fails_at (revisions s.backend.files) q staged.preconditions ≡ false
  unfolding commit Memory.commit
  commit-checks done h q =
      let (outcome, made) = store_ok (refuse_wrong_prefix_revisions staged s.id) done h in
      let (p, planned) = planned_ok (plan c (held_state s.backend) request) outcome made in
      let (u, checks) = checked_ok p planned in
      let views = held_state-Views s.backend sorted in
      let all_hold : Checked c (revisions s.backend.files) staged (ok u) = rw checks at (
        check_preconditions-Checked c (revisions s.backend.files) (held_state s.backend) views
          staged) in
      ground (arith, all_hold q)

module _ (env : Env) (found : Scan) (selection : Selection) (s : Store Held)
    (sorted : IsSorted s.backend.files) (now : Timestamp) where
  open env use {crates}

  -- Where the local changes are staged, and the Commit of what is staged to a Store in memory,
  -- its Files in order of Path, succeeds, each local change that is covered was found in the
  -- Store at the Revision of its Base, or absent where it has none: no version of a File is
  -- overwritten that the folder does not come from.
  pub commit-overwrites_nothing :
      (after : Staging × List Change) (done : Committed) (path : Text) (difference : Difference)
      → Commit.stage env found selection ≡ ok after
      → (commit crates (memory crates) s now after.0).1 ≡ ok done
      → change_at path (selected selection (changes env found)) ≡ some difference
      → revision_of (get path s.backend.files) ≡ base_of_difference difference
  commit-overwrites_nothing after done path difference staged h at =
      let stages = (stage-Stages env selection found after staged).0 in
      let none_fail = commit-checks crates s sorted now after.0 done h path in
      let fails : fails_at (revisions s.backend.files) path
            (map requirement (selected selection (changes env found)))
          ≡ false =
        rw (stages.preconditions_lem) at none_fail in
      sym (get-revisions path s.backend.files)
      ∙ holds-required difference (get path (revisions s.backend.files)) (
          none_fails (revisions s.backend.files) path (selected selection (changes env found))
            difference fails at)
