-- ===== src/WorkingCopy/Commit/Ends.antt =====
-- The turns of the loop of `commit` (cli/src/working_copy.rs).
use tidings.Base.Tests.{
  ℕ, zero, suc, ◌≤◌, ◌≡◌, refl, Bool, true, false, Option, none, some, arith, if◌then◌else◌,
}
use tidings.Base.Results.{Result, ok, err}
use tidings.Files.{Timestamp}
use tidings.Store.{Backend}
use tidings.WorkingCopy.Failures.{Failure}
use tidings.WorkingCopy.Folder.{Env}
use tidings.WorkingCopy.Reports.{CommitReport}
use tidings.WorkingCopy.Scan.{Gitignore}
use tidings.WorkingCopy.Selection.{Selection, refuse_diverged}
use tidings.WorkingCopy.Attempts.{Attempt, Working, tries_again}
use tidings.WorkingCopy.Commit.{
  Done, try_commit, attempted, commit_loop, conclude, commit_unless, commit,
}

module _ (env : Env) {S V : Type 0} (b : Backend S V) {G : Type 0} (gitignore : Gitignore G)
    (clock : Bool → Timestamp) (selection : Selection) where
  abbrev Turn : Type 0
  Turn = Done env b (Option Attempt)

  retried_turn :
      (next : Working S → Option Turn) (turn : Turn)
      → attempted env b gitignore next true turn ≡ some turn
  retried_turn next (w, err f) = refl
  retried_turn next (w, ok none) = refl
  retried_turn next (w, ok (some attempt)) = refl

  -- A turn that is the second one is the last one.
  second_turn :
      (fuel : ℕ) (w : Working S)
      → commit_loop env b gitignore (suc fuel) clock selection true w
        ≡ some (try_commit env b gitignore w (clock true) selection)
  unfolding commit_loop
  second_turn fuel w =
      retried_turn (commit_loop env b gitignore fuel clock selection true)
        (try_commit env b gitignore w (clock true) selection)

  -- What the loop comes to: one attempt, and one more where each Path of a Conflict held its local
  -- contents in the Store.
  unfoldable pub at_most_twice : Turn → Turn
  unfolding try_commit
  at_most_twice (w, err f) = (w, err f)
  at_most_twice (w, ok none) = (w, ok none)
  at_most_twice (w, ok (some attempt)) =
      if tries_again attempt.outcome
      then try_commit env b gitignore w (clock true) selection
      else (w, ok (some attempt))

  first_turn :
      (fuel : ℕ) (turn : Turn)
      → attempted env b gitignore
          (commit_loop env b gitignore (suc fuel) clock selection true)
          false
          turn
        ≡ some (at_most_twice turn)
  unfolding at_most_twice
  first_turn fuel (w, err f) = refl
  first_turn fuel (w, ok none) = refl
  first_turn fuel (w, ok (some attempt)) = ground (arith, second_turn fuel w)

  -- With fuel for two turns or more, the loop of `commit` ends, with the same result however much
  -- fuel there is: that of one attempt, or of a second one where each Path of a Conflict held its
  -- local contents in the Store.
  pub commit_loop-ends :
      (fuel : ℕ) (w : Working S)
      → 2 ≤ fuel
      → commit_loop env b gitignore fuel clock selection false w
        ≡ some (at_most_twice (try_commit env b gitignore w (clock false) selection))
  unfolding commit_loop
  commit_loop-ends zero w h = absurd (omega (arith, h))
  commit_loop-ends (suc zero) w h = absurd (omega (arith, h))
  commit_loop-ends (suc (suc fuel)) w h =
      first_turn fuel (try_commit env b gitignore w (clock false) selection)

  concludes :
      (turn : Turn)
      → (done : Done env b CommitReport) × (conclude env b gitignore (some turn) ≡ some done)
  concludes (w, err f) = (_, refl)
  concludes (w, ok none) = (_, refl)
  concludes (w, ok (some attempt)) = (_, refl)

  -- `commit` comes to a report or a failure.
  pub commit-ends :
      (w : Working S)
      → (done : Done env b CommitReport) × (commit env b gitignore clock selection w ≡ some done)
  unfolding commit
  commit-ends w = checked (refuse_diverged w.record_now selection)
    where
      checked :
          (refused : Result Failure (Unit {0}))
          → (done : Done env b CommitReport) × (commit_unless env b gitignore refused clock
                selection w
              ≡ some done)
      checked (err f) = (_, refl)
      checked (ok _) =
          rw (commit_loop-ends 2 w (omega arith))
            (concludes (at_most_twice (try_commit env b gitignore w (clock false) selection)))
