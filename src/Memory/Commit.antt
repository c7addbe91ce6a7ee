-- ===== src/Memory/Commit.antt =====
-- What a Commit does to the Files of the memory Backend (src/backend/memory.rs).
use tidings.Base.Tests.{◌≡◌, refl, ap, ◌∙◌, false, Option, none, some, arith, if◌then◌else◌}
use tidings.Base.Results.{ok, err}
use tidings.Base.Text.{Text}
use tidings.Base.BTreeMap.{get}
use tidings.Base.BTreeMap.Sorted.{IsSorted}
use tidings.ChangeFeed.{ChangeKind, changed, removed}
use tidings.Crates.{Crates}
use tidings.Error.{Error, Outcome}
use tidings.Files.{Timestamp}
use tidings.Revisions.{of}
use tidings.Staging.{Action, write, delete}
use tidings.Commits.{Plan, CommitRequest, CommitOutcome, plan, kind_of}
use tidings.Commits.LeftOut.{is_noop, written_at}
use tidings.Commits.Effect.{effective, made_at, plan_effect}
use tidings.Memory.{Stored, Held, revisions, revision_of, held_state, commit_plan, commit}
use tidings.Memory.Views.{get-revisions, held_state-Views}
use tidings.Memory.Changes.{
  file_after, raw_changes, outcome_of, kind_at, kind_planned, changed_all, get-changed_all,
  changed_all-IsSorted, commit_plan_ok, kind_at-raw_changes,
}

module _ (c : Crates) where
  -- What an action leaves of a File. A write of contents with the Revision that the File has leaves
  -- the File as it is, its time included.
  abbrev pub file_for : Timestamp → Option Action → Option Stored → Option Stored
  file_for timestamp none old = old
  file_for timestamp (some (write x)) old =
      if is_noop c (write x) (revision_of old)
      then old
      else some (record { contents = x; stat = record { modified = timestamp; revision = of c x } })
  file_for timestamp (some delete) old = none

  -- The kind of change that an action makes, if it makes one.
  abbrev pub kind_for : Option Action → Option Stored → Option ChangeKind
  kind_for none old = none
  kind_for (some (write x)) old =
      if is_noop c (write x) (revision_of old) then none else some changed
  kind_for (some delete) none = none
  kind_for (some delete) (some _) = some removed

  file_after-made_at :
      (timestamp : Timestamp) (a : Option Action) (old : Option Stored)
      → file_after (made_at c timestamp a (revision_of old)) old ≡ file_for timestamp a old
  file_after-made_at timestamp none old = refl
  file_after-made_at timestamp (some (write x)) old = ground arith
  file_after-made_at timestamp (some delete) none = refl
  file_after-made_at timestamp (some delete) (some s) = refl

  kind_planned-made_at :
      (timestamp : Timestamp) (a : Option Action) (old : Option Stored)
      → kind_planned (made_at c timestamp a (revision_of old)) ≡ kind_for a old
  unfolding kind_of
  kind_planned-made_at timestamp none old = refl
  kind_planned-made_at timestamp (some (write x)) old = ground arith
  kind_planned-made_at timestamp (some delete) none = refl
  kind_planned-made_at timestamp (some delete) (some s) = refl

  module _ (held : Held) (request : CommitRequest) (sorted : IsSorted held.files)
      (staged_sorted : IsSorted request.staged.actions) where
    abbrev pub does : Text → Option Action
    does q = effective request.staged (revisions held.files) q

    pub effect_of_plan :
        (q : Text) (p : Plan)
        → plan c (held_state held) request ≡ ok p
        → (get q (changed_all c p.changes held).files
            ≡ file_for request.timestamp (does q) (get q held.files))
          × (kind_at q (raw_changes p.changes) ≡ kind_for (does q) (get q held.files))
          × (get q p.revisions ≡ written_at c (does q) none)
    effect_of_plan q p e =
        let (each, ordered) =
          plan_effect c (held_state held) (revisions held.files) (held_state-Views held sorted)
            request p staged_sorted e in
        (
          get-changed_all c q p.changes held ordered
              ∙ rw ((each q).0, get-revisions)
                  (file_after-made_at request.timestamp (does q) (get q held.files)),
          kind_at-raw_changes c q p.changes
              ∙ rw ((each q).0, get-revisions)
                  (kind_planned-made_at request.timestamp (does q) (get q held.files)),
          (each q).1,
        )

    -- What a Commit that succeeds has done.
    abbrev pub Done : Held → CommitOutcome → Type 0
    Done after outcome =
        ((q : Text)
          → (get q after.files ≡ file_for request.timestamp (does q) (get q held.files))
            × (kind_at q outcome.changes ≡ kind_for (does q) (get q held.files))
            × (get q outcome.revisions ≡ written_at c (does q) none))
        × IsSorted after.files
        × (outcome.pending ≡ false)

    done :
        (outcome : CommitOutcome) (r : Outcome Plan)
        → plan c (held_state held) request ≡ r
        → (commit_plan c held r).1 ≡ ok outcome
        → Done (commit_plan c held r).0 outcome
    done outcome (err x) e h = unfold commit_plan in cc
    done outcome (ok p) e h =
        let same = rw (commit_plan_ok c held p) at h in
        let given : outcome_of p ≡ outcome = cc same in
        rw (commit_plan_ok c held p, ← given)
          (λ q. effect_of_plan q p e, changed_all-IsSorted c p.changes held sorted, refl)

    -- Where a Commit to the memory Backend succeeds, each Path holds what the Staging says: the
    -- written contents with the Commit's time and their Revision, or nothing where it is deleted,
    -- by itself or under a Prefix; a File whose Revision a write would not change, and a Path that
    -- the Staging does nothing to, stay as they were. The Commit gives the Revision of every write
    -- and the change to each Path whose File changed, and nothing is pending. The Files stay in
    -- order of Path.
    pub commit_effect :
        (outcome : CommitOutcome)
        → (commit c held request).1 ≡ ok outcome
        → Done (commit c held request).0 outcome
    unfolding commit
    commit_effect outcome h = done outcome (plan c (held_state held) request) refl h

  unchanged_of_err :
      (held : Held) (r : Outcome Plan) (e : Error)
      → (commit_plan c held r).1 ≡ err e
      → ((commit_plan c held r).0 ≡ held) × (r ≡ err e)
  unchanged_of_err held (err x) e h =
      unfold commit_plan in let same : x ≡ e = cc in (refl, ap err same)
  unchanged_of_err held (ok p) e h = absurd (no_err (rw (commit_plan_ok c held p) at h))
    where
      no_err : ok (outcome_of p) ≡ err e → ⊥
      no_err h = cc

  -- A Commit to the memory Backend that fails changes nothing, and it fails with the error of its
  -- plan: making the changes never fails.
  pub commit_atomic :
      (held : Held) (request : CommitRequest) (e : Error)
      → (commit c held request).1 ≡ err e
      → ((commit c held request).0 ≡ held) × (plan c (held_state held) request ≡ err e)
  unfolding commit
  commit_atomic held request e h = unchanged_of_err held (plan c (held_state held) request) e h
