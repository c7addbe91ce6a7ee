-- ===== src/Store/Steps.antt =====
-- What one Commit to a Store in memory does to its Change feed (src/store.rs).
use tidings.Base.Tests.{
  ◌≡◌, refl, sym, Bool-cases, inl, inr, ◌∙◌, false, Option, none, some, List, [], ◌∷◌, arith,
}
use tidings.Base.Results.{ok, err}
use tidings.Base.Text.{Text, text_eq, text_eq_iff}
use tidings.Base.BTreeMap.{BTreeMap, get}
use tidings.Base.BTreeMap.Sorted.{IsSorted, get_of_AllAbove}
use tidings.ChangeFeed.{ChangeKind, changed, removed, local, RawChange}
use tidings.ChangeFeed.Merge.{events, last_kind, any_external}
use tidings.Crates.{Crates}
use tidings.Error.{Outcome}
use tidings.Files.{Timestamp}
use tidings.Staging.{Action}
use tidings.Commits.{Planned, Plan, CommitRequest, CommitOutcome, plan}
use tidings.Commits.Effect.{effective, plan_effect}
use tidings.Memory.{Stored, Held, held_state, revisions, commit, commit_plan}
use tidings.Memory.Views.{held_state-Views}
use tidings.Memory.Changes.{raw_changes, kind_at, commit_plan_ok, outcome_of}
use tidings.Memory.Commit.{kind_for, file_for, effect_of_plan}

pub any_external-local : (q : Text) (cs : List RawChange) → any_external q (events cs local) ≡ false
any_external-local q [] = refl
any_external-local q (c ∷ cs) = ground (arith, any_external-local q cs)

-- Each Path once, so the first kind is the last.
last_kind-above :
    (q : Text) (changes : BTreeMap Planned)
    → get q changes ≡ none
    → last_kind q (events (raw_changes changes) local) ≡ none
unfolding get
last_kind-above q [] h = refl
last_kind-above q ((path, p) ∷ rest) h = ground (arith, last_kind-above q rest)

last_kind-kind_at :
    (q : Text) (changes : BTreeMap Planned)
    → IsSorted changes
    → last_kind q (events (raw_changes changes) local) ≡ kind_at q (raw_changes changes)
last_kind-kind_at q [] s = refl
last_kind-kind_at q ((path, p) ∷ rest) (above, s) = elim (Bool-cases (text_eq q path)) [
  | inl same ↦
      let gone : last_kind q (events (raw_changes rest) local) ≡ none =
        last_kind-above q rest
          (rw ((text_eq_iff q path).0 same) (get_of_AllAbove path rest above)) in
      ground arith
  | inr other ↦ let later = last_kind-kind_at q rest s in ground arith
]

-- The kind of a Change that leaves a File, or none.
abbrev pub presence : Option Stored → ChangeKind
presence none = removed
presence (some stored) = changed

-- What is recorded of a Path agrees with what becomes of its File.
abbrev pub Recorded : Option ChangeKind → Option Stored → Option Stored → Type 0
Recorded none old new = new ≡ old
Recorded (some k) old new = k ≡ presence new

module _ (c : Crates) where
  kind_for-none :
      (t : Timestamp) (a : Option Action) (old : Option Stored)
      → kind_for c a old ≡ none
      → file_for c t a old ≡ old
  kind_for-none t none old h = refl
  kind_for-none t (some (Action.write x)) old h = ground arith
  kind_for-none t (some Action.delete) none h = refl
  kind_for-none t (some Action.delete) (some s) h = cc

  kind_for-some :
      (t : Timestamp) (a : Option Action) (old : Option Stored) (k : ChangeKind)
      → kind_for c a old ≡ some k
      → k ≡ presence (file_for c t a old)
  kind_for-some t none old k h = cc
  kind_for-some t (some (Action.write x)) old k h = ground arith
  kind_for-some t (some Action.delete) none k h = cc
  kind_for-some t (some Action.delete) (some s) k h = cc

  module _ (held : Held) (request : CommitRequest) (sorted : IsSorted held.files)
      (staged_sorted : IsSorted request.staged.actions) where
    recorded :
        (t : Timestamp) (a : Option Action) (old : Option Stored) (k : Option ChangeKind)
        → k ≡ kind_for c a old
        → Recorded k old (file_for c t a old)
    recorded t a old none h = kind_for-none t a old (sym h)
    recorded t a old (some k) h = kind_for-some t a old k (sym h)

    abbrev pub Told : Held → CommitOutcome → Type 0
    Told after outcome =
        ((q : Text)
          → Recorded (last_kind q (events outcome.changes local)) (get q held.files)
              (get q after.files))
        × (outcome.observed_before ≡ [])
        × (outcome.pending ≡ false)

    told :
        (outcome : CommitOutcome) (r : Outcome Plan)
        → plan c (held_state held) request ≡ r
        → (commit_plan c held r).1 ≡ ok outcome
        → Told (commit_plan c held r).0 outcome
    told outcome (err x) e h = unfold commit_plan in cc
    told outcome (ok p) e h =
        let ordered =
          (plan_effect c (held_state held) (revisions held.files) (held_state-Views held sorted)
            request p staged_sorted e).1 in
        let same = rw (commit_plan_ok c held p) at h in
        let given : outcome_of p ≡ outcome = cc same in
        rw (commit_plan_ok c held p, ← given)
          (
            λ q.
                let fx = effect_of_plan c held request sorted staged_sorted q p e in
                rw fx.0 (
                  recorded request.timestamp (effective request.staged (revisions held.files) q)
                    (get q held.files) _ (last_kind-kind_at q p.changes ordered ∙ fx.1)),
            refl,
            refl,
          )

    pub commit-Told :
        (outcome : CommitOutcome)
        → (commit c held request).1 ≡ ok outcome
        → Told (commit c held request).0 outcome
    unfolding commit
    commit-Told outcome h = told outcome (plan c (held_state held) request) refl h
