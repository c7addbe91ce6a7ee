-- ===== src/Store/Reflects.antt =====
-- The Change feed of a Store in memory reflects its Files (src/store.rs).
use tidings.Base.Tests.{
  ℕ, ap, ◌||◌, ◌≡◌, refl, sym, ◌∙◌, Bool, false, Option, none, some, List, [], ◌∷◌,
}
use tidings.Base.Results.{ok, err}
use tidings.Base.Text.{Text}
use tidings.Base.BTreeMap.{BTreeMap, get}
use tidings.Base.BTreeMap.Sorted.{IsSorted}
use tidings.ChangeFeed.{ChangeKind, local, RawChange, Merged, merge}
use tidings.ChangeFeed.Unread.{next}
use tidings.ChangeFeed.Merge.{origin_of, was_external, events, last_kind, any_external, get-merge}
use tidings.ChangeFeed.Batches.{
  Live, record_changes-Live, change_at, change_at-map, given, given-next_of,
}
use tidings.Crates.{Crates}
use tidings.Error.{Outcome}
use tidings.Files.{Timestamp}
use tidings.Revisions.{StoreId}
use tidings.Staging
use tidings.Staging.Calls.{Call, call_all}
use tidings.Staging.Required.{call_all-requires}
use tidings.Staging.{refuse_wrong_prefix_revisions}
use tidings.Commits.{CommitRequest, CommitOutcome}
use tidings.Memory
use tidings.Memory.{Stored, Held}
use tidings.Memory.Commit.{commit_effect, commit_atomic}
use tidings.Store.{Store, memory, new, commit, commit_checked, conclude_commit, record_all_observed}
use tidings.Store.Steps.{presence, Recorded, commit-Told, any_external-local}

-- What is unread of a Path agrees with its File at the start and now: with nothing unread the File
-- is the same, and else it is a local Change of the kind that the File now has.
abbrev pub Agrees : Option Merged → Option Stored → Option Stored → Type 0
Agrees none start now = now ≡ start
Agrees (some w) start now = w ≡ record { kind = presence now; origin = local }

-- The Store's feed is open and agrees with its Files.
pub record Reflects (start : BTreeMap Stored) (s : Store Held) (waiting : BTreeMap Merged)
    : Type 0 where
  pub live : Live s.feed waiting
  pub sorted : IsSorted s.backend.files
  pub agrees : (q : Text) → Agrees (get q waiting) (get q start) (get q s.backend.files)

pub new-Reflects :
    (id : ℕ) (held : Held) → IsSorted held.files → Reflects held.files (new id held) []
unfolding new get
new-Reflects id held sorted = record { live = refl; sorted = sorted; agrees = λ q. refl }

elim-Agrees :
    (w : Option Merged) (k : Option ChangeKind) (ext : Bool) (start before now : Option Stored)
    → ext ≡ false
    → Agrees w start before
    → Recorded k before now
    → Agrees
        (elim k [
          | none ↦ w
          | some kind ↦ some (record { kind = kind; origin = origin_of (was_external w || ext) })
        ])
        start
        now
elim-Agrees none none ext start before now e a r = r ∙ a
elim-Agrees (some m) none ext start before now e a r = rw (r, a) refl
elim-Agrees none (some k) ext start before now e a r = rw (e, r) refl
elim-Agrees (some m) (some k) ext start before now e a r = rw (e, r, a) refl

merge-Agrees :
    (q : Text) (waiting : BTreeMap Merged) (cs : List RawChange) (start before now : Option Stored)
    → Agrees (get q waiting) start before
    → Recorded (last_kind q (events cs local)) before now
    → Agrees (get q (merge waiting cs local)) start now
merge-Agrees q waiting cs start before now a r = rw (get-merge q waiting cs local) (
    elim-Agrees (get q waiting) (last_kind q (events cs local)) (any_external q (events cs local))
      start before now (any_external-local q cs) a r)

module _ (c : Crates) (start : BTreeMap Stored) where
  module _ (s : Store Held) (waiting : BTreeMap Merged) (timestamp : Timestamp)
      (staged : Staging.Staging) (ordered : IsSorted staged.actions)
      (now : Reflects start s waiting) where
    abbrev Still : Store Held → Type 0
    Still t = (waiting' : BTreeMap Merged) × Reflects start t waiting'

    abbrev request : CommitRequest
    request = record { timestamp = timestamp; staged = staged }

    concluded :
        (r : Held × Outcome CommitOutcome)
        → Memory.commit c s.backend request ≡ r
        → Still (conclude_commit c (memory c) s timestamp r).0
    unfolding conclude_commit
    concluded (after, err e) h =
        let failed : (Memory.commit c s.backend request).1 ≡ err e = ap (λ x. x.1) h in
        let kept : after ≡ s.backend =
          sym (ap (λ x. x.0) h) ∙ (commit_atomic c s.backend request e failed).0 in
        (
          waiting,
          record {
            live = now.live;
            sorted = rw kept now.sorted;
            agrees = λ q. rw kept (now.agrees q);
          },
        )
    concluded (after, ok outcome) h =
        let made : (Memory.commit c s.backend request).1 ≡ ok outcome = ap (λ x. x.1) h in
        let there : after ≡ (Memory.commit c s.backend request).0 = sym (ap (λ x. x.0) h) in
        let effect = commit_effect c s.backend request now.sorted ordered outcome made in
        let told = commit-Told c s.backend request now.sorted ordered outcome made in
        (
          merge waiting outcome.changes local,
          record {
            live = rw told.1 (
                unfold record_all_observed in
                record_changes-Live s.feed waiting outcome.changes local now.live);
            sorted = rw there effect.1;
            agrees = λ q. rw there (
                merge-Agrees q waiting outcome.changes (get q start) (get q s.backend.files) _
                  (now.agrees q) (told.0 q));
          },
        )

    checked : (r : Outcome (Unit {0})) → Still (commit_checked c (memory c) s timestamp staged r).0
    unfolding commit_checked memory
    checked (err e) = (waiting, now)
    checked (ok _) = concluded (Memory.commit c s.backend request) refl

    commit-Still : Still (commit c (memory c) s timestamp staged).0
    unfolding commit
    commit-Still = checked (refuse_wrong_prefix_revisions staged s.id)

-- The Store after an app's Commits, each at a time and of the calls on a new Staging.
module _ (c : Crates) where
  unfoldable pub commit_all : Store Held → List (Timestamp × List Call) → Store Held
  commit_all s [] = s
  commit_all s ((timestamp, calls) ∷ commits) =
      commit_all (commit c (memory c) s timestamp (call_all c Staging.new calls)).0 commits

  commit_all-Reflects :
      (start : BTreeMap Stored) (commits : List (Timestamp × List Call)) (s : Store Held)
      (waiting : BTreeMap Merged)
      → Reflects start s waiting
      → (waiting' : BTreeMap Merged) × Reflects start (commit_all s commits) waiting'
  unfolding commit_all
  commit_all-Reflects start [] s waiting now = (waiting, now)
  commit_all-Reflects start ((timestamp, calls) ∷ commits) s waiting now =
      let (waiting', next) =
        commit-Still c start s waiting timestamp (call_all c Staging.new calls)
          (call_all-requires c calls).0 now in
      commit_all-Reflects start commits
        (commit c (memory c) s timestamp (call_all c Staging.new calls)).0 waiting' next

  next_of-Reflects :
      (start : BTreeMap Stored) (s : Store Held) (waiting : BTreeMap Merged)
      → Reflects start s waiting
      → (q : Text)
      → Agrees (change_at q (given (next s.feed.unread).0)) (get q start) (get q s.backend.files)
  unfolding next
  next_of-Reflects start s waiting now q =
      rw (now.live, given-next_of waiting false, change_at-map q waiting) (now.agrees q)

  -- Whatever Commits an app makes, whether they succeed or fail, to a Store opened on Files in
  -- memory, the next item of its Change feed tells how the Files stand now against when it was
  -- opened: a Path that it leaves out has the same File, or none, as then, and for a Path that it
  -- names the Change is local, `Changed` if there is a File now and `Removed` if there is none.
  pub feed-reflects :
      (id : StoreId) (held : Held) (commits : List (Timestamp × List Call))
      → IsSorted held.files
      → (q : Text)
      → Agrees
          (change_at q (given (next (commit_all (new id held) commits).feed.unread).0))
          (get q held.files)
          (get q (commit_all (new id held) commits).backend.files)
  feed-reflects id held commits sorted q =
      let (waiting, now) =
        commit_all-Reflects held.files commits (new id held) [] (new-Reflects id held sorted) in
      next_of-Reflects held.files (commit_all (new id held) commits) waiting now q
