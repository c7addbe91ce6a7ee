-- ===== src/Memory/Folds.antt =====
-- What the folds of the memory Backend hold after a Commit that renames a File by letter case
-- (src/backend/memory.rs).
use tidings.Memory.Views.{get-revisions, held_state-Views}
use tidings.Revisions.{of}
use tidings.Staging.{Action}
use tidings.Commits.Effect.{made_at, plan_effect, effective}
use tidings.Error.{Outcome}
use Prim.Native.Nat.{Ordering}
use tidings.Base.Tests.{
  ◌≡◌, refl, subst, sym, ◌∙◌, Option, none, some, List, [], ◌∷◌, arith, Bool-cases, inl, inr,
}
use tidings.Base.Results.{ok, err}
use tidings.Base.Text.{Text, cmp, cmp-lt-gt, text_eq, text_eq_iff, text_eq_refl}
use tidings.Base.BTreeMap.{BTreeMap, get, get-insert, get-remove}
use tidings.Base.BTreeMap.Sorted.{AllAbove, IsSorted, get_of_AllAbove}
use tidings.Crates.{Crates}
use tidings.Files.{Timestamp, Stat, Revision}
use tidings.Paths.{letter_case_fold}
use tidings.Commits.{Planned, CommitRequest, CommitOutcome, plan, Plan}
use tidings.Memory.{revisions, Stored, Held, change, commit, commit_plan, held_state}
use tidings.Memory.Changes.{commit_plan_ok, changed_all}
use tidings.Memory.Commit.{commit_effect}

get-tail :
    (q path : Text) (p : Planned) (rest : BTreeMap Planned) (w : Planned)
    → AllAbove path rest
    → get q rest ≡ some w
    → get q ((path, p) ∷ rest) ≡ some w
unfolding get
get-tail q path p rest w above e =
    ground (arith, get_of_AllAbove path rest above, text_eq_iff q path)

not_above : (q p : Text) → cmp q p ≡ Ordering.lt → cmp p q ≡ Ordering.lt → ⊥
not_above q p h k = let g = (cmp-lt-gt q p).0 h in cc

above_of :
    (p q : Text) (w : Planned) (m : BTreeMap Planned)
    → AllAbove p m
    → get q m ≡ some w
    → cmp p q ≡ Ordering.lt
unfolding get
above_of p q w [] a e = cc
above_of p q w ((j, v) ∷ m) (a, as') e = ground (arith, above_of p q w m as', text_eq_iff q j)

module _ (c : Crates) (fold : Text) where
  -- No write enters the fold.
  abbrev NoWrite : List (Text × Planned) → Type 0
  NoWrite [] = Unit {0}
  NoWrite ((path, Planned.write x s) ∷ rest) = (letter_case_fold c path ≡ fold → ⊥) × NoWrite rest
  NoWrite ((path, Planned.remove r) ∷ rest) = NoWrite rest

  folds_of_write :
      (path : Text) (x : Text) (s : Stat) (held : Held)
      → (letter_case_fold c path ≡ fold → ⊥)
      → get fold held.folds ≡ none
      → get fold (change c path (Planned.write x s) held).0.folds ≡ none
  unfolding change
  folds_of_write path x s held other e = ground (
    arith,
    get-insert (letter_case_fold c path) fold path held.folds,
    text_eq_iff fold (letter_case_fold c path),
  )

  folds_of_remove :
      (path : Text) (r : Revision) (held : Held)
      → get fold held.folds ≡ none
      → get fold (change c path (Planned.remove r) held).0.folds ≡ none
  unfolding change
  folds_of_remove path r held e =
      ground (arith, get-remove (letter_case_fold c path) fold held.folds)

  folds_stay :
      (changes : List (Text × Planned)) (held : Held)
      → NoWrite changes
      → get fold held.folds ≡ none
      → get fold (changed_all c changes held).folds ≡ none
  unfolding changed_all
  folds_stay [] held n e = e
  folds_stay ((path, Planned.write x s) ∷ rest) held (n, ns) e =
      folds_stay rest _ ns (folds_of_write path x s held n e)
  folds_stay ((path, Planned.remove r) ∷ rest) held n e =
      folds_stay rest _ n (folds_of_remove path r held e)

  get-NoWrite :
      (changes : BTreeMap Planned)
      → IsSorted changes
      → ((q x : Text) (s : Stat)
          → get q changes ≡ some (Planned.write x s)
          → letter_case_fold c q ≡ fold
          → ⊥)
      → NoWrite changes
  get-NoWrite [] s h = tt
  get-NoWrite ((path, Planned.write x st) ∷ rest) (above, s) h = (
    h path x st (unfold get in rw (text_eq_refl path) refl),
    get-NoWrite rest s (λ q y u e. h q y u (get-tail q path _ rest _ above e)),
  )
  get-NoWrite ((path, Planned.remove r) ∷ rest) (above, s) h =
      get-NoWrite rest s (λ q y u e. h q y u (get-tail q path _ rest _ above e))

module _ (c : Crates) where
  removed_fold :
      {p : Text} (path : Text) (t : Revision) (held : Held)
      → path ≡ p
      → get (letter_case_fold c p) (change c path (Planned.remove t) held).0.folds ≡ none
  unfolding change
  removed_fold path t held e =
      rw
        (
          ← e,
          get-remove (letter_case_fold c path) (letter_case_fold c path) held.folds,
          text_eq_refl (letter_case_fold c path),
        )
        refl

  -- The removal of `p` takes the fold that a write before it entered.
  folds_lost :
      (p : Text) (r : Revision) (changes : BTreeMap Planned) (held : Held)
      → IsSorted changes
      → get p changes ≡ some (Planned.remove r)
      → ((q x : Text) (s : Stat)
          → get q changes ≡ some (Planned.write x s)
          → letter_case_fold c q ≡ letter_case_fold c p
          → cmp q p ≡ Ordering.lt)
      → get (letter_case_fold c p) (changed_all c changes held).folds ≡ none
  unfolding changed_all get
  folds_lost p r [] held s e later = cc
  folds_lost p r ((path, Planned.write x st) ∷ rest) held (above, s) e later =
      folds_lost p r rest _ s (ground arith)
        (λ q y u g f. later q y u (get-tail q path _ rest _ above g) f)
  folds_lost p r ((path, Planned.remove t) ∷ rest) held (above, s) e later =
      elim (Bool-cases (text_eq p path)) [
        | inl same ↦
            let here : path ≡ p = sym ((text_eq_iff p path).0 same) in
            folds_stay c (letter_case_fold c p) rest _
              (get-NoWrite c (letter_case_fold c p) rest s (λ q y u g f.
                not_above q p (later q y u (get-tail q path _ rest _ above g) f)
                  (above_of p q _ rest (subst (λ x. AllAbove x rest) here above) g)))
              (removed_fold path t held here)
        | inr other ↦
            folds_lost p r rest _ s (ground arith)
              (λ q y u g f. later q y u (get-tail q path _ rest _ above g) f)
      ]

  made_at-write :
      (t : Timestamp) (a : Option Action) (now : Option Revision) (x : Text) (s : Stat)
      → made_at c t a now ≡ some (Planned.write x s)
      → a ≡ some (Action.write x)
  made_at-write t none now x s e = cc
  made_at-write t (some (Action.write y)) now x s e = ground arith
  made_at-write t (some Action.delete) none x s e = cc
  made_at-write t (some Action.delete) (some r) x s e = cc

  module _ (held : Held) (request : CommitRequest) (sorted : IsSorted held.files)
      (staged_sorted : IsSorted request.staged.actions) where
    folds_lost_by_plan :
        (p : Text) (old : Stored) (pl : Plan)
        → plan c (held_state held) request ≡ ok pl
        → effective request.staged (revisions held.files) p ≡ some Action.delete
        → get p held.files ≡ some old
        → ((q x : Text)
            → effective request.staged (revisions held.files) q ≡ some (Action.write x)
            → letter_case_fold c q ≡ letter_case_fold c p
            → cmp q p ≡ Ordering.lt)
        → get (letter_case_fold c p) (changed_all c pl.changes held).folds ≡ none
    folds_lost_by_plan p old pl e del there later =
        let (each, ordered) =
          plan_effect c (held_state held) (revisions held.files) (held_state-Views held sorted)
            request pl staged_sorted e in
        folds_lost p old.stat.revision pl.changes held ordered
          ((each p).0 ∙ rw (del, get-revisions, there) refl)
          (λ q x s g f.
            later q x
              (made_at-write request.timestamp _ (get q (revisions held.files)) x s
                (sym (each q).0 ∙ g))
              f)

    lost :
        (p : Text) (old : Stored) (outcome : CommitOutcome) (r : Outcome Plan)
        → plan c (held_state held) request ≡ r
        → (commit_plan c held r).1 ≡ ok outcome
        → effective request.staged (revisions held.files) p ≡ some Action.delete
        → get p held.files ≡ some old
        → ((q x : Text)
            → effective request.staged (revisions held.files) q ≡ some (Action.write x)
            → letter_case_fold c q ≡ letter_case_fold c p
            → cmp q p ≡ Ordering.lt)
        → get (letter_case_fold c p) (commit_plan c held r).0.folds ≡ none
    lost p old outcome (err x) e h del there later = unfold commit_plan in cc
    lost p old outcome (ok pl) e h del there later =
        rw (commit_plan_ok c held pl) (folds_lost_by_plan p old pl e del there later)

    -- After a Commit to the memory Backend that succeeds, deletes a Path that has a File, and
    -- writes only Paths before it of those with its letter-case fold, its fold has no entry, and a
    -- Path that it wrote where there was no File has one nonetheless. So where a File is renamed by
    -- letter case to a name that sorts before, as `foo` to `Foo`, the File is there and its fold is
    -- not.
    pub commit-folds_lost :
        (p q x : Text) (old : Stored) (outcome : CommitOutcome)
        → (commit c held request).1 ≡ ok outcome
        → effective request.staged (revisions held.files) p ≡ some Action.delete
        → get p held.files ≡ some old
        → effective request.staged (revisions held.files) q ≡ some (Action.write x)
        → get q held.files ≡ none
        → letter_case_fold c q ≡ letter_case_fold c p
        → ((s y : Text)
            → effective request.staged (revisions held.files) s ≡ some (Action.write y)
            → letter_case_fold c s ≡ letter_case_fold c p
            → cmp s p ≡ Ordering.lt)
        → (get q (commit c held request).0.files
            ≡ some (record {
              contents = x;
              stat = record { modified = request.timestamp; revision = of c x };
            }))
          × (get (letter_case_fold c q) (commit c held request).0.folds ≡ none)
    commit-folds_lost p q x old outcome h del there wr absent_q same later =
        let done = commit_effect c held request sorted staged_sorted outcome h in
        (
          (done.0 q).0 ∙ rw (wr, absent_q) refl,
          rw same (
              unfold commit in
              lost p old outcome (plan c (held_state held) request) refl (unfold commit in h) del
                there later),
        )
