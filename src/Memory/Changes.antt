-- ===== src/Memory/Changes.antt =====
-- The changes of a plan, made one after the other in the memory Backend (src/backend/memory.rs).
use tidings.Base.Tests.{
  ◌≡◌, refl, ◌∙◌, false, Option, none, some, List, [], ◌∷◌, ◌++◌, append_assoc, append-nil, arith,
  if◌then◌else◌,
}
use tidings.Base.Results.{ok}
use tidings.Base.Text.{Text, text_eq, text_eq_iff}
use tidings.Base.BTreeMap.{BTreeMap, get, get-insert, get-remove}
use tidings.Base.BTreeMap.Sorted.{IsSorted, insert-IsSorted, remove-IsSorted, get_of_AllAbove}
use tidings.ChangeFeed.{RawChange, ChangeKind}
use tidings.Crates.{Crates}
use tidings.Commits.{Planned, Plan, CommitOutcome, kind_of, apply_each, apply}
use tidings.Memory.{Stored, Held, change, commit_plan}

abbrev pub file_after : Option Planned → Option Stored → Option Stored
file_after none old = old
file_after (some (Planned.write x s)) old = some (record { contents = x; stat = s })
file_after (some (Planned.remove _)) old = none

-- The raw changes of a plan, in its order.
abbrev pub raw_changes : List (Text × Planned) → List RawChange
raw_changes [] = []
raw_changes ((path, p) ∷ rest) = record { path = path; kind = kind_of p } ∷ raw_changes rest

abbrev pub outcome_of : Plan → CommitOutcome
outcome_of p = record {
  revisions = p.revisions;
  changes = raw_changes p.changes;
  observed_before = [];
  pending = false;
}

-- The kind that the raw changes give a Path.
abbrev pub kind_at : Text → List RawChange → Option ChangeKind
kind_at q [] = none
kind_at q (r ∷ rest) = if text_eq q r.path then some r.kind else kind_at q rest

abbrev pub kind_planned : Option Planned → Option ChangeKind
kind_planned none = none
kind_planned (some p) = some (kind_of p)

module _ (c : Crates) where
  get-change :
      (q path : Text) (p : Planned) (held : Held)
      → get q (change c path p held).0.files
        ≡ (if text_eq q path then file_after (some p) (get q held.files) else get q held.files)
  unfolding change
  get-change q path (Planned.write x s) held = get-insert path q _ held.files
  get-change q path (Planned.remove r) held = get-remove path q held.files

  change-IsSorted :
      (path : Text) (p : Planned) (held : Held)
      → IsSorted held.files
      → IsSorted (change c path p held).0.files
  unfolding change
  change-IsSorted path (Planned.write x s) held h = insert-IsSorted path _ held.files h
  change-IsSorted path (Planned.remove r) held h = remove-IsSorted path held.files h

  change-ok : (path : Text) (p : Planned) (held : Held) → (change c path p held).1 ≡ ok tt
  unfolding change
  change-ok path (Planned.write x s) held = refl
  change-ok path (Planned.remove r) held = refl

  -- The Files after every change.
  unfoldable pub changed_all : List (Text × Planned) → Held → Held
  changed_all [] held = held
  changed_all ((path, p) ∷ rest) held = changed_all rest (change c path p held).0

  apply_each-cons :
      (path : Text) (p : Planned) (rest : List (Text × Planned)) (done : List RawChange)
      (held : Held)
      → apply_each (change c) ((path, p) ∷ rest) done held
        ≡ apply_each
            (change c)
            rest
            (done ++ (record { path = path; kind = kind_of p } ∷ []))
            (change c path p held).0
  unfolding apply_each
  apply_each-cons path p rest done held = ground (arith, change-ok path p held)

  apply_each-changed_all :
      (changes : List (Text × Planned)) (done : List RawChange) (held : Held)
      → apply_each (change c) changes done held
        ≡ (changed_all changes held, ok (done ++ raw_changes changes))
  unfolding apply_each changed_all
  apply_each-changed_all [] done held = rw append-nil
  apply_each-changed_all ((path, p) ∷ rest) done held =
      apply_each-cons path p rest done held ∙ apply_each-changed_all rest _ _ ∙ rw append_assoc

  pub get-changed_all :
      (q : Text) (changes : BTreeMap Planned) (held : Held)
      → IsSorted changes
      → get q (changed_all changes held).files ≡ file_after (get q changes) (get q held.files)
  unfolding changed_all get
  get-changed_all q [] held s = refl
  get-changed_all q ((path, p) ∷ rest) held (above, s) =
      get-changed_all q rest _ s
      ∙ ground
          (arith, get-change q path p held, get_of_AllAbove path rest above, text_eq_iff q path)

  pub changed_all-IsSorted :
      (changes : BTreeMap Planned) (held : Held)
      → IsSorted held.files
      → IsSorted (changed_all changes held).files
  unfolding changed_all
  changed_all-IsSorted [] held h = h
  changed_all-IsSorted ((path, p) ∷ rest) held h =
      changed_all-IsSorted rest _ (change-IsSorted path p held h)

  pub commit_plan_ok :
      (held : Held) (p : Plan)
      → commit_plan c held (ok p) ≡ (changed_all p.changes held, ok (outcome_of p))
  unfolding commit_plan apply
  commit_plan_ok held p = rw (apply_each-changed_all p.changes [] held)

  pub kind_at-raw_changes :
      (q : Text) (changes : List (Text × Planned))
      → kind_at q (raw_changes changes) ≡ kind_planned (get q changes)
  unfolding get
  kind_at-raw_changes q [] = refl
  kind_at-raw_changes q ((path, p) ∷ rest) = ground (arith, kind_at-raw_changes q rest)
