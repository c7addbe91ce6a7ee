-- ===== src/Staging/Required.antt =====
-- What a Staging requires, and the order of what it holds (src/staging.rs).
use tidings.Base.Tests.{
  ◌≡◌, refl, ◌∙◌, Bool, true, false, not, List, [], ◌∷◌, ◌++◌, append_assoc, append-nil,
  if◌then◌else◌,
}
use tidings.Base.Text.{Text}
use tidings.Base.BTreeMap.Sorted.{IsSorted, insert-IsSorted, retain-IsSorted}
use tidings.Crates.{Crates}
use tidings.Files.{Precondition, any, absent, unchanged_since}
use tidings.Paths.{refusal}
use tidings.Prefixes.{covers, prefix_refusal}
use tidings.Revisions.{PrefixRevision}
use tidings.Staging
use tidings.Staging.{Action, Staging, stage, stage_prefix_delete, add_precondition}
use tidings.Staging.Calls.{Call, kept, called, call_all}
use tidings.Staging.LastCall.{accepted, kept-path, kept-prefix}

-- A Precondition that is always met requires nothing.
abbrev pub needed : Text → Precondition → List (Text × Precondition)
needed path any = []
needed path absent = (path, absent) ∷ []
needed path (unchanged_since r) = (path, unchanged_since r) ∷ []

-- What two Stagings one after the other have in common: the actions and the Prefix deletes are in
-- order, and the second one requires this much more.
pub record Grows (s t : Staging) (more : List (Text × Precondition))
    (under : List (Text × PrefixRevision)) : Type 0 where
  pub actions_sorted : IsSorted s.actions → IsSorted t.actions
  pub deletes_sorted : IsSorted s.prefix_deletes → IsSorted t.prefix_deletes
  pub preconditions_lem : t.preconditions ≡ s.preconditions ++ more
  pub prefix_preconditions_lem : t.prefix_preconditions ≡ s.prefix_preconditions ++ under

same-Grows : (s : Staging) → Grows s s [] []
same-Grows s = record {
  actions_sorted = λ h. h;
  deletes_sorted = λ h. h;
  preconditions_lem = rw append-nil refl;
  prefix_preconditions_lem = rw append-nil refl;
}

add_precondition-Grows :
    (s : Staging) (path : Text) (p : Precondition)
    → Grows s (add_precondition s path p) (needed path p) []
unfolding add_precondition
add_precondition-Grows s path any = same-Grows s
add_precondition-Grows s path absent = record {
  actions_sorted = λ h. h;
  deletes_sorted = λ h. h;
  preconditions_lem = refl;
  prefix_preconditions_lem = rw append-nil refl;
}
add_precondition-Grows s path (unchanged_since r) = record {
  actions_sorted = λ h. h;
  deletes_sorted = λ h. h;
  preconditions_lem = refl;
  prefix_preconditions_lem = rw append-nil refl;
}

stage-Grows :
    (s : Staging) (path : Text) (a : Action) (p : Precondition)
    → Grows s (stage s path a p) (needed path p) []
unfolding stage
stage-Grows s path a p =
    let g = add_precondition-Grows s path p in
    record {
      actions_sorted = λ h. insert-IsSorted path a _ (g.actions_sorted h);
      deletes_sorted = g.deletes_sorted;
      preconditions_lem = g.preconditions_lem;
      prefix_preconditions_lem = g.prefix_preconditions_lem;
    }

delete_prefix-Grows : (s : Staging) (prefix : Text) → Grows s (stage_prefix_delete s prefix) [] []
unfolding stage_prefix_delete
delete_prefix-Grows s prefix = record {
  actions_sorted = λ h. retain-IsSorted (λ path. not (covers prefix path)) s.actions h;
  deletes_sorted = λ h. insert-IsSorted prefix tt s.prefix_deletes h;
  preconditions_lem = rw append-nil refl;
  prefix_preconditions_lem = rw append-nil refl;
}

require_prefix-Grows :
    (s : Staging) (prefix : Text) (r : PrefixRevision)
    → Grows s
        (record s { prefix_preconditions = s.prefix_preconditions ++ ((prefix, r) ∷ []) })
        []
        ((prefix, r) ∷ [])
require_prefix-Grows s prefix r = record {
  actions_sorted = λ h. h;
  deletes_sorted = λ h. h;
  preconditions_lem = rw append-nil refl;
  prefix_preconditions_lem = refl;
}

if-Grows :
    (b : Bool) {s t : Staging} {more : List (Text × Precondition)}
    → Grows s t more []
    → Grows s (if b then t else s) (if b then more else []) []
if-Grows true g = g
if-Grows false {s = s} g = same-Grows s

if-Grows-nothing : (b : Bool) {s t : Staging} → Grows s t [] [] → Grows s (if b then t else s) [] []
if-Grows-nothing true g = g
if-Grows-nothing false {s = s} g = same-Grows s

if-Grows-under :
    (b : Bool) {s t : Staging} {under : List (Text × PrefixRevision)}
    → Grows s t [] under
    → Grows s (if b then t else s) [] (if b then under else [])
if-Grows-under true g = g
if-Grows-under false {s = s} g = same-Grows s

module _ (c : Crates) where
  -- What a call that is accepted requires.
  unfoldable pub required : Call → List (Text × Precondition)
  required (Call.write_requiring path x p) = if accepted (refusal c path) then needed path p else []
  required (Call.write_back file x) = (file.path, unchanged_since file.stat.revision) ∷ []
  required (Call.delete_requiring path p) = if accepted (refusal c path) then needed path p else []
  required (Call.require path p) = if accepted (refusal c path) then needed path p else []
  required call = []

  unfoldable pub required_under : Call → List (Text × PrefixRevision)
  required_under (Call.require_prefix prefix r) =
      if accepted (prefix_refusal c prefix) then (prefix, r) ∷ [] else []
  required_under call = []

  unfoldable pub required_all : List Call → List (Text × Precondition)
  required_all [] = []
  required_all (call ∷ calls) = required call ++ required_all calls

  unfoldable pub required_under_all : List Call → List (Text × PrefixRevision)
  required_under_all [] = []
  required_under_all (call ∷ calls) = required_under call ++ required_under_all calls

  called-Grows :
      (s : Staging) (call : Call)
      → Grows s (kept s (called c s call)) (required call) (required_under call)
  unfolding required required_under Staging.write_any Staging.write_requiring Staging.write_back
      Staging.delete_any Staging.delete_requiring Staging.delete_prefix Staging.require
      Staging.require_prefix
  called-Grows s (Call.write path x) =
      rw (kept-path c s path (λ v. stage s v (Action.write x) any))
        (if-Grows-nothing (accepted (refusal c path)) (stage-Grows s path (Action.write x) any))
  called-Grows s (Call.write_requiring path x p) =
      rw (kept-path c s path (λ v. stage s v (Action.write x) p))
        (if-Grows (accepted (refusal c path)) (stage-Grows s path (Action.write x) p))
  called-Grows s (Call.write_back file x) =
      stage-Grows s file.path (Action.write x) (unchanged_since file.stat.revision)
  called-Grows s (Call.delete path) =
      rw (kept-path c s path (λ v. stage s v Action.delete any))
        (if-Grows-nothing (accepted (refusal c path)) (stage-Grows s path Action.delete any))
  called-Grows s (Call.delete_requiring path p) =
      rw (kept-path c s path (λ v. stage s v Action.delete p))
        (if-Grows (accepted (refusal c path)) (stage-Grows s path Action.delete p))
  called-Grows s (Call.delete_prefix prefix) =
      rw (kept-prefix c s prefix (λ v. stage_prefix_delete s v))
        (if-Grows-nothing (accepted (prefix_refusal c prefix)) (delete_prefix-Grows s prefix))
  called-Grows s (Call.require path p) =
      rw (kept-path c s path (λ v. add_precondition s v p))
        (if-Grows (accepted (refusal c path)) (add_precondition-Grows s path p))
  called-Grows s (Call.require_prefix prefix r) =
      rw
        (kept-prefix c s prefix
          (λ v. record s { prefix_preconditions = s.prefix_preconditions ++ ((v, r) ∷ []) }))
        (if-Grows-under (accepted (prefix_refusal c prefix)) (require_prefix-Grows s prefix r))

  call_all-Grows :
      (s : Staging) (calls : List Call)
      → Grows s (call_all c s calls) (required_all calls) (required_under_all calls)
  unfolding call_all required_all required_under_all
  call_all-Grows s [] = same-Grows s
  call_all-Grows s (call ∷ calls) =
      let one = called-Grows s call in
      let rest = call_all-Grows (kept s (called c s call)) calls in
      record {
        actions_sorted = λ h. rest.actions_sorted (one.actions_sorted h);
        deletes_sorted = λ h. rest.deletes_sorted (one.deletes_sorted h);
        preconditions_lem = rest.preconditions_lem ∙ rw (one.preconditions_lem, append_assoc) refl;
        prefix_preconditions_lem =
            rest.prefix_preconditions_lem ∙ rw (one.prefix_preconditions_lem, append_assoc) refl;
      }

  -- Whatever calls an app makes on a new Staging, its actions and its Prefix deletes are in order,
  -- each once, and it requires exactly what the accepted calls required, in the order of the calls:
  -- no later call, not even a delete of a Prefix, drops a Precondition.
  pub call_all-requires :
      (calls : List Call)
      → IsSorted (call_all c Staging.new calls).actions
        × IsSorted (call_all c Staging.new calls).prefix_deletes
        × ((call_all c Staging.new calls).preconditions ≡ required_all calls)
        × ((call_all c Staging.new calls).prefix_preconditions ≡ required_under_all calls)
  call_all-requires calls =
      let g = call_all-Grows Staging.new calls in
      (g.actions_sorted tt, g.deletes_sorted tt, g.preconditions_lem, g.prefix_preconditions_lem)
