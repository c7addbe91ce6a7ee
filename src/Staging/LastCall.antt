-- ===== src/Staging/LastCall.antt =====
-- What a Staging does to a Path is what the last call on the Path said (src/staging.rs).
use tidings.Base.Tests.{
  ◌≡◌, refl, ◌∙◌, Bool, true, false, not, ◌&&◌, ◌||◌, Option, none, some, is_some, List, [], ◌∷◌,
  ◌++◌, arith, if◌then◌else◌,
}
use tidings.Base.Results.{ok, ◌>>=◌}
use tidings.Base.Text.{Text, cmp-eq_iff, text_eq}
use tidings.Base.BTreeMap.{BTreeMap, get, insert, keys, get-insert, get-retain}
use tidings.Crates.{Crates}
use tidings.Error.{InvalidPathReason}
use tidings.Files.{Revision, Precondition, any, absent, unchanged_since}
use tidings.Paths
use tidings.Paths.{refusal}
use tidings.Prefixes
use tidings.Prefixes.{covers, prefix_refusal}
use tidings.Staging
use tidings.Staging.{Action, Staging, stage, stage_prefix_delete, add_precondition}
use tidings.Staging.Calls.{Call, kept, called, call_all}
use tidings.Commits.Expand.{any_covers}
use tidings.Commits.Effect.{effective}

-- What the calls so far say of a Path.
pub data Said : Type 0 where
  untouched under_prefix : Said
  staged : Action → Said

abbrev pub accepted : Option InvalidPathReason → Bool
accepted none = true
accepted (some reason) = false

-- What a Staging holds for a Path.
abbrev says_of : Option Action → Bool → Said
says_of (some action) covered = staged action
says_of none true = under_prefix
says_of none false = untouched

abbrev held_for : Text → Staging → Said
held_for q s = says_of (get q s.actions) (any_covers q (keys s.prefix_deletes))

-- What a Commit does to a Path, from what was said of it and whether it has a File.
abbrev pub done : Said → Bool → Option Action
done untouched there = none
done under_prefix there = if there then some Action.delete else none
done (staged action) there = some action

any_covers-insert :
    (q p : Text) (m : BTreeMap (Unit {0}))
    → any_covers q (keys (insert p tt m)) ≡ (covers p q || any_covers q (keys m))
unfolding keys insert
any_covers-insert q p [] = ground arith
any_covers-insert q p ((j, u) ∷ m) = ground (arith, any_covers-insert q p m, cmp-eq_iff p j)

add_precondition-held_for :
    (q : Text) (s : Staging) (path : Text) (p : Precondition)
    → held_for q (add_precondition s path p) ≡ held_for q s
unfolding add_precondition
add_precondition-held_for q s path any = refl
add_precondition-held_for q s path absent = refl
add_precondition-held_for q s path (unchanged_since r) = refl

stage-held_for :
    (q : Text) (s : Staging) (path : Text) (a : Action) (p : Precondition)
    → held_for q (stage s path a p) ≡ (if text_eq q path then staged a else held_for q s)
unfolding stage add_precondition
stage-held_for q s path a any = ground (arith, get-insert path q a s.actions)
stage-held_for q s path a absent = ground (arith, get-insert path q a s.actions)
stage-held_for q s path a (unchanged_since r) = ground (arith, get-insert path q a s.actions)

delete_prefix-held_for :
    (q : Text) (s : Staging) (prefix : Text)
    → held_for q (stage_prefix_delete s prefix)
      ≡ (if covers prefix q then under_prefix else held_for q s)
unfolding stage_prefix_delete
delete_prefix-held_for q s prefix = ground (
  arith,
  get-retain (λ path. not (covers prefix path)) q s.actions,
  any_covers-insert q prefix s.prefix_deletes,
)

held_for_if :
    (q : Text) (b e : Bool) (x s : Staging) (w : Said)
    → held_for q x ≡ (if e then w else held_for q s)
    → held_for q (if b then x else s) ≡ (if b && e then w else held_for q s)
held_for_if q true e x s w h = h
held_for_if q false e x s w h = refl

held_for_same :
    (q : Text) (b : Bool) (x s : Staging)
    → held_for q x ≡ held_for q s
    → held_for q (if b then x else s) ≡ held_for q s
held_for_same q true x s h = h
held_for_same q false x s h = refl

module _ (c : Crates) where
  -- What a call says of a Path, after the calls before it: a refused call says nothing.
  unfoldable pub says : Said → Call → Text → Said
  says said (Call.write path x) q =
      if accepted (refusal c path) && text_eq q path then staged (Action.write x) else said
  says said (Call.write_requiring path x p) q =
      if accepted (refusal c path) && text_eq q path then staged (Action.write x) else said
  says said (Call.write_back file x) q =
      if text_eq q file.path then staged (Action.write x) else said
  says said (Call.delete path) q =
      if accepted (refusal c path) && text_eq q path then staged Action.delete else said
  says said (Call.delete_requiring path p) q =
      if accepted (refusal c path) && text_eq q path then staged Action.delete else said
  says said (Call.delete_prefix prefix) q =
      if accepted (prefix_refusal c prefix) && covers prefix q then under_prefix else said
  says said (Call.require path p) q = said
  says said (Call.require_prefix prefix r) q = said

  unfoldable pub last_said : Said → List Call → Text → Said
  last_said said [] q = said
  last_said said (call ∷ calls) q = last_said (says said call q) calls q

  pub kept-path :
      (s : Staging) (path : Text) (f : Text → Staging)
      → kept s (Paths.new c path >>= (λ valid. ok (f valid)))
        ≡ (if accepted (refusal c path) then f path else s)
  unfolding Paths.new
  kept-path s path f = ground arith

  pub kept-prefix :
      (s : Staging) (prefix : Text) (f : Text → Staging)
      → kept s (Prefixes.new c prefix >>= (λ valid. ok (f valid)))
        ≡ (if accepted (prefix_refusal c prefix) then f prefix else s)
  unfolding Prefixes.new
  kept-prefix s prefix f = ground arith

  stage-says :
      (q : Text) (s : Staging) (path : Text) (a : Action) (p : Precondition)
      → held_for q (kept s (Paths.new c path >>= (λ valid. ok (stage s valid a p))))
        ≡ (if accepted (refusal c path) && text_eq q path then staged a else held_for q s)
  stage-says q s path a p = rw (kept-path s path (λ valid. stage s valid a p)) (
      held_for_if q (accepted (refusal c path)) (text_eq q path) (stage s path a p) s (staged a)
        (stage-held_for q s path a p))

  called-says :
      (q : Text) (s : Staging) (call : Call)
      → held_for q (kept s (called c s call)) ≡ says (held_for q s) call q
  unfolding says Staging.write_any Staging.write_requiring Staging.write_back Staging.delete_any
      Staging.delete_requiring Staging.delete_prefix Staging.require Staging.require_prefix
  called-says q s (Call.write path x) = stage-says q s path (Action.write x) any
  called-says q s (Call.write_requiring path x p) = stage-says q s path (Action.write x) p
  called-says q s (Call.write_back file x) =
      stage-held_for q s file.path (Action.write x) (unchanged_since file.stat.revision)
  called-says q s (Call.delete path) = stage-says q s path Action.delete any
  called-says q s (Call.delete_requiring path p) = stage-says q s path Action.delete p
  called-says q s (Call.delete_prefix prefix) =
      rw (kept-prefix s prefix (λ valid. stage_prefix_delete s valid)) (
        held_for_if q (accepted (prefix_refusal c prefix)) (covers prefix q)
          (stage_prefix_delete s prefix) s under_prefix (delete_prefix-held_for q s prefix))
  called-says q s (Call.require path p) =
      rw (kept-path s path (λ valid. add_precondition s valid p)) (
        held_for_same q (accepted (refusal c path)) (add_precondition s path p) s
          (add_precondition-held_for q s path p))
  called-says q s (Call.require_prefix prefix r) =
      rw
        (kept-prefix s prefix (λ valid. record s {
          prefix_preconditions = s.prefix_preconditions ++ ((valid, r) ∷ []);
        }))
        (held_for_same q (accepted (prefix_refusal c prefix)) _ s refl)

  call_all-last_said :
      (q : Text) (s : Staging) (calls : List Call)
      → held_for q (call_all c s calls) ≡ last_said (held_for q s) calls q
  unfolding call_all last_said
  call_all-last_said q s [] = refl
  call_all-last_said q s (call ∷ calls) =
      call_all-last_said q (kept s (called c s call)) calls ∙ rw (called-says q s call) refl

  effective-done :
      (s : Staging) (revisions : BTreeMap Revision) (q : Text)
      → effective s revisions q ≡ done (held_for q s) (is_some (get q revisions))
  unfolding effective
  effective-done s revisions q = ground arith

  -- Whatever calls an app makes on a new Staging, accepted or refused, what a Commit of it does to
  -- a Path is what the last accepted call that names the Path, or a Prefix over it, says: a write,
  -- a delete, or for a Prefix a delete if there is a File. Without such a call it does nothing.
  pub effective-last_said :
      (calls : List Call) (revisions : BTreeMap Revision) (q : Text)
      → effective (call_all c Staging.new calls) revisions q
        ≡ done (last_said untouched calls q) (is_some (get q revisions))
  effective-last_said calls revisions q =
      effective-done (call_all c Staging.new calls) revisions q
      ∙ rw (call_all-last_said q Staging.new calls) (unfold get keys in refl)
