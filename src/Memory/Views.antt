-- ===== src/Memory/Views.antt =====
-- The memory Backend reads its Files as `StoreState` promises (src/backend/memory.rs).
use tidings.Base.Tests.{◌≡◌, refl, Bool, [], ◌∷◌, arith}
use tidings.Base.Text.{Text}
use tidings.Base.BTreeMap.{BTreeMap, get, retain, keys}
use tidings.Base.BTreeMap.Sorted.{AllAbove, IsSorted}
use tidings.Prefixes.{covers}
use tidings.StoreState.{Views}
use tidings.Memory.{Stored, Held, list, revisions, revision_of, held_state}

pub get-revisions :
    (p : Text) (files : BTreeMap Stored) → get p (revisions files) ≡ revision_of (get p files)
unfolding get revisions
get-revisions p [] = refl
get-revisions p ((q, _) ∷ files) = ground (arith, get-revisions p files)

revisions-AllAbove :
    (k : Text) (files : BTreeMap Stored) → AllAbove k files → AllAbove k (revisions files)
unfolding revisions
revisions-AllAbove k [] a = tt
revisions-AllAbove k ((q, _) ∷ files) (h, a) = (h, revisions-AllAbove k files a)

revisions-IsSorted : (files : BTreeMap Stored) → IsSorted files → IsSorted (revisions files)
unfolding revisions
revisions-IsSorted [] s = tt
revisions-IsSorted ((q, _) ∷ files) (a, s) =
    (revisions-AllAbove q files a, revisions-IsSorted files s)

revisions-retain :
    (p : Text → Bool) (files : BTreeMap Stored)
    → revisions (retain p files) ≡ retain p (revisions files)
unfolding revisions retain
revisions-retain p [] = refl
revisions-retain p ((q, _) ∷ files) = ground (arith, revisions-retain p files)

keys-revisions : (files : BTreeMap Stored) → keys (revisions files) ≡ keys files
unfolding revisions keys
keys-revisions [] = refl
keys-revisions ((q, _) ∷ files) = rw (keys-revisions files)

-- What a Commit reads of the memory Backend are the Revisions of its Files.
pub held_state-Views :
    (held : Held) → IsSorted held.files → Views (held_state held) (revisions held.files)
unfolding held_state list
held_state-Views held s = record {
  sorted = revisions-IsSorted held.files s;
  revision_lem = λ path. rw get-revisions;
  revisions_under_lem = λ prefix. rw revisions-retain;
  paths_under_lem = λ prefix. rw (← revisions-retain (covers prefix) held.files, keys-revisions);
  paths_named_like_lem = λ name fold. (_, refl);
}
