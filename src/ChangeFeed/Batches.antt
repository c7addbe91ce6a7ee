-- ===== src/ChangeFeed/Batches.antt =====
-- What the reader of the Change feed is given, against everything that was recorded.
use Prim.Native.Nat.{Ordering}
use tidings.Base.Tests.{
  ◌≡◌, refl, ◌∙◌, Bool, true, false, Option, none, some, List, [], ◌∷◌, ◌++◌, map, if◌then◌else◌,
}
use tidings.Base.Text.{Text, cmp, text_eq}
use tidings.Base.BTreeMap.{BTreeMap, get}
use tidings.Base.BTreeMap.Sorted.{AllAbove, IsSorted, insert-IsSorted}
use tidings.ChangeFeed.{
  Change, RawChange, Origin, Merged, merging, merged_with, merge, FeedItem, changes, Next, item,
  ended, wait,
}
use tidings.ChangeFeed.Unread.{to_change, next_of, next}
use tidings.ChangeFeed.FeedSender
use tidings.ChangeFeed.FeedSender.{Shared, feed}
use tidings.ChangeFeed.Merge.{Event, events, summary_on, summary_on-append, summary, get-merge}

abbrev pub Batch : Type 0
Batch = List RawChange × Origin

-- The Store records one batch after another.
unfoldable pub record_all : Shared → List Batch → Shared
record_all s [] = s
record_all s ((cs, origin) ∷ bs) = record_all (FeedSender.record_changes s cs origin) bs

abbrev pub all_events : List Batch → List Event
all_events [] = []
all_events ((cs, origin) ∷ bs) = events cs origin ++ all_events bs

-- What one item of the feed says of a Path.
abbrev pub change_at : Text → List Change → Option Merged
change_at p [] = none
change_at p (c ∷ cs) =
    if text_eq p c.path then some (record { kind = c.kind; origin = c.origin }) else change_at p cs

-- The Changes that an item holds.
abbrev pub given : Next → List Change
given (item (changes cs)) = cs
given (item FeedItem.resync) = []
given ended = []
given wait = []

-- The Paths of the Changes are in order, with no Path twice.
abbrev pub PathsAbove : Text → List Change → Type 0
PathsAbove p [] = Unit
PathsAbove p (c ∷ cs) = (cmp p c.path ≡ Ordering.lt) × PathsAbove p cs

abbrev pub InOrder : List Change → Type 0
InOrder [] = Unit
InOrder (c ∷ cs) = PathsAbove c.path cs × InOrder cs

pub change_at-map : (p : Text) (m : BTreeMap Merged) → change_at p (map to_change m) ≡ get p m
unfolding get
change_at-map p [] = refl
change_at-map p ((q, w) ∷ m) = rw (change_at-map p m)

PathsAbove-map : (p : Text) (m : BTreeMap Merged) → AllAbove p m → PathsAbove p (map to_change m)
PathsAbove-map p [] a = tt
PathsAbove-map p ((q, w) ∷ m) (a, as') = (a, PathsAbove-map p m as')

InOrder-map : (m : BTreeMap Merged) → IsSorted m → InOrder (map to_change m)
InOrder-map [] s = tt
InOrder-map ((q, w) ∷ m) (a, s) = (PathsAbove-map q m a, InOrder-map m s)

pub given-next_of :
    (m : BTreeMap Merged) (dropped : Bool) → given (next_of (merging m) dropped) ≡ map to_change m
unfolding next_of
given-next_of [] true = refl
given-next_of [] false = refl
given-next_of (e ∷ m) dropped = refl

merge-IsSorted :
    (cs : List RawChange) (origin : Origin) (m : BTreeMap Merged)
    → IsSorted m
    → IsSorted (merge m cs origin)
unfolding merge
merge-IsSorted [] origin m s = s
merge-IsSorted (c ∷ cs) origin m s =
    merge-IsSorted cs origin _
      (insert-IsSorted c.path (merged_with (get c.path m) c.kind origin) m s)

-- A live Store end whose unread Changes are `m`.
abbrev pub Live : Shared → BTreeMap Merged → Type 0
Live s m = (s.unread ≡ record { pending = merging m; store_dropped = false; feed_dropped = false })

pub record_changes-Live :
    (s : Shared) (m : BTreeMap Merged) (cs : List RawChange) (origin : Origin)
    → Live s m
    → Live (FeedSender.record_changes s cs origin) (merge m cs origin)
unfolding FeedSender.record_changes merge
record_changes-Live s m [] origin h = h
record_changes-Live s m (c ∷ cs) origin h = rw h

-- The unread Changes after every batch.
merge_all : BTreeMap Merged → List Batch → BTreeMap Merged
merge_all m [] = m
merge_all m ((cs, origin) ∷ bs) = merge_all (merge m cs origin) bs

record_all-Live :
    (bs : List Batch) (s : Shared) (m : BTreeMap Merged)
    → Live s m
    → Live (record_all s bs) (merge_all m bs)
unfolding record_all merge_all
record_all-Live [] s m h = h
record_all-Live ((cs, origin) ∷ bs) s m h =
    record_all-Live bs (FeedSender.record_changes s cs origin) _
      (record_changes-Live s m cs origin h)

merge_all-IsSorted :
    (bs : List Batch) (m : BTreeMap Merged) → IsSorted m → IsSorted (merge_all m bs)
unfolding merge_all
merge_all-IsSorted [] m s = s
merge_all-IsSorted ((cs, origin) ∷ bs) m s = merge_all-IsSorted bs _ (merge-IsSorted cs origin m s)

get-merge_all :
    (p : Text) (bs : List Batch) (m : BTreeMap Merged)
    → get p (merge_all m bs) ≡ summary_on (get p m) p (all_events bs)
unfolding merge_all
get-merge_all p [] m = refl
get-merge_all p ((cs, origin) ∷ bs) m =
    get-merge_all p bs (merge m cs origin)
    ∙ rw (get-merge p m cs origin)
        (summary_on-append (get p m) p (events cs origin) (all_events bs))

-- Whatever batches a Store records before the feed is read, the next item says of each Path what
-- the whole history says: nothing if no Change named it, or else the kind of the last Change to
-- it, external if any Change to it was. Its Changes are in order of Path, one to a Path.
pub next-record_all :
    (bs : List Batch) (p : Text)
    → (change_at p (given (next (record_all feed bs).unread).0) ≡ summary p (all_events bs))
      × InOrder (given (next (record_all feed bs).unread).0)
unfolding next
next-record_all bs p =
    rw (record_all-Live bs feed [] refl, given-next_of)
      (
        change_at-map p (merge_all [] bs) ∙ get-merge_all p bs [] ∙ (unfold get in refl),
        InOrder-map _ (merge_all-IsSorted bs [] tt),
      )
