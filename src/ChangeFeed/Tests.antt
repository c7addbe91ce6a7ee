-- ===== src/ChangeFeed/Tests.antt =====
-- Runs of the Change feed, and its theorems at concrete data.
use tidings.Base.Tests.{◌≢◌, ◌≡◌, refl, List, [], ◌∷◌}
use tidings.Base.Text.{codes, cmp, text_eq}
use tidings.Base.BTreeMap
use tidings.ChangeFeed.{
  RawChange, changed, removed, local, external, no_pending, FeedItem, changes, item, wait, ended,
}
use tidings.ChangeFeed.Unread.{next}
use tidings.ChangeFeed.FeedSender
use tidings.ChangeFeed.FeedSender.{feed, end}
use tidings.ChangeFeed.Merge.{summary}
use tidings.ChangeFeed.Batches.{
  Batch, record_all, all_events, change_at, given, InOrder, next-record_all,
}
use tidings.ChangeFeed.Ends.{next-record_all-resync, next-end}
use tidings.ChangeFeed.Wakeups.{look, looks, Reach, opened, next_step, no_missed_wakeup}

abbrev raw : List RawChange
raw = record { path = codes "b"; kind = changed } ∷ record { path = codes "a"; kind = changed } ∷ []

abbrev batches : List Batch
batches = (raw, external) ∷ (record { path = codes "a"; kind = removed } ∷ [], local) ∷ []

-- The removal through the Store is still external: someone else changed the File before.
merged_batches :
    (next (record_all feed batches).unread).0
    ≡ item (
        changes (
          record { path = codes "a"; kind = removed; origin = external }
          ∷ record { path = codes "b"; kind = changed; origin = external }
          ∷ []))
unfolding next record_all FeedSender.record_changes BTreeMap.insert BTreeMap.get cmp text_eq
merged_batches = refl

next-record_all_example :
    (change_at (codes "a") (given (next (record_all feed batches).unread).0)
      ≡ summary (codes "a") (all_events batches))
    × InOrder (given (next (record_all feed batches).unread).0)
next-record_all_example = next-record_all batches (codes "a")

next-record_all-resync_example :
    next (record_all (FeedSender.resync (record_all feed batches)) batches).unread
    ≡ (item FeedItem.resync, record (record_all feed batches).unread { pending = no_pending })
unfolding record_all FeedSender.record_changes
next-record_all-resync_example = next-record_all-resync (record_all feed batches) batches refl refl

next-end_example :
    let s = record_all feed batches in
    let first = next (record_all (end s) batches).unread in
    let resynced = next (record_all (end (FeedSender.resync s)) batches).unread in
    (change_at (codes "a") (given first.0) ≡ summary (codes "a") (all_events batches))
    × InOrder (given first.0)
    × (first.0 ≢ wait)
    × (resynced.0 ≡ item FeedItem.resync)
    × ((next first.1).0 ≡ ended)
    × ((next resynced.1).0 ≡ ended)
next-end_example = next-end batches batches (codes "a")

-- The reader looks, and waits for nothing.
abbrev asleep : Reach (look feed)
asleep = next_step opened (looks refl)

no_missed_wakeup_example : (next (look feed).shared.unread).0 ≡ wait
unfolding look
no_missed_wakeup_example = no_missed_wakeup asleep refl refl
