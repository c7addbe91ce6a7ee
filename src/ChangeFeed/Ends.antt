-- ===== src/ChangeFeed/Ends.antt =====
-- What the reader is given after a Resync, and at the end of the feed (src/change.rs).
use tidings.ChangeFeed.Merge.{summary}
use tidings.Base.Text.{Text}
use tidings.Base.Tests.{
  inl, inr, sym, ap, Bool-cases, ◌≢◌, ◌≡◌, refl, ◌∙◌, true, false, List, [], ◌∷◌, arith,
}
use tidings.ChangeFeed.{wait, merging, Pending, resyncing, no_pending, merge, FeedItem, item, ended}
use tidings.ChangeFeed.Unread
use tidings.ChangeFeed.Unread.{Unread, next_of, next}
use tidings.ChangeFeed.FeedSender
use tidings.ChangeFeed.FeedSender.{feed, Shared, end, drop_feed}
use tidings.ChangeFeed.Batches.{
  next-record_all, InOrder, all_events, change_at, given, Batch, record_all,
}

record_all-resync :
    (bs : List Batch) (s : Shared)
    → s.unread.pending ≡ resyncing
    → (record_all s bs).unread ≡ s.unread
unfolding record_all FeedSender.record_changes merge
record_all-resync [] s h = refl
record_all-resync (([], origin) ∷ bs) s h = record_all-resync bs s h
record_all-resync ((c ∷ cs, origin) ∷ bs) s h =
    let same : Unread.record_changes s.unread (c ∷ cs) origin ≡ s.unread = ground arith in
    record_all-resync bs (FeedSender.record_changes s (c ∷ cs) origin) (rw same h) ∙ same

-- On a live feed, whatever is unread and whatever batches are recorded after a Resync, the next
-- item is one Resync, and nothing is left unread after it.
pub next-record_all-resync :
    (s : Shared) (bs : List Batch)
    → s.unread.store_dropped ≡ false
    → s.unread.feed_dropped ≡ false
    → next (record_all (FeedSender.resync s) bs).unread
      ≡ (item FeedItem.resync, record s.unread { pending = no_pending })
unfolding next FeedSender.resync
next-record_all-resync s bs live heard =
    let t = FeedSender.resync s in
    let resynced : t.unread ≡ record s.unread { pending = resyncing } = ground arith in
    rw (record_all-resync bs t (rw resynced), resynced)

record_all-ended :
    (bs : List Batch) (s : Shared)
    → s.unread.store_dropped ≡ true
    → (record_all s bs).unread ≡ s.unread
unfolding record_all FeedSender.record_changes
record_all-ended [] s h = refl
record_all-ended (([], origin) ∷ bs) s h = record_all-ended bs s h
record_all-ended ((c ∷ cs, origin) ∷ bs) s h =
    let same : Unread.record_changes s.unread (c ∷ cs) origin ≡ s.unread = ground arith in
    record_all-ended bs (FeedSender.record_changes s (c ∷ cs) origin) (rw same h) ∙ same

-- What an item gives, and that there is one, is the same whether the Store has ended its feed.
given-dropped : (p : Pending) → given (next_of p true) ≡ given (next_of p false)
unfolding next_of
given-dropped resyncing = refl
given-dropped (merging []) = refl
given-dropped (merging (e ∷ m)) = refl

ended-not_wait : (p : Pending) → next_of p true ≢ wait
unfolding next_of
ended-not_wait resyncing h = cc
ended-not_wait (merging []) h = cc
ended-not_wait (merging (e ∷ m)) h = cc

next_of-end :
    (s : Shared) (after : List Batch)
    → ((next (record_all (end s) after).unread).0 ≡ next_of s.unread.pending true)
      × ((next (next (record_all (end s) after).unread).1).0 ≡ ended)
unfolding next end next_of
next_of-end s after = rw (record_all-ended after (end s) refl) (refl, refl)

given-next : (s : Shared) → given (next s.unread).0 ≡ given (next_of s.unread.pending false)
unfolding next
given-next s = elim (Bool-cases s.unread.store_dropped) [
  | inl dropped ↦ rw dropped (given-dropped s.unread.pending)
  | inr live ↦ rw live refl
]

record_all-live :
    (bs : List Batch) (s : Shared)
    → s.unread.store_dropped ≡ false
    → s.unread.feed_dropped ≡ false
    → ((record_all s bs).unread.store_dropped ≡ false)
      × ((record_all s bs).unread.feed_dropped ≡ false)
unfolding record_all FeedSender.record_changes
record_all-live [] s live heard = (live, heard)
record_all-live (([], origin) ∷ bs) s live heard = record_all-live bs s live heard
record_all-live ((c ∷ cs, origin) ∷ bs) s live heard =
    record_all-live bs (FeedSender.record_changes s (c ∷ cs) origin) (ground arith) (ground arith)

resync-pending :
    (s : Shared)
    → s.unread.store_dropped ≡ false
    → s.unread.feed_dropped ≡ false
    → (FeedSender.resync s).unread.pending ≡ resyncing
unfolding FeedSender.resync
resync-pending s live heard = ground arith

-- Once the Store has ended its feed, whatever batches it recorded before the end, and is asked to
-- record after it, the next look says of each Path what the history before the end says, in order
-- of Path, or gives the Resync if there was one since; it never waits; and the look after it gives
-- `None`.
pub next-end :
    (before after : List Batch) (p : Text)
    → let s = record_all feed before in
      let first = next (record_all (end s) after).unread in
      let resynced = next (record_all (end (FeedSender.resync s)) after).unread in
      (change_at p (given first.0) ≡ summary p (all_events before))
      × InOrder (given first.0)
      × (first.0 ≢ wait)
      × (resynced.0 ≡ item FeedItem.resync)
      × ((next first.1).0 ≡ ended)
      × ((next resynced.1).0 ≡ ended)
next-end before after p =
    let s = record_all feed before in
    let r = FeedSender.resync s in
    let (says, in_order) = next-record_all before p in
    let (live, heard) = record_all-live before feed refl refl in
    let same : given (next (record_all (end s) after).unread).0 ≡ given (next s.unread).0 =
      ap given (next_of-end s after).0 ∙ given-dropped s.unread.pending ∙ sym (given-next s) in
    (
      rw same says,
      rw same in_order,
      rw (next_of-end s after).0 (ended-not_wait s.unread.pending),
      (next_of-end r after).0 ∙ rw (resync-pending s live heard) (unfold next_of in refl),
      (next_of-end s after).1,
      (next_of-end r after).1,
    )
