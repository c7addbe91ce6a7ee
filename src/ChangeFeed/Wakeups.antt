-- ===== src/ChangeFeed/Wakeups.antt =====
-- The Store's end and the reader of the Change feed, step by step: `ChangeFeed::next`, the calls of
-- `FeedSender` and the drop of the feed, in any order (src/change.rs).
use tidings.Base.Tests.{◌≡◌, refl, Bool, true, false, List, [], ◌∷◌}
use tidings.ChangeFeed.{RawChange, Origin, Pending, merging, no_pending, Next, item, ended, wait}
use tidings.ChangeFeed.Unread.{next_of, next}
use tidings.ChangeFeed.FeedSender
use tidings.ChangeFeed.FeedSender.{Shared, feed}

-- Where the reader stands in the loop of `ChangeFeed::next`: about to look at what is unread,
-- awaiting `recorded`, or gone (it was given `None`, or the feed was dropped).
pub data Reader : Type 0 where
  looking waiting gone : Reader

pub record Feed : Type 0 where
  pub shared : Shared
  pub reader : Reader

-- The match in the loop. After an item the app calls `next` again.
unfoldable pub after_look : Next → Reader
after_look (item _) = looking
after_look ended = gone
after_look wait = waiting

-- One turn of the loop: the lock is held only to take what is unread.
unfoldable pub look : Shared → Feed
unfolding after_look next
look s = record {
  shared = record s { unread = (next s.unread).1 };
  reader = after_look (next s.unread).0;
}

pub data Step (c : Feed) : Feed → Type 0 where
  recording :
      (cs : List RawChange) (origin : Origin)
      → Step c (record c { shared = FeedSender.record_changes c.shared cs origin })
  missing : Step c (record c { shared = FeedSender.resync c.shared })
  ending : Step c (record c { shared = FeedSender.end c.shared })
  looks : c.reader ≡ looking → Step c (look c.shared)
  wakes :
      c.reader ≡ waiting
      → c.shared.recorded ≡ true
      → Step c (record { shared = record c.shared { recorded = false }; reader = looking })
  dropping : Step c (record { shared = FeedSender.drop_feed c.shared; reader = gone })

pub data Reach : Feed → Type 0 where
  opened : Reach (record { shared = feed; reader = looking })
  next_step : {c d : Feed} → Reach c → Step c d → Reach d

-- A reader that waits with no wake-up kept has nothing to be given.
abbrev pub NothingMissed : Feed → Type 0
NothingMissed c =
    c.reader ≡ waiting
    → c.shared.recorded ≡ false
    → next_of c.shared.unread.pending c.shared.unread.store_dropped ≡ wait

look-NothingMissed : (s : Shared) → NothingMissed (look s)
unfolding look
look-NothingMissed s = go s.unread.pending s.unread.store_dropped
  where
    go :
        (p : Pending) (dropped : Bool)
        → after_look (next_of p dropped) ≡ waiting
        → s.recorded ≡ false
        → next_of no_pending dropped ≡ wait
    go Pending.resyncing dropped h k = cc
    go (merging []) true h k = cc
    go (merging []) false h k = refl
    go (merging (e ∷ m)) dropped h k = cc

Step-NothingMissed : {c d : Feed} → Step c d → NothingMissed c → NothingMissed d
unfolding FeedSender.record_changes FeedSender.resync FeedSender.end FeedSender.drop_feed
Step-NothingMissed (recording [] origin) keep = keep
Step-NothingMissed (recording (c ∷ cs) origin) keep = λ w r. cc
Step-NothingMissed missing keep = λ w r. cc
Step-NothingMissed ending keep = λ w r. cc
Step-NothingMissed {c} (looks h) keep = look-NothingMissed c.shared
Step-NothingMissed (wakes w r) keep = λ l _. cc
Step-NothingMissed dropping keep = λ w r. cc

-- However recording, resyncs, the end of the Store, reads and waits interleave, no wake-up is
-- missed: a reader that waits while no wake-up is kept for it would be told to wait if it looked.
pub no_missed_wakeup :
    {c : Feed}
    → Reach c
    → c.reader ≡ waiting
    → c.shared.recorded ≡ false
    → (next c.shared.unread).0 ≡ wait
unfolding next
no_missed_wakeup r = kept r
  where
    kept : {c : Feed} → Reach c → NothingMissed c
    kept opened = λ w r. cc
    kept (next_step r s) = Step-NothingMissed s (kept r)
