-- ===== src/ChangeFeed/FeedSender.antt =====
-- Both ends of the Change feed (src/change.rs): `FeedSender`, `feed` and `Drop for ChangeFeed`.
use tidings.Base.Tests.{Bool, true, false, List, [], ◌∷◌}
use tidings.ChangeFeed.{RawChange, Origin, no_pending}
use tidings.ChangeFeed.Unread
use tidings.ChangeFeed.Unread.{Unread, no_unread}

-- What both ends share. `recorded` is the wake-up that tokio's `Notify` keeps for the next wait:
-- `notify_one` sets it, and a wait that ends takes it.
pub record Shared : Type 0 where
  pub unread : Unread
  pub recorded : Bool

abbrev pub feed : Shared
feed = record { unread = no_unread; recorded = false }

-- `FeedSender::record`.
unfoldable pub record_changes : Shared → List RawChange → Origin → Shared
unfolding Unread.record_changes
record_changes s [] origin = s
record_changes s (c ∷ cs) origin = record {
  unread = Unread.record_changes s.unread (c ∷ cs) origin;
  recorded = true;
}

-- `FeedSender::resync`.
unfoldable pub resync : Shared → Shared
unfolding Unread.resync
resync s = record { unread = Unread.resync s.unread; recorded = true }

-- `FeedSender::end`.
unfoldable pub end : Shared → Shared
end s = record { unread = record s.unread { store_dropped = true }; recorded = true }

-- `ChangeFeed::drop`.
unfoldable pub drop_feed : Shared → Shared
drop_feed s = record s { unread = record s.unread { feed_dropped = true; pending = no_pending } }
