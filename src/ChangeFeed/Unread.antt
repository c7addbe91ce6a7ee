-- ===== src/ChangeFeed/Unread.antt =====
-- `impl Unread` (src/change.rs): what is recorded and not yet read.
use tidings.Base.Tests.{Bool, true, false, ◌||◌, List, [], ◌∷◌, map, if◌then◌else◌}
use tidings.Base.Text.{Text}
use tidings.ChangeFeed.{
  Change, RawChange, Origin, Merged, Pending, merging, resyncing, no_pending, record_pending,
  FeedItem, changes, Next, item, ended, wait,
}

pub record Unread : Type 0 where
  pub pending : Pending
  pub store_dropped : Bool
  pub feed_dropped : Bool

-- `Unread::default`.
abbrev pub no_unread : Unread
no_unread = record { pending = no_pending; store_dropped = false; feed_dropped = false }

-- `Unread::record`.
unfoldable pub record_changes : Unread → List RawChange → Origin → Unread
unfolding record_pending
record_changes u cs origin =
    if u.store_dropped || u.feed_dropped
    then u
    else record u { pending = record_pending u.pending cs origin }

-- `Unread::resync`.
unfoldable pub resync : Unread → Unread
resync u = if u.store_dropped || u.feed_dropped then u else record u { pending = resyncing }

abbrev pub to_change : Text × Merged → Change
to_change (path, m) = record { path = path; kind = m.kind; origin = m.origin }

-- The match of `Unread::next`.
unfoldable pub next_of : Pending → Bool → Next
next_of resyncing dropped = item FeedItem.resync
next_of (merging []) true = ended
next_of (merging []) false = wait
next_of (merging (e ∷ m)) dropped = item (changes (map to_change (e ∷ m)))

-- `Unread::next`: `take` leaves no Changes.
unfoldable pub next : Unread → Next × Unread
unfolding next_of
next u = (next_of u.pending u.store_dropped, record u { pending = no_pending })
