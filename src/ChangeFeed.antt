-- ===== src/ChangeFeed.antt =====
-- The Change feed (src/change.rs): Changes wait until they are read, merged per Path, and a Resync
-- takes their place. The Store's end records, and the one receiver reads or is dropped.
pub mod Unread
pub mod FeedSender
pub mod Merge
pub mod Batches
pub mod Ends
pub mod Wakeups
mod Tests
use tidings.Base.Tests.{Option, none, some, List, [], ◌∷◌}
use tidings.Base.Text.{Text}
use tidings.Base.BTreeMap.{BTreeMap, get, insert}

pub data ChangeKind : Type 0 where
  changed removed : ChangeKind

pub data Origin : Type 0 where
  local external : Origin

pub record Change : Type 0 where
  pub path : Text
  pub kind : ChangeKind
  pub origin : Origin

pub record RawChange : Type 0 where
  pub path : Text
  pub kind : ChangeKind

pub data FeedItem : Type 0 where
  changes : List Change → FeedItem
  resync : FeedItem

pub record Merged : Type 0 where
  pub kind : ChangeKind
  pub origin : Origin

pub data Pending : Type 0 where
  merging : BTreeMap Merged → Pending
  resyncing : Pending

-- `Pending::default`.
abbrev pub no_pending : Pending
no_pending = merging []

pub data Next : Type 0 where
  item : FeedItem → Next
  ended wait : Next

-- `entry(path).or_insert(..)`, and the two assignments to the entry.
unfoldable pub merged_with : Option Merged → ChangeKind → Origin → Merged
merged_with none kind origin = record { kind = kind; origin = origin }
merged_with (some m) kind Origin.local = record m { kind = kind }
merged_with (some m) kind Origin.external = record { kind = kind; origin = Origin.external }

-- The loop of `Unread::record`.
unfoldable pub merge : BTreeMap Merged → List RawChange → Origin → BTreeMap Merged
unfolding merged_with
merge merged [] origin = merged
merge merged (c ∷ cs) origin =
    merge (insert c.path (merged_with (get c.path merged) c.kind origin) merged) cs origin

unfoldable pub record_pending : Pending → List RawChange → Origin → Pending
unfolding merge
record_pending (merging merged) cs origin = merging (merge merged cs origin)
record_pending resyncing cs origin = resyncing
