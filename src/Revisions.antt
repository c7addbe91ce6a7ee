-- ===== src/Revisions.antt =====
-- Revisions and Prefix Revisions (src/revision.rs).
pub mod Digits
pub mod Hashed
pub mod Differences
pub mod Tests
use tidings.Base.Tests.{
  ℕ, ◌^◌, Bool, true, false, not, ◌&&◌, ◌||◌, Option, none, some, List, [], ◌∷◌, ◌++◌, ◌==◌,
  if◌then◌else◌,
}
use tidings.Base.Lists.{all}
use tidings.Base.Text.{Text, as_bytes, len, text_eq}
use tidings.Base.Digits.{hex_pad, is_ascii_hexdigit, from_str_radix_16, to_le_bytes, from_le_bytes}
use tidings.Base.BTreeMap.{BTreeMap, get, insert}
use tidings.Crates.{Crates}
use tidings.Files.{Revision, same_revision}

-- `StoreId`, a `u64`: the number of the opened Store.
abbrev pub StoreId : Type 0
StoreId = ℕ

unfoldable pub to_bytes : Revision → List ℕ
to_bytes r = to_le_bytes 16 r

unfoldable pub from_bytes : List ℕ → Revision
from_bytes bytes = from_le_bytes bytes

-- `Display for Revision`.
unfoldable pub to_string : Revision → Text
to_string r = hex_pad 32 r

-- `FromStr for Revision`: `none` is `ParseRevisionError`.
unfoldable pub from_str : Text → Option Revision
from_str text =
    if not (len text == 32) || not (all is_ascii_hexdigit (as_bytes text))
    then none
    else from_str_radix_16 (2 ^ 128) (as_bytes text)

pub record PrefixRevision : Type 0 where
  pub store : StoreId
  pub prefix : Text
  pub hash : ℕ
  pub files : List (Text × Revision)

-- `PrefixRevision::is_for`.
unfoldable pub is_for : PrefixRevision → StoreId → Text → Bool
is_for r store prefix = r.store == store && text_eq r.prefix prefix

-- What `hash` is taken over.
unfoldable pub hashed_bytes : List (Text × Revision) → List ℕ
hashed_bytes [] = []
hashed_bytes ((path, revision) ∷ files) =
    as_bytes path ++ (0 ∷ (to_le_bytes 16 revision ++ hashed_bytes files))

-- `collect` into a map.
unfoldable pub by_path : BTreeMap Revision → List (Text × Revision) → BTreeMap Revision
by_path m [] = m
by_path m ((path, revision) ∷ files) = by_path (insert path revision m) files

-- `collect` into a set of the Paths that differ.
unfoldable pub differing :
    BTreeMap Revision
    → BTreeMap Revision
    → List (Text × Revision)
    → BTreeMap (Unit {0})
    → BTreeMap (Unit {0})
differing before after [] paths = paths
differing before after ((path, _) ∷ files) paths =
    differing before after files
      (if same_revision (get path before) (get path after) then paths else insert path tt paths)

module _ (c : Crates) where
  -- `Revision::of_bytes` and `Revision::of`.
  unfoldable pub of_bytes : List ℕ → Revision
  of_bytes bytes = c.xxh3_128 bytes

  unfoldable pub of : Text → Revision
  of contents = of_bytes (as_bytes contents)

  -- The hasher's digest is `xxh3_128` of all it was updated with.
  unfoldable pub hash : List (Text × Revision) → ℕ
  hash files = c.xxh3_128 (hashed_bytes files)

  -- `PrefixRevision::of`.
  unfoldable pub prefix_revision_of : StoreId → Text → List (Text × Revision) → PrefixRevision
  prefix_revision_of store prefix files = record {
    store = store;
    prefix = prefix;
    hash = hash files;
    files = files;
  }

  -- `PrefixRevision::differences`, as a set. The keys of the map of the Files before and of that
  -- of the Files now are gone through one after the other.
  unfoldable pub differences : PrefixRevision → List (Text × Revision) → BTreeMap (Unit {0})
  unfolding by_path differing
  differences r now =
      let before = by_path [] r.files in
      let after = by_path [] now in
      if hash now == r.hash
      then []
      else differing before after after (differing before after before [])
