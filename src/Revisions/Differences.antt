-- ===== src/Revisions/Differences.antt =====
-- What a Prefix Revision finds different (src/revision.rs).
use tidings.Base.Tests.{
  ◌≡◌, refl, ◌∙◌, true, false, not, ◌&&◌, ◌||◌, Option, none, some, is_some, Bool-cases, inl, inr,
  [], ◌∷◌, ◌++◌, append_assoc, append-nil, ◌==◌, arith,
}
use tidings.Base.Text.{Text, text_eq_iff}
use tidings.Base.BTreeMap.{BTreeMap, get, get-insert}
use tidings.Base.BTreeMap.Sorted.{IsSorted, insert-last}
use tidings.Crates.{Crates}
use tidings.Files.{Revision, same_revision}
use tidings.Revisions.{
  StoreId, PrefixRevision, by_path, differing, hash, hashed_bytes, prefix_revision_of, differences,
}
use tidings.Revisions.Hashed.{Fits, hashed_bytes-same}

by_path-append :
    (m files : BTreeMap Revision) → IsSorted (m ++ files) → by_path m files ≡ m ++ files
unfolding by_path
by_path-append m [] s = rw append-nil refl
by_path-append m ((path, r) ∷ files) s =
    rw (insert-last path r m files s)
      (by_path-append (m ++ ((path, r) ∷ [])) files (rw append_assoc s) ∙ rw append_assoc refl)

get-differing :
    (q : Text) (before after files : BTreeMap Revision) (paths : BTreeMap (Unit {0}))
    → is_some (get q (differing before after files paths)) ≡ (
        is_some (get q paths)
        || (is_some (get q files) && not (same_revision (get q before) (get q after))))
unfolding differing get
get-differing q before after [] paths = ground arith
get-differing q before after ((path, r) ∷ files) paths =
    get-differing q before after files _
    ∙ ground (arith, get-insert path q tt paths, text_eq_iff q path)

same_revision_refl : (r : Option Revision) → same_revision r r ≡ true
same_revision_refl none = refl
same_revision_refl (some r) = ground arith

-- Whether either one's Path differs.
either :
    (a b : Option Revision)
    → ((false || (is_some a && not (same_revision a b))) || (is_some b && not (same_revision a b)))
      ≡ not (same_revision a b)
either none none = refl
either none (some b) = refl
either (some a) none = refl
either (some a) (some b) = ground arith

module _ (c : Crates) where
  differences-same :
      (r : PrefixRevision) (now : BTreeMap Revision)
      → (hash c now == r.hash) ≡ true
      → differences c r now ≡ []
  unfolding differences
  differences-same r now e = rw e refl

  differences-other :
      (r : PrefixRevision) (now : BTreeMap Revision)
      → IsSorted r.files
      → IsSorted now
      → (hash c now == r.hash) ≡ false
      → differences c r now ≡ differing r.files now now (differing r.files now r.files [])
  unfolding differences
  differences-other r now s t e = rw (e, by_path-append [] r.files s, by_path-append [] now t) refl

  -- Equal hashes are of equal Files, where the two byte strings don't collide.
  same_hash :
      (before now : BTreeMap Revision)
      → Fits before
      → Fits now
      → (c.xxh3_128 (hashed_bytes now) ≡ c.xxh3_128 (hashed_bytes before)
          → hashed_bytes now ≡ hashed_bytes before)
      → (hash c now == hash c before) ≡ true
      → now ≡ before
  unfolding hash
  same_hash before now f g no_collision e =
      hashed_bytes-same now before g f (no_collision (ground (arith, e)))

  -- For Files before and now, each in order of Path, their Paths without a NUL and their Revisions of
  -- 128 bits, where xxh3 doesn't give two different byte strings that it is taken over one hash: the
  -- Prefix Revision taken before finds a Path different now exactly when its Revision is not the one
  -- of before, or it was added or removed.
  pub differences_lem :
      (store : StoreId) (prefix : Text) (before now : BTreeMap Revision)
      → IsSorted before
      → IsSorted now
      → Fits before
      → Fits now
      → (c.xxh3_128 (hashed_bytes now) ≡ c.xxh3_128 (hashed_bytes before)
          → hashed_bytes now ≡ hashed_bytes before)
      → (q : Text)
      → is_some (get q (differences c (prefix_revision_of c store prefix before) now))
        ≡ not (same_revision (get q before) (get q now))
  unfolding prefix_revision_of
  differences_lem store prefix before now s t f g no_collision q =
      let r = prefix_revision_of c store prefix before in
      elim (Bool-cases (hash c now == hash c before)) [
        | inl e ↦
            rw
              (
                differences-same r now e,
                same_hash before now f g no_collision e,
                same_revision_refl (get q before),
              )
              (unfold get in refl)
        | inr e ↦
            rw
              (
                differences-other r now s t e,
                get-differing q before now now (differing before now before []),
                get-differing q before now before [],
              )
              (unfold get in either (get q before) (get q now))
      ]
