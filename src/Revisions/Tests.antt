-- ===== src/Revisions/Tests.antt =====
-- The theorems on Revisions at a concrete one (src/revision.rs).
use tidings.Base.Tests.{◌≡◌, refl, not, is_some, some, [], ◌∷◌, arith}
use tidings.Base.Text.{codes, cmp, as_bytes}
use tidings.Base.Digits.{to_le_bytes}
use tidings.Base.BTreeMap.{BTreeMap, get}
use tidings.Base.BTreeMap.Sorted.{IsSorted}
use tidings.Crates.Ascii.{ascii}
use tidings.Files.{Revision, same_revision}
use tidings.Revisions.Hashed.{Fits}
use tidings.Revisions.{prefix_revision_of, hashed_bytes, differences, to_string, from_str}
use tidings.Revisions.Digits.{from_str-to_string}
use tidings.Revisions.Differences.{differences_lem}

from_str-to_string_example : from_str (to_string 48879) ≡ some 48879
from_str-to_string_example = from_str-to_string 48879 (omega arith)

abbrev before : BTreeMap Revision
before = (codes "a", 5) ∷ []

abbrev now : BTreeMap Revision
now = (codes "a", 6) ∷ (codes "b", 1) ∷ []

now-IsSorted : IsSorted now
unfolding cmp
now-IsSorted = ((refl, tt), (tt, tt))

before-Fits : Fits before
before-Fits = (refl, omega arith, tt)

now-Fits : Fits now
now-Fits = (refl, omega arith, (refl, omega arith, tt))

no_collision :
    ascii.xxh3_128 (hashed_bytes now) ≡ ascii.xxh3_128 (hashed_bytes before)
    → hashed_bytes now ≡ hashed_bytes before
unfolding hashed_bytes as_bytes to_le_bytes
no_collision e = absurd (omega (arith, e))

differences_lem_example :
    is_some (get (codes "a") (differences ascii (prefix_revision_of ascii 1 [] before) now))
    ≡ not (same_revision (get (codes "a") before) (get (codes "a") now))
differences_lem_example =
    differences_lem ascii 1 [] before now (tt, tt) now-IsSorted before-Fits now-Fits no_collision
      (codes "a")
