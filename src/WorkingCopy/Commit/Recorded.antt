-- ===== src/WorkingCopy/Commit/Recorded.antt =====
-- The record after a Commit of local changes (cli/src/working_copy.rs).
use tidings.Base.Tests.{
  ◌≡◌, refl, ◌∙◌, Bool, true, false, Option, none, some, List, [], ◌∷◌, map, arith, is_some,
  if◌then◌else◌,
}
use tidings.Base.Text.{Text, contains, text_eq_iff}
use tidings.Base.BTreeMap.{BTreeMap, get}
use tidings.Base.BTreeMap.Sorted.{IsSorted, insert-IsSorted, remove-IsSorted}
use tidings.Files.{Revision}
use tidings.WorkingCopy.Record.{Base, Record, set_base, base_of, base_holds, hash_of}
use tidings.WorkingCopy.Folder.{Env}
use tidings.WorkingCopy.Reconcile.Updates.{get-set_base}
use tidings.WorkingCopy.Differences.{Scan, changes}
use tidings.WorkingCopy.Differences.Changes.{change_at, difference_of, changes-at}
use tidings.WorkingCopy.Attempts.{Change}
use tidings.WorkingCopy.Commit.{new_base, rebase_each}

set_base-IsSorted :
    (r : Record) (path : Text) (base : Option Base)
    → IsSorted r.bases
    → IsSorted (set_base r path base).bases
unfolding set_base
set_base-IsSorted r path none s = remove-IsSorted path r.bases s
set_base-IsSorted r path (some base) s = insert-IsSorted path base r.bases s

-- The Paths of some changes.
abbrev pub paths_of : List Change → List Text
paths_of changes = map (λ (change : Change). change.0) changes

module _ (env : Env) (revisions : BTreeMap Revision) (files : BTreeMap Text) where
  open env use {crates}

  rebase_each-IsSorted :
      (changes : List Change) (r : Record)
      → IsSorted r.bases
      → IsSorted (rebase_each env revisions files changes r).bases
  unfolding rebase_each
  rebase_each-IsSorted [] r s = s
  rebase_each-IsSorted ((path, change) ∷ more) r s =
      let base = new_base env revisions files path in
      rebase_each-IsSorted more (set_base r path base) (set_base-IsSorted r path base s)

  -- Each committed Path gets its new Base, or none where it was deleted, and no other Base changes.
  pub get-rebase_each :
      (q : Text) (changes : List Change) (r : Record)
      → get q (rebase_each env revisions files changes r).bases
        ≡ (if contains q (paths_of changes) then new_base env revisions files q else get q r.bases)
  unfolding rebase_each
  get-rebase_each q [] r = refl
  get-rebase_each q ((path, change) ∷ more) r =
      let base = new_base env revisions files path in
      get-rebase_each q more (set_base r path base)
      ∙ ground (arith, get-set_base r path q base, text_eq_iff q path)

  holds-base_of :
      (revision : Revision) (contents : Text)
      → base_holds crates (base_of crates revision contents) contents ≡ true
  unfolding base_holds base_of hash_of
  holds-base_of revision contents = ground arith

  same_as_new :
      (file : Option Text) (revision : Option Revision) (q : Text) (unfit : Bool)
      → get q files ≡ file
      → get q revisions ≡ revision
      → (is_some file ≡ true → is_some revision ≡ true)
      → difference_of env file (new_base env revisions files q) unfit ≡ none
  same_as_new none none q unfit f e given = ground arith
  same_as_new none (some revision) q unfit f e given = ground arith
  same_as_new (some contents) none q unfit f e given = absurd (no (given refl))
    where
      no : ◌≡◌ {A = Bool} false true → ⊥
      no h = cc
  same_as_new (some contents) (some revision) q unfit f e given =
      ground (arith, holds-base_of revision contents)

  -- Once a Commit is recorded, a committed Path is not changed against the new Bases in a scan
  -- that finds the files as they were committed, where the Commit gave a Revision to the Path's
  -- file, if it has one.
  pub recorded-unchanged :
      (found : Scan) (committed : List Change) (r : Record) (q : Text)
      → IsSorted files
      → IsSorted r.bases
      → found.files ≡ files
      → found.bases ≡ (rebase_each env revisions files committed r).bases
      → contains q (paths_of committed) ≡ true
      → (is_some (get q files) ≡ true → is_some (get q revisions) ≡ true)
      → change_at q (changes env found) ≡ none
  recorded-unchanged found committed r q files_sorted bases_sorted f b there given =
      let sorted = rebase_each-IsSorted committed r bases_sorted in
      changes-at env q found (rw f files_sorted) (rw b sorted)
      ∙ rw (f, b, get-rebase_each q committed r, there)
          (same_as_new (get q files) (get q revisions) q _ refl refl given)
