-- ===== src/WorkingCopy/Reconcile/Paths/Counts.antt =====
-- How often each Path is reconciled (cli/src/working_copy.rs).
use tidings.WorkingCopy.Failures.{Failure}
use tidings.Disk.{Disk}
use tidings.WorkingCopy.Reports.{SyncEvent}
use tidings.WorkingCopy.Folder.{Env}
use tidings.Base.Tests.{
  ◌||◌, ℕ, suc, ◌+◌, ◌≤◌, ◌≡◌, refl, ap, ◌∙◌, Bool, true, false, Option, none, some, List, [], ◌∷◌,
  ◌++◌, arith, if◌then◌else◌,
}
use tidings.Base.Results.{Result, ok, err}
use tidings.Base.Text.{Text, text_eq, text_eq_iff}
use tidings.Base.BTreeMap.{BTreeMap, get, insert, keys}
use tidings.Base.BTreeMap.Sorted.{IsSorted, insert-IsSorted, get_of_AllAbove}
use tidings.Error.{Outcome}
use tidings.Files.{File}
use tidings.WorkingCopy.Record.{Record}
use tidings.WorkingCopy.Reconcile.Paths.{
  settle_needed, failed_events, noted, is_retrying, is_changed, theirs_to_hold, settle_path,
  Progress, TheirsFailures, Covered, all, only, Item, extend, is_due, sorted_in, sort_paths,
}

-- How often a Path stands in a list.
abbrev pub count : Text → List Text → ℕ
count n [] = 0
count n (path ∷ paths) = if text_eq n path then suc (count n paths) else count n paths

abbrev pub count_items : Text → List Item → ℕ
count_items n [] = 0
count_items n ((path, _) ∷ items) =
    if text_eq n path then suc (count_items n items) else count_items n items

-- The Store gives the File of the Path that it is asked for.
pub record ReadsAtPath (read : Text → Outcome (Option File)) : Type 0 where
  pub at_path : (path : Text) (f : File) → read path ≡ ok (some f) → f.path ≡ path

-- The Paths of a reconcile of only some are a set.
abbrev pub InOrder : Covered → Type 0
InOrder all = Unit
InOrder (only paths) = IsSorted paths

pub count_items-append :
    (n : Text) (xs ys : List Item) → count_items n (xs ++ ys) ≡ count_items n xs + count_items n ys
count_items-append n [] ys = omega arith
count_items-append n ((path, _) ∷ xs) ys = ground (arith, count_items-append n xs ys)

pub count-keys-absent :
    {V : Type 0} (n : Text) (m : BTreeMap V) → get n m ≡ none → count n (keys m) ≡ 0
unfolding keys get
count-keys-absent n [] h = refl
count-keys-absent n ((j, v) ∷ m) h = ground (arith, count-keys-absent n m)

pub count-keys : {V : Type 0} (n : Text) (m : BTreeMap V) → IsSorted m → count n (keys m) ≤ 1
unfolding keys
count-keys n [] s = omega arith
count-keys n ((j, v) ∷ m) (above, s) =
    ground
      (arith, count-keys n m s, count-keys-absent n m, get_of_AllAbove j m above, text_eq_iff n j)

pub extend-IsSorted :
    (paths : BTreeMap (Unit {0})) (more : List Text) → IsSorted paths → IsSorted (extend paths more)
unfolding extend
extend-IsSorted paths [] s = s
extend-IsSorted paths (path ∷ more) s =
    extend-IsSorted (insert path tt paths) more (insert-IsSorted path tt paths s)

pub sorted_in-count :
    (n : Text) (due : Bool) (path : Text) (theirs : Option File) (sorted : List Item × List Item)
    (most : ℕ)
    → ((f : File) → theirs ≡ some f → f.path ≡ path)
    → count_items n sorted.0 + count_items n sorted.1 ≤ most
    → count_items n (sorted_in due path theirs sorted).0
        + count_items n (sorted_in due path theirs sorted).1
      ≤ (if text_eq n path then suc most else most)
sorted_in-count n false path theirs (removed, written) most named h = ground arith
sorted_in-count n true path none (removed, written) most named h = ground arith
sorted_in-count n true path (some f) (removed, written) most named h = ground (arith, named f refl)

-- The first loop takes a Path no more often than it is given.
pub sort_paths-count :
    (n : Text) (read : Text → Outcome (Option File)) (r : Record) (failures : TheirsFailures)
    (paths : List Text) (sorted : List Item × List Item)
    → ReadsAtPath read
    → sort_paths read r failures paths ≡ ok sorted
    → count_items n sorted.0 + count_items n sorted.1 ≤ count n paths
unfolding sort_paths
sort_paths-count n read r failures [] sorted names h =
    let e : ◌≡◌ {A = List Item × List Item} ([], []) sorted = cc in rw (← e) (omega arith)
sort_paths-count n read r failures (path ∷ paths) sorted names h =
    split (read path) (sort_paths read r failures paths) refl
      (λ s e. sort_paths-count n read r failures paths s names e) h
  where
    split :
        (found : Outcome (Option File)) (rest : Outcome (List Item × List Item))
        → read path ≡ found
        → ((s : List Item × List Item)
            → rest ≡ ok s
            → count_items n s.0 + count_items n s.1 ≤ count n paths)
        → (elim found [
          | err e ↦ err e
          | ok theirs ↦ elim rest [
            | err e ↦ err e
            | ok s ↦ ok (sorted_in (is_due r failures path theirs) path theirs s)
          ]
        ])
          ≡ ok sorted
        → count_items n sorted.0 + count_items n sorted.1 ≤ count n (path ∷ paths)
    split (err e) rest found ih k = cc
    split (ok theirs) (err e) found ih k = cc
    split (ok theirs) (ok s) found ih k =
        let sorts =
          sorted_in-count n (is_due r failures path theirs) path theirs s (count n paths)
            (λ f e. names.at_path path f (found ∙ ap (λ t. ok t) e)) (ih s refl) in
        let same : sorted_in (is_due r failures path theirs) path theirs s ≡ sorted = cc in
        rw (← same) sorts

module _ (env : Env) where
  noted-record :
      (p q : Progress) (path : Text) (r : Record) (event : Option SyncEvent) (theirs : Option Text)
      (changed retrying : Bool) (settled : Disk × Result Failure (Unit {0})) (after : Disk)
      → noted env p path r event theirs changed retrying settled ≡ (after, ok q)
      → q.record_now ≡ r
  noted-record p q path r event theirs changed retrying (d, ok _) after h = ground arith
  noted-record p q path r event theirs changed retrying (d, err f) after h =
      let said = failed_events theirs event f.message in ground arith

  -- Settling the `theirs` file takes the record as it is.
  pub settle_path-record :
      (p q : Progress) (path : Text) (theirs : Option File) (done : Record × Option SyncEvent)
      (d after : Disk)
      → settle_path env p path theirs done d ≡ (after, ok q)
      → q.record_now ≡ done.0
  unfolding settle_path
  settle_path-record p q path theirs (r, event) d after h =
      let held_there = theirs_to_hold r path theirs in
      let changed = is_changed env p path r in
      let retrying = is_retrying env p path in
      noted-record p q path r event held_there changed retrying
        (settle_needed env path held_there (changed || retrying) d) after h
