-- ===== src/WorkingCopy/Reconcile/Paths/Spares.antt =====
-- What a reconcile does to the names that it does not cover (cli/src/working_copy.rs).
use tidings.WorkingCopy.Reconcile.Paths.Counts.{
  count_items-append, sort_paths-count, count, ReadsAtPath,
}
use tidings.Base.Tests.{◌≡◌, refl, false, Option, List, [], ◌∷◌, ◌++◌, arith}
use tidings.Base.Results.{ok, err}
use tidings.Base.Text.{contains, Text}
use tidings.Error.{Outcome}
use tidings.Files.{File}
use tidings.Disk.{Disk}
use tidings.Disk.Leaves.{and_then-held, held}
use tidings.WorkingCopy.Record.{Record}
use tidings.WorkingCopy.Folder.{Env}
use tidings.WorkingCopy.Theirs.Outside.{in_record}
use tidings.WorkingCopy.Reconcile.Paths.{
  reconcile_sorted, TheirsFailures, Covered, Item, Progress, sort_paths, reconcile_paths,
  swept_after, covered, is_all, reconcile,
}
use tidings.WorkingCopy.Reconcile.Paths.Keeps.{each-Leaves, swept-Leaves}

count-absent : (n : Text) (paths : List Text) → contains n paths ≡ false → count n paths ≡ 0
count-absent n [] h = refl
count-absent n (path ∷ paths) h = ground (arith, count-absent n paths)

module _ (env : Env) (n : Text) (outside : in_record n ≡ false) where
  reconcile_paths-spares :
      (read : Text → Outcome (Option File)) (r : Record) (paths : List Text)
      (failures : TheirsFailures) (d : Disk)
      → ReadsAtPath read
      → count n paths ≡ 0
      → held n (reconcile_paths env read r paths failures d).0 ≡ held n d
  unfolding reconcile_paths
  reconcile_paths-spares read r paths failures d names absent_there =
      sorts (sort_paths read r failures paths) refl
    where
      start : Progress
      start = record { record_now = r; theirs_failures = failures; events = [] }

      sorts :
          (sorted : Outcome (List Item × List Item))
          → sort_paths read r failures paths ≡ sorted
          → held n (reconcile_sorted env start sorted d).0 ≡ held n d
      sorts (err e) eq = refl
      sorts (ok sorted) eq =
          let few = sort_paths-count n read r failures paths sorted names eq in
          let sum = count_items-append n sorted.0 sorted.1 in
          (each-Leaves env n outside (sorted.0 ++ sorted.1) start
              (omega (arith, few, sum, absent_there))).same
            d

  -- Where the Store reads a File at its own Path, a reconcile leaves what stands at each name
  -- outside `.tidings/` that is none of the Paths it covers, whatever the record says of the name,
  -- whatever the Store holds and whatever fails.
  pub reconcile-spares :
      (read : Text → Outcome (Option File)) (listed : Outcome (List Text)) (paths : Covered)
      (r : Record) (failures : TheirsFailures) (d : Disk) (due : List Text)
      → ReadsAtPath read
      → covered env paths listed r failures ≡ ok due
      → contains n due ≡ false
      → held n (reconcile env read listed paths r failures d).0 ≡ held n d
  unfolding reconcile
  reconcile-spares read listed paths r failures d due names covers absent_there = rw covers (
      and_then-held n (reconcile_paths env read r due failures d)
        (swept_after env (is_all env paths)) (held n d)
        (reconcile_paths-spares read r due failures d names (count-absent n due absent_there))
        (swept-Leaves env n outside (is_all env paths)))
