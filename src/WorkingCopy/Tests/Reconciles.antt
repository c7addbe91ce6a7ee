-- ===== src/WorkingCopy/Tests/Reconciles.antt =====
-- A change of the Store's that meets a local one, and a new File (cli/src/working_copy.rs).
use tidings.WorkingCopy.Reconcile.Paths.Spares.{reconcile-spares}
use tidings.WorkingCopy.Reconcile.Paths.Rounds.{StandsWith}
use tidings.WorkingCopy.Reconcile.Paths.Stands.{reconcile-StandsWith}
use tidings.Crates.Ascii.{ascii}
use tidings.WorkingCopy.Reconcile.Safety.{as_based}
use tidings.Base.Tests.{◌≡◌, refl, some, none, false, Option, [], ◌∷◌, arith, if◌then◌else◌}
use tidings.Base.Results.{ok}
use tidings.Base.Text.{text_eq_iff, starts_with, cmp, Text, codes, text_eq}
use tidings.Base.BTreeMap.{insert, keys, get}
use tidings.Error.{Outcome}
use tidings.Files.{File}
use tidings.Disk.{Disk, file, dir}
use tidings.Disk.Leaves.{held}
use tidings.WorkingCopy.Record.{base_of_file, base_holds, set_base, Record, base_of}
use tidings.WorkingCopy.Reports.{SyncEvent}
use tidings.WorkingCopy.Reconcile.{reconcile_path}
use tidings.WorkingCopy.Reconcile.Settles.{IsSettled, reconcile_path-IsSettled}
use tidings.WorkingCopy.Reconcile.Again.{reconcile_path-again}
use tidings.WorkingCopy.Reconcile.Paths.{covered, Progress, only, reconcile}
use tidings.WorkingCopy.Reconcile.Paths.Counts.{ReadsAtPath}
use tidings.WorkingCopy.Reconcile.Paths.Keeps.{reconcile-keeps}
use tidings.WorkingCopy.Tests.{env, willing-IsHonest, disk, copy, theirs, new_file}

abbrev read : Text → Outcome (Option File)
read path = ok (if text_eq path (codes "b") then some theirs else none)

read-at : ReadsAtPath read
read-at = record { at_path = λ path f h. ground (arith, h, text_eq_iff path (codes "b")) }

b_changed : as_based env (held (codes "b") disk) (get (codes "b") copy.bases) ≡ false
unfolding get cmp base_holds held text_eq tidings.WorkingCopy.Record.hash_of
    tidings.Base.Text.as_bytes
b_changed = refl

reconcile-keeps_example :
    held
      (codes "b")
      (reconcile env read (ok (codes "b" ∷ [])) (only ((codes "b", tt) ∷ [])) copy [] disk).0
    ≡ held (codes "b") disk
unfolding starts_with
reconcile-keeps_example =
    reconcile-keeps env (codes "b") refl willing-IsHonest read (ok (codes "b" ∷ []))
      (only ((codes "b", tt) ∷ [])) copy [] disk read-at (tt, tt) b_changed

abbrev with_c : Disk
with_c = insert (codes "c") (file (codes "y")) disk

abbrev recorded_c : Record
recorded_c = set_base copy (codes "c") (some (base_of_file ascii new_file))

c_created :
    reconcile_path env copy (codes "c") (some new_file) disk
    ≡ (with_c, ok (recorded_c, some (SyncEvent.created (codes "c"))))
unfolding reconcile_path get text_eq tidings.Disk.symlink_metadata tidings.Disk.create_dir_all
    tidings.Disk.create_dir insert cmp tidings.Disk.touch tidings.Disk.rename
    tidings.Base.BTreeMap.remove tidings.WorkingCopy.Record.base_of_file
    tidings.WorkingCopy.Record.base_of tidings.WorkingCopy.Record.hash_of tidings.Base.Text.as_bytes
    tidings.WorkingCopy.Record.set_base
c_created = refl

reconcile_path-IsSettled_example :
    IsSettled env copy (codes "c") (some new_file) disk with_c recorded_c
reconcile_path-IsSettled_example =
    reconcile_path-IsSettled env copy (codes "c") (some new_file) disk with_c recorded_c
      (some (SyncEvent.created (codes "c"))) willing-IsHonest c_created

reconcile_path-again_example :
    reconcile_path env recorded_c (codes "c") (some new_file) with_c
    ≡ (with_c, ok (recorded_c, none))
reconcile_path-again_example =
    reconcile_path-again env copy (codes "c") (some new_file) disk with_c recorded_c
      (some (SyncEvent.created (codes "c"))) willing-IsHonest c_created

-- The Store holds nothing, so `b`, which is changed in the folder, is Diverged.
abbrev nothing_there : Text → Outcome (Option File)
nothing_there path = ok none

nothing-at : ReadsAtPath nothing_there
nothing-at = record { at_path = λ path f h. cc }

abbrev b_diverged : Progress
b_diverged = record {
  record_now = record copy { divergences = (codes "b", record { theirs = none }) ∷ [] };
  theirs_failures = [];
  events =
      SyncEvent.diverged (record { path = codes "b"; theirs_file = none; blocked = none }) ∷ [];
}

b_reconciled :
    reconcile env nothing_there (ok []) (only ((codes "b", tt) ∷ [])) copy [] disk
    ≡ (disk, ok b_diverged)
unfolding reconcile keys get text_eq tidings.Disk.symlink_metadata tidings.Disk.read_to_string
    base_holds tidings.WorkingCopy.Record.hash_of tidings.Base.Text.as_bytes insert
    tidings.WorkingCopy.Folder.theirs_file tidings.Base.BTreeMap.remove
b_reconciled = refl

b_covered : covered env (only ((codes "b", tt) ∷ [])) (ok []) copy [] ≡ ok (codes "b" ∷ [])
unfolding tidings.WorkingCopy.Reconcile.Paths.extend keys
b_covered = refl

reconcile-StandsWith_example : StandsWith env (codes "b") none b_diverged.record_now
unfolding text_eq
reconcile-StandsWith_example =
    reconcile-StandsWith env (codes "b") none willing-IsHonest nothing_there (ok [])
      (only ((codes "b", tt) ∷ [])) copy [] disk (codes "b" ∷ []) disk b_diverged nothing-at refl
      b_covered refl b_reconciled

-- `b` is reconciled, and its File is gone from the Store; `a` is not.
reconcile-spares_example :
    held
      (codes "a")
      (reconcile env nothing_there (ok []) (only ((codes "b", tt) ∷ [])) copy [] disk).0
    ≡ held (codes "a") disk
unfolding starts_with text_eq
reconcile-spares_example =
    reconcile-spares env (codes "a") refl nothing_there (ok []) (only ((codes "b", tt) ∷ [])) copy
      [] disk (codes "b" ∷ []) nothing-at b_covered refl
