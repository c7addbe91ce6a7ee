-- ===== src/WorkingCopy/Settle.antt =====
-- `discard` of a Working copy (cli/src/working_copy/settle.rs), of what `select` gave, under its
-- lock.
pub mod Chosen
pub mod Discard
use tidings.Base.Tests.{
  Bool, true, false, not, ◌&&◌, ◌||◌, Option, none, some, List, [], ◌∷◌, ◌++◌, is_some,
  if◌then◌else◌,
}
use tidings.Base.Lists.{find}
use tidings.Base.Results.{Result, ok, err, ◌>>=◌, ◌>>◌}
use tidings.Base.Text.{Text, codes, text_eq}
use tidings.Base.BTreeMap.{BTreeMap, get, insert, remove, keys}
use tidings.Error.{Outcome}
use tidings.Files.{Revision, File}
use tidings.Store
use tidings.Store.{Backend, Store}
use tidings.Disk.{Disk}
use tidings.WorkingCopy.Record.{Base, Divergence, Record, set_base, theirs_revision}
use tidings.WorkingCopy.Reports.{Blocked, SyncEvent, Local, LocalChange, LocalName, Unfit}
use tidings.WorkingCopy.Failures.{Failure, failure, of_error, refused_blocked, comma_separated}
use tidings.WorkingCopy.Folder.{Env, blocking_directory, local, apply}
use tidings.WorkingCopy.Theirs.{remove_stale_theirs}
use tidings.WorkingCopy.Reconcile.{base_of_theirs}
use tidings.WorkingCopy.Differences.{Scan, Difference, local_change, changes, path_of_name}
use tidings.WorkingCopy.Scan.{Gitignore, scan}
use tidings.WorkingCopy.Selection.{
  Selection, NamedPath, Target, NamingCommand, covers, names_itself, check_each_names_something,
}
use tidings.WorkingCopy.Attempts.{Working}
use tidings.WorkingCopy.Commit.{Done, save}

pub data DiscardOutcome : Type 0 where
  took_stores_file : Revision → DiscardOutcome
  removed absent : DiscardOutcome

-- `DiscardOutcome::revision`.
unfoldable pub outcome_revision : DiscardOutcome → Option Revision
outcome_revision (took_stores_file revision) = some revision
outcome_revision removed = none
outcome_revision absent = none

pub data DiscardedChange : Type 0 where
  changed : LocalChange → DiscardedChange
  invalid diverged : DiscardedChange

pub record Discarded : Type 0 where
  pub path : Text
  pub change : DiscardedChange
  pub outcome : DiscardOutcome

pub record DiscardReport : Type 0 where
  pub discarded : List Discarded
  pub events : List SyncEvent

pub record Resolved : Type 0 where
  pub path : Text
  pub revision : Option Revision

pub record ResolveReport : Type 0 where
  pub resolved : List Resolved
  pub events : List SyncEvent

pub record Discarding : Type 0 where
  pub path : Text
  pub change : DiscardedChange
  pub store_file : Option File
  pub local_there : Local

-- `outcome` of the second loop of `discard`.
abbrev pub outcome_of : Option File → Local → DiscardOutcome
outcome_of (some theirs) held = took_stores_file theirs.stat.revision
outcome_of none (Local.file _) = removed
outcome_of none Local.other = removed
outcome_of none Local.absent = absent
outcome_of none Local.directory = absent

abbrev pub is_absent : DiscardOutcome → Bool
is_absent absent = true
is_absent removed = false
is_absent (took_stores_file _) = false

module _ (env : Env) where
  open env use {crates, debug}

  -- The closure `chosen_at` of `discardable`.
  abbrev pub chosen_at : Record → Selection → Text → Bool
  chosen_at r selection path =
      covers selection path && (is_some (get path r.bases) || names_itself selection path)

  -- The three loops of `discardable`.
  unfoldable pub choose_changes :
      Record
      → Selection
      → List (Text × Difference)
      → BTreeMap DiscardedChange
      → BTreeMap DiscardedChange
  choose_changes r selection [] chosen = chosen
  choose_changes r selection ((path, difference) ∷ more) chosen = choose_changes r selection more (
      if chosen_at r selection path
      then insert path (changed (local_change difference)) chosen
      else chosen)

  unfoldable pub choose_invalid :
      Record → Selection → List Unfit → BTreeMap DiscardedChange → BTreeMap DiscardedChange
  unfolding path_of_name
  choose_invalid r selection [] chosen = chosen
  choose_invalid r selection (unfit ∷ more) chosen =
      choose_invalid r selection more (elim (path_of_name env unfit.name) [
        | none ↦ chosen
        | some path ↦ if chosen_at r selection path then insert path invalid chosen else chosen
      ])

  unfoldable pub choose_diverged :
      Selection → BTreeMap Divergence → BTreeMap DiscardedChange → BTreeMap DiscardedChange
  choose_diverged selection [] chosen = chosen
  choose_diverged selection ((path, _) ∷ more) chosen =
      choose_diverged selection more
        (if covers selection path then insert path diverged chosen else chosen)

  -- `discardable`.
  unfoldable pub discardable : Scan → Record → Selection → BTreeMap DiscardedChange
  unfolding choose_changes choose_invalid choose_diverged
  discardable found r selection =
      choose_diverged selection r.divergences (
        choose_invalid r selection found.invalid
          (choose_changes r selection (changes env found) []))

  abbrev refuse_unfit : NamedPath → Option Unfit → Result Failure (Unit {0})
  refuse_unfit path none = ok tt
  refuse_unfit path (some unfit) = err (
      failure (
        path.given
        ++ (codes ": "
            ++ (unfit.reason
                ++ codes
                    ", so it is no File's and discard never touches it: rename or remove it yourself"))))

  abbrev refuse_target : Scan → NamedPath → Target → Result Failure (Unit {0})
  refuse_target found path Target.folder = ok tt
  refuse_target found path (Target.under name) = elim (path_of_name env name) [
    | some _ ↦ ok tt
    | none ↦ refuse_unfit path (find (λ (unfit : Unfit). text_eq unfit.name name) found.invalid)
  ]

  unfoldable pub refuse_each_unfit : Scan → List NamedPath → Result Failure (Unit {0})
  unfolding path_of_name
  refuse_each_unfit found [] = ok tt
  refuse_each_unfit found (path ∷ paths) =
      refuse_target found path path.target >> refuse_each_unfit found paths

  -- `refuse_unfit_names`.
  unfoldable pub refuse_unfit_names : Scan → Selection → Result Failure (Unit {0})
  unfolding refuse_each_unfit
  refuse_unfit_names found Selection.all = ok tt
  refuse_unfit_names found (Selection.named paths) = refuse_each_unfit found paths

  -- What the first loop of `discard` has found: what to do, and what is in the way.
  abbrev pub Sorted : Type 0
  Sorted = List Discarding × List (Text × Blocked)

  abbrev pub sort_one : Discarding → Option Blocked → Sorted → Sorted
  sort_one one on_the_way (doing, blocked) = elim one.store_file [
    | none ↦ (one ∷ doing, blocked)
    | some _ ↦ elim on_the_way [
      | some way ↦ (doing, (one.path, way) ∷ blocked)
      | none ↦ elim one.local_there [
        | Local.directory ↦ (doing, (one.path, Blocked.directory one.path) ∷ blocked)
        | _ ↦ (one ∷ doing, blocked)
      ]
    ]
  ]

  -- What is in the folder at a Path, and what is on the way there.
  abbrev pub found_at :
      Disk → Text → Result Failure (Option Blocked) → Result Failure (Option Blocked × Local)
  found_at d path (err f) = err f
  found_at d path (ok (some way)) = ok (some way, Local.absent)
  found_at d path (ok none) = local env d path >>= λ held. ok (none, held)

  abbrev pub in_failure {ℓ} : {A : Type ℓ} → Outcome A → Result Failure A
  in_failure (ok a) = ok a
  in_failure (err e) = err (of_error debug e)

  -- The first loop of `discard`.
  unfoldable pub sort_chosen :
      (Text → Outcome (Option File)) → Disk → BTreeMap DiscardedChange → Result Failure Sorted
  unfolding blocking_directory local
  sort_chosen read d [] = ok ([], [])
  sort_chosen read d ((path, change) ∷ chosen) = in_failure (read path) >>= λ theirs.
      found_at d path (blocking_directory env [] d path) >>= λ found.
      sort_chosen read d chosen >>= λ rest. ok (
        sort_one
          (record { path = path; change = change; store_file = theirs; local_there = found.1 })
          found.0 rest)

  abbrev pub discarded_of : Discarding → Discarded
  discarded_of one = record {
    path = one.path;
    change = one.change;
    outcome = outcome_of one.store_file one.local_there;
  }

  -- The record once a Path is discarded.
  abbrev pub settled_record : Record → Discarding → Record
  settled_record r one =
      let s = set_base r one.path (base_of_theirs env one.store_file) in
      record s { divergences = remove one.path s.divergences }

  module _ {S V : Type 0} (b : Backend S V) where
    -- Where a Path can't be applied, what was applied so far is saved.
    abbrev pub failed_after : Failure → Done env b (Unit {0}) → Done env b (List Discarded)
    failed_after f (w, err g) = (w, err g)
    failed_after f (w, ok _) = (w, err f)

    abbrev pub discard_applied :
        Working S
        → Discarding
        → (Working S → Done env b (List Discarded))
        → Disk × Result Failure SyncEvent
        → Done env b (List Discarded)
    discard_applied w one next (d, err f) = failed_after f (save env b (record w { disk = d }))
    discard_applied w one next (d, ok _) =
        next (record w { disk = d; record_now = settled_record w.record_now one })

    abbrev pub with_discarded :
        Discarded → Done env b (List Discarded) → Done env b (List Discarded)
    with_discarded one (w, err f) = (w, err f)
    with_discarded one (w, ok more) = (w, ok (one ∷ more))

    -- The second loop of `discard`.
    unfoldable pub discard_each : List Discarding → Working S → Done env b (List Discarded)
    unfolding apply save
    discard_each [] w = (w, ok [])
    discard_each (one ∷ more) w =
        let next = λ (v : Working S). with_discarded (discarded_of one) (discard_each more v) in
        let kept = next (record w { record_now = settled_record w.record_now one }) in
        let applied =
          discard_applied w one next (apply env one.path one.local_there one.store_file w.disk) in
        if is_absent (outcome_of one.store_file one.local_there) then kept else applied

    abbrev pub swept : Working S → Disk × List SyncEvent → Working S × List SyncEvent
    swept w (d, events) = (record w { disk = d }, events)

    abbrev pub discard_saved : List Discarded → Done env b (Unit {0}) → Done env b DiscardReport
    discard_saved discarded (w, err f) = (w, err f)
    discard_saved discarded (w, ok _) =
        let (v, events) = swept w (remove_stale_theirs env w.record_now w.disk) in
        (v, ok (record { discarded = discarded; events = events }))

    abbrev pub discard_done : Done env b (List Discarded) → Done env b DiscardReport
    discard_done (w, err f) = (w, err f)
    discard_done (w, ok discarded) = discard_saved discarded (save env b w)

    abbrev pub discard_sorted : Working S → Result Failure Sorted → Done env b DiscardReport
    discard_sorted w (err f) = (w, err f)
    discard_sorted w (ok (doing, [])) = discard_done (discard_each doing w)
    discard_sorted w (ok (doing, way ∷ ways)) = (w, err (refused_blocked (way ∷ ways)))

    -- What `discard` does once the folder is scanned, up to what it finds in the way.
    abbrev pub discard_checked : Selection → Working S → Scan → Result Failure Sorted
    discard_checked selection w found =
        check_each_names_something selection found w.record_now NamingCommand.discard
        >> refuse_unfit_names found selection
        >> sort_chosen (Store.read crates b w.store) w.disk
            (discardable found w.record_now selection)

    abbrev pub discard_prepared :
        {G : Type 0} → Gitignore G → Selection → Working S → Result Failure Sorted
    discard_prepared gitignore selection w =
        scan env gitignore w.disk w.record_now.bases >>= discard_checked selection w

    -- `WorkingCopy::discard`.
    unfoldable pub discard :
        {G : Type 0} → Gitignore G → Selection → Working S → Done env b DiscardReport
    unfolding discardable refuse_unfit_names sort_chosen discard_each remove_stale_theirs
    discard gitignore selection w = discard_sorted w (discard_prepared gitignore selection w)
