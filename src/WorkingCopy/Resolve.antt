-- ===== src/WorkingCopy/Resolve.antt =====
-- `resolve` of a Working copy (cli/src/working_copy/settle.rs), of what `select` gave, under its lock.
pub mod Settled
use tidings.Base.Tests.{
  Bool, true, false, not, ◌&&◌, ◌||◌, Option, none, some, List, [], ◌∷◌, ◌++◌, is_some,
  if◌then◌else◌,
}
use tidings.Base.Lists.{find}
use tidings.Base.Results.{Result, ok, err, ◌>>=◌, ◌>>◌}
use tidings.Base.Text.{Text, codes, text_eq}
use tidings.Base.BTreeMap.{BTreeMap, get, insert, remove, keys}
use tidings.Error.{Outcome}
use tidings.Files.{Revision, File}
use tidings.Store
use tidings.Store.{Backend, Store}
use tidings.Disk.{Disk}
use tidings.WorkingCopy.Record.{Base, Divergence, Record, set_base, theirs_revision}
use tidings.WorkingCopy.Reports.{Blocked, SyncEvent, Local, LocalChange, LocalName, Unfit}
use tidings.WorkingCopy.Failures.{Failure, failure, of_error, refused_blocked, comma_separated}
use tidings.WorkingCopy.Folder.{Env, blocking_directory, local, apply}
use tidings.WorkingCopy.Theirs.{remove_stale_theirs}
use tidings.WorkingCopy.Reconcile.{base_of_theirs}
use tidings.WorkingCopy.Differences.{Scan, Difference, local_change, changes, path_of_name}
use tidings.WorkingCopy.Scan.{Gitignore, scan}
use tidings.WorkingCopy.Selection.{
  Selection, NamedPath, Target, NamingCommand, covers, names_itself, check_each_names_something,
}
use tidings.WorkingCopy.Attempts.{Working}
use tidings.WorkingCopy.Commit.{Done, save}
use tidings.WorkingCopy.Settle.{swept, Resolved, ResolveReport}

module _ (env : Env) {S V : Type 0} (b : Backend S V) where
  -- The Path that a named file spells, if it is Diverged.
  abbrev pub diverged_named : Record → Target → Option Text
  diverged_named r Target.folder = none
  diverged_named r (Target.under name) = elim (path_of_name env name) [
    | none ↦ none
    | some path ↦ if is_some (get path r.divergences) then some path else none
  ]

  abbrev pub sorted_named :
      NamedPath → Option Text → BTreeMap (Unit {0}) × List Text → BTreeMap (Unit {0}) × List Text
  sorted_named one (some path) (paths, refused) = (insert path tt paths, refused)
  sorted_named one none (paths, refused) = (paths, refused ++ (one.given ∷ []))

  -- The first loop of `resolve`: the Paths, and what isn't Diverged, as given.
  unfoldable pub sort_named :
      Record → List NamedPath → BTreeMap (Unit {0}) × List Text → BTreeMap (Unit {0}) × List Text
  unfolding path_of_name
  sort_named r [] sorted = sorted
  sort_named r (one ∷ more) sorted =
      sort_named r more (sorted_named one (diverged_named r one.target) sorted)

  -- One round of the second loop of `resolve`: the record, and what is reported.
  abbrev pub resolve_one : Text → Option Divergence → Record → Record
  resolve_one path none r = r
  resolve_one path (some divergence) r =
      set_base (record r { divergences = remove path r.divergences }) path divergence.theirs

  abbrev pub with_resolved : Text → Option Divergence → List Resolved → List Resolved
  with_resolved path none resolved = resolved
  with_resolved path (some divergence) resolved =
      record { path = path; revision = theirs_revision divergence } ∷ resolved

  unfoldable pub resolve_each : List Text → Record → Record × List Resolved
  resolve_each [] r = (r, [])
  resolve_each (path ∷ paths) r =
      let rest = resolve_each paths (resolve_one path (get path r.divergences) r) in
      (rest.0, with_resolved path (get path r.divergences) rest.1)

  abbrev pub resolve_saved : List Resolved → Done env b (Unit {0}) → Done env b ResolveReport
  resolve_saved resolved (w, err f) = (w, err f)
  resolve_saved resolved (w, ok _) =
      let (v, events) = swept env b w (remove_stale_theirs env w.record_now w.disk) in
      (v, ok (record { resolved = resolved; events = events }))

  abbrev pub resolve_sorted : Working S → BTreeMap (Unit {0}) × List Text → Done env b ResolveReport
  resolve_sorted w (paths, []) =
      let (r, resolved) = resolve_each (keys paths) w.record_now in
      resolve_saved resolved (save env b (record w { record_now = r }))
  resolve_sorted w (paths, given ∷ more) = (
    w,
    err (
        failure (
          codes "can't resolve what isn't Diverged: "
          ++ (comma_separated (given ∷ more)
              ++ codes ": `tidings status` lists each Diverged Path"))),
  )

  -- `WorkingCopy::resolve`.
  unfoldable pub resolve : Selection → Working S → Done env b ResolveReport
  unfolding sort_named resolve_each remove_stale_theirs
  resolve Selection.all w = (w, err (failure (codes "name each Diverged Path to resolve")))
  resolve (Selection.named named) w = resolve_sorted w (sort_named w.record_now named ([], []))
