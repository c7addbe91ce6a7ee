-- ===== src/WorkingCopy/Reconcile/Paths.antt =====
-- Reconciling many Paths, with their `theirs` files (cli/src/working_copy.rs). `read` asks the
-- Store, once for each Path, so it may be any Store that others commit to meanwhile. A call that
-- fails gives no record, since the one that was saved stays.
pub mod Counts
pub mod Keeps
pub mod Spares
pub mod Rounds
pub mod Taken
pub mod Stands
use tidings.Base.Tests.{
  Bool, true, false, not, ◌&&◌, ◌||◌, Option, none, some, List, [], ◌∷◌, ◌++◌, is_some,
  if◌then◌else◌,
}
use tidings.Base.Results.{Result, ok, err}
use tidings.Base.Text.{Text, codes}
use tidings.Base.BTreeMap.{BTreeMap, get, insert, remove, keys}
use tidings.Error.{Error, Outcome}
use tidings.Files.{File, same_revision}
use tidings.Disk.{Disk, Io, and_then, ◌>>=◌, pure, fail}
use tidings.WorkingCopy.Record.{Base, Divergence, Record}
use tidings.WorkingCopy.Reports.{Blocked, reason, DivergedPath, SyncEvent, path_of}
use tidings.WorkingCopy.Failures.{Failure, of_error}
use tidings.WorkingCopy.Folder.{Env}
use tidings.WorkingCopy.Theirs.{settle_theirs, remove_stale_theirs}
use tidings.WorkingCopy.Reconcile.{
  revision_of, base_revision, recorded_theirs, same_theirs, reconcile_path,
}

-- The Paths whose `theirs` file couldn't be written or removed.
abbrev pub TheirsFailures : Type 0
TheirsFailures = BTreeMap (Unit {0})

-- `Paths`: which Paths a reconcile covers.
pub data Covered : Type 0 where
  all : Covered
  only : BTreeMap (Unit {0}) → Covered

-- A Path to reconcile, and what the Store holds there.
abbrev pub Item : Type 0
Item = Text × Option File

-- `extend`, of a set.
unfoldable pub extend : BTreeMap (Unit {0}) → List Text → BTreeMap (Unit {0})
extend paths [] = paths
extend paths (path ∷ more) = extend (insert path tt paths) more

-- What a loop over the Paths has come to.
pub record Progress : Type 0 where
  pub record_now : Record
  pub theirs_failures : TheirsFailures
  pub events : List SyncEvent

abbrev pub contents_of : Option File → Option Text
contents_of none = none
contents_of (some theirs) = some theirs.contents

-- Whether the first loop of `reconcile_paths` takes a Path.
unfoldable pub is_due : Record → TheirsFailures → Text → Option File → Bool
is_due r failures path theirs =
    not (same_revision (revision_of theirs) (base_revision (get path r.bases)))
    || (is_some (get path r.divergences) || is_some (get path failures))

abbrev pub sorted_in : Bool → Text → Option File → List Item × List Item → List Item × List Item
sorted_in false path theirs (removed, written) = (removed, written)
sorted_in true path none (removed, written) = ((path, none) ∷ removed, written)
sorted_in true path (some theirs) (removed, written) =
    (removed, (theirs.path, some theirs) ∷ written)

-- The first loop: what to remove and what to write, in order of Path.
unfoldable pub sort_paths :
    (Text → Outcome (Option File))
    → Record
    → TheirsFailures
    → List Text
    → Outcome (List Item × List Item)
unfolding is_due
sort_paths read r failures [] = ok ([], [])
sort_paths read r failures (path ∷ paths) =
    let rest = sort_paths read r failures paths in
    elim (read path) [
      | err e ↦ err e
      | ok theirs ↦ elim rest [
        | err e ↦ err e
        | ok sorted ↦ ok (sorted_in (is_due r failures path theirs) path theirs sorted)
      ]
    ]

-- The events of an `Option<SyncEvent>`.
abbrev pub listed : Option SyncEvent → List SyncEvent
listed none = []
listed (some event) = event ∷ []

-- What blocks a Diverged Path, before the message of the error.
abbrev pub blocked_prefix : Option SyncEvent → Text
blocked_prefix (some (SyncEvent.diverged diverged)) = elim diverged.blocked [
  | some blocked ↦ reason blocked ++ codes "; "
  | none ↦ []
]
blocked_prefix _ = []

-- The message of a failed `theirs` file, and the events reported before it.
abbrev pub failed_events : Option Text → Option SyncEvent → Text → List SyncEvent × Text
failed_events (some _) event message =
    ([], blocked_prefix event ++ (codes "Diverged, but " ++ message))
failed_events none event message = (listed event, message)

-- `theirs`: what the `theirs` file of a Path that is Diverged is to hold.
abbrev pub theirs_to_hold : Record → Text → Option File → Option Text
theirs_to_hold r path theirs = if is_some (get path r.divergences) then contents_of theirs else none

module _ (env : Env) where
  open env use {debug}

  -- The match on what settling the `theirs` file gave.
  abbrev pub noted :
      Progress
      → Text
      → Record
      → Option SyncEvent
      → Option Text
      → Bool
      → Bool
      → Disk × Result Failure (Unit {0})
      → Disk × Result Failure Progress
  noted p path r event theirs changed retrying (d, ok _) = (
    d,
    ok (record {
      record_now = r;
      theirs_failures = remove path p.theirs_failures;
      events = p.events ++ listed event;
    }),
  )
  noted p path r event theirs changed retrying (d, err f) =
      let said = failed_events theirs event f.message in
      (
        d,
        ok (record {
          record_now = r;
          theirs_failures = insert path tt (remove path p.theirs_failures);
          events =
              p.events
              ++ (said.0
                  ++ (if changed || not retrying then SyncEvent.error path said.1 ∷ [] else []));
        }),
      )

  -- Whether the Path's Divergence changed.
  abbrev pub is_changed : Progress → Text → Record → Bool
  is_changed p path r = not (
      same_theirs (recorded_theirs (get path r.divergences))
        (recorded_theirs (get path p.record_now.divergences)))

  abbrev pub is_retrying : Progress → Text → Bool
  is_retrying p path = is_some (get path p.theirs_failures)

  -- `settled`.
  unfoldable pub settle_needed : Text → Option Text → Bool → Io Failure (Unit {0})
  unfolding settle_theirs
  settle_needed path held force d =
      if is_some held || force then settle_theirs env path held force d else (d, ok tt)

  -- The rest of one round of the second loop, after `reconcile_path`.
  unfoldable pub settle_path :
      Progress → Text → Option File → Record × Option SyncEvent → Io Failure Progress
  unfolding settle_needed
  settle_path p path theirs (r, event) d =
      noted p path r event (theirs_to_hold r path theirs) (is_changed p path r) (is_retrying p path)
        (settle_needed path (theirs_to_hold r path theirs)
          (is_changed p path r || is_retrying p path) d)

  -- The second loop of `reconcile_paths`.
  unfoldable pub reconcile_each : List Item → Progress → Io Failure Progress
  unfolding settle_path reconcile_path
  reconcile_each [] p d = (d, ok p)
  reconcile_each ((path, theirs) ∷ items) p d =
      and_then
        (and_then (reconcile_path env p.record_now path theirs d) (settle_path p path theirs))
        (λ q. reconcile_each items q)

  abbrev pub reconcile_sorted : Progress → Outcome (List Item × List Item) → Io Failure Progress
  reconcile_sorted start (err e) = fail (of_error debug e)
  reconcile_sorted start (ok (removed, written)) = reconcile_each (removed ++ written) start

  -- `WorkingCopy::reconcile_paths`.
  unfoldable pub reconcile_paths :
      (Text → Outcome (Option File)) → Record → List Text → TheirsFailures → Io Failure Progress
  unfolding reconcile_each sort_paths
  reconcile_paths read r paths failures =
      reconcile_sorted (record { record_now = r; theirs_failures = failures; events = [] })
        (sort_paths read r failures paths)

  -- What sweeping `theirs/` reported: an event of a Path is given once while `sync` runs.
  unfoldable pub note_swept : List SyncEvent → Progress → Progress
  note_swept [] p = p
  note_swept (event ∷ events) p =
      let new = record p {
        theirs_failures = elim (path_of event) [
          | none ↦ p.theirs_failures
          | some path ↦ insert path tt p.theirs_failures
        ];
        events = elim (path_of event) [
          | none ↦ p.events
          | some path ↦
              if is_some (get path p.theirs_failures) then p.events else p.events ++ (event ∷ [])
        ];
      } in
      note_swept events new

  abbrev pub swept_after : Bool → Progress → Io Failure Progress
  swept_after false p d = (d, ok p)
  swept_after true p d =
      let (after, events) = remove_stale_theirs env p.record_now d in
      (after, ok (note_swept events p))

  -- The Paths of `reconcile`. A Path that is Diverged is tried every time.
  abbrev pub covered : Covered → Outcome (List Text) → Record → TheirsFailures → Outcome (List Text)
  covered all (err e) r failures = err e
  covered all (ok listed) r failures = ok (
      keys (
        extend (extend (extend (extend [] listed) (keys r.bases)) (keys r.divergences))
          (keys failures)))
  covered (only paths) listed r failures =
      ok (keys (extend (extend paths (keys r.divergences)) (keys failures)))

  abbrev pub is_all : Covered → Bool
  is_all all = true
  is_all (only _) = false

  abbrev pub reconcile_covered :
      (Text → Outcome (Option File))
      → Bool
      → Record
      → TheirsFailures
      → Outcome (List Text)
      → Io Failure Progress
  reconcile_covered read every r failures (err e) = fail (of_error debug e)
  reconcile_covered read every r failures (ok due) =
      reconcile_paths read r due failures >>= swept_after every

  -- `WorkingCopy::reconcile`, under its lock, up to the saving of the record. What a run left in
  -- `.tidings/tmp/` does not show.
  unfoldable pub reconcile :
      (Text → Outcome (Option File))
      → Outcome (List Text)
      → Covered
      → Record
      → TheirsFailures
      → Io Failure Progress
  unfolding reconcile_paths extend remove_stale_theirs note_swept
  reconcile read listed paths r failures =
      reconcile_covered read (is_all paths) r failures (covered paths listed r failures)
