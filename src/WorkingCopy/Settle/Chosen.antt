-- ===== src/WorkingCopy/Settle/Chosen.antt =====
-- Which Paths `discard` chooses (cli/src/working_copy/settle.rs, `discardable`).
use tidings.Base.Tests.{◌≡◌, ◌∙◌, ◌&&◌, ◌||◌, List, [], ◌∷◌, arith, is_some, Option-cases, inl, inr}
use tidings.Base.Text.{Text, contains, text_eq_iff}
use tidings.Base.BTreeMap.{BTreeMap, get, get-insert}
use tidings.WorkingCopy.Record.{Divergence, Record}
use tidings.WorkingCopy.Reports.{Unfit}
use tidings.WorkingCopy.Folder.{Env}
use tidings.WorkingCopy.Differences.{
  Scan, Difference, changes, path_of_name, unfit_paths, local_change,
}
use tidings.WorkingCopy.Differences.Changes.{change_at}
use tidings.WorkingCopy.Selection.{Selection, covers}
use tidings.WorkingCopy.Settle.{
  DiscardedChange, changed, invalid, diverged, chosen_at, choose_changes, choose_invalid,
  choose_diverged, discardable,
}

module _ (env : Env) (r : Record) (selection : Selection) (q : Text) where
  changes-chosen :
      (diffs : List (Text × Difference)) (chosen : BTreeMap DiscardedChange)
      → is_some (get q (choose_changes env r selection diffs chosen))
        ≡ ((chosen_at env r selection q && is_some (change_at q diffs)) || is_some (get q chosen))
  unfolding choose_changes
  changes-chosen [] chosen = ground arith
  changes-chosen ((path, difference) ∷ diffs) chosen =
      changes-chosen diffs _
      ∙ ground
          (arith, get-insert path q (changed (local_change difference)) chosen, text_eq_iff q path)

  invalid-chosen :
      (unfit : List Unfit) (chosen : BTreeMap DiscardedChange)
      → is_some (get q (choose_invalid env r selection unfit chosen)) ≡ (
          (chosen_at env r selection q && contains q (unfit_paths env unfit))
          || is_some (get q chosen))
  unfolding choose_invalid unfit_paths
  invalid-chosen [] chosen = ground arith
  invalid-chosen (one ∷ unfit) chosen = elim (Option-cases (path_of_name env one.name)) [
    | inl none_there ↦ rw none_there (invalid-chosen unfit _ ∙ ground arith)
    | inr (path, spelled) ↦
        invalid-chosen unfit _
        ∙ ground (arith, get-insert path q invalid chosen, text_eq_iff q path)
  ]

  diverged-chosen :
      (divergences : BTreeMap Divergence) (chosen : BTreeMap DiscardedChange)
      → is_some (get q (choose_diverged env selection divergences chosen))
        ≡ ((covers selection q && is_some (get q divergences)) || is_some (get q chosen))
  unfolding choose_diverged get
  diverged-chosen [] chosen = ground arith
  diverged-chosen ((path, divergence) ∷ divergences) chosen =
      diverged-chosen divergences _
      ∙ ground (arith, get-insert path q diverged chosen, text_eq_iff q path)

  -- `discard` chooses a Path exactly where it is covered and Diverged, or where it is changed or
  -- can't be a File, and is covered and has a Base, or is covered and named itself.
  pub discardable-chosen :
      (found : Scan)
      → is_some (get q (discardable env found r selection)) ≡ (
          (covers selection q && is_some (get q r.divergences))
          || (chosen_at env r selection q
              && (is_some (change_at q (changes env found))
                  || contains q (unfit_paths env found.invalid))))
  unfolding discardable get
  discardable-chosen found =
      let first = choose_changes env r selection (changes env found) [] in
      ground (
        arith,
        diverged-chosen r.divergences (choose_invalid env r selection found.invalid first),
        invalid-chosen found.invalid first,
        changes-chosen (changes env found) [],
      )
