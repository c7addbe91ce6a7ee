-- ===== src/WorkingCopy/Commit/Staged.antt =====
-- What `stage` of a Working copy stages (cli/src/working_copy.rs).
use tidings.Base.Tests.{
  ◌≡◌, refl, subst, ◌∙◌, List, [], ◌∷◌, ◌++◌, map, append_assoc, append-nil, arith, Bool-cases, inl,
  inr,
}
use tidings.Base.Lists.{filter}
use tidings.Base.Results.{ok, err, ◌>>=◌}
use tidings.Base.Text.{Text}
use tidings.Base.BTreeMap.{BTreeMap, insert}
use tidings.Error.{Outcome}
use tidings.Files.{Precondition, absent, unchanged_since}
use tidings.Paths
use tidings.Paths.{refusal}
use tidings.Staging
use tidings.Staging.{Staging, Action, write, delete, stage, add_precondition}
use tidings.WorkingCopy.Folder.{Env}
use tidings.WorkingCopy.Differences.{Scan, Difference, local_change, changes}
use tidings.WorkingCopy.Selection.{Selection, covers}
use tidings.WorkingCopy.Attempts.{Change}
use tidings.WorkingCopy.Commit.{in_failure, stage_difference, stage_each}
use tidings.WorkingCopy.Commit

-- What a difference requires of the Store: that it holds what the Base says.
abbrev pub required : Difference → Precondition
required (Difference.added contents) = absent
required (Difference.modified contents base) = unchanged_since base.revision
required (Difference.deleted base) = unchanged_since base.revision

abbrev pub action_of : Difference → Action
action_of (Difference.added contents) = write contents
action_of (Difference.modified contents base) = write contents
action_of (Difference.deleted base) = delete

abbrev pub requirement : Text × Difference → Text × Precondition
requirement (path, difference) = (path, required difference)

abbrev pub change_of : Text × Difference → Change
change_of (path, difference) = (path, local_change difference)

abbrev pub acted : BTreeMap Action → List (Text × Difference) → BTreeMap Action
acted actions [] = actions
acted actions ((path, difference) ∷ more) = acted (insert path (action_of difference) actions) more

-- The changes that a selection covers.
abbrev pub selected : Selection → List (Text × Difference) → List (Text × Difference)
selected selection = filter (λ (change : Text × Difference). covers selection change.0)

-- The Staging `t` stages these changes after what `s` does.
pub record Stages (s t : Staging) (these : List (Text × Difference)) : Type 0 where
  pub preconditions_lem : t.preconditions ≡ s.preconditions ++ map requirement these
  pub actions_lem : t.actions ≡ acted s.actions these
  pub prefix_preconditions_lem : t.prefix_preconditions ≡ s.prefix_preconditions
  pub prefix_deletes_lem : t.prefix_deletes ≡ s.prefix_deletes

module _ (env : Env) where
  open env use {crates, debug}

  one-staged :
      (s t : Staging) (path : Text) (difference : Difference)
      → stage_difference env s path difference ≡ ok t
      → t ≡ stage s path (action_of difference) (required difference)
  unfolding Staging.write_requiring Staging.delete_requiring Paths.new
  one-staged s t path (Difference.added contents) h = ground arith
  one-staged s t path (Difference.modified contents base) h = ground arith
  one-staged s t path (Difference.deleted base) h = ground arith

  one-Stages :
      (s : Staging) (path : Text) (difference : Difference)
      → Stages s
          (stage s path (action_of difference) (required difference))
          ((path, difference) ∷ [])
  unfolding stage add_precondition
  one-Stages s path (Difference.added contents) = record {
    preconditions_lem = refl;
    actions_lem = refl;
    prefix_preconditions_lem = refl;
    prefix_deletes_lem = refl;
  }
  one-Stages s path (Difference.modified contents base) = record {
    preconditions_lem = refl;
    actions_lem = refl;
    prefix_preconditions_lem = refl;
    prefix_deletes_lem = refl;
  }
  one-Stages s path (Difference.deleted base) = record {
    preconditions_lem = refl;
    actions_lem = refl;
    prefix_preconditions_lem = refl;
    prefix_deletes_lem = refl;
  }

  Stages-trans :
      (s t u : Staging) (one : Text × Difference) (more : List (Text × Difference))
      → Stages s t (one ∷ [])
      → Stages t u more
      → Stages s u (one ∷ more)
  Stages-trans s t u (path, difference) more first rest = record {
    preconditions_lem =
        rest.preconditions_lem
        ∙ rw (first.preconditions_lem) (append_assoc s.preconditions _ (map requirement more));
    actions_lem = rest.actions_lem ∙ rw (first.actions_lem) refl;
    prefix_preconditions_lem = rest.prefix_preconditions_lem ∙ first.prefix_preconditions_lem;
    prefix_deletes_lem = rest.prefix_deletes_lem ∙ first.prefix_deletes_lem;
  }

  abbrev Staged : Type 0
  Staged = Staging × List Change

  -- What the loop of `stage` gives from what was staged before.
  abbrev StagesAll : Staged → Staged → List (Text × Difference) → Type 0
  StagesAll before after these =
      Stages before.0 after.0 these × (after.1 ≡ before.1 ++ map change_of these)

  module _ (selection : Selection) where
    stage_each-Stages :
        (diffs : List (Text × Difference)) (before after : Staged)
        → stage_each env selection diffs before ≡ ok after
        → StagesAll before after (selected selection diffs)
    unfolding stage_each
    stage_each-Stages [] (s, staged) after h =
        let same : ◌≡◌ {A = Staged} (s, staged) after = cc in
        subst (λ a. StagesAll (s, staged) a []) same
          (
            record {
              preconditions_lem = rw append-nil refl;
              actions_lem = refl;
              prefix_preconditions_lem = refl;
              prefix_deletes_lem = refl;
            },
            rw append-nil refl,
          )
    stage_each-Stages ((path, difference) ∷ diffs) (s, staged) after h =
        elim (Bool-cases (covers selection path)) [
          | inr left_out ↦
              rw left_out (stage_each-Stages diffs (s, staged) after (rw left_out at h))
          | inl taken ↦ rw taken (
              kept (stage_difference env s path difference)
                (λ t k.
                  stage_each-Stages diffs (t, staged ++ ((path, local_change difference) ∷ []))
                    after k)
                refl (rw taken at h))
        ]
      where
        kept :
            (t : Outcome Staging)
            → ((t : Staging)
                → stage_each env selection diffs
                    (t, staged ++ ((path, local_change difference) ∷ []))
                  ≡ ok after
                → StagesAll
                    (t, staged ++ ((path, local_change difference) ∷ []))
                    after
                    (selected selection diffs))
            → stage_difference env s path difference ≡ t
            → (in_failure env t >>= λ t.
                stage_each env selection diffs
                  (t, staged ++ ((path, local_change difference) ∷ [])))
              ≡ ok after
            → StagesAll (s, staged) after ((path, difference) ∷ selected selection diffs)
        kept (err e) ih eq k = cc
        kept (ok t) ih eq k =
            let rest = ih t k in
            let first = one-Stages s path difference in
            (
              Stages-trans s t after.0 (path, difference) (selected selection diffs)
                  (rw (one-staged s t path difference eq) first) rest.0,
              rest.1
                  ∙ append_assoc staged ((path, local_change difference) ∷ [])
                      (map change_of (selected selection diffs)),
            )

    -- Where `stage` succeeds, it stages each local change that is covered, and nothing else: it
    -- requires of each that the Store holds what the Base says, in the order of the changes, and
    -- reports the same changes.
    pub stage-Stages :
        (found : Scan) (after : Staged)
        → Commit.stage env found selection ≡ ok after
        → StagesAll (Staging.new, []) after (selected selection (changes env found))
    unfolding Commit.stage
    stage-Stages found after h = stage_each-Stages (changes env found) (Staging.new, []) after h
