-- ===== src/Staging.antt =====
-- Stagings (src/staging.rs): what is staged, and the calls that stage it. A call that refuses its
-- Path leaves the Staging as it was. `Staging` only wraps `Staged`.
pub mod Calls
pub mod LastCall
pub mod Required
pub mod Tests
use tidings.Base.Tests.{not, none, some, List, [], ◌∷◌, ◌++◌}
use tidings.Base.Lists.{find}
use tidings.Base.Results.{ok, err, ◌>>=◌}
use tidings.Base.Text.{Text}
use tidings.Base.BTreeMap.{BTreeMap, insert, retain}
use tidings.Crates.{Crates}
use tidings.Error.{wrong_prefix_revision, Outcome}
use tidings.Files.{File, Precondition, any, absent, unchanged_since}
use tidings.Paths
use tidings.Prefixes
use tidings.Prefixes.{covers}
use tidings.Revisions.{StoreId, PrefixRevision, is_for}

pub data Action : Type 0 where
  write : Text → Action
  delete : Action

pub record Staged : Type 0 where
  pub actions : BTreeMap Action
  pub prefix_deletes : BTreeMap (Unit {0})
  pub preconditions : List (Text × Precondition)
  pub prefix_preconditions : List (Text × PrefixRevision)

abbrev pub Staging : Type 0
Staging = Staged

-- `Staging::new`.
abbrev pub new : Staging
new = record { actions = []; prefix_deletes = []; preconditions = []; prefix_preconditions = [] }

-- `Staged::add_precondition`: `Any` requires nothing.
unfoldable pub add_precondition : Staged → Text → Precondition → Staged
add_precondition s path any = s
add_precondition s path absent = record s {
  preconditions = s.preconditions ++ ((path, absent) ∷ []);
}
add_precondition s path (unchanged_since r) = record s {
  preconditions = s.preconditions ++ ((path, unchanged_since r) ∷ []);
}

-- `Staging::stage`.
unfoldable pub stage : Staging → Text → Action → Precondition → Staging
unfolding add_precondition
stage s path action precondition =
    let t = add_precondition s path precondition in
    record t { actions = insert path action t.actions }

-- `Staging::write_back`.
unfoldable pub write_back : Staging → File → Text → Staging
unfolding stage
write_back s file contents = stage s file.path (write contents) (unchanged_since file.stat.revision)

-- The body of `Staging::delete_prefix`, for a valid Prefix.
unfoldable pub stage_prefix_delete : Staging → Text → Staging
stage_prefix_delete s prefix = record s {
  actions = retain (λ path. not (covers prefix path)) s.actions;
  prefix_deletes = insert prefix tt s.prefix_deletes;
}

-- `Staged::refuse_wrong_prefix_revisions`.
unfoldable pub refuse_wrong_prefix_revisions : Staged → StoreId → Outcome (Unit {0})
refuse_wrong_prefix_revisions s store =
    elim (find (λ p. not (is_for p.1 store p.0)) s.prefix_preconditions) [
      | some (prefix, _) ↦ err (wrong_prefix_revision prefix)
      | none ↦ ok tt
    ]

module _ (c : Crates) where
  unfoldable pub write_requiring : Staging → Text → Text → Precondition → Outcome Staging
  unfolding stage
  write_requiring s path contents precondition = do
    valid ← Paths.new c path
    ok (stage s valid (write contents) precondition)

  -- `Staging::write`.
  unfoldable pub write_any : Staging → Text → Text → Outcome Staging
  unfolding write_requiring
  write_any s path contents = write_requiring s path contents any

  unfoldable pub delete_requiring : Staging → Text → Precondition → Outcome Staging
  unfolding stage
  delete_requiring s path precondition = do
    valid ← Paths.new c path
    ok (stage s valid delete precondition)

  -- `Staging::delete`.
  unfoldable pub delete_any : Staging → Text → Outcome Staging
  unfolding delete_requiring
  delete_any s path = delete_requiring s path any

  unfoldable pub delete_prefix : Staging → Text → Outcome Staging
  unfolding stage_prefix_delete
  delete_prefix s prefix = do valid ← Prefixes.new c prefix; ok (stage_prefix_delete s valid)

  unfoldable pub require : Staging → Text → Precondition → Outcome Staging
  unfolding add_precondition
  require s path precondition = do
    valid ← Paths.new c path
    ok (add_precondition s valid precondition)

  unfoldable pub require_prefix : Staging → Text → PrefixRevision → Outcome Staging
  require_prefix s prefix prefix_revision = do
    valid ← Prefixes.new c prefix
    ok (record s {
      prefix_preconditions = s.prefix_preconditions ++ ((valid, prefix_revision) ∷ []);
    })
