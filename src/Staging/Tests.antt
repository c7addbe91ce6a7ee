-- ===== src/Staging/Tests.antt =====
-- The theorems on a Staging's calls at concrete ones (src/staging.rs).
use tidings.Base.Tests.{◌≡◌, is_some, List, [], ◌∷◌}
use tidings.Base.Text.{codes}
use tidings.Base.BTreeMap.{BTreeMap, get}
use tidings.Base.BTreeMap.Sorted.{IsSorted}
use tidings.Crates.Ascii.{ascii}
use tidings.Files.{Revision, absent}
use tidings.Staging
use tidings.Staging.Calls.{Call, call_all}
use tidings.Staging.LastCall.{untouched, done, last_said, effective-last_said}
use tidings.Staging.Required.{required_all, required_under_all, call_all-requires}
use tidings.Commits.Effect.{effective}

abbrev held : BTreeMap Revision
held = (codes "d/a", 5) ∷ []

abbrev calls : List Call
calls =
    Call.write_requiring (codes "d/a") (codes "x") absent
    ∷ Call.write (codes "/bad") (codes "y")
    ∷ Call.delete_prefix (codes "d/")
    ∷ []

effective-last_said_example :
    effective (call_all ascii Staging.new calls) held (codes "d/a")
    ≡ done (last_said ascii untouched calls (codes "d/a")) (is_some (get (codes "d/a") held))
effective-last_said_example = effective-last_said ascii calls held (codes "d/a")

call_all-requires_example :
    IsSorted (call_all ascii Staging.new calls).actions
    × IsSorted (call_all ascii Staging.new calls).prefix_deletes
    × ((call_all ascii Staging.new calls).preconditions ≡ required_all ascii calls)
    × ((call_all ascii Staging.new calls).prefix_preconditions ≡ required_under_all ascii calls)
call_all-requires_example = call_all-requires ascii calls
