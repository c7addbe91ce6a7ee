-- ===== src/Staging/Calls.antt =====
-- The calls on a `Staging`, one after the other (src/staging.rs). A call that fails returns its
-- error and leaves the Staging as it was, and the app goes on.
use tidings.Base.Tests.{List, [], ◌∷◌}
use tidings.Base.Results.{ok, err}
use tidings.Base.Text.{Text}
use tidings.Crates.{Crates}
use tidings.Error.{Outcome}
use tidings.Files.{File, Precondition}
use tidings.Revisions.{PrefixRevision}
use tidings.Staging
use tidings.Staging.{Staging}

pub data Call : Type 0 where
  write : Text → Text → Call
  write_requiring : Text → Text → Precondition → Call
  write_back : File → Text → Call
  delete delete_prefix : Text → Call
  delete_requiring require : Text → Precondition → Call
  require_prefix : Text → PrefixRevision → Call

-- The Staging after a call.
abbrev pub kept : Staging → Outcome Staging → Staging
kept s (ok t) = t
kept s (err e) = s

module _ (c : Crates) where
  abbrev pub called : Staging → Call → Outcome Staging
  called s (write path contents) = Staging.write_any c s path contents
  called s (write_requiring path contents p) = Staging.write_requiring c s path contents p
  called s (write_back file contents) = ok (Staging.write_back s file contents)
  called s (delete path) = Staging.delete_any c s path
  called s (delete_requiring path p) = Staging.delete_requiring c s path p
  called s (delete_prefix prefix) = Staging.delete_prefix c s prefix
  called s (require path p) = Staging.require c s path p
  called s (require_prefix prefix r) = Staging.require_prefix c s prefix r

  -- The Staging after the calls.
  unfoldable pub call_all : Staging → List Call → Staging
  call_all s [] = s
  call_all s (call ∷ calls) = call_all (kept s (called s call)) calls
