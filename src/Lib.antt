-- ===== src/Lib.antt =====
-- A verification library for tidings, a library of Stores: text Files under Paths, changed by
-- Commits, with a feed of the Changes.
--
-- An app stages writes and deletes in a `Staging` (src/staging.rs), with Preconditions, and gives it
-- to a Store as one Commit. The Store's Backend reads its Files through `StoreState` and works out a
-- plan (`CommitRequest::plan`, src/backend/mod.rs): it checks the Preconditions, turns Prefix deletes
-- into deletes, leaves out what changes nothing, and refuses names that some platform can't hold
-- together. `Plan::apply` then makes the changes, and each Change feed (src/change.rs) records them.
--
-- Which file models what:
--   ChangeFeed        src/change.rs: what is unread and how Changes merge (`Unread`), both ends
--                     (`FeedSender`, `ChangeFeed`), and their steps in any order (Wakeups)
--   Paths, Prefixes   src/path.rs, src/prefix.rs: which texts are refused, temporary file names, and
--                     the range of the texts under a name
--   Files             src/file.rs, src/precondition.rs
--   Revisions         src/revision.rs
--   Staging           src/staging.rs, the calls on a `Staging`; `Staged` is its state
--   StoreState        the trait of src/backend/mod.rs, a record of functions; `Views` says that they
--                     read one set of Files and do not fail
--   Commits           `CommitRequest::plan` and `Plan::apply` of src/backend/mod.rs, with the steps
--                     that src/staging.rs has for them (Steps, Names); the proofs are in Expand,
--                     LeftOut, Conflicts, Clashes, Refusals and Effect
--   Memory            src/backend/memory.rs; `Held` is what the lock guards
--   Store             src/store.rs, src/committed.rs, over any Backend as a record of operations
--                     (`Backend` of src/backend/mod.rs), with the memory Backend as one
--   Journal           src/backend/fs/journal.rs, the journal and its text: `to_text` and `read`
--   Disk              what the source uses of `std::fs`, over a folder as a map from names to what is
--                     there, where the operating system may refuse any call (`Os`)
--   WorkingCopy       cli/src/working_copy.rs and its modules, the Working copies of the command line:
--     Record          cli/src/working_copy/record.rs, the record and its text: `to_text` and `parse`
--     Reports         what the commands report
--     Failures        cli/src/failure.rs, the failures, their exit codes and the texts of errors
--     Folder          `local`, `write`, `apply` and the calls they make on the folder
--     Theirs          `.tidings/theirs/`: `settle_theirs` and `remove_stale_theirs`
--     Reconcile       `reconcile_path`, and `reconcile_paths` and `reconcile` (Reconcile.Paths)
--     Differences     cli/src/working_copy/scan.rs, `Scan::changes`
--     Scan            cli/src/working_copy/scan.rs, the ignore file and the walk over the folder
--     Selection       `Selection` and `NamedPath`, the checks of what a command names
--     Attempts        what an attempt of `commit` comes to
--     Commit          `commit`, from staging local changes to recording and reconciling
--     Settle, Resolve cli/src/working_copy/settle.rs, `discard` and `resolve`
--     Status          `status`, given whether a `sync` is running
--   Error             src/error.rs, with `panicked` for a panic of the source
--   Crates            the functions of other crates and of the Unicode tables, as parameters, with the
--                     documented behaviour that theorems rely on; Crates.Ascii has an instance of it
--   Base              the standard library's texts, byte strings, maps and results
--
-- A text is a list of Unicode scalar values. A `BTreeMap` is a list of entries in order of key, with
-- `get`, `insert`, `remove` and `retain`. A `Revision` is a `u128`, a natural number below 2 ^ 128.
-- The functions of the model end by structural recursion, but for some that have fuel: the printing of
-- a decimal number, one for each digit it could have; the loop of `commit`, which is given two turns;
-- and the walks over the folder (`scan_directory`, `remove_stale_theirs_in`), which go one directory
-- down with each, and are given more than the length of all the names in the folder.
--
-- A call that changes shared state is a function from the state to the state after it, since the
-- source holds one lock for the whole call. Errors are values of `Outcome`. The calls on the folder are
-- chained as a state of the folder and a result (`Io`); a Working copy's commands take its Store,
-- record, saved record and folder together (`Working`), under the lock, once `select` and the Store's
-- opening are done. The folder changes only by the command: that another program changes it between two
-- calls is not modelled, nor, in `commit` and `discard`, that another commits to the Store meanwhile; a
-- reconcile reads each Path once, so there the Store may be any. What is in `.tidings/` shows only for
-- `tmp` itself, the ignore file and `theirs/`.
--
-- Not modelled: the SQLite Backend, the filesystem Backend but for its journal's text, a Commit that
-- is dropped part way, the tasks that follow other Stores, the blocking interface, and of the command
-- line its arguments, its output, the creating and finding of a Working copy, and the loop of
-- `sync` that follows the Store and the folder. They are system calls, SQL, threads and the terminal
-- around the parts that are. The matcher of the `ignore` crate is a parameter.
pub mod Base
pub mod ChangeFeed
pub mod Crates
pub mod Disk
pub mod Error
pub mod Paths
pub mod Prefixes
pub mod Files
pub mod Revisions
pub mod Staging
pub mod StoreState
pub mod Commits
pub mod Memory
pub mod Store
pub mod Journal
pub mod WorkingCopy
