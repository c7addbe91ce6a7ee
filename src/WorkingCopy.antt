-- ===== src/WorkingCopy.antt =====
-- Working copies of the command line (cli/src/working_copy.rs and its modules): the record that each
-- keeps, its folder, and the commands on them.
pub mod Record
pub mod Reports
pub mod Failures
pub mod Folder
pub mod Theirs
pub mod Reconcile
pub mod Differences
pub mod Scan
pub mod Selection
pub mod Attempts
pub mod Commit
pub mod Settle
pub mod Status
pub mod Resolve
pub mod Tests
