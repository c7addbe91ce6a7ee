-- ===== src/Base.antt =====
-- What the modules share: library names passed on, Boolean tests, texts, list helpers, results and
-- ordered maps. It models the parts of Rust's core and standard library that the source calls.
pub mod Tests
pub mod Lists
pub mod Text
pub mod Digits
pub mod Lines
pub mod Fields
pub mod Results
pub mod BTreeMap
