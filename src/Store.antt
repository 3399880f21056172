-- ===== src/Store.antt =====
-- store/store.go and store/stream.go: the files under the data directory and the operations on them.
pub mod Disk
pub mod Records
pub mod Objects
pub mod Addressed
pub mod Integrity
pub mod Staging
pub mod StagingLaws
