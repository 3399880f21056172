-- ===== src/Directory.antt =====
-- dirfetch/: the provider directory of the central coordinator, and the keys that it adds.
pub mod Refresh
pub mod Laws
