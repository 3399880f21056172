-- ===== src/Gc.antt =====
-- gc/: the garbage collector. Objects without a contract are moved to quarantine and, when they
-- have stayed there for a while, unlinked; each of the two steps asks the coordinator first.
pub mod Config
pub mod Quarantine
pub mod Recheck
pub mod Sweeper
pub mod Wiring
pub mod Steps
pub mod Relate
pub mod Others
pub mod Liveness
pub mod Reclaims
pub mod Safety
pub mod Retention
