-- ===== src/System.antt =====
-- The provider as a whole: its state, and the steps that its parts take.
pub mod Within
pub mod Reclaim
pub mod Steps
pub mod Reach
pub mod Keeping
pub mod Losses
