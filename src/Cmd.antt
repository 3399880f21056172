-- ===== src/Cmd.antt =====
-- cmd/: the commands of the provider.
pub mod Heartbeat
pub mod Capacity
pub mod Options
pub mod Document
pub mod Init
pub mod InitLaws
pub mod Start
pub mod StartLaws
pub mod Onboarding
