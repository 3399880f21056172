-- ===== src/Pause.antt =====
-- pausectl/pausectl.go: the circuit breaker. A signal signed with the cold key pauses pruning until
-- it expires; sequence numbers only grow.
pub mod State
pub mod Laws
pub mod Replay
pub mod Restart
pub mod Handlers
pub mod HandlersLaws
