-- ===== src/Gc/Wiring.antt =====
-- `NewSweeper` of gc/sweeper.go: a sweeper is made only with all that it needs. The parts are there or
-- nil; what they do is in the other modules.
use obsideo_provider.Base.{Bool, not, if◌then◌else◌, Result, ok, err}
use obsideo_provider.Gc.Config.{Config}

pub record SweeperOpts : Type 0 where
  pub config : Config
  pub has_coverage : Bool
  pub has_quarantine : Bool
  pub has_rechecker : Bool
  pub has_storage : Bool

pub data WiringError : Type 0 where
  coverage_required quarantine_required rechecker_required storage_required : WiringError

-- The sweeper is known by its configuration.
unfoldable pub new_sweeper : SweeperOpts → Result WiringError Config
new_sweeper opts =
    if not opts.has_coverage
    then err coverage_required
    else if not opts.has_quarantine
    then err quarantine_required
    else if not opts.has_rechecker
    then err rechecker_required
    else if not opts.has_storage
    then err storage_required
    else ok opts.config
