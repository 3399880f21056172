-- ===== src/Config.antt =====
-- config/config.go: the settings of the provider, their defaults, and `Load`. The decoding of YAML
-- is a parameter: it is given the settings so far, and overwrites what the text names.
use obsideo_provider.Base.{
  ℕ, ◌<◌, ◌≡◌, ◌↔◌, ◌≢◌, ◌⊎◌, refl, sym, ap, ap₂, subst, ◌∙◌, Option, none, some, List, [], String,
  Bool, true, false, arith, Result, ok, err, inl, inr, Bool-cases, Option-cases, Result-cases,
}
use obsideo_provider.Base.Int.{ℤ, pos, negsuc}
use obsideo_provider.Gc.Config.{
  Config as GcConfig, ConfigError, or_default, apply_defaults, validate, positive,
}
pub mod Laws
pub mod Tags

pub record ServerConfig : Type 0 where
  pub host : String
  pub port : ℤ
  pub read_timeout : ℤ
  pub write_timeout : ℤ
  pub cors_enabled : Option Bool
  pub cors_allowed_origins : List String

pub record CoordinatorConfig : Type 0 where
  pub url : String
  pub provider_api_key : String

pub record CoverageConfig : Type 0 where
  pub refresh_interval_s : ℤ
  pub batch_size : ℤ
  pub request_timeout_s : ℤ
  pub enabled : Bool

pub record Config : Type 0 where
  pub provider_id : String
  pub server : ServerConfig
  pub data_path : String
  pub public_key_path : String
  pub coordinator : CoordinatorConfig
  pub coverage : CoverageConfig
  pub gc : GcConfig
  pub accept_uncontracted_data : Option Bool
  pub noble_wallet_address : String

-- The effective values of the two settings that are on where the file says nothing.
unfoldable pub accepts_uncontracted_data : Config → Bool
accepts_uncontracted_data c = elim c.accept_uncontracted_data [ none ↦ true | some b ↦ b ]

unfoldable pub cors_on : ServerConfig → Bool
cors_on c = elim c.cors_enabled [ none ↦ true | some b ↦ b ]

abbrev pub default_port : ℤ
default_port = pos 3334

abbrev pub default_read_timeout : ℤ
default_read_timeout = pos 30

abbrev pub default_write_timeout : ℤ
default_write_timeout = pos 300

abbrev pub default_coverage_refresh_seconds : ℤ
default_coverage_refresh_seconds = pos 86400

abbrev pub default_coverage_batch_size : ℤ
default_coverage_batch_size = pos 500

abbrev pub default_coverage_request_timeout_s : ℤ
default_coverage_request_timeout_s = pos 30

-- What the file is read onto; the settings of the garbage collector are still zero.
abbrev pub defaults : Config
defaults = record {
  provider_id = "";
  server = record {
    host = "0.0.0.0";
    port = default_port;
    read_timeout = default_read_timeout;
    write_timeout = default_write_timeout;
    cors_enabled = none;
    cors_allowed_origins = [];
  };
  data_path = "./data";
  public_key_path = "coordinator_pub.pem";
  coordinator = record { url = ""; provider_api_key = "" };
  coverage = record {
    refresh_interval_s = default_coverage_refresh_seconds;
    batch_size = default_coverage_batch_size;
    request_timeout_s = default_coverage_request_timeout_s;
    enabled = false;
  };
  gc = record {
    enabled = false;
    retention_non_contracted_hours = pos 0;
    quarantine_hours = pos 0;
    sweep_interval_hours = pos 0;
  };
  accept_uncontracted_data = none;
  noble_wallet_address = "";
}

pub data LoadError : Type 0 where
  read_config parse_config : LoadError
  invalid_gc_config : ConfigError → LoadError

-- An explicit zero counts as left out.
unfoldable pub fill_coverage : CoverageConfig → CoverageConfig
fill_coverage c = record c {
  refresh_interval_s = or_default c.refresh_interval_s default_coverage_refresh_seconds;
  batch_size = or_default c.batch_size default_coverage_batch_size;
  request_timeout_s = or_default c.request_timeout_s default_coverage_request_timeout_s;
}

abbrev pub filled : Config → Config
filled c = record c { coverage = fill_coverage c.coverage; gc = apply_defaults c.gc }

-- From the decoded file on.
unfoldable pub finish_load : Config → Result LoadError Config
unfolding fill_coverage apply_defaults validate
finish_load c = elim (validate (apply_defaults c.gc)) [
  | err e ↦ err (invalid_gc_config e)
  | ok _ ↦ ok (filled c)
]

-- `Load`, from the contents of the file, `none` if it cannot be read.
unfoldable pub load :
    (unmarshal : String → Config → Option Config) → (file : Option String) → Result LoadError Config
unfolding finish_load
load unmarshal none = err read_config
load unmarshal (some text) = elim (unmarshal text defaults) [
  | none ↦ err parse_config
  | some c ↦ finish_load c
]
