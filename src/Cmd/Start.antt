-- ===== src/Cmd/Start.antt =====
-- Start of cmd/start.go: the parts are set up one after the other, and an error of one ends the start;
-- then the loops begin that the configuration asks for. What is logged is left out.
use Prim.Native.String.{◌++◌ as append}
use obsideo_provider.Base.{
  Option, none, some, List, String, Bool, true, not, ◌&&◌, str_eq, if◌then◌else◌, Result, ok, err,
  ◌>>=◌,
}
use obsideo_provider.Base.Int.{ℤ, pos, ◌*ℤ◌}
use obsideo_provider.Base.Time.{Duration, to_int64}
use obsideo_provider.Merkle.Codec.{Bytes}
use obsideo_provider.Config.{Config, LoadError, load, cors_on, accepts_uncontracted_data}
use obsideo_provider.Api.Tokens.{VerifierError, new_verifier, seed_key, or_error}
use obsideo_provider.Api.Cors.{set_cors}
use obsideo_provider.Pause.State as Pause
use obsideo_provider.Identity.{
  IdentityCodec, Identity, IdentityError, KeyFile, Attempt, load_or_create, public_key_hex,
}
use obsideo_provider.Coverage.Exchange.{Client, new_client, default_client}
use obsideo_provider.Gc.Config.{Config as GcConfig}
use obsideo_provider.Gc.Wiring.{WiringError, new_sweeper}
use obsideo_provider.Directory.Refresh.{Refresher, new_refresher}
use obsideo_provider.Cmd.Heartbeat.{Beat}

-- What comes from the libraries: YAML, strings.TrimRight with "/", the bytes of the first PEM block,
-- the base64 of a cold key, and the codecs of the pause state and the identity.
pub record StartCodec : Type 0 where
  pub unmarshal : String → Config → Option Config
  pub trim_right : String → String
  pub decode_pem : Bytes → Option Bytes
  pub decode_cold_key : String → Option Bytes
  pub pause : Pause.PauseCodec
  pub keys : IdentityCodec

-- What the start finds, and how its system calls end. `cold_key` is the text that is built in.
pub record Found : Type 0 where
  pub config_file : Option String
  pub store_opens : Bool
  pub public_key_file : Option Bytes
  pub cold_key : String
  pub pause_dir : Pause.PauseDir
  pub sets_aside : Bool
  pub identity : Attempt
  pub identity_file : KeyFile
  pub quarantine_opens : Bool

pub data StartError : Type 0 where
  bad_config : LoadError → StartError
  bad_store bad_cold_key bad_quarantine : StartError
  bad_verifier : VerifierError → StartError
  bad_pause : Pause.PauseError → StartError
  bad_identity : IdentityError → StartError
  bad_sweeper : WiringError → StartError

-- `time.Duration(n) * time.Second`
unfoldable pub seconds : ℤ → Duration
unfolding to_int64 ◌*ℤ◌
seconds n = to_int64 (n *ℤ pos 1000000000)

pub record CoverageLoop : Type 0 where
  pub client : Client
  pub timeout : Duration
  pub interval : Duration
  pub batch_size : ℤ

pub record SweeperLoop : Type 0 where
  pub config : GcConfig
  pub client : Client
  pub timeout : Duration

-- The server, and the loops that run beside it.
pub record Running : Type 0 where
  pub config : Config
  pub keys : List Bytes
  pub pause : Pause.State
  pub identity : Identity
  pub accept_uncontracted_data : Bool
  pub cors_enabled : Bool
  pub cors_origins : List String
  pub heartbeat : Option (String × Beat)
  pub coverage : Option CoverageLoop
  pub sweeper : Option SweeperLoop
  pub directory : Option Refresher

abbrev pub wrap {ℓ} :
    {E : Type 0} {A : Type ℓ} → (E → StartError) → Result E A → Result StartError A
wrap f (ok a) = ok a
wrap f (err e) = err (f e)

-- Without the address of the coordinator, or without a key for it, nothing is asked of it.
abbrev pub is_connected : Config → Bool
is_connected c = not (str_eq c.coordinator.url "") && not (str_eq c.coordinator.provider_api_key "")

module _ (c : StartCodec) (version : String) where
  unfoldable pub heartbeat_loop : Config → Identity → Option (String × Beat)
  heartbeat_loop cfg ident =
      if not (str_eq cfg.provider_id "") && not (str_eq cfg.coordinator.url "")
      then some (
        append (append (append cfg.coordinator.url "/internal/providers/") cfg.provider_id)
            "/heartbeat",
        record {
          noble_wallet = cfg.noble_wallet_address;
          provider_version = version;
          signing_pub_key = public_key_hex c.keys ident;
        },
      )
      else none

  unfoldable pub coverage_loop : Config → Option CoverageLoop
  coverage_loop cfg =
      if cfg.coverage.enabled && is_connected cfg
      then some (record {
        client = new_client c.trim_right cfg.coordinator.url cfg.coordinator.provider_api_key;
        timeout = seconds cfg.coverage.request_timeout_s;
        interval = seconds cfg.coverage.refresh_interval_s;
        batch_size = cfg.coverage.batch_size;
      })
      else none

  -- NewQuarantine makes a directory, which can fail.
  unfoldable pub sweeper_loop :
      (quarantine_opens : Bool) → Config → Result StartError (Option SweeperLoop)
  unfolding new_sweeper
  sweeper_loop quarantine_opens cfg =
      if not (cfg.gc.enabled && is_connected cfg)
      then ok none
      else if not quarantine_opens
      then err bad_quarantine
      else (elim (new_sweeper (record {
        config = cfg.gc;
        has_coverage = true;
        has_quarantine = true;
        has_rechecker = true;
        has_storage = true;
      })) [
        | err e ↦ err (bad_sweeper e)
        | ok gc ↦ ok (
            some (record {
              config = gc;
              client =
                  default_client c.trim_right cfg.coordinator.url cfg.coordinator.provider_api_key;
              timeout = seconds cfg.coverage.request_timeout_s;
            }))
      ])

  -- An error of dirfetch.New leaves the loop out.
  unfoldable pub directory_loop : Config → List Bytes → Option Refresher
  directory_loop cfg keys =
      if is_connected cfg
      then (elim (seed_key keys) [
        | none ↦ none
        | some seed ↦
            elim (new_refresher c.trim_right (record {
              coord_url = cfg.coordinator.url;
              api_key = cfg.coordinator.provider_api_key;
              coord_pub_key = seed;
              has_verifier = true;
              interval = pos 0;
            })) [ err _ ↦ none | ok r ↦ some r ]
      ])
      else none

  abbrev pub running : Config → List Bytes → Pause.State → Identity → Option SweeperLoop → Running
  running cfg keys pause ident sweeper = record {
    config = cfg;
    keys = keys;
    pause = pause;
    identity = ident;
    accept_uncontracted_data = accepts_uncontracted_data cfg;
    cors_enabled = cors_on cfg.server;
    cors_origins = set_cors cfg.server.cors_allowed_origins;
    heartbeat = heartbeat_loop cfg ident;
    coverage = coverage_loop cfg;
    sweeper = sweeper;
    directory = directory_loop cfg keys;
  }

  -- The server and the loops, once the parts are set up.
  unfoldable pub start_loops :
      Found → Config → List Bytes → Pause.State → Identity → Result StartError Running
  start_loops f cfg keys pause ident =
      sweeper_loop f.quarantine_opens cfg >>= λ sweeper. ok (running cfg keys pause ident sweeper)

  abbrev pub store_opened : Found → Result StartError (Unit {0})
  store_opened f = if f.store_opens then ok tt else err bad_store

  -- `Start`, up to the listening server.
  unfoldable pub start : Found → Result StartError Running
  unfolding start_loops
  start f = wrap bad_config (load c.unmarshal f.config_file) >>= λ cfg. store_opened f >>= λ _.
      wrap bad_verifier (new_verifier c.decode_pem f.public_key_file) >>= λ keys.
      or_error (Pause.parse_cold_key c.decode_cold_key f.cold_key) bad_cold_key >>= λ cold_key.
      wrap bad_pause (Pause.load c.pause f.sets_aside f.pause_dir cold_key) >>= λ pause.
      wrap bad_identity (load_or_create c.keys f.identity f.identity_file).0 >>= λ ident.
      start_loops f cfg keys pause ident
