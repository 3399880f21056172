-- ===== src/Cmd/Options.antt =====
-- The options of Init in cmd/init.go, what it reads and writes as text, and the checks it begins with.
use obsideo_provider.Base.{
  Option, String, Bool, true, false, not, ◌&&◌, ◌||◌, ◌==◌, str_eq, if◌then◌else◌, Result, ok, err,
  ◌>>=◌,
}
use obsideo_provider.Base.Int.{ℤ, pos}
use obsideo_provider.Merkle.Codec.{Bytes}
use obsideo_provider.Api.Tokens.{or_error}
use obsideo_provider.Identity.{IdentityCodec, IdentityError}
use obsideo_provider.Cmd.Capacity.{CapacityCodec, parse_capacity}

pub record InitOptions : Type 0 where
  pub address : String
  pub coordinator : String
  pub config_path : String
  pub data_path : String
  pub port : ℤ
  pub capacity : String
  pub noble_wallet : String
  pub skip_probe : Bool
  pub no_register : Bool
  pub force : Bool
  pub version : String

-- What `url.Parse` gives.
pub record Url : Type 0 where
  pub scheme : String
  pub host : String
  pub hostname : String

-- The fields that `writeConfig` sets.
pub record WrittenConfig : Type 0 where
  pub provider_id : String
  pub port : ℤ
  pub data_path : String
  pub public_key_path : String
  pub coordinator_url : String
  pub noble_wallet_address : String
  pub capacity_bytes : ℤ

-- The body of the registration.
pub record Registration : Type 0 where
  pub address : String
  pub public_key : String
  pub capacity_bytes : ℤ
  pub noble_wallet_address : String

-- %q, %d, and of floats: the conversion from int64, a test, a division and strconv.FormatFloat with
-- one digit behind the point.
pub record PrintCodec (F : Type 0) : Type 0 where
  pub quote : String → String
  pub itoa : ℤ → String
  pub float : ℤ → F
  pub below_1000 : F → Bool
  pub over_1000 : F → F
  pub format_float : F → String

-- What comes from net/url, net, strings, encoding/pem, encoding/json and path/filepath.
pub record InitCodec (F : Type 0) : Type 0 where
  pub numbers : CapacityCodec F
  pub keys : IdentityCodec
  pub trim_right : String → String
  pub parse_url : String → Option Url
  pub is_loopback_ip : String → Bool
  -- The type and the bytes of the first PEM block, and the text of one of type PUBLIC KEY.
  pub decode_pem : Bytes → Option (String × Bytes)
  pub encode_pem : Bytes → Bytes
  -- The id of a registration, or none if the body does not decode.
  pub unmarshal_registered : String → Option String
  pub key_path_beside : String → String
  pub print : PrintCodec F

pub data InitError : Type 0 where
  no_address bad_address not_https bad_capacity config_exists : InitError
  fetch_key write_key data_dir write_config_failed cannot_listen not_reachable register_failed :
      InitError
  identity_failed : IdentityError → InitError

abbrev check : Bool → InitError → Result InitError (Unit {0})
check true e = ok tt
check false e = err e

-- The default where the text is empty.
abbrev or_text : String → String → String
or_text s default = if str_eq s "" then default else s

module _ {F : Type 0} (c : InitCodec F) where
  unfoldable pub is_loopback : String → Bool
  is_loopback h = str_eq h "localhost" || c.is_loopback_ip h

  unfoldable pub with_defaults : InitOptions → InitOptions
  with_defaults o = record o {
    coordinator = c.trim_right (or_text o.coordinator "https://coordinator.obsideo.io");
    config_path = or_text o.config_path "config.yaml";
    data_path = or_text o.data_path "./data";
    port = elim o.port [ pos n ↦ (if n == 0 then pos 3334 else pos n) | z ↦ z ];
  }

  -- The checks before anything is asked or written: the capacity is what they find out.
  unfoldable pub check_options : InitOptions → (config_there : Bool) → Result InitError ℤ
  unfolding is_loopback
  check_options o config_there = check (not (str_eq o.address "")) no_address >>= λ _.
      or_error (c.parse_url o.address) bad_address >>= λ url.
      check (not (str_eq url.host "") && (str_eq url.scheme "https" || str_eq url.scheme "http"))
        bad_address
      >>= λ _. check (str_eq url.scheme "https" || is_loopback url.hostname) not_https >>= λ _.
          or_error (parse_capacity c.numbers o.capacity) bad_capacity >>= λ cap.
          check (not config_there || o.force) config_exists >>= λ _. ok cap
