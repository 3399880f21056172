-- ===== src/Cmd/Init.antt =====
-- Init of cmd/init.go: the coordinator's key, this node's identity, config.yaml, the reachability
-- check and the registration, in this order. What is printed changes nothing and is left out.
use text.Mathlib.Text.{find?}
use obsideo_provider.Base.{
  ℕ, Option, none, some, List, [], ◌∷◌, String, Bool, true, false, not, ◌&&◌, ◌||◌, ◌==◌, str_eq,
  if◌then◌else◌, length, Result, ok, err, is_some,
}
use obsideo_provider.Base.Int.{ℤ}
use obsideo_provider.Merkle.Codec.{Bytes}
use obsideo_provider.Api.Tokens.{public_key_size}
use obsideo_provider.Identity.{Identity, KeyFile, Attempt, load_or_create, public_key_hex}
use obsideo_provider.Cmd.Document.{document, print_lines}
use obsideo_provider.Cmd.Options.{
  InitOptions, WrittenConfig, Registration, InitCodec, InitError, fetch_key, write_key, data_dir,
  write_config_failed, cannot_listen, not_reachable, register_failed, identity_failed,
  with_defaults, check_options,
}

-- The files that Init writes: coordinator_pub.pem, provider_identity.key and config.yaml.
pub record Files : Type 0 where
  pub coordinator_key : Option Bytes
  pub identity : KeyFile
  pub config : Option String

-- os.WriteFile: all is written, the file is not opened, or it is cut short.
pub data Write {ℓ} (A : Type ℓ) : Type ℓ where
  complete not_opened : Write A
  cut_short : A → Write A

abbrev pub after_write {ℓ} : {A : Type ℓ} → Write A → A → Option A → Option A
after_write complete new old = some new
after_write not_opened new old = old
after_write (cut_short part) new old = some part

abbrev pub is_written {ℓ} : {A : Type ℓ} → Write A → Bool
is_written complete = true
is_written not_opened = false
is_written (cut_short part) = false

-- What one run meets: whether os.Stat tells of the configuration, the responses (the key's with its body
-- if that can be read), the outcomes of system calls, and the dates of the two configurations, as they
-- are printed.
pub record World : Type 0 where
  pub stats : Bool
  pub key_response : Option (ℕ × Option Bytes)
  pub probe_response : Option (ℕ × String)
  pub register_response : Option (ℕ × String)
  pub writes_key : Write Bytes
  pub makes_data_dir : Bool
  pub identity : Attempt
  pub first_config : Write String
  pub listens : Bool
  pub last_config : Write String
  pub first_date : String
  pub last_date : String

-- What a run returns: the registrations that were sent are kept too.
pub record Inited : Type 0 where
  pub result : Result InitError (Unit {0})
  pub files : Files
  pub sent : List Registration

module _ {F : Type 0} (c : InitCodec F) where
  -- `fetchCoordinatorKey`: the text for the file, of a raw key of 32 bytes.
  unfoldable pub fetch_coordinator_key : Option (ℕ × Option Bytes) → Option Bytes
  fetch_coordinator_key none = none
  fetch_coordinator_key (some (status, none)) = none
  fetch_coordinator_key (some (status, some body)) =
      if not (status == 200) then none else (elim (c.decode_pem body) [
        | none ↦ none
        | some (kind, key) ↦
            if str_eq kind "PUBLIC KEY" && (length key == public_key_size)
            then some (c.encode_pem key)
            else none
      ])

  -- `probe`: the answer comes from this very process.
  unfoldable pub probe : Option (ℕ × String) → Bool
  probe none = false
  probe (some (status, body)) = (status == 200) && is_some (find? body "\"init\":true")

  -- `register`: the id, which is not empty.
  unfoldable pub register : Option (ℕ × String) → Option String
  register none = none
  register (some (status, body)) =
      if not ((status == 200) || (status == 201))
      then none
      else (elim (c.unmarshal_registered body) [
        | none ↦ none
        | some id ↦ if str_eq id "" then none else some id
      ])

  -- `writeConfig`, what it writes.
  abbrev pub written : InitOptions → (provider_id : String) → (capacity_bytes : ℤ) → WrittenConfig
  written o provider_id capacity_bytes = record {
    provider_id = provider_id;
    port = o.port;
    data_path = o.data_path;
    public_key_path = c.key_path_beside o.config_path;
    coordinator_url = o.coordinator;
    noble_wallet_address = o.noble_wallet;
    capacity_bytes = capacity_bytes;
  }

  abbrev pub config_text : InitOptions → (date provider_id : String) → (capacity_bytes : ℤ) → String
  config_text o date provider_id capacity_bytes =
      print_lines c.print (document c.print o.version date (written o provider_id capacity_bytes))

  abbrev pub registration : InitOptions → Identity → ℤ → Registration
  registration o ident cap = record {
    address = c.trim_right o.address;
    public_key = public_key_hex c.keys ident;
    capacity_bytes = cap;
    noble_wallet_address = o.noble_wallet;
  }

  abbrev pub stop : InitError → Files → List Registration → Inited
  stop e files sent = record { result = err e; files = files; sent = sent }

  abbrev pub done : Files → List Registration → Inited
  done files sent = record { result = ok tt; files = files; sent = sent }

  -- Step 5, and the configuration with the id.
  unfoldable pub finish_register : World → InitOptions → ℤ → Identity → Files → Inited
  unfolding register
  finish_register w o cap ident files =
      let sent : List Registration = registration o ident cap ∷ [] in
      elim (register w.register_response) [
        | none ↦ stop register_failed files sent
        | some id ↦
            let files' : Files = record files {
              config = after_write w.last_config (config_text o w.last_date id cap) files.config;
            } in
            if is_written w.last_config
            then done files' sent
            else stop write_config_failed files' sent
      ]

  -- Step 4.
  unfoldable pub reach : World → InitOptions → ℤ → Identity → Files → Inited
  unfolding finish_register probe
  reach w o cap ident files =
      if o.no_register
      then done files []
      else if not w.listens
      then stop cannot_listen files []
      else if not (o.skip_probe || probe w.probe_response)
      then stop not_reachable files []
      else finish_register w o cap ident files

  -- Steps 2 and 3.
  unfoldable pub identify : World → InitOptions → ℤ → Files → Inited
  unfolding reach
  identify w o cap files =
      let (made, key_file) = load_or_create c.keys w.identity files.identity in
      let files' : Files = record files { identity = key_file } in
      elim made [
        | err e ↦ stop (identity_failed e) files' []
        | ok ident ↦
            let files'' : Files = record files' {
              config = after_write w.first_config (config_text o w.first_date "" cap) files.config;
            } in
            if is_written w.first_config
            then reach w o cap ident files''
            else stop write_config_failed files'' []
      ]

  -- Step 1.
  unfoldable pub fetch_key_step : World → InitOptions → ℤ → Files → Inited
  unfolding fetch_coordinator_key identify
  fetch_key_step w o cap files = elim (fetch_coordinator_key w.key_response) [
    | none ↦ stop fetch_key files []
    | some pem ↦
        let files' : Files = record files {
          coordinator_key = after_write w.writes_key pem files.coordinator_key;
        } in
        if not (is_written w.writes_key)
        then stop write_key files' []
        else if not w.makes_data_dir
        then stop data_dir files' []
        else identify w o cap files'
  ]

  -- `Init`. A configuration of which os.Stat cannot tell counts as not there.
  unfoldable pub init : World → InitOptions → Files → Inited
  unfolding with_defaults check_options fetch_key_step
  init w given files =
      let o = with_defaults c given in
      elim (check_options c o (w.stats && is_some files.config)) [
        | err e ↦ stop e files []
        | ok cap ↦ fetch_key_step w o cap files
      ]
