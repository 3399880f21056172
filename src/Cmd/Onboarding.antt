-- ===== src/Cmd/Onboarding.antt =====
-- From Init to Start: what a node that Init has registered is when it is started over the files that Init
-- left (cmd/init.go, then cmd/start.go with config/config.go, tokens/tokens.go and identity/identity.go).
use obsideo_provider.Base.{◌≡◌, ◌≢◌, Option, none, some, [], ◌∷◌, String, true, ok, is_some}
use obsideo_provider.Base.Int.{ℤ}
use obsideo_provider.Merkle.Codec.{Bytes}
use obsideo_provider.Cmd.Document.{document}
use obsideo_provider.Config.Tags.{assign}
use obsideo_provider.Config.{Config, defaults, load}
use obsideo_provider.Pause.State as Pause
use obsideo_provider.Identity.{Identity}
use obsideo_provider.Identity.Laws.{IdentityLaws}
use obsideo_provider.Cmd.Options.{InitOptions, InitCodec, WrittenConfig, with_defaults}
use obsideo_provider.Cmd.Init.{
  World, Inited, fetch_coordinator_key, register, written, config_text, registration,
}
use obsideo_provider.Cmd.Start.{StartCodec, Found, Running, start}

-- The settings that Init means to write, and the defaults.
abbrev pub as_read : WrittenConfig → Config
as_read w = record defaults {
  provider_id = w.provider_id;
  server = record (defaults.server) { port = w.port };
  data_path = w.data_path;
  public_key_path = w.public_key_path;
  coordinator = record (defaults.coordinator) { url = w.coordinator_url };
  coverage = record (defaults.coverage) { enabled = true };
  noble_wallet_address = w.noble_wallet_address;
}

module _ {F : Type 0} (i : InitCodec F) (c : StartCodec) (given : InitOptions) where
  -- The two commands use the same libraries: what one writes as PEM the other reads, and yaml.Unmarshal
  -- puts the scalars of the text that is written with the id of the answer where the tags say.
  pub record OnboardingLaws (w : World) : Type 0 where
    pub same_keys : i.keys ≡ c.keys
    pub identity : IdentityLaws i.keys
    pub read-write :
        (id : String) (cap : ℤ)
        → register i w.register_response ≡ some id
        → let o = with_defaults i given in
          c.unmarshal (config_text i o w.last_date id cap) defaults
          ≡ some (assign "" (document i.print o.version w.last_date (written i o id cap)) defaults)
    pub decode-encode : (key : Bytes) → c.decode_pem (i.encode_pem key) ≡ some key

  module _ (w : World) (laws : OnboardingLaws w) where
    -- A start over the files that Init left, with a store, a cold key and a pause state in order.
    pub record Follows (r : Inited) (f : Found) : Type 0 where
      pub cold_key : Option Bytes
      pub pause : Pause.State
      pub config_file : f.config_file ≡ r.files.config
      pub public_key_file : f.public_key_file ≡ r.files.coordinator_key
      pub identity_file : f.identity_file ≡ r.files.identity
      pub reads : f.identity.reads ≡ true
      pub store_opens : f.store_opens ≡ true
      pub cold : Pause.parse_cold_key c.decode_cold_key f.cold_key ≡ some cold_key
      pub paused : Pause.load c.pause f.sets_aside f.pause_dir cold_key ≡ ok pause

    -- The node that runs is the one that was registered.
    pub record IsOnboarded (version : String) (r : Inited) (f : Found) : Type 0 where
      pub run : Running
      pub cap : ℤ
      pub id : String
      pub key : Bytes
      pub started : start c version f ≡ ok run
      pub answered : register i w.register_response ≡ some id
      pub named : run.config.provider_id ≡ id
      pub announced : r.sent ≡ registration i (with_defaults i given) run.identity cap ∷ []
      pub fetched : fetch_coordinator_key i w.key_response ≡ some (i.encode_pem key)
      pub trusted : run.keys ≡ key ∷ []
      pub beats : (with_defaults i given).coordinator ≢ "" → is_some run.heartbeat ≡ true
      pub unasked : (run.coverage ≡ none) × (run.sweeper ≡ none) × (run.directory ≡ none)
