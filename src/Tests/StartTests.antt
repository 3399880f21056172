-- ===== src/Tests/StartTests.antt =====
-- A node that is set up with Init, and started.
use obsideo_provider.Base.{
  ℕ, ◌≡◌, ◌↔◌, refl, Option, none, some, [], ◌∷◌, String, true, false, replicate, ok,
}
use obsideo_provider.Base.Int.{pos}
use obsideo_provider.Merkle.Codec.{Bytes}
use obsideo_provider.Config.{Config, defaults, load, finish_load, fill_coverage}
use obsideo_provider.Gc.Config.{apply_defaults, validate}
use obsideo_provider.Config.Laws.{IsFilled, IsValidGc, load-IsFilled}
use obsideo_provider.Api.Tokens.{new_verifier}
use obsideo_provider.Identity.{absent, contents, load_or_create, parse_identity}
use obsideo_provider.Pause.State as Pause
use obsideo_provider.Cmd.Capacity.{CapacityCodec}
use obsideo_provider.Cmd.Options.{InitOptions, InitCodec, with_defaults}
use obsideo_provider.Cmd.Init.{Files, World, Write, init, config_text}
use obsideo_provider.Cmd.InitLaws.{IsKept, init-IsKept}
use obsideo_provider.Cmd.Start.{
  StartCodec, Found, Running, start, running, start_loops, sweeper_loop,
}
use obsideo_provider.Cmd.StartLaws.{IsStarted, start-IsStarted}
use obsideo_provider.Tests.CmdTests.{keys, attempt, ident}

-- Every number is 8.
abbrev numbers : CapacityCodec ℕ
numbers = record {
  trim_space = λ s. s;
  to_upper = λ s. s;
  parse_float = λ s. some 8;
  at_most_zero = λ n. false;
  times = λ n m. n;
  to_int64 = λ n. pos n;
  parse_int = λ s. some (pos 8);
}

abbrev init_codec : InitCodec ℕ
init_codec = record {
  numbers = numbers;
  keys = keys;
  trim_right = λ s. s;
  parse_url = λ s. some (record { scheme = "https"; host = "a.example"; hostname = "a.example" });
  is_loopback_ip = λ s. false;
  decode_pem = λ b. some ("PUBLIC KEY", b);
  encode_pem = λ b. b;
  unmarshal_registered = λ s. some s;
  key_path_beside = λ s. "coordinator_pub.pem";
  print = record {
    quote = λ s. s;
    itoa = λ n. "8";
    float = λ n. 8;
    below_1000 = λ n. true;
    over_1000 = λ n. n;
    format_float = λ n. "8.0";
  };
}

abbrev options : InitOptions
options = record {
  address = "https://a.example";
  coordinator = "https://c.example";
  config_path = "";
  data_path = "";
  port = pos 0;
  capacity = "8TB";
  noble_wallet = "";
  skip_probe = true;
  no_register = false;
  force = false;
  version = "v1";
}

abbrev files : Files
files = record { coordinator_key = none; identity = absent; config = none }

abbrev coordinator_key : Bytes
coordinator_key = replicate 32 1

abbrev world : World
world = record {
  stats = true;
  key_response = some (200, some coordinator_key);
  probe_response = none;
  register_response = some (201, "node-1");
  writes_key = Write.complete;
  makes_data_dir = true;
  identity = attempt;
  first_config = Write.complete;
  listens = true;
  last_config = Write.complete;
  first_date = "2026-01-01";
  last_date = "2026-01-01";
}

-- Any text reads as the configuration of node-1.
abbrev read : String → Config → Option Config
read t base = some (record defaults {
  provider_id = "node-1";
  server = record (defaults.server) { port = pos 3334 };
  data_path = "./data";
  public_key_path = "coordinator_pub.pem";
  coordinator = record { url = "https://c.example"; provider_api_key = "" };
  coverage = record (defaults.coverage) { enabled = true };
})

abbrev start_codec : StartCodec
start_codec = record {
  unmarshal = read;
  trim_right = λ s. s;
  decode_pem = λ b. some b;
  decode_cold_key = λ s. none;
  pause = record {
    decode_base64 = λ _. none;
    verify = λ _ _ _. false;
    unmarshal_signal = λ _. none;
    parse_nano = λ _. none;
    parse_plain = λ _. none;
  };
  keys = keys;
}

abbrev found : Found
found = record {
  config_file =
      some (
        config_text init_codec (with_defaults init_codec options) world.last_date "node-1" (pos 8));
  store_opens = true;
  public_key_file = some coordinator_key;
  cold_key = "";
  pause_dir = record { current = none; sequence = Pause.SequenceFile.missing; rejected = [] };
  sets_aside = true;
  identity = attempt;
  identity_file = contents (7 ∷ []);
  quarantine_opens = true;
}

abbrev pause : Pause.State
pause = record { cold_key = none; last_seq = pos 0; active = none; dir = found.pause_dir }

abbrev settings : Config
settings = record defaults {
  provider_id = "node-1";
  server = record (defaults.server) { port = pos 3334 };
  public_key_path = "coordinator_pub.pem";
  coordinator = record { url = "https://c.example"; provider_api_key = "" };
  coverage = record (defaults.coverage) { enabled = true };
  gc = record {
    enabled = false;
    retention_non_contracted_hours = pos 48;
    quarantine_hours = pos 6;
    sweep_interval_hours = pos 6;
  };
}

load-IsFilled_example : (load read (some "node-1") ≡ ok settings) ↔ (
    (from : Config) × (read "node-1" defaults ≡ some from)
    × IsFilled from settings
    × IsValidGc settings.gc)
load-IsFilled_example = load-IsFilled read "node-1" settings

abbrev run : Running
run = running start_codec "v1" settings (coordinator_key ∷ []) pause ident none

starts_up : start start_codec "v1" found ≡ ok run
unfolding start start_loops sweeper_loop load finish_load fill_coverage apply_defaults validate
    new_verifier load_or_create parse_identity Pause.parse_cold_key Pause.load
    Pause.read_last_sequence
starts_up = refl

start-IsStarted_example : IsStarted start_codec "v1" found run
start-IsStarted_example = start-IsStarted start_codec "v1" found run starts_up

abbrev set_up : Files
set_up = record { coordinator_key = none; identity = contents (9 ∷ []); config = some "mine" }

init-IsKept_example : IsKept init_codec world options set_up (init init_codec world options set_up)
init-IsKept_example = init-IsKept init_codec world options set_up
