-- ===== src/Cmd/StartLaws.antt =====
-- Which parts of the provider run after Start, and what each needs.
use obsideo_provider.Base.{
  ◌≡◌, ◌≢◌, ◌↔◌, refl, ap, subst, inl, inr, Option, none, some, List, [], ◌∷◌, String, Bool, true,
  not, arith, str_eq, eq_iff, length, ==_iff, Result, ok, err, is_some, Option-cases, Result-cases,
}
use obsideo_provider.Merkle.Codec.{Bytes}
use obsideo_provider.Config.{Config, load, defaults}
use obsideo_provider.Config.Laws.{IsFilled, IsValidGc, IsHours, load-IsFilled}
use obsideo_provider.Api.Tokens.{new_verifier, or_error, seed_key, public_key_size}
use obsideo_provider.Pause.State as Pause
use obsideo_provider.Identity.{Identity, load_or_create}
use obsideo_provider.Directory.Refresh.{new_refresher}
use obsideo_provider.Cmd.Start.{
  StartCodec, Found, StartError, wrap, Running, SweeperLoop, is_connected, heartbeat_loop,
  coverage_loop, sweeper_loop, directory_loop, start_loops, running, start,
}

-- The address of the coordinator and the key for it are set.
abbrev pub IsConnected : Config → Type 0
IsConnected c = (c.coordinator.url ≢ "") × (c.coordinator.provider_api_key ≢ "")

filled : (s : String) → (not (str_eq s "") ≡ true) ↔ (s ≢ "")
filled s = ground (arith, eq_iff s "")

is_connected-IsConnected : (c : Config) → (is_connected c ≡ true) ↔ IsConnected c
is_connected-IsConnected c =
    ground (arith, eq_iff c.coordinator.url "", eq_iff c.coordinator.provider_api_key "")

-- The key of the verifier is one of 32 bytes.
new_verifier_lem :
    (decode_pem : Bytes → Option Bytes) (file : Option Bytes) (keys : List Bytes)
    → new_verifier decode_pem file ≡ ok keys
    → (key : Bytes) × (keys ≡ key ∷ []) × (length key ≡ public_key_size)
unfolding new_verifier
new_verifier_lem decode_pem none keys h = cc
new_verifier_lem decode_pem (some content) keys h = elim (Option-cases (decode_pem content)) [
  | inl bad ↦ absurd (ground (arith, bad, h))
  | inr (key, good) ↦ (key, ground (arith, good, h), (==_iff _ _).0 (ground (arith, good, h)))
]

wrap-ok {ℓ} :
    {E : Type 0} {A : Type ℓ} (f : E → StartError) (r : Result E A) (a : A)
    → wrap f r ≡ ok a
    → r ≡ ok a
wrap-ok f (ok b) a h = cc
wrap-ok f (err e) a h = cc

or_error-ok {ℓ} :
    {E : Type 0} {A : Type ℓ} (o : Option A) (e : E) (a : A) → or_error o e ≡ ok a → o ≡ some a
or_error-ok none e a h = cc
or_error-ok (some b) e a h = cc

module _ (c : StartCodec) (version : String) where
  pub heartbeat_loop-runs :
      (cfg : Config) (ident : Identity)
      → (is_some (heartbeat_loop c version cfg ident) ≡ true)
        ↔ ((cfg.provider_id ≢ "") × (cfg.coordinator.url ≢ ""))
  unfolding heartbeat_loop
  heartbeat_loop-runs cfg ident =
      ground (arith, eq_iff cfg.provider_id "", eq_iff cfg.coordinator.url "")

  coverage_loop-runs :
      (cfg : Config)
      → (is_some (coverage_loop c version cfg) ≡ true)
        ↔ ((cfg.coverage.enabled ≡ true) × IsConnected cfg)
  unfolding coverage_loop
  coverage_loop-runs cfg =
      ground (arith, eq_iff cfg.coordinator.url "", eq_iff cfg.coordinator.provider_api_key "")

  sweeper_loop-runs :
      (opens : Bool) (cfg : Config) (s : Option SweeperLoop)
      → sweeper_loop c version opens cfg ≡ ok s
      → ((is_some s ≡ true) ↔ ((cfg.gc.enabled ≡ true) × IsConnected cfg))
        × ((loop : SweeperLoop) → s ≡ some loop → loop.config ≡ cfg.gc)
  unfolding sweeper_loop
  sweeper_loop-runs opens cfg s h =
      let url = eq_iff cfg.coordinator.url "" in
      let key = eq_iff cfg.coordinator.provider_api_key "" in
      (ground (arith, url, key, h), λ loop e. ground (arith, h, e))

  directory_loop-runs :
      (cfg : Config) (key : Bytes)
      → length key ≡ public_key_size
      → (is_some (directory_loop c version cfg (key ∷ [])) ≡ true) ↔ IsConnected cfg
  unfolding directory_loop new_refresher seed_key
  directory_loop-runs cfg key size = ground (
    arith,
    (==_iff (length key) public_key_size).1 size,
    eq_iff cfg.coordinator.url "",
    eq_iff cfg.coordinator.provider_api_key "",
  )

  -- What runs, and what it was set up from.
  pub record IsStarted (f : Found) (r : Running) : Type 0 where
    pub text : String
    pub read : Config
    pub key : Bytes
    pub cold_key : Option Bytes
    pub config_file : f.config_file ≡ some text
    pub decoded : c.unmarshal text defaults ≡ some read
    pub configured : IsFilled read r.config
    pub valid_gc : IsValidGc r.config.gc
    pub keyed : (r.keys ≡ key ∷ []) × (length key ≡ public_key_size)
    pub cold : Pause.parse_cold_key c.decode_cold_key f.cold_key ≡ some cold_key
    pub paused : Pause.load c.pause f.sets_aside f.pause_dir cold_key ≡ ok r.pause
    pub identified : (load_or_create c.keys f.identity f.identity_file).0 ≡ ok r.identity
    pub heartbeat :
        (is_some r.heartbeat ≡ true)
        ↔ ((r.config.provider_id ≢ "") × (r.config.coordinator.url ≢ ""))
    pub coverage :
        (is_some r.coverage ≡ true) ↔ ((r.config.coverage.enabled ≡ true) × IsConnected r.config)
    pub sweeper : (is_some r.sweeper ≡ true) ↔ ((r.config.gc.enabled ≡ true) × IsConnected r.config)
    pub sweeps :
        (loop : SweeperLoop)
        → r.sweeper ≡ some loop
        → IsHours loop.config.retention_non_contracted_hours
          × IsHours loop.config.quarantine_hours
          × IsHours loop.config.sweep_interval_hours
    pub directory : (is_some r.directory ≡ true) ↔ IsConnected r.config

  -- The hours of a sweeper that runs.
  sweeps_lem :
      (opens : Bool) (cfg : Config) (s : Option SweeperLoop)
      → sweeper_loop c version opens cfg ≡ ok s
      → IsValidGc cfg.gc
      → (loop : SweeperLoop) → s ≡ some loop
      → IsHours loop.config.retention_non_contracted_hours
        × IsHours loop.config.quarantine_hours
        × IsHours loop.config.sweep_interval_hours
  sweeps_lem opens cfg s h valid loop e =
      let (runs, same) = sweeper_loop-runs opens cfg s h in
      let (on, connected) = runs.0 (ap (λ (o : Option SweeperLoop). is_some o) e) in
      elim valid [ inl off ↦ cc | inr hours ↦ rw (same loop e) hours ]

  loaded_lem :
      (file : Option String) (cfg : Config)
      → load c.unmarshal file ≡ ok cfg
      → (text : String) × (read : Config) × (file ≡ some text)
        × (c.unmarshal text defaults ≡ some read)
        × IsFilled read cfg
        × IsValidGc cfg.gc
  unfolding load
  loaded_lem none cfg h = absurd (ground (arith, h))
  loaded_lem (some text) cfg h =
      let (read, decoded, filled, valid) = (load-IsFilled c.unmarshal text cfg).0 h in
      (text, read, refl, decoded, filled, valid)

  -- The results of the steps of a start that succeeds.
  record Steps (f : Found) (r : Running) : Type 0 where
    cfg : Config
    keys : List Bytes
    cold_key : Option Bytes
    pause : Pause.State
    ident : Identity
    loaded : load c.unmarshal f.config_file ≡ ok cfg
    verified : new_verifier c.decode_pem f.public_key_file ≡ ok keys
    cold : Pause.parse_cold_key c.decode_cold_key f.cold_key ≡ some cold_key
    paused : Pause.load c.pause f.sets_aside f.pause_dir cold_key ≡ ok pause
    made : (load_or_create c.keys f.identity f.identity_file).0 ≡ ok ident
    runs : start_loops c version f cfg keys pause ident ≡ ok r

  start-Steps : (f : Found) (r : Running) → start c version f ≡ ok r → Steps f r
  unfolding start
  start-Steps f r h = elim (Result-cases (load c.unmarshal f.config_file)) [
    | inr (e, bad) ↦ absurd (ground (arith, bad, h))
    | inl (cfg, e1) ↦ elim (Result-cases (new_verifier c.decode_pem f.public_key_file)) [
      | inr (e, bad) ↦ absurd (ground (arith, e1, bad, h))
      | inl (keys, e2) ↦ elim (Option-cases (Pause.parse_cold_key c.decode_cold_key f.cold_key)) [
        | inl bad ↦ absurd (ground (arith, e1, e2, bad, h))
        | inr (cold_key, e3) ↦
            elim (Result-cases (Pause.load c.pause f.sets_aside f.pause_dir cold_key)) [
              | inr (e, bad) ↦ absurd (ground (arith, e1, e2, e3, bad, h))
              | inl (pause, e4) ↦
                  elim (Result-cases (load_or_create c.keys f.identity f.identity_file).0) [
                    | inr (e, bad) ↦ absurd (ground (arith, e1, e2, e3, e4, bad, h))
                    | inl (ident, e5) ↦ record {
                      cfg = cfg;
                      keys = keys;
                      cold_key = cold_key;
                      pause = pause;
                      ident = ident;
                      loaded = e1;
                      verified = e2;
                      cold = e3;
                      paused = e4;
                      made = e5;
                      runs = ground (arith, e1, e2, e3, e4, e5, h);
                    }
                  ]
            ]
      ]
    ]
  ]

  running-IsStarted :
      (f : Found) (r : Running) (st : Steps f r) (sweeper : Option SweeperLoop)
      → sweeper_loop c version f.quarantine_opens st.cfg ≡ ok sweeper
      → IsStarted f (running c version st.cfg st.keys st.pause st.ident sweeper)
  running-IsStarted f r st sweeper fine =
      let (text, read, there, decoded, filled, valid) = loaded_lem f.config_file st.cfg st.loaded in
      let (key, only, size) = new_verifier_lem c.decode_pem f.public_key_file st.keys st.verified in
      record {
        text = text;
        read = read;
        key = key;
        cold_key = st.cold_key;
        config_file = there;
        decoded = decoded;
        configured = filled;
        valid_gc = valid;
        keyed = (only, size);
        cold = st.cold;
        paused = st.paused;
        identified = st.made;
        heartbeat = heartbeat_loop-runs st.cfg st.ident;
        coverage = coverage_loop-runs st.cfg;
        sweeper = (sweeper_loop-runs f.quarantine_opens st.cfg sweeper fine).0;
        sweeps = sweeps_lem f.quarantine_opens st.cfg sweeper fine valid;
        directory = rw only (directory_loop-runs st.cfg key size);
      }

  -- A start that succeeds has read a configuration, a verifying key of 32 bytes, a well-formed cold key, the
  -- pause state and the identity; each loop runs exactly under its conditions, and one that sweeps has
  -- intervals of at least one hour.
  pub start-IsStarted : (f : Found) (r : Running) → start c version f ≡ ok r → IsStarted f r
  unfolding start_loops
  start-IsStarted f r h =
      let st = start-Steps f r h in
      elim (Result-cases (sweeper_loop c version f.quarantine_opens st.cfg)) [
        | inr (e, bad) ↦ absurd (ground (arith, bad, st.runs))
        | inl (sweeper, fine) ↦
            let same : running c version st.cfg st.keys st.pause st.ident sweeper ≡ r =
              ground (arith, fine, st.runs) in
            subst (IsStarted f) same (running-IsStarted f r st sweeper fine)
      ]
