-- ===== src/Cmd/InitLaws.antt =====
-- What a run of Init leaves behind.
use obsideo_provider.Base.{
  ◌≡◌, ◌≢◌, ◌⊎◌, refl, ap, subst, sym, ◌∙◌, inl, inr, Option, some, [], ◌∷◌, String, true, false,
  ◌||◌, ◌&&◌, ap₂, arith, ok, err, is_some, Option-cases, Result-cases,
}
use obsideo_provider.Base.Int.{ℤ}
use obsideo_provider.Merkle.Codec.{Bytes}
use obsideo_provider.Identity.{Identity, contents, load_or_create}
use obsideo_provider.Cmd.Options.{InitOptions, InitCodec, with_defaults, check_options}
use obsideo_provider.Cmd.Init.{
  Files, Write, is_written, after_write, World, Inited, fetch_coordinator_key, probe, register,
  config_text, registration, finish_register, reach, identify, fetch_key_step, init,
}

-- Only a write that is complete reports so.
after_write-some {ℓ} :
    {A : Type ℓ} (write : Write A) (new : A) (old : Option A)
    → is_written write ≡ true
    → after_write write new old ≡ some new
after_write-some Write.complete new old h = refl
after_write-some Write.not_opened new old h = cc
after_write-some (Write.cut_short part) new old h = cc

module _ {F : Type 0} (c : InitCodec F) (w : World) (o : InitOptions) (cap : ℤ) where
  finish_register_lem :
      (ident : Identity) (files : Files)
      → (finish_register c w o cap ident files).result ≡ ok tt
      → (id : String) × (register c w.register_response ≡ some id)
        × ((finish_register c w o cap ident files).sent ≡ registration c o ident cap ∷ [])
        × ((finish_register c w o cap ident files).files
            ≡ record files { config = some (config_text c o w.last_date id cap) })
  unfolding finish_register
  finish_register_lem ident files h = elim (Option-cases (register c w.register_response)) [
    | inl refused ↦ absurd (ground (arith, refused, h))
    | inr (id, got) ↦
        let fine : is_written w.last_config ≡ true = ground (arith, got, h) in
        let full =
          after_write-some w.last_config (config_text c o w.last_date id cap) files.config fine in
        (
          id,
          got,
          rw (finish_register, got, fine) refl,
          rw (finish_register, got, fine) (ap (λ t. record files { config = t }) full),
        )
  ]

  reach_lem :
      (ident : Identity) (files : Files)
      → o.no_register ≡ false
      → (reach c w o cap ident files).result ≡ ok tt
      → ((o.skip_probe || probe c w.probe_response) ≡ true)
        × (reach c w o cap ident files ≡ finish_register c w o cap ident files)
  unfolding reach
  reach_lem ident files registers h = ground (arith, registers, h)

  identify_lem :
      (files : Files)
      → (identify c w o cap files).result ≡ ok tt
      → (ident : Identity) × ((load_or_create c.keys w.identity files.identity).0 ≡ ok ident)
        × (identify c w o cap files
            ≡ reach c w o cap ident (record files {
              identity = (load_or_create c.keys w.identity files.identity).1;
              config = some (config_text c o w.first_date "" cap);
            }))
  unfolding identify
  identify_lem files h = elim (Result-cases (load_or_create c.keys w.identity files.identity).0) [
    | inr (e, bad) ↦ absurd (ground (arith, bad, h))
    | inl (ident, good) ↦
        let fine : is_written w.first_config ≡ true = ground (arith, good, h) in
        let full =
          after_write-some w.first_config (config_text c o w.first_date "" cap) files.config fine in
        (ident, good, rw (identify, good, fine, full) refl)
  ]

  fetch_key_step_lem :
      (files : Files)
      → (fetch_key_step c w o cap files).result ≡ ok tt
      → (pem : Bytes) × (fetch_coordinator_key c w.key_response ≡ some pem)
        × (fetch_key_step c w o cap files
            ≡ identify c w o cap (record files { coordinator_key = some pem }))
  unfolding fetch_key_step
  fetch_key_step_lem files h = elim (Option-cases (fetch_coordinator_key c w.key_response)) [
    | inl refused ↦ absurd (ground (arith, refused, h))
    | inr (pem, got) ↦
        let fine : is_written w.writes_key ≡ true = ground (arith, got, h) in
        let full = after_write-some w.writes_key pem files.coordinator_key fine in
        let there : w.makes_data_dir ≡ true = ground (arith, got, fine, h) in
        (pem, got, rw (fetch_key_step, got, fine, there, full) refl)
  ]

module _ {F : Type 0} (c : InitCodec F) (w : World) (given : InitOptions) (files : Files) where
  -- What a registered node has on its disk, and what the coordinator was sent.
  pub record IsRegistered (r : Inited) : Type 0 where
    pub cap : ℤ
    pub pem : Bytes
    pub ident : Identity
    pub id : String
    pub checked : check_options c (with_defaults c given) (w.stats && is_some files.config) ≡ ok cap
    pub fetched : fetch_coordinator_key c w.key_response ≡ some pem
    pub key_there : r.files.coordinator_key ≡ some pem
    pub made : (load_or_create c.keys w.identity files.identity).0 ≡ ok ident
    pub identity_kept : r.files.identity ≡ (load_or_create c.keys w.identity files.identity).1
    pub probed : (given.skip_probe || probe c w.probe_response) ≡ true
    pub sent : r.sent ≡ registration c (with_defaults c given) ident cap ∷ []
    pub answered : register c w.register_response ≡ some id
    pub configured :
        r.files.config ≡ some (config_text c (with_defaults c given) w.last_date id cap)

  init_lem :
      (init c w given files).result ≡ ok tt
      → (cap : ℤ) × (check_options c (with_defaults c given) (w.stats && is_some files.config)
          ≡ ok cap)
        × (init c w given files ≡ fetch_key_step c w (with_defaults c given) cap files)
  unfolding init
  init_lem h =
      elim (Result-cases
        (check_options c (with_defaults c given) (w.stats && is_some files.config))) [
          | inr (e, bad) ↦ absurd (ground (arith, bad, h))
          | inl (cap, good) ↦ (cap, good, rw (init, good) refl)
        ]

  -- A run of Init that succeeds and is to register leaves the coordinator's key that it fetched, the
  -- identity, and a configuration with the id that the coordinator answered; it has sent exactly one
  -- registration, with the public key of that identity and the capacity offered, after the probe.
  pub init-IsRegistered :
      given.no_register ≡ false
      → (init c w given files).result ≡ ok tt
      → IsRegistered (init c w given files)
  unfolding with_defaults
  init-IsRegistered registers h =
      let o = with_defaults c given in
      let result = λ (r s : Inited) (e : r ≡ s) (k : r.result ≡ ok tt).
        subst (λ (x : Inited). x.result ≡ ok tt) e k in
      let (cap, checked, start) = init_lem h in
      let h1 = result _ _ start h in
      let (pem, fetched, keyed) = fetch_key_step_lem c w o cap files h1 in
      let h2 = result _ _ keyed h1 in
      let with_key : Files = record files { coordinator_key = some pem } in
      let (ident, made, identified) = identify_lem c w o cap with_key h2 in
      let h3 = result _ _ identified h2 in
      let with_config : Files = record with_key {
        identity = (load_or_create c.keys w.identity files.identity).1;
        config = some (config_text c o w.first_date "" cap);
      } in
      let (probed, reached) = reach_lem c w o cap ident with_config registers h3 in
      let h4 = result _ _ reached h3 in
      let (id, answered, sent, left) = finish_register_lem c w o cap ident with_config h4 in
      let whole = start ∙ keyed ∙ identified ∙ reached in
      rw whole (record {
        cap = cap;
        pem = pem;
        ident = ident;
        id = id;
        checked = checked;
        fetched = fetched;
        key_there = ap (λ f. f.coordinator_key) left;
        made = made;
        identity_kept = ap (λ f. f.identity) left;
        probed = probed;
        sent = sent;
        answered = answered;
        configured = ap (λ f. f.config) left;
      })

  -- A configuration that os.Stat finds is kept without force, and a key of the node always.
  pub record IsKept (r : Inited) : Type 0 where
    pub config_kept :
        w.stats ≡ true
        → is_some files.config ≡ true
        → given.force ≡ false
        → (r.files ≡ files) × (r.sent ≡ []) × (r.result ≢ ok tt)
    pub key_kept : (b : Bytes) → files.identity ≡ contents b → r.files.identity ≡ contents b

  check_options_forced :
      (o : InitOptions) (cap : ℤ) → o.force ≡ false → check_options c o true ≡ ok cap → ⊥
  unfolding check_options
  check_options_forced o cap lax h = ground (arith, lax, h)

  reach-identity :
      (o : InitOptions) (cap : ℤ) (ident : Identity) (f : Files)
      → (reach c w o cap ident f).files.identity ≡ f.identity
  unfolding reach finish_register
  reach-identity o cap ident f = ground arith

  fetch_key_step-identity :
      (o : InitOptions) (cap : ℤ)
      → ((fetch_key_step c w o cap files).files.identity ≡ files.identity)
        ⊎ ((fetch_key_step c w o cap files).files.identity
            ≡ (load_or_create c.keys w.identity files.identity).1)
  unfolding fetch_key_step identify
  fetch_key_step-identity o cap = grind (arith, reach-identity)

  load_or_create-kept : (b : Bytes) → (load_or_create c.keys w.identity (contents b)).1 ≡ contents b
  unfolding load_or_create
  load_or_create-kept b = ground arith

  -- An existing configuration that os.Stat finds is kept by a run without force, which then changes and
  -- sends nothing and does not succeed; and a key of the node that is there is kept by any run, whatever
  -- happens.
  pub init-IsKept : IsKept (init c w given files)
  unfolding init with_defaults load_or_create
  init-IsKept =
      let o = with_defaults c given in
      elim (Result-cases (check_options c o (w.stats && is_some files.config))) [
        | inr (e, bad) ↦
            let whole : init c w given files ≡ record { result = err e; files = files; sent = [] } =
              rw (init, bad) refl in
            rw whole (record {
              config_kept = λ told there lax. (refl, refl, λ h. cc h);
              key_kept = λ b h. h;
            })
        | inl (cap, good) ↦
            let whole : init c w given files ≡ fetch_key_step c w o cap files =
              rw (init, good) refl in
            rw whole (record {
              config_kept = λ told there lax. absurd (
                  check_options_forced o cap lax
                    (ap (check_options c o) (sym (ap₂ (λ a b. a && b) told there)) ∙ good));
              key_kept = λ b h. elim (fetch_key_step-identity o cap) [
                | inl same ↦ same ∙ h
                | inr loaded ↦
                    loaded
                    ∙ ap (λ k. (load_or_create c.keys w.identity k).1) h
                    ∙ load_or_create-kept b
              ];
            })
      ]
