-- ===== src/Config/Laws.antt =====
-- What config.Load makes of a file.
use obsideo_provider.Base.{
  ℕ, ◌<◌, ◌≡◌, ◌↔◌, ◌≢◌, ◌⊎◌, refl, sym, ap, subst, Option, some, String, true, false, arith, ok,
  inl, inr, Bool-cases, Option-cases, Result-cases,
}
use obsideo_provider.Base.Int.{ℤ, pos, negsuc}
use obsideo_provider.Gc.Config.{Config as GcConfig, or_default, apply_defaults, validate, positive}
use obsideo_provider.Config.{Config, defaults, fill_coverage, filled, finish_load, load}

-- The number read, or the default where that is zero.
abbrev pub IsOrDefault : ℤ → ℤ → ℤ → Type 0
IsOrDefault read default c = ((read ≡ pos 0) × (c ≡ default)) ⊎ ((read ≢ pos 0) × (c ≡ read))

IsOrDefault-or_default :
    (read default c : ℤ) → (or_default read default ≡ c) ↔ IsOrDefault read default c
IsOrDefault-or_default read default c = ground arith

-- The settings that the file gives, with the defaults for numbers that it leaves at zero.
pub record IsFilled (read c : Config) : Type 0 where
  pub provider_id : c.provider_id ≡ read.provider_id
  pub server : c.server ≡ read.server
  pub data_path : c.data_path ≡ read.data_path
  pub public_key_path : c.public_key_path ≡ read.public_key_path
  pub coordinator : c.coordinator ≡ read.coordinator
  pub accept : c.accept_uncontracted_data ≡ read.accept_uncontracted_data
  pub wallet : c.noble_wallet_address ≡ read.noble_wallet_address
  pub coverage_enabled : c.coverage.enabled ≡ read.coverage.enabled
  pub refresh :
      IsOrDefault read.coverage.refresh_interval_s (pos 86400) c.coverage.refresh_interval_s
  pub batch : IsOrDefault read.coverage.batch_size (pos 500) c.coverage.batch_size
  pub timeout : IsOrDefault read.coverage.request_timeout_s (pos 30) c.coverage.request_timeout_s
  pub gc_enabled : c.gc.enabled ≡ read.gc.enabled
  pub retention :
      IsOrDefault read.gc.retention_non_contracted_hours
        (pos 48)
        c.gc.retention_non_contracted_hours
  pub quarantine : IsOrDefault read.gc.quarantine_hours (pos 6) c.gc.quarantine_hours
  pub sweep : IsOrDefault read.gc.sweep_interval_hours (pos 6) c.gc.sweep_interval_hours

-- At least one hour.
abbrev pub IsHours : ℤ → Type 0
IsHours x = (n : ℕ) × (x ≡ pos n) × (0 < n)

-- The collector is off, or each of its intervals is at least one hour.
abbrev pub IsValidGc : GcConfig → Type 0
IsValidGc c =
    (c.enabled ≡ false)
    ⊎ (IsHours c.retention_non_contracted_hours
        × IsHours c.quarantine_hours
        × IsHours c.sweep_interval_hours)

positive-IsHours : (x : ℤ) → positive x ≡ true → IsHours x
positive-IsHours (pos n) h = (n, refl, ground arith)
positive-IsHours (negsuc n) h = cc

validate-IsValidGc : (c : GcConfig) (u : Unit {0}) → validate c ≡ ok u → IsValidGc c
unfolding validate
validate-IsValidGc c u h = elim (Bool-cases c.enabled) [
  | inr off ↦ inl off
  | inl on ↦ inr (
    positive-IsHours _ (ground (arith, on)),
    positive-IsHours _ (ground (arith, on)),
    positive-IsHours _ (ground (arith, on)),
  )
]

IsValidGc-validate : (c : GcConfig) → IsValidGc c → validate c ≡ ok tt
unfolding validate
IsValidGc-validate c (inl off) = ground (arith, off)
IsValidGc-validate c (inr ((r, a, p), (q, b, o), (s, d, m))) = rw (a, b, d) (ground (arith))

filled-IsFilled : (read : Config) → IsFilled read (filled read)
unfolding fill_coverage apply_defaults
filled-IsFilled read =
    let choose = λ (x d : ℤ). (IsOrDefault-or_default x d (or_default x d)).0 refl in
    record {
      provider_id = refl;
      server = refl;
      data_path = refl;
      public_key_path = refl;
      coordinator = refl;
      accept = refl;
      wallet = refl;
      coverage_enabled = refl;
      refresh = choose _ _;
      batch = choose _ _;
      timeout = choose _ _;
      gc_enabled = refl;
      retention = choose _ _;
      quarantine = choose _ _;
      sweep = choose _ _;
    }

IsFilled-filled : (read c : Config) → IsFilled read c → filled read ≡ c
unfolding fill_coverage apply_defaults
IsFilled-filled read c fill =
    let number = λ (x d y : ℤ) (h : IsOrDefault x d y). (IsOrDefault-or_default x d y).1 h in
    cc (
      number _ _ _ fill.refresh,
      number _ _ _ fill.batch,
      number _ _ _ fill.timeout,
      number _ _ _ fill.retention,
      number _ _ _ fill.quarantine,
      number _ _ _ fill.sweep,
      fill.provider_id,
      fill.server,
      fill.data_path,
      fill.public_key_path,
      fill.coordinator,
      fill.accept,
      fill.wallet,
      fill.coverage_enabled,
      fill.gc_enabled,
    )

-- From a file that can be read, Load gives a configuration exactly if it decodes and the collector is off
-- or has intervals of at least one hour, and then it is the one that the file describes: what it sets, and
-- the defaults for each number of the coverage and collector settings that it leaves at zero.
pub load-IsFilled :
    (unmarshal : String → Config → Option Config) (text : String) (c : Config)
    → (load unmarshal (some text) ≡ ok c)
      ↔ ((read : Config) × (unmarshal text defaults ≡ some read) × IsFilled read c × IsValidGc c.gc)
unfolding load finish_load
load-IsFilled unmarshal text c = (
  λ h. elim (Option-cases (unmarshal text defaults)) [
    | inl bad ↦ absurd (ground (arith, bad, h))
    | inr (read, good) ↦
        let finished : finish_load read ≡ ok c = ground (arith, good, h) in
        elim (Result-cases (validate (apply_defaults read.gc))) [
          | inr (e, bad) ↦ absurd (ground (arith, bad, finished))
          | inl (u, fine) ↦
              let same : filled read ≡ c = ground (arith, fine, finished) in
              let valid = validate-IsValidGc (apply_defaults read.gc) u fine in
              (
                read,
                good,
                subst (IsFilled read) same (filled-IsFilled read),
                subst (λ x. IsValidGc x.gc) same valid,
              )
        ]
  ],
  λ h.
      let (read, good, fill, valid) = h in
      let same : filled read ≡ c = IsFilled-filled read c fill in
      let fine : validate (apply_defaults read.gc) ≡ ok tt =
        IsValidGc-validate _ (subst (λ x. IsValidGc x.gc) (sym same) valid) in
      rw (load, good, finish_load, fine) (ap ok same),
)
