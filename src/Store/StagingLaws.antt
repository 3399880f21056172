-- ===== src/Store/StagingLaws.antt =====
-- What the sweeps of staging/ and of temporary files remove, and what they leave.
use Prim.Native.String.{◌++◌}
use Prim.Native.String.append.{cons}
use text.Mathlib.TextEquality.{starts_with_iff}
use obsideo_provider.Base.{
  ℕ, ◌+◌, ◌≤◌, ◌<◌, ◌≡◌, refl, ap, inl, inr, none, some, List, [], ◌∷◌, String, Bool, true, false,
  arith, eq_iff, str_eq, ltb, Bool-cases, Option-cases, ◌∙◌, ◌⊎◌, sym, Option, if◌then◌else◌, ◌&&◌,
  leb,
}
use obsideo_provider.Base.Time.{Time}
use obsideo_provider.Base.Dir.{lookup, remove, lookup-remove, names}
use obsideo_provider.Store.Disk.{Disk, ObjectFile}
use obsideo_provider.Store.Objects.{is_hex_name}
use obsideo_provider.Store.Staging.{
  Staging, StagingDir, Swept, SweepFault, no_fault, stat_fails, remove_fails, sweep_entry,
  sweep_loop, sweep_stale_staging, sweep_stale_object_temps, is_temp_name, nothing_swept,
}

-- The name is one of these.
abbrev Among : String → List String → Type 0
Among k [] = ⊥
Among k (name ∷ rest) = (name ≡ k) ⊎ Among k rest

lookup-Among {ℓ} :
    {A : Type ℓ} (k : String) (dir : List (String × A))
    → (lookup k dir ≡ none) ⊎ Among k (names dir)
unfolding lookup
lookup-Among k [] = inl refl
lookup-Among k ((name, a) ∷ dir) = elim (Bool-cases (str_eq name k)) [
  | inl same ↦ inr (inl ((eq_iff name k).0 same))
  | inr other ↦ elim (lookup-Among k dir) [
    | inl missing ↦ inl (rw other missing)
    | inr there ↦ inr (inr there)
  ]
]

module _ {A : Type 0} (mtime_of : A → Time) (swept_name : String → Bool) (now : Time)
    (max_age : ℕ) where
  -- Not to be swept, by its name or by its age.
  abbrev Stays : String → A → Type 0
  Stays k a = (swept_name k ≡ false) ⊎ (now < mtime_of a + max_age)

  -- A round removes its own entry, which is old and has a swept name, or nothing.
  pub sweep_entry_cases :
      (fault : SweepFault) (name : String) (w : Swept) (dir : List (String × A))
      → ((sweep_entry mtime_of swept_name fault now max_age name w dir).1 ≡ dir)
        ⊎ ((a : A) × (lookup name dir ≡ some a)
            × (swept_name name ≡ true)
            × (mtime_of a + max_age ≤ now)
            × ((sweep_entry mtime_of swept_name fault now max_age name w dir).1 ≡ remove name dir))
  unfolding sweep_entry
  sweep_entry_cases stat_fails name w dir = inl (ground arith)
  sweep_entry_cases remove_fails name w dir = inl (ground arith)
  sweep_entry_cases no_fault name w dir = elim (Bool-cases (swept_name name)) [
    | inr other ↦ inl (ground arith)
    | inl swept ↦ elim (Option-cases (lookup name dir)) [
      | inl missing ↦ inl (ground arith)
      | inr (a, found) ↦ elim (Bool-cases (ltb now (mtime_of a + max_age))) [
        | inl young ↦ inl (rw (sweep_entry, swept, found, young) refl)
        | inr old ↦
            inr (a, found, swept, ground (arith, old), rw (sweep_entry, swept, found, old) refl)
      ]
    ]
  ]

  -- An entry that stays is kept by a round, and by the loop.
  sweep_entry-Stays :
      (fault : SweepFault) (name k : String) (w : Swept) (dir : List (String × A)) (a : A)
      → lookup k dir ≡ some a
      → Stays k a
      → lookup k (sweep_entry mtime_of swept_name fault now max_age name w dir).1 ≡ some a
  sweep_entry-Stays fault name k w dir a e stays = elim (sweep_entry_cases fault name w dir) [
    | inl same ↦ rw same e
    | inr (b, found, swept, old, removed) ↦ elim (Bool-cases (str_eq name k)) [
      | inr other ↦ rw removed (ground (arith, lookup-remove name k dir))
      | inl here ↦
          let there : name ≡ k = (eq_iff name k).0 here in
          let same : some b ≡ some a = sym found ∙ ap (λ n. lookup n dir) there ∙ e in
          let is_swept : swept_name k ≡ true = sym (ap swept_name there) ∙ swept in
          absurd (elim stays [ inl out ↦ cc | inr young ↦ ground (arith, same) ])
    ]
  ]

  sweep_loop-Stays :
      (faults : String → SweepFault) (listed : List String) (k : String) (w : Swept)
      (dir : List (String × A)) (a : A)
      → lookup k dir ≡ some a
      → Stays k a
      → lookup k (sweep_loop mtime_of swept_name faults now max_age listed w dir).1 ≡ some a
  unfolding sweep_loop
  sweep_loop-Stays faults [] k w dir a e stays = e
  sweep_loop-Stays faults (name ∷ rest) k w dir a e stays =
      sweep_loop-Stays faults rest k _ _ a (sweep_entry-Stays (faults name) name k w dir a e stays)
        stays

  -- What a sweep without faults leaves of an entry.
  abbrev pub remnant : String → Option A → Option A
  remnant k none = none
  remnant k (some a) = if swept_name k && leb (mtime_of a + max_age) now then none else some a

  remnant_twice : (k : String) (o : Option A) → remnant k (remnant k o) ≡ remnant k o
  remnant_twice k none = refl
  remnant_twice k (some a) = elim (Bool-cases (swept_name k && leb (mtime_of a + max_age) now)) [
    | inl gone ↦ rw gone refl
    | inr kept ↦ rw (kept, kept) refl
  ]

  sweep_entry_exact :
      (name k : String) (w : Swept) (dir : List (String × A))
      → lookup k (sweep_entry mtime_of swept_name no_fault now max_age name w dir).1
        ≡ (if str_eq name k then remnant k (lookup k dir) else lookup k dir)
  unfolding sweep_entry
  sweep_entry_exact name k w dir =
      let law = lookup-remove name k dir in
      elim (Bool-cases (str_eq name k)) [
        | inr other ↦ ground (arith, law)
        | inl here ↦
            let there : name ≡ k = (eq_iff name k).0 here in
            let found : lookup name dir ≡ lookup k dir = ap (λ n. lookup n dir) there in
            let swept : swept_name name ≡ swept_name k = ap swept_name there in
            ground (arith, law, found, swept)
      ]

  sweep_loop_exact :
      (listed : List String) (k : String) (w : Swept) (dir : List (String × A))
      → Among k listed ⊎ (remnant k (lookup k dir) ≡ lookup k dir)
      → lookup k (sweep_loop mtime_of swept_name (λ _. no_fault) now max_age listed w dir).1
        ≡ remnant k (lookup k dir)
  unfolding sweep_loop
  sweep_loop_exact [] k w dir h = elim h [ inl out ↦ absurd out | inr done ↦ sym done ]
  sweep_loop_exact (name ∷ rest) k w dir h =
      let round = sweep_entry mtime_of swept_name no_fault now max_age name w dir in
      elim (Bool-cases (str_eq name k)) [
        | inl here ↦
            let step : lookup k round.1 ≡ remnant k (lookup k dir) =
              ground (arith, sweep_entry_exact name k w dir, here) in
            let settled : remnant k (lookup k round.1) ≡ lookup k round.1 =
              rw step (remnant_twice k (lookup k dir)) in
            sweep_loop_exact rest k round.0 round.1 (inr settled) ∙ settled ∙ step
        | inr other ↦
            let step : lookup k round.1 ≡ lookup k dir =
              ground (arith, sweep_entry_exact name k w dir, other) in
            let still : Among k rest ⊎ (remnant k (lookup k round.1) ≡ lookup k round.1) = elim h [
              | inl (inl there) ↦ absurd (ground (arith, (eq_iff name k).1 there, other))
              | inl (inr behind) ↦ inl behind
              | inr done ↦ inr (rw step done)
            ] in
            sweep_loop_exact rest k round.0 round.1 still ∙ ap (remnant k) step
      ]

  sweep_all_exact :
      (k : String) (w : Swept) (dir : List (String × A))
      → lookup k (sweep_loop mtime_of swept_name (λ _. no_fault) now max_age (names dir) w dir).1
        ≡ remnant k (lookup k dir)
  sweep_all_exact k w dir =
      sweep_loop_exact (names dir) k w dir
        (elim (lookup-Among k dir) [ inl missing ↦ inr (rw missing refl) | inr there ↦ inl there ])

-- When no call fails, the sweep of staging/ removes exactly the directories with a hexadecimal name
-- that got no new file for the maximal age: any other stays as it is, and none is new.
pub sweep_stale_staging_exact :
    (now : Time) (max_age : ℕ) (staging : Staging) (k : String)
    → lookup k (sweep_stale_staging true (λ _. no_fault) now max_age staging).1
      ≡ remnant (λ d. d.mtime) is_hex_name now max_age k (lookup k staging)
unfolding sweep_stale_staging
sweep_stale_staging_exact now max_age staging k =
    sweep_all_exact (λ d. d.mtime) is_hex_name now max_age k nothing_swept staging

-- Whatever calls fail, an upload whose directory got a new file within the maximal age is kept.
pub sweep_stale_staging_keeps :
    (lists : Bool) (faults : String → SweepFault) (now : Time) (max_age : ℕ) (staging : Staging)
    (k : String) (dir : StagingDir)
    → lookup k staging ≡ some dir
    → now < dir.mtime + max_age
    → lookup k (sweep_stale_staging lists faults now max_age staging).1 ≡ some dir
unfolding sweep_stale_staging
sweep_stale_staging_keeps true faults now max_age staging k dir e young =
    sweep_loop-Stays (λ d. d.mtime) is_hex_name now max_age faults (names staging) k nothing_swept
      staging dir e (inr young)
sweep_stale_staging_keeps false faults now max_age staging k dir e young = e

-- A name is not that of an object and of a temporary file at once.
dot_is_no_hex : (s : String) → is_hex_name (String.◌∷◌ "." s) ≡ false
unfolding is_hex_name
dot_is_no_hex s = refl

temp_name_is_no_hex : (k : String) → is_hex_name k ≡ true → is_temp_name k ≡ false
temp_name_is_no_hex k h = elim (Bool-cases (is_temp_name k)) [
  | inr fine ↦ fine
  | inl temp ↦
      let (rest, split) = (starts_with_iff k ".tmp-stream-").0 temp in
      let dotted : k ≡ String.◌∷◌ "." ("tmp-stream-" ++ rest) =
        sym split ∙ (λ j. cons "." "tmp-stream-" rest j) in
      absurd (ground (arith, h, ap is_hex_name dotted, dot_is_no_hex ("tmp-stream-" ++ rest)))
]

-- The sweep of temporary files never touches an object: whatever calls fail, however old the file.
pub sweep_stale_object_temps_keeps :
    (lists : Bool) (faults : String → SweepFault) (now : Time) (max_age : ℕ) (disk : Disk)
    (k : String) (file : ObjectFile)
    → lookup k disk.objects ≡ some file
    → is_hex_name k ≡ true
    → lookup k (sweep_stale_object_temps lists faults now max_age disk).1.objects ≡ some file
unfolding sweep_stale_object_temps
sweep_stale_object_temps_keeps true faults now max_age disk k file e hex =
    sweep_loop-Stays (λ f. f.mtime) is_temp_name now max_age faults (names disk.objects) k
      nothing_swept disk.objects file e (inl (temp_name_is_no_hex k hex))
sweep_stale_object_temps_keeps false faults now max_age disk k file e hex = e
