-- ===== src/System/Reclaim.antt =====
-- The parts of the provider that bring in no bytes: deletions, sweeps, and the coverage refresh.
use obsideo_provider.Base.{
  ℕ, ◌≡◌, refl, sym, ap, ◌∙◌, Option-cases, ◌⊎◌, ◌<◌, ◌≤◌, arith, inl, inr, some, List, [], ◌∷◌,
  String, Bool, true, false, Result-cases, Bool-cases,
}
use obsideo_provider.Base.Time.{Time}
use obsideo_provider.Base.Dir.{lookup, has, names}
use obsideo_provider.Store.Disk.{Disk, ObjectFile}
use obsideo_provider.Store.Staging.{
  SweepFault, Swept, nothing_swept, is_temp_name, sweep_entry, sweep_loop, sweep_stale_object_temps,
}
use obsideo_provider.Store.StagingLaws.{sweep_entry_cases}
use obsideo_provider.Base.Int.{pos}
use obsideo_provider.Gc.Config.{Config, max_hours}
use obsideo_provider.Gc.Quarantine.{list_quarantined}
use obsideo_provider.Gc.Steps.{held}
use obsideo_provider.Gc.Safety.{AnyExpired, run_once-Expired}
use obsideo_provider.Gc.Sweeper.{World, Metrics, run_once}
use obsideo_provider.Gc.Relate.{IsOrder, Operations, run_once-Related}
use obsideo_provider.Coverage.Refresher.{Coordinator, refresh}
use obsideo_provider.Coverage.Relate.{refresh-Related}
use obsideo_provider.Api.Delete.{
  delete_command_nonce_ttl, DeleteCodec, Deletion, admit, finish_delete, handle_delete_signed,
}
use obsideo_provider.Api.Nonces.{check}
use obsideo_provider.System.Within.{
  Had, remove-subset, Within, Within-refl, Within-trans, update_coverage-Within,
  delete_coverage-Within, delete_index_and_ownership-Within, delete-Within, restore-Within,
  unlink-Within, move-Within,
}

Within-IsOrder : IsOrder Within
Within-IsOrder = record { refl = Within-refl; trans = Within-trans }

Within-Operations : (k : String) → Operations Within k
Within-Operations k = record {
  restores = λ succeeds disk. restore-Within succeeds k disk;
  unlinks = λ succeeds disk. unlink-Within succeeds k disk;
  moves = λ fault now disk. move-Within fault k now disk;
  updates = λ writes answer now disk. update_coverage-Within writes k answer now disk;
  deletes = λ removes disk. delete_coverage-Within removes k disk;
  cleans = λ removes disk. delete_index_and_ownership-Within removes k disk;
}

-- A sweep of the garbage collector brings in no bytes.
pub run_once-Within :
    (w : World) (cfg : Config) (disk : Disk) (metrics : Metrics)
    → Within (run_once w cfg disk metrics).1.disk disk
run_once-Within w cfg disk metrics =
    run_once-Related Within Within-IsOrder w cfg Within-Operations disk metrics

-- Something is under the name, and these are bytes that were under it before.
pub record IsHeldOn (m : String) (before after : Disk) : Type 0 where
  pub file : ObjectFile
  pub there : (lookup m after.objects ≡ some file) ⊎ (lookup m after.quarantine ≡ some file)
  pub had : Had m file before

held-file :
    (m : String) (disk : Disk)
    → held m disk ≡ true
    → (file : ObjectFile) × ((lookup m disk.objects ≡ some file)
        ⊎ (lookup m disk.quarantine ≡ some file))
held-file m disk h = elim (Option-cases (lookup m disk.objects)) [
  | inr (file, live) ↦ (file, inl live)
  | inl missing ↦ elim (Option-cases (lookup m disk.quarantine)) [
    | inr (file, kept) ↦ (file, inr kept)
    | inl none_there ↦ absurd (ground (arith, h, missing, none_there))
  ]
]

Within-IsHeldOn :
    (m : String) (before after : Disk)
    → Within after before
    → held m after ≡ true
    → IsHeldOn m before after
Within-IsHeldOn m before after within h =
    let (file, there) = held-file m after h in
    record {
      file = file;
      there = there;
      had = elim there [
        | inl live ↦ within.objects m file live
        | inr kept ↦ within.quarantine m file kept
      ];
    }

-- With a quarantine of h hours, 1 to 2562047: whatever fails in a sweep, a name with bytes, live or in
-- quarantine, has bytes after it that it had before, unless before it the bytes were in quarantine only,
-- under an entry at least h hours old, and the live recheck answered that they may be reclaimed.
pub run_once-KeptOrExpired :
    (w : World) (cfg : Config) (m : String) (h : ℕ)
    → cfg.quarantine_hours ≡ pos h
    → 0 < h
    → h ≤ max_hours
    → (disk : Disk) (metrics : Metrics) → held m disk ≡ true
    → IsHeldOn m disk (run_once w cfg disk metrics).1.disk
      ⊎ (AnyExpired w cfg m h (list_quarantined w.entry_stats disk) × (has m disk.objects ≡ false))
run_once-KeptOrExpired w cfg m h set_hours pos_hours fits disk metrics before =
    elim (Bool-cases (held m (run_once w cfg disk metrics).1.disk)) [
      | inl kept ↦ inl (Within-IsHeldOn m disk _ (run_once-Within w cfg disk metrics) kept)
      | inr lost ↦
          inr (run_once-Expired w cfg m h set_hours pos_hours fits disk metrics before lost)
    ]

-- A refresh of the coverage records brings in no bytes.
pub refresh-Within :
    (w : Coordinator) (size : ℕ) (disk : Disk) → Within (refresh w size disk).disk disk
refresh-Within w size disk =
    refresh-Related Within Within-IsOrder update_coverage-Within w size disk

-- A deletion brings in no bytes.
pub handle_delete_signed-Within :
    (c : DeleteCodec) (d : Deletion) (nonces : List (String × Time)) (disk : Disk)
    → Within (handle_delete_signed c d nonces disk).2 disk
unfolding handle_delete_signed finish_delete
handle_delete_signed-Within c d nonces disk = elim (Result-cases (admit c d disk)) [
  | inr (st, bad) ↦ rw (handle_delete_signed, bad) (Within-refl disk)
  | inl ((own, pl), fine) ↦
      elim (Bool-cases
        (check delete_command_nonce_ttl own.owner_sig_pubkey pl.nonce d.now nonces).0) [
          | inl seen ↦ rw (handle_delete_signed, fine, finish_delete, seen) (Within-refl disk)
          | inr new ↦
              rw (handle_delete_signed, fine, finish_delete, new)
                (delete-Within d.removes d.merkle disk)
        ]
]

sweep_loop-subset :
    {A : Type 0} (mtime_of : A → Time) (swept_name : String → Bool) (now : Time) (max_age : ℕ)
    (faults : String → SweepFault) (listed : List String) (k : String) (w : Swept)
    (dir : List (String × A)) (a : A)
    → lookup k (sweep_loop mtime_of swept_name faults now max_age listed w dir).1 ≡ some a
    → lookup k dir ≡ some a
unfolding sweep_loop
sweep_loop-subset mtime_of swept_name now max_age faults [] k w dir a e = e
sweep_loop-subset mtime_of swept_name now max_age faults (name ∷ rest) k w dir a e =
    let round = sweep_entry mtime_of swept_name (faults name) now max_age name w dir in
    let behind =
      sweep_loop-subset mtime_of swept_name now max_age faults rest k round.0 round.1 a e in
    elim (sweep_entry_cases mtime_of swept_name now max_age (faults name) name w dir) [
      | inl same ↦ sym (ap (lookup k) same) ∙ behind
      | inr (b, found, swept, old, removed) ↦
          remove-subset name k dir a (sym (ap (lookup k) removed) ∙ behind)
    ]

-- The sweep of temporary files brings in no bytes.
pub sweep_stale_object_temps-Within :
    (lists : Bool) (faults : String → SweepFault) (now : Time) (max_age : ℕ) (disk : Disk)
    → Within (sweep_stale_object_temps lists faults now max_age disk).1 disk
unfolding sweep_stale_object_temps
sweep_stale_object_temps-Within false faults now max_age disk = Within-refl disk
sweep_stale_object_temps-Within true faults now max_age disk = record {
  objects = λ k f e. (
    f,
    refl,
    inl (
        sweep_loop-subset (λ g. g.mtime) is_temp_name now max_age faults (names disk.objects) k
          nothing_swept disk.objects f e),
  );
  quarantine = λ k f e. (f, refl, inr e);
  index = λ k i e. e;
}
