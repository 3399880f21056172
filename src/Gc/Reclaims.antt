-- ===== src/Gc/Reclaims.antt =====
-- The first loop of a sweep of gc/sweeper.go, and two whole sweeps, for an object that is released.
use obsideo_provider.Base.{
  ◌≡◌, ◌⊎◌, refl, sym, ap, subst, ◌∙◌, inl, inr, none, some, List, [], ◌∷◌, String, Bool, true,
  false, arith, str_eq, eq_iff, ok, Bool-cases,
}
use obsideo_provider.Base.Time.{Time, shorter, sub}
use obsideo_provider.Base.Dir.{lookup, remove, lookup-remove}
use obsideo_provider.Store.Disk.{Disk, Coverage, ObjectFile}
use obsideo_provider.Store.Records.{delete_coverage, delete_index_and_ownership}
use obsideo_provider.Store.Objects.{is_hex_name, list}
use obsideo_provider.Gc.Config.{Config, quarantine}
use obsideo_provider.Gc.Recheck.{reclaimable}
use obsideo_provider.Gc.Quarantine.{
  QuarantineEntry, entries_of, list_quarantined, restore_from_quarantine, unlink_from_quarantine,
}
use obsideo_provider.Gc.Sweeper.{
  Phase, World, Sweep, Metrics, process_entry, restore_entry, unlink_entry, see_entry,
  sweep_entries, sweep_roots, finish_sweep, scan_roots, start_sweep, run_phases, run_once,
  scan_quarantine, count_candidates,
}
use obsideo_provider.Gc.Steps.{held, delete_coverage-SameObjects}
use obsideo_provider.Gc.Others.{
  SameAt, entries_of-NoEntry, process_entry-other, sweep_entries-other,
}
use obsideo_provider.Gc.Liveness.{
  IsLive, IsHeld, IsGone, Moves, SameAt-IsLive, SameAt-IsHeld, SameAt-IsGone,
  sweep_roots-absent_same, sweep_roots-IsHeld, keep_hex-Among, lookup-Among,
}

-- The first entry with the name was quarantined at the instant.
abbrev FirstIs : String → Time → List QuarantineEntry → Type 0
FirstIs m since [] = ⊥
FirstIs m since (e ∷ es) =
    ((e.merkle_hex ≡ m) × (e.quarantined_at ≡ since))
    ⊎ ((str_eq e.merkle_hex m ≡ false) × FirstIs m since es)

entries_of-FirstIs :
    (m : String) (stats : String → Bool) (files : List (String × ObjectFile)) (f : ObjectFile)
    → is_hex_name m ≡ true
    → stats m ≡ true
    → lookup m files ≡ some f
    → FirstIs m f.mtime (entries_of stats files)
unfolding entries_of lookup
entries_of-FirstIs m stats [] f hex read e = cc
entries_of-FirstIs m stats ((name, g) ∷ files) f hex read e = elim (Bool-cases (str_eq name m)) [
  | inl here ↦
      let same : name ≡ m = (eq_iff name m).0 here in
      let first : some g ≡ some f = ground (arith, e, here) in
      rw (entries_of, ap is_hex_name same ∙ hex, ap stats same ∙ read) (inl (same, cc))
  | inr other ↦
      let behind = entries_of-FirstIs m stats files f hex read (ground (arith, e, other)) in
      elim (Bool-cases (is_hex_name name)) [
        | inr left ↦ rw (entries_of, left) behind
        | inl kept ↦ elim (Bool-cases (stats name)) [
          | inr unread ↦ rw (entries_of, kept, unread) behind
          | inl seen ↦ rw (entries_of, kept, seen) (inr (other, behind))
        ]
      ]
]

module _ (w : World) (cfg : Config) (m : String) where
  -- The conditions under which a quarantined object is unlinked.
  pub record Unlinks (since : Time) : Type 0 where
    pub hex : is_hex_name m ≡ true
    pub read : w.entry_stats m ≡ true
    pub waited : shorter (sub w.now since) (quarantine cfg) ≡ false
    pub released : w.recheck scan_quarantine m ≡ reclaimable
    pub unlinked : w.unlinks m ≡ true

  process_entry-Unlinks :
      (since : Time) (e : QuarantineEntry) (s : Sweep)
      → Unlinks since
      → e.merkle_hex ≡ m
      → e.quarantined_at ≡ since
      → IsHeld m since s.disk
      → IsGone m (process_entry w cfg e s).disk
  unfolding process_entry unlink_entry unlink_from_quarantine delete_index_and_ownership
  process_entry-Unlinks since e s hyp name at held =
      let k = e.merkle_hex in
      let waited : shorter (sub w.now e.quarantined_at) (quarantine cfg) ≡ false =
        ap (λ t. shorter (sub w.now t) (quarantine cfg)) at ∙ hyp.waited in
      let answered : w.recheck scan_quarantine k ≡ reclaimable =
        ap (w.recheck scan_quarantine) name ∙ hyp.released in
      let can : w.unlinks k ≡ true = ap w.unlinks name ∙ hyp.unlinked in
      let there = ap (λ n. lookup n s.disk.quarantine) name ∙ held.there in
      let without : Disk = record (s.disk) { quarantine = remove k s.disk.quarantine } in
      let cleaned = delete_index_and_ownership (w.removes k) k without in
      let unlink : unlink_from_quarantine (w.unlinks k) k s.disk ≡ (ok tt, without) =
        rw (unlink_from_quarantine, there, can) refl in
      let one : (process_entry w cfg e s).disk ≡ (unlink_entry w cfg e (see_entry w cfg e s)).disk =
        rw (process_entry, answered, waited) refl in
      let two : (unlink_entry w cfg e (see_entry w cfg e s)).disk
          ≡ (delete_coverage (w.coverage_removes k) k cleaned).1 =
        rw (unlink_entry, ap (λ r. r.0) unlink)
          (ap
            (λ d.
              (delete_coverage (w.coverage_removes k) k
                (delete_index_and_ownership (w.removes k) k d)).1)
            (ap (λ r. r.1) unlink)) in
      let same = delete_coverage-SameObjects (w.coverage_removes k) k cleaned in
      let here : str_eq k m ≡ true = (eq_iff k m).1 name in
      let none_left : lookup m (remove k s.disk.quarantine) ≡ none =
        ground (arith, lookup-remove k m s.disk.quarantine, here) in
      rw (one ∙ two) (record {
        no_object = ap (lookup m) same.objects ∙ held.no_object;
        no_quarantine = ap (lookup m) same.quarantine ∙ none_left;
      })

  -- Once it has gone, no entry brings it back.
  process_entry-absent :
      (e : QuarantineEntry) (s : Sweep)
      → lookup e.merkle_hex s.disk.quarantine ≡ none
      → (process_entry w cfg e s).disk ≡ s.disk
  unfolding process_entry restore_entry unlink_entry restore_from_quarantine unlink_from_quarantine
  process_entry-absent e s nothing = ground (arith, nothing)

  process_entry-IsGone :
      (e : QuarantineEntry) (s : Sweep) → IsGone m s.disk → IsGone m (process_entry w cfg e s).disk
  process_entry-IsGone e s gone = elim (Bool-cases (str_eq e.merkle_hex m)) [
    | inr other ↦ SameAt-IsGone w cfg m _ _ (process_entry-other w cfg m e s other) gone
    | inl here ↦
        let nothing =
          ap (λ n. lookup n s.disk.quarantine) ((eq_iff e.merkle_hex m).0 here)
          ∙ gone.no_quarantine in
        rw (process_entry-absent e s nothing) gone
  ]

  module _ (uncancelled : (phase : Phase) (k : String) → w.cancelled phase k ≡ false) where
    sweep_entries-IsGone :
        (es : List QuarantineEntry) (s : Sweep)
        → IsGone m s.disk
        → IsGone m (sweep_entries w cfg es s).0.disk
    unfolding sweep_entries
    sweep_entries-IsGone [] s gone = gone
    sweep_entries-IsGone (e ∷ es) s gone =
        rw (sweep_entries, uncancelled scan_quarantine e.merkle_hex)
          (sweep_entries-IsGone es (process_entry w cfg e s) (process_entry-IsGone e s gone))

    sweep_entries-Unlinks :
        (since : Time) (es : List QuarantineEntry) (s : Sweep)
        → Unlinks since
        → FirstIs m since es
        → IsHeld m since s.disk
        → IsGone m (sweep_entries w cfg es s).0.disk
    unfolding sweep_entries
    sweep_entries-Unlinks since [] s hyp out held = absurd out
    sweep_entries-Unlinks since (e ∷ es) s hyp (inl (name, at)) held =
        rw (sweep_entries, uncancelled scan_quarantine e.merkle_hex)
          (sweep_entries-IsGone es (process_entry w cfg e s)
            (process_entry-Unlinks since e s hyp name at held))
    sweep_entries-Unlinks since (e ∷ es) s hyp (inr (other, behind)) held =
        rw (sweep_entries, uncancelled scan_quarantine e.merkle_hex)
          (sweep_entries-Unlinks since es (process_entry w cfg e s) hyp behind
            (SameAt-IsHeld w cfg m since _ _ (process_entry-other w cfg m e s other) held))

    sweep_entries-completes :
        (es : List QuarantineEntry) (s : Sweep) → (sweep_entries w cfg es s).1 ≡ false
    unfolding sweep_entries
    sweep_entries-completes [] s = refl
    sweep_entries-completes (e ∷ es) s =
        rw (sweep_entries, uncancelled scan_quarantine e.merkle_hex)
          (sweep_entries-completes es (process_entry w cfg e s))

    module _ (lists_both : (w.lists_quarantine ≡ true) × (w.lists_objects ≡ true)) where
      -- The state between the two loops.
      abbrev between : Disk → Metrics → Sweep
      between disk metrics =
          (sweep_entries w cfg (list_quarantined w.entry_stats disk)
            (start_sweep w cfg disk metrics)).0

      run_once-phases :
          (disk : Disk) (metrics : Metrics)
          → (run_once w cfg disk metrics).1.disk
            ≡ (sweep_roots w cfg (list (between disk metrics).disk) (between disk metrics)).0.disk
      unfolding run_once run_phases count_candidates scan_roots finish_sweep
      run_once-phases disk metrics = ground (
        arith,
        lists_both.0,
        lists_both.1,
        sweep_entries-completes (list_quarantined w.entry_stats disk)
            (start_sweep w cfg disk metrics),
      )

      pub run_once-IsHeld :
          (file : ObjectFile) (cov : Coverage) (disk : Disk) (metrics : Metrics)
          → Moves w cfg m file cov
          → IsLive m file cov disk
          → IsHeld m w.now (run_once w cfg disk metrics).1.disk
      unfolding start_sweep list_quarantined list
      run_once-IsHeld file cov disk metrics hyp live =
          let start = start_sweep w cfg disk metrics in
          let mid = between disk metrics in
          let same : SameAt m mid.disk disk =
            sweep_entries-other w cfg m (list_quarantined w.entry_stats disk) start
              (entries_of-NoEntry m w.entry_stats disk.quarantine live.no_quarantine) in
          let still = SameAt-IsLive w cfg m file cov mid.disk disk same live in
          let among =
            keep_hex-Among m _ hyp.hex (lookup-Among m mid.disk.objects file still.object) in
          subst (IsHeld m w.now) (sym (run_once-phases disk metrics))
            (sweep_roots-IsHeld w cfg m uncancelled file cov (list mid.disk) mid hyp among still)

      pub run_once-IsGone :
          (since : Time) (disk : Disk) (metrics : Metrics)
          → Unlinks since
          → IsHeld m since disk
          → IsGone m (run_once w cfg disk metrics).1.disk
      unfolding start_sweep list_quarantined
      run_once-IsGone since disk metrics hyp held =
          let start = start_sweep w cfg disk metrics in
          let mid = between disk metrics in
          let gone : IsGone m mid.disk =
            sweep_entries-Unlinks since (list_quarantined w.entry_stats disk) start hyp
              (entries_of-FirstIs m w.entry_stats disk.quarantine _ hyp.hex hyp.read held.there)
              held in
          subst (IsGone m) (sym (run_once-phases disk metrics)) (
            SameAt-IsGone w cfg m _ _
              (sweep_roots-absent_same w cfg m (list mid.disk) mid gone.no_object) gone)

-- The clock and the system calls of a sweep in which nothing gets in the way.
pub record RunsThrough (w : World) : Type 0 where
  pub uncancelled : (phase : Phase) (k : String) → w.cancelled phase k ≡ false
  pub lists_quarantine : w.lists_quarantine ≡ true
  pub lists_objects : w.lists_objects ≡ true

-- An object that is live with its coverage record, and has no entry in quarantine, is gone after two
-- sweeps that run through: its record is flagged, the retention has passed since the marker and since
-- the modification time of the file when the first sweep runs, the quarantine time has passed between
-- the sweeps, both live rechecks answer that it may be reclaimed, and no system call on it fails.
pub two_sweeps_reclaim :
    (cfg : Config) (m : String) (file : ObjectFile) (cov : Coverage) (first second : World)
    (disk : Disk) (before between_sweeps : Metrics)
    → RunsThrough first
    → RunsThrough second
    → IsLive m file cov disk
    → Moves first cfg m file cov
    → Unlinks second cfg m first.now
    → held m (run_once second cfg (run_once first cfg disk before).1.disk between_sweeps).1.disk
      ≡ false
two_sweeps_reclaim cfg m file cov first second disk before between_sweeps one two live moved due =
    let quarantined =
      run_once-IsHeld first cfg m one.uncancelled (one.lists_quarantine, one.lists_objects) file cov
        disk before moved live in
    let gone =
      run_once-IsGone second cfg m two.uncancelled (two.lists_quarantine, two.lists_objects)
        first.now _ between_sweeps due quarantined in
    ground (arith, gone.no_object, gone.no_quarantine)
