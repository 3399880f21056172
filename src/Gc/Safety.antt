-- ===== src/Gc/Safety.antt =====
-- The safety of a sweep: bytes go only from quarantine, after the window, on a live answer.
use obsideo_provider.Base.{
  ℕ, ◌+◌, ◌*◌, ◌≤◌, ◌<◌, ◌≡◌, ◌⊎◌, inl, inr, List, [], ◌∷◌, String, true, false, arith, eq_iff,
  Bool-cases,
}
use obsideo_provider.Base.Int.{pos}
use obsideo_provider.Base.Time.{sub, shorter, shorter-sub}
use obsideo_provider.Base.Dir.{has}
use obsideo_provider.Store.Disk.{Disk}
use obsideo_provider.Store.Records.{delete_index_and_ownership}
use obsideo_provider.Store.Objects.{list}
use obsideo_provider.Gc.Config.{Config, hour, hours_exact, max_hours, quarantine}
use obsideo_provider.Gc.Quarantine.{
  QuarantineEntry, list_quarantined, restore_from_quarantine, unlink_from_quarantine,
}
use obsideo_provider.Gc.Recheck.{reclaimable}
use obsideo_provider.Gc.Sweeper.{
  World, scan_quarantine, Metrics, Sweep, restore_entry, unlink_entry, process_entry, sweep_entries,
  quarantine_root, consider, process_root, sweep_roots, retained_answer, see_entry, scan_roots,
  run_phases, run_once, start_sweep, finish_sweep, count_candidates,
}
use obsideo_provider.Gc.Steps.{
  held, SameObjects, update_coverage-SameObjects, delete_coverage-SameObjects,
  delete_index_and_ownership-SameObjects, restore-objects, restore-held, unlink-objects,
  unlink-quarantine, move-held,
}

module _ (w : World) (cfg : Config) (m : String) where
  -- What has to hold of an entry before the sweep may unlink it.
  pub record MayUnlink (e : QuarantineEntry) : Type 0 where
    pub named : e.merkle_hex ≡ m
    pub answered : w.recheck scan_quarantine m ≡ reclaimable
    pub waited : shorter (sub w.now e.quarantined_at) (quarantine cfg) ≡ false

  restore_entry-SameObjects :
      (e : QuarantineEntry) (s : Sweep)
      → SameObjects
          (restore_entry w cfg e s).disk
          (restore_from_quarantine (w.restores e.merkle_hex) e.merkle_hex s.disk).1
  unfolding restore_entry
  restore_entry-SameObjects e s =
      let restored = (restore_from_quarantine (w.restores e.merkle_hex) e.merkle_hex s.disk).1 in
      let same =
        update_coverage-SameObjects (w.coverage_writes e.merkle_hex) e.merkle_hex retained_answer
          w.now restored in
      record {
        objects = ground (arith, same.objects);
        quarantine = ground (arith, same.quarantine);
      }

  unlink_entry-SameObjects :
      (e : QuarantineEntry) (s : Sweep)
      → SameObjects
          (unlink_entry w cfg e s).disk
          (unlink_from_quarantine (w.unlinks e.merkle_hex) e.merkle_hex s.disk).1
  unfolding unlink_entry
  unlink_entry-SameObjects e s =
      let disk' = (unlink_from_quarantine (w.unlinks e.merkle_hex) e.merkle_hex s.disk).1 in
      let first =
        delete_index_and_ownership-SameObjects (w.removes e.merkle_hex) e.merkle_hex disk' in
      let second =
        delete_coverage-SameObjects (w.coverage_removes e.merkle_hex) e.merkle_hex
          (delete_index_and_ownership (w.removes e.merkle_hex) e.merkle_hex disk') in
      record {
        objects = ground (arith, first.objects, second.objects);
        quarantine = ground (arith, first.quarantine, second.quarantine);
      }

  -- One round of the first loop keeps what is live.
  process_entry-objects :
      (e : QuarantineEntry) (s : Sweep)
      → has m s.disk.objects ≡ true
      → has m (process_entry w cfg e s).disk.objects ≡ true
  unfolding process_entry
  process_entry-objects e s h =
      let seen = see_entry w cfg e s in
      let back = restore_entry-SameObjects e seen in
      let gone = unlink_entry-SameObjects e seen in
      ground (
        arith,
        back.objects,
        gone.objects,
        restore-objects (w.restores e.merkle_hex) e.merkle_hex m s.disk,
        unlink-objects (w.unlinks e.merkle_hex) e.merkle_hex m s.disk,
      )

  -- One round of the first loop loses bytes only where it may unlink.
  process_entry-MayUnlink :
      (e : QuarantineEntry) (s : Sweep)
      → held m s.disk ≡ true
      → held m (process_entry w cfg e s).disk ≡ false
      → MayUnlink e
  unfolding process_entry
  process_entry-MayUnlink e s h g =
      let seen = see_entry w cfg e s in
      let back = restore_entry-SameObjects e seen in
      let gone = unlink_entry-SameObjects e seen in
      let named : e.merkle_hex ≡ m = ground (
        arith,
        back.objects,
        back.quarantine,
        gone.objects,
        gone.quarantine,
        restore-held (w.restores e.merkle_hex) e.merkle_hex m s.disk,
        unlink-objects (w.unlinks e.merkle_hex) e.merkle_hex m s.disk,
        unlink-quarantine (w.unlinks e.merkle_hex) e.merkle_hex m s.disk,
        eq_iff e.merkle_hex m,
      ) in
      let live = restore-held (w.restores e.merkle_hex) e.merkle_hex m s.disk in
      record {
        named = named;
        answered = rw (← named) (ground (arith, back.objects, back.quarantine, live));
        waited = ground (arith, back.objects, back.quarantine, live);
      }

  -- The first loop.
  sweep_entries-objects :
      (es : List QuarantineEntry) (s : Sweep)
      → has m s.disk.objects ≡ true
      → has m (sweep_entries w cfg es s).0.disk.objects ≡ true
  unfolding sweep_entries
  sweep_entries-objects [] s h = h
  sweep_entries-objects (e ∷ es) s h = ground (
    arith,
    process_entry-objects e s h,
    sweep_entries-objects es (process_entry w cfg e s) (process_entry-objects e s h),
  )

  -- One of the entries may be unlinked.
  abbrev pub AnyMayUnlink : List QuarantineEntry → Type 0
  AnyMayUnlink [] = ⊥
  AnyMayUnlink (e ∷ es) = MayUnlink e ⊎ AnyMayUnlink es

  sweep_entries-MayUnlink :
      (es : List QuarantineEntry) (s : Sweep)
      → held m s.disk ≡ true
      → held m (sweep_entries w cfg es s).0.disk ≡ false
      → AnyMayUnlink es
  unfolding sweep_entries
  sweep_entries-MayUnlink [] s h g = cc
  sweep_entries-MayUnlink (e ∷ es) s h g =
      elim (Bool-cases (held m (process_entry w cfg e s).disk)) [
        | inr lost ↦ inl (process_entry-MayUnlink e s h lost)
        | inl kept ↦ inr (sweep_entries-MayUnlink es (process_entry w cfg e s) kept (ground arith))
      ]

  process_root-held :
      (root : String) (s : Sweep)
      → held m s.disk ≡ true
      → held m (process_root w cfg root s).disk ≡ true
  unfolding process_root consider quarantine_root
  process_root-held root s h = ground (arith, move-held (w.move_fault root) root m w.now s.disk h)

  sweep_roots-held :
      (roots : List String) (s : Sweep)
      → held m s.disk ≡ true
      → held m (sweep_roots w cfg roots s).0.disk ≡ true
  unfolding sweep_roots
  sweep_roots-held [] s h = h
  sweep_roots-held (root ∷ roots) s h =
      ground
        (arith, sweep_roots-held roots (process_root w cfg root s) (process_root-held root s h))

  scan_roots-held : (s : Sweep) → held m s.disk ≡ true → held m (scan_roots w cfg s).1.disk ≡ true
  unfolding scan_roots finish_sweep
  scan_roots-held s h = ground (arith, sweep_roots-held (list s.disk) s h)

  run_once-AnyMayUnlink :
      (disk : Disk) (metrics : Metrics)
      → held m disk ≡ true
      → held m (run_once w cfg disk metrics).1.disk ≡ false
      → AnyMayUnlink (list_quarantined w.entry_stats disk) × (has m disk.objects ≡ false)
  unfolding run_once run_phases start_sweep count_candidates
  run_once-AnyMayUnlink disk metrics h g =
      let start = start_sweep w cfg disk metrics in
      let es = list_quarantined w.entry_stats disk in
      let swept = (sweep_entries w cfg es start).0 in
      let lost : held m swept.disk ≡ false = ground (arith, scan_roots-held swept) in
      (sweep_entries-MayUnlink es start h lost, ground (arith, sweep_entries-objects es start))

  -- A quarantined file of that name, of which the coordinator now says that it may be reclaimed, and
  -- which has been in quarantine for `h` hours.
  pub record Expired (h : ℕ) (e : QuarantineEntry) : Type 0 where
    pub named : e.merkle_hex ≡ m
    pub answered : w.recheck scan_quarantine m ≡ reclaimable
    pub waited : e.quarantined_at + h * hour ≤ w.now

  abbrev pub AnyExpired : ℕ → List QuarantineEntry → Type 0
  AnyExpired h [] = ⊥
  AnyExpired h (e ∷ es) = Expired h e ⊎ AnyExpired h es

  module _ (h : ℕ) (set_hours : cfg.quarantine_hours ≡ pos h) (pos_hours : 0 < h)
      (fits : h ≤ max_hours) where
    window : quarantine cfg ≡ pos (h * hour)
    unfolding quarantine
    window = rw set_hours (hours_exact h fits)

    MayUnlink-Expired : (e : QuarantineEntry) → MayUnlink e → Expired h e
    MayUnlink-Expired e may = record {
      named = may.named;
      answered = may.answered;
      waited = ground (
        arith,
        window,
        may.waited,
        shorter-sub w.now e.quarantined_at (h * hour) (omega arith) (omega arith),
      );
    }

    AnyMayUnlink-AnyExpired : (es : List QuarantineEntry) → AnyMayUnlink es → AnyExpired h es
    AnyMayUnlink-AnyExpired [] a = a
    AnyMayUnlink-AnyExpired (e ∷ es) (inl may) = inl (MayUnlink-Expired e may)
    AnyMayUnlink-AnyExpired (e ∷ es) (inr a) = inr (AnyMayUnlink-AnyExpired es a)

    -- With a quarantine of h hours, at least one and as many as a duration holds: if an object's bytes
    -- are on the disk before a sweep and nowhere after it, then before it they were in quarantine only,
    -- under an entry at least h hours old, and the live recheck answered that it may be reclaimed.
    pub run_once-Expired :
        (disk : Disk) (metrics : Metrics)
        → held m disk ≡ true
        → held m (run_once w cfg disk metrics).1.disk ≡ false
        → AnyExpired h (list_quarantined w.entry_stats disk) × (has m disk.objects ≡ false)
    run_once-Expired disk metrics before after =
        let (any, live) = run_once-AnyMayUnlink disk metrics before after in
        (AnyMayUnlink-AnyExpired _ any, live)
