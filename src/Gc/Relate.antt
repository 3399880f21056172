-- ===== src/Gc/Relate.antt =====
-- What a sweep of gc/sweeper.go does to the store, as a relation between the disk after it and before:
-- it is enough that the relation holds of the operations on a name.
use obsideo_provider.Base.{
  ◌≡◌, ◌⊎◌, refl, inl, inr, List, [], ◌∷◌, String, Bool, true, false, arith, Result-cases,
  Bool-cases, if◌then◌else◌,
}
use obsideo_provider.Base.Time.{Time, shorter, sub}
use obsideo_provider.Store.Disk.{Disk, Coverage, CoverageAnswer}
use obsideo_provider.Store.Records.{
  FileKind, get_coverage, update_coverage, delete_coverage, delete_index_and_ownership,
}
use obsideo_provider.Store.Objects.{list}
use obsideo_provider.Gc.Config.{Config, quarantine, retention_non_contracted}
use obsideo_provider.Gc.Recheck.{Recheck, unusable, retained, reclaimable}
use obsideo_provider.Gc.Quarantine.{
  MoveFault, QuarantineEntry, list_quarantined, restore_from_quarantine, unlink_from_quarantine,
  move_to_quarantine, object_size,
}
use obsideo_provider.Gc.Sweeper.{
  World, Sweep, Metrics, retained_answer, restore_entry, unlink_entry, see_entry, process_entry,
  sweep_entries, quarantine_root, anchor, consider, process_root, sweep_roots, finish_sweep,
  scan_roots, start_sweep, run_phases, run_once, scan_quarantine, scan_objects, mark_root,
  count_candidates,
}

-- A relation that steps can be chained in.
pub record IsOrder (R : Disk → Disk → Type 0) : Type 0 where
  pub refl : (d : Disk) → R d d
  pub trans : (c b a : Disk) → R c b → R b a → R c a

-- The relation holds of every operation of a sweep on this name, whatever fails.
pub record Operations (R : Disk → Disk → Type 0) (k : String) : Type 0 where
  pub restores :
      (succeeds : Bool) (disk : Disk) → R (restore_from_quarantine succeeds k disk).1 disk
  pub unlinks : (succeeds : Bool) (disk : Disk) → R (unlink_from_quarantine succeeds k disk).1 disk
  pub moves :
      (fault : MoveFault) (now : Time) (disk : Disk)
      → R (move_to_quarantine fault k now disk).1 disk
  pub updates :
      (writes : Bool) (answer : CoverageAnswer) (now : Time) (disk : Disk)
      → R (update_coverage writes k answer now disk).1 disk
  pub deletes : (removes : Bool) (disk : Disk) → R (delete_coverage removes k disk).1 disk
  pub cleans :
      (removes : FileKind → Bool) (disk : Disk) → R (delete_index_and_ownership removes k disk) disk

module _ (R : Disk → Disk → Type 0) (order : IsOrder R) (w : World) (cfg : Config) where
  restore_entry-Related :
      (e : QuarantineEntry) (s : Sweep)
      → Operations R e.merkle_hex
      → R (restore_entry w cfg e s).disk s.disk
  unfolding restore_entry
  restore_entry-Related e s ops =
      let name = e.merkle_hex in
      let back = restore_from_quarantine (w.restores name) name s.disk in
      let one = ops.restores (w.restores name) s.disk in
      elim (Result-cases back.0) [
        | inr (x, bad) ↦ rw (restore_entry, bad) one
        | inl (x, fine) ↦
            rw (restore_entry, fine)
              (order.trans _ _ _ (ops.updates (w.coverage_writes name) retained_answer w.now back.1)
                one)
      ]

  unlink_entry-Related :
      (e : QuarantineEntry) (s : Sweep)
      → Operations R e.merkle_hex
      → R (unlink_entry w cfg e s).disk s.disk
  unfolding unlink_entry
  unlink_entry-Related e s ops =
      let name = e.merkle_hex in
      let gone = unlink_from_quarantine (w.unlinks name) name s.disk in
      let one = ops.unlinks (w.unlinks name) s.disk in
      let two = ops.cleans (w.removes name) gone.1 in
      let three =
        ops.deletes (w.coverage_removes name)
          (delete_index_and_ownership (w.removes name) name gone.1) in
      elim (Result-cases gone.0) [
        | inr (x, bad) ↦ rw (unlink_entry, bad) one
        | inl (x, fine) ↦
            rw (unlink_entry, fine) (order.trans _ _ _ three (order.trans _ _ _ two one))
      ]

  pub process_entry-Related :
      (e : QuarantineEntry) (s : Sweep)
      → Operations R e.merkle_hex
      → R (process_entry w cfg e s).disk s.disk
  unfolding process_entry
  process_entry-Related e s ops = go (w.recheck scan_quarantine e.merkle_hex) refl
    where
      go :
          (answer : Recheck)
          → w.recheck scan_quarantine e.merkle_hex ≡ answer
          → R (process_entry w cfg e s).disk s.disk
      go (unusable reason) a = rw (process_entry, a) (order.refl s.disk)
      go retained a = rw (process_entry, a) (restore_entry-Related e (see_entry w cfg e s) ops)
      go reclaimable a = elim (Bool-cases (shorter (sub w.now e.quarantined_at) (quarantine cfg))) [
        | inl waits ↦ rw (process_entry, a, waits) (order.refl s.disk)
        | inr due ↦ rw (process_entry, a, due) (unlink_entry-Related e (see_entry w cfg e s) ops)
      ]

  quarantine_root-Related :
      (root : String) (s : Sweep) → Operations R root → R (quarantine_root w cfg root s).disk s.disk
  unfolding quarantine_root
  quarantine_root-Related root s ops =
      let moved = move_to_quarantine (w.move_fault root) root w.now s.disk in
      let one = ops.moves (w.move_fault root) w.now s.disk in
      elim (Result-cases (object_size (w.size_stats root) root s.disk)) [
        | inr (x, bad) ↦ rw (quarantine_root, bad) (order.refl s.disk)
        | inl (size, fine) ↦ elim (Result-cases moved.0) [
          | inr (x, bad) ↦ rw (quarantine_root, fine, bad) one
          | inl (x, done) ↦ rw (quarantine_root, fine, done) one
        ]
      ]

  consider-Related :
      (root : String) (cov : Coverage) (s : Sweep)
      → Operations R root
      → R (consider w cfg root cov s).disk s.disk
  unfolding consider
  consider-Related root cov s ops =
      let age = sub w.now (anchor w cfg root cov s.disk) in
      elim (Bool-cases (shorter age (retention_non_contracted cfg))) [
        | inl young ↦ rw (consider, young) (order.refl s.disk)
        | inr old ↦ go (w.recheck scan_objects root) refl old
      ]
    where
      go :
          (answer : Recheck)
          → w.recheck scan_objects root ≡ answer
          → shorter (sub w.now (anchor w cfg root cov s.disk)) (retention_non_contracted cfg)
            ≡ false
          → R (consider w cfg root cov s).disk s.disk
      go (unusable reason) a old = rw (consider, old, a) (order.refl s.disk)
      go retained a old = rw (consider, old, a) (order.refl s.disk)
      go reclaimable a old =
          rw (consider, old, a) (quarantine_root-Related root (mark_root w cfg s) ops)

  pub process_root-Related :
      (root : String) (s : Sweep) → Operations R root → R (process_root w cfg root s).disk s.disk
  unfolding process_root
  process_root-Related root s ops = elim (Result-cases (get_coverage root s.disk)) [
    | inr (x, bad) ↦ rw (process_root, bad) (order.refl s.disk)
    | inl (cov, fine) ↦ rw (process_root, fine) (go cov cov.reclaimable)
  ]
    where
      go :
          (cov : Coverage) (due : Bool)
          → R (if due then consider w cfg root cov s else s).disk s.disk
      go cov true = consider-Related root cov s ops
      go cov false = order.refl s.disk

  module _ (ops : (k : String) → Operations R k) where
    sweep_entries-Related :
        (es : List QuarantineEntry) (s : Sweep) → R (sweep_entries w cfg es s).0.disk s.disk
    unfolding sweep_entries
    sweep_entries-Related [] s = order.refl s.disk
    sweep_entries-Related (e ∷ es) s =
        elim (Bool-cases (w.cancelled scan_quarantine e.merkle_hex)) [
          | inl stopped ↦ rw (sweep_entries, stopped) (order.refl s.disk)
          | inr goes_on ↦
              rw (sweep_entries, goes_on)
                (order.trans _ _ _ (sweep_entries-Related es (process_entry w cfg e s))
                  (process_entry-Related e s (ops e.merkle_hex)))
        ]

    sweep_roots-Related :
        (roots : List String) (s : Sweep) → R (sweep_roots w cfg roots s).0.disk s.disk
    unfolding sweep_roots
    sweep_roots-Related [] s = order.refl s.disk
    sweep_roots-Related (root ∷ roots) s = elim (Bool-cases (w.cancelled scan_objects root)) [
      | inl stopped ↦ rw (sweep_roots, stopped) (order.refl s.disk)
      | inr goes_on ↦
          rw (sweep_roots, goes_on)
            (order.trans _ _ _ (sweep_roots-Related roots (process_root w cfg root s))
              (process_root-Related root s (ops root)))
    ]

    scan_roots-Related : (s : Sweep) → R (scan_roots w cfg s).1.disk s.disk
    unfolding scan_roots finish_sweep
    scan_roots-Related s =
        let swept = (sweep_roots w cfg (list s.disk) s).0.disk in
        let one = sweep_roots-Related (list s.disk) s in
        let ends : ((scan_roots w cfg s).1.disk ≡ s.disk) ⊎ ((scan_roots w cfg s).1.disk ≡ swept) =
          elim (Bool-cases w.lists_objects) [
            | inr failed ↦ inl (ground (arith, failed))
            | inl listed ↦ inr (ground (arith, listed))
          ] in
        elim ends [ inl e ↦ rw e (order.refl s.disk) | inr e ↦ rw e one ]

    -- A whole sweep.
    pub run_once-Related :
        (disk : Disk) (metrics : Metrics) → R (run_once w cfg disk metrics).1.disk disk
    unfolding run_once run_phases start_sweep count_candidates
    run_once-Related disk metrics =
        let start = start_sweep w cfg disk metrics in
        let first = sweep_entries w cfg (list_quarantined w.entry_stats disk) start in
        let one = sweep_entries-Related (list_quarantined w.entry_stats disk) start in
        let ends : ((run_once w cfg disk metrics).1.disk ≡ disk)
            ⊎ ((run_once w cfg disk metrics).1.disk ≡ first.0.disk)
            ⊎ ((run_once w cfg disk metrics).1.disk ≡ (scan_roots w cfg first.0).1.disk) =
          elim (Bool-cases w.lists_quarantine) [
            | inr failed ↦ inl (ground (arith, failed))
            | inl listed ↦ elim (Bool-cases first.1) [
              | inl stopped ↦ inr (inl (ground (arith, listed, stopped)))
              | inr whole ↦ inr (inr (ground (arith, listed, whole)))
            ]
          ] in
        elim ends [
          | inl e ↦ rw e (order.refl disk)
          | inr (inl e) ↦ rw e one
          | inr (inr e) ↦ rw e (order.trans _ _ _ (scan_roots-Related first.0) one)
        ]
