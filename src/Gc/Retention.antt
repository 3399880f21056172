-- ===== src/Gc/Retention.antt =====
-- What a sweep needs to take a live object into quarantine, and what brings one back.
use obsideo_provider.Base.{
  ℕ, ◌+◌, ◌*◌, ◌≤◌, ◌<◌, ◌≡◌, inl, inr, none, some, Option-cases, List, [], ◌∷◌, String, true,
  false, arith, str_eq, eq_iff, ok, Bool-cases, Result-cases,
}
use obsideo_provider.Base.Int.{pos}
use obsideo_provider.Base.Time.{Time, sub, shorter, shorter-sub}
use obsideo_provider.Base.Dir.{lookup, has}
use obsideo_provider.Store.Disk.{Disk, ObjectFile, Coverage}
use obsideo_provider.Store.Records.{get_coverage}
use obsideo_provider.Store.Objects.{list}
use obsideo_provider.Gc.Config.{Config, hour, hours_exact, max_hours, retention_non_contracted}
use obsideo_provider.Gc.Quarantine.{list_quarantined, object_mtime}
use obsideo_provider.Gc.Recheck.{reclaimable}
use obsideo_provider.Gc.Sweeper.{
  World, scan_objects, Metrics, Sweep, sweep_entries, anchor, quarantine_root, consider,
  process_root, sweep_roots, scan_roots, run_phases, run_once, start_sweep, finish_sweep,
  count_candidates,
}
use obsideo_provider.Gc.Relate.{process_root-Related}
use obsideo_provider.Gc.Others.{
  SameAt, SameAt-IsOrder, SameAt-Operations, entries_of-NoEntry, sweep_entries-other,
}
use obsideo_provider.Gc.Steps.{move-objects_kept, move-coverage}

-- All that the second scan reads of an object: its file and its coverage record.
pub record SameRecords (m : String) (a b : Disk) : Type 0 where
  pub object : lookup m a.objects ≡ lookup m b.objects
  pub coverage : lookup m a.coverage ≡ lookup m b.coverage

module _ (w : World) (cfg : Config) (m : String) where
  -- What has to hold of an object before the sweep may move it.
  pub record MayQuarantine (disk : Disk) : Type 0 where
    pub cov : Coverage
    pub cached : get_coverage m disk ≡ ok cov
    pub flagged : cov.reclaimable ≡ true
    pub waited :
        shorter (sub w.now (anchor w cfg m cov disk)) (retention_non_contracted cfg) ≡ false
    pub answered : w.recheck scan_objects m ≡ reclaimable

  process_root-same :
      (root : String) (s : Sweep)
      → str_eq root m ≡ false
      → SameRecords m (process_root w cfg root s).disk s.disk
  process_root-same root s h =
      let same =
        process_root-Related (SameAt m) (SameAt-IsOrder m) w cfg root s
          (SameAt-Operations root m h) in
      record { object = same.objects; coverage = same.coverage }

  process_root-MayQuarantine :
      (s : Sweep)
      → has m (process_root w cfg m s).disk.objects ≡ false
      → has m s.disk.objects ≡ true
      → MayQuarantine s.disk
  unfolding process_root consider
  process_root-MayQuarantine s g before = elim (Result-cases (get_coverage m s.disk)) [
    | inr (e, unread) ↦ absurd (ground arith)
    | inl (c, read) ↦ record {
      cov = c;
      cached = read;
      flagged = ground arith;
      waited = ground arith;
      answered = ground arith;
    }
  ]

  -- The file and the record are as they were as long as the object is live.
  process_root_unmoved :
      (root : String) (s : Sweep)
      → has m (process_root w cfg root s).disk.objects ≡ true
      → SameRecords m (process_root w cfg root s).disk s.disk
  unfolding process_root consider quarantine_root
  process_root_unmoved root s h = record {
    object = ground (arith, move-objects_kept (w.move_fault root) root m w.now s.disk);
    coverage = ground (arith, move-coverage (w.move_fault root) root m w.now s.disk);
  }

  MayQuarantine-same : (a b : Disk) → SameRecords m a b → MayQuarantine a → MayQuarantine b
  unfolding anchor object_mtime get_coverage
  MayQuarantine-same a b same may = record {
    cov = may.cov;
    cached = ground (arith, may.cached, same.coverage);
    flagged = may.flagged;
    waited = ground (arith, may.waited, same.object);
    answered = may.answered;
  }

  sweep_roots-MayQuarantine :
      (roots : List String) (s : Sweep)
      → has m s.disk.objects ≡ true
      → has m (sweep_roots w cfg roots s).0.disk.objects ≡ false
      → MayQuarantine s.disk
  unfolding sweep_roots
  sweep_roots-MayQuarantine [] s h g = cc
  sweep_roots-MayQuarantine (root ∷ roots) s h g =
      let next = process_root w cfg root s in
      elim (Bool-cases (has m next.disk.objects)) [
        | inl kept ↦
            MayQuarantine-same next.disk s.disk (process_root_unmoved root s kept)
              (sweep_roots-MayQuarantine roots next kept (ground arith))
        | inr gone ↦ elim (Bool-cases (str_eq root m)) [
          | inl this ↦
              let here = (eq_iff root m).0 this in process_root-MayQuarantine s (rw here at gone) h
          | inr other ↦ absurd (ground (arith, (process_root-same root s other).object))
        ]
      ]

  run_once-MayQuarantine :
      (disk : Disk) (metrics : Metrics)
      → has m disk.objects ≡ true
      → lookup m disk.quarantine ≡ none
      → has m (run_once w cfg disk metrics).1.disk.objects ≡ false
      → MayQuarantine disk
  unfolding run_once run_phases start_sweep count_candidates scan_roots finish_sweep
      list_quarantined
  run_once-MayQuarantine disk metrics before free after =
      let start = start_sweep w cfg disk metrics in
      let es = list_quarantined w.entry_stats disk in
      let swept = (sweep_entries w cfg es start).0 in
      let same : SameAt m swept.disk disk =
        sweep_entries-other w cfg m es start
          (entries_of-NoEntry m w.entry_stats disk.quarantine free) in
      let live : has m swept.disk.objects ≡ true = ground (arith, same.objects) in
      MayQuarantine-same swept.disk disk
        (record { object = same.objects; coverage = same.coverage })
        (sweep_roots-MayQuarantine (list swept.disk) swept live (ground arith))

  -- The anchor is no earlier than the marker and the modification time, and now without a marker.
  anchor-since :
      (cov : Coverage) (disk : Disk) (wait : ℕ)
      → 0 < wait
      → anchor w cfg m cov disk + wait ≤ w.now
      → (since : Time) × (cov.first_seen_reclaimable ≡ some since) × (since + wait ≤ w.now)
  unfolding anchor
  anchor-since cov disk wait some_time h = elim (Option-cases cov.first_seen_reclaimable) [
    | inl unmarked ↦ absurd (ground (arith, unmarked, h))
    | inr (since, marked) ↦ (since, marked, ground (arith, marked, h))
  ]

  anchor-mtime :
      (cov : Coverage) (disk : Disk) (wait : ℕ) (file : ObjectFile)
      → anchor w cfg m cov disk + wait ≤ w.now
      → lookup m disk.objects ≡ some file
      → w.mtime_stats m ≡ true
      → file.mtime + wait ≤ w.now
  unfolding anchor object_mtime
  anchor-mtime cov disk wait file h there stats = ground (arith, h, there, stats)

  -- The conditions under which a live object goes to quarantine, its retention `h` hours.
  pub record IsDue (h : ℕ) (disk : Disk) : Type 0 where
    pub cov : Coverage
    pub cached : get_coverage m disk ≡ ok cov
    pub flagged : cov.reclaimable ≡ true
    pub since : Time
    pub marked : cov.first_seen_reclaimable ≡ some since
    pub waited : since + h * hour ≤ w.now
    pub rested :
        (file : ObjectFile)
        → lookup m disk.objects ≡ some file
        → w.mtime_stats m ≡ true
        → file.mtime + h * hour ≤ w.now
    pub answered : w.recheck scan_objects m ≡ reclaimable

  -- With a retention of h hours, at least one and as many as a duration holds: a sweep takes an object
  -- that has no entry in quarantine out of objects/ only if its coverage record is there and says
  -- reclaimable since an instant that lies h hours back, its file was modified h hours ago or earlier,
  -- where the modification time can be read, and the live recheck answers that it may be reclaimed.
  pub run_once-IsDue :
      (h : ℕ) (disk : Disk) (metrics : Metrics)
      → cfg.retention_non_contracted_hours ≡ pos h
      → 0 < h
      → h ≤ max_hours
      → has m disk.objects ≡ true
      → lookup m disk.quarantine ≡ none
      → has m (run_once w cfg disk metrics).1.disk.objects ≡ false
      → IsDue h disk
  unfolding retention_non_contracted
  run_once-IsDue h disk metrics set_hours pos_hours fits before free after =
      let may = run_once-MayQuarantine disk metrics before free after in
      let retention : retention_non_contracted cfg ≡ pos (h * hour) =
        rw set_hours (hours_exact h fits) in
      let start = anchor w cfg m may.cov disk in
      let whole : start + h * hour ≤ w.now = ground (
        arith,
        retention,
        may.waited,
        shorter-sub w.now start (h * hour) (omega arith) (omega arith),
      ) in
      let (since, marked, waited) = anchor-since may.cov disk (h * hour) (omega arith) whole in
      record {
        cov = may.cov;
        cached = may.cached;
        flagged = may.flagged;
        since = since;
        marked = marked;
        waited = waited;
        rested = λ file there stats. anchor-mtime may.cov disk (h * hour) file whole there stats;
        answered = may.answered;
      }
