-- ===== src/Gc/Sweeper.antt =====
-- `Sweeper.RunOnce` of gc/sweeper.go. What lies outside the process in one sweep is a value of
-- `World`: the clock, the coordinator's answers, a cancelled context and the failures of system calls.
use obsideo_provider.Base.{
  ℕ, ◌+◌, ◌%◌, ◌^◌, List, [], ◌∷◌, String, Bool, true, false, not, str_eq, if◌then◌else◌, length,
  Result, ok, err,
}
use obsideo_provider.Base.Int.{ℤ, pos, ◌+ℤ◌, ◌-ℤ◌}
use obsideo_provider.Base.Time.{Time, after, sub, shorter}
use obsideo_provider.Store.Disk.{Disk, Coverage, CoverageAnswer}
use obsideo_provider.Store.Records.{
  FileKind, covered, preserved_or, get_coverage, update_coverage, delete_coverage,
  delete_index_and_ownership,
}
use obsideo_provider.Store.Objects.{list}
use obsideo_provider.Gc.Config.{Config, retention_non_contracted, quarantine}
use obsideo_provider.Gc.Quarantine.{
  MoveFault, QuarantineEntry, list_quarantined, move_to_quarantine, restore_from_quarantine,
  unlink_from_quarantine, object_mtime, object_size,
}
use obsideo_provider.Gc.Recheck.{Recheck, retained, reclaimable, unusable}

pub record Metrics : Type 0 where
  pub sweeps_ok : ℕ
  pub sweeps_error : ℕ
  pub candidates_seen : ℕ
  pub quarantined : ℕ
  pub unlinked : ℕ
  pub recovered : ℕ
  pub recheck_network : ℕ
  pub recheck_timeout : ℕ
  pub recheck_5xx : ℕ
  pub recheck_parse : ℕ
  pub gauge_marked_uncontracted : ℤ
  pub gauge_quarantined : ℤ
  pub gauge_quarantine_bytes : ℤ

-- atomic.Uint64.Add
abbrev pub add_uint64 : ℕ → ℕ → ℕ
add_uint64 a b = (a + b) % 2 ^ 64

unfoldable pub inc_recheck_failure : String → Metrics → Metrics
inc_recheck_failure reason m =
    if str_eq reason "network"
    then record m { recheck_network = add_uint64 m.recheck_network 1 }
    else if str_eq reason "timeout"
    then record m { recheck_timeout = add_uint64 m.recheck_timeout 1 }
    else if str_eq reason "5xx"
    then record m { recheck_5xx = add_uint64 m.recheck_5xx 1 }
    else if str_eq reason "parse"
    then record m { recheck_parse = add_uint64 m.recheck_parse 1 }
    else m

-- Which of the two scans asks.
pub data Phase : Type 0 where
  scan_quarantine scan_objects : Phase

pub record World : Type 0 where
  pub now : Time
  pub recheck : Phase → String → Recheck
  pub cancelled : Phase → String → Bool
  pub lists_quarantine : Bool
  pub lists_objects : Bool
  pub entry_stats : String → Bool
  pub mtime_stats : String → Bool
  pub size_stats : String → Bool
  pub restores : String → Bool
  pub unlinks : String → Bool
  pub coverage_writes : String → Bool
  pub coverage_removes : String → Bool
  pub removes : String → FileKind → Bool
  pub move_fault : String → MoveFault

-- The state of a running sweep: the disk, the metrics and the local counters.
pub record Sweep : Type 0 where
  pub disk : Disk
  pub metrics : Metrics
  pub candidates_seen : ℕ
  pub gauge_marked : ℤ
  pub gauge_entries : ℤ
  pub gauge_bytes : ℤ

pub data SweepError : Type 0 where
  list_failed context_cancelled : SweepError

abbrev pub count_ℤ : List QuarantineEntry → ℤ
count_ℤ es = pos (length es)

-- What is written to the cache for an object that goes back.
abbrev pub retained_answer : CoverageAnswer
retained_answer = record { status = covered; reclaimable = false; until = ""; reason = "" }

module _ (w : World) (cfg : Config) where
  -- A quarantined object that is retained again goes back, and its coverage record is renewed.
  unfoldable pub restore_entry : QuarantineEntry → Sweep → Sweep
  restore_entry e s =
      let (result, disk') = restore_from_quarantine (w.restores e.merkle_hex) e.merkle_hex s.disk in
      elim result [
        | err _ ↦ record s { disk = disk' }
        | ok _ ↦ record s {
          disk =
              (update_coverage (w.coverage_writes e.merkle_hex) e.merkle_hex retained_answer w.now
                disk').1;
          metrics = record (s.metrics) { recovered = add_uint64 s.metrics.recovered 1 };
          gauge_entries = s.gauge_entries -ℤ pos 1;
          gauge_bytes = s.gauge_bytes -ℤ pos e.bytes;
        }
      ]

  -- The terminal unlink, and the removal of the records that belonged to the object.
  unfoldable pub unlink_entry : QuarantineEntry → Sweep → Sweep
  unlink_entry e s =
      let (result, disk') = unlink_from_quarantine (w.unlinks e.merkle_hex) e.merkle_hex s.disk in
      let cleaned = delete_index_and_ownership (w.removes e.merkle_hex) e.merkle_hex disk' in
      elim result [
        | err _ ↦ record s { disk = disk' }
        | ok _ ↦ record s {
          disk = (delete_coverage (w.coverage_removes e.merkle_hex) e.merkle_hex cleaned).1;
          metrics = record (s.metrics) { unlinked = add_uint64 s.metrics.unlinked 1 };
          gauge_entries = s.gauge_entries -ℤ pos 1;
          gauge_bytes = s.gauge_bytes -ℤ pos e.bytes;
        }
      ]

  abbrev pub see_entry : QuarantineEntry → Sweep → Sweep
  see_entry e s = record s {
    gauge_bytes = s.gauge_bytes +ℤ pos e.bytes;
    candidates_seen = s.candidates_seen + 1;
  }

  -- The body of the first loop.
  unfoldable pub process_entry : QuarantineEntry → Sweep → Sweep
  process_entry e s =
      let seen = see_entry e s in
      elim (w.recheck scan_quarantine e.merkle_hex) [
        | unusable reason ↦ record seen { metrics = inc_recheck_failure reason seen.metrics }
        | retained ↦ restore_entry e seen
        | reclaimable ↦
            if shorter (sub w.now e.quarantined_at) (quarantine cfg)
            then seen
            else unlink_entry e seen
      ]

  -- The first loop; true if the context was cancelled.
  unfoldable pub sweep_entries : List QuarantineEntry → Sweep → Sweep × Bool
  sweep_entries [] s = (s, false)
  sweep_entries (e ∷ es) s =
      let rest = sweep_entries es (process_entry e s) in
      if w.cancelled scan_quarantine e.merkle_hex then (s, true) else rest

  -- The file is the move's to take if it is still there.
  unfoldable pub quarantine_root : String → Sweep → Sweep
  quarantine_root root s = elim (object_size (w.size_stats root) root s.disk) [
    | err _ ↦ s
    | ok size ↦
        let (result, disk') = move_to_quarantine (w.move_fault root) root w.now s.disk in
        elim result [
          | err _ ↦ record s { disk = disk' }
          | ok _ ↦ record s {
            disk = disk';
            metrics = record (s.metrics) { quarantined = add_uint64 s.metrics.quarantined 1 };
            gauge_marked = s.gauge_marked -ℤ pos 1;
            gauge_entries = s.gauge_entries +ℤ pos 1;
            gauge_bytes = s.gauge_bytes +ℤ pos size;
          }
        ]
  ]

  -- Since when the object is taken to be without a contract: the marker, or now without one, or the
  -- modification time of the file where that is later.
  unfoldable pub anchor : String → Coverage → Disk → Time
  anchor root cov disk =
      let first_seen = preserved_or cov.first_seen_reclaimable w.now in
      elim (object_mtime (w.mtime_stats root) root disk) [
        | err _ ↦ first_seen
        | ok mt ↦ if after mt first_seen then mt else first_seen
      ]

  abbrev pub mark_root : Sweep → Sweep
  mark_root s = record s {
    gauge_marked = s.gauge_marked +ℤ pos 1;
    candidates_seen = s.candidates_seen + 1;
  }

  -- A reclaimable object whose retention has passed is rechecked, and moved.
  unfoldable pub consider : String → Coverage → Sweep → Sweep
  consider root cov s =
      let age = sub w.now (anchor root cov s.disk) in
      let marked = mark_root s in
      if shorter age (retention_non_contracted cfg)
      then marked
      else (elim (w.recheck scan_objects root) [
        | unusable reason ↦ record marked { metrics = inc_recheck_failure reason marked.metrics }
        | retained ↦ marked
        | reclaimable ↦ quarantine_root root marked
      ])

  -- The body of the second loop: without a readable coverage record nothing happens.
  unfoldable pub process_root : String → Sweep → Sweep
  process_root root s = elim (get_coverage root s.disk) [
    | err _ ↦ s
    | ok cov ↦ if cov.reclaimable then consider root cov s else s
  ]

  unfoldable pub sweep_roots : List String → Sweep → Sweep × Bool
  sweep_roots [] s = (s, false)
  sweep_roots (root ∷ roots) s =
      let rest = sweep_roots roots (process_root root s) in
      if w.cancelled scan_objects root then (s, true) else rest

  -- The gauges and the count of good sweeps, at the end of a whole cycle.
  unfoldable pub finish_sweep : Sweep → Sweep
  finish_sweep s = record s {
    metrics = record (s.metrics) {
      gauge_marked_uncontracted = s.gauge_marked;
      gauge_quarantined = s.gauge_entries;
      gauge_quarantine_bytes = s.gauge_bytes;
      sweeps_ok = add_uint64 s.metrics.sweeps_ok 1;
    };
  }

  -- The deferred addition, made on every way out.
  unfoldable pub count_candidates : Sweep → Sweep
  count_candidates s = record s {
    metrics = record (s.metrics) {
      candidates_seen = add_uint64 s.metrics.candidates_seen s.candidates_seen;
    };
  }

  abbrev pub list_error : Sweep → Sweep
  list_error s = record s {
    metrics = record (s.metrics) { sweeps_error = add_uint64 s.metrics.sweeps_error 1 };
  }

  -- The second scan, on the state that the first one left.
  unfoldable pub scan_roots : Sweep → Result SweepError (Unit {0}) × Sweep
  scan_roots s =
      let (swept, stopped) = sweep_roots (list s.disk) s in
      if not w.lists_objects
      then (err list_failed, list_error s)
      else if stopped
      then (err context_cancelled, swept)
      else (ok tt, finish_sweep swept)

  unfoldable pub start_sweep : Disk → Metrics → Sweep
  start_sweep disk metrics = record {
    disk = disk;
    metrics = metrics;
    candidates_seen = 0;
    gauge_marked = pos 0;
    gauge_entries = count_ℤ (list_quarantined w.entry_stats disk);
    gauge_bytes = pos 0;
  }

  unfoldable pub run_phases : Disk → Metrics → Result SweepError (Unit {0}) × Sweep
  run_phases disk metrics =
      let start = start_sweep disk metrics in
      let (swept, stopped) = sweep_entries (list_quarantined w.entry_stats disk) start in
      if not w.lists_quarantine
      then (err list_failed, list_error start)
      else if stopped
      then (err context_cancelled, swept)
      else scan_roots swept

  -- `RunOnce`
  unfoldable pub run_once : Disk → Metrics → Result SweepError (Unit {0}) × Sweep
  run_once disk metrics = let (result, s) = run_phases disk metrics in (result, count_candidates s)
