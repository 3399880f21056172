-- ===== src/Tests/GcTests.antt =====
-- Sweeps over a provider that holds one object.
use obsideo_provider.Base.{
  ◌*◌, ◌≡◌, ◌⊎◌, refl, none, some, List, [], ◌∷◌, String, true, false, Result, ok, arith,
}
use obsideo_provider.Base.Int.{pos}
use obsideo_provider.Base.Time.{Time, sub}
use obsideo_provider.Base.Dir.{lookup, has, remove, insert}
use obsideo_provider.Store.Disk.{Disk, empty_disk, parsed, Coverage, ObjectFile}
use obsideo_provider.Store.Records.{delete_index_and_ownership, delete_coverage, get_coverage}
use obsideo_provider.Store.Objects.{is_hex_name, list}
use obsideo_provider.Gc.Config.{Config, hour, quarantine, retention_non_contracted}
use obsideo_provider.Gc.Quarantine.{
  moves, list_quarantined, unlink_from_quarantine, object_mtime, object_size, move_to_quarantine,
}
use obsideo_provider.Gc.Recheck.{RootStatus, reclaimable, recheck_answer, QueryError}
use obsideo_provider.Gc.Sweeper.{
  World, Metrics, run_once, run_phases, start_sweep, sweep_entries, process_entry, unlink_entry,
  scan_roots, sweep_roots, finish_sweep, count_candidates, process_root, consider, anchor,
  quarantine_root,
}
use obsideo_provider.Gc.Steps.{held}
use obsideo_provider.Gc.Safety.{AnyExpired}
use obsideo_provider.System.Reclaim.{IsHeldOn, run_once-KeptOrExpired}
use obsideo_provider.Gc.Retention.{IsDue, run_once-IsDue}
use obsideo_provider.Gc.Reclaims.{RunsThrough, two_sweeps_reclaim}

abbrev pub cfg : Config
cfg = record {
  enabled = true;
  retention_non_contracted_hours = pos 48;
  quarantine_hours = pos 6;
  sweep_interval_hours = pos 6;
}

-- The coordinator releases every object, and no system call fails.
abbrev pub world : Time → World
world t = record {
  now = t;
  recheck = λ _ _. reclaimable;
  cancelled = λ _ _. false;
  lists_quarantine = true;
  lists_objects = true;
  entry_stats = λ _. true;
  mtime_stats = λ _. true;
  size_stats = λ _. true;
  restores = λ _. true;
  unlinks = λ _. true;
  coverage_writes = λ _. true;
  coverage_removes = λ _. true;
  removes = λ _ _. true;
  move_fault = λ _. moves;
}

abbrev pub no_metrics : Metrics
no_metrics = record {
  sweeps_ok = 0;
  sweeps_error = 0;
  candidates_seen = 0;
  quarantined = 0;
  unlinked = 0;
  recovered = 0;
  recheck_network = 0;
  recheck_timeout = 0;
  recheck_5xx = 0;
  recheck_parse = 0;
  gauge_marked_uncontracted = pos 0;
  gauge_quarantined = pos 0;
  gauge_quarantine_bytes = pos 0;
}

abbrev file : ObjectFile
file = record { contents = 1 ∷ []; mtime = 0 }

abbrev pub quarantined_disk : Disk
quarantined_disk = record empty_disk { quarantine = ("ab", file) ∷ [] }

abbrev released : Coverage
released = record {
  status = "uncovered";
  reclaimable = true;
  until = "";
  reason = "";
  refreshed_at = 0;
  first_seen_uncovered = some 0;
  first_seen_reclaimable = some 0;
}

abbrev live_disk : Disk
live_disk = record empty_disk {
  objects = ("ab", file) ∷ [];
  coverage = ("ab", parsed released) ∷ [];
}

pub held_before : held "ab" quarantined_disk ≡ true
unfolding lookup
held_before = refl

pub held_after :
    held "ab" (run_once (world (6 * hour)) cfg quarantined_disk no_metrics).1.disk ≡ false
unfolding run_once run_phases start_sweep sweep_entries process_entry unlink_entry
    unlink_from_quarantine delete_index_and_ownership delete_coverage scan_roots sweep_roots
    finish_sweep count_candidates list_quarantined is_hex_name list lookup remove insert sub
    quarantine process_root get_coverage consider anchor object_mtime quarantine_root object_size
    move_to_quarantine retention_non_contracted
held_after = refl

run_once-KeptOrExpired_example :
    IsHeldOn "ab" quarantined_disk
      (run_once (world (6 * hour)) cfg quarantined_disk no_metrics).1.disk
    ⊎ (AnyExpired
          (world (6 * hour))
          cfg
          "ab"
          6
          (list_quarantined (world (6 * hour)).entry_stats quarantined_disk)
        × (has "ab" quarantined_disk.objects ≡ false))
run_once-KeptOrExpired_example =
    run_once-KeptOrExpired (world (6 * hour)) cfg "ab" 6 refl (omega arith) (omega arith)
      quarantined_disk no_metrics held_before

live_before : has "ab" live_disk.objects ≡ true
unfolding lookup
live_before = refl

unquarantined : lookup "ab" live_disk.quarantine ≡ none
unfolding lookup
unquarantined = refl

moved_after :
    has "ab" (run_once (world (48 * hour)) cfg live_disk no_metrics).1.disk.objects ≡ false
unfolding run_once run_phases start_sweep sweep_entries process_entry unlink_entry
    unlink_from_quarantine delete_index_and_ownership delete_coverage scan_roots sweep_roots
    finish_sweep count_candidates list_quarantined is_hex_name list lookup remove insert sub
    quarantine process_root get_coverage consider anchor object_mtime quarantine_root object_size
    move_to_quarantine retention_non_contracted
moved_after = refl

run_once-IsDue_example : IsDue (world (48 * hour)) cfg "ab" 48 live_disk
run_once-IsDue_example =
    run_once-IsDue (world (48 * hour)) cfg "ab" 48 live_disk no_metrics refl (omega arith)
      (omega arith) live_before unquarantined moved_after

abbrev answer : Result QueryError (List (String × RootStatus))
answer = ok (
    (
      "ab",
      record {
        status = "uncovered";
        reclaimable = some true;
        contracted = false;
        until = "";
        reason = "";
      },
    )
    ∷ [])

released_answer : recheck_answer "ab" answer ≡ reclaimable
unfolding recheck_answer lookup
released_answer = refl

runs_through : (t : Time) → RunsThrough (world t)
runs_through t = record { uncancelled = λ _ _. refl; lists_quarantine = refl; lists_objects = refl }

two_sweeps_reclaim_example :
    held "ab"
      (run_once
        (world (54 * hour))
        cfg
        (run_once (world (48 * hour)) cfg live_disk no_metrics).1.disk
        no_metrics).1.disk
    ≡ false
unfolding is_hex_name lookup sub quarantine retention_non_contracted
two_sweeps_reclaim_example =
    two_sweeps_reclaim cfg "ab" file released (world (48 * hour)) (world (54 * hour)) live_disk
      no_metrics no_metrics (runs_through (48 * hour)) (runs_through (54 * hour))
      (record { object = refl; no_quarantine = refl; record_there = refl })
      (record {
        hex = refl;
        due = refl;
        marker_old = refl;
        file_old = refl;
        released = refl;
        sized = refl;
        moved = refl;
      })
      (record { hex = refl; read = refl; waited = refl; released = refl; unlinked = refl })
