-- ===== src/Coverage/Refresher.antt =====
-- `Refresher.RunOnce` of coverage/refresher.go: every held root is asked about, in batches.
use obsideo_provider.Base.{
  ℕ, zero, suc, ◌+◌, none, some, List, [], ◌∷◌, String, Bool, ◌==◌, if◌then◌else◌, length, take,
  drop, Result, ok, err,
}
use obsideo_provider.Base.Time.{Time}
use obsideo_provider.Base.Dir.{lookup}
use obsideo_provider.Store.Disk.{Disk, CoverageAnswer}
use obsideo_provider.Store.Records.{update_coverage}
use obsideo_provider.Store.Objects.{list}
use obsideo_provider.Gc.Recheck.{RootStatus, QueryError, may_reclaim}
use obsideo_provider.Coverage.Client.{Response}

-- The outcomes of the queries, the clock after each, and which writes succeed.
pub record Coordinator : Type 0 where
  pub ask : List String → Result QueryError Response
  pub now : List String → Time
  pub writes : String → Bool

pub record Refresh : Type 0 where
  pub disk : Disk
  pub updated : ℕ
  pub failed : ℕ

abbrev pub answer_of : RootStatus → CoverageAnswer
answer_of rs = record {
  status = rs.status;
  reclaimable = may_reclaim rs;
  until = rs.until;
  reason = rs.reason;
}

module _ (w : Coordinator) where
  -- One root of an answered batch.
  unfoldable pub refresh_root : Time → Response → String → Refresh → Refresh
  refresh_root now resp root s = elim (lookup root resp) [
    | none ↦ record s { failed = s.failed + 1 }
    | some rs ↦
        let (result, disk') = update_coverage (w.writes root) root (answer_of rs) now s.disk in
        elim result [
          | err _ ↦ record s { disk = disk'; failed = s.failed + 1 }
          | ok _ ↦ record s { disk = disk'; updated = s.updated + 1 }
        ]
  ]

  unfoldable pub refresh_roots : Time → Response → List String → Refresh → Refresh
  refresh_roots now resp [] s = s
  refresh_roots now resp (root ∷ roots) s =
      refresh_roots now resp roots (refresh_root now resp root s)

  -- A batch without an answer leaves the cache alone.
  unfoldable pub refresh_batch : List String → Refresh → Refresh
  refresh_batch batch s = elim (w.ask batch) [
    | err _ ↦ record s { failed = s.failed + length batch }
    | ok resp ↦ refresh_roots (w.now batch) resp batch s
  ]

  -- `for i := 0; i < total; i += batchSize`, on the roots from i on.
  unfoldable pub refresh_loop : ℕ → ℕ → List String → Refresh → Refresh
  refresh_loop zero size roots s = s
  refresh_loop (suc fuel) size [] s = s
  refresh_loop (suc fuel) size (root ∷ roots) s =
      refresh_loop fuel size (drop size (root ∷ roots)) (refresh_batch (take size (root ∷ roots)) s)

  -- The pass, once the held roots are listed; if they cannot be, it ends at once. A batch takes a
  -- root at least, so as many rounds as roots are enough.
  unfoldable pub refresh : ℕ → Disk → Refresh
  refresh batch_size disk =
      let size = if batch_size == 0 then 500 else batch_size in
      let roots = list disk in
      refresh_loop (length roots) size roots (record { disk = disk; updated = 0; failed = 0 })
