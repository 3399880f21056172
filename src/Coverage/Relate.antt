-- ===== src/Coverage/Relate.antt =====
-- What a refresh of coverage/refresher.go does to the store, as a relation between the disk after it and
-- before: it is enough that the relation holds of the write of a coverage record.
use obsideo_provider.Base.{
  ℕ, zero, suc, inl, inr, List, [], ◌∷◌, String, Bool, Option-cases, Result-cases, take, drop,
}
use obsideo_provider.Base.Time.{Time}
use obsideo_provider.Base.Dir.{lookup}
use obsideo_provider.Store.Disk.{Disk, CoverageAnswer}
use obsideo_provider.Store.Records.{update_coverage}
use obsideo_provider.Gc.Relate.{IsOrder}
use obsideo_provider.Coverage.Client.{Response}
use obsideo_provider.Coverage.Refresher.{
  Coordinator, Refresh, answer_of, refresh_root, refresh_roots, refresh_batch, refresh_loop,
  refresh,
}

module _ (R : Disk → Disk → Type 0) (order : IsOrder R)
    (updates : (writes : Bool) (name : String) (answer : CoverageAnswer) (now : Time) (disk : Disk)
      → R (update_coverage writes name answer now disk).1 disk)
    (w : Coordinator) where
  refresh_root-Related :
      (now : Time) (resp : Response) (root : String) (s : Refresh)
      → R (refresh_root w now resp root s).disk s.disk
  unfolding refresh_root
  refresh_root-Related now resp root s = elim (Option-cases (lookup root resp)) [
    | inl missing ↦ rw (refresh_root, missing) (order.refl s.disk)
    | inr (rs, found) ↦
        let one = updates (w.writes root) root (answer_of rs) now s.disk in
        elim (Result-cases (update_coverage (w.writes root) root (answer_of rs) now s.disk).0) [
          | inr (x, bad) ↦ rw (refresh_root, found, bad) one
          | inl (x, fine) ↦ rw (refresh_root, found, fine) one
        ]
  ]

  refresh_roots-Related :
      (now : Time) (resp : Response) (roots : List String) (s : Refresh)
      → R (refresh_roots w now resp roots s).disk s.disk
  unfolding refresh_roots
  refresh_roots-Related now resp [] s = order.refl s.disk
  refresh_roots-Related now resp (root ∷ roots) s =
      order.trans _ _ _ (refresh_roots-Related now resp roots (refresh_root w now resp root s))
        (refresh_root-Related now resp root s)

  refresh_batch-Related :
      (batch : List String) (s : Refresh) → R (refresh_batch w batch s).disk s.disk
  unfolding refresh_batch
  refresh_batch-Related batch s = elim (Result-cases (w.ask batch)) [
    | inr (x, bad) ↦ rw (refresh_batch, bad) (order.refl s.disk)
    | inl (resp, fine) ↦ rw (refresh_batch, fine) (refresh_roots-Related (w.now batch) resp batch s)
  ]

  refresh_loop-Related :
      (fuel size : ℕ) (roots : List String) (s : Refresh)
      → R (refresh_loop w fuel size roots s).disk s.disk
  unfolding refresh_loop
  refresh_loop-Related zero size roots s = order.refl s.disk
  refresh_loop-Related (suc fuel) size [] s = order.refl s.disk
  refresh_loop-Related (suc fuel) size (root ∷ roots) s =
      let batch = take size (root ∷ roots) in
      order.trans _ _ _
        (refresh_loop-Related fuel size (drop size (root ∷ roots)) (refresh_batch w batch s))
        (refresh_batch-Related batch s)

  pub refresh-Related : (size : ℕ) (disk : Disk) → R (refresh w size disk).disk disk
  unfolding refresh
  refresh-Related size disk = refresh_loop-Related _ _ _ _
