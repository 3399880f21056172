-- ===== src/Coverage/Counts.antt =====
-- The counts of updated and failed roots of coverage/refresher.go, through the batches of a refresh.
use obsideo_provider.Base.{
  ℕ, zero, suc, ◌+◌, ◌≤◌, ◌<◌, ◌≡◌, inl, inr, List, [], ◌∷◌, String, arith, length, length-take,
  length-drop, take, drop, Result-cases,
}
use obsideo_provider.Base.Time.{Time}
use obsideo_provider.Coverage.Client.{Response}
use obsideo_provider.Coverage.Refresher.{
  Coordinator, Refresh, refresh_root, refresh_roots, refresh_batch, refresh_loop,
}

module _ (w : Coordinator) where
  -- The roots that a refresh has dealt with.
  abbrev handled : Refresh → ℕ
  handled s = s.updated + s.failed

  refresh_root-handled :
      (now : Time) (resp : Response) (root : String) (s : Refresh)
      → handled (refresh_root w now resp root s) ≡ handled s + 1
  unfolding refresh_root
  refresh_root-handled now resp root s = ground arith

  refresh_roots-handled :
      (now : Time) (resp : Response) (roots : List String) (s : Refresh)
      → handled (refresh_roots w now resp roots s) ≡ handled s + length roots
  unfolding refresh_roots
  refresh_roots-handled now resp [] s = omega arith
  refresh_roots-handled now resp (root ∷ roots) s = omega (
    arith,
    refresh_root-handled now resp root s,
    refresh_roots-handled now resp roots (refresh_root w now resp root s),
  )

  refresh_batch-handled :
      (batch : List String) (s : Refresh)
      → handled (refresh_batch w batch s) ≡ handled s + length batch
  unfolding refresh_batch
  refresh_batch-handled batch s = elim (Result-cases (w.ask batch)) [
    | inr (e, p) ↦ rw (p, refresh_batch) (omega arith)
    | inl (resp, p) ↦ rw (p, refresh_batch) (refresh_roots-handled (w.now batch) resp batch s)
  ]

  pub refresh_loop-handled :
      (fuel size : ℕ) (roots : List String) (s : Refresh)
      → 0 < size
      → length roots ≤ fuel
      → handled (refresh_loop w fuel size roots s) ≡ handled s + length roots
  unfolding refresh_loop
  refresh_loop-handled zero size [] s h k = omega arith
  refresh_loop-handled zero size (root ∷ roots) s h k = absurd (omega arith)
  refresh_loop-handled (suc fuel) size [] s h k = omega arith
  refresh_loop-handled (suc fuel) size (root ∷ roots) s h k =
      let all = root ∷ roots in
      let next = refresh_batch w (take size all) s in
      let shorter = length-drop size all in
      omega (
        arith,
        shorter,
        length-take size all,
        refresh_batch-handled (take size all) s,
        refresh_loop-handled fuel size (drop size all) next h (omega (arith, shorter)),
      )
