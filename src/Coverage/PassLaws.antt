-- ===== src/Coverage/PassLaws.antt =====
-- Every held root gets its turn in a refresh of coverage/refresher.go.
use mathlib.Core.List.{append_assoc}
use obsideo_provider.Base.{
  ℕ, zero, suc, ◌+◌, ◌≤◌, ◌<◌, ◌≡◌, refl, ap, ◌∙◌, ◌⊎◌, inl, inr, none, some, List, [], ◌∷◌, ◌++◌,
  sym, take-append-drop, String, true, false, arith, ◌==◌, eq_iff, if◌then◌else◌, length,
  length-drop, take, drop, ok, err, Option-cases, Result-cases, Bool-cases,
}
use obsideo_provider.Base.Time.{Time}
use obsideo_provider.Base.Dir.{lookup, insert, lookup-insert}
use obsideo_provider.Store.Disk.{Disk, parsed, unreadable, Coverage, CoverageAnswer, read_file}
use obsideo_provider.Store.Records.{update_coverage, next_coverage, get_coverage}
use obsideo_provider.Store.Objects.{list}
use obsideo_provider.Gc.Recheck.{QueryError, may_reclaim}
use obsideo_provider.Coverage.Client.{Response}
use obsideo_provider.Coverage.Refresher.{
  Coordinator, Refresh, answer_of, refresh_root, refresh_roots, refresh_batch, refresh_loop,
  refresh,
}
use obsideo_provider.Coverage.Counts.{refresh_loop-handled}
use obsideo_provider.Coverage.RefresherLaws.{
  Asks, IsBatch, Answered, KeptOrAnswered, Answered-later, refresh_root_disk,
  refresh_root-KeptOrAnswered, refresh_roots-KeptOrAnswered, refresh_batch-KeptOrAnswered,
  refresh_loop-KeptOrAnswered,
}

Asks-take-drop :
    (m : String) (n : ℕ) (roots : List String)
    → Asks m roots
    → Asks m (take n roots) ⊎ Asks m (drop n roots)
Asks-take-drop m zero roots asks = inr asks
Asks-take-drop m (suc n) [] asks = inr asks
Asks-take-drop m (suc n) (root ∷ roots) (inl here) = inl (inl here)
Asks-take-drop m (suc n) (root ∷ roots) (inr behind) = elim (Asks-take-drop m n roots behind) [
  | inl first ↦ inl (inr first)
  | inr rest ↦ inr rest
]

-- A write that succeeds, of a record that can be read if it is there.
update_coverage-written :
    (root : String) (answer : CoverageAnswer) (now : Time) (disk : Disk)
    → (lookup root disk.coverage ≡ some unreadable)
      ⊎ ((cov : Coverage) × (cov.reclaimable ≡ answer.reclaimable)
          × ((update_coverage true root answer now disk).1.coverage
              ≡ insert root (parsed cov) disk.coverage))
unfolding update_coverage get_coverage read_file next_coverage
update_coverage-written root answer now disk = elim (Option-cases (lookup root disk.coverage)) [
  | inl p ↦ inr (next_coverage none answer now, refl, rw (p, update_coverage, get_coverage) refl)
  | inr (unreadable, p) ↦ inl p
  | inr (parsed prior, p) ↦
      inr (next_coverage (some prior) answer now, refl, rw (p, update_coverage, get_coverage) refl)
]

module _ (w : Coordinator) (all : List String) where
  -- What came of a root: the query for its batch failed, the answer left it out, its record could not be
  -- written, or not read before, or it is as the answer says.
  pub data Outcome (m : String) (before after : Disk) : Type 0 where
    refused :
        (batch : List String) (e : QueryError)
        → IsBatch all batch
        → Asks m batch
        → w.ask batch ≡ err e
        → Outcome m before after
    left_out :
        (batch : List String) (resp : Response)
        → IsBatch all batch
        → Asks m batch
        → w.ask batch ≡ ok resp
        → lookup m resp ≡ none
        → Outcome m before after
    unwritten : w.writes m ≡ false → Outcome m before after
    unread : lookup m before.coverage ≡ some unreadable → Outcome m before after
    answered : Answered w all m after → Outcome m before after

  Outcome-later :
      (m : String) (a b d : Disk) → Outcome m a b → KeptOrAnswered w all m b d → Outcome m a d
  Outcome-later m a b d (refused batch e is_batch asks p) kept = refused batch e is_batch asks p
  Outcome-later m a b d (left_out batch resp is_batch asks p missing) kept =
      left_out batch resp is_batch asks p missing
  Outcome-later m a b d (unwritten p) kept = unwritten p
  Outcome-later m a b d (unread p) kept = unread p
  Outcome-later m a b d (answered p) (inr again) = answered again
  Outcome-later m a b d (answered p) (inl same) = answered (Answered-later w all m b d same p)

  Outcome-earlier :
      (m : String) (a b d : Disk) → KeptOrAnswered w all m a b → Outcome m b d → Outcome m a d
  Outcome-earlier m a b d kept (refused batch e is_batch asks p) = refused batch e is_batch asks p
  Outcome-earlier m a b d kept (left_out batch resp is_batch asks p missing) =
      left_out batch resp is_batch asks p missing
  Outcome-earlier m a b d kept (unwritten p) = unwritten p
  Outcome-earlier m a b d (inl same) (unread p) = unread (sym same ∙ p)
  Outcome-earlier m a b d (inr found) (unread p) = absurd (ground (arith, sym found.recorded ∙ p))
  Outcome-earlier m a b d kept (answered p) = answered p

  refresh_root-Outcome :
      (m : String) (batch : List String) (now : Time) (resp : Response) (s : Refresh)
      → IsBatch all batch
      → Asks m batch
      → w.ask batch ≡ ok resp
      → Outcome m s.disk (refresh_root w now resp m s).disk
  unfolding may_reclaim
  refresh_root-Outcome m batch now resp s is_batch asks asked =
      elim (Option-cases (lookup m resp)) [
        | inl missing ↦ left_out batch resp is_batch asks asked missing
        | inr (rs, named) ↦ elim (Bool-cases (w.writes m)) [
          | inr fails ↦ unwritten fails
          | inl writes ↦ elim (update_coverage-written m (answer_of rs) now s.disk) [
            | inl p ↦ unread p
            | inr (cov, says, put) ↦
                let itself = (eq_iff m m).1 refl in
                let stored : lookup m
                      (update_coverage (w.writes m) m (answer_of rs) now s.disk).1.coverage
                    ≡ some (parsed cov) =
                  rw writes (
                    ap (lookup m) put
                    ∙ lookup-insert m m (parsed cov) s.disk.coverage
                    ∙ ground (arith, itself)) in
                answered (record {
                  batch = batch;
                  resp = resp;
                  rs = rs;
                  cov = cov;
                  is_batch = is_batch;
                  asks = asks;
                  asked = asked;
                  named = named;
                  recorded =
                      ap (λ d. lookup m d.coverage) (refresh_root_disk w all now resp m rs s named)
                      ∙ stored;
                  as_answered = λ b e. ground (arith, says, e);
                  as_contracted = λ e. ground (arith, says, e);
                })
          ]
        ]
      ]

  refresh_roots-Outcome :
      (m : String) (batch : List String) (now : Time) (resp : Response) (roots : List String)
      (s : Refresh)
      → IsBatch all batch
      → ((k : String) → Asks k roots → Asks k batch)
      → w.ask batch ≡ ok resp
      → Asks m roots
      → Outcome m s.disk (refresh_roots w now resp roots s).disk
  unfolding refresh_roots
  refresh_roots-Outcome m batch now resp [] s is_batch among asked asks = elim asks [ ]
  refresh_roots-Outcome m batch now resp (root ∷ roots) s is_batch among asked (inl here) =
      let next = refresh_root w now resp root s in
      let mine : Asks m batch = among m (inl here) in
      Outcome-later m s.disk next.disk _
        (rw here (refresh_root-Outcome m batch now resp s is_batch mine asked))
        (refresh_roots-KeptOrAnswered w all m batch now resp roots next is_batch
          (λ k behind. among k (inr behind)) asked)
  refresh_roots-Outcome m batch now resp (root ∷ roots) s is_batch among asked (inr behind) =
      let next = refresh_root w now resp root s in
      Outcome-earlier m s.disk next.disk _
        (refresh_root-KeptOrAnswered w all m batch now resp root s is_batch (among root (inl refl))
          asked)
        (refresh_roots-Outcome m batch now resp roots next is_batch (λ k p. among k (inr p)) asked
          behind)

  refresh_batch-Outcome :
      (m : String) (batch : List String) (s : Refresh)
      → IsBatch all batch
      → Asks m batch
      → Outcome m s.disk (refresh_batch w batch s).disk
  unfolding refresh_batch
  refresh_batch-Outcome m batch s is_batch asks = elim (Result-cases (w.ask batch)) [
    | inr (e, p) ↦ refused batch e is_batch asks p
    | inl (resp, p) ↦
        rw (p, refresh_batch)
          (refresh_roots-Outcome m batch (w.now batch) resp batch s is_batch (λ k here. here) p
            asks)
  ]

  refresh_loop-Outcome :
      (m : String) (fuel size : ℕ) (before roots : List String) (s : Refresh)
      → all ≡ before ++ roots
      → 0 < size
      → length roots ≤ fuel
      → Asks m roots
      → Outcome m s.disk (refresh_loop w fuel size roots s).disk
  unfolding refresh_loop
  refresh_loop-Outcome m fuel size before [] s whole h k asks = elim asks [ ]
  refresh_loop-Outcome m zero size before (root ∷ roots) s whole h k asks = absurd (omega arith)
  refresh_loop-Outcome m (suc fuel) size before (root ∷ roots) s whole h k asks =
      let batch = take size (root ∷ roots) in
      let rest = drop size (root ∷ roots) in
      let next = refresh_batch w batch s in
      let split : all ≡ before ++ (batch ++ rest) =
        whole ∙ ap (λ t. before ++ t) (sym (take-append-drop size (root ∷ roots))) in
      let regrouped = split ∙ sym (append_assoc before batch rest) in
      elim (Asks-take-drop m size (root ∷ roots) asks) [
        | inl now ↦
            Outcome-later m s.disk next.disk _
              (refresh_batch-Outcome m batch s (before, rest, split) now)
              (refresh_loop-KeptOrAnswered w all m fuel size (before ++ batch) rest next regrouped)
        | inr later ↦
            Outcome-earlier m s.disk next.disk _
              (refresh_batch-KeptOrAnswered w all m batch s (before, rest, split))
              (refresh_loop-Outcome m fuel size (before ++ batch) rest next regrouped h
                (omega (arith, length-drop size (root ∷ roots))) later)
      ]

module _ (w : Coordinator) where
  -- A refresh comes to every held root, whatever the size of its batches: the query for a batch with the
  -- root fails, or the answer leaves the root out, or its record cannot be read or written, or the record
  -- says what the answer says. As many roots as are held are counted, as updated or as failed.
  pub refresh-Outcome :
      (batch_size : ℕ) (disk : Disk)
      → ((m : String)
          → Asks m (list disk)
          → Outcome w (list disk) m disk (refresh w batch_size disk).disk)
        × ((refresh w batch_size disk).updated + (refresh w batch_size disk).failed
            ≡ length (list disk))
  unfolding refresh
  refresh-Outcome batch_size disk =
      let size = if batch_size == 0 then 500 else batch_size in
      let positive : 0 < size = ground arith in
      let start : Refresh = record { disk = disk; updated = 0; failed = 0 } in
      (
        λ m asks.
            refresh_loop-Outcome w (list disk) m (length (list disk)) size [] (list disk) start refl
              positive (omega arith) asks,
        omega (
          arith,
          refresh_loop-handled w (length (list disk)) size (list disk) start positive (omega arith),
        ),
      )
