-- ===== src/Coverage/RefresherLaws.antt =====
-- What a refresh of coverage/refresher.go does to the coverage records.
use mathlib.Core.List.{append_assoc}
use obsideo_provider.Base.{
  ℕ, zero, suc, ◌≡◌, refl, ap, ◌∙◌, ◌⊎◌, inl, inr, Option, none, some, List, [], ◌∷◌, ◌++◌, sym,
  not, take-append-drop, String, Bool, true, false, arith, str_eq, eq_iff, if◌then◌else◌, take,
  drop, ok, Option-cases, Result-cases, Bool-cases,
}
use obsideo_provider.Base.Time.{Time}
use obsideo_provider.Base.Dir.{lookup, insert, lookup-insert}
use obsideo_provider.Store.Disk.{
  Disk, parsed, Coverage, CoverageAnswer, not_found, ownership_exists, read_failed, missing_pubkey,
  write_failed,
}
use obsideo_provider.Store.Records.{update_coverage, next_coverage, write_coverage, get_coverage}
use obsideo_provider.Gc.Recheck.{RootStatus, may_reclaim}
use obsideo_provider.Coverage.Client.{Response}
use obsideo_provider.Coverage.Refresher.{
  Coordinator, Refresh, answer_of, refresh_root, refresh_roots, refresh_batch, refresh_loop,
}

-- The root is one of these.
abbrev pub Asks : String → List String → Type 0
Asks m [] = ⊥
Asks m (root ∷ roots) = (root ≡ m) ⊎ Asks m roots

-- Some of these roots, in a row.
abbrev pub IsBatch : (all batch : List String) → Type 0
IsBatch all batch =
    (before : List String) × (after : List String) × (all ≡ before ++ (batch ++ after))

module _ (w : Coordinator) (all : List String) where
  -- What a refresh may do to the record of a root: nothing, or what the answer to a batch with it says. An
  -- answer of an old coordinator, without the field, says that a root with a contract is to be kept.
  pub record Answered (m : String) (disk : Disk) : Type 0 where
    pub batch : List String
    pub resp : Response
    pub rs : RootStatus
    pub cov : Coverage
    pub is_batch : IsBatch all batch
    pub asks : Asks m batch
    pub asked : w.ask batch ≡ ok resp
    pub named : lookup m resp ≡ some rs
    pub recorded : lookup m disk.coverage ≡ some (parsed cov)
    pub as_answered : (b : Bool) → rs.reclaimable ≡ some b → cov.reclaimable ≡ b
    pub as_contracted : rs.reclaimable ≡ none → cov.reclaimable ≡ not rs.contracted

  abbrev pub KeptOrAnswered : String → Disk → Disk → Type 0
  KeptOrAnswered m before after =
      (lookup m after.coverage ≡ lookup m before.coverage) ⊎ Answered m after

  pub Answered-later :
      (m : String) (a b : Disk)
      → lookup m b.coverage ≡ lookup m a.coverage
      → Answered m a
      → Answered m b
  Answered-later m a b q answered = record {
    batch = answered.batch;
    resp = answered.resp;
    rs = answered.rs;
    cov = answered.cov;
    is_batch = answered.is_batch;
    asks = answered.asks;
    asked = answered.asked;
    named = answered.named;
    recorded = q ∙ answered.recorded;
    as_answered = answered.as_answered;
    as_contracted = answered.as_contracted;
  }

  pub KeptOrAnswered-trans :
      (m : String) (a b d : Disk)
      → KeptOrAnswered m a b
      → KeptOrAnswered m b d
      → KeptOrAnswered m a d
  KeptOrAnswered-trans m a b d one (inr answered) = inr answered
  KeptOrAnswered-trans m a b d (inl p) (inl q) = inl (q ∙ p)
  KeptOrAnswered-trans m a b d (inr answered) (inl q) = inr (Answered-later m b d q answered)

  write_coverage_cases :
      (writes : Bool) (root : String) (cov : Coverage) (disk : Disk)
      → ((write_coverage writes root cov disk).1.coverage ≡ disk.coverage)
        ⊎ ((write_coverage writes root cov disk).1.coverage
            ≡ insert root (parsed cov) disk.coverage)
  write_coverage_cases true root cov disk = inr refl
  write_coverage_cases false root cov disk = inl refl

  update_coverage_cases :
      (writes : Bool) (root : String) (answer : CoverageAnswer) (now : Time) (disk : Disk)
      → ((update_coverage writes root answer now disk).1.coverage ≡ disk.coverage)
        ⊎ ((cov : Coverage) × (cov.reclaimable ≡ answer.reclaimable)
            × ((update_coverage writes root answer now disk).1.coverage
                ≡ insert root (parsed cov) disk.coverage))
  unfolding update_coverage next_coverage
  update_coverage_cases writes root answer now disk = elim (Result-cases (get_coverage root disk)) [
    | inl (prior, p) ↦ rw (p, update_coverage) (write (some prior))
    | inr (not_found, p) ↦ rw (p, update_coverage) (write none)
    | inr (ownership_exists, p) ↦ inl (ground arith)
    | inr (read_failed, p) ↦ inl (ground arith)
    | inr (missing_pubkey, p) ↦ inl (ground arith)
    | inr (write_failed, p) ↦ inl (ground arith)
  ]
    where
      write :
          (prior : Option Coverage)
          → ((write_coverage writes root (next_coverage prior answer now) disk).1.coverage
              ≡ disk.coverage)
            ⊎ ((cov : Coverage) × (cov.reclaimable ≡ answer.reclaimable)
                × ((write_coverage writes root (next_coverage prior answer now) disk).1.coverage
                    ≡ insert root (parsed cov) disk.coverage))
      write prior = elim (write_coverage_cases writes root (next_coverage prior answer now) disk) [
        | inl kept ↦ inl kept
        | inr put ↦ inr (next_coverage prior answer now, refl, put)
      ]

  pub refresh_root_disk :
      (now : Time) (resp : Response) (root : String) (rs : RootStatus) (s : Refresh)
      → lookup root resp ≡ some rs
      → (refresh_root w now resp root s).disk
        ≡ (update_coverage (w.writes root) root (answer_of rs) now s.disk).1
  unfolding refresh_root
  refresh_root_disk now resp root rs s h = ground (arith, h)

  refresh_root_missing :
      (now : Time) (resp : Response) (root : String) (s : Refresh)
      → lookup root resp ≡ none
      → (refresh_root w now resp root s).disk ≡ s.disk
  unfolding refresh_root
  refresh_root_missing now resp root s h = ground (arith, h)

  pub refresh_root-KeptOrAnswered :
      (m : String) (batch : List String) (now : Time) (resp : Response) (root : String)
      (s : Refresh)
      → IsBatch all batch
      → Asks root batch
      → w.ask batch ≡ ok resp
      → KeptOrAnswered m s.disk (refresh_root w now resp root s).disk
  unfolding may_reclaim
  refresh_root-KeptOrAnswered m batch now resp root s is_batch asks asked =
      elim (Option-cases (lookup root resp)) [
        | inl missing ↦
            inl (ap (λ d. lookup m d.coverage) (refresh_root_missing now resp root s missing))
        | inr (rs, named) ↦
            let step = refresh_root_disk now resp root rs s named in
            elim (update_coverage_cases (w.writes root) root (answer_of rs) now s.disk) [
              | inl kept ↦ inl (ap (λ d. lookup m d.coverage) step ∙ ap (lookup m) kept)
              | inr (cov, says, put) ↦
                  let found : lookup m (refresh_root w now resp root s).disk.coverage
                      ≡ (if str_eq root m then some (parsed cov) else lookup m s.disk.coverage) =
                    ap (λ d. lookup m d.coverage) step
                    ∙ ap (lookup m) put
                    ∙ lookup-insert root m (parsed cov) s.disk.coverage in
                  elim (Bool-cases (str_eq root m)) [
                    | inr other ↦ inl (ground arith)
                    | inl same ↦
                        let here = (eq_iff root m).0 same in
                        inr (record {
                          batch = batch;
                          resp = resp;
                          rs = rs;
                          cov = cov;
                          is_batch = is_batch;
                          asks = rw (← here) asks;
                          asked = asked;
                          named = rw (← here) named;
                          recorded = ground arith;
                          as_answered = λ b e. ground (arith, says, e);
                          as_contracted = λ e. ground (arith, says, e);
                        })
                  ]
            ]
      ]

  pub refresh_roots-KeptOrAnswered :
      (m : String) (batch : List String) (now : Time) (resp : Response) (roots : List String)
      (s : Refresh)
      → IsBatch all batch
      → ((k : String) → Asks k roots → Asks k batch)
      → w.ask batch ≡ ok resp
      → KeptOrAnswered m s.disk (refresh_roots w now resp roots s).disk
  unfolding refresh_roots
  refresh_roots-KeptOrAnswered m batch now resp [] s is_batch among asked = inl refl
  refresh_roots-KeptOrAnswered m batch now resp (root ∷ roots) s is_batch among asked =
      let next = refresh_root w now resp root s in
      KeptOrAnswered-trans m s.disk next.disk _
        (refresh_root-KeptOrAnswered m batch now resp root s is_batch (among root (inl refl)) asked)
        (refresh_roots-KeptOrAnswered m batch now resp roots next is_batch
          (λ k behind. among k (inr behind)) asked)

  pub refresh_batch-KeptOrAnswered :
      (m : String) (batch : List String) (s : Refresh)
      → IsBatch all batch
      → KeptOrAnswered m s.disk (refresh_batch w batch s).disk
  unfolding refresh_batch
  refresh_batch-KeptOrAnswered m batch s is_batch = elim (Result-cases (w.ask batch)) [
    | inr (e, p) ↦ rw (p, refresh_batch) (inl refl)
    | inl (resp, p) ↦
        rw (p, refresh_batch)
          (refresh_roots-KeptOrAnswered m batch (w.now batch) resp batch s is_batch (λ k here. here)
            p)
  ]

  pub refresh_loop-KeptOrAnswered :
      (m : String) (fuel size : ℕ) (before roots : List String) (s : Refresh)
      → all ≡ before ++ roots
      → KeptOrAnswered m s.disk (refresh_loop w fuel size roots s).disk
  unfolding refresh_loop
  refresh_loop-KeptOrAnswered m zero size before roots s whole = inl refl
  refresh_loop-KeptOrAnswered m (suc fuel) size before [] s whole = inl refl
  refresh_loop-KeptOrAnswered m (suc fuel) size before (root ∷ roots) s whole =
      let batch = take size (root ∷ roots) in
      let rest = drop size (root ∷ roots) in
      let next = refresh_batch w batch s in
      let split : all ≡ before ++ (batch ++ rest) =
        whole ∙ ap (λ t. before ++ t) (sym (take-append-drop size (root ∷ roots))) in
      KeptOrAnswered-trans m s.disk next.disk _
        (refresh_batch-KeptOrAnswered m batch s (before, rest, split))
        (refresh_loop-KeptOrAnswered m fuel size (before ++ batch) rest next
          (split ∙ sym (append_assoc before batch rest)))
