-- ===== src/Gc/Liveness.antt =====
-- The second loop of a sweep of gc/sweeper.go, for an object that is released.
use text.Mathlib.TextPositions.{eq_refl}
use obsideo_provider.Base.{
  length, ℕ, ◌≡◌, ◌⊎◌, refl, sym, ap, subst, ◌∙◌, inl, inr, none, some, List, [], ◌∷◌, String, true,
  false, arith, str_eq, eq_iff, ok, Bool-cases,
}
use obsideo_provider.Base.Time.{Time, shorter, sub}
use obsideo_provider.Base.Dir.{lookup, names, lookup-insert, lookup-remove}
use obsideo_provider.Store.Disk.{Disk, Coverage, ObjectFile, parsed, read_file}
use obsideo_provider.Store.Records.{get_coverage, preserved_or}
use obsideo_provider.Store.Objects.{is_hex_name, keep_hex}
use obsideo_provider.Gc.Config.{Config, retention_non_contracted}
use obsideo_provider.Gc.Recheck.{reclaimable}
use obsideo_provider.Gc.Quarantine.{moved_in, moves, move_to_quarantine, object_size, object_mtime}
use obsideo_provider.Gc.Sweeper.{
  Phase, World, Sweep, quarantine_root, anchor, consider, process_root, sweep_roots, scan_objects,
  mark_root,
}
use obsideo_provider.Gc.Relate.{process_root-Related}
use obsideo_provider.Gc.Others.{SameAt, SameAt-IsOrder, SameAt-Operations}

-- Live under the name, with a coverage record, and not in quarantine.
pub record IsLive (m : String) (file : ObjectFile) (cov : Coverage) (disk : Disk) : Type 0 where
  pub object : lookup m disk.objects ≡ some file
  pub no_quarantine : lookup m disk.quarantine ≡ none
  pub record_there : lookup m disk.coverage ≡ some (parsed cov)

-- In quarantine since the instant, and not live.
pub record IsHeld (m : String) (since : Time) (disk : Disk) : Type 0 where
  pub contents : List ℕ
  pub no_object : lookup m disk.objects ≡ none
  pub there : lookup m disk.quarantine ≡ some (record { contents = contents; mtime = since })

-- Nowhere.
pub record IsGone (m : String) (disk : Disk) : Type 0 where
  pub no_object : lookup m disk.objects ≡ none
  pub no_quarantine : lookup m disk.quarantine ≡ none

-- The name is among these.
abbrev Among : String → List String → Type 0
Among m [] = ⊥
Among m (name ∷ rest) = (name ≡ m) ⊎ Among m rest

pub keep_hex-Among :
    (m : String) (ns : List String) → is_hex_name m ≡ true → Among m ns → Among m (keep_hex ns)
unfolding keep_hex
keep_hex-Among m [] hex out = absurd out
keep_hex-Among m (n ∷ ns) hex (inl here) =
    let same : is_hex_name n ≡ true = ap is_hex_name here ∙ hex in rw same (inl here)
keep_hex-Among m (n ∷ ns) hex (inr behind) = elim (Bool-cases (is_hex_name n)) [
  | inl kept ↦ rw kept (inr (keep_hex-Among m ns hex behind))
  | inr left ↦ rw left (keep_hex-Among m ns hex behind)
]

pub lookup-Among :
    (m : String) (dir : List (String × ObjectFile)) (f : ObjectFile)
    → lookup m dir ≡ some f
    → Among m (names dir)
unfolding lookup
lookup-Among m [] f e = cc
lookup-Among m ((name, g) ∷ dir) f e = elim (Bool-cases (str_eq name m)) [
  | inl here ↦ inl ((eq_iff name m).0 here)
  | inr other ↦ inr (lookup-Among m dir f (ground (arith, e, other)))
]

module _ (w : World) (cfg : Config) (m : String) where
  -- Nothing stands in the way of the sweep, and the coordinator releases the object.
  pub record Moves (file : ObjectFile) (cov : Coverage) : Type 0 where
    pub hex : is_hex_name m ≡ true
    pub due : cov.reclaimable ≡ true
    pub marker_old :
        shorter
          (sub w.now (preserved_or cov.first_seen_reclaimable w.now))
          (retention_non_contracted cfg)
        ≡ false
    pub file_old : shorter (sub w.now file.mtime) (retention_non_contracted cfg) ≡ false
    pub released : w.recheck scan_objects m ≡ reclaimable
    pub sized : w.size_stats m ≡ true
    pub moved : w.move_fault m ≡ moves

  anchor-Moves :
      (file : ObjectFile) (cov : Coverage) (disk : Disk)
      → Moves file cov
      → lookup m disk.objects ≡ some file
      → shorter (sub w.now (anchor w cfg m cov disk)) (retention_non_contracted cfg) ≡ false
  unfolding anchor object_mtime
  anchor-Moves file cov disk hyp there = ground (arith, there, hyp.marker_old, hyp.file_old)

  -- The name's own round in the second loop moves it.
  process_root-IsHeld :
      (file : ObjectFile) (cov : Coverage) (s : Sweep)
      → Moves file cov
      → IsLive m file cov s.disk
      → IsHeld m w.now (process_root w cfg m s).disk
  unfolding process_root consider quarantine_root get_coverage read_file object_size
      move_to_quarantine
  process_root-IsHeld file cov s hyp live =
      let read : get_coverage m s.disk ≡ ok cov = rw (get_coverage, live.record_there) refl in
      let size : object_size (w.size_stats m) m s.disk ≡ ok (length file.contents) =
        rw (object_size, live.object, hyp.sized) refl in
      let taken : ObjectFile = record file { mtime = w.now } in
      let move : move_to_quarantine (w.move_fault m) m w.now s.disk
          ≡ (ok tt, moved_in m taken s.disk) =
        rw (hyp.moved, move_to_quarantine, live.object) refl in
      let one : (process_root w cfg m s).disk ≡ (consider w cfg m cov s).disk =
        ground (arith, read, hyp.due) in
      let two : (consider w cfg m cov s).disk ≡ (quarantine_root w cfg m (mark_root w cfg s)).disk =
        rw (consider, anchor-Moves file cov s.disk hyp live.object, hyp.released) refl in
      let three : (quarantine_root w cfg m (mark_root w cfg s)).disk ≡ moved_in m taken s.disk =
        rw (quarantine_root, size, ap (λ r. r.0) move) (ap (λ r. r.1) move) in
      rw (one ∙ two ∙ three) (record {
        contents = file.contents;
        no_object = ground (arith, lookup-remove m m s.disk.objects, eq_refl m);
        there = ground (arith, lookup-insert m m taken s.disk.quarantine, eq_refl m);
      })

  -- Once it has gone from objects/, its own round does nothing.
  process_root_absent :
      (s : Sweep) → lookup m s.disk.objects ≡ none → (process_root w cfg m s).disk ≡ s.disk
  unfolding process_root consider quarantine_root object_size
  process_root_absent s none_there = ground (arith, none_there)

  pub SameAt-IsLive :
      (file : ObjectFile) (cov : Coverage) (after before : Disk)
      → SameAt m after before
      → IsLive m file cov before
      → IsLive m file cov after
  SameAt-IsLive file cov after before same live = record {
    object = same.objects ∙ live.object;
    no_quarantine = same.quarantine ∙ live.no_quarantine;
    record_there = same.coverage ∙ live.record_there;
  }

  pub SameAt-IsHeld :
      (since : Time) (after before : Disk)
      → SameAt m after before
      → IsHeld m since before
      → IsHeld m since after
  SameAt-IsHeld since after before same held = record {
    contents = held.contents;
    no_object = same.objects ∙ held.no_object;
    there = same.quarantine ∙ held.there;
  }

  pub SameAt-IsGone :
      (after before : Disk) → SameAt m after before → IsGone m before → IsGone m after
  SameAt-IsGone after before same gone = record {
    no_object = same.objects ∙ gone.no_object;
    no_quarantine = same.quarantine ∙ gone.no_quarantine;
  }

  -- A round for any name keeps what is absent from objects/ as it is.
  process_root-absent_same :
      (root : String) (s : Sweep)
      → lookup m s.disk.objects ≡ none
      → SameAt m (process_root w cfg root s).disk s.disk
  process_root-absent_same root s none_there = elim (Bool-cases (str_eq root m)) [
    | inr other ↦
        process_root-Related (SameAt m) (SameAt-IsOrder m) w cfg root s
          (SameAt-Operations root m other)
    | inl here ↦
        subst (λ n. SameAt m (process_root w cfg n s).disk s.disk) (sym ((eq_iff root m).0 here))
          (rw (process_root_absent s none_there) ((SameAt-IsOrder m).refl s.disk))
  ]

  -- The second loop over roots keeps it too.
  pub sweep_roots-absent_same :
      (roots : List String) (s : Sweep)
      → lookup m s.disk.objects ≡ none
      → SameAt m (sweep_roots w cfg roots s).0.disk s.disk
  unfolding sweep_roots
  sweep_roots-absent_same [] s none_there = (SameAt-IsOrder m).refl s.disk
  sweep_roots-absent_same (root ∷ roots) s none_there =
      let one = process_root-absent_same root s none_there in
      elim (Bool-cases (w.cancelled scan_objects root)) [
        | inl stopped ↦ rw (sweep_roots, stopped) ((SameAt-IsOrder m).refl s.disk)
        | inr goes_on ↦
            rw (sweep_roots, goes_on)
              ((SameAt-IsOrder m).trans _ _ _
                (sweep_roots-absent_same roots (process_root w cfg root s)
                  (one.objects ∙ none_there))
                one)
      ]

  module _ (uncancelled : (phase : Phase) (k : String) → w.cancelled phase k ≡ false) where
    pub sweep_roots-IsHeld :
        (file : ObjectFile) (cov : Coverage) (roots : List String) (s : Sweep)
        → Moves file cov
        → Among m roots
        → IsLive m file cov s.disk
        → IsHeld m w.now (sweep_roots w cfg roots s).0.disk
    unfolding sweep_roots
    sweep_roots-IsHeld file cov [] s hyp out live = absurd out
    sweep_roots-IsHeld file cov (root ∷ roots) s hyp among live =
        rw (sweep_roots, uncancelled scan_objects root)
          (elim (Bool-cases (str_eq root m)) [
            | inl here ↦
                let held : IsHeld m w.now (process_root w cfg root s).disk =
                  subst (λ n. IsHeld m w.now (process_root w cfg n s).disk)
                    (sym ((eq_iff root m).0 here)) (process_root-IsHeld file cov s hyp live) in
                SameAt-IsHeld w.now _ _
                  (sweep_roots-absent_same roots (process_root w cfg root s) held.no_object) held
            | inr other ↦
                let same =
                  process_root-Related (SameAt m) (SameAt-IsOrder m) w cfg root s
                    (SameAt-Operations root m other) in
                let behind : Among m roots = elim among [
                  | inl here ↦ absurd (ground (arith, other, (eq_iff root m).1 here))
                  | inr there ↦ there
                ] in
                sweep_roots-IsHeld file cov roots (process_root w cfg root s) hyp behind
                  (SameAt-IsLive file cov _ _ same live)
          ])
