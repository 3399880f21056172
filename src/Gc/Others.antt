-- ===== src/Gc/Others.antt =====
-- The operations of a sweep of gc/sweeper.go on one name, seen from another name.
use obsideo_provider.Base.{
  ◌≡◌, refl, ap, ◌∙◌, none, List, [], ◌∷◌, String, Bool, Bool-cases, inl, inr, false, arith, str_eq,
}
use obsideo_provider.Base.Time.{Time}
use obsideo_provider.Base.Dir.{lookup, lookup-insert, lookup-remove}
use obsideo_provider.Store.Disk.{Disk, ObjectFile}
use obsideo_provider.Store.Records.{delete_index_and_ownership}
use obsideo_provider.Gc.Quarantine.{
  MoveFault, QuarantineEntry, entries_of, restore_from_quarantine, move_to_quarantine,
}
use obsideo_provider.Gc.Steps.{
  update_coverage_other, delete_coverage_other, restore_other, restore-coverage, unlink-coverage,
  unlink-objects, unlink-quarantine, move-objects, move-coverage, update_coverage-SameObjects,
  delete_coverage-SameObjects,
}
use obsideo_provider.Gc.Config.{Config}
use obsideo_provider.Gc.Sweeper.{World, Sweep, process_entry, sweep_entries, scan_quarantine}
use obsideo_provider.Gc.Relate.{IsOrder, Operations, process_entry-Related}

-- The object, the quarantined file and the coverage record under the name are the same.
pub record SameAt (m : String) (after before : Disk) : Type 0 where
  pub objects : lookup m after.objects ≡ lookup m before.objects
  pub quarantine : lookup m after.quarantine ≡ lookup m before.quarantine
  pub coverage : lookup m after.coverage ≡ lookup m before.coverage

pub SameAt-IsOrder : (m : String) → IsOrder (SameAt m)
SameAt-IsOrder m = record {
  refl = λ d. record { objects = refl; quarantine = refl; coverage = refl };
  trans = λ c b a one two. record {
    objects = one.objects ∙ two.objects;
    quarantine = one.quarantine ∙ two.quarantine;
    coverage = one.coverage ∙ two.coverage;
  };
}

module _ (k m : String) (other : str_eq k m ≡ false) (disk : Disk) where
  restore_quarantine_other :
      (succeeds : Bool)
      → lookup m (restore_from_quarantine succeeds k disk).1.quarantine ≡ lookup m disk.quarantine
  unfolding restore_from_quarantine
  restore_quarantine_other succeeds = ground (arith, lookup-remove k m disk.quarantine)

  move_quarantine_other :
      (fault : MoveFault) (now : Time)
      → lookup m (move_to_quarantine fault k now disk).1.quarantine ≡ lookup m disk.quarantine
  unfolding move_to_quarantine
  move_quarantine_other fault now = grind (arith, lookup-insert)

pub SameAt-Operations : (k m : String) → str_eq k m ≡ false → Operations (SameAt m) k
unfolding delete_index_and_ownership
SameAt-Operations k m other = record {
  restores = λ succeeds disk. record {
    objects = restore_other k m other disk succeeds;
    quarantine = restore_quarantine_other k m other disk succeeds;
    coverage = ap (lookup m) (restore-coverage succeeds k disk);
  };
  unlinks = λ succeeds disk. record {
    objects = ap (lookup m) (unlink-objects succeeds k m disk);
    quarantine = unlink-quarantine succeeds k m disk other;
    coverage = ap (lookup m) (unlink-coverage succeeds k disk);
  };
  moves = λ fault now disk. record {
    objects = move-objects fault k m now disk other;
    quarantine = move_quarantine_other k m other disk fault now;
    coverage = ap (lookup m) (move-coverage fault k m now disk);
  };
  updates = λ writes answer now disk.
      let same = update_coverage-SameObjects writes k answer now disk in
      record {
        objects = ap (lookup m) same.objects;
        quarantine = ap (lookup m) same.quarantine;
        coverage = update_coverage_other k m other disk writes answer now;
      };
  deletes = λ removes disk.
      let same = delete_coverage-SameObjects removes k disk in
      record {
        objects = ap (lookup m) same.objects;
        quarantine = ap (lookup m) same.quarantine;
        coverage = delete_coverage_other k m other disk removes;
      };
  cleans = λ removes disk. record { objects = refl; quarantine = refl; coverage = refl };
}

-- No entry has the name.
abbrev pub NoEntry : String → List QuarantineEntry → Type 0
NoEntry m [] = Unit {0}
NoEntry m (e ∷ es) = (str_eq e.merkle_hex m ≡ false) × NoEntry m es

pub entries_of-NoEntry :
    (m : String) (stats : String → Bool) (files : List (String × ObjectFile))
    → lookup m files ≡ none
    → NoEntry m (entries_of stats files)
unfolding entries_of lookup
entries_of-NoEntry m stats [] h = tt
entries_of-NoEntry m stats ((name, file) ∷ files) h =
    ground (arith, entries_of-NoEntry m stats files)

module _ (w : World) (cfg : Config) (m : String) where
  pub process_entry-other :
      (e : QuarantineEntry) (s : Sweep)
      → str_eq e.merkle_hex m ≡ false
      → SameAt m (process_entry w cfg e s).disk s.disk
  process_entry-other e s other =
      process_entry-Related (SameAt m) (SameAt-IsOrder m) w cfg e s
        (SameAt-Operations e.merkle_hex m other)

  pub sweep_entries-other :
      (es : List QuarantineEntry) (s : Sweep)
      → NoEntry m es
      → SameAt m (sweep_entries w cfg es s).0.disk s.disk
  unfolding sweep_entries
  sweep_entries-other [] s h = (SameAt-IsOrder m).refl s.disk
  sweep_entries-other (e ∷ es) s h = elim (Bool-cases (w.cancelled scan_quarantine e.merkle_hex)) [
    | inl stopped ↦ rw (sweep_entries, stopped) ((SameAt-IsOrder m).refl s.disk)
    | inr goes_on ↦
        rw (sweep_entries, goes_on)
          ((SameAt-IsOrder m).trans _ _ _ (sweep_entries-other es (process_entry w cfg e s) h.1)
            (process_entry-other e s h.0))
  ]
