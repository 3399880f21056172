-- ===== src/Gc/Steps.antt =====
-- What one operation of the garbage collector does to the two directories of objects.
use obsideo_provider.Base.{◌≡◌, refl, String, Bool, true, false, ◌||◌, arith, str_eq, eq_iff}
use obsideo_provider.Base.Time.{Time}
use obsideo_provider.Base.Dir.{lookup, has, lookup-insert, lookup-remove}
use obsideo_provider.Store.Disk.{Disk, CoverageAnswer}
use obsideo_provider.Store.Records.{
  FileKind, update_coverage, delete_coverage, delete_index_and_ownership,
}
use obsideo_provider.Gc.Quarantine.{
  MoveFault, move_to_quarantine, restore_from_quarantine, unlink_from_quarantine,
}

-- The bytes are on the disk, live or in quarantine.
abbrev pub held : String → Disk → Bool
held m disk = has m disk.objects || has m disk.quarantine

pub record SameObjects (a b : Disk) : Type 0 where
  pub objects : a.objects ≡ b.objects
  pub quarantine : a.quarantine ≡ b.quarantine

pub update_coverage-SameObjects :
    (writes : Bool) (k : String) (answer : CoverageAnswer) (now : Time) (disk : Disk)
    → SameObjects (update_coverage writes k answer now disk).1 disk
unfolding update_coverage
update_coverage-SameObjects writes k answer now disk = ground arith

pub delete_coverage-SameObjects :
    (removes : Bool) (k : String) (disk : Disk)
    → SameObjects (delete_coverage removes k disk).1 disk
unfolding delete_coverage
delete_coverage-SameObjects removes k disk = ground arith

pub delete_index_and_ownership-SameObjects :
    (removes : FileKind → Bool) (k : String) (disk : Disk)
    → SameObjects (delete_index_and_ownership removes k disk) disk
unfolding delete_index_and_ownership
delete_index_and_ownership-SameObjects removes k disk = record { objects = refl; quarantine = refl }

module _ (succeeds : Bool) (k m : String) (disk : Disk) where
  -- A restore loses nothing.
  pub restore-objects :
      has m disk.objects ≡ true → has m (restore_from_quarantine succeeds k disk).1.objects ≡ true
  unfolding restore_from_quarantine
  restore-objects h = grind (arith, lookup-insert, lookup-remove)

  pub restore-held : held m disk ≡ true → held m (restore_from_quarantine succeeds k disk).1 ≡ true
  unfolding restore_from_quarantine
  restore-held h = grind (arith, lookup-insert, lookup-remove)

  -- An unlink leaves the live objects, and in quarantine all but the one named.
  pub unlink-objects : (unlink_from_quarantine succeeds k disk).1.objects ≡ disk.objects
  unfolding unlink_from_quarantine
  unlink-objects = ground arith

  pub unlink-quarantine :
      str_eq k m ≡ false
      → lookup m (unlink_from_quarantine succeeds k disk).1.quarantine ≡ lookup m disk.quarantine
  unfolding unlink_from_quarantine
  unlink-quarantine h = ground (arith, lookup-remove k m disk.quarantine)

module _ (fault : MoveFault) (k m : String) (now : Time) (disk : Disk) where
  -- A move to quarantine loses nothing, and takes no object but the one named.
  pub move-held : held m disk ≡ true → held m (move_to_quarantine fault k now disk).1 ≡ true
  unfolding move_to_quarantine
  move-held h = grind (arith, lookup-insert, lookup-remove, eq_iff)

  pub move-objects :
      str_eq k m ≡ false
      → lookup m (move_to_quarantine fault k now disk).1.objects ≡ lookup m disk.objects
  unfolding move_to_quarantine
  move-objects h = ground (arith, lookup-remove k m disk.objects)

  pub move-coverage : (move_to_quarantine fault k now disk).1.coverage ≡ disk.coverage
  unfolding move_to_quarantine
  move-coverage = ground arith

  -- An object that is still there afterwards is the same file.
  pub move-objects_kept :
      has m (move_to_quarantine fault k now disk).1.objects ≡ true
      → lookup m (move_to_quarantine fault k now disk).1.objects ≡ lookup m disk.objects
  unfolding move_to_quarantine
  move-objects_kept h = ground (arith, lookup-remove k m disk.objects)

-- Operations on one name leave the file and the coverage record of another as they are.
module _ (k m : String) (other : str_eq k m ≡ false) (disk : Disk) where
  pub restore_other :
      (succeeds : Bool)
      → lookup m (restore_from_quarantine succeeds k disk).1.objects ≡ lookup m disk.objects
  unfolding restore_from_quarantine
  restore_other succeeds = grind (arith, lookup-insert)

  pub update_coverage_other :
      (writes : Bool) (answer : CoverageAnswer) (now : Time)
      → lookup m (update_coverage writes k answer now disk).1.coverage ≡ lookup m disk.coverage
  unfolding update_coverage
  update_coverage_other writes answer now = grind (arith, lookup-insert)

  pub delete_coverage_other :
      (removes : Bool)
      → lookup m (delete_coverage removes k disk).1.coverage ≡ lookup m disk.coverage
  unfolding delete_coverage
  delete_coverage_other removes = ground (arith, lookup-remove k m disk.coverage)

module _ (succeeds : Bool) (k : String) (disk : Disk) where
  pub restore-coverage : (restore_from_quarantine succeeds k disk).1.coverage ≡ disk.coverage
  unfolding restore_from_quarantine
  restore-coverage = ground arith

  pub unlink-coverage : (unlink_from_quarantine succeeds k disk).1.coverage ≡ disk.coverage
  unfolding unlink_from_quarantine
  unlink-coverage = ground arith
