-- ===== src/Store/Records.antt =====
-- The ownership and coverage records of store/store.go.
use obsideo_provider.Base.{
  Option, none, some, List, String, Bool, true, false, ◌||◌, str_eq, if◌then◌else◌, Result, ok, err,
}
use obsideo_provider.Base.Time.{Time}
use obsideo_provider.Base.Dir.{lookup, insert, remove, has}
use obsideo_provider.Store.Disk.{
  Disk, parsed, Ownership, Coverage, CoverageAnswer, StoreError, not_found, ownership_exists,
  read_failed, missing_pubkey, write_failed, read_file,
}

abbrev pub covered : String
covered = "covered"

-- `PutOwnership`. `writes` says whether atomicWrite succeeds, `chmods` whether the chmod does.
unfoldable pub put_ownership :
    (writes chmods : Bool) → String → Ownership → Disk → Result StoreError (Unit {0}) × Disk
put_ownership writes chmods merkle own disk =
    if str_eq own.owner_pubkey "" || str_eq own.owner_sig_pubkey ""
    then (err missing_pubkey, disk)
    else if has merkle disk.ownership
    then (err ownership_exists, disk)
    else if writes
    then (let disk' : Disk = record disk {
      ownership = insert merkle (parsed own) disk.ownership;
    } in
        if chmods then (ok tt, disk') else (err write_failed, disk'))
    else (err write_failed, disk)

unfoldable pub get_ownership : String → Disk → Result StoreError Ownership
unfolding read_file
get_ownership merkle disk = read_file (lookup merkle disk.ownership)

unfoldable pub has_ownership : String → Disk → Bool
has_ownership merkle disk = has merkle disk.ownership

unfoldable pub get_coverage : String → Disk → Result StoreError Coverage
unfolding read_file
get_coverage merkle disk = read_file (lookup merkle disk.coverage)

unfoldable pub has_coverage : String → Disk → Bool
has_coverage merkle disk = has merkle disk.coverage

-- The marker of a prior record, or the time of this answer.
abbrev pub preserved_or : Option Time → Time → Time
preserved_or none now = now
preserved_or (some t) now = t

-- The next record from the prior one, if there is one: a marker is cleared while its signal is
-- good, set when it turns bad, and kept while it stays bad.
unfoldable pub next_coverage : Option Coverage → CoverageAnswer → Time → Coverage
next_coverage prior answer now =
    let prior_uncovered : Option Time = elim prior [
      | none ↦ none
      | some p ↦ p.first_seen_uncovered
    ] in
    let prior_reclaimable : Option Time = elim prior [
      | none ↦ none
      | some p ↦ p.first_seen_reclaimable
    ] in
    record {
      status = answer.status;
      reclaimable = answer.reclaimable;
      until = answer.until;
      reason = answer.reason;
      refreshed_at = now;
      first_seen_uncovered =
          if str_eq answer.status covered then none else some (preserved_or prior_uncovered now);
      first_seen_reclaimable =
          if answer.reclaimable then some (preserved_or prior_reclaimable now) else none;
    }

abbrev pub write_coverage : Bool → String → Coverage → Disk → Result StoreError (Unit {0}) × Disk
write_coverage true merkle c disk =
    (ok tt, record disk { coverage = insert merkle (parsed c) disk.coverage })
write_coverage false merkle c disk = (err write_failed, disk)

-- `UpdateCoverage`. A prior record that cannot be read stops it; a missing one does not.
unfoldable pub update_coverage :
    (writes : Bool) → String → CoverageAnswer → Time → Disk → Result StoreError (Unit {0}) × Disk
unfolding get_coverage next_coverage
update_coverage writes merkle answer now disk = elim (get_coverage merkle disk) [
  | ok prior ↦ write_coverage writes merkle (next_coverage (some prior) answer now) disk
  | err not_found ↦ write_coverage writes merkle (next_coverage none answer now) disk
  | err _ ↦ (err read_failed, disk)
]

-- `DeleteCoverage`; a record that is not there is no error.
unfoldable pub delete_coverage :
    (removes : Bool) → String → Disk → Result StoreError (Unit {0}) × Disk
delete_coverage removes merkle disk =
    if has merkle disk.coverage
    then (if removes
        then (ok tt, record disk { coverage = remove merkle disk.coverage })
        else (err write_failed, disk))
    else (ok tt, disk)

-- The files of one merkle root, for the removals whose outcomes are ignored.
pub data FileKind : Type 0 where
  object_file index_file ownership_file coverage_file : FileKind

abbrev pub remove_if {ℓ} : {V : Type ℓ} → Bool → String → List (String × V) → List (String × V)
remove_if true merkle m = remove merkle m
remove_if false merkle m = m

-- `DeleteIndexAndOwnership`; `removes` says which removals succeed.
unfoldable pub delete_index_and_ownership : (removes : FileKind → Bool) → String → Disk → Disk
delete_index_and_ownership removes merkle disk = record disk {
  index = remove_if (removes index_file) merkle disk.index;
  ownership = remove_if (removes ownership_file) merkle disk.ownership;
}

-- `Delete`: the object, its index, ownership and coverage. It reports no error.
unfoldable pub delete : (removes : FileKind → Bool) → String → Disk → Disk
delete removes merkle disk = record disk {
  objects = remove_if (removes object_file) merkle disk.objects;
  index = remove_if (removes index_file) merkle disk.index;
  ownership = remove_if (removes ownership_file) merkle disk.ownership;
  coverage = remove_if (removes coverage_file) merkle disk.coverage;
}
