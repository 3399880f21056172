-- ===== src/Gc/Quarantine.antt =====
-- gc/quarantine.go: the moves between objects/ and quarantine/.
use obsideo_provider.Base.{
  ℕ, none, some, List, [], ◌∷◌, String, Bool, if◌then◌else◌, length, Result, ok, err,
}
use obsideo_provider.Base.Time.{Time}
use obsideo_provider.Base.Dir.{lookup, insert, remove, has}
use obsideo_provider.Store.Disk.{Disk, ObjectFile}
use obsideo_provider.Store.Objects.{is_hex_name}

-- Where a move fails, if it does; a stat that finds nothing is not a fault.
pub data MoveFault : Type 0 where
  moves mkdir_fails stat_fails rename_fails chtimes_fails : MoveFault

pub data QuarantineError : Type 0 where
  not_in_objects not_in_quarantine io_error : QuarantineError

-- The file under `dst` after the rename, with the new modification time.
abbrev pub moved_in : String → ObjectFile → Disk → Disk
moved_in merkle file disk = record disk {
  objects = remove merkle disk.objects;
  quarantine = insert merkle file disk.quarantine;
}

-- `MoveToQuarantine`: the rename keeps the old modification time, which Chtimes then sets to now;
-- if that fails the file has moved all the same.
unfoldable pub move_to_quarantine :
    MoveFault → String → Time → Disk → Result QuarantineError (Unit {0}) × Disk
move_to_quarantine mkdir_fails merkle now disk = (err io_error, disk)
move_to_quarantine stat_fails merkle now disk = (err io_error, disk)
move_to_quarantine fault merkle now disk = elim (lookup merkle disk.objects) [
  | none ↦ (err not_in_objects, disk)
  | some file ↦ elim fault [
    | rename_fails ↦ (err io_error, disk)
    | chtimes_fails ↦ (err io_error, moved_in merkle file disk)
    | _ ↦ (ok tt, moved_in merkle (record file { mtime = now }) disk)
  ]
]

-- `RestoreFromQuarantine`; `succeeds` is false if a system call fails.
unfoldable pub restore_from_quarantine :
    (succeeds : Bool) → String → Disk → Result QuarantineError (Unit {0}) × Disk
restore_from_quarantine succeeds merkle disk = elim (lookup merkle disk.quarantine) [
  | none ↦ (if succeeds then err not_in_quarantine else err io_error, disk)
  | some file ↦
      if succeeds
      then (
        ok tt,
        record disk {
          objects = insert merkle file disk.objects;
          quarantine = remove merkle disk.quarantine;
        },
      )
      else (err io_error, disk)
]

-- `UnlinkFromQuarantine`
unfoldable pub unlink_from_quarantine :
    (succeeds : Bool) → String → Disk → Result QuarantineError (Unit {0}) × Disk
unlink_from_quarantine succeeds merkle disk = elim (lookup merkle disk.quarantine) [
  | none ↦ (if succeeds then err not_in_quarantine else err io_error, disk)
  | some file ↦
      if succeeds
      then (ok tt, record disk { quarantine = remove merkle disk.quarantine })
      else (err io_error, disk)
]

pub record QuarantineEntry : Type 0 where
  pub merkle_hex : String
  pub quarantined_at : Time
  pub bytes : ℕ

-- `ListQuarantined`: the hex-named files, in the order of names; `stats` says of which the file
-- information can be read.
unfoldable pub entries_of :
    (stats : String → Bool) → List (String × ObjectFile) → List QuarantineEntry
entries_of stats [] = []
entries_of stats ((name, file) ∷ rest) =
    let others = entries_of stats rest in
    if is_hex_name name
    then (if stats name
        then record { merkle_hex = name; quarantined_at = file.mtime; bytes = length file.contents }
          ∷ others
        else others)
    else others

unfoldable pub list_quarantined : (stats : String → Bool) → Disk → List QuarantineEntry
unfolding entries_of
list_quarantined stats disk = entries_of stats disk.quarantine

unfoldable pub is_in_objects : String → Disk → Bool
is_in_objects merkle disk = has merkle disk.objects

unfoldable pub is_in_quarantine : String → Disk → Bool
is_in_quarantine merkle disk = has merkle disk.quarantine

-- `ObjectMtime` and `ObjectSize`
unfoldable pub object_mtime : (stats : Bool) → String → Disk → Result QuarantineError Time
object_mtime stats merkle disk = elim (lookup merkle disk.objects) [
  | none ↦ err not_in_objects
  | some file ↦ if stats then ok file.mtime else err io_error
]

unfoldable pub object_size : (stats : Bool) → String → Disk → Result QuarantineError ℕ
object_size stats merkle disk = elim (lookup merkle disk.objects) [
  | none ↦ err not_in_objects
  | some file ↦ if stats then ok (length file.contents) else err io_error
]
