-- ===== src/Store/Disk.antt =====
-- The data directory: what stands under objects/, index/, ownership/, coverage/ and quarantine/,
-- each by merkle root. The types are those of store/store.go.
use obsideo_provider.Base.{List, [], Option, String, Bool, none, some, Result, ok, err}
use obsideo_provider.Base.Time.{Time}
use obsideo_provider.Merkle.Codec.{Bytes}
use obsideo_provider.Merkle.Batch.{Index}

pub record Ownership : Type 0 where
  pub owner_pubkey : String
  pub owner_sig_pubkey : String
  pub received_at : Time

pub record CoverageAnswer : Type 0 where
  pub status : String
  pub reclaimable : Bool
  pub until : String
  pub reason : String

pub record Coverage : Type 0 where
  pub status : String
  pub reclaimable : Bool
  pub until : String
  pub reason : String
  pub refreshed_at : Time
  pub first_seen_uncovered : Option Time
  pub first_seen_reclaimable : Option Time

-- An object's bytes and the modification time of its file.
pub record ObjectFile : Type 0 where
  pub contents : Bytes
  pub mtime : Time

-- A JSON file: the value that it was written with, or one that cannot be read or parsed.
pub data File (A : Type 0) : Type 0 where
  parsed : A → File A
  unreadable : File A

pub record Disk : Type 0 where
  pub objects : List (String × ObjectFile)
  pub index : List (String × File Index)
  pub ownership : List (String × File Ownership)
  pub coverage : List (String × File Coverage)
  pub quarantine : List (String × ObjectFile)

abbrev pub empty_disk : Disk
empty_disk = record { objects = []; index = []; ownership = []; coverage = []; quarantine = [] }

-- ErrNotFound, ErrOwnershipExists, and the errors made on the spot.
pub data StoreError : Type 0 where
  not_found ownership_exists read_failed missing_pubkey write_failed : StoreError

-- os.ReadFile and json.Unmarshal.
unfoldable pub read_file : {A : Type 0} → Option (File A) → Result StoreError A
read_file none = err not_found
read_file (some (File.parsed a)) = ok a
read_file (some File.unreadable) = err read_failed
