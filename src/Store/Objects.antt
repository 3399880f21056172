-- ===== src/Store/Objects.antt =====
-- Objects and their indices: `Put`, `PutStream`, `Get`, `GetIndex`, `List`, `UsedBytes` of store/.
use Prim.Native.Char.{code}
use mathlib.Core.List.{flatten}
use obsideo_provider.Base.{
  ℕ, ◌+◌, none, some, List, [], ◌∷◌, String, Bool, true, false, leb, ◌==◌, ◌&&◌, ◌||◌, str_eq,
  if◌then◌else◌, length, Result, ok, err,
}
use obsideo_provider.Base.Time.{Time}
use obsideo_provider.Base.Dir.{lookup, insert, names}
use obsideo_provider.Merkle.Codec.{Bytes, Codec}
use obsideo_provider.Merkle.Tree.{MerkleError}
use obsideo_provider.Merkle.Batch.{Index, default_chunk_size, build_index}
use obsideo_provider.Merkle.Stream.{new_tree_builder, write_all, finish}
use obsideo_provider.Store.Disk.{
  Disk, ObjectFile, parsed, StoreError, not_found, write_failed, read_file,
}

-- `isHexName`: not empty, and hexadecimal digits only.
abbrev is_hex_digit : ℕ → Bool
is_hex_digit r =
    (leb b'0' r && leb r b'9') || (leb b'a' r && leb r b'f') || (leb b'A' r && leb r b'F')

all_hex : String → Bool
all_hex String.[] = true
all_hex (String.◌∷◌ r s) = is_hex_digit (code r) && all_hex s

unfoldable pub is_hex_name : String → Bool
unfolding all_hex
is_hex_name String.[] = false
is_hex_name (String.◌∷◌ r s) = all_hex (String.◌∷◌ r s)

unfoldable pub keep_hex : List String → List String
keep_hex [] = []
keep_hex (name ∷ rest) = let kept = keep_hex rest in if is_hex_name name then name ∷ kept else kept

-- `List`: the hex-named files of objects/. Temporary files have other names and are left out.
unfoldable pub list : Disk → List String
unfolding keep_hex
list disk = keep_hex (names disk.objects)

unfoldable pub used_bytes_of : List (String × ObjectFile) → ℕ
used_bytes_of [] = 0
used_bytes_of ((name, file) ∷ rest) =
    (if is_hex_name name then length file.contents else 0) + used_bytes_of rest

-- `UsedBytes`
unfoldable pub used_bytes : Disk → ℕ
unfolding used_bytes_of
used_bytes disk = used_bytes_of disk.objects

-- `Get`
unfoldable pub get : String → Disk → Result StoreError Bytes
get merkle disk = elim (lookup merkle disk.objects) [
  | none ↦ err not_found
  | some file ↦ ok file.contents
]

-- `GetIndex`
unfoldable pub get_index : String → Disk → Result StoreError Index
unfolding read_file
get_index merkle disk = read_file (lookup merkle disk.index)

-- `Put`: the object, then its index; `writes_object` and `writes_index` say which succeed.
unfoldable pub put :
    Codec
    → (writes_object writes_index : Bool) → Time
    → String
    → Bytes
    → ℕ
    → Disk
    → Result StoreError (Unit {0}) × Disk
put c writes_object writes_index now merkle bytes size disk =
    let size' = if size == 0 then default_chunk_size else size in
    let disk' : Disk = record disk {
      objects = insert merkle (record { contents = bytes; mtime = now }) disk.objects;
    } in
    let disk'' : Disk = record disk' {
      index = insert merkle (parsed (build_index c bytes size')) disk.index;
    } in
    if writes_object
    then (if writes_index then (ok tt, disk'') else (err write_failed, disk'))
    else (err write_failed, disk)

-- The step of `PutStream` at which the file system or the source of bytes fails, if one does.
pub data StreamFault : Type 0 where
  no_fault create_fails copy_fails sync_fails close_fails index_fails rename_fails : StreamFault

pub data StreamError : Type 0 where
  merkle_mismatch : StreamError
  finalize_failed : MerkleError → StreamError
  io_failed : StreamFault → StreamError

-- From the file synced on: the index is written, then the object is renamed into place.
unfoldable pub commit :
    StreamFault → Time → String → Bytes → List String → Disk → Result StreamError ℕ × Disk
commit fault now root bytes hashes disk =
    let idx : Index = record {
      chunk_size = default_chunk_size;
      total_chunks = length hashes;
      chunk_hashes = hashes;
    } in
    let indexed : Disk = record disk { index = insert root (parsed idx) disk.index } in
    let committed : Disk = record indexed {
      objects = insert root (record { contents = bytes; mtime = now }) disk.objects;
    } in
    elim fault [
      | sync_fails ↦ (err (io_failed sync_fails), disk)
      | close_fails ↦ (err (io_failed close_fails), disk)
      | index_fails ↦ (err (io_failed index_fails), disk)
      | rename_fails ↦ (err (io_failed rename_fails), indexed)
      | _ ↦ (ok (length bytes), committed)
    ]

-- After the last byte: the root must be the expected one.
unfoldable pub settle :
    StreamFault
    → Time
    → String
    → Bytes
    → Result MerkleError (String × List String)
    → Disk
    → Result StreamError ℕ × Disk
settle fault now expected bytes (err e) disk = (err (finalize_failed e), disk)
settle fault now expected bytes (ok (root, hashes)) disk =
    if str_eq root expected
    then commit fault now expected bytes hashes disk
    else (err merkle_mismatch, disk)

-- `PutStream` of the bytes that arrive as `pieces`. The temporary file is removed on every path
-- that does not rename it.
unfoldable pub put_stream :
    Codec → StreamFault → Time → String → List Bytes → Disk → Result StreamError ℕ × Disk
unfolding settle
put_stream c create_fails now expected pieces disk = (err (io_failed create_fails), disk)
put_stream c copy_fails now expected pieces disk = (err (io_failed copy_fails), disk)
put_stream c fault now expected pieces disk =
    settle fault now expected (flatten pieces) (finish c (write_all c new_tree_builder pieces)) disk
