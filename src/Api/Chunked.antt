-- ===== src/Api/Chunked.antt =====
-- api/chunked.go: a large object uploaded in transport chunks, which wait in staging/ until they are
-- put together.
use mathlib.Core.Option
use obsideo_provider.Base.{
  ℕ, zero, suc, ◌+◌, Option, none, some, List, [], ◌∷◌, String, Bool, true, false, not, ◌&&◌, ◌||◌,
  str_eq, ltb, ◌==◌, if◌then◌else◌, length, Result, ok, err, ◌>>=◌,
}
use obsideo_provider.Base.Int.{ℤ, pos, negsuc}
use obsideo_provider.Base.Time.{Time}
use obsideo_provider.Base.Dir.{lookup, insert, names}
use obsideo_provider.Merkle.Codec.{Bytes}
use obsideo_provider.Store.Disk.{Disk}
use obsideo_provider.Store.Staging.{
  Staging, StagingDir, WriteOutcome, write_file, open_dir, remove_staging,
}
use obsideo_provider.Api.Status.{or_status, expect}
use obsideo_provider.Api.Tokens.{Claims, TokenCodec, authorize}
use obsideo_provider.Api.Upload.{Server, Upload, store_upload}

-- What comes from fmt, strconv, strings and sort: the name of the file of chunk i, strconv.Atoi, the
-- first result of strconv.Atoi of the trimmed bytes of the meta file, the bytes of a text, what is
-- behind the prefix "chunk_", and sort.Ints.
pub record StagingCodec : Type 0 where
  pub chunk_name : ℕ → String
  pub atoi : String → Option ℤ
  pub parse_total : Bytes → ℤ
  pub text_bytes : String → Bytes
  pub cut_chunk_prefix : String → Option String
  pub sort_ints : List ℤ → List ℤ

abbrev pub meta_name : String
meta_name = "meta"

-- A request with one chunk; `body` is `none` if reading it fails.
pub record ChunkUpload : Type 0 where
  pub merkle : String
  pub bearer : Option String
  pub index_text : String
  pub total_text : String
  pub body : Option Bytes
  pub unix_now : ℤ
  pub now : Time
  pub makes_dir : Bool
  pub chunk_outcome : WriteOutcome
  pub meta_outcome : WriteOutcome

abbrev natural : ℤ → Option ℕ
natural (pos n) = some n
natural (negsuc n) = none

abbrev pub parse_natural : StagingCodec → String → Option ℕ
parse_natural c s = elim (c.atoi s) [ none ↦ none | some z ↦ natural z ]

-- The index of the chunk, from the query: it is below the total, which is positive.
unfoldable pub chunk_index_of : StagingCodec → ChunkUpload → Result ℕ ℕ
chunk_index_of c u = do
  given ← expect (not (str_eq u.index_text "" || str_eq u.total_text "")) 400
  index ← or_status (parse_natural c u.index_text) 400
  total ← or_status (parse_natural c u.total_text) 400
  positive ← expect (not (total == 0)) 400
  below ← expect (ltb index total) 400
  ok index

-- The body of the request, which is not empty.
unfoldable pub chunk_data_of : ChunkUpload → Result ℕ Bytes
chunk_data_of u = do
  raw ← or_status u.body 400
  nonempty ← expect (not (length raw == 0)) 400
  ok raw

abbrev is_written : WriteOutcome → Bool
is_written WriteOutcome.written = true
is_written _ = false

-- The chunk file and, if it is written, the meta file; an error of the latter is ignored.
unfoldable pub write_chunk : StagingCodec → ChunkUpload → ℕ → Bytes → StagingDir → ℕ × StagingDir
write_chunk c u index raw dir =
    let dir' = write_file u.chunk_outcome u.now (c.chunk_name index) raw dir in
    let dir'' = write_file u.meta_outcome u.now meta_name (c.text_bytes u.total_text) dir' in
    if is_written u.chunk_outcome then (200, dir'') else (500, dir')

-- From the directory on, which is made before the body is read.
unfoldable pub stage_chunk : StagingCodec → ChunkUpload → ℕ → Staging → ℕ × Staging
stage_chunk c u index staging =
    let dir = open_dir u.now (lookup u.merkle staging) in
    if not u.makes_dir then (500, staging) else (elim (chunk_data_of u) [
      | err st ↦ (st, insert u.merkle dir staging)
      | ok raw ↦
          let (st, dir') = write_chunk c u index raw dir in (st, insert u.merkle dir' staging)
    ])

-- `handleUploadChunk`
unfoldable pub handle_upload_chunk :
    StagingCodec → TokenCodec → List Bytes → ChunkUpload → Staging → ℕ × Staging
handle_upload_chunk c t keys u staging =
    elim (authorize t keys u.unix_now "upload" u.merkle u.bearer) [
      | err st ↦ (st, staging)
      | ok claims ↦ elim (chunk_index_of c u) [
        | err st ↦ (st, staging)
        | ok index ↦ stage_chunk c u index staging
      ]
    ]

-- The chunks from i on, `rounds` of them, if all are there; also what `stagedChunksReader` reads.
unfoldable pub staged_chunks : StagingCodec → ℕ → ℕ → StagingDir → Option (List Bytes)
staged_chunks c zero i dir = some []
staged_chunks c (suc rounds) i dir =
    let rest = staged_chunks c rounds (i + 1) dir in
    elim (lookup (c.chunk_name i) dir.files) [
      | none ↦ none
      | some raw ↦ Option.map (λ chunks. raw ∷ chunks) rest
    ]

-- The chunks of a complete upload. `reads` says whether the meta file can be read.
unfoldable pub complete_chunks : StagingCodec → Bool → Option StagingDir → Result ℕ (List Bytes)
complete_chunks c reads none = err 400
complete_chunks c reads (some dir) = elim (lookup meta_name dir.files) [
  | none ↦ err 400
  | some meta ↦ if not reads then err 400 else (elim (c.parse_total meta) [
    | negsuc n ↦ err 400
    | pos total ↦ if total == 0 then err 400 else or_status (staged_chunks c total 0 dir) 400
  ])
]

-- The staged upload put together: staging is dropped if the bytes have another root, and if all goes
-- well; it is kept for a retry when the store fails.
unfoldable pub assemble :
    (removes : Bool) → Server → Upload → Claims → List Bytes → Disk → Staging → ℕ × Disk × Staging
assemble removes s u claims chunks disk staging =
    let (st, disk') = store_upload s (record u { body = chunks }) claims disk in
    if st == 500
    then (500, disk', staging)
    else (st, disk', remove_staging removes u.merkle staging)

-- `handleUploadFinalize`; the request is that of an upload, whose body is not read.
unfoldable pub handle_upload_finalize :
    StagingCodec → (reads removes : Bool) → Server → Upload → Disk → Staging → ℕ × Disk × Staging
handle_upload_finalize c reads removes s u disk staging =
    elim (authorize s.tokens s.keys u.unix_now "upload" u.merkle u.bearer) [
      | err st ↦ (st, disk, staging)
      | ok claims ↦
          if not claims.contracted && not s.accept_uncontracted_data
          then (403, disk, remove_staging removes u.merkle staging)
          else (elim (complete_chunks c reads (lookup u.merkle staging)) [
            | err st ↦ (st, disk, staging)
            | ok chunks ↦ assemble removes s u claims chunks disk staging
          ])
    ]

-- The answer of `handleUploadStatus`.
pub data StatusReply : Type 0 where
  refused : ℕ → StatusReply
  status : (chunks : List ℤ) → (total : ℤ) → (complete : Bool) → StatusReply

unfoldable pub staged_indices : StagingCodec → List String → List ℤ
staged_indices c [] = []
staged_indices c (name ∷ rest) =
    let behind = staged_indices c rest in
    elim (c.cut_chunk_prefix name) [
      | none ↦ behind
      | some text ↦ elim (c.atoi text) [ none ↦ behind | some index ↦ index ∷ behind ]
    ]

abbrev is_total : ℕ → ℤ → Bool
is_total n (pos m) = (n == m) && not (m == 0)
is_total n (negsuc m) = false

unfoldable pub staged_status : StagingCodec → Bool → StagingDir → StatusReply
unfolding staged_indices
staged_status c reads dir =
    let total : ℤ = elim (lookup meta_name dir.files) [
      | none ↦ pos 0
      | some meta ↦ if reads then c.parse_total meta else pos 0
    ] in
    let indices = c.sort_ints (staged_indices c (names dir.files)) in
    status indices total (is_total (length indices) total)

-- `handleUploadStatus`; `lists` and `reads` say whether the directory and the meta file can be read.
unfoldable pub handle_upload_status :
    StagingCodec
    → (lists reads : Bool) → TokenCodec
    → List Bytes
    → ℤ
    → (merkle : String) → (bearer : Option String) → Staging
    → StatusReply
handle_upload_status c lists reads t keys now merkle bearer staging =
    elim (authorize t keys now "upload" merkle bearer) [
      | err st ↦ refused st
      | ok claims ↦ elim (lookup merkle staging) [
        | none ↦ status [] (pos 0) false
        | some dir ↦ if lists then staged_status c reads dir else status [] (pos 0) false
      ]
    ]
