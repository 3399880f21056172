-- ===== src/Api/ChunkedLaws.antt =====
-- An object uploaded in chunks, in any order and with repetitions, against the same object uploaded
-- at once.
use text.Mathlib.TextPositions.{eq_refl}
use obsideo_provider.Base.{
  ℕ, zero, suc, ◌+◌, ◌<◌, subst, ◌≡◌, refl, sym, ap, ◌∙◌, ◌⊎◌, inl, inr, Option, none, some, List,
  [], ◌∷◌, String, true, false, arith, eq_iff, str_eq, ltb, ◌==◌, if◌then◌else◌, length, get_elem?,
  ok, Bool-cases,
}
use obsideo_provider.Base.Int.{ℤ, pos}
use obsideo_provider.Base.Time.{Time}
use obsideo_provider.Base.Dir.{lookup, insert, lookup-insert, lookup-empty}
use obsideo_provider.Merkle.Codec.{Bytes}
use obsideo_provider.Store.Staging.{Staging, StagingDir, WriteOutcome, open_dir}
use obsideo_provider.Api.Tokens.{Claims, authorize}
use obsideo_provider.Api.Upload.{Server}
use obsideo_provider.Api.Chunked.{
  StagingCodec, ChunkUpload, meta_name, parse_natural, chunk_index_of, chunk_data_of, write_chunk,
  stage_chunk, handle_upload_chunk, staged_chunks, complete_chunks,
}

-- What the names and the numbers of a client's requests must be: two chunks have two files, neither
-- the meta file; and the texts of the query are read back as the numbers that they were written for.
pub record StagingLaws (c : StagingCodec) (text : ℕ → String) : Type 0 where
  pub chunk_injective : (i j : ℕ) → c.chunk_name i ≡ c.chunk_name j → i ≡ j
  pub chunk_no_meta : (i : ℕ) → str_eq meta_name (c.chunk_name i) ≡ false
  pub text_nonempty : (n : ℕ) → str_eq (text n) "" ≡ false
  pub atoi-text : (n : ℕ) → c.atoi (text n) ≡ some (pos n)
  pub parse_total-text : (n : ℕ) → c.parse_total (c.text_bytes (text n)) ≡ pos n

-- A chunk as it is sent: its index, its bytes, and the time.
abbrev pub Sent : Type 0
Sent = ℕ × Bytes × Time

abbrev files_in : Option StagingDir → List (String × Bytes)
files_in none = []
files_in (some dir) = dir.files

abbrev pub files_of : String → Staging → List (String × Bytes)
files_of merkle staging = files_in (lookup merkle staging)

get_elem?-bound {ℓ} :
    {A : Type ℓ} (xs : List A) (i : ℕ) (a : A) → get_elem? xs i ≡ some a → i < length xs
get_elem?-bound [] i a e = cc
get_elem?-bound (x ∷ xs) zero a e = omega arith
get_elem?-bound (x ∷ xs) (suc i) a e = omega (arith, get_elem?-bound xs i a e)

-- Every request carries a chunk of these, which is not empty.
abbrev pub AllSent : List Bytes → List Sent → Type 0
AllSent chunks [] = Unit {0}
AllSent chunks ((i, raw, now) ∷ rest) =
    (get_elem? chunks i ≡ some raw) × (0 < length raw) × AllSent chunks rest

-- One of the requests carries the chunk.
abbrev pub IsSent : ℕ → List Sent → Type 0
IsSent j [] = ⊥
IsSent j ((i, raw, now) ∷ rest) = (i ≡ j) ⊎ IsSent j rest

files_of-insert :
    (merkle : String) (dir : StagingDir) (staging : Staging)
    → files_of merkle (insert merkle dir staging) ≡ dir.files
files_of-insert merkle dir staging =
    let here : lookup merkle (insert merkle dir staging) ≡ some dir =
      ground (arith, lookup-insert merkle merkle dir staging, eq_refl merkle) in
    ap files_in here

open_dir-files : (now : Time) (o : Option StagingDir) → (open_dir now o).files ≡ files_in o
open_dir-files now none = refl
open_dir-files now (some dir) = refl

module _ (c : StagingCodec) (text : ℕ → String) (laws : StagingLaws c text) (s : Server)
    (merkle : String) (bearer : Option String) (unix_now : ℤ) (claims : Claims)
    (authorized : authorize s.tokens s.keys unix_now "upload" merkle bearer ≡ ok claims)
    (chunks : List Bytes) where
  abbrev total : ℕ
  total = length chunks

  -- The request of a client for one chunk, every system call succeeding.
  abbrev pub chunk_request : Sent → ChunkUpload
  chunk_request (i, raw, now) = record {
    merkle = merkle;
    bearer = bearer;
    index_text = text i;
    total_text = text total;
    body = some raw;
    unix_now = unix_now;
    now = now;
    makes_dir = true;
    chunk_outcome = WriteOutcome.written;
    meta_outcome = WriteOutcome.written;
  }

  -- staging/ after the requests, one after another.
  abbrev pub send_all : List Sent → Staging → Staging
  send_all [] staging = staging
  send_all (sent ∷ rest) staging =
      send_all rest (handle_upload_chunk c s.tokens s.keys (chunk_request sent) staging).1

  parse_natural-text : (n : ℕ) → parse_natural c (text n) ≡ some n
  parse_natural-text n = rw (parse_natural, laws.atoi-text n) refl

  clean_index :
      (i : ℕ) (raw : Bytes) (now : Time)
      → i < total
      → chunk_index_of c (chunk_request (i, raw, now)) ≡ ok i
  unfolding chunk_index_of
  clean_index i raw now h =
      let below : ltb i total ≡ true = ground arith in
      let positive : (total == 0) ≡ false = ground arith in
      rw
        (
          laws.text_nonempty i,
          laws.text_nonempty total,
          parse_natural-text i,
          parse_natural-text total,
          below,
          positive,
        )
        refl

  clean_data :
      (i : ℕ) (raw : Bytes) (now : Time)
      → 0 < length raw
      → chunk_data_of (chunk_request (i, raw, now)) ≡ ok raw
  unfolding chunk_data_of
  clean_data i raw now h =
      let nonempty : (length raw == 0) ≡ false = ground arith in rw nonempty refl

  -- The files after one request.
  abbrev files_after : ℕ → Bytes → List (String × Bytes) → List (String × Bytes)
  files_after i raw files =
      insert meta_name (c.text_bytes (text total)) (insert (c.chunk_name i) raw files)

  handle_upload_chunk_files :
      (i : ℕ) (raw : Bytes) (now : Time) (staging : Staging)
      → i < total
      → 0 < length raw
      → files_of merkle
          (handle_upload_chunk c s.tokens s.keys (chunk_request (i, raw, now)) staging).1
        ≡ files_after i raw (files_of merkle staging)
  unfolding handle_upload_chunk stage_chunk write_chunk
  handle_upload_chunk_files i raw now staging h k =
      rw
        (
          handle_upload_chunk,
          authorized,
          clean_index i raw now h,
          stage_chunk,
          clean_data i raw now k,
          write_chunk,
        )
        (files_of-insert merkle _ staging
          ∙ ap (files_after i raw) (open_dir-files now (lookup merkle staging)))

  files_after-chunk :
      (i j : ℕ) (raw : Bytes) (files : List (String × Bytes))
      → lookup (c.chunk_name j) (files_after i raw files) ≡ (
          if str_eq (c.chunk_name i) (c.chunk_name j)
          then some raw
          else lookup (c.chunk_name j) files)
  files_after-chunk i j raw files = ground (
    arith,
    lookup-insert meta_name (c.chunk_name j) (c.text_bytes (text total))
        (insert (c.chunk_name i) raw files),
    lookup-insert (c.chunk_name i) (c.chunk_name j) raw files,
    laws.chunk_no_meta j,
  )

  -- A chunk that is sent, or is there, is there after the requests: no request changes it.
  send_all-chunk :
      (sends : List Sent) (staging : Staging) (j : ℕ) (b : Bytes)
      → AllSent chunks sends
      → get_elem? chunks j ≡ some b
      → IsSent j sends ⊎ (lookup (c.chunk_name j) (files_of merkle staging) ≡ some b)
      → lookup (c.chunk_name j) (files_of merkle (send_all sends staging)) ≡ some b
  send_all-chunk [] staging j b all g h = elim h [ inl out ↦ absurd out | inr there ↦ there ]
  send_all-chunk ((i, raw, now) ∷ rest) staging j b all g h =
      let next = (handle_upload_chunk c s.tokens s.keys (chunk_request (i, raw, now)) staging).1 in
      let bound : i < total = get_elem?-bound chunks i raw all.0 in
      let files = handle_upload_chunk_files i raw now staging bound all.1 in
      let look =
        ap (lookup (c.chunk_name j)) files ∙ files_after-chunk i j raw (files_of merkle staging) in
      send_all-chunk rest next j b all.2 g
        (elim (Bool-cases (str_eq (c.chunk_name i) (c.chunk_name j))) [
          | inl same ↦
              let here : i ≡ j = laws.chunk_injective i j ((eq_iff _ _).0 same) in
              let bytes : some raw ≡ some b = sym all.0 ∙ ap (get_elem? chunks) here ∙ g in
              inr (look ∙ rw same bytes)
          | inr other ↦ elim h [
            | inr there ↦ inr (look ∙ rw other there)
            | inl (inr later) ↦ inl later
            | inl (inl here) ↦ absurd (
                ground (
                  arith,
                  other,
                  (eq_iff (c.chunk_name i) (c.chunk_name j)).1 (ap c.chunk_name here),
                ))
          ]
        ])

  send_all-meta :
      (sends : List Sent) (staging : Staging)
      → AllSent chunks sends
      → ((j : ℕ) × IsSent j sends)
        ⊎ (lookup meta_name (files_of merkle staging) ≡ some (c.text_bytes (text total)))
      → lookup meta_name (files_of merkle (send_all sends staging))
        ≡ some (c.text_bytes (text total))
  send_all-meta [] staging all h = elim h [ inl (j, out) ↦ absurd out | inr there ↦ there ]
  send_all-meta ((i, raw, now) ∷ rest) staging all h =
      let next = (handle_upload_chunk c s.tokens s.keys (chunk_request (i, raw, now)) staging).1 in
      let bound : i < total = get_elem?-bound chunks i raw all.0 in
      let files = handle_upload_chunk_files i raw now staging bound all.1 in
      let placed : lookup meta_name (files_after i raw (files_of merkle staging))
          ≡ some (c.text_bytes (text total)) =
        ground (
          arith,
          lookup-insert meta_name meta_name (c.text_bytes (text total))
              (insert (c.chunk_name i) raw (files_of merkle staging)),
          eq_refl meta_name,
        ) in
      send_all-meta rest next all.2 (inr (ap (lookup meta_name) files ∙ placed))

  -- The loop over the chunk files finds the chunks.
  staged_chunks_lem :
      (rest : List Bytes) (i : ℕ) (dir : StagingDir)
      → ((j : ℕ) (b : Bytes)
          → get_elem? rest j ≡ some b
          → lookup (c.chunk_name (i + j)) dir.files ≡ some b)
      → staged_chunks c (length rest) i dir ≡ some rest
  unfolding staged_chunks
  staged_chunks_lem [] i dir h = refl
  staged_chunks_lem (b ∷ rest) i dir h =
      let first : lookup (c.chunk_name i) dir.files ≡ some b =
        subst (λ n. lookup (c.chunk_name n) dir.files ≡ some b) (omega arith) (h 0 b refl) in
      let behind : staged_chunks c (length rest) (i + 1) dir ≡ some rest =
        staged_chunks_lem rest (i + 1) dir (λ j d g.
          subst (λ n. lookup (c.chunk_name n) dir.files ≡ some d) (omega arith) (h (suc j) d g)) in
      rw (staged_chunks, first, behind) refl

  -- Once every chunk was sent, the upload is complete, and its chunks are these, in order.
  pub send_all_complete :
      (sends : List Sent) (staging : Staging)
      → AllSent chunks sends
      → ((j : ℕ) → j < total → IsSent j sends)
      → 0 < total
      → complete_chunks c true (lookup merkle (send_all sends staging)) ≡ ok chunks
  unfolding complete_chunks
  send_all_complete sends staging all covers nonempty =
      let after = send_all sends staging in
      let meta = send_all-meta sends staging all (inl (0, covers 0 nonempty)) in
      let found : (j : ℕ) (b : Bytes)
          → get_elem? chunks j ≡ some b
          → lookup (c.chunk_name j) (files_of merkle after) ≡ some b =
        λ j b g.
          send_all-chunk sends staging j b all g (inl (covers j (get_elem?-bound chunks j b g))) in
      in_dir (lookup merkle after) meta found
    where
      in_dir :
          (o : Option StagingDir)
          → lookup meta_name (files_in o) ≡ some (c.text_bytes (text total))
          → ((j : ℕ) (b : Bytes)
              → get_elem? chunks j ≡ some b
              → lookup (c.chunk_name j) (files_in o) ≡ some b)
          → complete_chunks c true o ≡ ok chunks
      in_dir none meta found = absurd (ground (arith, meta, lookup-empty {A = Bytes} meta_name))
      in_dir (some dir) meta found =
          let read = laws.parse_total-text total in
          let positive : (total == 0) ≡ false = ground (arith, nonempty) in
          let all_there : staged_chunks c total 0 dir ≡ some chunks =
            staged_chunks_lem chunks 0 dir (λ j b g.
              subst (λ n. lookup (c.chunk_name n) dir.files ≡ some b) (omega arith)
                (found j b g)) in
          rw (complete_chunks, meta, read, positive, all_there) refl
