-- ===== src/Api/DeleteLaws.antt =====
-- What a signed deletion of api/delete.go needs, and what it does.
use obsideo_provider.Base.{
  ℕ, ◌+◌, ◌≤◌, ◌≡◌, ◌≢◌, ◌⊎◌, inl, inr, refl, sym, ap, ◌∙◌, Option, none, some, List, String, Bool,
  true, false, if◌then◌else◌, arith, str_eq, eq_iff, ok, err, Result-cases, Option-cases,
}
use obsideo_provider.Base.Time.{Time, sub}
use obsideo_provider.Merkle.Codec.{Bytes}
use obsideo_provider.Store.Disk.{Disk, Ownership}
use obsideo_provider.Base.Dir.{lookup, lookup-remove}
use obsideo_provider.Store.Records.{
  FileKind, object_file, index_file, ownership_file, coverage_file, get_ownership, delete,
  remove_if,
}
use obsideo_provider.Api.Nonces.{check}
use obsideo_provider.Api.Delete.{
  DeleteCodec, Deletion, SignedDeleteCommand, DeleteCommandPayload, decode_ed25519_fingerprint,
  read_command, check_payload, read_payload, parse_time, drifts, admit, finish_delete,
  handle_delete_signed, delete_command_drift_window, delete_command_nonce_ttl,
}

-- Within the drift window the two times are less than five minutes apart, or exactly.
pub drifts_lem :
    (now issued_at : Time)
    → drifts now issued_at ≡ false
    → (now ≤ issued_at + delete_command_drift_window)
      × (issued_at ≤ now + delete_command_drift_window)
unfolding drifts sub
drifts_lem now issued_at h = ground arith

-- The file under the name is gone if its removal succeeds, and no other is touched.
abbrev pub RemovedAt {ℓ} :
    {A : Type ℓ} → Bool → String → (before after : List (String × A)) → Type ℓ
RemovedAt succeeds m before after =
    (lookup m after ≡ (if succeeds then none else lookup m before))
    × ((k : String) → k ≢ m → lookup k after ≡ lookup k before)

-- The four files of an object, each as its removal ends; a file in quarantine stays.
pub record IsRemoved (removes : FileKind → Bool) (m : String) (before after : Disk) : Type 0 where
  pub objects : RemovedAt (removes object_file) m before.objects after.objects
  pub index : RemovedAt (removes index_file) m before.index after.index
  pub ownership : RemovedAt (removes ownership_file) m before.ownership after.ownership
  pub coverage : RemovedAt (removes coverage_file) m before.coverage after.coverage
  pub quarantine : after.quarantine ≡ before.quarantine

remove_if-RemovedAt {ℓ} :
    {A : Type ℓ} (succeeds : Bool) (m : String) (dir : List (String × A))
    → RemovedAt succeeds m dir (remove_if succeeds m dir)
remove_if-RemovedAt true m dir = (
  ground (arith, lookup-remove m m dir, (eq_iff m m).1 refl),
  λ k other. ground (arith, lookup-remove m k dir, eq_iff m k, λ (e : m ≡ k). other (sym e)),
)
remove_if-RemovedAt false m dir = (refl, λ k other. refl)

pub delete-IsRemoved :
    (removes : FileKind → Bool) (m : String) (disk : Disk)
    → IsRemoved removes m disk (delete removes m disk)
unfolding delete
delete-IsRemoved removes m disk = record {
  objects = remove_if-RemovedAt (removes object_file) m disk.objects;
  index = remove_if-RemovedAt (removes index_file) m disk.index;
  ownership = remove_if-RemovedAt (removes ownership_file) m disk.ownership;
  coverage = remove_if-RemovedAt (removes coverage_file) m disk.coverage;
  quarantine = refl;
}

module _ (c : DeleteCodec) where
  -- What a command is that the owner has signed for this object and this time.
  pub record IsSigned (d : Deletion) (own : Ownership) (pl : DeleteCommandPayload) : Type 0 where
    pub bytes : Bytes
    pub cmd : SignedDeleteCommand
    pub key : Bytes
    pub signature : Bytes
    pub issued_at : Time
    pub sent : d.body ≡ some bytes
    pub reads : c.unmarshal_command bytes ≡ some cmd
    pub owned : decode_ed25519_fingerprint c own.owner_sig_pubkey ≡ some key
    pub decodes : c.decode_base64 cmd.signature ≡ some signature
    pub verified : c.verify key cmd.payload signature ≡ true
    pub means : c.unmarshal_payload cmd.payload ≡ some pl
    pub right_object : pl.merkle_root ≡ d.merkle
    pub dated : parse_time c pl.issued_at ≡ some issued_at
    pub current : drifts d.now issued_at ≡ false

  read_command_lem :
      (own : Ownership) (body : Option Bytes) (cmd : SignedDeleteCommand)
      → read_command c own body ≡ ok cmd
      → (bytes : Bytes) × (signature : Bytes) × (key : Bytes) × (body ≡ some bytes)
        × (c.unmarshal_command bytes ≡ some cmd)
        × (decode_ed25519_fingerprint c own.owner_sig_pubkey ≡ some key)
        × (c.decode_base64 cmd.signature ≡ some signature)
        × (c.verify key cmd.payload signature ≡ true)
  unfolding read_command
  read_command_lem own none cmd h = cc
  read_command_lem own (some bytes) cmd h = elim (Option-cases (c.unmarshal_command bytes)) [
    | inl missed ↦ absurd (ground arith)
    | inr (cmd', e) ↦ elim (Option-cases (c.decode_base64 cmd'.signature)) [
      | inl missed ↦ absurd (ground arith)
      | inr (sig, e') ↦ elim (Option-cases (decode_ed25519_fingerprint c own.owner_sig_pubkey)) [
        | inl missed ↦ absurd (ground arith)
        | inr (key, k) ↦
            let same : cmd' ≡ cmd = ground arith in
            (bytes, sig, key, refl, rw (← same) e, k, rw (← same) e', ground arith)
      ]
    ]
  ]

  check_payload_lem :
      (merkle : String) (now : Time) (pl pl' : DeleteCommandPayload)
      → check_payload c merkle now pl ≡ ok pl'
      → (issued_at : Time) × (pl ≡ pl')
        × (str_eq pl.merkle_root merkle ≡ true)
        × (parse_time c pl.issued_at ≡ some issued_at)
        × (drifts now issued_at ≡ false)
  unfolding check_payload
  check_payload_lem merkle now pl pl' h = elim (Option-cases (parse_time c pl.issued_at)) [
    | inl missed ↦ absurd (ground arith)
    | inr (t, k) ↦ (t, ground arith, ground arith, k, ground arith)
  ]

  read_payload_lem :
      (merkle : String) (now : Time) (payload : String) (pl : DeleteCommandPayload)
      → read_payload c merkle now payload ≡ ok pl
      → (issued_at : Time) × (c.unmarshal_payload payload ≡ some pl)
        × (str_eq pl.merkle_root merkle ≡ true)
        × (parse_time c pl.issued_at ≡ some issued_at)
        × (drifts now issued_at ≡ false)
  unfolding read_payload
  read_payload_lem merkle now payload pl h = elim (Option-cases (c.unmarshal_payload payload)) [
    | inl missed ↦ absurd (ground arith)
    | inr (pl', e) ↦
        let (t, same, here, dated, near) = check_payload_lem merkle now pl' pl (ground arith) in
        (t, rw (← same) e, rw (← same) here, rw (← same) dated, near)
  ]

  admit_steps :
      (d : Deletion) (disk : Disk) (own : Ownership) (pl : DeleteCommandPayload)
      → admit c d disk ≡ ok (own, pl)
      → (cmd : SignedDeleteCommand) × (get_ownership d.merkle disk ≡ ok own)
        × (read_command c own d.body ≡ ok cmd)
        × (read_payload c d.merkle d.now cmd.payload ≡ ok pl)
  unfolding admit
  admit_steps d disk own pl h = elim (Result-cases (get_ownership d.merkle disk)) [
    | inr (e, bad) ↦ absurd (ground arith)
    | inl (own', g) ↦ elim (Result-cases (read_command c own' d.body)) [
      | inr (e, bad) ↦ absurd (ground arith)
      | inl (cmd, r) ↦
          let same : own' ≡ own = ground arith in (cmd, rw (← same) g, rw (← same) r, ground arith)
    ]
  ]

  admit-IsSigned :
      (d : Deletion) (disk : Disk) (own : Ownership) (pl : DeleteCommandPayload)
      → admit c d disk ≡ ok (own, pl)
      → IsSigned d own pl × (get_ownership d.merkle disk ≡ ok own)
  admit-IsSigned d disk own pl h =
      let (cmd, g, r, p) = admit_steps d disk own pl h in
      let (b, sig, k, r1, r2, r3, r4, r5) = read_command_lem own d.body cmd r in
      let (t, p1, p2, p3, p4) = read_payload_lem d.merkle d.now cmd.payload pl p in
      (
        record {
          bytes = b;
          cmd = cmd;
          key = k;
          signature = sig;
          issued_at = t;
          sent = r1;
          reads = r2;
          owned = r3;
          decodes = r4;
          verified = r5;
          means = p1;
          right_object = (eq_iff pl.merkle_root d.merkle).0 p2;
          dated = p3;
          current = p4;
        },
        g,
      )

  read_command_status :
      (own : Ownership) (body : Option Bytes) (st : ℕ) → read_command c own body ≡ err st → st ≢ 200
  unfolding read_command
  read_command_status own body st h = ground arith

  check_payload_status :
      (merkle : String) (now : Time) (pl : DeleteCommandPayload) (st : ℕ)
      → check_payload c merkle now pl ≡ err st
      → st ≢ 200
  unfolding check_payload
  check_payload_status merkle now pl st h = ground arith

  read_payload_status :
      (merkle : String) (now : Time) (payload : String) (st : ℕ)
      → read_payload c merkle now payload ≡ err st
      → st ≢ 200
  unfolding read_payload
  read_payload_status merkle now payload st h = elim (Option-cases (c.unmarshal_payload payload)) [
    | inl missed ↦ λ e. absurd (ground arith)
    | inr (pl, e) ↦ check_payload_status merkle now pl st (ground arith)
  ]

  admit_status : (d : Deletion) (disk : Disk) (st : ℕ) → admit c d disk ≡ err st → st ≢ 200
  unfolding admit
  admit_status d disk st h = elim (Result-cases (get_ownership d.merkle disk)) [
    | inr (e, bad) ↦ λ g. absurd (ground arith)
    | inl (own, e) ↦ elim (Result-cases (read_command c own d.body)) [
      | inr (st', bad) ↦
          let same : st' ≡ st = ground arith in rw (← same) (read_command_status own d.body st' bad)
      | inl (cmd, r) ↦ elim (Result-cases (read_payload c d.merkle d.now cmd.payload)) [
        | inl (pl, good) ↦ λ g. absurd (ground arith)
        | inr (st', bad) ↦
            let same : st' ≡ st = ground arith in
            rw (← same) (read_payload_status d.merkle d.now cmd.payload st' bad)
      ]
    ]
  ]

  -- What is known of a deletion that was answered with 200.
  pub record IsDeleted (d : Deletion) (nonces : List (String × Time)) (disk : Disk) : Type 0 where
    pub own : Ownership
    pub pl : DeleteCommandPayload
    pub recorded : get_ownership d.merkle disk ≡ ok own
    pub signed : IsSigned d own pl
    pub fresh :
        (check delete_command_nonce_ttl own.owner_sig_pubkey pl.nonce d.now nonces).0 ≡ false
    pub remembered :
        (handle_delete_signed c d nonces disk).1
        ≡ (check delete_command_nonce_ttl own.owner_sig_pubkey pl.nonce d.now nonces).1
    pub deleted : (handle_delete_signed c d nonces disk).2 ≡ delete d.removes d.merkle disk
    pub removed : IsRemoved d.removes d.merkle disk (handle_delete_signed c d nonces disk).2

  module _ (d : Deletion) (nonces : List (String × Time)) (disk : Disk) where
    pub handle_delete_cases :
        ((st : ℕ) × (handle_delete_signed c d nonces disk ≡ (st, nonces, disk)) × (st ≢ 200))
        ⊎ ((own : Ownership) × (pl : DeleteCommandPayload) × (admit c d disk ≡ ok (own, pl))
            × (handle_delete_signed c d nonces disk ≡ finish_delete c d own pl nonces disk))
    unfolding handle_delete_signed
    handle_delete_cases = elim (Result-cases (admit c d disk)) [
      | inr (st, e) ↦ inl (st, rw (e, handle_delete_signed) refl, admit_status d disk st e)
      | inl ((own, pl), e) ↦ inr (own, pl, e, rw (e, handle_delete_signed) refl)
    ]

    pub finish_cases :
        (own : Ownership) (pl : DeleteCommandPayload)
        → let checked = check delete_command_nonce_ttl own.owner_sig_pubkey pl.nonce d.now nonces in
          ((checked.0 ≡ true) × (finish_delete c d own pl nonces disk ≡ (401, checked.1, disk)))
          ⊎ ((checked.0 ≡ false)
              × (finish_delete c d own pl nonces disk
                  ≡ (200, checked.1, delete d.removes d.merkle disk)))
    unfolding finish_delete
    finish_cases own pl = ground arith

    -- A deletion answered with 200 was signed, with the key of the ownership record, for this very
    -- object and at most five minutes from now, under a nonce that was not in the cache; the object's
    -- file, index, ownership and coverage are gone as far as their removals succeed (a failed removal
    -- is not reported), no other file is touched, and the nonce is put in the cache.
    pub handle_delete_signed-IsDeleted :
        (handle_delete_signed c d nonces disk).0 ≡ 200 → IsDeleted d nonces disk
    handle_delete_signed-IsDeleted h = elim handle_delete_cases [
      | inl (st, p, ne) ↦ absurd (ne (sym (ap (λ r. r.0) p) ∙ h))
      | inr (own, pl, a, p) ↦ elim (finish_cases own pl) [
        | inl (_, q) ↦ absurd (omega (arith, ap (λ r. r.0) (p ∙ q)))
        | inr (new, q) ↦ record {
          own = own;
          pl = pl;
          recorded = (admit-IsSigned d disk own pl a).1;
          signed = (admit-IsSigned d disk own pl a).0;
          fresh = new;
          remembered = ap (λ r. r.1) (p ∙ q);
          deleted = ap (λ r. r.2) (p ∙ q);
          removed = rw (ap (λ r. r.2) (p ∙ q)) (delete-IsRemoved d.removes d.merkle disk);
        }
      ]
    ]

    -- A refused deletion leaves the disk as it was.
    pub handle_delete_signed_refused :
        (handle_delete_signed c d nonces disk).0 ≢ 200
        → (handle_delete_signed c d nonces disk).2 ≡ disk
    handle_delete_signed_refused h = elim handle_delete_cases [
      | inl (st, p, _) ↦ ap (λ r. r.2) p
      | inr (own, pl, a, p) ↦ elim (finish_cases own pl) [
        | inl (_, q) ↦ ap (λ r. r.2) (p ∙ q)
        | inr (_, q) ↦ absurd (h (ap (λ r. r.0) (p ∙ q)))
      ]
    ]
