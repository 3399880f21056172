-- ===== src/Pause/State.antt =====
-- `State` of pausectl/pausectl.go: `Load`, `Apply`, `IsPaused`, `Current`, `LastSequence`,
-- `ColdKeyConfigured`, `ParseColdKey`, and `mapPauseError` of api/pause.go.
use text.Mathlib.Text.{starts_with}
use Prim.Native.String.{len, slice}
use obsideo_provider.Base.{
  ℕ, Option, none, some, List, ◌∷◌, String, Bool, true, false, not, ◌&&◌, ◌||◌, str_eq, ◌==◌,
  if◌then◌else◌, length, Result, ok, err, ◌>>=◌, is_some,
}
use obsideo_provider.Base.Int.{ℤ, pos, ltb_ℤ}
use obsideo_provider.Base.Time.{Time, after}
use obsideo_provider.Merkle.Codec.{Bytes}
use obsideo_provider.Store.Disk.{File, parsed}

pub record Envelope : Type 0 where
  pub payload : String
  pub signature : String

pub record Signal : Type 0 where
  pub type : String
  pub version : ℤ
  pub issued_at : String
  pub expires_at : String
  pub scope : String
  pub sequence_number : ℤ
  pub reason : String

pub record StoredPause : Type 0 where
  pub envelope : Envelope
  pub signal : Signal

-- What comes from encoding/base64, crypto/ed25519, encoding/json and time.
pub record PauseCodec : Type 0 where
  pub decode_base64 : String → Option Bytes
  pub verify : Bytes → String → Bytes → Bool
  pub unmarshal_signal : String → Option Signal
  pub parse_nano : String → Option Time
  pub parse_plain : String → Option Time

pub data PauseError : Type 0 where
  not_configured invalid_envelope invalid_signature_format invalid_signature : PauseError
  invalid_payload wrong_type wrong_version wrong_scope expired : PauseError
  malformed_timestamp sequence_not_monotonic : PauseError
  read_sequence_failed read_current_failed quarantine_failed : PauseError
  write_current_failed write_sequence_failed : PauseError

-- The file last_sequence_number.
pub data SequenceFile : Type 0 where
  missing blank corrupt : SequenceFile
  number : ℤ → SequenceFile

-- The directory pause/: current.json, last_sequence_number, and the files set aside.
pub record PauseDir : Type 0 where
  pub current : Option (File StoredPause)
  pub sequence : SequenceFile
  pub rejected : List (File StoredPause)

pub record State : Type 0 where
  pub cold_key : Option Bytes
  pub last_seq : ℤ
  pub active : Option StoredPause
  pub dir : PauseDir

abbrev pub signal_type : String
signal_type = "obsideo.pause-signal"

abbrev pub signal_scope : String
signal_scope = "coverage-enforcement"

-- ed25519.SignatureSize, ed25519.PublicKeySize
abbrev pub signature_size : ℕ
signature_size = 64

abbrev pub public_key_size : ℕ
public_key_size = 32

abbrev pub or_error {ℓ} : {A : Type ℓ} → Option A → PauseError → Result PauseError A
or_error none e = err e
or_error (some a) e = ok a

abbrev pub require : Bool → PauseError → Result PauseError (Unit {0})
require true e = ok tt
require false e = err e

abbrev ◌>>◌ {ℓ} :
    {B : Type ℓ} → Result PauseError (Unit {0}) → Result PauseError B → Result PauseError B
m >> k = m >>= λ _. k

infixl 5 ◌>>◌
unfoldable pub read_last_sequence : SequenceFile → Result PauseError ℤ
read_last_sequence missing = ok (pos 0)
read_last_sequence blank = ok (pos 0)
read_last_sequence corrupt = err read_sequence_failed
read_last_sequence (number v) = ok v

-- "obk_sig_" and 43 characters of base64 for 32 bytes; an empty text is no key.
unfoldable pub parse_cold_key : (String → Option Bytes) → String → Option (Option Bytes)
parse_cold_key decode s =
    let payload = slice s 8 (len s) in
    if str_eq s ""
    then some none
    else if not (starts_with s "obk_sig_")
    then none
    else if not (len payload == 43)
    then none
    else (elim (decode payload) [
      | none ↦ none
      | some raw ↦ if length raw == public_key_size then some (some raw) else none
    ])

module _ (c : PauseCodec) where
  unfoldable pub parse_rfc3339 : String → Option Time
  parse_rfc3339 s = elim (c.parse_nano s) [ some t ↦ some t | none ↦ c.parse_plain s ]

  unfoldable pub verify_envelope : Bytes → Envelope → Bool
  verify_envelope key env = elim (c.decode_base64 env.signature) [
    | none ↦ false
    | some sig ↦ (length sig == signature_size) && c.verify key env.payload sig
  ]

  -- `Load`; `sets_aside` says whether the rename of a rejected file succeeds.
  unfoldable pub accept_current :
      (sets_aside : Bool) → PauseDir → Option Bytes → ℤ → StoredPause → Result PauseError State
  accept_current sets_aside dir cold_key seq cur =
      let trusted : Bool = elim cold_key [
        | none ↦ false
        | some key ↦ verify_envelope key cur.envelope
      ] in
      if trusted
      then ok (record { cold_key = cold_key; last_seq = seq; active = some cur; dir = dir })
      else if sets_aside
      then ok (record {
        cold_key = cold_key;
        last_seq = seq;
        active = none;
        dir = record dir { current = none; rejected = parsed cur ∷ dir.rejected };
      })
      else err quarantine_failed

  unfoldable pub load : (sets_aside : Bool) → PauseDir → Option Bytes → Result PauseError State
  unfolding read_last_sequence accept_current
  load sets_aside dir cold_key = do
    seq ← read_last_sequence dir.sequence
    elim dir.current [
      | none ↦ ok (record { cold_key = cold_key; last_seq = seq; active = none; dir = dir })
      | some (File.parsed cur) ↦ accept_current sets_aside dir cold_key seq cur
      | some File.unreadable ↦ err read_current_failed
    ]

  -- Steps 1 to 4 of `Apply`: the envelope is signed with the cold key.
  unfoldable pub authenticate : State → Envelope → Result PauseError (Unit {0})
  authenticate s env = do
    key ← or_error s.cold_key not_configured
    require (not (str_eq env.payload "" || str_eq env.signature "")) invalid_envelope
    sig_bytes ← or_error (c.decode_base64 env.signature) invalid_signature_format
    require (length sig_bytes == signature_size) invalid_signature_format
    require (c.verify key env.payload sig_bytes) invalid_signature

  -- Step 6: type, version and scope.
  unfoldable pub check_kind : Signal → Result PauseError (Unit {0})
  check_kind sig = do
    require (str_eq sig.type signal_type) wrong_type
    require (not (ltb_ℤ sig.version (pos 1)) && not (ltb_ℤ (pos 1) sig.version)) wrong_version
    require (str_eq sig.scope signal_scope) wrong_scope

  -- Steps 7 and 8: the times and the sequence number.
  unfoldable pub check_current : State → Signal → Time → Result PauseError (Unit {0})
  check_current s sig now = do
    expires ← or_error (parse_rfc3339 sig.expires_at) malformed_timestamp
    require (after expires now) expired
    issued ← or_error (parse_rfc3339 sig.issued_at) malformed_timestamp
    require (ltb_ℤ s.last_seq sig.sequence_number) sequence_not_monotonic

  -- Steps 1 to 8, which change nothing.
  unfoldable pub validate : State → Envelope → Time → Result PauseError Signal
  validate s env now = do
    authenticate s env
    sig ← or_error (c.unmarshal_signal env.payload) invalid_payload
    check_kind sig
    check_current s sig now
    ok sig

  -- Step 9: current.json first, then last_sequence_number, then the memory.
  unfoldable pub persist :
      (writes_current writes_sequence : Bool)
      → State
      → Envelope
      → Signal
      → Result PauseError StoredPause × State
  persist writes_current writes_sequence s env sig =
      let stored : StoredPause = record { envelope = env; signal = sig } in
      let dir' : PauseDir = record (s.dir) { current = some (parsed stored) } in
      if not writes_current
      then (err write_current_failed, s)
      else if not writes_sequence
      then (err write_sequence_failed, record s { dir = dir' })
      else (
        ok stored,
        record s {
          active = some stored;
          last_seq = sig.sequence_number;
          dir = record dir' { sequence = number sig.sequence_number };
        },
      )

  unfoldable pub apply :
      (writes_current writes_sequence : Bool)
      → State
      → Envelope
      → Time
      → Result PauseError StoredPause × State
  apply writes_current writes_sequence s env now = elim (validate s env now) [
    | err e ↦ (err e, s)
    | ok sig ↦ persist writes_current writes_sequence s env sig
  ]

  unfoldable pub is_paused : State → Time → Bool
  unfolding parse_rfc3339
  is_paused s now = elim s.active [
    | none ↦ false
    | some p ↦ elim (parse_rfc3339 p.signal.expires_at) [
      | none ↦ true
      | some expires ↦ after expires now
    ]
  ]

  unfoldable pub current : State → Time → Option StoredPause
  unfolding parse_rfc3339
  current s now = elim s.active [
    | none ↦ none
    | some p ↦ elim (parse_rfc3339 p.signal.expires_at) [
      | none ↦ some p
      | some expires ↦ if not (after expires now) then none else some p
    ]
  ]

abbrev pub last_sequence : State → ℤ
last_sequence s = s.last_seq

abbrev pub cold_key_configured : State → Bool
cold_key_configured s = is_some s.cold_key

-- The HTTP status for an error.
unfoldable pub map_pause_error : PauseError → ℕ
map_pause_error not_configured = 503
map_pause_error invalid_envelope = 400
map_pause_error invalid_signature_format = 400
map_pause_error invalid_payload = 400
map_pause_error wrong_type = 400
map_pause_error wrong_version = 400
map_pause_error wrong_scope = 400
map_pause_error malformed_timestamp = 400
map_pause_error expired = 400
map_pause_error invalid_signature = 401
map_pause_error sequence_not_monotonic = 409
map_pause_error _ = 500
