-- ===== src/Tests/PauseTests.antt =====
-- Signals sent to a provider with a cold key.
use obsideo_provider.Base.{
  ◌≡◌, ◌≢◌, ◌↔◌, refl, Option, none, some, [], ◌∷◌, String, true, false, ok, err, replicate,
  if◌then◌else◌, str_eq,
}
use obsideo_provider.Base.Int.{pos}
use obsideo_provider.Base.Time.{Time}
use obsideo_provider.Pause.State.{
  Envelope, Signal, PauseCodec, State, number, parse_rfc3339, load, apply, read_last_sequence,
  write_sequence_failed, verify_envelope, validate, authenticate, check_kind, check_current,
  persist,
}
use obsideo_provider.Pause.Laws.{IsAcceptable, accepted, apply-accepts}
use obsideo_provider.Pause.Replay.{Attempt, apply_all, no_replay}
use obsideo_provider.Pause.Restart.{load-apply, apply_after_crash}
use obsideo_provider.Pause.Handlers.{pause_active, handle_pause_signal, answer_pause}
use obsideo_provider.Pause.HandlersLaws.{IsShown, handle_pause_signal-IsShown}

abbrev signal : Signal
signal = record {
  type = "obsideo.pause-signal";
  version = pos 1;
  issued_at = "now";
  expires_at = "later";
  scope = "coverage-enforcement";
  sequence_number = pos 5;
  reason = "";
}

abbrev times : String → Option Time
times s = if str_eq s "now" then some 100 else if str_eq s "later" then some 200 else none

-- Every signature of 64 bytes is good, and every payload is the signal.
abbrev codec : PauseCodec
codec = record {
  decode_base64 = λ _. some (replicate 64 0);
  verify = λ _ _ _. true;
  unmarshal_signal = λ _. some signal;
  parse_nano = λ _. none;
  parse_plain = times;
}

abbrev envelope : Envelope
envelope = record { payload = "signal"; signature = "signature" }

abbrev state : State
state = record {
  cold_key = some (1 ∷ []);
  last_seq = pos 4;
  active = none;
  dir = record { current = none; sequence = number (pos 4); rejected = [] };
}

signal-IsAcceptable : IsAcceptable codec state envelope 150 signal
unfolding parse_rfc3339 verify_envelope
signal-IsAcceptable = record {
  has_payload = refl;
  has_signature = refl;
  signed = refl;
  reads = refl;
  right_type = refl;
  right_version = refl;
  right_scope = refl;
  in_future = refl;
  dated = refl;
  fresh = refl;
}

apply-accepts_example :
    IsAcceptable codec state envelope 150 signal
    ↔ (apply codec true true state envelope 150 ≡ accepted codec state envelope signal)
apply-accepts_example = apply-accepts codec state envelope 150 signal

halted : (apply codec true false state envelope 150).0 ≡ err write_sequence_failed
unfolding apply validate authenticate check_kind check_current persist parse_rfc3339
halted = refl

abbrev attempt : Attempt codec
attempt = record { writes_current = true; writes_sequence = true; envelope = envelope; at = 160 }

no_replay_example :
    (apply codec true true
      (apply_all codec (apply codec true true state envelope 150).1 (attempt ∷ []))
      envelope
      170).0
    ≢ ok (record { envelope = envelope; signal = signal })
no_replay_example =
    no_replay codec state envelope 150 signal (attempt ∷ []) true true 170 signal-IsAcceptable
      (record { envelope = envelope; signal = signal })

expires : parse_rfc3339 codec signal.expires_at ≡ some 200
unfolding parse_rfc3339
expires = refl

load-apply_example :
    let s' = (apply codec true true state envelope 150).1 in
    load codec true s'.dir state.cold_key ≡ ok s'
load-apply_example = load-apply codec true state envelope 150 signal signal-IsAcceptable

sequence_read : read_last_sequence state.dir.sequence ≡ ok state.last_seq
unfolding read_last_sequence
sequence_read = refl

apply_after_crash_example :
    (s' : State) × (load codec true (apply codec true false state envelope 150).1.dir state.cold_key
      ≡ ok s')
    × (apply codec true true s' envelope 150 ≡ accepted codec s' envelope signal)
apply_after_crash_example =
    apply_after_crash codec true state envelope 150 signal signal-IsAcceptable sequence_read

posted :
    (handle_pause_signal codec
      (λ _. some envelope)
      true
      true
      (some state)
      (some "body")
      150).0.status
    ≡ 200
unfolding handle_pause_signal answer_pause apply validate authenticate check_kind check_current
    persist parse_rfc3339
posted = refl

handle_pause_signal-IsShown_example :
    let r =
      handle_pause_signal codec (λ _. some envelope) true true (some state) (some "body") 150 in
    (s : State) × (env : Envelope) × (sig : Signal) × (some state ≡ some s)
    × IsAcceptable codec s env 150 sig
    × (r.0.body ≡ pause_active sig.sequence_number sig.expires_at sig.scope)
    × IsShown codec sig r.1
handle_pause_signal-IsShown_example =
    handle_pause_signal-IsShown codec (λ _. some envelope) true true (some state) (some "body") 150
      posted
