-- ===== src/Pause/Handlers.antt =====
-- The handlers of api/pause.go, over the state of pausectl/pausectl.go and the mapping of its errors.
use obsideo_provider.Base.{ℕ, Option, none, some, String, Bool, false, not, if◌then◌else◌, ok, err}
use obsideo_provider.Base.Int.{ℤ}
use obsideo_provider.Base.Time.{Time}
use obsideo_provider.Pause.State.{
  Envelope, Signal, PauseCodec, State, apply, current, last_sequence, cold_key_configured,
  map_pause_error,
}

-- The JSON bodies.
pub data Body : Type 0 where
  error not_active : Body
  pause_active : (sequence_number : ℤ) → (expires_at scope : String) → Body
  not_paused : (last_sequence_number : ℤ) → Body
  paused : Signal → Body

pub record Reply : Type 0 where
  pub status : ℕ
  pub body : Body

-- A provider without a state has no circuit breaker.
abbrev pub is_configured : Option State → Bool
is_configured none = false
is_configured (some s) = cold_key_configured s

module _ (c : PauseCodec) (unmarshal_envelope : String → Option Envelope) where
  -- From the decoded envelope on.
  unfoldable pub answer_pause :
      (writes_current writes_sequence : Bool) → State → Envelope → Time → Reply × State
  answer_pause writes_current writes_sequence s env now =
      let (result, s') = apply c writes_current writes_sequence s env now in
      elim result [
        | err e ↦ (record { status = map_pause_error e; body = error }, s')
        | ok stored ↦ (
          record {
            status = 200;
            body =
                pause_active stored.signal.sequence_number stored.signal.expires_at
                  stored.signal.scope;
          },
          s',
        )
      ]

  -- `handlePauseSignal`; the request's body is `none` if it cannot be read.
  unfoldable pub handle_pause_signal :
      (writes_current writes_sequence : Bool)
      → Option State
      → (body : Option String) → Time
      → Reply × Option State
  unfolding answer_pause
  handle_pause_signal writes_current writes_sequence none body now =
      (record { status = 503; body = error }, none)
  handle_pause_signal writes_current writes_sequence (some s) body now =
      if not (cold_key_configured s)
      then (record { status = 503; body = error }, some s)
      else (elim body [
        | none ↦ (record { status = 400; body = error }, some s)
        | some text ↦ elim (unmarshal_envelope text) [
          | none ↦ (record { status = 400; body = error }, some s)
          | some env ↦
              let (reply, s') = answer_pause writes_current writes_sequence s env now in
              (reply, some s')
        ]
      ])

module _ (c : PauseCodec) where
  -- `handlePauseStatus`
  unfoldable pub handle_pause_status : Option State → Time → Reply
  handle_pause_status none now = record { status = 200; body = not_active }
  handle_pause_status (some s) now =
      if not (cold_key_configured s)
      then record { status = 200; body = not_active }
      else (elim (current c s now) [
        | none ↦ record { status = 200; body = not_paused (last_sequence s) }
        | some cur ↦ record { status = 200; body = paused cur.signal }
      ])
