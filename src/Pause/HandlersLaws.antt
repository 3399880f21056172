-- ===== src/Pause/HandlersLaws.antt =====
-- What the two handlers of api/pause.go tell an operator, together.
use obsideo_provider.Base.{
  ◌≤◌, ◌<◌, ◌≡◌, ◌≢◌, refl, ap, sym, ◌∙◌, subst, inl, inr, Option, none, some, String, Bool, true,
  arith, ok, Option-cases, Bool-cases, Result-cases,
}
use obsideo_provider.Base.Time.{Time}
use obsideo_provider.Pause.State.{
  Envelope, Signal, PauseCodec, PauseError, StoredPause, State, parse_rfc3339, persist, apply,
  current, cold_key_configured, map_pause_error,
}
use obsideo_provider.Pause.Laws.{IsAcceptable, accepted, apply_cases}
use obsideo_provider.Pause.Handlers.{
  pause_active, not_paused, paused, answer_pause, handle_pause_signal, handle_pause_status,
}

map_pause_error-ne : (e : PauseError) → map_pause_error e ≢ 200
unfolding map_pause_error
map_pause_error-ne e = ground arith

module _ (c : PauseCodec) where
  -- After the signal: what the status says before and after the expiry.
  pub record IsShown (sig : Signal) (pause : Option State) : Type 0 where
    pub until :
        (expires at : Time)
        → parse_rfc3339 c sig.expires_at ≡ some expires
        → at < expires
        → handle_pause_status c pause at ≡ record { status = 200; body = paused sig }
    pub afterwards :
        (expires at : Time)
        → parse_rfc3339 c sig.expires_at ≡ some expires
        → expires ≤ at
        → handle_pause_status c pause at
          ≡ record { status = 200; body = not_paused sig.sequence_number }

  accepted-IsShown :
      (s : State) (env : Envelope) (sig : Signal)
      → cold_key_configured s ≡ true
      → IsShown sig (some (accepted c s env sig).1)
  unfolding handle_pause_status current
  accepted-IsShown s env sig key = record {
    until = λ expires at reads before. ground (arith, reads, before, key);
    afterwards = λ expires at reads behind. ground (arith, reads, behind, key);
  }

module _ (c : PauseCodec) (unmarshal_envelope : String → Option Envelope) where
  persist-accepted :
      (wc ws : Bool) (s : State) (env : Envelope) (sig : Signal) (stored : StoredPause)
      → (persist c wc ws s env sig).0 ≡ ok stored
      → persist c wc ws s env sig ≡ accepted c s env sig
  unfolding persist
  persist-accepted wc ws s env sig stored h = ground arith

  answer_pause-accepted :
      (wc ws : Bool) (s : State) (env : Envelope) (now : Time)
      → (answer_pause c unmarshal_envelope wc ws s env now).0.status ≡ 200
      → (sig : Signal) × IsAcceptable c s env now sig
        × (apply c wc ws s env now ≡ accepted c s env sig)
  unfolding answer_pause
  answer_pause-accepted wc ws s env now h = elim (Result-cases (apply c wc ws s env now).0) [
    | inr (e, bad) ↦ absurd (map_pause_error-ne e (ground (arith, bad, h)))
    | inl (stored, good) ↦ elim (apply_cases c wc ws s env now) [
      | inl (e, refused) ↦ cc
      | inr (sig, fine, same) ↦ (
        sig,
        fine,
        same ∙ persist-accepted wc ws s env sig stored (ap (λ r. r.0) (sym same) ∙ good),
      )
    ]
  ]

  handle_pause_signal-accepted :
      (wc ws : Bool) (s : State) (text : String) (env : Envelope) (now : Time) (sig : Signal)
      → cold_key_configured s ≡ true
      → unmarshal_envelope text ≡ some env
      → apply c wc ws s env now ≡ accepted c s env sig
      → handle_pause_signal c unmarshal_envelope wc ws (some s) (some text) now ≡ (
        record { status = 200; body = pause_active sig.sequence_number sig.expires_at sig.scope },
        some (accepted c s env sig).1,
      )
  unfolding handle_pause_signal answer_pause
  handle_pause_signal-accepted wc ws s text env now sig key good same =
      rw (handle_pause_signal, key, good, answer_pause, same)
        (ap
          (λ (s' : State). (
            record {
              status = 200;
              body = pause_active sig.sequence_number sig.expires_at sig.scope;
            },
            some s',
          ))
          (ap (λ r. r.1) same))

  -- A signal answered with 200 was acceptable, the answer names it, and from then on the status shows it
  -- at every instant before its expiry, and at any other only its number.
  pub handle_pause_signal-IsShown :
      (wc ws : Bool) (pause : Option State) (body : Option String) (now : Time)
      → (handle_pause_signal c unmarshal_envelope wc ws pause body now).0.status ≡ 200
      → (s : State) × (env : Envelope) × (sig : Signal) × (pause ≡ some s)
        × IsAcceptable c s env now sig
        × ((handle_pause_signal c unmarshal_envelope wc ws pause body now).0.body
            ≡ pause_active sig.sequence_number sig.expires_at sig.scope)
        × IsShown c sig (handle_pause_signal c unmarshal_envelope wc ws pause body now).1
  unfolding handle_pause_signal answer_pause
  handle_pause_signal-IsShown wc ws none body now h = absurd (omega (arith, h))
  handle_pause_signal-IsShown wc ws (some s) none now h = absurd (ground (arith, h))
  handle_pause_signal-IsShown wc ws (some s) (some text) now h =
      elim (Bool-cases (cold_key_configured s)) [
        | inr off ↦ absurd (ground (arith, off, h))
        | inl key ↦ elim (Option-cases (unmarshal_envelope text)) [
          | inl bad ↦ absurd (ground (arith, key, bad, h))
          | inr (env, good) ↦
              let (sig, fine, same) =
                answer_pause-accepted wc ws s env now (ground (arith, key, good, h)) in
              let whole = handle_pause_signal-accepted wc ws s text env now sig key good same in
              (
                s,
                env,
                sig,
                refl,
                fine,
                ap (λ r. r.0.body) whole,
                subst (IsShown c sig) (ap (λ r. r.1) (sym whole))
                    (accepted-IsShown c s env sig key),
              )
        ]
      ]
