-- ===== src/Pause/Laws.antt =====
-- Which signals the circuit breaker of pausectl/pausectl.go accepts, and what it does with them.
use obsideo_provider.Base.{
  ◌≡◌, ◌↔◌, ◌⊎◌, inl, inr, refl, ap, Option, none, some, List, Bool, true, false, arith, str_eq,
  eq_iff, Result, ok, err, is_some, Result-cases,
}
use obsideo_provider.Base.Int.{ℤ, pos, ltb_ℤ}
use obsideo_provider.Base.Time.{Time, after}
use obsideo_provider.Merkle.Codec.{Bytes}
use obsideo_provider.Store.Disk.{File, parsed}
use obsideo_provider.Pause.State.{
  Envelope, Signal, StoredPause, PauseCodec, PauseError, State, PauseDir, SequenceFile, number,
  signal_type, signal_scope, parse_rfc3339, verify_envelope, accept_current, load, authenticate,
  check_kind, check_current, validate, persist, apply, read_last_sequence, write_sequence_failed,
}

module _ (c : PauseCodec) where
  abbrev pub verified : Option Bytes → Envelope → Bool
  verified none env = false
  verified (some key) env = verify_envelope c key env

  abbrev pub later : Option Time → Time → Bool
  later none now = false
  later (some t) now = after t now

  -- What a signal has to satisfy, as one list of conditions.
  pub record IsAcceptable (s : State) (env : Envelope) (now : Time) (sig : Signal) : Type 0 where
    pub has_payload : str_eq env.payload "" ≡ false
    pub has_signature : str_eq env.signature "" ≡ false
    pub signed : verified s.cold_key env ≡ true
    pub reads : c.unmarshal_signal env.payload ≡ some sig
    pub right_type : sig.type ≡ signal_type
    pub right_version : sig.version ≡ pos 1
    pub right_scope : sig.scope ≡ signal_scope
    pub in_future : later (parse_rfc3339 c sig.expires_at) now ≡ true
    pub dated : is_some (parse_rfc3339 c sig.issued_at) ≡ true
    pub fresh : ltb_ℤ s.last_seq sig.sequence_number ≡ true

  authenticate_lem :
      (s : State) (env : Envelope)
      → authenticate c s env ≡ ok tt
      → (str_eq env.payload "" ≡ false)
        × (str_eq env.signature "" ≡ false)
        × (verified s.cold_key env ≡ true)
  unfolding authenticate verify_envelope
  authenticate_lem s env h = ground arith

  check_kind_lem :
      (sig : Signal)
      → check_kind c sig ≡ ok tt
      → (sig.type ≡ signal_type) × (sig.version ≡ pos 1) × (sig.scope ≡ signal_scope)
  unfolding check_kind
  check_kind_lem sig h = ground (arith, eq_iff sig.type signal_type, eq_iff sig.scope signal_scope)

  check_current_lem :
      (s : State) (sig : Signal) (now : Time)
      → check_current c s sig now ≡ ok tt
      → (later (parse_rfc3339 c sig.expires_at) now ≡ true)
        × (is_some (parse_rfc3339 c sig.issued_at) ≡ true)
        × (ltb_ℤ s.last_seq sig.sequence_number ≡ true)
  unfolding check_current
  check_current_lem s sig now h = ground arith

  validate_steps :
      (s : State) (env : Envelope) (now : Time) (sig : Signal)
      → validate c s env now ≡ ok sig
      → (authenticate c s env ≡ ok tt)
        × (c.unmarshal_signal env.payload ≡ some sig)
        × (check_kind c sig ≡ ok tt)
        × (check_current c s sig now ≡ ok tt)
  unfolding validate
  validate_steps s env now sig h = ground arith

  validate-IsAcceptable :
      (s : State) (env : Envelope) (now : Time) (sig : Signal)
      → validate c s env now ≡ ok sig
      → IsAcceptable s env now sig
  validate-IsAcceptable s env now sig h =
      let (a, r, k, t) = validate_steps s env now sig h in
      let envelope = authenticate_lem s env a in
      let kind = check_kind_lem sig k in
      let times = check_current_lem s sig now t in
      record {
        has_payload = envelope.0;
        has_signature = envelope.1;
        signed = envelope.2;
        reads = r;
        right_type = kind.0;
        right_version = kind.1;
        right_scope = kind.2;
        in_future = times.0;
        dated = times.1;
        fresh = times.2;
      }

  pub IsAcceptable-validate :
      (s : State) (env : Envelope) (now : Time) (sig : Signal)
      → IsAcceptable s env now sig
      → validate c s env now ≡ ok sig
  unfolding validate authenticate check_kind check_current verify_envelope
  IsAcceptable-validate s env now sig a =
      ground (arith, eq_iff sig.type signal_type, eq_iff sig.scope signal_scope)

  -- The reply to an accepted signal, and the state after it.
  abbrev pub accepted : State → Envelope → Signal → Result PauseError StoredPause × State
  accepted s env sig =
      let stored : StoredPause = record { envelope = env; signal = sig } in
      (
        ok stored,
        record s {
          active = some stored;
          last_seq = sig.sequence_number;
          dir = record (s.dir) {
            current = some (parsed stored);
            sequence = number sig.sequence_number;
          };
        },
      )

  pub apply_cases :
      (writes_current writes_sequence : Bool) (s : State) (env : Envelope) (now : Time)
      → ((e : PauseError) × (apply c writes_current writes_sequence s env now ≡ (err e, s)))
        ⊎ ((sig : Signal) × IsAcceptable s env now sig
            × (apply c writes_current writes_sequence s env now
                ≡ persist c writes_current writes_sequence s env sig))
  unfolding apply
  apply_cases writes_current writes_sequence s env now =
      elim (Result-cases (validate c s env now)) [
        | inr (e, bad) ↦ inl (e, rw (bad, apply))
        | inl (sig, good) ↦ inr (sig, validate-IsAcceptable s env now sig good, rw (good, apply))
      ]

  -- A stored signal that is signed with the key is active after a start.
  pub load_trusted :
      (sets_aside : Bool) (key : Option Bytes) (env : Envelope) (sig : Signal) (file : SequenceFile)
      (rejected : List (File StoredPause)) (seq : ℤ)
      → read_last_sequence file ≡ ok seq
      → verified key env ≡ true
      → let stored : StoredPause = record { envelope = env; signal = sig } in
        let dir : PauseDir = record {
          current = some (parsed stored);
          sequence = file;
          rejected = rejected;
        } in
        load c sets_aside dir key
        ≡ ok (record { cold_key = key; last_seq = seq; active = some stored; dir = dir })
  unfolding load accept_current
  load_trusted sets_aside none env sig file rejected seq r v = cc
  load_trusted sets_aside (some key) env sig file rejected seq r v = ground arith

  -- When nothing fails on the disk, `apply` accepts an envelope as the signal `sig` exactly if that is
  -- acceptable: then the signal is active, its number is the last, both are on the disk, and all else
  -- is as it was.
  pub apply-accepts :
      (s : State) (env : Envelope) (now : Time) (sig : Signal)
      → IsAcceptable s env now sig ↔ (apply c true true s env now ≡ accepted s env sig)
  unfolding persist
  apply-accepts s env now sig = (
    (λ a. unfold apply in rw (IsAcceptable-validate s env now sig a, apply)),
    (λ h. elim (apply_cases true true s env now) [
      | inl (e, p) ↦ cc
      | inr (sig', a, p) ↦ let same : sig' ≡ sig = cc in rw same at a
    ]),
  )

  persist_error :
      (writes_current writes_sequence : Bool) (s : State) (env : Envelope) (sig : Signal)
      (e : PauseError)
      → (persist c writes_current writes_sequence s env sig).0 ≡ err e
      → let s' = (persist c writes_current writes_sequence s env sig).1 in
        (s' ≡ s)
        ⊎ ((e ≡ write_sequence_failed) × (s'.active ≡ s.active) × (s'.last_seq ≡ s.last_seq))
  unfolding persist
  persist_error false ws s env sig e h = inl refl
  persist_error true false s env sig e h = inr (cc, refl, refl)
  persist_error true true s env sig e h = cc

  -- A refused signal changes neither the active pause nor the last number; the disk changes only when
  -- the second of the two files could not be written.
  pub apply_error :
      (writes_current writes_sequence : Bool) (s : State) (env : Envelope) (now : Time)
      (e : PauseError)
      → (apply c writes_current writes_sequence s env now).0 ≡ err e
      → let s' = (apply c writes_current writes_sequence s env now).1 in
        (s' ≡ s)
        ⊎ ((e ≡ write_sequence_failed) × (s'.active ≡ s.active) × (s'.last_seq ≡ s.last_seq))
  apply_error writes_current writes_sequence s env now e h =
      elim (apply_cases writes_current writes_sequence s env now) [
        | inl (_, p) ↦ inl (ap (λ r. r.1) p)
        | inr (sig, _, p) ↦
            rw p (persist_error writes_current writes_sequence s env sig e (rw p at h))
      ]
