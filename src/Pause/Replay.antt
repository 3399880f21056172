-- ===== src/Pause/Replay.antt =====
-- Why a pause signal that pausectl/pausectl.go has applied is not accepted again.
use obsideo_provider.Base.{
  ◌≡◌, ◌≢◌, inl, inr, ap, List, [], ◌∷◌, Bool, true, false, arith, ltb→lt, ok,
}
use obsideo_provider.Base.Int.{ltb_ℤ, ◌≤ℤ◌}
use obsideo_provider.Base.Time.{Time}
use obsideo_provider.Pause.State.{Envelope, Signal, StoredPause, PauseCodec, State, persist, apply}
use obsideo_provider.Pause.Laws.{IsAcceptable, apply_cases, apply-accepts}

module _ (c : PauseCodec) where
  persist-monotonic :
      (writes_current writes_sequence : Bool) (s : State) (env : Envelope) (now : Time)
      (sig : Signal)
      → IsAcceptable c s env now sig
      → s.last_seq ≤ℤ (persist c writes_current writes_sequence s env sig).1.last_seq
  unfolding persist
  persist-monotonic false ws s env now sig a = omega arith
  persist-monotonic true false s env now sig a = omega arith
  persist-monotonic true true s env now sig a = omega (arith, ltb→lt _ _ a.fresh)

  -- Attempts to apply envelopes, one after another.
  pub record Attempt : Type 0 where
    pub writes_current : Bool
    pub writes_sequence : Bool
    pub envelope : Envelope
    pub at : Time

  unfoldable pub apply_all : State → List Attempt → State
  apply_all s [] = s
  apply_all s (a ∷ as') =
      apply_all (apply c a.writes_current a.writes_sequence s a.envelope a.at).1 as'

  apply-monotonic :
      (writes_current writes_sequence : Bool) (s : State) (env : Envelope) (now : Time)
      → s.last_seq ≤ℤ (apply c writes_current writes_sequence s env now).1.last_seq
  apply-monotonic writes_current writes_sequence s env now =
      elim (apply_cases c writes_current writes_sequence s env now) [
        | inl (_, p) ↦ rw p (omega arith)
        | inr (sig, a, p) ↦ rw p (persist-monotonic writes_current writes_sequence s env now sig a)
      ]

  apply_all-monotonic : (s : State) (as' : List Attempt) → s.last_seq ≤ℤ (apply_all s as').last_seq
  unfolding apply_all
  apply_all-monotonic s [] = omega arith
  apply_all-monotonic s (a ∷ as') = omega (
    arith,
    apply-monotonic a.writes_current a.writes_sequence s a.envelope a.at,
    apply_all-monotonic (apply c a.writes_current a.writes_sequence s a.envelope a.at).1 as',
  )

  -- An envelope that was accepted once is refused ever after, whatever else arrives in between.
  pub no_replay :
      (s : State) (env : Envelope) (now : Time) (sig : Signal) (others : List Attempt)
      (writes_current writes_sequence : Bool) (again : Time)
      → IsAcceptable c s env now sig
      → (stored : StoredPause)
      → (apply c writes_current writes_sequence
          (apply_all (apply c true true s env now).1 others)
          env
          again).0
        ≢ ok stored
  no_replay s env now sig others writes_current writes_sequence again a stored h =
      let s1 = (apply c true true s env now).1 in
      let s2 = apply_all s1 others in
      elim (apply_cases c writes_current writes_sequence s2 env again) [
        | inl (_, p) ↦ cc (ap (λ r. r.0) p)
        | inr (sig', a', p) ↦
            let same : sig' ≡ sig = cc (a.reads, a'.reads) in
            let last : s1.last_seq ≡ sig.sequence_number =
              ap (λ r. r.1.last_seq) ((apply-accepts c s env now sig).0 a) in
            let grown : sig.sequence_number ≤ℤ s2.last_seq =
              rw last at (apply_all-monotonic s1 others) in
            let newer : ltb_ℤ s2.last_seq sig.sequence_number ≡ true = rw same at a'.fresh in
            absurd (omega (arith, ltb→lt _ _ newer))
      ]
