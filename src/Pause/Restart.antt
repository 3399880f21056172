-- ===== src/Pause/Restart.antt =====
-- A pause over time, and after a restart of the provider (Load of pausectl/pausectl.go).
use obsideo_provider.Base.{◌≡◌, refl, some, Bool, true, false, ltb, ok, err}
use obsideo_provider.Base.Time.{Time}
use obsideo_provider.Store.Disk.{parsed}
use obsideo_provider.Pause.State.{
  Envelope, Signal, StoredPause, PauseCodec, State, PauseDir, number, parse_rfc3339, load, persist,
  apply, is_paused, read_last_sequence, write_sequence_failed,
}
use obsideo_provider.Pause.Laws.{
  IsAcceptable, IsAcceptable-validate, accepted, apply-accepts, load_trusted,
}

module _ (c : PauseCodec) where
  -- After an accepted signal the provider is paused until, and not from, the instant at which the
  -- signal expires.
  pub is_paused-apply :
      (s : State) (env : Envelope) (now : Time) (sig : Signal) (expires at : Time)
      → IsAcceptable c s env now sig
      → parse_rfc3339 c sig.expires_at ≡ some expires
      → is_paused c (apply c true true s env now).1 at ≡ ltb at expires
  unfolding is_paused
  is_paused-apply s env now sig expires at a e =
      let p = (apply-accepts c s env now sig).0 a in rw (p, is_paused, e)

  -- A restart after an accepted signal restores the state, the active pause and the last number
  -- included.
  pub load-apply :
      (sets_aside : Bool) (s : State) (env : Envelope) (now : Time) (sig : Signal)
      → IsAcceptable c s env now sig
      → let s' = (apply c true true s env now).1 in load c sets_aside s'.dir s.cold_key ≡ ok s'
  unfolding read_last_sequence
  load-apply sets_aside s env now sig a =
      let p = (apply-accepts c s env now sig).0 a in
      rw p (
        load_trusted c sets_aside s.cold_key env sig (number sig.sequence_number) s.dir.rejected _
          refl a.signed)

  -- If the provider stops between the two writes of `apply` and is started again, it accepts the same
  -- signal once more: the number on the disk is still the old one.
  pub apply_after_crash :
      (sets_aside : Bool) (s : State) (env : Envelope) (now : Time) (sig : Signal)
      → IsAcceptable c s env now sig
      → read_last_sequence s.dir.sequence ≡ ok s.last_seq
      → (s' : State) × (load c sets_aside (apply c true false s env now).1.dir s.cold_key ≡ ok s')
        × (apply c true true s' env now ≡ accepted c s' env sig)
  apply_after_crash sets_aside s env now sig a onto =
      let stored : StoredPause = record { envelope = env; signal = sig } in
      let dir' : PauseDir = record (s.dir) { current = some (parsed stored) } in
      let s' : State = record s { active = some stored; dir = dir' } in
      let halted : apply c true false s env now
          ≡ (err write_sequence_failed, record s { dir = dir' }) =
        unfold apply persist in rw (IsAcceptable-validate c s env now sig a, apply) in
      let still : IsAcceptable c s' env now sig = record {
        has_payload = a.has_payload;
        has_signature = a.has_signature;
        signed = a.signed;
        reads = a.reads;
        right_type = a.right_type;
        right_version = a.right_version;
        right_scope = a.right_scope;
        in_future = a.in_future;
        dated = a.dated;
        fresh = a.fresh;
      } in
      (
        s',
        rw halted (
            load_trusted c sets_aside s.cold_key env sig s.dir.sequence s.dir.rejected s.last_seq
              onto a.signed),
        (apply-accepts c s' env now sig).0 still,
      )
