-- ===== src/Cmd/Heartbeat/Laws.antt =====
-- How often the heartbeat of cmd/heartbeat.go warns, over any sequence of ticks.
use obsideo_provider.Base.{
  ℕ, suc, ◌+◌, ◌-◌, ◌*◌, ◌/◌, ◌<◌, ◌≤◌, ◌≡◌, refl, ap, ◌⊎◌, inl, inr, none, some, List, [], ◌∷◌,
  Bool, true, false, not, ◌||◌, ltb, leb, arith, lt→ltb, Bool-cases, if◌then◌else◌,
}
use obsideo_provider.Base.Time.{Time, shorter-sub}
use obsideo_provider.Store.Disk.{Disk}
use obsideo_provider.Cmd.Heartbeat.{
  warn_throttle, HeartbeatState, record_success, record_failure, Beat, Tick, Log, metric_warnings,
  marshal_failed, request_failed, send_failed, bad_status, first_success, recovered, Ticked, failed,
  succeeded, send_heartbeat, tick_heartbeat, gather_metrics,
}

-- A tick fails if no response of a status from 200 to 299 comes.
abbrev pub fails : Tick → Bool
fails t =
    not t.marshals
    || not t.builds_request
    || (elim t.status [ none ↦ true | some status ↦ ltb status 200 || leb 300 status ])

-- The lines that warn of a failed beat.
abbrev pub warnings : List Log → ℕ
warnings [] = 0
warnings (marshal_failed n ∷ logs) = suc (warnings logs)
warnings (request_failed n ∷ logs) = suc (warnings logs)
warnings (send_failed n ∷ logs) = suc (warnings logs)
warnings (bad_status code n ∷ logs) = suc (warnings logs)
warnings (metric_warnings n ∷ logs) = warnings logs
warnings (first_success ∷ logs) = warnings logs
warnings (recovered ∷ logs) = warnings logs

-- The lines about values that could not be read.
abbrev pub metric_lines : List Log → ℕ
metric_lines [] = 0
metric_lines (metric_warnings n ∷ logs) = n + metric_lines logs
metric_lines (marshal_failed n ∷ logs) = metric_lines logs
metric_lines (request_failed n ∷ logs) = metric_lines logs
metric_lines (send_failed n ∷ logs) = metric_lines logs
metric_lines (bad_status code n ∷ logs) = metric_lines logs
metric_lines (first_success ∷ logs) = metric_lines logs
metric_lines (recovered ∷ logs) = metric_lines logs

-- The values that could not be read, over the ticks.
abbrev pub unread : List (Disk × Tick) → ℕ
unread [] = 0
unread ((disk, t) ∷ ticks) =
    (if t.walks then 0 else 1) + (elim t.free [ none ↦ 1 | some n ↦ 0 ]) + unread ticks

-- The failures that do not follow a failure.
abbrev pub streaks : (failing : Bool) → List (Disk × Tick) → ℕ
streaks failing [] = 0
streaks failing ((disk, t) ∷ ticks) =
    (if fails t then (if failing then 0 else 1) else 0) + streaks (fails t) ticks

-- The ticks come in the order of their instants, from the first to the second.
abbrev pub InOrder : Time → Time → List (Disk × Tick) → Type 0
InOrder start end [] = start ≤ end
InOrder start end ((disk, t) ∷ ticks) = (start ≤ t.now) × InOrder t.now end ticks

InOrder-le : (start end : Time) (ticks : List (Disk × Tick)) → InOrder start end ticks → start ≤ end
InOrder-le start end [] h = h
InOrder-le start end ((disk, t) ∷ ticks) h = omega (arith, h.0, InOrder-le t.now end ticks h.1)

module _ (b : Beat) where
  -- The warnings of all the ticks, from a state.
  unfoldable pub all_warnings : List (Disk × Tick) → HeartbeatState → ℕ
  all_warnings [] s = 0
  all_warnings ((disk, t) ∷ ticks) s =
      let ticked = tick_heartbeat b disk t s in
      warnings ticked.logs + all_warnings ticks ticked.state

  -- What one tick does to the warnings and to the state.
  record IsTicked (t : Tick) (s : HeartbeatState) (r : Ticked) : Type 0 where
    quiet : fails t ≡ false → (warnings r.logs ≡ 0) × (r.state.consec_failures ≡ 0)
    counts : fails t ≡ true → r.state.consec_failures ≡ s.consec_failures + 1
    warned :
        fails t ≡ true
        → ((warnings r.logs ≡ 1)
            × (r.state.last_warn_at ≡ t.now)
            × ((s.consec_failures ≡ 0) ⊎ (s.last_warn_at + warn_throttle ≤ t.now)))
          ⊎ ((warnings r.logs ≡ 0)
              × (r.state.last_warn_at ≡ s.last_warn_at)
              × (0 < s.consec_failures))

  tick_heartbeat-IsTicked :
      (disk : Disk) (t : Tick) (s : HeartbeatState) → IsTicked t s (tick_heartbeat b disk t s)
  unfolding tick_heartbeat send_heartbeat failed succeeded record_failure record_success
  tick_heartbeat-IsTicked disk t s =
      let time = shorter-sub t.now s.last_warn_at warn_throttle (omega arith) (omega arith) in
      record {
        quiet = λ h. ground (arith, h);
        counts = λ h. ground (arith, h);
        warned = λ h. ground (arith, h, time);
      }

  -- Counted from an instant before the ticks that is not after the last warning of a streak.
  warnings_from :
      (ticks : List (Disk × Tick)) (s : HeartbeatState) (mark start end : Time)
      → mark ≤ start
      → InOrder start end ticks
      → (0 < s.consec_failures → mark ≤ s.last_warn_at)
      → all_warnings ticks s * warn_throttle + mark
        ≤ streaks (ltb 0 s.consec_failures) ticks * warn_throttle + end
  unfolding all_warnings
  warnings_from [] s mark start end before order held = omega (arith, order)
  warnings_from ((disk, t) ∷ ticks) s mark start end before order held =
      let r = tick_heartbeat b disk t s in
      let is = tick_heartbeat-IsTicked disk t s in
      elim (Bool-cases (fails t)) [
        | inr fine ↦
            let (none_here, reset) = is.quiet fine in
            let later =
              warnings_from ticks r.state mark t.now end (omega (arith, order.0)) order.1
                (λ h. absurd (omega (arith, reset))) in
            ground (arith, none_here, reset, later, fine)
        | inl bad ↦
            let on : ltb 0 r.state.consec_failures ≡ true =
              lt→ltb _ _ (omega (arith, is.counts bad)) in
            elim (is.warned bad) [
              | inl (one, at_now, why) ↦
                  let later =
                    warnings_from ticks r.state t.now t.now end (omega arith) order.1
                      (λ h. omega (arith, at_now)) in
                  ground (arith, one, on, bad, later, order.0, before, why, held)
              | inr (none_here, same, running) ↦
                  let later =
                    warnings_from ticks r.state mark t.now end (omega (arith, order.0)) order.1
                      (λ h. omega (arith, same, held running)) in
                  ground (arith, none_here, on, bad, later, running)
            ]
      ]

  -- The lines about values of all the ticks.
  unfoldable pub all_metric_lines : List (Disk × Tick) → HeartbeatState → ℕ
  all_metric_lines [] s = 0
  all_metric_lines ((disk, t) ∷ ticks) s =
      let ticked = tick_heartbeat b disk t s in
      metric_lines ticked.logs + all_metric_lines ticks ticked.state

  tick_heartbeat-metrics :
      (disk : Disk) (t : Tick) (s : HeartbeatState)
      → metric_lines (tick_heartbeat b disk t s).logs
        ≡ (if t.walks then 0 else 1) + (elim t.free [ none ↦ 1 | some n ↦ 0 ])
  unfolding tick_heartbeat gather_metrics send_heartbeat failed succeeded record_failure
      record_success
  tick_heartbeat-metrics disk t s = ground arith

  all_metric_lines-eq :
      (ticks : List (Disk × Tick)) (s : HeartbeatState) → all_metric_lines ticks s ≡ unread ticks
  unfolding all_metric_lines
  all_metric_lines-eq [] s = refl
  all_metric_lines-eq ((disk, t) ∷ ticks) s = omega (
    arith,
    tick_heartbeat-metrics disk t s,
    all_metric_lines-eq ticks (tick_heartbeat b disk t s).state,
  )

  -- From any state outside a streak of failures, ticks in order between two instants warn of a failed
  -- beat at most once for each streak of failures among them, and once more for every five minutes; but
  -- a value that cannot be read is logged at every tick, without any throttle.
  pub warnings_bounded :
      (ticks : List (Disk × Tick)) (s : HeartbeatState) (start end : Time)
      → s.consec_failures ≡ 0
      → InOrder start end ticks
      → (all_warnings ticks s ≤ streaks false ticks + (end - start) / warn_throttle)
        × (all_metric_lines ticks s ≡ unread ticks)
  warnings_bounded ticks s start end idle order =
      let whole =
        warnings_from ticks s start start end (omega arith) order
          (λ h. absurd (omega (arith, idle))) in
      let off : ltb 0 s.consec_failures ≡ false = rw idle refl in
      (
        omega (
          arith,
          whole,
          ap (λ (x : Bool). streaks x ticks) off,
          InOrder-le start end ticks order,
        ),
        all_metric_lines-eq ticks s,
      )
