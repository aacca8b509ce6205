-- ===== src/Breaker/Bounds.antt =====
-- The counters of the breaker: how far `failures` goes, and that it never wraps.
use manglekit.Common.{
  ℕ, zero, suc, ◌^◌, ◌≤◌, ◌<◌, ◌≡◌, ◌⊎◌, Option, none, some, List, [], ◌∷◌, arith,
}
use manglekit.Breaker.{
  closed, Config, Breaker, Event, Pc, idle, snapped, probing, standing, returned, probe_done,
  standard_done, admit, turn, turn_at, run_schedule,
}

-- While calls pass, the count of failures has not reached the threshold; it never exceeds the
-- larger of the threshold and 1.
pub record InBounds {E : Type 0} (c : Config E) (b : Breaker) : Type 0 where
  pub below : b.state ≡ closed → (b.failures ≡ 0) ⊎ (b.failures < c.failure_threshold)
  pub capped : (b.failures ≤ c.failure_threshold) ⊎ (b.failures ≤ 1)

module _ {E : Type 0} (c : Config E) (fits : c.failure_threshold < 2 ^ 64) where
  probe_done-InBounds :
      (err : Option E) (now : ℕ) (b : Breaker) → InBounds c b → InBounds c (probe_done c err now b)
  unfolding probe_done
  probe_done-InBounds err now b h = ground arith

  standard_done-InBounds :
      (err : Option E) (now : ℕ) (b : Breaker)
      → InBounds c b
      → InBounds c (standard_done c err now b)
  unfolding standard_done
  standard_done-InBounds none now b h = ground arith
  standard_done-InBounds (some e) now b h = ground arith

  module _ {R : Type 0} where
    turn-InBounds :
        (ev : Event R E) (p : Pc R E) (b : Breaker) → InBounds c b → InBounds c (turn c ev p b).0
    unfolding turn admit
    turn-InBounds ev idle b h = h
    turn-InBounds ev (snapped s) b h = ground arith
    turn-InBounds ev probing b h = probe_done-InBounds ev.error ev.now b h
    turn-InBounds ev standing b h = standard_done-InBounds ev.error ev.now b h
    turn-InBounds ev (returned a) b h = h

    turn_at-InBounds :
        (ev : Event R E) (i : ℕ) (ps : List (Pc R E)) (b : Breaker)
        → InBounds c b
        → InBounds c (turn_at c ev i ps b).0
    unfolding turn_at
    turn_at-InBounds ev i [] b h = h
    turn_at-InBounds ev zero (p ∷ ps) b h = turn-InBounds ev p b h
    turn_at-InBounds ev (suc i) (p ∷ ps) b h = turn_at-InBounds ev i ps b h

    -- With a threshold of 64 bits, every interleaving keeps the count of failures below the
    -- threshold (or at 0) while the circuit is closed, and within the threshold (or 1) always,
    -- so the uint64 counter never wraps.
    pub run_schedule-InBounds :
        (sched : List (ℕ × Event R E)) (ps : List (Pc R E)) (b : Breaker)
        → InBounds c b
        → InBounds c (run_schedule c sched ps b).0
    unfolding run_schedule
    run_schedule-InBounds [] ps b h = h
    run_schedule-InBounds ((i, ev) ∷ sched) ps b h =
        let (b', ps') = turn_at c ev i ps b in
        run_schedule-InBounds sched ps' b' (turn_at-InBounds ev i ps b h)
