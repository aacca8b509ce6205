-- ===== src/Breaker/Exclusion.antt =====
-- At most one probe: over every interleaving of calls, a probe is in flight exactly while the
-- circuit is half-open, and never two.
use manglekit.Common.{ℕ, zero, suc, ◌+◌, ◌≤◌, ◌≡◌, List, [], ◌∷◌, arith}
use manglekit.Breaker.{
  State, half_open, Config, Breaker, Event, Pc, idle, snapped, probing, standing, returned,
  probe_done, standard_done, admit, turn, turn_at, run_schedule,
}

-- The calls that are inside the inner action as the probe of a half-open circuit.
abbrev pub is_probe : {R E : Type 0} → Pc R E → ℕ
is_probe probing = 1
is_probe _ = 0

abbrev pub probes : {R E : Type 0} → List (Pc R E) → ℕ
probes [] = 0
probes (p ∷ ps) = is_probe p + probes ps

abbrev pub probes_due : State → ℕ
probes_due half_open = 1
probes_due _ = 0

module _ {R E : Type 0} (c : Config E) where
  probe_done_due :
      (ev : Event R E) (b : Breaker) → probes_due (probe_done c ev.error ev.now b).state ≡ 0
  unfolding probe_done
  probe_done_due ev b = ground arith

  standard_done_due :
      (ev : Event R E) (b : Breaker)
      → probes_due (standard_done c ev.error ev.now b).state ≡ probes_due b.state
  unfolding standard_done
  standard_done_due ev b = ground arith

  -- One turn changes the number of probes and the state together. A probe needs to be counted.
  probes-turn :
      (ev : Event R E) (p : Pc R E) (b : Breaker) (others : ℕ)
      → is_probe p + others ≡ probes_due b.state
      → is_probe (turn c ev p b).1 + others ≡ probes_due (turn c ev p b).0.state
  unfolding turn admit
  probes-turn ev idle b n h = h
  probes-turn ev (snapped s) b n h = ground arith
  probes-turn ev probing b n h = ground (arith, probe_done_due ev b)
  probes-turn ev standing b n h = ground (arith, standard_done_due ev b)
  probes-turn ev (returned a) b n h = h

  probes-turn_at :
      (ev : Event R E) (i : ℕ) (ps : List (Pc R E)) (b : Breaker) (others : ℕ)
      → probes ps + others ≡ probes_due b.state
      → probes (turn_at c ev i ps b).1 + others ≡ probes_due (turn_at c ev i ps b).0.state
  unfolding turn_at
  probes-turn_at ev i [] b n h = h
  probes-turn_at ev zero (p ∷ ps) b n h =
      omega (arith, probes-turn ev p b (probes ps + n) (omega arith))
  probes-turn_at ev (suc i) (p ∷ ps) b n h =
      omega (arith, probes-turn_at ev i ps b (is_probe p + n) (omega arith))

  probes-run_schedule :
      (sched : List (ℕ × Event R E)) (ps : List (Pc R E)) (b : Breaker)
      → probes ps ≡ probes_due b.state
      → probes (run_schedule c sched ps b).1 ≡ probes_due (run_schedule c sched ps b).0.state
  unfolding run_schedule
  probes-run_schedule [] ps b h = h
  probes-run_schedule ((i, ev) ∷ sched) ps b h =
      let (b', ps') = turn_at c ev i ps b in
      probes-run_schedule sched ps' b' (omega (arith, probes-turn_at ev i ps b 0 (omega arith)))

  -- From a breaker and threads where the count of probes in flight fits the state (as with a new
  -- breaker and idle threads), every interleaving keeps the two together: one probe is in flight
  -- while the circuit is half-open and none otherwise, so no two calls ever probe at once.
  pub one_probe :
      (sched : List (ℕ × Event R E)) (ps : List (Pc R E)) (b : Breaker)
      → probes ps ≡ probes_due b.state
      → let (b', ps') = run_schedule c sched ps b in
        (probes ps' ≡ probes_due b'.state) × (probes ps' ≤ 1)
  one_probe sched ps b h =
      let (b', ps') = run_schedule c sched ps b in
      let e = probes-run_schedule sched ps b h in (e, due-le_one b'.state e)
    where
      due-le_one : (s : State) {n : ℕ} → n ≡ probes_due s → n ≤ 1
      due-le_one s e = ground arith
