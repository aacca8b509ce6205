-- ===== src/Breaker/Serial.antt =====
-- Calls one after another, with nothing in between: the breaker as a client of one thread sees it.
use manglekit.Common.{
  ℕ, ◌+◌, ◌-◌, ◌^◌, ◌++◌, ◌≤◌, ◌<◌, ◌≡◌, ◌≢◌, refl, true, false, List, [], ◌∷◌, arith, length, All,
}
use manglekit.Breaker.{
  closed, open_circuit, Config, Breaker, Event, Admission, refuse, restart, probe, standard, Answer,
  err_circuit_open, answered, counts, probe_done, standard_done, admit,
}

-- With no other call between the snapshot and the lock, no call starts again.
admit-ne_restart : {E : Type 0} (c : Config E) (now : ℕ) (b : Breaker) → admit c b now b ≢ restart
unfolding admit
admit-ne_restart c now b = ground arith

module _ {R E : Type 0} where
  finish : Config E → Event R E → Admission → Breaker → Breaker × Answer R E
  finish c ev refuse b = (b, err_circuit_open)
  -- Never reached, by `admit-ne_restart`.
  finish c ev restart b = (b, err_circuit_open)
  finish c ev (probe b') b = (probe_done c ev.error ev.now b', answered ev.response ev.error)
  finish c ev standard b = (standard_done c ev.error ev.now b, answered ev.response ev.error)

  -- `Execute` when no other call moves: the snapshot is the state itself.
  pub execute : Config E → Event R E → Breaker → Breaker × Answer R E
  unfolding finish
  execute c ev b = finish c ev (admit c b ev.now b) b

  pub calls : Config E → List (Event R E) → Breaker → Breaker
  calls c [] b = b
  calls c (ev ∷ evs) b = calls c evs (execute c ev b).0

  -- A call on an open circuit whose timeout has not passed is refused and changes nothing.
  open-refuses :
      (c : Config E) (ev : Event R E) (b : Breaker)
      → b.state ≡ open_circuit
      → ev.now - b.last_open ≤ c.reset_timeout
      → execute c ev b ≡ (b, err_circuit_open)
  unfolding execute admit
  open-refuses c ev b o t = ground arith

  -- After the timeout a single call decides: the circuit closes with its count at 0 unless the
  -- error counts, and opens again from that moment if it does. The caller gets the answer as is.
  probe-decides :
      (c : Config E) (ev : Event R E) (b : Breaker)
      → b.state ≡ open_circuit
      → c.reset_timeout < ev.now - b.last_open
      → let (b', a) = execute c ev b in
        (a ≡ answered ev.response ev.error)
        × (counts c ev.error ≡ false → (b'.state ≡ closed) × (b'.failures ≡ 0))
        × (counts c ev.error ≡ true → (b'.state ≡ open_circuit) × (b'.last_open ≡ ev.now))
  unfolding execute admit probe_done
  probe-decides c ev b o t = ground arith

  -- A call on an open circuit: until the timeout has passed it is refused and changes nothing; after
  -- that this one call decides, its answer is passed on as it is, and the circuit closes with its
  -- count at 0 unless the error counts, and opens again from that moment if it does.
  pub execute-open :
      (c : Config E) (ev : Event R E) (b : Breaker)
      → b.state ≡ open_circuit
      → (ev.now - b.last_open ≤ c.reset_timeout → execute c ev b ≡ (b, err_circuit_open))
        × (c.reset_timeout < ev.now - b.last_open
            → let (b', a) = execute c ev b in
              (a ≡ answered ev.response ev.error)
              × (counts c ev.error ≡ false → (b'.state ≡ closed) × (b'.failures ≡ 0))
              × (counts c ev.error ≡ true → (b'.state ≡ open_circuit) × (b'.last_open ≡ ev.now)))
  execute-open c ev b o = (open-refuses c ev b o, probe-decides c ev b o)

  -- What a counted failure does to a closed circuit.
  failure_step :
      (c : Config E) (ev : Event R E) (b : Breaker)
      → c.failure_threshold < 2 ^ 64
      → b.state ≡ closed
      → counts c ev.error ≡ true
      → b.failures < c.failure_threshold
      → let b' = (execute c ev b).0 in
        (b'.failures ≡ b.failures + 1)
        × (b.failures + 1 < c.failure_threshold → b'.state ≡ closed)
        × (b.failures + 1 ≡ c.failure_threshold → b'.state ≡ open_circuit)
  unfolding execute admit standard_done counts
  failure_step c ev b fits o e lt = ground arith

  abbrev pub Counted : Config E → List (Event R E) → Type 0
  Counted c evs = All (λ ev. counts c ev.error ≡ true) evs

  pub failures-calls :
      (c : Config E) (evs : List (Event R E)) (b : Breaker)
      → c.failure_threshold < 2 ^ 64
      → b.state ≡ closed
      → Counted c evs
      → b.failures + length evs < c.failure_threshold
      → ((calls c evs b).state ≡ closed) × ((calls c evs b).failures ≡ b.failures + length evs)
  unfolding calls
  failures-calls c [] b fits o h lt = (o, omega arith)
  failures-calls c (ev ∷ evs) b fits o h lt =
      let (grown, stays, _) = failure_step c ev b fits o h.0 (omega arith) in
      let (o', n) =
        failures-calls c evs (execute c ev b).0 fits (stays (omega arith)) h.1 (omega arith) in
      (o', omega arith)

  calls-append :
      (c : Config E) (evs fs : List (Event R E)) (b : Breaker)
      → calls c (evs ++ fs) b ≡ calls c fs (calls c evs b)
  unfolding calls
  calls-append c [] fs b = refl
  calls-append c (ev ∷ evs) fs b = calls-append c evs fs (execute c ev b).0

  -- From a closed circuit with no failure counted, a run of as many counted failures as the threshold
  -- opens the circuit with its last one: after each shorter start `evs` of the run the circuit is
  -- closed, with that many failures counted. The threshold is a 64-bit number.
  pub trips_at_threshold :
      (c : Config E) (evs more : List (Event R E)) (last : Event R E) (b : Breaker)
      → c.failure_threshold < 2 ^ 64
      → b.state ≡ closed
      → b.failures ≡ 0
      → Counted c evs
      → Counted c more
      → counts c last.error ≡ true
      → length evs + length more + 1 ≡ c.failure_threshold
      → ((calls c evs b).state ≡ closed)
        × ((calls c evs b).failures ≡ length evs)
        × ((calls c (evs ++ (more ++ last ∷ [])) b).state ≡ open_circuit)
  unfolding calls
  trips_at_threshold c evs more last b fits o z hs hm hl e =
      let b1 = calls c evs b in
      let b2 = calls c more b1 in
      let (o1, n1) = failures-calls c evs b fits o hs (omega arith) in
      let (o2, n2) = failures-calls c more b1 fits o1 hm (omega arith) in
      let (_, _, opens) = failure_step c last b2 fits o2 hl (omega arith) in
      (
        o1,
        omega arith,
        rw (calls-append c evs (more ++ last ∷ []) b, calls-append c more (last ∷ []) b1)
            (opens (omega arith)),
      )
