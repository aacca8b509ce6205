-- ===== src/Breaker.antt =====
-- adapters/resilience/circuit_breaker.go. A call takes a snapshot under the read lock, is admitted
-- or refused, runs the inner action with no lock held, and records the outcome under the write
-- lock; each of these parts is a function here, and threads interleave between them. The inner
-- action and the clock belong to other code: their answers come with an event.
pub mod Bounds
pub mod Exclusion
pub mod Serial
mod Tests
use manglekit.Common.{
  ℕ, zero, suc, ◌+◌, ◌-◌, ◌%◌, ◌^◌, Bool, true, false, not, Option, none, some, List, [], ◌∷◌, leb,
  eqb, if◌then◌else◌,
}

pub data State : Type 0 where
  closed open_circuit half_open : State

pub record Config (E : Type 0) : Type 0 where
  pub failure_threshold : ℕ
  pub reset_timeout : ℕ
  pub failure_when : Option (E → Bool)

-- The fields that calls share.
pub record Breaker : Type 0 where
  pub state : State
  pub failures : ℕ
  pub last_open : ℕ
  pub generation : ℕ

abbrev pub u64 : ℕ → ℕ
u64 n = n % 2 ^ 64

unfoldable pub new_circuit_breaker : Breaker
new_circuit_breaker = record { state = closed; failures = 0; last_open = 0; generation = 0 }

-- What the inner action and the clock answer: the times at which the call asks whether the
-- timeout has passed and at which it records the outcome, the response and the error.
pub record Event (R E : Type 0) : Type 0 where
  pub now : ℕ
  pub response : R
  pub error : Option E

module _ {E : Type 0} where
  unfoldable pub counts : Config E → Option E → Bool
  counts c none = false
  counts c (some e) = elim c.failure_when [ none ↦ true | some f ↦ f e ]

  -- What `runProbe` does under the lock.
  unfoldable pub probe_done : Config E → Option E → ℕ → Breaker → Breaker
  probe_done c err now b =
      if counts c err
      then record b { state = open_circuit; last_open = now; generation = u64 (b.generation + 1) }
      else record b { state = closed; failures = 0; generation = u64 (b.generation + 1) }

  abbrev trip : Config E → ℕ → Breaker → Breaker
  trip c now b =
      if leb c.failure_threshold b.failures
      then record b { state = open_circuit; last_open = now; generation = u64 (b.generation + 1) }
      else b

  record_outcome : State → Config E → Option E → ℕ → Breaker → Breaker
  record_outcome closed c none now b = record b { failures = 0 }
  record_outcome closed c (some e) now b =
      if counts c (some e) then trip c now (record b { failures = u64 (b.failures + 1) }) else b
  record_outcome _ c err now b = b

  -- What `runStandard` does under the lock.
  unfoldable pub standard_done : Config E → Option E → ℕ → Breaker → Breaker
  unfolding record_outcome
  standard_done c err now b = record_outcome b.state c err now b

pub data Admission : Type 0 where
  refuse : Admission
  restart : Admission
  probe : Breaker → Admission
  standard : Admission

abbrev pub is_open : State → Bool
is_open open_circuit = true
is_open _ = false

-- The tests of `Execute` on its snapshot; `b` is the shared state when the write lock is held.
admit_by : State → ℕ → ℕ → ℕ → ℕ → Breaker → Admission
admit_by open_circuit timeout now last_open gen b =
    if leb (now - last_open) timeout
    then refuse
    else if not (eqb b.generation gen)
    then restart
    else if is_open b.state
    then probe (record b { state = half_open; generation = u64 (b.generation + 1) })
    else refuse
admit_by half_open timeout now last_open gen b = refuse
admit_by closed timeout now last_open gen b = standard

unfoldable pub admit : {E : Type 0} → Config E → Breaker → ℕ → Breaker → Admission
unfolding admit_by
admit c snapshot now b =
    admit_by snapshot.state c.reset_timeout now snapshot.last_open snapshot.generation b

pub data Answer (R E : Type 0) : Type 0 where
  err_circuit_open : Answer R E
  answered : R → Option E → Answer R E

-- Where a call stands. A `returned` thread makes a new call at its next turn.
pub data Pc (R E : Type 0) : Type 0 where
  idle : Pc R E
  snapped : Breaker → Pc R E
  probing : Pc R E
  standing : Pc R E
  returned : Answer R E → Pc R E

module _ {R E : Type 0} where
  enter : Admission → Breaker → Breaker × Pc R E
  enter refuse b = (b, returned err_circuit_open)
  enter restart b = (b, idle)
  enter (probe b') b = (b', probing)
  enter standard b = (b, standing)

  -- One turn of a thread inside `Execute`.
  unfoldable pub turn : Config E → Event R E → Pc R E → Breaker → Breaker × Pc R E
  unfolding enter
  turn c ev idle b = (b, snapped b)
  turn c ev (snapped s) b = enter (admit c s ev.now b) b
  turn c ev probing b = (probe_done c ev.error ev.now b, returned (answered ev.response ev.error))
  turn c ev standing b =
      (standard_done c ev.error ev.now b, returned (answered ev.response ev.error))
  turn c ev (returned a) b = (b, idle)

  -- The turn of thread `i`; a number that no thread has changes nothing.
  unfoldable pub turn_at :
      Config E → Event R E → ℕ → List (Pc R E) → Breaker → Breaker × List (Pc R E)
  turn_at c ev i [] b = (b, [])
  turn_at c ev zero (p ∷ ps) b = let (b', p') = turn c ev p b in (b', p' ∷ ps)
  turn_at c ev (suc i) (p ∷ ps) b = let (b', ps') = turn_at c ev i ps b in (b', p ∷ ps')

  -- An interleaving: who moves next, and what the world answers.
  unfoldable pub run_schedule :
      Config E → List (ℕ × Event R E) → List (Pc R E) → Breaker → Breaker × List (Pc R E)
  run_schedule c [] ps b = (b, ps)
  run_schedule c ((i, ev) ∷ sched) ps b =
      let (b', ps') = turn_at c ev i ps b in run_schedule c sched ps' b'
