-- ===== src/Breaker/Tests.antt =====
-- The breaker on concrete calls.
use manglekit.Common.{not, eqb, ℕ, ◌≤◌, ◌≡◌, refl, inl, none, some, List, [], ◌∷◌, arith}
use manglekit.Breaker.{
  closed, open_circuit, Config, Breaker, Event, Pc, idle, counts, admit, turn, turn_at,
  run_schedule,
}
use manglekit.Breaker.Exclusion.{probes, probes_due, one_probe}
use manglekit.Breaker.Bounds.{InBounds, run_schedule-InBounds}
use manglekit.Breaker.Serial.{calls, trips_at_threshold}

-- Errors are numbers; 0 is the caller's fault.
abbrev config : Config ℕ
config = record {
  failure_threshold = 2;
  reset_timeout = 10;
  failure_when = some (λ e. not (eqb e 0));
}

abbrev failure : ℕ → Event ℕ ℕ
failure t = record { now = t; response = 0; error = some 5 }

abbrev success : ℕ → Event ℕ ℕ
success t = record { now = t; response = 1; error = none }

abbrev fresh : Breaker
fresh = record { state = closed; failures = 0; last_open = 0; generation = 0 }

abbrev tripped : Breaker
tripped = record { state = open_circuit; failures = 2; last_open = 5; generation = 1 }

-- Two threads meet an open circuit whose timeout has passed: one of them probes.
abbrev race : List (ℕ × Event ℕ ℕ)
race = (0, success 20) ∷ (1, success 20) ∷ (0, success 20) ∷ (1, success 20) ∷ []

abbrev two_idle : List (Pc ℕ ℕ)
two_idle = idle ∷ idle ∷ []

one_probe_example :
    let (b', ps') = run_schedule config race two_idle tripped in
    (probes ps' ≡ probes_due b'.state) × (probes ps' ≤ 1)
one_probe_example = one_probe config race two_idle tripped refl

race-probes : probes (run_schedule config race two_idle tripped).1 ≡ 1
unfolding run_schedule turn_at turn admit
race-probes = refl

run_schedule-InBounds_example : InBounds config (run_schedule config race two_idle fresh).0
run_schedule-InBounds_example =
    run_schedule-InBounds config (omega arith) race two_idle fresh
      (record { below = λ _. inl refl; capped = inl (omega arith) })

trips_at_threshold_example :
    ((calls config (failure 1 ∷ []) fresh).state ≡ closed)
    × ((calls config (failure 1 ∷ []) fresh).failures ≡ 1)
    × ((calls config (failure 1 ∷ failure 2 ∷ []) fresh).state ≡ open_circuit)
unfolding counts
trips_at_threshold_example =
    trips_at_threshold config (failure 1 ∷ []) [] (failure 2) fresh (omega arith) refl refl
      (refl, tt) tt refl refl
