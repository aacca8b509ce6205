-- ===== src/Policy/Steering.antt =====
-- `EvaluateSteering`: what to do next.
use Prim.Native.String.{◌++◌ as join}
use manglekit.Common.{String, not, Option, none, some, List, [], ◌∷◌, if◌then◌else◌}
use manglekit.Explain.{Atom}
use manglekit.Policy.{Engine}
use manglekit.Policy.Facts.{to_mangle_facts, append_envelope_facts}
use manglekit.Policy.Gate.{Match, best_of, matches_with_tier, matches_without_tier, State}
use manglekit.SessionState.{Envelope}

pub data Steer : Type 0 where
  proceed : Steer
  -- the hint that the feedback gives
  retry : String → Steer
  -- the next action
  route : String → Steer
  failed : Steer

-- A retry goes before a route, and of each kind the first of the best tier is taken.
unfoldable pub decide : List Match → List Match → Steer
decide (m ∷ ms) routes = retry (best_of m ms).reason
decide [] (m ∷ ms) = route (best_of m ms).reason
decide [] [] = proceed

module _ (E : Engine) where
  open E use {World, Constant}

  -- The matches of a predicate with three arguments, or if there are none with one argument; none
  -- after an error.
  unfoldable pub find_matches :
      String → String → List (Atom Constant) → World → Option (List Match) × World
  find_matches pred name facts w =
      let query3 = join pred (join "(\"Req\", " (join name ", Tier)")) in
      let query1 = join pred (join "(" (join name ")")) in
      let ((sols, broken), w1) = E.query_with_solutions facts query3 w in
      let ((sols', broken'), w2) = E.query_with_solutions facts query1 w1 in
      if broken then (none, w1) else elim (matches_with_tier name sols) [
        | m ∷ ms ↦ (some (m ∷ ms), w1)
        | [] ↦ if broken' then (none, w2) else (some (matches_without_tier name sols'), w2)
      ]

  unfoldable pub steer_by : List (Atom Constant) → World → Steer × World
  steer_by facts w =
      let (retries, w1) = find_matches "retry" "Hint" facts w in
      let (routes, w2) = find_matches "route" "Target" facts w1 in
      elim retries [
        | none ↦ (failed, w1)
        | some rs ↦ elim routes [ none ↦ (failed, w2) | some ts ↦ (decide rs ts, w2) ]
      ]

  unfoldable pub evaluate_steering : Envelope → State E → Steer × State E
  evaluate_steering env (cache, w) =
      if not (E.is_ready w)
      then (proceed, (cache, w))
      else elim (to_mangle_facts E "Req" env.payload env.content_type) [
        | none ↦ (failed, (cache, w))
        | some facts ↦
            let (fine, all, cache') = append_envelope_facts E facts env cache in
            let (s, w') = steer_by all w in
            if fine then (s, (cache', w')) else (failed, (cache', w))
      ]
