-- ===== src/Supervisor/Enforced.antt =====
-- What the gate enforces.
use manglekit.Common.{
  ◌<◌, ◌≡◌, refl, inl, inr, ◌⊎◌, String, Bool, true, false, Bool-cases, some, List, arith, length,
  ap, ltb,
}
use manglekit.Workflow.{Value}
use manglekit.SessionState.{Envelope}
use manglekit.FactStore.{Atom}
use manglekit.Supervisor.{AuditResult, blocks}
use manglekit.Supervisor.Gate.{
  GateError, supervisor_error, Result, ok, err, PreCheck, Env, quads_to_atoms, policy_violation_of,
  flatten_to_quads, verify_atoms, over_limit,
}
use manglekit.Supervisor.Action.{
  inner_envelope, with_trail, for_output, post_check, execute_internal, supervised_payload,
  request_check, execute,
}

Result-cases :
    {A : Type 0} (r : Result A) → ((a : A) × (r ≡ ok a)) ⊎ ((e : GateError) × (r ≡ err e))
Result-cases (ok a) = inl (a, refl)
Result-cases (err e) = inr (e, refl)

ok_injective : {A : Type 0} {a b : A} → ok a ≡ ok b → b ≡ a
ok_injective h = cc

abbrev payload_of : Envelope → Value
payload_of e = e.payload

module _ (env : Env) where
  open env use {World, inner}

  -- The check of a payload, and of an output.
  abbrev pub checked : PreCheck → String → Value → World → Result AuditResult × World
  checked p subject v w =
      verify_atoms env (some p) (quads_to_atoms (flatten_to_quads env subject v)) w

  -- The input was checked and not blocked, the action answered, and its answer was checked and not
  -- blocked.
  abbrev pub IsChecked : PreCheck → Value → World → Envelope → Type 0
  IsChecked p input w r =
      let (before, w1) = checked p "Req" input w in
      let (out, w2) = inner (inner_envelope input (flatten_to_quads env "Req" input)) w1 in
      (res : AuditResult) × (result : Envelope) × (post : AuditResult) × (before ≡ ok res)
      × (blocks res ≡ false)
      × (out ≡ ok result)
      × ((checked (for_output p) "Output" result.payload w2).0 ≡ ok post)
      × (blocks post ≡ false)
      × (r.payload ≡ result.payload)

  verify_atoms-over_limit :
      (p : PreCheck) (atoms : List Atom) (w : World)
      → 1000 < length atoms
      → verify_atoms env (some p) atoms w ≡ (ok (over_limit env (length atoms)), w)
  unfolding verify_atoms
  verify_atoms-over_limit p atoms w many =
      let over : ltb 1000 (length atoms) ≡ true = ground arith in rw (over, verify_atoms) refl

  post_check-passed :
      (p : PreCheck) (result : Envelope) (w : World) (r : Envelope)
      → (post_check env (some p) result w).0 ≡ ok r
      → (post : AuditResult) × ((checked (for_output p) "Output" result.payload w).0 ≡ ok post)
        × (blocks post ≡ false)
        × (r.payload ≡ result.payload)
  unfolding post_check
  post_check-passed p result w r h =
      elim (Result-cases (checked (for_output p) "Output" result.payload w).0) [
        | inr (e, z) ↦ absurd (cc (rw (z, post_check) at h))
        | inl (post, z) ↦ elim (Bool-cases (blocks post)) [
          | inl y ↦ absurd (cc (rw (z, y, post_check) at h))
          | inr y ↦ (post, z, y, ap payload_of (ok_injective (rw (z, y, post_check) at h)))
        ]
      ]

  execute_internal-IsChecked :
      (p : PreCheck) (input : Value) (w : World) (r : Envelope)
      → (execute_internal env (some p) input w).0 ≡ ok r
      → IsChecked p input w r
  unfolding execute_internal post_check
  execute_internal-IsChecked p input w r h =
      let (before, w1) = checked p "Req" input w in
      let (out, w2) = inner (inner_envelope input (flatten_to_quads env "Req" input)) w1 in
      elim (Result-cases before) [
        | inr (e, z) ↦ absurd (cc (rw (z, execute_internal) at h))
        | inl (res, z) ↦ elim (Bool-cases (blocks res)) [
          | inl y ↦ absurd (cc (rw (z, y, execute_internal) at h))
          | inr y ↦ elim (Result-cases out) [
            | inr (e, x) ↦ absurd (cc (rw (z, y, x, execute_internal) at h))
            | inl (result, x) ↦
                let after = checked (for_output p) "Output" result.payload w2 in
                let (post, q, free, same) =
                  post_check-passed p (with_trail env res.trail result) w2 r
                    (rw (z, y, x, execute_internal) at h) in
                (res, result, post, z, y, x, q, free, same)
          ]
        ]
      ]

  -- If a supervised action returns a result, then the payload, after the extraction if there is an
  -- extractor, was checked and the check did not block it, then the action answered, and then its
  -- answer was checked as the output and not blocked either; the result has the answer's payload.
  pub execute-IsChecked :
      (name : String) (has_extractor : Bool) (input : Envelope) (w : World) (r : Envelope)
      → (execute env name has_extractor input w).0 ≡ ok r
      → let (given, w1) = supervised_payload env has_extractor input.payload w in
        (payload : Value) × (given ≡ ok payload) × IsChecked (request_check name input) payload w1 r
  unfolding execute
  execute-IsChecked name has_extractor input w r h =
      let (given, w1) = supervised_payload env has_extractor input.payload w in
      elim (Result-cases given) [
        | inr (e, z) ↦ absurd (cc (rw (z, execute) at h))
        | inl (payload, z) ↦ (
          payload,
          z,
          execute_internal-IsChecked (request_check name input) payload w1 r (rw (z, execute) at h),
        )
      ]

  -- The gate is closed before the action: where the check of the input fails or blocks, the call ends
  -- with an error in the world that the check left, so the action is not run; and where the payload
  -- has more than a thousand facts, not even the policy engine is asked.
  pub execute_internal-refuses :
      (p : PreCheck) (input : Value) (w : World)
      → let (before, w1) = checked p "Req" input w in
        let out = execute_internal env (some p) input w in
        ((e : GateError) → before ≡ err e → out ≡ (err (supervisor_error e), w1))
        × ((res : AuditResult)
            → before ≡ ok res
            → blocks res ≡ true
            → (e : GateError) × (out ≡ (err e, w1)))
        × (1000 < length (quads_to_atoms (flatten_to_quads env "Req" input))
            → (e : GateError) × (out ≡ (err e, w)))
  unfolding execute_internal
  execute_internal-refuses p input w =
      let atoms = quads_to_atoms (flatten_to_quads env "Req" input) in
      let why : String = "Supervisor Pre-Flight check failed." in
      (
        λ e z. rw (z, execute_internal) refl,
        λ res z y. (policy_violation_of (some p) res why, rw (z, y, execute_internal) refl),
        λ many.
            let refused = verify_atoms-over_limit p atoms w many in
            (
              policy_violation_of (some p) (over_limit env (length atoms)) why,
              rw
                  (
                    ap (λ (r : Result AuditResult × World). r.0) refused,
                    execute_internal,
                    ap (λ (r : Result AuditResult × World). r.1) refused,
                  )
                  refl,
            ),
      )
