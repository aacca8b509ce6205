-- ===== src/Supervisor/Action.antt =====
-- `ExecuteInternal` of internal/supervisor/action.go, the action's side of the adapter, and
-- `Execute` of the supervised action of internal/supervisor/sdk_adapter.go, which is made of both.
use manglekit.Common.{
  String, Bool, true, ◌==◌, Option, none, some, List, [], ◌∷◌, ◌++◌, insert, if◌then◌else◌,
}
use manglekit.Workflow.{Value, str}
use manglekit.SessionState.{Envelope, Quad, AuditTrail}
use manglekit.Supervisor.{blocks}
use manglekit.Supervisor.Gate.{
  extraction_failed, supervisor_error, Result, ok, err, PreCheck, Env, atom_to_datalog,
  quads_to_atoms, bare_envelope, policy_violation_of, flatten_to_quads, verify_atoms,
}

abbrev pub quad_facts : List Quad → List String
quad_facts [] = []
quad_facts (q ∷ rest) =
    let more = quad_facts rest in
    let fact = atom_to_datalog q.predicate q.subject q.object in
    if fact == "" then more else fact ∷ more

-- The envelope that the action itself gets.
abbrev pub inner_envelope : Value → List Quad → Envelope
inner_envelope payload quads = record (bare_envelope payload []) { facts = quad_facts quads }

abbrev pub with_facts : List Quad → Envelope → Envelope
with_facts quads e = record e { context_facts = e.context_facts ++ quads }

abbrev pub for_output : PreCheck → PreCheck
for_output p = record p { entity_id = "Output" }

abbrev pub request_check : String → Envelope → PreCheck
request_check name input = record {
  action_name = name;
  metadata = input.metadata;
  labels = input.security_labels;
  facts = input.facts;
  entity_id = "Req";
}

module _ (env : Env) where
  open env use {World, inner, extract, trail_value}

  abbrev pub with_trail : Option AuditTrail → Envelope → Envelope
  with_trail trail e = record e {
    metadata = elim trail [
      | none ↦ e.metadata
      | some t ↦ insert "manglekit.audit_trail" (trail_value t) e.metadata
    ];
  }

  -- The check of the output.
  unfoldable pub post_check : Option PreCheck → Envelope → World → Result Envelope × World
  post_check none result w =
      (ok (with_facts (flatten_to_quads env "Output" result.payload) result), w)
  post_check (some p) result w =
      let quads = flatten_to_quads env "Output" result.payload in
      let (r, w1) = verify_atoms env (some (for_output p)) (quads_to_atoms quads) w in
      elim r [
        | err e ↦ (err (supervisor_error e), w1)
        | ok res ↦
            if blocks res
            then (
              err (policy_violation_of (some p) res "Supervisor post-check (Reflect) failed."),
              w1,
            )
            else (ok (with_facts quads result), w1)
      ]

  unfoldable pub execute_internal : Option PreCheck → Value → World → Result Envelope × World
  execute_internal pc input w =
      let quads = flatten_to_quads env "Req" input in
      let (r, w1) = verify_atoms env pc (quads_to_atoms quads) w in
      let (out, w2) = inner (inner_envelope input quads) w1 in
      elim r [
        | err e ↦ (err (supervisor_error e), w1)
        | ok res ↦
            if blocks res
            then (err (policy_violation_of pc res "Supervisor Pre-Flight check failed."), w1)
            else elim out [
              | err e ↦ (err e, w2)
              | ok result ↦ post_check pc (with_trail res.trail result) w2
            ]
      ]

  -- The payload that is supervised: an extractor turns free text into data.
  abbrev pub supervised_payload : Bool → Value → World → Result Value × World
  supervised_payload true (str text_) w = extract text_ w
  supervised_payload _ v w = (ok v, w)

  -- `Execute` of an action of that name, with an extractor or without.
  unfoldable pub execute : String → Bool → Envelope → World → Result Envelope × World
  execute name has_extractor input w =
      let (r, w1) = supervised_payload has_extractor input.payload w in
      elim r [
        | err e ↦ (err (extraction_failed e), w1)
        | ok payload ↦ execute_internal (some (request_check name input)) payload w1
      ]
