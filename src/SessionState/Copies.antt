-- ===== src/SessionState/Copies.antt =====
-- What a copy of a session's state keeps.
use manglekit.Common.{◌≡◌, refl, List, [], ◌∷◌}
use manglekit.SessionState.{
  SessionState, RuleSnapshot, AuditRecord, copy_list, copy_rules, copy_records, clone,
}

copy_list_lem : {A : Type 0} (xs : List A) → copy_list xs ≡ xs
copy_list_lem [] = refl
copy_list_lem (x ∷ xs) = rw (copy_list_lem xs) refl

copy_rules_lem : (rs : List RuleSnapshot) → copy_rules rs ≡ rs
copy_rules_lem [] = refl
copy_rules_lem (r ∷ rs) = rw (copy_rules_lem rs, copy_list_lem r.bindings) refl

copy_records_lem : (rs : List AuditRecord) → copy_records rs ≡ rs
copy_records_lem [] = refl
copy_records_lem (r ∷ rs) = rw (copy_records_lem rs, copy_rules_lem r.rules) refl

-- `Clone` gives the state back but for two fields of its envelope, the context facts and the
-- violations, which the clone lacks.
pub clone_lem :
    (s : SessionState)
    → clone s ≡ record s {
      active_envelope = record (s.active_envelope) { context_facts = []; violations = [] };
    }
unfolding clone
clone_lem s =
    rw
      (
        copy_list_lem s.active_envelope.metadata,
        copy_list_lem s.active_envelope.security_labels,
        copy_list_lem s.active_envelope.facts,
        copy_list_lem s.execution_ctx.feedback_history,
        copy_list_lem s.execution_ctx.current_history,
        copy_list_lem s.logical_facts,
        copy_records_lem s.audit_records,
      )
      refl
