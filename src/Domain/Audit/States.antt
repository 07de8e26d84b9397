-- ===== src/Domain/Audit/States.antt =====
-- crates/edge-domain/src/audit.rs: the states of an audited operation, of the admission of mutations and
-- of a reconciliation.
use edge.Domain.Audit.{Validated, valid, invalid, invalid_transition}
use edge.Prelude.{Bool, false, true}

pub data AuditAuthoritativeFact : Type 0 where
  fact_committed fact_not_committed fact_unknown : AuditAuthoritativeFact

pub data AuditOperationClass : Type 0 where
  persistent_mutation ephemeral_security_observation read_only offline_restore : AuditOperationClass

pub data AuditEffectState : Type 0 where
  committed rejected : AuditEffectState

pub data AuditOperationState : Type 0 where
  received intent_persisting intent_persisted effect_running : AuditOperationState
  effect_committed effect_rejected : AuditOperationState
  terminal_persisting : AuditEffectState → AuditOperationState
  completed rejected_no_effect : AuditOperationState
  audit_degraded_committed audit_degraded_rejected : AuditOperationState

pub data AuditOperationEvent : Type 0 where
  begin_intent intent_was_persisted intent_append_failed begin_effect : AuditOperationEvent
  effect_was_committed effect_was_rejected begin_terminal terminal_persisted : AuditOperationEvent
  terminal_append_failed : AuditOperationEvent

unfoldable pub transition :
    AuditOperationState → AuditOperationEvent → Validated AuditOperationState
transition received begin_intent = valid intent_persisting
transition intent_persisting intent_was_persisted = valid intent_persisted
transition intent_persisting intent_append_failed = valid rejected_no_effect
transition intent_persisted begin_effect = valid effect_running
transition effect_running effect_was_committed = valid effect_committed
transition effect_running effect_was_rejected = valid effect_rejected
transition effect_committed begin_terminal = valid (terminal_persisting committed)
transition effect_rejected begin_terminal = valid (terminal_persisting rejected)
transition (terminal_persisting _) terminal_persisted = valid completed
transition (terminal_persisting committed) terminal_append_failed = valid audit_degraded_committed
transition (terminal_persisting rejected) terminal_append_failed = valid audit_degraded_rejected
transition _ _ = invalid invalid_transition

pub data AuditAdmissionState : Type 0 where
  starting verifying reconciling healthy degraded failed_closed : AuditAdmissionState

pub data AuditAdmissionEvent : Type 0 where
  begin_verification verification_passed incomplete_operations_found : AuditAdmissionEvent
  verification_failed append_failed begin_reconciliation : AuditAdmissionEvent
  reconciliation_completed reconciliation_was_unknown : AuditAdmissionEvent

unfoldable pub admission_transition :
    AuditAdmissionState → AuditAdmissionEvent → Validated AuditAdmissionState
admission_transition starting begin_verification = valid verifying
admission_transition verifying verification_passed = valid healthy
admission_transition verifying incomplete_operations_found = valid reconciling
admission_transition verifying verification_failed = valid failed_closed
admission_transition healthy append_failed = valid degraded
admission_transition degraded begin_reconciliation = valid reconciling
admission_transition reconciling reconciliation_completed = valid healthy
admission_transition reconciling reconciliation_was_unknown = valid failed_closed
admission_transition _ _ = invalid invalid_transition

abbrev pub is_healthy : AuditAdmissionState → Bool
is_healthy healthy = true
is_healthy _ = false

unfoldable pub allows : AuditAdmissionState → AuditOperationClass → Bool
allows state persistent_mutation = is_healthy state
allows state ephemeral_security_observation = true
allows state read_only = true
allows state offline_restore = false

pub data AuditReconciliationState : Type 0 where
  incomplete_intent inspecting found_committed found_not_committed : AuditReconciliationState
  found_unknown closed mutation_blocked : AuditReconciliationState

pub data AuditReconciliationEvent : Type 0 where
  begin_inspection committed_found not_committed_found facts_unknown : AuditReconciliationEvent
  reconciliation_persisted unknown_persisted : AuditReconciliationEvent

unfoldable pub reconciliation_transition :
    AuditReconciliationState → AuditReconciliationEvent → Validated AuditReconciliationState
reconciliation_transition incomplete_intent begin_inspection = valid inspecting
reconciliation_transition inspecting committed_found = valid found_committed
reconciliation_transition inspecting not_committed_found = valid found_not_committed
reconciliation_transition inspecting facts_unknown = valid found_unknown
reconciliation_transition found_committed reconciliation_persisted = valid closed
reconciliation_transition found_not_committed reconciliation_persisted = valid closed
reconciliation_transition found_unknown unknown_persisted = valid mutation_blocked
reconciliation_transition _ _ = invalid invalid_transition
