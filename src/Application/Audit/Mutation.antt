-- ===== src/Application/Audit/Mutation.antt =====
-- crates/edge-application/src/audit.rs: `execute_audited_mutation`.
pub mod Recorded
use edge.Application.Audit.{
  AuditLedgerWriter, AuditPersistentOperationInput, AuditSession, BeginAuditOperationFailure,
  BeginAuditOperationOutput, CompleteAuditOperationFailure, CompleteAuditOperationOutput, Outcome,
  raised, returned,
}
use edge.Application.Audit.Calls.{begin_audit_operation, complete_audit_operation}
use edge.Domain.Audit.{AuditId, AuditLedgerHead, Validated, invalid, parse_id, valid}
use edge.Domain.Audit.Names.{error_name}
use edge.Domain.Audit.States.{
  AuditEffectState, AuditOperationState, audit_degraded_rejected, begin_effect, committed, degraded,
  rejected, transition,
}
use edge.Domain.Errors.{AppError, ErrorCode, Result, err, new_error, ok}
use edge.Domain.Errors.Names.{as_str}
use edge.Prelude.{Option, none, some}

pub record AuditMutationEffect (T : Type 0) : Type 0 where
  pub value : T
  pub after_revision : Option AuditId

pub record AuditedMutationOutput (T : Type 0) : Type 0 where
  pub value : T
  pub audit : CompleteAuditOperationOutput

pub record AuditedMutationFailure (T : Type 0) : Type 0 where
  pub error : AppError
  pub effect_error : Option AppError
  pub committed_value : Option T
  pub state : AuditOperationState
  pub effect_state : Option AuditEffectState
  pub durable_head : Option AuditLedgerHead

-- What an effect does to the world that it works on.
abbrev pub Effect : Type 0 → Type 0 → Type 0
Effect E T = E → Result (AuditMutationEffect T) × E

module _ {T : Type 0} where
  after_commit :
      AuditLedgerHead
      → T
      → Outcome CompleteAuditOperationOutput CompleteAuditOperationFailure
      → Outcome (AuditedMutationOutput T) (AuditedMutationFailure T)
  after_commit head value (returned completion) =
      returned (record { value = value; audit = completion })
  after_commit head value (raised failure) = raised (record {
    error = failure.error;
    effect_error = none;
    committed_value = some value;
    state = failure.state;
    effect_state = some failure.effect_state;
    durable_head = some head;
  })

  after_rejection :
      AuditLedgerHead
      → AppError
      → Outcome CompleteAuditOperationOutput CompleteAuditOperationFailure
      → Outcome (AuditedMutationOutput T) (AuditedMutationFailure T)
  after_rejection head effect_error (returned completion) = raised (record {
    error = effect_error;
    effect_error = some effect_error;
    committed_value = none;
    state = completion.state;
    effect_state = some rejected;
    durable_head = some completion.head;
  })
  after_rejection head effect_error (raised failure) = raised (record {
    error = failure.error;
    effect_error = some effect_error;
    committed_value = none;
    state = failure.state;
    effect_state = some failure.effect_state;
    durable_head = some head;
  })

module _ {L E T : Type 0} (writer : AuditLedgerWriter L) where
  reject_with :
      AuditPersistentOperationInput
      → AuditLedgerHead
      → AppError
      → Validated AuditId
      → AuditSession L E
      → Outcome (AuditedMutationOutput T) (AuditedMutationFailure T) × AuditSession L E
  unfolding after_rejection
  reject_with operation head effect_error (invalid e) s = (
    raised (record {
      error = new_error ErrorCode.internal_bug "application error code is not audit-safe";
      effect_error = some effect_error;
      committed_value = none;
      state = audit_degraded_rejected;
      effect_state = some rejected;
      durable_head = some head;
    }),
    record s { admission = degraded },
  )
  reject_with operation head effect_error (valid stable_error) s =
      let (completion, t) =
        complete_audit_operation writer
          (record {
            operation = operation;
            expected_head = head;
            effect_state = rejected;
            after_revision = none;
            error_code = some stable_error;
          })
          s in
      (after_rejection head effect_error completion, t)

  after_effect :
      AuditPersistentOperationInput
      → AuditLedgerHead
      → Result (AuditMutationEffect T)
      → AuditSession L E
      → Outcome (AuditedMutationOutput T) (AuditedMutationFailure T) × AuditSession L E
  unfolding after_commit reject_with
  after_effect operation head (ok effect) s =
      let (completion, t) =
        complete_audit_operation writer
          (record {
            operation = operation;
            expected_head = head;
            effect_state = committed;
            after_revision = effect.after_revision;
            error_code = none;
          })
          s in
      (after_commit head effect.value completion, t)
  after_effect operation head (err effect_error) s =
      reject_with operation head effect_error (parse_id (as_str effect_error.code)) s

  run_effect :
      AuditPersistentOperationInput
      → Effect E T
      → BeginAuditOperationOutput
      → Validated AuditOperationState
      → AuditSession L E
      → Outcome (AuditedMutationOutput T) (AuditedMutationFailure T) × AuditSession L E
  unfolding after_effect
  run_effect operation effect begun (invalid e) s = (
    raised (record {
      error = new_error ErrorCode.audit_record_invalid (error_name e);
      effect_error = none;
      committed_value = none;
      state = begun.state;
      effect_state = none;
      durable_head = some begun.head;
    }),
    s,
  )
  run_effect operation effect begun (valid state) s =
      let (answer, world) = effect s.world in
      after_effect operation begun.head answer (record s { world = world })

  after_begin :
      AuditPersistentOperationInput
      → Effect E T
      → Outcome BeginAuditOperationOutput BeginAuditOperationFailure
      → AuditSession L E
      → Outcome (AuditedMutationOutput T) (AuditedMutationFailure T) × AuditSession L E
  unfolding run_effect transition
  after_begin operation effect (raised failure) s = (
    raised (record {
      error = failure.error;
      effect_error = none;
      committed_value = none;
      state = failure.state;
      effect_state = none;
      durable_head = none;
    }),
    s,
  )
  after_begin operation effect (returned begun) s =
      run_effect operation effect begun (transition begun.state begin_effect) s

  unfoldable pub execute_audited_mutation :
      AuditPersistentOperationInput
      → Effect E T
      → AuditSession L E
      → Outcome (AuditedMutationOutput T) (AuditedMutationFailure T) × AuditSession L E
  unfolding begin_audit_operation complete_audit_operation after_begin
  execute_audited_mutation operation effect s =
      let (begun, t) = begin_audit_operation writer operation s in
      after_begin operation effect begun t
