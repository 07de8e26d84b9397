-- ===== src/Application/Audit.antt =====
-- crates/edge-application/src/audit.rs: a mutation that is recorded in the audit ledger before and after
-- its effect. The ledger and the effect are parameters, as they are in the code. `Calls` are the begin
-- and the completion, `Mutation` is the whole, `Startup` and `Reconciliation` are what follows a crash.
pub mod Calls
pub mod Mutation
pub mod Reconciliation
pub mod Startup
pub mod Sampler
pub mod Operations
mod Tests
use edge.Domain.Audit
use edge.Domain.Audit.{
  AuditAction, AuditContext, AuditId, AuditLedgerHead, AuditOutcome, AuditRecord, AuditRecordKind,
  AuditTargetKind, Validated, admin_account, failed, intent, invalid, is_security_observation,
  parse_id, reconciliation, security_observation, succeeded, terminal, valid,
}
use edge.Domain.Audit.Names.{error_name}
use edge.Domain.Audit.States.{
  AuditAdmissionState, AuditEffectState, AuditOperationEvent, AuditOperationState, allows,
  audit_degraded_rejected, begin_effect, begin_intent, begin_terminal, committed, degraded,
  effect_running, effect_was_committed, effect_was_rejected, healthy, intent_append_failed,
  intent_was_persisted, is_healthy, persistent_mutation, received, rejected, rejected_no_effect,
  terminal_append_failed, terminal_persisted, transition,
}
use edge.Domain.Errors.{AppError, ErrorCode, Result, err, new_error, ok}
use edge.Domain.Errors.Names.{as_str}
use edge.Prelude.{
  Bool, false, true, Option, none, some, ◌&&◌, if◌then◌else◌, is_none, is_some, not, String,
}

-- `AuditLedgerWriter` of crates/edge-ports/src/lib.rs
pub record AuditLedgerWriter (L : Type 0) : Type 0 where
  pub append_intent : AuditRecord → L → Result AuditLedgerHead × L
  pub append_terminal : AuditRecord → AuditLedgerHead → L → Result AuditLedgerHead × L
  pub append_reconciliation : AuditRecord → AuditLedgerHead → L → Result AuditLedgerHead × L
  pub append_security_observation : AuditRecord → L → Result AuditLedgerHead × L

pub record AuditPersistentOperationInput : Type 0 where
  pub context : AuditContext
  pub action : AuditAction
  pub target_kind : AuditTargetKind
  pub target_id : AuditId
  pub before_revision : Option AuditId

-- `Result<A, F>`, where the failure is a record.
pub data Outcome (A : Type 0) (F : Type 0) : Type 0 where
  returned : A → Outcome A F
  raised : F → Outcome A F

pub record BeginAuditOperationOutput : Type 0 where
  pub head : AuditLedgerHead
  pub state : AuditOperationState
  pub begun : AuditRecord

pub record BeginAuditOperationFailure : Type 0 where
  pub error : AppError
  pub state : AuditOperationState

pub record CompleteAuditOperationInput : Type 0 where
  pub operation : AuditPersistentOperationInput
  pub expected_head : AuditLedgerHead
  pub effect_state : AuditEffectState
  pub after_revision : Option AuditId
  pub error_code : Option AuditId

pub record CompleteAuditOperationOutput : Type 0 where
  pub head : AuditLedgerHead
  pub state : AuditOperationState
  pub ended : AuditRecord
  pub effect_state : AuditEffectState

pub record CompleteAuditOperationFailure : Type 0 where
  pub error : AppError
  pub state : AuditOperationState
  pub effect_state : AuditEffectState

-- What the calls write: the ledger, the admission of mutations, and what the effect works on.
pub record AuditSession (L E : Type 0) : Type 0 where
  pub ledger : L
  pub admission : AuditAdmissionState
  pub world : E

unfoldable pub record_for_operation :
    AuditPersistentOperationInput
    → AuditRecordKind
    → Option AuditOutcome
    → Option AuditId
    → Option AuditId
    → AuditRecord
record_for_operation input kind outcome after_revision error_code = record {
  record_version = 1;
  record_kind = kind;
  context = input.context;
  action = input.action;
  target_kind = input.target_kind;
  target_id = input.target_id;
  before_revision = input.before_revision;
  after_revision = after_revision;
  outcome = outcome;
  error_code = error_code;
}

abbrev pub intent_of : AuditPersistentOperationInput → AuditRecord
intent_of input = record_for_operation input intent none none none
