-- ===== src/Application/Audit/Reconciliation.antt =====
-- crates/edge-application/src/audit.rs: observations, and the reconciliation of an operation that has no
-- terminal record.
pub mod Closed
use edge.Application.Audit.{AuditLedgerWriter, AuditSession}
use edge.Domain.Audit
use edge.Domain.Audit.{
  AuditAction, AuditContext, AuditId, AuditLedgerHead, AuditOutcome, AuditQuery, AuditRecord,
  AuditRecordKind, AuditRecordView, AuditCursor, Validated, admin_account, invalid,
  is_security_observation, valid,
}
use edge.Domain.Audit.Names.{error_name}
use edge.Domain.Audit.States.{
  AuditAdmissionState, AuditAuthoritativeFact, admission_transition, begin_verification, degraded,
  fact_committed, fact_not_committed, fact_unknown, failed_closed, healthy,
  incomplete_operations_found, is_healthy, reconciliation_completed, starting, verification_failed,
  verification_passed,
}
use edge.Domain.Errors.{AppError, ErrorCode, Result, err, new_error, ok}
use edge.Prelude.{
  Bool, false, true, ℕ, Option, none, some, List, [], ◌∷◌, ◌+◌, if◌then◌else◌, length, ltb, not,
}

pub record AuditPage : Type 0 where
  pub records : List AuditRecordView
  pub next_cursor : Option AuditCursor
  pub head : AuditLedgerHead
  pub admission_state : AuditAdmissionState

pub record AuditVerificationReport : Type 0 where
  pub head : AuditLedgerHead
  pub record_count : ℕ
  pub segment_count : ℕ
  pub incomplete_operation_count : ℕ

-- `AuditLedgerReader` and `AuditLedgerVerifier` of crates/edge-ports/src/lib.rs
pub record AuditLedgerReader (L : Type 0) : Type 0 where
  pub query : AuditQuery → L → Result AuditPage
  pub incomplete_operations : L → Result (List AuditRecord)
  pub unresolved_reconciliations : L → Result (List AuditRecord)
  pub head : L → Result AuditLedgerHead
  pub verify : L → Result AuditVerificationReport × L

-- `AuditAuthoritativeStateInspector`
abbrev pub Inspector : Type 0 → Type 0
Inspector I = AuditId → AuditAction → AuditId → I → Result AuditAuthoritativeFact × I

pub record AuditSecurityObservationInput : Type 0 where
  pub context : AuditContext
  pub action : AuditAction
  pub target_id : AuditId
  pub outcome : AuditOutcome

pub record AuditSecurityObservationOutput : Type 0 where
  pub head : Option AuditLedgerHead
  pub admission_state : AuditAdmissionState
  pub append_error : Option AppError

pub record ReconcileAuditOutput : Type 0 where
  pub head : AuditLedgerHead
  pub fact : AuditAuthoritativeFact
  pub admission_state : AuditAdmissionState

abbrev observation_of : AuditSecurityObservationInput → AuditRecord
observation_of input = record {
  record_version = 1;
  record_kind = Audit.security_observation;
  context = input.context;
  action = input.action;
  target_kind = admin_account;
  target_id = input.target_id;
  before_revision = none;
  after_revision = none;
  outcome = some input.outcome;
  error_code = none;
}

abbrev fact_outcome : AuditAuthoritativeFact → AuditOutcome
fact_outcome fact_committed = Audit.reconciled_committed
fact_outcome fact_not_committed = Audit.reconciled_not_committed
fact_outcome fact_unknown = Audit.reconciliation_unknown

abbrev pub is_unknown : AuditAuthoritativeFact → Bool
is_unknown fact_unknown = true
is_unknown _ = false

abbrev is_intent : AuditRecordKind → Bool
is_intent Audit.intent = true
is_intent _ = false

-- The record that closes an incomplete operation.
abbrev pub reconciliation_of : AuditRecord → AuditAuthoritativeFact → AuditRecord
reconciliation_of incomplete fact = record incomplete {
  record_kind = Audit.reconciliation;
  outcome = some (fact_outcome fact);
}

module _ {L I : Type 0} where
  observed :
      Result AuditLedgerHead
      → AuditSession L I
      → Result AuditSecurityObservationOutput × AuditSession L I
  observed (ok head) s =
      (ok (record { head = some head; admission_state = healthy; append_error = none }), s)
  observed (err e) s = (
    ok (record { head = none; admission_state = degraded; append_error = some e }),
    record s { admission = degraded },
  )

  reconciled :
      AuditAuthoritativeFact
      → Result AuditLedgerHead
      → AuditSession L I
      → Result ReconcileAuditOutput × AuditSession L I
  reconciled fact (err e) s = (err e, s)
  reconciled fact (ok head) s =
      let state = if is_unknown fact then failed_closed else healthy in
      (
        ok (record { head = head; fact = fact; admission_state = state }),
        record s { admission = state },
      )

module _ {L I : Type 0} (writer : AuditLedgerWriter L) where
  unfoldable pub record_security_observation :
      AuditSecurityObservationInput
      → AuditSession L I
      → Result AuditSecurityObservationOutput × AuditSession L I
  unfolding observed
  record_security_observation input s =
      let (appended, ledger) = writer.append_security_observation (observation_of input) s.ledger in
      if not (is_security_observation input.action)
      then (
        err (new_error ErrorCode.audit_record_invalid "action is not a security observation"),
        s,
      )
      else if not (is_healthy s.admission)
      then (ok (record { head = none; admission_state = s.admission; append_error = none }), s)
      else observed appended (record s { ledger = ledger })

module _ {L I : Type 0} (writer : AuditLedgerWriter L) (inspect : Inspector I) where
  inspected :
      AuditRecord
      → AuditLedgerHead
      → Result AuditAuthoritativeFact
      → AuditSession L I
      → Result ReconcileAuditOutput × AuditSession L I
  unfolding reconciled
  inspected incomplete expected (err e) s = (err e, s)
  inspected incomplete expected (ok fact) s =
      let (appended, ledger) =
        writer.append_reconciliation (reconciliation_of incomplete fact) expected s.ledger in
      reconciled fact appended (record s { ledger = ledger })

  unfoldable pub reconcile_incomplete_audit :
      AuditRecord
      → AuditLedgerHead
      → AuditSession L I
      → Result ReconcileAuditOutput × AuditSession L I
  unfolding inspected
  reconcile_incomplete_audit incomplete expected s =
      let (fact, world) =
        inspect incomplete.context.operation_id incomplete.action incomplete.target_id s.world in
      if not (is_intent incomplete.record_kind)
      then (
        err (
            new_error ErrorCode.audit_record_invalid
              "only incomplete intent records can be reconciled"),
        s,
      )
      else inspected incomplete expected fact (record s { world = world })
