-- ===== src/Application/Audit/Startup.antt =====
-- crates/edge-application/src/audit.rs: `initialize_audit_ledger`, which verifies the ledger and reconciles
-- the operations that a crash left open.
pub mod Started
use edge.Application.Audit.{AuditLedgerWriter, AuditSession}
use edge.Application.Audit.Reconciliation.{
  AuditLedgerReader, AuditVerificationReport, Inspector, ReconcileAuditOutput, is_unknown,
  reconcile_incomplete_audit,
}
use edge.Domain.Audit.{
  AuditLedgerHead, AuditRecord, AuditValidationError, Validated, invalid, valid,
}
use edge.Domain.Audit.Names.{error_name}
use edge.Domain.Audit.States.{
  AuditAdmissionState, admission_transition, begin_verification, failed_closed,
  incomplete_operations_found, reconciliation_completed, starting, verification_failed,
  verification_passed,
}
use edge.Domain.Errors.{AppError, ErrorCode, Result, err, new_error, ok, ◌>>=◌}
use edge.Prelude.{ℕ, List, [], ◌∷◌, ◌+◌, if◌then◌else◌, length, ltb}

pub record InitializeAuditLedgerOutput : Type 0 where
  pub head : AuditLedgerHead
  pub verified_record_count : ℕ
  pub incomplete_count : ℕ
  pub reconciled_count : ℕ
  pub admission_state : AuditAdmissionState

abbrev startup_error : AppError
startup_error =
    new_error ErrorCode.audit_reconciliation_unknown
      "audit reconciliation requires operator investigation"

abbrev startup_bound : AppError
startup_bound =
    new_error ErrorCode.audit_capacity_reached
      "reconciled audit operation count exceeds startup bound"

abbrev unresolved_error : AppError
unresolved_error =
    new_error ErrorCode.audit_reconciliation_unknown
      "audit ledger contains unresolved reconciliation records"

abbrev incomplete_bound : AppError
incomplete_bound =
    new_error ErrorCode.audit_capacity_reached
      "incomplete audit operation count exceeds startup bound"

abbrev audit_admission_transition_error : AuditValidationError → AppError
audit_admission_transition_error e = new_error ErrorCode.audit_record_invalid (error_name e)

-- `.unwrap_or(AuditAdmissionState::FailedClosed)`
abbrev or_closed : Validated AuditAdmissionState → AuditAdmissionState
or_closed (valid state) = state
or_closed (invalid e) = failed_closed

module _ {L I : Type 0} where
  abbrev replace_state : AuditAdmissionState → AuditSession L I → AuditSession L I
  replace_state state s = record s { admission = state }

  -- The end of one turn of the loop, and the turns that are left.
  reconciled_one :
      AuditAdmissionState
      → ℕ
      → Result ReconcileAuditOutput
      → (AuditSession L I → Result ℕ × AuditSession L I)
      → AuditSession L I
      → Result ℕ × AuditSession L I
  reconciled_one during count (err e) rest s = (err e, record s { admission = failed_closed })
  reconciled_one during count (ok output) rest s =
      if ltb 65535 (count + 1)
      then (err startup_bound, s)
      else if is_unknown output.fact
      then (err startup_error, record s { admission = failed_closed })
      else rest (record s { admission = during })

module _ {L I : Type 0} (reader : AuditLedgerReader L) where
  -- The end: the admission is open again, and the head is read once more.
  reopened :
      AuditVerificationReport
      → ℕ
      → ℕ
      → Validated AuditAdmissionState
      → AuditSession L I
      → Result InitializeAuditLedgerOutput × AuditSession L I
  reopened report incomplete_count reconciled_count (invalid e) s =
      (err (audit_admission_transition_error e), s)
  reopened report incomplete_count reconciled_count (valid state) s =
      let answer = reader.head s.ledger >>= λ (head : AuditLedgerHead). ok (record {
        head = head;
        verified_record_count = report.record_count;
        incomplete_count = incomplete_count;
        reconciled_count = reconciled_count;
        admission_state = state;
      }) in
      (answer, replace_state state s)

  all_reconciled :
      AuditVerificationReport
      → ℕ
      → AuditAdmissionState
      → Result ℕ × AuditSession L I
      → Result InitializeAuditLedgerOutput × AuditSession L I
  unfolding reopened
  all_reconciled report incomplete_count during (err e, s) = (err e, s)
  all_reconciled report incomplete_count during (ok count, s) =
      reopened report incomplete_count count (admission_transition during reconciliation_completed)
        s

-- Nothing was open.
passed :
    {L I : Type 0}
    → AuditVerificationReport
    → Validated AuditAdmissionState
    → AuditSession L I
    → Result InitializeAuditLedgerOutput × AuditSession L I
passed report (invalid e) s = (err (audit_admission_transition_error e), s)
passed report (valid state) s = (
  ok (record {
    head = report.head;
    verified_record_count = report.record_count;
    incomplete_count = 0;
    reconciled_count = 0;
    admission_state = state;
  }),
  replace_state state s,
)

module _ {L I : Type 0} (writer : AuditLedgerWriter L) (inspect : Inspector I)
    (reader : AuditLedgerReader L) where
  with_head :
      AuditAdmissionState
      → AuditRecord
      → ℕ
      → Result AuditLedgerHead
      → (AuditSession L I → Result ℕ × AuditSession L I)
      → AuditSession L I
      → Result ℕ × AuditSession L I
  unfolding reconciled_one
  with_head during incomplete count (err e) rest s = (err e, s)
  with_head during incomplete count (ok head) rest s =
      let (output, t) = reconcile_incomplete_audit writer inspect incomplete head s in
      reconciled_one during count output rest t

  reconcile_each :
      AuditAdmissionState → List AuditRecord → ℕ → AuditSession L I → Result ℕ × AuditSession L I
  unfolding with_head reconciled_one
  reconcile_each during [] count s = (ok count, s)
  reconcile_each during (incomplete ∷ others) count s =
      with_head during incomplete count (reader.head s.ledger)
        (reconcile_each during others (count + 1)) s

  reconcile_all :
      AuditVerificationReport
      → List AuditRecord
      → Validated AuditAdmissionState
      → AuditSession L I
      → Result InitializeAuditLedgerOutput × AuditSession L I
  unfolding all_reconciled
  reconcile_all report incomplete (invalid e) s = (err (audit_admission_transition_error e), s)
  reconcile_all report incomplete (valid during) s =
      all_reconciled reader report (length incomplete) during
        (reconcile_each during incomplete 0 (replace_state during s))

  with_incomplete :
      AuditAdmissionState
      → AuditVerificationReport
      → Result (List AuditRecord)
      → AuditSession L I
      → Result InitializeAuditLedgerOutput × AuditSession L I
  unfolding passed reconcile_all
  with_incomplete during report (err e) s =
      (err e, replace_state (or_closed (admission_transition during verification_failed)) s)
  with_incomplete during report (ok []) s =
      passed report (admission_transition during verification_passed) s
  with_incomplete during report (ok (first ∷ others)) s =
      let incomplete = first ∷ others in
      if ltb 65535 (length incomplete)
      then (err incomplete_bound, s)
      else reconcile_all report incomplete (admission_transition during incomplete_operations_found)
          s

  with_unresolved :
      AuditAdmissionState
      → AuditVerificationReport
      → Result (List AuditRecord)
      → AuditSession L I
      → Result InitializeAuditLedgerOutput × AuditSession L I
  unfolding with_incomplete
  with_unresolved during report (err e) s = (err e, replace_state failed_closed s)
  with_unresolved during report (ok (_ ∷ _)) s =
      (err unresolved_error, replace_state failed_closed s)
  with_unresolved during report (ok []) s =
      with_incomplete during report (reader.incomplete_operations s.ledger) s

  verified :
      AuditAdmissionState
      → Result AuditVerificationReport
      → AuditSession L I
      → Result InitializeAuditLedgerOutput × AuditSession L I
  unfolding with_unresolved
  verified during (err e) s =
      (err e, replace_state (or_closed (admission_transition during verification_failed)) s)
  verified during (ok report) s =
      with_unresolved during report (reader.unresolved_reconciliations s.ledger) s

  verify_from :
      Validated AuditAdmissionState
      → AuditSession L I
      → Result InitializeAuditLedgerOutput × AuditSession L I
  unfolding verified
  verify_from (invalid e) s = (err (audit_admission_transition_error e), s)
  verify_from (valid during) s =
      let (report, ledger) = reader.verify s.ledger in
      verified during report (record s { ledger = ledger; admission = during })

  unfoldable pub initialize_audit_ledger :
      AuditSession L I → Result InitializeAuditLedgerOutput × AuditSession L I
  unfolding admission_transition verify_from reconcile_each
  initialize_audit_ledger s = verify_from (admission_transition starting begin_verification) s
