-- ===== src/Domain/Audit.antt =====
-- crates/edge-domain/src/audit.rs: the records of the audit ledger and the queries on them. The names that
-- `as_str` gives are in Audit/Names, the state machines in Audit/States.
pub mod Names
pub mod States
pub mod Codes
use edge.Prelude.{
  Bool, false, true, ℕ, Option, none, some, ◌==◌, ◌&&◌, ◌||◌, all, if◌then◌else◌, is_empty, is_none,
  is_some, ltb, leb, not, String,
}
use edge.Text.{Text, byte_len, is_digit, within}

pub data AuditValidationError : Type 0 where
  identifier_empty identifier_too_long identifier_invalid_character : AuditValidationError
  query_limit_invalid query_time_range_invalid record_invariant_invalid : AuditValidationError
  invalid_transition : AuditValidationError

-- `Result<A, AuditValidationError>`
pub data Validated {ℓ} (A : Type ℓ) : Type ℓ where
  valid : A → Validated A
  invalid : AuditValidationError → Validated A

abbrev pub audit_identifier_max_bytes : ℕ
audit_identifier_max_bytes = 128

abbrev is_identifier_byte : ℕ → Bool
is_identifier_byte b =
    (within b'0' b'9' b || within b'A' b'Z' b || within b'a' b'z' b)
    || (b == b'-' || b == b'_' || b == b'.' || b == b':')

-- Over code points: one that is not ASCII has no byte that passes.
unfoldable pub validate_audit_identifier : Text → Validated (Unit {0})
validate_audit_identifier value =
    if is_empty value
    then invalid identifier_empty
    else if ltb audit_identifier_max_bytes (byte_len value)
    then invalid identifier_too_long
    else if not (all is_identifier_byte value)
    then invalid identifier_invalid_character
    else valid tt

-- `AuditOperationId`, `AuditRequestId`, `AuditTargetId` and `AuditStableErrorCode` are one type of text.
abbrev pub AuditId : Type 0
AuditId = Text

abbrev parsed_as : Text → Validated (Unit {0}) → Validated AuditId
parsed_as value (invalid e) = invalid e
parsed_as value (valid _) = valid value

unfoldable pub parse_id : Text → Validated AuditId
unfolding validate_audit_identifier
parse_id value = parsed_as value (validate_audit_identifier value)

pub data AuditAction : Type 0 where
  config_apply config_rollback proxy_host_create proxy_host_update : AuditAction
  proxy_host_delete certificate_issue certificate_renew certificate_import : AuditAction
  certificate_install trust_bundle_import trust_bundle_delete admin_setup : AuditAction
  admin_login_success admin_logout admin_lockout admin_auth_failure_sampled : AuditAction
  maintenance_restore_imported system_trailing_recovery retention_checkpoint : AuditAction

pub data AuditOutcome : Type 0 where
  succeeded failed observed reconciled_committed reconciled_not_committed : AuditOutcome
  reconciliation_unknown : AuditOutcome

pub data AuditRecordKind : Type 0 where
  intent terminal reconciliation security_observation checkpoint recovery : AuditRecordKind

pub data AuditTargetKind : Type 0 where
  config_revision proxy_host certificate trust_bundle admin_account : AuditTargetKind
  restore_target audit_ledger : AuditTargetKind

pub data AuditActorKind : Type 0 where
  bootstrap_setup bootstrap_admin maintenance_cli system_recovery : AuditActorKind

pub record AuditContext : Type 0 where
  pub operation_id : AuditId
  pub request_id : AuditId
  pub actor_kind : AuditActorKind
  pub received_at_epoch_seconds : ℕ

pub record AuditRecord : Type 0 where
  pub record_version : ℕ
  pub record_kind : AuditRecordKind
  pub context : AuditContext
  pub action : AuditAction
  pub target_kind : AuditTargetKind
  pub target_id : AuditId
  pub before_revision : Option AuditId
  pub after_revision : Option AuditId
  pub outcome : Option AuditOutcome
  pub error_code : Option AuditId

-- `(self.outcome, self.error_code.is_some())` of a terminal record
abbrev is_terminal_outcome : Option AuditOutcome → Bool → Bool
is_terminal_outcome (some succeeded) false = true
is_terminal_outcome (some failed) true = true
is_terminal_outcome _ _ = false

abbrev is_reconciled : Option AuditOutcome → Bool
is_reconciled (some reconciled_committed) = true
is_reconciled (some reconciled_not_committed) = true
is_reconciled (some reconciliation_unknown) = true
is_reconciled _ = false

abbrev is_observed : Option AuditOutcome → Bool
is_observed (some observed) = true
is_observed _ = false

abbrev is_succeeded : Option AuditOutcome → Bool
is_succeeded (some succeeded) = true
is_succeeded _ = false

abbrev pub is_security_observation : AuditAction → Bool
is_security_observation admin_login_success = true
is_security_observation admin_logout = true
is_security_observation admin_lockout = true
is_security_observation admin_auth_failure_sampled = true
is_security_observation _ = false

abbrev is_checkpoint_action : AuditAction → Bool
is_checkpoint_action retention_checkpoint = true
is_checkpoint_action _ = false

abbrev is_recovery_action : AuditAction → Bool
is_recovery_action system_trailing_recovery = true
is_recovery_action _ = false

abbrev is_admin_account : AuditTargetKind → Bool
is_admin_account admin_account = true
is_admin_account _ = false

abbrev is_audit_ledger : AuditTargetKind → Bool
is_audit_ledger audit_ledger = true
is_audit_ledger _ = false

abbrev pub is_system_recovery : AuditActorKind → Bool
is_system_recovery system_recovery = true
is_system_recovery _ = false

unfoldable pub is_kind_valid : AuditRecordKind → AuditRecord → Bool
is_kind_valid intent r = is_none r.outcome && is_none r.error_code && is_none r.after_revision
is_kind_valid terminal r = is_terminal_outcome r.outcome (is_some r.error_code)
is_kind_valid reconciliation r = is_reconciled r.outcome
is_kind_valid security_observation r =
    is_observed r.outcome
    && is_admin_account r.target_kind
    && is_none r.before_revision
    && is_none r.after_revision
    && is_none r.error_code
    && is_security_observation r.action
is_kind_valid checkpoint r =
    is_checkpoint_action r.action && is_audit_ledger r.target_kind && is_succeeded r.outcome
is_kind_valid recovery r =
    is_recovery_action r.action
    && is_audit_ledger r.target_kind
    && is_system_recovery r.context.actor_kind
    && is_succeeded r.outcome
    && is_none r.error_code

unfoldable pub validate : AuditRecord → Validated (Unit {0})
unfolding is_kind_valid
validate r =
    if not (r.record_version == 1) || not (is_kind_valid r.record_kind r)
    then invalid record_invariant_invalid
    else valid tt

pub record AuditLedgerHead : Type 0 where
  pub generation : ℕ
  pub sequence : ℕ

pub record AuditCursor : Type 0 where
  pub ledger_generation : ℕ
  pub before_sequence : ℕ

pub record AuditRecordView : Type 0 where
  pub sequence : ℕ
  pub entry : AuditRecord

pub record AuditQuery : Type 0 where
  pub action : Option AuditAction
  pub outcome : Option AuditOutcome
  pub target_kind : Option AuditTargetKind
  pub from_epoch_seconds : Option ℕ
  pub to_epoch_seconds : Option ℕ
  pub limit : ℕ
  pub cursor : Option AuditCursor

abbrev is_reversed_range : Option ℕ → Option ℕ → Bool
is_reversed_range (some from) (some to) = ltb to from
is_reversed_range _ _ = false

-- `AuditQuery::new`, on the fields that the caller chose.
unfoldable pub new_query : AuditQuery → Validated AuditQuery
new_query q =
    if q.limit == 0 || ltb 100 q.limit
    then invalid query_limit_invalid
    else if is_reversed_range q.from_epoch_seconds q.to_epoch_seconds
    then invalid query_time_range_invalid
    else valid (record q { cursor = none })

abbrev pub with_cursor : AuditCursor → AuditQuery → AuditQuery
with_cursor cursor q = record q { cursor = some cursor }
