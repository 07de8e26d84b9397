-- ===== src/Domain/Audit/Names.antt =====
-- crates/edge-domain/src/audit.rs: the stable names of the enums of a record.
use edge.Domain.Audit.{
  AuditValidationError, AuditAction, AuditOutcome, AuditRecordKind, AuditTargetKind, AuditActorKind,
  identifier_empty, identifier_too_long, identifier_invalid_character, query_limit_invalid,
  query_time_range_invalid, record_invariant_invalid, invalid_transition,
}
use edge.Prelude.{String}
use edge.Text.{Text, txt}

abbrev pub error_name : AuditValidationError → String
error_name identifier_empty = "AUDIT_IDENTIFIER_EMPTY"
error_name identifier_too_long = "AUDIT_IDENTIFIER_TOO_LONG"
error_name identifier_invalid_character = "AUDIT_IDENTIFIER_INVALID_CHARACTER"
error_name query_limit_invalid = "AUDIT_QUERY_LIMIT_INVALID"
error_name query_time_range_invalid = "AUDIT_QUERY_TIME_RANGE_INVALID"
error_name record_invariant_invalid = "AUDIT_RECORD_INVARIANT_INVALID"
error_name invalid_transition = "AUDIT_STATE_TRANSITION_INVALID"

abbrev pub action_name : AuditAction → Text
action_name AuditAction.config_apply = txt "config.apply"
action_name AuditAction.config_rollback = txt "config.rollback"
action_name AuditAction.proxy_host_create = txt "proxy_host.create"
action_name AuditAction.proxy_host_update = txt "proxy_host.update"
action_name AuditAction.proxy_host_delete = txt "proxy_host.delete"
action_name AuditAction.certificate_issue = txt "certificate.issue"
action_name AuditAction.certificate_renew = txt "certificate.renew"
action_name AuditAction.certificate_import = txt "certificate.import"
action_name AuditAction.certificate_install = txt "certificate.install"
action_name AuditAction.trust_bundle_import = txt "trust_bundle.import"
action_name AuditAction.trust_bundle_delete = txt "trust_bundle.delete"
action_name AuditAction.admin_setup = txt "admin.setup"
action_name AuditAction.admin_login_success = txt "admin.login.success"
action_name AuditAction.admin_logout = txt "admin.logout"
action_name AuditAction.admin_lockout = txt "admin.lockout"
action_name AuditAction.admin_auth_failure_sampled = txt "admin.auth.failure_sampled"
action_name AuditAction.maintenance_restore_imported = txt "maintenance.restore_imported"
action_name AuditAction.system_trailing_recovery = txt "system.trailing_recovery"
action_name AuditAction.retention_checkpoint = txt "audit.retention.checkpoint"

abbrev pub outcome_name : AuditOutcome → Text
outcome_name AuditOutcome.succeeded = txt "succeeded"
outcome_name AuditOutcome.failed = txt "failed"
outcome_name AuditOutcome.observed = txt "observed"
outcome_name AuditOutcome.reconciled_committed = txt "reconciled_committed"
outcome_name AuditOutcome.reconciled_not_committed = txt "reconciled_not_committed"
outcome_name AuditOutcome.reconciliation_unknown = txt "reconciliation_unknown"

abbrev pub kind_name : AuditRecordKind → Text
kind_name AuditRecordKind.intent = txt "intent"
kind_name AuditRecordKind.terminal = txt "terminal"
kind_name AuditRecordKind.reconciliation = txt "reconciliation"
kind_name AuditRecordKind.security_observation = txt "security_observation"
kind_name AuditRecordKind.checkpoint = txt "retention_checkpoint"
kind_name AuditRecordKind.recovery = txt "system_recovery"

abbrev pub target_name : AuditTargetKind → Text
target_name AuditTargetKind.config_revision = txt "config_revision"
target_name AuditTargetKind.proxy_host = txt "proxy_host"
target_name AuditTargetKind.certificate = txt "certificate"
target_name AuditTargetKind.trust_bundle = txt "trust_bundle"
target_name AuditTargetKind.admin_account = txt "admin_account"
target_name AuditTargetKind.restore_target = txt "restore"
target_name AuditTargetKind.audit_ledger = txt "audit_ledger"

abbrev pub actor_name : AuditActorKind → Text
actor_name AuditActorKind.bootstrap_setup = txt "bootstrap_setup"
actor_name AuditActorKind.bootstrap_admin = txt "bootstrap_admin"
actor_name AuditActorKind.maintenance_cli = txt "maintenance_cli"
actor_name AuditActorKind.system_recovery = txt "system_recovery"
