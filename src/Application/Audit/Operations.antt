-- ===== src/Application/Audit/Operations.antt =====
-- crates/edge-application/src/audit.rs: the inputs of the operations that are audited, and a query.
use edge.Application.Audit.{AuditPersistentOperationInput}
use edge.Application.Audit.Reconciliation.{AuditLedgerReader, AuditPage}
use edge.Domain.Audit.{
  AuditAction, AuditContext, AuditId, AuditQuery, admin_account, admin_setup, certificate,
  certificate_import, certificate_install, certificate_issue, certificate_renew, config_apply,
  config_revision, config_rollback, proxy_host, proxy_host_create, proxy_host_delete,
  proxy_host_update, trust_bundle, trust_bundle_delete, trust_bundle_import,
}
use edge.Domain.Errors.{◌>>◌, ErrorCode, Result, guard, new_error, ok}
use edge.Prelude.{Bool, false, true, Option, String, none}

abbrev is_config_action : AuditAction → Bool
is_config_action config_apply = true
is_config_action config_rollback = true
is_config_action _ = false

abbrev is_proxy_host_action : AuditAction → Bool
is_proxy_host_action proxy_host_create = true
is_proxy_host_action proxy_host_update = true
is_proxy_host_action proxy_host_delete = true
is_proxy_host_action _ = false

abbrev is_certificate_action : AuditAction → Bool
is_certificate_action certificate_issue = true
is_certificate_action certificate_renew = true
is_certificate_action certificate_import = true
is_certificate_action certificate_install = true
is_certificate_action _ = false

abbrev is_trust_action : AuditAction → Bool
is_trust_action trust_bundle_import = true
is_trust_action trust_bundle_delete = true
is_trust_action _ = false

abbrev operation_if :
    Bool → String → AuditPersistentOperationInput → Result AuditPersistentOperationInput
operation_if allowed message operation =
    guard allowed (new_error ErrorCode.audit_record_invalid message) >> ok operation

unfoldable pub config_audit_operation :
    AuditContext → AuditAction → AuditId → Option AuditId → Result AuditPersistentOperationInput
config_audit_operation context action target_revision before_revision =
    operation_if (is_config_action action)
      "config audit operation requires apply or rollback action"
      (record {
        context = context;
        action = action;
        target_kind = config_revision;
        target_id = target_revision;
        before_revision = before_revision;
      })

unfoldable pub proxy_host_audit_operation :
    AuditContext → AuditAction → AuditId → Option AuditId → Result AuditPersistentOperationInput
proxy_host_audit_operation context action proxy_host_id before_revision =
    operation_if (is_proxy_host_action action) "proxy host audit operation requires a CRUD action"
      (record {
        context = context;
        action = action;
        target_kind = proxy_host;
        target_id = proxy_host_id;
        before_revision = before_revision;
      })

unfoldable pub certificate_audit_operation :
    AuditContext → AuditAction → AuditId → Result AuditPersistentOperationInput
certificate_audit_operation context action certificate_ref =
    operation_if (is_certificate_action action)
      "certificate audit operation requires a certificate action"
      (record {
        context = context;
        action = action;
        target_kind = certificate;
        target_id = certificate_ref;
        before_revision = none;
      })

unfoldable pub trust_audit_operation :
    AuditContext → AuditAction → AuditId → Result AuditPersistentOperationInput
trust_audit_operation context action trust_ref =
    operation_if (is_trust_action action) "trust audit operation requires import or delete action"
      (record {
        context = context;
        action = action;
        target_kind = trust_bundle;
        target_id = trust_ref;
        before_revision = none;
      })

unfoldable pub admin_setup_audit_operation : AuditContext → AuditId → AuditPersistentOperationInput
admin_setup_audit_operation context admin_id = record {
  context = context;
  action = admin_setup;
  target_kind = admin_account;
  target_id = admin_id;
  before_revision = none;
}

unfoldable pub query_audit :
    {L : Type 0} → AuditLedgerReader L → L → Bool → AuditQuery → Result AuditPage
query_audit reader ledger authenticated query =
    guard authenticated
      (new_error ErrorCode.admin_auth_required "audit query requires authentication")
    >> reader.query query ledger
