-- ===== src/Domain/Errors/Names.antt =====
-- crates/edge-domain/src/lib.rs: the stable strings of the error codes.
use edge.Domain.Errors.{ErrorCode}
use edge.Text.{Text, txt}

unfoldable pub as_str : ErrorCode → Text
as_str ErrorCode.config_admin_bind_conflict = txt "CONFIG_ADMIN_BIND_CONFLICT"
as_str ErrorCode.config_admin_external_bind_without_auth =
    txt "CONFIG_ADMIN_EXTERNAL_BIND_WITHOUT_AUTH"
as_str ErrorCode.config_acme_challenge_blocked_by_redirect =
    txt "CONFIG_ACME_CHALLENGE_BLOCKED_BY_REDIRECT"
as_str ErrorCode.config_http01_without_http_listener = txt "CONFIG_HTTP01_WITHOUT_HTTP_LISTENER"
as_str ErrorCode.config_https_route_certificate_missing =
    txt "CONFIG_HTTPS_ROUTE_CERTIFICATE_MISSING"
as_str ErrorCode.config_invalid_acme_email = txt "CONFIG_INVALID_ACME_EMAIL"
as_str ErrorCode.config_invalid_bind_address = txt "CONFIG_INVALID_BIND_ADDRESS"
as_str ErrorCode.config_health_check_invalid_interval = txt "CONFIG_HEALTH_CHECK_INVALID_INTERVAL"
as_str ErrorCode.config_health_check_invalid_path = txt "CONFIG_HEALTH_CHECK_INVALID_PATH"
as_str ErrorCode.config_health_check_invalid_status_range =
    txt "CONFIG_HEALTH_CHECK_INVALID_STATUS_RANGE"
as_str ErrorCode.config_health_check_invalid_threshold = txt "CONFIG_HEALTH_CHECK_INVALID_THRESHOLD"
as_str ErrorCode.config_invalid_load_balancing_policy = txt "CONFIG_INVALID_LOAD_BALANCING_POLICY"
as_str ErrorCode.config_invalid_log_mode = txt "CONFIG_INVALID_LOG_MODE"
as_str ErrorCode.config_resource_limit_invalid = txt "CONFIG_RESOURCE_LIMIT_INVALID"
as_str ErrorCode.config_retry_policy_invalid = txt "CONFIG_RETRY_POLICY_INVALID"
as_str ErrorCode.config_passive_health_policy_invalid = txt "CONFIG_PASSIVE_HEALTH_POLICY_INVALID"
as_str ErrorCode.config_invalid_upstream_url = txt "CONFIG_INVALID_UPSTREAM_URL"
as_str ErrorCode.config_trust_bundle_ref_invalid = txt "CONFIG_TRUST_BUNDLE_REF_INVALID"
as_str ErrorCode.config_trust_bundle_not_found = txt "CONFIG_TRUST_BUNDLE_NOT_FOUND"
as_str ErrorCode.trust_bundle_invalid = txt "TRUST_BUNDLE_INVALID"
as_str ErrorCode.trust_bundle_already_exists = txt "TRUST_BUNDLE_ALREADY_EXISTS"
as_str ErrorCode.trust_bundle_limit_exceeded = txt "TRUST_BUNDLE_LIMIT_EXCEEDED"
as_str ErrorCode.trust_bundle_referenced = txt "TRUST_BUNDLE_REFERENCED"
as_str ErrorCode.trust_bundle_store_failed = txt "TRUST_BUNDLE_STORE_FAILED"
as_str ErrorCode.upstream_tls_untrusted = txt "UPSTREAM_TLS_UNTRUSTED"
as_str ErrorCode.upstream_tls_identity_mismatch = txt "UPSTREAM_TLS_IDENTITY_MISMATCH"
as_str ErrorCode.upstream_tls_profile_invalid = txt "UPSTREAM_TLS_PROFILE_INVALID"
as_str ErrorCode.config_tls_server_name_invalid = txt "CONFIG_TLS_SERVER_NAME_INVALID"
as_str ErrorCode.config_upstream_http_host_invalid = txt "CONFIG_UPSTREAM_HTTP_HOST_INVALID"
as_str ErrorCode.config_tls_policy_invalid = txt "CONFIG_TLS_POLICY_INVALID"
as_str ErrorCode.config_client_auth_policy_invalid = txt "CONFIG_CLIENT_AUTH_POLICY_INVALID"
as_str ErrorCode.config_upstream_id_duplicate = txt "CONFIG_UPSTREAM_ID_DUPLICATE"
as_str ErrorCode.config_upstream_id_required = txt "CONFIG_UPSTREAM_ID_REQUIRED"
as_str ErrorCode.config_listener_duplicate = txt "CONFIG_LISTENER_DUPLICATE"
as_str ErrorCode.config_production_acme_requires_opt_in =
    txt "CONFIG_PRODUCTION_ACME_REQUIRES_OPT_IN"
as_str ErrorCode.config_current_revision_invalid = txt "CONFIG_CURRENT_REVISION_INVALID"
as_str ErrorCode.config_current_revision_missing = txt "CONFIG_CURRENT_REVISION_MISSING"
as_str ErrorCode.config_bootstrap_seed_invalid = txt "CONFIG_BOOTSTRAP_SEED_INVALID"
as_str ErrorCode.config_revision_not_found = txt "CONFIG_REVISION_NOT_FOUND"
as_str ErrorCode.config_route_duplicate = txt "CONFIG_ROUTE_DUPLICATE"
as_str ErrorCode.config_route_match_empty = txt "CONFIG_ROUTE_MATCH_EMPTY"
as_str ErrorCode.config_route_missing_service = txt "CONFIG_ROUTE_MISSING_SERVICE"
as_str ErrorCode.config_schema_version_missing = txt "CONFIG_SCHEMA_VERSION_MISSING"
as_str ErrorCode.config_service_without_upstream = txt "CONFIG_SERVICE_WITHOUT_UPSTREAM"
as_str ErrorCode.config_store_failed = txt "CONFIG_STORE_FAILED"
as_str ErrorCode.config_unsafe_upstream_url = txt "CONFIG_UNSAFE_UPSTREAM_URL"
as_str ErrorCode.acme_challenge_failed = txt "ACME_CHALLENGE_FAILED"
as_str ErrorCode.acme_terms_not_accepted = txt "ACME_TERMS_NOT_ACCEPTED"
as_str ErrorCode.admin_auth_required = txt "ADMIN_AUTH_REQUIRED"
as_str ErrorCode.admin_csrf_required = txt "ADMIN_CSRF_REQUIRED"
as_str ErrorCode.admin_endpoint_not_implemented = txt "ADMIN_ENDPOINT_NOT_IMPLEMENTED"
as_str ErrorCode.admin_invalid_credentials = txt "ADMIN_INVALID_CREDENTIALS"
as_str ErrorCode.admin_route_not_found = txt "ADMIN_ROUTE_NOT_FOUND"
as_str ErrorCode.admin_setup_already_complete = txt "ADMIN_SETUP_ALREADY_COMPLETE"
as_str ErrorCode.admin_setup_required = txt "ADMIN_SETUP_REQUIRED"
as_str ErrorCode.certificate_expired = txt "CERTIFICATE_EXPIRED"
as_str ErrorCode.certificate_invalid = txt "CERTIFICATE_INVALID"
as_str ErrorCode.certificate_not_found = txt "CERTIFICATE_NOT_FOUND"
as_str ErrorCode.certificate_store_failed = txt "CERTIFICATE_STORE_FAILED"
as_str ErrorCode.http_connect_method_rejected = txt "HTTP_CONNECT_METHOD_REJECTED"
as_str ErrorCode.http_header_too_large = txt "HTTP_HEADER_TOO_LARGE"
as_str ErrorCode.http_malformed_request = txt "HTTP_MALFORMED_REQUEST"
as_str ErrorCode.http_request_body_too_large = txt "HTTP_REQUEST_BODY_TOO_LARGE"
as_str ErrorCode.http_request_line_too_large = txt "HTTP_REQUEST_LINE_TOO_LARGE"
as_str ErrorCode.http_transfer_encoding_content_length_conflict =
    txt "HTTP_TRANSFER_ENCODING_CONTENT_LENGTH_CONFLICT"
as_str ErrorCode.support_bundle_bounds_exceeded = txt "SUPPORT_BUNDLE_BOUNDS_EXCEEDED"
as_str ErrorCode.support_bundle_report_invalid = txt "SUPPORT_BUNDLE_REPORT_INVALID"
as_str ErrorCode.runtime_command_rejected = txt "RUNTIME_COMMAND_REJECTED"
as_str ErrorCode.runtime_health_unavailable = txt "RUNTIME_HEALTH_UNAVAILABLE"
as_str ErrorCode.runtime_upstream_bad_gateway = txt "RUNTIME_UPSTREAM_BAD_GATEWAY"
as_str ErrorCode.runtime_upstream_timeout = txt "RUNTIME_UPSTREAM_TIMEOUT"
as_str ErrorCode.resource_payload_capacity_reached = txt "RESOURCE_PAYLOAD_CAPACITY_REACHED"
as_str ErrorCode.resource_allocation_failed = txt "RESOURCE_ALLOCATION_FAILED"
as_str ErrorCode.resource_accounting_invariant_failed = txt "RESOURCE_ACCOUNTING_INVARIANT_FAILED"
as_str ErrorCode.tls_handshake_failed = txt "TLS_HANDSHAKE_FAILED"
as_str ErrorCode.tls_handshake_timeout = txt "TLS_HANDSHAKE_TIMEOUT"
as_str ErrorCode.process_command_invalid = txt "PROCESS_COMMAND_INVALID"
as_str ErrorCode.process_command_not_implemented = txt "PROCESS_COMMAND_NOT_IMPLEMENTED"
as_str ErrorCode.data_directory_busy = txt "DATA_DIRECTORY_BUSY"
as_str ErrorCode.data_directory_lock_failed = txt "DATA_DIRECTORY_LOCK_FAILED"
as_str ErrorCode.data_directory_lock_state_invalid = txt "DATA_DIRECTORY_LOCK_STATE_INVALID"
as_str ErrorCode.backup_manifest_invalid = txt "BACKUP_MANIFEST_INVALID"
as_str ErrorCode.backup_schema_unsupported = txt "BACKUP_SCHEMA_UNSUPPORTED"
as_str ErrorCode.backup_limit_exceeded = txt "BACKUP_LIMIT_EXCEEDED"
as_str ErrorCode.backup_secret_input_invalid = txt "BACKUP_SECRET_INPUT_INVALID"
as_str ErrorCode.backup_source_invalid = txt "BACKUP_SOURCE_INVALID"
as_str ErrorCode.backup_source_changed = txt "BACKUP_SOURCE_CHANGED"
as_str ErrorCode.backup_destination_unsafe = txt "BACKUP_DESTINATION_UNSAFE"
as_str ErrorCode.backup_destination_exists = txt "BACKUP_DESTINATION_EXISTS"
as_str ErrorCode.backup_encryption_failed = txt "BACKUP_ENCRYPTION_FAILED"
as_str ErrorCode.backup_write_failed = txt "BACKUP_WRITE_FAILED"
as_str ErrorCode.backup_publish_failed = txt "BACKUP_PUBLISH_FAILED"
as_str ErrorCode.backup_state_transition_invalid = txt "BACKUP_STATE_TRANSITION_INVALID"
as_str ErrorCode.backup_authentication_failed = txt "BACKUP_AUTHENTICATION_FAILED"
as_str ErrorCode.backup_format_invalid = txt "BACKUP_FORMAT_INVALID"
as_str ErrorCode.backup_digest_mismatch = txt "BACKUP_DIGEST_MISMATCH"
as_str ErrorCode.backup_path_unsafe = txt "BACKUP_PATH_UNSAFE"
as_str ErrorCode.restore_target_busy = txt "RESTORE_TARGET_BUSY"
as_str ErrorCode.restore_target_not_empty = txt "RESTORE_TARGET_NOT_EMPTY"
as_str ErrorCode.restore_target_unsafe = txt "RESTORE_TARGET_UNSAFE"
as_str ErrorCode.restore_stage_failed = txt "RESTORE_STAGE_FAILED"
as_str ErrorCode.restore_config_invalid = txt "RESTORE_CONFIG_INVALID"
as_str ErrorCode.restore_certificate_invalid = txt "RESTORE_CERTIFICATE_INVALID"
as_str ErrorCode.restore_secret_invalid = txt "RESTORE_SECRET_INVALID"
as_str ErrorCode.restore_preflight_failed = txt "RESTORE_PREFLIGHT_FAILED"
as_str ErrorCode.restore_commit_failed = txt "RESTORE_COMMIT_FAILED"
as_str ErrorCode.restore_rollback_failed = txt "RESTORE_ROLLBACK_FAILED"
as_str ErrorCode.restore_transaction_unresolved = txt "RESTORE_TRANSACTION_UNRESOLVED"
as_str ErrorCode.restore_transaction_ambiguous = txt "RESTORE_TRANSACTION_AMBIGUOUS"
as_str ErrorCode.restore_platform_unsupported = txt "RESTORE_PLATFORM_UNSUPPORTED"
as_str ErrorCode.restore_state_transition_invalid = txt "RESTORE_STATE_TRANSITION_INVALID"
as_str ErrorCode.audit_unavailable = txt "AUDIT_UNAVAILABLE"
as_str ErrorCode.audit_cursor_invalid = txt "AUDIT_CURSOR_INVALID"
as_str ErrorCode.audit_mutation_blocked = txt "AUDIT_MUTATION_BLOCKED"
as_str ErrorCode.audit_record_invalid = txt "AUDIT_RECORD_INVALID"
as_str ErrorCode.audit_record_too_large = txt "AUDIT_RECORD_TOO_LARGE"
as_str ErrorCode.audit_capacity_reached = txt "AUDIT_CAPACITY_REACHED"
as_str ErrorCode.audit_sequence_invalid = txt "AUDIT_SEQUENCE_INVALID"
as_str ErrorCode.audit_chain_mismatch = txt "AUDIT_CHAIN_MISMATCH"
as_str ErrorCode.audit_interior_corruption = txt "AUDIT_INTERIOR_CORRUPTION"
as_str ErrorCode.audit_trailing_frame_incomplete = txt "AUDIT_TRAILING_FRAME_INCOMPLETE"
as_str ErrorCode.audit_unsupported_version = txt "AUDIT_UNSUPPORTED_VERSION"
as_str ErrorCode.audit_append_failed = txt "AUDIT_APPEND_FAILED"
as_str ErrorCode.audit_sync_failed = txt "AUDIT_SYNC_FAILED"
as_str ErrorCode.audit_reconciliation_unknown = txt "AUDIT_RECONCILIATION_UNKNOWN"
as_str ErrorCode.internal_bug = txt "INTERNAL_BUG"
