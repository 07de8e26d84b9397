-- ===== src/Domain/Errors.antt =====
-- Error codes and errors (crates/edge-domain/src/lib.rs), and fallible results.
pub mod Names
use edge.Prelude.{
  List, [], ◌∷◌, String, Bool, true, false, Option, none, some, refl, inr, ◌⊎◌, ◌≡◌, inl,
}

pub data ErrorCode : Type 0 where
  config_admin_bind_conflict config_admin_external_bind_without_auth : ErrorCode
  config_acme_challenge_blocked_by_redirect config_http01_without_http_listener : ErrorCode
  config_https_route_certificate_missing config_invalid_acme_email : ErrorCode
  config_invalid_bind_address config_health_check_invalid_interval : ErrorCode
  config_health_check_invalid_path config_health_check_invalid_status_range : ErrorCode
  config_health_check_invalid_threshold config_invalid_load_balancing_policy : ErrorCode
  config_invalid_log_mode config_resource_limit_invalid config_retry_policy_invalid : ErrorCode
  config_passive_health_policy_invalid config_invalid_upstream_url : ErrorCode
  config_trust_bundle_ref_invalid config_trust_bundle_not_found trust_bundle_invalid : ErrorCode
  trust_bundle_already_exists trust_bundle_limit_exceeded trust_bundle_referenced : ErrorCode
  trust_bundle_store_failed upstream_tls_untrusted upstream_tls_identity_mismatch : ErrorCode
  upstream_tls_profile_invalid config_tls_server_name_invalid : ErrorCode
  config_upstream_http_host_invalid config_tls_policy_invalid : ErrorCode
  config_client_auth_policy_invalid config_upstream_id_duplicate : ErrorCode
  config_upstream_id_required config_listener_duplicate : ErrorCode
  config_production_acme_requires_opt_in config_current_revision_invalid : ErrorCode
  config_current_revision_missing config_bootstrap_seed_invalid : ErrorCode
  config_revision_not_found config_route_duplicate config_route_match_empty : ErrorCode
  config_route_missing_service config_schema_version_missing : ErrorCode
  config_service_without_upstream config_store_failed config_unsafe_upstream_url : ErrorCode
  acme_challenge_failed acme_terms_not_accepted admin_auth_required : ErrorCode
  admin_csrf_required admin_endpoint_not_implemented admin_invalid_credentials : ErrorCode
  admin_route_not_found admin_setup_already_complete admin_setup_required : ErrorCode
  certificate_expired certificate_invalid certificate_not_found : ErrorCode
  certificate_store_failed http_connect_method_rejected http_header_too_large : ErrorCode
  http_malformed_request http_request_body_too_large http_request_line_too_large : ErrorCode
  http_transfer_encoding_content_length_conflict support_bundle_bounds_exceeded : ErrorCode
  support_bundle_report_invalid runtime_command_rejected runtime_health_unavailable : ErrorCode
  runtime_upstream_bad_gateway runtime_upstream_timeout : ErrorCode
  resource_payload_capacity_reached resource_allocation_failed : ErrorCode
  resource_accounting_invariant_failed tls_handshake_failed tls_handshake_timeout : ErrorCode
  process_command_invalid process_command_not_implemented data_directory_busy : ErrorCode
  data_directory_lock_failed data_directory_lock_state_invalid : ErrorCode
  backup_manifest_invalid backup_schema_unsupported backup_limit_exceeded : ErrorCode
  backup_secret_input_invalid backup_source_invalid backup_source_changed : ErrorCode
  backup_destination_unsafe backup_destination_exists backup_encryption_failed : ErrorCode
  backup_write_failed backup_publish_failed backup_state_transition_invalid : ErrorCode
  backup_authentication_failed backup_format_invalid backup_digest_mismatch : ErrorCode
  backup_path_unsafe restore_target_busy restore_target_not_empty : ErrorCode
  restore_target_unsafe restore_stage_failed restore_config_invalid : ErrorCode
  restore_certificate_invalid restore_secret_invalid restore_preflight_failed : ErrorCode
  restore_commit_failed restore_rollback_failed restore_transaction_unresolved : ErrorCode
  restore_transaction_ambiguous restore_platform_unsupported : ErrorCode
  restore_state_transition_invalid audit_unavailable audit_mutation_blocked : ErrorCode
  audit_record_invalid audit_record_too_large audit_capacity_reached : ErrorCode
  audit_sequence_invalid audit_chain_mismatch audit_interior_corruption : ErrorCode
  audit_trailing_frame_incomplete audit_unsupported_version audit_append_failed : ErrorCode
  audit_sync_failed audit_cursor_invalid audit_reconciliation_unknown internal_bug : ErrorCode

pub record AppError : Type 0 where
  pub code : ErrorCode
  pub message : String

abbrev pub new_error : ErrorCode → String → AppError
new_error code message = record { code = code; message = message }

pub data Result {ℓ} (A : Type ℓ) : Type ℓ where
  ok : A → Result A
  err : AppError → Result A

-- `?`, on a method that keeps no state.
module _ {ℓ κ} {A : Type ℓ} {B : Type κ} where
  infixl 5 ◌>>=◌
  abbrev pub ◌>>=◌ : Result A → (A → Result B) → Result B
  err e >>= next = err e
  ok a >>= next = next a

infixl 5 ◌>>◌
abbrev pub ◌>>◌ {κ} : {B : Type κ} → Result (Unit {0}) → Result B → Result B
check >> next = check >>= λ _. next

-- `if !b { return Err(e) }`
abbrev pub guard : Bool → AppError → Result (Unit {0})
guard false e = err e
guard true e = ok tt

module _ {ℓ} {A : Type ℓ} where
  abbrev pub ok_or : Option A → AppError → Result A
  ok_or none e = err e
  ok_or (some a) e = ok a

  -- `iter.next().ok_or_else(...)`, with what is left of the iterator.
  abbrev pub first_or : List A → AppError → Result (A × List A)
  first_or [] e = err e
  first_or (a ∷ rest) e = ok (a, rest)

  abbrev pub is_ok : Result A → Bool
  is_ok (ok a) = true
  is_ok (err e) = false

pub Result-cases {ℓ} :
    {A : Type ℓ} (r : Result A) → ((a : A) × (r ≡ ok a)) ⊎ ((e : AppError) × (r ≡ err e))
Result-cases (ok a) = inl (a, refl)
Result-cases (err e) = inr (e, refl)

-- What a `?` passed on, when the method succeeded in the end.
module _ {ℓ κ} {A : Type ℓ} {B : Type κ} where
  pub bind-ok :
      (call : Result A) (rest : A → Result B) {answer : B}
      → (call >>= rest) ≡ ok answer
      → (x : A) × (call ≡ ok x) × (rest x ≡ ok answer)
  bind-ok (err e) rest done = cc
  bind-ok (ok x) rest done = (x, refl, done)

pub guard-ok {κ} :
    {B : Type κ} (check : Bool) (e : AppError) (rest : Result B) {answer : B}
    → (guard check e >> rest) ≡ ok answer
    → (check ≡ true) × (rest ≡ ok answer)
guard-ok false e rest done = cc
guard-ok true e rest done = (refl, done)

pub ok_or-ok {ℓ} :
    {A : Type ℓ} (o : Option A) (e : AppError) {a : A} → ok_or o e ≡ ok a → o ≡ some a
ok_or-ok none e h = cc
ok_or-ok (some b) e h = cc
