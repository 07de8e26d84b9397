-- ===== src/Application/Audit/Tests.antt =====
-- Audited mutations, a start and the sampler on a ledger in memory that refuses its n-th record.
use edge.Application.Audit.{
  AuditLedgerWriter, AuditPersistentOperationInput, AuditSession, intent_of, record_for_operation,
}
use edge.Application.Audit.Mutation.{Effect, execute_audited_mutation}
use edge.Application.Audit.Mutation.Recorded.{
  IsAudited, Publishes, execute_audited_mutation-IsAudited,
}
use edge.Application.Audit.Reconciliation.{AuditLedgerReader, Inspector, reconcile_incomplete_audit}
use edge.Application.Audit.Sampler.{should_record, should_record-bounded}
use edge.Application.Audit.Startup.{initialize_audit_ledger}
use edge.Application.Audit.Startup.Started.{IsClean, IsStarted, initialize_audit_ledger-IsStarted}
use edge.Application.Audit.Operations.{
  config_audit_operation, proxy_host_audit_operation, certificate_audit_operation,
  trust_audit_operation, admin_setup_audit_operation, query_audit,
}
use edge.Domain.Audit.{
  validate, valid, AuditQuery, AuditLedgerHead, AuditRecord, bootstrap_admin, config_apply,
  config_revision, parse_id,
}
use edge.Domain.Audit.States.{
  AuditAuthoritativeFact, degraded, fact_committed, fact_unknown, healthy, is_healthy, starting,
}
use edge.Domain.Errors.{is_ok, AppError, ErrorCode, Result, err, new_error, ok}
use edge.Prelude.{
  if◌then◌else◌, Bool, ℕ, List, [], ◌∷◌, ◌==◌, ◌≡◌, ◌≤◌, ◌<◌, ◌+◌, false, true, Memᴰ, arith, length,
  none, refl, some,
}
use edge.Text.{text_eq, txt}
use edge.Application.Entries.{get}
use edge.Domain.Errors.Names.{as_str}

abbrev Records : Type 0
Records = List AuditRecord

abbrev head_of : Records → AuditLedgerHead
head_of records = record { generation = 0; sequence = length records }

abbrev refused : AppError
refused = new_error ErrorCode.audit_append_failed "no space"

abbrev append_unless : Bool → AuditRecord → Records → Result AuditLedgerHead × Records
append_unless true r records = (err refused, records)
append_unless false r records = (ok (head_of (r ∷ records)), r ∷ records)

abbrev append : ℕ → AuditRecord → Records → Result AuditLedgerHead × Records
append bad r records = append_unless (length records == bad) r records

abbrev in_memory : ℕ → AuditLedgerWriter Records
in_memory bad = record {
  append_intent = append bad;
  append_terminal = λ r expected. append bad r;
  append_reconciliation = λ r expected. append bad r;
  append_security_observation = append bad;
}

append_unless-published :
    (full : Bool) (r : AuditRecord) (records : Records) (head : AuditLedgerHead)
    → (append_unless full r records).0 ≡ ok head
    → Memᴰ r (append_unless full r records).1
append_unless-published true r records head h = cc
append_unless-published false r records head h = Memᴰ.head refl

in_memory_publishes : (bad : ℕ) → Publishes (in_memory bad)
in_memory_publishes bad = record {
  published = λ records. records;
  intent_published = λ r records. append_unless-published (length records == bad) r records;
  terminal_published =
      λ r expected records. append_unless-published (length records == bad) r records;
}

abbrev apply_two : AuditPersistentOperationInput
apply_two = record {
  context = record {
    operation_id = txt "operation-1";
    request_id = txt "request-1";
    actor_kind = bootstrap_admin;
    received_at_epoch_seconds = 10;
  };
  action = config_apply;
  target_kind = config_revision;
  target_id = txt "revision-2";
  before_revision = none;
}

-- The effect counts its runs.
abbrev count_run : Effect ℕ ℕ
count_run n = (ok (record { value = 7; after_revision = some (txt "revision-2") }), n + 1)

abbrev fail_run : Effect ℕ ℕ
fail_run n = (err (new_error ErrorCode.config_store_failed "disk"), n + 1)

abbrev able : AuditSession Records ℕ
able = record { ledger = []; admission = healthy; world = 0 }

-- The terminal record is refused.
execute_audited_mutation-IsAudited_example :
    let (told, t) = execute_audited_mutation (in_memory 1) apply_two count_run able in
    IsAudited (in_memory 1) (in_memory_publishes 1) apply_two count_run able told t
execute_audited_mutation-IsAudited_example =
    execute_audited_mutation-IsAudited (in_memory 1) (in_memory_publishes 1) apply_two count_run
      able

refused_terminal :
    (execute_audited_mutation (in_memory 1) apply_two count_run able).1
    ≡ record { ledger = intent_of apply_two ∷ []; admission = degraded; world = 1 }
unfolding execute_audited_mutation
refused_terminal = refl

failed_effect : length (execute_audited_mutation (in_memory 9) apply_two fail_run able).1.ledger ≡ 2
unfolding execute_audited_mutation parse_id as_str
failed_effect = refl

refused_intent : (execute_audited_mutation (in_memory 0) apply_two count_run able).1 ≡ able
unfolding execute_audited_mutation
refused_intent = refl

-- Every record of the ledger was left open.
abbrev all_open : AuditLedgerReader Records
all_open = record {
  query = λ q records. err refused;
  incomplete_operations = λ records. ok records;
  unresolved_reconciliations = λ records. ok [];
  head = λ records. ok (head_of records);
  verify = λ records. (
    ok (record {
      head = head_of records;
      record_count = length records;
      segment_count = 1;
      incomplete_operation_count = length records;
    }),
    records,
  );
}

abbrev finds : AuditAuthoritativeFact → Inspector ℕ
finds fact operation_id action target_id n = (ok fact, n + 1)

abbrev after_crash : AuditSession Records ℕ
after_crash = record { ledger = intent_of apply_two ∷ []; admission = starting; world = 0 }

initialize_audit_ledger-IsStarted_example :
    let (answer, t) =
      initialize_audit_ledger (in_memory 9) (finds fact_committed) all_open after_crash in
    IsStarted (in_memory 9) (finds fact_committed) all_open after_crash answer t
    × (IsClean (in_memory 9) (finds fact_committed) all_open after_crash.ledger
        → is_ok answer ≡ true)
initialize_audit_ledger-IsStarted_example =
    initialize_audit_ledger-IsStarted (in_memory 9) (finds fact_committed) all_open
      (λ records. (head_of records, refl)) after_crash

reconciled_start :
    (initialize_audit_ledger (in_memory 9) (finds fact_committed) all_open after_crash).1.admission
    ≡ healthy
unfolding initialize_audit_ledger reconcile_incomplete_audit record_for_operation
reconciled_start = refl

unknown_start :
    is_healthy
      (initialize_audit_ledger (in_memory 9) (finds fact_unknown) all_open after_crash).1.admission
    ≡ false
unfolding initialize_audit_ledger reconcile_incomplete_audit record_for_operation
unknown_start = refl

-- A head that cannot be read after the last record: the start fails, and mutations are admitted.
abbrev short_sighted : AuditLedgerReader Records
short_sighted = record all_open {
  head = λ records. if length records == 2 then err refused else ok (head_of records);
}

failed_start_admits :
    let (answer, t) =
      initialize_audit_ledger (in_memory 9) (finds fact_committed) short_sighted after_crash in
    (answer ≡ err refused) × (t.admission ≡ healthy)
unfolding initialize_audit_ledger reconcile_incomplete_audit record_for_operation
failed_start_admits = (refl, refl)

built_operation :
    config_audit_operation apply_two.context config_apply (txt "revision-2") none ≡ ok apply_two
unfolding config_audit_operation
built_operation = refl

other_actions :
    (is_ok (proxy_host_audit_operation apply_two.context config_apply (txt "host") none) ≡ false)
    × (is_ok (certificate_audit_operation apply_two.context config_apply (txt "cert")) ≡ false)
    × (is_ok (trust_audit_operation apply_two.context config_apply (txt "bundle")) ≡ false)
unfolding proxy_host_audit_operation certificate_audit_operation trust_audit_operation
other_actions = (refl, refl, refl)

setup_written :
    validate (intent_of (admin_setup_audit_operation apply_two.context (txt "admin"))) ≡ valid tt
unfolding admin_setup_audit_operation validate record_for_operation
setup_written = refl

unauthenticated : (q : AuditQuery) → is_ok (query_audit all_open [] false q) ≡ false
unfolding query_audit
unauthenticated q = refl

should_record-bounded_example :
    let (answer, s) = should_record (txt "admin") 100 [] in
    (length s ≤ 1024)
    × (answer ≡ true → (later : ℕ) → later < 160 → should_record (txt "admin") later s ≡ (false, s))
should_record-bounded_example = should_record-bounded (txt "admin") 100 [] (omega arith)

sampled_again : (should_record (txt "admin") 160 ((txt "admin", 100) ∷ [])).0 ≡ true
unfolding should_record get text_eq
sampled_again = refl
