-- ===== src/Payload/Ledger.antt =====
-- crates/edge-core/src/payload_budget_ledger.rs. A method on `&mut self` is an `Exec` over the
-- ledger. `BTreeMap` is a `Table`, `get_mut` followed by writes is an `insert` at the same key.
pub mod Update
pub mod Release
pub mod Totals
pub mod Opened
pub mod Invariant
pub mod Preserved
pub mod Calls
pub mod Exact
pub mod Effects
pub mod Closing
pub mod Samples
use edge.Prelude.{
  ℕ, ◌*◌, ◌/◌, String, Bool, true, false, not, ◌||◌, Option, none, some, [], ltb, leb, ◌==◌,
  if◌then◌else◌, length, Table, lookup, insert, checked_add, wrap_u64,
}
use edge.Domain.Errors.{ErrorCode, AppError, ok, err, new_error}
use edge.Domain.Exec.{Exec, pure, unless, ◌>>=◌, ◌>>◌}
use edge.Domain.Resources.{RuntimeResourcePolicy, ResourceChargeState, granted, is_terminal}

-- crates/edge-core/src/resource_admission_policy.rs
pub data ResourcePressureState : Type 0 where
  normal pressured exhausted failed_closed : ResourcePressureState

abbrev pub ResourceChargeId : Type 0
ResourceChargeId = ℕ

pub data PayloadClass : Type 0 where
  request upstream_request retry_replay client_response : PayloadClass
  web_socket_client_to_upstream web_socket_upstream_to_client tls_pending : PayloadClass

pub record PayloadCharge : Type 0 where
  pub id : ResourceChargeId
  pub connection_id : ℕ
  pub payload_class : PayloadClass
  pub charged_bytes : ℕ
  pub generation : ℕ
  pub state : ResourceChargeState

pub record PayloadBudgetLedger : Type 0 where
  pub limit_bytes : ℕ
  pub used_bytes : ℕ
  pub generation : ℕ
  pub next_charge_id : ℕ
  pub charges : Table PayloadCharge
  pub pressure_state : ResourcePressureState

unfoldable pub new : RuntimeResourcePolicy → ℕ → PayloadBudgetLedger
new policy generation = record {
  limit_bytes = policy.max_inflight_payload_bytes;
  used_bytes = 0;
  generation = generation;
  next_charge_id = 1;
  charges = [];
  pressure_state = normal;
}

abbrev pub live_charge_count : PayloadBudgetLedger → ℕ
live_charge_count l = length l.charges

abbrev pub charge : PayloadBudgetLedger → ResourceChargeId → Option PayloadCharge
charge l id = lookup id l.charges

abbrev pub resource_capacity_error : AppError
resource_capacity_error =
    new_error ErrorCode.resource_payload_capacity_reached "logical payload capacity reached"

abbrev pub resource_accounting_error : String → AppError
resource_accounting_error message = new_error ErrorCode.resource_accounting_invariant_failed message

unfoldable pub fail_accounting {ℓ} : {A : Type ℓ} → String → Exec PayloadBudgetLedger A
fail_accounting message l =
    (err (resource_accounting_error message), record l { pressure_state = failed_closed })

-- `self.pressure_state = Exhausted; return Err(resource_capacity_error())`
abbrev pub refuse_capacity {ℓ} : {A : Type ℓ} → Exec PayloadBudgetLedger A
refuse_capacity l = (err resource_capacity_error, record l { pressure_state = exhausted })

unfoldable pub pressure_after : ResourcePressureState → (used high low : ℕ) → ResourcePressureState
pressure_after normal used high low = if ltb used high then normal else pressured
pressure_after pressured used high low = if leb used low then normal else pressured
pressure_after exhausted used high low = if leb used low then normal else pressured
pressure_after failed_closed used high low = failed_closed

unfoldable pub refresh_pressure_after_usage_change : PayloadBudgetLedger → PayloadBudgetLedger
unfolding pressure_after
refresh_pressure_after_usage_change l = record l {
  pressure_state =
      pressure_after l.pressure_state l.used_bytes (wrap_u64 (l.limit_bytes * 80) / 100)
        (wrap_u64 (l.limit_bytes * 60) / 100);
}

unfoldable pub require_generation : ℕ → Exec PayloadBudgetLedger (Unit {0})
unfolding fail_accounting
require_generation generation l =
    if generation == l.generation
    then (ok tt, l)
    else fail_accounting "resource generation is stale" l

unfoldable pub check_live : ℕ → Option PayloadCharge → Exec PayloadBudgetLedger PayloadCharge
unfolding fail_accounting
check_live generation none = fail_accounting "resource charge is not live"
check_live generation (some c) =
    if not (c.generation == generation) || is_terminal c.state
    then fail_accounting "resource charge identity is invalid"
    else pure c

unfoldable pub live_charge : ResourceChargeId → ℕ → Exec PayloadBudgetLedger PayloadCharge
unfolding check_live
live_charge id generation l = check_live generation (lookup id l.charges) l

abbrev pub is_failed_closed : ResourcePressureState → Bool
is_failed_closed failed_closed = true
is_failed_closed _ = false

-- The rest of `reserve` behind `next_used` and `next_charge_id`.
unfoldable pub grant :
    ℕ → PayloadClass → ℕ → ℕ → ℕ → Option ℕ → Exec PayloadBudgetLedger ResourceChargeId
unfolding refresh_pressure_after_usage_change
grant connection_id payload_class requested_bytes generation next_used none l = (
  err (resource_accounting_error "resource charge identity exhausted"),
  record l { pressure_state = failed_closed },
)
grant connection_id payload_class requested_bytes generation next_used (some next_charge_id) l = (
  ok l.next_charge_id,
  refresh_pressure_after_usage_change (record l {
    next_charge_id = next_charge_id;
    used_bytes = next_used;
    charges =
        insert l.next_charge_id
          (record {
            id = l.next_charge_id;
            connection_id = connection_id;
            payload_class = payload_class;
            charged_bytes = requested_bytes;
            generation = generation;
            state = granted;
          })
          l.charges;
  }),
)

unfoldable pub reserve_within :
    ℕ → PayloadClass → ℕ → ℕ → Option ℕ → Exec PayloadBudgetLedger ResourceChargeId
unfolding grant
reserve_within connection_id payload_class requested_bytes generation none l =
    (err resource_capacity_error, l)
reserve_within connection_id payload_class requested_bytes generation (some next_used) l =
    if ltb l.limit_bytes next_used
    then refuse_capacity l
    else grant connection_id payload_class requested_bytes generation next_used
        (checked_add l.next_charge_id 1) l

unfoldable pub reserve : ℕ → PayloadClass → ℕ → ℕ → Exec PayloadBudgetLedger ResourceChargeId
reserve connection_id payload_class requested_bytes generation l =
    if is_failed_closed l.pressure_state
    then (err (resource_accounting_error "resource admission is failed closed"), l)
    else (do
      require_generation generation
      unless (not (requested_bytes == 0))
          (fail_accounting "zero-byte resource charge is not allowed")
      λ s.
          reserve_within connection_id payload_class requested_bytes generation
            (checked_add s.used_bytes requested_bytes) s)
        l
