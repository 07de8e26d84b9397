-- ===== src/Payload/Ledger/Update.antt =====
-- The calls of crates/edge-core/src/payload_budget_ledger.rs that change a live charge.
use edge.Prelude.{
  ℕ, Bool, true, false, Option, none, some, ltb, ◌==◌, if◌then◌else◌, lookup, insert, checked_add,
  checked_sub,
}
use edge.Domain.Errors.{err}
use edge.Domain.Exec.{Exec, pure, modify, unless, ◌>>=◌, ◌>>◌}
use edge.Domain.Resources.{ResourceChargeState, granted, in_use, transferred}
use edge.Payload.Ledger.{
  PayloadBudgetLedger, fail_accounting, refuse_capacity, ResourceChargeId, resource_capacity_error,
  refresh_pressure_after_usage_change, PayloadCharge, require_generation, live_charge, PayloadClass,
}

-- The rest of `replace_charge_bytes` behind `previous_bytes`, `next_used` and the second lookup.
unfoldable pub store_bytes :
    ResourceChargeId → ℕ → Option PayloadCharge → Exec PayloadBudgetLedger (Unit {0})
unfolding fail_accounting refresh_pressure_after_usage_change
store_bytes id next_logical_bytes none = fail_accounting "resized resource charge disappeared"
store_bytes id next_logical_bytes (some c) = modify λ l.
    refresh_pressure_after_usage_change
      (record l { charges = insert id (record c { charged_bytes = next_logical_bytes }) l.charges })

unfoldable pub swap_bytes : ResourceChargeId → ℕ → Option ℕ → Exec PayloadBudgetLedger (Unit {0})
unfolding store_bytes
swap_bytes id next_logical_bytes none l = (err resource_capacity_error, l)
swap_bytes id next_logical_bytes (some next_used) l =
    if ltb l.limit_bytes next_used
    then refuse_capacity l
    else store_bytes id next_logical_bytes (lookup id l.charges)
        (record l { used_bytes = next_used })

unfoldable pub replace_previous :
    ResourceChargeId → ℕ → Option PayloadCharge → Exec PayloadBudgetLedger (Unit {0})
unfolding swap_bytes fail_accounting
replace_previous id next_logical_bytes none l =
    fail_accounting "resized resource charge disappeared" l
replace_previous id next_logical_bytes (some c) l =
    elim (checked_sub l.used_bytes c.charged_bytes) [
      | none ↦ fail_accounting "resource total is below live charge" l
      | some without_previous ↦
          swap_bytes id next_logical_bytes (checked_add without_previous next_logical_bytes) l
    ]

unfoldable pub replace_charge_bytes : ResourceChargeId → ℕ → Exec PayloadBudgetLedger (Unit {0})
replace_charge_bytes id next_logical_bytes l =
    if next_logical_bytes == 0
    then fail_accounting "live resource charge cannot be resized to zero" l
    else replace_previous id next_logical_bytes (lookup id l.charges) l

abbrev pub is_granted : ResourceChargeState → Bool
is_granted granted = true
is_granted _ = false

-- The states of `resize` and `transfer`.
abbrev pub is_movable : ResourceChargeState → Bool
is_movable granted = true
is_movable in_use = true
is_movable transferred = true
is_movable _ = false

unfoldable pub mark_in_use :
    ResourceChargeId → Option PayloadCharge → Exec PayloadBudgetLedger (Unit {0})
unfolding fail_accounting
mark_in_use id none = fail_accounting "committed resource charge disappeared"
mark_in_use id (some c) =
    modify λ l. record l { charges = insert id (record c { state = in_use }) l.charges }

unfoldable pub commit : ResourceChargeId → ℕ → ℕ → Exec PayloadBudgetLedger (Unit {0})
commit id actual_logical_bytes generation = do
  require_generation generation
  c ← live_charge id generation
  unless (is_granted c.state) (fail_accounting "only granted charges can be committed")
  replace_charge_bytes id actual_logical_bytes
  λ l. mark_in_use id (lookup id l.charges) l

unfoldable pub resize : ResourceChargeId → ℕ → ℕ → Exec PayloadBudgetLedger (Unit {0})
resize id next_logical_bytes generation = do
  require_generation generation
  c ← live_charge id generation
  unless (is_movable c.state) (fail_accounting "charge cannot be resized in its current state")
  replace_charge_bytes id next_logical_bytes

unfoldable pub grow_to : ResourceChargeId → ℕ → Option ℕ → Exec PayloadBudgetLedger (Unit {0})
grow_to id generation none = refuse_capacity
grow_to id generation (some next_logical_bytes) = resize id next_logical_bytes generation

unfoldable pub grow : ResourceChargeId → ℕ → ℕ → Exec PayloadBudgetLedger (Unit {0})
grow id additional_bytes generation = do
  require_generation generation
  if additional_bytes == 0 then pure tt else (do
    c ← live_charge id generation
    grow_to id generation (checked_add c.charged_bytes additional_bytes))

unfoldable pub move_charge :
    ResourceChargeId → ℕ → PayloadClass → Option PayloadCharge → Exec PayloadBudgetLedger (Unit {0})
unfolding fail_accounting
move_charge id next_connection_id next_payload_class none =
    fail_accounting "transferred resource charge disappeared"
move_charge id next_connection_id next_payload_class (some c) = modify λ l. record l {
  charges =
      insert id
        (record c {
          connection_id = next_connection_id;
          payload_class = next_payload_class;
          state = transferred;
        })
        l.charges;
}

unfoldable pub transfer :
    ResourceChargeId → ℕ → PayloadClass → ℕ → Exec PayloadBudgetLedger (Unit {0})
transfer id next_connection_id next_payload_class generation = do
  require_generation generation
  c ← live_charge id generation
  unless (is_movable c.state) (fail_accounting "charge cannot be transferred in its current state")
  λ l. move_charge id next_connection_id next_payload_class (lookup id l.charges) l
