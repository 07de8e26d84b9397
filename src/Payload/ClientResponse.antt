-- ===== src/Payload/ClientResponse.antt =====
-- crates/edge-core/src/client_response_charge_transaction.rs: a client response is charged before it
-- is buffered, and the change is committed or rolled back.
pub mod Laws
use edge.Prelude.{ℕ, ◌==◌, false, is_none, Option, some, if◌then◌else◌, none, lookup, Bool, not}
use edge.Domain.Exec.{Exec, ◌>>=◌, ◌>>◌, pure}
use edge.Domain.Errors.{ok, err, Result}
use edge.Payload.Ledger.{
  PayloadCharge, ResourceChargeId, PayloadBudgetLedger, fail_accounting, client_response,
  resource_accounting_error,
}
use edge.Payload.Slot.{SlotState, set_slot, on_ledger}
use edge.Payload.Ledger
use edge.Payload.Ledger.Update
use edge.Payload.Ledger.Release

pub record ClientResponseChargeChange : Type 0 where
  pub charge_id : ResourceChargeId
  pub previous_bytes : Option ℕ
  pub next_bytes : ℕ

unfoldable pub resize_slot : Option ResourceChargeId → ℕ → ℕ → Exec SlotState (Unit {0})
resize_slot none next_bytes generation =
    on_ledger (fail_accounting "client response charge is not installed")
resize_slot (some id) next_bytes generation =
    if next_bytes == 0
    then (do on_ledger (Release.release id generation); set_slot none)
    else on_ledger (Update.resize id next_bytes generation)

unfoldable pub resize_in_use : ℕ → Exec SlotState (Unit {0})
resize_in_use next_bytes s = resize_slot s.slot next_bytes s.ledger.generation s

-- The bytes of the charge, or the error that leaves the ledger alone.
abbrev pub previous : Option PayloadCharge → Result ℕ
previous none = err (resource_accounting_error "client response charge disappeared")
previous (some c) = ok c.charged_bytes

unfoldable pub prepare_slot :
    Option ResourceChargeId → ℕ → ℕ → ℕ → Exec SlotState ClientResponseChargeChange
prepare_slot (some id) connection_id next_bytes generation = do
  previous_bytes ← λ s. (previous (lookup id s.ledger.charges), s)
  on_ledger (Update.resize id next_bytes generation)
  pure (record { charge_id = id; previous_bytes = some previous_bytes; next_bytes = next_bytes })
prepare_slot none connection_id next_bytes generation = do
  id ← on_ledger (Ledger.reserve connection_id client_response next_bytes generation)
  set_slot (some id)
  pure (record { charge_id = id; previous_bytes = none; next_bytes = next_bytes })

unfoldable pub prepare : ℕ → ℕ → Exec SlotState ClientResponseChargeChange
prepare connection_id next_bytes s =
    prepare_slot s.slot connection_id next_bytes s.ledger.generation s

-- `slot == Some(change.charge_id)`
abbrev pub is_current : Option ResourceChargeId → ResourceChargeId → Bool
is_current none id = false
is_current (some k) id = k == id

unfoldable pub commit :
    Option ResourceChargeId → ClientResponseChargeChange → Exec PayloadBudgetLedger (Unit {0})
commit slot change l =
    if not (is_current slot change.charge_id)
    then fail_accounting "client response change is not current" l
    else if is_none change.previous_bytes
    then Update.commit change.charge_id change.next_bytes l.generation l
    else (ok tt, l)

unfoldable pub undo : Option ℕ → ResourceChargeId → ℕ → Exec SlotState (Unit {0})
undo (some previous_bytes) id generation = on_ledger (Update.resize id previous_bytes generation)
undo none id generation = do
  on_ledger (Release.release_after_allocation_failure id generation)
  set_slot none

unfoldable pub rollback : ClientResponseChargeChange → Exec SlotState (Unit {0})
rollback change s =
    if not (is_current s.slot change.charge_id)
    then on_ledger (fail_accounting "client response rollback is not current") s
    else undo change.previous_bytes change.charge_id s.ledger.generation s
