-- ===== src/Payload/RequestCharge.antt =====
-- crates/edge-core/src/request_payload_charge.rs: the charge of a request that is being read.
pub mod Laws
use edge.Prelude.{ℕ, ◌==◌, Option, some, if◌then◌else◌, none}
use edge.Domain.Exec.{Exec, ◌>>=◌}
use edge.Domain.Errors.{ok}
use edge.Payload.Ledger.{ResourceChargeId, request}
use edge.Payload.Slot.{SlotState, set_slot, on_ledger}
use edge.Payload.Ledger
use edge.Payload.Ledger.Update

unfoldable pub grow_slot : Option ResourceChargeId → ℕ → ℕ → ℕ → Exec SlotState (Unit {0})
grow_slot (some id) connection_id additional_bytes generation =
    on_ledger (Update.grow id additional_bytes generation)
grow_slot none connection_id additional_bytes generation = do
  id ← on_ledger (Ledger.reserve connection_id request additional_bytes generation)
  set_slot (some id)

unfoldable pub grow : ℕ → ℕ → Exec SlotState (Unit {0})
grow connection_id additional_bytes s =
    if additional_bytes == 0
    then (ok tt, s)
    else grow_slot s.slot connection_id additional_bytes s.ledger.generation s
