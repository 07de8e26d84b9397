-- ===== src/Payload/Slot.antt =====
-- crates/edge-core/src/payload_charge_slot.rs and tls_pending_payload_charge.rs: one charge of a
-- connection, behind `&mut Option<ResourceChargeId>` and the ledger.
pub mod Laws
use edge.Prelude.{ℕ, ◌==◌, false, Option, some, if◌then◌else◌, true, none, lookup, Bool}
use edge.Domain.Exec.{Exec, ◌>>=◌, ◌>>◌, modify, pure}
use edge.Domain.Errors.{ok, err}
use edge.Payload.Ledger.{
  PayloadCharge, tls_pending, ResourceChargeId, PayloadBudgetLedger, PayloadClass,
}
use edge.Payload.Ledger
use edge.Payload.Ledger.Update
use edge.Payload.Ledger.Release

pub record SlotState : Type 0 where
  pub slot : Option ResourceChargeId
  pub ledger : PayloadBudgetLedger

-- A call of the ledger.
unfoldable pub on_ledger {ℓ} : {A : Type ℓ} → Exec PayloadBudgetLedger A → Exec SlotState A
on_ledger m s = let (r, l) = m s.ledger in (r, record s { ledger = l })

abbrev pub set_slot : Option ResourceChargeId → Exec SlotState (Unit {0})
set_slot o = modify λ s. record s { slot = o }

abbrev pub charged : Option PayloadCharge → ℕ
charged none = 0
charged (some c) = c.charged_bytes

unfoldable pub bytes : PayloadBudgetLedger → Option ResourceChargeId → ℕ
bytes l none = 0
bytes l (some id) = charged (lookup id l.charges)

unfoldable pub release_from : Option ResourceChargeId → Exec SlotState (Unit {0})
release_from none = pure tt
release_from (some id) = do on_ledger (λ l. Release.release id l.generation l); set_slot none

unfoldable pub release : Exec SlotState (Unit {0})
release s = release_from s.slot s

-- `if let Err(error) = ledger.commit(..) { let _ = ledger.release(..); return Err(error); }`
unfoldable pub commit_or_release : ResourceChargeId → ℕ → ℕ → Exec PayloadBudgetLedger (Unit {0})
commit_or_release id n generation l =
    let (r, l') = Update.commit id n generation l in
    elim r [ ok x ↦ (ok x, l') | err e ↦ (err e, (Release.release id generation l').1) ]

unfoldable pub sync_nonzero :
    Option ResourceChargeId → PayloadClass → ℕ → ℕ → ℕ → Exec SlotState Bool
sync_nonzero (some id) payload_class connection_id next_bytes generation = do
  on_ledger (Update.resize id next_bytes generation)
  pure true
sync_nonzero none payload_class connection_id next_bytes generation = do
  id ← on_ledger (Ledger.reserve connection_id payload_class next_bytes generation)
  on_ledger (commit_or_release id next_bytes generation)
  set_slot (some id)
  pure true

unfoldable pub sync : PayloadClass → ℕ → ℕ → Exec SlotState Bool
sync payload_class connection_id next_bytes s =
    if bytes s.ledger s.slot == next_bytes
    then (ok false, s)
    else if next_bytes == 0
    then (do release; pure true) s
    else sync_nonzero s.slot payload_class connection_id next_bytes s.ledger.generation s

unfoldable pub sync_tls_pending : ℕ → ℕ → Exec SlotState Bool
sync_tls_pending connection_id next_bytes = sync tls_pending connection_id next_bytes
