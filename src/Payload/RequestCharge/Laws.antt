-- ===== src/Payload/RequestCharge/Laws.antt =====
-- The charge of a request after `grow`.
use edge.Prelude.{
  ℕ, arith, none, some, true, ◌≡◌, ◌+◌, lookup-insert, lookup, inr, Option-cases, inl, Option, refl,
  ap,
}
use edge.Domain.Exec.{◌>>=◌}
use edge.Domain.Errors.{is_ok, Result-cases}
use edge.Payload.Ledger.{PayloadBudgetLedger, PayloadCharge, request}
use edge.Payload.Ledger.Exact.{reserve_grants}
use edge.Payload.Ledger.Opened.{opened}
use edge.Payload.RequestCharge.{grow, grow_slot}
use edge.Payload.Slot.{bytes, on_ledger, SlotState, charged}
use edge.Payload.Ledger
use edge.Payload.Ledger.Update

grown_charge :
    (id n g : ℕ) (l : PayloadBudgetLedger)
    → is_ok (Update.grow id n g l).0 ≡ true
    → charged (lookup id (Update.grow id n g l).1.charges) ≡ charged (lookup id l.charges) + n
unfolding opened
grown_charge id n g l h = elim (Option-cases (lookup id l.charges)) [
  | inl e ↦ ground arith
  | inr (c, e) ↦
      ground
        (arith, lookup-insert id id (record c { charged_bytes = c.charged_bytes + n }) l.charges)
]

grown_slot :
    (o : Option ℕ) (conn n g : ℕ) (s : SlotState)
    → s.slot ≡ o
    → is_ok (grow_slot o conn n g s).0 ≡ true
    → let t = (grow_slot o conn n g s).1 in bytes t.ledger t.slot ≡ bytes s.ledger s.slot + n
unfolding grow_slot bytes on_ledger ◌>>=◌
grown_slot (some id) conn n g s e h = ground (arith, e, grown_charge id n g s.ledger)
grown_slot none conn n g s e h = elim (Result-cases (Ledger.reserve conn request n g s.ledger).0) [
  | inl (id, f) ↦
      let l' = (Ledger.reserve conn request n g s.ledger).1 in
      let (_, _, entries) = reserve_grants conn request n g id s.ledger l' (ap (λ r. (r, l')) f) in
      ground (arith, e, f, entries id)
  | inr (x, f) ↦ absurd (ground (arith, f))
]

-- When `grow` succeeds, the slot is charged with the bytes from before and the additional ones, whether
-- it held a charge or not.
pub bytes-grow :
    (conn n : ℕ) (s : SlotState)
    → is_ok (grow conn n s).0 ≡ true
    → let t = (grow conn n s).1 in bytes t.ledger t.slot ≡ bytes s.ledger s.slot + n
unfolding grow
bytes-grow conn n s h = ground (arith, grown_slot s.slot conn n s.ledger.generation s refl)
