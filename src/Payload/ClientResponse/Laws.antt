-- ===== src/Payload/ClientResponse/Laws.antt =====
-- Rolling back a prepared change of a client response.
use edge.Prelude.{ℕ, ◌≡◌, true, some, refl, arith, lookup, inr, Option, Option-cases, none, inl}
use edge.Domain.Exec.{◌>>=◌}
use edge.Domain.Errors.{ok, is_ok, Result-cases}
use edge.Payload.ClientResponse.{ClientResponseChargeChange, prepare_slot, prepare, rollback, undo}
use edge.Payload.Ledger.{PayloadCharge, PayloadBudgetLedger, ResourceChargeId, client_response}
use edge.Payload.Ledger.Effects.{
  resize_live, resize_live_iff, release_after_allocation_failure-eq-release,
}
use edge.Payload.Ledger.Exact.{resize_limit, reserve_generation, SameBooks}
use edge.Payload.Ledger.Invariant.{Inv}
use edge.Payload.Ledger.Preserved.{resize-Inv, reserve-Inv}
use edge.Payload.Ledger.Totals.{lookup-IsLive}
use edge.Payload.RetryPair.Laws.{SameCharges, release-reserve}
use edge.Payload.Slot.{on_ledger, SlotState}
use edge.Payload.Ledger
use edge.Payload.Ledger.Update

-- Growing a live charge and resizing it back gives the ledger's charges and usage from before.
pub resize_back :
    (id n : ℕ) (c : PayloadCharge) (l : PayloadBudgetLedger)
    → Inv l
    → lookup id l.charges ≡ some c
    → is_ok (Update.resize id n l.generation l).0 ≡ true
    → let m = (Update.resize id n l.generation l).1 in
      let k = (Update.resize id c.charged_bytes m.generation m) in
      (is_ok k.0 ≡ true) × SameCharges l k.1
resize_back id n c l v at h =
    let m = (Update.resize id n l.generation l).1 in
    let w : Inv m = resize-Inv id n l.generation l v in
    let live = lookup-IsLive l.generation id c l.charges v.live at in
    let d : PayloadCharge = record c { charged_bytes = n } in
    let (moved, entries) = resize_live id n l.generation c l v at h in
    let at' : lookup id m.charges ≡ some d = ground (arith, entries id) in
    let same : m.limit_bytes ≡ l.limit_bytes = resize_limit id n l.generation l in
    let fine : is_ok (Update.resize id c.charged_bytes m.generation m).0 ≡ true =
      (resize_live_iff id c.charged_bytes m.generation d m w at' refl live.nonzero).1
        (omega (arith, v.within)) in
    let (moved', entries') = resize_live id c.charged_bytes m.generation d m w at' fine in
    (fine, record { usage = omega arith; entries = λ j. ground (arith, entries' j, entries j, at) })

abbrev RollsBack : SlotState → SlotState → ClientResponseChargeChange → Type 0
RollsBack s t change =
    let (r, u) = rollback change t in
    (is_ok r ≡ true) × (u.slot ≡ s.slot) × SameCharges s.ledger u.ledger

rollback_installed :
    (conn n id : ℕ) (l : PayloadBudgetLedger) (t : SlotState) (change : ClientResponseChargeChange)
    → Inv l
    → prepare_slot (some id) conn n l.generation (record { slot = some id; ledger = l })
      ≡ (ok change, t)
    → RollsBack (record { slot = some id; ledger = l }) t change
unfolding prepare_slot rollback undo on_ledger ◌>>=◌
rollback_installed conn n id l t change v e =
    let resized = Update.resize id n l.generation l in
    elim (Option-cases (lookup id l.charges)) [
      | inl f ↦ ground (arith, f)
      | inr (c, f) ↦ elim (Result-cases resized.0) [
        | inl (x, g) ↦ ground (arith, f, g, resize_back id n c l v f (ground (arith, g)))
        | inr (x, g) ↦ ground (arith, f, g)
      ]
    ]

rollback_new :
    (conn n : ℕ) (l : PayloadBudgetLedger) (t : SlotState) (change : ClientResponseChargeChange)
    → Inv l
    → prepare_slot none conn n l.generation (record { slot = none; ledger = l }) ≡ (ok change, t)
    → RollsBack (record { slot = none; ledger = l }) t change
unfolding prepare_slot rollback undo on_ledger ◌>>=◌
rollback_new conn n l t change v e =
    let reserved = Ledger.reserve conn client_response n l.generation l in
    elim (Result-cases reserved.0) [
      | inl (id, g) ↦
          let m = reserved.1 in
          let same : SameBooks m m = record {
            same_limit = refl;
            same_used = refl;
            same_generation = refl;
            same_next = refl;
            same_charges = refl;
          } in
          let back =
            release-reserve conn client_response n l.generation id l m m v (ground (arith, g)) same
              (reserve-Inv conn client_response n l.generation l v) in
          ground (
            arith,
            g,
            back,
            reserve_generation conn client_response n l.generation l,
            release_after_allocation_failure-eq-release id l.generation m,
          )
      | inr (x, g) ↦ ground (arith, g)
    ]

rollback_cases :
    (conn n : ℕ) (o : Option ResourceChargeId) (l : PayloadBudgetLedger) (t : SlotState)
    (change : ClientResponseChargeChange)
    → Inv l
    → prepare_slot o conn n l.generation (record { slot = o; ledger = l }) ≡ (ok change, t)
    → RollsBack (record { slot = o; ledger = l }) t change
rollback_cases conn n (some id) l t change v e = rollback_installed conn n id l t change v e
rollback_cases conn n none l t change v e = rollback_new conn n l t change v e

-- On a ledger that satisfies `Inv`, a change that was prepared can be rolled back: the rollback
-- succeeds, the slot is the one from before `prepare`, and so are the usage and every charge of
-- the ledger.
pub rollback-prepare :
    (conn n : ℕ) (s t : SlotState) (change : ClientResponseChargeChange)
    → Inv s.ledger
    → prepare conn n s ≡ (ok change, t)
    → let (r, u) = rollback change t in
      (is_ok r ≡ true) × (u.slot ≡ s.slot) × SameCharges s.ledger u.ledger
unfolding prepare
rollback-prepare conn n s t change v e = rollback_cases conn n s.slot s.ledger t change v e
