-- ===== src/Payload/Ledger/Closing.antt =====
-- When the ledger fails closed, and what leads out of that state.
use edge.Prelude.{
  ℕ, ◌⊎◌, ◌≢◌, ◌≡◌, arith, lookup-insert, ◌≤◌, ◌+◌, inr, ◌<◌, inl, some, ◌/◌, lookup, Option-cases,
  ◌*◌, false, u64_max,
}
use edge.Domain.Errors.{is_ok}
use edge.Payload.Ledger.{PayloadBudgetLedger, failed_closed, PayloadCharge, exhausted, normal}
use edge.Payload.Ledger.Calls.{
  fails_allocation, Call, grows, reserves, resizes, releases, step, commits, transfers,
}
use edge.Payload.Ledger.Effects.{
  IsProper, transfer_open, resize_open, grow_open, release_open, reserve_open, commit_open,
}
use edge.Domain.Exec.{◌>>=◌}
use edge.Payload.Ledger.Exact.{
  SameBooks, grow-Refusal, release-Refusal, resize-Refusal, reserve-Refusal,
  release_after_allocation_failure-Refusal, commit-Refusal, transfer-Refusal,
}
use edge.Payload.Ledger.Invariant.{Inv}
use edge.Payload.Ledger.Opened.{opened}
use edge.Payload.Ledger.Update.{resize}
use edge.Payload.Ledger.Release.{release}
use edge.Payload.Ledger.Totals.{total-remove, lookup-IsLive}

-- A ledger that satisfies `Inv` and has not failed closed stays so under every proper call: one
-- with the current generation, with a nonzero size where a reservation, a commit or a resize asks
-- for one, on a live charge whose state allows the call, and for a reservation with an identity
-- left.
pub proper_stays_open :
    (l : PayloadBudgetLedger) (c : Call)
    → Inv l
    → l.pressure_state ≢ failed_closed
    → IsProper l c
    → (step c l).1.pressure_state ≢ failed_closed
unfolding step ◌>>=◌
proper_stays_open l (reserves conn cls n g) v o (e, pos, top) =
    ground (arith, reserve_open l v o conn cls n g e pos top)
proper_stays_open l (commits id n g) v o (e, pos, (c, at, s)) =
    commit_open l v o id n g c at s e pos
proper_stays_open l (resizes id n g) v o (e, pos, (c, at, s)) = resize_open l v o id n g c at e pos
proper_stays_open l (grows id n g) v o (e, (c, at, s)) = grow_open l v o id n g c at e
proper_stays_open l (transfers id conn cls g) v o (e, (c, at, s)) =
    transfer_open l v o id conn g cls c at e
proper_stays_open l (releases id g) v o (e, (c, at, s)) = (release_open l v o id g c at e).0
proper_stays_open l (fails_allocation id g) v o (e, (c, at, s)) = (release_open l v o id g c at e).1

-- A call that is refused leaves the accounts as they were: limit, usage, generation, next identity and
-- charges. Only the pressure state may change.
pub refused_step :
    (l : PayloadBudgetLedger) (c : Call) → is_ok (step c l).0 ≡ false → SameBooks l (step c l).1
unfolding step ◌>>=◌
refused_step l (reserves conn cls n g) h = ground (arith, reserve-Refusal conn cls n g l)
refused_step l (commits id n g) h = commit-Refusal id n g l h
refused_step l (resizes id n g) h = resize-Refusal id n g l h
refused_step l (grows id n g) h = grow-Refusal id n g l h
refused_step l (transfers id conn cls g) h = transfer-Refusal id conn cls g l h
refused_step l (releases id g) h = release-Refusal id g l h
refused_step l (fails_allocation id g) h = release_after_allocation_failure-Refusal id g l h

-- The calls that ask for another size of a charge.
abbrev pub ChangesSize : Call → Type 0
ChangesSize (commits id n g) = Unit
ChangesSize (resizes id n g) = Unit
ChangesSize (grows id n g) = Unit
ChangesSize _ = ⊥

-- From a ledger that has failed closed, no call but a commit, a resize or a growth leaves that state,
-- and those leave it only when they are refused, for `exhausted`.
pub closed_step :
    (l : PayloadBudgetLedger) (c : Call)
    → l.pressure_state ≡ failed_closed
    → let (r, l') = step c l in
      (l'.pressure_state ≡ failed_closed)
      ⊎ ((is_ok r ≡ false) × (l'.pressure_state ≡ exhausted) × ChangesSize c)
unfolding step opened
closed_step l (reserves conn cls n g) h = ground arith
closed_step l (commits id n g) h = elim (Option-cases (lookup id l.charges)) [
  | inl e ↦ ground arith
  | inr (c, e) ↦ ground (arith, lookup-insert id id (record c { charged_bytes = n }) l.charges)
]
closed_step l (resizes id n g) h = ground arith
closed_step l (grows id n g) h = ground arith
closed_step l (transfers id conn cls g) h = ground arith
closed_step l (releases id g) h = ground arith
closed_step l (fails_allocation id g) h = ground arith

-- A ledger that satisfies `Inv` and has failed closed does not stay closed: if a live charge is
-- resized under the current generation to a nonzero size beyond the limit (and below 2^64 in
-- total), the ledger turns `exhausted`; and if the usage without that charge is at most the low
-- watermark, releasing the charge then turns it `normal`.
pub resize_reopens :
    (l : PayloadBudgetLedger) (id n : ℕ) (c : PayloadCharge)
    → Inv l
    → l.pressure_state ≡ failed_closed
    → lookup id l.charges ≡ some c
    → 0 < n
    → l.limit_bytes + c.charged_bytes < l.used_bytes + n
    → l.used_bytes + n ≤ u64_max
    → l.used_bytes ≤ l.limit_bytes * 60 / 100 + c.charged_bytes
    → let l' = (resize id n l.generation l).1 in
      (l'.pressure_state ≡ exhausted) × ((release id l.generation l').1.pressure_state ≡ normal)
unfolding opened
resize_reopens l id n c v h at pos over fits low =
    let live = lookup-IsLive l.generation id c l.charges v.live at in
    let sum = total-remove id c l.charges at in ground (arith, live, sum, v.sums, v.below_ceiling)
