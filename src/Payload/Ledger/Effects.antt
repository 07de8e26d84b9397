-- ===== src/Payload/Ledger/Effects.antt =====
-- What the calls do to a live charge of a ledger that satisfies its invariant, and when the ledger
-- fails closed.
use edge.Prelude.{
  ℕ, none, ◌≤◌, ◌≢◌, lookup-remove, ◌≡◌, lookup, some, ◌==◌, arith, ◌↔◌, Bool, true, ◌+◌,
  if◌then◌else◌, lookup-insert, u64_max, ◌<◌, refl,
}
use edge.Domain.Errors.{is_ok}
use edge.Domain.Resources.{ResourceChargeState}
use edge.Payload.Ledger.{PayloadBudgetLedger, PayloadCharge, reserve, failed_closed, PayloadClass}
use edge.Payload.Ledger.Calls.{
  fails_allocation, Call, grows, reserves, resizes, releases, commits, transfers,
}
use edge.Payload.Ledger.Invariant.{Inv}
use edge.Payload.Ledger.Opened.{opened}
use edge.Payload.Ledger.Release.{release, release_after_allocation_failure, remove_live_charge}
use edge.Payload.Ledger.Totals.{lookup-IsLive, total-remove}
use edge.Payload.Ledger.Update.{transfer, is_movable, resize, is_granted, commit, grow}

-- In a ledger that satisfies `Inv`, releasing a live charge under the current generation
-- succeeds, gives back exactly its bytes, and removes that charge and no other.
pub release_live :
    (id g : ℕ) (c : PayloadCharge) (l : PayloadBudgetLedger)
    → Inv l
    → lookup id l.charges ≡ some c
    → g ≡ l.generation
    → let l' = (release id g l).1 in
      (is_ok (release id g l).0 ≡ true)
      × (l'.used_bytes + c.charged_bytes ≡ l.used_bytes)
      × ((j : ℕ) → lookup j l'.charges ≡ (if id == j then none else lookup j l.charges))
unfolding opened
release_live id g c l v at e =
    let live = lookup-IsLive l.generation id c l.charges v.live at in
    let sum = total-remove id c l.charges at in
    (
      ground (arith, live, sum, v.sums),
      ground (arith, live, sum, v.sums),
      λ j. ground (arith, live, sum, v.sums, lookup-remove 1 id j l.charges v.ascends),
    )

-- In a ledger that satisfies `Inv`, resizing a live charge to a nonzero size under the current
-- generation succeeds exactly when the new size fits beside the other charges.
pub resize_live_iff :
    (id n g : ℕ) (c : PayloadCharge) (l : PayloadBudgetLedger)
    → Inv l
    → lookup id l.charges ≡ some c
    → g ≡ l.generation
    → 0 < n
    → (is_ok (resize id n g l).0 ≡ true) ↔ (l.used_bytes + n ≤ l.limit_bytes + c.charged_bytes)
unfolding opened
resize_live_iff id n g c l v at e pos =
    let live = lookup-IsLive l.generation id c l.charges v.live at in
    let sum = total-remove id c l.charges at in
    (
      λ h. ground (arith, live, sum, v.sums),
      λ h. ground (arith, live, sum, v.sums, v.below_ceiling),
    )

-- In a ledger that satisfies `Inv`, a successful resize of a live charge moves the usage by the
-- difference of the two sizes, and changes the bytes of that charge alone.
pub resize_live :
    (id n g : ℕ) (c : PayloadCharge) (l : PayloadBudgetLedger)
    → Inv l
    → lookup id l.charges ≡ some c
    → is_ok (resize id n g l).0 ≡ true
    → let l' = (resize id n g l).1 in
      (l'.used_bytes + c.charged_bytes ≡ l.used_bytes + n)
      × ((j : ℕ)
          → lookup j l'.charges
            ≡ (if id == j then some (record c { charged_bytes = n }) else lookup j l.charges))
unfolding opened
resize_live id n g c l v at h =
    let sum = total-remove id c l.charges at in
    (
      ground (arith, sum, v.sums),
      λ j. ground (arith, lookup-insert id j (record c { charged_bytes = n }) l.charges),
    )

-- The charge `id` is live and its state passes the test.
abbrev pub HasCharge : (ResourceChargeState → Bool) → ℕ → PayloadBudgetLedger → Type 0
HasCharge test id l = (c : PayloadCharge) × (lookup id l.charges ≡ some c) × (test c.state ≡ true)

-- What a caller has to keep to: the current generation, live charges, sizes that are not zero.
abbrev pub IsProper : PayloadBudgetLedger → Call → Type 0
IsProper l (reserves conn cls n g) = (g ≡ l.generation) × (0 < n) × (l.next_charge_id < u64_max)
IsProper l (commits id n g) = (g ≡ l.generation) × (0 < n) × HasCharge is_granted id l
IsProper l (resizes id n g) = (g ≡ l.generation) × (0 < n) × HasCharge is_movable id l
IsProper l (grows id n g) = (g ≡ l.generation) × HasCharge is_movable id l
IsProper l (transfers id conn cls g) = (g ≡ l.generation) × HasCharge is_movable id l
IsProper l (releases id g) = (g ≡ l.generation) × HasCharge is_movable id l
IsProper l (fails_allocation id g) = (g ≡ l.generation) × HasCharge is_movable id l

module _ (l : PayloadBudgetLedger) (v : Inv l) (o : l.pressure_state ≢ failed_closed) where
  pub commit_open :
      (id n g : ℕ) (c : PayloadCharge)
      → lookup id l.charges ≡ some c
      → is_granted c.state ≡ true
      → g ≡ l.generation
      → 0 < n
      → (commit id n g l).1.pressure_state ≢ failed_closed
  unfolding opened
  commit_open id n g c at s e pos =
      let live = lookup-IsLive l.generation id c l.charges v.live at in
      let sum = total-remove id c l.charges at in
      ground
        (arith, live, sum, v.sums, lookup-insert id id (record c { charged_bytes = n }) l.charges)

  pub resize_open :
      (id n g : ℕ) (c : PayloadCharge)
      → lookup id l.charges ≡ some c
      → g ≡ l.generation
      → 0 < n
      → (resize id n g l).1.pressure_state ≢ failed_closed
  unfolding opened
  resize_open id n g c at e pos =
      let live = lookup-IsLive l.generation id c l.charges v.live at in
      let sum = total-remove id c l.charges at in ground (arith, live, sum, v.sums)

  pub release_open :
      (id g : ℕ) (c : PayloadCharge)
      → lookup id l.charges ≡ some c
      → g ≡ l.generation
      → ((release id g l).1.pressure_state ≢ failed_closed)
        × ((release_after_allocation_failure id g l).1.pressure_state ≢ failed_closed)
  unfolding opened
  release_open id g c at e =
      let live = lookup-IsLive l.generation id c l.charges v.live at in
      let sum = total-remove id c l.charges at in
      (ground (arith, live, sum, v.sums), ground (arith, live, sum, v.sums))

  pub grow_open :
      (id n g : ℕ) (c : PayloadCharge)
      → lookup id l.charges ≡ some c
      → g ≡ l.generation
      → (grow id n g l).1.pressure_state ≢ failed_closed
  unfolding opened
  grow_open id n g c at e =
      let live = lookup-IsLive l.generation id c l.charges v.live at in
      let sum = total-remove id c l.charges at in ground (arith, live, sum, v.sums)

  pub transfer_open :
      (id conn g : ℕ) (cls : PayloadClass) (c : PayloadCharge)
      → lookup id l.charges ≡ some c
      → g ≡ l.generation
      → (transfer id conn cls g l).1.pressure_state ≢ failed_closed
  unfolding opened
  transfer_open id conn g cls c at e =
      let live = lookup-IsLive l.generation id c l.charges v.live at in ground (arith, live)

  pub reserve_open :
      (conn : ℕ) (cls : PayloadClass) (n g : ℕ)
      → g ≡ l.generation
      → 0 < n
      → l.next_charge_id < u64_max
      → (reserve conn cls n g l).1.pressure_state ≢ failed_closed
  unfolding opened
  reserve_open conn cls n g e pos top = ground arith

-- The terminal state of a charge is not observable, since its entry is removed.
pub release_after_allocation_failure-eq-release :
    (id g : ℕ) (l : PayloadBudgetLedger) → release_after_allocation_failure id g l ≡ release id g l
unfolding release release_after_allocation_failure remove_live_charge
release_after_allocation_failure-eq-release id g l = refl
