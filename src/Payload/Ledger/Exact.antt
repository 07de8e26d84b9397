-- ===== src/Payload/Ledger/Exact.antt =====
-- What a single call does on the ledger, on success and on error.
use edge.Prelude.{
  ℕ, arith, Option, false, lookup, ◌≡◌, none, some, lookup-insert, if◌then◌else◌, ◌≢◌, inr, ◌↔◌,
  ◌+◌, ◌<◌, true, ◌≤◌, Option-cases, ◌==◌, inl, u64_max,
}
use edge.Domain.Errors.{Result, is_ok, ok}
use edge.Payload.Ledger.{PayloadCharge, reserve, PayloadClass, PayloadBudgetLedger, failed_closed}
use edge.Payload.Ledger.Opened.{opened}
use edge.Payload.Ledger.Release.{release, release_after_allocation_failure}
use edge.Payload.Ledger.Update.{resize, commit, transfer, grow, replace_previous}
use edge.Domain.Resources.{granted}
use edge.Payload.Ledger.Invariant.{Inv}

-- Accounting that a refused call leaves as it was: only the pressure state may differ.
pub record SameBooks (l k : PayloadBudgetLedger) : Type 0 where
  pub same_limit : k.limit_bytes ≡ l.limit_bytes
  pub same_used : k.used_bytes ≡ l.used_bytes
  pub same_generation : k.generation ≡ l.generation
  pub same_next : k.next_charge_id ≡ l.next_charge_id
  pub same_charges : k.charges ≡ l.charges

abbrev pub Refusal {ℓ} :
    {A : Type ℓ} → PayloadBudgetLedger → Result A × PayloadBudgetLedger → Type 0
Refusal l r = is_ok r.0 ≡ false → SameBooks l r.1

pub reserve-Refusal :
    (conn : ℕ) (cls : PayloadClass) (n g : ℕ) (l : PayloadBudgetLedger)
    → Refusal l (reserve conn cls n g l)
unfolding opened
reserve-Refusal conn cls n g l h = ground arith

pub replace_previous-Refusal :
    (id n : ℕ) (o : Option PayloadCharge) (l : PayloadBudgetLedger)
    → lookup id l.charges ≡ o
    → Refusal l (replace_previous id n o l)
unfolding opened
replace_previous-Refusal id n none l e h = ground arith
replace_previous-Refusal id n (some c) l e h = ground arith

pub resize-Refusal : (id n g : ℕ) (l : PayloadBudgetLedger) → Refusal l (resize id n g l)
unfolding opened
resize-Refusal id n g l h = ground arith

pub commit-Refusal : (id n g : ℕ) (l : PayloadBudgetLedger) → Refusal l (commit id n g l)
unfolding opened
commit-Refusal id n g l h = elim (Option-cases (lookup id l.charges)) [
  | inl e ↦ ground arith
  | inr (c, e) ↦ ground (arith, lookup-insert id id (record c { charged_bytes = n }) l.charges)
]

pub grow-Refusal : (id n g : ℕ) (l : PayloadBudgetLedger) → Refusal l (grow id n g l)
unfolding opened
grow-Refusal id n g l h = ground (arith)

pub transfer-Refusal :
    (id conn : ℕ) (cls : PayloadClass) (g : ℕ) (l : PayloadBudgetLedger)
    → Refusal l (transfer id conn cls g l)
unfolding opened
transfer-Refusal id conn cls g l h = ground (arith)

pub release-Refusal : (id g : ℕ) (l : PayloadBudgetLedger) → Refusal l (release id g l)
unfolding opened
release-Refusal id g l h = ground (arith)

pub release_after_allocation_failure-Refusal :
    (id g : ℕ) (l : PayloadBudgetLedger) → Refusal l (release_after_allocation_failure id g l)
unfolding opened
release_after_allocation_failure-Refusal id g l h = ground (arith)

-- In a ledger that satisfies `Inv`, `reserve` succeeds exactly when admission is not failed
-- closed, the generation is current, the request is not empty and fits beside the usage, and an
-- identity is left.
pub reserve_iff :
    (conn : ℕ) (cls : PayloadClass) (n g : ℕ) (l : PayloadBudgetLedger)
    → Inv l
    → ((is_ok (reserve conn cls n g l).0 ≡ true) ↔ (
        (l.pressure_state ≢ failed_closed)
        × (g ≡ l.generation)
        × (0 < n)
        × (l.used_bytes + n ≤ l.limit_bytes)
        × (l.next_charge_id < u64_max)))
unfolding opened
reserve_iff conn cls n g l v = (ground arith, ground arith)

-- A granted reservation is filed under the next identity, adds its bytes to the usage, and leaves
-- every other charge as it was.
pub reserve_grants :
    (conn : ℕ) (cls : PayloadClass) (n g id : ℕ) (l l' : PayloadBudgetLedger)
    → reserve conn cls n g l ≡ (ok id, l')
    → (id ≡ l.next_charge_id)
      × (l'.used_bytes ≡ l.used_bytes + n)
      × ((j : ℕ)
          → lookup j l'.charges ≡ (
              if id == j
              then some (record {
                id = id;
                connection_id = conn;
                payload_class = cls;
                charged_bytes = n;
                generation = l.generation;
                state = granted;
              })
              else lookup j l.charges))
unfolding opened
reserve_grants conn cls n g id l l' h = (
  ground arith,
  ground arith,
  λ j. ground (
    arith,
    lookup-insert l.next_charge_id j
        (record {
          id = l.next_charge_id;
          connection_id = conn;
          payload_class = cls;
          charged_bytes = n;
          generation = l.generation;
          state = granted;
        })
        l.charges,
  ),
)

-- No reservation changes the generation.
pub reserve_generation :
    (conn : ℕ) (cls : PayloadClass) (n g : ℕ) (l : PayloadBudgetLedger)
    → (reserve conn cls n g l).1.generation ≡ l.generation
unfolding opened
reserve_generation conn cls n g l = ground arith

pub resize_limit :
    (id n g : ℕ) (l : PayloadBudgetLedger) → (resize id n g l).1.limit_bytes ≡ l.limit_bytes
unfolding opened
resize_limit id n g l = ground arith
