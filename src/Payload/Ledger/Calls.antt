-- ===== src/Payload/Ledger/Calls.antt =====
-- The calls of the ledger as one type, and what holds after any history of them.
use edge.Prelude.{ℕ, [], ◌≡◌, List, ◌∷◌}
use edge.Domain.Exec.{Exec, ◌>>=◌, pure}
use edge.Domain.Exec.Keeps.{Keeps, bind-Keeps}
use edge.Payload.Ledger.{PayloadBudgetLedger, PayloadClass, new, reserve}
use edge.Domain.Errors.{ok}
use edge.Domain.Resources.{try_new, RuntimeResourcePolicy}
use edge.Payload.Ledger.Invariant.{Inv, new-Inv}
use edge.Payload.Ledger.Preserved.{
  grow-Inv, transfer-Inv, release-Inv, resize-Inv, reserve-Inv,
  release_after_allocation_failure-Inv, commit-Inv,
}
use edge.Payload.Ledger.Release.{release, release_after_allocation_failure}
use edge.Payload.Ledger.Update.{grow, commit, transfer, resize}
use edge.Payload.Slot.{bytes}

pub data Call : Type 0 where
  reserves : (connection_id : ℕ) → PayloadClass → (bytes generation : ℕ) → Call
  commits resizes grows : (id bytes generation : ℕ) → Call
  transfers : (id connection_id : ℕ) → PayloadClass → (generation : ℕ) → Call
  releases fails_allocation : (id generation : ℕ) → Call

unfoldable pub step : Call → Exec PayloadBudgetLedger (Unit {0})
step (reserves conn cls n g) = do id ← reserve conn cls n g; pure tt
step (commits id n g) = commit id n g
step (resizes id n g) = resize id n g
step (grows id n g) = grow id n g
step (transfers id conn cls g) = transfer id conn cls g
step (releases id g) = release id g
step (fails_allocation id g) = release_after_allocation_failure id g

unfoldable pub run : PayloadBudgetLedger → List Call → PayloadBudgetLedger
run l [] = l
run l (c ∷ cs) = run (step c l).1 cs

-- Every call, whatever it returns, keeps the invariant.
pub step-Inv : (c : Call) → Keeps Inv (step c)
unfolding step
step-Inv (reserves conn cls n g) = bind-Keeps Inv _ _ (reserve-Inv conn cls n g) λ _ l v. v
step-Inv (commits id n g) = commit-Inv id n g
step-Inv (resizes id n g) = resize-Inv id n g
step-Inv (grows id n g) = grow-Inv id n g
step-Inv (transfers id conn cls g) = transfer-Inv id conn cls g
step-Inv (releases id g) = release-Inv id g
step-Inv (fails_allocation id g) = release_after_allocation_failure-Inv id g

run-Inv : (l : PayloadBudgetLedger) (cs : List Call) → Inv l → Inv (run l cs)
unfolding run
run-Inv l [] v = v
run-Inv l (c ∷ cs) v = run-Inv (step c l).1 cs (step-Inv c l v)

-- A ledger made for a policy that `try_new` accepts satisfies `Inv` after any list of calls, refused
-- ones included: `used_bytes` is the sum of the charged bytes of the live charges and stays within
-- the limit, identities ascend below `next_charge_id`, every charge is filed under its own identity
-- with nonzero bytes, the generation of the ledger and a state that can move, `normal` means
-- usage below the high watermark and `pressured` usage above the low one.
pub run-new-Inv :
    (connections bytes generation : ℕ) (p : RuntimeResourcePolicy) (cs : List Call)
    → try_new connections bytes ≡ ok p
    → Inv (run (new p generation) cs)
run-new-Inv connections bytes generation p cs h =
    run-Inv (new p generation) cs (new-Inv connections bytes generation p h)
