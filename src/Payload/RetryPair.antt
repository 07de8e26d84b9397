-- ===== src/Payload/RetryPair.antt =====
-- crates/edge-core/src/upstream_retry_charge_pair.rs: the charges of an upstream request and of the
-- copy that is kept for a retry.
pub mod Laws
use edge.Prelude.{ℕ, is_some, ◌||◌, Option, some, if◌then◌else◌, none}
use edge.Domain.Exec.{Exec, ◌>>=◌, ◌>>◌, throw, modify, pure}
use edge.Domain.Errors.{ok, err}
use edge.Payload.Ledger.{
  ResourceChargeId, PayloadBudgetLedger, upstream_request, fail_accounting, retry_replay,
}
use edge.Payload.Ledger
use edge.Payload.Ledger.Update
use edge.Payload.Ledger.Release

pub record PairState : Type 0 where
  pub upstream_slot : Option ResourceChargeId
  pub retry_replay_slot : Option ResourceChargeId
  pub ledger : PayloadBudgetLedger

unfoldable pub with_ledger {ℓ} : {A : Type ℓ} → Exec PayloadBudgetLedger A → Exec PairState A
with_ledger m s = let (r, l) = m s.ledger in (r, record s { ledger = l })

-- The error arm of the second reservation: `ledger.release(upstream, generation)?; Err(error)`.
unfoldable pub reserve_replay :
    ResourceChargeId → ℕ → ℕ → ℕ → Exec PayloadBudgetLedger ResourceChargeId
reserve_replay upstream connection_id retry_replay_bytes generation l =
    let (r, l') = Ledger.reserve connection_id retry_replay retry_replay_bytes generation l in
    elim r [ ok id ↦ (ok id, l') | err e ↦ (do Release.release upstream generation; throw e) l' ]

unfoldable pub reserve : ℕ → ℕ → ℕ → Exec PairState (Unit {0})
reserve connection_id upstream_bytes retry_replay_bytes s =
    let generation = s.ledger.generation in
    if is_some s.upstream_slot || is_some s.retry_replay_slot
    then with_ledger (fail_accounting "upstream payload charges are already installed") s
    else (do
      upstream ←
          with_ledger (Ledger.reserve connection_id upstream_request upstream_bytes generation)
      replay ← with_ledger (reserve_replay upstream connection_id retry_replay_bytes generation)
      modify λ t. record t { upstream_slot = some upstream; retry_replay_slot = some replay })
        s

unfoldable pub commit_pair :
    Option ResourceChargeId
    → Option ResourceChargeId
    → ℕ
    → ℕ
    → ℕ
    → Exec PayloadBudgetLedger (Unit {0})
commit_pair none replay upstream_bytes retry_replay_bytes generation =
    fail_accounting "upstream charge is not installed"
commit_pair (some upstream) none upstream_bytes retry_replay_bytes generation =
    fail_accounting "retry replay charge is not installed"
commit_pair (some upstream) (some replay) upstream_bytes retry_replay_bytes generation = do
  Update.commit upstream upstream_bytes generation
  Update.commit replay retry_replay_bytes generation

unfoldable pub commit :
    Option ResourceChargeId → Option ResourceChargeId → ℕ → ℕ → Exec PayloadBudgetLedger (Unit {0})
commit upstream_slot retry_replay_slot upstream_bytes retry_replay_bytes l =
    commit_pair upstream_slot retry_replay_slot upstream_bytes retry_replay_bytes l.generation l

drop_upstream : Option ResourceChargeId → ℕ → Exec PairState (Unit {0})
drop_upstream none generation = pure tt
drop_upstream (some id) generation = do
  with_ledger (Release.release_after_allocation_failure id generation)
  modify λ s. record s { upstream_slot = none }

drop_replay : Option ResourceChargeId → ℕ → Exec PairState (Unit {0})
drop_replay none generation = pure tt
drop_replay (some id) generation = do
  with_ledger (Release.release id generation)
  modify λ s. record s { retry_replay_slot = none }

pub release_after_allocation_failure : Exec PairState (Unit {0})
release_after_allocation_failure s =
    let generation = s.ledger.generation in
    (do drop_upstream s.upstream_slot generation; drop_replay s.retry_replay_slot generation) s
