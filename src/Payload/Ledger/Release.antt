-- ===== src/Payload/Ledger/Release.antt =====
-- The calls of crates/edge-core/src/payload_budget_ledger.rs that end a charge.
use edge.Prelude.{ℕ, Option, none, some, lookup, remove, checked_sub}
use edge.Domain.Errors.{ok}
use edge.Domain.Exec.{Exec, pure, ◌>>=◌, ◌>>◌}
use edge.Domain.Resources.{ResourceChargeState}
use edge.Payload.Ledger.{
  PayloadBudgetLedger, fail_accounting, ResourceChargeId, refresh_pressure_after_usage_change,
  PayloadCharge, require_generation, live_charge,
}

-- The entry gets its terminal state and is removed at once, so the state is not observable.
unfoldable pub drop_charge :
    ResourceChargeId
    → PayloadCharge
    → ℕ
    → Option PayloadCharge
    → Exec PayloadBudgetLedger PayloadCharge
unfolding fail_accounting refresh_pressure_after_usage_change
drop_charge id c next_used none l = fail_accounting "released resource charge disappeared" l
drop_charge id c next_used (some live) l = (
  ok c,
  refresh_pressure_after_usage_change
      (record l { charges = remove id l.charges; used_bytes = next_used }),
)

unfoldable pub take_charge :
    ResourceChargeId → PayloadCharge → Option ℕ → Exec PayloadBudgetLedger PayloadCharge
unfolding drop_charge fail_accounting
take_charge id c none l = fail_accounting "resource release exceeds current total" l
take_charge id c (some next_used) l = drop_charge id c next_used (lookup id l.charges) l

unfoldable pub remove_live_charge :
    ResourceChargeId → ℕ → ResourceChargeState → Exec PayloadBudgetLedger PayloadCharge
remove_live_charge id generation terminal_state = do
  c ← live_charge id generation
  λ l. take_charge id c (checked_sub l.used_bytes c.charged_bytes) l

unfoldable pub release : ResourceChargeId → ℕ → Exec PayloadBudgetLedger (Unit {0})
release id generation = do
  require_generation generation
  c ← remove_live_charge id generation ResourceChargeState.released
  pure tt

unfoldable pub release_after_allocation_failure :
    ResourceChargeId → ℕ → Exec PayloadBudgetLedger (Unit {0})
release_after_allocation_failure id generation = do
  require_generation generation
  c ← remove_live_charge id generation ResourceChargeState.allocation_failed
  pure tt
