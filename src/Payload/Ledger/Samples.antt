-- ===== src/Payload/Ledger/Samples.antt =====
-- Runs of the ledger on concrete values.
use edge.Prelude.{ℕ, ◌≡◌, refl, lookup, insert, remove}
use edge.Domain.Errors.{ok}
use edge.Domain.Exec.{Exec, ◌>>=◌, ◌>>◌, pure}
use edge.Domain.Resources.{default_policy}
use edge.Payload.Ledger.{PayloadBudgetLedger, request, pressured, new, reserve}
use edge.Payload.Ledger.Release.{release}
use edge.Payload.Ledger.Update.{grow, commit}
use edge.Payload.Ledger.Opened.{opened}

script : Exec PayloadBudgetLedger ℕ
script = do
  a ← reserve 7 request 100 1
  b ← reserve 7 request 120000000 1
  commit a 50 1
  grow a 25 1
  release a 1
  pure b

script_runs : (script (new default_policy 1)).0 ≡ ok 2
unfolding script opened lookup insert remove
script_runs = refl

script_usage :
    let l = (script (new default_policy 1)).1 in
    (l.used_bytes ≡ 120000000) × (l.pressure_state ≡ pressured)
unfolding script opened lookup insert remove
script_usage = (refl, refl)
