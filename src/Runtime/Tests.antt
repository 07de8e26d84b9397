-- ===== src/Runtime/Tests.antt =====
-- The shared bookkeeping on concrete values.
use edge.Prelude.{◌∷◌, [], ℕ}
use edge.Runtime.Commands.{run_queue-InOrder, pushes, pops, fresh_history, InOrder, run_queue}

run_queue-InOrder_example :
    InOrder {A = ℕ} 1 (run_queue (pushes 5 ∷ pushes 6 ∷ pops ∷ []) (fresh_history 1))
run_queue-InOrder_example = run_queue-InOrder 1 (pushes 5 ∷ pushes 6 ∷ pops ∷ [])
