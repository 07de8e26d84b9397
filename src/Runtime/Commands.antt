-- ===== src/Runtime/Commands.antt =====
-- crates/edge-core/src/command_queue.rs: the bounded queue of commands, over any type of commands.
use mathlib.Core.List.{append_assoc}
use edge.Prelude.{
  ℕ, none, ◌≤◌, leb, [], if◌then◌else◌, some, length-append, ◌≡◌, ◌∷◌, length, List, Option, refl,
  ◌++◌, arith, ◌⊎◌, inl, inr,
}

pub data QueueError : Type 0 where
  full : QueueError

pub record BoundedCommandQueue {ℓ} (A : Type ℓ) : Type ℓ where
  pub capacity : ℕ
  pub queue : List A

pub data QueueCall {ℓ} (A : Type ℓ) : Type ℓ where
  pushes : A → QueueCall A
  pops : QueueCall A

-- A run, with the commands that were taken in and those that were given out.
pub record History {ℓ} (A : Type ℓ) : Type ℓ where
  pub held : BoundedCommandQueue A
  pub taken : List A
  pub given : List A

module _ {ℓ} {A : Type ℓ} where
  unfoldable pub new_queue : ℕ → BoundedCommandQueue A
  new_queue capacity = record { capacity = capacity; queue = [] }

  unfoldable pub push : A → BoundedCommandQueue A → Option QueueError × BoundedCommandQueue A
  push command q =
      if leb q.capacity (length q.queue)
      then (some full, q)
      else (none, record q { queue = q.queue ++ (command ∷ []) })

  abbrev pub pop_front : List A → Option A × List A
  pop_front [] = (none, [])
  pop_front (x ∷ xs) = (some x, xs)

  unfoldable pub pop : BoundedCommandQueue A → Option A × BoundedCommandQueue A
  pop q = let (front, rest) = pop_front q.queue in (front, record q { queue = rest })

  abbrev pub note_push : A → Option QueueError × BoundedCommandQueue A → History A → History A
  note_push x (none, q) h = record { held = q; taken = h.taken ++ (x ∷ []); given = h.given }
  note_push x (some _, q) h = record h { held = q }

  abbrev pub note_pop : Option A × BoundedCommandQueue A → History A → History A
  note_pop (some x, q) h = record { held = q; taken = h.taken; given = h.given ++ (x ∷ []) }
  note_pop (none, q) h = record h { held = q }

  unfoldable pub advance_history : QueueCall A → History A → History A
  advance_history (pushes x) h = note_push x (push x h.held) h
  advance_history pops h = note_pop (pop h.held) h

  unfoldable pub run_queue : List (QueueCall A) → History A → History A
  run_queue [] h = h
  run_queue (c ∷ cs) h = run_queue cs (advance_history c h)

  abbrev pub fresh_history : ℕ → History A
  fresh_history capacity = record { held = new_queue capacity; taken = []; given = [] }

  pub record InOrder (capacity : ℕ) (h : History A) : Type ℓ where
    pub fifo : h.given ++ h.held.queue ≡ h.taken
    pub bounded : length h.held.queue ≤ h.held.capacity
    pub fixed : h.held.capacity ≡ capacity

  push-InOrder :
      (capacity : ℕ) (x : A) (h : History A)
      → InOrder capacity h
      → InOrder capacity (advance_history (pushes x) h)
  unfolding advance_history push
  push-InOrder capacity x h i = record {
    fifo = ground (arith, i.fifo, append_assoc h.given h.held.queue (x ∷ []));
    bounded = ground (arith, i.bounded, length-append h.held.queue (x ∷ []));
    fixed = ground (arith, i.fixed);
  }

  front_cases : (xs : List A) → (xs ≡ []) ⊎ ((x : A) × (ys : List A) × (xs ≡ x ∷ ys))
  front_cases [] = inl refl
  front_cases (x ∷ xs) = inr (x, xs, refl)

  pop-InOrder :
      (capacity : ℕ) (h : History A)
      → InOrder capacity h
      → InOrder capacity (advance_history pops h)
  unfolding advance_history pop
  pop-InOrder capacity h i = record {
    fifo = elim (front_cases h.held.queue) [
      | inl e ↦ ground (arith, i.fifo, e)
      | inr (x, xs, e) ↦ ground (arith, i.fifo, e, append_assoc h.given (x ∷ []) xs)
    ];
    bounded = ground (arith, i.bounded);
    fixed = ground (arith, i.fixed);
  }

  run-InOrder :
      (capacity : ℕ) (cs : List (QueueCall A)) (h : History A)
      → InOrder capacity h
      → InOrder capacity (run_queue cs h)
  unfolding run_queue
  run-InOrder capacity [] h i = i
  run-InOrder capacity (pushes x ∷ cs) h i = run-InOrder capacity cs _ (push-InOrder capacity x h i)
  run-InOrder capacity (pops ∷ cs) h i = run-InOrder capacity cs _ (pop-InOrder capacity h i)

  -- Whatever is pushed and popped on a new queue, in any order: the commands given out, followed by those
  -- still held, are the commands taken in, in their order, and the queue never holds more than its
  -- capacity.
  pub run_queue-InOrder :
      (capacity : ℕ) (cs : List (QueueCall A))
      → InOrder capacity (run_queue cs (fresh_history capacity))
  unfolding new_queue
  run_queue-InOrder capacity cs =
      run-InOrder capacity cs _ (record { fifo = refl; bounded = ground arith; fixed = refl })
