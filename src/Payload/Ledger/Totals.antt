-- ===== src/Payload/Ledger/Totals.antt =====
-- Sums over the live charges, and what holds of each of them.
use edge.Prelude.{
  ℕ, suc, ◌+◌, ◌<◌, ◌≡◌, none, some, [], ◌∷◌, arith, Table, lookup, insert, remove, Ascends,
  lookup_below, true,
}
use edge.Payload.Ledger.{PayloadCharge}
use edge.Payload.Ledger.Update.{is_movable}

abbrev pub total : Table PayloadCharge → ℕ
total [] = 0
total ((k, c) ∷ m) = c.charged_bytes + total m

-- An entry of the ledger: filed under its own identity, nonzero, of the generation, in a state that can move.
pub record IsLive (generation k : ℕ) (c : PayloadCharge) : Type 0 where
  pub own_id : c.id ≡ k
  pub nonzero : 0 < c.charged_bytes
  pub current : c.generation ≡ generation
  pub open_state : is_movable c.state ≡ true

abbrev pub AllLive : ℕ → Table PayloadCharge → Type 0
AllLive g [] = Unit
AllLive g ((k, c) ∷ m) = IsLive g k c × AllLive g m

pub total-insert_fresh :
    (k : ℕ) (c : PayloadCharge) (m : Table PayloadCharge)
    → lookup k m ≡ none
    → total (insert k c m) ≡ total m + c.charged_bytes
unfolding lookup insert
total-insert_fresh k c [] h = omega arith
total-insert_fresh k c ((j, d) ∷ m) h = ground (arith, total-insert_fresh k c m)

pub total-insert_at :
    (lo k : ℕ) (c d : PayloadCharge) (m : Table PayloadCharge)
    → Ascends lo m
    → lookup k m ≡ some c
    → total (insert k d m) + c.charged_bytes ≡ total m + d.charged_bytes
unfolding lookup insert
total-insert_at lo k c d [] a h = ground arith
total-insert_at lo k c d ((j, e) ∷ m) a h =
    ground (arith, total-insert_at (suc j) k c d m a.1, lookup_below (suc j) k m a.1)

pub total-remove :
    (k : ℕ) (c : PayloadCharge) (m : Table PayloadCharge)
    → lookup k m ≡ some c
    → total (remove k m) + c.charged_bytes ≡ total m
unfolding lookup remove
total-remove k c [] h = ground arith
total-remove k c ((j, e) ∷ m) h = ground (arith, total-remove k c m)

pub insert-AllLive :
    (g k : ℕ) (c : PayloadCharge) (m : Table PayloadCharge)
    → AllLive g m
    → IsLive g k c
    → AllLive g (insert k c m)
unfolding insert
insert-AllLive g k c [] a h = (h, tt)
insert-AllLive g k c ((j, e) ∷ m) a h = ground (arith, insert-AllLive g k c m a.1 h)

pub remove-AllLive : (g k : ℕ) (m : Table PayloadCharge) → AllLive g m → AllLive g (remove k m)
unfolding remove
remove-AllLive g k [] a = tt
remove-AllLive g k ((j, e) ∷ m) a = ground (arith, remove-AllLive g k m a.1)

pub lookup-IsLive :
    (g k : ℕ) (c : PayloadCharge) (m : Table PayloadCharge)
    → AllLive g m
    → lookup k m ≡ some c
    → IsLive g k c
unfolding lookup
lookup-IsLive g k c [] a h = ground arith
lookup-IsLive g k c ((j, e) ∷ m) a h = ground (arith, lookup-IsLive g k c m a.1)
