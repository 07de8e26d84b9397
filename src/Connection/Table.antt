-- ===== src/Connection/Table.antt =====
-- crates/edge-core/src/connection_table.rs: the connections by their tokens.
use edge.Prelude.{
  ℕ, Table, lookup, remove, some, Bool, Option, Ascends, ◌<◌, refl, true, arith, any, none, suc,
  remove-Ascends, false, lookup-remove, [], ◌∙◌, List, if◌then◌else◌, ◌==◌, ◌∷◌, ◌≡◌,
}
use edge.Connection.State.{Connection, closed, failed}

abbrev pub is_removable : Connection → Bool
is_removable c = elim c.state [ closed ↦ true | failed ↦ true | _ ↦ false ]

-- The keys that the filter of `cleanup_closed` collects, and their removal one by one.
unfoldable pub removable : Table Connection → List ℕ
removable [] = []
removable ((token, c) ∷ entries) =
    if is_removable c then token ∷ removable entries else removable entries

unfoldable pub remove_each : List ℕ → Table Connection → Table Connection
remove_each [] entries = entries
remove_each (token ∷ tokens) entries = remove_each tokens (remove token entries)

unfoldable pub cleanup_closed : Table Connection → List ℕ × Table Connection
cleanup_closed entries = let tokens = removable entries in (tokens, remove_each tokens entries)

abbrev has : ℕ → List ℕ → Bool
has n ks = any (λ k. k == n) ks

abbrev pub kept : Option Connection → Option Connection
kept none = none
kept (some c) = if is_removable c then none else some c

removable-above :
    (lo n : ℕ) (entries : Table Connection)
    → Ascends lo entries
    → n < lo
    → has n (removable entries) ≡ false
unfolding removable
removable-above lo n [] a h = refl
removable-above lo n ((token, c) ∷ entries) a h =
    ground (arith, removable-above (suc token) n entries a.1)

has-removable :
    (lo n : ℕ) (entries : Table Connection)
    → Ascends lo entries
    → (if has n (removable entries) then none else lookup n entries) ≡ kept (lookup n entries)
unfolding removable lookup
has-removable lo n [] a = refl
has-removable lo n ((token, c) ∷ entries) a =
    ground
      (arith, has-removable (suc token) n entries a.1, removable-above (suc token) n entries a.1)

lookup-remove_each :
    (n : ℕ) (tokens : List ℕ) (entries : Table Connection)
    → Ascends 0 entries
    → lookup n (remove_each tokens entries) ≡ (if has n tokens then none else lookup n entries)
unfolding remove_each
lookup-remove_each n [] entries a = refl
lookup-remove_each n (token ∷ tokens) entries a = ground (
  arith,
  lookup-remove_each n tokens (remove token entries) (remove-Ascends 0 token entries a),
  lookup-remove 0 token n entries a,
)

-- In a table in key order, `cleanup_closed` takes out exactly the connections that are closed or failed
-- and leaves each other connection under its token.
pub lookup-cleanup_closed :
    (n : ℕ) (entries : Table Connection)
    → Ascends 0 entries
    → lookup n (cleanup_closed entries).1 ≡ kept (lookup n entries)
unfolding cleanup_closed
lookup-cleanup_closed n entries a =
    lookup-remove_each n (removable entries) entries a ∙ has-removable 0 n entries a
