-- ===== src/Payload/RetryPair/Laws.antt =====
-- The two reservations of a retry pair are made together or not at all.
use edge.Prelude.{ℕ, lookup_above, some, true, lookup, arith, ◌≡◌, inl, ap, false, inr, subst, refl}
use edge.Domain.Errors.{ok, is_ok, Result-cases}
use edge.Domain.Resources.{granted}
use edge.Payload.Ledger.{
  PayloadClass, PayloadCharge, PayloadBudgetLedger, fail_accounting, retry_replay, upstream_request,
}
use edge.Payload.Ledger.Effects.{release_live}
use edge.Payload.Ledger.Exact.{SameBooks, reserve_grants, reserve_generation, reserve-Refusal}
use edge.Payload.Ledger.Invariant.{Inv}
use edge.Payload.Ledger.Preserved.{reserve-Inv}
use edge.Domain.Exec.{◌>>=◌}
use edge.Payload.RetryPair.{reserve, reserve_replay, with_ledger, PairState}
use edge.Payload.Ledger
use edge.Payload.Ledger.Release

-- The charges and the usage are those of `l`.
pub record SameCharges (l k : PayloadBudgetLedger) : Type 0 where
  pub usage : k.used_bytes ≡ l.used_bytes
  pub entries : (j : ℕ) → lookup j k.charges ≡ lookup j l.charges

-- Releasing the charge that `reserve` has just granted, with a refused call in between, gives back the
-- charges and the usage from before.
pub release-reserve :
    (conn : ℕ) (cls : PayloadClass) (n g id : ℕ) (l m k : PayloadBudgetLedger)
    → Inv l
    → Ledger.reserve conn cls n g l ≡ (ok id, m)
    → SameBooks m k
    → Inv k
    → (is_ok (Release.release id l.generation k).0 ≡ true)
      × SameCharges l (Release.release id l.generation k).1
release-reserve conn cls n g id l m k v e same w =
    let (fresh, usage, entries) = reserve_grants conn cls n g id l m e in
    let c : PayloadCharge = record {
      id = id;
      connection_id = conn;
      payload_class = cls;
      charged_bytes = n;
      generation = l.generation;
      state = granted;
    } in
    let at : lookup id k.charges ≡ some c = ground (arith, entries id, same) in
    let gen : l.generation ≡ k.generation =
      ground (arith, same, reserve_generation conn cls n g l) in
    let (fine, freed, left) = release_live id l.generation c k w at gen in
    (
      fine,
      record {
        usage = omega (arith, same.same_used);
        entries = λ j. ground (
          arith,
          left j,
          entries j,
          same,
          lookup_above l.next_charge_id l.next_charge_id l.charges v.fresh,
        );
      },
    )

reserve_replay_refused :
    (up conn : ℕ) (cls : PayloadClass) (n r g : ℕ) (l m : PayloadBudgetLedger)
    → Inv l
    → g ≡ l.generation
    → Ledger.reserve conn cls n g l ≡ (ok up, m)
    → is_ok (reserve_replay up conn r g m).0 ≡ false
    → SameCharges l (reserve_replay up conn r g m).1
unfolding reserve_replay ◌>>=◌
reserve_replay_refused up conn cls n r g l m v gen e h =
    let replay = Ledger.reserve conn retry_replay r g m in
    let w : Inv m = subst Inv (ap (λ x. x.1) e) (reserve-Inv conn cls n g l v) in
    elim (Result-cases replay.0) [
      | inl (id, f) ↦ ground (arith, f)
      | inr (x, f) ↦
          let back =
            release-reserve conn cls n g up l m replay.1 v e
              (reserve-Refusal conn retry_replay r g m (ground (arith, f)))
              (reserve-Inv conn retry_replay r g m w) in
          ground (arith, f, gen, back)
    ]

-- On a ledger that satisfies `Inv`, when the reservation of the pair is refused, both slots are
-- as they were, and so are the usage and every charge: a first reservation that was granted is
-- released again.
pub reserve_atomic :
    (conn up_bytes replay_bytes : ℕ) (s : PairState)
    → Inv s.ledger
    → is_ok (reserve conn up_bytes replay_bytes s).0 ≡ false
    → let t = (reserve conn up_bytes replay_bytes s).1 in
      (t.upstream_slot ≡ s.upstream_slot)
      × (t.retry_replay_slot ≡ s.retry_replay_slot)
      × SameCharges s.ledger t.ledger
unfolding reserve with_ledger ◌>>=◌ fail_accounting
reserve_atomic conn n r s v h =
    let g = s.ledger.generation in
    let first = Ledger.reserve conn upstream_request n g s.ledger in
    elim (Result-cases first.0) [
      | inl (up, f) ↦
          let replay = reserve_replay up conn r g first.1 in
          elim (Result-cases replay.0) [
            | inl (id, k) ↦ ground (arith, f, k)
            | inr (x, k) ↦ ground (
              arith,
              f,
              k,
              reserve_replay_refused up conn upstream_request n r g s.ledger first.1 v refl
                  (ground (arith, f)) (ground (arith, k)),
            )
          ]
      | inr (x, f) ↦
          ground (arith, f, reserve-Refusal conn upstream_request n g s.ledger (ground (arith, f)))
    ]
