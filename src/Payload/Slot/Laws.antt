-- ===== src/Payload/Slot/Laws.antt =====
-- A charge slot after `sync`.
use edge.Prelude.{
  ℕ, Option, arith, none, some, true, ◌≡◌, lookup-insert, lookup, insert, refl, inr, Option-cases,
  inl,
}
use edge.Domain.Exec.{◌>>=◌, Exec}
use edge.Domain.Exec.Keeps.{Keeps, bind-Keeps}
use edge.Domain.Errors.{is_ok, Result-cases}
use edge.Payload.Ledger.{PayloadBudgetLedger, PayloadClass, PayloadCharge}
use edge.Payload.Ledger.Invariant.{Inv}
use edge.Payload.Ledger.Preserved.{release-Inv, resize-Inv, reserve-Inv, commit-Inv}
use edge.Payload.Slot.{
  release, bytes, sync, sync_nonzero, on_ledger, SlotState, commit_or_release, release_from,
  charged,
}
use edge.Domain.Resources.{in_use}
use edge.Payload.Ledger.Opened.{opened}
use edge.Payload.Ledger
use edge.Payload.Ledger.Update
use edge.Payload.Ledger.Release

-- The invariant of the ledger, seen from a slot.
abbrev pub LedgerInv : SlotState → Type 0
LedgerInv s = Inv s.ledger

pub on_ledger-Inv {ℓ} :
    {A : Type ℓ} (m : Exec PayloadBudgetLedger A) → Keeps Inv m → Keeps LedgerInv (on_ledger m)
unfolding on_ledger
on_ledger-Inv m k s v = k s.ledger v

commit_or_release-Inv : (id n g : ℕ) → Keeps Inv (commit_or_release id n g)
unfolding commit_or_release
commit_or_release-Inv id n g l v =
    ground (arith, commit-Inv id n g l v, release-Inv id g (Update.commit id n g l).1)

pub release_from-Inv : (o : Option ℕ) → Keeps LedgerInv (release_from o)
unfolding release_from
release_from-Inv none = λ s v. v
release_from-Inv (some id) =
    bind-Keeps LedgerInv _ _
      (on_ledger-Inv (λ l. Release.release id l.generation l)
        (λ l v. release-Inv id l.generation l v))
      λ _ s v. v

sync_nonzero-Inv :
    (o : Option ℕ) (cls : PayloadClass) (conn n g : ℕ)
    → Keeps LedgerInv (sync_nonzero o cls conn n g)
unfolding sync_nonzero
sync_nonzero-Inv (some id) cls conn n g =
    bind-Keeps LedgerInv _ _ (on_ledger-Inv _ (resize-Inv id n g)) λ _ s v. v
sync_nonzero-Inv none cls conn n g =
    bind-Keeps LedgerInv _ _ (on_ledger-Inv _ (reserve-Inv conn cls n g)) λ id.
      bind-Keeps LedgerInv _ _ (on_ledger-Inv _ (commit_or_release-Inv id n g))
        λ _. bind-Keeps LedgerInv _ _ (λ s v. v) λ _ s v. v

-- `sync` on a ledger that satisfies `Inv` leaves one that does, whatever it returns.
pub sync-Inv :
    (cls : PayloadClass) (conn n : ℕ) (s : SlotState)
    → Inv s.ledger
    → Inv (sync cls conn n s).1.ledger
unfolding sync release ◌>>=◌
sync-Inv cls conn n s v =
    ground (
      arith,
      release_from-Inv s.slot s v,
      sync_nonzero-Inv s.slot cls conn n s.ledger.generation s v,
    )

charged_after_resize :
    (id n g : ℕ) (l : PayloadBudgetLedger)
    → is_ok (Update.resize id n g l).0 ≡ true
    → charged (lookup id (Update.resize id n g l).1.charges) ≡ n
unfolding opened
charged_after_resize id n g l h = elim (Option-cases (lookup id l.charges)) [
  | inl e ↦ ground arith
  | inr (c, e) ↦ ground (arith, lookup-insert id id (record c { charged_bytes = n }) l.charges)
]

charged_after_commit :
    (id n g : ℕ) (l : PayloadBudgetLedger)
    → is_ok (Update.commit id n g l).0 ≡ true
    → charged (lookup id (Update.commit id n g l).1.charges) ≡ n
unfolding opened
charged_after_commit id n g l h = elim (Option-cases (lookup id l.charges)) [
  | inl e ↦ ground arith
  | inr (c, e) ↦
      let d : PayloadCharge = record c { charged_bytes = n } in
      let m = insert id d l.charges in
      ground (
        arith,
        lookup-insert id id d l.charges,
        lookup-insert id id (record d { state = in_use }) m,
      )
]

bytes-sync_nonzero :
    (o : Option ℕ) (cls : PayloadClass) (conn n g : ℕ) (s : SlotState)
    → s.slot ≡ o
    → let (r, t) = sync_nonzero o cls conn n g s in is_ok r ≡ true → bytes t.ledger t.slot ≡ n
unfolding sync_nonzero bytes on_ledger ◌>>=◌ commit_or_release
bytes-sync_nonzero (some id) cls conn n g s e h =
    ground (arith, charged_after_resize id n g s.ledger)
bytes-sync_nonzero none cls conn n g s e h =
    elim (Result-cases (Ledger.reserve conn cls n g s.ledger).0) [
      | inl (id, f) ↦
          ground (arith, f, charged_after_commit id n g (Ledger.reserve conn cls n g s.ledger).1)
      | inr (x, f) ↦ ground (arith, f)
    ]

-- When `sync` succeeds, the slot is charged with exactly the bytes that were asked for.
pub bytes-sync :
    (cls : PayloadClass) (conn n : ℕ) (s : SlotState)
    → is_ok (sync cls conn n s).0 ≡ true
    → let t = (sync cls conn n s).1 in bytes t.ledger t.slot ≡ n
unfolding sync bytes release release_from ◌>>=◌ on_ledger
bytes-sync cls conn n s h =
    ground (arith, bytes-sync_nonzero s.slot cls conn n s.ledger.generation s refl)
