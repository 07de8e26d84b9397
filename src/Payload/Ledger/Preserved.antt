-- ===== src/Payload/Ledger/Preserved.antt =====
-- Every call keeps the invariant of the ledger.
use edge.Prelude.{
  ℕ, ◌+◌, ◌<◌, ◌≡◌, refl, Option, none, some, arith, lookup, insert, remove, ◌==◌, inl, inr, ◌⊎◌,
  ◌-◌, checked_add, String, not, ◌||◌, checked_sub, Bool-cases,
}
use edge.Domain.Errors.{AppError, ok, err}
use edge.Domain.Exec.{◌>>=◌}
use edge.Domain.Exec.Keeps.{Keeps, bind-Keeps, unless-Keeps, if-Keeps}
use edge.Domain.Resources.{ResourceChargeState, granted, is_terminal}
use edge.Payload.Ledger.{
  PayloadBudgetLedger, PayloadCharge, PayloadClass, failed_closed, reserve, require_generation,
  live_charge, check_live, reserve_within, grant, fail_accounting, resource_accounting_error,
}
use edge.Payload.Ledger.Totals.{lookup-IsLive}
use edge.Payload.Ledger.Invariant.{
  rewrite-Accounts, grant-Accounts, refresh-Inv, relabel-Inv, drop-Accounts, Inv,
}
use edge.Payload.Ledger.Release.{
  release, release_after_allocation_failure, take_charge, drop_charge, remove_live_charge,
}
use edge.Payload.Ledger.Update.{
  grow, move_charge, resize, replace_previous, commit, replace_charge_bytes, transfer, grow_to,
  store_bytes, mark_in_use, swap_bytes,
}

pub fail_accounting-Inv : (message : String) → Keeps Inv (fail_accounting {A = Unit {0}} message)
unfolding fail_accounting
fail_accounting-Inv message l v = ground arith

pub require_generation-Inv : (g : ℕ) → Keeps Inv (require_generation g)
unfolding require_generation
require_generation-Inv g l v = ground arith

pub live_charge-Inv : (id g : ℕ) → Keeps Inv (live_charge id g)
unfolding live_charge check_live
live_charge-Inv id g l v = ground arith

pub replace_previous-Inv :
    (id n : ℕ) (o : Option PayloadCharge) (l : PayloadBudgetLedger)
    → lookup id l.charges ≡ o
    → 0 < n
    → Inv l
    → Inv (replace_previous id n o l).1
unfolding replace_previous swap_bytes store_bytes fail_accounting
replace_previous-Inv id n none l at pos v = ground arith
replace_previous-Inv id n (some c) l at pos v = ground (
  arith,
  at,
  lookup-IsLive l.generation id c l.charges v.live at,
  refresh-Inv (record l {
    used_bytes = l.used_bytes - c.charged_bytes + n;
    charges = insert id (record c { charged_bytes = n }) l.charges;
  }),
  rewrite-Accounts l id (l.used_bytes - c.charged_bytes + n) c (record c { charged_bytes = n })
      v.accounts at,
)

pub replace_charge_bytes-Inv : (id n : ℕ) → Keeps Inv (replace_charge_bytes id n)
unfolding replace_charge_bytes fail_accounting
replace_charge_bytes-Inv id n l v =
    ground (arith, replace_previous-Inv id n (lookup id l.charges) l refl)

pub mark_in_use-Inv :
    (id : ℕ) (o : Option PayloadCharge) (l : PayloadBudgetLedger)
    → lookup id l.charges ≡ o
    → Inv l
    → Inv (mark_in_use id o l).1
unfolding mark_in_use fail_accounting
mark_in_use-Inv id none l at v = ground arith
mark_in_use-Inv id (some c) l at v =
    let e = lookup-IsLive l.generation id c l.charges v.live at in
    relabel-Inv l id c _ v at
      (record { own_id = e.own_id; nonzero = e.nonzero; current = e.current; open_state = refl })
      refl

pub move_charge-Inv :
    (id conn : ℕ) (cls : PayloadClass) (o : Option PayloadCharge) (l : PayloadBudgetLedger)
    → lookup id l.charges ≡ o
    → Inv l
    → Inv (move_charge id conn cls o l).1
unfolding move_charge fail_accounting
move_charge-Inv id conn cls none l at v = ground arith
move_charge-Inv id conn cls (some c) l at v =
    let e = lookup-IsLive l.generation id c l.charges v.live at in
    relabel-Inv l id c _ v at
      (record { own_id = e.own_id; nonzero = e.nonzero; current = e.current; open_state = refl })
      refl

pub commit-Inv : (id n g : ℕ) → Keeps Inv (commit id n g)
unfolding commit
commit-Inv id n g = bind-Keeps Inv _ _ (require_generation-Inv g) λ _.
    bind-Keeps Inv _ _ (live_charge-Inv id g) λ c.
      bind-Keeps Inv _ _ (unless-Keeps Inv _ _ (fail_accounting-Inv _)) λ _.
        bind-Keeps Inv _ _ (replace_charge_bytes-Inv id n)
          λ _ l. mark_in_use-Inv id (lookup id l.charges) l refl

pub resize-Inv : (id n g : ℕ) → Keeps Inv (resize id n g)
unfolding resize
resize-Inv id n g = bind-Keeps Inv _ _ (require_generation-Inv g) λ _.
    bind-Keeps Inv _ _ (live_charge-Inv id g) λ c.
      bind-Keeps Inv _ _ (unless-Keeps Inv _ _ (fail_accounting-Inv _))
        λ _. replace_charge_bytes-Inv id n

pub grow_to-Inv : (id g : ℕ) (o : Option ℕ) → Keeps Inv (grow_to id g o)
unfolding grow_to
grow_to-Inv id g none l v = ground arith
grow_to-Inv id g (some n) l v = resize-Inv id n g l v

pub grow-Inv : (id n g : ℕ) → Keeps Inv (grow id n g)
unfolding grow
grow-Inv id n g = bind-Keeps Inv _ _ (require_generation-Inv g) λ _.
    if-Keeps Inv (n == 0) _ _ (λ l v. v)
      (bind-Keeps Inv _ _ (live_charge-Inv id g) λ c. grow_to-Inv id g _)

pub transfer-Inv : (id conn : ℕ) (cls : PayloadClass) (g : ℕ) → Keeps Inv (transfer id conn cls g)
unfolding transfer
transfer-Inv id conn cls g = bind-Keeps Inv _ _ (require_generation-Inv g) λ _.
    bind-Keeps Inv _ _ (live_charge-Inv id g) λ c.
      bind-Keeps Inv _ _ (unless-Keeps Inv _ _ (fail_accounting-Inv _))
        λ _ l. move_charge-Inv id conn cls (lookup id l.charges) l refl

pub reserve_within-Inv :
    (conn : ℕ) (cls : PayloadClass) (n : ℕ) (l : PayloadBudgetLedger)
    → 0 < n
    → Inv l
    → Inv (reserve_within conn cls n l.generation (checked_add l.used_bytes n) l).1
unfolding reserve_within grant
reserve_within-Inv conn cls n l pos v =
    let c : PayloadCharge = record {
      id = l.next_charge_id;
      connection_id = conn;
      payload_class = cls;
      charged_bytes = n;
      generation = l.generation;
      state = granted;
    } in
    ground (
      arith,
      grant-Accounts l (l.used_bytes + n) (l.next_charge_id + 1) c v.accounts,
      refresh-Inv (record l {
        next_charge_id = l.next_charge_id + 1;
        used_bytes = l.used_bytes + n;
        charges = insert l.next_charge_id c l.charges;
      }),
    )

pub reserve-Inv : (conn : ℕ) (cls : PayloadClass) (n g : ℕ) → Keeps Inv (reserve conn cls n g)
unfolding reserve ◌>>=◌ require_generation fail_accounting
reserve-Inv conn cls n g l v = ground (arith, reserve_within-Inv conn cls n l)

pub take_charge-Inv :
    (id : ℕ) (c : PayloadCharge) (l : PayloadBudgetLedger)
    → lookup id l.charges ≡ some c
    → Inv l
    → Inv (take_charge id c (checked_sub l.used_bytes c.charged_bytes) l).1
unfolding take_charge drop_charge fail_accounting
take_charge-Inv id c l at v = ground (
  arith,
  at,
  drop-Accounts l id (l.used_bytes - c.charged_bytes) c v.accounts at,
  refresh-Inv
      (record l { charges = remove id l.charges; used_bytes = l.used_bytes - c.charged_bytes }),
)

pub check_live_cases :
    (g : ℕ) (o : Option PayloadCharge) (l : PayloadBudgetLedger)
    → ((c : PayloadCharge) × (o ≡ some c) × (check_live g o l ≡ (ok c, l)))
      ⊎ ((e : AppError) × (check_live g o l ≡ (err e, record l { pressure_state = failed_closed })))
unfolding check_live fail_accounting
check_live_cases g none l = inr (_, refl)
check_live_cases g (some c) l = elim (Bool-cases (not (c.generation == g) || is_terminal c.state)) [
  | inl bad ↦ inr (resource_accounting_error "resource charge identity is invalid", rw bad)
  | inr fine ↦ inl (c, refl, rw fine)
]

pub remove_live_charge-Inv :
    (id g : ℕ) (s : ResourceChargeState) → Keeps Inv (remove_live_charge id g s)
unfolding remove_live_charge live_charge ◌>>=◌
remove_live_charge-Inv id g s l v = elim (check_live_cases g (lookup id l.charges) l) [
  | inl (c, at, e) ↦ rw e (take_charge-Inv id c l at v)
  | inr (x, e) ↦ rw e (ground arith)
]

pub release-Inv : (id g : ℕ) → Keeps Inv (release id g)
unfolding release
release-Inv id g =
    bind-Keeps Inv _ _ (require_generation-Inv g)
      λ _. bind-Keeps Inv _ _ (remove_live_charge-Inv id g _) λ _ l v. v

pub release_after_allocation_failure-Inv :
    (id g : ℕ) → Keeps Inv (release_after_allocation_failure id g)
unfolding release_after_allocation_failure
release_after_allocation_failure-Inv id g =
    bind-Keeps Inv _ _ (require_generation-Inv g)
      λ _. bind-Keeps Inv _ _ (remove_live_charge-Inv id g _) λ _ l v. v
