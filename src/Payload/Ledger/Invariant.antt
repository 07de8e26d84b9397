-- ===== src/Payload/Ledger/Invariant.antt =====
-- What holds of the ledger between two calls.
use edge.Prelude.{
  ℕ, ◌+◌, ◌*◌, ◌/◌, ◌≤◌, ◌<◌, ◌≡◌, some, arith, lookup, insert, remove, Ascends, KeysBelow, u64_max,
  lookup_above, lookup_ge, lookup_lt, insert-Ascends, remove-Ascends, insert-KeysBelow,
  remove-KeysBelow, KeysBelow-weaken,
}
use edge.Domain.Errors.{ok}
use edge.Domain.Resources.{
  RuntimeResourcePolicy, min_max_inflight_payload_bytes, hard_max_inflight_payload_bytes, try_new,
}
use edge.Payload.Ledger.{
  PayloadBudgetLedger, PayloadCharge, normal, pressured, new, refresh_pressure_after_usage_change,
}
use edge.Payload.Ledger.Totals.{
  total, IsLive, AllLive, total-insert_fresh, total-insert_at, total-remove, insert-AllLive,
  remove-AllLive,
}
use edge.Payload.Slot.{bytes}

-- The books balance, within the limits of a valid policy.
pub record Accounts (l : PayloadBudgetLedger) : Type 0 where
  pub sums : l.used_bytes ≡ total l.charges
  pub within : l.used_bytes ≤ l.limit_bytes
  pub above_floor : min_max_inflight_payload_bytes ≤ l.limit_bytes
  pub below_ceiling : l.limit_bytes ≤ hard_max_inflight_payload_bytes
  pub ascends : Ascends 1 l.charges
  pub fresh : KeysBelow l.next_charge_id l.charges
  pub counted : 1 ≤ l.next_charge_id
  pub fits : l.next_charge_id ≤ u64_max
  pub live : AllLive l.generation l.charges

-- `normal` means usage under the high watermark, `pressured` above the low one.
pub record Inv (l : PayloadBudgetLedger) : Type 0 where
  pub accounts : Accounts l
  pub open accounts use *
  pub calm : l.pressure_state ≡ normal → l.used_bytes < l.limit_bytes * 80 / 100
  pub busy : l.pressure_state ≡ pressured → l.limit_bytes * 60 / 100 < l.used_bytes

pub try_new_bounds :
    (connections bytes : ℕ) (p : RuntimeResourcePolicy)
    → try_new connections bytes ≡ ok p
    → (min_max_inflight_payload_bytes ≤ p.max_inflight_payload_bytes)
      × (p.max_inflight_payload_bytes ≤ hard_max_inflight_payload_bytes)
unfolding try_new
try_new_bounds connections bytes p h = ground arith

pub new-Inv :
    (connections bytes generation : ℕ) (p : RuntimeResourcePolicy)
    → try_new connections bytes ≡ ok p
    → Inv (new p generation)
unfolding new
new-Inv connections bytes generation p h = ground (arith, try_new_bounds connections bytes p h)

pub refresh-Inv :
    (l : PayloadBudgetLedger) → Accounts l → Inv (refresh_pressure_after_usage_change l)
unfolding refresh_pressure_after_usage_change
refresh-Inv l a = ground arith

-- An entry rewritten in place.
pub rewrite-Accounts :
    (l : PayloadBudgetLedger) (id used : ℕ) (c d : PayloadCharge)
    → Accounts l
    → lookup id l.charges ≡ some c
    → IsLive l.generation id d
    → used + c.charged_bytes ≡ l.used_bytes + d.charged_bytes
    → used ≤ l.limit_bytes
    → Accounts (record l { used_bytes = used; charges = insert id d l.charges })
rewrite-Accounts l id used c d a at live sum fit = record {
  sums = omega (arith, total-insert_at 1 id c d l.charges a.ascends at, a.sums);
  within = fit;
  above_floor = a.above_floor;
  below_ceiling = a.below_ceiling;
  ascends = insert-Ascends 1 id d l.charges a.ascends (lookup_ge 1 id c l.charges a.ascends at);
  fresh =
      insert-KeysBelow l.next_charge_id id d l.charges a.fresh
        (lookup_lt l.next_charge_id id c l.charges a.fresh at);
  counted = a.counted;
  fits = a.fits;
  live = insert-AllLive l.generation id d l.charges a.live live;
}

-- A change of state, owner or class that keeps the bytes.
pub relabel-Inv :
    (l : PayloadBudgetLedger) (id : ℕ) (c d : PayloadCharge)
    → Inv l
    → lookup id l.charges ≡ some c
    → IsLive l.generation id d
    → d.charged_bytes ≡ c.charged_bytes
    → Inv (record l { charges = insert id d l.charges })
relabel-Inv l id c d v at live same = record {
  accounts = rewrite-Accounts l id l.used_bytes c d v.accounts at live (omega arith) v.within;
  calm = v.calm;
  busy = v.busy;
}

pub grant-Accounts :
    (l : PayloadBudgetLedger) (used next : ℕ) (c : PayloadCharge)
    → Accounts l
    → IsLive l.generation l.next_charge_id c
    → used ≡ l.used_bytes + c.charged_bytes
    → used ≤ l.limit_bytes
    → next ≡ l.next_charge_id + 1
    → next ≤ u64_max
    → Accounts (record l {
      next_charge_id = next;
      used_bytes = used;
      charges = insert l.next_charge_id c l.charges;
    })
grant-Accounts l used next c a live sum fit e top =
    let id = l.next_charge_id in
    record {
      sums = omega (
        arith,
        total-insert_fresh id c l.charges (lookup_above id id l.charges a.fresh (omega arith)),
        a.sums,
      );
      within = fit;
      above_floor = a.above_floor;
      below_ceiling = a.below_ceiling;
      ascends = insert-Ascends 1 id c l.charges a.ascends a.counted;
      fresh =
          insert-KeysBelow next id c l.charges
            (KeysBelow-weaken id next l.charges (omega arith) a.fresh) (omega arith);
      counted = omega arith;
      fits = top;
      live = insert-AllLive l.generation id c l.charges a.live live;
    }

pub drop-Accounts :
    (l : PayloadBudgetLedger) (id used : ℕ) (c : PayloadCharge)
    → Accounts l
    → lookup id l.charges ≡ some c
    → used + c.charged_bytes ≡ l.used_bytes
    → Accounts (record l { charges = remove id l.charges; used_bytes = used })
drop-Accounts l id used c a at sum = record {
  sums = omega (arith, total-remove id c l.charges at, a.sums);
  within = omega (arith, a.within);
  above_floor = a.above_floor;
  below_ceiling = a.below_ceiling;
  ascends = remove-Ascends 1 id l.charges a.ascends;
  fresh = remove-KeysBelow l.next_charge_id id l.charges a.fresh;
  counted = a.counted;
  fits = a.fits;
  live = remove-AllLive l.generation id l.charges a.live;
}
