-- ===== src/Application/Drain/Settled.antt =====
-- What every entry of a drain tracker is like, after any calls.
use edge.Application.Drain.{
  DrainEntry, DrainKey, UpstreamDrainState, UpstreamDrainTracker, fresh_state, install, is_active,
  is_current, is_drained, is_draining, is_removed, reconcile, retire, retire_current, retired_state,
  same_drain_key, wants_draining,
}
use edge.Application.Entries.{Entries, all-put, get, same_key, same_key_iff}
use edge.Domain.Availability.{UpstreamAdministrativeState, UpstreamHealthKey, active, draining}
use edge.Domain.Config.{ConfigSnapshot}
use edge.Prelude.{
  Bool, Bool-cases, false, true, ℕ, Option, none, some, List, [], ◌∷◌, ◌==◌, ◌≡◌, ◌↔◌, ==_iff, all,
  ap, arith, inl, inr, is_empty, not, refl,
}

pub same_drain_key_iff : (i j : DrainKey) → (same_drain_key i j ≡ true) ↔ (i ≡ j)
same_drain_key_iff i j = (
  λ h.
      let generation : i.generation ≡ j.generation =
        (==_iff i.generation j.generation).0 (ground (arith, h)) in
      let key : i.key ≡ j.key = (same_key_iff i.key j.key).0 (ground (arith, h)) in
      cc (generation, key),
  λ e.
      let generation : (i.generation == j.generation) ≡ true =
        (==_iff i.generation j.generation).1 (ap (λ k. k.generation) e) in
      let key : same_key i.key j.key ≡ true = (same_key_iff i.key j.key).1 (ap (λ k. k.key) e) in
      ground (arith, generation, key),
)

-- An active entry is of the current generation, a drained one has no lease, a draining one has some.
abbrev pub settled_state : Bool → UpstreamDrainState → List ℕ → Bool
settled_state now is_active leases = now
settled_state now is_drained leases = is_empty leases
settled_state now is_draining leases = not (is_empty leases)
settled_state now is_removed leases = true

abbrev pub settled_in : Option ℕ → DrainKey × DrainEntry → Bool
settled_in current (k, entry) =
    settled_state (is_current k.generation current) entry.state entry.leases

abbrev pub IsSettled : UpstreamDrainTracker → Type 0
IsSettled t = all (settled_in t.current_generation) t.entries ≡ true

-- A state that does not depend on the generation being current.
settled_later :
    (now : Bool) (state : UpstreamDrainState) (leases : List ℕ)
    → settled_state false state leases ≡ true
    → settled_state now state leases ≡ true
settled_later now is_active leases h = cc
settled_later now is_drained leases h = h
settled_later now is_draining leases h = h
settled_later now is_removed leases h = refl

retired_state-settled :
    (wanted now : Bool) (leases : List ℕ)
    → settled_state now (retired_state wanted leases) leases ≡ true
retired_state-settled true now [] = refl
retired_state-settled true now (_ ∷ _) = refl
retired_state-settled false now leases = refl

module _ (desired : Entries UpstreamHealthKey UpstreamAdministrativeState) (next : Option ℕ) where
  retire-settled :
      (current : ℕ) (entries : Entries DrainKey DrainEntry)
      → all (settled_in (some current)) entries ≡ true
      → all (settled_in next) (retire desired current entries) ≡ true
  unfolding retire
  retire-settled current [] h = refl
  retire-settled current ((k, entry) ∷ entries) h =
      let rest : all (settled_in next) (retire desired current entries) ≡ true =
        retire-settled current entries (ground (arith, h)) in
      elim (Bool-cases (k.generation == current)) [
        | inl e ↦ ground (
          arith,
          e,
          rest,
          retired_state-settled (wants_draining (get same_key k.key desired))
              (is_current k.generation next) entry.leases,
        )
        | inr e ↦
            let old : is_current k.generation (some current) ≡ false = ground (arith, e) in
            let before : settled_state false entry.state entry.leases ≡ true =
              ground (arith, h, old) in
            ground (
              arith,
              e,
              rest,
              settled_later (is_current k.generation next) entry.state entry.leases before,
            )
      ]

  retire_current-settled :
      (current : Option ℕ) (entries : Entries DrainKey DrainEntry)
      → all (settled_in current) entries ≡ true
      → all (settled_in next) (retire_current desired current entries) ≡ true
  retire_current-settled none [] h = refl
  retire_current-settled none ((k, entry) ∷ entries) h = ground (
    arith,
    h,
    retire_current-settled none entries (ground (arith, h)),
    settled_later (is_current k.generation next) entry.state entry.leases,
  )
  retire_current-settled (some current) entries h = retire-settled current entries h

fresh_state-settled :
    (a : UpstreamAdministrativeState) → settled_state true (fresh_state a) [] ≡ true
fresh_state-settled active = refl
fresh_state-settled draining = refl

install-settled :
    (generation : ℕ) (desired : Entries UpstreamHealthKey UpstreamAdministrativeState)
    (entries : Entries DrainKey DrainEntry)
    → all (settled_in (some generation)) entries ≡ true
    → all (settled_in (some generation)) (install generation desired entries) ≡ true
unfolding install
install-settled generation [] entries h = h
install-settled generation ((key, a) ∷ desired) entries h =
    let k : DrainKey = record { generation = generation; key = key } in
    let entry : DrainEntry = record { state = fresh_state a; leases = [] } in
    let now : (generation == generation) ≡ true = ground arith in
    let fresh : settled_in (some generation) (k, entry) ≡ true = rw now (fresh_state-settled a) in
    install-settled generation desired _ (
      all-put same_drain_key same_drain_key_iff (settled_in (some generation)) k entry entries fresh
        h)

pub reconcile-IsSettled :
    (snapshot : ConfigSnapshot) (generation : ℕ) (t : UpstreamDrainTracker)
    → IsSettled t
    → IsSettled (reconcile snapshot generation t)
unfolding reconcile
reconcile-IsSettled snapshot generation t h =
    install-settled generation _ _
      (retire_current-settled _ (some generation) t.current_generation t.entries h)
