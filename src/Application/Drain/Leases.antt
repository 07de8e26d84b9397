-- ===== src/Application/Drain/Leases.antt =====
-- A lease that is released again.
use edge.Application.Drain.{
  DrainEntry, DrainKey, DrainReference, UpstreamDrainState, UpstreamDrainTracker, acquire,
  acquire_entry, acquire_in, acquired, add_lease, after_release, has_lease, is_active, is_current,
  is_drained, is_draining, is_removed, lease_released, release, release_entry, remove_lease,
  same_drain_key, status, status_of,
}
use edge.Application.Drain.Settled.{same_drain_key_iff}
use edge.Application.Entries.{Entries, get, get-put, get-put_other, put}
use edge.Domain.Availability.{UpstreamHealthKey}
use edge.Prelude.{
  Bool, Bool-cases, false, true, ℕ, Option, none, some, List, [], ◌∷◌, ◌≡◌, ◌∙◌, ap, arith, inl,
  inr, refl, sym,
}

-- Removing a lease that is not there, and the one just added.
remove_lease-absent :
    (n : ℕ) (leases : List ℕ) → has_lease n leases ≡ false → remove_lease n leases ≡ leases
unfolding remove_lease
remove_lease-absent n [] h = refl
remove_lease-absent n (m ∷ leases) h =
    let rest : remove_lease n leases ≡ leases = remove_lease-absent n leases (ground (arith, h)) in
    ground (arith, h, rest)

remove_lease-added :
    (n : ℕ) (leases : List ℕ) → has_lease n leases ≡ false → remove_lease n (n ∷ leases) ≡ leases
unfolding remove_lease
remove_lease-added n leases h = ground (arith, remove_lease-absent n leases h)

after_release-active : (left : List ℕ) → after_release is_active left ≡ (lease_released, is_active)
after_release-active [] = refl
after_release-active (x ∷ xs) = refl

abbrev reference_to : DrainKey → UpstreamDrainTracker → DrainReference
reference_to k t = record { generation = k.generation; key = k.key; lease_id = t.next_lease_id }

abbrev leased : DrainKey → List ℕ → UpstreamDrainTracker → UpstreamDrainTracker
leased k leases t = (acquire_in k is_active leases t).1

abbrev active_with : List ℕ → DrainEntry
active_with leases = record { state = is_active; leases = leases }

release_entry-active :
    (r : DrainReference) (leases : List ℕ) (t : UpstreamDrainTracker)
    → has_lease r.lease_id leases ≡ false
    → release_entry r (some (active_with (r.lease_id ∷ leases))) t ≡ (
      lease_released,
      record t {
        entries =
            put same_drain_key
              (record { generation = r.generation; key = r.key })
              (active_with leases)
              t.entries;
      },
    )
unfolding release_entry
release_entry-active r leases t h =
    let held : has_lease r.lease_id (r.lease_id ∷ leases) ≡ true = ground arith in
    rw (held, remove_lease-added r.lease_id leases h, after_release-active leases) refl

-- The entries behind a lease and its release, looked up at any key.
entries_back :
    (k j : DrainKey) (leases : List ℕ) (entry : DrainEntry) (m : Entries DrainKey DrainEntry)
    → get same_drain_key k m ≡ some (active_with leases)
    → get same_drain_key j
        (put same_drain_key k (active_with leases) (put same_drain_key k entry m))
      ≡ get same_drain_key j m
entries_back k j leases entry m h = elim (Bool-cases (same_drain_key k j)) [
  | inl e ↦
      rw (← (same_drain_key_iff k j).0 e)
        (get-put same_drain_key same_drain_key_iff k (active_with leases) _ ∙ sym h)
  | inr e ↦
      get-put_other same_drain_key same_drain_key_iff k j _ _ e
      ∙ get-put_other same_drain_key same_drain_key_iff k j _ _ e
]

IsBack : DrainReference → UpstreamDrainTracker → UpstreamDrainTracker → Type 0
IsBack r t t' =
    ((release r t').0 ≡ lease_released)
    × ((j : DrainKey)
        → get same_drain_key j (release r t').1.entries ≡ get same_drain_key j t.entries)

leased-IsBack :
    (k : DrainKey) (leases : List ℕ) (t : UpstreamDrainTracker)
    → get same_drain_key k t.entries ≡ some (active_with leases)
    → has_lease t.next_lease_id leases ≡ false
    → IsBack (reference_to k t) t (leased k leases t)
unfolding IsBack release acquire_in add_lease
leased-IsBack k leases t there fresh =
    let found =
      get-put same_drain_key same_drain_key_iff k (active_with (t.next_lease_id ∷ leases))
        t.entries in
    rw (fresh, found, release_entry-active (reference_to k t) leases _ fresh)
      (refl, λ j. entries_back k j leases _ t.entries there)

acquire_in-acquired :
    (k : DrainKey) (state : UpstreamDrainState) (leases : List ℕ) (t t' : UpstreamDrainTracker)
    (r : DrainReference)
    → acquire_in k state leases t ≡ ((acquired, some r), t')
    → (state ≡ is_active) × (reference_to k t ≡ r) × (leased k leases t ≡ t')
unfolding acquire_in
acquire_in-acquired k is_active leases t t' r h =
    let reference : reference_to k t ≡ r = cc h in
    let after : (acquire_in k is_active leases t).1 ≡ t' = ap (λ p. p.1) h in
    (refl, reference, after)
acquire_in-acquired k is_draining leases t t' r h = cc
acquire_in-acquired k is_drained leases t t' r h = cc
acquire_in-acquired k is_removed leases t t' r h = cc

-- Whether the lease that would be granted next is already held at a key.
abbrev leases_of : Option DrainEntry → List ℕ
leases_of none = []
leases_of (some entry) = entry.leases

abbrev pub next_is_held : ℕ → UpstreamHealthKey → UpstreamDrainTracker → Bool
next_is_held generation key t =
    has_lease t.next_lease_id
      (leases_of (get same_drain_key (record { generation = generation; key = key }) t.entries))

acquire_entry-IsBack :
    (k : DrainKey) (o : Option DrainEntry) (t t' : UpstreamDrainTracker) (r : DrainReference)
    → get same_drain_key k t.entries ≡ o
    → acquire_entry k o t ≡ ((acquired, some r), t')
    → has_lease t.next_lease_id (leases_of o) ≡ false
    → IsBack r t t'
unfolding acquire_entry
acquire_entry-IsBack k none t t' r there h fresh = cc
acquire_entry-IsBack k (some entry) t t' r there h fresh =
    let (state, reference, after) = acquire_in-acquired k entry.state entry.leases t t' r h in
    let as_active : entry ≡ active_with entry.leases = cc state in
    rw (← reference, ← after)
      (leased-IsBack k entry.leases t (there ∙ ap (λ e. some e) as_active) fresh)

acquire-IsBack :
    (generation : ℕ) (key : UpstreamHealthKey) (t t' : UpstreamDrainTracker) (r : DrainReference)
    → acquire generation key t ≡ ((acquired, some r), t')
    → next_is_held generation key t ≡ false
    → IsBack r t t'
unfolding acquire
acquire-IsBack generation key t t' r h fresh =
    elim (Bool-cases (is_current generation t.current_generation)) [
      | inr e ↦ absurd (ground (arith, e, h))
      | inl e ↦
          let k : DrainKey = record { generation = generation; key = key } in
          acquire_entry-IsBack k (get same_drain_key k t.entries) t t' r refl (ground (arith, e, h))
            fresh
    ]

-- A lease that `acquire` granted, under an identity that was not already held at its key, can be
-- released: the answer is `Released`, and the status of every upstream in every generation is what
-- it was before `acquire`.
pub release-acquire :
    (generation : ℕ) (key : UpstreamHealthKey) (t t' : UpstreamDrainTracker) (r : DrainReference)
    → acquire generation key t ≡ ((acquired, some r), t')
    → next_is_held generation key t ≡ false
    → ((release r t').0 ≡ lease_released)
      × ((g : ℕ) (k : UpstreamHealthKey) → status g k (release r t').1 ≡ status g k t)
unfolding IsBack status
release-acquire generation key t t' r h fresh =
    let (answer, back) = acquire-IsBack generation key t t' r h fresh in
    (answer, λ g k. ap status_of (back (record { generation = g; key = k })))
