-- ===== src/Application/Drain/Calls.antt =====
-- Every call keeps the entries of a drain tracker settled.
use edge.Application.Drain.{
  DrainEntry, DrainKey, DrainReference, UpstreamDrainState, UpstreamDrainTracker, acquire,
  acquire_entry, acquire_in, after_release, has_lease, is_active, is_current, is_drained,
  is_draining, is_removed, new_tracker, reconcile, release, release_entry, remove_lease,
  same_drain_key,
}
use edge.Application.Drain.Settled.{
  IsSettled, reconcile-IsSettled, same_drain_key_iff, settled_in, settled_state,
}
use edge.Application.Entries.{all-get, all-put, get}
use edge.Domain.Availability.{UpstreamHealthKey}
use edge.Domain.Config.{ConfigSnapshot}
use edge.Prelude.{Bool, Bool-cases, true, ℕ, Option, none, some, List, [], ◌∷◌, ◌≡◌, inl, inr, refl}

acquire_in-IsSettled :
    (k : DrainKey) (state : UpstreamDrainState) (leases : List ℕ) (t : UpstreamDrainTracker)
    → settled_state (is_current k.generation t.current_generation) state leases ≡ true
    → IsSettled t
    → IsSettled (acquire_in k state leases t).1
unfolding acquire_in
acquire_in-IsSettled k is_active leases t here h =
    all-put same_drain_key same_drain_key_iff (settled_in t.current_generation) k _ t.entries here h
acquire_in-IsSettled k is_draining leases t here h = h
acquire_in-IsSettled k is_drained leases t here h = h
acquire_in-IsSettled k is_removed leases t here h = h

acquire_entry-IsSettled :
    (k : DrainKey) (o : Option DrainEntry) (t : UpstreamDrainTracker)
    → ((entry : DrainEntry) → o ≡ some entry → settled_in t.current_generation (k, entry) ≡ true)
    → IsSettled t
    → IsSettled (acquire_entry k o t).1
unfolding acquire_entry
acquire_entry-IsSettled k none t here h = h
acquire_entry-IsSettled k (some entry) t here h =
    acquire_in-IsSettled k entry.state entry.leases t (here entry refl) h

acquire-IsSettled :
    (generation : ℕ) (key : UpstreamHealthKey) (t : UpstreamDrainTracker)
    → IsSettled t
    → IsSettled (acquire generation key t).1
unfolding acquire
acquire-IsSettled generation key t h =
    elim (Bool-cases (is_current generation t.current_generation)) [
      | inr e ↦ rw e h
      | inl e ↦
          let k : DrainKey = record { generation = generation; key = key } in
          rw e (
            acquire_entry-IsSettled k (get same_drain_key k t.entries) t
              (λ entry found.
                all-get same_drain_key same_drain_key_iff (settled_in t.current_generation) k entry
                  t.entries h found)
              h)
    ]

-- An entry that had a lease is settled with what is left of its leases.
after_release-settled :
    (now : Bool) (n : ℕ) (state : UpstreamDrainState) (leases left : List ℕ)
    → has_lease n leases ≡ true
    → settled_state now state leases ≡ true
    → settled_state now (after_release state left).1 left ≡ true
after_release-settled now n state [] left held h = cc
after_release-settled now n is_active (x ∷ xs) [] held h = h
after_release-settled now n is_active (x ∷ xs) (y ∷ ys) held h = h
after_release-settled now n is_draining (x ∷ xs) [] held h = refl
after_release-settled now n is_draining (x ∷ xs) (y ∷ ys) held h = refl
after_release-settled now n is_drained (x ∷ xs) left held h = cc
after_release-settled now n is_removed (x ∷ xs) [] held h = refl
after_release-settled now n is_removed (x ∷ xs) (y ∷ ys) held h = refl

release_entry-IsSettled :
    (r : DrainReference) (o : Option DrainEntry) (t : UpstreamDrainTracker)
    → ((entry : DrainEntry)
        → o ≡ some entry
        → settled_state (is_current r.generation t.current_generation) entry.state entry.leases
          ≡ true)
    → IsSettled t
    → IsSettled (release_entry r o t).1
unfolding release_entry
release_entry-IsSettled r none t here h = h
release_entry-IsSettled r (some entry) t here h =
    elim (Bool-cases (has_lease r.lease_id entry.leases)) [
      | inr e ↦ rw e h
      | inl e ↦ rw e (
          all-put same_drain_key same_drain_key_iff (settled_in t.current_generation)
            (record { generation = r.generation; key = r.key }) _ t.entries
            (after_release-settled (is_current r.generation t.current_generation) r.lease_id
              entry.state entry.leases (remove_lease r.lease_id entry.leases) e (here entry refl))
            h)
    ]

release-IsSettled :
    (r : DrainReference) (t : UpstreamDrainTracker) → IsSettled t → IsSettled (release r t).1
unfolding release
release-IsSettled r t h =
    let k : DrainKey = record { generation = r.generation; key = r.key } in
    release_entry-IsSettled r (get same_drain_key k t.entries) t
      (λ entry found.
        all-get same_drain_key same_drain_key_iff (settled_in t.current_generation) k entry
          t.entries h found)
      h

pub data DrainCall : Type 0 where
  reconcile_with : ConfigSnapshot → ℕ → DrainCall
  acquire_for : ℕ → UpstreamHealthKey → DrainCall
  release_of : DrainReference → DrainCall

abbrev pub perform : DrainCall → UpstreamDrainTracker → UpstreamDrainTracker
perform (reconcile_with snapshot generation) t = reconcile snapshot generation t
perform (acquire_for generation key) t = (acquire generation key t).1
perform (release_of reference) t = (release reference t).1

-- The tracker behind a list of calls, the first one first.
abbrev pub perform_all : List DrainCall → UpstreamDrainTracker → UpstreamDrainTracker
perform_all [] t = t
perform_all (call ∷ calls) t = perform_all calls (perform call t)

perform-IsSettled :
    (call : DrainCall) (t : UpstreamDrainTracker) → IsSettled t → IsSettled (perform call t)
perform-IsSettled (reconcile_with snapshot generation) t h =
    reconcile-IsSettled snapshot generation t h
perform-IsSettled (acquire_for generation key) t h = acquire-IsSettled generation key t h
perform-IsSettled (release_of reference) t h = release-IsSettled reference t h

perform_all-keeps :
    (calls : List DrainCall) (t : UpstreamDrainTracker)
    → IsSettled t
    → IsSettled (perform_all calls t)
perform_all-keeps [] t h = h
perform_all-keeps (call ∷ calls) t h =
    perform_all-keeps calls (perform call t) (perform-IsSettled call t h)

-- After any list of calls on a new tracker, whatever snapshots, generations, keys and references they
-- carry: every active entry is of the current generation, so that no lease is granted on an
-- earlier one; a drained entry has no lease; a draining entry has at least one.
pub perform_all-IsSettled : (calls : List DrainCall) → IsSettled (perform_all calls new_tracker)
perform_all-IsSettled calls = perform_all-keeps calls new_tracker refl
