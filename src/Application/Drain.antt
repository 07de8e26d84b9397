-- ===== src/Application/Drain.antt =====
-- crates/edge-application/src/drain.rs: which upstreams of which generation of the configuration still carry
-- connections. A set of leases is the list of its members, the latest first.
pub mod Settled
pub mod Calls
pub mod Leases
use edge.Application.Entries.{Entries, get, put, same_key}
use edge.Domain.Availability.{UpstreamAdministrativeState, UpstreamHealthKey, active, draining}
use edge.Domain.Config.{ConfigSnapshot, Service, Upstream}
use edge.Prelude.{
  Bool, false, true, ℕ, Option, none, some, List, [], ◌∷◌, ◌==◌, ◌&&◌, ◌+◌, any, filter, is_empty,
  if◌then◌else◌, length, not, wrap_u64,
}
use edge.Text.{Text}

-- `(DrainGeneration, UpstreamHealthKey)`
pub record DrainKey : Type 0 where
  pub generation : ℕ
  pub key : UpstreamHealthKey

abbrev pub same_drain_key : DrainKey → DrainKey → Bool
same_drain_key i j = i.generation == j.generation && same_key i.key j.key

pub record DrainReference : Type 0 where
  pub generation : ℕ
  pub key : UpstreamHealthKey
  pub lease_id : ℕ

pub data UpstreamDrainState : Type 0 where
  is_active is_draining is_drained is_removed : UpstreamDrainState

pub record UpstreamDrainStatus : Type 0 where
  pub state : UpstreamDrainState
  pub connection_count : ℕ

pub data DrainAcquireResult : Type 0 where
  acquired : DrainAcquireResult
  not_selectable : UpstreamDrainState → DrainAcquireResult
  unknown_target : DrainAcquireResult

pub data DrainReleaseResult : Type 0 where
  lease_released drain_completed removed_completed : DrainReleaseResult
  unknown_reference underflow : DrainReleaseResult

pub record DrainEntry : Type 0 where
  pub state : UpstreamDrainState
  pub leases : List ℕ

pub record UpstreamDrainTracker : Type 0 where
  pub current_generation : Option ℕ
  pub entries : Entries DrainKey DrainEntry
  pub next_lease_id : ℕ

abbrev pub new_tracker : UpstreamDrainTracker
new_tracker = record { current_generation = none; entries = []; next_lease_id = 0 }

-- `desired`: the pairs are inserted in the order of the snapshot, so a later one replaces an earlier.
unfoldable pub desire_upstreams :
    Text
    → List Upstream
    → Entries UpstreamHealthKey UpstreamAdministrativeState
    → Entries UpstreamHealthKey UpstreamAdministrativeState
desire_upstreams service_id [] desired = desired
desire_upstreams service_id (u ∷ us) desired =
    let key : UpstreamHealthKey = record { service_id = service_id; upstream_id = u.id } in
    desire_upstreams service_id us (put same_key key u.administrative_state desired)

unfoldable pub desire_services :
    List Service
    → Entries UpstreamHealthKey UpstreamAdministrativeState
    → Entries UpstreamHealthKey UpstreamAdministrativeState
unfolding desire_upstreams
desire_services [] desired = desired
desire_services (s ∷ services) desired =
    desire_services services (desire_upstreams s.id s.upstreams desired)

-- `desired.get(key) == Some(&Draining)`
abbrev pub wants_draining : Option UpstreamAdministrativeState → Bool
wants_draining (some draining) = true
wants_draining _ = false

abbrev pub retired_state : Bool → List ℕ → UpstreamDrainState
retired_state true [] = is_drained
retired_state true (_ ∷ _) = is_draining
retired_state false leases = is_removed

-- The entries of the generation that is being replaced.
unfoldable pub retire :
    Entries UpstreamHealthKey UpstreamAdministrativeState
    → ℕ
    → Entries DrainKey DrainEntry
    → Entries DrainKey DrainEntry
retire desired current [] = []
retire desired current ((k, entry) ∷ entries) =
    let retired : DrainEntry = record entry {
      state = retired_state (wants_draining (get same_key k.key desired)) entry.leases;
    } in
    (k, if k.generation == current then retired else entry) ∷ retire desired current entries

abbrev pub fresh_state : UpstreamAdministrativeState → UpstreamDrainState
fresh_state active = is_active
fresh_state draining = is_drained

unfoldable pub install :
    ℕ
    → Entries UpstreamHealthKey UpstreamAdministrativeState
    → Entries DrainKey DrainEntry
    → Entries DrainKey DrainEntry
install generation [] entries = entries
install generation ((key, administrative_state) ∷ desired) entries = install generation desired (
    put same_drain_key (record { generation = generation; key = key })
      (record { state = fresh_state administrative_state; leases = [] }) entries)

abbrev pub retire_current :
    Entries UpstreamHealthKey UpstreamAdministrativeState
    → Option ℕ
    → Entries DrainKey DrainEntry
    → Entries DrainKey DrainEntry
retire_current desired none entries = entries
retire_current desired (some current) entries = retire desired current entries

unfoldable pub reconcile : ConfigSnapshot → ℕ → UpstreamDrainTracker → UpstreamDrainTracker
unfolding desire_services
reconcile snapshot generation t =
    let desired = desire_services snapshot.services [] in
    record t {
      entries = install generation desired (retire_current desired t.current_generation t.entries);
      current_generation = some generation;
    }

unfoldable pub from_snapshot : ConfigSnapshot → ℕ → UpstreamDrainTracker
unfolding reconcile
from_snapshot snapshot generation = reconcile snapshot generation new_tracker

-- `BTreeSet::insert` and `BTreeSet::remove`
abbrev pub has_lease : ℕ → List ℕ → Bool
has_lease n leases = any (λ m. m == n) leases

unfoldable pub add_lease : ℕ → List ℕ → List ℕ
add_lease n leases = if has_lease n leases then leases else n ∷ leases

unfoldable pub remove_lease : ℕ → List ℕ → List ℕ
remove_lease n leases = filter (λ m. not (m == n)) leases

abbrev pub is_current : ℕ → Option ℕ → Bool
is_current generation none = false
is_current generation (some current) = current == generation

-- `acquire`, for the state and the leases of the entry that the map has.
unfoldable pub acquire_in :
    DrainKey
    → UpstreamDrainState
    → List ℕ
    → UpstreamDrainTracker
    → (DrainAcquireResult × Option DrainReference) × UpstreamDrainTracker
unfolding add_lease
acquire_in k is_active leases t = (
  (acquired, some (record { generation = k.generation; key = k.key; lease_id = t.next_lease_id })),
  record t {
    next_lease_id = wrap_u64 (t.next_lease_id + 1);
    entries =
        put same_drain_key k
          (record { state = is_active; leases = add_lease t.next_lease_id leases }) t.entries;
  },
)
acquire_in k state leases t = ((not_selectable state, none), t)

unfoldable pub acquire_entry :
    DrainKey
    → Option DrainEntry
    → UpstreamDrainTracker
    → (DrainAcquireResult × Option DrainReference) × UpstreamDrainTracker
unfolding acquire_in
acquire_entry k none t = ((unknown_target, none), t)
acquire_entry k (some entry) t = acquire_in k entry.state entry.leases t

unfoldable pub acquire :
    ℕ
    → UpstreamHealthKey
    → UpstreamDrainTracker
    → (DrainAcquireResult × Option DrainReference) × UpstreamDrainTracker
unfolding acquire_entry
acquire generation key t =
    let k : DrainKey = record { generation = generation; key = key } in
    if not (is_current generation t.current_generation)
    then ((unknown_target, none), t)
    else acquire_entry k (get same_drain_key k t.entries) t

-- The last lease of an entry is gone.
abbrev pub after_last : UpstreamDrainState → DrainReleaseResult × UpstreamDrainState
after_last is_draining = (drain_completed, is_drained)
after_last is_removed = (removed_completed, is_removed)
after_last is_active = (lease_released, is_active)
after_last is_drained = (lease_released, is_drained)

abbrev pub after_release : UpstreamDrainState → List ℕ → DrainReleaseResult × UpstreamDrainState
after_release state [] = after_last state
after_release state (_ ∷ _) = (lease_released, state)

unfoldable pub release_entry :
    DrainReference
    → Option DrainEntry
    → UpstreamDrainTracker
    → DrainReleaseResult × UpstreamDrainTracker
unfolding remove_lease
release_entry r none t = (unknown_reference, t)
release_entry r (some entry) t =
    let left = remove_lease r.lease_id entry.leases in
    let (answer, state) = after_release entry.state left in
    if not (has_lease r.lease_id entry.leases) then (underflow, t) else (
      answer,
      record t {
        entries =
            put same_drain_key (record { generation = r.generation; key = r.key })
              (record { state = state; leases = left }) t.entries;
      },
    )

unfoldable pub release :
    DrainReference → UpstreamDrainTracker → DrainReleaseResult × UpstreamDrainTracker
unfolding release_entry
release r t =
    release_entry r
      (get same_drain_key (record { generation = r.generation; key = r.key }) t.entries) t

abbrev pub status_of : Option DrainEntry → Option UpstreamDrainStatus
status_of none = none
status_of (some entry) =
    some (record { state = entry.state; connection_count = length entry.leases })

unfoldable pub status : ℕ → UpstreamHealthKey → UpstreamDrainTracker → Option UpstreamDrainStatus
status generation key t =
    status_of (get same_drain_key (record { generation = generation; key = key }) t.entries)
