-- ===== src/Domain/Upstreams/Members.antt =====
-- What `select_upstream` selects is one of the service's upstreams.
use edge.Domain.Availability.{UpstreamAvailability}
use edge.Domain.Config.{Service, Upstream}
use edge.Domain.Upstreams.{
  health_enabled, may_select, nth, select_eligible, select_upstream, selected,
}
use edge.Prelude.{
  false, true, ℕ, List, [], ◌∷◌, ◌+◌, ◌%◌, ◌≡◌, Memᴰ, Option, filter, filter-Mem, is_empty, length,
  refl, suc, wrap_u64, zero,
}
use edge.Text.{Text}

nth-Mem : (x : Upstream) (xs : List Upstream) (n : ℕ) → Memᴰ (nth x xs n) (x ∷ xs)
nth-Mem x [] n = Memᴰ.head refl
nth-Mem x (y ∷ ys) zero = Memᴰ.head refl
nth-Mem x (y ∷ ys) (suc n) = Memᴰ.tail (nth-Mem y ys n)

pub select_eligible-Mem :
    (us : List Upstream) (sequence : ℕ)
    → is_empty us ≡ false
    → (u : Upstream) × Memᴰ u us
      × (select_eligible us sequence ≡ selected u.id (wrap_u64 (sequence + 1)))
unfolding select_eligible
select_eligible-Mem [] sequence h = cc
select_eligible-Mem (x ∷ xs) sequence h =
    let n = sequence % length (x ∷ xs) in (nth x xs n, nth-Mem x xs n, refl)

select_eligible-selected :
    (us : List Upstream) (sequence next : ℕ) (id : Text)
    → select_eligible us sequence ≡ selected id next
    → (u : Upstream) × Memᴰ u us × (u.id ≡ id)
unfolding select_eligible
select_eligible-selected [] sequence next id h = cc
select_eligible-selected (x ∷ xs) sequence next id h =
    let n = sequence % length (x ∷ xs) in (nth x xs n, nth-Mem x xs n, cc h)

pub select_upstream-selected :
    (service : Service) (known : Text → Option UpstreamAvailability) (sequence next : ℕ) (id : Text)
    → select_upstream service known sequence ≡ selected id next
    → (u : Upstream) × Memᴰ u service.upstreams
      × (may_select (health_enabled service) known u ≡ true)
      × (u.id ≡ id)
unfolding select_upstream
select_upstream-selected service known sequence next id h =
    let p = may_select (health_enabled service) known in
    let (u, kept, same) =
      select_eligible-selected (filter p service.upstreams) sequence next id h in
    let (inside, allowed) = filter-Mem p u service.upstreams kept in (u, inside, allowed, same)
