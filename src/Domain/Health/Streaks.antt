-- ===== src/Domain/Health/Streaks.antt =====
-- Active health (crates/edge-domain/src/lib.rs, `transition_upstream_health`) against the history of
-- the checks.
use edge.Prelude.{
  ℕ, false, Bool, arith, leb, suc, ◌∷◌, Option, refl, true, some, [], List, ◌≡◌, none,
  if◌then◌else◌,
}
use edge.Domain.Health.{
  succeeded, failed, healthy_state, unknown_state, HttpHealthCheckPolicy, next_health,
  unhealthy_state, HealthObservation, UpstreamHealthState, transition_upstream_health, for_policy,
}
use edge.Text.{within}

-- The state after a history whose latest check stands first.
abbrev pub state_after : HttpHealthCheckPolicy → List HealthObservation → UpstreamHealthState
state_after p [] = for_policy (some p)
state_after p (o ∷ older) = (transition_upstream_health (state_after p older) o p).0

abbrev agrees : HealthObservation → HealthObservation → Bool
agrees succeeded succeeded = true
agrees failed failed = true
agrees _ _ = false

-- How many of the latest checks had the outcome `o`, without a break.
abbrev pub streak : HealthObservation → List HealthObservation → ℕ
streak o [] = 0
streak o (q ∷ older) = let n = streak o older in if agrees o q then suc n else 0

abbrev threshold : HttpHealthCheckPolicy → HealthObservation → ℕ
threshold p succeeded = p.healthy_threshold
threshold p failed = p.unhealthy_threshold

-- The outcome that last had a streak as long as its threshold.
abbrev pub verdict : HttpHealthCheckPolicy → List HealthObservation → Option HealthObservation
verdict p [] = none
verdict p (o ∷ older) =
    let rest = verdict p older in
    if leb (threshold p o) (streak o (o ∷ older)) then some o else rest

abbrev pub state_of : Option HealthObservation → ℕ → ℕ → UpstreamHealthState
state_of none s f = unknown_state s f
state_of (some succeeded) s f = healthy_state f
state_of (some failed) s f = unhealthy_state s

success_step :
    (p : HttpHealthCheckPolicy) (v : Option HealthObservation) (s f : ℕ)
    → within 1 10 p.healthy_threshold ≡ true
    → next_health (state_of v s f) succeeded p
      ≡ state_of (if leb p.healthy_threshold (suc s) then some succeeded else v) (suc s) 0
unfolding next_health
success_step p none s f w = ground arith
success_step p (some succeeded) s f w = ground arith
success_step p (some failed) s f w = ground arith

failure_step :
    (p : HttpHealthCheckPolicy) (v : Option HealthObservation) (s f : ℕ)
    → within 1 10 p.unhealthy_threshold ≡ true
    → next_health (state_of v s f) failed p
      ≡ state_of (if leb p.unhealthy_threshold (suc f) then some failed else v) 0 (suc f)
unfolding next_health
failure_step p none s f w = ground arith
failure_step p (some succeeded) s f w = ground arith
failure_step p (some failed) s f w = ground arith

-- With thresholds from 1 to 10, the state after a history of checks is the one that the latest streak
-- as long as its threshold says, with the lengths of the streaks that still run.
pub state_after_lem :
    (p : HttpHealthCheckPolicy) (history : List HealthObservation)
    → within 1 10 p.healthy_threshold ≡ true
    → within 1 10 p.unhealthy_threshold ≡ true
    → state_after p history
      ≡ state_of (verdict p history) (streak succeeded history) (streak failed history)
unfolding transition_upstream_health
state_after_lem p [] w v = refl
state_after_lem p (succeeded ∷ older) w v =
    rw (state_after_lem p older w v)
      (success_step p (verdict p older) (streak succeeded older) (streak failed older) w)
state_after_lem p (failed ∷ older) w v =
    rw (state_after_lem p older w v)
      (failure_step p (verdict p older) (streak succeeded older) (streak failed older) v)
