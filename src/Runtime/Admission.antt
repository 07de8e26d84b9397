-- ===== src/Runtime/Admission.antt =====
-- crates/edge-core/src/resource_admission_policy.rs: admission under pressure.
use edge.Prelude.{ℕ, leb, if◌then◌else◌, ◌↔◌, ◌≡◌, not, true, false, arith, ◌||◌, ◌<◌, Bool}
use edge.Payload.Ledger.{ResourcePressureState, normal, pressured, exhausted, failed_closed}
use edge.Connection.State.{ConnectionState, reading_upstream_response}

pub data ConnectionAdmissionDecision : Type 0 where
  accepted rejected_connection_limit : ConnectionAdmissionDecision
  rejected_payload_pressure rejected_failed_closed : ConnectionAdmissionDecision

unfoldable pub connection_admission_decision :
    ResourcePressureState → ℕ → ℕ → ConnectionAdmissionDecision
connection_admission_decision failed_closed active_connections max_connections =
    rejected_failed_closed
connection_admission_decision pressured active_connections max_connections =
    rejected_payload_pressure
connection_admission_decision exhausted active_connections max_connections =
    rejected_payload_pressure
connection_admission_decision normal active_connections max_connections =
    if leb max_connections active_connections then rejected_connection_limit else accepted

pub data ResponseReadInterestAction : Type 0 where
  keep pause resume : ResponseReadInterestAction

abbrev is_reading_response : ConnectionState → Bool
is_reading_response reading_upstream_response = true
is_reading_response _ = false

abbrev is_normal : ResourcePressureState → Bool
is_normal normal = true
is_normal _ = false

abbrev read_must_pause : ResourcePressureState → ℕ → ℕ → Bool
read_must_pause pressure_state buffered most = not (is_normal pressure_state) || leb most buffered

abbrev interest_action : Bool → Bool → ResponseReadInterestAction
interest_action true true = pause
interest_action false false = resume
interest_action _ _ = keep

unfoldable pub response_read_interest_action :
    ResourcePressureState → ConnectionState → Bool → ℕ → ℕ → ResponseReadInterestAction
response_read_interest_action pressure_state connection_state upstream_registered
      buffered_client_output_bytes max_response_buffer_bytes =
    if not (is_reading_response connection_state)
    then keep
    else interest_action upstream_registered
        (read_must_pause pressure_state buffered_client_output_bytes max_response_buffer_bytes)

-- The registration that an action leaves behind.
abbrev pub registered_after : ResponseReadInterestAction → Bool → Bool
registered_after keep registered = registered
registered_after pause registered = false
registered_after resume registered = true

-- While a response is read, carrying out the action leaves the upstream registered for reading exactly
-- when the pressure is normal and the buffered output is below the limit, and with nothing else changed
-- the next action is to keep that.
pub action_settles :
    (p : ResourcePressureState) (registered : Bool) (buffered most : ℕ)
    → let next =
        registered_after
          (response_read_interest_action p reading_upstream_response registered buffered most)
          registered in
      ((next ≡ true) ↔ ((p ≡ normal) × (buffered < most)))
      × (response_read_interest_action p reading_upstream_response next buffered most ≡ keep)
unfolding response_read_interest_action
action_settles p registered buffered most = ground arith
