-- ===== src/Connection/State.antt =====
-- crates/edge-core/src/connection_state.rs, and the `Connection` of connection_io.rs.
pub mod Lifecycle
use edge.Prelude.{ℕ, Option, is_some, false, some, Bool, if◌then◌else◌, true, String, not, none}
use edge.Domain.Exec.{Exec}
use edge.Domain.Errors.{new_error, ok, AppError, ErrorCode, err}

pub data ConnectionState : Type 0 where
  accepted reading_client_request selecting_route connecting_upstream : ConnectionState
  handshaking_upstream_tls writing_upstream_request reading_upstream_response : ConnectionState
  writing_client_response tunneling_web_socket draining closed failed : ConnectionState

unfoldable pub can_transition_to : ConnectionState → ConnectionState → Bool
can_transition_to _ closed = true
can_transition_to _ failed = true
can_transition_to accepted reading_client_request = true
can_transition_to accepted writing_client_response = true
can_transition_to reading_client_request selecting_route = true
can_transition_to reading_client_request writing_client_response = true
can_transition_to selecting_route connecting_upstream = true
can_transition_to selecting_route writing_client_response = true
can_transition_to connecting_upstream writing_upstream_request = true
can_transition_to connecting_upstream handshaking_upstream_tls = true
can_transition_to handshaking_upstream_tls writing_upstream_request = true
can_transition_to handshaking_upstream_tls writing_client_response = true
can_transition_to connecting_upstream writing_client_response = true
can_transition_to writing_upstream_request reading_upstream_response = true
can_transition_to writing_upstream_request writing_client_response = true
can_transition_to reading_upstream_response writing_client_response = true
can_transition_to reading_upstream_response tunneling_web_socket = true
can_transition_to writing_client_response reading_client_request = true
can_transition_to writing_client_response draining = true
can_transition_to tunneling_web_socket draining = true
can_transition_to _ _ = false

pub record ConnectionInterest : Type 0 where
  pub client_readable : Bool
  pub client_writable : Bool
  pub upstream_readable : Bool
  pub upstream_writable : Bool

abbrev pub no_interest : ConnectionInterest
no_interest = record {
  client_readable = false;
  client_writable = false;
  upstream_readable = false;
  upstream_writable = false;
}

unfoldable pub io_interest : ConnectionState → ConnectionInterest
io_interest accepted = record no_interest { client_readable = true }
io_interest reading_client_request = record no_interest { client_readable = true }
io_interest selecting_route = no_interest
io_interest draining = no_interest
io_interest closed = no_interest
io_interest failed = no_interest
io_interest connecting_upstream = record no_interest { upstream_writable = true }
io_interest writing_upstream_request = record no_interest { upstream_writable = true }
io_interest handshaking_upstream_tls = record no_interest {
  upstream_readable = true;
  upstream_writable = true;
}
io_interest reading_upstream_response = record no_interest { upstream_readable = true }
io_interest writing_client_response = record no_interest { client_writable = true }
io_interest tunneling_web_socket = record no_interest {
  client_readable = true;
  upstream_readable = true;
}

pub data RouteSelectionTarget : Type 0 where
  proxy immediate_response web_socket_tunnel : RouteSelectionTarget

pub data ConnectionEvent : Type 0 where
  client_readable client_writable client_response_completed : ConnectionEvent
  upstream_connect_ready upstream_tls_handshake_started upstream_tls_established : ConnectionEvent
  upstream_readable upstream_writable request_parsed : ConnectionEvent
  route_selected : RouteSelectionTarget → ConnectionEvent
  timeout_expired client_closed upstream_closed command_shutdown io_error : ConnectionEvent

pub data ConnectionTimeoutKind : Type 0 where
  client_idle upstream_connect upstream_tls_handshake upstream_read : ConnectionTimeoutKind
  client_write : ConnectionTimeoutKind

pub record ConnectionTimeoutDecision : Type 0 where
  pub kind : ConnectionTimeoutKind
  pub status_code : Option ℕ
  pub reason : String
  pub next_state : ConnectionState

abbrev gateway_timeout : ConnectionTimeoutKind → ConnectionTimeoutDecision
gateway_timeout kind = record {
  kind = kind;
  status_code = some 504;
  reason = "Gateway Timeout";
  next_state = writing_client_response;
}

abbrev request_timeout : ConnectionTimeoutDecision
request_timeout = record {
  kind = client_idle;
  status_code = some 408;
  reason = "Request Timeout";
  next_state = writing_client_response;
}

unfoldable pub timeout_decision_for_state : ConnectionState → Option ConnectionTimeoutDecision
timeout_decision_for_state accepted = some request_timeout
timeout_decision_for_state reading_client_request = some request_timeout
timeout_decision_for_state connecting_upstream = some (gateway_timeout upstream_connect)
timeout_decision_for_state handshaking_upstream_tls = some (gateway_timeout upstream_tls_handshake)
timeout_decision_for_state writing_upstream_request = some (gateway_timeout upstream_read)
timeout_decision_for_state reading_upstream_response = some (gateway_timeout upstream_read)
timeout_decision_for_state writing_client_response = some (record {
  kind = client_write;
  status_code = none;
  reason = "Client Write Timeout";
  next_state = failed;
})
timeout_decision_for_state _ = none

pub record Connection : Type 0 where
  pub token : ℕ
  pub state : ConnectionState

abbrev pub rejected : String → AppError
rejected message = new_error ErrorCode.runtime_command_rejected message

unfoldable pub transition_to : ConnectionState → Exec Connection (Unit {0})
transition_to next c =
    if not (can_transition_to c.state next)
    then (err (rejected "invalid connection state transition"), c)
    else (ok tt, record c { state = next })

timeout_to :
    Option ConnectionTimeoutDecision → Connection → Option ConnectionTimeoutDecision × Connection
timeout_to none c = (none, c)
timeout_to (some decision) c = (some decision, record c { state = decision.next_state })

unfoldable pub handle_timeout : Connection → Option ConnectionTimeoutDecision × Connection
unfolding timeout_to
handle_timeout c = timeout_to (timeout_decision_for_state c.state) c

-- The `match` of `handle_event`; `none` is its last arm.
unfoldable pub next_state : ConnectionState → ConnectionEvent → Option ConnectionState
next_state _ io_error = some failed
next_state _ client_closed = some closed
next_state _ command_shutdown = some closed
next_state accepted client_readable = some reading_client_request
next_state reading_client_request request_parsed = some selecting_route
next_state selecting_route (route_selected proxy) = some connecting_upstream
next_state selecting_route (route_selected immediate_response) = some writing_client_response
next_state connecting_upstream upstream_connect_ready = some writing_upstream_request
next_state connecting_upstream upstream_tls_handshake_started = some handshaking_upstream_tls
next_state handshaking_upstream_tls upstream_tls_established = some writing_upstream_request
next_state writing_upstream_request upstream_writable = some reading_upstream_response
next_state reading_upstream_response upstream_readable = some writing_client_response
next_state reading_upstream_response (route_selected web_socket_tunnel) = some tunneling_web_socket
next_state writing_client_response client_response_completed = some reading_client_request
next_state writing_client_response client_writable = some draining
next_state draining upstream_closed = some closed
next_state _ _ = none

follow : Option ConnectionState → Exec Connection (Unit {0})
follow none c = (err (rejected "event is not valid for current connection state"), c)
follow (some next) c = transition_to next c

time_out : Exec Connection (Unit {0})
unfolding handle_timeout
time_out c =
    let (decision, c') = handle_timeout c in
    if is_some decision
    then (ok tt, c')
    else (err (rejected "no timeout policy for current connection state"), c')

unfoldable pub handle_event : ConnectionEvent → Exec Connection (Unit {0})
unfolding follow time_out
handle_event timeout_expired c = time_out c
handle_event event c = follow (next_state c.state event) c
