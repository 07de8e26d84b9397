-- ===== src/Connection/Io/Retry.antt =====
-- When connection_io.rs lets a request be sent again, under all calls of the event loop of lib.rs.
use edge.Domain.Errors.{is_ok}
use edge.Prelude.{
  Option, none, some, is_none, if◌then◌else◌, refl, ℕ, true, false, List, ◌≡◌, ◌∷◌, arith, [], Bool,
  drop_all,
}
use edge.Domain.Exec.{Exec, pure, ◌>>=◌}
use edge.Http.Request.{HttpLimits}
use edge.Text.{Bytes}
use edge.Connection.Attempt.{
  begin, record_response_bytes, UpstreamAttemptFailure, fail, succeed, record_request_write,
  request_write_completed, default_progress,
}
use edge.Connection.Io.{
  finish_upstream_response, advance_upstream_write, queue_client_response, upstream_connected,
  finish_client_response, advance_client_write, fail_upstream_attempt, receive_client_bytes,
  prepare_upstream_retry, HttpConnectionIo, begin_upstream_connect, receive_upstream_bytes,
  after_read, new_connection_io, on_connection,
}
use edge.Connection.State.{
  transition_to, accepted, can_transition_to, selecting_route, writing_upstream_request,
  timeout_decision_for_state, connecting_upstream, reading_client_request, next_state,
  handshaking_upstream_tls, ConnectionState, handle_event, Connection, ConnectionTimeoutDecision,
  failed, io_error, tunneling_web_socket, upstream_tls_handshake_started,
}
use edge.Connection.WriteBuffer.{remaining, is_complete}

-- What the event loop of lib.rs does to the state itself, through the public field `connection`: the client's
-- socket ends or fails, the handshake with the upstream starts, a response that was begun is given up,
-- a WebSocket tunnel starts, and the time of a state with no response for its timeout is over.
pub data DirectCall : Type 0 where
  client_breaks tls_starts gives_up tunnel_starts expires : DirectCall

-- `transition_to(decision.next_state)`, for a decision without a status code.
abbrev expire_to : Option ConnectionTimeoutDecision → Exec Connection (Unit {0})
expire_to none = pure tt
expire_to (some decision) =
    if is_none decision.status_code then transition_to decision.next_state else pure tt

abbrev break_client : Exec Connection (Unit {0})
break_client = handle_event io_error

abbrev start_upstream_tls : Exec Connection (Unit {0})
start_upstream_tls = handle_event upstream_tls_handshake_started

abbrev give_up_response : Exec Connection (Unit {0})
give_up_response = transition_to failed

abbrev start_tunnel : Exec Connection (Unit {0})
start_tunnel = transition_to tunneling_web_socket

abbrev expire : Exec Connection (Unit {0})
expire c = expire_to (timeout_decision_for_state c.state) c

unfoldable pub direct : DirectCall → Exec Connection (Unit {0})
direct client_breaks c = break_client c
direct tls_starts c = start_upstream_tls c
direct gives_up c = give_up_response c
direct tunnel_starts c = start_tunnel c
direct expires c = expire c

pub data IoCall : Type 0 where
  directly : DirectCall → IoCall
  receives : Bytes → HttpLimits → IoCall
  connects response_ends retries : IoCall
  connected queues : Bytes → IoCall
  writes sends : ℕ → IoCall
  reads : Bool → Bytes → IoCall
  attempt_fails : UpstreamAttemptFailure → IoCall
  response_sent : Bool → IoCall

-- The connection behind one call, whatever the call answers.
unfoldable pub after : IoCall → HttpConnectionIo → HttpConnectionIo
after (receives chunk limits) io = (receive_client_bytes chunk limits io).1
after (directly call) io = (on_connection (direct call) io).1
after connects io = (begin_upstream_connect io).1
after response_ends io = (finish_upstream_response io).1
after retries io = (prepare_upstream_retry io).1
after (connected request) io = (upstream_connected request io).1
after (queues response) io = (queue_client_response response io).1
after (writes n) io = (advance_upstream_write n io).1
after (sends n) io = (advance_client_write n io).1
after (reads reserved chunk) io = (receive_upstream_bytes reserved chunk io).1
after (attempt_fails failure) io = (fail_upstream_attempt failure io).1
after (response_sent keep_alive) io = (finish_client_response keep_alive io).1

unfoldable pub after_all : List IoCall → HttpConnectionIo → HttpConnectionIo
after_all [] io = io
after_all (c ∷ cs) io = after_all cs (after c io)

-- The states before a byte of the response can arrive.
abbrev pub precedes_response : ConnectionState → Bool
precedes_response accepted = true
precedes_response reading_client_request = true
precedes_response selecting_route = true
precedes_response connecting_upstream = true
precedes_response handshaking_upstream_tls = true
precedes_response writing_upstream_request = true
precedes_response _ = false

-- Nothing of a response has been seen or is queued for the client.
pub record IsUnanswered (io : HttpConnectionIo) : Type 0 where
  pub not_started : io.upstream_attempt.response_started ≡ false
  pub nothing_queued : remaining io.client_write ≡ []

abbrev pub OwesNothing : HttpConnectionIo → Type 0
OwesNothing io = precedes_response io.connection.state ≡ true → IsUnanswered io

receives-unanswered :
    (chunk : Bytes) (limits : HttpLimits) (io : HttpConnectionIo)
    → OwesNothing io
    → OwesNothing (after (receives chunk limits) io)
unfolding after receive_client_bytes after_read handle_event transition_to can_transition_to
    next_state timeout_decision_for_state ◌>>=◌
receives-unanswered chunk limits io i = λ k. ground (arith, i)

writes-unanswered :
    (n : ℕ) (io : HttpConnectionIo) → OwesNothing io → OwesNothing (after (writes n) io)
unfolding after advance_upstream_write record_request_write request_write_completed handle_event
    transition_to can_transition_to next_state timeout_decision_for_state ◌>>=◌
writes-unanswered n io i = λ k. ground (arith, i)

directly-unanswered :
    (call : DirectCall) (io : HttpConnectionIo)
    → OwesNothing io
    → OwesNothing (after (directly call) io)
unfolding after direct handle_event transition_to can_transition_to next_state
    timeout_decision_for_state
directly-unanswered client_breaks io i = λ k. ground (arith, i)
directly-unanswered tls_starts io i = λ k. ground (arith, i)
directly-unanswered gives_up io i = λ k. ground (arith, i)
directly-unanswered tunnel_starts io i = λ k. ground (arith, i)
directly-unanswered expires io i = λ k. ground (arith, i)

after-unanswered : (c : IoCall) (io : HttpConnectionIo) → OwesNothing io → OwesNothing (after c io)
unfolding after begin_upstream_connect finish_upstream_response prepare_upstream_retry
    upstream_connected queue_client_response advance_client_write receive_upstream_bytes
    fail_upstream_attempt finish_client_response begin succeed record_response_bytes fail
    handle_event transition_to can_transition_to next_state timeout_decision_for_state remaining
    is_complete ◌>>=◌
after-unanswered (receives chunk limits) io i = receives-unanswered chunk limits io i
after-unanswered (directly call) io i = directly-unanswered call io i
after-unanswered connects io i = λ k. ground (arith, i)
after-unanswered response_ends io i = λ k. ground (arith, i)
after-unanswered retries io i = λ k. ground (arith, i)
after-unanswered (connected request) io i = λ k. ground (arith, i)
after-unanswered (queues response) io i = λ k. ground (arith, i)
after-unanswered (writes n) io i = writes-unanswered n io i
after-unanswered (sends n) io i = λ k. ground (arith, i)
after-unanswered (reads reserved chunk) io i = λ k. ground (arith, i)
after-unanswered (attempt_fails failure) io i = λ k. ground (arith, i)
after-unanswered (response_sent keep_alive) io i =
    λ k. ground (arith, i, drop_all io.client_write.written io.client_write.bytes)

after_all-unanswered :
    (cs : List IoCall) (io : HttpConnectionIo) → OwesNothing io → OwesNothing (after_all cs io)
unfolding after_all
after_all-unanswered [] io i = i
after_all-unanswered (c ∷ cs) io i = after_all-unanswered cs (after c io) (after-unanswered c io i)

fresh-unanswered : (token : ℕ) → OwesNothing (new_connection_io token)
unfolding new_connection_io remaining
fresh-unanswered token = λ k. record { not_started = refl; nothing_queued = refl }

-- After any sequence of the calls that the event loop makes on a new connection, those on its public state
-- machine included, whatever they answered: when a retry of the upstream
-- attempt is granted, no byte of a response has arrived in the attempt that is given up, and no byte is
-- queued for the client. The retry then leaves the connection selecting a route with a fresh attempt.
pub retry-IsUnanswered :
    (token : ℕ) (cs : List IoCall)
    → is_ok (prepare_upstream_retry (after_all cs (new_connection_io token))).0 ≡ true
    → let io = after_all cs (new_connection_io token) in
      let io' = (prepare_upstream_retry io).1 in
      IsUnanswered io
      × (io'.connection.state ≡ selecting_route)
      × (io'.upstream_attempt ≡ default_progress)
unfolding prepare_upstream_retry
retry-IsUnanswered token cs h =
    let kept = after_all-unanswered cs (new_connection_io token) (fresh-unanswered token) in
    (kept (ground arith), ground arith, ground arith)
