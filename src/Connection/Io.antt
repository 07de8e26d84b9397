-- ===== src/Connection/Io.antt =====
-- crates/edge-core/src/connection_io.rs: one proxied connection. `reserved` is the answer of the
-- allocator.
pub mod Retry
use edge.Prelude.{
  ℕ, Bool, Option, not, false, some, length, if◌then◌else◌, ◌||◌, true, none, is_none,
}
use edge.Domain.Exec.{Exec, ◌>>=◌, ◌>>◌, modify, pure, lift}
use edge.Http.Request.Buffer.{
  ClientRequestBuffer, RequestReadOutcome, incomplete, complete, default_request_buffer, push,
}
use edge.Http.Request.{HttpLimits, parse_http_request}
use edge.Text.{Bytes}
use edge.Connection.Attempt.{
  invalid_upstream_attempt_transition, record_request_write, default_progress,
  UpstreamAttemptFailure, begin, record_response_bytes, succeed, fail, request_write_completed,
  UpstreamAttemptProgress,
}
use edge.Connection.State.{
  upstream_readable, handle_event, writing_client_response, client_writable, ConnectionState,
  upstream_connect_ready, request_parsed, upstream_tls_established, selecting_route, accepted,
  client_response_completed, reading_client_request, Connection, transition_to,
  handshaking_upstream_tls, proxy, ConnectionEvent, rejected, route_selected, upstream_writable,
  can_transition_to, reading_upstream_response, client_readable, writing_upstream_request,
  connecting_upstream,
}
use edge.Connection.WriteBuffer.{
  new, advance, WriteBuffer, clear_if_complete, try_append, default_buffer, is_complete,
}
use edge.Domain.Errors.{ok, err, AppError}
use edge.Connection.WriteBuffer

pub record HttpConnectionIo : Type 0 where
  pub connection : Connection
  pub upstream_attempt : UpstreamAttemptProgress
  pub client_request : ClientRequestBuffer
  pub upstream_write : WriteBuffer
  pub client_write : WriteBuffer

unfoldable pub new_connection_io : ℕ → HttpConnectionIo
new_connection_io token = record {
  connection = record { token = token; state = accepted };
  upstream_attempt = default_progress;
  client_request = default_request_buffer;
  upstream_write = default_buffer;
  client_write = default_buffer;
}

abbrev pub invalid_connection_io_state : AppError
invalid_connection_io_state = rejected "operation is not valid for current connection state"

-- A method of a field.
module _ {ℓ} {A : Type ℓ} where
  abbrev pub on_connection : Exec Connection A → Exec HttpConnectionIo A
  on_connection m io = let (r, c) = m io.connection in (r, record io { connection = c })

  abbrev pub on_attempt : Exec UpstreamAttemptProgress A → Exec HttpConnectionIo A
  on_attempt m io = let (r, p) = m io.upstream_attempt in (r, record io { upstream_attempt = p })

  abbrev pub on_request : Exec ClientRequestBuffer A → Exec HttpConnectionIo A
  on_request m io = let (r, b) = m io.client_request in (r, record io { client_request = b })

  abbrev pub on_client_write : Exec WriteBuffer A → Exec HttpConnectionIo A
  on_client_write m io = let (r, b) = m io.client_write in (r, record io { client_write = b })

abbrev is_accepted : ConnectionState → Bool
is_accepted accepted = true
is_accepted _ = false

abbrev is_reading_client_request : ConnectionState → Bool
is_reading_client_request reading_client_request = true
is_reading_client_request _ = false

abbrev is_writing_upstream_request : ConnectionState → Bool
is_writing_upstream_request writing_upstream_request = true
is_writing_upstream_request _ = false

abbrev is_reading_upstream_response : ConnectionState → Bool
is_reading_upstream_response reading_upstream_response = true
is_reading_upstream_response _ = false

abbrev is_writing_client_response : ConnectionState → Bool
is_writing_client_response writing_client_response = true
is_writing_client_response _ = false

abbrev may_retry : ConnectionState → Bool
may_retry connecting_upstream = true
may_retry s = is_writing_upstream_request s

abbrev writes_to_client : ConnectionState → Bool
writes_to_client reading_upstream_response = true
writes_to_client s = is_writing_client_response s

-- `if !b { return Err(invalid_connection_io_state()) }`
abbrev pub require_io : (ConnectionState → Bool) → Exec HttpConnectionIo (Unit {0})
require_io b io =
    if b io.connection.state then (ok tt, io) else (err invalid_connection_io_state, io)

unfoldable pub after_read :
    HttpLimits → RequestReadOutcome → Exec HttpConnectionIo RequestReadOutcome
unfolding ◌>>=◌
after_read limits incomplete = pure incomplete
after_read limits (complete bytes) = do
  request ← lift (parse_http_request bytes limits)
  on_connection (handle_event request_parsed)
  pure (complete bytes)

abbrev start_reading : Exec HttpConnectionIo (Unit {0})
start_reading io =
    if is_accepted io.connection.state
    then on_connection (handle_event client_readable) io
    else (ok tt, io)

unfoldable pub receive_client_bytes : Bytes → HttpLimits → Exec HttpConnectionIo RequestReadOutcome
unfolding ◌>>=◌
receive_client_bytes chunk limits = do
  start_reading
  require_io is_reading_client_request
  outcome ← on_request (push chunk limits)
  after_read limits outcome

unfoldable pub begin_upstream_connect : Exec HttpConnectionIo (Unit {0})
unfolding ◌>>=◌
begin_upstream_connect = do on_connection (handle_event (route_selected proxy)); on_attempt begin

-- The event of `upstream_connected`.
abbrev connected_event : ConnectionState → Option ConnectionEvent
connected_event connecting_upstream = some upstream_connect_ready
connected_event handshaking_upstream_tls = some upstream_tls_established
connected_event _ = none

connect_by : Option ConnectionEvent → Bytes → Exec HttpConnectionIo (Unit {0})
connect_by none upstream_request io = (err invalid_connection_io_state, io)
connect_by (some event) upstream_request io =
    on_connection (handle_event event) (record io { upstream_write = new upstream_request })

unfoldable pub upstream_connected : Bytes → Exec HttpConnectionIo (Unit {0})
unfolding connect_by
upstream_connected upstream_request io =
    connect_by (connected_event io.connection.state) upstream_request io

write_upstream : ℕ → HttpConnectionIo → ℕ × HttpConnectionIo
write_upstream byte_count io =
    let (advanced, b) = advance byte_count io.upstream_write in
    (advanced, record io { upstream_write = b })

-- What follows when the request is written.
request_written : Exec HttpConnectionIo (Unit {0})
unfolding ◌>>=◌
request_written io =
    if is_complete io.upstream_write
    then (do
      on_attempt request_write_completed
      on_connection (handle_event upstream_writable)
      modify λ s. record s { upstream_write = (clear_if_complete s.upstream_write).1 })
        io
    else (ok tt, io)

unfoldable pub advance_upstream_write : ℕ → Exec HttpConnectionIo ℕ
unfolding ◌>>=◌ write_upstream request_written
advance_upstream_write byte_count = do
  require_io is_writing_upstream_request
  advanced ← λ io. let (k, io') = write_upstream byte_count io in (ok k, io')
  on_attempt (record_request_write advanced)
  request_written
  pure advanced

unfoldable pub receive_upstream_bytes : Bool → Bytes → Exec HttpConnectionIo ℕ
unfolding ◌>>=◌
receive_upstream_bytes reserved chunk = do
  require_io is_reading_upstream_response
  on_client_write (try_append reserved chunk)
  on_attempt (record_response_bytes (length chunk))
  pure (length chunk)

unfoldable pub finish_upstream_response : Exec HttpConnectionIo (Unit {0})
unfolding ◌>>=◌
finish_upstream_response = do on_connection (handle_event upstream_readable); on_attempt succeed

unfoldable pub fail_upstream_attempt : UpstreamAttemptFailure → Exec HttpConnectionIo (Unit {0})
fail_upstream_attempt failure = on_attempt (fail failure)

unfoldable pub prepare_upstream_retry : Exec HttpConnectionIo (Unit {0})
prepare_upstream_retry io =
    if not (may_retry io.connection.state) || is_none io.upstream_attempt.terminal
    then (err invalid_upstream_attempt_transition, io)
    else (
      ok tt,
      record io {
        connection = record io.connection { state = selecting_route };
        upstream_attempt = default_progress;
        upstream_write = default_buffer;
      },
    )

unfoldable pub queue_client_response : Bytes → Exec HttpConnectionIo (Unit {0})
queue_client_response response io =
    if not (can_transition_to io.connection.state writing_client_response)
    then (err invalid_connection_io_state, io)
    else on_connection (transition_to writing_client_response)
        (record io { client_write = new response })

unfoldable pub advance_client_write : ℕ → Exec HttpConnectionIo ℕ
unfolding ◌>>=◌
advance_client_write byte_count = do
  require_io writes_to_client
  λ io.
      let (advanced, b) = advance byte_count io.client_write in
      (
        ok advanced,
        record io { client_write = if is_complete b then (clear_if_complete b).1 else b },
      )

unfoldable pub finish_client_response : Bool → Exec HttpConnectionIo (Unit {0})
unfolding ◌>>=◌
finish_client_response keep_alive io =
    if not (is_writing_client_response io.connection.state) || not (is_complete io.client_write)
    then (err invalid_connection_io_state, io)
    else if keep_alive
    then (do
      on_connection (handle_event client_response_completed)
      modify λ s. record s { upstream_attempt = default_progress; upstream_write = default_buffer })
        io
    else on_connection (handle_event client_writable) io
