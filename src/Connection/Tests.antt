-- ===== src/Connection/Tests.antt =====
-- Connections on concrete events.
use edge.Http.Request.Buffer.{
  push, find_end, after_search, take_complete, parse_fields,
  expected_request_body_len_from_header_bytes,
}
use edge.Connection.WriteBuffer.{new, is_complete}
use edge.Connection.State.{accepted}
use edge.Prelude.{◌∷◌, ◌≡◌, refl, ◌⊎◌, Memᴰ, false, [], List, true}
use edge.Domain.Exec.{◌>>=◌}
use edge.Domain.Errors.{is_ok}
use edge.Connection.Io.{
  new_connection_io, prepare_upstream_retry, receive_client_bytes, begin_upstream_connect,
  fail_upstream_attempt, after_read, advance_upstream_write, upstream_connected,
}
use edge.Connection.Io.Retry.{
  after_all, direct, directly, tls_starts, IoCall, receives, connects, connected, writes,
  attempt_fails, IsUnanswered, retry-IsUnanswered, after,
}
use edge.Http.Request.{default_limits}
use edge.Connection.Attempt.{
  default_progress, begin, record_request_write, UpstreamAttemptFailure, fail,
}
use edge.Connection.Attempt.Laws.{
  begins, AttemptCall, IsConsistent, perform_all, writes_completed, perform_all-IsConsistent,
  succeeds,
}
use edge.Connection.State.{
  request_parsed, transition_to, ConnectionEvent, proxy, client_readable, can_transition_to,
  handle_event, route_selected, next_state,
}
use edge.Connection.State.Lifecycle.{handle_event-⟶, run_events, upstream_needs_request, ◌⟶◌}
use edge.Connection.WriteBuffer.{remaining, advance}
use edge.Http.Request.Samples.{sample_post, opened as opened_request}

handle_event-⟶_example :
    let (r, d) = handle_event client_readable (record { token = 3; state = accepted }) in
    ((is_ok r ≡ true) × (accepted ⟶ d.state) × (d.token ≡ 3))
    ⊎ ((is_ok r ≡ false) × (d ≡ record { token = 3; state = accepted }))
handle_event-⟶_example = handle_event-⟶ client_readable (record { token = 3; state = accepted })

abbrev to_upstream : List ConnectionEvent
to_upstream = client_readable ∷ request_parsed ∷ route_selected proxy ∷ []

upstream_needs_request_example : Memᴰ request_parsed to_upstream
unfolding run_events handle_event transition_to can_transition_to next_state
upstream_needs_request_example = (upstream_needs_request 3 to_upstream refl).0

abbrev attempt_calls : List AttemptCall
attempt_calls =
    begins ∷ AttemptCall.writes 20 ∷ writes_completed ∷ AttemptCall.reads 7 ∷ succeeds ∷ []

perform_all-IsConsistent_example : IsConsistent (perform_all attempt_calls default_progress)
perform_all-IsConsistent_example = perform_all-IsConsistent attempt_calls

-- A request, a TLS connection to an upstream that fails, and a retry.
abbrev failing : List IoCall
failing =
    receives sample_post default_limits
    ∷ connects
    ∷ directly tls_starts
    ∷ connected (1 ∷ 2 ∷ 3 ∷ [])
    ∷ writes 2
    ∷ attempt_fails UpstreamAttemptFailure.write
    ∷ []

may_retry_now : is_ok (prepare_upstream_retry (after_all failing (new_connection_io 3))).0 ≡ true
unfolding opened_request push find_end after_search take_complete parse_fields
    expected_request_body_len_from_header_bytes after after_all direct new_connection_io
    receive_client_bytes after_read begin_upstream_connect upstream_connected advance_upstream_write
    fail_upstream_attempt prepare_upstream_retry begin record_request_write fail handle_event
    transition_to can_transition_to next_state new advance remaining is_complete ◌>>=◌
may_retry_now = refl

retry-IsUnanswered_example : IsUnanswered (after_all failing (new_connection_io 3))
retry-IsUnanswered_example = (retry-IsUnanswered 3 failing may_retry_now).0
