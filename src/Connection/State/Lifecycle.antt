-- ===== src/Connection/State/Lifecycle.antt =====
-- The life of a connection as the graph of its transitions.
use edge.Prelude.{
  false, ◌⊎◌, true, ◌≡◌, inr, arith, Memᴰ, some, Bool, refl, ℕ, sym, inl, [], List, ◌||◌, ◌∷◌,
}
use edge.Connection.State.{
  ConnectionState, ConnectionEvent, can_transition_to, transition_to, Connection,
  timeout_decision_for_state, next_state, handle_event, ConnectionInterest, tunneling_web_socket,
  closed, proxy, accepted, draining, ConnectionTimeoutDecision, selecting_route, io_interest,
  route_selected, writing_client_response, reading_client_request, request_parsed, failed,
}
use edge.Domain.Errors.{is_ok}

-- The edges of the transition table.
infix 20 ◌⟶◌
abbrev pub ◌⟶◌ : ConnectionState → ConnectionState → Type 0
s ⟶ t = can_transition_to s t ≡ true

-- An event that is accepted follows an edge of the transition table, a timeout included; one that is
-- refused leaves the connection as it was.
pub handle_event-⟶ :
    (e : ConnectionEvent) (c : Connection)
    → let (r, d) = handle_event e c in
      ((is_ok r ≡ true) × (c.state ⟶ d.state) × (d.token ≡ c.token)) ⊎ ((is_ok r ≡ false) × (d ≡ c))
unfolding handle_event transition_to can_transition_to next_state timeout_decision_for_state
handle_event-⟶ e c = ground arith

unfoldable pub run_events : Connection → List ConnectionEvent → Connection
run_events c [] = c
run_events c (e ∷ es) = run_events (handle_event e c).1 es

abbrev pub IsTerminal : ConnectionState → Type 0
IsTerminal s = (s ≡ closed) ⊎ (s ≡ failed)

handle_event-IsTerminal :
    (e : ConnectionEvent) (c : Connection)
    → IsTerminal c.state
    → IsTerminal (handle_event e c).1.state
unfolding handle_event transition_to can_transition_to next_state timeout_decision_for_state
handle_event-IsTerminal e c h = ground arith

-- A connection that is closed or failed stays closed or failed, whatever events come.
pub run_events-IsTerminal :
    (c : Connection) (es : List ConnectionEvent)
    → IsTerminal c.state
    → IsTerminal (run_events c es).state
unfolding run_events
run_events-IsTerminal c [] h = h
run_events-IsTerminal c (e ∷ es) h =
    run_events-IsTerminal (handle_event e c).1 es (handle_event-IsTerminal e c h)

-- The states before an upstream has been chosen.
abbrev before_upstream : ConnectionState → Bool
before_upstream accepted = true
before_upstream reading_client_request = true
before_upstream selecting_route = true
before_upstream writing_client_response = true
before_upstream draining = true
before_upstream closed = true
before_upstream failed = true
before_upstream _ = false

abbrev before_route : ConnectionState → Bool
before_route selecting_route = false
before_route s = before_upstream s

leaves_route :
    (e : ConnectionEvent) (c : Connection)
    → before_upstream c.state ≡ true
    → (e ≡ route_selected proxy) ⊎ (before_upstream (handle_event e c).1.state ≡ true)
unfolding handle_event transition_to can_transition_to next_state timeout_decision_for_state
leaves_route e c h = ground arith

needs_proxy_route :
    (c : Connection) (es : List ConnectionEvent)
    → before_upstream c.state ≡ true
    → before_upstream (run_events c es).state ≡ false
    → Memᴰ (route_selected proxy) es
unfolding run_events
needs_proxy_route c [] h k = cc
needs_proxy_route c (e ∷ es) h k = elim (leaves_route e c h) [
  | inl p ↦ Memᴰ.head (sym p)
  | inr q ↦ Memᴰ.tail (needs_proxy_route (handle_event e c).1 es q k)
]

leaves_reading :
    (e : ConnectionEvent) (c : Connection)
    → before_route c.state ≡ true
    → (e ≡ request_parsed) ⊎ (before_route (handle_event e c).1.state ≡ true)
unfolding handle_event transition_to can_transition_to next_state timeout_decision_for_state
leaves_reading e c h = ground arith

needs_parse :
    (c : Connection) (es : List ConnectionEvent)
    → before_route c.state ≡ true
    → before_route (run_events c es).state ≡ false
    → Memᴰ request_parsed es
unfolding run_events
needs_parse c [] h k = cc
needs_parse c (e ∷ es) h k = elim (leaves_reading e c h) [
  | inl p ↦ Memᴰ.head (sym p)
  | inr q ↦ Memᴰ.tail (needs_parse (handle_event e c).1 es q k)
]

route_implied : (s : ConnectionState) → before_upstream s ≡ false → before_route s ≡ false
route_implied s h = ground arith

-- A connection that starts in `accepted` comes into a state that talks to an upstream (connecting, TLS
-- handshake, writing the request, reading the response, tunnelling) only after a request was parsed and
-- a proxy route was selected.
pub upstream_needs_request :
    (token : ℕ) (es : List ConnectionEvent)
    → before_upstream (run_events (record { token = token; state = accepted }) es).state ≡ false
    → Memᴰ request_parsed es × Memᴰ (route_selected proxy) es
upstream_needs_request token es h = (
  needs_parse (record { token = token; state = accepted }) es refl (route_implied _ h),
  needs_proxy_route (record { token = token; state = accepted }) es refl h,
)

abbrev has_interest : ConnectionInterest → Bool
has_interest i =
    i.client_readable || i.client_writable || i.upstream_readable || i.upstream_writable

-- A state that waits for a socket has a timeout, with the one exception of the WebSocket tunnel, and the
-- timeout follows an edge of the transition table.
pub waiting_has_timeout :
    (s : ConnectionState)
    → has_interest (io_interest s) ≡ true
    → (s ≡ tunneling_web_socket)
      ⊎ ((d : ConnectionTimeoutDecision) × (timeout_decision_for_state s ≡ some d)
          × (s ⟶ d.next_state))
unfolding io_interest timeout_decision_for_state can_transition_to
waiting_has_timeout tunneling_web_socket h = inl refl
waiting_has_timeout selecting_route h = cc
waiting_has_timeout draining h = cc
waiting_has_timeout closed h = cc
waiting_has_timeout failed h = cc
waiting_has_timeout _ h = inr (_, refl, refl)
