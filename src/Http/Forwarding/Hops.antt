-- ===== src/Http/Forwarding/Hops.antt =====
-- What the proxy's projection of header fields keeps (crates/edge-core/src/http_forwarding_policy.rs).
use mathlib.Core.List.{append_assoc}
use edge.Prelude.{
  Bool, inl, [], refl, inr, false, ◌≡◌, true, filter, List, ◌∷◌, Bool-cases, true-not-false, ap,
  sym, ◌∙◌, arith, filter-filter, if◌then◌else◌, ◌++◌, any_last, any-filter, any, ◌&&◌, any_first,
}
use edge.Text.{
  Text, eq_ignore_ascii_case, text_eq_iff, txt, text_eq, to_ascii_lowercase, trim_end,
  is_whitespace, split_char, trim, trim_start,
}
use edge.Http.Forwarding.{
  is_end_to_end, is_hop_by_hop_header_name, connection_header_tokens, remove_hop_by_hop_headers,
  connection_upgrade, upstream_request_headers, is_websocket_upgrade, survives_upgrade, list_tokens,
  asks_websocket,
}
use edge.Http.Request.{Header}

abbrev pub is_connection : Header → Bool
is_connection h = eq_ignore_ascii_case h.name (txt "Connection")

end_to_end_not_connection :
    (tokens : List Text) (h : Header) → is_end_to_end tokens h ≡ true → is_connection h ≡ false
unfolding is_end_to_end is_hop_by_hop_header_name eq_ignore_ascii_case
end_to_end_not_connection tokens h e = elim (Bool-cases (is_connection h)) [
  | inl c ↦
      let name : to_ascii_lowercase h.name ≡ txt "connection" =
        (text_eq_iff (to_ascii_lowercase h.name) (txt "connection")).0 c in
      let dropped : is_end_to_end tokens h ≡ false = rw name refl in
      absurd (true-not-false (sym e ∙ dropped))
  | inr c ↦ c
]

end_to_end_alone :
    (tokens : List Text) (h : Header) → is_end_to_end tokens h ≡ true → is_end_to_end [] h ≡ true
unfolding is_end_to_end
end_to_end_alone tokens h e = ground arith

upgrade_not_connection :
    (h : Header)
    → text_eq (to_ascii_lowercase h.name) (txt "upgrade") ≡ true
    → is_connection h ≡ false
unfolding eq_ignore_ascii_case
upgrade_not_connection h e =
    let name : to_ascii_lowercase h.name ≡ txt "upgrade" =
      (text_eq_iff (to_ascii_lowercase h.name) (txt "upgrade")).0 e in
    rw name refl

connection_header_tokens-filter :
    (p : Header → Bool)
    → ((h : Header) → p h ≡ true → is_connection h ≡ false)
    → (hs : List Header) → connection_header_tokens (filter p hs) ≡ []
unfolding connection_header_tokens
connection_header_tokens-filter p k [] = refl
connection_header_tokens-filter p k (h ∷ hs) = elim (Bool-cases (p h)) [
  | inl e ↦ rw e (rw (k h e) (connection_header_tokens-filter p k hs))
  | inr e ↦ rw e (connection_header_tokens-filter p k hs)
]

survives_not_connection :
    (tokens : List Text) (h : Header) → survives_upgrade tokens h ≡ true → is_connection h ≡ false
unfolding survives_upgrade
survives_not_connection tokens h e =
    elim (Bool-cases (text_eq (to_ascii_lowercase h.name) (txt "upgrade"))) [
      | inl u ↦ upgrade_not_connection h u
      | inr u ↦ end_to_end_not_connection tokens h (simp u at e)
    ]

-- Removing the hop-by-hop fields, those named by `Connection` fields included, a second time removes
-- nothing.
pub remove_hop_by_hop_headers-idempotent :
    (hs : List Header)
    → remove_hop_by_hop_headers (remove_hop_by_hop_headers hs) ≡ remove_hop_by_hop_headers hs
unfolding remove_hop_by_hop_headers
remove_hop_by_hop_headers-idempotent hs =
    let tokens : List Text = connection_header_tokens hs in
    let none_left : connection_header_tokens (filter (is_end_to_end tokens) hs) ≡ [] =
      connection_header_tokens-filter (is_end_to_end tokens) (end_to_end_not_connection tokens)
        hs in
    ap (λ t. filter (is_end_to_end t) (filter (is_end_to_end tokens) hs)) none_left
    ∙ filter-filter (is_end_to_end tokens) (is_end_to_end []) (end_to_end_alone tokens) hs

pub connection_header_tokens-append :
    (hs ks : List Header)
    → connection_header_tokens (hs ++ ks)
      ≡ connection_header_tokens hs ++ connection_header_tokens ks
unfolding connection_header_tokens
connection_header_tokens-append [] ks = refl
connection_header_tokens-append (h ∷ hs) ks = elim (Bool-cases (is_connection h)) [
  | inl e ↦ rw e (
      ap (◌++◌ (list_tokens h.value)) (connection_header_tokens-append hs ks)
      ∙ sym (
          append_assoc (list_tokens h.value) (connection_header_tokens hs)
            (connection_header_tokens ks)))
  | inr e ↦ rw e (connection_header_tokens-append hs ks)
]

upgrade_token : connection_header_tokens (connection_upgrade ∷ []) ≡ txt "upgrade" ∷ []
unfolding connection_header_tokens eq_ignore_ascii_case text_eq trim trim_start trim_end split_char
    is_whitespace
upgrade_token = refl

abbrev asks_upgrade : Header → Bool
asks_upgrade h =
    is_connection h
    && any (λ t. eq_ignore_ascii_case (trim t) (txt "upgrade")) (split_char b',' h.value)

abbrev names_websocket : Header → Bool
names_websocket h = eq_ignore_ascii_case h.name (txt "Upgrade") && asks_websocket h

connection_upgrade-asks_upgrade : asks_upgrade connection_upgrade ≡ true
unfolding eq_ignore_ascii_case text_eq trim trim_start trim_end split_char is_whitespace
connection_upgrade-asks_upgrade = refl

names_websocket-survives_upgrade :
    (tokens : List Text) (h : Header) → names_websocket h ≡ true → survives_upgrade tokens h ≡ true
unfolding survives_upgrade eq_ignore_ascii_case
names_websocket-survives_upgrade tokens h e =
    elim (Bool-cases (text_eq (to_ascii_lowercase h.name) (txt "upgrade"))) [
      | inl t ↦ rw t (rw (simp t at e) refl)
      | inr f ↦ absurd (true-not-false (sym e ∙ rw f refl))
    ]

-- What the projection leaves has no `Connection` field but the one that announces an upgrade.
pub connection_header_tokens-upstream_request_headers :
    (hs : List Header) (preserve_upgrade : Bool)
    → connection_header_tokens (upstream_request_headers hs preserve_upgrade)
      ≡ (if preserve_upgrade then txt "upgrade" ∷ [] else [])
unfolding upstream_request_headers remove_hop_by_hop_headers connection_header_tokens
connection_header_tokens-upstream_request_headers hs false =
    let tokens : List Text = connection_header_tokens hs in
    connection_header_tokens-filter (is_end_to_end tokens) (end_to_end_not_connection tokens) hs
connection_header_tokens-upstream_request_headers hs true =
    let tokens : List Text = connection_header_tokens hs in
    connection_header_tokens-append (filter (survives_upgrade tokens) hs) (connection_upgrade ∷ [])
    ∙ ap (λ l. l ++ connection_header_tokens (connection_upgrade ∷ []))
        (connection_header_tokens-filter (survives_upgrade tokens) (survives_not_connection tokens)
          hs)
    ∙ upgrade_token

-- A request for a WebSocket upgrade is still one when it is sent upstream with the upgrade preserved.
pub is_websocket_upgrade-upstream_request_headers :
    (hs : List Header)
    → is_websocket_upgrade hs ≡ true
    → is_websocket_upgrade (upstream_request_headers hs true) ≡ true
unfolding is_websocket_upgrade upstream_request_headers
is_websocket_upgrade-upstream_request_headers hs h =
    let websocket : any names_websocket hs ≡ true = ground arith in
    let tokens : List Text = connection_header_tokens hs in
    let kept : List Header = filter (survives_upgrade tokens) hs in
    let found : any names_websocket (kept ++ connection_upgrade ∷ []) ≡ true =
      any_first names_websocket kept (connection_upgrade ∷ []) (
        any-filter (survives_upgrade tokens) names_websocket
          (names_websocket-survives_upgrade tokens) hs websocket) in
    let asked : any asks_upgrade (kept ++ connection_upgrade ∷ []) ≡ true =
      any_last asks_upgrade kept connection_upgrade connection_upgrade-asks_upgrade in
    rw asked found
