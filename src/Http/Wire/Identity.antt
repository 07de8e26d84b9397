-- ===== src/Http/Wire/Identity.antt =====
-- Who the request comes from: the headers that the proxy alone writes.
use edge.Http.Forwarding.{forwarded_headers, upstream_request_headers}
use edge.Http.Request.{Header, HttpRequest}
use edge.Http.Wire.{is_forwarded_header, outgoing_headers, override_host, set_host}
use edge.Prelude.{
  Bool, Bool-cases, false, true, List, [], ◌∷◌, ◌++◌, ◌≡◌, ◌∙◌, Option, ap, filter, filter_head,
  filter_skip, inl, inr, none, not, refl, some, sym,
}
use edge.Text.{Text, eq_ignore_ascii_case, text_eq, text_eq_iff, to_ascii_lowercase, txt}

-- A host header is not a forwarded one.
host-not_forwarded :
    (h : Header) → eq_ignore_ascii_case h.name (txt "Host") ≡ true → is_forwarded_header h ≡ false
unfolding eq_ignore_ascii_case is_forwarded_header text_eq
host-not_forwarded h e =
    let name : to_ascii_lowercase h.name ≡ txt "host" =
      (text_eq_iff (to_ascii_lowercase h.name) (txt "host")).0 e in
    rw name refl

set_host-forwarded :
    (value : Text) (headers : List Header)
    → filter is_forwarded_header (set_host value headers) ≡ filter is_forwarded_header headers
unfolding set_host is_forwarded_header
set_host-forwarded value [] = refl
set_host-forwarded value (h ∷ headers) =
    elim (Bool-cases (eq_ignore_ascii_case h.name (txt "Host"))) [
      | inl e ↦
          let out : is_forwarded_header h ≡ false = host-not_forwarded h e in
          rw e (
            filter_skip is_forwarded_header (record h { value = value }) headers out
            ∙ sym (filter_skip is_forwarded_header h headers out))
      | inr e ↦ rw e (elim (Bool-cases (is_forwarded_header h)) [
        | inl f ↦
            filter_head is_forwarded_header h (set_host value headers) f
            ∙ ap (◌∷◌ h) (set_host-forwarded value headers)
            ∙ sym (filter_head is_forwarded_header h headers f)
        | inr f ↦
            filter_skip is_forwarded_header h (set_host value headers) f
            ∙ set_host-forwarded value headers
            ∙ sym (filter_skip is_forwarded_header h headers f)
      ])
    ]

override_host-forwarded :
    (o : Option Text) (headers : List Header)
    → filter is_forwarded_header (override_host o headers) ≡ filter is_forwarded_header headers
override_host-forwarded none headers = refl
override_host-forwarded (some host) headers = set_host-forwarded host headers

-- Nothing is left behind the filter that drops the client's own.
others-forwarded :
    (headers tail : List Header)
    → filter is_forwarded_header (filter (λ h. not (is_forwarded_header h)) headers ++ tail)
      ≡ filter is_forwarded_header tail
others-forwarded [] tail = refl
others-forwarded (h ∷ headers) tail = elim (Bool-cases (is_forwarded_header h)) [
  | inl e ↦ rw e (others-forwarded headers tail)
  | inr e ↦ rw e (
      filter_skip is_forwarded_header h (filter (λ x. not (is_forwarded_header x)) headers ++ tail)
        e
      ∙ others-forwarded headers tail)
]

-- The X-Forwarded-For, X-Forwarded-Proto and X-Forwarded-Host headers of the outgoing request are the
-- three that the proxy writes, one of each: whatever the client sent under these names is gone, and
-- neither a preserved upgrade nor an override of the host changes them.
pub outgoing_headers-forwarded :
    (request : HttpRequest) (client_ip scheme host : Text) (preserve : Bool)
    (host_override : Option Text)
    → filter is_forwarded_header
        (outgoing_headers request client_ip scheme host preserve host_override)
      ≡ forwarded_headers client_ip scheme host
unfolding outgoing_headers is_forwarded_header text_eq
outgoing_headers-forwarded request client_ip scheme host preserve host_override =
    override_host-forwarded host_override _
    ∙ others-forwarded (upstream_request_headers request.headers preserve)
        (forwarded_headers client_ip scheme host)
