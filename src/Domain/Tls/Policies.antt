-- ===== src/Domain/Tls/Policies.antt =====
-- When an upstream is spoken to over TLS (crates/edge-domain/src/lib.rs).
use edge.Domain.Endpoint.{invalid_upstream_url, UpstreamScheme, http, https, parse_endpoint}
use edge.Domain.Errors.{ok, bind-ok, guard-ok}
use edge.Domain.Tls.{
  NormalizedUpstreamPolicy, UpstreamTlsPolicy, authenticated, normalize_upstream_tls_policy,
  parse_bundle_ref, parse_http_host, parse_server_name, server_authenticated, tls_disabled, tls_for,
  invalid_tls_policy, is_https,
}
use edge.Prelude.{
  Bool, false, true, ℕ, Option, none, some, ◌≡◌, refl, arith, ◌⊎◌, inl, inr, ◌==◌, ◌&&◌, ◌||◌,
  is_none, Bool-cases, not, subst, ==_iff,
}
use edge.Text.{Text}

-- What a policy says of the version, the fields and the endpoint.
abbrev pub IsConsistentTls :
    ℕ → Option Text → Option Text → Option Text → UpstreamScheme → UpstreamTlsPolicy → Type 0
IsConsistentTls version name host bundle http tls_disabled =
    ((version ≡ 1) ⊎ (version ≡ 2)) × (name ≡ none) × (host ≡ none) × (bundle ≡ none)
IsConsistentTls version name host bundle https (server_authenticated n h b) =
    (version ≡ 2)
    × ((raw : Text) × (name ≡ some raw) × (parse_server_name raw ≡ ok n))
    × ((raw : Text) × (host ≡ some raw) × (parse_http_host raw ≡ ok h))
    × ((raw : Text) × (bundle ≡ some raw) × (parse_bundle_ref raw ≡ ok b))
IsConsistentTls version name host bundle _ _ = ⊥

authenticated-ok :
    (name host bundle : Option Text) (tls : UpstreamTlsPolicy)
    → authenticated name host bundle ≡ ok tls
    → IsConsistentTls 2 name host bundle https tls
authenticated-ok none host bundle tls h = cc
authenticated-ok (some x) none bundle tls h =
    let (n, e, h1) = bind-ok (parse_server_name x) _ h in cc h1
authenticated-ok (some x) (some y) none tls h =
    let (n, e, h1) = bind-ok (parse_server_name x) _ h in
    let (m, f, h2) = bind-ok (parse_http_host y) _ h1 in cc h2
authenticated-ok (some x) (some y) (some z) tls h =
    let (n, e, h1) = bind-ok (parse_server_name x) _ h in
    let (m, f, h2) = bind-ok (parse_http_host y) _ h1 in
    let (k, g, h3) = bind-ok (parse_bundle_ref z) _ h2 in
    let same : server_authenticated n m k ≡ tls = cc h3 in
    subst (IsConsistentTls 2 (some x) (some y) (some z) https) same
      (refl, (x, refl, e), (y, refl, f), (z, refl, g))

none_of : (o : Option Text) → is_none o ≡ true → o ≡ none
none_of none h = refl
none_of (some x) h = ground arith

tls_for-ok :
    (version : ℕ) (name host bundle : Option Text) (scheme : UpstreamScheme) (empty : Bool)
    (tls : UpstreamTlsPolicy)
    → (is_none name && is_none host && is_none bundle) ≡ empty
    → tls_for version scheme empty (authenticated name host bundle) ≡ ok tls
    → IsConsistentTls version name host bundle scheme tls
tls_for-ok version name host bundle http true tls e h =
    let (v, h1) = guard-ok (version == 1 || version == 2) invalid_tls_policy _ h in
    let same : tls_disabled ≡ tls = cc h1 in
    subst (IsConsistentTls version name host bundle http) same (
      elim (Bool-cases (version == 1)) [
        | inl f ↦ inl ((==_iff version 1).0 f)
        | inr f ↦ inr ((==_iff version 2).0 (ground (arith, f, v)))
      ],
      none_of name (ground arith),
      none_of host (ground arith),
      none_of bundle (ground arith),
    )
tls_for-ok version name host bundle http false tls e h = cc
tls_for-ok version name host bundle https true tls e h = cc
tls_for-ok version name host bundle https false tls e h =
    let (v, h1) = guard-ok (version == 2) invalid_tls_policy _ h in
    let two : version ≡ 2 = (==_iff version 2).0 v in
    rw two (authenticated-ok name host bundle tls h1)

-- An upstream that is accepted over plain HTTP has no TLS field and no TLS, under version 1 or 2; one
-- that is accepted over HTTPS is authenticated: version 2, with a server name, an HTTP host and a
-- trust bundle that are all given and valid. The endpoint is the one of the URL.
pub normalize_upstream_tls_policy-IsConsistentTls :
    (version : ℕ) (url : Text) (name host bundle : Option Text) (p : NormalizedUpstreamPolicy)
    → normalize_upstream_tls_policy version url name host bundle ≡ ok p
    → (parse_endpoint url ≡ ok p.endpoint)
      × IsConsistentTls version name host bundle p.endpoint.scheme p.tls
unfolding normalize_upstream_tls_policy
normalize_upstream_tls_policy-IsConsistentTls version url name host bundle p h =
    let (e, f, h1) = bind-ok (parse_endpoint url) _ h in
    let (v, h2) = guard-ok (not (version == 1 && is_https e.scheme)) invalid_upstream_url _ h1 in
    let (tls, g, h3) =
      bind-ok
        (tls_for version e.scheme (is_none name && is_none host && is_none bundle)
          (authenticated name host bundle))
        _ h2 in
    let same : record { endpoint = e; tls = tls } ≡ p = cc h3 in
    subst
      (λ q.
        (parse_endpoint url ≡ ok q.endpoint)
        × IsConsistentTls version name host bundle q.endpoint.scheme q.tls)
      same (f, tls_for-ok version name host bundle e.scheme _ tls refl g)
