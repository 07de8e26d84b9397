-- ===== src/Domain/Endpoint/Canonical.antt =====
-- The URL of an endpoint is its canonical form (crates/edge-domain/src/lib.rs, `UpstreamEndpoint`).
mod Hosts
mod Lowercase
mod Parsed
use edge.Domain.Endpoint.{
  UpstreamEndpoint, as_url, parse_endpoint, parse_scheme, split_authority, authority_of, http,
  https, is_reserved, default_port, invalid_upstream_url, bracket, scheme_name, parse_authority,
  UpstreamScheme,
}
use edge.Domain.Errors.{ok, Result, Result-cases, ◌>>=◌, ◌>>◌, ok_or, guard}
use edge.Prelude.{
  Bool, false, true, ℕ, [], ◌∷◌, ◌++◌, ◌≡◌, refl, any, any-append, is_empty, arith, Bool-cases, inl,
  inr, ◌||◌, ◌==◌, ◌∙◌, ap, sym, some, subst, Option-cases, not,
}
use edge.Text.{Text, is_control, txt, strip_prefix, to_ascii_lower}
use edge.Text.Split.{contains}
use edge.Domain.Endpoint.Canonical.Hosts.{
  IsCanonical, authority, parse_authority-authority, authority-lacks, authority-not-empty,
  split_authority-append, HasHostForm,
}
use edge.Domain.Endpoint.Canonical.Parsed.{
  IsPort, Inherits, front-Inherits, back-Inherits, parse_authority-form, parse_scheme-Inherits,
  split_authority-parts,
}

default_port-IsPort : (s : UpstreamScheme) → IsPort (default_port s)
default_port-IsPort http = (omega arith, omega arith)
default_port-IsPort https = (omega arith, omega arith)

lower_control : (c : ℕ) → is_control (to_ascii_lower c) ≡ is_control c
lower_control c = ground arith

lower_reserved : (c : ℕ) → is_reserved (to_ascii_lower c) ≡ is_reserved c
lower_reserved c = ground arith

lower_slash : (c : ℕ) → (to_ascii_lower c == b'/') ≡ (c == b'/')
lower_slash c = ground arith

-- The last steps of the parser, behind the split of the authority.
finished-IsCanonical :
    (value a base host : Text) (s : UpstreamScheme) (port : ℕ) (ipv6 : Bool)
    → (any is_control value || any is_reserved value) ≡ false
    → parse_scheme value ≡ some (s, a ++ base)
    → split_authority (a ++ base) ≡ (a, base)
    → parse_authority (default_port s) a ≡ ok (host, port, ipv6)
    → IsCanonical (record { scheme = s; host = host; port = port; base_path = base; ipv6 = ipv6 })
finished-IsCanonical value a base host s port ipv6 clean sch cut auth =
    let rest = parse_scheme-Inherits value (a ++ base) s sch in
    let (slash_free, same, absolute) = split_authority-parts (a ++ base) a base cut in
    let (form, (low, high), part) =
      parse_authority-form (default_port s) a host port ipv6 (default_port-IsPort s) auth in
    let no_control : any is_control (a ++ base) ≡ false =
      rest is_control lower_control (ground arith) in
    let no_reserved : any is_reserved (a ++ base) ≡ false =
      rest is_reserved lower_reserved (ground arith) in
    record {
      form = form;
      host_control =
          part is_control lower_control (front-Inherits a base is_control lower_control no_control);
      host_reserved =
          part is_reserved lower_reserved
            (front-Inherits a base is_reserved lower_reserved no_reserved);
      host_slash = part (λ c. c == b'/') lower_slash slash_free;
      base_control = back-Inherits a base is_control lower_control no_control;
      base_reserved = back-Inherits a base is_reserved lower_reserved no_reserved;
      base_absolute = absolute;
      port_low = low;
      port_high = high;
    }

abbrev after_split : UpstreamScheme → Text → Text → Result UpstreamEndpoint
after_split scheme authority base_path = do
  guard (not (is_empty authority)) invalid_upstream_url
  (host, port, ipv6) ← parse_authority (default_port scheme) authority
  ok (record { scheme = scheme; host = host; port = port; base_path = base_path; ipv6 = ipv6 })

split-IsCanonical :
    (value remainder a base : Text) (e : UpstreamEndpoint) (s : UpstreamScheme)
    → (any is_control value || any is_reserved value) ≡ false
    → parse_scheme value ≡ some (s, remainder)
    → split_authority remainder ≡ (a, base)
    → after_split s a base ≡ ok e
    → IsCanonical e
split-IsCanonical value remainder a base e s clean sch cut h =
    elim (Result-cases (parse_authority (default_port s) a)) [
      | inl ((host, port, ipv6), g) ↦
          let (_, same, _) = split_authority-parts remainder a base cut in
          let built : record { scheme = s; host = host; port = port; base_path = base; ipv6 = ipv6 }
              ≡ e =
            ground (arith, g, h) in
          subst IsCanonical built (
            finished-IsCanonical value a base host s port ipv6 clean
              (subst (λ r. parse_scheme value ≡ some (s, r)) same sch)
              (subst (λ r. split_authority r ≡ (a, base)) same cut) g)
      | inr (z, g) ↦ absurd (ground (arith, g, h))
    ]

parse_endpoint-IsCanonical :
    (value : Text) (e : UpstreamEndpoint) → parse_endpoint value ≡ ok e → IsCanonical e
unfolding parse_endpoint
parse_endpoint-IsCanonical value e h =
    elim (Bool-cases (any is_control value || any is_reserved value)) [
      | inl c ↦ absurd (ground (arith, c, h))
      | inr c ↦ elim (Option-cases (parse_scheme value)) [
        | inl f ↦ absurd (ground (arith, c, f, h))
        | inr ((s, remainder), f) ↦
            split-IsCanonical value remainder (split_authority remainder).0
              (split_authority remainder).1 e s c f refl (ground (arith, c, f, h))
      ]
    ]

parse_scheme-as_url :
    (e : UpstreamEndpoint)
    → parse_scheme (as_url e) ≡ some (e.scheme, authority_of e ++ e.base_path)
unfolding parse_scheme as_url strip_prefix
parse_scheme-as_url e = by_scheme e.scheme (authority_of e) e.base_path
  where
    by_scheme :
        (s : UpstreamScheme) (a base : Text)
        → parse_scheme (scheme_name s ++ txt "://" ++ a ++ base) ≡ some (s, a ++ base)
    by_scheme http a base = refl
    by_scheme https a base = refl

lacks_prefixed :
    (p : ℕ → Bool) (s : UpstreamScheme) (a base : Text)
    → any p (scheme_name s ++ txt "://") ≡ false
    → any p a ≡ false
    → any p base ≡ false
    → any p (scheme_name s ++ txt "://" ++ a ++ base) ≡ false
lacks_prefixed p s a base h i j =
    any-append p (scheme_name s ++ txt "://" ++ a) base
    ∙ rw (any-append p (scheme_name s ++ txt "://") a, h, i, j) refl

scheme_control : (s : UpstreamScheme) → any is_control (scheme_name s ++ txt "://") ≡ false
scheme_control http = refl
scheme_control https = refl

scheme_reserved : (s : UpstreamScheme) → any is_reserved (scheme_name s ++ txt "://") ≡ false
scheme_reserved http = refl
scheme_reserved https = refl

parse_endpoint-as_url : (e : UpstreamEndpoint) → IsCanonical e → parse_endpoint (as_url e) ≡ ok e
unfolding parse_endpoint
parse_endpoint-as_url e c =
    let port = default_port e.scheme in
    let control : any is_control (as_url e) ≡ false =
      unfold as_url authority_of in
      lacks_prefixed is_control e.scheme (authority_of e) e.base_path (scheme_control e.scheme)
        (authority-lacks is_control port e.port e.ipv6 e.host refl refl refl (λ d h. ground arith)
          c.host_control)
        c.base_control in
    let reserved : any is_reserved (as_url e) ≡ false =
      unfold as_url authority_of in
      lacks_prefixed is_reserved e.scheme (authority_of e) e.base_path (scheme_reserved e.scheme)
        (authority-lacks is_reserved port e.port e.ipv6 e.host refl refl refl (λ d h. ground arith)
          c.host_reserved)
        c.base_reserved in
    let cut : split_authority (authority_of e ++ e.base_path) ≡ (authority_of e, e.base_path) =
      unfold authority_of in
      split_authority-append (authority_of e) e.base_path
        (authority-lacks (λ d. d == b'/') port e.port e.ipv6 e.host refl refl refl
          (λ d h. ground arith) c.host_slash)
        c.base_absolute in
    let filled : is_empty (authority_of e) ≡ false =
      unfold authority_of in authority-not-empty port e.port e.ipv6 e.host c.form in
    let read : parse_authority port (authority_of e) ≡ ok (e.host, e.port, e.ipv6) =
      unfold authority_of in
      parse_authority-authority port e.port e.ipv6 e.host c.form c.port_low c.port_high in
    rw (control, reserved, parse_scheme-as_url e, cut, filled, read) refl

-- The URL that an accepted endpoint prints is accepted again, as the same endpoint.
pub parse_endpoint-as_url-parsed :
    (value : Text) (e : UpstreamEndpoint)
    → parse_endpoint value ≡ ok e
    → parse_endpoint (as_url e) ≡ ok e
parse_endpoint-as_url-parsed value e h =
    parse_endpoint-as_url e (parse_endpoint-IsCanonical value e h)
