-- ===== src/Domain/Endpoint/Canonical/Hosts.antt =====
-- Reading back the authority of an endpoint in canonical form.
use mathlib.Core.List.{append_assoc, append-nil}
use edge.Domain.Endpoint.{
  UpstreamEndpoint, bracket, is_ipv4_literal, is_ipv6_literal, is_reserved, parse_authority,
  parse_bracketed, parse_optional_port_with_default, parse_plain, parse_port, split_authority,
}
use edge.Domain.Errors.{ok}
use edge.Prelude.{
  Bool, false, true, ℕ, [], ◌∷◌, ◌++◌, ◌≡◌, refl, any, any-append, is_empty, arith, Bool-cases, inl,
  inr, ◌==◌, ◌∙◌, none, ◌⊎◌, ◌<◌, ◌≤◌, all, if◌then◌else◌, ==_iff,
}
use edge.Text.{Text, is_control, strip_prefix, is_digit, to_ascii_lowercase}
use edge.Text.Decimal.{to_decimal, to_decimal-digits, parse_u16-to_decimal}
use edge.Text.Split.{
  contains, rsplit_once-append, rsplit_once-lacks, split_once-append, split_once-lacks,
}

abbrev pub HasHostForm : Bool → Text → Type 0
HasHostForm true host =
    (is_ipv6_literal host ≡ true) × (contains b']' host ≡ false) × (to_ascii_lowercase host ≡ host)
HasHostForm false host =
    (is_ipv4_literal host ≡ true)
    × (contains b':' host ≡ false)
    × (strip_prefix (b'[' ∷ []) host ≡ none)
    × (is_empty host ≡ false)

pub record IsCanonical (e : UpstreamEndpoint) : Type 0 where
  pub form : HasHostForm e.ipv6 e.host
  pub host_control : any is_control e.host ≡ false
  pub host_reserved : any is_reserved e.host ≡ false
  pub host_slash : contains b'/' e.host ≡ false
  pub base_control : any is_control e.base_path ≡ false
  pub base_reserved : any is_reserved e.base_path ≡ false
  pub base_absolute : (e.base_path ≡ []) ⊎ ((path : Text) × (e.base_path ≡ b'/' ∷ path))
  pub port_low : 0 < e.port
  pub port_high : e.port ≤ 65535

-- `authority_of`, told the default port.
abbrev pub authority : ℕ → Bool → Text → ℕ → Text
authority default ipv6 host port =
    if port == default then bracket ipv6 host else bracket ipv6 host ++ b':' ∷ to_decimal port

digits-lack :
    (p : ℕ → Bool) (t : Text)
    → ((c : ℕ) → is_digit c ≡ true → p c ≡ false)
    → all is_digit t ≡ true
    → any p t ≡ false
digits-lack p [] h e = refl
digits-lack p (c ∷ t) h e = ground (arith, h c, digits-lack p t h)

parse_port-to_decimal :
    (port : ℕ) → 0 < port → port ≤ 65535 → parse_port (to_decimal port) ≡ ok port
unfolding parse_port
parse_port-to_decimal port low high = ground (arith, parse_u16-to_decimal port high)

colon_free : (port : ℕ) → contains b':' (to_decimal port) ≡ false
colon_free port = digits-lack _ (to_decimal port) (λ c h. ground arith) (to_decimal-digits port)

bracket-lacks :
    (p : ℕ → Bool) (ipv6 : Bool) (host : Text)
    → p b'[' ≡ false
    → p b']' ≡ false
    → any p host ≡ false
    → any p (bracket ipv6 host) ≡ false
bracket-lacks p false host a b h = h
bracket-lacks p true host a b h = ground (arith, any-append p host (b']' ∷ []))

pub authority-lacks :
    (p : ℕ → Bool) (default port : ℕ) (ipv6 : Bool) (host : Text)
    → p b'[' ≡ false
    → p b']' ≡ false
    → p b':' ≡ false
    → ((c : ℕ) → is_digit c ≡ true → p c ≡ false)
    → any p host ≡ false
    → any p (authority default ipv6 host port) ≡ false
authority-lacks p default port ipv6 host a b c d h =
    let front = bracket-lacks p ipv6 host a b h in
    let digits = digits-lack p (to_decimal port) d (to_decimal-digits port) in
    elim (Bool-cases (port == default)) [
      | inl e ↦ rw e front
      | inr e ↦
          rw e
            (any-append p (bracket ipv6 host) (b':' ∷ to_decimal port) ∙ rw (front, c, digits) refl)
    ]

plain_default :
    (default : ℕ) (host : Text)
    → HasHostForm false host
    → parse_authority default host ≡ ok (host, default, false)
unfolding parse_authority parse_plain
plain_default default host (v4, colon, bare, nonempty) =
    ground (arith, bare, v4, rsplit_once-lacks b':' host colon)

bare_longer :
    (host t : Text)
    → is_empty host ≡ false
    → strip_prefix (b'[' ∷ []) host ≡ none
    → strip_prefix (b'[' ∷ []) (host ++ t) ≡ none
unfolding strip_prefix
bare_longer [] t e h = ground arith
bare_longer (c ∷ host) t e h = ground arith

plain_port :
    (default port : ℕ) (host : Text)
    → HasHostForm false host
    → 0 < port
    → port ≤ 65535
    → parse_authority default (host ++ b':' ∷ to_decimal port) ≡ ok (host, port, false)
unfolding parse_authority parse_plain
plain_port default port host (v4, colon, bare, nonempty) low high = ground (
  arith,
  bare_longer host (b':' ∷ to_decimal port) nonempty bare,
  v4,
  rsplit_once-append b':' host (to_decimal port) (colon_free port),
  parse_port-to_decimal port low high,
)

bracket_default :
    (default : ℕ) (host : Text)
    → HasHostForm true host
    → parse_authority default (bracket true host) ≡ ok (host, default, true)
unfolding parse_authority parse_bracketed strip_prefix parse_optional_port_with_default
bracket_default default host (v6, close, lower) =
    rw (split_once-append b']' host [] close, v6, lower) refl

bracket_port :
    (default port : ℕ) (host : Text)
    → HasHostForm true host
    → 0 < port
    → port ≤ 65535
    → parse_authority default (bracket true host ++ b':' ∷ to_decimal port) ≡ ok (host, port, true)
unfolding parse_authority parse_bracketed strip_prefix parse_optional_port_with_default
bracket_port default port host (v6, close, lower) low high =
    rw
      (
        append_assoc host (b']' ∷ []) (b':' ∷ to_decimal port),
        split_once-append b']' host (b':' ∷ to_decimal port) close,
        v6,
        parse_port-to_decimal port low high,
        lower,
      )
      refl

pub parse_authority-authority :
    (default port : ℕ) (ipv6 : Bool) (host : Text)
    → HasHostForm ipv6 host
    → 0 < port
    → port ≤ 65535
    → parse_authority default (authority default ipv6 host port) ≡ ok (host, port, ipv6)
parse_authority-authority default port true host form low high =
    elim (Bool-cases (port == default)) [
      | inl e ↦ rw (e, (==_iff port default).0 e) (bracket_default default host form)
      | inr e ↦ rw e (bracket_port default port host form low high)
    ]
parse_authority-authority default port false host form low high =
    elim (Bool-cases (port == default)) [
      | inl e ↦ rw (e, (==_iff port default).0 e) (plain_default default host form)
      | inr e ↦ rw e (plain_port default port host form low high)
    ]

not_empty_longer : (s t : Text) → is_empty s ≡ false → is_empty (s ++ t) ≡ false
not_empty_longer [] t e = ground arith
not_empty_longer (c ∷ s) t e = refl

bracket-not-empty :
    (ipv6 : Bool) (host : Text) → HasHostForm ipv6 host → is_empty (bracket ipv6 host) ≡ false
bracket-not-empty true host form = refl
bracket-not-empty false host (v4, colon, bare, nonempty) = nonempty

pub authority-not-empty :
    (default port : ℕ) (ipv6 : Bool) (host : Text)
    → HasHostForm ipv6 host
    → is_empty (authority default ipv6 host port) ≡ false
authority-not-empty default port ipv6 host form =
    let front = bracket-not-empty ipv6 host form in
    elim (Bool-cases (port == default)) [
      | inl e ↦ rw e front
      | inr e ↦ rw e (not_empty_longer (bracket ipv6 host) (b':' ∷ to_decimal port) front)
    ]

pub split_authority-append :
    (a base : Text)
    → contains b'/' a ≡ false
    → (base ≡ []) ⊎ ((path : Text) × (base ≡ b'/' ∷ path))
    → split_authority (a ++ base) ≡ (a, base)
unfolding split_authority
split_authority-append a base h (inl e) =
    let whole : a ++ base ≡ a = rw e (append-nil a) in
    ground (arith, e, whole, split_once-lacks b'/' a h)
split_authority-append a base h (inr (path, e)) =
    rw e (ground (arith, split_once-append b'/' a path h))
