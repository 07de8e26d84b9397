-- ===== src/Domain/Routing.antt =====
-- crates/edge-domain/src/lib.rs: hosts, paths and the selection of a route. Identifiers are texts.
pub mod Paths
pub mod Selection
use edge.Text.{
  Text, trim, trim_end_matches, to_ascii_lowercase, byte_len, text_eq, starts_with, strip_prefix,
}
use edge.Prelude.{
  ℕ, if◌then◌else◌, [], none, ◌∷◌, false, not, leb_ℤ, ltb, Option, ℤ, ◌||◌, ◌==◌, true, ◌&&◌, any,
  Bool, List, some,
}

unfoldable pub normalize_host : Text → Text
normalize_host host = to_ascii_lowercase (trim_end_matches b'.' (trim host))

abbrev pub with_slash : Text → Text
with_slash [] = b'/' ∷ []
with_slash (c ∷ t) = if c == b'/' then c ∷ t else b'/' ∷ c ∷ t

unfoldable pub normalize_path : Text → Text
normalize_path path =
    let slashed = with_slash (trim path) in
    if ltb 1 (byte_len slashed) then trim_end_matches b'/' slashed else slashed

pub record HostMatch : Type 0 where
  pub normalized : Text

abbrev pub exact_host : Text → HostMatch
exact_host host = record { normalized = normalize_host host }

unfoldable pub host_matches : HostMatch → Text → Bool
host_matches m host = text_eq m.normalized (normalize_host host)

pub record PathMatch : Type 0 where
  pub prefix : Text
  pub exact : Bool

abbrev pub prefix_path : Text → PathMatch
prefix_path path = record { prefix = normalize_path path; exact = false }

abbrev pub exact_path : Text → PathMatch
exact_path path = record { prefix = normalize_path path; exact = true }

abbrev pub continues : Option Text → Bool
continues none = false
continues (some remaining) = starts_with b'/' remaining

unfoldable pub path_matches : PathMatch → Text → Bool
path_matches m raw =
    let path = normalize_path raw in
    if m.exact
    then text_eq path m.prefix
    else if text_eq m.prefix (b'/' ∷ [])
    then true
    else text_eq path m.prefix || continues (strip_prefix m.prefix path)

pub record RouteMatch : Type 0 where
  pub hosts : List HostMatch
  pub paths : List PathMatch

unfoldable pub route_match_matches : RouteMatch → Text → Text → Bool
route_match_matches m host path =
    any (λ h. host_matches h host) m.hosts && any (λ p. path_matches p path) m.paths

-- The order of `(usize, bool)` and of `(i32, (usize, bool))`.
abbrev pub leb_specificity : ℕ × Bool → ℕ × Bool → Bool
leb_specificity (m, e) (n, f) = ltb m n || (m == n && (not e || f))

abbrev pub leb_key : ℤ × (ℕ × Bool) → ℤ × (ℕ × Bool) → Bool
leb_key (p, s) (q, t) = not (leb_ℤ q p) || (leb_ℤ p q && leb_specificity s t)

-- The largest of `best` and the specificities of the paths that match.
unfoldable pub specificity_from : ℕ × Bool → Text → List PathMatch → ℕ × Bool
specificity_from best path [] = best
specificity_from best path (m ∷ ms) =
    let own : ℕ × Bool = (byte_len m.prefix, m.exact) in
    specificity_from
      (if path_matches m path then (if leb_specificity best own then own else best) else best) path
      ms

-- `(0, false)`, the value for no match, is the least of the keys.
unfoldable pub best_path_specificity : RouteMatch → Text → ℕ × Bool
best_path_specificity m path = specificity_from (0, false) path m.paths

pub record Route : Type 0 where
  pub id : Text
  pub route_match : RouteMatch
  pub service_id : Text
  pub priority : ℤ
  pub enabled : Bool
  pub redirect_http_to_https : Bool
  pub certificate_resolver_id : Option Text
  pub certificate_ref : Option Text

unfoldable pub route_matches : Text → Text → Route → Bool
route_matches host path r = r.enabled && route_match_matches r.route_match host path

abbrev pub route_key : Text → Route → ℤ × (ℕ × Bool)
route_key path r = (r.priority, best_path_specificity r.route_match path)

-- `max_by_key`: the last of the greatest.
abbrev pub later : Text → Option Route → Route → Option Route
later path none r = some r
later path (some best) r =
    if leb_key (route_key path best) (route_key path r) then some r else some best

unfoldable pub last_max : Text → Option Route → List Route → Option Route
last_max path best [] = best
last_max path best (r ∷ rs) = last_max path (later path best r) rs

abbrev pub matching : Text → Text → List Route → List Route
matching host path [] = []
matching host path (r ∷ rs) =
    if route_matches host path r then r ∷ matching host path rs else matching host path rs

unfoldable pub select_route : List Route → Text → Text → Option Route
select_route routes host path = last_max path none (matching host path routes)
