-- ===== src/Domain/Routing/Selection.antt =====
-- The selection of a route (crates/edge-domain/src/lib.rs, `ConfigSnapshot::select_route`).
use edge.Prelude.{
  Memᴰ, arith, ℤ, [], some, inl, false, ◌⊎◌, ◌||◌, All, true, Bool, List, ℕ, subst, ◌≡◌, not,
  Option, inr, none, ◌∷◌, refl, Bool-cases, ◌&&◌, leb_ℤ, sym, ◌∙◌, ∨-true, true-not-false,
}
use edge.Domain.Routing.{
  Route, leb_key, route_key, route_matches, matching, last_max, select_route, leb_specificity,
  later,
}
use edge.Text.{Text}

leb_key_refl : (a : ℤ × (ℕ × Bool)) → leb_key a a ≡ true
leb_key_refl (p, (n, e)) = ground arith

leb_specificity_trans :
    (a b c : ℕ × Bool)
    → leb_specificity a b ≡ true
    → leb_specificity b c ≡ true
    → leb_specificity a c ≡ true
leb_specificity_trans (m, e) (n, f) (k, g) h i = ground arith

leb_ℤ_trans : (a b c : ℤ) → leb_ℤ a b ≡ true → leb_ℤ b c ≡ true → leb_ℤ a c ≡ true
leb_ℤ_trans a b c h i = ground arith

leb_ℤ_total : (a b : ℤ) → leb_ℤ a b ≡ false → leb_ℤ b a ≡ true
leb_ℤ_total a b h = ground arith

-- `not ba || (ab && s)` compares a with b lexicographically.
lexicographic_trans :
    (ab ba bc cb ac ca s t u : Bool)
    → (ab ≡ true → bc ≡ true → ac ≡ true)
    → (ca ≡ true → ab ≡ true → cb ≡ true)
    → (bc ≡ true → ca ≡ true → ba ≡ true)
    → (ba ≡ false → ab ≡ true)
    → (s ≡ true → t ≡ true → u ≡ true)
    → (not ba || (ab && s)) ≡ true
    → (not cb || (bc && t)) ≡ true
    → (not ca || (ac && u)) ≡ true
lexicographic_trans ab ba bc cb ac ca s t u h1 h2 h3 h4 h5 i j = ground arith

leb_key_trans :
    (a b c : ℤ × (ℕ × Bool)) → leb_key a b ≡ true → leb_key b c ≡ true → leb_key a c ≡ true
leb_key_trans (p, s) (q, t) (r, u) h i =
    lexicographic_trans (leb_ℤ p q) (leb_ℤ q p) (leb_ℤ q r) (leb_ℤ r q) (leb_ℤ p r) (leb_ℤ r p)
      (leb_specificity s t) (leb_specificity t u) (leb_specificity s u) (leb_ℤ_trans p q r)
      (leb_ℤ_trans r p q) (leb_ℤ_trans q r p) (leb_ℤ_total q p) (leb_specificity_trans s t u) h i

leb_key_total : (a b : ℤ × (ℕ × Bool)) → leb_key a b ≡ false → leb_key b a ≡ true
leb_key_total (p, (n, e)) (q, (m, f)) h = ground arith

module _ (host path : Text) where
  abbrev same_or_greater : Route → Route → Bool
  same_or_greater r q =
      not (route_matches host path q) || leb_key (route_key path q) (route_key path r)

  abbrev greater : Route → Route → Bool
  greater r q =
      not (route_matches host path q) || not (leb_key (route_key path r) (route_key path q))

  -- The last of the routes with the greatest key, among those that match.
  abbrev pub IsLastGreatest : Route → List Route → Type 0
  IsLastGreatest r [] = ⊥
  IsLastGreatest r (q ∷ rest) =
      ((q ≡ r) × (route_matches host path r ≡ true) × All (λ p. greater r p ≡ true) rest)
      ⊎ ((same_or_greater r q ≡ true) × IsLastGreatest r rest)

  IsLastGreatest-Mem : (r : Route) (routes : List Route) → IsLastGreatest r routes → Memᴰ r routes
  IsLastGreatest-Mem r [] s = absurd s
  IsLastGreatest-Mem r (q ∷ rest) (inl (e, _, _)) = Memᴰ.head (sym e)
  IsLastGreatest-Mem r (q ∷ rest) (inr (_, s)) = Memᴰ.tail (IsLastGreatest-Mem r rest s)

  abbrev pub IsSelection : List Route → Option Route → Type 0
  IsSelection routes none = All (λ r. route_matches host path r ≡ false) routes
  IsSelection routes (some r) = IsLastGreatest r routes

  first_le :
      (r b : Route) (rest : List Route)
      → route_matches host path b ≡ true
      → IsLastGreatest r (b ∷ rest)
      → leb_key (route_key path b) (route_key path r) ≡ true
  first_le r b rest m (inl (e, _, _)) =
      subst (λ q. leb_key (route_key path b) (route_key path q) ≡ true) e
        (leb_key_refl (route_key path b))
  first_le r b rest m (inr (h, _)) = ground arith

  second_le :
      (r b q : Route)
      → leb_key (route_key path b) (route_key path r) ≡ true
      → greater b q ≡ true
      → same_or_greater r q ≡ true
  second_le r b q h g = elim (Bool-cases (leb_key (route_key path b) (route_key path q))) [
    | inl e ↦ ground arith
    | inr e ↦
        let up =
          leb_key_trans (route_key path q) (route_key path b) (route_key path r)
            (leb_key_total (route_key path b) (route_key path q) e) h in
        rw up (∨-true (not (route_matches host path q)))
  ]

  put_second :
      (r b q : Route) (rest : List Route)
      → route_matches host path b ≡ true
      → greater b q ≡ true
      → IsLastGreatest r (b ∷ rest)
      → IsLastGreatest r (b ∷ q ∷ rest)
  put_second r b q rest m g (inl (e, mr, a)) = inl (e, mr, (subst (λ p. greater p q ≡ true) e g, a))
  put_second r b q rest m g (inr (h, s)) =
      inr (h, inr (second_le r b q (first_le r b rest m (inr (h, s))) g, s))

  put_first :
      (r b q : Route) (rest : List Route)
      → route_matches host path q ≡ true
      → leb_key (route_key path b) (route_key path q) ≡ true
      → IsLastGreatest r (q ∷ rest)
      → IsLastGreatest r (b ∷ q ∷ rest)
  put_first r b q rest m h s =
      let up =
        leb_key_trans (route_key path b) (route_key path q) (route_key path r) h
          (first_le r q rest m s) in
      inr (rw up (∨-true (not (route_matches host path b))), s)

  add_first :
      (b q : Route) (rest : List Route)
      → route_matches host path q ≡ true
      → leb_key (route_key path b) (route_key path q) ≡ true
      → (o : Option Route) → IsSelection (q ∷ rest) o
      → IsSelection (b ∷ q ∷ rest) o
  add_first b q rest m h none (e, _) = absurd (true-not-false (sym m ∙ e))
  add_first b q rest m h (some r) s = put_first r b q rest m h s

  add_second :
      (b q : Route) (rest : List Route)
      → route_matches host path b ≡ true
      → greater b q ≡ true
      → (o : Option Route) → IsSelection (b ∷ rest) o
      → IsSelection (b ∷ q ∷ rest) o
  add_second b q rest m g none (e, _) = absurd (true-not-false (sym m ∙ e))
  add_second b q rest m g (some r) s = put_second r b q rest m g s

  add_unmatched :
      (q : Route) (rest : List Route)
      → route_matches host path q ≡ false
      → (o : Option Route) → IsSelection rest o
      → IsSelection (q ∷ rest) o
  add_unmatched q rest e none s = (e, s)
  add_unmatched q rest e (some r) s = inr (rw e refl, s)

  last_max-matching :
      (best : Option Route) (q : Route) (rest : List Route)
      → route_matches host path q ≡ true
      → last_max path best (matching host path (q ∷ rest))
        ≡ last_max path (later path best q) (matching host path rest)
  unfolding last_max
  last_max-matching best q rest e = rw e refl

  last_max-skipped :
      (best : Option Route) (q : Route) (rest : List Route)
      → route_matches host path q ≡ false
      → last_max path best (matching host path (q ∷ rest))
        ≡ last_max path best (matching host path rest)
  last_max-skipped best q rest e = rw e refl

  later_new :
      (b q : Route)
      → leb_key (route_key path b) (route_key path q) ≡ true
      → later path (some b) q ≡ some q
  later_new b q h = rw h refl

  later_old :
      (b q : Route)
      → leb_key (route_key path b) (route_key path q) ≡ false
      → later path (some b) q ≡ some b
  later_old b q h = rw h refl

  last_max-selects :
      (b : Route) (rest : List Route)
      → route_matches host path b ≡ true
      → IsSelection (b ∷ rest) (last_max path (some b) (matching host path rest))
  unfolding last_max
  last_max-selects b [] m = inl (refl, m, tt)
  last_max-selects b (q ∷ rest) m = elim (Bool-cases (route_matches host path q)) [
    | inl e ↦
        subst (IsSelection (b ∷ q ∷ rest)) (sym (last_max-matching (some b) q rest e))
          (elim (Bool-cases (leb_key (route_key path b) (route_key path q))) [
            | inl h ↦
                subst (λ o. IsSelection (b ∷ q ∷ rest) (last_max path o (matching host path rest)))
                  (sym (later_new b q h))
                  (add_first b q rest e h (last_max path (some q) (matching host path rest))
                    (last_max-selects q rest e))
            | inr h ↦
                subst (λ o. IsSelection (b ∷ q ∷ rest) (last_max path o (matching host path rest)))
                  (sym (later_old b q h))
                  (add_second b q rest m (rw h (∨-true (not (route_matches host path q))))
                    (last_max path (some b) (matching host path rest)) (last_max-selects b rest m))
          ])
    | inr e ↦ subst (IsSelection (b ∷ q ∷ rest)) (sym (last_max-skipped (some b) q rest e)) (
        add_second b q rest m (rw e refl) (last_max path (some b) (matching host path rest))
          (last_max-selects b rest m))
  ]

  -- `select_route` returns nothing when no route matches, and otherwise a route that matches, such
  -- that the matching routes before it have at most its priority and path specificity, and the
  -- matching ones behind it less.
  pub select_route-IsSelection :
      (routes : List Route) → IsSelection routes (select_route routes host path)
  unfolding select_route last_max
  select_route-IsSelection [] = tt
  select_route-IsSelection (q ∷ rest) = elim (Bool-cases (route_matches host path q)) [
    | inl e ↦
        subst (IsSelection (q ∷ rest)) (sym (last_max-matching none q rest e))
          (last_max-selects q rest e)
    | inr e ↦ subst (IsSelection (q ∷ rest)) (sym (last_max-skipped none q rest e)) (
        add_unmatched q rest e (last_max path none (matching host path rest))
          (select_route-IsSelection rest))
  ]

  -- A selected route is one of the snapshot's.
  pub select_route-Mem :
      (routes : List Route) (r : Route) → select_route routes host path ≡ some r → Memᴰ r routes
  select_route-Mem routes r e =
      IsLastGreatest-Mem r routes (subst (IsSelection routes) e (select_route-IsSelection routes))
