-- ===== src/Application/Audit/Sampler.antt =====
-- crates/edge-application/src/audit.rs: `AuthFailureAuditSampler`, which thins out the records of failed
-- logins. Its map is keyed by the target.
use edge.Application.Entries.{Entries, get, put, get-put}
use edge.Domain.Audit.{AuditId}
use edge.Prelude.{
  Bool, false, true, ℕ, Option, none, some, [], ◌∷◌, ◌+◌, ◌-◌, ◌<◌, ◌≤◌, ◌==◌, ◌&&◌, ◌||◌, ◌≡◌, any,
  arith, filter, if◌then◌else◌, inl, inr, is_some, leb, length, ltb, not, refl, Bool-cases,
  Option-cases,
}
use edge.Text.{text_eq, text_eq_iff}

abbrev pub Sampler : Type 0
Sampler = Entries AuditId ℕ

-- `Ord` of the identifiers.
unfoldable pub id_lt : AuditId → AuditId → Bool
id_lt [] [] = false
id_lt [] (_ ∷ _) = true
id_lt (_ ∷ _) [] = false
id_lt (a ∷ i) (b ∷ j) = let rest = id_lt i j in ltb a b || (a == b && rest)

-- `(timestamp, target)` of the one entry is less than that of the other.
abbrev is_older : AuditId × ℕ → AuditId × ℕ → Bool
is_older (i, t) (j, u) = ltb t u || (t == u && id_lt i j)

-- The least entry of a list and one more.
unfoldable pub oldest_of : AuditId × ℕ → Sampler → AuditId
unfolding id_lt
oldest_of best [] = best.0
oldest_of best (e ∷ es) = oldest_of (if is_older e best then e else best) es

abbrev remove_key : AuditId → Sampler → Sampler
remove_key k s = filter (λ e. not (text_eq e.0 k)) s

unfoldable pub remove_oldest : Sampler → Sampler
unfolding oldest_of
remove_oldest [] = []
remove_oldest (e ∷ es) = remove_key (oldest_of e es) (e ∷ es)

abbrev is_recent : ℕ → Option ℕ → Bool
is_recent now none = false
is_recent now (some last) = ltb (now - last) 60

unfoldable pub should_record : AuditId → ℕ → Sampler → Bool × Sampler
unfolding remove_oldest
should_record target now s =
    let known = get text_eq target s in
    let kept = if not (is_some known) && leb 1024 (length s) then remove_oldest s else s in
    if is_recent now known then (false, s) else (true, put text_eq target now kept)

length-put : (k : AuditId) (now : ℕ) (s : Sampler) → length (put text_eq k now s) ≤ length s + 1
unfolding put
length-put k now [] = omega arith
length-put k now ((j, w) ∷ s) = elim (Bool-cases (text_eq j k)) [
  | inl e ↦ rw e (omega arith)
  | inr e ↦ rw e (omega (arith, length-put k now s))
]

length-put_known :
    (k : AuditId) (now t : ℕ) (s : Sampler)
    → get text_eq k s ≡ some t
    → length (put text_eq k now s) ≡ length s
unfolding put get
length-put_known k now t [] h = cc
length-put_known k now t ((j, w) ∷ s) h = elim (Bool-cases (text_eq j k)) [
  | inl e ↦ rw e refl
  | inr e ↦ rw e (omega (arith, length-put_known k now t s (ground (arith, e, h))))
]

length-filter : (p : AuditId × ℕ → Bool) (s : Sampler) → length (filter p s) ≤ length s
length-filter p [] = omega arith
length-filter p (e ∷ es) = ground (arith, length-filter p es)

length-remove_key :
    (k : AuditId) (s : Sampler)
    → any (λ e. text_eq e.0 k) s ≡ true
    → length (remove_key k s) < length s
length-remove_key k [] h = cc
length-remove_key k (e ∷ es) h = elim (Bool-cases (text_eq e.0 k)) [
  | inl same ↦ rw same (omega (arith, length-filter (λ e. not (text_eq e.0 k)) es))
  | inr other ↦ rw other (omega (arith, length-remove_key k es (ground (arith, other, h))))
]

oldest_of-any :
    (best : AuditId × ℕ) (s : Sampler) (k : AuditId)
    → oldest_of best s ≡ k
    → (text_eq best.0 k || any (λ e. text_eq e.0 k) s) ≡ true
unfolding oldest_of
oldest_of-any best [] k h = ground (arith, (text_eq_iff best.0 k).1 h)
oldest_of-any best (e ∷ es) k h = elim (Bool-cases (is_older e best)) [
  | inl older ↦ ground (arith, oldest_of-any e es k (ground (arith, older, h)))
  | inr younger ↦ ground (arith, oldest_of-any best es k (ground (arith, younger, h)))
]

length-remove_oldest : (s : Sampler) → 1 ≤ length s → length (remove_oldest s) < length s
unfolding remove_oldest
length-remove_oldest [] h = absurd (omega arith)
length-remove_oldest (e ∷ es) h =
    length-remove_key (oldest_of e es) (e ∷ es) (oldest_of-any e es (oldest_of e es) refl)

room-length :
    (s : Sampler)
    → length s ≤ 1024
    → length (if leb 1024 (length s) then remove_oldest s else s) < 1024
room-length s h = elim (Bool-cases (leb 1024 (length s))) [
  | inl full ↦ rw full (ground (arith, h, full, length-remove_oldest s))
  | inr room ↦ rw room (ground (arith, room))
]

should_record-put :
    (target : AuditId) (now later : ℕ) (s : Sampler)
    → later < now + 60
    → let s' = put text_eq target now s in should_record target later s' ≡ (false, s')
unfolding should_record
should_record-put target now later s h =
    let soon : ltb (later - now) 60 ≡ true = ground (arith, h) in
    rw (get-put text_eq text_eq_iff target now s, soon) refl

length-should_record :
    (target : AuditId) (now : ℕ) (s : Sampler)
    → length s ≤ 1024
    → length (should_record target now s).1 ≤ 1024
unfolding should_record
length-should_record target now s bound = elim (Option-cases (get text_eq target s)) [
  | inl new ↦ rw new (omega (arith, length-put target now _, room-length s bound))
  | inr (t, known) ↦ rw known (elim (Bool-cases (ltb (now - t) 60)) [
    | inl recent ↦ rw recent bound
    | inr old ↦ rw old (omega (arith, bound, length-put_known target now t s known))
  ])
]

-- The sampler keeps to its 1024 targets, and a target whose failure was recorded is not recorded again
-- within a minute, when no other target came between.
pub should_record-bounded :
    (target : AuditId) (now : ℕ) (s : Sampler)
    → length s ≤ 1024
    → let (answer, s') = should_record target now s in
      (length s' ≤ 1024)
      × (answer ≡ true
          → (later : ℕ) → later < now + 60
          → should_record target later s' ≡ (false, s'))
unfolding should_record
should_record-bounded target now s bound = (
  length-should_record target now s bound,
  elim (Bool-cases (is_recent now (get text_eq target s))) [
    | inl recent ↦ rw recent (λ h. cc)
    | inr old ↦ rw old (λ h later soon. should_record-put target now later _ soon)
  ],
)
