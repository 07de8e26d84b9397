-- ===== src/Http/Request/Buffer/Collected.antt =====
-- The chunks that a request buffer collects.
use mathlib.Core.List.{append_assoc}
use edge.Prelude.{
  ℕ, ◌≤◌, some, ◌≡◌, length, ◌+◌, ◌++◌, ◌∷◌, inl, ◌-◌, [], zero, ◌∙◌, ap, inr, none, Option, arith,
  subst, suc, take, Option-cases,
}
use edge.Domain.Errors.{ok, Result-cases}
use edge.Http.Request.{HttpLimits}
use edge.Http.Request.Buffer.{
  incomplete, find_end, ClientRequestBuffer, after_search, default_request_buffer, push,
  take_complete, complete, expected_request_body_len_from_header_bytes,
}
use edge.Text.{find_blank_line, Bytes}

find_blank_line-append :
    (xs ys : Bytes) (n : ℕ) → find_blank_line xs ≡ some n → find_blank_line (xs ++ ys) ≡ some n
unfolding find_blank_line
find_blank_line-append [] ys n h = absurd (ground arith)
find_blank_line-append (a ∷ []) ys n h = absurd (ground arith)
find_blank_line-append (a ∷ b ∷ []) ys n h = absurd (ground arith)
find_blank_line-append (a ∷ b ∷ c ∷ []) ys n h = absurd (ground arith)
find_blank_line-append (a ∷ b ∷ c ∷ d ∷ xs) ys zero h = ground arith
find_blank_line-append (a ∷ b ∷ c ∷ d ∷ xs) ys (suc n) h =
    ground (arith, find_blank_line-append (b ∷ c ∷ d ∷ xs) ys n)

-- The answer `incomplete` leaves the buffer as it is, and says how long it may be.
after_search-incomplete :
    (o : Option ℕ) (limits : HttpLimits) (b b' : ClientRequestBuffer)
    → after_search o limits b ≡ (ok incomplete, b')
    → (b ≡ b') × (length b.bytes ≤ limits.max_header_bytes + 4 + limits.max_body_bytes)
unfolding after_search take_complete
after_search-incomplete none limits b b' h = (ground arith, ground arith)
after_search-incomplete (some n) limits b b' h =
    elim (Result-cases (expected_request_body_len_from_header_bytes (take (n - 4) b.bytes))) [
      | inl (m, e) ↦ (ground arith, ground arith)
      | inr (x, e) ↦ absurd (ground arith)
    ]

after_search-complete :
    (o : Option ℕ) (limits : HttpLimits) (b b' : ClientRequestBuffer) (bytes : Bytes)
    → after_search o limits b ≡ (ok (complete bytes), b')
    → (bytes ≡ b.bytes) × (b' ≡ default_request_buffer)
unfolding after_search take_complete
after_search-complete none limits b b' bytes h = absurd (ground arith)
after_search-complete (some n) limits b b' bytes h =
    elim (Result-cases (expected_request_body_len_from_header_bytes (take (n - 4) b.bytes))) [
      | inl (m, e) ↦ (ground arith, ground arith)
      | inr (x, e) ↦ absurd (ground arith)
    ]

abbrev appended : ClientRequestBuffer → Bytes → ClientRequestBuffer
appended b chunk = find_end (record b { bytes = b.bytes ++ chunk })

find_end-bytes : (b : ClientRequestBuffer) → (find_end b).bytes ≡ b.bytes
unfolding find_end
find_end-bytes b = ground arith

-- The position that the first chunk has left behind is the one that a search of both chunks finds.
appended-appended :
    (first rest : Bytes) (b : ClientRequestBuffer)
    → appended (appended b first) rest ≡ appended b (first ++ rest)
unfolding find_end
appended-appended first rest b = elim (Option-cases b.header_end) [
  | inr (n, e) ↦ ground (arith, e, append_assoc b.bytes first rest)
  | inl e ↦ elim (Option-cases (find_blank_line (b.bytes ++ first))) [
    | inl f ↦ ground (arith, e, f, append_assoc b.bytes first rest)
    | inr (n, f) ↦
        let again = find_blank_line-append (b.bytes ++ first) rest n f in
        ground (arith, e, f, again, append_assoc b.bytes first rest)
  ]
]

-- If a push leaves the request incomplete, pushing the rest afterwards does what one push of both
-- chunks at once does to the buffer from before: the same outcome or error, and the same buffer
-- left behind.
pub push-append :
    (first rest : Bytes) (limits : HttpLimits) (b b' : ClientRequestBuffer)
    → push first limits b ≡ (ok incomplete, b')
    → push rest limits b' ≡ push (first ++ rest) limits b
unfolding push
push-append first rest limits b b' h =
    let (same, _) = after_search-incomplete (appended b first).header_end limits _ b' h in
    subst (λ c. push rest limits c ≡ push (first ++ rest) limits b) same
      (ap (λ c. after_search c.header_end limits c) (appended-appended first rest b))

-- A push that completes a request returns the bytes that were in the buffer followed by the chunk, and
-- leaves an empty buffer.
pub push-complete :
    (chunk : Bytes) (limits : HttpLimits) (b b' : ClientRequestBuffer) (bytes : Bytes)
    → push chunk limits b ≡ (ok (complete bytes), b')
    → (bytes ≡ b.bytes ++ chunk) × (b' ≡ default_request_buffer)
unfolding push
push-complete chunk limits b b' bytes h =
    let (all_bytes, fresh) =
      after_search-complete (appended b chunk).header_end limits _ b' bytes h in
    (all_bytes ∙ find_end-bytes _, fresh)

-- While a request is incomplete, the buffer holds no more than a head and a body within the limits and
-- the blank line between them.
pub push-bound :
    (chunk : Bytes) (limits : HttpLimits) (b b' : ClientRequestBuffer)
    → push chunk limits b ≡ (ok incomplete, b')
    → length b'.bytes ≤ limits.max_header_bytes + 4 + limits.max_body_bytes
unfolding push
push-bound chunk limits b b' h =
    let (same, bound) = after_search-incomplete (appended b chunk).header_end limits _ b' h in
    subst (λ c. length c.bytes ≤ limits.max_header_bytes + 4 + limits.max_body_bytes) same bound
