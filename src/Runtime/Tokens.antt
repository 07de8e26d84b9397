-- ===== src/Runtime/Tokens.antt =====
-- crates/edge-core/src/token_allocator.rs: the tokens of connections.
use edge.Prelude.{ℕ, [], ◌-◌, ◌==◌, suc, ◌≤◌, List, arith, ◌≡◌, ◌∷◌, ltb, ◌+◌, if◌then◌else◌}

pub record TokenAllocator : Type 0 where
  pub next : ℕ
  pub recycled : List ℕ

abbrev pub default_allocator : TokenAllocator
default_allocator = record { next = 0; recycled = [] }

-- The end of the vector `recycled` is the head of the list. (`next` counts connections that were open at
-- one time, and does not reach 2^64.)
abbrev pub allocate_from : List ℕ → TokenAllocator → ℕ × TokenAllocator
allocate_from [] a = (a.next, record a { next = a.next + 1 })
allocate_from (token ∷ recycled) a = (token, record a { recycled = recycled })

unfoldable pub allocate : TokenAllocator → ℕ × TokenAllocator
allocate a = allocate_from a.recycled a

unfoldable pub release_token : ℕ → TokenAllocator → TokenAllocator
release_token token a = record a { recycled = token ∷ a.recycled }

abbrev pub count : ℕ → List ℕ → ℕ
count n [] = 0
count n (m ∷ ms) = if n == m then suc (count n ms) else count n ms

-- One occurrence of a token.
abbrev pub remove_one : ℕ → List ℕ → List ℕ
remove_one n [] = []
remove_one n (m ∷ ms) = if n == m then ms else m ∷ remove_one n ms

-- The allocator beside the tokens that are in use: they are released only once.
pub data Reached : TokenAllocator → List ℕ → Type 0 where
  start : Reached default_allocator []
  allocated :
      (a : TokenAllocator) (held : List ℕ)
      → Reached a held
      → Reached (allocate a).1 ((allocate a).0 ∷ held)
  released :
      (a : TokenAllocator) (held : List ℕ) (token : ℕ)
      → Reached a held
      → 1 ≤ count token held
      → Reached (release_token token a) (remove_one token held)

-- Every token below `next` is in use or recycled, once.
abbrev pub Partition : TokenAllocator → List ℕ → Type 0
Partition a held = (n : ℕ) → count n a.recycled + count n held ≡ (if ltb n a.next then 1 else 0)

count-remove_one :
    (n m : ℕ) (ms : List ℕ)
    → 1 ≤ count m ms
    → count n (remove_one m ms) ≡ (if n == m then count n ms - 1 else count n ms)
count-remove_one n m [] h = ground arith
count-remove_one n m (k ∷ ms) h = ground (arith, count-remove_one n m ms)

allocate-Partition :
    (a : TokenAllocator) (held : List ℕ)
    → Partition a held
    → Partition (allocate a).1 ((allocate a).0 ∷ held)
unfolding allocate
allocate-Partition a held p = λ n. ground (arith, p n)

Reached-Partition : (a : TokenAllocator) (held : List ℕ) → Reached a held → Partition a held
unfolding release_token
Reached-Partition _ _ start = λ n. ground arith
Reached-Partition _ _ (allocated a held r) = allocate-Partition a held (Reached-Partition a held r)
Reached-Partition _ _ (released a held token r h) =
    λ n. ground (arith, Reached-Partition a held r n, count-remove_one n token held h)

-- If tokens are released only while they are in use, a token that is allocated is in use nowhere else, and
-- no token that was ever given out is lost: each is in use or recycled, exactly once.
pub allocate_fresh :
    (a : TokenAllocator) (held : List ℕ)
    → Reached a held
    → (count (allocate a).0 held ≡ 0) × Partition a held
unfolding allocate
allocate_fresh a held r =
    let p = Reached-Partition a held r in (ground (arith, p (allocate a).0), p)
