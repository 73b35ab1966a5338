-- ===== src/Core/BufferPool/Ownership.antt =====
-- mycppwebfw/include/mycppwebfw/core/buffer_pool.h: who owns a buffer.
use gin_cpp.Base.{
  ℕ, zero, suc, ◌+◌, ◌*◌, ◌%◌, ◌^◌, ◌≤◌, ◌<◌, ◌≡◌, refl, ap, subst, inl, inr, true, ◌&&◌, none,
  some, List, [], ◌∷◌, arith, ltb, ◌==◌, if◌then◌else◌, Bool-cases, Option-cases, length, get_elem?,
}
use gin_cpp.Core.BufferPool.{
  BufferPool, numbered, create_pool, Acquired, allocate, acquire_from, acquire, release,
  set_max_memory_limit,
}

-- The pool and the buffers that its clients hold.
pub record Holding : Type 0 where
  pub pool : BufferPool
  pub held : List ℕ

-- A call by some client; `releases i` gives back the i-th of the held buffers.
pub data PoolCall : Type 0 where
  acquires : PoolCall
  releases : ℕ → PoolCall
  limits : ℕ → PoolCall

unfoldable pub remove_at : ℕ → List ℕ → List ℕ
remove_at i [] = []
remove_at zero (b ∷ bs) = bs
remove_at (suc i) (b ∷ bs) = b ∷ remove_at i bs

abbrev pub hold : Acquired → List ℕ → Holding
hold a held = elim a.buffer [
  | none ↦ record { pool = a.left; held = held }
  | some b ↦ record { pool = a.left; held = b ∷ held }
]

unfoldable pub pool_call : Holding → PoolCall → Holding
unfolding acquire release set_max_memory_limit remove_at
pool_call h acquires = hold (acquire h.pool) h.held
pool_call h (releases i) = elim (get_elem? h.held i) [
  | none ↦ h
  | some b ↦ record { pool = release h.pool b; held = remove_at i h.held }
]
pool_call h (limits n) = record h { pool = set_max_memory_limit h.pool n }

unfoldable pub pool_calls : Holding → List PoolCall → Holding
unfolding pool_call
pool_calls h [] = h
pool_calls h (c ∷ cs) = pool_calls (pool_call h c) cs

unfoldable pub count : ℕ → List ℕ → ℕ
count b [] = 0
count b (c ∷ cs) = if c == b then 1 + count b cs else count b cs

-- No buffer is in two places, none is of a number not yet given, and the counter counts the buffers
-- in the pool and with the clients, of which there are at most `most`.
pub record IsOwned (most : ℕ) (h : Holding) : Type 0 where
  pub single : (b : ℕ) → count b h.pool.pool + count b h.held ≤ 1
  pub given : (b : ℕ) → h.pool.fresh ≤ b → count b h.pool.pool + count b h.held ≡ 0
  pub counted : h.pool.total_allocated ≡ length h.pool.pool + length h.held
  pub bounded : length h.pool.pool ≤ h.pool.pool_size
  pub room : h.pool.total_allocated ≤ most

count-numbered :
    (b start n : ℕ)
    → (b < start → count b (numbered start n) ≡ 0)
      × (start + n ≤ b → count b (numbered start n) ≡ 0)
      × (count b (numbered start n) ≤ 1)
unfolding count numbered
count-numbered b start zero = (λ l. refl, λ l. refl, omega arith)
count-numbered b start (suc n) = ground (arith, count-numbered b (start + 1) n)

length-numbered : (start n : ℕ) → length (numbered start n) ≡ n
unfolding numbered
length-numbered start zero = refl
length-numbered start (suc n) = ap suc (length-numbered (start + 1) n)

remove_at-count :
    (i b c : ℕ) (bs : List ℕ)
    → get_elem? bs i ≡ some b
    → (count c bs ≡ (if b == c then 1 else 0) + count c (remove_at i bs))
      × (length bs ≡ 1 + length (remove_at i bs))
unfolding remove_at count
remove_at-count i b c [] e = absurd (ground arith)
remove_at-count zero b c (d ∷ bs) e = ground arith
remove_at-count (suc i) b c (d ∷ bs) e = ground (arith, remove_at-count i b c bs e)

pub create_pool-IsOwned :
    (size n most : ℕ) → IsOwned n (record { pool = create_pool size n most; held = [] })
unfolding create_pool count
create_pool-IsOwned size n most = record {
  single = λ b. ground (arith, count-numbered b 0 n);
  given = λ b l. ground (arith, count-numbered b 0 n);
  counted = ground (arith, length-numbered 0 n);
  bounded = ground (arith, length-numbered 0 n);
  room = omega arith;
}

allocate-IsOwned :
    (h : Holding) (most : ℕ)
    → most + 1 < 2 ^ 64
    → IsOwned most h
    → IsOwned (most + 1) (hold (allocate h.pool) h.held)
unfolding count
allocate-IsOwned h most l o =
    elim (Bool-cases (
      ltb 0 h.pool.max_memory
      && ltb h.pool.max_memory
          (((h.pool.total_allocated + 1) % 2 ^ 64 * h.pool.buffer_size) % 2 ^ 64))) [
            | inl c ↦ rw c (record {
              single = o.single;
              given = o.given;
              counted = o.counted;
              bounded = o.bounded;
              room = ground arith;
            })
            | inr c ↦ rw c (record {
              single = λ b. ground (arith, o.single b, o.given b);
              given = λ b k. ground (arith, o.given b);
              counted = ground (arith, o.counted, o.room);
              bounded = o.bounded;
              room = ground (arith, o.room);
            })
          ]

pub acquire_from-IsOwned :
    (h : Holding) (most : ℕ) (bs : List ℕ)
    → h.pool.pool ≡ bs
    → most + 1 < 2 ^ 64
    → IsOwned most h
    → IsOwned (most + 1) (hold (acquire_from h.pool bs) h.held)
unfolding count
acquire_from-IsOwned h most [] e l o = allocate-IsOwned h most l o
acquire_from-IsOwned h most (d ∷ bs) e l o = record {
  single = λ b. ground (arith, o.single b, e);
  given = λ b k. ground (arith, o.given b, e);
  counted = ground (arith, o.counted, e);
  bounded = ground (arith, o.bounded, e);
  room = ground (arith, o.room);
}

-- The rest of the held buffers without one b.
abbrev pub Loses : ℕ → List ℕ → List ℕ → Type 0
Loses b held rest =
    ((d : ℕ) → count d held ≡ (if b == d then 1 else 0) + count d rest)
    × (length held ≡ 1 + length rest)

pub release-IsOwned :
    (p : BufferPool) (held rest : List ℕ) (most b : ℕ)
    → Loses b held rest
    → IsOwned most (record { pool = p; held = held })
    → IsOwned most (record { pool = release p b; held = rest })
unfolding release count
release-IsOwned p held rest most b (f, n) o = elim (Bool-cases (ltb (length p.pool) p.pool_size)) [
  | inl c ↦ rw c (record {
    single = λ d. ground (arith, o.single d, f d);
    given = λ d k. ground (arith, o.given d, f d);
    counted = ground (arith, o.counted, n);
    bounded = ground (arith, c);
    room = o.room;
  })
  | inr c ↦
      rw (c, some_left)
        (record {
          single = λ d. ground (arith, o.single d, f d);
          given = λ d k. ground (arith, o.given d, f d);
          counted = ground (arith, o.counted, n);
          bounded = o.bounded;
          room = ground (arith, o.room);
        })
]
  where
    some_left : ltb 0 p.total_allocated ≡ true
    some_left = ground (arith, o.counted, n)

-- Only how often each buffer is held counts.
pub IsOwned-held :
    (p : BufferPool) (held rest : List ℕ) (most : ℕ)
    → ((d : ℕ) → count d held ≡ count d rest)
    → length held ≡ length rest
    → IsOwned most (record { pool = p; held = held })
    → IsOwned most (record { pool = p; held = rest })
IsOwned-held p held rest most f n o = record {
  single = λ d. omega (arith, o.single d, f d);
  given = λ d k. omega (arith, o.given d k, f d);
  counted = omega (arith, o.counted, n);
  bounded = o.bounded;
  room = o.room;
}

pub IsOwned-more : (h : Holding) (most more : ℕ) → most ≤ more → IsOwned most h → IsOwned more h
IsOwned-more h most more l o = record {
  single = o.single;
  given = o.given;
  counted = o.counted;
  bounded = o.bounded;
  room = omega (arith, l, o.room);
}

pool_call-IsOwned :
    (h : Holding) (most : ℕ) (c : PoolCall)
    → most + 1 < 2 ^ 64
    → IsOwned most h
    → IsOwned (most + 1) (pool_call h c)
unfolding pool_call acquire set_max_memory_limit
pool_call-IsOwned h most acquires l o = acquire_from-IsOwned h most h.pool.pool refl l o
pool_call-IsOwned h most (releases i) l o = elim (Option-cases (get_elem? h.held i)) [
  | inl e ↦
      rw (e, pool_call)
        (record {
          single = o.single;
          given = o.given;
          counted = o.counted;
          bounded = o.bounded;
          room = ground arith;
        })
  | inr (b, e) ↦
      rw (e, pool_call)
        (IsOwned-more _ most (most + 1) (omega arith) (
          release-IsOwned h.pool h.held (remove_at i h.held) most b
            ((λ d. (remove_at-count i b d h.held e).0), (remove_at-count i b b h.held e).1) o))
]
pool_call-IsOwned h most (limits n) l o = record {
  single = o.single;
  given = o.given;
  counted = o.counted;
  bounded = o.bounded;
  room = ground (arith, o.room);
}

pool_calls-IsOwned :
    (h : Holding) (most : ℕ) (cs : List PoolCall)
    → most + length cs < 2 ^ 64
    → IsOwned most h
    → IsOwned (most + length cs) (pool_calls h cs)
unfolding pool_calls
pool_calls-IsOwned h most [] l o = subst (λ n. IsOwned n (pool_calls h [])) (ground arith) o
pool_calls-IsOwned h most (c ∷ cs) l o =
    subst (λ n. IsOwned n (pool_calls (pool_call h c) cs)) (ground arith)
      (pool_calls-IsOwned (pool_call h c) (most + 1) cs (ground arith)
        (pool_call-IsOwned h most c (ground arith) o))

-- After any calls on a new pool, each held buffer given back at most once, every buffer is in the
-- pool once or with one client once, but not both; total_allocated is the number of all these, and
-- the pool holds at most pool_size. The counter is 64 bits wide, so that many buffers and calls are excluded.
pub create_pool-pool_calls :
    (size n most : ℕ) (cs : List PoolCall)
    → n + length cs < 2 ^ 64
    → IsOwned (n + length cs) (pool_calls (record { pool = create_pool size n most; held = [] }) cs)
create_pool-pool_calls size n most cs l =
    pool_calls-IsOwned _ n cs l (create_pool-IsOwned size n most)
