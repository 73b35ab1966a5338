-- ===== src/Core/BufferPool/Memory.antt =====
-- mycppwebfw/include/mycppwebfw/core/buffer_pool.h: the memory limit.
use gin_cpp.Base.{
  ℕ, ◌+◌, ◌*◌, ◌%◌, ◌^◌, ◌≤◌, ◌<◌, ◌≡◌, refl, ap, ◌∙◌, ◌↔◌, inl, inr, none, List, [], ◌∷◌, arith,
  ltb, lt→ltb, Bool-cases,
}
use gin_cpp.Core.BufferPool.{BufferPool, acquire_from, acquire, get_current_memory_usage}

word_small : (n : ℕ) → n < 2 ^ 64 → n % 2 ^ 64 ≡ n
word_small n l = omega arith

next_usage :
    (t s m : ℕ)
    → t + 1 < 2 ^ 64
    → t * s ≤ m
    → m + s < 2 ^ 64
    → ((t + 1) % 2 ^ 64 * s) % 2 ^ 64 ≡ t * s + s
next_usage t s m l u v =
    rw (word_small (t + 1) l)
      (ap (λ n. n % 2 ^ 64) (grind arith) ∙ word_small (t * s + s) (omega arith))

Bounds : BufferPool → List ℕ → Type 0
Bounds p bs =
    (get_current_memory_usage (acquire_from p bs).left ≤ p.max_memory)
    × (((acquire_from p bs).buffer ≡ none)
        ↔ (bs ≡ []) × (p.max_memory < get_current_memory_usage p + p.buffer_size))

acquire_from-Bounds :
    (p : BufferPool) (bs : List ℕ)
    → 0 < p.max_memory
    → p.max_memory + p.buffer_size < 2 ^ 64
    → p.total_allocated + 1 < 2 ^ 64
    → p.total_allocated * p.buffer_size ≤ p.max_memory
    → Bounds p bs
unfolding Bounds get_current_memory_usage
acquire_from-Bounds p (b ∷ bs) m l t u =
    (ground (arith, used), ((λ e. ground arith), (λ e. ground arith)))
  where
    used : (p.total_allocated * p.buffer_size) % 2 ^ 64 ≡ p.total_allocated * p.buffer_size
    used = word_small _ (omega arith)
acquire_from-Bounds p [] m l t u =
    elim (Bool-cases (ltb p.max_memory (p.total_allocated * p.buffer_size + p.buffer_size))) [
      | inl c ↦
          rw (lt→ltb 0 p.max_memory m, more, c)
            (ground (arith, used), ((λ e. (refl, ground (arith, used))), (λ e. refl)))
      | inr c ↦
          rw (lt→ltb 0 p.max_memory m, more, c)
            (ground (arith, more), ((λ e. ground arith), (λ e. ground (arith, used))))
    ]
  where
    used : (p.total_allocated * p.buffer_size) % 2 ^ 64 ≡ p.total_allocated * p.buffer_size
    used = word_small _ (omega arith)

    more :
        ((p.total_allocated + 1) % 2 ^ 64 * p.buffer_size) % 2 ^ 64
        ≡ p.total_allocated * p.buffer_size + p.buffer_size
    more = next_usage p.total_allocated p.buffer_size p.max_memory t u l

-- Under a limit that the memory in use respects, far enough from 2 ^ 64, `acquire` keeps it
-- respected; and it gives null exactly where the pool is empty and one buffer more would exceed it.
pub acquire-memory :
    (p : BufferPool)
    → 0 < p.max_memory
    → p.max_memory + p.buffer_size < 2 ^ 64
    → p.total_allocated + 1 < 2 ^ 64
    → p.total_allocated * p.buffer_size ≤ p.max_memory
    → (get_current_memory_usage (acquire p).left ≤ p.max_memory)
      × (((acquire p).buffer ≡ none)
          ↔ (p.pool ≡ []) × (p.max_memory < get_current_memory_usage p + p.buffer_size))
unfolding acquire Bounds
acquire-memory p m l t u = acquire_from-Bounds p p.pool m l t u
