-- ===== src/Core/BufferPool.antt =====
-- mycppwebfw/include/mycppwebfw/core/buffer_pool.h. A shared pointer to a buffer is the buffer's number; the mutex
-- makes each operation one step. size_t has 64 bits.
pub mod Ownership
pub mod Memory
mod Tests
use gin_cpp.Base.{
  ℕ, zero, suc, ◌+◌, ◌-◌, ◌*◌, ◌/◌, ◌%◌, ◌^◌, ◌≤◌, ◌<◌, ◌≡◌, refl, sym, ap, subst, ◌∙◌, ◌≢◌, ◌↔◌,
  ◌⊎◌, inl, inr, Bool, true, false, not, ◌&&◌, ◌||◌, Option, none, some, List, [], ◌∷◌, ◌++◌, map,
  arith, ltb, leb, ◌==◌, if◌then◌else◌, ltb→lt, lt→ltb, leb→le, ==_iff, ==_refl, Bool-cases,
  Option-cases, length, get_elem?, set, take, drop, replicate, is_empty, length-append,
  length-replicate, get_elem?-some_lt, get_elem?-none_le, lt_of_get_elem?, Has, Has-cons_map,
  Has-append_left, Has-append_right, Has-append, All-Has, length-set, get_elem?-set_self,
  get_elem?-set_ne, All, All-append, Text, codes, same, same→eq, same_refl, same_iff, apart,
  drop_two_length_append, Free-append, find, starts_with, find_text, contains_text, Free, find-Free,
  find-none-Free, find-append, Free-take-find, find_parts, take-length_append, drop-length_append,
  drop-suc-length_append, starts_with-append, starts_with_parts, lookup, insert, erase,
  lookup-insert, lookup-erase,
}

-- `fresh` is the number of the next buffer that make_shared gives.
pub record BufferPool : Type 0 where
  pub buffer_size : ℕ
  pub pool_size : ℕ
  pub max_memory : ℕ
  pub total_allocated : ℕ
  pub pool : List ℕ
  pub fresh : ℕ

-- One buffer for each round of the constructor's loop. The numbers only tell buffers apart: they count
-- from the back of the deque, the head of the list.
unfoldable pub numbered : ℕ → ℕ → List ℕ
numbered start zero = []
numbered start (suc n) = start ∷ numbered (start + 1) n

-- The constructor.
unfoldable pub create_pool : ℕ → ℕ → ℕ → BufferPool
unfolding numbered
create_pool buffer_size pool_size max_memory = record {
  buffer_size = buffer_size;
  pool_size = pool_size;
  max_memory = max_memory;
  total_allocated = pool_size;
  pool = numbered 0 pool_size;
  fresh = pool_size;
}

-- A pointer, or null.
pub record Acquired : Type 0 where
  pub buffer : Option ℕ
  pub left : BufferPool

-- acquire with an empty pool.
abbrev pub allocate : BufferPool → Acquired
allocate p =
    if ltb 0 p.max_memory
      && ltb p.max_memory (((p.total_allocated + 1) % 2 ^ 64 * p.buffer_size) % 2 ^ 64)
    then record { buffer = none; left = p }
    else record {
      buffer = some p.fresh;
      left = record p { total_allocated = (p.total_allocated + 1) % 2 ^ 64; fresh = p.fresh + 1 };
    }

-- The deque's back is the head of the list.
abbrev pub acquire_from : BufferPool → List ℕ → Acquired
acquire_from p [] = allocate p
acquire_from p (b ∷ bs) = record { buffer = some b; left = record p { pool = bs } }

unfoldable pub acquire : BufferPool → Acquired
acquire p = acquire_from p p.pool

unfoldable pub release : BufferPool → ℕ → BufferPool
release p b =
    if ltb (length p.pool) p.pool_size
    then record p { pool = b ∷ p.pool }
    else if ltb 0 p.total_allocated
    then record p { total_allocated = p.total_allocated - 1 }
    else p

unfoldable pub get_current_memory_usage : BufferPool → ℕ
get_current_memory_usage p = (p.total_allocated * p.buffer_size) % 2 ^ 64

unfoldable pub set_max_memory_limit : BufferPool → ℕ → BufferPool
set_max_memory_limit p max_memory = record p { max_memory = max_memory }
