-- ===== src/Core/Server/Ownership.antt =====
-- mycppwebfw/src/core/server.cpp: what holds of the server between two handlers.
use gin_cpp.Base.{
  ℕ, zero, suc, ◌≡◌, refl, sym, ap, subst, ◌∙◌, ◌⊎◌, inl, inr, Bool, true, false, none, some, List,
  [], ◌∷◌, arith, Option-cases, some_inj, get_elem?, set, All,
}
use gin_cpp.Core.BufferPool.{BufferPool, release}
use gin_cpp.Core.BufferPool.Ownership.{IsOwned, release-IsOwned}
use gin_cpp.Core.Connection.{Connection, Event}
use gin_cpp.Core.Connection.Phases.{IsShut, is_unsafe}
use gin_cpp.Core.Server.{
  Server, with_pool, put_back, put_back_if, handle_at, ServerEvent, on_connection,
}
use gin_cpp.Core.Server.Connections.{
  Standing, holders, Moves, kept, gave, Standing-with_pool, handle-Handles, holders-set,
  holders-Loses,
}

-- Each connection is shut, out of the set and without a buffer.
abbrev pub AllShut : List Connection → Type 0
AllShut cs = All (λ c. IsShut c.buffer_pool c) cs

-- Between two handlers: each connection is at rest, no buffer is in two places, the pool has no limit, and a
-- server that no longer accepts has shut all its connections.
pub record IsServing (most : ℕ) (s : Server) : Type 0 where
  pub standing : All Standing s.connections
  pub owned : IsOwned most (record { pool = s.pool; held = holders s.connections })
  pub unlimited : s.pool.max_memory ≡ 0
  pub settled : s.is_accepting ≡ false → AllShut s.connections

-- An event of the i-th connection that is not safe.
unfoldable pub is_unsafe_at : Server → ServerEvent → Bool
unfolding is_unsafe
is_unsafe_at s (on_connection i e) = elim (get_elem? s.connections i) [
  | none ↦ false
  | some c ↦ is_unsafe (with_pool c s.pool) e
]
is_unsafe_at s _ = false

module _ {A : Type 0} (P : A → Type 0) where
  pub All-get_elem? : (xs : List A) (i : ℕ) (x : A) → All P xs → get_elem? xs i ≡ some x → P x
  All-get_elem? [] i x a e = absurd (ground arith)
  All-get_elem? (y ∷ xs) zero x a e = subst P (some_inj y x e) a.0
  All-get_elem? (y ∷ xs) (suc i) x a e = All-get_elem? xs i x a.1 e

  pub All-set : (xs : List A) (i : ℕ) (x : A) → All P xs → P x → All P (set xs i x)
  All-set [] i x a p = tt
  All-set (y ∷ xs) zero x a p = (p, a.1)
  All-set (y ∷ xs) (suc i) x a p = (a.0, All-set xs i x a.1 p)

pub max_memory-release : (p : BufferPool) (b : ℕ) → (release p b).max_memory ≡ p.max_memory
unfolding release
max_memory-release p b = ground arith

pub with_pool-shut :
    (c : Connection) (pool : BufferPool) → IsShut c.buffer_pool c → IsShut pool (with_pool c pool)
with_pool-shut c pool h = record {
  ended = h.ended;
  no_buffer = h.no_buffer;
  gave = refl;
  left = h.left;
  not_open = h.not_open;
}

-- The i-th connection, as it was and after its handler.
module _ (s : Server) (most i : ℕ) (c d : Connection) (v : IsServing most s)
    (e : get_elem? s.connections i ≡ some c) where
  put_back-IsOwned :
      Moves s.pool c.buffer d
      → IsOwned most (record { pool = d.buffer_pool; held = holders (set s.connections i d) })
  put_back-IsOwned (kept same_buffer same_pool) =
      subst (λ bs. IsOwned most (record { pool = d.buffer_pool; held = bs }))
        (sym (holders-set s.connections i c d e same_buffer))
        (subst (λ p. IsOwned most (record { pool = p; held = holders s.connections }))
          (sym same_pool) v.owned)
  put_back-IsOwned (gave {b} had no_buffer pool_is) =
      subst (λ p. IsOwned most (record { pool = p; held = holders (set s.connections i d) }))
        (sym pool_is)
        (release-IsOwned s.pool (holders s.connections) (holders (set s.connections i d)) most b
          (holders-Loses s.connections i c d b e had no_buffer) v.owned)

  put_back-unlimited : Moves s.pool c.buffer d → d.buffer_pool.max_memory ≡ 0
  put_back-unlimited (kept same_buffer same_pool) = ap (λ p. p.max_memory) same_pool ∙ v.unlimited
  put_back-unlimited (gave {b} had no_buffer pool_is) =
      ap (λ p. p.max_memory) pool_is ∙ max_memory-release s.pool b ∙ v.unlimited

  put_back-IsServing :
      Standing d
      → Moves s.pool c.buffer d
      → (IsShut s.pool (with_pool c s.pool) → IsShut d.buffer_pool d)
      → IsServing most (put_back s i d)
  put_back-IsServing st m k = record {
    standing = All-set Standing s.connections i d v.standing st;
    owned = put_back-IsOwned m;
    unlimited = put_back-unlimited m;
    settled = λ stops.
        All-set (λ x. IsShut x.buffer_pool x) s.connections i d (v.settled stops)
          (k (
            with_pool-shut c s.pool
              (All-get_elem? (λ x. IsShut x.buffer_pool x) s.connections i c (v.settled stops) e)));
  }

-- A handler of the i-th connection.
pub handle_at-IsServing :
    (s : Server) (most i : ℕ) (e : Event)
    → IsServing most s
    → ((is_unsafe_at s (on_connection i e) ≡ false)
        × ((t : Server) × (handle_at s i e ≡ some t) × IsServing most t))
      ⊎ ((is_unsafe_at s (on_connection i e) ≡ true) × (handle_at s i e ≡ none))
unfolding handle_at is_unsafe_at
handle_at-IsServing s most i e v = elim (Option-cases (get_elem? s.connections i)) [
  | inl n ↦ rw (n, handle_at, is_unsafe_at) (inl (refl, (s, refl, v)))
  | inr (c, k) ↦
      elim (handle-Handles (with_pool c s.pool) e
        (Standing-with_pool c s.pool (All-get_elem? Standing s.connections i c v.standing k))) [
          | inl (n, (d, h, st, m, keeps)) ↦
              rw (k, handle_at, is_unsafe_at)
                (inl (
                  n,
                  (
                    put_back s i d,
                    ap (put_back_if s i) h,
                    put_back-IsServing s most i c d v k st m keeps,
                  ),
                ))
          | inr (l, h) ↦ rw (k, handle_at, is_unsafe_at) (inr (l, ap (put_back_if s i) h))
        ]
]
