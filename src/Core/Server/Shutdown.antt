-- ===== src/Core/Server/Shutdown.antt =====
-- mycppwebfw/src/core/server.cpp and connection_manager.h: the server shuts down.
use gin_cpp.Base.{
  ℕ, suc, ◌≡◌, refl, sym, ap, subst, ◌∙◌, inl, inr, false, List, [], ◌∷◌, arith, length, All,
}
use gin_cpp.Core.BufferPool.{BufferPool, release}
use gin_cpp.Core.BufferPool.Ownership.{count, IsOwned, release-IsOwned}
use gin_cpp.Core.Connection.{Connection, stop}
use gin_cpp.Core.Connection.Phases.{IsShut, stop-live}
use gin_cpp.Core.Server.{
  Server, with_pool, stop_managed, stop_all, get_connection_count, graceful_shutdown,
}
use gin_cpp.Core.Server.Connections.{Standing, shut_at, holder, holders}
use gin_cpp.Core.Server.Ownership.{AllShut, IsServing, max_memory-release, with_pool-shut}

-- What stop_all leaves of connections at rest: each is shut, and every buffer is back.
pub record IsStopped (most : ℕ) (cs : List Connection) (r : List Connection × BufferPool)
    : Type 0 where
  pub all_shut : AllShut r.0
  pub same_length : length r.0 ≡ length cs
  pub all_back : IsOwned most (record { pool = r.1; held = [] })
  pub unlimited : r.1.max_memory ≡ 0

stop_managed-Standing :
    (most : ℕ) (c : Connection) (cs : List Connection) (pool : BufferPool)
    → Standing c
    → IsOwned most (record { pool = pool; held = holders (c ∷ cs) })
    → pool.max_memory ≡ 0
    → (d : Connection) × (stop_managed c pool c.managed ≡ d)
      × IsShut d.buffer_pool d
      × IsOwned most (record { pool = d.buffer_pool; held = holders cs })
      × (d.buffer_pool.max_memory ≡ 0)
unfolding count stop
stop_managed-Standing most c cs pool (inl (b, l)) o u =
    let h = stop-live pool b (with_pool c pool) l.has_buffer refl in
    let d = stop (with_pool c pool) in
    let o' =
      subst (λ x. IsOwned most (record { pool = pool; held = holder x (holders cs) })) l.has_buffer
        o in
    (
      d,
      ap (stop_managed c pool) l.kept,
      shut_at (release pool b) d h,
      subst (λ p. IsOwned most (record { pool = p; held = holders cs })) (sym h.gave)
          (release-IsOwned pool (b ∷ holders cs) (holders cs) most b
            ((λ k. ground arith), omega arith) o'),
      ap (λ p. p.max_memory) h.gave ∙ max_memory-release pool b ∙ u,
    )
stop_managed-Standing most c cs pool (inr h) o u = (
  with_pool c pool,
  ap (stop_managed c pool) h.left,
  with_pool-shut c pool h,
  subst (λ x. IsOwned most (record { pool = pool; held = holder x (holders cs) })) h.no_buffer o,
  u,
)

pub stop_all-IsStopped :
    (most : ℕ) (cs : List Connection) (pool : BufferPool)
    → All Standing cs
    → IsOwned most (record { pool = pool; held = holders cs })
    → pool.max_memory ≡ 0
    → IsStopped most cs (stop_all cs pool)
unfolding stop_all
stop_all-IsStopped most [] pool st o u = record {
  all_shut = tt;
  same_length = refl;
  all_back = o;
  unlimited = u;
}
stop_all-IsStopped most (c ∷ cs) pool st o u =
    let (d, e, h, o', u') = stop_managed-Standing most c cs pool st.0 o u in
    subst
      (λ x.
        IsStopped most (c ∷ cs) (x ∷ (stop_all cs x.buffer_pool).0, (stop_all cs x.buffer_pool).1))
      (sym e)
      (let r = stop_all-IsStopped most cs d.buffer_pool st.1 o' u' in
        record {
          all_shut = (h, r.all_shut);
          same_length = ap suc r.same_length;
          all_back = r.all_back;
          unlimited = r.unlimited;
        })

pub AllShut-holders : (cs : List Connection) → AllShut cs → holders cs ≡ []
AllShut-holders [] a = refl
AllShut-holders (c ∷ cs) a = ap (λ o. holder o (holders cs)) a.0.no_buffer ∙ AllShut-holders cs a.1

pub AllShut-get_connection_count : (cs : List Connection) → AllShut cs → get_connection_count cs ≡ 0
unfolding get_connection_count
AllShut-get_connection_count [] a = refl
AllShut-get_connection_count (c ∷ cs) a =
    rw (a.0.left, get_connection_count) (AllShut-get_connection_count cs a.1)

AllShut-Standing : (cs : List Connection) → AllShut cs → All Standing cs
AllShut-Standing [] a = tt
AllShut-Standing (c ∷ cs) a = (inr a.0, AllShut-Standing cs a.1)

-- A server that has shut down.
pub record IsDown (most : ℕ) (s : Server) : Type 0 where
  pub serving : IsServing most s
  pub all_shut : AllShut s.connections
  pub empty_set : get_connection_count s.connections ≡ 0
  pub no_holders : holders s.connections ≡ []
  pub all_back : s.pool.total_allocated ≡ length s.pool.pool
  pub stopped_accepting : s.is_accepting ≡ false
  pub no_threads : s.has_thread_pool ≡ false

-- A server between two handlers that no longer accepts is down.
pub IsServing-IsDown :
    (most : ℕ) (s : Server)
    → IsServing most s
    → s.is_accepting ≡ false
    → s.has_thread_pool ≡ false
    → IsDown most s
IsServing-IsDown most s v e f =
    let no = AllShut-holders s.connections (v.settled e) in
    record {
      serving = v;
      all_shut = v.settled e;
      empty_set = AllShut-get_connection_count s.connections (v.settled e);
      no_holders = no;
      all_back = omega (arith, v.owned.counted, ap length no);
      stopped_accepting = e;
      no_threads = f;
    }

-- After graceful_shutdown of a server between two handlers every connection is closed and out of the
-- set, none holds a buffer, the pool's counter is the number of buffers in the pool, no connection is
-- accepted any more, the pointer to the thread pool is reset, and the server is still well-formed.
pub graceful_shutdown-IsDown :
    (most : ℕ) (s : Server) → IsServing most s → IsDown most (graceful_shutdown s)
unfolding graceful_shutdown
graceful_shutdown-IsDown most s v =
    let r = stop_all-IsStopped most s.connections s.pool v.standing v.owned v.unlimited in
    let cs = (stop_all s.connections s.pool).0 in
    IsServing-IsDown most (graceful_shutdown s)
      (record {
        standing = AllShut-Standing cs r.all_shut;
        owned =
            subst
              (λ bs. IsOwned most (record { pool = (stop_all s.connections s.pool).1; held = bs }))
              (sym (AllShut-holders cs r.all_shut)) r.all_back;
        unlimited = r.unlimited;
        settled = λ _. r.all_shut;
      })
      refl refl

pub length-graceful_shutdown :
    (most : ℕ) (s : Server)
    → IsServing most s
    → length (graceful_shutdown s).connections ≡ length s.connections
unfolding graceful_shutdown
length-graceful_shutdown most s v =
    (stop_all-IsStopped most s.connections s.pool v.standing v.owned v.unlimited).same_length
