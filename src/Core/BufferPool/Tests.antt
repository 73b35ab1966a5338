-- ===== src/Core/BufferPool/Tests.antt =====
-- Tests of the buffer pool.
use gin_cpp.Base.{◌+◌, ◌≤◌, ◌<◌, ◌≡◌, ◌↔◌, none, List, [], ◌∷◌, arith}
use gin_cpp.Core.BufferPool.{BufferPool, create_pool, acquire, get_current_memory_usage}
use gin_cpp.Core.BufferPool.Ownership.{
  PoolCall, acquires, releases, pool_calls, IsOwned, create_pool-pool_calls,
}
use gin_cpp.Core.BufferPool.Memory.{acquire-memory}

abbrev calls : List PoolCall
calls = acquires ∷ acquires ∷ acquires ∷ releases 1 ∷ []

create_pool-pool_calls_example :
    IsOwned 6 (pool_calls (record { pool = create_pool 8192 2 0; held = [] }) calls)
create_pool-pool_calls_example = create_pool-pool_calls 8192 2 0 calls (omega arith)

abbrev full : BufferPool
full = record {
  buffer_size = 10;
  pool_size = 1;
  max_memory = 25;
  total_allocated = 2;
  pool = [];
  fresh = 2;
}

acquire-memory_example :
    (get_current_memory_usage (acquire full).left ≤ 25)
    × (((acquire full).buffer ≡ none)
        ↔ (full.pool ≡ []) × (25 < get_current_memory_usage full + 10))
acquire-memory_example = acquire-memory full (omega arith) (omega arith) (omega arith) (omega arith)
