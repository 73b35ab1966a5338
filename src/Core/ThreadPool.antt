-- ===== src/Core/ThreadPool.antt =====
-- mycppwebfw/src/core/thread_pool.cpp and thread_pool.h: the queue and the workers. A task is a number; the steps
-- are the regions under the mutex, so that any interleaving of the threads is a sequence of them.
pub mod Queue
mod Tests
use gin_cpp.Base.{
  ℕ, zero, suc, ◌+◌, ◌-◌, ◌*◌, ◌/◌, ◌%◌, ◌^◌, ◌≤◌, ◌<◌, ◌≡◌, refl, sym, ap, subst, ◌∙◌, ◌≢◌, ◌↔◌,
  ◌⊎◌, inl, inr, Bool, true, false, not, ◌&&◌, ◌||◌, Option, none, some, List, [], ◌∷◌, ◌++◌, map,
  arith, ltb, leb, ◌==◌, if◌then◌else◌, ltb→lt, lt→ltb, leb→le, ==_iff, ==_refl, Bool-cases,
  Option-cases, length, get_elem?, set, take, drop, replicate, is_empty, length-append,
  length-replicate, get_elem?-some_lt, get_elem?-none_le, lt_of_get_elem?, Has, Has-cons_map,
  Has-append_left, Has-append_right, Has-append, All-Has, length-set, get_elem?-set_self,
  get_elem?-set_ne, All, All-append, Text, codes, same, same→eq, same_refl, same_iff, apart,
  drop_two_length_append, Free-append, find, starts_with, find_text, contains_text, Free, find-Free,
  find-none-Free, find-append, Free-take-find, find_parts, take-length_append, drop-length_append,
  drop-suc-length_append, starts_with-append, starts_with_parts, lookup, insert, erase,
  lookup-insert, lookup-erase,
}

-- A worker waits for the condition, runs a task outside the lock, or has returned.
pub data Worker : Type 0 where
  waiting : Worker
  running : ℕ → Worker
  returned : Worker

pub record ThreadPool : Type 0 where
  pub tasks : List ℕ
  pub workers : List Worker
  pub is_stopped : Bool

-- The constructor, for config_.min_threads. The flags of the threads are never set.
unfoldable pub create_thread_pool : ℕ → ThreadPool
create_thread_pool min_threads = record {
  tasks = [];
  workers = replicate min_threads waiting;
  is_stopped = false;
}

unfoldable pub enqueue : ThreadPool → ℕ → ThreadPool
enqueue p task = record p { tasks = p.tasks ++ task ∷ [] }

-- The first statement of the destructor.
unfoldable pub stop_all : ThreadPool → ThreadPool
stop_all p = record p { is_stopped = true }

abbrev pub take_task : ThreadPool → ℕ → List ℕ → ThreadPool
take_task p i [] = if p.is_stopped then record p { workers = set p.workers i returned } else p
take_task p i (task ∷ tasks) = record p { tasks = tasks; workers = set p.workers i (running task) }

-- What the i-th worker does when it is scheduled: behind the wait it takes the front of the queue, or
-- returns if the pool is stopped and the queue empty, or it goes on waiting; a running task ends.
abbrev pub work_as : ThreadPool → ℕ → Worker → ThreadPool
work_as p i waiting = take_task p i p.tasks
work_as p i (running task) = record p { workers = set p.workers i waiting }
work_as p i returned = p

abbrev pub work_if : ThreadPool → ℕ → Option Worker → ThreadPool
work_if p i none = p
work_if p i (some w) = work_as p i w

unfoldable pub work : ThreadPool → ℕ → ThreadPool
work p i = work_if p i (get_elem? p.workers i)

pub data PoolStep : Type 0 where
  enqueues : ℕ → PoolStep
  works : ℕ → PoolStep
  stops : PoolStep

unfoldable pub pool_step : ThreadPool → PoolStep → ThreadPool
unfolding enqueue work stop_all
pool_step p (enqueues task) = enqueue p task
pool_step p (works i) = work p i
pool_step p stops = stop_all p
