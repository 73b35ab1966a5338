-- ===== src/Core/ThreadPool/Tests.antt =====
-- Tests of the thread pool.
use gin_cpp.Base.{◌≡◌, refl, List, [], ◌∷◌}
use gin_cpp.Core.ThreadPool.{
  PoolStep, enqueues, works, stops, create_thread_pool, enqueue, work, stop_all,
}
use gin_cpp.Core.ThreadPool.Queue.{traced_run, IsFair, fresh, traced_run-fresh}

abbrev steps : List PoolStep
steps = enqueues 5 ∷ enqueues 6 ∷ works 0 ∷ stops ∷ works 0 ∷ works 1 ∷ works 0 ∷ works 0 ∷ []

traced_run_tests : (traced_run (fresh 2) steps).started ≡ 5 ∷ 6 ∷ []
unfolding traced_run create_thread_pool enqueue work stop_all
traced_run_tests = refl

traced_run-fresh_example : IsFair (traced_run (fresh 2) steps)
traced_run-fresh_example = traced_run-fresh 2 steps
