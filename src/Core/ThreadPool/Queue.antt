-- ===== src/Core/ThreadPool/Queue.antt =====
-- mycppwebfw/src/core/thread_pool.cpp: the order in which tasks are started.
use gin_cpp.Base.{
  ℕ, zero, suc, ◌≡◌, refl, sym, ap, ◌∙◌, ◌⊎◌, inl, inr, Bool, true, false, Option, none, some, List,
  [], ◌∷◌, ◌++◌, arith, if◌then◌else◌, get_elem?, set, replicate, subst, Bool-cases,
  get_elem?-set_self, lt_of_get_elem?,
}
use gin_cpp.Core.ThreadPool.{
  Worker, waiting, running, returned, ThreadPool, create_thread_pool, enqueue, stop_all, take_task,
  work_if, work, PoolStep, enqueues, works, stops, pool_step,
}

-- A pool with the tasks that were given to it before the stop and after it, and those that a worker
-- has started, each list in the order of the events.
pub record Traced : Type 0 where
  pub pool : ThreadPool
  pub before : List ℕ
  pub after : List ℕ
  pub started : List ℕ

abbrev pub front : List ℕ → List ℕ
front [] = []
front (task ∷ tasks) = task ∷ []

-- The task that a worker has started in a step: it runs the task after the step, and waited before it.
abbrev pub started_by : Option Worker → Option Worker → List ℕ
started_by (some waiting) (some (running task)) = task ∷ []
started_by _ _ = []

abbrev note_task : Traced → ℕ → Bool → Traced
note_task t task true = record t { after = t.after ++ task ∷ [] }
note_task t task false = record t { before = t.before ++ task ∷ [] }

abbrev pub note : Traced → PoolStep → Traced
unfolding work
note t (enqueues task) = note_task t task t.pool.is_stopped
note t (works i) = record t {
  started =
      t.started ++ started_by (get_elem? t.pool.workers i) (get_elem? (work t.pool i).workers i);
}
note t stops = t

unfoldable pub traced_step : Traced → PoolStep → Traced
unfolding pool_step
traced_step t s = record (note t s) { pool = pool_step t.pool s }

unfoldable pub traced_run : Traced → List PoolStep → Traced
unfolding traced_step
traced_run t [] = t
traced_run t (s ∷ ss) = traced_run (traced_step t s) ss

-- The tasks started and those in the queue are all that were given, in order; and once a worker has
-- returned, all that were given before the stop have started.
pub record IsFair (t : Traced) : Type 0 where
  pub in_order : t.started ++ t.pool.tasks ≡ t.before ++ t.after
  pub not_stopped : t.pool.is_stopped ≡ false → t.after ≡ []
  pub drained :
      (i : ℕ)
      → get_elem? t.pool.workers i ≡ some returned
      → (t.pool.is_stopped ≡ true) × ((rest : List ℕ) × (t.started ≡ t.before ++ rest))

append_assoc : (xs ys zs : List ℕ) → (xs ++ ys) ++ zs ≡ xs ++ (ys ++ zs)
append_assoc [] ys zs = refl
append_assoc (x ∷ xs) ys zs = ap (◌∷◌ x) (append_assoc xs ys zs)

append_nil : (xs : List ℕ) → xs ++ [] ≡ xs
append_nil [] = refl
append_nil (x ∷ xs) = ap (◌∷◌ x) (append_nil xs)

enqueue-IsFair : (t : Traced) (task : ℕ) → IsFair t → IsFair (traced_step t (enqueues task))
unfolding traced_step enqueue
enqueue-IsFair t task f = go t.pool.is_stopped refl
  where
    go :
        (b : Bool)
        → t.pool.is_stopped ≡ b
        → IsFair (record (note_task t task b) { pool = enqueue t.pool task })
    go true e = record {
      in_order =
          sym (append_assoc t.started t.pool.tasks (task ∷ []))
          ∙ ap (λ l. l ++ task ∷ []) f.in_order
          ∙ append_assoc t.before t.after (task ∷ []);
      not_stopped = λ n. absurd (ground arith);
      drained = f.drained;
    }
    go false e = record {
      in_order =
          sym (append_assoc t.started t.pool.tasks (task ∷ []))
          ∙ ap (λ l. l ++ task ∷ [])
              (f.in_order ∙ ap (λ l. t.before ++ l) (f.not_stopped e) ∙ append_nil t.before)
          ∙ sym (
              ap (λ l. (t.before ++ task ∷ []) ++ l) (f.not_stopped e)
              ∙ append_nil (t.before ++ task ∷ []));
      not_stopped = f.not_stopped;
      drained = λ i r. absurd (ground (arith, e, f.drained i r));
    }

stop-IsFair : (t : Traced) → IsFair t → IsFair (traced_step t stops)
unfolding traced_step stop_all
stop-IsFair t f = record {
  in_order = f.in_order;
  not_stopped = λ e. absurd (ground arith);
  drained = λ i r. (refl, (f.drained i r).1);
}

set-found :
    (ws : List Worker) (i j : ℕ) (w v : Worker)
    → get_elem? (set ws i w) j ≡ some v
    → (w ≡ v) ⊎ (get_elem? ws j ≡ some v)
set-found [] i j w v e = inr e
set-found (u ∷ ws) zero zero w v e = inl (ground arith)
set-found (u ∷ ws) zero (suc j) w v e = inr e
set-found (u ∷ ws) (suc i) zero w v e = inr e
set-found (u ∷ ws) (suc i) (suc j) w v e = set-found ws i j w v e

-- A worker's step that starts nothing and leaves the queue, the flag and who has returned.
keeps-IsFair :
    (t : Traced) (ws : List Worker)
    → IsFair t
    → ((i : ℕ)
        → get_elem? ws i ≡ some returned
        → (t.pool.is_stopped ≡ true) × ((rest : List ℕ) × (t.started ≡ t.before ++ rest)))
    → IsFair (record t { started = t.started ++ []; pool = record t.pool { workers = ws } })
keeps-IsFair t ws f d = record {
  in_order = ap (λ l. l ++ t.pool.tasks) (append_nil t.started) ∙ f.in_order;
  not_stopped = f.not_stopped;
  drained = λ i r. let (e, (rest, q)) = d i r in (e, (rest, append_nil t.started ∙ q));
}

returns-IsFair :
    (t : Traced) (i : ℕ)
    → IsFair t
    → t.pool.tasks ≡ []
    → (b : Bool) → t.pool.is_stopped ≡ b
    → IsFair (record t {
      started = t.started ++ [];
      pool = if b then record t.pool { workers = set t.pool.workers i returned } else t.pool;
    })
returns-IsFair t i f e false s = keeps-IsFair t t.pool.workers f f.drained
returns-IsFair t i f e true s = keeps-IsFair t (set t.pool.workers i returned) f λ j r.
    (s, (t.after, sym (append_nil t.started) ∙ (ap (λ l. t.started ++ l) (sym e) ∙ f.in_order)))

take_task-IsFair :
    (t : Traced) (i : ℕ) (tasks : List ℕ)
    → IsFair t
    → t.pool.tasks ≡ tasks
    → IsFair (record t { started = t.started ++ front tasks; pool = take_task t.pool i tasks })
take_task-IsFair t i [] f e = returns-IsFair t i f e t.pool.is_stopped refl
take_task-IsFair t i (task ∷ tasks) f e = record {
  in_order =
      append_assoc t.started (task ∷ []) tasks ∙ (ap (λ l. t.started ++ l) (sym e) ∙ f.in_order);
  not_stopped = f.not_stopped;
  drained = λ j r. elim (set-found t.pool.workers i j (running task) returned r) [
    | inl q ↦ absurd (ground arith)
    | inr q ↦
        let (s, (rest, k)) = f.drained j q in
        (
          s,
          (rest ++ task ∷ [], ap (λ l. l ++ task ∷ []) k ∙ append_assoc t.before rest (task ∷ [])),
        )
  ];
}

-- A worker that takes a task runs it.
started_by-take_task :
    (p : ThreadPool) (i : ℕ) (tasks : List ℕ)
    → get_elem? p.workers i ≡ some waiting
    → started_by (some waiting) (get_elem? (take_task p i tasks).workers i) ≡ front tasks
started_by-take_task p i (task ∷ tasks) w =
    ap (started_by (some waiting))
      (get_elem?-set_self p.workers i (running task) (lt_of_get_elem? p.workers i waiting w))
started_by-take_task p i [] w = elim (Bool-cases p.is_stopped) [
  | inl e ↦ rw e (
      ap (started_by (some waiting))
        (get_elem?-set_self p.workers i returned (lt_of_get_elem? p.workers i waiting w)))
  | inr e ↦ rw (e, w) refl
]

work_as-IsFair :
    (t : Traced) (i : ℕ) (o : Option Worker)
    → get_elem? t.pool.workers i ≡ o
    → IsFair t
    → IsFair (record t {
      started = t.started ++ started_by o (get_elem? (work_if t.pool i o).workers i);
      pool = work_if t.pool i o;
    })
work_as-IsFair t i none w f = keeps-IsFair t t.pool.workers f f.drained
work_as-IsFair t i (some waiting) w f =
    subst
      (λ l. IsFair (record t { started = t.started ++ l; pool = take_task t.pool i t.pool.tasks }))
      (sym (started_by-take_task t.pool i t.pool.tasks w))
      (take_task-IsFair t i t.pool.tasks f refl)
work_as-IsFair t i (some (running task)) w f =
    keeps-IsFair t (set t.pool.workers i waiting) f λ j r.
      elim (set-found t.pool.workers i j waiting returned r) [
        | inl q ↦ absurd (ground arith)
        | inr q ↦ f.drained j q
      ]
work_as-IsFair t i (some returned) w f = keeps-IsFair t t.pool.workers f f.drained

traced_step-IsFair : (t : Traced) (s : PoolStep) → IsFair t → IsFair (traced_step t s)
unfolding traced_step work
traced_step-IsFair t (enqueues task) f = enqueue-IsFair t task f
traced_step-IsFair t (works i) f = work_as-IsFair t i (get_elem? t.pool.workers i) refl f
traced_step-IsFair t stops f = stop-IsFair t f

traced_run-IsFair : (t : Traced) (ss : List PoolStep) → IsFair t → IsFair (traced_run t ss)
unfolding traced_run
traced_run-IsFair t [] f = f
traced_run-IsFair t (s ∷ ss) f = traced_run-IsFair (traced_step t s) ss (traced_step-IsFair t s f)

abbrev pub fresh : ℕ → Traced
fresh n = record { pool = create_thread_pool n; before = []; after = []; started = [] }

no_returned : (n i : ℕ) → get_elem? (replicate n waiting) i ≡ some returned → ⊥
no_returned zero i e = ground arith
no_returned (suc n) zero e = ground arith
no_returned (suc n) (suc i) e = no_returned n i e

-- From a new pool of any number of workers, in every interleaving of tasks given, workers' steps and
-- the stop: the tasks that workers have begun to run, followed by those in the queue, are all the tasks
-- given, each once and in order; and when any worker has returned, the pool is stopped and every task
-- given before the stop has been begun by a worker.
pub traced_run-fresh : (n : ℕ) (ss : List PoolStep) → IsFair (traced_run (fresh n) ss)
unfolding create_thread_pool
traced_run-fresh n ss = traced_run-IsFair (fresh n) ss (record {
  in_order = refl;
  not_stopped = λ e. refl;
  drained = λ i r. absurd (no_returned n i r);
})
