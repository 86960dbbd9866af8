-- ===== src/ThreadPool/Defs.antt =====
-- The class `thread_pool`, as what may happen between two changes of its mutex's owner. A task is a
-- number; `completed` lists the tasks that have run, the last first.
use libcosim.Base.{
  ℕ, zero, suc, ◌-◌, Bool, true, false, List, [], ◌∷◌, ◌++◌, Option, none, some, get_elem?, set,
  ◌==◌,
}

-- Where a worker's loop stands: at the wait, at `task()`, behind it, or at its end.
pub data Worker : Type 0 where
  waiting : Worker
  running : ℕ → Worker
  returned : Worker
  ended : Worker

pub record Pool : Type 0 where
  pub done : Bool
  pub work_queue : List ℕ
  pub workers : List Worker
  pub pending_tasks : ℕ
  pub completed : List ℕ

abbrev pub workers_of : ℕ → List Worker
workers_of zero = []
workers_of (suc n) = waiting ∷ workers_of n

-- The constructor
unfoldable pub make : ℕ → Pool
make n = record {
  done = false;
  work_queue = [];
  workers = workers_of n;
  pending_tasks = 0;
  completed = [];
}

-- Without workers the task runs at once.
unfoldable pub submit : ℕ → Pool → Pool
submit t p = elim p.workers [
  | [] ↦ record p { completed = t ∷ p.completed }
  | w ∷ ws ↦ record p { work_queue = p.work_queue ++ t ∷ [] }
]

-- The worker `i` at its wait takes the front of the queue, or ends if that is empty and the pool is
-- done; `none` if it may do neither.
unfoldable pub wake_at : ℕ → Worker → List ℕ → Pool → Option Pool
wake_at i waiting (t ∷ ts) p = some (record p {
  pending_tasks = suc p.pending_tasks;
  work_queue = ts;
  workers = set p.workers i (running t);
})
wake_at i waiting [] p = elim p.done [
  | true ↦ some (record p { workers = set p.workers i ended })
  | false ↦ none
]
wake_at i (running t) ts p = none
wake_at i returned ts p = none
wake_at i ended ts p = none

-- The task returns, outside the lock.
unfoldable pub return_at : ℕ → Worker → Pool → Option Pool
return_at i (running t) p =
    some (record p { workers = set p.workers i returned; completed = t ∷ p.completed })
return_at i waiting p = none
return_at i returned p = none
return_at i ended p = none

-- `pending_tasks_--`, and back to the wait
unfoldable pub settle_at : ℕ → Worker → Pool → Option Pool
settle_at i returned p =
    some (record p { workers = set p.workers i waiting; pending_tasks = p.pending_tasks - 1 })
settle_at i waiting p = none
settle_at i (running t) p = none
settle_at i ended p = none

abbrev pub with_worker : ℕ → (Worker → Pool → Option Pool) → Pool → Option Pool
with_worker i f p = elim (get_elem? p.workers i) [ none ↦ none | some w ↦ f w p ]

unfoldable pub wake : ℕ → Pool → Option Pool
unfolding wake_at
wake i p = with_worker i (λ w q. wake_at i w q.work_queue q) p

unfoldable pub return_task : ℕ → Pool → Option Pool
unfolding return_at
return_task i p = with_worker i (return_at i) p

unfoldable pub settle : ℕ → Pool → Option Pool
unfolding settle_at
settle i p = with_worker i (settle_at i) p

-- The destructor, up to the joins
unfoldable pub finish : Pool → Pool
finish p = record p { done = true }

-- The condition of `wait_for_tasks_to_finish`
unfoldable pub may_return : Pool → Bool
may_return p = elim p.work_queue [ [] ↦ p.pending_tasks == 0 | t ∷ ts ↦ false ]
