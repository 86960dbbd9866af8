-- ===== src/ThreadPool/Counts.antt =====
-- Every task that is submitted is in the queue, run by one worker, or completed, whatever the order in
-- which the workers move.
use mathlib.Core.Path.{subst}
use libcosim.Base.{
  ℕ, zero, suc, ◌+◌, Bool, true, false, List, [], ◌∷◌, ◌++◌, Option, none, some, get_elem?, set,
  ◌≡◌, refl, sym, ap, ◌∙◌, ite, ℕ_discrete, arith, ◌==◌,
}
use libcosim.Base.Positions.{some_cancel}
use libcosim.ThreadPool.Defs.{
  Worker, waiting, running, returned, ended, Pool, workers_of, make, submit, wake_at, return_at,
  settle_at, with_worker, wake, return_task, settle, finish, may_return,
}

abbrev one : ℕ → ℕ → ℕ
one t s = ite (ℕ_discrete t s) 1 0

-- How often a task stands in a list
abbrev pub count : ℕ → List ℕ → ℕ
count t [] = 0
count t (s ∷ ss) = one t s + count t ss

abbrev busy : Worker → ℕ
busy waiting = 0
busy (running t) = 1
busy returned = 1
busy ended = 0

abbrev runs : ℕ → Worker → ℕ
runs t waiting = 0
runs t (running s) = one t s
runs t returned = 0
runs t ended = 0

abbrev total : (Worker → ℕ) → List Worker → ℕ
total f [] = 0
total f (w ∷ ws) = f w + total f ws

total-set :
    (f : Worker → ℕ) (ws : List Worker) (i : ℕ) (v : Worker) {w : Worker}
    → get_elem? ws i ≡ some w
    → total f (set ws i v) + f w ≡ total f ws + f v
total-set f [] i v h = cc
total-set f (x ∷ ws) zero v h = omega (arith, ap f (some_cancel h))
total-set f (x ∷ ws) (suc i) v h = omega (arith, total-set f ws i v h)

count-append : (t : ℕ) (ss : List ℕ) (s : ℕ) → count t (ss ++ s ∷ []) ≡ count t ss + one t s
count-append t [] s = omega arith
count-append t (x ∷ ss) s = omega (arith, count-append t ss s)

-- The tasks submitted so far, and a pool that the workers may have reached
pub data PoolReach (n : ℕ) : List ℕ → Pool → Type 0 where
  made : PoolReach n [] (make n)
  submits : {ts : List ℕ} {p : Pool} (t : ℕ) → PoolReach n ts p → PoolReach n (t ∷ ts) (submit t p)
  wakes :
      {ts : List ℕ} {p q : Pool} (i : ℕ) → PoolReach n ts p → wake i p ≡ some q → PoolReach n ts q
  returns :
      {ts : List ℕ} {p q : Pool} (i : ℕ)
      → PoolReach n ts p
      → return_task i p ≡ some q
      → PoolReach n ts q
  settles :
      {ts : List ℕ} {p q : Pool} (i : ℕ) → PoolReach n ts p → settle i p ≡ some q → PoolReach n ts q
  finishes : {ts : List ℕ} {p : Pool} → PoolReach n ts p → PoolReach n ts (finish p)

abbrev pub Counted : List ℕ → Pool → Type 0
Counted ts p =
    (p.pending_tasks ≡ total busy p.workers)
    × ((t : ℕ) → count t ts ≡ count t p.completed + total (runs t) p.workers + count t p.work_queue)

total-workers_of : (f : Worker → ℕ) (n : ℕ) → f waiting ≡ 0 → total f (workers_of n) ≡ 0
total-workers_of f zero h = refl
total-workers_of f (suc n) h = omega (arith, h, total-workers_of f n h)

with_worker-eq :
    (i : ℕ) (f : Worker → Pool → Option Pool) (p : Pool) {q : Pool}
    → with_worker i f p ≡ some q
    → (w : Worker) × (get_elem? p.workers i ≡ some w) × (f w p ≡ some q)
with_worker-eq i f p {q} h = go (get_elem? p.workers i) refl h
  where
    go :
        (o : Option Worker)
        → get_elem? p.workers i ≡ o
        → elim o [ none ↦ none | some w ↦ f w p ] ≡ some q
        → (w : Worker) × (get_elem? p.workers i ≡ some w) × (f w p ≡ some q)
    go none e k = cc
    go (some w) e k = (w, e, k)

submit-Counted : (ts : List ℕ) (t : ℕ) (p : Pool) → Counted ts p → Counted (t ∷ ts) (submit t p)
unfolding submit
submit-Counted ts t p c = go p.workers refl
  where
    go :
        (ws : List Worker)
        → p.workers ≡ ws
        → Counted (t ∷ ts) (elim ws [
          | [] ↦ record p { completed = t ∷ p.completed }
          | w ∷ rest ↦ record p { work_queue = p.work_queue ++ t ∷ [] }
        ])
    go [] e = (c.0, λ s. omega (arith, c.1 s))
    go (w ∷ rest) e = (c.0, λ s. omega (arith, c.1 s, count-append s p.work_queue t))

wake-Counted :
    (ts : List ℕ) (i : ℕ) (w : Worker) (queue : List ℕ) (p : Pool) {q : Pool}
    → get_elem? p.workers i ≡ some w
    → p.work_queue ≡ queue
    → wake_at i w queue p ≡ some q
    → Counted ts p
    → Counted ts q
unfolding wake_at
wake-Counted ts i waiting [] p {q} h e k c = go p.done k
  where
    go :
        (b : Bool)
        → elim b [ true ↦ some (record p { workers = set p.workers i ended }) | false ↦ none ]
          ≡ some q
        → Counted ts q
    go true l = subst (Counted ts) (some_cancel l) (
      omega (arith, c.0, total-set busy p.workers i ended h),
      λ t. omega (arith, c.1 t, total-set (runs t) p.workers i ended h),
    )
    go false l = cc
wake-Counted ts i waiting (s ∷ ss) p h e k c = subst (Counted ts) (some_cancel k) (
  omega (arith, c.0, total-set busy p.workers i (running s) h),
  λ t. omega (arith, c.1 t, total-set (runs t) p.workers i (running s) h, ap (count t) e),
)
wake-Counted ts i (running s) queue p h e k c = cc
wake-Counted ts i returned queue p h e k c = cc
wake-Counted ts i ended queue p h e k c = cc

return-Counted :
    (ts : List ℕ) (i : ℕ) (w : Worker) (p : Pool) {q : Pool}
    → get_elem? p.workers i ≡ some w
    → return_at i w p ≡ some q
    → Counted ts p
    → Counted ts q
unfolding return_at
return-Counted ts i (running s) p h k c = subst (Counted ts) (some_cancel k) (
  omega (arith, c.0, total-set busy p.workers i returned h),
  λ t. omega (arith, c.1 t, total-set (runs t) p.workers i returned h),
)
return-Counted ts i waiting p h k c = cc
return-Counted ts i returned p h k c = cc
return-Counted ts i ended p h k c = cc

settle-Counted :
    (ts : List ℕ) (i : ℕ) (w : Worker) (p : Pool) {q : Pool}
    → get_elem? p.workers i ≡ some w
    → settle_at i w p ≡ some q
    → Counted ts p
    → Counted ts q
unfolding settle_at
settle-Counted ts i returned p h k c = subst (Counted ts) (some_cancel k) (
  omega (arith, c.0, total-set busy p.workers i waiting h),
  λ t. omega (arith, c.1 t, total-set (runs t) p.workers i waiting h),
)
settle-Counted ts i waiting p h k c = cc
settle-Counted ts i (running s) p h k c = cc
settle-Counted ts i ended p h k c = cc

-- In every pool that the calls and the workers lead to, in whatever order they move, the pending tasks
-- are the workers that have taken a task and not yet counted it down, and each task has been
-- submitted as often as it is completed, running and queued together.
pub PoolReach-Counted : (n : ℕ) (ts : List ℕ) (p : Pool) → PoolReach n ts p → Counted ts p
unfolding make wake return_task settle finish
PoolReach-Counted n ts p made =
    (sym (total-workers_of busy n refl), λ t. omega (arith, total-workers_of (runs t) n refl))
PoolReach-Counted n ts q (submits {ts = us} {p} t r) =
    submit-Counted us t p (PoolReach-Counted n us p r)
PoolReach-Counted n ts q (wakes {p} i r h) =
    let (w, at, k) = with_worker-eq i (λ v u. wake_at i v u.work_queue u) p h in
    wake-Counted ts i w p.work_queue p at refl k (PoolReach-Counted n ts p r)
PoolReach-Counted n ts q (returns {p} i r h) =
    let (w, at, k) = with_worker-eq i (return_at i) p h in
    return-Counted ts i w p at k (PoolReach-Counted n ts p r)
PoolReach-Counted n ts q (settles {p} i r h) =
    let (w, at, k) = with_worker-eq i (settle_at i) p h in
    settle-Counted ts i w p at k (PoolReach-Counted n ts p r)
PoolReach-Counted n ts q (finishes {p} r) = PoolReach-Counted n ts p r

runs-busy : (t : ℕ) (ws : List Worker) → total busy ws ≡ 0 → total (runs t) ws ≡ 0
runs-busy t [] h = refl
runs-busy t (waiting ∷ ws) h = omega (arith, runs-busy t ws (omega (arith, h)))
runs-busy t (running s ∷ ws) h = absurd (omega (arith, h))
runs-busy t (returned ∷ ws) h = absurd (omega (arith, h))
runs-busy t (ended ∷ ws) h = omega (arith, runs-busy t ws (omega (arith, h)))

may_return-eq : (p : Pool) → may_return p ≡ true → (p.work_queue ≡ []) × (p.pending_tasks ≡ 0)
unfolding may_return
may_return-eq p h = go p.work_queue refl h
  where
    go :
        (ss : List ℕ)
        → p.work_queue ≡ ss
        → elim ss [ [] ↦ p.pending_tasks == 0 | t ∷ ts ↦ false ] ≡ true
        → (p.work_queue ≡ []) × (p.pending_tasks ≡ 0)
    go [] e k = (e, ground (arith, k))
    go (t ∷ ts) e k = cc

-- When `wait_for_tasks_to_finish` may return, every task has been completed exactly as often as it was
-- submitted.
pub may_return-completed :
    (n : ℕ) (ts : List ℕ) (p : Pool) (t : ℕ)
    → PoolReach n ts p
    → may_return p ≡ true
    → count t p.completed ≡ count t ts
may_return-completed n ts p t r h =
    let (empty, none_pending) = may_return-eq p h in
    let (same, counts) = PoolReach-Counted n ts p r in
    omega (arith, counts t, ap (count t) empty, runs-busy t p.workers (sym same ∙ none_pending))
