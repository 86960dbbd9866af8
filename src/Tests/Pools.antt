-- ===== src/Tests/Pools.antt =====
-- A pool of two workers, whose two tasks end in the other order.
use libcosim.Base.{ℕ, true, false, List, [], ◌∷◌, ◌≡◌, refl}
use libcosim.ThreadPool.Defs.{
  Worker, waiting, running, returned, Pool, make, submit, wake, wake_at, return_task, return_at,
  settle, settle_at, may_return,
}
use libcosim.ThreadPool.Counts.{
  count, PoolReach, made, submits, wakes, returns, settles, may_return-completed,
}

abbrev pool : List ℕ → Worker → Worker → ℕ → List ℕ → Pool
pool queue v w pending completed = record {
  done = false;
  work_queue = queue;
  workers = v ∷ w ∷ [];
  pending_tasks = pending;
  completed = completed;
}

two_queued : PoolReach 2 (8 ∷ 7 ∷ []) (pool (7 ∷ 8 ∷ []) waiting waiting 0 [])
unfolding make submit
two_queued = submits 8 (submits 7 made)

two_running : PoolReach 2 (8 ∷ 7 ∷ []) (pool [] (running 7) (running 8) 2 [])
unfolding wake wake_at
two_running = wakes {p = pool (8 ∷ []) (running 7) waiting 1 []} 1 (wakes 0 two_queued refl) refl

one_returned : PoolReach 2 (8 ∷ 7 ∷ []) (pool [] (running 7) returned 2 (8 ∷ []))
unfolding return_task return_at
one_returned = returns 1 two_running refl

one_settled : PoolReach 2 (8 ∷ 7 ∷ []) (pool [] (running 7) waiting 1 (8 ∷ []))
unfolding settle settle_at
one_settled = settles 1 one_returned refl

both_settled : PoolReach 2 (8 ∷ 7 ∷ []) (pool [] waiting waiting 0 (7 ∷ 8 ∷ []))
unfolding return_task return_at settle settle_at
both_settled =
    settles {p = pool [] returned waiting 1 (7 ∷ 8 ∷ [])} 0 (returns 0 one_settled refl) refl

at_rest : may_return (pool [] waiting waiting 0 (7 ∷ 8 ∷ [])) ≡ true
unfolding may_return
at_rest = refl

may_return-completed_example : count 7 (7 ∷ 8 ∷ []) ≡ count 7 (8 ∷ 7 ∷ [])
may_return-completed_example =
    may_return-completed 2 (8 ∷ 7 ∷ []) (pool [] waiting waiting 0 (7 ∷ 8 ∷ [])) 7 both_settled
      at_rest
