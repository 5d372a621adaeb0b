-- ===== src/Net/AsyncPool/Calls.antt =====
-- A pool behind any sequence of `start` and `stop`.
use service_port_scanner.Net.AsyncPool.{
  resolve_thread_count, AsyncPool, make_pool, emplace_workers, start, let_go, join_workers, stop,
  destroy,
}
use service_port_scanner.Common.{
  ℕ, zero, suc, ◌+◌, ◌≡◌, ◌≢◌, refl, Bool, true, false, List, [], ◌∷◌, if◌then◌else◌, arith,
}

pub data Call : Type 0 where
  start_call : Call
  stop_call : Bool → Call

-- The pool behind the calls, the last of which is first.
unfoldable pub after_calls : AsyncPool → List Call → AsyncPool
unfolding start stop
after_calls p [] = p
after_calls p (start_call ∷ calls) = start (after_calls p calls)
after_calls p (stop_call force ∷ calls) = stop force (after_calls p calls)

-- A pool runs exactly where the last call started it.
abbrev pub last_starts : List Call → Bool
last_starts [] = false
last_starts (start_call ∷ calls) = true
last_starts (stop_call force ∷ calls) = false

-- What holds of a pool of `n` threads that runs or does not.
pub record IsPool (n : ℕ) (runs : Bool) (p : AsyncPool) : Type 0 where
  pub runs_as_said : p.running ≡ runs
  pub count_kept : p.thread_count ≡ n
  pub all_workers : p.workers ≡ (if runs then n else 0)
  pub accepts_work : p.io_stopped ≡ false
  pub guard_held : p.guard ≡ true

emplace_workers-IsPool :
    (rounds n : ℕ) (p : AsyncPool)
    → p.running ≡ true
    → p.thread_count ≡ n
    → p.workers + rounds ≡ n
    → p.io_stopped ≡ false
    → p.guard ≡ true
    → IsPool n true (emplace_workers rounds p)
unfolding emplace_workers
emplace_workers-IsPool zero n p r c w i g = record {
  runs_as_said = r;
  count_kept = c;
  all_workers = omega (arith, w);
  accepts_work = i;
  guard_held = g;
}
emplace_workers-IsPool (suc rounds) n p r c w i g =
    emplace_workers-IsPool rounds n (record p { workers = p.workers + 1 }) r c (omega (arith, w)) i
      g

start-IsPool : (n : ℕ) (runs : Bool) (p : AsyncPool) → IsPool n runs p → IsPool n true (start p)
unfolding start
start-IsPool n true p h = rw h.runs_as_said (record {
  runs_as_said = refl;
  count_kept = h.count_kept;
  all_workers = h.all_workers;
  accepts_work = h.accepts_work;
  guard_held = h.guard_held;
})
start-IsPool n false p h = rw h.runs_as_said (
    emplace_workers-IsPool p.thread_count n (record p { running = true }) refl h.count_kept
      (omega (arith, h.all_workers, h.count_kept)) h.accepts_work h.guard_held)

stop-IsPool :
    (n : ℕ) (runs : Bool) (force : Bool) (p : AsyncPool)
    → IsPool n runs p
    → IsPool n false (stop force p)
unfolding stop let_go join_workers
stop-IsPool n true force p h = rw h.runs_as_said (record {
  runs_as_said = refl;
  count_kept = h.count_kept;
  all_workers = refl;
  accepts_work = refl;
  guard_held = refl;
})
stop-IsPool n false force p h = rw h.runs_as_said (record {
  runs_as_said = refl;
  count_kept = h.count_kept;
  all_workers = h.all_workers;
  accepts_work = h.accepts_work;
  guard_held = h.guard_held;
})

module _ (hw requested : ℕ) where
  calls-IsPool :
      (calls : List Call)
      → IsPool
          (resolve_thread_count hw requested)
          (last_starts calls)
          (after_calls (make_pool hw requested) calls)
  unfolding after_calls make_pool
  calls-IsPool [] = record {
    runs_as_said = refl;
    count_kept = refl;
    all_workers = refl;
    accepts_work = refl;
    guard_held = refl;
  }
  calls-IsPool (start_call ∷ calls) = start-IsPool _ _ _ (calls-IsPool calls)
  calls-IsPool (stop_call force ∷ calls) = stop-IsPool _ _ force _ (calls-IsPool calls)

  resolve_thread_count-neq : resolve_thread_count hw requested ≢ 0
  unfolding resolve_thread_count
  resolve_thread_count-neq h = ground arith

  destroy-stopped :
      (n : ℕ) (runs : Bool) (p : AsyncPool)
      → IsPool n runs p
      → ((destroy p).running ≡ false) × ((destroy p).workers ≡ 0)
  unfolding destroy let_go join_workers
  destroy-stopped n true p h = rw h.runs_as_said (refl, refl)
  destroy-stopped n false p h = rw h.runs_as_said (refl, h.all_workers)

  -- Behind any calls of `start` and `stop`, however repeated, the pool runs exactly where the last of
  -- them is `start`: then it has all its threads, of which there is at least one, and else none; it is
  -- always ready to be started again. The destructor leaves no thread.
  pub after_calls-IsPool :
      (calls : List Call)
      → let p = after_calls (make_pool hw requested) calls in
        IsPool (resolve_thread_count hw requested) (last_starts calls) p
        × (resolve_thread_count hw requested ≢ 0)
        × ((destroy p).running ≡ false)
        × ((destroy p).workers ≡ 0)
  after_calls-IsPool calls = (
    calls-IsPool calls,
    resolve_thread_count-neq,
    (destroy-stopped _ _ _ (calls-IsPool calls)).0,
    (destroy-stopped _ _ _ (calls-IsPool calls)).1,
  )
