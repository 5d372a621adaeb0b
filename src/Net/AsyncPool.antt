-- ===== src/Net/AsyncPool.antt =====
-- src/net/async_pool.cpp: the pool of threads that run the coroutines. `io_context` of boost::asio is
-- kept as whether it is stopped, by `stop` or because `run` is out of work; a `join` returns when the
-- thread ends, which is here when its `run` returns, and not by an exception.
pub mod Calls
use service_port_scanner.Common.{
  ℕ, zero, suc, ◌+◌, Bool, true, false, not, List, [], ◌∷◌, ◌==◌, if◌then◌else◌,
}

abbrev pub default_threads : ℕ
default_threads = 2

-- `hw` is what `std::thread::hardware_concurrency` gives.
unfoldable pub resolve_thread_count : ℕ → ℕ → ℕ
resolve_thread_count hw requested =
    if not (requested == 0) then requested else if hw == 0 then default_threads else hw

-- `guard` is whether the work guard is held.
pub record AsyncPool : Type 0 where
  pub io_stopped : Bool
  pub guard : Bool
  pub workers : ℕ
  pub thread_count : ℕ
  pub running : Bool

-- The constructor.
unfoldable pub make_pool : ℕ → ℕ → AsyncPool
unfolding resolve_thread_count
make_pool hw thread_count = record {
  io_stopped = false;
  guard = true;
  workers = 0;
  thread_count = resolve_thread_count hw thread_count;
  running = false;
}

-- The loop of `start`.
unfoldable pub emplace_workers : ℕ → AsyncPool → AsyncPool
emplace_workers zero p = p
emplace_workers (suc rounds) p = emplace_workers rounds (record p { workers = p.workers + 1 })

unfoldable pub start : AsyncPool → AsyncPool
unfolding emplace_workers
start p = if p.running then p else emplace_workers p.thread_count (record p { running = true })

-- The work guard is let go, and the context stopped where the stop is forced.
unfoldable pub let_go : Bool → AsyncPool → AsyncPool
let_go force p = record p { guard = false; io_stopped = if force then true else p.io_stopped }

-- `join` and `clear`. A thread ends when the context is stopped or out of work, and the context is
-- then stopped.
unfoldable pub join_workers : AsyncPool → AsyncPool
join_workers p = record p {
  workers = 0;
  io_stopped = if p.workers == 0 then p.io_stopped else true;
}

unfoldable pub stop : Bool → AsyncPool → AsyncPool
unfolding let_go join_workers
stop force p = if not p.running then p else record (join_workers (let_go force p)) {
  io_stopped = false;
  guard = true;
  running = false;
}

-- The destructor, which always forces.
unfoldable pub destroy : AsyncPool → AsyncPool
unfolding let_go join_workers
destroy p = if not p.running then p else record (join_workers (let_go true p)) { running = false }
