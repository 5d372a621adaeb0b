-- ===== src/Gui/ScanController.antt =====
-- src/gui/views/scan_controller.cpp, and src/net/qt_bridge.cpp, whose events the event loop delivers
-- in the order they are posted. The window's thread calls the slots, one worker thread runs
-- `runScan`; a step of the worker is what it does between two accesses to what the threads share, and
-- one that has to wait leaves the state as it is.
pub mod History
pub mod Steps
pub mod Life
pub mod Ends
use service_port_scanner.Json.{ℤ}
use service_port_scanner.Core.Result.{ScanResult}
use service_port_scanner.Fp.Cdn.{CdnDatabase}
use service_port_scanner.Fp.Cdn
use service_port_scanner.Fp.Cve
use service_port_scanner.Probes.Registry.{ProbeVariant}
use service_port_scanner.Main.{Libs, Scores, Launch, Task, task_result, task_error, annotate}
use service_port_scanner.Common.{
  ℕ, ◌+◌, Bool, true, false, Bytes, codes, Option, none, some, List, [], ◌∷◌, ◌++◌, length,
  is_empty, ltb, if◌then◌else◌,
}

module _ (libs : Libs) where
  open libs use {re, fl, json, regex}

  -- The members that the setters write.
  pub record Settings : Type 0 where
    pub probes : List (ProbeVariant json regex)
    pub cves : List (Cve.Entry fl)
    pub epss : Scores libs
    pub cdn : CdnDatabase
    pub rate : re.Real
    pub timeout : ℕ

  unfoldable pub set_rate : re.Real → Settings → Settings
  set_rate pps s = if re.lt (re.decimal 0 0) pps then record s { rate = pps } else s

  -- The count of milliseconds is signed.
  unfoldable pub set_timeout : ℤ → Settings → Settings
  set_timeout (ℤ.pos t) s = if ltb 0 t then record s { timeout = t } else s
  set_timeout (ℤ.negsuc t) s = s

  -- What the bridge posts to the event loop.
  pub data Posted : Type 0 where
    result_ready : ScanResult fl → Posted
    progress_changed : ℕ → ℕ → Posted
    scan_finished : Posted

  -- What the controller emits: the events of the bridge as they are delivered, and errors.
  pub data Signal : Type 0 where
    forwarded : Posted → Signal
    scan_error : Bytes → Signal

  -- Where the worker is: before the first scan; in the loop over the ports, with those that are left
  -- and the coroutines spawned; in the loop over the futures, with those that wait, `done` and
  -- `total`; between the result and the progress of a future; in `pool.stop()`; in the destructor of
  -- the pool behind an exception; before `postFinished`; before `running_.store(false)`; at its end.
  pub data Worker : Type 0 where
    no_worker : Worker
    spawning : Bytes → List ℕ → List (Launch libs) → Worker
    collecting : Bytes → List (Launch libs) → ℕ → ℕ → Worker
    counting : Bytes → List (Launch libs) → ℕ → ℕ → Worker
    stopping : Worker
    unwinding : Bytes → Worker
    closing : Worker
    releasing : Worker
    exited : Worker

  pub record Controller : Type 0 where
    pub settings : Settings
    pub running : Bool
    pub cancel : Bool
    pub worker : Worker
    -- The events that are posted and not delivered, and what was emitted.
    pub queue : List Posted
    pub emitted : List Signal

  unfoldable pub new_controller : Settings → Controller
  new_controller s = record {
    settings = s;
    running = false;
    cancel = false;
    worker = no_worker;
    queue = [];
    emitted = [];
  }

  abbrev pub emit : Signal → Controller → Controller
  emit s c = record c { emitted = c.emitted ++ s ∷ [] }

  -- `postResult`, `postProgress` and `postFinished`.
  abbrev pub post : Posted → Controller → Controller
  post e c = record c { queue = c.queue ++ e ∷ [] }

  -- `startScan`, whose `join` returns at once on a worker at its end.
  unfoldable pub start_scan : Bytes → List ℕ → Controller → Controller
  start_scan target ports c =
      if c.running
      then emit (scan_error (codes "Scan already in progress")) c
      else record c { running = true; cancel = false; worker = spawning target ports [] }

  unfoldable pub cancel_scan : Controller → Controller
  cancel_scan c = record c { cancel = true }

  -- The event loop delivers the first event.
  abbrev pub deliver_next : List Posted → Controller → Controller
  deliver_next [] c = c
  deliver_next (e ∷ queue) c = emit (forwarded e) (record c { queue = queue })

  unfoldable pub deliver : Controller → Controller
  deliver c = deliver_next c.queue c

  -- What the worker meets: the exception that is thrown in the `try` block, what the futures give,
  -- where `none` is a future that is not ready, and whether the threads of the pool have ended.
  pub record Turn : Type 0 where
    pub exception : Option Bytes
    pub get : Launch libs → Option (Task libs)
    pub joined : Bool

  -- The call of `scan_one` for a port.
  unfoldable pub launch : Settings → Bytes → ℕ → Launch libs
  launch s target port = record {
    target = target;
    port = port;
    timeout = s.timeout;
    probes = if is_empty s.probes then none else some s.probes;
    cves = if is_empty s.cves then none else some s.cves;
  }

  unfoldable pub cdn_provider : Settings → Bytes → Bytes
  unfolding Cdn.lookup Cdn.empty
  cdn_provider s target = if Cdn.empty s.cdn then [] else Cdn.lookup s.cdn target

  -- The body of the loop over the futures, to `++done`.
  unfoldable pub post_task : Bytes → Task libs → Controller → Controller
  unfolding cdn_provider annotate
  post_task target task_error c = c
  post_task target (task_result r) c =
      post (result_ready (annotate libs (cdn_provider c.settings target) c.settings.epss r)) c

  -- `f.get()`, which waits until the future is ready.
  abbrev pub await :
      Bytes → List (Launch libs) → ℕ → ℕ → Option (Task libs) → Controller → Controller
  await target ls done total none c = c
  await target ls done total (some t) c = record (post_task target t c) {
    worker = counting target ls done total;
  }

  -- One step of the worker inside the `try` block that throws nothing.
  unfoldable pub try_step : Turn → Worker → Controller → Controller
  unfolding launch post_task
  try_step turn (spawning target [] ls) c = record c { worker = collecting target ls 0 (length ls) }
  try_step turn (spawning target (p ∷ ps) ls) c =
      if c.cancel
      then record c { worker = collecting target ls 0 (length ls) }
      else record c { worker = spawning target ps (ls ++ launch c.settings target p ∷ []) }
  try_step turn (collecting target [] done total) c = record c { worker = stopping }
  try_step turn (collecting target (l ∷ ls) done total) c =
      if c.cancel then record c { worker = stopping } else await target ls done total (turn.get l) c
  try_step turn (counting target ls done total) c =
      post (progress_changed (done + 1) total)
        (record c { worker = collecting target ls (done + 1) total })
  try_step turn stopping c = if turn.joined then record c { worker = closing } else c
  try_step turn w c = c

  abbrev pub catch_step : Option Bytes → Controller → Controller → Controller
  catch_step none c next = next
  catch_step (some what) c next = record c { worker = unwinding what }

  -- One step of the worker.
  unfoldable pub work_at : Turn → Worker → Controller → Controller
  unfolding try_step
  work_at turn no_worker c = c
  work_at turn exited c = c
  work_at turn (unwinding what) c =
      if turn.joined
      then emit (scan_error (codes "Scan error: " ++ what)) (record c { worker = closing })
      else c
  work_at turn closing c = post scan_finished (record c { worker = releasing })
  work_at turn releasing c = record c { running = false; worker = exited }
  work_at turn w c = catch_step turn.exception c (try_step turn w c)

  unfoldable pub work : Turn → Controller → Controller
  unfolding work_at
  work turn c = work_at turn c.worker c
