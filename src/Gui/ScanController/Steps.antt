-- ===== src/Gui/ScanController/Steps.antt =====
-- Every step of the worker keeps what holds at its place.
use mathlib.Core.Path.{subst}
use service_port_scanner.Main.{Libs, Launch, Task, task_result, task_error}
use service_port_scanner.Gui.ScanController.{
  Posted, scan_error, Settings, Worker, no_worker, spawning, collecting, counting, stopping,
  unwinding, closing, releasing, exited, Controller, Turn, emit, await, post_task, catch_step,
  try_step, work_at, work,
}
use service_port_scanner.Common.{
  ℕ, suc, ◌+◌, ◌≡◌, refl, sym, Bool, true, false, Bytes, codes, ◌++◌, append-nil, Option, none,
  some, List, [], ◌∷◌, length, if◌then◌else◌, arith,
}
use service_port_scanner.Gui.ScanController.History.{
  history, Log, posted, Last, Scans, Open, SoundAt, Sound, log_task, read_in_try, unless_thrown,
  logged, history-post, history-error, Open-finish, Scans-start, Open-post, Open-count,
}

module _ (libs : Libs) where
  open libs use {fl}

  abbrev InTry : Worker libs → Type 0
  InTry (spawning target ps ls) = Unit
  InTry (collecting target ls done total) = Unit
  InTry (counting target ls done total) = Unit
  InTry stopping = Unit
  InTry _ = ⊥

  post_task-history :
      (target : Bytes) (t : Task libs) (c : Controller libs)
      → history libs (post_task libs target t c) ≡ history libs c ++ posted libs c.settings target t
  unfolding post_task history
  post_task-history target task_error c = sym (append-nil (history libs c))
  post_task-history target (task_result r) c = history-post libs _ c

  post_task-keeps :
      (target : Bytes) (t : Task libs) (c : Controller libs)
      → ((post_task libs target t c).settings ≡ c.settings)
        × ((post_task libs target t c).running ≡ c.running)
  unfolding post_task
  post_task-keeps target task_error c = (refl, refl)
  post_task-keeps target (task_result r) c = (refl, refl)

  post_task-Sound :
      (log : Log libs) (target : Bytes) (ls : List (Launch libs)) (done total : ℕ) (t : Task libs)
      (c : Controller libs)
      → c.running ≡ true
      → done + suc (length ls) ≡ total
      → Open libs c.settings log target total done [] [] (history libs c)
      → Sound libs
          (log_task libs (some t) log)
          (record (post_task libs target t c) { worker = counting target ls done total })
  unfolding Sound SoundAt history
  post_task-Sound log target ls done total t c r e o =
      let (settings_kept, running_kept) = post_task-keeps target t c in
      rw (settings_kept, running_kept)
        (
          r,
          e,
          (
            t,
            subst
                (Open libs c.settings (log_task libs (some t) log) target total done (t ∷ [])
                  (posted libs c.settings target t))
                (sym (post_task-history target t c)) (Open-post libs t o),
          ),
        )

  -- The step that reads a future, whether the scan is cancelled and the future is ready or not.
  await-Sound :
      (cancel : Bool) (read : Option (Task libs)) (log : Log libs) (target : Bytes)
      (l : Launch libs) (ls : List (Launch libs)) (done total : ℕ) (c : Controller libs)
      → c.worker ≡ collecting target (l ∷ ls) done total
      → c.running ≡ true
      → done + suc (length ls) ≡ total
      → Open libs c.settings log target total done [] [] (history libs c)
      → Sound libs (log_task libs (if cancel then none else read) log) (
          if cancel then record c { worker = stopping } else await libs target ls done total read c)
  unfolding Sound SoundAt history log_task
  await-Sound true read log target l ls done total c w r e o =
      (r, (target, total, done, [], [], Last.no_task, o))
  await-Sound false none log target l ls done total c w r e o = rw w (r, e, o)
  await-Sound false (some t) log target l ls done total c w r e o =
      post_task-Sound log target ls done total t c r e o

  either_Sound :
      (log : Log libs) (b : Bool) (c d : Controller libs)
      → Sound libs log c
      → Sound libs log d
      → Sound libs log (if b then c else d)
  either_Sound log true c d s t = s
  either_Sound log false c d s t = t

  -- A step of the worker inside the `try` block.
  try_step-Sound :
      (log : Log libs) (turn : Turn libs) (w : Worker libs) (c : Controller libs)
      → c.worker ≡ w
      → SoundAt libs c.settings log w c.running (history libs c)
      → Sound libs (log_task libs (read_in_try libs turn w c.cancel) log) (try_step libs turn w c)
  unfolding Sound SoundAt try_step history log_task
  try_step-Sound log turn no_worker c h s = rw h s
  try_step-Sound log turn exited c h s = rw h s
  try_step-Sound log turn closing c h s = rw h s
  try_step-Sound log turn releasing c h s = rw h s
  try_step-Sound log turn (unwinding what) c h s = rw h s
  try_step-Sound log turn stopping c h s = either_Sound log turn.joined _ c s (rw h s)
  try_step-Sound log turn (spawning target [] ls) c h (r, (before, e, s)) =
      (r, omega arith, Scans-start libs (length ls) e s)
  try_step-Sound log turn (spawning target (p ∷ ps) ls) c h (r, (before, e, s)) =
      either_Sound log c.cancel _ _ (r, omega arith, Scans-start libs (length ls) e s)
        (r, (before, e, s))
  try_step-Sound log turn (collecting target [] done total) c h (r, e, o) =
      (r, (target, total, done, [], [], Last.no_task, o))
  try_step-Sound log turn (collecting target (l ∷ ls) done total) c h (r, e, o) =
      await-Sound c.cancel (turn.get l) log target l ls done total c h r e o
  try_step-Sound log turn (counting target ls done total) c h (r, e, (t, o)) = (
    r,
    omega arith,
    subst (Open libs c.settings log target total (done + 1) [] []) (sym (history-post libs _ c))
        (Open-count libs (omega arith) o),
  )

  -- Behind an exception: the worker leaves the `try` block.
  fail-SoundAt :
      (s : Settings libs) (log : Log libs) (what : Bytes) (w : Worker libs) (running : Bool)
      (h : List (Posted libs))
      → InTry w
      → SoundAt libs s log w running h
      → SoundAt libs s log (unwinding what) running h
  unfolding SoundAt
  fail-SoundAt s log what (spawning target ps ls) running h i (r, (before, e, d)) =
      (r, (target, 0, 0, [], [], Last.no_task, Scans-start libs 0 e d))
  fail-SoundAt s log what (collecting target ls done total) running h i (r, e, o) =
      (r, (target, total, done, [], [], Last.no_task, o))
  fail-SoundAt s log what (counting target ls done total) running h i (r, e, (t, o)) =
      (r, (target, total, done, _, _, Last.one_task t, o))
  fail-SoundAt s log what stopping running h i d = d
  fail-SoundAt s log what (unwinding _) running h i _ = absurd i
  fail-SoundAt s log what no_worker running h i _ = absurd i
  fail-SoundAt s log what closing running h i _ = absurd i
  fail-SoundAt s log what releasing running h i _ = absurd i
  fail-SoundAt s log what exited running h i _ = absurd i

  catch_step-Sound :
      (log : Log libs) (x : Option Bytes) (read : Option (Task libs)) (w : Worker libs)
      (c next : Controller libs)
      → InTry w
      → SoundAt libs c.settings log w c.running (history libs c)
      → Sound libs (log_task libs read log) next
      → Sound libs (log_task libs (unless_thrown libs x read) log) (catch_step libs x c next)
  unfolding Sound SoundAt history log_task
  catch_step-Sound log none read w c next i s t = t
  catch_step-Sound log (some what) read w c next i s t =
      fail-SoundAt c.settings log what w c.running (history libs c) i s

  -- The end of the unwinding.
  caught-Sound :
      (log : Log libs) (what : Bytes) (c : Controller libs)
      → SoundAt libs c.settings log (unwinding what) c.running (history libs c)
      → Sound libs log
          (emit libs (scan_error (codes "Scan error: " ++ what)) (record c { worker = closing }))
  unfolding Sound SoundAt history
  caught-Sound log what c s =
      subst (SoundAt libs c.settings log closing c.running) (sym (history-error libs _ c)) s

  no_read :
      (x : Option Bytes) (log : Log libs) → log_task libs (unless_thrown libs x none) log ≡ log
  unfolding log_task
  no_read none log = refl
  no_read (some what) log = refl

  work_at-Sound :
      (log : Log libs) (turn : Turn libs) (w : Worker libs) (c : Controller libs)
      → c.worker ≡ w
      → SoundAt libs c.settings log w c.running (history libs c)
      → Sound libs
          (log_task libs (unless_thrown libs turn.exception (read_in_try libs turn w c.cancel)) log)
          (work_at libs turn w c)
  unfolding Sound SoundAt work_at history
  work_at-Sound log turn no_worker c h s = rw (h, no_read turn.exception log) s
  work_at-Sound log turn exited c h s = rw (h, no_read turn.exception log) s
  work_at-Sound log turn (unwinding what) c h s =
      rw (no_read turn.exception log)
        (either_Sound log turn.joined _ c (caught-Sound log what c s) (rw h s))
  work_at-Sound log turn closing c h (r, (target, total, done, last, result, l, o)) =
      rw (no_read turn.exception log)
        (r, subst (Scans libs c.settings log) (sym (history-post libs _ c)) (Open-finish libs l o))
  work_at-Sound log turn releasing c h (r, s) = rw (no_read turn.exception log) (refl, s)
  work_at-Sound log turn stopping c h s =
      catch_step-Sound log turn.exception none stopping c _ tt s
        (try_step-Sound log turn stopping c h s)
  work_at-Sound log turn (spawning target ps ls) c h s =
      catch_step-Sound log turn.exception none (spawning target ps ls) c _ tt s
        (try_step-Sound log turn (spawning target ps ls) c h s)
  work_at-Sound log turn (collecting target ls done total) c h s =
      catch_step-Sound log turn.exception
        (read_in_try libs turn (collecting target ls done total) c.cancel)
        (collecting target ls done total) c _ tt s
        (try_step-Sound log turn (collecting target ls done total) c h s)
  work_at-Sound log turn (counting target ls done total) c h s =
      catch_step-Sound log turn.exception none (counting target ls done total) c _ tt s
        (try_step-Sound log turn (counting target ls done total) c h s)

  pub work-Sound :
      (log : Log libs) (turn : Turn libs) (c : Controller libs)
      → Sound libs log c
      → Sound libs (logged libs turn c log) (work libs turn c)
  unfolding Sound work logged
  work-Sound log turn c s = work_at-Sound log turn c.worker c refl s
