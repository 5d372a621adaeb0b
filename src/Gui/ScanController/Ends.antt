-- ===== src/Gui/ScanController/Ends.antt =====
-- Every scan ends unless it waits for ever: a measure of what is left to the worker.
use service_port_scanner.Main.{Libs, Launch, Task}
use service_port_scanner.Gui.ScanController.History.{Log, logged}
use service_port_scanner.Gui.ScanController.{
  Worker, no_worker, spawning, collecting, counting, stopping, unwinding, closing, releasing,
  exited, Controller, Turn, work,
}
use service_port_scanner.Common.{ℕ, ◌+◌, ◌*◌, ◌≡◌, true, some, List, [], ◌∷◌, length}

module _ (libs : Libs) where
  -- A bound on the steps that are left to the worker.
  unfoldable pub steps_left : Worker libs → ℕ
  steps_left no_worker = 0
  steps_left exited = 0
  steps_left releasing = 1
  steps_left closing = 2
  steps_left (unwinding what) = 3
  steps_left stopping = 4
  steps_left (collecting target ls done total) = 2 * length ls + 5
  steps_left (counting target ls done total) = 2 * length ls + 6
  steps_left (spawning target ps ls) = 3 * length ps + 2 * length ls + 6

  -- Nothing keeps the worker waiting: every future is ready, and the threads of the pool have ended.
  pub record IsReady (turn : Turn libs) : Type 0 where
    pub gives : (l : Launch libs) → (t : Task libs) × (turn.get l ≡ some t)
    pub joins : turn.joined ≡ true

  -- The worker alone, meeting one turn after the other, and the log behind it.
  unfoldable pub works : List (Turn libs) → Controller libs → Controller libs
  unfolding work
  works [] c = c
  works (turn ∷ turns) c = works turns (work libs turn c)

  unfoldable pub works_logged : List (Turn libs) → Controller libs → Log libs → Log libs
  unfolding work logged
  works_logged [] c log = log
  works_logged (turn ∷ turns) c log = works_logged turns (work libs turn c) (logged libs turn c log)
