-- ===== src/Gui/ScanController/Life.antt =====
-- The controller over any calls of its slots, deliveries and steps of its worker.
use service_port_scanner.Main.{Libs}
use service_port_scanner.Gui.ScanController.History.{Log, logged}
use service_port_scanner.Gui.ScanController.{
  Settings, Controller, new_controller, start_scan, cancel_scan, deliver, Turn, work,
}
use service_port_scanner.Common.{ℕ, ◌≡◌, true, false, Bytes, List, [], ◌∷◌}

module _ (libs : Libs) where
  -- The states behind the scans of a log. A scan is refused while one runs.
  pub data Reach (s : Settings libs) : Log libs → Controller libs → Type 0 where
    created : Reach s [] (new_controller libs s)
    started :
        {log : Log libs} {c : Controller libs} (target : Bytes) (ports : List ℕ)
        → Reach s log c
        → c.running ≡ false
        → Reach s ((target, []) ∷ log) (start_scan libs target ports c)
    refused :
        {log : Log libs} {c : Controller libs} (target : Bytes) (ports : List ℕ)
        → Reach s log c
        → c.running ≡ true
        → Reach s log (start_scan libs target ports c)
    cancelled :
        {log : Log libs} {c : Controller libs} → Reach s log c → Reach s log (cancel_scan libs c)
    delivered :
        {log : Log libs} {c : Controller libs} → Reach s log c → Reach s log (deliver libs c)
    worked :
        {log : Log libs} {c : Controller libs} (turn : Turn libs)
        → Reach s log c
        → Reach s (logged libs turn c log) (work libs turn c)
