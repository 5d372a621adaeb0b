-- ===== src/Scan/Pipeline/Outcome.antt =====
-- What a scan of one port reports.
use service_port_scanner.Json.{ℤ}
use service_port_scanner.Net.Reals.{RealLib}
use service_port_scanner.Net.RateLimiter.{Limiter, on_response}
use service_port_scanner.Core.Floats.{FloatLib}
use service_port_scanner.Core.Result.{
  PortState, open_state, closed_state, filtered_state, ScanResult,
}
use service_port_scanner.Fp.Cve.{Entry}
use service_port_scanner.Scan.Connect.{ScanRequest, Race, make_result}
use service_port_scanner.Scan.Pipeline.Probing.{Probed}
use service_port_scanner.Scan.Pipeline.{Attempt, is_filtered, add_cves}
use service_port_scanner.Common.{ℕ, ◌≡◌, ◌≢◌, Bool, true, false, Option, none, some, List}

module _ (fl : FloatLib) where
  abbrev pub state_of : Race → PortState
  state_of Race.timer_first = filtered_state
  state_of (Race.connect_first true) = open_state
  state_of (Race.connect_first false) = closed_state

  -- The fields that no step behind the connection changes.
  pub record SameScan (base r : ScanResult fl) : Type 0 where
    pub same_host : r.target_host ≡ base.target_host
    pub same_port : r.port ≡ base.port
    pub same_state : r.state ≡ base.state
    pub same_rtt : r.rtt ≡ base.rtt

  -- What the probes and the table of CVEs add to the result of a connection: nothing where the port
  -- is not open, no probes are given, or the second connection fails.
  pub data Adds (probes : Option (List Attempt)) (connected : Bool)
      (cves : Option (List (Entry fl))) (base : ScanResult fl) : ScanResult fl → Type 0 where
    not_open : base.state ≢ open_state → Adds probes connected cves base base
    no_probes : probes ≡ none → Adds probes connected cves base base
    not_connected : connected ≡ false → Adds probes connected cves base base
    probed :
        (attempts : List Attempt) (r : ScanResult fl)
        → probes ≡ some attempts
        → base.state ≡ open_state
        → connected ≡ true
        → Probed fl base attempts r
        → SameScan base (add_cves fl cves r)
        → Adds probes connected cves base (add_cves fl cves r)

  -- The result of the connection, before the probes.
  abbrev pub connected_result : ScanRequest → Race → ℕ → ScanResult fl
  connected_result req race rtt = record (make_result fl req (state_of race)) { rtt = rtt }

  module _ (re : RealLib) where
    pub record IsScanned (req : ScanRequest) (race : Race) (rtt : ℕ)
        (probes : Option (List Attempt)) (connected : Bool) (cves : Option (List (Entry fl)))
        (waited limiter : Limiter re) (r : ScanResult fl) : Type 0 where
      pub adds : Adds probes connected cves (connected_result req race rtt) r
      pub told : limiter ≡ on_response re (ℤ.pos rtt) (is_filtered (state_of race)) waited
