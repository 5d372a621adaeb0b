-- ===== src/Tests/ScanTests.antt =====
-- Runs of src/scan and src/core/scanner.cpp, and the theorems on concrete inputs.
use service_port_scanner.Net.RateLimiter.{Limiter}
use service_port_scanner.Core.Result.{ScanResult, open_state}
use service_port_scanner.Probes.Identify.{ProbeOutcome, no_outcome}
use service_port_scanner.Scan.Connect.{ScanRequest, Race, make_result, connect_scan}
use service_port_scanner.Scan.Pipeline.Probing.{Probed, run_probes-Probed}
use service_port_scanner.Scan.Pipeline.{Attempt, run_probes}
use service_port_scanner.Tests.Documents.{whole_numbers}
use service_port_scanner.Tests.NetTests.{thousandths, limiter}
use service_port_scanner.Common.{◌≡◌, refl, true, false, codes, List, [], ◌∷◌}

abbrev request : ScanRequest
request = record { host = codes "10.0.0.1"; port = 22 }

abbrev ssh_found : ProbeOutcome
ssh_found = record no_outcome { matched = true; service = codes "ssh"; version = codes "7.4" }

-- A probe for another port, one that finds nothing, and one that does.
abbrev attempts : List Attempt
attempts =
    record { hint_ports = 80 ∷ []; found = ssh_found; reconnected = false }
    ∷ record { hint_ports = []; found = no_outcome; reconnected = true }
    ∷ record { hint_ports = 2222 ∷ 22 ∷ []; found = ssh_found; reconnected = false }
    ∷ []

abbrev open_result : ScanResult whole_numbers
open_result = make_result whole_numbers request open_state

run_probes_run : (run_probes whole_numbers attempts open_result).service.name ≡ codes "ssh"
unfolding run_probes make_result
run_probes_run = refl

connect_scan_run : (connect_scan whole_numbers request (Race.connect_first true)) ≡ open_result
unfolding connect_scan
connect_scan_run = refl

run_probes-Probed_example :
    Probed whole_numbers open_result attempts (run_probes whole_numbers attempts open_result)
run_probes-Probed_example = run_probes-Probed whole_numbers attempts open_result

abbrev waited : Limiter thousandths
waited = record limiter { tokens = 0 }
