-- ===== src/Report/Summary.antt =====
-- The counters at the head of src/report/json_writer.cpp and html_writer.cpp.
use service_port_scanner.Core.Floats.{FloatLib}
use service_port_scanner.Core.Result.{
  PortState, open_state, closed_state, filtered_state, unknown_state, ScanResult,
}
use service_port_scanner.Common.{ℕ, ◌+◌, List, [], ◌∷◌, length}

pub record Counters : Type 0 where
  pub open_ports : ℕ
  pub closed_ports : ℕ
  pub filtered_ports : ℕ
  pub total_cves : ℕ

abbrev pub zero_counters : Counters
zero_counters = record { open_ports = 0; closed_ports = 0; filtered_ports = 0; total_cves = 0 }

-- The tests of one round.
unfoldable pub count_state : PortState → Counters → Counters
count_state open_state c = record c { open_ports = c.open_ports + 1 }
count_state closed_state c = record c { closed_ports = c.closed_ports + 1 }
count_state filtered_state c = record c { filtered_ports = c.filtered_ports + 1 }
count_state unknown_state c = c

module _ (fl : FloatLib) where
  unfoldable pub count_results : Counters → List (ScanResult fl) → Counters
  unfolding count_state
  count_results c [] = c
  count_results c (r ∷ rs) =
      let counted = count_state r.state c in
      count_results (record counted { total_cves = counted.total_cves + length r.cves }) rs
