-- ===== src/Report/Names.antt =====
-- The names of enumerators and flags in the reports: src/report/csv_writer.cpp, as in the other
-- writers.
use service_port_scanner.Core.Result.{
  PortState, open_state, closed_state, filtered_state, unknown_state, Severity, critical, high,
  medium, low, no_severity,
}
use service_port_scanner.Common.{Bool, true, false, Bytes, codes}

unfoldable pub state_str : PortState → Bytes
state_str open_state = codes "open"
state_str closed_state = codes "closed"
state_str filtered_state = codes "filtered"
state_str unknown_state = codes "unknown"

unfoldable pub severity_str : Severity → Bytes
severity_str critical = codes "critical"
severity_str high = codes "high"
severity_str medium = codes "medium"
severity_str low = codes "low"
severity_str no_severity = codes "none"

unfoldable pub bool_str : Bool → Bytes
bool_str true = codes "true"
bool_str false = codes "false"
