-- ===== src/Scan/Connect.antt =====
-- src/core/scanner.cpp, `connect_scan`: the race of a connection with the timer, and its result.
use service_port_scanner.Core.Floats.{FloatLib}
use service_port_scanner.Core.Result.{
  PortState, open_state, closed_state, filtered_state, ScanResult,
}
use service_port_scanner.Common.{ℕ, Bool, Bytes, codes, [], if◌then◌else◌}

pub record ScanRequest : Type 0 where
  pub host : Bytes
  pub port : ℕ

-- How the race ends: the timer first, or `do_connect` with its flag.
pub data Race : Type 0 where
  timer_first : Race
  connect_first : Bool → Race

module _ (fl : FloatLib) where
  unfoldable pub make_result : ScanRequest → PortState → ScanResult fl
  make_result req st = record {
    target_host = req.host;
    resolved_ip = [];
    port = req.port;
    protocol = codes "tcp";
    state = st;
    service = record { name = []; product = []; version = []; extra_info = []; banner_raw = [] };
    ja4s = [];
    ja4x = [];
    cdn = [];
    os_guess = [];
    cves = [];
    rtt = 0;
  }

  unfoldable pub connect_scan : ScanRequest → Race → ScanResult fl
  unfolding make_result
  connect_scan req Race.timer_first = make_result req filtered_state
  connect_scan req (Race.connect_first ok) =
      if ok then make_result req open_state else make_result req closed_state
