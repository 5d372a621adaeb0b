-- ===== src/Scan/Pipeline.antt =====
-- src/scan/scan_pipeline.cpp, `scan_one`. What the network does is a value: how the race of the
-- connection ends, whether the name is resolved and the second connection made, and for each probe
-- what it finds and whether the connection after it is made.
pub mod Probing
pub mod Outcome
use service_port_scanner.Json.{ℤ}
use service_port_scanner.Net.Reals.{RealLib}
use service_port_scanner.Net.RateLimiter.{Limiter, acquire, on_response}
use service_port_scanner.Core.Floats.{FloatLib}
use service_port_scanner.Core.Result.{PortState, filtered_state, state_is_open, ScanResult}
use service_port_scanner.Fp.Cve.{Entry}
use service_port_scanner.Fp.Cve
use service_port_scanner.Probes.Identify.{ProbeOutcome}
use service_port_scanner.Scan.Connect.{ScanRequest, Race, connect_scan}
use service_port_scanner.Common.{
  ℕ, Bool, true, false, not, ◌&&◌, ◌||◌, Bytes, Option, none, some, List, [], ◌∷◌, any, is_empty,
  ◌==◌, if◌then◌else◌, ◌>>=◌,
}

-- A probe of the registry with what happens to it in this scan.
pub record Attempt : Type 0 where
  pub hint_ports : List ℕ
  pub found : ProbeOutcome
  pub reconnected : Bool

-- `hints.empty() || std::find(...) != hints.end()`.
abbrev pub match_hint : ℕ → Attempt → Bool
match_hint port a = is_empty a.hint_ports || any (λ p. p == port) a.hint_ports

-- `base.state == PortState::Filtered`.
unfoldable pub is_filtered : PortState → Bool
is_filtered filtered_state = true
is_filtered _ = false

module _ (fl : FloatLib) where
  -- What a match writes into the result.
  unfoldable pub fill : ProbeOutcome → ScanResult fl → ScanResult fl
  fill out base = record base {
    service = record base.service {
      name = out.service;
      version = out.version;
      banner_raw = out.banner;
    };
    ja4s = out.ja4s;
    ja4x = out.ja4x;
  }

  -- The loop over the probes.
  unfoldable pub run_probes : List Attempt → ScanResult fl → ScanResult fl
  unfolding fill
  run_probes [] base = base
  run_probes (a ∷ later) base =
      let rest = run_probes later base in
      if not (match_hint base.port a)
      then rest
      else if a.found.matched
      then fill a.found base
      else if a.reconnected
      then rest
      else base

  -- The end of `scan_one`; `none` is the null pointer.
  unfoldable pub add_cves : Option (List (Entry fl)) → ScanResult fl → ScanResult fl
  unfolding Cve.lookup
  add_cves none base = base
  add_cves (some entries) base =
      if not (is_empty entries)
        && not (is_empty base.service.name)
        && not (is_empty base.service.version)
      then record base { cves = Cve.lookup fl entries base.service.name base.service.version }
      else base

  -- Behind the report to the limiter. `none` for the probes is the null pointer; `connected` is
  -- whether the name is resolved and the second connection made.
  unfoldable pub identify_service :
      Option (List Attempt) → Bool → Option (List (Entry fl)) → ScanResult fl → ScanResult fl
  unfolding state_is_open run_probes add_cves
  identify_service none connected cves base = base
  identify_service (some probes) connected cves base =
      if not (state_is_open base.state)
      then base
      else if not connected
      then base
      else add_cves cves (run_probes probes base)

  -- The result, and the limiter behind it; `none` is still waiting for a token.
  module _ (re : RealLib) where
    unfoldable pub scan_one :
        ScanRequest
        → List re.Real
        → Race
        → ℕ
        → Option (List Attempt)
        → Bool
        → Option (List (Entry fl))
        → Limiter re
        → Option (ScanResult fl × Limiter re)
    unfolding acquire connect_scan is_filtered on_response identify_service
    scan_one req times race rtt probes connected cves limiter = acquire re times limiter >>= λ l.
        let base = record (connect_scan fl req race) { rtt = rtt } in
        some (
          identify_service probes connected cves base,
          on_response re (ℤ.pos rtt) (is_filtered base.state) l,
        )
