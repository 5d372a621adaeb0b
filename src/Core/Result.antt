-- ===== src/Core/Result.antt =====
-- src/core/result.hpp: the results of a scan, the severity of a score, and what a result says of its
-- CVEs. `timestamp` is not kept: nothing reads it.
pub mod Maxima
pub mod Severities
use service_port_scanner.Core.Floats.{FloatLib}
use service_port_scanner.Common.{
  ℕ, ◌+◌, Bool, true, false, Bytes, List, [], ◌∷◌, ltb, if◌then◌else◌,
}

pub data PortState : Type 0 where
  open_state closed_state filtered_state unknown_state : PortState

pub data Severity : Type 0 where
  critical high medium low no_severity : Severity

pub record ServiceInfo : Type 0 where
  pub name : Bytes
  pub product : Bytes
  pub version : Bytes
  pub extra_info : Bytes
  pub banner_raw : Bytes

abbrev pub is_critical : Severity → Bool
is_critical critical = true
is_critical _ = false

unfoldable pub state_is_open : PortState → Bool
state_is_open open_state = true
state_is_open _ = false

module _ (fl : FloatLib) where
  open fl use {Float, Double}

  unfoldable pub severity_from_cvss : Double → Severity
  severity_from_cvss cvss =
      if fl.ge cvss (fl.double 9)
      then critical
      else if fl.ge cvss (fl.double 7)
      then high
      else if fl.ge cvss (fl.double 4)
      then medium
      else if fl.gt cvss (fl.double 0)
      then low
      else no_severity

  pub record CveInfo : Type 0 where
    pub cve_id : Bytes
    pub description : Bytes
    pub cvss_score : Float
    pub severity : Severity
    pub epss : Double
    pub percentile : Double
    pub nuclei_verified : Bool

  pub record ScanResult : Type 0 where
    pub target_host : Bytes
    pub resolved_ip : Bytes
    pub port : ℕ
    pub protocol : Bytes
    pub state : PortState
    pub service : ServiceInfo
    pub ja4s : Bytes
    pub ja4x : Bytes
    pub cdn : Bytes
    pub os_guess : Bytes
    pub cves : List CveInfo
    pub rtt : ℕ

  unfoldable pub is_open : ScanResult → Bool
  unfolding state_is_open
  is_open r = state_is_open r.state

  -- The loop of `max_cvss`.
  unfoldable pub max_cvss_from : Float → List CveInfo → Float
  max_cvss_from m [] = m
  max_cvss_from m (c ∷ cs) =
      max_cvss_from (if fl.float_gt c.cvss_score m then c.cvss_score else m) cs

  unfoldable pub max_cvss : ScanResult → Float
  unfolding max_cvss_from
  max_cvss r = max_cvss_from fl.float_zero r.cves

  -- The loop of `max_epss`, `max_percentile` and `max_risk`, with what it takes of a CVE.
  unfoldable pub max_from : (CveInfo → Double) → Double → List CveInfo → Double
  max_from value m [] = m
  max_from value m (c ∷ cs) = max_from value (if fl.gt (value c) m then value c else m) cs

  unfoldable pub max_epss : ScanResult → Double
  unfolding max_from
  max_epss r = max_from (λ c. c.epss) (fl.double 0) r.cves

  unfoldable pub max_percentile : ScanResult → Double
  unfolding max_from
  max_percentile r = max_from (λ c. c.percentile) (fl.double 0) r.cves

  abbrev pub risk : CveInfo → Double
  risk c = fl.times (fl.widen c.cvss_score) c.epss

  unfoldable pub max_risk : ScanResult → Double
  unfolding max_from
  max_risk r = max_from risk (fl.double 0) r.cves

  unfoldable pub any_critical : List CveInfo → Bool
  any_critical [] = false
  any_critical (c ∷ cs) = if is_critical c.severity then true else any_critical cs

  unfoldable pub has_critical_cve : ScanResult → Bool
  unfolding any_critical
  has_critical_cve r = any_critical r.cves

  unfoldable pub count_verified : ℕ → List CveInfo → ℕ
  count_verified count [] = count
  count_verified count (c ∷ cs) = count_verified (if c.nuclei_verified then count + 1 else count) cs

  unfoldable pub verified_cve_count : ScanResult → ℕ
  unfolding count_verified
  verified_cve_count r = count_verified 0 r.cves

  unfoldable pub has_verified_cve : ScanResult → Bool
  unfolding verified_cve_count
  has_verified_cve r = ltb 0 (verified_cve_count r)
