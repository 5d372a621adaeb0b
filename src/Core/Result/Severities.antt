-- ===== src/Core/Result/Severities.antt =====
-- The severity of a score grows with it.
use service_port_scanner.Core.Floats.{FloatLib, IsOrdered}
use service_port_scanner.Core.Result.{
  Severity, critical, high, medium, low, no_severity, severity_from_cvss,
}
use service_port_scanner.Common.{ℕ, ◌≤◌, ◌≡◌, true, arith}

-- The place of a severity in the order of the enumeration, from the mildest.
abbrev rank : Severity → ℕ
rank no_severity = 0
rank low = 1
rank medium = 2
rank high = 3
rank critical = 4

module _ (fl : FloatLib) (ordered : IsOrdered fl) where
  -- A score that is at least another has at least its severity.
  severity_from_cvss_monotone :
      (a b : fl.Double)
      → fl.ge a b ≡ true
      → rank (severity_from_cvss fl b) ≤ rank (severity_from_cvss fl a)
  unfolding severity_from_cvss
  severity_from_cvss_monotone a b h = ground (
    arith,
    ordered.ge_trans a b (fl.double 9) h,
    ordered.ge_trans a b (fl.double 7) h,
    ordered.ge_trans a b (fl.double 4) h,
    ordered.ge_gt_trans a b (fl.double 0) h,
  )
