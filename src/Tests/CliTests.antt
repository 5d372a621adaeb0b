-- ===== src/Tests/CliTests.antt =====
-- Runs of src/cli, and its theorems on concrete inputs.
use service_port_scanner.Cli.Ports.Expand.{Expansion, expand_port_spec-Expansion}
use service_port_scanner.Cli.Ports.Numbers.{IsPort, parse_uint16_iff}
use service_port_scanner.Cli.Ports.{parse_uint16, expand_port_spec}
use service_port_scanner.Cli.Scope.Internal.{Decides, check_scope-Decides}
use service_port_scanner.Cli.Scope.{
  ScopeOptions, allowed, denied_external_needs_consent, check_scope,
}
use service_port_scanner.Cli.TopPorts.{top_n_ports}
use service_port_scanner.Tests.Documents.{make_address, addresses, addresses-IsDocumented}
use service_port_scanner.Common.{◌≡◌, refl, ◌↔◌, true, false, codes, some, [], ◌∷◌, length}

expand_port_spec_runs :
    (expand_port_spec (codes "443,22,82-80,,22") ≡ 22 ∷ 80 ∷ 81 ∷ 82 ∷ 443 ∷ [])
    × (expand_port_spec (codes "22,x") ≡ [])
    × (expand_port_spec (codes "0") ≡ [])
unfolding expand_port_spec
expand_port_spec_runs = (refl, refl, refl)

abbrev no_consent : ScopeOptions
no_consent = record { explicit_consent = false }

check_scope_runs :
    (check_scope addresses (codes "172.31.0.1") no_consent ≡ allowed)
    × (check_scope addresses (codes "172.32.0.1") no_consent ≡ denied_external_needs_consent)
    × (check_scope addresses (codes "8.8.8.8") (record { explicit_consent = true }) ≡ allowed)
unfolding check_scope make_address
check_scope_runs = (refl, refl, refl)

top_n_ports_runs : (length (top_n_ports 5) ≡ 5) × (length (top_n_ports 1000) ≡ 100)
unfolding top_n_ports
top_n_ports_runs = (refl, refl)

expand_port_spec-Expansion_example :
    Expansion (codes "443,22,82-80,,22") (expand_port_spec (codes "443,22,82-80,,22"))
expand_port_spec-Expansion_example = expand_port_spec-Expansion (codes "443,22,82-80,,22")

parse_uint16_iff_example : (parse_uint16 (codes "08080") ≡ some 8080) ↔ IsPort (codes "08080") 8080
parse_uint16_iff_example = parse_uint16_iff (codes "08080") 8080

check_scope-Decides_example :
    Decides addresses
      (addresses.make_address (codes "8.8.8.8"))
      false
      (check_scope addresses (codes "8.8.8.8") no_consent)
check_scope-Decides_example =
    check_scope-Decides addresses addresses-IsDocumented (codes "8.8.8.8") no_consent
