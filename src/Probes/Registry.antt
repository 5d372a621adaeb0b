-- ===== src/Probes/Registry.antt =====
-- src/probes/registry.cpp, `default_probes`, and `json_probes_from_database` of
-- src/probes/probe_engine.cpp. A probe is a rule or the native TLS probe (src/probes/probe_variant.hpp).
use service_port_scanner.Json.{JsonLib}
use service_port_scanner.Probes.Regex.{RegexLib}
use service_port_scanner.Probes.Rules.{ProbeRule}
use service_port_scanner.Probes.Rules.Default.{load_default, load_from_file}
use service_port_scanner.Common.{Bytes, Option, List, [], ◌∷◌, ◌++◌, is_empty, if◌then◌else◌}

module _ (json : JsonLib) (re : RegexLib) where
  pub data ProbeVariant : Type 0 where
    json_probe : ProbeRule json re → ProbeVariant
    tls_probe : ProbeVariant

  -- Each probe holds its rule.
  unfoldable pub json_probes_from_database : List (ProbeRule json re) → List ProbeVariant
  json_probes_from_database [] = []
  json_probes_from_database (rule ∷ rules) = json_probe rule ∷ json_probes_from_database rules

  -- `read` is what the files hold.
  unfoldable pub probe_rules : (Bytes → Option Bytes) → Bytes → List (ProbeRule json re)
  unfolding load_default load_from_file
  probe_rules read probes_db_path =
      let db =
        if is_empty probes_db_path
        then load_default json re
        else load_from_file json re (read probes_db_path) in
      if is_empty db then load_default json re else db

  unfoldable pub default_probes : (Bytes → Option Bytes) → Bytes → List ProbeVariant
  unfolding json_probes_from_database probe_rules
  default_probes read probes_db_path =
      json_probes_from_database (probe_rules read probes_db_path) ++ tls_probe ∷ []
