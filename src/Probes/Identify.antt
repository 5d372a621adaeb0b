-- ===== src/Probes/Identify.antt =====
-- src/probes/probe_engine.cpp, `JsonProbe::identify`, with `ProbeOutcome` and `kMaxBannerBytes` of
-- src/probes/probe.hpp. The socket is a parameter: whether the payload is written in time, and what
-- is read.
pub mod FirstMatch
use service_port_scanner.Json.{JsonLib}
use service_port_scanner.Probes.Regex.{RegexLib}
use service_port_scanner.Probes.Rules.{MatchRule, ProbeRule}
use service_port_scanner.Probes.Template.{apply_template}
use service_port_scanner.Probes.Banner.{Reads, read_until_quiet}
use service_port_scanner.Common.{
  ℕ, ◌*◌, min, Bool, true, false, not, ◌&&◌, ◌||◌, Bytes, none, some, List, [], ◌∷◌, length, take,
  is_empty, if◌then◌else◌,
}

pub record ProbeOutcome : Type 0 where
  pub matched : Bool
  pub service : Bytes
  pub version : Bytes
  pub banner : Bytes
  pub ja4s : Bytes
  pub ja4x : Bytes

abbrev pub no_outcome : ProbeOutcome
no_outcome = record {
  matched = false;
  service = [];
  version = [];
  banner = [];
  ja4s = [];
  ja4x = [];
}

abbrev pub max_banner_bytes : ℕ
max_banner_bytes = 8 * 1024

module _ (json : JsonLib) (re : RegexLib) where
  -- The loop over `rule_.matches`.
  unfoldable pub first_match : List (MatchRule json re) → Bytes → ProbeOutcome
  unfolding apply_template
  first_match [] banner = no_outcome
  first_match (mr ∷ ms) banner =
      let rest = first_match ms banner in
      elim (re.search banner mr.regex) [
        | none ↦ rest
        | some m ↦ record no_outcome {
          matched = true;
          service = apply_template mr.service_template m;
          version = apply_template mr.version_template m;
          banner = take (min (length banner) 1024) banner;
        }
      ]

  unfoldable pub identify : ProbeRule json re → Bool → Reads → ProbeOutcome
  unfolding first_match read_until_quiet
  identify rule wrote reads =
      let (read, banner) = read_until_quiet max_banner_bytes reads in
      if not (is_empty rule.send_payload) && not wrote
      then no_outcome
      else if not read || is_empty banner
      then no_outcome
      else first_match rule.matches banner
