-- ===== src/Probes/Regex.antt =====
-- `std::regex` as the sources use it: the standard library is a parameter.
use service_port_scanner.Common.{Bytes, Option, List}

pub record RegexLib : Type 1 where
  pub Regex : Type 0
  -- `std::regex(pattern, ECMAScript | icase)`; `none` where it throws.
  pub compile : Bytes → Option Regex
  -- `std::regex_search`; the groups of the first match, the whole match in front.
  pub search : Bytes → Regex → Option (List Bytes)
