-- ===== src/Probes/Rules/Default.antt =====
-- src/probes/probe_engine.cpp, `kDefaultDb`: the built-in probes.
use service_port_scanner.Json.{JsonLib}
use service_port_scanner.Probes.Regex.{RegexLib}
use service_port_scanner.Probes.Rules.{ProbeRule, parse}
use service_port_scanner.Common.{Bytes, codes, Option, none, some, String, List, [], ◌∷◌, ◌++◌}

-- Every line ends in a line feed.
abbrev lines : List String → Bytes
lines [] = []
lines (line ∷ rest) = codes line ++ 10 ∷ lines rest

abbrev pub default_probes_text : Bytes
default_probes_text = lines (
    "" ∷ "{" ∷ "  \"version\": 1," ∷ "  \"probes\": [" ∷ "    {" ∷ "      \"name\": \"ssh\","
    ∷ "      \"rarity\": 6," ∷ "      \"ports\": [22, 2222]," ∷ "      \"send\": \"\","
    ∷ "      \"match\": [" ∷ "        { \"regex\": \"^SSH-\\\\d+\\\\.\\\\d+-([^\\\\r\\\\n]+)\","
    ∷ "          \"service\": \"ssh\"," ∷ "          \"version\": \"$1\" }" ∷ "      ]" ∷ "    },"
    ∷ "    {" ∷ "      \"name\": \"ftp\"," ∷ "      \"rarity\": 7," ∷ "      \"ports\": [21],"
    ∷ "      \"send\": \"\"," ∷ "      \"match\": ["
    ∷ "        { \"regex\": \"^220[\\\\s\\\\S]*?((?:vsFTPd|ProFTPD|FileZilla|Pure-FTPd)[\\\\s/]?[\\\\d.\\\\w-]+)\","
    ∷ "          \"service\": \"ftp\"," ∷ "          \"version\": \"$1\" },"
    ∷ "        { \"regex\": \"^220\"," ∷ "          \"service\": \"ftp\","
    ∷ "          \"version\": \"\" }" ∷ "      ]" ∷ "    }," ∷ "    {" ∷ "      \"name\": \"smtp\","
    ∷ "      \"rarity\": 7," ∷ "      \"ports\": [25, 465, 587]," ∷ "      \"send\": \"\","
    ∷ "      \"match\": ["
    ∷ "        { \"regex\": \"^220[\\\\s\\\\S]*?((?:Postfix|Sendmail|Exim|Microsoft ESMTP|qmail)[\\\\s/]?[\\\\d.\\\\w-]*)\","
    ∷ "          \"service\": \"smtp\"," ∷ "          \"version\": \"$1\" },"
    ∷ "        { \"regex\": \"^220\"," ∷ "          \"service\": \"smtp\","
    ∷ "          \"version\": \"\" }" ∷ "      ]" ∷ "    }," ∷ "    {" ∷ "      \"name\": \"http\","
    ∷ "      \"rarity\": 8," ∷ "      \"ports\": [80, 8080, 8000, 8888],"
    ∷ "      \"send\": \"OPTIONS / HTTP/1.0\\r\\nUser-Agent: spscan/0.1\\r\\nAccept: */*\\r\\nConnection: close\\r\\n\\r\\n\","
    ∷ "      \"match\": ["
    ∷ "        { \"regex\": \"^HTTP/[0-9.]+[\\\\s\\\\S]*?Server:\\\\s*([^\\\\r\\\\n]+)\","
    ∷ "          \"service\": \"http\"," ∷ "          \"version\": \"$1\" },"
    ∷ "        { \"regex\": \"^HTTP/\"," ∷ "          \"service\": \"http\","
    ∷ "          \"version\": \"\" }" ∷ "      ]" ∷ "    }," ∷ "    {"
    ∷ "      \"name\": \"redis\"," ∷ "      \"rarity\": 4," ∷ "      \"ports\": [6379],"
    ∷ "      \"send\": \"*1\\r\\n$4\\r\\nPING\\r\\n\"," ∷ "      \"match\": ["
    ∷ "        { \"regex\": \"^\\\\+PONG\"," ∷ "          \"service\": \"redis\","
    ∷ "          \"version\": \"\" }" ∷ "      ]" ∷ "    }," ∷ "    {"
    ∷ "      \"name\": \"mysql\"," ∷ "      \"rarity\": 5," ∷ "      \"ports\": [3306],"
    ∷ "      \"send\": \"\"," ∷ "      \"match\": ["
    ∷ "        { \"regex\": \"^[\\\\s\\\\S]{4}\\\\x0a([^\\\\x00]+)\\\\x00\","
    ∷ "          \"service\": \"mysql\"," ∷ "          \"version\": \"$1\" }" ∷ "      ]" ∷ "    },"
    ∷ "    {" ∷ "      \"name\": \"postgresql\"," ∷ "      \"rarity\": 5,"
    ∷ "      \"ports\": [5432]," ∷ "      \"send_hex\": \"0000000804d2162f\","
    ∷ "      \"match\": [" ∷ "        { \"regex\": \"^[SN]\","
    ∷ "          \"service\": \"postgresql\"," ∷ "          \"version\": \"\" }" ∷ "      ]"
    ∷ "    }," ∷ "    {" ∷ "      \"name\": \"mongodb\"," ∷ "      \"rarity\": 4,"
    ∷ "      \"ports\": [27017],"
    ∷ "      \"send_hex\": \"250000000000000000000000dd0700000000000000100000001068656c6c6f000100000000\","
    ∷ "      \"match\": [" ∷ "        { \"regex\": \"ok\\\\x00\","
    ∷ "          \"service\": \"mongodb\"," ∷ "          \"version\": \"\" }" ∷ "      ]" ∷ "    }"
    ∷ "  ]" ∷ "}" ∷ [])

module _ (json : JsonLib) (re : RegexLib) where
  unfoldable pub load_default : List (ProbeRule json re)
  unfolding parse
  load_default = parse json re default_probes_text

  -- The argument is what the file holds, `none` where it does not open.
  unfoldable pub load_from_file : Option Bytes → List (ProbeRule json re)
  unfolding parse
  load_from_file none = []
  load_from_file (some text) = parse json re text
