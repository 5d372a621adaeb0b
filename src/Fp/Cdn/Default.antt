-- ===== src/Fp/Cdn/Default.antt =====
-- src/fp/cdn_lookup.cpp, `kDefaultDb`: the built-in ranges.
use service_port_scanner.Json.{JsonLib}
use service_port_scanner.Fp.Cdn.{CdnDatabase, parse}
use service_port_scanner.Common.{Bytes, codes, Option, none, some, String, List, [], ◌∷◌, ◌++◌}

-- Every line ends in a line feed.
abbrev lines : List String → Bytes
lines [] = []
lines (line ∷ rest) = codes line ++ 10 ∷ lines rest

abbrev pub default_ranges_text : Bytes
default_ranges_text = lines (
    "" ∷ "{" ∷ "  \"version\": 1," ∷ "  \"ranges\": ["
    ∷ "    { \"cidr\": \"1.0.0.0/24\",        \"provider\": \"cloudflare\" },"
    ∷ "    { \"cidr\": \"1.1.1.0/24\",        \"provider\": \"cloudflare\" },"
    ∷ "    { \"cidr\": \"103.21.244.0/22\",   \"provider\": \"cloudflare\" },"
    ∷ "    { \"cidr\": \"103.22.200.0/22\",   \"provider\": \"cloudflare\" },"
    ∷ "    { \"cidr\": \"103.31.4.0/22\",     \"provider\": \"cloudflare\" },"
    ∷ "    { \"cidr\": \"104.16.0.0/13\",     \"provider\": \"cloudflare\" },"
    ∷ "    { \"cidr\": \"104.24.0.0/14\",     \"provider\": \"cloudflare\" },"
    ∷ "    { \"cidr\": \"108.162.192.0/18\",  \"provider\": \"cloudflare\" },"
    ∷ "    { \"cidr\": \"131.0.72.0/22\",     \"provider\": \"cloudflare\" },"
    ∷ "    { \"cidr\": \"141.101.64.0/18\",   \"provider\": \"cloudflare\" },"
    ∷ "    { \"cidr\": \"162.158.0.0/15\",    \"provider\": \"cloudflare\" },"
    ∷ "    { \"cidr\": \"172.64.0.0/13\",     \"provider\": \"cloudflare\" },"
    ∷ "    { \"cidr\": \"173.245.48.0/20\",   \"provider\": \"cloudflare\" },"
    ∷ "    { \"cidr\": \"188.114.96.0/20\",   \"provider\": \"cloudflare\" },"
    ∷ "    { \"cidr\": \"190.93.240.0/20\",   \"provider\": \"cloudflare\" },"
    ∷ "    { \"cidr\": \"197.234.240.0/22\",  \"provider\": \"cloudflare\" },"
    ∷ "    { \"cidr\": \"198.41.128.0/17\",   \"provider\": \"cloudflare\" }," ∷ ""
    ∷ "    { \"cidr\": \"23.235.32.0/20\",    \"provider\": \"fastly\" },"
    ∷ "    { \"cidr\": \"43.249.72.0/22\",    \"provider\": \"fastly\" },"
    ∷ "    { \"cidr\": \"103.244.50.0/24\",   \"provider\": \"fastly\" },"
    ∷ "    { \"cidr\": \"103.245.222.0/23\",  \"provider\": \"fastly\" },"
    ∷ "    { \"cidr\": \"104.156.80.0/20\",   \"provider\": \"fastly\" },"
    ∷ "    { \"cidr\": \"146.75.0.0/16\",     \"provider\": \"fastly\" },"
    ∷ "    { \"cidr\": \"151.101.0.0/16\",    \"provider\": \"fastly\" },"
    ∷ "    { \"cidr\": \"157.52.64.0/18\",    \"provider\": \"fastly\" },"
    ∷ "    { \"cidr\": \"167.82.0.0/17\",     \"provider\": \"fastly\" },"
    ∷ "    { \"cidr\": \"172.111.64.0/18\",   \"provider\": \"fastly\" },"
    ∷ "    { \"cidr\": \"185.31.16.0/22\",    \"provider\": \"fastly\" },"
    ∷ "    { \"cidr\": \"199.27.72.0/21\",    \"provider\": \"fastly\" },"
    ∷ "    { \"cidr\": \"199.232.0.0/16\",    \"provider\": \"fastly\" }," ∷ ""
    ∷ "    { \"cidr\": \"13.32.0.0/15\",      \"provider\": \"aws-cloudfront\" },"
    ∷ "    { \"cidr\": \"13.224.0.0/14\",     \"provider\": \"aws-cloudfront\" },"
    ∷ "    { \"cidr\": \"52.84.0.0/15\",      \"provider\": \"aws-cloudfront\" },"
    ∷ "    { \"cidr\": \"54.182.0.0/16\",     \"provider\": \"aws-cloudfront\" },"
    ∷ "    { \"cidr\": \"54.192.0.0/16\",     \"provider\": \"aws-cloudfront\" },"
    ∷ "    { \"cidr\": \"54.230.0.0/16\",     \"provider\": \"aws-cloudfront\" },"
    ∷ "    { \"cidr\": \"54.239.128.0/18\",   \"provider\": \"aws-cloudfront\" },"
    ∷ "    { \"cidr\": \"99.84.0.0/16\",      \"provider\": \"aws-cloudfront\" },"
    ∷ "    { \"cidr\": \"204.246.164.0/22\",  \"provider\": \"aws-cloudfront\" },"
    ∷ "    { \"cidr\": \"205.251.192.0/19\",  \"provider\": \"aws-cloudfront\" }," ∷ ""
    ∷ "    { \"cidr\": \"23.32.0.0/11\",      \"provider\": \"akamai\" },"
    ∷ "    { \"cidr\": \"23.192.0.0/11\",     \"provider\": \"akamai\" },"
    ∷ "    { \"cidr\": \"104.64.0.0/10\",     \"provider\": \"akamai\" },"
    ∷ "    { \"cidr\": \"184.24.0.0/13\",     \"provider\": \"akamai\" }," ∷ ""
    ∷ "    { \"cidr\": \"199.83.128.0/21\",   \"provider\": \"imperva\" },"
    ∷ "    { \"cidr\": \"198.143.32.0/19\",   \"provider\": \"imperva\" },"
    ∷ "    { \"cidr\": \"149.126.72.0/21\",   \"provider\": \"imperva\" },"
    ∷ "    { \"cidr\": \"103.28.248.0/22\",   \"provider\": \"imperva\" },"
    ∷ "    { \"cidr\": \"185.11.124.0/22\",   \"provider\": \"imperva\" },"
    ∷ "    { \"cidr\": \"192.230.64.0/18\",   \"provider\": \"imperva\" }" ∷ "  ]" ∷ "}" ∷ [])

unfoldable pub load_default : JsonLib → CdnDatabase
unfolding parse
load_default lib = parse lib default_ranges_text

-- The argument is what the file holds, `none` where it does not open.
unfoldable pub load_from_file : JsonLib → Option Bytes → CdnDatabase
unfolding parse
load_from_file lib none = record { ranges = [] }
load_from_file lib (some text) = parse lib text
