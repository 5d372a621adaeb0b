-- ===== src/Tests/ProbesTests.antt =====
-- Runs of src/probes, and its theorems on concrete inputs.
use service_port_scanner.Probes.Banner.Capped.{sent, read_until_quiet_lem}
use service_port_scanner.Probes.Banner.{Reads, read_until_quiet}
use service_port_scanner.Probes.Hex.Spelling.{IsHex, decode_hex_iff}
use service_port_scanner.Probes.Hex.{decode_hex}
use service_port_scanner.Probes.Identify.FirstMatch.{Identifies, identify-Identifies}
use service_port_scanner.Probes.Identify.{no_outcome, identify}
use service_port_scanner.Probes.Rules.Loading.{IsRule, parse-IsRule}
use service_port_scanner.Probes.Rules.{ProbeRule, parse}
use service_port_scanner.Probes.Template.Parts.{
  Part, AreParts, template, rendered, apply_template-template,
}
use service_port_scanner.Probes.Template.{apply_template}
use service_port_scanner.Json.{ℤ}
use service_port_scanner.Tests.Documents.{Doc, doc_member, json_of, prefixes, prefix_search}
use service_port_scanner.Common.{
  ◌≡◌, refl, ◌↔◌, true, false, not, Bytes, codes, none, some, List, [], ◌∷◌, All, take, is_empty,
  arith,
}

decode_hex_runs :
    (decode_hex (codes "0000000804d2162F") ≡ some (0 ∷ 0 ∷ 0 ∷ 8 ∷ 4 ∷ 210 ∷ 22 ∷ 47 ∷ []))
    × (decode_hex (codes "000") ≡ none)
    × (decode_hex (codes "0g") ≡ none)
unfolding decode_hex
decode_hex_runs = (refl, refl, refl)

apply_template_runs :
    (apply_template (codes "v$1-$x$9") (codes "all" ∷ codes "1.2" ∷ []) ≡ codes "v1.2-$x")
    × (apply_template (codes "$") [] ≡ codes "$")
unfolding apply_template
apply_template_runs = (refl, refl)

abbrev match_doc : Doc
match_doc = Doc.field (codes "regex") (Doc.text (codes "SSH-")) (
    Doc.field (codes "service") (Doc.text (codes "ssh"))
      (Doc.field (codes "version") (Doc.text (codes "$1")) Doc.nil))

abbrev probe_doc : Doc
probe_doc = Doc.field (codes "name") (Doc.text (codes "ssh")) (
    Doc.field (codes "ports") (Doc.item (Doc.number 22) (Doc.item (Doc.number 0) Doc.nil))
      (Doc.field (codes "match") (Doc.item match_doc Doc.nil) Doc.nil))

abbrev probes_doc : Doc
probes_doc =
    Doc.field (codes "probes") (Doc.item probe_doc (Doc.item (Doc.text (codes "x")) Doc.nil))
      Doc.nil

abbrev ssh_rule : ProbeRule (json_of probes_doc) prefixes
ssh_rule = record {
  name = codes "ssh";
  rarity = ℤ.pos 5;
  ports = 22 ∷ [];
  send_payload = [];
  matches =
      record {
        regex = codes "SSH-";
        raw_pattern = codes "SSH-";
        service_template = codes "ssh";
        version_template = codes "$1";
      }
      ∷ [];
}

parse_run : parse (json_of probes_doc) prefixes (codes "{}") ≡ ssh_rule ∷ []
unfolding parse doc_member
parse_run = refl

abbrev reads : Reads
reads = Reads.received (codes "SSH-2") (Reads.received (codes ".0") Reads.timed_out)

identify_run : identify (json_of probes_doc) prefixes ssh_rule true reads ≡ record no_outcome {
  matched = true;
  service = codes "ssh";
  version = codes "2.0";
  banner = codes "SSH-2.0";
}
unfolding identify prefix_search
identify_run = refl

read_until_quiet_runs :
    (read_until_quiet 6 reads ≡ (true, codes "SSH-2."))
    × (read_until_quiet 6 Reads.failed ≡ (false, []))
unfolding read_until_quiet
read_until_quiet_runs = (refl, refl)

decode_hex_iff_example :
    (decode_hex (codes "0aF0") ≡ some (10 ∷ 240 ∷ [])) ↔ IsHex (codes "0aF0") (10 ∷ 240 ∷ [])
decode_hex_iff_example = decode_hex_iff (codes "0aF0") (10 ∷ 240 ∷ [])

abbrev version_parts : List Part
version_parts = Part.literal b'v' ∷ Part.reference 1 ∷ Part.reference 9 ∷ []

abbrev groups : List Bytes
groups = codes "v1.2" ∷ codes "1.2" ∷ []

abbrev version_parts-AreParts : AreParts version_parts
version_parts-AreParts = ((λ e. absurd (omega arith)), (omega arith, (omega arith, tt)))

apply_template-template_example :
    apply_template (template version_parts) groups ≡ rendered version_parts groups
apply_template-template_example =
    apply_template-template version_parts groups version_parts-AreParts

parse-IsRule_example :
    All (IsRule (json_of probes_doc) prefixes) (parse (json_of probes_doc) prefixes (codes "{}"))
parse-IsRule_example = parse-IsRule (json_of probes_doc) prefixes (codes "{}")

read_until_quiet_lem_example :
    read_until_quiet 6 reads ≡ (not (is_empty (take 6 (sent reads))), take 6 (sent reads))
read_until_quiet_lem_example = read_until_quiet_lem 6 reads (omega arith)

identify-Identifies_example :
    Identifies
      (json_of probes_doc)
      prefixes
      ssh_rule
      true
      reads
      (identify (json_of probes_doc) prefixes ssh_rule true reads)
identify-Identifies_example = identify-Identifies (json_of probes_doc) prefixes ssh_rule true reads
