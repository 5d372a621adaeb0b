-- ===== src/Lib.antt =====
-- Service port scanner: the parts of the program that decide what a scan means.
--
-- The program (src/ of the repository) scans the TCP ports of a target, identifies the service
-- behind each open port by sending probes and matching what comes back, fingerprints TLS servers,
-- looks the address up in tables of CDN blocks, and exports the results. The command line (src/cli)
-- decides which target and which ports are scanned; src/main.cpp runs the scans of the command line on
-- a pool of threads (src/net) and src/gui those of the window, on a thread of its own; the probe engine (src/probes) reads its rules
-- from JSON and runs them on a socket; src/fp holds the fingerprints and the tables; src/report
-- writes the export.
--
-- Which file models what:
--   Cli/Ports      src/cli/args.cpp: parse_uint16 and expand_port_spec. The std::set is a list that
--                  rises strictly.
--   Cli/Args       src/cli/args.cpp: parse, behind CLI11, which is a parameter.
--   Cli/TopPorts   src/cli/top_ports.cpp: the table and top_n_ports.
--   Cli/Scope      src/cli/scope_guard.cpp: is_private_v4, is_private_v6, check_scope and describe.
--                  Addresses are those of boost::asio, a parameter (AddressLib).
--   Fp/Ipv4        src/fp/cdn_lookup.cpp: parse_ipv4 and parse_cidr.
--   Fp/Cdn         src/fp/cdn_lookup.cpp: CdnDatabase, with parse and lookup; the
--                  built-in table is in Default.
--   Fp/Ja4Server   src/fp/ja4_server.cpp: parse_server_hello and is_grease.
--   Fp/Ja4Server/Fingerprint
--                  src/fp/ja4_server.cpp: compute_ja4s, with the digest of OpenSSL as a parameter.
--   Fp/Ja4, Fp/Ja4X509
--                  src/fp/ja4.cpp and ja4_x509.cpp: compute_ja4 and compute_ja4x.
--   Fp/Cve         src/fp/cve_lookup.cpp: load_from_string and lookup. The exceptions of the JSON
--                  library that the code lets through are results.
--   Fp/Epss        src/fp/epss_lookup.cpp: parse and lookup, with strtod as a parameter.
--   Core/Result    src/core/result.hpp: severity_from_cvss and the summaries of a ScanResult.
--   Net/RateLimiter
--                  src/net/rate_limiter.cpp: the token bucket, on_response and acquire. on_response
--                  is a call that no other overlaps; RateLimiter/Accesses has its accesses to the
--                  atomics one by one, as overlapping calls make them. The clock is an argument.
--   Net/Reals      the arithmetic on double of the rate limiter as a parameter.
--   Scan/Connect   src/core/scanner.cpp: connect_scan, the race of the connection as a value.
--   Scan/Pipeline  src/scan/scan_pipeline.cpp: scan_one, from the limiter to the table of CVEs. What
--                  the network does is a value: the race, the connections and the probes' findings.
--   Core/Floats    float and double as a parameter, with what IEEE 754 says of comparisons.
--   Probes/Hex, Probes/Template, Probes/Rules, Probes/Identify
--                  src/probes/probe_engine.cpp: decode_hex, apply_template, parse_match, parse_probe,
--                  ProbeDatabase::parse and JsonProbe::identify; the built-in rules are in
--                  Probes/Rules/Default.
--   Probes/Banner  src/probes/banner_io.cpp: read_until_quiet.
--   Probes/Registry
--                  src/probes/registry.cpp: default_probes.
--   Report/Html, Report/Csv, Report/Json
--                  src/report: the escapes of the writers; Csv has the row of CsvWriter::write, and
--                  Csv/Writer the whole file.
--   Report/JsonWriter, Report/Summary
--                  src/report/json_writer.cpp: JsonWriter::write and its counters; JsonWriter/Reader is a
--                  reader of JSON as an automaton.
--   Report/HtmlWriter
--                  src/report/html_writer.cpp: HtmlWriter::write; HtmlWriter/Reader is a reader of HTML.
--   Report/Automaton
--                  what such readers share.
--   Report/Writers src/report/writers.cpp: to_json, to_csv, to_html and write_to_file.
--   Report/Names, Report/Stream
--                  the names of enumerators, and operator<< of numbers; that of floating point is a
--                  parameter (StreamLib).
--   Net/AsyncPool  src/net/async_pool.cpp: the state of the pool behind start, stop and the destructor.
--   Main           src/main.cpp: run and main. The files, CLI11 and the outcome of each scan that is
--                  spawned are parameters (World).
--   Gui/ScanController
--                  src/gui/views/scan_controller.cpp and src/net/qt_bridge.cpp: the slots, the worker
--                  thread in steps, and the queue of events between them.
--   Gui/ResultModel, Gui/Delegates
--                  src/gui/views/result_model.cpp and the three delegates: the values, colours and texts
--                  of the cells.
--   Gui/ChartsPanel
--                  src/gui/views/charts_panel.cpp: the points of the risk matrix, and the result that a
--                  click selects. The arithmetic of doubles is a parameter.
--   Json, Probes/Regex
--                  nlohmann::json and std::regex as parameters: nothing is assumed of them.
--   Common         the types and lemmas that these share; Common/Bits has the arithmetic of & and |
--                  on words, Common/Split the search for a byte.
--   Tests          runs of the definitions, and the theorems on concrete inputs.
--
-- Conventions. A std::string is the list of its bytes. A result that the code returns through a
-- reference together with a bool is an Option. Words keep their wrap-around (% 2 ^ 32, % 2 ^ 16).
-- An index into a text is the text that is left. A read past the end of a buffer is none, so that a
-- total result says there is no such read. The loop over the extensions of a ServerHello is on fuel:
-- each round moves the offset by four at least, so one more round than the length is enough. What
-- the socket does is a value: the reports of async_read_some until the timer ends.
--
-- The worker of the scan controller takes as many steps as Ends/steps_left bounds, if none of them has
-- to wait: three for a port that is not spawned yet, two for a future, and a few at the end. A number is printed on fuel: it has
-- less digits than its successor counts.
--
-- Not modelled: OpenSSL (the handshake and the digest) and so the TLS probe, the windows, dialogs
-- and axes of Qt, files and sockets, the threads of the coroutine runtime, and the messages on the
-- standard error.
pub mod Common
pub mod Json
pub mod Fp
pub mod Cli
pub mod Core
pub mod Net
pub mod Scan
pub mod Report
pub mod Probes
pub mod Main
pub mod Gui
pub mod Tests
