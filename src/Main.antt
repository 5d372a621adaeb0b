-- ===== src/Main.antt =====
-- src/main.cpp: the command line program, from its arguments to its exit code. The files, the pool
-- that runs the scans, CLI11 and the libraries are parameters; the messages on the standard error are
-- left out. An exception that no part of the code catches is `thrown`.
pub mod Annotate
pub mod Guard
use service_port_scanner.Json.{JsonLib}
use service_port_scanner.Net.Reals.{RealLib}
use service_port_scanner.Net.RateLimiter.{Mode, Limiter, make}
use service_port_scanner.Core.Floats.{FloatLib}
use service_port_scanner.Core.Result.{CveInfo, PortState, open_state, state_is_open, ScanResult}
use service_port_scanner.Cli.Args.{
  ReportKind, no_report, json_report, csv_report, html_report, Args, ParseResult, Bound, AppOutcome,
  parse,
}
use service_port_scanner.Cli.Scope.{AddressLib, ScopeDecision, allowed, check_scope}
use service_port_scanner.Fp.Cdn.{CdnDatabase}
use service_port_scanner.Fp.Cdn
use service_port_scanner.Fp.Cdn.Default
use service_port_scanner.Fp.Cve
use service_port_scanner.Fp.Cve.{Outcome, returned, thrown, and_then, load_from_string}
use service_port_scanner.Fp.Epss
use service_port_scanner.Probes.Regex.{RegexLib}
use service_port_scanner.Probes.Registry.{ProbeVariant, default_probes}
use service_port_scanner.Report.Stream.{StreamLib, show_count}
use service_port_scanner.Report.Writers.{
  JsonPrint, Saving, Written, write_to_file, to_json, to_csv, to_html,
}
use service_port_scanner.Common.{
  ℕ, zero, suc, ◌+◌, ◌-◌, Bool, true, false, not, ◌&&◌, Bytes, codes, Option, none, some, List, [],
  ◌∷◌, ◌++◌, map, length, is_empty, ltb, ◌==◌, if◌then◌else◌,
}

-- The libraries that the program is built with. `as_double` is `get<double>` of a JSON value, and
-- `strtod` reads a number.
pub record Libs : Type 1 where
  pub re : RealLib
  pub fl : FloatLib
  pub json : JsonLib
  pub as_double : json.Value → Option fl.Double
  pub regex : RegexLib
  pub strtod : Bytes → Option fl.Double
  pub addresses : AddressLib
  pub stream : StreamLib fl
  pub print : JsonPrint fl

module _ (libs : Libs) where
  open libs use {re, fl, json, as_double, regex, strtod, addresses, stream, print}

  abbrev pub Scores : Type 0
  Scores = List (Bytes × Epss.Entry fl strtod)

  -- One coroutine that is spawned: a call of `scan_one`. `none` is a null pointer.
  pub record Launch : Type 0 where
    pub target : Bytes
    pub port : ℕ
    pub timeout : ℕ
    pub probes : Option (List (ProbeVariant json regex))
    pub cves : Option (List (Cve.Entry fl))

  -- What `get` of a future gives.
  pub data Task : Type 0 where
    task_result : ScanResult fl → Task
    task_error : Task

  -- What the program runs on: the files it may read, CLI11, the files it may write, and the pool with
  -- its number of threads, which runs the coroutines on one limiter.
  pub record World : Type 0 where
    pub app_parse : Bound re → List Bytes → AppOutcome re
    pub read : Bytes → Option Bytes
    pub save : Bytes → Saving
    pub scan : ℕ → Limiter re → List Launch → Launch → Task

  -- `CveDb::load`; an empty path is not loaded.
  unfoldable pub load_cve_file : Option Bytes → Outcome (List (Cve.Entry fl))
  unfolding load_from_string
  load_cve_file none = returned []
  load_cve_file (some text) = load_from_string fl json as_double text

  unfoldable pub load_cves : World → Bytes → Outcome (List (Cve.Entry fl))
  unfolding load_cve_file
  load_cves w path = if is_empty path then returned [] else load_cve_file (w.read path)

  -- `EpssDb::load`.
  unfoldable pub load_epss_file : Option Bytes → Scores
  unfolding Epss.parse
  load_epss_file none = []
  load_epss_file (some text) = Epss.parse fl strtod text

  unfoldable pub load_epss : World → Bytes → Scores
  unfolding load_epss_file
  load_epss w path = if is_empty path then [] else load_epss_file (w.read path)

  unfoldable pub load_cdn : World → Bytes → CdnDatabase
  unfolding Cdn.Default.load_default Cdn.Default.load_from_file Cdn.empty
  load_cdn w path =
      let db =
        if is_empty path
        then Cdn.Default.load_default json
        else Cdn.Default.load_from_file json (w.read path) in
      if Cdn.empty db && not (is_empty path) then Cdn.Default.load_default json else db

  -- The loop over the CVEs of a result.
  unfoldable pub annotate_hits : Scores → List (CveInfo fl) → List (CveInfo fl)
  unfolding Epss.lookup
  annotate_hits epss [] = []
  annotate_hits epss (hit ∷ hits) =
      let e = Epss.lookup fl strtod epss hit.cve_id in
      record hit { epss = e.epss; percentile = e.percentile } ∷ annotate_hits epss hits

  unfoldable pub annotate : Bytes → Scores → ScanResult fl → ScanResult fl
  unfolding annotate_hits
  annotate cdn_provider epss r = record r {
    cdn = cdn_provider;
    cves = if is_empty epss then r.cves else annotate_hits epss r.cves;
  }

  pub record Collected : Type 0 where
    pub results : List (ScanResult fl)
    pub open_count : ℕ

  -- One round of the loop over the futures, and the loop.
  unfoldable pub collect_one : Bytes → Scores → Task → Collected → Collected
  unfolding annotate state_is_open
  collect_one cdn_provider epss task_error c = c
  collect_one cdn_provider epss (task_result r) c = record {
    results = c.results ++ annotate cdn_provider epss r ∷ [];
    open_count = if state_is_open r.state then c.open_count + 1 else c.open_count;
  }

  unfoldable pub collect : Bytes → Scores → List Task → Collected → Collected
  unfolding collect_one
  collect cdn_provider epss [] c = c
  collect cdn_provider epss (t ∷ ts) c =
      collect cdn_provider epss ts (collect_one cdn_provider epss t c)

  -- `{:>5}`, and the lines without a report.
  abbrev pub pad_left : ℕ → Bytes → Bytes
  pad_left zero s = s
  pad_left (suc n) s = b' ' ∷ pad_left n s

  unfoldable pub open_line : ScanResult fl → Bytes
  unfolding show_count
  open_line r =
      pad_left (5 - length (show_count r.port)) (show_count r.port)
      ++ codes "/tcp  open  "
      ++ r.service.name
      ++ b' ' ∷ r.service.version
      ++ 10 ∷ []

  unfoldable pub open_lines : List (ScanResult fl) → Bytes
  unfolding open_line state_is_open
  open_lines [] = []
  open_lines (r ∷ rs) =
      if state_is_open r.state then open_line r ++ open_lines rs else open_lines rs

  -- What a run leaves: the coroutines it spawned, what it collected, its output and its exit code.
  pub record Ended : Type 0 where
    pub exit_code : ℕ
    pub launches : List Launch
    pub collected : Collected
    pub printed : Bytes
    pub file : Option (Bytes × Bytes)

  unfoldable pub report_body : ReportKind → List (ScanResult fl) → Outcome Bytes
  unfolding to_json to_csv to_html
  report_body no_report results = returned []
  report_body json_report results = to_json fl print results
  report_body csv_report results = returned (to_csv fl stream results)
  report_body html_report results = returned (to_html fl stream results)

  unfoldable pub write_report : World → Bytes → List Launch → Collected → Bytes → Ended
  unfolding write_to_file
  write_report w out_path launches c body =
      let written = write_to_file w.save out_path body in
      record {
        exit_code = if written.good then 0 else 2;
        launches = launches;
        collected = c;
        printed = written.printed;
        file = written.file;
      }

  -- The end of `run`, behind the scans.
  unfoldable pub report_run : World → ReportKind → Bytes → List Launch → Collected → Outcome Ended
  unfolding open_lines report_body write_report
  report_run w no_report out_path launches c = returned (record {
    exit_code = 0;
    launches = launches;
    collected = c;
    printed = open_lines c.results;
    file = none;
  })
  report_run w kind out_path launches c =
      and_then (report_body kind c.results)
        λ body. returned (write_report w out_path launches c body)

  -- The loop that spawns a coroutine for each port.
  unfoldable pub spawn :
      Args re → List (ProbeVariant json regex) → List (Cve.Entry fl) → List ℕ → List Launch
  spawn args probes cves [] = []
  spawn args probes cves (p ∷ ps) =
      record {
        target = args.target;
        port = p;
        timeout = args.timeout;
        probes = if args.no_probe then none else some probes;
        cves = if is_empty args.cve_db_path then none else some cves;
      }
      ∷ spawn args probes cves ps

  abbrev pub mode_of : Bool → Mode
  mode_of adaptive = if adaptive then Mode.adaptive else Mode.fixed

  -- `run` with the CVEs loaded.
  unfoldable pub run_with : World → Args re → List (Cve.Entry fl) → Outcome Ended
  unfolding default_probes load_cdn Cdn.lookup load_epss make spawn collect report_run
  run_with w args cves =
      let cdn_provider = Cdn.lookup (load_cdn w args.cdn_db_path) args.target in
      let limiter = make re args.rate args.rate (mode_of args.adaptive) args.max_rate in
      let launches =
        spawn args (default_probes json regex w.read args.probes_db_path) cves args.ports in
      let tasks = map (w.scan args.threads limiter launches) launches in
      report_run w args.report args.out_path launches (
        collect cdn_provider (load_epss w args.epss_db_path) tasks
          (record { results = []; open_count = 0 }))

  unfoldable pub run : World → Args re → Outcome Ended
  unfolding load_cves run_with
  run w args = and_then (load_cves w args.cve_db_path) (run_with w args)

  -- Nothing is scanned; something may be printed.
  abbrev pub exits : ℕ → Bytes → Ended
  exits code printed = record {
    exit_code = code;
    launches = [];
    collected = record { results = []; open_count = 0 };
    printed = printed;
    file = none;
  }

  unfoldable pub run_in_scope : World → Args re → ScopeDecision → Outcome Ended
  unfolding run
  run_in_scope w args allowed = run w args
  run_in_scope w args _ = returned (exits 3 [])

  -- `parse` prints only where it is not ok.
  unfoldable pub main : World → List Bytes → Outcome Ended
  unfolding parse check_scope run_in_scope
  main w argv =
      let parsed_args = parse re w.app_parse argv in
      let res = parsed_args.result in
      if not res.ok
      then returned
          (exits (if not (res.exit_code == 0) then res.exit_code else 2) parsed_args.printed)
      else run_in_scope w res.args
          (check_scope addresses res.args.target (record { explicit_consent = res.args.consent }))
