-- ===== src/Cli/Args.antt =====
-- src/cli/args.cpp, `parse`, and the records of src/cli/args.hpp. CLI11 is a parameter: it ends in a
-- parse error or leaves the options in the variables that are bound to them.
pub mod Selection
use service_port_scanner.Net.Reals.{RealLib}
use service_port_scanner.Cli.Ports.{expand_port_spec}
use service_port_scanner.Cli.TopPorts.{top_n_ports}
use service_port_scanner.Common.{
  ℕ, Bool, true, false, Bytes, codes, bytes_eq, List, [], is_empty, ltb, if◌then◌else◌,
}

pub data ReportKind : Type 0 where
  no_report json_report csv_report html_report : ReportKind

unfoldable pub parse_report : Bytes → ReportKind
unfolding bytes_eq
parse_report s =
    if bytes_eq s (codes "json")
    then json_report
    else if bytes_eq s (codes "csv")
    then csv_report
    else if bytes_eq s (codes "html")
    then html_report
    else no_report

module _ (re : RealLib) where
  open re use {Real, decimal, lt}

  -- A timeout counts milliseconds.
  pub record Args : Type 0 where
    pub target : Bytes
    pub ports : List ℕ
    pub rate : Real
    pub max_rate : Real
    pub adaptive : Bool
    pub timeout : ℕ
    pub report : ReportKind
    pub out_path : Bytes
    pub cve_db_path : Bytes
    pub probes_db_path : Bytes
    pub cdn_db_path : Bytes
    pub epss_db_path : Bytes
    pub consent : Bool
    pub no_probe : Bool
    pub threads : ℕ
    pub top_ports : ℕ

  abbrev pub default_args : Args
  default_args = record {
    target = [];
    ports = [];
    rate = decimal 100 0;
    max_rate = decimal 10000 0;
    adaptive = false;
    timeout = 2000;
    report = no_report;
    out_path = [];
    cve_db_path = [];
    probes_db_path = [];
    cdn_db_path = [];
    epss_db_path = [];
    consent = false;
    no_probe = false;
    threads = 0;
    top_ports = 0;
  }

  pub record ParseResult : Type 0 where
    pub ok : Bool
    pub exit_code : ℕ
    pub error : Bytes
    pub args : Args

  -- The variables that the options are bound to: `res.args` and three locals.
  pub record Bound : Type 0 where
    pub args : Args
    pub ports_spec : Bytes
    pub report_str : Bytes
    pub timeout_ms : ℕ

  abbrev pub default_bound : Bound
  default_bound = record {
    args = default_args;
    ports_spec = codes "1-1024";
    report_str = codes "none";
    timeout_ms = 2000;
  }

  -- `app.parse`: the variables behind it, or the exit code of `app.exit`, what it prints on the
  -- standard output, such as the help, and the text of the exception.
  pub data AppOutcome : Type 0 where
    parsed : Bound → AppOutcome
    parse_error : ℕ → Bytes → Bytes → Bound → AppOutcome

  -- The end of `parse`, behind CLI11.
  unfoldable pub select_ports : Bound → List ℕ
  unfolding expand_port_spec top_n_ports
  select_ports b =
      if ltb 0 b.args.top_ports then top_n_ports b.args.top_ports else expand_port_spec b.ports_spec

  abbrev pub no_ports_error : Bytes
  no_ports_error = codes "invalid port selection (--ports / --top-ports)"

  unfoldable pub finish : Bound → ParseResult
  unfolding select_ports parse_report
  finish b =
      let args = record b.args { ports = select_ports b } in
      if is_empty args.ports
      then record { ok = false; exit_code = 0; error = no_ports_error; args = args }
      else record {
        ok = true;
        exit_code = 0;
        error = [];
        args = record args {
          max_rate = if lt args.max_rate args.rate then args.rate else args.max_rate;
          timeout = b.timeout_ms;
          report = parse_report b.report_str;
        };
      }

  -- What `parse` returns, and what it prints on the standard output.
  pub record ParseRun : Type 0 where
    pub result : ParseResult
    pub printed : Bytes

  unfoldable pub parse_outcome : AppOutcome → ParseRun
  unfolding finish
  parse_outcome (parsed b) = record { result = finish b; printed = [] }
  parse_outcome (parse_error code out what b) = record {
    result = record { ok = false; exit_code = code; error = what; args = b.args };
    printed = out;
  }

  -- `app_parse` is CLI11 with the options of `parse`, on the variables as they are declared.
  unfoldable pub parse : (Bound → List Bytes → AppOutcome) → List Bytes → ParseRun
  unfolding parse_outcome
  parse app_parse argv = parse_outcome (app_parse default_bound argv)
