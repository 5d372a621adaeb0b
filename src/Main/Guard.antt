-- ===== src/Main/Guard.antt =====
-- What a call of `main` in src/main.cpp may do: which coroutines it spawns, and how it ends.
use service_port_scanner.Net.Reals.{IsComparison}
use service_port_scanner.Net.RateLimiter.{Limiter}
use service_port_scanner.Cli.Args.{
  ReportKind, no_report, json_report, csv_report, html_report, Args, Bound, AppOutcome, parsed,
  parse_error, ParseRun, default_bound,
}
use service_port_scanner.Cli.Args.Selection.{Parses, refused, unusable, accepted, parse-Parses}
use service_port_scanner.Cli.Scope.{
  Address, ScopeDecision, allowed, denied_external_needs_consent, denied_invalid_address,
  check_scope,
}
use service_port_scanner.Cli.Scope.Internal.{
  InternalAddress, IsDocumented, Decides, check_scope-Decides,
}
use service_port_scanner.Cli.TopPorts.{AreDistinctPorts}
use service_port_scanner.Fp.Cve
use service_port_scanner.Fp.Cve.{Outcome, returned, thrown, and_then}
use service_port_scanner.Probes.Registry.{ProbeVariant}
use service_port_scanner.Report.Writers.{is_written, write_to_file}
use service_port_scanner.Main.Annotate.{returned_results, IsAnnotated, collect-IsAnnotated}
use service_port_scanner.Main.{
  Libs, Scores, Launch, World, load_cves, Collected, collect, Ended, report_body, write_report,
  report_run, spawn, run_with, run, exits, run_in_scope, main,
}
use service_port_scanner.Common.{
  ℕ, ◌≡◌, ◌≢◌, refl, sym, ◌∙◌, ap, Bool, true, false, not, Bytes, Option, none, some, List, [], ◌∷◌,
  map, ◌==◌, if◌then◌else◌, All, All2, Bool-cases, inl, inr, ◌⊎◌, arith,
}

module _ (libs : Libs) where
  open libs use {re, fl, addresses}

  -- How a report ends: with the exit code 2 only where a file is asked for and cannot be written, and
  -- in an exception only where the JSON library throws.
  data Reported (w : World libs) (kind : ReportKind) (path : Bytes) (ls : List (Launch libs))
      (c : Collected libs) : Outcome (Ended libs) → Type 0 where
    report_thrown : kind ≡ json_report → Reported w kind path ls c thrown
    report_ended :
        (e : Ended libs)
        → e.launches ≡ ls
        → e.collected ≡ c
        → (e.exit_code ≡ 0)
          ⊎ ((e.exit_code ≡ 2) × (kind ≢ no_report) × (is_written (w.save path) ≡ false))
        → Reported w kind path ls c (returned e)

  write_report-Reported :
      (w : World libs) (kind : ReportKind) (path : Bytes) (ls : List (Launch libs))
      (c : Collected libs) (body : Bytes)
      → kind ≢ no_report
      → Reported w kind path ls c (returned (write_report libs w path ls c body))
  unfolding write_report write_to_file
  write_report-Reported w kind [] ls c body k = report_ended _ refl refl (inl refl)
  write_report-Reported w kind (b ∷ path) ls c body k =
      report_ended _ refl refl (elim (Bool-cases (is_written (w.save (b ∷ path)))) [
        | inl e ↦ inl (rw e refl)
        | inr e ↦ inr (rw e refl, k, e)
      ])

  json_body-Reported :
      (w : World libs) (path : Bytes) (ls : List (Launch libs)) (c : Collected libs)
      (o : Outcome Bytes)
      → Reported w json_report path ls c
          (and_then o λ body. returned (write_report libs w path ls c body))
  json_body-Reported w path ls c thrown = report_thrown refl
  json_body-Reported w path ls c (returned body) =
      write_report-Reported w json_report path ls c body (λ e. cc)

  report_run-Reported :
      (w : World libs) (kind : ReportKind) (path : Bytes) (ls : List (Launch libs))
      (c : Collected libs)
      → Reported w kind path ls c (report_run libs w kind path ls c)
  unfolding report_run report_body
  report_run-Reported w no_report path ls c = report_ended _ refl refl (inl refl)
  report_run-Reported w json_report path ls c = json_body-Reported w path ls c _
  report_run-Reported w csv_report path ls c =
      write_report-Reported w csv_report path ls c _ (λ e. cc)
  report_run-Reported w html_report path ls c =
      write_report-Reported w html_report path ls c _ (λ e. cc)

  -- The target is an address, and it is internal unless there is consent.
  pub InScope : Bytes → Bool → Type 0
  InScope target consent =
      (a : Address addresses.V4 addresses.V6) × (addresses.make_address target ≡ some a)
      × (InternalAddress addresses a ⊎ (consent ≡ true))

  Decides-allowed :
      (m : Option (Address addresses.V4 addresses.V6)) (consent : Bool) (d : ScopeDecision)
      → Decides addresses m consent d
      → d ≡ allowed
      → (a : Address addresses.V4 addresses.V6) × (m ≡ some a)
        × (InternalAddress addresses a ⊎ (consent ≡ true))
  Decides-allowed none consent d h e = cc (h, e)
  Decides-allowed (some a) consent d (inl (internal, h)) e = (a, refl, inl internal)
  Decides-allowed (some a) consent d (inr (inl (external, c, h))) e = (a, refl, inr c)
  Decides-allowed (some a) consent d (inr (inr (external, c, h))) e = cc (h, e)

  allowed-InScope :
      IsDocumented addresses
      → (target : Bytes) (consent : Bool)
      → check_scope addresses target (record { explicit_consent = consent }) ≡ allowed
      → InScope target consent
  unfolding InScope
  allowed-InScope doc target consent h =
      Decides-allowed (addresses.make_address target) consent _
        (check_scope-Decides addresses doc target (record { explicit_consent = consent })) h

  -- What CLI11 prints of a parse error.
  abbrev pub refusal_output : AppOutcome re → Bytes
  refusal_output (parsed b) = []
  refusal_output (parse_error code out what b) = out

  -- How `main` ends.
  pub data Guarded (w : World libs) (argv : List Bytes) : Outcome (Ended libs) → Type 0 where
    stopped :
        (e : Ended libs)
        → e.exit_code ≢ 0
        → e.launches ≡ []
        → e.printed ≡ refusal_output (w.app_parse (default_bound re) argv)
        → e.file ≡ none
        → Guarded w argv (returned e)
    aborted :
        (b : Bound re)
        → w.app_parse (default_bound re) argv ≡ parsed b
        → InScope b.args.target b.args.consent
        → Guarded w argv thrown
    scanned :
        (b : Bound re) (e : Ended libs)
        → w.app_parse (default_bound re) argv ≡ parsed b
        → InScope b.args.target b.args.consent
        → map (λ l. l.port) e.launches ≢ []
        → AreDistinctPorts (map (λ l. l.port) e.launches)
        → All (λ l. (l.target ≡ b.args.target) × (l.timeout ≡ b.timeout_ms)) e.launches
        → ((limiter : Limiter re) × (provider : Bytes) × (epss : Scores libs) × All2
              (IsAnnotated libs provider epss)
              (returned_results libs (map (w.scan b.args.threads limiter e.launches) e.launches))
              e.collected.results)
        → (e.exit_code ≡ 0) ⊎ (e.exit_code ≡ 2)
        → Guarded w argv (returned e)

  map_port-spawn :
      (args : Args re) (probes : List (ProbeVariant libs.json libs.regex))
      (cves : List (Cve.Entry fl)) (ps : List ℕ)
      → map (λ l. l.port) (spawn libs args probes cves ps) ≡ ps
  unfolding spawn
  map_port-spawn args probes cves [] = refl
  map_port-spawn args probes cves (p ∷ ps) = ap (◌∷◌ p) (map_port-spawn args probes cves ps)

  spawn-All :
      (args : Args re) (probes : List (ProbeVariant libs.json libs.regex))
      (cves : List (Cve.Entry fl)) (ps : List ℕ)
      → All
          (λ l. (l.target ≡ args.target) × (l.timeout ≡ args.timeout))
          (spawn libs args probes cves ps)
  unfolding spawn
  spawn-All args probes cves [] = tt
  spawn-All args probes cves (p ∷ ps) = ((refl, refl), spawn-All args probes cves ps)

  -- How `run` ends.
  data Runs (w : World libs) (args : Args re) : Outcome (Ended libs) → Type 0 where
    run_thrown : Runs w args thrown
    run_ended :
        (e : Ended libs)
        → map (λ l. l.port) e.launches ≡ args.ports
        → All (λ l. (l.target ≡ args.target) × (l.timeout ≡ args.timeout)) e.launches
        → ((limiter : Limiter re) × (provider : Bytes) × (epss : Scores libs) × All2
              (IsAnnotated libs provider epss)
              (returned_results libs (map (w.scan args.threads limiter e.launches) e.launches))
              e.collected.results)
        → (e.exit_code ≡ 0) ⊎ (e.exit_code ≡ 2)
        → Runs w args (returned e)

  Reported-Runs :
      (w : World libs) (args : Args re) (probes : List (ProbeVariant libs.json libs.regex))
      (cves : List (Cve.Entry fl)) (limiter : Limiter re) (provider : Bytes) (epss : Scores libs)
      {o : Outcome (Ended libs)}
      → let ls = spawn libs args probes cves args.ports in
        Reported w args.report args.out_path ls
          (collect libs provider epss
            (map (w.scan args.threads limiter ls) ls)
            (record { results = []; open_count = 0 }))
          o
        → Runs w args o
  Reported-Runs w args probes cves limiter provider epss (report_thrown k) = run_thrown
  Reported-Runs w args probes cves limiter provider epss (report_ended e l c code) =
      let ls = spawn libs args probes cves args.ports in
      run_ended e (ap (map λ l. l.port) l ∙ map_port-spawn args probes cves args.ports)
        (rw l (spawn-All args probes cves args.ports))
        (
          limiter,
          provider,
          epss,
          rw (l, c)
              (collect-IsAnnotated libs provider epss (map (w.scan args.threads limiter ls) ls)).0,
        )
        (elim code [ inl z ↦ inl z | inr h ↦ inr h.0 ])

  run_with-Runs :
      (w : World libs) (args : Args re) (cves : List (Cve.Entry fl))
      → Runs w args (run_with libs w args cves)
  unfolding run_with
  run_with-Runs w args cves = Reported-Runs w args _ cves _ _ _ (report_run-Reported w _ _ _ _)

  and_then-Runs :
      (w : World libs) (args : Args re) (o : Outcome (List (Cve.Entry fl)))
      → Runs w args (and_then o (run_with libs w args))
  and_then-Runs w args thrown = run_thrown
  and_then-Runs w args (returned cves) = run_with-Runs w args cves

  run-Runs : (w : World libs) (args : Args re) → Runs w args (run libs w args)
  unfolding run
  run-Runs w args = and_then-Runs w args (load_cves libs w args.cve_db_path)

  Runs-Guarded :
      (w : World libs) (argv : List Bytes) (b : Bound re) (args : Args re)
      {o : Outcome (Ended libs)}
      → w.app_parse (default_bound re) argv ≡ parsed b
      → InScope b.args.target b.args.consent
      → args.ports ≢ []
      → AreDistinctPorts args.ports
      → args.target ≡ b.args.target
      → args.timeout ≡ b.timeout_ms
      → args.threads ≡ b.args.threads
      → Runs w args o
      → Guarded w argv o
  Runs-Guarded w argv b args h s n d t m j run_thrown = aborted b h s
  Runs-Guarded w argv b args h s n d t m j (run_ended e ports all_launches results code) =
      scanned b e h s (rw ports n) (rw ports d) (rw (sym t, sym m) all_launches)
        (rw (sym j) results) code

  decision-Guarded :
      (w : World libs) (argv : List Bytes) (b : Bound re) (args : Args re) (d : ScopeDecision)
      → w.app_parse (default_bound re) argv ≡ parsed b
      → ((d ≡ allowed) → Guarded w argv (run libs w args))
      → Guarded w argv (run_in_scope libs w args d)
  unfolding run_in_scope
  decision-Guarded w argv b args allowed h k = k refl
  decision-Guarded w argv b args denied_external_needs_consent h k =
      stopped _ (λ z. absurd (omega (arith, z))) refl (rw h refl) refl
  decision-Guarded w argv b args denied_invalid_address h k =
      stopped _ (λ z. absurd (omega (arith, z))) refl (rw h refl) refl

  failure_code : (code : ℕ) → (if not (code == 0) then code else 2) ≢ 0
  failure_code code h = ground arith

  module _ (w : World libs) (argv : List Bytes) where
    Parses-Guarded :
        IsDocumented addresses
        → (o : AppOutcome re) (res : ParseRun re) → w.app_parse (default_bound re) argv ≡ o
        → Parses re o res
        → Guarded w argv (
            if not res.result.ok
            then returned (
                exits libs
                  (if not (res.result.exit_code == 0) then res.result.exit_code else 2)
                  res.printed)
            else run_in_scope libs w res.result.args (
                check_scope addresses res.result.args.target
                  (record { explicit_consent = res.result.args.consent })))
    Parses-Guarded doc o res h (refused bad code what out) =
        rw bad (stopped _ (failure_code res.result.exit_code) refl (rw h out) refl)
    Parses-Guarded doc o res h (unusable top spec bad code what out) =
        rw bad (stopped _ (failure_code res.result.exit_code) refl (rw h out) refl)
    Parses-Guarded doc (parsed b) res h
          (accepted ok selected ports distinct rate t r consent m j out) =
        rw ok (
          decision-Guarded w argv b res.result.args _ h λ d.
            Runs-Guarded w argv b res.result.args h
              (rw (sym t, sym consent)
                (allowed-InScope doc res.result.args.target res.result.args.consent d))
              ports distinct t m j (run-Runs w res.result.args))

    -- With the documented behaviour of boost::asio, `main` ends in one of three ways. It stops with an
    -- exit code other than 0: it has spawned and written nothing, and printed on the standard output
    -- only what CLI11 prints of a parse error, such as the help. Or the arguments are
    -- accepted, and the target is an address that is internal or was given consent: then it spawns one
    -- coroutine for each of one or more different ports between 1 and 65535, all for that target and
    -- the timeout asked for, collects those results in order that the futures give, annotated, and
    -- exits with 0 or 2; or an exception ends it.
    pub main-Guarded : IsComparison re → IsDocumented addresses → Guarded w argv (main libs w argv)
    unfolding main
    main-Guarded is doc =
        Parses-Guarded doc (w.app_parse (default_bound re) argv) _ refl
          (parse-Parses re is w.app_parse argv)
