-- ===== src/Cli/Args/Selection.antt =====
-- What `parse` promises of the arguments it accepts.
use service_port_scanner.Net.Reals.{RealLib, IsComparison}
use service_port_scanner.Cli.Ports.{expand_port_spec}
use service_port_scanner.Cli.Ports.PortSet.{Rising}
use service_port_scanner.Cli.Ports.Expand.{expand_port_spec-Expansion}
use service_port_scanner.Cli.TopPorts.{AreDistinctPorts, top_n_ports, top_n_ports_lem}
use service_port_scanner.Cli.Args.{
  ParseRun, Bound, AppOutcome, parsed, parse_error, default_bound, no_ports_error, select_ports,
  finish, parse_outcome, parse,
}
use service_port_scanner.Common.{
  ℕ, ◌≤◌, ◌<◌, ◌≡◌, ◌≢◌, refl, true, false, Bytes, List, [], ◌∷◌, is_empty, ltb, if◌then◌else◌,
  ◌==◌, any, ap, ◌⊎◌, length, ltb→lt, Bool-cases, inl, inr, arith,
}

Rising-any : (p low : ℕ) (set : List ℕ) → p ≤ low → Rising low set → any (λ q. p == q) set ≡ false
Rising-any p low [] l r = refl
Rising-any p low (q ∷ set) l r = ground (arith, Rising-any p q set)

Rising-AreDistinctPorts : (low : ℕ) (set : List ℕ) → Rising low set → AreDistinctPorts set
Rising-AreDistinctPorts low [] r = tt
Rising-AreDistinctPorts low (q ∷ set) (l, u, r) =
    (omega arith, u, Rising-any q q set (omega arith) r, Rising-AreDistinctPorts q set r)

is_empty-eq : (ps : List ℕ) → is_empty ps ≡ true → ps ≡ []
is_empty-eq [] h = refl
is_empty-eq (p ∷ ps) h = cc

is_empty-neq : (ps : List ℕ) → is_empty ps ≡ false → ps ≢ []
is_empty-neq ps h e = cc (h, ap is_empty e)

top_n_ports-nonempty : (n : ℕ) → 0 < n → is_empty (top_n_ports n) ≢ true
top_n_ports-nonempty n h e = absurd (
    omega (arith, (top_n_ports_lem n n (omega arith)).0, ap length (is_empty-eq (top_n_ports n) e)))

module _ (re : RealLib) where
  -- The ports that the options ask for.
  pub Selected : Bound re → List ℕ → Type 0
  Selected b ports =
      ((0 < b.args.top_ports) × (ports ≡ top_n_ports b.args.top_ports))
      ⊎ ((b.args.top_ports ≡ 0) × (ports ≡ expand_port_spec b.ports_spec))

  -- The result of `parse`, by how CLI11 ends.
  pub data Parses : AppOutcome re → ParseRun re → Type 0 where
    refused :
        {code : ℕ} {out what : Bytes} {b : Bound re} {res : ParseRun re}
        → res.result.ok ≡ false
        → res.result.exit_code ≡ code
        → res.result.error ≡ what
        → res.printed ≡ out
        → Parses (parse_error code out what b) res
    unusable :
        {b : Bound re} {res : ParseRun re}
        → b.args.top_ports ≡ 0
        → expand_port_spec b.ports_spec ≡ []
        → res.result.ok ≡ false
        → res.result.exit_code ≡ 0
        → res.result.error ≡ no_ports_error re
        → res.printed ≡ []
        → Parses (parsed b) res
    accepted :
        {b : Bound re} {res : ParseRun re}
        → res.result.ok ≡ true
        → Selected b res.result.args.ports
        → res.result.args.ports ≢ []
        → AreDistinctPorts res.result.args.ports
        → re.lt res.result.args.max_rate res.result.args.rate ≡ false
        → res.result.args.target ≡ b.args.target
        → res.result.args.rate ≡ b.args.rate
        → res.result.args.consent ≡ b.args.consent
        → res.result.args.timeout ≡ b.timeout_ms
        → res.result.args.threads ≡ b.args.threads
        → res.printed ≡ []
        → Parses (parsed b) res

  select_ports-AreDistinctPorts : (b : Bound re) → AreDistinctPorts (select_ports re b)
  unfolding select_ports
  select_ports-AreDistinctPorts b = elim (Bool-cases (ltb 0 b.args.top_ports)) [
    | inl e ↦
        rw (e, select_ports) (top_n_ports_lem b.args.top_ports b.args.top_ports (omega arith)).1
    | inr e ↦
        rw (e, select_ports)
          (Rising-AreDistinctPorts 0 (expand_port_spec b.ports_spec)
            (expand_port_spec-Expansion b.ports_spec).rising)
  ]

  select_ports-Selected : (b : Bound re) → Selected b (select_ports re b)
  unfolding select_ports Selected
  select_ports-Selected b = elim (Bool-cases (ltb 0 b.args.top_ports)) [
    | inl e ↦ inl (ltb→lt 0 _ e, rw (e, select_ports) refl)
    | inr e ↦ inr (ground arith, rw (e, select_ports) refl)
  ]

  -- The selection is empty only where the specification is read, and gives none.
  select_ports-empty :
      (b : Bound re)
      → is_empty (select_ports re b) ≡ true
      → (b.args.top_ports ≡ 0) × (expand_port_spec b.ports_spec ≡ [])
  unfolding select_ports
  select_ports-empty b h = elim (Bool-cases (ltb 0 b.args.top_ports)) [
    | inl e ↦
        let asked : select_ports re b ≡ top_n_ports b.args.top_ports = rw (e, select_ports) refl in
        absurd (top_n_ports-nonempty b.args.top_ports (ltb→lt 0 _ e) (cc (h, ap is_empty asked)))
    | inr e ↦
        let read : select_ports re b ≡ expand_port_spec b.ports_spec = rw (e, select_ports) refl in
        (ground arith, is_empty-eq (expand_port_spec b.ports_spec) (cc (h, ap is_empty read)))
  ]

  raised_rate-lt :
      IsComparison re
      → (rate max_rate : re.Real)
      → re.lt (if re.lt max_rate rate then rate else max_rate) rate ≡ false
  raised_rate-lt is rate max_rate = elim (Bool-cases (re.lt max_rate rate)) [
    | inl e ↦ rw e (is.irreflexive rate)
    | inr e ↦ rw e e
  ]

  finish-Parses :
      IsComparison re
      → (b : Bound re) → Parses (parsed b) (record { result = finish re b; printed = [] })
  unfolding finish
  finish-Parses is b = elim (Bool-cases (is_empty (select_ports re b))) [
    | inl e ↦
        let (none_asked, none_read) = select_ports-empty b e in
        rw (e, finish) (unusable none_asked none_read refl refl refl refl)
    | inr e ↦
        rw (e, finish)
          (accepted refl (select_ports-Selected b) (is_empty-neq (select_ports re b) e)
            (select_ports-AreDistinctPorts b) (raised_rate-lt is b.args.rate b.args.max_rate) refl
            refl refl refl refl refl)
  ]

  parse_outcome-Parses : IsComparison re → (o : AppOutcome re) → Parses o (parse_outcome re o)
  unfolding parse_outcome
  parse_outcome-Parses is (parsed b) = finish-Parses is b
  parse_outcome-Parses is (parse_error code out what b) = refused refl refl refl refl

  -- Where CLI11 rejects the arguments, `parse` is not ok and passes on its exit code, message and output. It
  -- is not ok either, with exit code 0, exactly where no number of top ports is asked for and the
  -- specification of ports gives none. All else it accepts: the ports are those of the table of
  -- frequent ports where a number of them is asked for, and else those of the specification; there is
  -- a port, the ports are different and lie between 1 and 65535, the rate does not exceed the maximal rate, and the target, the rate,
  -- the consent, the timeout and the number of threads are those that CLI11 read. In the last
  -- two cases it prints nothing.
  pub parse-Parses :
      IsComparison re
      → (app_parse : Bound re → List Bytes → AppOutcome re) (argv : List Bytes)
      → Parses (app_parse (default_bound re) argv) (parse re app_parse argv)
  unfolding parse
  parse-Parses is app_parse argv = parse_outcome-Parses is (app_parse (default_bound re) argv)
