-- ===== src/Main/Annotate.antt =====
-- What the loop over the futures in src/main.cpp leaves of them.
use service_port_scanner.Core.Result.{CveInfo, ScanResult, is_open}
use service_port_scanner.Fp.Epss
use service_port_scanner.Main.{
  Libs, Scores, Task, task_result, task_error, annotate_hits, annotate, Collected, collect_one,
  collect,
}
use service_port_scanner.Common.{
  ◌+◌, ◌≡◌, ◌≢◌, refl, sym, ◌∙◌, Bytes, List, [], ◌∷◌, ◌++◌, length, filter, append-nil,
  append_assoc, All2, inl, inr, ◌⊎◌, arith,
}

module _ (libs : Libs) where
  open libs use {fl, strtod}

  -- The results among the futures, in order.
  abbrev pub returned_results : List (Task libs) → List (ScanResult fl)
  returned_results [] = []
  returned_results (task_error ∷ ts) = returned_results ts
  returned_results (task_result r ∷ ts) = r ∷ returned_results ts

  -- A CVE with the probabilities of the database, and all else kept.
  pub record IsScored (epss : Scores libs) (c c' : CveInfo fl) : Type 0 where
    pub cve_id_kept : c'.cve_id ≡ c.cve_id
    pub description_kept : c'.description ≡ c.description
    pub cvss_kept : c'.cvss_score ≡ c.cvss_score
    pub severity_kept : c'.severity ≡ c.severity
    pub verified_kept : c'.nuclei_verified ≡ c.nuclei_verified
    pub epss_found : c'.epss ≡ (Epss.lookup fl strtod epss c.cve_id).epss
    pub percentile_found : c'.percentile ≡ (Epss.lookup fl strtod epss c.cve_id).percentile

  pub record IsAnnotated (provider : Bytes) (epss : Scores libs) (r r' : ScanResult fl)
      : Type 0 where
    pub host_kept : r'.target_host ≡ r.target_host
    pub address_kept : r'.resolved_ip ≡ r.resolved_ip
    pub port_kept : r'.port ≡ r.port
    pub protocol_kept : r'.protocol ≡ r.protocol
    pub ja4s_kept : r'.ja4s ≡ r.ja4s
    pub ja4x_kept : r'.ja4x ≡ r.ja4x
    pub os_kept : r'.os_guess ≡ r.os_guess
    pub rtt_kept : r'.rtt ≡ r.rtt
    pub state_kept : r'.state ≡ r.state
    pub service_kept : r'.service ≡ r.service
    pub provider_set : r'.cdn ≡ provider
    pub scored :
        ((epss ≡ []) × (r'.cves ≡ r.cves)) ⊎ ((epss ≢ []) × All2 (IsScored epss) r.cves r'.cves)

  annotate_hits-IsScored :
      (epss : Scores libs) (cs : List (CveInfo fl))
      → All2 (IsScored epss) cs (annotate_hits libs epss cs)
  unfolding annotate_hits
  annotate_hits-IsScored epss [] = tt
  annotate_hits-IsScored epss (c ∷ cs) = (
    record {
      cve_id_kept = refl;
      description_kept = refl;
      cvss_kept = refl;
      severity_kept = refl;
      verified_kept = refl;
      epss_found = refl;
      percentile_found = refl;
    },
    annotate_hits-IsScored epss cs,
  )

  pub annotate-IsAnnotated :
      (provider : Bytes) (epss : Scores libs) (r : ScanResult fl)
      → IsAnnotated provider epss r (annotate libs provider epss r)
  unfolding annotate
  annotate-IsAnnotated provider [] r = record {
    host_kept = refl;
    address_kept = refl;
    port_kept = refl;
    protocol_kept = refl;
    ja4s_kept = refl;
    ja4x_kept = refl;
    os_kept = refl;
    rtt_kept = refl;
    state_kept = refl;
    service_kept = refl;
    provider_set = refl;
    scored = inl (refl, refl);
  }
  annotate-IsAnnotated provider (entry ∷ epss) r = record {
    host_kept = refl;
    address_kept = refl;
    port_kept = refl;
    protocol_kept = refl;
    ja4s_kept = refl;
    ja4x_kept = refl;
    os_kept = refl;
    rtt_kept = refl;
    state_kept = refl;
    service_kept = refl;
    provider_set = refl;
    scored = inr (λ e. cc e, annotate_hits-IsScored (entry ∷ epss) r.cves);
  }

  collect-append :
      (provider : Bytes) (epss : Scores libs) (ts : List (Task libs)) (c : Collected libs)
      → (added : List (ScanResult fl)) × ((collect libs provider epss ts c).results
          ≡ c.results ++ added)
        × ((collect libs provider epss ts c).open_count
            ≡ c.open_count + length (filter (is_open fl) added))
        × All2 (IsAnnotated provider epss) (returned_results ts) added
  unfolding collect collect_one is_open annotate
  collect-append provider epss [] c = ([], sym (append-nil c.results), omega arith, tt)
  collect-append provider epss (task_error ∷ ts) c = collect-append provider epss ts c
  collect-append provider epss (task_result r ∷ ts) c =
      let (added, e, n, a) =
        collect-append provider epss ts (collect_one libs provider epss (task_result r) c) in
      (
        annotate libs provider epss r ∷ added,
        e ∙ append_assoc c.results (annotate libs provider epss r ∷ []) added,
        ground (arith, n),
        (annotate-IsAnnotated provider epss r, a),
      )

  -- Of the futures, those that throw are left out, and the results of the others are kept in order,
  -- each with the provider of the target and, unless the EPSS database is empty, the probabilities of
  -- its CVEs; all else of a result is kept. The count is that of the open ones among them.
  pub collect-IsAnnotated :
      (provider : Bytes) (epss : Scores libs) (ts : List (Task libs))
      → let c = collect libs provider epss ts (record { results = []; open_count = 0 }) in
        All2 (IsAnnotated provider epss) (returned_results ts) c.results
        × (c.open_count ≡ length (filter (is_open fl) c.results))
  collect-IsAnnotated provider epss ts =
      let (added, e, n, a) =
        collect-append provider epss ts (record { results = []; open_count = 0 }) in
      rw e (a, n ∙ omega arith)
