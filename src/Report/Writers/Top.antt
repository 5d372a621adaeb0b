-- ===== src/Report/Writers/Top.antt =====
-- The top CVE of a line of the command line's reports.
use service_port_scanner.Core.Floats.{FloatLib}
use service_port_scanner.Core.Result.{CveInfo, ScanResult, max_cvss_from, max_cvss}
use service_port_scanner.Report.Writers.{top_cve_from, top_cve}
use service_port_scanner.Common.{
  ◌≡◌, refl, sym, ap, true, false, Bytes, List, [], ◌∷◌, ◌++◌, All, inl, inr, Bool-cases,
}

module _ (fl : FloatLib) where
  -- What the loop leaves of the identifier and score it starts with: both, where no score is greater,
  -- or those of a CVE whose score is greater than the start and all before it, and not less than any
  -- behind it.
  pub data Tops (id : Bytes) (m : fl.Float) (cs : List (CveInfo fl))
      : Bytes × fl.Float → Type 0 where
    kept : All (λ c. fl.float_gt c.cvss_score m ≡ false) cs → Tops id m cs (id, m)
    taken :
        (before : List (CveInfo fl)) (c : CveInfo fl) (after : List (CveInfo fl))
        → cs ≡ before ++ c ∷ after
        → fl.float_gt c.cvss_score (max_cvss_from fl m before) ≡ true
        → All (λ d. fl.float_gt d.cvss_score c.cvss_score ≡ false) after
        → Tops id m cs (c.cve_id, c.cvss_score)

  Tops-take :
      {id : Bytes} {m : fl.Float} {c : CveInfo fl} {cs : List (CveInfo fl)} {top : Bytes × fl.Float}
      → fl.float_gt c.cvss_score m ≡ true
      → Tops c.cve_id c.cvss_score cs top
      → Tops id m (c ∷ cs) top
  unfolding max_cvss_from
  Tops-take {c} {cs} e (kept rest) = taken [] c cs refl e rest
  Tops-take {c} e (taken before d after split greater rest) =
      taken (c ∷ before) d after (ap (◌∷◌ c) split) (rw e greater) rest

  Tops-pass :
      {id : Bytes} {m : fl.Float} {c : CveInfo fl} {cs : List (CveInfo fl)} {top : Bytes × fl.Float}
      → fl.float_gt c.cvss_score m ≡ false
      → Tops id m cs top
      → Tops id m (c ∷ cs) top
  unfolding max_cvss_from
  Tops-pass e (kept rest) = kept (e, rest)
  Tops-pass {c} e (taken before d after split greater rest) =
      taken (c ∷ before) d after (ap (◌∷◌ c) split) (rw e greater) rest

  top_cve_from-Tops :
      (id : Bytes) (m : fl.Float) (cs : List (CveInfo fl))
      → Tops id m cs (top_cve_from fl (id, m) cs)
  unfolding top_cve_from
  top_cve_from-Tops id m [] = kept tt
  top_cve_from-Tops id m (c ∷ cs) = elim (Bool-cases (fl.float_gt c.cvss_score m)) [
    | inl e ↦ rw (e, top_cve_from) (Tops-take e (top_cve_from-Tops c.cve_id c.cvss_score cs))
    | inr e ↦ rw (e, top_cve_from) (Tops-pass e (top_cve_from-Tops id m cs))
  ]

  top_cve_from-max_cvss_from :
      (id : Bytes) (m : fl.Float) (cs : List (CveInfo fl))
      → (top_cve_from fl (id, m) cs).1 ≡ max_cvss_from fl m cs
  unfolding top_cve_from max_cvss_from
  top_cve_from-max_cvss_from id m [] = refl
  top_cve_from-max_cvss_from id m (c ∷ cs) = elim (Bool-cases (fl.float_gt c.cvss_score m)) [
    | inl e ↦
        rw (e, top_cve_from, max_cvss_from) (top_cve_from-max_cvss_from c.cve_id c.cvss_score cs)
    | inr e ↦ rw (e, top_cve_from, max_cvss_from) (top_cve_from-max_cvss_from id m cs)
  ]

  -- The top CVE of a line is none, with score 0, where no score is above 0, or else the first of those
  -- CVEs whose score exceeds 0 and all before it and is exceeded by none behind it; where the literal
  -- 0 is the zero of the result's maximum, its score is the `max_cvss` that the other writers print.
  pub top_cve-Tops :
      (r : ScanResult fl)
      → fl.float 0 ≡ fl.float_zero
      → Tops [] (fl.float 0) r.cves (top_cve fl r.cves) × ((top_cve fl r.cves).1 ≡ max_cvss fl r)
  unfolding top_cve max_cvss
  top_cve-Tops r z = (
    top_cve_from-Tops [] (fl.float 0) r.cves,
    rw (sym z) (top_cve_from-max_cvss_from [] (fl.float 0) r.cves),
  )
