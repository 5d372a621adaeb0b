-- ===== src/Core/Result/Maxima.antt =====
-- The maxima over the CVEs of a result, and the counts.
use service_port_scanner.Core.Floats.{FloatLib, IsOrdered}
use service_port_scanner.Core.Result.{
  CveInfo, ScanResult, max_cvss_from, max_cvss, max_from, max_epss, max_percentile, risk, max_risk,
  count_verified, verified_cve_count, has_verified_cve,
}
use service_port_scanner.Common.{
  ℕ, ◌+◌, ◌<◌, ◌≡◌, refl, ◌↔◌, ◌⊎◌, inl, inr, Bool, true, false, List, [], ◌∷◌, length, filter, All,
  Any, Bool-cases, if◌then◌else◌, arith,
}

module _ {A V : Type 0} (gt : V → V → Bool) (value : A → V) where
  -- The greatest of the values and a start: it is one of them, and none is greater.
  pub record IsGreatest (start : V) (xs : List A) (m : V) : Type 0 where
    pub one_of_them : (m ≡ start) ⊎ Any (λ x. value x ≡ m) xs
    pub not_below_start : gt start m ≡ false
    pub none_greater : All (λ x. gt (value x) m ≡ false) xs

  -- The loop that all the maxima share.
  abbrev greatest : V → List A → V
  greatest m [] = m
  greatest m (x ∷ xs) = greatest (if gt (value x) m then value x else m) xs

  greatest_one_of_them :
      (m : V) (xs : List A) → (greatest m xs ≡ m) ⊎ Any (λ x. value x ≡ greatest m xs) xs
  greatest_one_of_them m [] = inl refl
  greatest_one_of_them m (x ∷ xs) =
      ground (arith, greatest_one_of_them (if gt (value x) m then value x else m) xs)

  module _ (keeps : (a m n : V) → gt n m ≡ true → gt a m ≡ false → gt a n ≡ false)
      (irreflexive : (a : V) → gt a a ≡ false) where
    greatest_not_below : (a m : V) (xs : List A) → gt a m ≡ false → gt a (greatest m xs) ≡ false
    greatest_not_below a m [] h = h
    greatest_not_below a m (x ∷ xs) h =
        greatest_not_below a (if gt (value x) m then value x else m) xs
          (elim (Bool-cases (gt (value x) m)) [
            | inl e ↦ rw e (keeps a m (value x) e h)
            | inr e ↦ rw e h
          ])

    greatest_none_greater :
        (m : V) (xs : List A) → All (λ x. gt (value x) (greatest m xs) ≡ false) xs
    greatest_none_greater m [] = tt
    greatest_none_greater m (x ∷ xs) = (
      greatest_not_below (value x) (if gt (value x) m then value x else m) xs
          (elim (Bool-cases (gt (value x) m)) [
            | inl e ↦ rw e (irreflexive (value x))
            | inr e ↦ rw e e
          ]),
      greatest_none_greater (if gt (value x) m then value x else m) xs,
    )

    greatest-IsGreatest : (start : V) (xs : List A) → IsGreatest start xs (greatest start xs)
    greatest-IsGreatest start xs = record {
      one_of_them = greatest_one_of_them start xs;
      not_below_start = greatest_not_below start start xs (irreflexive start);
      none_greater = greatest_none_greater start xs;
    }

module _ (fl : FloatLib) (ordered : IsOrdered fl) where
  max_from_lem :
      (value : CveInfo fl → fl.Double) (m : fl.Double) (cs : List (CveInfo fl))
      → max_from fl value m cs ≡ greatest fl.gt value m cs
  unfolding max_from
  max_from_lem value m [] = refl
  max_from_lem value m (c ∷ cs) = max_from_lem value (if fl.gt (value c) m then value c else m) cs

  max_cvss_from_lem :
      (m : fl.Float) (cs : List (CveInfo fl))
      → max_cvss_from fl m cs ≡ greatest fl.float_gt (λ c. c.cvss_score) m cs
  unfolding max_cvss_from
  max_cvss_from_lem m [] = refl
  max_cvss_from_lem m (c ∷ cs) =
      max_cvss_from_lem (if fl.float_gt c.cvss_score m then c.cvss_score else m) cs

  max_from-IsGreatest :
      (value : CveInfo fl → fl.Double) (start : fl.Double) (cs : List (CveInfo fl))
      → IsGreatest fl.gt value start cs (max_from fl value start cs)
  max_from-IsGreatest value start cs =
      rw (max_from_lem value start cs)
        (greatest-IsGreatest fl.gt value ordered.gt_keeps ordered.gt_irreflexive start cs)

  -- Of the CVEs of a result, `max_cvss`, `max_epss`, `max_percentile` and `max_risk` are 0 or the
  -- value of some CVE, none has a greater value, and 0 is not greater, values that are no numbers
  -- included.
  pub maxima-IsGreatest :
      (r : ScanResult fl)
      → IsGreatest fl.float_gt (λ c. c.cvss_score) fl.float_zero r.cves (max_cvss fl r)
        × IsGreatest fl.gt (λ c. c.epss) (fl.double 0) r.cves (max_epss fl r)
        × IsGreatest fl.gt (λ c. c.percentile) (fl.double 0) r.cves (max_percentile fl r)
        × IsGreatest fl.gt (risk fl) (fl.double 0) r.cves (max_risk fl r)
  unfolding max_cvss max_epss max_percentile max_risk
  maxima-IsGreatest r = (
    rw (max_cvss_from_lem fl.float_zero r.cves) (
        greatest-IsGreatest fl.float_gt (λ c. c.cvss_score) ordered.float_gt_keeps
          ordered.float_gt_irreflexive fl.float_zero r.cves),
    max_from-IsGreatest _ _ r.cves,
    max_from-IsGreatest _ _ r.cves,
    max_from-IsGreatest _ _ r.cves,
  )

module _ (fl : FloatLib) where
  count_verified_lem :
      (count : ℕ) (cs : List (CveInfo fl))
      → count_verified fl count cs ≡ count + length (filter (λ c. c.nuclei_verified) cs)
  unfolding count_verified
  count_verified_lem count [] = omega arith
  count_verified_lem count (c ∷ cs) = elim (Bool-cases c.nuclei_verified) [
    | inl e ↦ ground (arith, count_verified_lem (count + 1) cs)
    | inr e ↦ ground (arith, count_verified_lem count cs)
  ]

  filter_some :
      (cs : List (CveInfo fl))
      → (0 < length (filter (λ c. c.nuclei_verified) cs)) ↔ Any (λ c. c.nuclei_verified ≡ true) cs
  filter_some [] = ground arith
  filter_some (c ∷ cs) = ground (arith, filter_some cs)

  -- `verified_cve_count` counts the CVEs that are verified, and `has_verified_cve` holds exactly
  -- where one is.
  verified_cve_count_lem :
      (r : ScanResult fl)
      → (verified_cve_count fl r ≡ length (filter (λ c. c.nuclei_verified) r.cves))
        × ((has_verified_cve fl r ≡ true) ↔ Any (λ c. c.nuclei_verified ≡ true) r.cves)
  unfolding verified_cve_count has_verified_cve
  verified_cve_count_lem r =
      let count = count_verified_lem 0 r.cves in
      (omega (arith, count), ground (arith, count, filter_some r.cves))
