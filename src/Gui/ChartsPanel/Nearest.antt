-- ===== src/Gui/ChartsPanel/Nearest.antt =====
-- src/gui/views/charts_panel.cpp: which result a click selects.
use mathlib.Core.Path.{subst}
use service_port_scanner.Core.Floats.{FloatLib, IsOrdered}
use service_port_scanner.Core.Result.{ScanResult}
use service_port_scanner.Gui.ChartsPanel.{
  QPoint, PointInfo, ChartsPanel, is_probe_result, empty_panel, append_point, point_info,
  add_result, add_results, update_data, distance, nearest_from, on_scatter_clicked, RiskSeries,
  critical_series, high_series, medium_series, low_series,
}
use service_port_scanner.Common.{
  ℕ, suc, ◌+◌, ◌≡◌, refl, ◌∙◌, sym, ◌⊎◌, inl, inr, true, false, not, ◌||◌, Option, none, some, List,
  [], ◌∷◌, ◌++◌, append-nil, append_assoc, is_empty, get_elem?, All, Any, Any-map, Bool-cases,
  if◌then◌else◌, arith,
}

module _ (fl : FloatLib) where
  -- A result that has a point: one of a probed service, with a CVE.
  pub record IsShown (r : ScanResult fl) : Type 0 where
    pub probed : is_probe_result fl r ≡ true
    pub has_cve : is_empty r.cves ≡ false

  -- The points of the results from an index on.
  abbrev pub shown_points : ℕ → List (ScanResult fl) → List (PointInfo fl)
  shown_points idx [] = []
  shown_points idx (r ∷ rs) =
      let rest = shown_points (idx + 1) rs in
      if not (is_probe_result fl r) || is_empty r.cves then rest else point_info fl idx r ∷ rest

  append_point-point_map :
      (s : RiskSeries) (q : QPoint fl) (panel : ChartsPanel fl)
      → (append_point fl s q panel).point_map ≡ panel.point_map
  append_point-point_map critical_series q panel = refl
  append_point-point_map high_series q panel = refl
  append_point-point_map medium_series q panel = refl
  append_point-point_map low_series q panel = refl

  add_results-point_map :
      (idx : ℕ) (rs : List (ScanResult fl)) (panel : ChartsPanel fl)
      → (add_results fl idx rs panel).point_map ≡ panel.point_map ++ shown_points idx rs
  unfolding add_results add_result
  add_results-point_map idx [] panel = sym (append-nil panel.point_map)
  add_results-point_map idx (r ∷ rs) panel =
      add_results-point_map (idx + 1) rs (add_result fl idx r panel)
      ∙ (elim (Bool-cases (not (is_probe_result fl r) || is_empty r.cves)) [
        | inl e ↦ rw e refl
        | inr e ↦
            rw (e, append_point-point_map _ _ panel)
              (append_assoc panel.point_map (point_info fl idx r ∷ []) (shown_points (idx + 1) rs))
      ])

  drawn :
      (idx : ℕ) (s : ScanResult fl) (rs : List (ScanResult fl))
      → not (is_probe_result fl s) || is_empty s.cves ≡ false
      → shown_points idx (s ∷ rs) ≡ point_info fl idx s ∷ shown_points (idx + 1) rs
  drawn idx s rs e = rw e refl

  plus_zero : (n : ℕ) → n ≡ n + 0
  plus_zero n = omega arith

  plus_suc : (n j : ℕ) → n + 1 + j ≡ n + suc j
  plus_suc n j = omega arith

  -- A shown result whose point has a property.
  abbrev pub Places : (PointInfo fl → Type 0) → ℕ → List (ScanResult fl) → Type 0
  Places P idx rs =
      (j : ℕ) × (r : ScanResult fl) × (get_elem? rs j ≡ some r)
      × IsShown r
      × P (point_info fl (idx + j) r)

  module _ (P : PointInfo fl → Type 0) where
    later :
        (idx : ℕ) (s : ScanResult fl) (rs : List (ScanResult fl))
        → Places P (idx + 1) rs
        → Places P idx (s ∷ rs)
    later idx s rs (j, r, at, shown, p) =
        (suc j, r, at, shown, subst (λ n. P (point_info fl n r)) (plus_suc idx j) p)

    shown_points-Any :
        (idx : ℕ) (rs : List (ScanResult fl)) → Any P (shown_points idx rs) → Places P idx rs
    shown_points-Any idx [] h = absurd h
    shown_points-Any idx (s ∷ rs) h =
        let rest = shown_points-Any (idx + 1) rs in
        elim (Bool-cases (not (is_probe_result fl s) || is_empty s.cves)) [
          | inl e ↦ later idx s rs (rest (subst (Any P) (rw e refl) h))
          | inr e ↦ elim (subst (Any P) (drawn idx s rs e) h) [
            | inl p ↦ (
              0,
              s,
              refl,
              record { probed = ground (arith, e); has_cve = ground (arith, e) },
              subst (λ n. P (point_info fl n s)) (plus_zero idx) p,
            )
            | inr p ↦ later idx s rs (rest p)
          ]
        ]

  module _ (ordered : IsOrdered fl) (minus plus over : fl.Double → fl.Double → fl.Double)
      (largest : fl.Double) (point : QPoint fl) where
    abbrev pub dist : PointInfo fl → fl.Double
    dist = distance fl minus plus over largest point

    abbrev pub IsLeast : fl.Double → List (PointInfo fl) → PointInfo fl → Type 0
    IsLeast m ps p = (fl.gt m (dist p) ≡ true) × All (λ q. fl.gt (dist p) (dist q) ≡ false) ps

    not_nearer : (m d n : fl.Double) → fl.gt m d ≡ false → fl.gt m n ≡ true → fl.gt n d ≡ false
    not_nearer m d n far near = elim (Bool-cases (fl.gt n d)) [
      | inl e ↦ absurd (ground (arith, near, ordered.gt_keeps m d n e far))
      | inr e ↦ e
    ]

    nearer_trans : (m d n : fl.Double) → fl.gt m d ≡ true → fl.gt d n ≡ true → fl.gt m n ≡ true
    nearer_trans m d n near nearer = elim (Bool-cases (fl.gt m n)) [
      | inl e ↦ e
      | inr e ↦ absurd (ground (arith, near, ordered.gt_keeps m n d nearer e))
    ]

    asymmetric : (d n : fl.Double) → fl.gt d n ≡ true → fl.gt n d ≡ false
    asymmetric d n near = ordered.gt_keeps n n d near (ordered.gt_irreflexive n)

    abbrev search : fl.Double → Option ℕ → List (PointInfo fl) → Option ℕ
    search = nearest_from fl minus plus over largest point

    nearer_step :
        (m : fl.Double) (best : Option ℕ) (p : PointInfo fl) (ps : List (PointInfo fl))
        → fl.gt m (dist p) ≡ true
        → search m best (p ∷ ps) ≡ search (dist p) (some p.result_index) ps
    unfolding nearest_from
    nearer_step m best p ps e = rw e refl

    farther_step :
        (m : fl.Double) (best : Option ℕ) (p : PointInfo fl) (ps : List (PointInfo fl))
        → fl.gt m (dist p) ≡ false
        → search m best (p ∷ ps) ≡ search m best ps
    unfolding nearest_from
    farther_step m best p ps e = rw e refl

    nearest_from_lem :
        (m : fl.Double) (best : Option ℕ) (ps : List (PointInfo fl))
        → let out = search m best ps in
          ((out ≡ best) × All (λ q. fl.gt m (dist q) ≡ false) ps)
          ⊎ Any (λ p. (out ≡ some p.result_index) × IsLeast m ps p) ps
    unfolding nearest_from
    nearest_from_lem m best [] = inl (refl, tt)
    nearest_from_lem m best (p ∷ ps) = elim (Bool-cases (fl.gt m (dist p))) [
      | inl e ↦
          let step = nearer_step m best p ps e in
          elim (nearest_from_lem (dist p) (some p.result_index) ps) [
            | inl (out, least) ↦
                inr (inl (step ∙ out, (e, (ordered.gt_irreflexive (dist p), least))))
            | inr h ↦ inr (
                inr (
                  Any-map
                    (λ q (out, (near, least)). (
                      step ∙ out,
                      (
                        nearer_trans m (dist p) (dist q) e near,
                        (asymmetric (dist p) (dist q) near, least),
                      ),
                    ))
                    ps h))
          ]
      | inr e ↦
          let step = farther_step m best p ps e in
          elim (nearest_from_lem m best ps) [
            | inl (out, none_nearer) ↦ inl (step ∙ out, (e, none_nearer))
            | inr h ↦ inr (
                inr (
                  Any-map
                    (λ q (out, (near, least)).
                      (step ∙ out, (near, (not_nearer m (dist p) (dist q) e near, least))))
                    ps h))
          ]
    ]

    -- Where the comparison of doubles is ordered, a click on the chart that `update_data` has filled
    -- either selects the index of a shown result, whose point is nearer than the largest double and
    -- such that no shown result has a nearer one, or it selects nothing, and no point is nearer than
    -- the largest double.
    pub on_scatter_clicked-Selects :
        (rs : List (ScanResult fl))
        → let out = on_scatter_clicked fl minus plus over largest point (update_data fl rs) in
          let points = shown_points 0 rs in
          ((out ≡ none) × All (λ q. fl.gt largest (dist q) ≡ false) points)
          ⊎ Places (λ p. (out ≡ some p.result_index) × IsLeast largest points p) 0 rs
    unfolding on_scatter_clicked update_data
    on_scatter_clicked-Selects rs =
        rw (add_results-point_map 0 rs (empty_panel fl))
          (elim (nearest_from_lem largest none (shown_points 0 rs)) [
            | inl h ↦ inl h
            | inr h ↦ inr (shown_points-Any _ 0 rs h)
          ])
