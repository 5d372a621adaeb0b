-- ===== src/Fp/Cve/Hits.antt =====
-- What a lookup gives: the entries of the service whose version prefix occurs in the version.
use service_port_scanner.Core.Floats.{FloatLib}
use service_port_scanner.Core.Result.{CveInfo}
use service_port_scanner.Fp.Cve.Substring.{Occurs, contains_iff}
use service_port_scanner.Fp.Cve.{
  to_lower, version_matches, Entry, is_hit, count_hits, hit_of, push_hits, lookup,
}
use service_port_scanner.Common.{
  ℕ, ◌+◌, ◌≡◌, ◌≢◌, refl, sym, ap, ◌∙◌, ◌⊎◌, inl, inr, true, false, ◌||◌, Bytes, bytes_eq,
  bytes_eq_iff, List, [], ◌∷◌, ◌++◌, append-nil, append_assoc, map, filter, length, length-map,
  is_empty, Bool-cases, ◌==◌, ==_iff, arith,
}

module _ (fl : FloatLib) where
  pub record IsHit (service version : Bytes) (e : Entry fl) : Type 0 where
    pub same_service : e.service_lower ≡ to_lower service
    pub some_prefix : e.version_prefix ≢ []
    pub prefix_occurs : Occurs e.version_prefix version

  -- The hits of the entries in their order.
  pub data Selects (service version : Bytes) : List (Entry fl) → List (CveInfo fl) → Type 0 where
    done : Selects service version [] []
    kept :
        (e : Entry fl) (es : List (Entry fl)) (hits : List (CveInfo fl))
        → IsHit service version e
        → Selects service version es hits
        → Selects service version (e ∷ es) (hit_of fl e ∷ hits)
    left_out :
        (e : Entry fl) (es : List (Entry fl)) (hits : List (CveInfo fl))
        → ¬ IsHit service version e
        → Selects service version es hits
        → Selects service version (e ∷ es) hits

  pub data Finds (entries : List (Entry fl)) (service version : Bytes)
      : List (CveInfo fl) → Type 0 where
    blank : (service ≡ []) ⊎ (version ≡ []) → Finds entries service version []
    found :
        (hits : List (CveInfo fl))
        → service ≢ []
        → version ≢ []
        → Selects service version entries hits
        → Finds entries service version hits

  is_hit-IsHit :
      (service version : Bytes) (e : Entry fl)
      → is_hit fl (to_lower service) version e ≡ true
      → IsHit service version e
  unfolding is_hit version_matches
  is_hit-IsHit service version e h =
      elim (Bool-cases (bytes_eq e.service_lower (to_lower service))) [
        | inl same ↦ elim (Bool-cases (is_empty e.version_prefix)) [
          | inl none ↦ absurd (ground arith)
          | inr some ↦ record {
            same_service = (bytes_eq_iff e.service_lower (to_lower service)).0 same;
            some_prefix = λ e'. cc (some, ap is_empty e');
            prefix_occurs = (contains_iff version e.version_prefix).0 (ground arith);
          }
        ]
        | inr other ↦ absurd (ground arith)
      ]

  nonempty : (s : Bytes) → s ≢ [] → is_empty s ≡ false
  nonempty [] h = absurd (h refl)
  nonempty (c ∷ s) h = refl

  IsHit-is_hit :
      (service version : Bytes) (e : Entry fl)
      → IsHit service version e
      → is_hit fl (to_lower service) version e ≡ true
  unfolding is_hit version_matches
  IsHit-is_hit service version e h =
      rw
        (
          (bytes_eq_iff e.service_lower (to_lower service)).1 h.same_service,
          nonempty e.version_prefix h.some_prefix,
          (contains_iff version e.version_prefix).1 h.prefix_occurs,
        )
        refl

  selected : Bytes → Bytes → List (Entry fl) → List (Entry fl)
  selected service version = filter (is_hit fl (to_lower service) version)

  selected_hit :
      (service version : Bytes) (e : Entry fl) (es : List (Entry fl))
      → is_hit fl (to_lower service) version e ≡ true
      → selected service version (e ∷ es) ≡ e ∷ selected service version es
  unfolding selected
  selected_hit service version e es h = rw (h, filter) refl

  selected_other :
      (service version : Bytes) (e : Entry fl) (es : List (Entry fl))
      → is_hit fl (to_lower service) version e ≡ false
      → selected service version (e ∷ es) ≡ selected service version es
  unfolding selected
  selected_other service version e es h = rw (h, filter) refl

  selected-Selects :
      (service version : Bytes) (es : List (Entry fl))
      → Selects service version es (map (hit_of fl) (selected service version es))
  selected-Selects service version [] = unfold selected in Selects.done
  selected-Selects service version (e ∷ es) =
      elim (Bool-cases (is_hit fl (to_lower service) version e)) [
        | inl h ↦ rw (selected_hit service version e es h) (
            Selects.kept e es _ (is_hit-IsHit service version e h)
              (selected-Selects service version es))
        | inr h ↦ rw (selected_other service version e es h) (
            Selects.left_out e es _ (λ i. cc (h, IsHit-is_hit service version e i))
              (selected-Selects service version es))
      ]

  push_hits_lem :
      (service version : Bytes) (hits : List (CveInfo fl)) (es : List (Entry fl))
      → push_hits fl (to_lower service) version hits es
        ≡ hits ++ map (hit_of fl) (selected service version es)
  unfolding push_hits
  push_hits_lem service version hits [] = unfold selected in sym (append-nil hits)
  push_hits_lem service version hits (e ∷ es) =
      elim (Bool-cases (is_hit fl (to_lower service) version e)) [
        | inl h ↦
            rw (h, selected_hit service version e es h)
              (push_hits_lem service version (hits ++ hit_of fl e ∷ []) es
                ∙ append_assoc hits (hit_of fl e ∷ []) _)
        | inr h ↦
            rw (h, selected_other service version e es h) (push_hits_lem service version hits es)
      ]

  count_hits_lem :
      (service version : Bytes) (count : ℕ) (es : List (Entry fl))
      → count_hits fl (to_lower service) version count es
        ≡ count + length (selected service version es)
  unfolding count_hits
  count_hits_lem service version count [] = unfold selected in omega arith
  count_hits_lem service version count (e ∷ es) =
      elim (Bool-cases (is_hit fl (to_lower service) version e)) [
        | inl h ↦
            rw (h, selected_hit service version e es h)
              (count_hits_lem service version (count + 1) es ∙ omega arith)
        | inr h ↦
            rw (h, selected_other service version e es h) (count_hits_lem service version count es)
      ]

  -- The first loop counts exactly the hits that the second one pushes, so that what `reserve` asks
  -- for is what is used.
  count_hits-push_hits :
      (service version : Bytes) (entries : List (Entry fl))
      → count_hits fl (to_lower service) version 0 entries
        ≡ length (push_hits fl (to_lower service) version [] entries)
  count_hits-push_hits service version entries =
      let pushed = push_hits_lem service version [] entries in
      omega (
        arith,
        count_hits_lem service version 0 entries,
        ap (λ hits. length hits) pushed,
        length-map (hit_of fl) (selected service version entries),
      )

  no_hits : (hits : List (CveInfo fl)) → length hits ≡ 0 → hits ≡ []
  no_hits [] h = refl
  no_hits (c ∷ hits) h = absurd (omega arith)

  -- Where neither text is empty, a lookup goes through both loops or there is no hit.
  lookup_lem :
      (entries : List (Entry fl)) (service version : Bytes)
      → (is_empty service || is_empty version) ≡ false
      → lookup fl entries service version ≡ push_hits fl (to_lower service) version [] entries
  unfolding lookup
  lookup_lem entries service version h =
      elim (Bool-cases (count_hits fl (to_lower service) version 0 entries == 0)) [
        | inl e ↦
            rw (h, e)
              (sym (
                no_hits _
                  (omega (arith, count_hits-push_hits service version entries, (==_iff _ 0).0 e))))
        | inr e ↦ rw (h, e) refl
      ]

  -- A lookup with an empty service or version gives nothing. Any other gives, in the order of the
  -- entries, a hit for exactly those entries whose service is the one asked for, its letters in
  -- either case, and whose version prefix is not empty and occurs in the version.
  pub lookup-Finds :
      (entries : List (Entry fl)) (service version : Bytes)
      → Finds entries service version (lookup fl entries service version)
  lookup-Finds entries [] version = unfold lookup in Finds.blank (inl refl)
  lookup-Finds entries (s ∷ service) [] = unfold lookup in Finds.blank (inr refl)
  lookup-Finds entries (s ∷ service) (v ∷ version) =
      rw
        (
          lookup_lem entries (s ∷ service) (v ∷ version) refl,
          push_hits_lem (s ∷ service) (v ∷ version) [] entries,
        )
        (Finds.found _ (λ e. cc e) (λ e. cc e)
          (selected-Selects (s ∷ service) (v ∷ version) entries))
