-- ===== src/Probes/Identify/FirstMatch.antt =====
-- What `identify` finds for a peer: the first rule that matches its banner.
use mathlib.Core.Path.{subst}
use service_port_scanner.Json.{JsonLib}
use service_port_scanner.Probes.Regex.{RegexLib}
use service_port_scanner.Probes.Rules.{MatchRule, ProbeRule}
use service_port_scanner.Probes.Template.{apply_template}
use service_port_scanner.Probes.Banner.{Reads, read_until_quiet}
use service_port_scanner.Probes.Banner.Capped.{sent, read_until_quiet_lem}
use service_port_scanner.Probes.Identify.{
  ProbeOutcome, no_outcome, max_banner_bytes, first_match, identify,
}
use service_port_scanner.Common.{
  ◌≡◌, ◌≢◌, refl, ap, Bool-cases, sym, ◌∙◌, ◌⊎◌, Bool, true, false, not, ◌&&◌, ◌||◌, Bytes, none,
  some, Option-cases, inl, inr, List, [], ◌∷◌, ◌++◌, All, length, min, take, is_empty,
  if◌then◌else◌, arith,
}

module _ (json : JsonLib) (re : RegexLib) where
  -- What a match rule gives for a banner with the groups of its match.
  abbrev pub found : MatchRule json re → List Bytes → Bytes → ProbeOutcome
  found mr m banner = record no_outcome {
    matched = true;
    service = apply_template mr.service_template m;
    version = apply_template mr.version_template m;
    banner = take (min (length banner) 1024) banner;
  }

  abbrev pub Misses : Bytes → MatchRule json re → Type 0
  Misses banner mr = re.search banner mr.regex ≡ none

  pub data FirstMatch (ms : List (MatchRule json re)) (banner : Bytes) : ProbeOutcome → Type 0 where
    unknown : All (Misses banner) ms → FirstMatch ms banner no_outcome
    matching :
        (before : List (MatchRule json re)) (mr : MatchRule json re)
        (after : List (MatchRule json re)) (m : List Bytes)
        → ms ≡ before ++ mr ∷ after
        → All (Misses banner) before
        → re.search banner mr.regex ≡ some m
        → FirstMatch ms banner (found mr m banner)

  FirstMatch-cons :
      (mr : MatchRule json re) (ms : List (MatchRule json re)) (banner : Bytes) {out : ProbeOutcome}
      → Misses banner mr
      → FirstMatch ms banner out
      → FirstMatch (mr ∷ ms) banner out
  FirstMatch-cons mr ms banner h (FirstMatch.unknown all) = FirstMatch.unknown (h, all)
  FirstMatch-cons mr ms banner h (FirstMatch.matching before r after m e miss hit) =
      FirstMatch.matching (mr ∷ before) r after m (rw e refl) (h, miss) hit

  first_match-FirstMatch :
      (ms : List (MatchRule json re)) (banner : Bytes)
      → FirstMatch ms banner (first_match json re ms banner)
  unfolding first_match
  first_match-FirstMatch [] banner = FirstMatch.unknown tt
  first_match-FirstMatch (mr ∷ ms) banner = elim (Option-cases (re.search banner mr.regex)) [
    | inl e ↦
        rw (e, first_match) (FirstMatch-cons mr ms banner e (first_match-FirstMatch ms banner))
    | inr (m, e) ↦ rw (e, first_match) (FirstMatch.matching [] mr ms m refl tt e)
  ]

  -- What becomes of a peer: the payload is not written, nothing comes back, or, where the payload is
  -- empty or written and something comes back, the rules are tried on it, at most 8192 bytes of it.
  pub data Identifies (rule : ProbeRule json re) (wrote : Bool) (reads : Reads)
      : ProbeOutcome → Type 0 where
    not_written : rule.send_payload ≢ [] → wrote ≡ false → Identifies rule wrote reads no_outcome
    silent : sent reads ≡ [] → Identifies rule wrote reads no_outcome
    tried :
        {out : ProbeOutcome}
        → (rule.send_payload ≡ []) ⊎ (wrote ≡ true)
        → sent reads ≢ []
        → FirstMatch rule.matches (take max_banner_bytes (sent reads)) out
        → Identifies rule wrote reads out

  take_some-eq-[] : (s : Bytes) → is_empty (take max_banner_bytes s) ≡ true → s ≡ []
  take_some-eq-[] [] h = refl
  take_some-eq-[] (c ∷ s) h = cc

  -- What `identify` does with what was read.
  unfoldable after_read : ProbeRule json re → Bool → Bool × Bytes → ProbeOutcome
  after_read rule wrote (read, banner) =
      if not (is_empty rule.send_payload) && not wrote
      then no_outcome
      else if not read || is_empty banner
      then no_outcome
      else first_match json re rule.matches banner

  was_written :
      (payload : Bytes) (wrote : Bool)
      → (not (is_empty payload) && not wrote) ≡ false
      → (payload ≡ []) ⊎ (wrote ≡ true)
  was_written [] wrote h = inl refl
  was_written (c ∷ payload) true h = inr refl
  was_written (c ∷ payload) false h = cc

  after_read-written :
      (rule : ProbeRule json re) (wrote : Bool) (reads : Reads) (banner : Bytes)
      → take max_banner_bytes (sent reads) ≡ banner
      → (not (is_empty rule.send_payload) && not wrote) ≡ false
      → Identifies rule wrote reads (after_read rule wrote (not (is_empty banner), banner))
  unfolding after_read
  after_read-written rule wrote reads [] e w =
      rw w (Identifies.silent (take_some-eq-[] (sent reads) (rw e refl)))
  after_read-written rule wrote reads (c ∷ banner) e w = rw w (
      Identifies.tried (was_written rule.send_payload wrote w)
        (λ n. cc (e, ap (take max_banner_bytes) n))
        (rw e (first_match-FirstMatch rule.matches (c ∷ banner))))

  has_payload :
      (payload : Bytes) (wrote : Bool)
      → (not (is_empty payload) && not wrote) ≡ true
      → (payload ≢ []) × (wrote ≡ false)
  has_payload [] wrote h = cc
  has_payload (c ∷ payload) true h = cc
  has_payload (c ∷ payload) false h = (λ e. cc, refl)

  after_read-Identifies :
      (rule : ProbeRule json re) (wrote : Bool) (reads : Reads) (banner : Bytes)
      → take max_banner_bytes (sent reads) ≡ banner
      → Identifies rule wrote reads (after_read rule wrote (not (is_empty banner), banner))
  unfolding after_read
  after_read-Identifies rule wrote reads banner e =
      elim (Bool-cases (not (is_empty rule.send_payload) && not wrote)) [
        | inl w ↦
            let (p, w') = has_payload rule.send_payload wrote w in
            rw w (Identifies.not_written p w')
        | inr w ↦ after_read-written rule wrote reads banner e w
      ]

  identify-after_read :
      (rule : ProbeRule json re) (wrote : Bool) (reads : Reads)
      → identify json re rule wrote reads
        ≡ after_read rule wrote (read_until_quiet max_banner_bytes reads)
  unfolding identify after_read
  identify-after_read rule wrote reads = refl

  -- `identify` reports the first match rule of its list that matches the banner, the rules in front
  -- of it matching nothing, with both templates filled from the groups; it reports no match where
  -- the payload is not written, the peer sends nothing, or no rule matches. The banner is the front
  -- of what the peer sends, up to 8192 bytes.
  pub identify-Identifies :
      (rule : ProbeRule json re) (wrote : Bool) (reads : Reads)
      → Identifies rule wrote reads (identify json re rule wrote reads)
  identify-Identifies rule wrote reads =
      let read = read_until_quiet_lem max_banner_bytes reads (omega arith) in
      subst (Identifies rule wrote reads)
        (sym (identify-after_read rule wrote reads ∙ ap (after_read rule wrote) read))
        (after_read-Identifies rule wrote reads _ refl)
