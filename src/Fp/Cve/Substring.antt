-- ===== src/Fp/Cve/Substring.antt =====
-- `contains` finds exactly the texts that occur.
use service_port_scanner.Fp.Cve.{starts_with, contains}
use service_port_scanner.Common.{
  ◌≡◌, refl, ap, ◌↔◌, true, Bytes, [], ◌∷◌, ◌++◌, inl, inr, Bool-cases, arith,
}

-- Some text stands in front of the prefix, and some behind it.
abbrev pub Occurs : Bytes → Bytes → Type 0
Occurs prefix s = (before : Bytes) × (after : Bytes) × (s ≡ before ++ (prefix ++ after))

starts_with_sound :
    (s prefix : Bytes) → starts_with s prefix ≡ true → (after : Bytes) × (s ≡ prefix ++ after)
starts_with_sound s [] h = (s, refl)
starts_with_sound [] (p ∷ prefix) h = cc
starts_with_sound (c ∷ s) (p ∷ prefix) h =
    let head : c ≡ p = ground arith in
    let tail : starts_with s prefix ≡ true = ground arith in
    let (after, e) = starts_with_sound s prefix tail in (after, rw (head, e) refl)

starts_with-append : (prefix after : Bytes) → starts_with (prefix ++ after) prefix ≡ true
starts_with-append [] after = refl
starts_with-append (p ∷ prefix) after = ground (arith, starts_with-append prefix after)

contains_sound : (s prefix : Bytes) → contains s prefix ≡ true → Occurs prefix s
contains_sound [] prefix h = let (after, e) = starts_with_sound [] prefix h in ([], after, e)
contains_sound (c ∷ s) prefix h = elim (Bool-cases (starts_with (c ∷ s) prefix)) [
  | inl here ↦ let (after, e) = starts_with_sound (c ∷ s) prefix here in ([], after, e)
  | inr other ↦
      let later : contains s prefix ≡ true = ground arith in
      let (before, after, e) = contains_sound s prefix later in
      (c ∷ before, after, ap (λ t. c ∷ t) e)
]

starts_with-contains : (s prefix : Bytes) → starts_with s prefix ≡ true → contains s prefix ≡ true
starts_with-contains [] prefix h = h
starts_with-contains (c ∷ s) prefix h = ground arith

contains-append :
    (before prefix after : Bytes) → contains (before ++ (prefix ++ after)) prefix ≡ true
contains-append [] prefix after =
    starts_with-contains (prefix ++ after) prefix (starts_with-append prefix after)
contains-append (c ∷ before) prefix after = ground (arith, contains-append before prefix after)

pub contains_iff : (s prefix : Bytes) → (contains s prefix ≡ true) ↔ Occurs prefix s
contains_iff s prefix =
    (contains_sound s prefix, λ (before, after, e). rw e (contains-append before prefix after))
