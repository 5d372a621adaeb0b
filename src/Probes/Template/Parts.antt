-- ===== src/Probes/Template/Parts.antt =====
-- A template as literal bytes and references, and the text it stands for.
use service_port_scanner.Common.{
  ℕ, ◌+◌, ◌-◌, ◌<◌, ◌≡◌, refl, ap, ◌∙◌, false, Bytes, List, [], ◌∷◌, ◌++◌, is_digit, arith,
}
use service_port_scanner.Probes.Template.{group, apply_template}

pub data Part : Type 0 where
  literal : ℕ → Part
  reference : ℕ → Part

abbrev pub template : List Part → Bytes
template [] = []
template (Part.literal c ∷ ps) = c ∷ template ps
template (Part.reference i ∷ ps) = b'$' ∷ (b'0' + i) ∷ template ps

abbrev pub rendered : List Part → List Bytes → Bytes
rendered [] m = []
rendered (Part.literal c ∷ ps) m = c ∷ rendered ps m
rendered (Part.reference i ∷ ps) m = group m i ++ rendered ps m

abbrev pub NoDigit : Bytes → Type 0
NoDigit [] = Unit
NoDigit (c ∷ s) = is_digit c ≡ false

-- References have one digit, and a literal dollar sign has no digit behind it.
abbrev pub AreParts : List Part → Type 0
AreParts [] = Unit
AreParts (Part.literal c ∷ ps) = (c ≡ b'$' → NoDigit (template ps)) × AreParts ps
AreParts (Part.reference i ∷ ps) = (i < 10) × AreParts ps

apply_template-cons :
    (c : ℕ) (s : Bytes) (m : List Bytes)
    → (c ≡ b'$' → NoDigit s)
    → apply_template (c ∷ s) m ≡ c ∷ apply_template s m
unfolding apply_template
apply_template-cons c [] m h = refl
apply_template-cons c (d ∷ s) m h = ground arith

apply_template-reference :
    (i : ℕ) (s : Bytes) (m : List Bytes)
    → i < 10
    → apply_template (b'$' ∷ (b'0' + i) ∷ s) m ≡ group m i ++ apply_template s m
unfolding apply_template
apply_template-reference i s m h = let e : b'0' + i - b'0' ≡ i = omega arith in ground arith

-- A template is replaced part by part: a literal byte stays, and a reference becomes the group with
-- its number, or nothing where the match has no such group.
pub apply_template-template :
    (ps : List Part) (m : List Bytes) → AreParts ps → apply_template (template ps) m ≡ rendered ps m
unfolding apply_template
apply_template-template [] m h = refl
apply_template-template (Part.literal c ∷ ps) m (h, hs) =
    apply_template-cons c (template ps) m h ∙ ap (λ t. c ∷ t) (apply_template-template ps m hs)
apply_template-template (Part.reference i ∷ ps) m (h, hs) =
    apply_template-reference i (template ps) m h
    ∙ ap (λ t. group m i ++ t) (apply_template-template ps m hs)
