-- ===== src/Report/Automaton.antt =====
-- Readers of the exports as automata on bytes, which go through a text from one place to another.
use service_port_scanner.Report.Stream.{out}
use service_port_scanner.Common.{
  ℕ, ◌≡◌, refl, ◌∙◌, Bool, true, false, Bytes, Option, some, List, [], ◌∷◌, ◌++◌, ◌>>=◌,
  if◌then◌else◌, Option-cases, inl, inr,
}

module _ {P : Type 0} (step : P → ℕ → Option P) where
  unfoldable pub read : P → Bytes → Option P
  read p [] = some p
  read p (c ∷ s) = step p c >>= λ q. read q s

  read-append : (p : P) (xs ys : Bytes) → read p (xs ++ ys) ≡ (read p xs >>= λ q. read q ys)
  unfolding read
  read-append p [] ys = refl
  read-append p (x ∷ xs) ys = elim (Option-cases (step p x)) [
    | inl e ↦ rw (e, read) refl
    | inr (q, e) ↦ rw (e, read) (read-append q xs ys)
  ]

  -- The reader goes through a text.
  pub data Reads (p : P) (xs : Bytes) (q : P) : Type 0 where
    reads : read p xs ≡ some q → Reads p xs q

  pub Reads-append :
      {p q r : P} {xs ys : Bytes} → Reads p xs q → Reads q ys r → Reads p (xs ++ ys) r
  Reads-append {p} {q} {r} {xs} {ys} (reads h) (reads k) = reads (read-append p xs ys ∙ rw h k)

  -- A byte that leaves the place, and the text behind it.
  pub Reads-cons :
      {p q r : P} {c : ℕ} {s : Bytes} → step p c ≡ some q → Reads q s r → Reads p (c ∷ s) r
  unfolding read
  Reads-cons h (reads k) = reads (rw h k)

  pub Reads-nil : {p : P} → Reads p [] p
  unfolding read
  Reads-nil = reads refl

  -- One of two texts.
  pub Reads-either :
      {p q : P} (b : Bool) (xs ys : Bytes)
      → Reads p xs q
      → Reads p ys q
      → Reads p (if b then xs else ys) q
  Reads-either true xs ys h k = h
  Reads-either false xs ys h k = k

-- The reader goes through texts, one behind the other.
infixr 4 ◌▸◌
pub data ReadsAll {P : Type 0} (step : P → ℕ → Option P) : P → List Bytes → P → Type 0 where
  finish : {p : P} → ReadsAll step p [] p
  ◌▸◌ :
      {p q r : P} {x : Bytes} {xs : List Bytes}
      → Reads step p x q
      → ReadsAll step q xs r
      → ReadsAll step p (x ∷ xs) r

-- A line of three texts and its end.
pub data Line {P : Type 0} (step : P → ℕ → Option P) (p : P) (front value back end : Bytes) (q : P)
    : Type 0 where
  line_of :
      {p1 p2 p3 : P}
      → Reads step p front p1
      → Reads step p1 value p2
      → Reads step p2 back p3
      → Reads step p3 end q
      → Line step p front value back end q

-- A value between two texts.
pub data Between {P : Type 0} (step : P → ℕ → Option P) (p : P) (front value back : Bytes) (q : P)
    : Type 0 where
  between :
      {p1 p2 : P}
      → Reads step p front p1
      → Reads step p1 value p2
      → Reads step p2 back q
      → Between step p front value back q

module _ {P : Type 0} {step : P → ℕ → Option P} where
  pub Reads-out : (xs : List Bytes) {p q : P} → ReadsAll step p xs q → Reads step p (out xs) q
  unfolding out
  Reads-out [] finish = Reads-nil step
  Reads-out (x ∷ xs) (h ▸ k) = Reads-append step h (Reads-out xs k)

  infixr 4 ◌▹◌
  pub ◌▹◌ :
      {p q r : P} {front value back end : Bytes} {xs : List Bytes}
      → Line step p front value back end q
      → ReadsAll step q xs r
      → ReadsAll step p (front ∷ value ∷ back ∷ end ∷ xs) r
  line_of f v b e ▹ k = f ▸ v ▸ b ▸ e ▸ k

  infixr 4 ◌▻◌
  pub ◌▻◌ :
      {p q r : P} {front value back : Bytes} {xs : List Bytes}
      → Between step p front value back q
      → ReadsAll step q xs r
      → ReadsAll step p (front ∷ value ∷ back ∷ xs) r
  between f v b ▻ k = f ▸ v ▸ b ▸ k
