-- ===== src/Fp/Ja4Server/Safety.antt =====
-- No read of `parse_server_hello` is out of bounds, and its loop ends.
use service_port_scanner.Common.{
  ℕ, zero, suc, ◌+◌, ◌≤◌, ◌<◌, ◌≡◌, refl, Option, none, some, List, [], ◌∷◌, Bytes, length,
  get_elem?, arith, leb, ltb, Bool-cases, inl, inr, >>=-eq-some, guard, ◌==◌, ◌&&◌, ◌>>◌, ◌∙◌,
}
use service_port_scanner.Fp.Ja4Server.{
  Ja4SInput, word, word_at, push_extension, read_version, read_extensions, read_header, read_body,
  parse_server_hello, take_u8, take_u16, skip, empty_input,
}

get_elem?-lt {ℓ} :
    {A : Type ℓ} (xs : List A) (i : ℕ) → i < length xs → (a : A) × (get_elem? xs i ≡ some a)
get_elem?-lt [] i h = absurd (omega arith)
get_elem?-lt (x ∷ xs) zero h = (x, refl)
get_elem?-lt (x ∷ xs) (suc i) h = get_elem?-lt xs i (omega arith)

word_at-lt : (p : Bytes) (i : ℕ) → i + 2 ≤ length p → (w : ℕ) × (word_at p i ≡ some w)
unfolding word_at
word_at-lt p i h =
    let (a, e) = get_elem?-lt p i (omega arith) in
    let (b, f) = get_elem?-lt p (i + 1) (omega arith) in (word a b, rw (e, f) refl)

read_version_total :
    (p : Bytes) (off et el : ℕ) (input : Ja4SInput)
    → off + 4 + el ≤ length p
    → (r : Ja4SInput) × (read_version p off et el input ≡ some r)
unfolding read_version
read_version_total p off et el input h = elim (Bool-cases (et == 0x002b && el == 2)) [
  | inl e ↦
      let (v, f) = word_at-lt p (off + 4) (ground arith) in
      (record input { negotiated_version = v }, rw (e, f) refl)
  | inr e ↦ (input, rw e refl)
]

-- The three ways of one round.
pub read_extensions_end :
    (fuel : ℕ) (p : Bytes) (ext_total off : ℕ) (input : Ja4SInput)
    → ext_total < off + 4
    → read_extensions (suc fuel) p ext_total off input ≡ some input
unfolding read_extensions
read_extensions_end fuel p ext_total off input h = ground arith

read_extensions_cut :
    (fuel : ℕ) (p : Bytes) (ext_total off et el : ℕ) (input : Ja4SInput)
    → off + 4 ≤ ext_total
    → word_at p off ≡ some et
    → word_at p (off + 2) ≡ some el
    → ext_total < off + 4 + el
    → read_extensions (suc fuel) p ext_total off input ≡ some input
unfolding read_extensions
read_extensions_cut fuel p ext_total off et el input h e f l = ground arith

pub read_extensions_round :
    (fuel : ℕ) (p : Bytes) (ext_total off et el : ℕ) (input input' : Ja4SInput)
    → word_at p off ≡ some et
    → word_at p (off + 2) ≡ some el
    → off + 4 + el ≤ ext_total
    → read_version p off et el (push_extension et input) ≡ some input'
    → read_extensions (suc fuel) p ext_total off input
      ≡ read_extensions fuel p ext_total (off + 4 + el) input'
unfolding read_extensions
read_extensions_round fuel p ext_total off et el input input' e f l v = ground arith

read_extensions_total :
    (fuel : ℕ) (p : Bytes) (ext_total off : ℕ) (input : Ja4SInput)
    → ext_total ≤ length p
    → off ≤ ext_total
    → ext_total < off + fuel
    → (r : Ja4SInput) × (read_extensions fuel p ext_total off input ≡ some r)
read_extensions_total zero p ext_total off input h l f = absurd (omega arith)
read_extensions_total (suc fuel) p ext_total off input h l f =
    elim (Bool-cases (leb (off + 4) ext_total)) [
      | inr e ↦ (input, read_extensions_end fuel p ext_total off input (ground arith))
      | inl e ↦
          let (et, e1) = word_at-lt p off (ground arith) in
          let (el, e2) = word_at-lt p (off + 2) (ground arith) in
          elim (Bool-cases (ltb ext_total (off + 4 + el))) [
            | inl e3 ↦ (
              input,
              read_extensions_cut fuel p ext_total off et el input (ground arith) e1 e2
                  (ground arith),
            )
            | inr e3 ↦
                let (input', e4) =
                  read_version_total p off et el (push_extension et input) (ground arith) in
                let (r, e5) =
                  read_extensions_total fuel p ext_total (off + 4 + el) input' h (ground arith)
                    (omega arith) in
                (
                  r,
                  read_extensions_round fuel p ext_total off et el input input' e1 e2 (ground arith)
                        e4
                      ∙ e5,
                )
          ]
    ]

checked_fits :
    (input input' : Ja4SInput) (t t' : ℕ) (p p' : Bytes)
    → ◌>>◌ {B = Ja4SInput × ℕ × Bytes} (guard (leb t (length p))) (some (input, t, p))
      ≡ some (input', t', p')
    → t' ≤ length p'
checked_fits input input' t t' p p' h = ground arith

-- The announced length is checked before the extensions are read.
read_header_fits :
    (p : Bytes) {input : Ja4SInput} {ext_total : ℕ} {rest : Bytes}
    → read_header p ≡ some (input, ext_total, rest)
    → ext_total ≤ length rest
unfolding read_header
read_header_fits p h =
    let (r1, e1, h1) = >>=-eq-some (take_u16 p) _ h in
    let (r2, e2, h2) = >>=-eq-some (skip 32 r1.1) _ h1 in
    let (r3, e3, h3) = >>=-eq-some (take_u8 r2) _ h2 in
    let (r4, e4, h4) = >>=-eq-some (skip r3.0 r3.1) _ h3 in
    let (r5, e5, h5) = >>=-eq-some (take_u16 r4) _ h4 in
    let (r6, e6, h6) = >>=-eq-some (take_u8 r5.1) _ h5 in
    let (r7, e7, h7) = >>=-eq-some (take_u16 r6.1) _ h6 in checked_fits _ _ _ _ _ _ h7

read_body_total :
    (header : Option (Ja4SInput × ℕ × Bytes))
    → ((input : Ja4SInput) (ext_total : ℕ) (p : Bytes)
        → header ≡ some (input, ext_total, p)
        → ext_total ≤ length p)
    → (r : Ja4SInput) × (read_body header ≡ some r)
unfolding read_body
read_body_total none h = (empty_input, refl)
read_body_total (some (input, ext_total, p)) h =
    read_extensions_total (suc ext_total) p ext_total 0 input (h input ext_total p refl)
      (omega arith) (omega arith)

-- Whatever bytes a server sends, or none at all, `parse_server_hello` returns: every read lies
-- within the bytes, and the loop ends after at most one round more than `ext_total`.
pub parse_server_hello_total :
    (p : Option Bytes) → (r : Ja4SInput) × (parse_server_hello p ≡ some r)
unfolding parse_server_hello
parse_server_hello_total none = (empty_input, refl)
parse_server_hello_total (some p) = elim (Bool-cases (ltb (length p) 40)) [
  | inl e ↦ (empty_input, rw (parse_server_hello, e))
  | inr e ↦
      let (r, f) = read_body_total (read_header p) (λ input ext_total rest. read_header_fits p) in
      (r, rw (parse_server_hello, e) f)
]
