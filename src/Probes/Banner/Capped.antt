-- ===== src/Probes/Banner/Capped.antt =====
-- The banner is the front of what the peer sent, up to the cap.
use service_port_scanner.Common.{
  ℕ, ◌+◌, ◌-◌, ◌≤◌, ◌<◌, ◌≡◌, zero, suc, refl, ap, sym, ◌∙◌, min, Bool, true, false, not, Bytes, [],
  ◌∷◌, ◌++◌, append-nil, append_assoc, length, length-append, length-take, take, is_empty,
  Bool-cases, inl, inr, leb, ◌==◌, arith,
}
use service_port_scanner.Probes.Banner.{Reads, room, read_op, read_until_quiet}

-- All that is received before an error, the end of the stream or the timer.
abbrev pub sent : Reads → Bytes
sent Reads.timed_out = []
sent Reads.failed = []
sent (Reads.received [] next) = []
sent (Reads.received (c ∷ buf) next) = (c ∷ buf) ++ sent next

take-append : (k : ℕ) (xs ys : Bytes) → take k (xs ++ ys) ≡ take k xs ++ take (k - length xs) ys
take-append zero [] ys = refl
take-append zero (x ∷ xs) ys = let e : 0 - suc (length xs) ≡ 0 = omega arith in rw e refl
take-append (suc k) [] ys = let e : suc k - 0 ≡ suc k = omega arith in rw e refl
take-append (suc k) (x ∷ xs) ys =
    let e : suc k - suc (length xs) ≡ k - length xs = omega arith in
    rw e (ap (λ t. x ∷ t) (take-append k xs ys))

take_all : (k : ℕ) (xs : Bytes) → length xs ≤ k → take k xs ≡ xs
take_all zero [] h = refl
take_all zero (x ∷ xs) h = absurd (omega arith)
take_all (suc k) [] h = refl
take_all (suc k) (x ∷ xs) h = ap (λ t. x ∷ t) (take_all k xs (omega arith))

take_none : (k : ℕ) → take {A = ℕ} k [] ≡ []
take_none zero = refl
take_none (suc k) = refl

-- What is left of the cap behind a banner.
abbrev front : ℕ → Bytes → Bytes → Bytes
front cap banner more = banner ++ take (cap - length banner) more

-- A read that fits is appended whole, and the rest of the cap is for what comes after it.
front_whole :
    (cap : ℕ) (banner buf more : Bytes)
    → length banner + length buf ≤ cap
    → front cap (banner ++ buf) more ≡ front cap banner (buf ++ more)
front_whole cap banner buf more h =
    let left : cap - length banner - length buf ≡ cap - length (banner ++ buf) =
      omega (arith, length-append banner buf) in
    append_assoc banner buf _
    ∙ ap (λ t. banner ++ t)
        (sym (
          take-append (cap - length banner) buf more
          ∙ rw (take_all (cap - length banner) buf (omega arith), left) refl))

-- A read that fills the cap ends the banner.
front_full :
    (cap : ℕ) (banner buf more : Bytes)
    → cap ≤ length banner + length buf
    → front cap banner (buf ++ more) ≡ banner ++ take (cap - length banner) buf
front_full cap banner buf more h =
    let left : cap - length banner - length buf ≡ 0 = omega arith in
    ap (λ t. banner ++ t)
      (take-append (cap - length banner) buf more
        ∙ rw left (append-nil (take (cap - length banner) buf)))

outcome : Bytes → Bool × Bytes
outcome banner = (not (is_empty banner), banner)

read_op_ended : (cap : ℕ) (banner : Bytes) → outcome banner ≡ outcome (front cap banner [])
read_op_ended cap banner = rw (take_none (cap - length banner), append-nil banner) refl

length-full :
    (cap : ℕ) (banner buf : Bytes)
    → length banner < cap
    → cap ≤ length banner + length buf
    → length (banner ++ take (cap - length banner) buf) ≡ cap
length-full cap banner buf h f = omega (
  arith,
  length-append banner (take (cap - length banner) buf),
  length-take (cap - length banner) buf,
)

nonempty_outcome : (s : Bytes) → 0 < length s → outcome s ≡ (true, s)
unfolding outcome
nonempty_outcome [] h = absurd (omega arith)
nonempty_outcome (c ∷ s) h = refl

-- One read, where the banner is not full: the two ways on.
read_op_full :
    (cap : ℕ) (banner : Bytes) (buf : Bytes) (next : Reads)
    → length banner < cap
    → 0 < length buf
    → cap ≤ length banner + length buf
    → read_op cap banner (Reads.received buf next)
      ≡ (true, banner ++ take (cap - length banner) buf)
unfolding read_op
read_op_full cap banner buf next h b f =
    let size : min (length buf) (room cap banner) ≡ cap - length banner = ground arith in
    let full : leb cap (length (banner ++ take (cap - length banner) buf)) ≡ true =
      ground (arith, length-full cap banner buf h f) in
    let some_bytes : (length buf == 0) ≡ false = ground arith in
    let some_room : (room cap banner == 0) ≡ false = ground arith in
    rw (size, full, some_bytes, some_room) refl

read_op_on :
    (cap : ℕ) (banner : Bytes) (buf : Bytes) (next : Reads)
    → length banner < cap
    → 0 < length buf
    → length banner + length buf < cap
    → read_op cap banner (Reads.received buf next) ≡ read_op cap (banner ++ buf) next
unfolding read_op
read_op_on cap banner buf next h b f =
    let size : min (length buf) (room cap banner) ≡ length buf = ground arith in
    let whole = take_all (length buf) buf (omega arith) in
    let on : leb cap (length (banner ++ buf)) ≡ false = ground (arith, length-append banner buf) in
    let some_bytes : (length buf == 0) ≡ false = ground arith in
    let some_room : (room cap banner == 0) ≡ false = ground arith in
    rw (size, whole, on, some_bytes, some_room) refl

read_op-outcome :
    (cap : ℕ) (banner : Bytes) (reads : Reads)
    → length banner < cap
    → read_op cap banner reads ≡ outcome (front cap banner (sent reads))
unfolding read_op outcome
read_op-outcome cap banner Reads.timed_out h = read_op_ended cap banner
read_op-outcome cap banner Reads.failed h = read_op_ended cap banner
read_op-outcome cap banner (Reads.received [] next) h = read_op_ended cap banner
read_op-outcome cap banner (Reads.received (c ∷ buf) next) h =
    elim (Bool-cases (leb cap (length banner + length (c ∷ buf)))) [
      | inl f ↦
          let f' : cap ≤ length banner + length (c ∷ buf) = ground arith in
          read_op_full cap banner (c ∷ buf) next h (omega arith) f'
          ∙ sym (nonempty_outcome _ (omega (arith, length-full cap banner (c ∷ buf) h f')))
          ∙ ap outcome (sym (front_full cap banner (c ∷ buf) (sent next) f'))
      | inr f ↦
          let f' : length banner + length (c ∷ buf) < cap = ground arith in
          read_op_on cap banner (c ∷ buf) next h (omega arith) f'
          ∙ read_op-outcome cap (banner ++ c ∷ buf) next
              (omega (arith, length-append banner (c ∷ buf)))
          ∙ ap outcome (front_whole cap banner (c ∷ buf) (sent next) (omega arith))
    ]

-- Under a cap above 0 the banner is the front of what the peer sends until it stops, at most as
-- long as the cap, and the result is true exactly where something came, whatever the sizes of the
-- reads are and however the reading ends.
pub read_until_quiet_lem :
    (cap : ℕ) (reads : Reads)
    → 0 < cap
    → read_until_quiet cap reads ≡ (not (is_empty (take cap (sent reads))), take cap (sent reads))
unfolding read_until_quiet outcome
read_until_quiet_lem cap reads h =
    let all_of_it : cap - 0 ≡ cap = omega arith in
    read_op-outcome cap [] reads h ∙ rw all_of_it refl
