-- ===== src/Fp/Ja4Server/RoundTrip.antt =====
-- `parse_server_hello` reads back what the wire format says, for every ServerHello that fits it.
use mathlib.Core.List.{append-nil, append_assoc}
use service_port_scanner.Common.Bits.{bit_or_join}
use service_port_scanner.Common.{
  ℕ, zero, suc, ◌+◌, ◌/◌, ◌%◌, ◌≤◌, ◌<◌, ◌≡◌, refl, ap, ◌∙◌, false, some, List, [], ◌∷◌, ◌++◌,
  Bytes, length, length-append, drop-length-append, get_elem?, ltb, arith, All,
}
use service_port_scanner.Fp.Ja4Server.Encode.{
  Extension, Hello, IsWire, u16_bytes, encode_extensions, encode, version_of, chosen_version, kinds,
  summary,
}
use service_port_scanner.Fp.Ja4Server.Safety.{read_extensions_end, read_extensions_round}
use service_port_scanner.Fp.Ja4Server.{
  Ja4SInput, empty_input, word, take_u8, take_u16, skip, word_at, push_extension, read_version,
  read_extensions, read_header, read_body, parse_server_hello,
}

word_u16 : (n : ℕ) → n < 65536 → word (n / 256) (n % 256) ≡ n
word_u16 n h = ground (arith, bit_or_join 8 (n / 256) (n % 256))

get_elem?-append {ℓ} :
    {A : Type ℓ} (xs ys : List A) (i k : ℕ)
    → i ≡ length xs + k
    → get_elem? (xs ++ ys) i ≡ get_elem? ys k
get_elem?-append [] ys i k e = let e' : i ≡ k = omega arith in rw e'
get_elem?-append (x ∷ xs) ys zero k e = absurd (omega arith)
get_elem?-append (x ∷ xs) ys (suc i) k e = get_elem?-append xs ys i k (omega arith)

word_at-append : (xs ys : Bytes) (i k : ℕ) → i ≡ length xs + k → word_at (xs ++ ys) i ≡ word_at ys k
unfolding word_at
word_at-append xs ys i k e =
    rw (get_elem?-append xs ys i k e, get_elem?-append xs ys (i + 1) (k + 1) (omega arith))

take_u16_bytes : (n : ℕ) (p : Bytes) → n < 65536 → take_u16 (u16_bytes n ++ p) ≡ some (n, p)
unfolding take_u16
take_u16_bytes n p h = rw (word_u16 n h)

skip_append : (xs p : Bytes) (n : ℕ) → length xs ≡ n → skip n (xs ++ p) ≡ some p
unfolding skip
skip_append xs p n e = rw (← e) (ground (arith, length-append xs p, drop-length-append xs p))

-- The bytes of an extension and what follows it.
abbrev framed : ℕ → Bytes → Bytes → Bytes
framed kind body rest = u16_bytes kind ++ (u16_bytes (length body) ++ (body ++ rest))

word_at-body :
    (pre rest : Bytes) (off kind a b : ℕ)
    → off ≡ length pre
    → word_at (pre ++ framed kind (a ∷ b ∷ []) rest) (off + 4) ≡ some (word a b)
word_at-body pre rest off kind a b e =
    word_at-append pre (framed kind (a ∷ b ∷ []) rest) (off + 4) 4 (omega arith)
    ∙ unfold word_at in refl

-- What one extension does to the version.
read_version-version_of :
    (pre body rest : Bytes) (off kind : ℕ) (input : Ja4SInput)
    → off ≡ length pre
    → read_version (pre ++ framed kind body rest) off kind (length body) input
      ≡ some (record input { negotiated_version = version_of input.negotiated_version kind body })
unfolding read_version
read_version-version_of pre [] rest off kind input e = ground arith
read_version-version_of pre (a ∷ []) rest off kind input e = ground arith
read_version-version_of pre (a ∷ b ∷ []) rest off kind input e =
    ground (arith, word_at-body pre rest off kind a b e)
read_version-version_of pre (a ∷ b ∷ c ∷ body) rest off kind input e = ground arith

push_extension_version :
    (kind : ℕ) (input : Ja4SInput)
    → (push_extension kind input).negotiated_version ≡ input.negotiated_version
unfolding push_extension
push_extension_version kind input = ground arith

-- What all extensions do to the input.
abbrev summed : Ja4SInput → List Extension → Ja4SInput
summed input es = record input {
  extension_types = input.extension_types ++ kinds es;
  negotiated_version = chosen_version input.negotiated_version es;
}

summed-cons :
    (input : Ja4SInput) (e : Extension) (es : List Extension)
    → summed
        (record (push_extension e.kind input) {
          negotiated_version = version_of input.negotiated_version e.kind e.body;
        })
        es
      ≡ summed input (e ∷ es)
unfolding push_extension
summed-cons input e es = ground (arith, append_assoc input.extension_types (e.kind ∷ []) (kinds es))

word_at-framed :
    (pre body rest : Bytes) (off kind : ℕ)
    → off ≡ length pre
    → kind < 65536
    → length body < 65536
    → (word_at (pre ++ framed kind body rest) off ≡ some kind)
      × (word_at (pre ++ framed kind body rest) (off + 2) ≡ some (length body))
word_at-framed pre body rest off kind e k l = (
  word_at-append pre (framed kind body rest) off 0 (omega arith)
      ∙ unfold word_at in rw (word_u16 kind k),
  word_at-append pre (framed kind body rest) (off + 2) 2 (omega arith)
      ∙ unfold word_at in rw (word_u16 (length body) l),
)

read_extensions-framed :
    (fuel : ℕ) (pre body rest : Bytes) (total off kind : ℕ) (input : Ja4SInput)
    → off ≡ length pre
    → kind < 65536
    → length body < 65536
    → off + 4 + length body ≤ total
    → read_extensions (suc fuel) (pre ++ framed kind body rest) total off input
      ≡ read_extensions fuel
          (pre ++ framed kind body rest)
          total
          (off + 4 + length body)
          (record (push_extension kind input) {
            negotiated_version = version_of input.negotiated_version kind body;
          })
read_extensions-framed fuel pre body rest total off kind input e k l t =
    let (et, el) = word_at-framed pre body rest off kind e k l in
    read_extensions_round fuel _ total off kind (length body) input _ et el t (
      read_version-version_of pre body rest off kind (push_extension kind input) e
      ∙ rw (push_extension_version kind input))

-- The bytes so far and the extension, as the bytes in front of the next one.
framed-append :
    (pre body rest : Bytes) (kind : ℕ)
    → pre ++ framed kind body rest ≡ (pre ++ framed kind body []) ++ rest
framed-append pre body rest kind = simp (append_assoc, append-nil)

read_extensions-encode :
    (es : List Extension) (fuel : ℕ) (pre rest : Bytes) (total off : ℕ) (input : Ja4SInput)
    → All (λ e. e.kind < 65536) es
    → length (encode_extensions es) < 65536
    → off ≡ length pre
    → total ≡ off + length (encode_extensions es)
    → total < off + fuel
    → read_extensions fuel (pre ++ (encode_extensions es ++ rest)) total off input
      ≡ some (summed input es)
read_extensions-encode es zero pre rest total off input ok l o t f = absurd (omega arith)
read_extensions-encode [] (suc fuel) pre rest total off input ok l o t f =
    read_extensions_end fuel _ total off input (omega arith)
    ∙ ground (arith, append-nil input.extension_types)
read_extensions-encode (e ∷ es) (suc fuel) pre rest total off input ok l o t f =
    let size = length-append e.body (encode_extensions es) in
    let tail = encode_extensions es ++ rest in
    let len = length-append pre (framed e.kind e.body []) in
    rw (append_assoc e.body (encode_extensions es) rest) (
      read_extensions-framed fuel pre e.body tail total off e.kind input o ok.0
        (omega (arith, size)) (omega (arith, size))
      ∙ rw (framed-append pre e.body tail e.kind) (
          read_extensions-encode es fuel (pre ++ framed e.kind e.body []) rest total
            (off + 4 + length e.body) _ ok.1 (omega (arith, size))
            (omega (arith, len, length-append e.body [])) (omega (arith, size)) (omega arith)
          ∙ ap some (summed-cons input e es)))

take_u8_cons : (b : ℕ) (p : Bytes) → take_u8 (b ∷ p) ≡ some (b, p)
unfolding take_u8
take_u8_cons b p = refl

-- The fields one after the other, with `rest` behind them.
abbrev behind_header : Hello → Bytes → Bytes
behind_header h rest =
    u16_bytes h.legacy_version
    ++ (h.random
        ++ (length h.session_id
            ∷ (h.session_id
                ++ (u16_bytes h.cipher_id
                    ++ (h.compression
                        ∷ (u16_bytes (length (encode_extensions h.extensions)) ++ rest))))))

read_header-behind_header :
    (h : Hello) (rest : Bytes)
    → IsWire h
    → length (encode_extensions h.extensions) ≤ length rest
    → read_header (behind_header h rest)
      ≡ some (
        record empty_input { legacy_version = h.legacy_version; cipher_id = h.cipher_id },
        length (encode_extensions h.extensions),
        rest,
      )
unfolding read_header
read_header-behind_header h rest w l =
    let size = length (encode_extensions h.extensions) in
    rw
      (
        word_u16 h.legacy_version w.legacy_fits,
        skip_append h.random
            (length h.session_id
              ∷ (h.session_id
                  ++ (u16_bytes h.cipher_id ++ (h.compression ∷ (u16_bytes size ++ rest)))))
            32 w.random_length,
        skip_append h.session_id
            (u16_bytes h.cipher_id ++ (h.compression ∷ (u16_bytes size ++ rest)))
            (length h.session_id) refl,
        word_u16 h.cipher_id w.cipher_fits,
        word_u16 size w.extensions_fit,
      )
      (ground arith)

encode-behind_header :
    (h : Hello) (trailing : Bytes)
    → encode h ++ trailing ≡ behind_header h (encode_extensions h.extensions ++ trailing)
encode-behind_header h trailing = simp append_assoc

length-behind_header : (h : Hello) (rest : Bytes) → IsWire h → 40 ≤ length (behind_header h rest)
length-behind_header h rest w = omega (
  arith,
  w.random_length,
  length-append h.random (
      length h.session_id
      ∷ (h.session_id
          ++ (u16_bytes h.cipher_id
              ++ (h.compression ∷ (u16_bytes (length (encode_extensions h.extensions)) ++ rest))))),
  length-append h.session_id (
      u16_bytes h.cipher_id
      ++ (h.compression ∷ (u16_bytes (length (encode_extensions h.extensions)) ++ rest))),
)

parse_server_hello-long :
    (p : Bytes) → 40 ≤ length p → parse_server_hello (some p) ≡ read_body (read_header p)
unfolding parse_server_hello
parse_server_hello-long p l = let short : ltb (length p) 40 ≡ false = ground arith in rw short

read_body-some :
    (input : Ja4SInput) (size : ℕ) (p : Bytes)
    → read_body (some (input, size, p)) ≡ read_extensions (suc size) p size 0 input
unfolding read_body
read_body-some input size p = refl

-- Every ServerHello whose parts fit their fields is read back from its bytes, whatever bytes
-- follow: the version, the cipher, the kinds of the extensions in order without the reserved
-- ones, and the version that supported_versions chooses.
pub parse_server_hello-encode :
    (h : Hello) (trailing : Bytes)
    → IsWire h
    → parse_server_hello (some (encode h ++ trailing)) ≡ some (summary h)
parse_server_hello-encode h trailing w =
    let es = encode_extensions h.extensions in
    let rest = es ++ trailing in
    let size = length-append es trailing in
    let input = record empty_input { legacy_version = h.legacy_version; cipher_id = h.cipher_id } in
    let read : read_extensions (suc (length es)) rest (length es) 0 input ≡ some (summary h) =
      read_extensions-encode h.extensions (suc (length es)) [] trailing (length es) 0 input
        w.kinds_fit w.extensions_fit refl (omega arith) (omega arith) in
    ap (λ p. parse_server_hello (some p)) (encode-behind_header h trailing)
    ∙ parse_server_hello-long (behind_header h rest) (length-behind_header h rest w)
    ∙ ap read_body (read_header-behind_header h rest w (omega (arith, size)))
    ∙ read_body-some input (length es) rest
    ∙ read
