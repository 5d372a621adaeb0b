-- ===== src/Fp/Epss/FirstRow.antt =====
-- What the database says of a CVE: the first row of the text for it.
use mathlib.Core.Option.{some-injective}
use service_port_scanner.Core.Floats.{FloatLib}
use service_port_scanner.Common.Split.{Lacks}
use service_port_scanner.Fp.Epss.{
  to_upper, trim, Entry, no_entry, read_line, find, emplace, add_line, parse_loop, parse, lookup,
}
use service_port_scanner.Common.{
  ◌≡◌, ◌≢◌, refl, sym, ap, ◌∙◌, ◌⊎◌, inl, inr, Bytes, bytes_eq, bytes_eq_iff, bytes_eq_refl, Option,
  none, some, Option-cases, Bool-cases, List, [], ◌∷◌, ◌++◌, append-nil, append_assoc, All, ◌>>=◌,
  arith,
}

-- Lines with a line end between two.
abbrev pub join_lines : List Bytes → Bytes
join_lines [] = []
join_lines (line ∷ []) = line
join_lines (line ∷ next ∷ lines) = line ++ 10 ∷ join_lines (next ∷ lines)

module _ (fl : FloatLib) (strtod : Bytes → Option fl.Double) where
  -- The row of a line, if it is one.
  abbrev pub row : Bytes → Option (Bytes × Entry fl strtod)
  row line = read_line fl strtod (trim line)

  -- The line is no row for this identifier.
  abbrev pub IsOther : Bytes → Bytes → Type 0
  IsOther key line = (row line >>= λ r. some r.0) ≢ some key

  pub data FirstRow (key : Bytes) (lines : List Bytes) : Entry fl strtod → Type 0 where
    absent : All (IsOther key) lines → FirstRow key lines (no_entry fl strtod)
    present :
        (before : List Bytes) (line : Bytes) (after : List Bytes) (e : Entry fl strtod)
        → lines ≡ before ++ line ∷ after
        → All (IsOther key) before
        → row line ≡ some (key, e)
        → FirstRow key lines e

  find-append :
      (key : Bytes) (map_ : List (Bytes × Entry fl strtod)) (e : Entry fl strtod)
      → find fl strtod key map_ ≡ none
      → find fl strtod key (map_ ++ (key, e) ∷ []) ≡ some e
  unfolding find
  find-append key [] e h = rw (bytes_eq_refl key) refl
  find-append key ((k, old) ∷ map_) e h = elim (Bool-cases (bytes_eq k key)) [
    | inl same ↦ absurd (ground arith)
    | inr other ↦
        let later : find fl strtod key map_ ≡ none = ground arith in
        rw other (find-append key map_ e later)
  ]

  find-append_other :
      (key k : Bytes) (map_ : List (Bytes × Entry fl strtod)) (e : Entry fl strtod)
      → k ≢ key
      → find fl strtod key (map_ ++ (k, e) ∷ []) ≡ find fl strtod key map_
  unfolding find
  find-append_other key k [] e h = elim (Bool-cases (bytes_eq k key)) [
    | inl same ↦ absurd (h ((bytes_eq_iff k key).0 same))
    | inr other ↦ rw other refl
  ]
  find-append_other key k ((k', old) ∷ map_) e h = rw (find-append_other key k map_ e h) refl

  find-append_known :
      (key k : Bytes) (map_ : List (Bytes × Entry fl strtod)) (e old : Entry fl strtod)
      → find fl strtod key map_ ≡ some old
      → find fl strtod key (map_ ++ (k, e) ∷ []) ≡ some old
  unfolding find
  find-append_known key k [] e old h = cc
  find-append_known key k ((k', other) ∷ map_) e old h = elim (Bool-cases (bytes_eq k' key)) [
    | inl same ↦ rw same (ground arith)
    | inr differs ↦
        let later : find fl strtod key map_ ≡ some old = ground arith in
        rw differs (find-append_known key k map_ e old later)
  ]

  emplace_new :
      (k : Bytes) (e : Entry fl strtod) (map_ : List (Bytes × Entry fl strtod))
      → find fl strtod k map_ ≡ none
      → emplace fl strtod k e map_ ≡ map_ ++ (k, e) ∷ []
  unfolding emplace
  emplace_new k e map_ h = rw (h, emplace) refl

  emplace_old :
      (k : Bytes) (e old : Entry fl strtod) (map_ : List (Bytes × Entry fl strtod))
      → find fl strtod k map_ ≡ some old
      → emplace fl strtod k e map_ ≡ map_
  unfolding emplace
  emplace_old k e old map_ h = rw (h, emplace) refl

  add_line-none :
      (line : Bytes) (map_ : List (Bytes × Entry fl strtod))
      → row line ≡ none
      → add_line fl strtod line map_ ≡ map_
  unfolding add_line
  add_line-none line map_ h = rw (h, add_line) refl

  add_line-row :
      (line k : Bytes) (e : Entry fl strtod) (map_ : List (Bytes × Entry fl strtod))
      → row line ≡ some (k, e)
      → add_line fl strtod line map_ ≡ emplace fl strtod k e map_
  unfolding add_line
  add_line-row line k e map_ h = rw (h, add_line) refl

  -- What a line does to what is found.
  find-add_line_known :
      (key line : Bytes) (map_ : List (Bytes × Entry fl strtod)) (old : Entry fl strtod)
      → find fl strtod key map_ ≡ some old
      → find fl strtod key (add_line fl strtod line map_) ≡ some old
  find-add_line_known key line map_ old h = elim (Option-cases (row line)) [
    | inl r ↦ rw (add_line-none line map_ r) h
    | inr ((k, e), r) ↦ elim (Option-cases (find fl strtod k map_)) [
      | inl new ↦
          rw (add_line-row line k e map_ r, emplace_new k e map_ new)
            (find-append_known key k map_ e old h)
      | inr (known, f) ↦ rw (add_line-row line k e map_ r, emplace_old k e known map_ f) h
    ]
  ]

  find-add_line_other :
      (key line : Bytes) (map_ : List (Bytes × Entry fl strtod))
      → IsOther key line
      → find fl strtod key (add_line fl strtod line map_) ≡ find fl strtod key map_
  find-add_line_other key line map_ other = elim (Option-cases (row line)) [
    | inl r ↦ rw (add_line-none line map_ r) refl
    | inr ((k, e), r) ↦ elim (Option-cases (find fl strtod k map_)) [
      | inl new ↦
          rw (add_line-row line k e map_ r, emplace_new k e map_ new)
            (find-append_other key k map_ e (λ same. other (rw (r, same) refl)))
      | inr (known, f) ↦ rw (add_line-row line k e map_ r, emplace_old k e known map_ f) refl
    ]
  ]

  find-add_line_first :
      (key line : Bytes) (map_ : List (Bytes × Entry fl strtod)) (e : Entry fl strtod)
      → find fl strtod key map_ ≡ none
      → row line ≡ some (key, e)
      → find fl strtod key (add_line fl strtod line map_) ≡ some e
  find-add_line_first key line map_ e new r =
      rw (add_line-row line key e map_ r, emplace_new key e map_ new) (find-append key map_ e new)

  add_lines : List Bytes → List (Bytes × Entry fl strtod) → List (Bytes × Entry fl strtod)
  add_lines [] map_ = map_
  add_lines (line ∷ lines) map_ = add_lines lines (add_line fl strtod line map_)

  find-add_lines_known :
      (key : Bytes) (lines : List Bytes) (map_ : List (Bytes × Entry fl strtod))
      (old : Entry fl strtod)
      → find fl strtod key map_ ≡ some old
      → find fl strtod key (add_lines lines map_) ≡ some old
  unfolding add_lines
  find-add_lines_known key [] map_ old h = h
  find-add_lines_known key (line ∷ lines) map_ old h =
      find-add_lines_known key lines (add_line fl strtod line map_) old
        (find-add_line_known key line map_ old h)

  -- The entry that a search gives, or the empty one.
  abbrev or_no_entry : Option (Entry fl strtod) → Entry fl strtod
  or_no_entry none = no_entry fl strtod
  or_no_entry (some e) = e

  FirstRow-cons :
      (key line : Bytes) (lines : List Bytes) {e : Entry fl strtod}
      → IsOther key line
      → FirstRow key lines e
      → FirstRow key (line ∷ lines) e
  FirstRow-cons key line lines o (FirstRow.absent all) = FirstRow.absent (o, all)
  FirstRow-cons key line lines o (FirstRow.present before l after e s all r) =
      FirstRow.present (line ∷ before) l after e (ap (λ t. line ∷ t) s) (o, all) r

  IsOther-cases :
      (key line : Bytes) → IsOther key line ⊎ ((e : Entry fl strtod) × (row line ≡ some (key, e)))
  IsOther-cases key line = elim (Option-cases (row line)) [
    | inl r ↦ inl (λ h. cc (ap (λ o. o >>= λ q. some q.0) r, h))
    | inr ((k, e), r) ↦ elim (Bool-cases (bytes_eq k key)) [
      | inl same ↦
          let k' : k ≡ key = (bytes_eq_iff k key).0 same in inr (e, r ∙ ap (λ t. some (t, e)) k')
      | inr differs ↦ inl (λ h.
          let k' : k ≡ key = some-injective _ _ (sym (ap (λ o. o >>= λ q. some q.0) r) ∙ h) in
          cc (differs, (bytes_eq_iff k key).1 k'))
    ]
  ]

  add_lines-FirstRow :
      (key : Bytes) (lines : List Bytes) (map_ : List (Bytes × Entry fl strtod))
      → find fl strtod key map_ ≡ none
      → FirstRow key lines (or_no_entry (find fl strtod key (add_lines lines map_)))
  unfolding add_lines
  add_lines-FirstRow key [] map_ h = rw h (FirstRow.absent tt)
  add_lines-FirstRow key (line ∷ lines) map_ h = elim (IsOther-cases key line) [
    | inl o ↦ FirstRow-cons key line lines o (
        add_lines-FirstRow key lines (add_line fl strtod line map_)
          (find-add_line_other key line map_ o ∙ h))
    | inr (e, r) ↦
        rw
          (find-add_lines_known key lines (add_line fl strtod line map_) e
            (find-add_line_first key line map_ e h r))
          (FirstRow.present [] line lines e refl tt r)
  ]

  parse_loop-line :
      (line rest sofar : Bytes) (map_ : List (Bytes × Entry fl strtod))
      → Lacks 10 line
      → parse_loop fl strtod (line ++ 10 ∷ rest) sofar map_
        ≡ parse_loop fl strtod rest [] (add_line fl strtod (sofar ++ line) map_)
  unfolding parse_loop
  parse_loop-line [] rest sofar map_ h = rw (append-nil sofar) refl
  parse_loop-line (c ∷ line) rest sofar map_ (h, hs) =
      rw (h, parse_loop)
        (parse_loop-line line rest (sofar ++ c ∷ []) map_ hs
          ∙ rw (append_assoc sofar (c ∷ []) line) refl)

  parse_loop-last :
      (line sofar : Bytes) (map_ : List (Bytes × Entry fl strtod))
      → Lacks 10 line
      → parse_loop fl strtod line sofar map_ ≡ add_line fl strtod (sofar ++ line) map_
  unfolding parse_loop
  parse_loop-last [] sofar map_ h = rw (append-nil sofar) refl
  parse_loop-last (c ∷ line) sofar map_ (h, hs) =
      rw (h, parse_loop)
        (parse_loop-last line (sofar ++ c ∷ []) map_ hs
          ∙ rw (append_assoc sofar (c ∷ []) line) refl)

  parse_loop-join_lines :
      (line : Bytes) (lines : List Bytes) (map_ : List (Bytes × Entry fl strtod))
      → All (Lacks 10) (line ∷ lines)
      → parse_loop fl strtod (join_lines (line ∷ lines)) [] map_ ≡ add_lines (line ∷ lines) map_
  unfolding add_lines
  parse_loop-join_lines line [] map_ (h, hs) = parse_loop-last line [] map_ h
  parse_loop-join_lines line (next ∷ lines) map_ (h, hs) =
      parse_loop-line line (join_lines (next ∷ lines)) [] map_ h
      ∙ parse_loop-join_lines next lines (add_line fl strtod line map_) hs

  lookup-or_no_entry :
      (map_ : List (Bytes × Entry fl strtod)) (id : Bytes)
      → lookup fl strtod map_ id ≡ or_no_entry (find fl strtod (to_upper id) map_)
  unfolding lookup
  lookup-or_no_entry map_ id = elim (Option-cases (find fl strtod (to_upper id) map_)) [
    | inl e ↦ rw (e, lookup) refl
    | inr (a, e) ↦ rw (e, lookup) refl
  ]

  -- In the database of a text of lines, the lookup of an identifier, its letters in either case,
  -- gives the scores of the first line that is a row for it, and zeros where no line is.
  pub lookup-FirstRow :
      (line : Bytes) (lines : List Bytes) (id : Bytes)
      → All (Lacks 10) (line ∷ lines)
      → FirstRow
          (to_upper id)
          (line ∷ lines)
          (lookup fl strtod (parse fl strtod (join_lines (line ∷ lines))) id)
  unfolding parse
  lookup-FirstRow line lines id h =
      rw
        (
          lookup-or_no_entry (parse_loop fl strtod (join_lines (line ∷ lines)) [] []) id,
          parse_loop-join_lines line lines [] h,
        )
        (add_lines-FirstRow (to_upper id) (line ∷ lines) [] (unfold find in refl))
