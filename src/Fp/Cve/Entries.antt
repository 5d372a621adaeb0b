-- ===== src/Fp/Cve/Entries.antt =====
-- How loading ends: with well-formed entries, or in an exception that some member is to blame for.
use mathlib.Core.Path.{subst}
use service_port_scanner.Json.{JsonLib}
use service_port_scanner.Core.Floats.{FloatLib}
use service_port_scanner.Fp.Cve.{
  tolower, to_lower, Outcome, returned, thrown, Entry, value_or, and_then, load_item, load_items,
  load_services, load_from_string,
}
use service_port_scanner.Common.{
  ℕ, ◌≡◌, refl, sym, ◌⊎◌, inl, inr, false, not, ◌&&◌, Bytes, codes, Option, none, some,
  Option-cases, List, [], ◌∷◌, ◌++◌, is_empty, All, All-append, Any, ◌>>=◌, if◌then◌else◌, arith,
}

tolower_idempotent : (c : ℕ) → tolower (tolower c) ≡ tolower c
tolower_idempotent c = ground arith

to_lower_idempotent : (s : Bytes) → to_lower (to_lower s) ≡ to_lower s
to_lower_idempotent [] = refl
to_lower_idempotent (c ∷ s) = cc (tolower_idempotent c, to_lower_idempotent s)

module _ (fl : FloatLib) (json : JsonLib) (as_double : json.Value → Option fl.Double) where
  pub record IsEntry (e : Entry fl) : Type 0 where
    pub lower : to_lower e.service_lower ≡ e.service_lower
    pub some_id : is_empty e.id ≡ false
    pub some_prefix : is_empty e.version_prefix ≡ false

  -- A member that is there has another type than the code reads.
  abbrev pub IsWrong {ℓ} : {A : Type ℓ} → (json.Value → Option A) → json.Value → Bytes → Type ℓ
  IsWrong read item key = (v : json.Value) × (json.member item key ≡ some v) × (read v ≡ none)

  abbrev pub IsWrongItem : json.Value → Type 0
  IsWrongItem item =
      IsWrong json.as_string item (codes "version_prefix")
      ⊎ IsWrong json.as_string item (codes "id")
      ⊎ IsWrong as_double item (codes "cvss")

  abbrev pub IsWrongService : Bytes × json.Value → Type 0
  IsWrongService (key, value) =
      (items : List json.Value) × (json.as_array value ≡ some items) × Any IsWrongItem items

  -- The two ways to end.
  pub data Ends (Wrong : Type 0) : Outcome (List (Entry fl)) → Type 0 where
    loaded : (entries : List (Entry fl)) → All IsEntry entries → Ends Wrong (returned entries)
    failed : Wrong → Ends Wrong thrown

  Ends-map : {J K : Type 0} {o : Outcome (List (Entry fl))} → (J → K) → Ends J o → Ends K o
  Ends-map f (Ends.loaded entries is) = Ends.loaded entries is
  Ends-map f (Ends.failed w) = Ends.failed (f w)

  Ends-and_then :
      {I J K : Type 0} {o : Outcome (List (Entry fl))}
      (f : List (Entry fl) → Outcome (List (Entry fl)))
      → Ends I o
      → ((entries : List (Entry fl)) → All IsEntry entries → Ends J (f entries))
      → (I → K)
      → (J → K)
      → Ends K (and_then o f)
  Ends-and_then f (Ends.loaded entries is) next first second = Ends-map second (next entries is)
  Ends-and_then f (Ends.failed w) next first second = Ends.failed (first w)

  -- A member as the code reads it: a value, or an exception for its type.
  value_or-cases :
      {A : Type 0} (read : json.Value → Option A) (item : json.Value) (key : Bytes) (default : A)
      → ((value_or fl json as_double read item key default ≡ thrown) × IsWrong read item key)
        ⊎ ((a : A) × (value_or fl json as_double read item key default ≡ returned a))
  value_or-cases read item key default = elim (Option-cases (json.member item key)) [
    | inl e ↦ inr (default, rw (e, value_or) refl)
    | inr (v, e) ↦ elim (Option-cases (read v)) [
      | inl e' ↦ inl (rw (e, value_or, e') refl, (v, e, e'))
      | inr (a, e') ↦ inr (a, rw (e, value_or, e') refl)
    ]
  ]

  append_entry :
      (svc version_prefix id : Bytes) (cvss : fl.Double) (entries : List (Entry fl))
      → to_lower svc ≡ svc
      → All IsEntry entries
      → All IsEntry (
          if not (is_empty id) && not (is_empty version_prefix)
          then entries
            ++ record { service_lower = svc; version_prefix = version_prefix; id = id; cvss = cvss }
              ∷ []
          else entries)
  append_entry svc [] id cvss entries low is = ground arith
  append_entry svc (v ∷ version_prefix) [] cvss entries low is = is
  append_entry svc (v ∷ version_prefix) (i ∷ id) cvss entries low is =
      All-append IsEntry entries _ is
        (record { lower = low; some_id = refl; some_prefix = refl }, tt)

  load_item-Ends :
      (svc : Bytes) (item : json.Value) (entries : List (Entry fl))
      → to_lower svc ≡ svc
      → All IsEntry entries
      → Ends (IsWrongItem item) (load_item fl json as_double svc item entries)
  unfolding load_item
  load_item-Ends svc item entries low is = elim (Option-cases (json.as_object item)) [
    | inl e ↦ rw (e, load_item) (Ends.loaded entries is)
    | inr (members, e) ↦ elim (value_or-cases json.as_string item (codes "version_prefix") []) [
      | inl (t, w) ↦ rw (e, load_item, t) (Ends.failed (inl w))
      | inr (p, r) ↦ elim (value_or-cases json.as_string item (codes "id") []) [
        | inl (t, w) ↦ rw (e, load_item, r, t) (Ends.failed (inr (inl w)))
        | inr (id, r') ↦ elim (value_or-cases as_double item (codes "cvss") (fl.double 0)) [
          | inl (t, w) ↦ rw (e, load_item, r, r', t) (Ends.failed (inr (inr w)))
          | inr (cvss, r'') ↦
              rw (e, load_item, r, r', r'')
                (Ends.loaded _ (append_entry svc p id cvss entries low is))
        ]
      ]
    ]
  ]

  load_items-Ends :
      (svc : Bytes) (items : List json.Value) (entries : List (Entry fl))
      → to_lower svc ≡ svc
      → All IsEntry entries
      → Ends (Any IsWrongItem items) (load_items fl json as_double svc items entries)
  unfolding load_items
  load_items-Ends svc [] entries low is = Ends.loaded entries is
  load_items-Ends svc (item ∷ items) entries low is =
      Ends-and_then _ (load_item-Ends svc item entries low is)
        (λ entries' is'. load_items-Ends svc items entries' low is') (λ w. inl w) (λ w. inr w)

  load_services-Ends :
      (services : List (Bytes × json.Value)) (entries : List (Entry fl))
      → All IsEntry entries
      → Ends (Any IsWrongService services) (load_services fl json as_double services entries)
  unfolding load_services
  load_services-Ends [] entries is = Ends.loaded entries is
  load_services-Ends ((key, value) ∷ rest) entries is = elim (Option-cases (json.as_array value)) [
    | inl e ↦ rw (e, load_services) (Ends-map (λ w. inr w) (load_services-Ends rest entries is))
    | inr (items, e) ↦
        let step : load_services fl json as_double ((key, value) ∷ rest) entries
            ≡ and_then (load_items fl json as_double (to_lower key) items entries)
                (load_services fl json as_double rest) =
          rw (e, load_services) refl in
        subst (Ends (Any IsWrongService ((key, value) ∷ rest))) (sym step) (
          Ends-and_then _
            (load_items-Ends (to_lower key) items entries (to_lower_idempotent key) is)
            (λ entries' is'. load_services-Ends rest entries' is') (λ w. inl (items, e, w))
            (λ w. inr w))
  ]

  -- Some member of some item of the document has the wrong type.
  abbrev pub IsWrongText : Bytes → Type 0
  IsWrongText text =
      (members : List (Bytes × json.Value)) × ((json.parse text >>= json.as_object) ≡ some members)
      × Any IsWrongService members

  -- Loading a text ends in one of two ways. It gives entries that all have an identifier, a version
  -- prefix and a service in lower case; or it ends in an exception, and then the text is a JSON
  -- object with an item whose `version_prefix`, `id` or `cvss` has another type than the code reads.
  pub load_from_string-Ends :
      (text : Bytes) → Ends (IsWrongText text) (load_from_string fl json as_double text)
  unfolding load_from_string
  load_from_string-Ends [] = Ends.loaded [] tt
  load_from_string-Ends (c ∷ text) =
      elim (Option-cases (json.parse (c ∷ text) >>= json.as_object)) [
        | inl e ↦
            let step : load_from_string fl json as_double (c ∷ text) ≡ returned [] =
              rw (load_from_string, e) refl in
            subst (Ends (IsWrongText (c ∷ text))) (sym step) (Ends.loaded [] tt)
        | inr (members, e) ↦
            let step : load_from_string fl json as_double (c ∷ text)
                ≡ load_services fl json as_double members [] =
              rw (load_from_string, e) refl in
            subst (Ends (IsWrongText (c ∷ text))) (sym step)
              (Ends-map (λ w. (members, e, w)) (load_services-Ends members [] tt))
      ]
