-- ===== src/Gui/ResultModel/Cells.antt =====
-- The table behind an added result.
use service_port_scanner.Core.Floats.{FloatLib}
use service_port_scanner.Core.Result.{ScanResult}
use service_port_scanner.Gui.ResultModel.{
  Role, invalid, ModelIndex, rows_inserted, data_at, Model, row_count, append_result, result_at,
}
use service_port_scanner.Common.{
  ℕ, zero, suc, ◌+◌, ◌<◌, ◌≡◌, refl, true, false, Bool-cases, inl, inr, ◌⊎◌, sym, ◌∙◌, ◌≢◌, ◌≤◌,
  if◌then◌else◌, ◌==◌, Bytes, some, List, [], ◌∷◌, ◌++◌, length, length-append, get_elem?, leb,
  arith,
}

get_elem?-append_left {ℓ} :
    {A : Type ℓ} (xs ys : List A) (i : ℕ) → i < length xs → get_elem? (xs ++ ys) i ≡ get_elem? xs i
get_elem?-append_left [] ys i h = absurd (omega (arith, h))
get_elem?-append_left (x ∷ xs) ys zero h = refl
get_elem?-append_left (x ∷ xs) ys (suc i) h = get_elem?-append_left xs ys i (omega (arith, h))

get_elem?-append_length {ℓ} :
    {A : Type ℓ} (xs : List A) (y : A) → get_elem? (xs ++ y ∷ []) (length xs) ≡ some y
get_elem?-append_length [] y = refl
get_elem?-append_length (x ∷ xs) y = get_elem?-append_length xs y

<-cmp : (a b : ℕ) → (a < b) ⊎ (a ≡ b) ⊎ (b < a)
<-cmp a b = ground arith

eq : (a b : ℕ) → a ≡ b → (a == b) ≡ true
eq a b h = ground arith

neq : (a b : ℕ) → a ≢ b → (a == b) ≡ false
neq a b h = ground arith

leb-lt : (a b : ℕ) → b < a → leb a b ≡ false
leb-lt a b h = ground arith

module _ (fl : FloatLib) (number_fixed : fl.Double → Bytes) where
  data_at-append :
      (results : List (ScanResult fl)) (r : ScanResult fl) (index : ModelIndex) (role : Role)
      → index.row < length results
      → data_at fl number_fixed (results ++ r ∷ []) index role
        ≡ data_at fl number_fixed results index role
  unfolding data_at
  data_at-append results r index role h =
      rw
        (
          leb-lt (length (results ++ r ∷ [])) index.row
              (omega (arith, h, length-append results (r ∷ []))),
          leb-lt (length results) index.row h,
          get_elem?-append_left results (r ∷ []) index.row h,
        )
        refl

  leb-ge : (a b : ℕ) → a ≤ b → leb a b ≡ true
  leb-ge a b h = ground arith

  -- The row that is added, and the rows behind it.
  data_at-last :
      (results : List (ScanResult fl)) (r : ScanResult fl) (index : ModelIndex) (role : Role)
      → index.row ≡ length results
      → data_at fl number_fixed (results ++ r ∷ []) index role
        ≡ data_at fl number_fixed (r ∷ []) (record index { row = 0 }) role
  unfolding data_at
  data_at-last results r index role h =
      rw
        (
          h,
          leb-lt (length (results ++ r ∷ [])) (length results)
              (omega (arith, length-append results (r ∷ []))),
          get_elem?-append_length results r,
          leb-lt 1 0 (omega arith),
        )
        refl

  data_at-behind :
      (results : List (ScanResult fl)) (index : ModelIndex) (role : Role)
      → length results ≤ index.row
      → data_at fl number_fixed results index role ≡ invalid
  unfolding data_at
  data_at-behind results index role h = elim (Bool-cases index.is_valid) [
    | inl e ↦ rw (leb-ge (length results) index.row h, e) refl
    | inr e ↦ rw (leb-ge (length results) index.row h, e) refl
  ]

  data_at-added :
      (results : List (ScanResult fl)) (r : ScanResult fl) (index : ModelIndex) (role : Role)
      → data_at fl number_fixed (results ++ r ∷ []) index role ≡ (
          if index.row == length results
          then data_at fl number_fixed (r ∷ []) (record index { row = 0 }) role
          else data_at fl number_fixed results index role)
  data_at-added results r index role = elim (<-cmp index.row (length results)) [
    | inl h ↦
        rw (neq index.row (length results) (omega arith)) (data_at-append results r index role h)
    | inr (inl h) ↦ rw (eq index.row (length results) h) (data_at-last results r index role h)
    | inr (inr h) ↦ rw (neq index.row (length results) (omega arith)) (
        data_at-behind (results ++ r ∷ []) index role
          (omega (arith, length-append results (r ∷ [])))
        ∙ sym (data_at-behind results index role (omega arith)))
  ]

  -- `append_result` adds one row at the end, of which the views are told by its number, and which holds
  -- the result. In every role, each cell of that row shows what the cell shows in a table of that
  -- result alone, and every other cell, also one behind the rows, what it did.
  pub append_result-data_at :
      (r : ScanResult fl) (m : Model fl) (index : ModelIndex) (role : Role)
      → (row_count fl (append_result fl r m) ≡ row_count fl m + 1)
        × ((append_result fl r m).notices
            ≡ m.notices ++ rows_inserted (row_count fl m) (row_count fl m) ∷ [])
        × (result_at fl (row_count fl m) (append_result fl r m) ≡ some r)
        × (data_at fl number_fixed (append_result fl r m).results index role ≡ (
            if index.row == row_count fl m
            then data_at fl number_fixed (r ∷ []) (record index { row = 0 }) role
            else data_at fl number_fixed m.results index role))
  unfolding append_result result_at
  append_result-data_at r m index role = (
    omega (arith, length-append m.results (r ∷ [])),
    refl,
    get_elem?-append_length m.results r,
    data_at-added m.results r index role,
  )
