-- ===== src/Cli/Ports.antt =====
-- src/cli/args.cpp: `parse_uint16` and `expand_port_spec`. `return false` and `return {}` of the
-- loop are `none`; `std::set<std::uint16_t>` is the list of its elements in order.
pub mod Numbers
pub mod PortSet
pub mod Pieces
pub mod Expand
use service_port_scanner.Common.{
  ℕ, zero, suc, ◌+◌, ◌-◌, ◌*◌, ◌^◌, Bool, true, false, not, ◌&&◌, ◌||◌, Option, none, some, List,
  [], ◌∷◌, ◌++◌, Bytes, is_digit, is_empty, ltb, leb, ◌==◌, if◌then◌else◌, guard, ◌>>=◌, ◌>>◌,
}
use service_port_scanner.Common.Split.{split_at}

-- The digits at the front of a text: their number behind `v`, how many they are, and the rest.
unfoldable pub scan_digits : Bytes → ℕ → ℕ → ℕ × ℕ × Bytes
scan_digits [] v n = (v, n, [])
scan_digits (c ∷ s) v n =
    let rest = scan_digits s (v * 10 + (c - b'0')) (n + 1) in
    if is_digit c then rest else (v, n, c ∷ s)

-- The sign and size of a number in an `int`, unless there is no digit or it is out of range.
unfoldable pub as_int : Bool → ℕ × ℕ × Bytes → Option (Bool × ℕ × Bytes)
as_int negative (v, n, rest) = do
  guard (not (n == 0))
  guard (leb v (if negative then 2 ^ 31 else 2 ^ 31 - 1))
  some (negative, v, rest)

-- `std::from_chars` for `int`: an optional minus sign and digits.
unfoldable pub from_chars : Bytes → Option (Bool × ℕ × Bytes)
unfolding as_int scan_digits
from_chars [] = none
from_chars (c ∷ s) =
    if c == b'-' then as_int true (scan_digits s 0 0) else as_int false (scan_digits (c ∷ s) 0 0)

unfoldable pub parse_uint16 : Bytes → Option ℕ
unfolding from_chars
parse_uint16 s = do
  (negative, v, rest) ← from_chars s
  guard (is_empty rest)
  guard (not (negative || ltb v 1 || ltb 65535 v))
  some v

-- `set.insert`.
unfoldable pub insert : ℕ → List ℕ → List ℕ
insert p [] = p ∷ []
insert p (q ∷ set) = if ltb p q then p ∷ q ∷ set else if p == q then q ∷ set else q ∷ insert p set

-- `for (p = lo; p <= hi; ++p)`, on the number of rounds.
unfoldable pub insert_range : ℕ → ℕ → List ℕ → List ℕ
unfolding insert
insert_range zero p set = set
insert_range (suc rounds) p set = insert_range rounds (p + 1) (insert p set)

unfoldable pub insert_between : ℕ → ℕ → List ℕ → List ℕ
unfolding insert_range
insert_between lo hi set = insert_range (hi + 1 - lo) lo set

-- `flush`.
unfoldable pub flush : Bytes → List ℕ → Option (List ℕ)
unfolding split_at parse_uint16 insert insert_between
flush [] set = some set
flush (c ∷ tok) set = elim (split_at b'-' (c ∷ tok)) [
  | none ↦ do p ← parse_uint16 (c ∷ tok); some (insert p set)
  | some (lo_text, hi_text) ↦ do
    lo ← parse_uint16 lo_text
    hi ← parse_uint16 hi_text
    some (if ltb hi lo then insert_between hi lo set else insert_between lo hi set)
]

-- The loop over the text: the text that is left, the piece since `start`, and the set.
unfoldable pub expand_loop : Bytes → Bytes → List ℕ → Option (List ℕ)
unfolding flush
expand_loop [] piece set = flush piece set
expand_loop (c ∷ s) piece set = elim (c == b',') [
  | true ↦ do set' ← flush piece set; expand_loop s [] set'
  | false ↦ expand_loop s (piece ++ c ∷ []) set
]

unfoldable pub expand_port_spec : Bytes → List ℕ
unfolding expand_loop
expand_port_spec spec = elim (expand_loop spec [] []) [ none ↦ [] | some set ↦ set ]
