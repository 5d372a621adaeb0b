-- ===== src/Cli/Ports/PortSet.antt =====
-- The set of ports: its elements, their order and their range.
use service_port_scanner.Common.{
  ℕ, zero, suc, ◌+◌, ◌-◌, ◌≤◌, ◌<◌, ◌≡◌, refl, Bool, ◌&&◌, ◌||◌, List, [], ◌∷◌, ltb, leb, ◌==◌, any,
  arith,
}
use service_port_scanner.Cli.Ports.{insert, insert_range, insert_between}

abbrev pub has : ℕ → List ℕ → Bool
has p = any λ q. p == q

pub has-insert : (p q : ℕ) (set : List ℕ) → has p (insert q set) ≡ (p == q || has p set)
unfolding insert
has-insert p q [] = refl
has-insert p q (r ∷ set) = ground (arith, has-insert p q set)

has-insert_range :
    (rounds p q : ℕ) (set : List ℕ)
    → has p (insert_range rounds q set) ≡ (leb q p && ltb p (q + rounds) || has p set)
unfolding insert_range
has-insert_range zero p q set = ground arith
has-insert_range (suc rounds) p q set =
    ground (arith, has-insert_range rounds p (q + 1) (insert q set), has-insert p q set)

-- The loop from `lo` to `hi` adds exactly the ports between them.
pub has-insert_between :
    (p lo hi : ℕ) (set : List ℕ)
    → has p (insert_between lo hi set) ≡ (leb lo p && leb p hi || has p set)
unfolding insert_between
has-insert_between p lo hi set = ground (arith, has-insert_range (hi + 1 - lo) p lo set)

-- The elements rise strictly, above `low`, and are ports.
abbrev pub Rising : ℕ → List ℕ → Type 0
Rising low [] = Unit
Rising low (p ∷ set) = (low < p) × (p ≤ 65535) × Rising p set

pub insert-Rising :
    (low p : ℕ) (set : List ℕ) → low < p → p ≤ 65535 → Rising low set → Rising low (insert p set)
unfolding insert
insert-Rising low p [] l u r = (l, u, tt)
insert-Rising low p (q ∷ set) l u r = ground (arith, insert-Rising q p set)

insert_range-Rising :
    (rounds p : ℕ) (set : List ℕ)
    → 1 ≤ p
    → p + rounds ≤ 65536
    → Rising 0 set
    → Rising 0 (insert_range rounds p set)
unfolding insert_range
insert_range-Rising zero p set l u r = r
insert_range-Rising (suc rounds) p set l u r =
    insert_range-Rising rounds (p + 1) (insert p set) (omega arith) (omega arith)
      (insert-Rising 0 p set l (omega arith) r)

pub insert_between-Rising :
    (lo hi : ℕ) (set : List ℕ)
    → 1 ≤ lo
    → lo ≤ hi
    → hi ≤ 65535
    → Rising 0 set
    → Rising 0 (insert_between lo hi set)
unfolding insert_between
insert_between-Rising lo hi set l m u = insert_range-Rising (hi + 1 - lo) lo set l (omega arith)
