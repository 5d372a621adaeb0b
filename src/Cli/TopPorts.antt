-- ===== src/Cli/TopPorts.antt =====
-- src/cli/top_ports.cpp: the table of the most frequent ports, and its first entries.
use service_port_scanner.Common.{
  ℕ, zero, suc, min, ◌≤◌, ◌≡◌, refl, ap, Bool, true, false, not, ◌&&◌, List, [], ◌∷◌, ◌++◌, length,
  length-take, take, any, ◌==◌, leb, arith,
}

-- `kTopPorts`.
abbrev pub top_ports : List ℕ
top_ports =
    80 ∷ 23 ∷ 443 ∷ 21 ∷ 22 ∷ 25 ∷ 3389 ∷ 110 ∷ 445 ∷ 139 ∷ 143 ∷ 53 ∷ 135 ∷ 3306 ∷ 8080 ∷ 1723
    ∷ 111 ∷ 995 ∷ 993 ∷ 5900 ∷ 1025 ∷ 587 ∷ 8888 ∷ 199 ∷ 1720 ∷ 465 ∷ 548 ∷ 113 ∷ 81 ∷ 6001 ∷ 10000
    ∷ 514 ∷ 5060 ∷ 179 ∷ 1026 ∷ 2000 ∷ 8443 ∷ 8000 ∷ 32768 ∷ 554 ∷ 26 ∷ 1433 ∷ 49152 ∷ 2001 ∷ 515
    ∷ 8008 ∷ 49154 ∷ 1027 ∷ 5666 ∷ 646 ∷ 5000 ∷ 5631 ∷ 631 ∷ 49153 ∷ 8081 ∷ 2049 ∷ 88 ∷ 79 ∷ 5800
    ∷ 106 ∷ 2121 ∷ 1110 ∷ 49155 ∷ 6000 ∷ 513 ∷ 990 ∷ 5357 ∷ 427 ∷ 49156 ∷ 543 ∷ 544 ∷ 5101 ∷ 144 ∷ 7
    ∷ 389 ∷ 8009 ∷ 3128 ∷ 444 ∷ 9999 ∷ 5009 ∷ 7070 ∷ 5190 ∷ 3000 ∷ 5432 ∷ 1900 ∷ 3986 ∷ 13 ∷ 1029
    ∷ 9 ∷ 5051 ∷ 6646 ∷ 49157 ∷ 1028 ∷ 873 ∷ 1755 ∷ 2717 ∷ 4899 ∷ 9100 ∷ 119 ∷ 37 ∷ []

unfoldable pub top_ports_table_size : ℕ
top_ports_table_size = length top_ports

unfoldable pub top_n_ports : ℕ → List ℕ
unfolding top_ports_table_size
top_n_ports n = let count = min n top_ports_table_size in take count top_ports

-- No port stands twice, and all are ports.
abbrev pub AreDistinctPorts : List ℕ → Type 0
AreDistinctPorts [] = Unit
AreDistinctPorts (p ∷ ps) =
    (1 ≤ p) × (p ≤ 65535) × (any (λ q. p == q) ps ≡ false) × AreDistinctPorts ps

distinct_ports : List ℕ → Bool
distinct_ports [] = true
distinct_ports (p ∷ ps) = leb 1 p && leb p 65535 && not (any (λ q. p == q) ps) && distinct_ports ps

distinct_ports-AreDistinctPorts : (ps : List ℕ) → distinct_ports ps ≡ true → AreDistinctPorts ps
unfolding distinct_ports
distinct_ports-AreDistinctPorts [] h = tt
distinct_ports-AreDistinctPorts (p ∷ ps) h = ground (arith, distinct_ports-AreDistinctPorts ps)

table_distinct : distinct_ports top_ports ≡ true
unfolding distinct_ports
table_distinct = refl

any-take :
    (p n : ℕ) (ps : List ℕ) → any (λ q. p == q) ps ≡ false → any (λ q. p == q) (take n ps) ≡ false
any-take p zero ps h = refl
any-take p (suc n) [] h = refl
any-take p (suc n) (q ∷ ps) h = ground (arith, any-take p n ps)

take-AreDistinctPorts : (n : ℕ) (ps : List ℕ) → AreDistinctPorts ps → AreDistinctPorts (take n ps)
take-AreDistinctPorts zero ps h = tt
take-AreDistinctPorts (suc n) [] h = tt
take-AreDistinctPorts (suc n) (p ∷ ps) (l, u, d, h) =
    (l, u, any-take p n ps d, take-AreDistinctPorts n ps h)

take-append-take :
    (m n : ℕ) (ps : List ℕ) → m ≤ n → (rest : List ℕ) × (take m ps ++ rest ≡ take n ps)
take-append-take zero n ps h = (take n ps, refl)
take-append-take (suc m) zero ps h = absurd (omega arith)
take-append-take (suc m) (suc n) [] h = ([], refl)
take-append-take (suc m) (suc n) (p ∷ ps) h =
    let (rest, e) = take-append-take m n ps (omega arith) in (rest, ap (◌∷◌ p) e)

-- `top_n_ports n` is `n` different ports, or the whole table where `n` exceeds it, and asking for
-- more only adds ports behind those that fewer give.
pub top_n_ports_lem :
    (m n : ℕ)
    → m ≤ n
    → (length (top_n_ports n) ≡ min n 100)
      × AreDistinctPorts (top_n_ports n)
      × ((rest : List ℕ) × (top_n_ports m ++ rest ≡ top_n_ports n))
unfolding top_n_ports
top_n_ports_lem m n h = (
  omega (arith, length-take (min n 100) top_ports),
  take-AreDistinctPorts (min n 100) top_ports
      (distinct_ports-AreDistinctPorts top_ports table_distinct),
  take-append-take (min m 100) (min n 100) top_ports (omega arith),
)
