-- ===== src/Probes/Template.antt =====
-- src/probes/probe_engine.cpp, `apply_template`.
pub mod Parts
use service_port_scanner.Common.{
  ℕ, ◌-◌, ◌&&◌, Bytes, Option, none, some, List, [], ◌∷◌, ◌++◌, get_elem?, is_digit, ◌==◌,
  if◌then◌else◌,
}

-- `if (idx < m.size()) out += m[idx].str();`
abbrev pub group : List Bytes → ℕ → Bytes
group m idx = elim (get_elem? m idx) [ none ↦ [] | some text ↦ text ]

unfoldable pub apply_template : Bytes → List Bytes → Bytes
apply_template [] m = []
apply_template (c ∷ []) m = c ∷ []
apply_template (c ∷ d ∷ tpl) m =
    let replaced = apply_template tpl m in
    let kept = apply_template (d ∷ tpl) m in
    if c == b'$' && is_digit d then group m (d - b'0') ++ replaced else c ∷ kept
