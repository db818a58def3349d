-- ===== src/Model/Ancestors.antt =====
-- src/pgrls/model.py, `Schema.ancestors_of`: the walk up the partition tree. The generator's items
-- are collected as `list(...)` does at its call sites; the ValueError on a cycle is a result.
pub mod Lineage
use pgrls.Prelude.{
  nat_eq, string_eq, bool_eq, pair_eq, option_eq, length, contains, find_last, ℕ, zero, suc, String,
  true, false, Option, none, some, List, [], ◌∷◌,
}
use pgrls.Model.{Table, Schema, dotted, qualified_name}

pub data Walk : Type 0 where
  ok : List Table → Walk
  cycle : String → Walk

-- `self._by_qname.get(qname)`
unfoldable pub find_table : Schema → String → Option Table
find_table s q = find_last qualified_name q s.tables

unfoldable pub cons_walk : Table → Option Walk → Option Walk
cons_walk t none = none
cons_walk t (some (ok ts)) = some (ok (t ∷ ts))
cons_walk t (some (cycle q)) = some (cycle q)

-- The `while` loop; `none` means that the fuel ran out.
unfoldable pub climb : Schema → ℕ → Table → List String → Option Walk
unfolding cons_walk
climb s zero current seen = none
climb s (suc fuel) current seen = elim current.partition_of [
  | none ↦ some (ok [])
  | some (schema, name) ↦
      let qname = dotted schema name in
      elim (contains qname seen) [
        | true ↦ some (cycle qname)
        | false ↦ elim (find_table s qname) [
          | none ↦ some (ok [])
          | some parent ↦ cons_walk parent (climb s fuel parent (qname ∷ seen))
        ]
      ]
]

unfoldable pub ancestors_of : Schema → Table → Option Walk
unfolding climb
ancestors_of s t = climb s (suc (length s.tables)) t (qualified_name t ∷ [])
