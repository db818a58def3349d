-- ===== src/Diff/Predicates.antt =====
-- src/pgrls/diff/ast_compare.py, and `classify_via_z3` and `_implies` of
-- src/pgrls/diff/_z3_compare.py: how the clause of a policy changed.
pub mod Solved
pub mod Sound
use pgrls.Prelude.{
  ltb, leb, nat_eqb, nat_eqb_iff, if◌then◌else◌, Bool-cases, Option-cases, Bool-ext, and_left,
  and_right, Eq, ◌==◌, ==→eq, ==_refl, nat_eq, string_eq, bool_eqb, bool_eqb_iff, bool_eq, pair_eqb,
  pair_eqb_iff, pair_eq, option_eqb, option_eqb_iff, option_eq, length, length-append, is_empty,
  any, all, filter, is_empty-append, any-append, is_empty-filter, In, In-cons, In-cons_mono,
  In-swap, In-append, In-append_left, In-append_right, any-In, In-any, all-In, In-all, In-filter,
  filter-In, length-map, is_empty-map, any-map_never, In-map, map-In, here, there, contains, dedup,
  difference, subset, same_set, strict_subset, intersects, contains-In, In-contains, contains_head,
  contains_cons, contains-append, In-subset, subset-In, intersects-In, In-intersects, In-dedup,
  dedup-In, is_empty-dedup, insert_by, sort_by, is_empty-sort_by, sort_by-In, In-sort_by, find_last,
  find_last-In, In-find_last, Distinct, find_last-Distinct, concat, join, str_le, unseen,
  unseen-le-length, unseen_mono, unseen_strict, ℕ, zero, suc, ◌+◌, ◌-◌, ◌*◌, ◌/◌, ◌%◌, ◌≤◌, ◌<◌,
  String, ◌≡◌, refl, sym, ap, subst, ◌∙◌, ◌≢◌, ◌↔◌, ◌⊎◌, inl, inr, Bool, true, false, ◌&&◌, ◌||◌,
  not, Option, none, some, List, [], ◌∷◌, ◌++◌, map, arith, eq_iff,
}
use pgrls.Sql.{
  Sql, Node, Nodes, BoolOp, bool_expr, leaf, nil, cons, and_expr, or_expr, not_expr, to_list,
  no_text, parse_expr,
}
use pgrls.Sql.Keys.{canonical_key}

pub data Comparison : Type 0 where
  unchanged tightened_and loosened_and_drop loosened_or tightened_or_drop : Comparison
  semantic_equivalent semantic_tightened semantic_loosened requires_review : Comparison

-- Z3, the contexts `_Context` of type `C`, and the translation of the nodes that are no Boolean
-- operators, which binds columns in the context.
pub record Solver (F C : Type 0) : Type 0 where
  -- `Z3_AVAILABLE`
  pub available : Bool
  -- `_Context()`
  pub fresh : C
  -- `_to_z3` of such a node: None where it is not supported
  pub leaf_to_z3 : C → String → Option F × C
  -- `expr.sort() == z3.BoolSort()`
  pub is_bool : F → Bool
  pub z3_and : List F → F
  pub z3_or : List F → F
  pub z3_not : F → F
  -- The answer within a second
  pub is_unsat : F → Bool
  -- The row of `counterexample` for two formulas, where it has one that suffices
  pub model_row : C → F → F → Option (List (String × String))

unfoldable pub and_clauses : Node → List Node
and_clauses (bool_expr and_expr ns) = to_list ns
and_clauses (bool_expr or_expr ns) = bool_expr or_expr ns ∷ []
and_clauses (bool_expr not_expr ns) = bool_expr not_expr ns ∷ []
and_clauses (leaf s) = leaf s ∷ []

unfoldable pub or_clauses : Node → List Node
or_clauses (bool_expr or_expr ns) = to_list ns
or_clauses (bool_expr and_expr ns) = bool_expr and_expr ns ∷ []
or_clauses (bool_expr not_expr ns) = bool_expr not_expr ns ∷ []
or_clauses (leaf s) = leaf s ∷ []

-- `a < b and len(b) - len(a) == 1` on the sets of the keys
unfoldable pub one_more : List String → List String → Bool
one_more a b = strict_subset a b && (length (dedup b) - length (dedup a)) == 1

module _ {F C : Type 0} (solver : Solver F C) where
  open solver use {
    available, fresh, leaf_to_z3, is_bool, z3_and, z3_or, z3_not, is_unsat, model_row,
  }

  -- `z3.And`, `z3.Or` and `z3.Not` raise where an argument is no Bool, which gives None.
  unfoldable pub connect : BoolOp → Option (List F) → Option F
  connect op none = none
  connect and_expr (some []) = none
  connect and_expr (some (f ∷ [])) = some f
  connect and_expr (some (f ∷ g ∷ fs)) =
      if all is_bool (f ∷ g ∷ fs) then some (z3_and (f ∷ g ∷ fs)) else none
  connect or_expr (some []) = none
  connect or_expr (some (f ∷ [])) = some f
  connect or_expr (some (f ∷ g ∷ fs)) =
      if all is_bool (f ∷ g ∷ fs) then some (z3_or (f ∷ g ∷ fs)) else none
  connect not_expr (some []) = none
  connect not_expr (some (f ∷ [])) = if is_bool f then some (z3_not f) else none
  connect not_expr (some (f ∷ g ∷ fs)) = none

  -- None where one of the arguments is None.
  unfoldable pub cons_term : Option F → Option (List F) → Option (List F)
  cons_term none fs = none
  cons_term (some f) none = none
  cons_term (some f) (some fs) = some (f ∷ fs)

  -- `_to_z3`; each argument is translated in the context that the one before it leaves.
  unfoldable mutual
    pub to_z3 : C → Node → Option F × C
    to_z3 ctx (bool_expr op ns) = let out = to_z3s ctx ns in (connect op out.0, out.1)
    to_z3 ctx (leaf s) = leaf_to_z3 ctx s

    pub to_z3s : C → Nodes → Option (List F) × C
    to_z3s ctx nil = (some [], ctx)
    to_z3s ctx (cons n ns) =
        let first = to_z3 ctx n in
        let rest = to_z3s first.1 ns in (cons_term first.0 rest.0, rest.1)

  unfoldable pub as_bool_predicate : Option F → Option F
  as_bool_predicate none = none
  as_bool_predicate (some f) = if is_bool f then some f else none

  -- The two predicates in one context, and the context that they leave.
  unfoldable pub translate : Node → Node → (Option F × Option F) × C
  translate base head =
      let p = to_z3 fresh base in
      let q = to_z3 p.1 head in ((as_bool_predicate p.0, as_bool_predicate q.0), q.1)

  -- `_implies`
  unfoldable pub implies : F → F → Bool
  implies p q = is_unsat (z3_and (p ∷ z3_not q ∷ []))

  unfoldable pub grade : Bool → Bool → Option Comparison
  grade base_implies_head head_implies_base =
      if base_implies_head && head_implies_base
      then some semantic_equivalent
      else if head_implies_base && not base_implies_head
      then some semantic_tightened
      else if base_implies_head && not head_implies_base
      then some semantic_loosened
      else none

  unfoldable pub classify_formulas : Option F × Option F → Option Comparison
  unfolding grade
  classify_formulas (none, h) = none
  classify_formulas (some p, none) = none
  classify_formulas (some p, some q) = grade (implies p q) (implies q p)

  unfoldable pub classify_via_z3 : Node → Node → Option Comparison
  classify_via_z3 base head =
      if not available then none else classify_formulas (translate base head).0

  module _ (sql : Sql) where
    unfoldable pub keys : List Node → List String
    keys ns = map (canonical_key sql) ns

    unfoldable pub compare_nodes : Node → Node → Comparison
    compare_nodes base head =
        let base_and = keys (and_clauses base) in
        let head_and = keys (and_clauses head) in
        let base_or = keys (or_clauses base) in
        let head_or = keys (or_clauses head) in
        if canonical_key sql base == canonical_key sql head
        then unchanged
        else if one_more base_and head_and
        then tightened_and
        else if one_more head_and base_and
        then loosened_and_drop
        else if one_more base_or head_or
        then loosened_or
        else if one_more head_or base_or
        then tightened_or_drop
        else elim (classify_via_z3 base head) [ some r ↦ r | none ↦ requires_review ]

    unfoldable pub compare_parsed : Option Node → Option Node → Comparison
    compare_parsed none h = requires_review
    compare_parsed (some m) none = requires_review
    compare_parsed (some m) (some n) = compare_nodes m n

    unfoldable pub compare_predicates : Option String → Option String → Comparison
    unfolding no_text compare_parsed
    compare_predicates base_sql head_sql =
        if no_text base_sql && no_text head_sql
        then unchanged
        else if no_text base_sql || no_text head_sql
        then requires_review
        else compare_parsed (parse_expr sql base_sql) (parse_expr sql head_sql)

    -- `counterexample` in the Z3 module
    unfoldable pub leaking_row : (Option F × Option F) × C → Option (List (String × String))
    leaking_row ((none, h), ctx) = none
    leaking_row ((some p, none), ctx) = none
    leaking_row ((some p, some q), ctx) = model_row ctx p q

    unfoldable pub counterexample_of : Option Node → Option Node → Option (List (String × String))
    unfolding leaking_row
    counterexample_of none h = none
    counterexample_of (some m) none = none
    counterexample_of (some m) (some n) =
        if not available then none else leaking_row (translate m n)

    unfoldable pub counterexample_for :
        Option String → Option String → Option (List (String × String))
    unfolding counterexample_of no_text
    counterexample_for base_sql head_sql =
        if no_text base_sql || no_text head_sql
        then none
        else counterexample_of (parse_expr sql base_sql) (parse_expr sql head_sql)
