-- ===== src/Sql/Disjuncts.antt =====
-- src/pgrls/ast_utils.py, `flatten_or_disjuncts` and `is_literal_true`.
use pgrls.Prelude.{
  nat_eq, string_eq, bool_eq, pair_eq, option_eq, any, any-append, String, ◌≡◌, refl, ◌∙◌, Bool,
  false, ◌||◌, List, [], ◌∷◌, ◌++◌, arith,
}
use pgrls.Sql.{Sql, Node, Nodes, bool_expr, leaf, nil, cons, and_expr, or_expr, not_expr, to_list}
use pgrls.Sql.Truth.{Truth, admits, admits-or}

-- The loop over the arguments goes into those that are OR expressions.
unfoldable mutual
  pub flatten_or_disjuncts : Node → List Node
  flatten_or_disjuncts (bool_expr or_expr ns) = flatten_args ns
  flatten_or_disjuncts (bool_expr and_expr ns) = bool_expr and_expr ns ∷ []
  flatten_or_disjuncts (bool_expr not_expr ns) = bool_expr not_expr ns ∷ []
  flatten_or_disjuncts (leaf s) = leaf s ∷ []

  pub flatten_args : Nodes → List Node
  flatten_args nil = []
  flatten_args (cons n ns) = flatten_or_disjuncts n ++ flatten_args ns

unfoldable pub is_literal_true : Sql → Node → Bool
is_literal_true sql (leaf s) = sql.literal_true s
is_literal_true sql (bool_expr op ns) = false

any_one : (b : Bool) → b ≡ (b || false)
any_one b = ground arith

mutual
  unfolding flatten_or_disjuncts any to_list

  flatten_lem :
      (value : String → Truth) (n : Node)
      → admits value n ≡ any (admits value) (flatten_or_disjuncts n)
  flatten_lem value (bool_expr or_expr ns) = admits-or value ns ∙ flatten_args_lem value ns
  flatten_lem value (bool_expr and_expr ns) = any_one _
  flatten_lem value (bool_expr not_expr ns) = any_one _
  flatten_lem value (leaf s) = any_one _

  flatten_args_lem :
      (value : String → Truth) (ns : Nodes)
      → any (admits value) (to_list ns) ≡ any (admits value) (flatten_args ns)
  flatten_args_lem value nil = refl
  flatten_args_lem value (cons n ns) = rw (
    any-append (admits value) (flatten_or_disjuncts n) (flatten_args ns),
    ← flatten_lem value n,
    flatten_args_lem value ns,
  )

-- A clause is true of a row exactly where one of its flattened disjuncts is.
pub admits-flatten :
    (value : String → Truth) (n : Node)
    → admits value n ≡ any (admits value) (flatten_or_disjuncts n)
admits-flatten value n = flatten_lem value n
