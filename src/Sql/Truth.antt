-- ===== src/Sql/Truth.antt =====
-- SQL's three-valued logic, as PostgreSQL documents it. Row security admits a row where a clause is
-- true, so neither false nor NULL admits it.
use pgrls.Prelude.{
  nat_eq, string_eq, bool_eq, pair_eq, option_eq, any, all, String, ◌≡◌, refl, ap, ◌∙◌, Bool, true,
  false, ◌&&◌, ◌||◌, arith,
}
use pgrls.Sql.{Node, Nodes, bool_expr, leaf, nil, cons, and_expr, or_expr, not_expr, to_list}

pub data Truth : Type 0 where
  holds fails null : Truth

unfoldable pub conj : Truth → Truth → Truth
conj holds b = b
conj fails b = fails
conj null fails = fails
conj null b = null

unfoldable pub disj : Truth → Truth → Truth
disj holds b = holds
disj fails b = b
disj null holds = holds
disj null b = null

unfoldable pub negate : Truth → Truth
negate holds = fails
negate fails = holds
negate null = null

-- The value of a tree, where `value` gives those of the leaves.
unfoldable mutual
  pub eval : (String → Truth) → Node → Truth
  eval value (bool_expr and_expr ns) = eval_all value ns
  eval value (bool_expr or_expr ns) = eval_any value ns
  eval value (bool_expr not_expr ns) = negate (eval_all value ns)
  eval value (leaf s) = value s

  pub eval_all : (String → Truth) → Nodes → Truth
  eval_all value nil = holds
  eval_all value (cons n ns) = conj (eval value n) (eval_all value ns)

  pub eval_any : (String → Truth) → Nodes → Truth
  eval_any value nil = fails
  eval_any value (cons n ns) = disj (eval value n) (eval_any value ns)

abbrev pub is_true : Truth → Bool
is_true holds = true
is_true fails = false
is_true null = false

unfoldable pub admits : (String → Truth) → Node → Bool
admits value n = is_true (eval value n)

is_true-conj : (a b : Truth) → is_true (conj a b) ≡ (is_true a && is_true b)
unfolding conj
is_true-conj a b = ground arith

is_true-disj : (a b : Truth) → is_true (disj a b) ≡ (is_true a || is_true b)
unfolding disj
is_true-disj a b = ground arith

-- A conjunction admits a row exactly where each of its arguments does.
pub admits-and :
    (value : String → Truth) (ns : Nodes)
    → admits value (bool_expr and_expr ns) ≡ all (admits value) (to_list ns)
unfolding admits eval all to_list
admits-and value nil = refl
admits-and value (cons n ns) =
    is_true-conj (eval value n) (eval_all value ns)
    ∙ ap (λ b. is_true (eval value n) && b) (admits-and value ns)

pub admits-or :
    (value : String → Truth) (ns : Nodes)
    → admits value (bool_expr or_expr ns) ≡ any (admits value) (to_list ns)
unfolding admits eval any to_list
admits-or value nil = refl
admits-or value (cons n ns) =
    is_true-disj (eval value n) (eval_any value ns)
    ∙ ap (λ b. is_true (eval value n) || b) (admits-or value ns)
