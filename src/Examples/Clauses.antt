-- ===== src/Examples/Clauses.antt =====
-- The theorems on clauses and their keys at concrete clauses.
use pgrls.Prelude.{
  nat_eq, string_eq, bool_eq, pair_eq, option_eq, all, any, ◌==◌, if◌then◌else◌, false, true,
  String, In, here, there, contains, dedup, subset, strict_subset, concat, ◌≡◌, refl, sym, ap, ◌∙◌,
  some, [], ◌∷◌, arith,
}
use pgrls.Sql.{Node, bool_expr, and_expr, or_expr, not_expr, nil, cons, parse_expr, to_list}
use pgrls.Sql.Truth.{Truth, holds, null, conj, disj, negate, admits, eval}
use pgrls.Sql.Keys.{TellsApart, canonical_key, same_tree, tree, tagged, canonical_key_sound}
use pgrls.Sql.Shape.{shape, splice_and, append, eval-shape}
use pgrls.Access.Cells.Clauses.{clause_truth}
use pgrls.Diff.Predicates.{
  semantic_tightened, semantic_equivalent, connect, cons_term, translate, to_z3, as_bool_predicate,
  classify_formulas, implies, grade, tightened_and, compare_predicates, classify_via_z3,
  compare_nodes, one_more, keys, and_clauses,
}
use pgrls.Diff.Predicates.Solved.{Promise, Promised, classify_via_z3_sound}
use pgrls.Diff.Shapes.Clauses.{compare_predicates_sound}
use pgrls.Examples.{
  in_one, in_two, both, demo_sql, demo_value, demo_unparsed, demo_solver, demo_solver_laws, first,
  told_apart, demo-Clear,
}

abbrev nested : Node
nested = bool_expr or_expr (cons in_one (cons (bool_expr or_expr (cons in_two nil)) nil))

-- The parser would flatten it.
abbrev regrouped : Node
regrouped = bool_expr and_expr (cons in_one (cons (bool_expr and_expr (cons in_two nil)) nil))

one_shape : (m : Node) → In m (both ∷ regrouped ∷ []) → shape m ≡ both
unfolding shape splice_and append
one_shape m (here e) = ap shape e
one_shape m (there (here e)) = ap shape e
one_shape m (there (there i)) = elim i [ ]

regrouped_apart : TellsApart demo_sql (both ∷ regrouped ∷ [])
regrouped_apart =
    told_apart (both ∷ regrouped ∷ []) (λ m n i j k. one_shape m i ∙ sym (one_shape n j))

eval-shape_example : eval demo_value (shape nested) ≡ eval demo_value nested
eval-shape_example = eval-shape demo_value nested

canonical_key_sound_example : admits demo_value both ≡ admits demo_value regrouped
unfolding canonical_key same_tree tree shape tagged
canonical_key_sound_example =
    canonical_key_sound regrouped_apart both regrouped (here refl) (there (here refl)) refl
      demo_value

-- The solver refutes `kind IN (1)` without `kind IN (1, 2)`, and not the converse.
solver_tightens : classify_via_z3 demo_solver in_two in_one ≡ some semantic_tightened
unfolding classify_via_z3 translate to_z3 as_bool_predicate classify_formulas implies grade all
solver_tightens = refl

classify_via_z3_sound_example :
    Promised
      (classify_via_z3 demo_solver in_two in_one)
      (admits demo_value in_two)
      (admits demo_value in_one)
unfolding demo_solver_laws
classify_via_z3_sound_example =
    classify_via_z3_sound demo_solver demo_solver_laws first in_two in_one
      (λ e. absurd (ground arith)) (λ e. absurd (ground arith))

abbrev or_not : Node → Node
or_not n = bool_expr or_expr (cons n (cons (bool_expr not_expr (cons n nil)) nil))

-- Every kind is in a set or not: the solver refutes both differences.
tautologies_agree :
    classify_via_z3 demo_solver (or_not in_one) (or_not in_two) ≡ some semantic_equivalent
unfolding classify_via_z3 translate to_z3 as_bool_predicate classify_formulas implies grade all any
    connect cons_term
tautologies_agree = refl

-- Only the leaf "a" is NULL.
abbrev partly_null : String → Truth
partly_null s = if s == "a" then null else holds

null_row_gained :
    (admits partly_null (or_not in_one) ≡ false) × (admits partly_null (or_not in_two) ≡ true)
unfolding admits eval conj disj negate
null_row_gained = (refl, refl)

-- A conjunct was added.
one_more_conjunct :
    compare_predicates demo_solver demo_sql (some "a") (some "a AND b") ≡ tightened_and
unfolding compare_predicates parse_expr compare_nodes canonical_key same_tree tree shape tagged
    concat one_more strict_subset subset all keys and_clauses contains to_list dedup
one_more_conjunct = refl

compare_predicates_sound_example :
    Promise
      (compare_predicates demo_solver demo_sql (some "b") (some "a"))
      (clause_truth demo_sql demo_value demo_unparsed "b")
      (clause_truth demo_sql demo_value demo_unparsed "a")
unfolding demo_solver_laws
compare_predicates_sound_example =
    compare_predicates_sound demo_solver demo_sql demo_solver_laws first demo_unparsed "b" "a"
      demo-Clear refl refl
