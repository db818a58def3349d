-- ===== src/Sql/Shape.antt =====
-- src/pgrls/ast_utils.py, `_shape`: AND inside AND and OR inside OR are spliced in. (Positions and
-- default fields, which it drops too, are no part of `Node`.)
use pgrls.Prelude.{
  nat_eq, string_eq, bool_eq, pair_eq, option_eq, String, ◌≡◌, refl, ap, ◌∙◌, arith,
}
use pgrls.Sql.{Node, Nodes, bool_expr, leaf, nil, cons, and_expr, or_expr, not_expr}
use pgrls.Sql.Truth.{negate, Truth, conj, disj, eval, eval_all, eval_any}

unfoldable pub append : Nodes → Nodes → Nodes
append nil ms = ms
append (cons n ns) ms = cons n (append ns ms)

-- One step of the loop over the arguments of an AND, and of an OR.
unfoldable pub splice_and : Node → Nodes → Nodes
unfolding append
splice_and (bool_expr and_expr ms) rest = append ms rest
splice_and (bool_expr or_expr ms) rest = cons (bool_expr or_expr ms) rest
splice_and (bool_expr not_expr ms) rest = cons (bool_expr not_expr ms) rest
splice_and (leaf s) rest = cons (leaf s) rest

unfoldable pub splice_or : Node → Nodes → Nodes
unfolding append
splice_or (bool_expr or_expr ms) rest = append ms rest
splice_or (bool_expr and_expr ms) rest = cons (bool_expr and_expr ms) rest
splice_or (bool_expr not_expr ms) rest = cons (bool_expr not_expr ms) rest
splice_or (leaf s) rest = cons (leaf s) rest

unfoldable mutual
  pub shape : Node → Node
  shape (bool_expr and_expr ns) = bool_expr and_expr (shape_and ns)
  shape (bool_expr or_expr ns) = bool_expr or_expr (shape_or ns)
  shape (bool_expr not_expr ns) = bool_expr not_expr (shape_not ns)
  shape (leaf s) = leaf s

  pub shape_and : Nodes → Nodes
  shape_and nil = nil
  shape_and (cons n ns) = splice_and (shape n) (shape_and ns)

  pub shape_or : Nodes → Nodes
  shape_or nil = nil
  shape_or (cons n ns) = splice_or (shape n) (shape_or ns)

  pub shape_not : Nodes → Nodes
  shape_not nil = nil
  shape_not (cons n ns) = cons (shape n) (shape_not ns)

conj_assoc : (a b c : Truth) → conj (conj a b) c ≡ conj a (conj b c)
unfolding conj
conj_assoc a b c = ground arith

disj_assoc : (a b c : Truth) → disj (disj a b) c ≡ disj a (disj b c)
unfolding disj
disj_assoc a b c = ground arith

module _ (value : String → Truth) where
  eval_all-append :
      (ns ms : Nodes) → eval_all value (append ns ms) ≡ conj (eval_all value ns) (eval_all value ms)
  unfolding append eval
  eval_all-append nil ms = unfold conj in refl
  eval_all-append (cons n ns) ms = rw (eval_all-append ns ms, conj_assoc)

  eval_any-append :
      (ns ms : Nodes) → eval_any value (append ns ms) ≡ disj (eval_any value ns) (eval_any value ms)
  unfolding append eval
  eval_any-append nil ms = unfold disj in refl
  eval_any-append (cons n ns) ms = rw (eval_any-append ns ms, disj_assoc)

  eval-splice_and :
      (n : Node) (ns : Nodes)
      → eval_all value (splice_and n ns) ≡ conj (eval value n) (eval_all value ns)
  unfolding splice_and eval
  eval-splice_and (bool_expr and_expr ms) ns = eval_all-append ms ns
  eval-splice_and (bool_expr or_expr ms) ns = refl
  eval-splice_and (bool_expr not_expr ms) ns = refl
  eval-splice_and (leaf s) ns = refl

  eval-splice_or :
      (n : Node) (ns : Nodes)
      → eval_any value (splice_or n ns) ≡ disj (eval value n) (eval_any value ns)
  unfolding splice_or eval
  eval-splice_or (bool_expr or_expr ms) ns = eval_any-append ms ns
  eval-splice_or (bool_expr and_expr ms) ns = refl
  eval-splice_or (bool_expr not_expr ms) ns = refl
  eval-splice_or (leaf s) ns = refl

mutual
  unfolding shape eval

  shape_lem : (value : String → Truth) (n : Node) → eval value (shape n) ≡ eval value n
  shape_lem value (bool_expr and_expr ns) = shape_and_lem value ns
  shape_lem value (bool_expr or_expr ns) = shape_or_lem value ns
  shape_lem value (bool_expr not_expr ns) = ap negate (shape_not_lem value ns)
  shape_lem value (leaf s) = refl

  shape_and_lem :
      (value : String → Truth) (ns : Nodes) → eval_all value (shape_and ns) ≡ eval_all value ns
  shape_and_lem value nil = refl
  shape_and_lem value (cons n ns) =
      eval-splice_and value (shape n) (shape_and ns)
      ∙ (λ i. conj (shape_lem value n i) (shape_and_lem value ns i))

  shape_or_lem :
      (value : String → Truth) (ns : Nodes) → eval_any value (shape_or ns) ≡ eval_any value ns
  shape_or_lem value nil = refl
  shape_or_lem value (cons n ns) =
      eval-splice_or value (shape n) (shape_or ns)
      ∙ (λ i. disj (shape_lem value n i) (shape_or_lem value ns i))

  shape_not_lem :
      (value : String → Truth) (ns : Nodes) → eval_all value (shape_not ns) ≡ eval_all value ns
  shape_not_lem value nil = refl
  shape_not_lem value (cons n ns) = λ i. conj (shape_lem value n i) (shape_not_lem value ns i)

-- The shape that trees are compared in has the three-valued value of the tree, NULL included.
pub eval-shape : (value : String → Truth) (n : Node) → eval value (shape n) ≡ eval value n
eval-shape value n = shape_lem value n
