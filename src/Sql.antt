-- ===== src/Sql.antt =====
-- Policy clauses as syntax trees (src/pgrls/ast_utils.py). pglast's parser is a parameter, `parse`;
-- of its nodes the code looks into `BoolExpr` alone, so every other node is a leaf, named by the
-- dump of its tree, which is how the code itself tells nodes apart (`_tree`).
pub mod Truth
pub mod Disjuncts
pub mod Shape
pub mod Keys
use pgrls.Prelude.{
  ltb, leb, nat_eqb, nat_eqb_iff, if◌then◌else◌, Bool-cases, Option-cases, Bool-ext, and_left,
  and_right, Eq, ◌==◌, ==→eq, ==_refl, nat_eq, string_eq, bool_eqb, bool_eqb_iff, bool_eq, pair_eqb,
  pair_eqb_iff, pair_eq, option_eqb, option_eqb_iff, option_eq, length, length-append, is_empty,
  any, all, filter, is_empty-append, any-append, all-append, is_empty-filter, In, In-cons,
  In-cons_mono, In-swap, In-append, In-append_left, In-append_right, any-In, In-any, all-In, In-all,
  In-filter, filter-In, length-map, is_empty-map, any-map_never, In-map, map-In, flat_map,
  all-flat_map, flat_map-In, In-flat_map, here, there, contains, dedup, difference, subset,
  same_set, strict_subset, intersects, contains-In, In-contains, contains_head, contains_cons,
  contains-append, In-subset, subset-In, intersects-In, In-intersects, In-dedup, dedup-In,
  is_empty-dedup, insert_by, sort_by, is_empty-sort_by, sort_by-In, In-sort_by, find_last,
  find_last-In, In-find_last, Distinct, find_last-Distinct, concat, join, str_le, unseen,
  unseen-le-length, unseen_mono, unseen_strict, ℕ, zero, suc, ◌+◌, ◌-◌, ◌*◌, ◌/◌, ◌%◌, ◌≤◌, ◌<◌,
  String, ◌≡◌, refl, sym, ap, subst, ◌∙◌, ◌≢◌, ◌↔◌, ◌⊎◌, inl, inr, Bool, true, false, ◌&&◌, ◌||◌,
  not, Option, none, some, List, [], ◌∷◌, ◌++◌, map, arith, eq_iff,
}

pub data BoolOp : Type 0 where
  and_expr or_expr not_expr : BoolOp

mutual
  pub data Node : Type 0 where
    bool_expr : BoolOp → Nodes → Node
    leaf : String → Node

  pub data Nodes : Type 0 where
    nil : Nodes
    cons : Node → Nodes → Nodes

-- `list(node.args)`
unfoldable pub to_list : Nodes → List Node
to_list nil = []
to_list (cons n ns) = n ∷ to_list ns

unfoldable pub of_list : List Node → Nodes
of_list [] = nil
of_list (n ∷ ns) = cons n (of_list ns)

pub to_list-of_list : (ns : List Node) → to_list (of_list ns) ≡ ns
unfolding to_list of_list
to_list-of_list [] = refl
to_list-of_list (n ∷ ns) = ap (λ ms. n ∷ ms) (to_list-of_list ns)

abbrev op_eqb : BoolOp → BoolOp → Bool
op_eqb and_expr and_expr = true
op_eqb or_expr or_expr = true
op_eqb not_expr not_expr = true
op_eqb _ _ = false

op_eqb_iff : (a b : BoolOp) → (op_eqb a b ≡ true) ↔ (a ≡ b)
op_eqb_iff a b = ground arith

-- pglast's `==` on nodes.
unfoldable mutual
  pub node_eqb : Node → Node → Bool
  node_eqb (bool_expr op ns) (bool_expr op' ms) = op_eqb op op' && nodes_eqb ns ms
  node_eqb (bool_expr op ns) (leaf t) = false
  node_eqb (leaf s) (bool_expr op ms) = false
  node_eqb (leaf s) (leaf t) = s == t

  pub nodes_eqb : Nodes → Nodes → Bool
  nodes_eqb nil nil = true
  nodes_eqb nil (cons m ms) = false
  nodes_eqb (cons n ns) nil = false
  nodes_eqb (cons n ns) (cons m ms) = node_eqb n m && nodes_eqb ns ms

mutual
  unfolding node_eqb nodes_eqb

  pub node_eqb_iff : (n m : Node) → (node_eqb n m ≡ true) ↔ (n ≡ m)
  node_eqb_iff (bool_expr op ns) (bool_expr op' ms) =
      ground (arith, op_eqb_iff op op', nodes_eqb_iff ns ms)
  node_eqb_iff (bool_expr op ns) (leaf t) = ground arith
  node_eqb_iff (leaf s) (bool_expr op ms) = ground arith
  node_eqb_iff (leaf s) (leaf t) = ground (arith, eq_iff s t)

  pub nodes_eqb_iff : (ns ms : Nodes) → (nodes_eqb ns ms ≡ true) ↔ (ns ≡ ms)
  nodes_eqb_iff nil nil = ground arith
  nodes_eqb_iff nil (cons m ms) = ground arith
  nodes_eqb_iff (cons n ns) nil = ground arith
  nodes_eqb_iff (cons n ns) (cons m ms) = ground (arith, node_eqb_iff n m, nodes_eqb_iff ns ms)

instance abbrev pub node_eq : Eq Node
node_eq = record { eqb = node_eqb; eqb_iff = node_eqb_iff }

-- What the program reads of pglast and of Python's string functions.
pub record Sql : Type 0 where
  -- `parse_expr` on a non-empty text
  pub parse : String → Option Node
  -- `isinstance(node, A_Const) and node.val == true` on the dump of a leaf
  pub literal_true : String → Bool
  -- The names of the column references in the dump of a leaf, each as its dotted parts
  pub leaf_refs : String → List (List String)
  -- `faithful_sql`, which raises ValueError on a node that pglast cannot render
  pub faithful_sql : Node → Option String
  -- `type(node).__name__`
  pub node_type : Node → String
  -- `json.dumps(..., sort_keys=True, default=str)`, and the first 16 digits of the SHA-256 digest
  pub dump : Node → String
  pub digest : String → String
  -- `str.lower` and `str.upper`
  pub lower : String → String
  pub upper : String → String
  -- `repr` of a text, and of a list of texts
  pub repr : String → String
  pub repr_list : List String → String

-- `not sql`: an absent or empty clause.
unfoldable pub no_text : Option String → Bool
no_text none = true
no_text (some s) = s == ""

-- `parse_expr`
unfoldable pub parse_expr : Sql → Option String → Option Node
unfolding no_text
parse_expr sql none = none
parse_expr sql (some s) = if s == "" then none else sql.parse s

-- `extract_column_refs`: the references of every node below.
unfoldable mutual
  pub extract_column_refs : Sql → Node → List (List String)
  extract_column_refs sql (bool_expr op ns) = refs_of_all sql ns
  extract_column_refs sql (leaf s) = sql.leaf_refs s

  pub refs_of_all : Sql → Nodes → List (List String)
  refs_of_all sql nil = []
  refs_of_all sql (cons n ns) = extract_column_refs sql n ++ refs_of_all sql ns
