-- ===== src/Diff/Predicates/Solved.antt =====
-- What the translation of two clauses into Z3 and the solver's answer say of the rows.
use pgrls.Prelude.{
  Bool-ext, nat_eq, string_eq, bool_eq, pair_eq, option_eq, any, all, String, ◌≡◌, refl, sym, ap,
  ◌∙◌, ◌≢◌, Bool, true, false, not, Option, none, some, List, [], ◌∷◌, arith,
}
use pgrls.Sql.{
  Node, Nodes, BoolOp, bool_expr, leaf, nil, cons, and_expr, or_expr, not_expr, to_list,
}
use pgrls.Sql.Truth.{
  Truth, holds, fails, null, conj, disj, negate, eval, eval_all, eval_any, is_true, admits,
  admits-and, admits-or,
}
use pgrls.Diff.Predicates.{
  Comparison, unchanged, tightened_and, loosened_and_drop, loosened_or, tightened_or_drop,
  semantic_equivalent, semantic_tightened, semantic_loosened, requires_review, Solver, connect,
  cons_term, to_z3, to_z3s, as_bool_predicate, translate, implies, grade, classify_formulas,
  classify_via_z3,
}

-- What a result promises of a row, by whether the base and the head admit it.
abbrev pub Promise : Comparison → Bool → Bool → Type 0
Promise unchanged base head = base ≡ head
Promise tightened_and base head = head ≡ true → base ≡ true
Promise loosened_and_drop base head = base ≡ true → head ≡ true
Promise loosened_or base head = base ≡ true → head ≡ true
Promise tightened_or_drop base head = head ≡ true → base ≡ true
Promise semantic_equivalent base head = base ≡ head
Promise semantic_tightened base head = head ≡ true → base ≡ true
Promise semantic_loosened base head = base ≡ true → head ≡ true
Promise requires_review base head = Unit

abbrev pub Promised : Option Comparison → Bool → Bool → Type 0
Promised none base head = Unit
Promised (some r) base head = Promise r base head

-- No leaf of the tree is NULL.
abbrev mutual
  pub IsNonNull : (String → Truth) → Node → Type 0
  IsNonNull value (bool_expr op ns) = AreNonNull value ns
  IsNonNull value (leaf s) = value s ≢ null

  pub AreNonNull : (String → Truth) → Nodes → Type 0
  AreNonNull value nil = Unit
  AreNonNull value (cons n ns) = IsNonNull value n × AreNonNull value ns

-- What is asked of Z3 and of the translation of the leaves. A world is a row in a session whose
-- columns and calls have values of the sorts that the translation gives them. The formula of a leaf
-- is met where the leaf is true, unless the leaf is NULL: the translation has two truth values, and
-- nothing is asked of it there. UNSAT is never answered of a formula that some world meets.
pub record SolverLaws {F C : Type 0} (solver : Solver F C) : Type 1 where
  pub World : Type 0
  pub value : World → String → Truth
  pub meets : World → F → Bool
  pub and_law : (w : World) (fs : List F) → meets w (solver.z3_and fs) ≡ all (meets w) fs
  pub or_law : (w : World) (fs : List F) → meets w (solver.z3_or fs) ≡ any (meets w) fs
  pub not_law : (w : World) (f : F) → meets w (solver.z3_not f) ≡ not (meets w f)
  pub unsat_law : (f : F) → solver.is_unsat f ≡ true → (w : World) → meets w f ≡ false
  pub leaf_law :
      (ctx : C) (s : String) (f : F)
      → (solver.leaf_to_z3 ctx s).0 ≡ some f
      → solver.is_bool f ≡ true
      → (w : World) → value w s ≢ null
      → meets w f ≡ is_true (value w s)

conj_known : (a b : Truth) → a ≢ null → b ≢ null → conj a b ≢ null
unfolding conj
conj_known holds b f g = g
conj_known fails b f g = f
conj_known null b f g = absurd (f refl)

disj_known : (a b : Truth) → a ≢ null → b ≢ null → disj a b ≢ null
unfolding disj
disj_known holds b f g = f
disj_known fails b f g = g
disj_known null b f g = absurd (f refl)

negate_known : (a : Truth) → a ≢ null → negate a ≢ null
unfolding negate
negate_known holds f = λ e. absurd (ground arith)
negate_known fails f = λ e. absurd (ground arith)
negate_known null f = absurd (f refl)

is_true-negate : (a : Truth) → a ≢ null → is_true (negate a) ≡ not (is_true a)
unfolding negate
is_true-negate holds f = refl
is_true-negate fails f = refl
is_true-negate null f = absurd (f refl)

admits-not :
    (value : String → Truth) (ns : Nodes)
    → eval_all value ns ≢ null
    → admits value (bool_expr not_expr ns) ≡ not (admits value (bool_expr and_expr ns))
unfolding admits eval
admits-not value ns k = is_true-negate (eval_all value ns) k

admits-leaf : (value : String → Truth) (s : String) → admits value (leaf s) ≡ is_true (value s)
unfolding admits eval
admits-leaf value s = refl

mutual
  unfolding eval

  eval_known : (value : String → Truth) (n : Node) → IsNonNull value n → eval value n ≢ null
  eval_known value (bool_expr and_expr ns) k = all_known value ns k
  eval_known value (bool_expr or_expr ns) k = any_known value ns k
  eval_known value (bool_expr not_expr ns) k = negate_known _ (all_known value ns k)
  eval_known value (leaf s) k = k

  all_known : (value : String → Truth) (ns : Nodes) → AreNonNull value ns → eval_all value ns ≢ null
  all_known value nil k = λ e. absurd (ground arith)
  all_known value (cons n ns) (k, l) = conj_known _ _ (eval_known value n k) (all_known value ns l)

  any_known : (value : String → Truth) (ns : Nodes) → AreNonNull value ns → eval_any value ns ≢ null
  any_known value nil k = λ e. absurd (ground arith)
  any_known value (cons n ns) (k, l) = disj_known _ _ (eval_known value n k) (any_known value ns l)

module _ {F C : Type 0} (solver : Solver F C) (laws : SolverLaws solver) (w : laws.World) where
  open laws use {meets, and_law, or_law, not_law, unsat_law, leaf_law}

  abbrev value : String → Truth
  value = laws.value w

  -- A formula is met where the node is true.
  abbrev Means : Node → Option F → Type 0
  Means n o = (f : F) → o ≡ some f → solver.is_bool f ≡ true → meets w f ≡ admits value n

  abbrev MeanAll : Nodes → Option (List F) → Type 0
  MeanAll ns o =
      (fs : List F)
      → o ≡ some fs
      → all solver.is_bool fs ≡ true
      → (all (meets w) fs ≡ all (admits value) (to_list ns))
        × (any (meets w) fs ≡ any (admits value) (to_list ns))

  nil_means : MeanAll nil (some [])
  unfolding to_list all any
  nil_means [] e b = (refl, refl)
  nil_means (f ∷ fs) e b = absurd (ground arith)

  cons-Means :
      (n : Node) (ns : Nodes) (o : Option F) (os : Option (List F))
      → Means n o
      → MeanAll ns os
      → MeanAll (cons n ns) (cons_term solver o os)
  unfolding cons_term to_list all any
  cons-Means n ns none os h hs fs e b = absurd (ground arith)
  cons-Means n ns (some f) none h hs fs e b = absurd (ground arith)
  cons-Means n ns (some f) (some gs) h hs [] e b = absurd (ground arith)
  cons-Means n ns (some f) (some gs) h hs (g ∷ fs) e b =
      let same : f ≡ g = ground arith in
      let rest : gs ≡ fs = ground arith in
      let one = h g (ap some same) (ground arith) in
      let (every, some_one) = hs fs (ap some rest) (ground arith) in
      (ground (arith, one, every), ground (arith, one, some_one))

  connect-Means :
      (op : BoolOp) (ns : Nodes) (o : Option (List F))
      → AreNonNull value ns
      → MeanAll ns o
      → Means (bool_expr op ns) (connect solver op o)
  unfolding connect all any
  connect-Means op ns none k h f e b = absurd (ground arith)
  connect-Means and_expr ns (some []) k h f e b = absurd (ground arith)
  connect-Means and_expr ns (some (g ∷ [])) k h f e b =
      ground (arith, e, b, h (g ∷ []) refl, admits-and value ns)
  connect-Means and_expr ns (some (g ∷ g' ∷ fs)) k h f e b =
      ground (arith, e, h (g ∷ g' ∷ fs) refl, and_law w (g ∷ g' ∷ fs), admits-and value ns)
  connect-Means or_expr ns (some []) k h f e b = absurd (ground arith)
  connect-Means or_expr ns (some (g ∷ [])) k h f e b =
      ground (arith, e, b, h (g ∷ []) refl, admits-or value ns)
  connect-Means or_expr ns (some (g ∷ g' ∷ fs)) k h f e b =
      ground (arith, e, h (g ∷ g' ∷ fs) refl, or_law w (g ∷ g' ∷ fs), admits-or value ns)
  connect-Means not_expr ns (some []) k h f e b = absurd (ground arith)
  connect-Means not_expr ns (some (g ∷ g' ∷ fs)) k h f e b = absurd (ground arith)
  connect-Means not_expr ns (some (g ∷ [])) k h f e b = ground (
    arith,
    e,
    h (g ∷ []) refl,
    not_law w g,
    admits-and value ns,
    admits-not value ns (all_known value ns k),
  )

  mutual
    unfolding to_z3 to_z3s

    to_z3-Means : (ctx : C) (n : Node) → IsNonNull value n → Means n (to_z3 solver ctx n).0
    to_z3-Means ctx (bool_expr op ns) k =
        connect-Means op ns (to_z3s solver ctx ns).0 k (to_z3s_mean ctx ns k)
    to_z3-Means ctx (leaf s) k = λ f e b. leaf_law ctx s f e b w k ∙ sym (admits-leaf value s)

    to_z3s_mean : (ctx : C) (ns : Nodes) → AreNonNull value ns → MeanAll ns (to_z3s solver ctx ns).0
    to_z3s_mean ctx nil k = nil_means
    to_z3s_mean ctx (cons n ns) (k, l) =
        let first = to_z3 solver ctx n in
        cons-Means n ns first.0 (to_z3s solver first.1 ns).0 (to_z3-Means ctx n k)
          (to_z3s_mean first.1 ns l)

  as_bool-Means :
      (n : Node) (o : Option F) (f : F)
      → Means n o
      → as_bool_predicate solver o ≡ some f
      → meets w f ≡ admits value n
  unfolding as_bool_predicate
  as_bool-Means n none f h e = absurd (ground arith)
  as_bool-Means n (some g) f h e =
      let same : g ≡ f = ground arith in h f (ap some same) (ground arith)

  implies_sound : (p q : F) → implies solver p q ≡ true → meets w p ≡ true → meets w q ≡ true
  unfolding implies all
  implies_sound p q h t = ground (
    arith,
    and_law w (p ∷ solver.z3_not q ∷ []),
    not_law w q,
    unsat_law (solver.z3_and (p ∷ solver.z3_not q ∷ [])) h w,
  )

  grade_sound :
      (a b base head : Bool)
      → (a ≡ true → base ≡ true → head ≡ true)
      → (b ≡ true → head ≡ true → base ≡ true)
      → Promised (grade solver a b) base head
  unfolding grade
  grade_sound true true base head f g = Bool-ext base head (f refl) (g refl)
  grade_sound true false base head f g = f refl
  grade_sound false true base head f g = g refl
  grade_sound false false base head f g = tt

  formulas_sound :
      (m n : Node) (o : Option F × Option F)
      → ((p : F) → o.0 ≡ some p → meets w p ≡ admits value m)
      → ((q : F) → o.1 ≡ some q → meets w q ≡ admits value n)
      → Promised (classify_formulas solver o) (admits value m) (admits value n)
  unfolding classify_formulas
  formulas_sound m n (none, h) f g = tt
  formulas_sound m n (some p, none) f g = tt
  formulas_sound m n (some p, some q) f g =
      let base = f p refl in
      let head = g q refl in
      grade_sound (implies solver p q) (implies solver q p) (admits value m) (admits value n)
        (λ k t. sym head ∙ implies_sound p q k (base ∙ t))
        (λ k t. sym base ∙ implies_sound q p k (head ∙ t))

  -- The result that the solver gives keeps its promise at a row where no leaf of the clauses is
  -- NULL: an equivalence means one value, a tightening that the base admits what the head does, a
  -- loosening the converse. Z3 and the translation of the leaves keep their laws.
  pub classify_via_z3_sound :
      (m n : Node)
      → IsNonNull value m
      → IsNonNull value n
      → Promised (classify_via_z3 solver m n) (admits value m) (admits value n)
  unfolding classify_via_z3 translate
  classify_via_z3_sound m n k l =
      let ctx = (to_z3 solver solver.fresh m).1 in
      let sound =
        formulas_sound m n (translate solver m n).0
          (λ p e. as_bool-Means m _ p (to_z3-Means solver.fresh m k) e)
          (λ q e. as_bool-Means n _ q (to_z3-Means ctx n l) e) in
      ground (arith, sound)
