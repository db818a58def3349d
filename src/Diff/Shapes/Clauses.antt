-- ===== src/Diff/Shapes/Clauses.antt =====
-- What a clause change that is called safe promises of the rows that the clause admits.
use pgrls.Prelude.{
  Option-cases, ◌==◌, nat_eq, string_eq, bool_eq, pair_eq, option_eq, all, String, ◌≡◌, refl, sym,
  ap, ◌∙◌, inl, inr, Bool, true, false, Option, none, some, arith,
}
use pgrls.Sql.{Sql, Node, no_text, parse_expr}
use pgrls.Sql.Truth.{Truth}
use pgrls.Sql.Keys.{TellsApart}
use pgrls.Rls.{clause_holds}
use pgrls.Access.Cells.Clauses.{clause_truth}
use pgrls.Access.Privileges.{is_some}
use pgrls.Diff.{ChangeKind, Classification, is_safe, all_safe}
use pgrls.Diff.Predicates.{
  Comparison, unchanged, tightened_and, loosened_and_drop, loosened_or, tightened_or_drop,
  semantic_equivalent, semantic_tightened, semantic_loosened, requires_review, Solver,
  compare_parsed, compare_predicates, compare_nodes, classify_via_z3,
}
use pgrls.Diff.Predicates.Solved.{Promise, SolverLaws, IsNonNull}
use pgrls.Diff.Predicates.Sound.{parts, compare_nodes_sound}
use pgrls.Diff.Shapes.{using_result_to_change, with_check_result_to_change, predicate_change}

-- What is asked of two clauses at a row, where both parse: their keys tell their parts clear, and
-- where the solver gives the result, no leaf is NULL.
abbrev pub Clear :
    {F C : Type 0} → Solver F C → Sql → (String → Truth) → Option String → Option String → Type 0
Clear solver sql value b h =
    (m n : Node)
    → parse_expr sql b ≡ some m
    → parse_expr sql h ≡ some n
    → TellsApart sql (parts m n)
      × ((r : Comparison)
          → classify_via_z3 solver m n ≡ some r
          → compare_nodes solver sql m n ≡ r
          → IsNonNull value m × IsNonNull value n)

-- A clause is not the empty text: PostgreSQL stores an expression or nothing.
abbrev pub HasText : Option String → Type 0
HasText none = Unit
HasText (some s) = (s == "") ≡ false

unfoldable pub is_safe_entry : Option (ChangeKind × Classification) → Bool
is_safe_entry none = true
is_safe_entry (some (kind, c)) = is_safe c

abbrev IsTight : Comparison → Type 0
IsTight r = (base head : Bool) → Promise r base head → head ≡ true → base ≡ true

-- A table of changes calls a result safe only where it is a tightening.
abbrev pub IsCautious : (Comparison → Option (ChangeKind × Classification)) → Type 0
IsCautious mapping = (r : Comparison) → is_safe_entry (mapping r) ≡ true → IsTight r

pub using-IsCautious : IsCautious using_result_to_change
unfolding using_result_to_change is_safe_entry
using-IsCautious unchanged h base head k t = k ∙ t
using-IsCautious semantic_equivalent h base head k t = k ∙ t
using-IsCautious tightened_and h base head k t = k t
using-IsCautious tightened_or_drop h base head k t = k t
using-IsCautious semantic_tightened h base head k t = k t
using-IsCautious loosened_and_drop h base head k t = absurd (ground arith)
using-IsCautious loosened_or h base head k t = absurd (ground arith)
using-IsCautious semantic_loosened h base head k t = absurd (ground arith)
using-IsCautious requires_review h base head k t = absurd (ground arith)

pub with_check-IsCautious : IsCautious with_check_result_to_change
unfolding with_check_result_to_change is_safe_entry
with_check-IsCautious unchanged h base head k t = k ∙ t
with_check-IsCautious semantic_equivalent h base head k t = k ∙ t
with_check-IsCautious tightened_and h base head k t = k t
with_check-IsCautious tightened_or_drop h base head k t = k t
with_check-IsCautious semantic_tightened h base head k t = k t
with_check-IsCautious loosened_and_drop h base head k t = absurd (ground arith)
with_check-IsCautious loosened_or h base head k t = absurd (ground arith)
with_check-IsCautious semantic_loosened h base head k t = absurd (ground arith)
with_check-IsCautious requires_review h base head k t = absurd (ground arith)

module _ {F C : Type 0} (solver : Solver F C) (sql : Sql) (laws : SolverLaws solver)
    (w : laws.World) (unparsed : String → Bool) where
  abbrev value : String → Truth
  value = laws.value w

  compare_parsed_sound :
      (b h : String) (m n : Option Node)
      → parse_expr sql (some b) ≡ m
      → parse_expr sql (some h) ≡ n
      → Clear solver sql value (some b) (some h)
      → Promise
          (compare_parsed solver sql m n)
          (clause_truth sql value unparsed b)
          (clause_truth sql value unparsed h)
  unfolding compare_parsed clause_truth
  compare_parsed_sound b h none n e f clear = tt
  compare_parsed_sound b h (some m) none e f clear = tt
  compare_parsed_sound b h (some m) (some n) e f clear =
      rw (e, f, clause_truth)
        (let (apart, known) = clear m n e f in
          compare_nodes_sound solver sql laws w m n apart known)

  -- The comparison of two non-empty clauses keeps its promise at every row: unchanged and
  -- equivalent mean one value, a tightened head admits no row that the base refused, and a
  -- loosened one admits every row that the base admitted. The keys tell the parts of the clauses
  -- apart, Z3 and the translation of the leaves keep their laws, and where the solver gave the
  -- result, no leaf of the clauses is NULL on the row.
  pub compare_predicates_sound :
      (b h : String)
      → Clear solver sql value (some b) (some h)
      → (b == "") ≡ false
      → (h == "") ≡ false
      → Promise
          (compare_predicates solver sql (some b) (some h))
          (clause_truth sql value unparsed b)
          (clause_truth sql value unparsed h)
  unfolding compare_predicates no_text
  compare_predicates_sound b h clear k l = rw (k, l) (compare_parsed_sound b h _ _ refl refl clear)

  graded :
      (location label : String) (mapping : Comparison → Option (ChangeKind × Classification))
      (b h : Option String)
      → all_safe (predicate_change solver sql location label mapping b h)
        ≡ is_safe_entry (mapping (compare_predicates solver sql b h))
  unfolding predicate_change all_safe all is_safe_entry
  graded location label mapping b h =
      elim (Option-cases (mapping (compare_predicates solver sql b h))) [
        | inl e ↦ rw (e, predicate_change, is_safe_entry)
        | inr ((kind, c), e) ↦ rw (e, predicate_change, is_safe_entry) (ground arith)
      ]

  one_absent_right :
      (b : String)
      → HasText (some b)
      → compare_predicates solver sql (some b) none ≡ requires_review
  unfolding compare_predicates no_text
  one_absent_right b t = ground arith

  one_absent_left :
      (h : String)
      → HasText (some h)
      → compare_predicates solver sql none (some h) ≡ requires_review
  unfolding compare_predicates no_text
  one_absent_left h t = ground arith

  -- A safe change neither adds nor removes a clause.
  pub safe_presence :
      (location label : String) (mapping : Comparison → Option (ChangeKind × Classification))
      (b h : Option String)
      → is_safe_entry (mapping requires_review) ≡ false
      → HasText b
      → HasText h
      → all_safe (predicate_change solver sql location label mapping b h) ≡ true
      → is_some b ≡ is_some h
  safe_presence location label mapping none none n tb th k = refl
  safe_presence location label mapping (some b) (some h) n tb th k = refl
  safe_presence location label mapping (some b) none n tb th k =
      let r = one_absent_right b tb in
      absurd (
        ground (
          arith,
          graded location label mapping (some b) none,
          ap (λ r. is_safe_entry (mapping r)) r,
        ))
  safe_presence location label mapping none (some h) n tb th k =
      let r = one_absent_left h th in
      absurd (
        ground (
          arith,
          graded location label mapping none (some h),
          ap (λ r. is_safe_entry (mapping r)) r,
        ))

  -- A safe change of a clause admits no row that the base refused.
  pub safe_clause :
      (location label : String) (mapping : Comparison → Option (ChangeKind × Classification))
      (b h : Option String)
      → IsCautious mapping
      → is_safe_entry (mapping requires_review) ≡ false
      → Clear solver sql value b h
      → HasText b
      → HasText h
      → all_safe (predicate_change solver sql location label mapping b h) ≡ true
      → (otherwise : Bool) → clause_holds (clause_truth sql value unparsed) otherwise h ≡ true
      → clause_holds (clause_truth sql value unparsed) otherwise b ≡ true
  unfolding clause_holds
  safe_clause location label mapping none none c n clear tb th k otherwise t = t
  safe_clause location label mapping (some b) none c n clear tb th k otherwise t =
      absurd (ground (arith, safe_presence location label mapping (some b) none n tb th k))
  safe_clause location label mapping none (some h) c n clear tb th k otherwise t =
      absurd (ground (arith, safe_presence location label mapping none (some h) n tb th k))
  safe_clause location label mapping (some b) (some h) c n clear tb th k otherwise t =
      c (compare_predicates solver sql (some b) (some h))
        (sym (graded location label mapping (some b) (some h)) ∙ k) _ _
        (compare_predicates_sound b h clear tb th) t
