-- ===== src/Diff/Renames/Grades.antt =====
-- The grade of a rename whose clauses changed.
use pgrls.Prelude.{
  and_left, and_right, nat_eq, string_eq, bool_eq, pair_eq, option_eq, ◌≡◌, ◌∙◌, Bool, true, ◌&&◌,
  arith,
}
use pgrls.Diff.{Classification, safe, is_safe}
use pgrls.Diff.Predicates.{
  Comparison, unchanged, tightened_and, loosened_and_drop, loosened_or, tightened_or_drop,
  semantic_equivalent, semantic_tightened, semantic_loosened, requires_review,
}
use pgrls.Diff.Predicates.Solved.{Promise}
use pgrls.Diff.Renames.{result_to_classification, worse, grade_rename}

abbrev IsTight : Comparison → Type 0
IsTight r = (base head : Bool) → Promise r base head → head ≡ true → base ≡ true

-- A grade that a result leaves safe was safe, and the result is a tightening.
worse_safe :
    (w : Classification) (r : Comparison)
    → is_safe (worse w r) ≡ true
    → (is_safe w ≡ true) × IsTight r
unfolding worse result_to_classification
worse_safe w unchanged h = (h, λ base head k t. k ∙ t)
worse_safe w semantic_equivalent h = (h, λ base head k t. k ∙ t)
worse_safe w tightened_and h = (ground arith, λ base head k t. k t)
worse_safe w tightened_or_drop h = (ground arith, λ base head k t. k t)
worse_safe w semantic_tightened h = (ground arith, λ base head k t. k t)
worse_safe w loosened_and_drop h = absurd (ground arith)
worse_safe w loosened_or h = absurd (ground arith)
worse_safe w semantic_loosened h = absurd (ground arith)
worse_safe w requires_review h = absurd (ground arith)

-- A rename that is graded safe admits by its two clauses together no row that they did not admit
-- before, where each result of the comparison keeps its promise of the clause.
pub grade_rename_cautious :
    (using_result check_result : Comparison)
    → is_safe (grade_rename using_result check_result) ≡ true
    → (using_base using_head check_base check_head : Bool)
    → Promise using_result using_base using_head
    → Promise check_result check_base check_head
    → (using_head && check_head) ≡ true
    → (using_base && check_base) ≡ true
unfolding grade_rename
grade_rename_cautious u c h ub uh cb ch p q t =
    let (first, check_tight) = worse_safe (worse safe u) c h in
    let (start, using_tight) = worse_safe safe u first in
    let using_too = using_tight ub uh p (and_left uh ch t) in
    let check_too = check_tight cb ch q (and_right uh ch t) in ground (arith, using_too, check_too)
