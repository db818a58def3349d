-- ===== src/Diff/Renames.antt =====
-- src/pgrls/diff/policies.py, `_grade_rename`, `_detect_policy_renames` and `_diff_policies`: which
-- one-sided policies are one policy under two names.
pub mod Grades
use pgrls.Prelude.{
  ltb, leb, nat_eqb, nat_eqb_iff, if◌then◌else◌, Bool-cases, Option-cases, Bool-ext, and_left,
  and_right, Eq, ◌==◌, ==→eq, ==_refl, nat_eq, string_eq, bool_eqb, bool_eqb_iff, bool_eq, pair_eqb,
  pair_eqb_iff, pair_eq, option_eqb, option_eqb_iff, option_eq, length, length-append, is_empty,
  any, all, filter, is_empty-append, any-append, all-append, is_empty-filter, In, In-cons,
  In-cons_mono, In-swap, In-append, In-append_left, In-append_right, any-In, In-any, all-In, In-all,
  In-filter, filter-In, length-map, is_empty-map, any-map_never, In-map, map-In, flat_map,
  all-flat_map, flat_map-In, In-flat_map, here, there, contains, dedup, difference, subset,
  same_set, strict_subset, intersects, contains-In, In-contains, contains_head, contains_cons,
  contains-append, In-subset, subset-In, intersects-In, In-intersects, In-dedup, dedup-In,
  is_empty-dedup, insert_by, sort_by, is_empty-sort_by, sort_by-In, In-sort_by, find_last,
  find_last-In, In-find_last, Distinct, find_last-Distinct, concat, join, str_le, unseen,
  unseen-le-length, unseen_mono, unseen_strict, ℕ, zero, suc, ◌+◌, ◌-◌, ◌*◌, ◌/◌, ◌%◌, ◌≤◌, ◌<◌,
  String, ◌≡◌, refl, sym, ap, subst, ◌∙◌, ◌≢◌, ◌↔◌, ◌⊎◌, inl, inr, Bool, true, false, ◌&&◌, ◌||◌,
  not, Option, none, some, List, [], ◌∷◌, ◌++◌, map, arith, eq_iff,
}
use pgrls.Model.{Policy, Table, Command, command_eq, qualified_name}
use pgrls.Sql.{Sql}
use pgrls.Diff.{Change, Classification, safe, breaking, review, dangerous, policy_renamed}
use pgrls.Diff.Predicates.{
  Comparison, unchanged, tightened_and, loosened_and_drop, loosened_or, tightened_or_drop,
  semantic_equivalent, semantic_tightened, semantic_loosened, requires_review, Solver,
  compare_predicates,
}
use pgrls.Diff.Policies.{names, one_sided_changes}

pub data RenameDetection : Type 0 where
  off strict relaxed : RenameDetection

abbrev pub is_relaxed : RenameDetection → Bool
is_relaxed off = false
is_relaxed strict = false
is_relaxed relaxed = true

-- `_RESULT_TO_CLASSIFICATION`, without an entry for the equal results.
unfoldable pub result_to_classification : Comparison → Option Classification
result_to_classification unchanged = none
result_to_classification semantic_equivalent = none
result_to_classification tightened_and = some safe
result_to_classification tightened_or_drop = some safe
result_to_classification semantic_tightened = some safe
result_to_classification loosened_and_drop = some dangerous
result_to_classification loosened_or = some dangerous
result_to_classification semantic_loosened = some dangerous
result_to_classification requires_review = some review

abbrev pub is_equal_result : Comparison → Bool
is_equal_result unchanged = true
is_equal_result semantic_equivalent = true
is_equal_result _ = false

-- `_CLASSIFICATION_RANK`. No result of a comparison is `breaking`, which has no entry there.
abbrev pub classification_rank : Classification → ℕ
classification_rank safe = 0
classification_rank breaking = 0
classification_rank review = 1
classification_rank dangerous = 2

unfoldable pub worse : Classification → Comparison → Classification
unfolding result_to_classification
worse worst result = elim (result_to_classification result) [
  | none ↦ worst
  | some c ↦ if ltb (classification_rank worst) (classification_rank c) then c else worst
]

unfoldable pub grade_rename : Comparison → Comparison → Classification
unfolding worse
grade_rename using_result check_result = worse (worse safe using_result) check_result

-- The key of a bucket: `(permissive, command, frozenset(roles))`.
unfoldable pub same_bucket : Policy → Policy → Bool
same_bucket p q =
    p.permissive == q.permissive && (p.command == q.command && same_set p.roles q.roles)

-- `buckets[key].append(p)`; a bucket is listed with the policy that opened it.
unfoldable pub put : Policy → List (Policy × List Policy) → List (Policy × List Policy)
unfolding same_bucket
put p [] = (p, p ∷ []) ∷ []
put p ((r, ps) ∷ bs) =
    let rest = put p bs in if same_bucket p r then (r, ps ++ p ∷ []) ∷ bs else (r, ps) ∷ rest

unfoldable pub fill : List (Policy × List Policy) → List Policy → List (Policy × List Policy)
unfolding put
fill bs [] = bs
fill bs (p ∷ ps) = fill (put p bs) ps

unfoldable pub bucket_of : Policy → List (Policy × List Policy) → List Policy
unfolding same_bucket
bucket_of p [] = []
bucket_of p ((r, ps) ∷ bs) = let rest = bucket_of p bs in if same_bucket p r then ps else rest

-- The policies whose name the other side does not have.
unfoldable pub unmatched : List Policy → List Policy → List Policy
unmatched ps others = filter (λ (p : Policy). not (contains p.name (names others))) ps

-- The clause that drove the grade is shown, USING first.
unfoldable pub using_drove : Classification → Comparison → Bool
unfolding result_to_classification
using_drove worst result = elim (result_to_classification result) [
  | none ↦ false
  | some c ↦ classification_rank c == classification_rank worst
]

abbrev pub detail : Classification → String
detail dangerous = "predicate loosened — broader row set"
detail safe = "predicate tightened"
detail breaking = "predicate changed in a way the classifier can't analyze — review required"
detail review = "predicate changed in a way the classifier can't analyze — review required"

module _ {F C : Type 0} (solver : Solver F C) (sql : Sql) (detection : RenameDetection)
    (rename_classification : Classification) where
  -- A match is its change with the two names that it consumes.
  unfoldable pub renamed : String → Policy → Policy → List (Change × String × String)
  unfolding grade_rename using_drove
  renamed qname b h =
      let location = concat (qname ∷ "." ∷ h.name ∷ []) in
      let using_result = compare_predicates solver sql b.using_sql h.using_sql in
      let check_result = compare_predicates solver sql b.with_check_sql h.with_check_sql in
      let grade = grade_rename using_result check_result in
      let first = concat ("Policy " ∷ qname ∷ "." ∷ b.name ∷ " renamed to " ∷ h.name ∷ []) in
      let pure : Change = record {
        kind = policy_renamed;
        classification = rename_classification;
        location = location;
        message = concat (first ∷ " (name-only change; row access unchanged)." ∷ []);
        before_sql = none;
        after_sql = none;
        counterexample = none;
      } in
      let edited : Change = record {
        kind = policy_renamed;
        classification = grade;
        location = location;
        message = concat (first ∷ "; " ∷ detail grade ∷ "." ∷ []);
        before_sql = if using_drove grade using_result then b.using_sql else b.with_check_sql;
        after_sql = if using_drove grade using_result then h.using_sql else h.with_check_sql;
        counterexample = none;
      } in
      if is_equal_result using_result && is_equal_result check_result
      then (pure, b.name, h.name) ∷ []
      else if is_relaxed detection
      then (edited, b.name, h.name) ∷ []
      else []

  -- A bucket with one policy on each side is a match; the others are left for add and drop.
  unfoldable pub match_bucket : String → List Policy → List Policy → List (Change × String × String)
  match_bucket qname (b ∷ []) (h ∷ []) = renamed qname b h
  match_bucket qname _ _ = []

  unfoldable pub detect_policy_renames : Table → Table → List (Change × String × String)
  unfolding match_bucket
  detect_policy_renames base head =
      let head_buckets = fill [] (unmatched head.policies base.policies) in
      flat_map
        (λ (bucket : Policy × List Policy).
          match_bucket (qualified_name base) bucket.1 (bucket_of bucket.0 head_buckets))
        (fill [] (unmatched base.policies head.policies))

  abbrev pub location_le : Change → Change → Bool
  location_le c d = str_le c.location d.location

  unfoldable pub with_renames : Table → Table → List Change
  with_renames base head =
      let matches = detect_policy_renames base head in
      sort_by location_le (map (λ (m : Change × String × String). m.0) matches)
      ++ one_sided_changes base head (map (λ (m : Change × String × String). m.1) matches)
          (map (λ (m : Change × String × String). m.2) matches)

  unfoldable pub diff_policies : Table → Table → List Change
  diff_policies base head = elim detection [
    | off ↦ one_sided_changes base head [] []
    | strict ↦ with_renames base head
    | relaxed ↦ with_renames base head
  ]
