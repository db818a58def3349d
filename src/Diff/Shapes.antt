-- ===== src/Diff/Shapes.antt =====
-- src/pgrls/diff/policies.py, `_command_change` and `_diff_policy_shapes`: how the policies that
-- both sides have changed.
pub mod Clauses
pub mod Pairs
pub mod Narrowing
use pgrls.Prelude.{
  ltb, leb, nat_eqb, nat_eqb_iff, if◌then◌else◌, Bool-cases, Option-cases, Bool-ext, and_left,
  and_right, Eq, ◌==◌, ==→eq, ==_refl, nat_eq, string_eq, bool_eqb, bool_eqb_iff, bool_eq, pair_eqb,
  pair_eqb_iff, pair_eq, option_eqb, option_eqb_iff, option_eq, length, length-append, is_empty,
  any, all, filter, is_empty-append, any-append, all-append, is_empty-filter, In, In-cons,
  In-cons_mono, In-swap, In-append, In-append_left, In-append_right, any-In, In-any, all-In, In-all,
  In-filter, filter-In, length-map, is_empty-map, any-map_never, In-map, map-In, flat_map,
  all-flat_map, flat_map-In, here, there, contains, dedup, difference, subset, same_set,
  strict_subset, intersects, contains-In, In-contains, contains_head, contains_cons,
  contains-append, In-subset, subset-In, intersects-In, In-intersects, In-dedup, dedup-In,
  is_empty-dedup, insert_by, sort_by, is_empty-sort_by, sort_by-In, In-sort_by, find_last,
  find_last-In, In-find_last, Distinct, find_last-Distinct, concat, join, str_le, unseen,
  unseen-le-length, unseen_mono, unseen_strict, ℕ, zero, suc, ◌+◌, ◌-◌, ◌*◌, ◌/◌, ◌%◌, ◌≤◌, ◌<◌,
  String, ◌≡◌, refl, sym, ap, subst, ◌∙◌, ◌≢◌, ◌↔◌, ◌⊎◌, inl, inr, Bool, true, false, ◌&&◌, ◌||◌,
  not, Option, none, some, List, [], ◌∷◌, ◌++◌, map, arith, eq_iff,
}
use pgrls.Model.{Policy, Table, Command, for_all, command_eq, command_text, qualified_name}
use pgrls.Sql.{Sql}
use pgrls.Diff.{
  Change, ChangeKind, Classification, change, safe, breaking, review, dangerous,
  permissive_flag_tightened, permissive_flag_loosened, command_broadened, command_narrowed,
  roles_widened, roles_narrowed, roles_disjoint_replaced, using_tightened, using_loosened,
  using_requires_review, with_check_tightened, with_check_loosened, with_check_requires_review,
}
use pgrls.Diff.Predicates.{
  Comparison, unchanged, tightened_and, loosened_and_drop, loosened_or, tightened_or_drop,
  semantic_equivalent, semantic_tightened, semantic_loosened, requires_review, Solver,
  compare_predicates, counterexample_for,
}
use pgrls.Diff.Policies.{by_name, names}

-- The two tables `_USING_RESULT_TO_CHANGE` and `_WITH_CHECK_RESULT_TO_CHANGE`, which have no entry
-- for the two results that are no change.
unfoldable pub using_result_to_change : Comparison → Option (ChangeKind × Classification)
using_result_to_change unchanged = none
using_result_to_change semantic_equivalent = none
using_result_to_change tightened_and = some (using_tightened, safe)
using_result_to_change loosened_and_drop = some (using_loosened, dangerous)
using_result_to_change loosened_or = some (using_loosened, dangerous)
using_result_to_change tightened_or_drop = some (using_tightened, safe)
using_result_to_change semantic_tightened = some (using_tightened, safe)
using_result_to_change semantic_loosened = some (using_loosened, dangerous)
using_result_to_change requires_review = some (using_requires_review, review)

unfoldable pub with_check_result_to_change : Comparison → Option (ChangeKind × Classification)
with_check_result_to_change unchanged = none
with_check_result_to_change semantic_equivalent = none
with_check_result_to_change tightened_and = some (with_check_tightened, safe)
with_check_result_to_change loosened_and_drop = some (with_check_loosened, dangerous)
with_check_result_to_change loosened_or = some (with_check_loosened, dangerous)
with_check_result_to_change tightened_or_drop = some (with_check_tightened, safe)
with_check_result_to_change semantic_tightened = some (with_check_tightened, safe)
with_check_result_to_change semantic_loosened = some (with_check_loosened, dangerous)
with_check_result_to_change requires_review = some (with_check_requires_review, review)

abbrev pub result_message : Comparison → String
result_message unchanged = ""
result_message semantic_equivalent = ""
result_message tightened_and = "tightened (clause added)"
result_message loosened_and_drop = "loosened (clause removed) — broader row set"
result_message loosened_or = "loosened (disjunct added) — broader row set"
result_message tightened_or_drop = "tightened (disjunct removed)"
result_message semantic_tightened =
    "tightened (Z3-verified semantic stricter — head admits a strict subset of base's row set)"
result_message semantic_loosened =
    "loosened (Z3-verified semantic looser — head admits a strict superset of base's row set)"
result_message requires_review =
    "changed in a way the auto-classifier can't analyze — manual review required"

abbrev pub is_semantic_loosened : Comparison → Bool
is_semantic_loosened semantic_loosened = true
is_semantic_loosened _ = false

unfoldable pub flag_change : String → Bool → Bool → List Change
flag_change location base head =
    if base == head
    then []
    else if base && not head
    then change permissive_flag_tightened safe location (
        concat ("Policy " ∷ location ∷ " changed from PERMISSIVE to RESTRICTIVE (tightened)." ∷ []))
      ∷ []
    else change permissive_flag_loosened dangerous location
        (concat ("Policy " ∷ location ∷ " changed from RESTRICTIVE to PERMISSIVE (loosened)." ∷ []))
      ∷ []

unfoldable pub command_change : Command → Command → Option (ChangeKind × Classification)
command_change base head =
    if base == head
    then none
    else if head == for_all
    then some (command_broadened, dangerous)
    else some (command_narrowed, breaking)

abbrev pub label_of : ChangeKind → String
label_of command_narrowed = "narrowed"
label_of _ = "broadened"

unfoldable pub command_changes : String → Command → Command → List Change
unfolding command_change
command_changes location base head = elim (command_change base head) [
  | none ↦ []
  | some (kind, classification) ↦
      change kind classification location (
        concat (
          "Policy "
          ∷ location
          ∷ " command "
          ∷ command_text base
          ∷ " → "
          ∷ command_text head
          ∷ " ("
          ∷ label_of kind
          ∷ ")."
          ∷ []))
      ∷ []
]

unfoldable pub canonical_roles : Sql → Policy → List String
canonical_roles sql p = map (λ r. if sql.lower r == "public" then "PUBLIC" else r) p.roles

unfoldable pub shown_roles : Sql → List String → String
shown_roles sql roles = sql.repr_list (sort_by str_le (dedup roles))

unfoldable pub roles_change : Sql → String → List String → List String → List Change
unfolding shown_roles
roles_change sql location base head =
    let gained_public = contains "PUBLIC" head && not (contains "PUBLIC" base) in
    let from_to = concat (" from " ∷ shown_roles sql base ∷ " to " ∷ shown_roles sql head ∷ []) in
    if same_set base head
    then []
    else if strict_subset base head || gained_public
    then change roles_widened dangerous location (
        concat (
          "Policy "
          ∷ location
          ∷ " roles widened"
          ∷ from_to
          ∷ (if gained_public then " (PUBLIC covers every role)." else ".")
          ∷ []))
      ∷ []
    else if strict_subset head base
    then change roles_narrowed safe location
        (concat ("Policy " ∷ location ∷ " roles narrowed" ∷ from_to ∷ "." ∷ []))
      ∷ []
    else change roles_disjoint_replaced review location
        (concat ("Policy " ∷ location ∷ " roles replaced" ∷ from_to ∷ " — review required." ∷ []))
      ∷ []

module _ {F C : Type 0} (solver : Solver F C) (sql : Sql) where
  unfoldable pub predicate_change :
      String
      → String
      → (Comparison → Option (ChangeKind × Classification))
      → Option String
      → Option String
      → List Change
  predicate_change location label mapping base_sql head_sql =
      let result = compare_predicates solver sql base_sql head_sql in
      elim (mapping result) [
        | none ↦ []
        | some (kind, classification) ↦
            record {
              kind = kind;
              classification = classification;
              location = location;
              message = concat (
                  "Policy "
                  ∷ location
                  ∷ " "
                  ∷ label
                  ∷ " predicate "
                  ∷ result_message result
                  ∷ "."
                  ∷ []);
              before_sql = base_sql;
              after_sql = head_sql;
              counterexample =
                  if is_semantic_loosened result
                  then counterexample_for solver sql base_sql head_sql
                  else none;
            }
            ∷ []
      ]

  unfoldable pub policy_changes : String → Policy → Policy → List Change
  unfolding predicate_change
  policy_changes location base head =
      flag_change location base.permissive head.permissive
      ++ command_changes location base.command head.command
      ++ roles_change sql location (canonical_roles sql base) (canonical_roles sql head)
      ++ predicate_change location "USING" using_result_to_change base.using_sql head.using_sql
      ++ predicate_change location "WITH CHECK" with_check_result_to_change base.with_check_sql
          head.with_check_sql

  unfoldable pub two_sided : String → Option Policy → Option Policy → List Change
  two_sided location none q = []
  two_sided location (some p) none = []
  two_sided location (some p) (some q) = policy_changes location p q

  unfoldable pub diff_policy_shapes : Table → Table → List Change
  unfolding two_sided
  diff_policy_shapes base head =
      flat_map
        (λ name.
          two_sided (concat (qualified_name base ∷ "." ∷ name ∷ [])) (by_name name base.policies)
            (by_name name head.policies))
        (sort_by str_le
          (filter (λ name. contains name (names head.policies)) (dedup (names base.policies))))
