-- ===== src/Examples/Floors.antt =====
-- A restrictive policy that loses a role (src/pgrls/diff/policies.py): the diff and the rows before
-- and after.
use pgrls.Prelude.{
  ◌==◌, nat_eq, string_eq, bool_eq, pair_eq, option_eq, any, all, filter, flat_map, contains, dedup,
  subset, same_set, strict_subset, intersects, sort_by, find_last, concat, str_le, String, ◌≡◌,
  refl, Bool, true, false, List, [], ◌∷◌,
}
use pgrls.Model.{Policy, Table, select, command_eq}
use pgrls.Rls.{admitted, grants_row, lets_row, applies, clause_for, clause_holds, target_roles}
use pgrls.Diff.{all_safe, change}
use pgrls.Diff.Predicates.{compare_predicates, compare_nodes}
use pgrls.Diff.Shapes.{
  diff_policy_shapes, two_sided, policy_changes, predicate_change, flag_change, command_changes,
  command_change, roles_change, canonical_roles, using_result_to_change,
  with_check_result_to_change,
}
use pgrls.Sql.{parse_expr}
use pgrls.Sql.Keys.{canonical_key, same_tree, tree, tagged}
use pgrls.Sql.Shape.{shape}
use pgrls.Examples.{demo_sql, demo_solver, docs, own}

abbrev floor : List String → Policy
floor roles = record (own "b") { name = "floor"; permissive = false; roles = roles }

abbrev everyone : Policy
everyone = record (own "a") { roles = "PUBLIC" ∷ [] }

abbrev floored : List String → Table
floored roles = docs (everyone ∷ floor roles ∷ []) []

-- Only the clause "a" is true of the row.
abbrev archived_row : String → Bool
archived_row c = c == "a"

narrowed_floor_is_safe :
    all_safe (
      diff_policy_shapes demo_solver demo_sql
        (floored ("anon" ∷ "authenticated" ∷ []))
        (floored ("authenticated" ∷ [])))
    ≡ true
unfolding all_safe all diff_policy_shapes two_sided policy_changes predicate_change flat_map sort_by
    filter dedup contains find_last flag_change command_changes command_change roles_change same_set
    strict_subset subset canonical_roles using_result_to_change with_check_result_to_change
    compare_predicates compare_nodes parse_expr canonical_key same_tree tree shape tagged concat
    change str_le
narrowed_floor_is_safe = refl

refused_before :
    admitted archived_row select
      ("anon" ∷ "PUBLIC" ∷ [])
      (floored ("anon" ∷ "authenticated" ∷ [])).policies
    ≡ false
unfolding admitted any grants_row applies intersects contains clause_for all lets_row target_roles
    clause_holds
refused_before = refl

admitted_after :
    admitted archived_row select ("anon" ∷ "PUBLIC" ∷ []) (floored ("authenticated" ∷ [])).policies
    ≡ true
unfolding admitted any grants_row applies intersects contains clause_for all lets_row target_roles
    clause_holds
admitted_after = refl
