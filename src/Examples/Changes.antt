-- ===== src/Examples/Changes.antt =====
-- The theorems on diffs at two versions of a table.
use pgrls.Prelude.{
  ◌==◌, nat_eq, string_eq, bool_eq, pair_eq, option_eq, any, all, filter, In, flat_map, here,
  contains, dedup, difference, subset, same_set, strict_subset, intersects, sort_by, find_last,
  concat, String, ◌≡◌, refl, sym, ap, subst, ◌⊎◌, true, false, ◌&&◌, none, some, List, [], ◌∷◌,
  arith,
}
use pgrls.Model.{
  dotted, Schema, command_text, qualified_name, ColumnGrant, Policy, Table, select, command_eq,
}
use pgrls.Sql.{parse_expr}
use pgrls.Sql.Truth.{admits, eval, conj}
use pgrls.Sql.Keys.{canonical_key, same_tree, tree, tagged}
use pgrls.Sql.Shape.{shape}
use pgrls.Diff.Predicates.{
  tightened_and, unchanged, compare_predicates, compare_nodes, one_more, keys, and_clauses,
  or_clauses, classify_via_z3, translate, to_z3, as_bool_predicate, classify_formulas, implies,
  grade,
}
use pgrls.Rls.{
  reaches_row, has_privilege, is_owner, data_role_held, grants_row, lets_row, applies, clause_for,
  admitted, granted, granted_on_column,
}
use pgrls.Access.Cells.Clauses.{clause_truth}
use pgrls.Diff.{safe, change, all_safe}
use pgrls.Diff.Grants.{
  diff_grants, diff_table_grants, diff_column_grants, role_changes, column_changes, privileges_of,
  column_privileges_of,
}
use pgrls.Diff.Grants.Narrowing.{safe_grants_narrow, safe_column_grants_narrow}
use pgrls.Diff.Policies.{one_sided_changes}
use pgrls.Diff.Shapes.{
  diff_policy_shapes, two_sided, policy_changes, predicate_change, flag_change, command_changes,
  command_change, roles_change, canonical_roles, using_result_to_change,
  with_check_result_to_change,
}
use pgrls.Diff.Shapes.Clauses.{Clear}
use pgrls.Diff.Shapes.Pairs.{IsIntrospected}
use pgrls.Diff.Shapes.Narrowing.{KeepsRoles, safe_changes_narrow}
use pgrls.Model.Ancestors.{ok, cycle, ancestors_of}
use pgrls.Model.Ancestors.Lineage.{IsLineage, ancestors_of_settles}
use pgrls.Diff.Renames.Grades.{grade_rename_cautious}
use pgrls.Diff.Renames.{grade_rename, worse, result_to_classification, off, diff_policies}
use pgrls.Diff.Schemas.{
  diff_schemas, changes_of, table_changes, rls_changes, force_changes, diff_columns,
}
use pgrls.Diff.Schemas.Narrowing.{Comparable, safe_diff_narrows}
use pgrls.Examples.{
  app_role, demo_sql, demo_value, demo_unparsed, demo_solver, demo_solver_laws, demo-Clear,
  wide_docs, narrow_docs, first, own, base_docs, head_docs, session_roles, only,
}

read_own : (clause : String) → (clause == "") ≡ false → IsIntrospected demo_sql (own clause)
unfolding canonical_roles
read_own clause k = record {
  names_roles = refl;
  canonical = refl;
  using_text = k;
  with_check_text = tt;
}

-- Of a row of kind 1 no leaf is NULL.
own-Clear :
    (p q : Policy)
    → In p wide_docs.policies
    → In q narrow_docs.policies
    → Clear demo_solver demo_sql demo_value p.using_sql q.using_sql
      × Clear demo_solver demo_sql demo_value p.with_check_sql q.with_check_sql
unfolding parse_expr
own-Clear p q m n =
    subst
      (λ r.
        Clear demo_solver demo_sql demo_value r.using_sql q.using_sql
        × Clear demo_solver demo_sql demo_value r.with_check_sql q.with_check_sql)
      (sym (only m))
      (subst
        (λ r.
          Clear demo_solver demo_sql demo_value (some "b") r.using_sql
          × Clear demo_solver demo_sql demo_value none r.with_check_sql)
        (sym (only n)) (demo-Clear, λ a b e f. absurd (ground arith)))

roles_kept : KeepsRoles wide_docs.policies narrow_docs.policies
roles_kept p q m n i k = absurd (ground (arith, ap (λ (r : Policy). r.permissive) (only m)))

shapes_are_safe : all_safe (diff_policy_shapes demo_solver demo_sql wide_docs narrow_docs) ≡ true
unfolding all_safe all diff_policy_shapes two_sided policy_changes predicate_change flat_map sort_by
    filter contains find_last flag_change command_changes command_change roles_change same_set
    subset canonical_roles using_result_to_change with_check_result_to_change compare_predicates
    compare_nodes parse_expr canonical_key same_tree tree shape tagged concat one_more strict_subset
    keys and_clauses or_clauses dedup classify_via_z3 translate to_z3 as_bool_predicate
    classify_formulas implies grade
shapes_are_safe = refl

none_one_sided : all_safe (one_sided_changes wide_docs narrow_docs [] []) ≡ true
unfolding all_safe all one_sided_changes flat_map sort_by dedup contains find_last
none_one_sided = refl

head_admits :
    admitted
      (clause_truth demo_sql demo_value demo_unparsed)
      select
      session_roles
      narrow_docs.policies
    ≡ true
unfolding admitted any grants_row applies intersects contains clause_for clause_truth parse_expr
    admits eval conj all lets_row
head_admits = refl

grants_are_safe : all_safe (diff_grants demo_sql base_docs head_docs) ≡ true
unfolding all_safe all diff_grants diff_table_grants flat_map sort_by dedup contains role_changes
    difference filter privileges_of change diff_column_grants
grants_are_safe = refl

select_granted : granted "SELECT" session_roles head_docs.grants ≡ true
unfolding granted any contains
select_granted = refl

safe_changes_narrow_example :
    admitted
      (clause_truth demo_sql demo_value demo_unparsed)
      select
      session_roles
      wide_docs.policies
    ≡ true
unfolding contains demo_solver_laws
safe_changes_narrow_example =
    safe_changes_narrow demo_solver demo_sql demo_solver_laws first demo_unparsed wide_docs
      narrow_docs (refl, tt) (refl, tt) (λ p m. rw (only m) (read_own "b" refl))
      (λ q m. rw (only m) (read_own "a" refl)) own-Clear shapes_are_safe roles_kept none_one_sided
      select session_roles head_admits

safe_grants_narrow_example : granted "SELECT" session_roles base_docs.grants ≡ true
safe_grants_narrow_example =
    safe_grants_narrow demo_sql base_docs head_docs grants_are_safe "SELECT" session_roles
      select_granted

abbrev column_grant : ColumnGrant
column_grant = record { role = "authenticated"; column = "id"; privileges = "SELECT" ∷ [] }

-- A table whose column `id` has a grant.
abbrev with_column : Table → Table
with_column t = record t { column_grants = column_grant ∷ [] }

columns_are_safe :
    all_safe (diff_grants demo_sql (with_column base_docs) (with_column head_docs)) ≡ true
unfolding all_safe all diff_grants diff_table_grants flat_map sort_by dedup contains role_changes
    difference filter privileges_of change diff_column_grants column_changes column_privileges_of
columns_are_safe = refl

column_is_granted : granted_on_column "SELECT" "id" session_roles (column_grant ∷ []) ≡ true
unfolding granted_on_column any contains
column_is_granted = refl

safe_column_grants_narrow_example :
    granted_on_column "SELECT" "id" session_roles (column_grant ∷ []) ≡ true
safe_column_grants_narrow_example =
    safe_column_grants_narrow demo_sql (with_column base_docs) (with_column head_docs)
      columns_are_safe "SELECT" "id" session_roles column_is_granted

abbrev schema_of : Table → Schema
schema_of t = record {
  tables = t ∷ [];
  role_memberships = none;
  bypassrls_roles = [];
  owner_reachable_members = [];
  set_gucs = [];
  role_set_gucs = [];
}

docs-Comparable : Comparable demo_solver demo_sql demo_value wide_docs narrow_docs
unfolding contains
docs-Comparable = record {
  same_owner = refl;
  distinct_base = (refl, tt);
  distinct_head = (refl, tt);
  base_read = λ p m. rw (only m) (read_own "b" refl);
  head_read = λ q m. rw (only m) (read_own "a" refl);
  clear = own-Clear;
  keeps_roles = roles_kept;
}

schemas_are_safe :
    all_safe
      (diff_schemas demo_solver demo_sql off safe (schema_of wide_docs) (schema_of narrow_docs))
    ≡ true
unfolding all_safe all diff_policy_shapes two_sided policy_changes predicate_change flat_map sort_by
    filter contains find_last flag_change command_changes command_change roles_change same_set
    subset canonical_roles using_result_to_change with_check_result_to_change compare_predicates
    compare_nodes parse_expr canonical_key same_tree tree shape tagged concat one_more strict_subset
    keys and_clauses or_clauses dedup classify_via_z3 translate to_z3 as_bool_predicate
    classify_formulas implies grade one_sided_changes diff_grants diff_table_grants role_changes
    difference privileges_of change diff_column_grants diff_schemas changes_of table_changes
    diff_policies rls_changes force_changes diff_columns qualified_name dotted
schemas_are_safe = refl

head_is_reached :
    reaches_row
      (clause_truth demo_sql demo_value demo_unparsed)
      app_role
      narrow_docs
      select
      session_roles
      session_roles
    ≡ true
unfolding reaches_row has_privilege granted is_owner data_role_held command_text admitted any
    grants_row applies intersects contains clause_for clause_truth parse_expr admits eval conj all
    lets_row
head_is_reached = refl

safe_diff_narrows_example :
    reaches_row
      (clause_truth demo_sql demo_value demo_unparsed)
      app_role
      wide_docs
      select
      session_roles
      session_roles
    ≡ true
unfolding contains qualified_name demo_solver_laws
safe_diff_narrows_example =
    safe_diff_narrows demo_solver demo_sql demo_solver_laws first demo_unparsed safe
      (schema_of wide_docs) (schema_of narrow_docs) wide_docs narrow_docs (refl, tt) (refl, tt)
      (here refl) (here refl) refl docs-Comparable schemas_are_safe app_role select session_roles
      session_roles head_is_reached

grade_rename_cautious_example : (true && true) ≡ true
unfolding grade_rename worse result_to_classification
grade_rename_cautious_example =
    grade_rename_cautious tightened_and unchanged refl true true true true (λ t. t) refl refl

abbrev docs_2024 : Table
docs_2024 = record base_docs { name = "docs_2024"; partition_of = some ("public", "docs") }

ancestors_of_settles_example :
    ((ps : List Table) × (ancestors_of (schema_of base_docs) docs_2024 ≡ some (ok ps))
      × IsLineage (schema_of base_docs) docs_2024 ("public.docs_2024" ∷ []) ps)
    ⊎ ((q : String) × (ancestors_of (schema_of base_docs) docs_2024 ≡ some (cycle q)))
unfolding qualified_name dotted concat
ancestors_of_settles_example = ancestors_of_settles (schema_of base_docs) docs_2024
