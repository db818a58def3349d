-- ===== src/Diff/Schemas.antt =====
-- src/pgrls/diff/differ.py, `diff_schemas`, and src/pgrls/diff/columns.py.
pub mod Narrowing
use pgrls.Prelude.{
  ltb, leb, nat_eqb, nat_eqb_iff, if◌then◌else◌, Bool-cases, Option-cases, Bool-ext, and_left,
  and_right, Eq, ◌==◌, ==→eq, ==_refl, nat_eq, string_eq, bool_eqb, bool_eqb_iff, bool_eq, pair_eqb,
  pair_eqb_iff, pair_eq, option_eqb, option_eqb_iff, option_eq, length, length-append, is_empty,
  any, all, filter, is_empty-append, any-append, all-append, is_empty-filter, In, In-cons,
  In-cons_mono, In-swap, In-append, In-append_left, In-append_right, any-In, In-any, all-In, In-all,
  In-filter, filter-In, length-map, is_empty-map, any-map_never, In-map, map-In, flat_map,
  all-flat_map, flat_map-In, In-flat_map, here, there, contains, dedup, difference, subset,
  same_set, strict_subset, intersects, contains-In, In-contains, contains_head, contains_cons,
  contains-append, In-subset, subset-In, intersects-In, In-intersects, In-dedup, dedup-In,
  is_empty-dedup, insert_by, sort_by, is_empty-sort_by, sort_by-In, In-sort_by, find_last,
  find_last-In, In-find_last, Distinct, find_last-Distinct, concat, join, str_le, unseen,
  unseen-le-length, unseen_mono, unseen_strict, ℕ, zero, suc, ◌+◌, ◌-◌, ◌*◌, ◌/◌, ◌%◌, ◌≤◌, ◌<◌,
  String, ◌≡◌, refl, sym, ap, subst, ◌∙◌, ◌≢◌, ◌↔◌, ◌⊎◌, inl, inr, Bool, true, false, ◌&&◌, ◌||◌,
  not, Option, none, some, List, [], ◌∷◌, ◌++◌, map, arith, eq_iff,
}
use pgrls.Model.{Policy, Table, Schema, qualified_name}
use pgrls.Sql.{Sql, Node, parse_expr, extract_column_refs}
use pgrls.Diff.{
  Change, Classification, change, safe, breaking, review, dangerous, rls_flipped, force_rls_flipped,
  table_added_with_rls, table_added_without_rls, table_dropped, column_dropped_referenced,
}
use pgrls.Diff.Predicates.{Solver}
use pgrls.Diff.Renames.{RenameDetection, diff_policies}
use pgrls.Diff.Shapes.{diff_policy_shapes}
use pgrls.Diff.Grants.{diff_grants}

-- `ref[-1]` of the references that are not empty.
unfoldable pub last_name : List String → List String
last_name [] = []
last_name (s ∷ []) = s ∷ []
last_name (s ∷ t ∷ ss) = last_name (t ∷ ss)

unfoldable pub referenced_by : Sql → Option String → List String
unfolding last_name
referenced_by sql clause = elim (parse_expr sql clause) [
  | none ↦ []
  | some n ↦ flat_map last_name (extract_column_refs sql n)
]

unfoldable pub referenced_names : Sql → List Policy → List String
unfolding referenced_by
referenced_names sql ps =
    flat_map (λ (p : Policy). referenced_by sql p.using_sql ++ referenced_by sql p.with_check_sql)
      ps

unfoldable pub diff_columns : Sql → Table → Table → List Change
diff_columns sql base head =
    let qname = qualified_name head in
    let referenced = referenced_names sql head.policies in
    flat_map
      (λ column.
        if contains column referenced
        then change column_dropped_referenced review (concat (qname ∷ "." ∷ column ∷ [])) (
            concat (
              "Column " ∷ qname ∷ "." ∷ column
              ∷ " was dropped but is still referenced by at least one head policy predicate — review required."
              ∷ []))
          ∷ []
        else [])
      (sort_by str_le (dedup (difference base.columns head.columns)))

unfoldable pub table_added : String → Table → List Change
table_added qname h =
    if h.rls_enabled
    then change table_added_with_rls safe qname
        (concat ("Table " ∷ qname ∷ " added with RLS enabled." ∷ []))
      ∷ []
    else change table_added_without_rls dangerous qname (
        concat (
          "Table " ∷ qname ∷ " added without RLS enabled — every connected role can read every row."
          ∷ []))
      ∷ []

unfoldable pub drop_of : String → List Change
drop_of qname =
    change table_dropped breaking qname (
      concat (
        "Table " ∷ qname
        ∷ " dropped; its policies are gone with it. Verify the drop is intentional." ∷ []))
    ∷ []

abbrev pub switched : Bool → String
switched true = "enabled"
switched false = "disabled"

unfoldable pub rls_changes : String → Table → Table → List Change
rls_changes qname b h =
    if b.rls_enabled == h.rls_enabled
    then []
    else change rls_flipped (if h.rls_enabled then safe else dangerous) qname
        (concat ("Table " ∷ qname ∷ " RLS " ∷ switched h.rls_enabled ∷ "." ∷ []))
      ∷ []

unfoldable pub force_changes : String → Table → Table → List Change
force_changes qname b h =
    if b.force_rls == h.force_rls
    then []
    else change force_rls_flipped (if h.force_rls then safe else dangerous) qname
        (concat ("Table " ∷ qname ∷ " FORCE ROW LEVEL SECURITY " ∷ switched h.force_rls ∷ "." ∷ []))
      ∷ []

module _ {F C : Type 0} (solver : Solver F C) (sql : Sql) (detection : RenameDetection)
    (rename_classification : Classification) where
  unfoldable pub table_changes : String → Table → Table → List Change
  table_changes qname b h =
      rls_changes qname b h
      ++ (force_changes qname b h
          ++ (diff_policies solver sql detection rename_classification b h
              ++ (diff_policy_shapes solver sql b h
                  ++ (diff_columns sql b h ++ diff_grants sql b h))))

  unfoldable pub changes_of : String → Option Table → Option Table → List Change
  changes_of qname none none = []
  changes_of qname none (some h) = table_added qname h
  changes_of qname (some b) none = drop_of qname
  changes_of qname (some b) (some h) = table_changes qname b h

  unfoldable pub diff_schemas : Schema → Schema → List Change
  diff_schemas base head =
      flat_map
        (λ qname.
          changes_of qname (find_last qualified_name qname base.tables)
            (find_last qualified_name qname head.tables))
        (sort_by str_le (dedup (map qualified_name base.tables ++ map qualified_name head.tables)))
