-- ===== src/Diff/Grants.antt =====
-- src/pgrls/diff/grants.py: which privileges the roles of a table, and of its columns, lost and
-- gained.
pub mod Narrowing
use pgrls.Prelude.{
  ltb, leb, nat_eqb, nat_eqb_iff, if◌then◌else◌, Bool-cases, Option-cases, Bool-ext, and_left,
  and_right, Eq, ◌==◌, ==→eq, ==_refl, nat_eq, string_eq, bool_eqb, bool_eqb_iff, bool_eq, pair_eqb,
  pair_eqb_iff, pair_eq, option_eqb, option_eqb_iff, option_eq, length, length-append, is_empty,
  any, all, filter, is_empty-append, any-append, all-append, is_empty-filter, In, In-cons,
  In-cons_mono, In-swap, In-append, In-append_left, In-append_right, any-In, In-any, all-In, In-all,
  In-filter, filter-In, length-map, is_empty-map, any-map_never, In-map, map-In, flat_map,
  all-flat_map, flat_map-In, In-flat_map, here, there, contains, dedup, difference, subset,
  same_set, strict_subset, intersects, contains-In, In-contains, contains_head, contains_cons,
  contains-append, In-subset, subset-In, intersects-In, In-intersects, In-dedup, dedup-In,
  is_empty-dedup, insert_by, sort_by, is_empty-sort_by, sort_by-In, In-sort_by, find_last,
  find_last-In, In-find_last, Distinct, find_last-Distinct, concat, join, str_le, unseen,
  unseen-le-length, unseen_mono, unseen_strict, ℕ, zero, suc, ◌+◌, ◌-◌, ◌*◌, ◌/◌, ◌%◌, ◌≤◌, ◌<◌,
  String, ◌≡◌, refl, sym, ap, subst, ◌∙◌, ◌≢◌, ◌↔◌, ◌⊎◌, inl, inr, Bool, true, false, ◌&&◌, ◌||◌,
  not, Option, none, some, List, [], ◌∷◌, ◌++◌, map, arith, eq_iff,
}
use pgrls.Model.{Grant, ColumnGrant, Table, qualified_name}
use pgrls.Sql.{Sql}
use pgrls.Diff.{
  Change, change, safe, review, dangerous, grant_revoked, grant_added, grant_public_no_rls,
}

-- `_privileges_by_role(grants).get(role, set())`, and that of the columns.
unfoldable pub privileges_of : String → List Grant → List String
privileges_of role gs = flat_map (λ (g : Grant). if g.role == role then g.privileges else []) gs

abbrev pub key_of : ColumnGrant → String × String
key_of g = (g.role, g.column)

unfoldable pub column_privileges_of : String × String → List ColumnGrant → List String
column_privileges_of key gs =
    flat_map (λ (g : ColumnGrant). if key_of g == key then g.privileges else []) gs

-- `", ".join(sorted(privileges))`
unfoldable pub listed : List String → String
listed privileges = join ", " (sort_by str_le (dedup privileges))

unfoldable pub role_changes : Table → String → List String → List String → List Change
unfolding listed
role_changes head role base_privs head_privs =
    let qname = qualified_name head in
    let location = concat (qname ∷ "." ∷ role ∷ []) in
    let revoked = difference base_privs head_privs in
    let gained = difference head_privs base_privs in
    let lost_change = change grant_revoked safe location (
      concat
        ("On " ∷ qname ∷ ", role " ∷ role ∷ " lost privileges " ∷ listed revoked ∷ "." ∷ [])) in
    let public_change = change grant_public_no_rls dangerous location (
      concat (
        "On "
        ∷ qname
        ∷ ", role PUBLIC gained "
        ∷ listed gained
        ∷ " on a table with no RLS — every connected role can read every row."
        ∷ [])) in
    let gained_change = change grant_added review location (
      concat
        ("On " ∷ qname ∷ ", role " ∷ role ∷ " gained privileges " ∷ listed gained ∷ "." ∷ [])) in
    (if is_empty revoked then [] else lost_change ∷ [])
    ++ (if is_empty gained
        then []
        else if role == "PUBLIC" && not head.rls_enabled
        then public_change ∷ []
        else gained_change ∷ [])

unfoldable pub column_changes :
    Sql → Table → String × String → List String → List String → List Change
unfolding listed
column_changes sql head (role, column) base_privs head_privs =
    let qname = qualified_name head in
    let location = concat (qname ∷ "." ∷ role ∷ "." ∷ column ∷ []) in
    let revoked = difference base_privs head_privs in
    let gained = difference head_privs base_privs in
    let lost_change = change grant_revoked safe location (
      concat (
        "On "
        ∷ qname
        ∷ ", role "
        ∷ role
        ∷ " lost column privileges "
        ∷ listed revoked
        ∷ " on column "
        ∷ sql.repr column
        ∷ "."
        ∷ [])) in
    let public_change = change grant_public_no_rls dangerous location (
      concat (
        "On "
        ∷ qname
        ∷ ", role PUBLIC gained "
        ∷ listed gained
        ∷ " on column "
        ∷ sql.repr column
        ∷ " of a table with no RLS — every connected role can read that column for every row."
        ∷ [])) in
    let gained_change = change grant_added review location (
      concat (
        "On "
        ∷ qname
        ∷ ", role "
        ∷ role
        ∷ " gained column privileges "
        ∷ listed gained
        ∷ " on column "
        ∷ sql.repr column
        ∷ "."
        ∷ [])) in
    (if is_empty revoked then [] else lost_change ∷ [])
    ++ (if is_empty gained
        then []
        else if role == "PUBLIC" && not head.rls_enabled
        then public_change ∷ []
        else gained_change ∷ [])

-- `(role, column)` pairs sort by role, then by column.
unfoldable pub key_le : String × String → String × String → Bool
key_le (r, c) (s, d) = if r == s then str_le c d else str_le r s

abbrev pub grant_roles : List Grant → List String
grant_roles gs = map (λ (g : Grant). g.role) gs

abbrev pub grant_keys : List ColumnGrant → List (String × String)
grant_keys gs = map key_of gs

unfoldable pub diff_column_grants : Sql → Table → Table → List Change
diff_column_grants sql base head =
    flat_map
      (λ key.
        column_changes sql head key (column_privileges_of key base.column_grants)
          (column_privileges_of key head.column_grants))
      (sort_by key_le (dedup (grant_keys base.column_grants ++ grant_keys head.column_grants)))

unfoldable pub diff_table_grants : Table → Table → List Change
diff_table_grants base head =
    flat_map
      (λ role.
        role_changes head role (privileges_of role base.grants) (privileges_of role head.grants))
      (sort_by str_le (dedup (grant_roles base.grants ++ grant_roles head.grants)))

unfoldable pub diff_grants : Sql → Table → Table → List Change
diff_grants sql base head = diff_table_grants base head ++ diff_column_grants sql base head
