-- ===== src/Access/Privileges.antt =====
-- `_privilege_paths` and `_reachable_columns` of src/pgrls/access.py.
pub mod Held
use pgrls.Prelude.{
  ltb, leb, nat_eqb, nat_eqb_iff, if◌then◌else◌, Bool-cases, Option-cases, Bool-ext, Eq, ◌==◌,
  ==→eq, ==_refl, nat_eq, string_eq, bool_eqb, bool_eqb_iff, bool_eq, pair_eqb, pair_eqb_iff,
  pair_eq, option_eqb, option_eqb_iff, option_eq, length, length-append, is_empty, any, all, filter,
  In, In-cons, In-cons_mono, In-swap, In-append, In-append_left, In-append_right, any-In, In-any,
  all-In, In-all, In-filter, filter-In, length-map, In-map, map-In, here, there, contains, dedup,
  difference, subset, same_set, strict_subset, intersects, contains-In, In-contains, contains_head,
  contains_cons, contains-append, In-subset, subset-In, intersects-In, In-intersects, In-dedup,
  dedup-In, insert_by, sort_by, sort_by-In, In-sort_by, find_last, find_last-In, In-find_last,
  concat, join, str_le, unseen, unseen-le-length, unseen_mono, unseen_strict, ℕ, zero, suc, ◌+◌,
  ◌-◌, ◌*◌, ◌/◌, ◌%◌, ◌≤◌, ◌<◌, String, ◌≡◌, refl, sym, ap, subst, ◌∙◌, ◌≢◌, ◌↔◌, ◌⊎◌, inl, inr,
  Bool, true, false, ◌&&◌, ◌||◌, not, Option, none, some, List, [], ◌∷◌, ◌++◌, map, arith, eq_iff,
}
use pgrls.Model.{
  command_eq, Command, for_all, select, insert, update, delete, truncate, command_text, Grant,
  ColumnGrant, Role,
}
use pgrls.Access.{AccessPath, Relation, PathKind, via_path}

-- `_DATA_ROLE`
unfoldable pub data_role_of : Command → Option String
data_role_of select = some "pg_read_all_data"
data_role_of insert = some "pg_write_all_data"
data_role_of update = some "pg_write_all_data"
data_role_of delete = some "pg_write_all_data"
data_role_of truncate = none
data_role_of for_all = none

-- `privilege in _COLUMN_COMMANDS`
unfoldable pub is_column_command : Command → Bool
is_column_command c = contains c (select ∷ insert ∷ update ∷ [])

unfoldable pub data_role_paths : Command → List String → List AccessPath
unfolding data_role_of
data_role_paths command held = elim (data_role_of command) [
  | none ↦ []
  | some r ↦ if contains r held then via_path PathKind.data_role r ∷ [] else []
]

unfoldable pub owner_paths : Role → String → List String → List AccessPath
owner_paths role owner held =
    if not (owner == "") && owner == role.name
    then via_path PathKind.owner role.name ∷ []
    else if not (owner == "") && contains owner held
    then via_path PathKind.owner_member owner ∷ []
    else []

-- The loop over `rel.grants`.
unfoldable pub grant_paths : Command → List String → List Grant → List AccessPath
grant_paths command held [] = []
grant_paths command held (g ∷ gs) =
    let rest = grant_paths command held gs in
    if contains (command_text command) g.privileges
    then (if g.role == "PUBLIC"
        then via_path PathKind.public_grant "PUBLIC" ∷ rest
        else if contains g.role held
        then via_path PathKind.grant g.role ∷ rest
        else rest)
    else rest

unfoldable pub column_grant_applies : Command → List String → ColumnGrant → Bool
column_grant_applies command held g =
    contains (command_text command) g.privileges && (g.role == "PUBLIC" || contains g.role held)

-- `AccessPath("column_grant", via=grantee, columns=tuple(sorted(set(by_grantee[grantee]))))`
abbrev pub column_path : List ColumnGrant → String → AccessPath
column_path mine grantee = record {
  kind = PathKind.column_grant;
  via = some grantee;
  columns = some (
      sort_by str_le
        (dedup (map (λ (g : ColumnGrant). g.column) (filter (λ g. g.role == grantee) mine))));
  hops = [];
}

abbrev pub grantees : List ColumnGrant → List String
grantees mine = sort_by str_le (dedup (map (λ (g : ColumnGrant). g.role) mine))

-- One path for each grantee, in order, with its columns.
unfoldable pub column_paths : Command → List String → List ColumnGrant → List AccessPath
unfolding is_column_command column_grant_applies
column_paths command held cgs =
    let mine = filter (column_grant_applies command held) cgs in
    if is_column_command command then map (column_path mine) (grantees mine) else []

abbrev pub or_own : Role → Option (List String) → List String
or_own role none = role.name ∷ []
or_own role (some held) = held

abbrev pub is_some {ℓ} : {A : Type ℓ} → Option A → Bool
is_some none = false
is_some (some a) = true

-- The paths, and whether the answer is complete.
unfoldable pub privilege_paths :
    Role → Relation → Option (List String) → Command → List AccessPath × Bool
privilege_paths role rel closure command =
    if role.superuser
    then (record { kind = PathKind.superuser; via = none; columns = none; hops = [] } ∷ [], true)
    else (let held = or_own role closure in
        let paths =
          data_role_paths command held
          ++ (owner_paths role rel.owner held
              ++ (grant_paths command held rel.grants
                  ++ column_paths command held rel.column_grants)) in
        (paths, is_some closure || not (is_empty paths)))

unfoldable pub column_union : List String → List AccessPath → Option (List String)
column_union cols [] = some (sort_by str_le (dedup cols))
column_union cols (p ∷ ps) = elim p.columns [ none ↦ none | some cs ↦ column_union (cols ++ cs) ps ]

-- `none`: every column.
unfoldable pub reachable_columns : List AccessPath → Option (List String)
unfolding column_union
reachable_columns paths = column_union [] paths

-- `p.kind in ("owner", "owner_member")`
abbrev pub is_owner_path : AccessPath → Bool
is_owner_path p = elim p.kind [ PathKind.owner ↦ true | PathKind.owner_member ↦ true | _ ↦ false ]
