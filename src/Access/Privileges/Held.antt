-- ===== src/Access/Privileges/Held.antt =====
-- The privilege paths (src/pgrls/access.py) against the privilege check of PostgreSQL.
use pgrls.Prelude.{
  Bool-cases, nat_eq, string_eq, bool_eq, pair_eq, option_eq, is_empty, any, filter,
  is_empty-append, any-append, is_empty-filter, is_empty-map, any-map_never, contains, dedup,
  is_empty-dedup, is_empty-sort_by, str_le, String, ◌≡◌, refl, inl, inr, false, ◌&&◌, not, some,
  List, [], ◌∷◌, ◌++◌, map, arith,
}
use pgrls.Model.{
  Command, for_all, select, insert, update, delete, truncate, command_eq, command_text, Role, Table,
  Grant, ColumnGrant,
}
use pgrls.Rls.{has_columns, is_owner, granted, column_granted, data_role_held, has_privilege}
use pgrls.Access.{relation_of}
use pgrls.Access.Privileges.{
  column_path, grantees, data_role_paths, owner_paths, grant_paths, column_paths,
  column_grant_applies, is_column_command, privilege_paths, is_owner_path,
}

data_role_paths-empty :
    (command : Command) (held : List String)
    → is_empty (data_role_paths command held) ≡ not (data_role_held command held)
unfolding data_role_paths data_role_held
data_role_paths-empty for_all held = refl
data_role_paths-empty truncate held = refl
data_role_paths-empty select held = ground arith
data_role_paths-empty insert held = ground arith
data_role_paths-empty update held = ground arith
data_role_paths-empty delete held = ground arith

owner_paths-empty :
    (role : Role) (owner : String) (held : List String)
    → is_empty (owner_paths role owner held) ≡ not (is_owner role owner held)
unfolding owner_paths is_owner
owner_paths-empty role owner held = ground arith

grant_paths-empty :
    (command : Command) (held : List String) (gs : List Grant)
    → is_empty (grant_paths command held gs) ≡ not (granted (command_text command) held gs)
unfolding grant_paths granted any
grant_paths-empty command held [] = refl
grant_paths-empty command held (g ∷ gs) = ground (arith, grant_paths-empty command held gs)

column_paths-empty :
    (command : Command) (held : List String) (gs : List ColumnGrant)
    → is_empty (column_paths command held gs)
      ≡ not (is_column_command command && column_granted (command_text command) held gs)
unfolding column_paths column_granted
column_paths-empty command held gs =
    let mine = filter (column_grant_applies command held) gs in
    ground (
      arith,
      is_empty-sort_by str_le (dedup (map (λ (g : ColumnGrant). g.role) mine)),
      is_empty-dedup (map (λ (g : ColumnGrant). g.role) mine),
      is_empty-map (λ (g : ColumnGrant). g.role) mine,
      is_empty-filter (column_grant_applies command held) gs,
    )

column_commands : (command : Command) → is_column_command command ≡ has_columns command
unfolding is_column_command contains
column_commands for_all = refl
column_commands select = refl
column_commands insert = refl
column_commands update = refl
column_commands delete = refl
column_commands truncate = refl

-- Where the role graph is captured, a role has a path for a command on a table exactly where
-- PostgreSQL gives it the privilege.
pub privilege_paths_iff :
    (role : Role) (table : Table) (held : List String) (command : Command)
    → is_empty (privilege_paths role (relation_of table) (some held) command).0
      ≡ not (has_privilege role table command held)
unfolding privilege_paths has_privilege
privilege_paths_iff role table held command =
    let d = data_role_paths command held in
    let o = owner_paths role table.owner held in
    let g = grant_paths command held table.grants in
    let c = column_paths command held table.column_grants in
    ground (
      arith,
      is_empty-append d (o ++ (g ++ c)),
      is_empty-append o (g ++ c),
      is_empty-append g c,
      data_role_paths-empty command held,
      owner_paths-empty role table.owner held,
      grant_paths-empty command held table.grants,
      column_paths-empty command held table.column_grants,
      column_commands command,
    )

-- The paths that make a role exempt as an owner are those of `owner_paths`.
no_owner_data :
    (command : Command) (held : List String)
    → any is_owner_path (data_role_paths command held) ≡ false
unfolding data_role_paths any
no_owner_data command held = ground arith

no_owner_grants :
    (command : Command) (held : List String) (gs : List Grant)
    → any is_owner_path (grant_paths command held gs) ≡ false
unfolding grant_paths any
no_owner_grants command held [] = refl
no_owner_grants command held (g ∷ gs) = ground (arith, no_owner_grants command held gs)

no_owner_columns :
    (command : Command) (held : List String) (gs : List ColumnGrant)
    → any is_owner_path (column_paths command held gs) ≡ false
unfolding column_paths any
no_owner_columns command held gs =
    let mine = filter (column_grant_applies command held) gs in
    elim (Bool-cases (is_column_command command)) [
      | inl k ↦
          rw (k, column_paths)
            (any-map_never (column_path mine) is_owner_path (grantees mine) (λ x. refl))
      | inr k ↦ rw (k, column_paths) refl
    ]

any_owner :
    (role : Role) (owner : String) (held : List String)
    → any is_owner_path (owner_paths role owner held) ≡ is_owner role owner held
unfolding owner_paths is_owner any
any_owner role owner held = ground arith

-- A role that is no superuser has an owner's path exactly where it owns the table or holds the
-- privileges of its owner.
pub owner_path_iff :
    (role : Role) (table : Table) (held : List String) (command : Command)
    → role.superuser ≡ false
    → any is_owner_path (privilege_paths role (relation_of table) (some held) command).0
      ≡ is_owner role table.owner held
unfolding privilege_paths
owner_path_iff role table held command h =
    let d = data_role_paths command held in
    let o = owner_paths role table.owner held in
    let g = grant_paths command held table.grants in
    let c = column_paths command held table.column_grants in
    ground (
      arith,
      any-append is_owner_path d (o ++ (g ++ c)),
      any-append is_owner_path o (g ++ c),
      any-append is_owner_path g c,
      no_owner_data command held,
      any_owner role table.owner held,
      no_owner_grants command held table.grants,
      no_owner_columns command held table.column_grants,
    )
