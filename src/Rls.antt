-- ===== src/Rls.antt =====
-- Row security as PostgreSQL documents it, and not as the program computes it: the permissive
-- policies that apply are combined by OR, the restrictive ones by AND, and a row is admitted where
-- both hold. The parts of the program that promise something of row access are proved against this.
use pgrls.Prelude.{
  if◌then◌else◌, ◌==◌, nat_eq, string_eq, bool_eq, pair_eq, option_eq, is_empty, any, all, contains,
  intersects, String, ◌≡◌, refl, Bool, true, false, ◌&&◌, ◌||◌, not, Option, none, some, List, [],
  ◌∷◌,
}
use pgrls.Model.{
  command_eq, command_text, Grant, ColumnGrant, Role, Table, Policy, Command, for_all, select,
  insert, update, delete, truncate,
}

-- A policy names its roles; with no TO clause it is for PUBLIC.
unfoldable pub target_roles : Policy → List String
target_roles p = if is_empty p.roles then "PUBLIC" ∷ [] else p.roles

-- `held` are the roles whose privileges the session has, PUBLIC among them.
unfoldable pub applies : Policy → Command → List String → Bool
unfolding target_roles
applies p command held =
    (p.command == for_all || p.command == command) && intersects (target_roles p) held

-- The clause that decides a command: WITH CHECK for a row that is written by INSERT, where a
-- FOR ALL policy without one uses its USING; USING for the others.
unfoldable pub clause_for : Policy → Command → Option String
clause_for p insert = elim p.with_check_sql [
  | some c ↦ some c
  | none ↦ if p.command == for_all then p.using_sql else none
]
clause_for p for_all = p.using_sql
clause_for p select = p.using_sql
clause_for p update = p.using_sql
clause_for p delete = p.using_sql
clause_for p truncate = p.using_sql

-- `truth` says of a clause whether it is true of the row.
unfoldable pub clause_holds : (String → Bool) → Bool → Option String → Bool
clause_holds truth otherwise none = otherwise
clause_holds truth otherwise (some c) = truth c

-- A permissive policy without the clause admits nothing.
unfoldable pub grants_row : (String → Bool) → Command → List String → Policy → Bool
unfolding clause_holds
grants_row truth command held p =
    p.permissive && (applies p command held && clause_holds truth false (clause_for p command))

-- A restrictive policy without the clause imposes nothing.
unfoldable pub lets_row : (String → Bool) → Command → List String → Policy → Bool
unfolding clause_holds
lets_row truth command held p =
    p.permissive || (not (applies p command held) || clause_holds truth true (clause_for p command))

unfoldable pub admitted : (String → Bool) → Command → List String → List Policy → Bool
admitted truth command held ps =
    any (grants_row truth command held) ps && all (lets_row truth command held) ps

-- An UPDATE is checked twice: the row that it finds, and the row that it leaves. Every other command
-- meets its row once.
pub data Check : Type 0 where
  old_row new_row : Check

-- The row that an UPDATE leaves is held against WITH CHECK, and against USING where there is none.
unfoldable pub clause_of : Check → Policy → Command → Option String
unfolding clause_for
clause_of old_row p command = clause_for p command
clause_of new_row p update = elim p.with_check_sql [ some c ↦ some c | none ↦ p.using_sql ]
clause_of new_row p for_all = p.using_sql
clause_of new_row p select = p.using_sql
clause_of new_row p insert = clause_for p insert
clause_of new_row p delete = p.using_sql
clause_of new_row p truncate = p.using_sql

unfoldable pub grants_on : Check → (String → Bool) → Command → List String → Policy → Bool
unfolding clause_holds
grants_on check truth command held p =
    p.permissive && (applies p command held && clause_holds truth false (clause_of check p command))

unfoldable pub lets_on : Check → (String → Bool) → Command → List String → Policy → Bool
unfolding clause_holds
lets_on check truth command held p =
    p.permissive
    || (not (applies p command held) || clause_holds truth true (clause_of check p command))

-- Do the policies admit the row that the command finds, or that it leaves?
unfoldable pub admitted_on : Check → (String → Bool) → Command → List String → List Policy → Bool
admitted_on check truth command held ps =
    any (grants_on check truth command held) ps && all (lets_on check truth command held) ps

pub admitted_on-old_row :
    (truth : String → Bool) (command : Command) (held : List String) (ps : List Policy)
    → admitted_on old_row truth command held ps ≡ admitted truth command held ps
unfolding admitted_on admitted grants_on grants_row lets_on lets_row clause_of
admitted_on-old_row truth command held ps = refl

-- Who a session is for a table: does it own the table, or hold the privileges of its owner?
unfoldable pub is_owner : Role → String → List String → Bool
is_owner role owner held = not (owner == "") && (owner == role.name || contains owner held)

-- A grant that names PUBLIC or a role that the session holds.
unfoldable pub granted : String → List String → List Grant → Bool
granted privilege held gs =
    any
      (λ (g : Grant).
        contains privilege g.privileges && (g.role == "PUBLIC" || contains g.role held))
      gs

-- The privilege on some column.
unfoldable pub column_granted : String → List String → List ColumnGrant → Bool
column_granted privilege held gs =
    any
      (λ (g : ColumnGrant).
        contains privilege g.privileges && (g.role == "PUBLIC" || contains g.role held))
      gs

-- The privilege on one column.
unfoldable pub granted_on_column : String → String → List String → List ColumnGrant → Bool
granted_on_column privilege column held gs =
    any
      (λ (g : ColumnGrant).
        g.column == column
        && (contains privilege g.privileges && (g.role == "PUBLIC" || contains g.role held)))
      gs

-- The predefined roles that confer a command on every table.
unfoldable pub data_role_held : Command → List String → Bool
data_role_held select held = contains "pg_read_all_data" held
data_role_held insert held = contains "pg_write_all_data" held
data_role_held update held = contains "pg_write_all_data" held
data_role_held delete held = contains "pg_write_all_data" held
data_role_held truncate held = false
data_role_held for_all held = false

abbrev pub has_columns : Command → Bool
has_columns select = true
has_columns insert = true
has_columns update = true
has_columns _ = false

unfoldable pub has_privilege : Role → Table → Command → List String → Bool
has_privilege role t command held =
    role.superuser
    || (data_role_held command held
        || (is_owner role t.owner held
            || (granted (command_text command) held t.grants
                || has_columns command
                  && column_granted (command_text command) held t.column_grants)))

-- What a session reaches of a row: nothing without the privilege; every row where row security does
-- not bind it; and what the policies admit otherwise. `held` are the roles whose privileges it has,
-- `targets` those and PUBLIC.
unfoldable pub reaches_row :
    (String → Bool) → Role → Table → Command → List String → List String → Bool
reaches_row truth role t command held targets =
    has_privilege role t command held
    && (role.superuser
        || (command == truncate
            || (role.bypassrls
                || (not t.rls_enabled
                    || (is_owner role t.owner held && not t.force_rls
                        || admitted truth command targets t.policies)))))
