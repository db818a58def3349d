-- ===== src/Verify/Anonymous/Doors/Selectable.antt =====
-- `_relation_is_anon_selectable` of src/pgrls/verify.py beside PostgreSQL's privileges.
use pgrls.Prelude.{
  Bool-cases, ◌==◌, ==→eq, nat_eq, string_eq, bool_eq, pair_eq, option_eq, any, In, In-append_left,
  In-append_right, any-In, In-any, here, there, contains, contains-In, String, ◌≡◌, sym, subst, inl,
  inr, true, false, ◌&&◌, ◌||◌, not, Option, none, some, List, [], ◌∷◌, ◌++◌, arith,
}
use pgrls.Model.{Table, Schema, Role, RoleMembership, Grant, ColumnGrant, select, command_text}
use pgrls.Sql.{Sql}
use pgrls.Rls.{has_privilege, is_owner, granted, column_granted, data_role_held}
use pgrls.Access.{relation_of}
use pgrls.Roles.{anon_reachable_roles}
use pgrls.Roles.Closure.{seeded, anon_reachable_roles_iff}
use pgrls.Verify.Anonymous.{anon_priv_closure, owner_in, is_public}
use pgrls.Verify.Anonymous.Exempt.{Holds_mono, IsHeldBy, closure_has, owner_reached}
use pgrls.Verify.Anonymous.Doors.{
  select_grantees, column_grantees, held_by_closure, anon_holds_select, relation_is_anon_selectable,
}

module _ (sql : Sql) (s : Schema) (edges : List RoleMembership)
    (captured : s.role_memberships ≡ some edges) (anon_roles : List String) (role : Role)
    (held : List String) (at : In role.name anon_roles) (named : is_public sql role.name ≡ false)
    (holds : IsHeldBy edges role.name held) where
  reach_has :
      (r : String)
      → (r == "PUBLIC" || contains r held) ≡ true
      → contains r (anon_reachable_roles s anon_roles).0 ≡ true
  reach_has r h =
      ((anon_reachable_roles_iff s edges anon_roles captured r).1).1
        (elim (Bool-cases (r == "PUBLIC")) [
          | inl k ↦ seeded (In-append_right anon_roles _ (here (==→eq r "PUBLIC" k)))
          | inr k ↦
              Holds_mono edges (role.name ∷ []) _ (λ x n. In-append_left anon_roles _ (only_role n))
                (holds r (contains-In r held (ground arith)))
        ])
    where
      only_role : {x : String} → In x (role.name ∷ []) → In x anon_roles
      only_role (here i) = subst (λ z. In z anon_roles) (sym i) at
      only_role (there n) = elim n [ ]

  granted_reached :
      (gs : List Grant)
      → granted "SELECT" held gs ≡ true
      → any
          (λ (g : Grant).
            contains g.role (anon_reachable_roles s anon_roles).0 && contains "SELECT" g.privileges)
          gs
        ≡ true
  unfolding granted
  granted_reached gs h =
      let (g, m, k) = any-In _ gs h in In-any _ gs m (ground (arith, reach_has g.role))

  column_granted_reached :
      (gs : List ColumnGrant)
      → column_granted "SELECT" held gs ≡ true
      → any
          (λ (g : ColumnGrant).
            contains g.role (anon_reachable_roles s anon_roles).0 && contains "SELECT" g.privileges)
          gs
        ≡ true
  unfolding column_granted
  column_granted_reached gs h =
      let (g, m, k) = any-In _ gs h in In-any _ gs m (ground (arith, reach_has g.role))

  held_by_closure_lem :
      (owner : String) (grantees : List String) (o : Option (List String))
      → (not (owner == "") && owner_in owner o || owner_in "pg_read_all_data" o) ≡ true
      → held_by_closure owner grantees o ≡ true
  unfolding held_by_closure
  held_by_closure_lem owner grantees none h = ground arith
  held_by_closure_lem owner grantees (some roles) h = ground arith

  -- A table that is said not to be selectable gives a session of an anonymous role no SELECT
  -- privilege, neither by a grant, nor by ownership, nor by a predefined role. The role graph was
  -- captured and the role is no superuser.
  pub relation_is_anon_selectable_complete :
      (t : Table)
      → role.superuser ≡ false
      → relation_is_anon_selectable sql s (relation_of t) anon_roles ≡ false
      → has_privilege role t select held ≡ false
  unfolding relation_is_anon_selectable anon_holds_select is_owner has_privilege data_role_held
      command_text
  relation_is_anon_selectable_complete t n e =
      let reads_all : contains "pg_read_all_data" held ≡ true
          → owner_in "pg_read_all_data" (anon_priv_closure sql s anon_roles) ≡ true =
        λ c.
          closure_has sql s edges captured "pg_read_all_data" anon_roles role.name at named
            (holds "pg_read_all_data" (contains-In "pg_read_all_data" held c)) in
      let owns = owner_reached sql s edges captured t.owner anon_roles role held at named holds in
      let opens =
        held_by_closure_lem t.owner (select_grantees t.grants ++ column_grantees t.column_grants)
          (anon_priv_closure sql s anon_roles) in
      ground (
        arith,
        granted_reached t.grants,
        column_granted_reached t.column_grants,
        reads_all,
        owns,
        opens,
      )
