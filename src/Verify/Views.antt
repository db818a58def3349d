-- ===== src/Verify/Views.antt =====
-- src/pgrls/verify.py: the role that a view runs as (`_inherits_privs_of`, `_effective_user_exempt`,
-- `_role_reads_relation`).
use pgrls.Prelude.{
  if◌then◌else◌, Bool-ext, ◌==◌, ==→eq, nat_eq, string_eq, bool_eq, pair_eq, option_eq, any, filter,
  here, contains, intersects, contains-In, In-contains, contains-append, In-intersects, String, ◌≡◌,
  refl, sym, ap, ◌∙◌, Bool, true, false, ◌&&◌, ◌||◌, not, Option, none, some, List, [], ◌∷◌, ◌++◌,
  arith, eq_iff,
}
use pgrls.Model.{Table, Schema, Role, RoleMembership, select, command_text, Grant, ColumnGrant}
use pgrls.Rls.{has_privilege, is_owner, granted, column_granted, data_role_held}
use pgrls.Access.{Relation, relation_of}
use pgrls.Roles.{closure, inherit_closure}
use pgrls.Roles.Closure.{seeded, closure_iff}
use pgrls.Verify.Anonymous.Doors.{select_grantees, column_grantees}

-- What is read of a view that runs as its owner.
pub record View : Type 0 where
  pub owner : String
  pub owner_bypasses_rls : Bool
  pub owner_is_superuser : Bool

module _ (s : Schema) where
  -- `none` where the graph was not captured
  unfoldable pub inherits_privs_of : String → String → Option Bool
  inherits_privs_of role target =
      if role == target
      then some true
      else elim (inherit_closure s role) [ none ↦ none | some roles ↦ some (contains target roles) ]

  -- `none` for the view is the anonymous caller itself.
  unfoldable pub effective_user_exempt : Option View → Table → Option Bool
  unfolding inherits_privs_of
  effective_user_exempt none t = some false
  effective_user_exempt (some eff) t =
      if eff.owner_bypasses_rls
      then some true
      else if eff.owner == ""
      then some false
      else if t.force_rls
      then some false
      else inherits_privs_of eff.owner t.owner

  unfoldable pub role_reads_relation : Option View → Relation → Option Bool
  role_reads_relation none rel = some true
  role_reads_relation (some eff) rel =
      let all_grantees = select_grantees rel.grants ++ column_grantees rel.column_grants in
      if eff.owner_is_superuser || rel.owner == eff.owner
      then some true
      else if contains "PUBLIC" all_grantees || contains eff.owner all_grantees
      then some true
      else elim (inherit_closure s eff.owner) [
        | none ↦ none
        | some roles ↦ some (
            contains rel.owner roles
            || (contains "pg_read_all_data" roles || intersects all_grantees roles))
      ]

eq_sym : (a b : String) → (a == b) ≡ (b == a)
eq_sym a b =
    Bool-ext _ _ (λ h. (eq_iff b a).1 (sym (==→eq a b h))) (λ h. (eq_iff a b).1 (sym (==→eq b a h)))

intersects-append :
    (xs ys zs : List String) → intersects (xs ++ ys) zs ≡ (intersects xs zs || intersects ys zs)
unfolding intersects
intersects-append [] ys zs = refl
intersects-append (x ∷ xs) ys zs = ground (arith, intersects-append xs ys zs)

grantees_of :
    (gs : List Grant) (held : List String)
    → granted "SELECT" held gs
      ≡ (contains "PUBLIC" (select_grantees gs) || intersects (select_grantees gs) held)
unfolding granted any filter contains intersects
grantees_of [] held = refl
grantees_of (g ∷ gs) held = ground (arith, grantees_of gs held, eq_sym g.role "PUBLIC")

column_grantees_of :
    (gs : List ColumnGrant) (held : List String)
    → column_granted "SELECT" held gs
      ≡ (contains "PUBLIC" (column_grantees gs) || intersects (column_grantees gs) held)
unfolding column_granted any filter contains intersects
column_grantees_of [] held = refl
column_grantees_of (g ∷ gs) held =
    ground (arith, column_grantees_of gs held, eq_sym g.role "PUBLIC")

closure_found :
    (s : Schema) (edges : List RoleMembership) (owner : String)
    → s.role_memberships ≡ some edges
    → inherit_closure s owner ≡ some (closure edges (owner ∷ []))
unfolding inherit_closure
closure_found s edges owner e = rw e

module _ (s : Schema) (edges : List RoleMembership) (view : View) (t : Table) (role : Role)
    (captured : s.role_memberships ≡ some edges) (name : role.name ≡ view.owner) where
  abbrev held : List String
  held = closure edges (view.owner ∷ [])

  abbrev all_grantees : List String
  all_grantees = select_grantees t.grants ++ column_grantees t.column_grants

  owner_held : contains view.owner held ≡ true
  owner_held = In-contains held (
      contains-In view.owner held
        ((closure_iff edges (view.owner ∷ []) view.owner).1 (seeded (here refl))))

  own_grant : contains view.owner all_grantees ≡ true → intersects all_grantees held ≡ true
  own_grant h =
      In-intersects all_grantees held (contains-In view.owner all_grantees h)
        (contains-In view.owner held owner_held)

  own_table : (t.owner == view.owner) ≡ true → contains t.owner held ≡ true
  own_table h = ap (λ z. contains z held) (==→eq t.owner view.owner h) ∙ owner_held

  same_owner : (t.owner == role.name) ≡ (t.owner == view.owner)
  same_owner = ap (λ z. t.owner == z) name

  reads_decided :
      role.superuser ≡ view.owner_is_superuser
      → (t.owner == "") ≡ false
      → role_reads_relation s (some view) (relation_of t) ≡ some (has_privilege role t select held)
  unfolding role_reads_relation has_privilege is_owner data_role_held command_text
  reads_decided u f = ground (
    arith,
    closure_found s edges view.owner captured,
    grantees_of t.grants held,
    column_grantees_of t.column_grants held,
    contains-append "PUBLIC" (select_grantees t.grants) (column_grantees t.column_grants),
    intersects-append (select_grantees t.grants) (column_grantees t.column_grants) held,
    own_grant,
    own_table,
    same_owner,
  )

  exempt_decided :
      (role.superuser || role.bypassrls) ≡ view.owner_bypasses_rls
      → (view.owner == "") ≡ false
      → (t.owner == "") ≡ false
      → effective_user_exempt s (some view) t
        ≡ some (role.superuser || (role.bypassrls || is_owner role t.owner held && not t.force_rls))
  unfolding effective_user_exempt inherits_privs_of is_owner
  exempt_decided b e f = ground (
    arith,
    closure_found s edges view.owner captured,
    own_table,
    same_owner,
    eq_sym view.owner t.owner,
  )

-- Where the role graph was captured, the role that a view runs as is found to read a table
-- exactly where PostgreSQL gives it SELECT, and to be exempt from the row security of the table
-- exactly where it is a superuser, has BYPASSRLS, or has the privileges of the owner of a table
-- without FORCE. The view's flags are the role's, and the owners are named.
pub view_owner_decided :
    (s : Schema) (edges : List RoleMembership) (view : View) (t : Table) (role : Role)
    → s.role_memberships ≡ some edges
    → role.name ≡ view.owner
    → role.superuser ≡ view.owner_is_superuser
    → (role.superuser || role.bypassrls) ≡ view.owner_bypasses_rls
    → (view.owner == "") ≡ false
    → (t.owner == "") ≡ false
    → (role_reads_relation s (some view) (relation_of t)
        ≡ some (has_privilege role t select (closure edges (view.owner ∷ []))))
      × (effective_user_exempt s (some view) t
          ≡ some (
              role.superuser
              || (role.bypassrls
                  || is_owner role t.owner (closure edges (view.owner ∷ [])) && not t.force_rls)))
view_owner_decided s edges view t role captured n u b e f = (
  reads_decided s edges view t role captured n u f,
  exempt_decided s edges view t role captured n b e f,
)
