-- ===== src/Model.antt =====
-- src/pgrls/model.py: the schema model that every other part reads.
-- The fields that no modelled operation reads (column types, triggers, indexes, publications, the
-- cached ASTs of the clauses) are left out.
pub mod Ancestors
use pgrls.Prelude.{
  String, Bool, ℕ, Option, List, [], ◌∷◌, concat, ◌≡◌, ◌↔◌, arith, Eq, refl, true, false,
}

-- The command of a policy, and of a session. A policy is never `truncate`, a session never
-- `for_all`.
pub data Command : Type 0 where
  for_all select insert update delete truncate : Command

abbrev pub command_code : Command → ℕ
command_code for_all = 0
command_code select = 1
command_code insert = 2
command_code update = 3
command_code delete = 4
command_code truncate = 5

abbrev pub command_eqb : Command → Command → Bool
command_eqb for_all for_all = true
command_eqb select select = true
command_eqb insert insert = true
command_eqb update update = true
command_eqb delete delete = true
command_eqb truncate truncate = true
command_eqb _ _ = false

pub command_eqb_iff : (a b : Command) → (command_eqb a b ≡ true) ↔ (a ≡ b)
command_eqb_iff a b = ground arith

instance abbrev pub command_eq : Eq Command
command_eq = record { eqb = command_eqb; eqb_iff = command_eqb_iff }

-- The literal that the source stores.
unfoldable pub command_text : Command → String
command_text for_all = "ALL"
command_text select = "SELECT"
command_text insert = "INSERT"
command_text update = "UPDATE"
command_text delete = "DELETE"
command_text truncate = "TRUNCATE"

pub record Policy : Type 0 where
  pub name : String
  pub command : Command
  pub permissive : Bool
  pub roles : List String
  pub using_sql : Option String
  pub with_check_sql : Option String

pub record Grant : Type 0 where
  pub role : String
  pub privileges : List String

pub record ColumnGrant : Type 0 where
  pub role : String
  pub column : String
  pub privileges : List String

pub record Table : Type 0 where
  pub schema : String
  pub name : String
  pub rls_enabled : Bool
  pub force_rls : Bool
  pub policies : List Policy
  pub columns : List String
  pub partition_of : Option (String × String)
  pub inherits : List (String × String)
  pub grants : List Grant
  pub column_grants : List ColumnGrant
  pub owner : String

-- f"{schema}.{name}"
unfoldable pub dotted : String → String → String
dotted schema name = concat (schema ∷ "." ∷ name ∷ [])

unfoldable pub qualified_name : Table → String
qualified_name t = dotted t.schema t.name

unfoldable pub policy_id : Table → Policy → String
policy_id t p = concat (t.schema ∷ "." ∷ t.name ∷ "." ∷ p.name ∷ [])

pub record Role : Type 0 where
  pub name : String
  pub can_login : Bool
  pub superuser : Bool
  pub bypassrls : Bool

-- `member` is a member of `role`, and holds its privileges when `inherit` is set.
pub record RoleMembership : Type 0 where
  pub member : String
  pub role : String
  pub inherit : Bool

-- A role that no policy binds.
pub record BypassRlsRole : Type 0 where
  pub name : String

-- A role of low trust that reaches the owners of some tables.
pub record OwnerReachableMember : Type 0 where
  pub member : String
  pub via_owners : List String

-- `role_memberships` is `none` where the role graph was not captured. A setting is a name with its
-- value, `none` where that was not captured; a role's setting has the role before it.
pub record Schema : Type 0 where
  pub tables : List Table
  pub role_memberships : Option (List RoleMembership)
  pub bypassrls_roles : List BypassRlsRole
  pub owner_reachable_members : List OwnerReachableMember
  pub set_gucs : List (String × Option String)
  pub role_set_gucs : List (String × (String × Option String))
