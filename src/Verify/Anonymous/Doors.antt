-- ===== src/Verify/Anonymous/Doors.antt =====
-- src/pgrls/verify.py: what an anonymous session may select from (`_anon_holds_select`,
-- `_relation_is_anon_selectable`), and whether it reads every row (`_anon_reads_every_row`).
pub mod Selectable
pub mod Total
use pgrls.Prelude.{
  ltb, leb, nat_eqb, nat_eqb_iff, if◌then◌else◌, Bool-cases, Option-cases, Bool-ext, and_left,
  and_right, Eq, ◌==◌, ==→eq, ==_refl, nat_eq, string_eq, bool_eqb, bool_eqb_iff, bool_eq, pair_eqb,
  pair_eqb_iff, pair_eq, option_eqb, option_eqb_iff, option_eq, length, length-append, is_empty,
  any, all, filter, is_empty-append, any-append, all-append, is_empty-filter, In, In-cons,
  In-cons_mono, In-swap, In-append, In-append_left, In-append_right, any-In, In-any, all-In, In-all,
  In-filter, filter-In, length-map, is_empty-map, any-map_never, In-map, map-In, flat_map,
  all-flat_map, flat_map-In, In-flat_map, here, there, contains, dedup, difference, subset,
  same_set, strict_subset, intersects, contains-In, In-contains, contains_head, contains_cons,
  contains-append, In-subset, subset-In, intersects-In, In-intersects, In-dedup, dedup-In,
  is_empty-dedup, insert_by, sort_by, is_empty-sort_by, sort_by-In, In-sort_by, find_last,
  find_last-In, In-find_last, Distinct, find_last-Distinct, concat, join, str_le, unseen,
  unseen-le-length, unseen_mono, unseen_strict, ℕ, zero, suc, ◌+◌, ◌-◌, ◌*◌, ◌/◌, ◌%◌, ◌≤◌, ◌<◌,
  String, ◌≡◌, refl, sym, ap, subst, ◌∙◌, ◌≢◌, ◌↔◌, ◌⊎◌, inl, inr, Bool, true, false, ◌&&◌, ◌||◌,
  not, Option, none, some, List, [], ◌∷◌, ◌++◌, map, arith, eq_iff,
}
use pgrls.Model.{Policy, Table, Schema, Grant, ColumnGrant, Command, command_eq}
use pgrls.Sql.{Sql, Node}
use pgrls.Access.{Relation}
use pgrls.Roles.{anon_reachable_roles}
use pgrls.Verify.{Mode, anon, mode_commands}
use pgrls.Verify.Gates.{checked_ast, compose_with_floor}
use pgrls.Verify.Anonymous.{
  anon_priv_closure, anon_session_exempt, anon_policy_reachability, Reach, reachable, unreachable,
  unknown,
}

-- `{g.role for g in rel.grants if "SELECT" in g.privileges}`
abbrev pub select_grantees : List Grant → List String
select_grantees gs =
    map (λ (g : Grant). g.role) (filter (λ (g : Grant). contains "SELECT" g.privileges) gs)

abbrev pub column_grantees : List ColumnGrant → List String
column_grantees gs =
    map (λ (g : ColumnGrant). g.role)
      (filter (λ (g : ColumnGrant). contains "SELECT" g.privileges) gs)

-- The checks that need the role graph; `none` where it was not captured.
unfoldable pub held_by_closure : String → List String → Option (List String) → Bool
held_by_closure owner grantees none = false
held_by_closure owner grantees (some roles) =
    not (owner == "") && contains owner roles
    || (contains "pg_read_all_data" roles || intersects grantees roles)

abbrev pub is_reached : Reach → Bool
is_reached r = elim r [ reachable ↦ true | _ ↦ false ]

abbrev pub is_unreached : Reach → Bool
is_unreached r = elim r [ unreachable ↦ true | _ ↦ false ]

module _ (sql : Sql) (s : Schema) where
  -- `_anon_holds_select`
  unfoldable pub anon_holds_select : Relation → List String → Bool → Bool
  unfolding held_by_closure
  anon_holds_select rel anon_roles table_level_only =
      let grantees =
        select_grantees rel.grants
        ++ (if table_level_only then [] else column_grantees rel.column_grants) in
      if contains "PUBLIC" grantees || intersects grantees anon_roles
      then true
      else held_by_closure rel.owner grantees (anon_priv_closure sql s anon_roles)

  -- `_relation_is_anon_selectable`
  unfoldable pub relation_is_anon_selectable : Relation → List String → Bool
  unfolding anon_holds_select
  relation_is_anon_selectable rel anon_roles =
      let reach = (anon_reachable_roles s anon_roles).0 in
      if any (λ (g : Grant). contains g.role reach && contains "SELECT" g.privileges) rel.grants
      then true
      else if any (λ (g : ColumnGrant). contains g.role reach && contains "SELECT" g.privileges)
          rel.column_grants
      then true
      else anon_holds_select rel anon_roles false

  -- `is_total` is `anon_leak_is_total` on the states at hand.
  module _ (is_total : Node → Bool) (anon_roles : List String) where
    abbrev pub reads : Policy → Bool
    reads p = contains p.command (mode_commands anon)

    abbrev pub restrictives : Table → List Policy
    restrictives t =
        filter
          (λ (p : Policy).
            reads p
            && (not p.permissive
                && not (is_unreached (anon_policy_reachability sql s p anon_roles))))
          t.policies

    -- `[checked_ast(r, "anon") for r in restrictives]`, `none` where one is missing
    unfoldable pub all_asts : List Policy → Option (List Node)
    all_asts [] = some []
    all_asts (r ∷ rs) =
        let rest = all_asts rs in
        elim (checked_ast sql r anon) [
          | none ↦ none
          | some n ↦ elim rest [ none ↦ none | some ns ↦ some (n ∷ ns) ]
        ]

    abbrev pub under_floor : List Node → Node → Node
    under_floor floors n = if is_empty floors then n else compose_with_floor n floors

    -- The body of the loop over the policies.
    unfoldable pub opens_every_row : List Node → Policy → Bool
    opens_every_row floors p =
        if not (reads p) || not p.permissive
        then false
        else if not (is_reached (anon_policy_reachability sql s p anon_roles))
        then false
        else elim (checked_ast sql p anon) [
          | none ↦ false
          | some n ↦ is_total (under_floor floors n)
        ]

    -- `_anon_reads_every_row`, whose memo is left out
    unfoldable pub anon_reads_every_row : Table → Bool
    unfolding all_asts opens_every_row
    anon_reads_every_row t =
        if anon_session_exempt sql s t anon_roles then true else elim (all_asts (restrictives t)) [
          | none ↦ false
          | some floors ↦ any (opens_every_row floors) t.policies
        ]
