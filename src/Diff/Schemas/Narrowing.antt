-- ===== src/Diff/Schemas/Narrowing.antt =====
-- A schema diff whose changes are all safe, against PostgreSQL's rules for what a session reaches.
use pgrls.Prelude.{
  nat_eq, string_eq, bool_eq, pair_eq, option_eq, all, all-append, In, In-append_left, In-map,
  all-flat_map, dedup-In, sort_by-In, find_last, Distinct, find_last-Distinct, str_le, String, ◌≡◌,
  ap, ◌∙◌, Bool, true, ◌||◌, not, some, List, [], ◌++◌, map, arith,
}
use pgrls.Model.{Policy, Table, Schema, Role, Command, command_eq, command_text, qualified_name}
use pgrls.Sql.{Sql}
use pgrls.Sql.Truth.{Truth}
use pgrls.Rls.{is_owner, has_privilege, reaches_row}
use pgrls.Access.Cells.Clauses.{clause_truth}
use pgrls.Diff.{Change, Classification, change, is_safe, all_safe}
use pgrls.Diff.Predicates.{Solver}
use pgrls.Diff.Predicates.Solved.{SolverLaws}
use pgrls.Diff.Policies.{one_sided_changes}
use pgrls.Diff.Renames.{off, diff_policies}
use pgrls.Diff.Grants.{diff_grants}
use pgrls.Diff.Grants.Narrowing.{safe_grants_narrow, safe_some_column}
use pgrls.Diff.Shapes.{diff_policy_shapes}
use pgrls.Diff.Shapes.Clauses.{Clear}
use pgrls.Diff.Shapes.Pairs.{IsIntrospected}
use pgrls.Diff.Shapes.Narrowing.{KeepsRoles, safe_changes_narrow}
use pgrls.Diff.Schemas.{
  rls_changes, force_changes, diff_columns, table_changes, changes_of, diff_schemas,
}

halves :
    (cs ds : List Change) → all_safe (cs ++ ds) ≡ true → (all_safe cs ≡ true) × (all_safe ds ≡ true)
unfolding all_safe
halves cs ds h =
    let both = all-append (λ (c : Change). is_safe c.classification) cs ds in
    (ground (arith, both), ground (arith, both))

rls_stays :
    (qname : String) (b h : Table)
    → all_safe (rls_changes qname b h) ≡ true
    → (not b.rls_enabled || h.rls_enabled) ≡ true
unfolding rls_changes all_safe all change
rls_stays qname b h k = ground arith

force_stays :
    (qname : String) (b h : Table)
    → all_safe (force_changes qname b h) ≡ true
    → (not b.force_rls || h.force_rls) ≡ true
unfolding force_changes all_safe all change
force_stays qname b h k = ground arith

-- What the hypotheses ask of the two versions of a table.
pub record Comparable {F C : Type 0} (solver : Solver F C) (sql : Sql) (value : String → Truth)
    (b h : Table) : Type 0 where
  pub same_owner : b.owner ≡ h.owner
  pub distinct_base : Distinct (λ (p : Policy). p.name) b.policies
  pub distinct_head : Distinct (λ (p : Policy). p.name) h.policies
  pub base_read : (p : Policy) → In p b.policies → IsIntrospected sql p
  pub head_read : (q : Policy) → In q h.policies → IsIntrospected sql q
  pub clear :
      (p q : Policy)
      → In p b.policies
      → In q h.policies
      → Clear solver sql value p.using_sql q.using_sql
        × Clear solver sql value p.with_check_sql q.with_check_sql
  pub keeps_roles : KeepsRoles b.policies h.policies

module _ {F C : Type 0} (solver : Solver F C) (sql : Sql) (laws : SolverLaws solver)
    (w : laws.World) (unparsed : String → Bool) (rename_classification : Classification) where
  abbrev value : String → Truth
  value = laws.value w

  fewer_privileges :
      (b h : Table)
      → b.owner ≡ h.owner
      → all_safe (diff_grants sql b h) ≡ true
      → (role : Role) (command : Command) (held : List String)
      → has_privilege role h command held ≡ true
      → has_privilege role b command held ≡ true
  unfolding has_privilege
  fewer_privileges b h o k role command held t = ground (
    arith,
    safe_grants_narrow sql b h k (command_text command) held,
    safe_some_column sql b h k (command_text command) held,
    ap (λ w. is_owner role w held) o,
  )

  table_narrows :
      (qname : String) (b h : Table)
      → Comparable solver sql value b h
      → all_safe (table_changes solver sql off rename_classification qname b h) ≡ true
      → (role : Role) (command : Command) (held targets : List String)
      → reaches_row (clause_truth sql value unparsed) role h command held targets ≡ true
      → reaches_row (clause_truth sql value unparsed) role b command held targets ≡ true
  unfolding table_changes diff_policies reaches_row
  table_narrows qname b h c k role command held targets t =
      let shapes = diff_policy_shapes solver sql b h in
      let columns = diff_columns sql b h in
      let grants = diff_grants sql b h in
      let names = one_sided_changes b h [] [] in
      let (rls_safe, k1) =
        halves (rls_changes qname b h)
          (force_changes qname b h ++ (names ++ (shapes ++ (columns ++ grants)))) k in
      let (force_safe, k2) =
        halves (force_changes qname b h) (names ++ (shapes ++ (columns ++ grants))) k1 in
      let (names_safe, k3) = halves names (shapes ++ (columns ++ grants)) k2 in
      let (shapes_safe, k4) = halves shapes (columns ++ grants) k3 in
      let (columns_safe, grants_safe) = halves columns grants k4 in
      let rows =
        safe_changes_narrow solver sql laws w unparsed b h c.distinct_base c.distinct_head
          c.base_read c.head_read c.clear shapes_safe c.keeps_roles names_safe command targets in
      let privileges = fewer_privileges b h c.same_owner grants_safe role command held in
      ground (
        arith,
        rows,
        privileges,
        rls_stays qname b h rls_safe,
        force_stays qname b h force_safe,
        ap (λ w. is_owner role w held) c.same_owner,
      )

  -- Where every change that the diff of two schemas reports is safe (renames are not matched), a
  -- session reaches no row of a table that both schemas have which it did not reach in the base,
  -- by PostgreSQL's rules for privileges and row security, for any role, command and sets of held
  -- roles. Table names are distinct; the owner is the same in both; the policies are as
  -- introspection reads them, with distinct names and keys that tell the parts of their clauses
  -- apart; no restrictive policy lost a role; Z3 and the translation of the leaves keep their
  -- laws; and no leaf of two clauses is NULL on the row where the solver compared them.
  pub safe_diff_narrows :
      (base head : Schema) (b h : Table)
      → Distinct qualified_name base.tables
      → Distinct qualified_name head.tables
      → In b base.tables
      → In h head.tables
      → qualified_name b ≡ qualified_name h
      → Comparable solver sql value b h
      → all_safe (diff_schemas solver sql off rename_classification base head) ≡ true
      → (role : Role) (command : Command) (held targets : List String)
      → reaches_row (clause_truth sql value unparsed) role h command held targets ≡ true
      → reaches_row (clause_truth sql value unparsed) role b command held targets ≡ true
  unfolding diff_schemas all_safe changes_of
  safe_diff_narrows base head b h db dh m n i c k role command held targets t =
      let found_b = find_last-Distinct qualified_name base.tables db m in
      let found_h : find_last qualified_name (qualified_name b) head.tables ≡ some h =
        ap (λ q. find_last qualified_name q head.tables) i
        ∙ find_last-Distinct qualified_name head.tables dh n in
      let in_loop = sort_by-In str_le _ (
        dedup-In _ (In-append_left _ (map qualified_name head.tables) (In-map qualified_name m))) in
      let quiet =
        all-flat_map
          (λ qname.
            changes_of solver sql off rename_classification qname
              (find_last qualified_name qname base.tables)
              (find_last qualified_name qname head.tables))
          (λ (c : Change). is_safe c.classification) _ k in_loop in
      table_narrows (qualified_name b) b h c (rw (found_b, found_h) at quiet) role command held
        targets t
