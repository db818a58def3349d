-- ===== src/Access/Cells.antt =====
-- `_effective_clause`, `_policy_applies`, `_clause_is_open`, `_narrowing_restrictive` and `cell_for`
-- of src/pgrls/access.py. `cell_for` is called here without a context, so the foreign keys that can
-- stop a TRUNCATE are not looked at.
pub mod Clauses
pub mod Sound
use pgrls.Prelude.{
  ltb, leb, nat_eqb, nat_eqb_iff, if◌then◌else◌, Bool-cases, Option-cases, Bool-ext, Eq, ◌==◌,
  ==→eq, ==_refl, nat_eq, string_eq, bool_eqb, bool_eqb_iff, bool_eq, pair_eqb, pair_eqb_iff,
  pair_eq, option_eqb, option_eqb_iff, option_eq, length, length-append, is_empty, any, all, filter,
  In, In-cons, In-cons_mono, In-swap, In-append, In-append_left, In-append_right, any-In, In-any,
  all-In, In-all, In-filter, filter-In, length-map, In-map, map-In, here, there, contains, dedup,
  difference, subset, same_set, strict_subset, intersects, contains-In, In-contains, contains_head,
  contains_cons, contains-append, In-subset, subset-In, intersects-In, In-intersects, In-dedup,
  dedup-In, insert_by, sort_by, sort_by-In, In-sort_by, find_last, find_last-In, In-find_last,
  concat, join, str_le, unseen, unseen-le-length, unseen_mono, unseen_strict, ℕ, zero, suc, ◌+◌,
  ◌-◌, ◌*◌, ◌/◌, ◌%◌, ◌≤◌, ◌<◌, String, ◌≡◌, refl, sym, ap, subst, ◌∙◌, ◌≢◌, ◌↔◌, ◌⊎◌, inl, inr,
  Bool, true, false, ◌&&◌, ◌||◌, not, Option, none, some, List, [], ◌∷◌, ◌++◌, map, arith, eq_iff,
}
use pgrls.Model.{
  command_eq, Command, for_all, select, insert, update, delete, truncate, Policy, Role, Table,
}
use pgrls.Sql.{Sql, parse_expr}
use pgrls.Sql.Disjuncts.{flatten_or_disjuncts, is_literal_true}
use pgrls.Access.{
  Verdict, opened, denied, conditional, undecided, Cell, bare, noted, filtered, AccessPath,
  PathKind, relation_of,
}
use pgrls.Access.Privileges.{privilege_paths, is_owner_path}

unfoldable pub effective_clause : Policy → Command → Option String
effective_clause p command =
    if command == insert
    then (elim p.with_check_sql [
      | some c ↦ some c
      | none ↦ if p.command == for_all then p.using_sql else none
    ])
    else p.using_sql

-- `none`: not decidable, since the membership graph was not captured.
unfoldable pub policy_applies : Policy → Command → List String → Bool → Option Bool
policy_applies p command applies_to complete =
    if not (contains p.command (for_all ∷ command ∷ []))
    then some false
    else (let roles = if is_empty p.roles then "PUBLIC" ∷ [] else p.roles in
        if intersects roles applies_to
        then some true
        else if not complete
        then none
        else some false)

unfoldable pub clause_is_open : Sql → String → Bool
clause_is_open sql clause = elim (parse_expr sql (some clause)) [
  | none ↦ false
  | some node ↦ any (is_literal_true sql) (flatten_or_disjuncts node)
]

-- `[c for p in ps if (c := _effective_clause(p, command))]`: absent and empty clauses are dropped.
unfoldable pub present_clauses : Command → List Policy → List String
present_clauses command [] = []
present_clauses command (p ∷ ps) =
    let rest = present_clauses command ps in
    elim (effective_clause p command) [ none ↦ rest | some c ↦ if c == "" then rest else c ∷ rest ]

unfoldable pub narrowing_restrictive : Sql → List Policy → Command → List String
unfolding present_clauses
narrowing_restrictive sql restrictive command =
    filter (λ c. not (clause_is_open sql c)) (present_clauses command restrictive)

abbrev pub applying : Option Bool → Bool
applying (some b) = b
applying none = false

abbrev pub is_unknown : Option Bool → Bool
is_unknown (some b) = false
is_unknown none = true

unfoldable pub names_of : List Policy → List String
names_of ps = sort_by str_le (map (λ (p : Policy). p.name) ps)

-- The filter that is shown: the permissive clauses by OR, and each narrowing one by AND.
unfoldable pub filter_text : List String → List String → String
filter_text perm restr =
    let first =
      if ltb 1 (length perm) then concat ("(" ∷ join " OR " perm ∷ ")" ∷ []) else concat perm in
    join " AND " (first ∷ restr)

-- `verdicts[name]`: the dict is keyed by the names of the policies.
unfoldable pub verdict_of : List Policy → Command → List String → Bool → String → Option Bool
unfolding policy_applies
verdict_of ps command applies_to complete name = elim (find_last (λ (p : Policy). p.name) name ps) [
  | none ↦ none
  | some p ↦ policy_applies p command applies_to complete
]

-- The part of `cell_for` that reads the policies, from the line that sets `verdicts`.
unfoldable pub policy_cell : Sql → Table → Command → List String → Bool → Cell × List String
unfolding verdict_of clause_is_open present_clauses narrowing_restrictive names_of
policy_cell sql table command applies_to complete =
    let verdict = λ (p : Policy). verdict_of table.policies command applies_to complete p.name in
    let applicable = filter (λ p. applying (verdict p)) table.policies in
    let unknown_permissive = filter (λ p. is_unknown (verdict p) && p.permissive) table.policies in
    let permissive = filter (λ (p : Policy). p.permissive) applicable in
    let restrictive = filter (λ (p : Policy). not p.permissive) applicable in
    let names = names_of permissive in
    let perm = present_clauses command permissive in
    let restr = narrowing_restrictive sql restrictive command in
    if is_empty permissive
    then (if not (is_empty unknown_permissive)
        then (
          noted undecided (
              concat (
                "role-membership graph not captured; cannot tell whether "
                ∷ join ", " (names_of unknown_permissive)
                ∷ " apply"
                ∷ [])),
          [],
        )
        else (noted denied "no permissive policy", []))
    else if is_empty perm
    then (noted denied "no applicable permissive clause", names)
    else if any (clause_is_open sql) perm
    then ((if is_empty restr then bare opened else filtered (join " AND " restr)), names)
    else if not (is_empty unknown_permissive)
    then (
      noted undecided (
          concat (
            "role-membership graph not captured; "
            ∷ join ", " (names_of unknown_permissive)
            ∷ " may also apply"
            ∷ [])),
      names,
    )
    else (filtered (filter_text perm restr), names)

unfoldable pub cell_for :
    Sql
    → Table
    → Role
    → Command
    → Option (List String)
    → List String
    → Bool
    → Cell × List AccessPath × List String
cell_for sql table role command closure applies_to complete =
    let (paths, known) = privilege_paths role (relation_of table) closure command in
    let (cell, names) = policy_cell sql table command applies_to complete in
    if is_empty paths
    then (if not known
        then (
          noted undecided
              "role-membership graph not captured; a grant to a role this one inherits cannot be ruled out",
          [],
          [],
        )
        else (bare denied, [], []))
    else if role.superuser
    then (noted opened "superuser", paths, [])
    else if command == truncate
    then (noted opened "TRUNCATE is not subject to RLS", paths, [])
    else if role.bypassrls
    then (noted opened "bypasses RLS", paths, [])
    else if not table.rls_enabled
    then (noted opened "RLS off", paths, [])
    else if any is_owner_path paths && not table.force_rls
    then (noted opened "owner; RLS not FORCE'd", paths, [])
    else (cell, paths, names)
