-- ===== src/Examples/Cells.antt =====
-- The theorems on roles and cells at a table, a role graph and two cells.
use pgrls.Prelude.{
  ◌==◌, nat_eq, string_eq, bool_eq, pair_eq, option_eq, is_empty, any, here, contains, sort_by, ◌≤◌,
  String, ◌≡◌, refl, sym, ap, ◌∙◌, ◌≢◌, ◌↔◌, Bool, true, false, ◌||◌, not, none, some, List, [],
  ◌∷◌, arith,
}
use pgrls.Model.{Table, select, command_eq}
use pgrls.Roles.{inherit_closure, anon_reachable_roles}
use pgrls.Roles.Closure.{Holds, inherit_closure_iff, anon_reachable_roles_iff}
use pgrls.Rls.{admitted, has_privilege, reaches_row, clause_for}
use pgrls.Access.{
  denied, conditional, undecided, rank, Cell, AccessPath, filtered, bare, via_path, grant,
  relation_of,
}
use pgrls.Access.Privileges.{privilege_paths}
use pgrls.Access.Privileges.Held.{privilege_paths_iff}
use pgrls.Access.Cells.{policy_cell, cell_for}
use pgrls.Access.Cells.Clauses.{clause_truth, HasClauses}
use pgrls.Access.Cells.Sound.{Promise, policy_cell_sound, cell_for_sound}
use pgrls.Access.Merge.{merge, fold}
use pgrls.Access.Merge.Rows.{Reading, covers, IsFaithful}
use pgrls.Access.Merge.Folds.{fold_widest, covers-fold, covers-fold_exact}
use pgrls.Examples.{
  demo_sql, demo_value, demo_unparsed, own, base_docs, session_roles, app_role, memberships,
  demo_schema, docs, known_true, only, unequal,
}

-- A table that its only policy opens.
abbrev open_docs : Table
open_docs = docs (own "true" ∷ []) base_docs.grants

has_clauses : HasClauses select open_docs.policies
unfolding clause_for
has_clauses p m h = unequal "true" "" refl (
    ap (λ o. elim o [ none ↦ "true" | some c ↦ c ])
      (ap (λ r. clause_for r select) (sym (only m)) ∙ h))

policy_cell_sound_example :
    Promise (policy_cell demo_sql open_docs select session_roles true).0.verdict (
      admitted
        (clause_truth demo_sql demo_value demo_unparsed)
        select
        session_roles
        open_docs.policies)
unfolding contains
policy_cell_sound_example =
    policy_cell_sound demo_sql demo_value demo_unparsed known_true open_docs select session_roles
      (refl, tt) has_clauses

cell_for_sound_example :
    Promise
      (cell_for demo_sql open_docs app_role select
        (some session_roles)
        session_roles
        true).0.verdict
      (reaches_row
        (clause_truth demo_sql demo_value demo_unparsed)
        app_role
        open_docs
        select
        session_roles
        session_roles)
unfolding contains
cell_for_sound_example =
    cell_for_sound demo_sql demo_value demo_unparsed known_true open_docs app_role select
      session_roles session_roles (refl, tt) has_clauses

privilege_paths_iff_example :
    is_empty (privilege_paths app_role (relation_of base_docs) (some session_roles) select).0
    ≡ not (has_privilege app_role base_docs select session_roles)
privilege_paths_iff_example = privilege_paths_iff app_role base_docs session_roles select

inherit_closure_iff_example :
    (roles : List String) × (inherit_closure demo_schema "anon" ≡ some roles)
    × ((r : String) → (contains r roles ≡ true) ↔ Holds memberships ("anon" ∷ []) r)
inherit_closure_iff_example = inherit_closure_iff demo_schema memberships "anon" refl

anon_reachable_roles_iff_example :
    ((anon_reachable_roles demo_schema ("anon" ∷ [])).1 ≡ true)
    × ((contains "admin" (anon_reachable_roles demo_schema ("anon" ∷ [])).0 ≡ true)
        ↔ Holds memberships ("anon" ∷ "PUBLIC" ∷ []) "admin")
anon_reachable_roles_iff_example =
    anon_reachable_roles_iff demo_schema memberships ("anon" ∷ []) refl "admin"

abbrev reading : Reading
reading p s r = p == "a"

abbrev no_dependence : String → Bool × Bool
no_dependence p = (false, false)

faithful : IsFaithful reading no_dependence (some "app")
faithful = record {
  session_free = λ p s t r h. refl;
  privilege_free = λ p s r q h. refl;
  own_session = λ p r. refl;
  own_privileges = λ p s. refl;
}

abbrev view_path : AccessPath
view_path = via_path grant "reader"

-- A view that filters by the same predicate, and one that is denied.
abbrev doors : List (Cell × AccessPath)
doors = (filtered "a", view_path) ∷ (bare denied, view_path) ∷ []

not_undecided : conditional ≢ undecided
not_undecided e = absurd (ground arith)

fold_widest_example :
    (rank denied ≤ rank (fold no_dependence (some "app") (bare denied) doors).verdict)
    × (rank conditional ≤ rank (fold no_dependence (some "app") (bare denied) doors).verdict)
fold_widest_example =
    fold_widest no_dependence (some "app") (bare denied) doors (filtered "a", view_path) (here refl)

covers-fold_example : covers reading (fold no_dependence (some "app") (bare denied) doors) ≡ true
unfolding covers any
covers-fold_example = covers-fold faithful (bare denied) doors refl

covers-fold_exact_example :
    covers reading (fold no_dependence (some "app") (bare denied) doors)
    ≡ (covers reading (bare denied) || any (λ (d : Cell × AccessPath). covers reading d.0) doors)
unfolding fold merge sort_by
covers-fold_exact_example = covers-fold_exact faithful (bare denied) doors not_undecided
