-- ===== src/Examples/Doors.antt =====
-- What an anonymous session may select from, and a table that it reads every row of
-- (src/pgrls/verify.py).
use pgrls.Prelude.{
  nat_eq, string_eq, bool_eq, pair_eq, option_eq, any, all, filter, In, flat_map, here, there,
  contains, dedup, subset, same_set, intersects, contains-In, In-contains, insert_by, sort_by,
  String, ◌≡◌, refl, sym, subst, ◌↔◌, Bool, true, false, none, some, List, [], ◌∷◌,
}
use pgrls.Model.{Policy, Table, Schema, command_eq, select}
use pgrls.Sql.{Node, parse_expr, no_text, node_eq}
use pgrls.Sql.Truth.{Truth}
use pgrls.Rls.{admitted, has_privilege}
use pgrls.Roles.{closure, close, scan, adds, anon_reachable_roles}
use pgrls.Roles.Closure.{Holds, closure_iff}
use pgrls.Access.{relation_of}
use pgrls.Access.Cells.Clauses.{clause_truth}
use pgrls.Prover.{
  prove_anon_session, session_verdict, answered, leak_witness, anon_witness_is_sufficient, pins,
  and_of, anon_tv, anon_tvs, combine, gather, lift_with, lift_to_tv, anon_boolexpr, fold_tvs,
  anon_leak_is_total, anon_sessions, states_of,
}
use pgrls.Prover.Isolation.{anon_leak_is_total_sound}
use pgrls.Verify.{mode_commands}
use pgrls.Verify.Gates.{checked_ast}
use pgrls.Verify.Anonymous.{
  anon_session_exempt, anon_policy_reachability, anon_priv_closure, canonical_role,
}
use pgrls.Verify.Anonymous.Doors.{
  relation_is_anon_selectable, anon_holds_select, held_by_closure, anon_reads_every_row, all_asts,
  opens_every_row,
}
use pgrls.Verify.Anonymous.Doors.Selectable.{relation_is_anon_selectable_complete}
use pgrls.Verify.Anonymous.Doors.Total.{OpensRow, HasCanonical, anon_reads_every_row_sound}
use pgrls.Verify.Anonymous.{anon_set_gucs, guc_states, update_gucs, put_guc, anon_login_roles}
use pgrls.Examples.{demo_sql, docs, own, memberships, demo_schema, base_docs}
use pgrls.Examples.Provers.{demo_z3, demo_laws, key_only, legal, kind_of, kind_value, two_worlds}
use pgrls.Examples.Verdicts.{anon_role, anon_held, anon_holds}

not_selectable :
    relation_is_anon_selectable demo_sql demo_schema (relation_of base_docs) ("anon" ∷ []) ≡ false
unfolding relation_is_anon_selectable anon_holds_select held_by_closure anon_priv_closure closure
    close scan adds anon_reachable_roles any filter contains intersects flat_map
not_selectable = refl

relation_is_anon_selectable_complete_example :
    has_privilege anon_role base_docs select anon_held ≡ false
relation_is_anon_selectable_complete_example =
    relation_is_anon_selectable_complete demo_sql demo_schema memberships refl ("anon" ∷ [])
      anon_role anon_held (here refl) refl anon_holds base_docs refl not_selectable

-- A row that is not public.
abbrev hidden_row : String → Truth
hidden_row s = kind_value (kind_of s) false

abbrev unparsed : String → Bool
unparsed s = false

abbrev reads_all : Node → Bool
reads_all n = anon_leak_is_total demo_z3 key_only [] [] n

opens : OpensRow reads_all hidden_row
unfolding states_of
opens n e =
    anon_leak_is_total_sound demo_laws key_only [] [] n [] true false e (here refl)
      (legal true n false)

abbrev public_docs : Table
public_docs = docs (record (own "true") { roles = "reader" ∷ [] } ∷ []) []

at_reader : {r : String} → In r ("reader" ∷ []) → canonical_role demo_sql r ≡ r
at_reader (here j) = subst (λ z. canonical_role demo_sql z ≡ z) (sym j) refl
at_reader (there m) = elim m [ ]

public_canonical : HasCanonical demo_sql public_docs.policies
public_canonical p (here i) r m = at_reader (subst (λ (q : Policy). In r q.roles) i m)
public_canonical p (there k) r m = elim k [ ]

abbrev targets : List String
targets = "auditor" ∷ "reader" ∷ "anon" ∷ "PUBLIC" ∷ []

same_targets : closure memberships ("anon" ∷ "PUBLIC" ∷ []) ≡ targets
unfolding closure close scan adds contains
same_targets = refl

held_targets : (r : String) → In r targets ↔ Holds memberships ("anon" ∷ "PUBLIC" ∷ []) r
held_targets r =
    let known = closure_iff memberships ("anon" ∷ "PUBLIC" ∷ []) r in
    (
      λ m. known.0 (In-contains _ (subst (In r) (sym same_targets) m)),
      λ h. subst (In r) same_targets (contains-In r _ (known.1 h)),
    )

not_exempt : anon_session_exempt demo_sql demo_schema public_docs ("anon" ∷ []) ≡ false
unfolding anon_session_exempt anon_priv_closure closure close scan adds contains intersects flat_map
    filter
not_exempt = refl

reads_every_row :
    anon_reads_every_row demo_sql demo_schema reads_all ("anon" ∷ []) public_docs ≡ true
unfolding anon_reads_every_row all_asts opens_every_row anon_session_exempt anon_priv_closure
    anon_policy_reachability anon_reachable_roles checked_ast mode_commands closure close scan adds
    contains intersects flat_map filter any all parse_expr no_text prove_anon_session
    session_verdict answered leak_witness anon_witness_is_sufficient pins and_of anon_tv anon_tvs
    combine gather lift_with lift_to_tv anon_boolexpr fold_tvs anon_leak_is_total anon_sessions
    states_of two_worlds
reads_every_row = refl

anon_reads_every_row_sound_example :
    admitted (clause_truth demo_sql hidden_row unparsed) select targets public_docs.policies ≡ true
anon_reads_every_row_sound_example =
    anon_reads_every_row_sound demo_sql demo_schema reads_all ("anon" ∷ []) hidden_row unparsed
      targets opens memberships refl held_targets public_docs public_canonical not_exempt
      reads_every_row

abbrev settings : Schema
settings = record demo_schema {
  set_gucs = ("app.flag", some "off") ∷ ("app.flag", some "on") ∷ [];
  role_set_gucs = ("anon", ("app.role", none)) ∷ [];
}

anon_settings :
    anon_set_gucs demo_sql settings ("anon" ∷ [])
    ≡ (("app.flag", some "on") ∷ ("app.role", none) ∷ []) ∷ []
unfolding anon_set_gucs guc_states update_gucs put_guc anon_login_roles closure close scan adds
    contains filter sort_by insert_by dedup any same_set subset all
anon_settings = refl
