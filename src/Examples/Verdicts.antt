-- ===== src/Examples/Verdicts.antt =====
-- Tables under the isolation verdicts of src/pgrls/verify.py: public rows behind a floor, a table
-- that everyone reads, and a table whose owner a role of low trust can become.
use pgrls.Prelude.{
  nat_eq, string_eq, bool_eq, pair_eq, option_eq, is_empty, any, all, filter, In-cons, flat_map,
  here, there, contains, dedup, subset, intersects, String, ◌≡◌, refl, sym, ap, subst, inl, inr,
  Bool, true, false, Option, none, some, List, [], ◌∷◌, ◌++◌, arith,
}
use pgrls.Model.{Policy, Table, Role, command_eq, select, update, delete, qualified_name, dotted}
use pgrls.Sql.{Node, parse_expr, no_text, node_eq, node_eqb, of_list}
use pgrls.Sql.Truth.{Truth, admits, eval}
use pgrls.Rls.{
  admitted, admitted_on, new_row, clause_of, reaches_row, clause_for, grants_row, lets_row, applies,
  target_roles, clause_holds,
}
use pgrls.Roles.{closure, close, scan, adds, anon_reachable_roles}
use pgrls.Roles.Closure.{Holds, seeded, inherited}
use pgrls.Access.Cells.Clauses.{clause_truth}
use pgrls.Prover.{
  Verdict, isolated, Row, prove_anon_isolation, anon_sessions, states_of, prove_anon_session,
  session_verdict, answered, any_session, first_leak, leak_witness, anon_witness_is_sufficient,
  pins, and_of, anon_tv, anon_tvs, combine, gather, lift_with, lift_to_tv, anon_boolexpr, fold_tvs,
  kleene_and,
}
use pgrls.Prover.Isolation.{prove_anon_isolation_sound}
use pgrls.Verify.{anon, write, mode_commands, TableVerdict, rollup}
use pgrls.Verify.Gates.{
  checked_ast, effective_write_check, old_row_write_gate, write_commands, or_gates, one_or_any,
  first_seen, present, compose_with_floor, floor_applies, write_ops,
}
use pgrls.Verify.Tables.{
  table_verdict, policies_verdict, policy_proofs, policy_proof, predicate_proof, reached_proof,
  leaking_proof, floor_asts, composed_proof, reachers,
}
use pgrls.Verify.Tables.Policies.{ClearsRow, HasFloor}
use pgrls.Verify.Tables.Sound.{HasRoles, table_verdict_sound}
use pgrls.Verify.Tables.Isolation.{anon_verdict_sound}
use pgrls.Verify.Anonymous.{anon_session_exempt, anon_policy_reachability, anon_priv_closure}
use pgrls.Verify.Anonymous.Exempt.{IsHeldBy}
use pgrls.Examples.{demo_sql, docs, own, memberships, demo_schema}
use pgrls.Examples.Provers.{demo_z3, demo_laws, keyed, legal, kind_of, kind_value, two_worlds}

-- A row that is public.
abbrev public_row : String → Truth
public_row s = kind_value (kind_of s) true

abbrev unparsed : String → Bool
unparsed s = false

abbrev anon_roles : List String
anon_roles = "anon" ∷ "PUBLIC" ∷ []

-- Public rows, under a floor of the owner's.
abbrev shown : Policy
shown = record (own "b") { roles = "anon" ∷ []; with_check_sql = some "b" }

abbrev owners_floor : Policy
owners_floor = record (own "a") { name = "floor"; permissive = false; roles = "PUBLIC" ∷ [] }

abbrev floored_docs : Table
floored_docs = docs (shown ∷ owners_floor ∷ []) []

abbrev prove : Node → Verdict × Option Row
prove = prove_anon_isolation demo_z3 keyed [] []

clears : ClearsRow prove public_row
unfolding states_of
clears n w e =
    prove_anon_isolation_sound demo_laws keyed [] [] n w [] true true e (here refl)
      (legal true n true)

floored_roles : HasRoles floored_docs.policies
floored_roles p (here i) = ap (λ (q : Policy). is_empty q.roles) i
floored_roles p (there (here i)) = ap (λ (q : Policy). is_empty q.roles) i
floored_roles p (there (there m)) = elim m [ ]

floored_clauses : HasFloor new_row write update floored_docs.policies
unfolding clause_of
floored_clauses p m w f e = elim (In-cons m) [
  | inl i ↦ absurd (ground (arith, ap (λ (q : Policy). clause_of new_row q update) i))
  | inr n ↦ elim (In-cons n) [
    | inl i ↦ absurd (ground (arith, ap (λ (q : Policy). clause_of new_row q update) i))
    | inr k ↦ elim k [ ]
  ]
]

write_answer :
    (v : TableVerdict) × (table_verdict demo_sql demo_schema write prove anon_roles false
        floored_docs
      ≡ some v)
    × (v.verdict ≡ isolated)
unfolding table_verdict policies_verdict policy_proofs policy_proof predicate_proof leaking_proof
    floor_asts composed_proof reachers checked_ast effective_write_check old_row_write_gate
    write_commands or_gates one_or_any first_seen present compose_with_floor floor_applies write_ops
    mode_commands rollup filter contains any all subset dedup parse_expr no_text qualified_name
    dotted of_list prove_anon_isolation anon_sessions states_of flat_map any_session first_leak
    prove_anon_session session_verdict answered two_worlds anon_tv anon_tvs combine gather lift_with
    lift_to_tv anon_boolexpr fold_tvs kleene_and leak_witness anon_witness_is_sufficient pins and_of
    node_eqb
write_answer = (_, refl, refl)

table_verdict_sound_example :
    admitted_on new_row
      (clause_truth demo_sql public_row unparsed)
      update
      anon_roles
      floored_docs.policies
    ≡ false
unfolding contains
table_verdict_sound_example =
    table_verdict_sound demo_sql demo_schema write prove anon_roles public_row unparsed update
      anon_roles refl refl clears new_row false floored_docs write_answer.0
      (λ p i u. absurd (ground arith)) floored_roles floored_clauses write_answer.1 write_answer.2

-- A floor with a WITH CHECK and no USING, over a policy that is open to everyone.
abbrev open_policy : Policy
open_policy = record (own "true") { roles = "PUBLIC" ∷ [] }

abbrev check_floor : Policy
check_floor = record (own "a") {
  name = "floor";
  permissive = false;
  roles = "PUBLIC" ∷ [];
  using_sql = none;
  with_check_sql = some "a";
}

abbrev checked_docs : Table
checked_docs = docs (open_policy ∷ check_floor ∷ []) []

check_floor_proven :
    (v : TableVerdict) × (table_verdict demo_sql demo_schema write prove anon_roles false
        checked_docs
      ≡ some v)
    × (v.verdict ≡ isolated)
unfolding table_verdict policies_verdict policy_proofs policy_proof predicate_proof leaking_proof
    floor_asts composed_proof reachers checked_ast effective_write_check old_row_write_gate
    write_commands or_gates one_or_any first_seen present compose_with_floor floor_applies write_ops
    mode_commands rollup filter contains any all subset dedup parse_expr no_text qualified_name
    dotted of_list prove_anon_isolation anon_sessions states_of flat_map any_session first_leak
    prove_anon_session session_verdict answered two_worlds anon_tv anon_tvs combine gather lift_with
    lift_to_tv anon_boolexpr fold_tvs kleene_and leak_witness anon_witness_is_sufficient pins and_of
    node_eqb
check_floor_proven = (_, refl, refl)

-- The row is deleted although it is not the session's.
check_floor_deletes :
    admitted (clause_truth demo_sql public_row unparsed) delete anon_roles checked_docs.policies
    ≡ true
unfolding admitted grants_row lets_row applies target_roles intersects clause_for clause_holds
    clause_truth admits eval parse_expr no_text any all contains
check_floor_deletes = refl

abbrev pub anon_role : Role
anon_role = record { name = "anon"; can_login = true; superuser = false; bypassrls = false }

abbrev pub anon_held : List String
anon_held = "anon" ∷ "reader" ∷ []

pub anon_holds : IsHeldBy memberships "anon" anon_held
anon_holds r (here i) = seeded (here i)
anon_holds r (there (here i)) = subst (Holds memberships ("anon" ∷ [])) (sym i) (
    inherited (record { member = "anon"; role = "reader"; inherit = true }) (here refl) refl
      (seeded (here refl)) refl)
anon_holds r (there (there m)) = elim m [ ]

anon_answer :
    (v : TableVerdict) × (table_verdict demo_sql demo_schema anon prove anon_roles false
        floored_docs
      ≡ some v)
    × (v.verdict ≡ isolated)
unfolding table_verdict policies_verdict policy_proofs policy_proof predicate_proof leaking_proof
    reached_proof anon_policy_reachability anon_session_exempt anon_priv_closure closure close scan
    adds anon_reachable_roles flat_map intersects floor_asts composed_proof reachers checked_ast
    effective_write_check old_row_write_gate write_commands or_gates one_or_any first_seen present
    compose_with_floor floor_applies write_ops mode_commands rollup filter contains any all subset
    dedup parse_expr no_text qualified_name dotted of_list prove_anon_isolation anon_sessions
    states_of any_session first_leak prove_anon_session session_verdict answered two_worlds anon_tv
    anon_tvs combine gather lift_with lift_to_tv anon_boolexpr fold_tvs kleene_and leak_witness
    anon_witness_is_sufficient pins and_of node_eqb
anon_answer = (_, refl, refl)

anon_verdict_sound_example :
    reaches_row
      (clause_truth demo_sql public_row unparsed)
      anon_role
      floored_docs
      select
      anon_held
      (anon_held ++ "PUBLIC" ∷ [])
    ≡ false
unfolding states_of
anon_verdict_sound_example =
    anon_verdict_sound demo_sql demo_schema demo_laws keyed [] [] anon_roles false memberships refl
      floored_docs anon_answer.0 anon_role anon_held [] true true unparsed anon_answer.1
      anon_answer.2 (here refl) refl (λ h. absurd (ground arith)) anon_holds floored_roles
      (here refl) (λ n. legal true n true)
