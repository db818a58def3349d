-- ===== src/Examples/Deltas.antt =====
-- Two verifications of the same tables, and a table whose owner a role of low trust can become
-- (src/pgrls/verify.py).
use pgrls.Prelude.{
  ltb, if◌then◌else◌, ◌==◌, nat_eq, string_eq, bool_eq, pair_eq, option_eq, any, filter, In, here,
  contains, dedup, insert_by, sort_by, find_last, Distinct, concat, String, ◌≡◌, refl, sym, subst,
  ◌↔◌, true, false, ◌&&◌, ◌||◌, not, Option, none, some, [], ◌∷◌,
}
use pgrls.Model.{Schema, command_eq, qualified_name, dotted}
use pgrls.Sql.{Node, leaf, parse_expr, no_text, node_eq, node_eqb}
use pgrls.Prover.{Verdict, isolated, leak, Row}
use pgrls.Verify.{
  anon, cross_tenant, mode_commands, PolicyProof, TableVerdict, Verification, rollup, has_leak,
}
use pgrls.Verify.Gates.{checked_ast}
use pgrls.Verify.Tables.{
  table_verdict, policies_verdict, policy_proofs, policy_proof, predicate_proof, reachers,
  build_verification, table_verdicts,
}
use pgrls.Verify.Summary.{summary, has_leak-summary}
use pgrls.Verify.Delta.{diff_verifications, door_key, was_proven, new_leaks_iff, fixed_leaks_sound}
use pgrls.Verify.Escalation.{
  escalation_verdict, joined, escalated, leaks_every_row, first_leaking, build_escalation,
  verdict_name,
}
use pgrls.Verify.Escalation.Owners.{escalation_verdict_isolated, escalation_reports}
use pgrls.Model.{Role, select}
use pgrls.Rls.{has_privilege, is_owner}
use pgrls.Access.{relation_of}
use pgrls.Roles.{closure}
use pgrls.Verify.Views.{View, role_reads_relation, effective_user_exempt, view_owner_decided}
use pgrls.Examples.{memberships, demo_sql, demo_schema, base_docs}

abbrev graded : String → Verdict → TableVerdict
graded n v = record { qualified_name = n; verdict = v; note = none; proofs = [] }

abbrev before : Verification
before = record {
  tables = graded "public.docs" isolated ∷ graded "public.logs" leak ∷ [];
  mode = anon;
}

abbrev after : Verification
after = record {
  tables = graded "public.docs" leak ∷ graded "public.logs" isolated ∷ [];
  mode = anon;
}

before_names : Distinct (door_key before.mode) before.tables
unfolding contains door_key
before_names = (refl, (refl, tt))

after_names : Distinct (door_key after.mode) after.tables
unfolding contains door_key
after_names = (refl, (refl, tt))

new_leaks_iff_example :
    In (graded "public.docs" leak) (diff_verifications before after).new_leaks
    ↔ In (graded "public.docs" leak) after.tables
      × (leak ≡ leak)
      × ((b : TableVerdict)
          → In b before.tables
          → door_key anon b ≡ door_key anon (graded "public.docs" leak)
          → b.verdict ≡ isolated)
new_leaks_iff_example = new_leaks_iff before after (graded "public.docs" leak) before_names

logs_fixed : In "public.logs" (diff_verifications before after).fixed_leaks
unfolding diff_verifications door_key sort_by insert_by dedup filter contains find_last was_proven
logs_fixed = here refl

fixed_leaks_sound_example :
    (b : TableVerdict) × In b before.tables
    × (b.qualified_name ≡ "public.logs")
    × (b.verdict ≡ leak)
    × ((t : TableVerdict)
        → In t after.tables
        → door_key anon t ≡ door_key anon b
        → t.verdict ≡ isolated)
fixed_leaks_sound_example = fixed_leaks_sound before after "public.logs" after_names logs_fixed

has_leak-summary_example : has_leak before ≡ ltb 0 (summary before).leak_count
has_leak-summary_example = has_leak-summary before

-- A member of the owner's role.
abbrev owned : Schema
owned = record demo_schema {
  owner_reachable_members = record { member = "app"; via_owners = "admin" ∷ [] } ∷ [];
}

-- A prover that proves the owner's clause.
abbrev prove : Node → Verdict × Option Row
prove n = if n == leaf "a" then (isolated, none) else (leak, some [])

abbrev isolated_docs : TableVerdict
isolated_docs = record {
  qualified_name = "public.docs";
  verdict = isolated;
  note = none;
  proofs = record { policy = "own"; verdict = isolated; witness = none; reason = none } ∷ [];
}

cross_tables :
    (build_verification demo_sql owned cross_tenant prove ("anon" ∷ []) true).tables
    ≡ isolated_docs ∷ []
unfolding build_verification table_verdicts table_verdict policies_verdict policy_proofs
    policy_proof predicate_proof checked_ast mode_commands rollup filter contains any parse_expr
    no_text qualified_name dotted sort_by insert_by reachers node_eqb dedup concat
cross_tables = refl

one_name : Distinct verdict_name (isolated_docs ∷ [])
unfolding contains
one_name = (refl, tt)

docs_name : "public.docs" ≡ qualified_name base_docs
unfolding qualified_name dotted concat
docs_name = refl

escalation_reports_example :
    (v : TableVerdict) × In v (build_escalation demo_sql owned prove ("anon" ∷ []) []).tables
    × (v.qualified_name ≡ qualified_name base_docs)
    × (v.verdict ≡ leak)
escalation_reports_example =
    escalation_reports demo_sql owned prove ("anon" ∷ []) [] base_docs isolated_docs
      (subst (Distinct verdict_name) (sym cross_tables) one_name) (here refl)
      (subst (In isolated_docs) (sym cross_tables) (here refl)) docs_name refl refl refl
      (record { member = "app"; via_owners = "admin" ∷ [] }) (here refl) (here refl)

abbrev open_docs : TableVerdict
open_docs = record {
  qualified_name = "public.docs";
  verdict = leak;
  note = none;
  proofs = record { policy = "own"; verdict = leak; witness = some []; reason = none } ∷ [];
}

ceded :
    (v : TableVerdict) × (escalation_verdict owned (open_docs ∷ []) base_docs ≡ some v)
    × (v.verdict ≡ isolated)
unfolding escalation_verdict joined escalated leaks_every_row first_leaking reachers dedup filter
    contains find_last qualified_name dotted concat
ceded = (_, refl, refl)

escalation_verdict_isolated_example :
    (x : TableVerdict) × In x (open_docs ∷ [])
    × (x.qualified_name ≡ qualified_name base_docs)
    × (x.verdict ≡ leak)
    × (p : PolicyProof) × In p x.proofs
    × (p.verdict ≡ leak)
    × (p.witness ≡ some [])
escalation_verdict_isolated_example =
    escalation_verdict_isolated owned (open_docs ∷ []) base_docs ceded.0 ceded.1 ceded.2

-- A view of the table that runs as the owner of the table.
abbrev owner_view : View
owner_view = record { owner = "admin"; owner_bypasses_rls = false; owner_is_superuser = false }

abbrev admin_role : Role
admin_role = record { name = "admin"; can_login = false; superuser = false; bypassrls = false }

view_owner_decided_example :
    (role_reads_relation demo_schema (some owner_view) (relation_of base_docs)
      ≡ some (has_privilege admin_role base_docs select (closure memberships ("admin" ∷ []))))
    × (effective_user_exempt demo_schema (some owner_view) base_docs
        ≡ some (
            admin_role.superuser
            || (admin_role.bypassrls
                || is_owner admin_role base_docs.owner (closure memberships ("admin" ∷ []))
                  && not base_docs.force_rls)))
view_owner_decided_example =
    view_owner_decided demo_schema memberships owner_view base_docs admin_role refl refl refl refl
      refl refl
