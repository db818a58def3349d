-- ===== src/Lib.antt =====
-- pgrls reads the row-security policies, grants and roles of a PostgreSQL database and says who
-- reaches which rows, what two versions of a schema change in that, and which policies are unsafe.
-- This library models the core of it over an offline model of the schema, and compares it with an
-- independent account of row security.
--
-- - Model: src/pgrls/model.py. A record per dataclass, with the fields that the modelled operations
--   read; `ancestors_of` is Model/Ancestors, whose walk runs on fuel, the number of tables and one
--   more.
-- - Sql: src/pgrls/ast_utils.py. The parser (pglast) is a parameter, the record `Sql`, with its
--   printer and Python's string functions; a node is a Boolean operator over nodes, or a leaf that
--   is named by its dump. Sql/Truth is SQL's three-valued logic, Sql/Disjuncts the flattening of OR
--   and `is_literal_true`, Sql/Shape `_shape`, Sql/Keys `_tree`, `_same_tree` and `canonical_key`.
-- - Rls: what PostgreSQL documents of policies and privileges: `admitted` for the policies of a
--   table, `has_privilege` and `reaches_row` for a session, `admitted_on` for the row that an
--   UPDATE finds and the row that it leaves. No code of the program is in it.
-- - Roles: src/pgrls/verify.py, `_inherit_closure` and `_anon_reachable_roles`. The `while` loop
--   runs on fuel, the number of memberships and one more: each pass but the last adds a role that
--   some membership names (Prelude/Unseen counts those that are left).
-- - Prover: src/pgrls/diff/_z3_compare.py, from `_TV` on. A clause becomes a pair of Z3 terms, TRUE
--   and NULL (Prover/Kleene, Prover/Encoding), with the assertions that `_lift_to_tv` appends; the
--   solver and the encoding of the nodes that are no Boolean operators are the parameter `Z3`.
--   Prover/Sessions is `_prove_anon_session` with its witnesses, Prover/Isolation
--   `prove_anon_isolation` and `anon_leak_is_total` over the states of the settings,
--   Prover/CrossTenant `prove_cross_tenant_isolation`, whose tenant pairs are recorded at the
--   leaves.
-- - Verify: src/pgrls/verify.py. Verify/Gates is what is checked for a policy and which floors join
--   it; Verify/Anonymous the sessions of an anonymous caller, their settings, who is exempt
--   (Exempt) and what may be selected (Doors); Verify/Tables `build_verification` for the modes
--   that walk the policies; Verify/Escalation `build_escalation`; Verify/Summary and Verify/Delta
--   the summary and `diff_verifications`; Verify/Views the role that a view runs as. The prover of
--   a mode is a parameter there, and Verify/Tables/Isolation puts Prover in its place. The cached
--   trees of a policy are `parse_expr` of its texts.
-- - Coverage: src/pgrls/coverage.py. Coverage/Accesses is `_collect_accesses` over statements of
--   which the command, the common table expressions, the target and the relations are read;
--   Coverage/Artifact the artifact as a JSON value; Coverage/Credits is about `is_policy_covered`
--   and the percentage, which counts in tenths.
-- - Access: src/pgrls/access.py. Access/Privileges is `_privilege_paths` and `_reachable_columns`,
--   Access/Cells `cell_for` without a tracing context, Access/Merge `_merge` and `_fold`, which
--   join a cell with the doors (views, functions) that lead to the table. A verdict is `opened`,
--   `denied`, `conditional` or `undecided`.
-- - Diff: src/pgrls/diff. Diff/Predicates is `compare_predicates` of ast_compare.py with
--   `classify_via_z3`, `_implies` and the Boolean operators of `_to_z3` of _z3_compare.py;
--   Diff/Policies and Diff/Shapes are the loops of policies.py and Diff/Renames its matching of
--   renames; Diff/Grants is grants.py; Diff/Schemas is columns.py and the loop of differ.py. A
--   change carries its kind, its classification, its message and its SQL.
-- - Baseline: src/pgrls/baseline.py. JSON values are a data type, and the JSON library's printer
--   and parser are parameters; each error of the loader is a value.
-- - Prelude: tests, lists with membership, Python's sets, dicts and f-strings, and the count that
--   bounds a loop over a graph. Examples: concrete values at which the theorems are applied.
--
-- A set is a list under a Boolean membership test; a dict that a comprehension builds is searched
-- from the end, where a later key wins; `sorted` is a stable insertion sort by code points. Clauses
-- are texts that `parse_expr` may refuse, and a text that is refused has a truth value that nothing
-- is assumed of.
--
-- Z3 and the translation of the leaves of a clause are the parameter `Solver`. `SolverLaws` says
-- what is asked of them: its worlds are rows in a session, and the formula of a leaf is met where
-- the leaf is true, unless it is NULL, since this translation has two truth values; what rests on
-- the solver's answer is proved for rows where no leaf of the clauses is NULL. In `Z3`, the
-- provers' parameter, the sorts of the columns are those of the finished context. In the
-- cross-tenant mode `SessionLaws` lets a session lack the identities that the encoding takes for
-- present. `TellsApart` says what is asked of the printer and of the 16 digits of a digest, for the
-- trees at hand alone. The column references of a leaf are part of `Sql`. Not modelled are the
-- tracing of views, functions, triggers and foreign keys in access.py, the translation of
-- comparisons, calls and casts in _z3_compare.py, the reachability mode of verify.py, the lint
-- rules, the fixers, the formatters, the introspection of a live database and the command line.
pub mod Prelude
pub mod Model
pub mod Sql
pub mod Rls
pub mod Roles
pub mod Prover
pub mod Verify
pub mod Coverage
pub mod Access
pub mod Diff
pub mod Baseline
pub mod Examples
