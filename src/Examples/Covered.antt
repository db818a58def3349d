-- ===== src/Examples/Covered.antt =====
-- Tuples that a test suite exercises, their artifact, and a statement with a common table expression
-- (src/pgrls/coverage.py).
use pgrls.Prelude.{
  ◌==◌, nat_eq, string_eq, bool_eq, pair_eq, option_eq, any, all, filter, In, flat_map, here,
  contains, dedup, insert_by, sort_by, ℕ, String, ◌≡◌, refl, sym, subst, inl, inr, Bool, true,
  false, none, some, List, [], ◌∷◌, map,
}
use pgrls.Model.{command_eq, for_all, command_text, qualified_name}
use pgrls.Baseline.{
  Json, Members, null, number, string, array, object, end, member, get, is_version,
}
use pgrls.Coverage.{
  ExercisedTuple, credits, ambiguous_relation_names, occurrences, is_policy_covered, PolicyCoverage,
  coverage_summary,
}
use pgrls.Coverage.Credits.{credits_one_table, coverage_pct_full}
use pgrls.Coverage.Artifact.{
  malformed, IsMalformed, from_dict, artifact, exercised_tuple, from_dict-artifact,
  from_dict_malformed, Recorded,
}
use pgrls.Coverage.Accesses.{
  Stmt, stmt, cte, no_cte, made, accesses_of, collect_accesses, collect_ctes, own_cte_names,
  target_key, collect_accesses_scope,
}
use pgrls.Examples.{unequal, demo_schema, base_docs, own}

abbrev unqualified : ExercisedTuple
unqualified = record {
  schema = null;
  relation = string "docs";
  role = string "authenticated";
  command = string "SELECT";
}

credited : credits (ambiguous_relation_names demo_schema) base_docs (own "a") unqualified ≡ true
unfolding credits ambiguous_relation_names occurrences filter dedup contains any command_text
credited = refl

credits_one_table_example : qualified_name base_docs ≡ qualified_name base_docs
credits_one_table_example =
    credits_one_table demo_schema unqualified base_docs base_docs (own "a") (own "a") (here refl)
      (here refl) credited credited

abbrev row : Bool → PolicyCoverage
row c = record {
  schema = "public";
  table = "docs";
  policy = "own";
  command = for_all;
  roles = "authenticated" ∷ [];
  covered = c;
}

abbrev rounded : ℕ → ℕ → ℕ
rounded c n = 500

coverage_pct_full_example :
    ((coverage_summary rounded (row true ∷ row false ∷ [])).coverage_pct == 1000)
    ≡ all (λ (p : PolicyCoverage). p.covered) (row true ∷ row false ∷ [])
coverage_pct_full_example = coverage_pct_full rounded (row true ∷ row false ∷ [])

abbrev recorded : List Recorded
recorded =
    (some "public", ("docs", ("authenticated", "SELECT")))
    ∷ (none, ("docs", ("anon", "DELETE")))
    ∷ []

from_dict-artifact_example :
    (read : List ExercisedTuple) × (from_dict (artifact "2026-01-01T00:00:00Z" recorded) ≡ inl read)
    × (is_policy_covered [] base_docs (own "a") read
        ≡ is_policy_covered [] base_docs (own "a") (map exercised_tuple recorded))
from_dict-artifact_example =
    from_dict-artifact "2026-01-01T00:00:00Z" recorded [] base_docs (own "a")

-- A row without a role.
abbrev short_row : Json
short_row = object (member "relation" (string "docs") (member "command" (string "SELECT") end))

abbrev short_artifact : Members
short_artifact =
    member "pgrls_coverage_version" (number 1)
      (member "exercised" (array (member "" short_row end)) end)

version_one : is_version (get "pgrls_coverage_version" short_artifact) ≡ true
unfolding is_version get
version_one = refl

short_rows : get "exercised" short_artifact ≡ some (array (member "" short_row end))
unfolding get
short_rows = refl

no_role : IsMalformed short_row
unfolding get
no_role = inr (inl tt)

from_dict_malformed_example : from_dict (object short_artifact) ≡ inr malformed
from_dict_malformed_example =
    from_dict_malformed short_artifact (member "" short_row end) short_row version_one short_rows
      (inl refl) no_role

-- `WITH gone AS (DELETE FROM docs RETURNING id) SELECT FROM gone, logs`
abbrev moving : Stmt
moving =
    stmt (some [])
      (cte "gone" (stmt (some ("DELETE" ∷ [])) no_cte (some (none, "docs")) ((none, "docs") ∷ []))
        no_cte)
      none ((none, "gone") ∷ (none, "logs") ∷ [])

touched : collect_accesses moving [] ≡ made none "docs" "DELETE" ∷ made none "logs" "SELECT" ∷ []
unfolding collect_accesses collect_ctes own_cte_names target_key accesses_of flat_map contains
    sort_by insert_by dedup
touched = refl

collect_accesses_scope_example :
    (contains {A = String} "docs" [] ≡ false) × (contains {A = String} "docs" ("gone" ∷ []) ≡ false)
collect_accesses_scope_example =
    collect_accesses_scope (some [])
      (cte "gone" (stmt (some ("DELETE" ∷ [])) no_cte (some (none, "docs")) ((none, "docs") ∷ []))
        no_cte)
      none ((none, "gone") ∷ (none, "logs") ∷ []) [] (made none "docs" "DELETE")
      (subst (In (made none "docs" "DELETE")) (sym touched) (here refl)) refl
      (unequal "docs" "" refl)
