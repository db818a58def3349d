-- ===== src/Coverage.antt =====
-- src/pgrls/coverage.py: which policies the statements of a test suite exercise. A statement is what
-- the code reads of pglast's node; the rounding of a float is a parameter.
pub mod Accesses
pub mod Artifact
pub mod Credits
use pgrls.Prelude.{
  ltb, leb, nat_eqb, nat_eqb_iff, if◌then◌else◌, Bool-cases, Option-cases, Bool-ext, and_left,
  and_right, Eq, ◌==◌, ==→eq, ==_refl, nat_eq, string_eq, bool_eqb, bool_eqb_iff, bool_eq, pair_eqb,
  pair_eqb_iff, pair_eq, option_eqb, option_eqb_iff, option_eq, length, length-append, is_empty,
  any, all, filter, is_empty-append, any-append, all-append, is_empty-filter, In, In-cons,
  In-cons_mono, In-swap, In-append, In-append_left, In-append_right, any-In, In-any, all-In, In-all,
  In-filter, filter-In, length-map, is_empty-map, any-map_never, In-map, map-In, flat_map,
  all-flat_map, flat_map-In, In-flat_map, here, there, contains, dedup, difference, subset,
  same_set, strict_subset, intersects, contains-In, In-contains, contains_head, contains_cons,
  contains-append, In-subset, subset-In, intersects-In, In-intersects, In-dedup, dedup-In,
  is_empty-dedup, insert_by, sort_by, is_empty-sort_by, sort_by-In, In-sort_by, find_last,
  find_last-In, In-find_last, Distinct, find_last-Distinct, concat, join, str_le, unseen,
  unseen-le-length, unseen_mono, unseen_strict, ℕ, zero, suc, ◌+◌, ◌-◌, ◌*◌, ◌/◌, ◌%◌, ◌≤◌, ◌<◌,
  String, ◌≡◌, refl, sym, ap, subst, ◌∙◌, ◌≢◌, ◌↔◌, ◌⊎◌, inl, inr, Bool, true, false, ◌&&◌, ◌||◌,
  not, Option, none, some, List, [], ◌∷◌, ◌++◌, map, arith, eq_iff,
}
use pgrls.Model.{Table, Policy, Schema, Command, for_all, command_eq, command_text, qualified_name}
use pgrls.Baseline.{Json, Members, null, boolean, number, string, array, object}

-- The values of an artifact are not checked to be texts.
pub record ExercisedTuple : Type 0 where
  pub schema : Json
  pub relation : Json
  pub role : Json
  pub command : Json

abbrev pub is_text : Json → String → Bool
is_text (string s) t = s == t
is_text null t = false
is_text (boolean b) t = false
is_text (number n) t = false
is_text (array ms) t = false
is_text (object ms) t = false

abbrev pub is_null : Json → Bool
is_null null = true
is_null (boolean b) = false
is_null (number n) = false
is_null (string s) = false
is_null (array ms) = false
is_null (object ms) = false

abbrev pub named : String → Table → Bool
named n t = t.name == n

unfoldable pub occurrences : String → List Table → ℕ
occurrences n ts = length (filter (named n) ts)

unfoldable pub ambiguous_relation_names : Schema → List String
ambiguous_relation_names s =
    filter (λ n. ltb 1 (occurrences n s.tables)) (dedup (map (λ (t : Table). t.name) s.tables))

-- The body of the loop over the tuples.
unfoldable pub credits : List String → Table → Policy → ExercisedTuple → Bool
credits ambiguous t p ex =
    if not (is_text ex.relation t.name)
    then false
    else if is_null ex.schema && contains t.name ambiguous
    then false
    else if not (is_null ex.schema) && not (is_text ex.schema t.schema)
    then false
    else if not (is_text ex.command (command_text p.command) || p.command == for_all)
    then false
    else any (is_text ex.role) p.roles || contains "PUBLIC" p.roles

unfoldable pub is_policy_covered : List String → Table → Policy → List ExercisedTuple → Bool
is_policy_covered ambiguous t p exercised = any (credits ambiguous t p) exercised

pub record PolicyCoverage : Type 0 where
  pub schema : String
  pub table : String
  pub policy : String
  pub command : Command
  pub roles : List String
  pub covered : Bool

unfoldable pub coverage_of : List String → List ExercisedTuple → Table → Policy → PolicyCoverage
coverage_of ambiguous exercised t p = record {
  schema = t.schema;
  table = t.name;
  policy = p.name;
  command = p.command;
  roles = p.roles;
  covered = is_policy_covered ambiguous t p exercised;
}

abbrev pub rows_of : List String → List ExercisedTuple → Table → List PolicyCoverage
rows_of ambiguous exercised t =
    map (coverage_of ambiguous exercised t)
      (sort_by (λ (p q : Policy). str_le p.name q.name) t.policies)

unfoldable pub build_coverage : Schema → List ExercisedTuple → List PolicyCoverage
build_coverage s exercised =
    flat_map (rows_of (ambiguous_relation_names s) exercised)
      (sort_by (λ a b. str_le (qualified_name a) (qualified_name b)) s.tables)

pub record CoverageSummary : Type 0 where
  pub policies : ℕ
  pub covered_count : ℕ
  pub uncovered_count : ℕ
  -- in tenths of a percent
  pub coverage_pct : ℕ

abbrev at_least : ℕ → ℕ → ℕ
at_least a b = if ltb b a then a else b

abbrev at_most : ℕ → ℕ → ℕ
at_most a b = if ltb a b then a else b

-- `round(100.0 * covered / total, 1)` is `rounded covered total`.
unfoldable pub percentage : (ℕ → ℕ → ℕ) → ℕ → ℕ → ℕ
percentage rounded covered total =
    if total == 0 || covered == total
    then 1000
    else if covered == 0
    then 0
    else at_most 999 (at_least 1 (rounded covered total))

unfoldable pub coverage_summary : (ℕ → ℕ → ℕ) → List PolicyCoverage → CoverageSummary
coverage_summary rounded ps =
    let total = length ps in
    let covered = length (filter (λ (p : PolicyCoverage). p.covered) ps) in
    record {
      policies = total;
      covered_count = covered;
      uncovered_count = total - covered;
      coverage_pct = percentage rounded covered total;
    }
