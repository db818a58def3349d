-- ===== src/Coverage/Credits.antt =====
-- What one exercised tuple credits, and the percentage (src/pgrls/coverage.py).
use pgrls.Prelude.{
  ltb, Bool-cases, Bool-ext, ◌==◌, ==→eq, nat_eq, string_eq, bool_eq, pair_eq, option_eq, length,
  all, filter, In, filter-In, In-map, here, there, contains, dedup, In-contains, dedup-In, ℕ, ◌≤◌,
  String, ◌≡◌, refl, sym, ap, ◌∙◌, inl, inr, true, false, ◌||◌, List, [], ◌∷◌, map, arith,
}
use pgrls.Model.{Table, Policy, Schema, qualified_name, dotted}
use pgrls.Baseline.{Json, null, boolean, number, string, array, object}
use pgrls.Coverage.{
  ExercisedTuple, is_text, is_null, named, occurrences, ambiguous_relation_names, credits,
  PolicyCoverage, percentage, coverage_summary,
}

at_most_one :
    (ts : List Table) {t u : Table} → ltb 1 (length ts) ≡ false → In t ts → In u ts → t ≡ u
at_most_one [] h i j = elim i [ ]
at_most_one (x ∷ []) h (here i) (here j) = i ∙ sym j
at_most_one (x ∷ []) h (here i) (there n) = elim n [ ]
at_most_one (x ∷ []) h (there m) j = elim m [ ]
at_most_one (x ∷ y ∷ ts) h i j = absurd (ground arith)

two_occur :
    (n : String) (ts : List Table) {t u : Table}
    → In t ts
    → In u ts
    → t.name ≡ n
    → u.name ≡ n
    → ltb 1 (occurrences n ts) ≡ false
    → t ≡ u
unfolding occurrences
two_occur n ts {t} {u} i j e f h =
    at_most_one (filter (named n) ts) h
      (filter-In (named n) ts i ((string_eq.eqb_iff t.name n).1 e))
      (filter-In (named n) ts j ((string_eq.eqb_iff u.name n).1 f))

is_text_inj : (j : Json) (s t : String) → is_text j s ≡ true → is_text j t ≡ true → s ≡ t
is_text_inj (string r) s t h k = sym (==→eq r s h) ∙ ==→eq r t k
is_text_inj null s t h k = absurd (ground arith)
is_text_inj (boolean b) s t h k = absurd (ground arith)
is_text_inj (number n) s t h k = absurd (ground arith)
is_text_inj (array ms) s t h k = absurd (ground arith)
is_text_inj (object ms) s t h k = absurd (ground arith)

unambiguous :
    (s : Schema) (t : Table)
    → In t s.tables
    → contains t.name (ambiguous_relation_names s) ≡ false
    → ltb 1 (occurrences t.name s.tables) ≡ false
unfolding ambiguous_relation_names
unambiguous s t i clear =
    let many = λ (n : String). ltb 1 (occurrences n s.tables) in
    Bool-ext _ false
      (λ k.
        sym clear
        ∙ In-contains _ (
            filter-In many (dedup (map (λ (t : Table). t.name) s.tables))
              (dedup-In _ (In-map (λ (t : Table). t.name) i)) k))
      (λ f. absurd (ground arith))

-- Two tables of the schema whose policies one exercised tuple credits have one qualified name.
pub credits_one_table :
    (s : Schema) (ex : ExercisedTuple) (t u : Table) (p q : Policy)
    → In t s.tables
    → In u s.tables
    → credits (ambiguous_relation_names s) t p ex ≡ true
    → credits (ambiguous_relation_names s) u q ex ≡ true
    → qualified_name t ≡ qualified_name u
unfolding credits qualified_name
credits_one_table s ex t u p q i j h k =
    let names : t.name ≡ u.name =
      is_text_inj ex.relation t.name u.name (ground arith) (ground arith) in
    elim (Bool-cases (is_null ex.schema)) [
      | inl n ↦
          let clear : contains t.name (ambiguous_relation_names s) ≡ false = ground arith in
          ap qualified_name
            (two_occur t.name s.tables i j refl (sym names) (unambiguous s t i clear))
      | inr n ↦
          let schemas : t.schema ≡ u.schema =
            is_text_inj ex.schema t.schema u.schema (ground arith) (ground arith) in
          λ x. dotted (schemas x) (names x)
    ]

percentage_full :
    (rounded : ℕ → ℕ → ℕ) (covered total : ℕ)
    → (percentage rounded covered total == 1000) ≡ (total == 0 || covered == total)
unfolding percentage
percentage_full rounded covered total = ground arith

covered_le :
    (ps : List PolicyCoverage) → length (filter (λ (p : PolicyCoverage). p.covered) ps) ≤ length ps
unfolding filter
covered_le [] = omega arith
covered_le (p ∷ ps) = ground (arith, covered_le ps)

all_covered :
    (ps : List PolicyCoverage)
    → (length ps == 0 || length (filter (λ (p : PolicyCoverage). p.covered) ps) == length ps)
      ≡ all (λ (p : PolicyCoverage). p.covered) ps
unfolding filter all
all_covered [] = refl
all_covered (p ∷ ps) = ground (arith, all_covered ps, covered_le ps)

-- The percentage is 100 exactly where every policy is covered, whatever the rounding.
pub coverage_pct_full :
    (rounded : ℕ → ℕ → ℕ) (ps : List PolicyCoverage)
    → ((coverage_summary rounded ps).coverage_pct == 1000)
      ≡ all (λ (p : PolicyCoverage). p.covered) ps
unfolding coverage_summary
coverage_pct_full rounded ps =
    let covered = length (filter (λ (p : PolicyCoverage). p.covered) ps) in
    percentage_full rounded covered (length ps) ∙ all_covered ps
