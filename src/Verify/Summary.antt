-- ===== src/Verify/Summary.antt =====
-- `Verification.summary` of src/pgrls/verify.py: one verdict for each table, the worst of its doors.
use pgrls.Prelude.{
  ltb, if◌then◌else◌, ◌==◌, nat_eq, string_eq, bool_eq, pair_eq, option_eq, length, any, ℕ, suc,
  ◌+◌, String, ◌≡◌, refl, sym, ◌∙◌, Bool, true, false, ◌||◌, List, [], ◌∷◌, arith,
}
use pgrls.Prover.{Verdict, isolated, leak, unverified, is_leak, is_unverified}
use pgrls.Verify.{TableVerdict, Verification, has_leak}

-- `rank`
unfoldable pub rank : Verdict → ℕ
rank isolated = 0
rank unverified = 1
rank leak = 2

abbrev is_isolated : Verdict → Bool
is_isolated v = elim v [ isolated ↦ true | _ ↦ false ]

-- The body of the loop on the dict `worst`.
unfoldable pub put_worst : String → Verdict → List (String × Verdict) → List (String × Verdict)
unfolding rank
put_worst n v [] = (n, v) ∷ []
put_worst n v ((m, w) ∷ worst) =
    let rest = put_worst n v worst in
    if m == n
    then (if ltb (rank w) (rank v) then (m, v) ∷ worst else (m, w) ∷ worst)
    else (m, w) ∷ rest

unfoldable pub worst_of : List TableVerdict → List (String × Verdict) → List (String × Verdict)
unfolding put_worst
worst_of [] worst = worst
worst_of (t ∷ ts) worst = worst_of ts (put_worst t.qualified_name t.verdict worst)

pub record Counts : Type 0 where
  pub tables : ℕ
  pub isolated_count : ℕ
  pub leak_count : ℕ
  pub unverified_count : ℕ

unfoldable pub counted : (Verdict → Bool) → List (String × Verdict) → ℕ
counted p [] = 0
counted p ((n, v) ∷ worst) = let rest = counted p worst in if p v then suc rest else rest

unfoldable pub summary : Verification → Counts
unfolding counted
summary v =
    let worst = worst_of v.tables [] in
    record {
      tables = length worst;
      isolated_count = counted is_isolated worst;
      leak_count = counted is_leak worst;
      unverified_count = counted is_unverified worst;
    }

counted_all :
    (worst : List (String × Verdict))
    → counted is_isolated worst + counted is_leak worst + counted is_unverified worst ≡ length worst
unfolding counted
counted_all [] = refl
counted_all ((n, isolated) ∷ worst) = omega (arith, counted_all worst)
counted_all ((n, leak) ∷ worst) = omega (arith, counted_all worst)
counted_all ((n, unverified) ∷ worst) = omega (arith, counted_all worst)

-- x
pub summary_total :
    (v : Verification)
    → (summary v).isolated_count + (summary v).leak_count + (summary v).unverified_count
      ≡ (summary v).tables
unfolding summary
summary_total v = counted_all (worst_of v.tables [])

abbrev leaks_in : List (String × Verdict) → Bool
leaks_in worst = any (λ (e : String × Verdict). is_leak e.1) worst

put_worst_leaks :
    (n : String) (v : Verdict) (worst : List (String × Verdict))
    → leaks_in (put_worst n v worst) ≡ (is_leak v || leaks_in worst)
unfolding put_worst any rank
put_worst_leaks n v [] = refl
put_worst_leaks n v ((m, w) ∷ worst) = ground (arith, put_worst_leaks n v worst)

worst_of_leaks :
    (ts : List TableVerdict) (worst : List (String × Verdict))
    → leaks_in (worst_of ts worst)
      ≡ (any (λ (t : TableVerdict). is_leak t.verdict) ts || leaks_in worst)
unfolding worst_of any
worst_of_leaks [] worst = refl
worst_of_leaks (t ∷ ts) worst = ground (
  arith,
  worst_of_leaks ts (put_worst t.qualified_name t.verdict worst),
  put_worst_leaks t.qualified_name t.verdict worst,
)

counted_leaks : (worst : List (String × Verdict)) → ltb 0 (counted is_leak worst) ≡ leaks_in worst
unfolding counted any
counted_leaks [] = refl
counted_leaks ((n, v) ∷ worst) = ground (arith, counted_leaks worst)

-- A verification has a leak exactly where its summary, which keeps the worst verdict of each
-- table, counts one.
pub has_leak-summary : (v : Verification) → has_leak v ≡ ltb 0 (summary v).leak_count
unfolding summary has_leak any
has_leak-summary v =
    sym (counted_leaks (worst_of v.tables []) ∙ worst_of_leaks v.tables [] ∙ ground arith)
