-- ===== src/Examples/Findings.antt =====
-- The theorems on baselines at two findings.
use pgrls.Prelude.{
  if◌then◌else◌, ◌==◌, nat_eq, string_eq, bool_eq, pair_eq, option_eq, concat, String, ◌≡◌, refl,
  inl, Option, none, some, List, [], ◌∷◌,
}
use pgrls.Baseline.{
  Violation, Key, Json, payload, write_baseline, load_baseline, partition, stale_keys,
}
use pgrls.Baseline.RoundTrip.{load_baseline-write_baseline}

abbrev found : String → Option String → Violation
found rule location = record {
  rule_id = rule;
  severity = "error";
  title = "title";
  message = "message";
  location = location;
}

abbrev findings : List Violation
findings = found "SEC002" (some "public.docs") ∷ found "SEC001" none ∷ []

abbrev demo_dumps : Json → String
demo_dumps j = "the payload"

abbrev demo_loads : String → Option Json
demo_loads s = if s == "the payload\n" then some (payload "1.0" findings) else none

load_baseline-write_baseline_example :
    (keys : List Key) × (load_baseline demo_loads (write_baseline demo_dumps "1.0" findings)
      ≡ inl keys)
    × (partition findings keys ≡ ([], findings))
    × (stale_keys findings keys ≡ [])
unfolding write_baseline concat
load_baseline-write_baseline_example =
    load_baseline-write_baseline demo_dumps demo_loads "1.0" findings refl
