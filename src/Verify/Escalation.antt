-- ===== src/Verify/Escalation.antt =====
-- `build_escalation` of src/pgrls/verify.py: the tables whose owner a role of low trust can become.
-- The findings on SECURITY DEFINER functions (`_escalation_secdef_findings`) are a parameter.
pub mod Owners
use pgrls.Prelude.{
  ltb, leb, nat_eqb, nat_eqb_iff, if◌then◌else◌, Bool-cases, Option-cases, Bool-ext, and_left,
  and_right, Eq, ◌==◌, ==→eq, ==_refl, nat_eq, string_eq, bool_eqb, bool_eqb_iff, bool_eq, pair_eqb,
  pair_eqb_iff, pair_eq, option_eqb, option_eqb_iff, option_eq, length, length-append, is_empty,
  any, all, filter, is_empty-append, any-append, all-append, is_empty-filter, In, In-cons,
  In-cons_mono, In-swap, In-append, In-append_left, In-append_right, any-In, In-any, all-In, In-all,
  In-filter, filter-In, length-map, is_empty-map, any-map_never, In-map, map-In, flat_map,
  all-flat_map, flat_map-In, In-flat_map, here, there, contains, dedup, difference, subset,
  same_set, strict_subset, intersects, contains-In, In-contains, contains_head, contains_cons,
  contains-append, In-subset, subset-In, intersects-In, In-intersects, In-dedup, dedup-In,
  is_empty-dedup, insert_by, sort_by, is_empty-sort_by, sort_by-In, In-sort_by, find_last,
  find_last-In, In-find_last, Distinct, find_last-Distinct, concat, join, str_le, unseen,
  unseen-le-length, unseen_mono, unseen_strict, ℕ, zero, suc, ◌+◌, ◌-◌, ◌*◌, ◌/◌, ◌%◌, ◌≤◌, ◌<◌,
  String, ◌≡◌, refl, sym, ap, subst, ◌∙◌, ◌≢◌, ◌↔◌, ◌⊎◌, inl, inr, Bool, true, false, ◌&&◌, ◌||◌,
  not, Option, none, some, List, [], ◌∷◌, ◌++◌, map, arith, eq_iff,
}
use pgrls.Model.{Table, Schema, qualified_name}
use pgrls.Sql.{Sql, Node}
use pgrls.Prover.{Verdict, isolated, leak, unverified, Row, is_leak, is_unverified}
use pgrls.Verify.{Mode, cross_tenant, escalation, PolicyProof, TableVerdict, Verification}
use pgrls.Verify.Tables.{reachers, build_verification}

-- `next((p for p in proofs if p.verdict == "leak"), None)`
unfoldable pub first_leaking : List PolicyProof → Option PolicyProof
first_leaking [] = none
first_leaking (p ∷ ps) = let rest = first_leaking ps in if is_leak p.verdict then some p else rest

-- `xt_leak is not None and xt_leak.witness == {}`
unfoldable pub leaks_every_row : List PolicyProof → Bool
unfolding first_leaking
leaks_every_row proofs = elim (first_leaking proofs) [
  | none ↦ false
  | some p ↦ elim p.witness [ none ↦ false | some row ↦ is_empty row ]
]

-- `next((p.reason for p in proofs if p.verdict == "unverified" and p.reason), ...)`
unfoldable pub unproven_reason : List PolicyProof → String
unproven_reason [] = "cross-tenant isolation unproven"
unproven_reason (p ∷ ps) =
    let rest = unproven_reason ps in
    elim p.reason [
      | none ↦ rest
      | some r ↦ if is_unverified p.verdict && not (r == "") then r else rest
    ]

abbrev pub path_of : List String → String → String
path_of reaching owner = concat (
    "reachable by "
    ∷ join ", " (sort_by str_le reaching)
    ∷ " via owner "
    ∷ owner
    ∷ " (RLS not FORCE'd)"
    ∷ [])

abbrev owner_proof : Table → Verdict → Option Row → Option String → PolicyProof
owner_proof t v w r = record { policy = t.owner; verdict = v; witness = w; reason = r }

abbrev verdict_on : Table → String → PolicyProof → TableVerdict
verdict_on t note p = record {
  qualified_name = qualified_name t;
  verdict = p.verdict;
  note = some note;
  proofs = p ∷ [];
}

-- The branches on the cross-tenant verdict of the table.
unfoldable pub escalated : Table → String → Verdict → List PolicyProof → TableVerdict
escalated t path isolated proofs = verdict_on t path (owner_proof t leak (some []) none)
escalated t path leak proofs =
    if leaks_every_row proofs
    then verdict_on t
        "table RLS already leaks every row cross-tenant (see verify --mode cross-tenant) — owner bypass exposes nothing new"
        (owner_proof t isolated none none)
    else verdict_on t
        (concat (
          path
          ∷ " — the owner bypass also exposes rows the cross-tenant leak does not (e.g. other tenants' non-public rows)"
          ∷ []))
        (owner_proof t leak (some []) none)
escalated t path unverified proofs =
    verdict_on t
      (concat
        ("cannot prove the table isolates tenants (" ∷ unproven_reason proofs ∷ "); " ∷ path ∷ []))
      (owner_proof t unverified none (some (unproven_reason proofs)))

abbrev pub verdict_name : TableVerdict → String
verdict_name v = v.qualified_name

-- A table without a cross-tenant verdict counts as isolated.
unfoldable pub joined : Table → String → Option TableVerdict → TableVerdict
joined t path none = escalated t path isolated []
joined t path (some x) = escalated t path x.verdict x.proofs

module _ (s : Schema) (xt : List TableVerdict) where
  -- The body of the loop over the tables.
  unfoldable pub escalation_verdict : Table → Option TableVerdict
  unfolding joined
  escalation_verdict t =
      if not t.rls_enabled || t.force_rls
      then none
      else if is_empty (reachers s t.owner)
      then none
      else some (
          joined t (path_of (reachers s t.owner) t.owner)
            (find_last verdict_name (qualified_name t) xt))

  unfoldable pub escalation_verdicts : List Table → List TableVerdict
  escalation_verdicts [] = []
  escalation_verdicts (t ∷ ts) =
      let rest = escalation_verdicts ts in
      elim (escalation_verdict t) [ none ↦ rest | some v ↦ v ∷ rest ]

  unfoldable pub escalation_tables : List TableVerdict → List TableVerdict
  escalation_tables secdef =
      sort_by (λ a b. str_le (verdict_name a) (verdict_name b))
        (escalation_verdicts
            (sort_by (λ a b. str_le (qualified_name a) (qualified_name b)) s.tables)
          ++ secdef)

unfoldable pub build_escalation :
    Sql → Schema → (Node → Verdict × Option Row) → List String → List TableVerdict → Verification
build_escalation sql s prove anon_roles secdef = record {
  tables =
      escalation_tables s (build_verification sql s cross_tenant prove anon_roles true).tables
        secdef;
  mode = escalation;
}
