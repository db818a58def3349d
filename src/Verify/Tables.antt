-- ===== src/Verify/Tables.antt =====
-- `build_verification` of src/pgrls/verify.py for the modes that walk the policies. The prover of
-- the mode is a parameter; Prover is that of the anonymous mode.
pub mod Policies
pub mod Sound
pub mod Isolation
use pgrls.Prelude.{
  ltb, leb, nat_eqb, nat_eqb_iff, if◌then◌else◌, Bool-cases, Option-cases, Bool-ext, and_left,
  and_right, Eq, ◌==◌, ==→eq, ==_refl, nat_eq, string_eq, bool_eqb, bool_eqb_iff, bool_eq, pair_eqb,
  pair_eqb_iff, pair_eq, option_eqb, option_eqb_iff, option_eq, length, length-append, is_empty,
  any, all, filter, is_empty-append, any-append, all-append, is_empty-filter, In, In-cons,
  In-cons_mono, In-swap, In-append, In-append_left, In-append_right, any-In, In-any, all-In, In-all,
  In-filter, filter-In, length-map, is_empty-map, any-map_never, In-map, map-In, flat_map,
  all-flat_map, flat_map-In, In-flat_map, here, there, contains, dedup, difference, subset,
  same_set, strict_subset, intersects, contains-In, In-contains, contains_head, contains_cons,
  contains-append, In-subset, subset-In, intersects-In, In-intersects, In-dedup, dedup-In,
  is_empty-dedup, insert_by, sort_by, is_empty-sort_by, sort_by-In, In-sort_by, find_last,
  find_last-In, In-find_last, Distinct, find_last-Distinct, concat, join, str_le, unseen,
  unseen-le-length, unseen_mono, unseen_strict, ℕ, zero, suc, ◌+◌, ◌-◌, ◌*◌, ◌/◌, ◌%◌, ◌≤◌, ◌<◌,
  String, ◌≡◌, refl, sym, ap, subst, ◌∙◌, ◌≢◌, ◌↔◌, ◌⊎◌, inl, inr, Bool, true, false, ◌&&◌, ◌||◌,
  not, Option, none, some, List, [], ◌∷◌, ◌++◌, map, arith, eq_iff,
}
use pgrls.Model.{
  Policy, Table, Schema, OwnerReachableMember, Command, command_eq, insert, qualified_name,
}
use pgrls.Sql.{Sql, Node}
use pgrls.Prover.{Verdict, isolated, leak, unverified, Row}
use pgrls.Verify.{
  Mode, anon, cross_tenant, write, escalation, reachability, mode_commands, is_write, is_anon,
  PolicyProof, TableVerdict, Verification, rollup,
}
use pgrls.Verify.Gates.{missing, checked_ast, compose_with_floor, floor_applies}
use pgrls.Verify.Anonymous.{
  anon_session_exempt, anon_exempting_roles, Reach, reachable, unreachable, unknown,
  anon_policy_reachability,
}

-- `_UNVERIFIED_PREDICATE_REASON`
unfoldable pub unverified_predicate_reason : Mode → String
unverified_predicate_reason anon = "USING predicate outside the decidable fragment"
unverified_predicate_reason cross_tenant =
    "no provable tenant-scoping equality on an identity/discriminator column — see [lint.rules.SEC021].identity_columns — (or the predicate turns on a non-axis auth value being NULL, or is outside the decidable fragment)"
unverified_predicate_reason write =
    "no provable tenant-scoping write-check on an identity/discriminator column — see [lint.rules.SEC021].identity_columns — (or the write-check turns on a non-axis auth value being NULL, or is outside the decidable fragment)"
unverified_predicate_reason escalation = ""
unverified_predicate_reason reachability = ""

-- `_NO_AST_REASON`
abbrev pub no_ast_reason : Mode → String
no_ast_reason mode = if is_write mode then "write-check not available" else "USING not available"

-- `_NO_PERMISSIVE_DETAIL`
abbrev pub no_permissive_detail : Mode → String
no_permissive_detail mode =
    if is_write mode
    then "no permissive write policy — RLS default-denies writes"
    else "no permissive read policy — RLS default-denies"

abbrev pub floor_kind : Mode → String
floor_kind mode = if is_write mode then "write" else "read"

abbrev pub floor_text : Mode → String → String
floor_text mode rest = concat ("restrictive " ∷ floor_kind mode ∷ " floor " ∷ rest ∷ [])

abbrev pub proof_of : Policy → Verdict → Option Row → Option String → PolicyProof
proof_of p v w r = record { policy = p.name; verdict = v; witness = w; reason = r }

-- `xt_reachers_by_owner.get(owner)`
unfoldable pub reachers : Schema → String → List String
reachers s owner = dedup (
    map (λ (m : OwnerReachableMember). m.member)
      (filter (λ (m : OwnerReachableMember). contains owner m.via_owners)
        s.owner_reachable_members))

abbrev pub unknown_reason : Policy → String
unknown_reason p = concat (
    "predicate leaks under anon, but the role-membership graph was not captured — cannot decide whether an anonymous session reaches this policy's role(s) ("
    ∷ join ", " (sort_by str_le p.roles)
    ∷ "); re-run against a live database"
    ∷ [])

abbrev pub owner_reason : List String → String → String
owner_reason who owner = concat (
    join ", " (sort_by str_le who)
    ∷ " hold the privileges of owner "
    ∷ owner
    ∷ " and RLS is not FORCE'd, so such a session never consults these policies — the proof would hold only for a caller that is not owner-equivalent; see verify --mode escalation and SEC048"
    ∷ [])

abbrev pub exempt_reason : String → String → String
exempt_reason who owner = concat (
    "the anonymous session is exempt from this table's RLS (" ∷ who
    ∷ " holds BYPASSRLS, or the privileges of owner " ∷ owner
    ∷ " on a table without FORCE ROW LEVEL SECURITY) — the policies are never consulted; see verify --mode escalation and SEC048"
    ∷ [])

module _ (sql : Sql) (s : Schema) (mode : Mode) (prove : Node → Verdict × Option Row)
    (anon_roles : List String) where
  -- `[checked_ast(r, mode) for r in applicable_floors]`, `none` where one is missing
  unfoldable pub floor_asts : List Policy → Option (List Node)
  floor_asts [] = some []
  floor_asts (r ∷ rs) =
      let rest = floor_asts rs in
      elim (checked_ast sql r mode) [
        | none ↦ none
        | some n ↦ elim rest [ none ↦ none | some ns ↦ some (n ∷ ns) ]
      ]

  -- The verdict of the predicate with the floor.
  unfoldable pub composed_proof : Policy → Verdict × Option Row → PolicyProof
  composed_proof p (leak, w) = proof_of p leak w none
  composed_proof p (isolated, w) = proof_of p isolated none none
  composed_proof p (unverified, w) =
      proof_of p unverified none
        (some (floor_text mode "predicate is outside the decidable fragment"))

  -- A predicate that leaks, under the restrictive policies that apply wherever it does.
  unfoldable pub leaking_proof : List Policy → Policy → Node → Option Row → PolicyProof
  leaking_proof restrictives p ast witness =
      let floors = filter (λ r. floor_applies p r mode) restrictives in
      if is_empty floors then proof_of p leak witness none else elim (floor_asts floors) [
        | none ↦
            proof_of p unverified none (some (floor_text mode "predicate could not be modeled"))
        | some asts ↦ composed_proof p (prove (compose_with_floor ast asts))
      ]

  unfoldable pub reached_proof : List Policy → Policy → Node → Option Row → Reach → PolicyProof
  reached_proof restrictives p ast witness unreachable = proof_of p isolated none none
  reached_proof restrictives p ast witness unknown =
      proof_of p unverified none (some (unknown_reason p))
  reached_proof restrictives p ast witness reachable = leaking_proof restrictives p ast witness

  unfoldable pub predicate_proof : List Policy → Policy → Node → Verdict × Option Row → PolicyProof
  predicate_proof restrictives p ast (leak, w) =
      if is_anon mode
      then reached_proof restrictives p ast w (anon_policy_reachability sql s p anon_roles)
      else leaking_proof restrictives p ast w
  predicate_proof restrictives p ast (unverified, w) =
      proof_of p unverified none (some (unverified_predicate_reason mode))
  predicate_proof restrictives p ast (isolated, w) = proof_of p isolated none none

  -- The body of the loop over the permissive policies; `none` where it skips one.
  unfoldable pub policy_proof : List Policy → Policy → Option PolicyProof
  policy_proof restrictives p = elim (checked_ast sql p mode) [
    | none ↦
        if is_write mode && (p.command == insert && missing p.with_check_sql)
        then none
        else some (proof_of p unverified none (some (no_ast_reason mode)))
    | some ast ↦ some (predicate_proof restrictives p ast (prove ast))
  ]

  unfoldable pub policy_proofs : List Policy → List Policy → List PolicyProof
  policy_proofs restrictives [] = []
  policy_proofs restrictives (p ∷ ps) =
      let rest = policy_proofs restrictives ps in
      elim (policy_proof restrictives p) [ none ↦ rest | some x ↦ x ∷ rest ]

  abbrev pub relevant : Table → List Policy
  relevant t = filter (λ (p : Policy). contains p.command (mode_commands mode)) t.policies

  abbrev pub permissives : Table → List Policy
  permissives t = filter (λ (p : Policy). p.permissive) (relevant t)

  abbrev pub restrictives_of : Table → List Policy
  restrictives_of t = filter (λ (p : Policy). not p.permissive) (relevant t)

  -- The verdict of the policies of a table.
  unfoldable pub policies_verdict : Table → TableVerdict
  policies_verdict t =
      if is_empty (permissives t)
      then record {
        qualified_name = qualified_name t;
        verdict = isolated;
        note = some (no_permissive_detail mode);
        proofs = [];
      }
      else record {
        qualified_name = qualified_name t;
        verdict = rollup (policy_proofs (restrictives_of t) (permissives t));
        note =
            if any (λ p. any (λ r. floor_applies p r mode) (restrictives_of t)) (permissives t)
            then some (floor_text mode "composed into the proof")
            else none;
        proofs = policy_proofs (restrictives_of t) (permissives t);
      }

  abbrev exempting : Table → String
  exempting t =
      let by = join ", " (sort_by str_le (anon_exempting_roles sql s t anon_roles)) in
      if by == ""
      then join ", " (sort_by str_le (filter (λ r. not (r == "PUBLIC")) anon_roles))
      else by

  -- The body of the loop over the tables; `skip` is `_skip_owner_reach_gate`.
  unfoldable pub table_verdict : Bool → Table → Option TableVerdict
  table_verdict skip t =
      if not t.rls_enabled
      then none
      else if is_anon mode && anon_session_exempt sql s t anon_roles
      then some (record {
        qualified_name = qualified_name t;
        verdict = leak;
        note = some (exempt_reason (exempting t) t.owner);
        proofs =
            record {
              policy = concat ("role:" ∷ exempting t ∷ []);
              verdict = leak;
              witness = some [];
              reason = none;
            }
            ∷ [];
      })
      else if not (is_anon mode)
          && (not skip && (not t.force_rls && not (is_empty (reachers s t.owner))))
      then some (record {
        qualified_name = qualified_name t;
        verdict = unverified;
        note = some (owner_reason (reachers s t.owner) t.owner);
        proofs =
            record {
              policy = concat ("role:" ∷ t.owner ∷ []);
              verdict = unverified;
              witness = none;
              reason = some (owner_reason (reachers s t.owner) t.owner);
            }
            ∷ [];
      })
      else some (policies_verdict t)

  unfoldable pub table_verdicts : Bool → List Table → List TableVerdict
  table_verdicts skip [] = []
  table_verdicts skip (t ∷ ts) =
      let rest = table_verdicts skip ts in
      elim (table_verdict skip t) [ none ↦ rest | some v ↦ v ∷ rest ]

  unfoldable pub build_verification : Bool → Verification
  build_verification skip = record {
    tables =
        table_verdicts skip
          (sort_by (λ a b. str_le (qualified_name a) (qualified_name b)) s.tables);
    mode = mode;
  }
