-- ===== src/Verify/Tables/Policies.antt =====
-- The proof of one policy in `build_verification` (src/pgrls/verify.py) beside the rows that the
-- policy admits.
use pgrls.Prelude.{
  Bool-cases, Option-cases, and_left, ◌==◌, nat_eq, string_eq, bool_eq, pair_eq, option_eq,
  is_empty, all, filter, In, In-filter, here, there, contains, String, ◌≡◌, refl, sym, ap, subst,
  ◌∙◌, ◌≢◌, inl, inr, Bool, true, false, ◌&&◌, Option, none, some, List, [], ◌∷◌, arith,
}
use pgrls.Model.{Policy, Schema, Command, command_eq, insert}
use pgrls.Sql.{Sql, Node, parse_expr}
use pgrls.Sql.Truth.{Truth, admits}
use pgrls.Rls.{Check, clause_for, applies, clause_of, clause_holds, grants_on, lets_on}
use pgrls.Access.Cells.Clauses.{clause_truth}
use pgrls.Prover.{Verdict, isolated, leak, unverified, Row}
use pgrls.Verify.{Mode, mode_commands, is_write, is_anon, PolicyProof}
use pgrls.Verify.Gates.{missing, checked_ast, compose_with_floor, floor_applies}
use pgrls.Verify.Gates.Sound.{
  mode_acts, for_command, read_ast, checked_ast-admits, clause_of-insert, admits-compose_with_floor,
}
use pgrls.Verify.Gates.Floors.{floor_applies_sound}
use pgrls.Verify.Anonymous.{Reach, reachable, unreachable, unknown, anon_policy_reachability}
use pgrls.Verify.Tables.{
  floor_asts, composed_proof, leaking_proof, reached_proof, predicate_proof, policy_proof, proof_of,
  no_ast_reason,
}

-- What the prover's answer says of the row and the session at hand.
abbrev pub ClearsRow : (Node → Verdict × Option Row) → (String → Truth) → Type 0
ClearsRow prove value =
    (n : Node) (w : Option Row) → prove n ≡ (isolated, w) → admits value n ≡ false

-- A restrictive policy has the clause that decides a written row.
abbrev pub HasFloor : Check → Mode → Command → List Policy → Type 0
HasFloor check mode command ps =
    (p : Policy)
    → In p ps
    → is_write mode ≡ true
    → p.permissive ≡ false
    → clause_of check p command ≢ none

module _ (sql : Sql) (s : Schema) (mode : Mode) (prove : Node → Verdict × Option Row)
    (anon_roles : List String) (value : String → Truth) (unparsed : String → Bool)
    (command : Command) (targets : List String) (acts : contains command (mode_acts mode) ≡ true)
    (public : contains "PUBLIC" targets ≡ true) (clears : ClearsRow prove value)
    (check : Check) where
  abbrev truth : String → Bool
  truth = clause_truth sql value unparsed

  -- What is asked of a restrictive policy of the table.
  abbrev pub IsFloor : Policy → Type 0
  IsFloor r =
      (r.permissive ≡ false)
      × (contains r.command (mode_commands mode) ≡ true)
      × (lets_on check truth command targets r ≡ true)
      × (is_write mode ≡ true → clause_of check r command ≢ none)

  floor_admits :
      (p r : Policy) (n : Node)
      → is_empty p.roles ≡ false
      → applies p command targets ≡ true
      → floor_applies p r mode ≡ true
      → IsFloor r
      → checked_ast sql r mode ≡ some n
      → admits value n ≡ true
  unfolding lets_on clause_holds applies parse_expr
  floor_admits p r n e a f (perm, known, lets, has) c =
      let bound : applies r command targets ≡ true =
        floor_applies_sound mode p r command targets f known acts e public a in
      elim (Option-cases (clause_of check r command)) [
        | inl k ↦ elim (Bool-cases (is_write mode)) [
          | inl w ↦ absurd (has w k)
          | inr w ↦ absurd (ground (arith, read_ast sql check mode r command none w acts k))
        ]
        | inr (d, k) ↦
            checked_ast-admits sql check value unparsed mode r command d n acts (and_left _ _ bound)
              k (ground (arith, ap (clause_holds truth true) k)) c
      ]

  floors_admit :
      (p : Policy) (rs : List Policy) (ns : List Node)
      → is_empty p.roles ≡ false
      → applies p command targets ≡ true
      → ((r : Policy) → In r rs → (floor_applies p r mode ≡ true) × IsFloor r)
      → floor_asts sql s mode prove anon_roles rs ≡ some ns
      → all (admits value) ns ≡ true
  unfolding floor_asts all
  floors_admit p [] ns e a f k =
      ap (λ o. elim o [ none ↦ true | some z ↦ all (admits value) z ]) (sym k)
  floors_admit p (r ∷ rs) ns e a f k = elim (Option-cases (checked_ast sql r mode)) [
    | inl c ↦ absurd (ground arith)
    | inr (n, c) ↦ elim (Option-cases (floor_asts sql s mode prove anon_roles rs)) [
      | inl d ↦ absurd (ground arith)
      | inr (ms, d) ↦
          let one = floor_admits p r n e a (f r (here refl)).0 (f r (here refl)).1 c in
          let rest = floors_admit p rs ms e a (λ q m. f q (there m)) d in
          let same : n ∷ ms ≡ ns = ground arith in
          subst (λ z. all (admits value) z ≡ true) same (ground arith)
    ]
  ]

  clears_first : (n : Node) → (prove n).0 ≡ isolated → admits value n ≡ false
  clears_first n e = clears n (prove n).1 (λ i. (e i, (prove n).1))

  composed_isolated :
      (p : Policy) (answer : Verdict × Option Row)
      → (composed_proof sql s mode prove anon_roles p answer).verdict ≡ isolated
      → answer.0 ≡ isolated
  unfolding composed_proof
  composed_isolated p (isolated, w) e = refl
  composed_isolated p (leak, w) e = absurd (ground arith)
  composed_isolated p (unverified, w) e = absurd (ground arith)

  -- A leak that the floor closes.
  leaking_sound :
      (restrictives : List Policy) (p : Policy) (n : Node) (w : Option Row)
      → is_empty p.roles ≡ false
      → applies p command targets ≡ true
      → ((r : Policy) → In r restrictives → IsFloor r)
      → (leaking_proof sql s mode prove anon_roles restrictives p n w).verdict ≡ isolated
      → admits value n ≡ false
  unfolding leaking_proof
  leaking_sound restrictives p n w e a f h =
      let floors = filter (λ r. floor_applies p r mode) restrictives in
      elim (Bool-cases (is_empty floors)) [
        | inl k ↦ absurd (ground arith)
        | inr k ↦ elim (Option-cases (floor_asts sql s mode prove anon_roles floors)) [
          | inl d ↦ absurd (ground arith)
          | inr (ns, d) ↦
              let closed : (prove (compose_with_floor n ns)).0 ≡ isolated =
                composed_isolated p (prove (compose_with_floor n ns)) (ground arith) in
              let below =
                floors_admit p floors ns e a
                  (λ r m.
                    let (i, j) = In-filter (λ r. floor_applies p r mode) restrictives m in
                    (j, f r i))
                  d in
              ground (
                arith,
                clears_first (compose_with_floor n ns) closed,
                admits-compose_with_floor value n ns,
                below,
              )
        ]
      ]

  -- Only in the anonymous mode is it asked whether the session meets the policy.
  abbrev pub IsReached : Type 0
  IsReached =
      (p : Policy)
      → is_anon mode ≡ true
      → anon_policy_reachability sql s p anon_roles ≡ unreachable
      → applies p command targets ≡ false

  reached_sound :
      IsReached
      → (restrictives : List Policy) (p : Policy) (n : Node) (w : Option Row) (reach : Reach)
      → is_anon mode ≡ true
      → anon_policy_reachability sql s p anon_roles ≡ reach
      → is_empty p.roles ≡ false
      → applies p command targets ≡ true
      → ((r : Policy) → In r restrictives → IsFloor r)
      → (reached_proof sql s mode prove anon_roles restrictives p n w reach).verdict ≡ isolated
      → admits value n ≡ false
  unfolding reached_proof
  reached_sound u restrictives p n w reachable i q e a f h =
      leaking_sound restrictives p n w e a f h
  reached_sound u restrictives p n w unreachable i q e a f h = absurd (ground (arith, u p i q))
  reached_sound u restrictives p n w unknown i q e a f h = absurd (ground arith)

  predicate_sound :
      IsReached
      → (restrictives : List Policy) (p : Policy) (n : Node) (answer : Verdict × Option Row)
      → prove n ≡ answer
      → is_empty p.roles ≡ false
      → applies p command targets ≡ true
      → ((r : Policy) → In r restrictives → IsFloor r)
      → (predicate_proof sql s mode prove anon_roles restrictives p n answer).verdict ≡ isolated
      → admits value n ≡ false
  unfolding predicate_proof
  predicate_sound u restrictives p n (isolated, w) j e a f h = clears n w j
  predicate_sound u restrictives p n (unverified, w) j e a f h = absurd (ground arith)
  predicate_sound u restrictives p n (leak, w) j e a f h = elim (Bool-cases (is_anon mode)) [
    | inl i ↦
        reached_sound u restrictives p n w (anon_policy_reachability sql s p anon_roles) i refl e a
          f (ground arith)
    | inr i ↦ leaking_sound restrictives p n w e a f (ground arith)
  ]

  bare_insert :
      (p : Policy)
      → (p.command == insert && missing p.with_check_sql) ≡ true
      → for_command p command ≡ true
      → clause_of check p command ≡ none
  unfolding clause_for
  bare_insert p b f =
      let is : command ≡ insert = ground arith in
      subst (λ d. clause_of check p d ≡ none) (sym is) (clause_of-insert check p ∙ ground arith)

  unchecked :
      (restrictives : List Policy) (p : Policy)
      → checked_ast sql p mode ≡ none
      → ((x : PolicyProof)
          → policy_proof sql s mode prove anon_roles restrictives p ≡ some x
          → x.verdict ≡ isolated)
      → (p.command == insert && missing p.with_check_sql) ≡ true
  unfolding policy_proof
  unchecked restrictives p k h =
      elim (Bool-cases (p.command == insert && missing p.with_check_sql)) [
        | inl b ↦ b
        | inr b ↦
            let x = proof_of p unverified none (some (no_ast_reason mode)) in
            let kept : policy_proof sql s mode prove anon_roles restrictives p ≡ some x =
              ground arith in
            absurd (ground (arith, h x kept))
      ]

  checked :
      (restrictives : List Policy) (p : Policy) (n : Node)
      → checked_ast sql p mode ≡ some n
      → policy_proof sql s mode prove anon_roles restrictives p
        ≡ some (predicate_proof sql s mode prove anon_roles restrictives p n (prove n))
  unfolding policy_proof
  checked restrictives p n k = rw (k, policy_proof)

  -- A policy that is skipped, or that is proved isolated, admits no such row under the floor.
  pub policy_proof_sound :
      IsReached
      → (restrictives : List Policy) (p : Policy) → is_empty p.roles ≡ false
      → ((r : Policy) → In r restrictives → IsFloor r)
      → ((x : PolicyProof)
          → policy_proof sql s mode prove anon_roles restrictives p ≡ some x
          → x.verdict ≡ isolated)
      → grants_on check truth command targets p ≡ false
  unfolding grants_on clause_holds applies
  policy_proof_sound u restrictives p e f h = elim (Option-cases (clause_of check p command)) [
    | inl k ↦ ground (arith, ap (clause_holds truth false) k)
    | inr (c, k) ↦ elim (Option-cases (checked_ast sql p mode)) [
      | inl j ↦ ground (arith, bare_insert p (unchecked restrictives p j h))
      | inr (n, j) ↦
          let done =
            h (predicate_proof sql s mode prove anon_roles restrictives p n (prove n))
              (checked restrictives p n j) in
          let kept : applies p command targets ≡ true → admits value n ≡ false =
            λ a. predicate_sound u restrictives p n (prove n) refl e a f done in
          let met : truth c ≡ true → for_command p command ≡ true → admits value n ≡ true =
            λ t l. checked_ast-admits sql check value unparsed mode p command c n acts l k t j in
          ground (arith, ap (clause_holds truth false) k, kept, met)
    ]
  ]
