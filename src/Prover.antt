-- ===== src/Prover.antt =====
-- src/pgrls/diff/_z3_compare.py, from `_TV` on: the encoding of a clause by pairs of Z3 terms, one
-- for TRUE and one for NULL, and the provers of an anonymous session that rest on it.
pub mod Kleene
pub mod Encoding
pub mod Sessions
pub mod Isolation
pub mod CrossTenant
use pgrls.Prelude.{
  ltb, leb, nat_eqb, nat_eqb_iff, if◌then◌else◌, Bool-cases, Option-cases, Bool-ext, and_left,
  and_right, Eq, ◌==◌, ==→eq, ==_refl, nat_eq, string_eq, bool_eqb, bool_eqb_iff, bool_eq, pair_eqb,
  pair_eqb_iff, pair_eq, option_eqb, option_eqb_iff, option_eq, length, length-append, is_empty,
  any, all, filter, is_empty-append, any-append, all-append, is_empty-filter, In, In-cons,
  In-cons_mono, In-swap, In-append, In-append_left, In-append_right, any-In, In-any, all-In, In-all,
  In-filter, filter-In, length-map, is_empty-map, any-map_never, In-map, map-In, flat_map,
  all-flat_map, flat_map-In, In-flat_map, here, there, contains, dedup, difference, subset,
  same_set, strict_subset, intersects, contains-In, In-contains, contains_head, contains_cons,
  contains-append, In-subset, subset-In, intersects-In, In-intersects, In-dedup, dedup-In,
  is_empty-dedup, insert_by, sort_by, is_empty-sort_by, sort_by-In, In-sort_by, find_last,
  find_last-In, In-find_last, Distinct, find_last-Distinct, concat, join, str_le, unseen,
  unseen-le-length, unseen_mono, unseen_strict, ℕ, zero, suc, ◌+◌, ◌-◌, ◌*◌, ◌/◌, ◌%◌, ◌≤◌, ◌<◌,
  String, ◌≡◌, refl, sym, ap, subst, ◌∙◌, ◌≢◌, ◌↔◌, ◌⊎◌, inl, inr, Bool, true, false, ◌&&◌, ◌||◌,
  not, Option, none, some, List, [], ◌∷◌, ◌++◌, map, arith, eq_iff,
}
use pgrls.Sql.{Node, Nodes, BoolOp, bool_expr, leaf, nil, cons, and_expr, or_expr, not_expr}

pub data Verdict : Type 0 where
  isolated leak unverified : Verdict

abbrev pub Row : Type 0
Row = List (String × String)

-- `_TV`
pub record Tv (F : Type 0) : Type 0 where
  pub is_true : F
  pub is_null : F

-- `_Val`
pub record Val (F : Type 0) : Type 0 where
  pub value : F
  pub is_null : F
  pub unset : Bool

-- What the translation of a node gives: a truth or a scalar.
pub data Term (F : Type 0) : Type 0 where
  tv_term : Tv F → Term F
  val_term : Val F → Term F

-- The answers of `solver.check()`.
pub data Answer : Type 0 where
  sat unsat unknown : Answer

abbrev pub is_unsat : Answer → Bool
is_unsat unsat = true
is_unsat sat = false
is_unsat unknown = false

-- Z3, and what is read of the nodes that are no Boolean operators, in a session of type `S`.
pub record Z3 (F S : Type 0) : Type 0 where
  -- `Z3_AVAILABLE`
  pub available : Bool
  pub bool_val : Bool → F
  pub and : F → F → F
  pub or : F → F → F
  pub neg : F → F
  -- `x.value.sort() == z3.BoolSort()`
  pub is_bool : F → Bool
  pub check : List F → Answer
  -- `_anon_3vl` of such a node, with the assertions that it appends, where the columns have the
  -- sorts of the finished context
  pub leaf_term : S → String → Option (Term F × List F)
  -- `_decode_model` of the solver's model of the formulas
  pub decode : S → List F → Row
  -- `ctx.column(key, ...) == val` and `ctx.null_flag(key)` of one entry of a row
  pub pin : S → String × String → Option (F × F)

unfoldable pub answered : Answer → Option Row → Verdict × Option Row
answered unsat w = (isolated, none)
answered unknown w = (unverified, none)
answered sat w = (leak, w)

abbrev pub is_leak : Verdict → Bool
is_leak v = elim v [ leak ↦ true | _ ↦ false ]

abbrev pub is_unverified : Verdict → Bool
is_unverified v = elim v [ unverified ↦ true | _ ↦ false ]

-- `for verdict, witness in verdicts: if verdict == "leak": return (verdict, witness)`
unfoldable pub first_leak : List (Verdict × Option Row) → Option (Option Row)
first_leak [] = none
first_leak ((v, w) ∷ vs) = if is_leak v then some w else first_leak vs

unfoldable pub any_session : List (Verdict × Option Row) → Verdict × Option Row
any_session vs = elim (first_leak vs) [
  | some w ↦ (leak, w)
  | none ↦
      if any (λ (v : Verdict × Option Row). is_unverified v.0) vs
      then (unverified, none)
      else (isolated, none)
]

abbrev pub is_total : Verdict × Option Row → Bool
is_total (leak, some []) = true
is_total _ = false

module _ {F S : Type 0} (z3 : Z3 F S) where
  open z3 use {available, bool_val, and, or, neg, is_bool, check, leaf_term, decode, pin}

  -- `_lift_to_tv`, with the assertion that it appends
  unfoldable pub lift_to_tv : Term F → Option (Tv F × List F)
  lift_to_tv (tv_term t) = some (t, [])
  lift_to_tv (val_term v) =
      if v.unset
      then some (record { is_true = bool_val false; is_null = bool_val true }, [])
      else if is_bool v.value
      then some
          (record { is_true = v.value; is_null = v.is_null }, or (neg v.value) (neg v.is_null) ∷ [])
      else none

  -- The body of the loop of the AND branch.
  unfoldable pub kleene_and : Tv F → Tv F → Tv F
  kleene_and acc y =
      let falsey_x = and (neg acc.is_true) (neg acc.is_null) in
      let falsey_y = and (neg y.is_true) (neg y.is_null) in
      record {
        is_true = and acc.is_true y.is_true;
        is_null = or (and acc.is_null (neg falsey_y)) (and y.is_null (neg falsey_x));
      }

  unfoldable pub kleene_or : Tv F → Tv F → Tv F
  kleene_or acc y = record {
    is_true = or acc.is_true y.is_true;
    is_null = and (and (or acc.is_null y.is_null) (neg acc.is_true)) (neg y.is_true);
  }

  unfoldable pub kleene_not : Tv F → Tv F
  kleene_not x = record { is_true = and (neg x.is_true) (neg x.is_null); is_null = x.is_null }

  -- `for y in tvs[1:]`
  unfoldable pub fold_tvs : (Tv F → Tv F → Tv F) → Tv F → List (Tv F) → Tv F
  fold_tvs step acc [] = acc
  fold_tvs step acc (y ∷ ys) = fold_tvs step (step acc y) ys

  -- `_anon_boolexpr` on the operands
  unfoldable pub anon_boolexpr : BoolOp → List (Tv F) → Option (Tv F)
  unfolding fold_tvs
  anon_boolexpr op [] = none
  anon_boolexpr not_expr (x ∷ []) = some (kleene_not x)
  anon_boolexpr not_expr (x ∷ y ∷ ys) = none
  anon_boolexpr and_expr (x ∷ xs) = some (fold_tvs kleene_and x xs)
  anon_boolexpr or_expr (x ∷ xs) = some (fold_tvs kleene_or x xs)

  unfoldable pub lift_with : Option (Term F × List F) → Option (Tv F × List F)
  lift_with none = none
  lift_with (some (t, raised)) = elim (lift_to_tv t) [
    | none ↦ none
    | some (tv, lifted) ↦ some (tv, raised ++ lifted)
  ]

  unfoldable pub combine : BoolOp → Option (List (Tv F) × List F) → Option (Tv F × List F)
  combine op none = none
  combine op (some (tvs, raised)) = elim (anon_boolexpr op tvs) [
    | none ↦ none
    | some tv ↦ some (tv, raised)
  ]

  unfoldable pub gather :
      Option (Tv F × List F) → Option (List (Tv F) × List F) → Option (List (Tv F) × List F)
  gather none rest = none
  gather (some (tv, raised)) none = none
  gather (some (tv, raised)) (some (tvs, more)) = some (tv ∷ tvs, raised ++ more)

  -- `_lift_to_tv(_anon_3vl(node, ...), assertions)`: the pair, and all that was asserted.
  unfoldable mutual
    pub anon_tv : S → Node → Option (Tv F × List F)
    anon_tv session (bool_expr op ns) = combine op (anon_tvs session ns)
    anon_tv session (leaf s) = lift_with (leaf_term session s)

    pub anon_tvs : S → Nodes → Option (List (Tv F) × List F)
    anon_tvs session nil = some ([], [])
    anon_tvs session (cons n ns) = gather (anon_tv session n) (anon_tvs session ns)

  -- The equations of the columns of a row, and that each of them is not NULL.
  unfoldable pub pins : S → Row → Option (List F)
  pins session [] = some []
  pins session (entry ∷ row) =
      let rest = pins session row in
      elim (pin session entry) [
        | none ↦ none
        | some (equal, null_flag) ↦ elim rest [
          | none ↦ none
          | some more ↦ some (equal ∷ neg null_flag ∷ more)
        ]
      ]

  -- `z3.And(*pins)`
  unfoldable pub and_of : List F → F
  and_of [] = bool_val true
  and_of (f ∷ []) = f
  and_of (f ∷ g ∷ fs) = and f (and_of (g ∷ fs))

  -- `_anon_witness_is_sufficient`
  unfoldable pub anon_witness_is_sufficient : S → Row → F → List F → Bool
  anon_witness_is_sufficient session row is_true assertions = elim (pins session row) [
    | none ↦ false
    | some ps ↦ is_unsat (check (assertions ++ and (and_of ps) (neg is_true) ∷ []))
  ]

  -- What is said of a leak: a row that characterizes it, no entry for every row, or nothing.
  unfoldable pub leak_witness : S → Tv F → List F → Option Row
  leak_witness session tv assertions =
      let row = decode session (assertions ++ tv.is_true ∷ []) in
      if not (is_empty row) && anon_witness_is_sufficient session row tv.is_true assertions
      then some row
      else if is_unsat (check (assertions ++ neg tv.is_true ∷ []))
      then some []
      else none

  unfoldable pub session_verdict : S → Option (Tv F × List F) → Verdict × Option Row
  unfolding answered
  session_verdict session none = (unverified, none)
  session_verdict session (some (tv, assertions)) =
      answered (check (assertions ++ tv.is_true ∷ [])) (leak_witness session tv assertions)

  -- `_prove_anon_session`
  unfoldable pub prove_anon_session : S → Node → Verdict × Option Row
  prove_anon_session session node = session_verdict session (anon_tv session node)

-- `tuple(set_gucs) or ({},)`
unfoldable pub states_of : {G : Type 0} → G → List G → List G
states_of unset states = if is_empty states then unset ∷ [] else states

module _ {F S G : Type 0} (z3 : Z3 F S) (context : G → Bool → S) (unset : G) where
  open z3 use {available}

  -- `for state in states for anon_jwt in (False, True)`, each with its `_Context`
  unfoldable pub anon_sessions : List G → List S
  anon_sessions states = flat_map (λ g. context g false ∷ context g true ∷ []) states

  -- `prove_anon_isolation`
  unfoldable pub prove_anon_isolation : List G → Node → Verdict × Option Row
  unfolding any_session
  prove_anon_isolation set_gucs node =
      if not available
      then (unverified, none)
      else any_session
          (map (λ s. prove_anon_session z3 s node) (anon_sessions (states_of unset set_gucs)))

  -- `anon_leak_is_total`
  unfoldable pub anon_leak_is_total : List G → Node → Bool
  anon_leak_is_total set_gucs node =
      available
      && all (λ s. is_total (prove_anon_session z3 s node))
          (anon_sessions (states_of unset set_gucs))
