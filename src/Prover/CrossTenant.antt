-- ===== src/Prover/CrossTenant.antt =====
-- `prove_cross_tenant_isolation` of src/pgrls/diff/_z3_compare.py and the witness of its leaks.
use pgrls.Prelude.{
  if◌then◌else◌, Bool-cases, Option-cases, ◌==◌, nat_eq, string_eq, bool_eq, pair_eq, option_eq,
  is_empty, any, all, filter, all-append, contains, dedup, String, In-all, In-any, ==→eq, ◌⊎◌, ◌≡◌,
  refl, sym, ap, ◌∙◌, inl, inr, Bool, true, false, ◌&&◌, not, Option, none, some, List, [], ◌∷◌,
  ◌++◌, arith,
}
use pgrls.Sql.{Node, Nodes, bool_expr, leaf, nil, cons, and_expr, or_expr, not_expr}
use pgrls.Sql.Truth.{Truth, null, conj, disj, negate, eval, eval_all, eval_any, admits}
use pgrls.Prover.{
  Tv, Z3, Verdict, isolated, unverified, unsat, Row, is_unsat, anon_tv, pins, and_of, answered,
}
use pgrls.Prover.Kleene.{Laws}
use pgrls.Prover.Sessions.{IsLegal, answer_cases, admits_lem}

-- What the session mode records of the leaves, and the formulas on a column and a session value,
-- each by its name.
pub record Tenancy (F S : Type 0) : Type 0 where
  -- `ctx.tenant_pairs` and `ctx.session_null_tests`
  pub leaf_pairs : S → String → List (String × String)
  pub leaf_null_tests : S → String → List String
  -- `column != session_tenant`, and `column != model.eval(column)` of the model of the formulas
  pub differs : String → String → F
  pub differs_from_model : List F → String → F
  -- `column.decl().name().rsplit(".", 1)[-1].lower()`
  pub axis_name : String → String
  -- `_is_z3_str_placeholder`
  pub is_placeholder : String → Bool

module _ {F S : Type 0} (z3 : Z3 F S) (tenancy : Tenancy F S) (identity_columns : List String) where
  open z3 use {available, check, neg, decode}
  open tenancy use {
    leaf_pairs, leaf_null_tests, differs, differs_from_model, axis_name, is_placeholder,
  }

  -- What the walk over the tree records.
  unfoldable mutual
    pub tenant_pairs : S → Node → List (String × String)
    tenant_pairs session (bool_expr op ns) = all_tenant_pairs session ns
    tenant_pairs session (leaf s) = leaf_pairs session s

    pub all_tenant_pairs : S → Nodes → List (String × String)
    all_tenant_pairs session nil = []
    all_tenant_pairs session (cons n ns) = tenant_pairs session n ++ all_tenant_pairs session ns

  unfoldable mutual
    pub session_null_tests : S → Node → List String
    session_null_tests session (bool_expr op ns) = all_session_null_tests session ns
    session_null_tests session (leaf s) = leaf_null_tests session s

    pub all_session_null_tests : S → Nodes → List String
    all_session_null_tests session nil = []
    all_session_null_tests session (cons n ns) =
        session_null_tests session n ++ all_session_null_tests session ns

  -- `_session_null_tests_offaxis`
  unfoldable pub session_null_tests_offaxis : S → Node → String → Bool
  session_null_tests_offaxis session n tenant =
      any (λ name. not (name == tenant)) (session_null_tests session n)

  -- `pairs[0]` where `_distinct_tenant_pairs` has one pair
  unfoldable pub single_pair : List (String × String) → Option (String × String)
  single_pair [] = none
  single_pair (p ∷ []) = some p
  single_pair (p ∷ q ∷ ps) = none

  unfoldable pub tenant_axis : S → Node → Option (String × String)
  tenant_axis session n = single_pair (dedup (tenant_pairs session n))

  -- `_cross_tenant_witness_sufficient`
  unfoldable pub cross_tenant_witness_sufficient : S → Row → String × String → Tv F → List F → Bool
  cross_tenant_witness_sufficient session witness (column, tenant) tv assertions =
      elim (pins z3 session witness) [
        | none ↦ false
        | some ps ↦
            let pinned = if is_empty ps then [] else and_of z3 ps ∷ [] in
            is_unsat (
              check (assertions ++ (differs column tenant ∷ [] ++ (pinned ++ neg tv.is_true ∷ []))))
      ]

  -- `_cross_tenant_witness`
  unfoldable pub cross_tenant_witness : S → String × String → Tv F → List F → Option Row
  cross_tenant_witness session (column, tenant) tv assertions =
      let found = assertions ++ tv.is_true ∷ differs column tenant ∷ [] in
      let pinned = is_unsat (check (found ++ differs_from_model found column ∷ [])) in
      let witness =
        filter
          (λ (e : String × String). not (e.0 == column && not pinned) && not (is_placeholder e.1))
          (decode session found) in
      if cross_tenant_witness_sufficient session witness (column, tenant) tv assertions
      then some witness
      else none

  -- The verdict on the axis.
  unfoldable pub axis_verdict :
      S → Node → Tv F → List F → Option (String × String) → Verdict × Option Row
  axis_verdict session n tv assertions none = (unverified, none)
  axis_verdict session n tv assertions (some (column, tenant)) =
      if session_null_tests_offaxis session n tenant
      then (unverified, none)
      else if not (contains (axis_name column) identity_columns)
      then (unverified, none)
      else answered (check (assertions ++ tv.is_true ∷ differs column tenant ∷ []))
          (cross_tenant_witness session (column, tenant) tv assertions)

  unfoldable pub encoded_verdict :
      S → Node → Option (Tv F × List F) → Option (String × String) → Verdict × Option Row
  encoded_verdict session n none axis = (unverified, none)
  encoded_verdict session n (some (tv, assertions)) axis = axis_verdict session n tv assertions axis

  unfoldable pub prove_cross_tenant_isolation : S → Node → Verdict × Option Row
  prove_cross_tenant_isolation session n =
      if not available
      then (unverified, none)
      else encoded_verdict session n (anon_tv z3 session n) (tenant_axis session n)

-- What is asked of a session that lacks some of its identities, which the encoding takes for
-- present: `has_identity` says which the session has, `actual` is the value of a leaf in it. Where the
-- session has the identities that the leaf tests for NULL, the leaf is NULL or as encoded.
pub record SessionLaws {F S : Type 0} {z3 : Z3 F S} (laws : Laws z3) (tenancy : Tenancy F S)
    : Type 0 where
  pub has_identity : laws.World → String → Bool
  pub actual : S → laws.World → String → Truth
  pub strict_law :
      (session : S) (s : String) (w : laws.World)
      → all (has_identity w) (tenancy.leaf_null_tests session s) ≡ true
      → (actual session w s ≡ null) ⊎ (actual session w s ≡ laws.value session w s)

-- Unknown, or the same.
abbrev Refines : Truth → Truth → Type 0
Refines a b = (a ≡ null) ⊎ (a ≡ b)

conj-Refines : (a b c d : Truth) → Refines a b → Refines c d → Refines (conj a c) (conj b d)
unfolding conj
conj-Refines a b c d e f = ground arith

disj-Refines : (a b c d : Truth) → Refines a b → Refines c d → Refines (disj a c) (disj b d)
unfolding disj
disj-Refines a b c d e f = ground arith

negate-Refines : (a b : Truth) → Refines a b → Refines (negate a) (negate b)
unfolding negate
negate-Refines a b e = ground arith

refined :
    (v u : String → Truth) (n : Node)
    → Refines (eval v n) (eval u n)
    → admits v n ≡ true
    → admits u n ≡ true
unfolding admits
refined v u n r t = ground arith

module _ {F S : Type 0} {z3 : Z3 F S} (laws : Laws z3) (tenancy : Tenancy F S)
    (identity_columns : List String) where
  open laws use {World, meets, value, unsat_law}

  axis_isolated :
      (session : S) (n : Node) (tv : Tv F) (raised : List F) (column tenant : String)
      (row : Option Row)
      → axis_verdict z3 tenancy identity_columns session n tv raised (some (column, tenant))
        ≡ (isolated, row)
      → (session_null_tests_offaxis z3 tenancy identity_columns session n tenant ≡ false)
        × (contains (tenancy.axis_name column) identity_columns ≡ true)
        × (z3.check (raised ++ tv.is_true ∷ tenancy.differs column tenant ∷ []) ≡ unsat)
  unfolding axis_verdict
  axis_isolated session n tv raised column tenant row e =
      let answer = z3.check (raised ++ tv.is_true ∷ tenancy.differs column tenant ∷ []) in
      let witness =
        cross_tenant_witness z3 tenancy identity_columns session (column, tenant) tv raised in
      elim (Bool-cases (session_null_tests_offaxis z3 tenancy identity_columns session n tenant)) [
        | inl o ↦ absurd (ground arith)
        | inr o ↦ elim (Bool-cases (contains (tenancy.axis_name column) identity_columns)) [
          | inr c ↦ absurd (ground arith)
          | inl c ↦
              let said : answered answer witness ≡ (isolated, row) = ground arith in
              elim (answer_cases answer witness isolated row said (λ q. absurd (ground arith))) [
                | inl (i, u) ↦ (o, c, u)
                | inr (i, a, r) ↦ absurd (ground arith)
              ]
        ]
      ]

  not_both :
      (w : World) (f g : F) (fs : List F)
      → z3.check (fs ++ f ∷ g ∷ []) ≡ unsat
      → all (meets w) fs ≡ true
      → meets w g ≡ true
      → meets w f ≡ false
  unfolding all
  not_both w f g fs u a d =
      ground (arith, unsat_law (fs ++ f ∷ g ∷ []) u w, all-append (meets w) fs (f ∷ g ∷ []))

  module _ (absences : SessionLaws laws tenancy) (session : S) (w : World) where
    open absences use {has_identity, actual, strict_law}

    abbrev AllPresent : List String → Type 0
    AllPresent names = all (has_identity w) names ≡ true

    mutual
      unfolding eval session_null_tests

      refines :
          (n : Node)
          → AllPresent (session_null_tests z3 tenancy identity_columns session n)
          → Refines (eval (actual session w) n) (eval (value session w) n)
      refines (bool_expr and_expr ns) h = conj_all ns h
      refines (bool_expr or_expr ns) h = disj_all ns h
      refines (bool_expr not_expr ns) h = negate-Refines _ _ (conj_all ns h)
      refines (leaf s) h = strict_law session s w h

      conj_all :
          (ns : Nodes)
          → AllPresent (all_session_null_tests z3 tenancy identity_columns session ns)
          → Refines (eval_all (actual session w) ns) (eval_all (value session w) ns)
      conj_all nil h = inr refl
      conj_all (cons n ns) h =
          let tests = session_null_tests z3 tenancy identity_columns session n in
          let more = all_session_null_tests z3 tenancy identity_columns session ns in
          let split = all-append (has_identity w) tests more in
          conj-Refines _ _ _ _ (refines n (ground (arith, split)))
            (conj_all ns (ground (arith, split)))

      disj_all :
          (ns : Nodes)
          → AllPresent (all_session_null_tests z3 tenancy identity_columns session ns)
          → Refines (eval_any (actual session w) ns) (eval_any (value session w) ns)
      disj_all nil h = inr refl
      disj_all (cons n ns) h =
          let tests = session_null_tests z3 tenancy identity_columns session n in
          let more = all_session_null_tests z3 tenancy identity_columns session ns in
          let split = all-append (has_identity w) tests more in
          disj-Refines _ _ _ _ (refines n (ground (arith, split)))
            (disj_all ns (ground (arith, split)))

    -- Where no other identity is tested for NULL, those that are tested are the tenant's.
    on_axis_present :
        (n : Node) (tenant : String)
        → session_null_tests_offaxis z3 tenancy identity_columns session n tenant ≡ false
        → has_identity w tenant ≡ true
        → AllPresent (session_null_tests z3 tenancy identity_columns session n)
    unfolding session_null_tests_offaxis
    on_axis_present n tenant o k =
        let tests = session_null_tests z3 tenancy identity_columns session n in
        In-all (has_identity w) tests (λ name m. elim (Bool-cases (name == tenant)) [
          | inl i ↦ ap (has_identity w) (==→eq name tenant i) ∙ k
          | inr i ↦
              absurd (ground (arith, o, In-any (λ name. not (name == tenant)) tests m (ap not i)))
        ])

  encoded_isolated :
      (session : S) (n : Node) (row : Option Row)
      → prove_cross_tenant_isolation z3 tenancy identity_columns session n ≡ (isolated, row)
      → (tv : Tv F) × (raised : List F) × (column : String) × (tenant : String) × (anon_tv z3
            session n
          ≡ some (tv, raised))
        × (tenant_axis z3 tenancy identity_columns session n ≡ some (column, tenant))
        × (axis_verdict z3 tenancy identity_columns session n tv raised (some (column, tenant))
            ≡ (isolated, row))
  unfolding prove_cross_tenant_isolation encoded_verdict axis_verdict
  encoded_isolated session n row e =
      let axis = tenant_axis z3 tenancy identity_columns session n in
      let encoded = encoded_verdict z3 tenancy identity_columns session n in
      let said : encoded (anon_tv z3 session n) axis ≡ (isolated, row) = ground arith in
      elim (Option-cases (anon_tv z3 session n)) [
        | inl f ↦
            let none_said : encoded none axis ≡ (isolated, row) =
              ap (λ o. encoded o axis) (sym f) ∙ said in
            absurd (ground arith)
        | inr ((tv, raised), f) ↦ elim (Option-cases axis) [
          | inl g ↦
              let none_said : encoded (some (tv, raised)) none ≡ (isolated, row) =
                ap (λ o. encoded o none) (sym f)
                ∙ ap (encoded (anon_tv z3 session n)) (sym g)
                ∙ said in
              absurd (ground arith)
          | inr ((column, tenant), g) ↦ (
            tv,
            raised,
            column,
            tenant,
            f,
            g,
            ap (λ o. encoded o (some (column, tenant))) (sym f)
                ∙ ap (encoded (anon_tv z3 session n)) (sym g)
                ∙ said,
          )
        ]
      ]

  -- A predicate that is proved isolated between tenants has one tenant axis, on an identity
  -- column, and admits no row in which that column differs from the tenant of the session, where
  -- the session has this tenant and may lack every other identity. The world meets what the
  -- encoding asserts, the solver keeps its laws, and a leaf that reads an absent identity is NULL
  -- or as encoded unless it tests it for NULL.
  pub prove_cross_tenant_isolation_sound :
      (absences : SessionLaws laws tenancy) (session : S) (n : Node) (row : Option Row) (w : World)
      → prove_cross_tenant_isolation z3 tenancy identity_columns session n ≡ (isolated, row)
      → IsLegal laws session n w
      → (column : String) × (tenant : String) × (tenant_axis z3 tenancy identity_columns session n
          ≡ some (column, tenant))
        × (contains (tenancy.axis_name column) identity_columns ≡ true)
        × ((absences.has_identity w tenant
              && (meets w (tenancy.differs column tenant) && admits (absences.actual session w) n))
            ≡ false)
  prove_cross_tenant_isolation_sound absences session n row w e l =
      let (tv, raised, column, tenant, f, g, said) = encoded_isolated session n row e in
      let (o, c, u) = axis_isolated session n tv raised column tenant row said in
      let shown : meets w (tenancy.differs column tenant) ≡ true
          → admits (value session w) n ≡ false =
        λ d.
          sym (admits_lem laws session n tv raised w f (l tv raised f))
          ∙ not_both w tv.is_true (tenancy.differs column tenant) raised u (l tv raised f) d in
      let below : absences.has_identity w tenant ≡ true
          → admits (absences.actual session w) n ≡ true
          → admits (value session w) n ≡ true =
        λ k.
          refined _ _ n
            (refines absences session w n (on_axis_present absences session w n tenant o k)) in
      (column, tenant, g, c, ground (arith, shown, below))
