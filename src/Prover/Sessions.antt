-- ===== src/Prover/Sessions.antt =====
-- The verdicts of src/pgrls/diff/_z3_compare.py on anonymous sessions (`_prove_anon_session`,
-- `_anon_witness_is_sufficient`) beside the rows that the session reads.
use pgrls.Prelude.{
  Bool-cases, Option-cases, and_left, and_right, nat_eq, string_eq, bool_eq, pair_eq, option_eq,
  is_empty, all, all-append, ◌≡◌, refl, sym, ap, subst, ◌∙◌, ◌≢◌, ◌⊎◌, inl, inr, true, false, ◌&&◌,
  Option, none, some, List, [], ◌∷◌, ◌++◌, arith,
}
use pgrls.Sql.{Node}
use pgrls.Sql.Truth.{admits}
use pgrls.Prover.{
  Tv, Z3, Verdict, isolated, leak, unverified, Answer, sat, unsat, unknown, Row, anon_tv, is_unsat,
  and_of, pins, anon_witness_is_sufficient, leak_witness, session_verdict, answered,
  prove_anon_session,
}
use pgrls.Prover.Kleene.{Laws, some_inj}
use pgrls.Prover.Encoding.{anon_tv_encodes}

-- The world keeps to what the encoding of the clause asserts of its columns.
abbrev pub IsLegal : {F S : Type 0} {z3 : Z3 F S} (laws : Laws z3) → S → Node → laws.World → Type 0
IsLegal {F} {z3 = z3} laws session n w =
    (tv : Tv F) (raised : List F)
    → anon_tv z3 session n ≡ some (tv, raised)
    → all (laws.meets w) raised ≡ true

is_unsat_lem : (a : Answer) → is_unsat a ≡ true → a ≡ unsat
is_unsat_lem a h = ground arith

pub answer_cases :
    (a : Answer) (w : Option Row) (v : Verdict) (row : Option Row)
    → answered a w ≡ (v, row)
    → v ≢ unverified
    → (v ≡ isolated) × (a ≡ unsat) ⊎ (v ≡ leak) × (a ≡ sat) × (w ≡ row)
unfolding answered
answer_cases unsat w v row e u = inl (sym (ap (λ (p : Verdict × Option Row). p.0) e), refl)
answer_cases unknown w v row e u = absurd (u (sym (ap (λ (p : Verdict × Option Row). p.0) e)))
answer_cases sat w v row e u =
    inr (
      sym (ap (λ (p : Verdict × Option Row). p.0) e),
      refl,
      ap (λ (p : Verdict × Option Row). p.1) e,
    )

module _ {F S : Type 0} {z3 : Z3 F S} (laws : Laws z3) where
  open laws use {World, meets, value, and_law, neg_law, unsat_law, sat_law, bool_val_law}

  -- One more formula.
  refuted :
      (w : World) (fs : List F) (f : F)
      → z3.check (fs ++ f ∷ []) ≡ unsat
      → all (meets w) fs ≡ true
      → meets w f ≡ false
  unfolding all
  refuted w fs f u a =
      ground (arith, unsat_law (fs ++ f ∷ []) u w, all-append (meets w) fs (f ∷ []))

  and_of_lem : (w : World) (ps : List F) → all (meets w) ps ≡ true → meets w (and_of z3 ps) ≡ true
  unfolding all and_of
  and_of_lem w [] a = bool_val_law w true
  and_of_lem w (p ∷ []) a = ground arith
  and_of_lem w (p ∷ q ∷ ps) a =
      ground (arith, and_law w p (and_of z3 (q ∷ ps)), and_of_lem w (q ∷ ps))

  module _ (session : S) (n : Node) where
    pinned :
        (tv : Tv F) (raised : List F) (row : Row) (ps : List F) (w : World)
        → anon_witness_is_sufficient z3 session row tv.is_true raised ≡ true
        → pins z3 session row ≡ some ps
        → all (meets w) raised ≡ true
        → all (meets w) ps ≡ true
        → meets w tv.is_true ≡ true
    unfolding anon_witness_is_sufficient
    pinned tv raised row ps w h j l a =
        let u =
          is_unsat_lem (z3.check (raised ++ z3.and (and_of z3 ps) (z3.neg tv.is_true) ∷ []))
            (rw (j, anon_witness_is_sufficient) at h) in
        ground (
          arith,
          refuted w raised (z3.and (and_of z3 ps) (z3.neg tv.is_true)) u l,
          and_law w (and_of z3 ps) (z3.neg tv.is_true),
          neg_law w tv.is_true,
          and_of_lem w ps a,
        )

    unescaped :
        (tv : Tv F) (raised : List F) (w : World)
        → is_unsat (z3.check (raised ++ z3.neg tv.is_true ∷ [])) ≡ true
        → all (meets w) raised ≡ true
        → meets w tv.is_true ≡ true
    unescaped tv raised w h l =
        ground
          (arith, refuted w raised (z3.neg tv.is_true) (is_unsat_lem _ h) l, neg_law w tv.is_true)

    -- Where a witness is given, the formula holds in each world that it is pinned in.
    forced :
        (tv : Tv F) (raised : List F) (row : Row) (ps : List F) (w : World)
        → leak_witness z3 session tv raised ≡ some row
        → pins z3 session row ≡ some ps
        → all (meets w) raised ≡ true
        → all (meets w) ps ≡ true
        → meets w tv.is_true ≡ true
    unfolding leak_witness
    forced tv raised row ps w e j l a =
        let shown = z3.decode session (raised ++ tv.is_true ∷ []) in
        elim (Bool-cases (anon_witness_is_sufficient z3 session shown tv.is_true raised)) [
          | inl b ↦ elim (Bool-cases (is_empty shown)) [
            | inr c ↦
                let same : shown ≡ row = ground arith in
                pinned tv raised row ps w
                  (subst (λ r. anon_witness_is_sufficient z3 session r tv.is_true raised ≡ true)
                    same b)
                  j l a
            | inl c ↦ unescaped tv raised w (ground arith) l
          ]
          | inr b ↦ unescaped tv raised w (ground arith) l
        ]

    -- The verdict and what the solver answered.
    verdict_cases :
        (v : Verdict) (row : Option Row)
        → prove_anon_session z3 session n ≡ (v, row)
        → v ≢ unverified
        → (tv : Tv F) × (raised : List F) × (anon_tv z3 session n ≡ some (tv, raised))
          × ((v ≡ isolated) × (z3.check (raised ++ tv.is_true ∷ []) ≡ unsat)
              ⊎ (v ≡ leak)
                × (z3.check (raised ++ tv.is_true ∷ []) ≡ sat)
                × (leak_witness z3 session tv raised ≡ row))
    unfolding prove_anon_session session_verdict
    verdict_cases v row e u = elim (Option-cases (anon_tv z3 session n)) [
      | inl f ↦
          let g : session_verdict z3 session none ≡ (v, row) =
            ap (session_verdict z3 session) (sym f) ∙ e in
          absurd (u (sym (ap (λ (p : Verdict × Option Row). p.0) g)))
      | inr ((tv, raised), f) ↦
          let g : session_verdict z3 session (some (tv, raised)) ≡ (v, row) =
            ap (session_verdict z3 session) (sym f) ∙ e in
          (tv, raised, f, answer_cases _ _ v row g u)
    ]

    pub admits_lem :
        (tv : Tv F) (raised : List F) (w : World)
        → anon_tv z3 session n ≡ some (tv, raised)
        → all (meets w) raised ≡ true
        → meets w tv.is_true ≡ admits (value session w) n
    unfolding admits
    admits_lem tv raised w e a = (anon_tv_encodes laws session w n tv raised e a).0

    pub isolated_session :
        (row : Option Row) (w : World)
        → prove_anon_session z3 session n ≡ (isolated, row)
        → IsLegal laws session n w
        → admits (value session w) n ≡ false
    isolated_session row w e l =
        let (tv, raised, f, k) = verdict_cases isolated row e (λ q. absurd (ground arith)) in
        elim k [
          | inl (i, u) ↦
              sym (admits_lem tv raised w f (l tv raised f))
              ∙ refuted w raised tv.is_true u (l tv raised f)
          | inr (i, r, q) ↦ absurd (ground arith)
        ]

    pub leaking_session :
        (row : Option Row)
        → prove_anon_session z3 session n ≡ (leak, row)
        → (w : World) × IsLegal laws session n w × (admits (value session w) n ≡ true)
    unfolding all
    leaking_session row e =
        let (tv, raised, f, k) = verdict_cases leak row e (λ q. absurd (ground arith)) in
        elim k [
          | inl (i, u) ↦ absurd (ground arith)
          | inr (i, s, r) ↦
              let (w, a) = sat_law (raised ++ tv.is_true ∷ []) s in
              let split : (all (meets w) raised && (meets w tv.is_true && true)) ≡ true =
                sym (all-append (meets w) raised (tv.is_true ∷ [])) ∙ a in
              (
                w,
                λ x r g.
                    subst (λ z. all (meets w) z ≡ true)
                      (ap (λ (p : Tv F × List F). p.1) (some_inj laws session w (sym f ∙ g)))
                      (and_left _ _ split),
                sym (admits_lem tv raised w f (and_left _ _ split))
                    ∙ and_left _ _ (and_right _ _ split),
              )
        ]

    -- Where a session leaks with a row as its witness, the predicate admits every row that agrees
    -- with the witness on its columns, none of them NULL; with no entry, every row. The world
    -- meets what the encoding asserts, and the solver keeps its laws.
    pub leak_witness_sufficient :
        (row : Row) (ps : List F) (w : World)
        → prove_anon_session z3 session n ≡ (leak, some row)
        → pins z3 session row ≡ some ps
        → IsLegal laws session n w
        → all (meets w) ps ≡ true
        → admits (value session w) n ≡ true
    leak_witness_sufficient row ps w e j l a =
        let (tv, raised, f, k) = verdict_cases leak (some row) e (λ q. absurd (ground arith)) in
        elim k [
          | inl (i, u) ↦ absurd (ground arith)
          | inr (i, s, r) ↦
              sym (admits_lem tv raised w f (l tv raised f))
              ∙ forced tv raised row ps w r j (l tv raised f) a
        ]
