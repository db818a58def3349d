-- ===== src/Prover/Encoding.antt =====
-- The whole encoding of a clause (src/pgrls/diff/_z3_compare.py, `_anon_3vl`), its assertions
-- threaded, beside the three-valued value of the clause.
use pgrls.Prelude.{
  Bool-cases, Option-cases, and_left, and_right, nat_eq, string_eq, bool_eq, pair_eq, option_eq,
  all, all-append, String, ◌≡◌, refl, sym, ap, subst, ◌∙◌, inl, inr, true, false, ◌&&◌, Option,
  none, some, List, [], ◌∷◌, ◌++◌, arith,
}
use pgrls.Sql.{Node, Nodes, BoolOp, bool_expr, leaf, nil, cons}
use pgrls.Sql.Truth.{Truth, eval}
use pgrls.Prover.{
  Tv, Val, Term, tv_term, val_term, Z3, lift_to_tv, anon_boolexpr, lift_with, combine, gather,
  anon_tv, anon_tvs,
}
use pgrls.Prover.Kleene.{Laws, Tells, TellsTerm, TellsAll, boolexpr-Tells, some_inj}

module _ {F S : Type 0} {z3 : Z3 F S} (laws : Laws z3) (session : S) (w : laws.World) where
  open laws use {meets, value, bool_val_law, or_law, neg_law, leaf_law}

  -- The assertion of a lifted scalar keeps its value and its flag apart.
  exclusive :
      (v : Val F) (lifted : List F)
      → (z3.or (z3.neg v.value) (z3.neg v.is_null) ∷ []) ≡ lifted
      → all (meets w) lifted ≡ true
      → (meets w v.value && meets w v.is_null) ≡ false
  unfolding all
  exclusive v lifted e a =
      let one : meets w (z3.or (z3.neg v.value) (z3.neg v.is_null)) ≡ true =
        and_left _ true (ap (all (meets w)) e ∙ a) in
      ground (
        arith,
        or_law w (z3.neg v.value) (z3.neg v.is_null),
        neg_law w v.value,
        neg_law w v.is_null,
      )

  lift_to_tv_lem :
      (t : Term F) (tv : Tv F) (lifted : List F) (x : Truth)
      → lift_to_tv z3 t ≡ some (tv, lifted)
      → all (meets w) lifted ≡ true
      → TellsTerm meets w t x
      → Tells meets w tv x
  unfolding lift_to_tv
  lift_to_tv_lem (tv_term t) tv lifted x e a h =
      subst (λ z. Tells meets w z x) (ap (λ o. elim o [ none ↦ t | some p ↦ p.0 ]) e) h
  lift_to_tv_lem (val_term v) tv lifted x e a h = elim (Bool-cases v.unset) [
    | inl u ↦
        subst (λ z. Tells meets w z x)
          (ap (λ (p : Tv F × List F). p.0) (some_inj laws session w (rw u at e)))
          (ground (arith, h.0 u, bool_val_law w false, bool_val_law w true))
    | inr u ↦ elim (Bool-cases (z3.is_bool v.value)) [
      | inr k ↦ absurd (ground arith)
      | inl k ↦
          let pairs : (
            record { is_true = v.value; is_null = v.is_null },
            z3.or (z3.neg v.value) (z3.neg v.is_null) ∷ [],
          )
              ≡ (tv, lifted) =
            some_inj laws session w (rw (u, k) at e) in
          subst (λ z. Tells meets w z x) (ap (λ (p : Tv F × List F). p.0) pairs)
            (h.1 u (exclusive v lifted (ap (λ (p : Tv F × List F). p.1) pairs) a))
    ]
  ]

  combine-some :
      (op : BoolOp) (o : Option (List (Tv F) × List F)) (tv : Tv F) (raised : List F)
      → combine z3 op o ≡ some (tv, raised)
      → (tvs : List (Tv F)) × (o ≡ some (tvs, raised)) × (anon_boolexpr z3 op tvs ≡ some tv)
  unfolding combine
  combine-some op none tv raised e = absurd (ground arith)
  combine-some op (some (tvs, r)) tv raised e = elim (Option-cases (anon_boolexpr z3 op tvs)) [
    | inl f ↦ absurd (ground arith)
    | inr (x, f) ↦ (tvs, ground arith, ground arith)
  ]

  gather-some :
      (one : Option (Tv F × List F)) (o : Option (List (Tv F) × List F)) (tvs : List (Tv F))
      (raised : List F)
      → gather z3 one o ≡ some (tvs, raised)
      → (t : Tv F) × (a : List F) × (ts : List (Tv F)) × (b : List F) × (one ≡ some (t, a))
        × (o ≡ some (ts, b))
        × (t ∷ ts ≡ tvs)
        × (a ++ b ≡ raised)
  unfolding gather
  gather-some none o tvs raised e = absurd (ground arith)
  gather-some (some (t, a)) none tvs raised e = absurd (ground arith)
  gather-some (some (t, a)) (some (ts, b)) tvs raised e =
      (t, a, ts, b, refl, refl, ground arith, ground arith)

  lift_with-some :
      (o : Option (Term F × List F)) (tv : Tv F) (raised : List F)
      → lift_with z3 o ≡ some (tv, raised)
      → (t : Term F) × (r : List F) × (lifted : List F) × (o ≡ some (t, r))
        × (lift_to_tv z3 t ≡ some (tv, lifted))
        × (r ++ lifted ≡ raised)
  unfolding lift_with
  lift_with-some none tv raised e = absurd (ground arith)
  lift_with-some (some (t, r)) tv raised e = elim (Option-cases (lift_to_tv z3 t)) [
    | inl f ↦ absurd (ground arith)
    | inr ((x, lifted), f) ↦ (t, r, lifted, refl, ground arith, ground arith)
  ]

  mutual
    unfolding anon_tv anon_tvs eval

    tv_encodes :
        (n : Node) (tv : Tv F) (raised : List F)
        → anon_tv z3 session n ≡ some (tv, raised)
        → all (meets w) raised ≡ true
        → Tells meets w tv (eval (value session w) n)
    tv_encodes (bool_expr op ns) tv raised e a =
        let (tvs, f, g) = combine-some op (anon_tvs z3 session ns) tv raised e in
        boolexpr-Tells laws session w op tvs ns tv g (anon_tvs_encode ns tvs raised f a)
    tv_encodes (leaf s) tv raised e a =
        let (t, r, lifted, f, g, j) = lift_with-some (z3.leaf_term session s) tv raised e in
        let split = all-append (meets w) r lifted in
        let both : (all (meets w) r && all (meets w) lifted) ≡ true =
          sym split ∙ ap (all (meets w)) j ∙ a in
        lift_to_tv_lem t tv lifted (value session w s) g (and_right _ _ both)
          (leaf_law session s t r f w (and_left _ _ both))

    anon_tvs_encode :
        (ns : Nodes) (tvs : List (Tv F)) (raised : List F)
        → anon_tvs z3 session ns ≡ some (tvs, raised)
        → all (meets w) raised ≡ true
        → TellsAll laws session w tvs ns
    anon_tvs_encode nil tvs raised e a =
        subst (λ ts. TellsAll laws session w ts nil)
          (ap (λ (p : List (Tv F) × List F). p.0) (some_inj laws session w e)) tt
    anon_tvs_encode (cons n ns) tvs raised e a =
        let (t, r, ts, q, f, g, i, j) =
          gather-some (anon_tv z3 session n) (anon_tvs z3 session ns) tvs raised e in
        let split = all-append (meets w) r q in
        let both : (all (meets w) r && all (meets w) q) ≡ true =
          sym split ∙ ap (all (meets w)) j ∙ a in
        subst (λ us. TellsAll laws session w us (cons n ns)) i
          (tv_encodes n t r f (and_left _ _ both), anon_tvs_encode ns ts q g (and_right _ _ both))

  -- In a world that meets what the encoding of a clause asserts, the encoded pair says TRUE and
  -- NULL exactly where the clause has these values in SQL's three-valued logic. Z3's operators
  -- and the reading of the leaves keep their laws.
  pub anon_tv_encodes :
      (n : Node) (tv : Tv F) (raised : List F)
      → anon_tv z3 session n ≡ some (tv, raised)
      → all (meets w) raised ≡ true
      → Tells meets w tv (eval (value session w) n)
  anon_tv_encodes n tv raised e a = tv_encodes n tv raised e a

  module _
      (leaves : (s : String) (tv : Tv F) (raised : List F)
        → lift_with z3 (z3.leaf_term session s) ≡ some (tv, raised)
        → all (meets w) raised ≡ true) where
    -- A world that keeps to what the leaves assert keeps to what every clause asserts.
    mutual
      unfolding anon_tv anon_tvs all

      pub raised_hold :
          (n : Node) (tv : Tv F) (raised : List F)
          → anon_tv z3 session n ≡ some (tv, raised)
          → all (meets w) raised ≡ true
      raised_hold (bool_expr op ns) tv raised e =
          let (tvs, f, g) = combine-some op (anon_tvs z3 session ns) tv raised e in
          all_raised_hold ns tvs raised f
      raised_hold (leaf s) tv raised e = leaves s tv raised e

      all_raised_hold :
          (ns : Nodes) (tvs : List (Tv F)) (raised : List F)
          → anon_tvs z3 session ns ≡ some (tvs, raised)
          → all (meets w) raised ≡ true
      all_raised_hold nil tvs raised e =
          ap (λ (p : List (Tv F) × List F). all (meets w) p.1) (sym (some_inj laws session w e))
      all_raised_hold (cons n ns) tvs raised e =
          let (t, r, ts, q, f, g, i, j) =
            gather-some (anon_tv z3 session n) (anon_tvs z3 session ns) tvs raised e in
          let one = raised_hold n t r f in
          let rest = all_raised_hold ns ts q g in
          ap (all (meets w)) (sym j) ∙ all-append (meets w) r q ∙ ground (arith, one, rest)
