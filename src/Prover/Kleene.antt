-- ===== src/Prover/Kleene.antt =====
-- The encoding of a clause (src/pgrls/diff/_z3_compare.py, `_anon_3vl`, `_anon_boolexpr` and
-- `_lift_to_tv`) beside SQL's three-valued logic.
use pgrls.Prelude.{
  nat_eq, string_eq, bool_eq, pair_eq, option_eq, all, String, ◌≡◌, sym, ap, subst, Bool, true,
  false, ◌&&◌, ◌||◌, not, none, some, List, [], ◌∷◌, arith,
}
use pgrls.Sql.{Node, Nodes, BoolOp, bool_expr, nil, cons, and_expr, or_expr, not_expr}
use pgrls.Sql.Truth.{
  Truth, holds, fails, null, conj, disj, negate, eval, eval_all, eval_any, is_true,
}
use pgrls.Prover.{
  Tv, Term, tv_term, val_term, Z3, sat, unsat, kleene_and, kleene_or, kleene_not, fold_tvs,
  anon_boolexpr,
}

abbrev pub is_null : Truth → Bool
is_null holds = false
is_null fails = false
is_null null = true

-- The pair says of the world what the truth says.
abbrev pub Tells : {W F : Type 0} → (W → F → Bool) → W → Tv F → Truth → Type 0
Tells meets w tv x = (meets w tv.is_true ≡ is_true x) × (meets w tv.is_null ≡ is_null x)

-- What a scalar says of the world: its flag is NULL, its value TRUE, unless it is both; a scalar
-- that is unset raises an error, so it admits nothing.
abbrev pub TellsTerm : {W F : Type 0} → (W → F → Bool) → W → Term F → Truth → Type 0
TellsTerm meets w (tv_term t) x = Tells meets w t x
TellsTerm meets w (val_term v) x =
    (v.unset ≡ true → x ≡ null)
    × (v.unset ≡ false
        → (meets w v.value && meets w v.is_null) ≡ false
        → (meets w v.value ≡ is_true x) × (meets w v.is_null ≡ is_null x))

-- What is asked of Z3: the worlds are its assignments, UNSAT means that none meets the formulas and
-- SAT that some does, and a node that is no Boolean operator is read as it is in the session.
-- `value` is the value of such a node in a world.
pub record Laws {F S : Type 0} (z3 : Z3 F S) : Type 1 where
  pub World : Type 0
  pub meets : World → F → Bool
  pub value : S → World → String → Truth
  pub bool_val_law : (w : World) (b : Bool) → meets w (z3.bool_val b) ≡ b
  pub and_law : (w : World) (f g : F) → meets w (z3.and f g) ≡ (meets w f && meets w g)
  pub or_law : (w : World) (f g : F) → meets w (z3.or f g) ≡ (meets w f || meets w g)
  pub neg_law : (w : World) (f : F) → meets w (z3.neg f) ≡ not (meets w f)
  pub unsat_law : (fs : List F) → z3.check fs ≡ unsat → (w : World) → all (meets w) fs ≡ false
  pub sat_law : (fs : List F) → z3.check fs ≡ sat → (w : World) × (all (meets w) fs ≡ true)
  pub leaf_law :
      (session : S) (s : String) (t : Term F) (raised : List F)
      → z3.leaf_term session s ≡ some (t, raised)
      → (w : World) → all (meets w) raised ≡ true
      → TellsTerm meets w t (value session w s)

conj_holds : (a : Truth) → conj a holds ≡ a
unfolding conj
conj_holds a = ground arith

conj_assoc : (a b c : Truth) → conj (conj a b) c ≡ conj a (conj b c)
unfolding conj
conj_assoc a b c = ground arith

disj_fails : (a : Truth) → disj a fails ≡ a
unfolding disj
disj_fails a = ground arith

disj_assoc : (a b c : Truth) → disj (disj a b) c ≡ disj a (disj b c)
unfolding disj
disj_assoc a b c = ground arith

module _ {F S : Type 0} {z3 : Z3 F S} (laws : Laws z3) where
  open laws use {World, meets, value, bool_val_law, and_law, or_law, neg_law, leaf_law}

  kleene_and_null :
      (w : World) (x y : Tv F)
      → meets w (kleene_and z3 x y).is_null ≡ (
          meets w x.is_null && not (not (meets w y.is_true) && not (meets w y.is_null))
          || meets w y.is_null && not (not (meets w x.is_true) && not (meets w x.is_null)))
  unfolding kleene_and
  kleene_and_null w x y = simp (and_law w, or_law w, neg_law w)

  kleene_and_lem :
      (w : World) (x y : Tv F) (a b : Truth)
      → Tells meets w x a
      → Tells meets w y b
      → Tells meets w (kleene_and z3 x y) (conj a b)
  unfolding kleene_and conj
  kleene_and_lem w x y a b h k =
      ground (arith, and_law w x.is_true y.is_true, kleene_and_null w x y)

  kleene_or_null :
      (w : World) (x y : Tv F)
      → meets w (kleene_or z3 x y).is_null ≡ (
          (meets w x.is_null || meets w y.is_null)
          && not (meets w x.is_true)
          && not (meets w y.is_true))
  unfolding kleene_or
  kleene_or_null w x y = simp (and_law w, or_law w, neg_law w)

  kleene_or_lem :
      (w : World) (x y : Tv F) (a b : Truth)
      → Tells meets w x a
      → Tells meets w y b
      → Tells meets w (kleene_or z3 x y) (disj a b)
  unfolding kleene_or disj
  kleene_or_lem w x y a b h k = ground (arith, or_law w x.is_true y.is_true, kleene_or_null w x y)

  kleene_not_lem :
      (w : World) (x : Tv F) (a : Truth)
      → Tells meets w x a
      → Tells meets w (kleene_not z3 x) (negate a)
  unfolding kleene_not negate
  kleene_not_lem w x a h = ground (
    arith,
    and_law w (z3.neg x.is_true) (z3.neg x.is_null),
    neg_law w x.is_true,
    neg_law w x.is_null,
  )

  module _ (session : S) (w : World) where
    abbrev pub told : Node → Truth
    told n = eval (value session w) n

    abbrev pub TellsAll : List (Tv F) → Nodes → Type 0
    TellsAll [] nil = Unit
    TellsAll [] (cons n ns) = ⊥
    TellsAll (t ∷ ts) nil = ⊥
    TellsAll (t ∷ ts) (cons n ns) = Tells meets w t (told n) × TellsAll ts ns

    fold_and :
        (acc : Tv F) (a : Truth) (ts : List (Tv F)) (ns : Nodes)
        → Tells meets w acc a
        → TellsAll ts ns
        → Tells meets w
            (fold_tvs z3 (kleene_and z3) acc ts)
            (conj a (eval_all (value session w) ns))
    unfolding fold_tvs eval
    fold_and acc a [] nil h k = subst (Tells meets w acc) (sym (conj_holds a)) h
    fold_and acc a [] (cons n ns) h k = elim k [ ]
    fold_and acc a (t ∷ ts) nil h k = elim k [ ]
    fold_and acc a (t ∷ ts) (cons n ns) h k =
        let both = kleene_and_lem w acc t a (told n) h k.0 in
        let rest = eval_all (value session w) ns in
        subst (Tells meets w (fold_tvs z3 (kleene_and z3) (kleene_and z3 acc t) ts))
          (conj_assoc a (told n) rest)
          (fold_and (kleene_and z3 acc t) (conj a (told n)) ts ns both k.1)

    fold_or :
        (acc : Tv F) (a : Truth) (ts : List (Tv F)) (ns : Nodes)
        → Tells meets w acc a
        → TellsAll ts ns
        → Tells meets w (fold_tvs z3 (kleene_or z3) acc ts) (disj a (eval_any (value session w) ns))
    unfolding fold_tvs eval
    fold_or acc a [] nil h k = subst (Tells meets w acc) (sym (disj_fails a)) h
    fold_or acc a [] (cons n ns) h k = elim k [ ]
    fold_or acc a (t ∷ ts) nil h k = elim k [ ]
    fold_or acc a (t ∷ ts) (cons n ns) h k =
        let both = kleene_or_lem w acc t a (told n) h k.0 in
        let rest = eval_any (value session w) ns in
        subst (Tells meets w (fold_tvs z3 (kleene_or z3) (kleene_or z3 acc t) ts))
          (disj_assoc a (told n) rest)
          (fold_or (kleene_or z3 acc t) (disj a (told n)) ts ns both k.1)

    pub some_inj : {A : Type 0} {a b : A} → some a ≡ some b → a ≡ b
    some_inj {A} {a} e = ap (λ o. elim o [ none ↦ a | some c ↦ c ]) e

    pub boolexpr-Tells :
        (op : BoolOp) (ts : List (Tv F)) (ns : Nodes) (tv : Tv F)
        → anon_boolexpr z3 op ts ≡ some tv
        → TellsAll ts ns
        → Tells meets w tv (told (bool_expr op ns))
    unfolding anon_boolexpr eval
    boolexpr-Tells op [] ns tv e k = absurd (ground arith)
    boolexpr-Tells op (t ∷ ts) nil tv e k = elim k [ ]
    boolexpr-Tells not_expr (t ∷ []) (cons n nil) tv e k =
        subst (λ z. Tells meets w z (negate (conj (told n) holds))) (some_inj e)
          (kleene_not_lem w t (conj (told n) holds)
            (subst (Tells meets w t) (sym (conj_holds (told n))) k.0))
    boolexpr-Tells not_expr (t ∷ []) (cons n (cons m ns)) tv e k = elim k.1 [ ]
    boolexpr-Tells not_expr (t ∷ s ∷ ts) (cons n ns) tv e k = absurd (ground arith)
    boolexpr-Tells and_expr (t ∷ ts) (cons n ns) tv e k =
        subst (λ z. Tells meets w z (conj (told n) (eval_all (value session w) ns))) (some_inj e)
          (fold_and t (told n) ts ns k.0 k.1)
    boolexpr-Tells or_expr (t ∷ ts) (cons n ns) tv e k =
        subst (λ z. Tells meets w z (disj (told n) (eval_any (value session w) ns))) (some_inj e)
          (fold_or t (told n) ts ns k.0 k.1)
