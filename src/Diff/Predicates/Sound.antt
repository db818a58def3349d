-- ===== src/Diff/Predicates/Sound.antt =====
-- What the comparison of two clauses promises of the rows that they admit.
use pgrls.Prelude.{
  if◌then◌else◌, ==→eq, nat_eq, string_eq, bool_eq, pair_eq, option_eq, any, all, In,
  In-append_left, In-append_right, any-In, In-any, all-In, In-all, In-map, map-In, here, there,
  subset, strict_subset, subset-In, String, ◌≡◌, refl, sym, subst, ◌∙◌, Bool, true, false, Option,
  none, some, List, ◌∷◌, ◌++◌, arith,
}
use pgrls.Sql.{Sql, Node, bool_expr, leaf, and_expr, or_expr, not_expr}
use pgrls.Sql.Truth.{Truth, admits, admits-and, admits-or}
use pgrls.Sql.Keys.{canonical_key, TellsApart, canonical_key_sound}
use pgrls.Diff.Predicates.Solved.{Promise, Promised, SolverLaws, IsNonNull, classify_via_z3_sound}
use pgrls.Diff.Predicates.{
  Comparison, unchanged, tightened_and, loosened_and_drop, loosened_or, tightened_or_drop,
  requires_review, Solver, and_clauses, or_clauses, one_more, classify_via_z3, keys, compare_nodes,
}

-- Every tree whose key a comparison of two clauses reads.
abbrev pub parts : Node → Node → List Node
parts m n = m ∷ n ∷ (and_clauses m ++ and_clauses n) ++ (or_clauses m ++ or_clauses n)

inside :
    (m n : Node) {z : Node}
    → In z ((and_clauses m ++ and_clauses n) ++ (or_clauses m ++ or_clauses n))
    → In z (parts m n)
inside m n i = there (there i)

and_clauses_lem :
    (value : String → Truth) (n : Node) → admits value n ≡ all (admits value) (and_clauses n)
unfolding and_clauses all
and_clauses_lem value (bool_expr and_expr ns) = admits-and value ns
and_clauses_lem value (bool_expr or_expr ns) = ground arith
and_clauses_lem value (bool_expr not_expr ns) = ground arith
and_clauses_lem value (leaf s) = ground arith

or_clauses_lem :
    (value : String → Truth) (n : Node) → admits value n ≡ any (admits value) (or_clauses n)
unfolding or_clauses any
or_clauses_lem value (bool_expr or_expr ns) = admits-or value ns
or_clauses_lem value (bool_expr and_expr ns) = ground arith
or_clauses_lem value (bool_expr not_expr ns) = ground arith
or_clauses_lem value (leaf s) = ground arith

-- Nodes with equal keys have equal values.
module _ {F C : Type 0} (solver : Solver F C) (sql : Sql) (laws : SolverLaws solver)
    (w : laws.World) where
  abbrev value : String → Truth
  value = laws.value w

  module _ (nodes : List Node) (apart : TellsApart sql nodes) where
    same_key :
        {xs ys : List Node} {x : Node}
        → ((z : Node) → In z xs → In z nodes)
        → ((z : Node) → In z ys → In z nodes)
        → subset (keys solver sql xs) (keys solver sql ys) ≡ true
        → In x xs
        → (y : Node) × In y ys × (admits value x ≡ admits value y)
    unfolding keys
    same_key {xs} {ys} {x} f g h m =
        let (y, n, k) =
          map-In (canonical_key sql) ys (subset-In _ _ h (In-map (canonical_key sql) m)) in
        (y, n, canonical_key_sound apart x y (f x m) (g y n) k value)

    fewer_and :
        (xs ys : List Node)
        → ((z : Node) → In z xs → In z nodes)
        → ((z : Node) → In z ys → In z nodes)
        → subset (keys solver sql xs) (keys solver sql ys) ≡ true
        → all (admits value) ys ≡ true
        → all (admits value) xs ≡ true
    fewer_and xs ys f g h a =
        In-all (admits value) xs
          (λ x m. let (y, n, k) = same_key f g h m in k ∙ all-In (admits value) ys a n)

    fewer_or :
        (xs ys : List Node)
        → ((z : Node) → In z xs → In z nodes)
        → ((z : Node) → In z ys → In z nodes)
        → subset (keys solver sql xs) (keys solver sql ys) ≡ true
        → any (admits value) xs ≡ true
        → any (admits value) ys ≡ true
    fewer_or xs ys f g h a =
        let (x, m, t) = any-In (admits value) xs a in
        let (y, n, k) = same_key f g h m in In-any (admits value) ys n (sym k ∙ t)

  one_more-subset : (a b : List String) → one_more a b ≡ true → subset a b ≡ true
  unfolding one_more strict_subset
  one_more-subset a b h = ground arith

  abbrev first_of : Bool → Bool → Bool → Bool → Bool → Option Comparison → Comparison
  first_of e a b c d z =
      if e
      then unchanged
      else if a
      then tightened_and
      else if b
      then loosened_and_drop
      else if c
      then loosened_or
      else if d
      then tightened_or_drop
      else elim z [ some r ↦ r | none ↦ requires_review ]

  -- The first test that holds names the result; the solver's stands where none does.
  first_result :
      (e a b c d : Bool) (z : Option Comparison) (base head : Bool)
      → (e ≡ true → base ≡ head)
      → (a ≡ true → head ≡ true → base ≡ true)
      → (b ≡ true → base ≡ true → head ≡ true)
      → (c ≡ true → base ≡ true → head ≡ true)
      → (d ≡ true → head ≡ true → base ≡ true)
      → ((r : Comparison) → z ≡ some r → first_of e a b c d z ≡ r → Promise r base head)
      → Promise (first_of e a b c d z) base head
  first_result true a b c d z base head f g h i j k = f refl
  first_result false true b c d z base head f g h i j k = g refl
  first_result false false true c d z base head f g h i j k = h refl
  first_result false false false true d z base head f g h i j k = i refl
  first_result false false false false true z base head f g h i j k = j refl
  first_result false false false false false none base head f g h i j k = tt
  first_result false false false false false (some r) base head f g h i j k = k r refl refl

  module _ (m n : Node) (apart : TellsApart sql (parts m n)) where
    and_step :
        (x y : Node)
        → ((z : Node) → In z (and_clauses x) → In z (parts m n))
        → ((z : Node) → In z (and_clauses y) → In z (parts m n))
        → one_more (keys solver sql (and_clauses x)) (keys solver sql (and_clauses y)) ≡ true
        → admits value y ≡ true
        → admits value x ≡ true
    and_step x y f g k t =
        and_clauses_lem value x
        ∙ fewer_and (parts m n) apart _ _ f g (one_more-subset _ _ k)
            (sym (and_clauses_lem value y) ∙ t)

    or_step :
        (x y : Node)
        → ((z : Node) → In z (or_clauses x) → In z (parts m n))
        → ((z : Node) → In z (or_clauses y) → In z (parts m n))
        → one_more (keys solver sql (or_clauses x)) (keys solver sql (or_clauses y)) ≡ true
        → admits value x ≡ true
        → admits value y ≡ true
    or_step x y f g k t =
        or_clauses_lem value y
        ∙ fewer_or (parts m n) apart _ _ f g (one_more-subset _ _ k)
            (sym (or_clauses_lem value x) ∙ t)

    ands_m : (z : Node) → In z (and_clauses m) → In z (parts m n)
    ands_m z i = inside m n (In-append_left _ _ (In-append_left _ _ i))

    ands_n : (z : Node) → In z (and_clauses n) → In z (parts m n)
    ands_n z i = inside m n (In-append_left _ _ (In-append_right (and_clauses m) _ i))

    ors_m : (z : Node) → In z (or_clauses m) → In z (parts m n)
    ors_m z i =
        inside m n (In-append_right (and_clauses m ++ and_clauses n) _ (In-append_left _ _ i))

    ors_n : (z : Node) → In z (or_clauses n) → In z (parts m n)
    ors_n z i =
        inside m n
          (In-append_right (and_clauses m ++ and_clauses n) _ (In-append_right (or_clauses m) _ i))

    -- The result of a comparison is right for the row, where no leaf is NULL if the solver gave it.
    pub compare_nodes_sound :
        ((r : Comparison)
          → classify_via_z3 solver m n ≡ some r
          → compare_nodes solver sql m n ≡ r
          → IsNonNull value m × IsNonNull value n)
        → Promise (compare_nodes solver sql m n) (admits value m) (admits value n)
    unfolding compare_nodes
    compare_nodes_sound known =
        first_result _ _ _ _ _ _ _ _
          (λ k. canonical_key_sound apart m n (here refl) (there (here refl)) (==→eq _ _ k) value)
          (and_step m n ands_m ands_n) (and_step n m ands_n ands_m) (or_step m n ors_m ors_n)
          (or_step n m ors_n ors_m)
          (λ r e f.
            let (km, kn) = known r e f in
            subst (λ z. Promised z (admits value m) (admits value n)) e
              (classify_via_z3_sound solver laws w m n km kn))
