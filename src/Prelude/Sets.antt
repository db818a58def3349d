-- ===== src/Prelude/Sets.antt =====
-- Python's sets as lists under a Boolean membership test, `sorted`, and dicts built by
-- comprehensions, where a later entry for a key wins.
use mathlib.Core.Path.{◌≡◌, refl, ap, subst, sym}
use mathlib.Core.Logic.{inl, inr}
use mathlib.Core.Bool.{Bool, true, false, ◌&&◌, ◌||◌, not}
use mathlib.Core.Option.{Option, none, some}
use mathlib.Core.List.{map, List, [], ◌∷◌, ◌++◌}
use native.Mathlib.Omega.{arith}
use pgrls.Prelude.Tests.{==_refl, Eq, ◌==◌, ==→eq, Bool-cases, Option-cases, if◌then◌else◌}
use pgrls.Prelude.Lists.{
  is_empty, In-map, In-cons, In-cons_mono, In-swap, In, here, there, all, all-In, In-all, filter,
}

module _ {ℓ} {A : Type ℓ} ⦃e : Eq A⦄ where
  -- `x in xs`
  unfoldable pub contains : A → List A → Bool
  contains a [] = false
  contains a (x ∷ xs) = a == x || contains a xs

  -- `set(xs)`: of equal elements the last is kept.
  unfoldable pub dedup : List A → List A
  dedup [] = []
  dedup (x ∷ xs) = let rest = dedup xs in if contains x rest then rest else x ∷ rest

  -- `a - b`
  unfoldable pub difference : List A → List A → List A
  difference xs ys = filter (λ x. not (contains x ys)) xs

  -- `a <= b`
  unfoldable pub subset : List A → List A → Bool
  subset xs ys = all (λ x. contains x ys) xs

  -- `a == b`, and the strict `a < b`
  unfoldable pub same_set : List A → List A → Bool
  same_set xs ys = subset xs ys && subset ys xs

  unfoldable pub strict_subset : List A → List A → Bool
  strict_subset xs ys = subset xs ys && not (subset ys xs)

  -- `a & b` as a test
  unfoldable pub intersects : List A → List A → Bool
  intersects [] ys = false
  intersects (x ∷ xs) ys = contains x ys || intersects xs ys

  pub contains-In : (a : A) (xs : List A) → contains a xs ≡ true → In a xs
  unfolding contains
  contains-In a [] h = absurd (ground arith)
  contains-In a (x ∷ xs) h = elim (Bool-cases (a == x)) [
    | inl k ↦ here (==→eq a x k)
    | inr k ↦ there (contains-In a xs (ground arith))
  ]

  pub In-contains : {a : A} (xs : List A) → In a xs → contains a xs ≡ true
  unfolding contains
  In-contains [] m = elim m [ ]
  In-contains {a} (x ∷ xs) (here k) = ground (arith, (e.eqb_iff a x).1 k)
  In-contains (x ∷ xs) (there m) = ground (arith, In-contains xs m)

  pub contains_head : (a : A) (xs : List A) → contains a (a ∷ xs) ≡ true
  unfolding contains
  contains_head a xs = ground (arith, ==_refl a)

  pub contains_cons :
      (r : A) (xs : List A) (a : A) → contains a xs ≡ true → contains a (r ∷ xs) ≡ true
  unfolding contains
  contains_cons r xs a h = ground arith

  pub contains-append :
      (a : A) (xs ys : List A) → contains a (xs ++ ys) ≡ (contains a xs || contains a ys)
  unfolding contains
  contains-append a [] ys = refl
  contains-append a (x ∷ xs) ys = ground (arith, contains-append a xs ys)

  pub In-subset : (xs ys : List A) → ((x : A) → In x xs → In x ys) → subset xs ys ≡ true
  unfolding subset
  In-subset xs ys h = In-all _ xs (λ x m. In-contains ys (h x m))

  pub subset-In : {x : A} (xs ys : List A) → subset xs ys ≡ true → In x xs → In x ys
  unfolding subset
  subset-In {x} xs ys h m = contains-In x ys (all-In _ xs h m)

  pub intersects-In : (xs ys : List A) → intersects xs ys ≡ true → (x : A) × In x xs × In x ys
  unfolding intersects
  intersects-In [] ys h = absurd (ground arith)
  intersects-In (x ∷ xs) ys h = elim (Bool-cases (contains x ys)) [
    | inl k ↦ (x, here refl, contains-In x ys k)
    | inr k ↦ let (z, m, n) = intersects-In xs ys (ground arith) in (z, there m, n)
  ]

  pub In-intersects : {x : A} (xs ys : List A) → In x xs → In x ys → intersects xs ys ≡ true
  unfolding intersects
  In-intersects [] ys m n = elim m [ ]
  In-intersects {x} (z ∷ xs) ys (here k) n =
      ground (arith, In-contains ys n, ap (λ w. contains w ys) k)
  In-intersects (z ∷ xs) ys (there m) n = ground (arith, In-intersects xs ys m n)

  pub In-dedup : {a : A} (xs : List A) → In a (dedup xs) → In a xs
  unfolding dedup
  In-dedup [] m = m
  In-dedup (x ∷ xs) m = elim (Bool-cases (contains x (dedup xs))) [
    | inl k ↦ there (In-dedup xs (rw k at m))
    | inr k ↦ In-cons_mono (In-dedup xs) (rw k at m)
  ]

  pub dedup-In : {a : A} (xs : List A) → In a xs → In a (dedup xs)
  unfolding dedup
  dedup-In [] m = m
  dedup-In {a} (x ∷ xs) (here i) = elim (Bool-cases (contains x (dedup xs))) [
    | inl k ↦ rw (k, i) (contains-In x (dedup xs) k)
    | inr k ↦ rw k (here i)
  ]
  dedup-In {a} (x ∷ xs) (there m) = elim (Bool-cases (contains x (dedup xs))) [
    | inl k ↦ rw k (dedup-In xs m)
    | inr k ↦ rw k (there (dedup-In xs m))
  ]

  pub is_empty-dedup : (xs : List A) → is_empty (dedup xs) ≡ is_empty xs
  unfolding dedup
  is_empty-dedup [] = refl
  is_empty-dedup (x ∷ xs) = elim (Bool-cases (contains x (dedup xs))) [
    | inr k ↦ rw k
    | inl k ↦ rw k (some_left (dedup xs) (contains-In x (dedup xs) k))
  ]
    where
      some_left : (ys : List A) → In x ys → is_empty ys ≡ false
      some_left [] m = elim m [ ]
      some_left (y ∷ ys) m = refl

module _ {ℓ} {A : Type ℓ} (le : A → A → Bool) where
  -- `sorted`: insertion before the first element that is not smaller keeps equal ones in order.
  unfoldable pub insert_by : A → List A → List A
  insert_by x [] = x ∷ []
  insert_by x (y ∷ ys) = let rest = insert_by x ys in if le x y then x ∷ y ∷ ys else y ∷ rest

  unfoldable pub sort_by : List A → List A
  unfolding insert_by
  sort_by [] = []
  sort_by (x ∷ xs) = insert_by x (sort_by xs)

  pub is_empty-sort_by : (xs : List A) → is_empty (sort_by xs) ≡ is_empty xs
  unfolding sort_by
  is_empty-sort_by [] = refl
  is_empty-sort_by (x ∷ xs) = inserted (sort_by xs)
    where
      inserted : (ys : List A) → is_empty (insert_by x ys) ≡ false
      inserted [] = refl
      inserted (y ∷ ys) = ground arith

  insert_by-In : {a x : A} (ys : List A) → In a (x ∷ ys) → In a (insert_by x ys)
  unfolding insert_by
  insert_by-In [] m = m
  insert_by-In {x = x} (y ∷ ys) m = elim (Bool-cases (le x y)) [
    | inl k ↦ rw k m
    | inr k ↦ rw k (In-cons_mono (insert_by-In ys) (In-swap m))
  ]

  In-insert_by : {a x : A} (ys : List A) → In a (insert_by x ys) → In a (x ∷ ys)
  unfolding insert_by
  In-insert_by [] m = m
  In-insert_by {x = x} (y ∷ ys) m = elim (Bool-cases (le x y)) [
    | inl k ↦ rw k at m
    | inr k ↦ In-swap (In-cons_mono (In-insert_by ys) (rw k at m))
  ]

  pub sort_by-In : {a : A} (xs : List A) → In a xs → In a (sort_by xs)
  unfolding sort_by
  sort_by-In [] m = m
  sort_by-In (x ∷ xs) (here i) = insert_by-In (sort_by xs) (here i)
  sort_by-In (x ∷ xs) (there m) = insert_by-In (sort_by xs) (there (sort_by-In xs m))

  pub In-sort_by : {a : A} (xs : List A) → In a (sort_by xs) → In a xs
  unfolding sort_by
  In-sort_by [] m = m
  In-sort_by (x ∷ xs) m = In-cons_mono (In-sort_by xs) (In-insert_by (sort_by xs) m)

module _ {ℓ κ} {K : Type κ} {A : Type ℓ} ⦃e : Eq K⦄ (key : A → K) where
  -- `{key(x): x for x in xs}.get(k)`
  unfoldable pub find_last : K → List A → Option A
  find_last k [] = none
  find_last k (x ∷ xs) =
      let rest = find_last k xs in
      elim rest [ some y ↦ some y | none ↦ if key x == k then some x else none ]

  pub find_last-In : (k : K) (xs : List A) {x : A} → find_last k xs ≡ some x → In x xs × (key x ≡ k)
  unfolding find_last
  find_last-In k [] h = absurd (ground arith)
  find_last-In k (y ∷ ys) {x} h = elim (Option-cases (find_last k ys)) [
    | inr (z, f) ↦
        let (m, i) = find_last-In k ys f in
        let j : z ≡ x = ground arith in
        (subst (λ w. In w (y ∷ ys)) j (there m), subst (λ w. key w ≡ k) j i)
    | inl f ↦ elim (Bool-cases (key y == k)) [
      | inl c ↦
          let j : y ≡ x = ground arith in
          (here (sym j), subst (λ w. key w ≡ k) j (==→eq (key y) k c))
      | inr c ↦ absurd (ground arith)
    ]
  ]

  -- A key that an entry has is found.
  pub In-find_last : {x : A} (xs : List A) → In x xs → (y : A) × (find_last (key x) xs ≡ some y)
  unfolding find_last
  In-find_last [] m = elim m [ ]
  In-find_last {x} (z ∷ xs) m = elim (Option-cases (find_last (key x) xs)) [
    | inr (y, f) ↦ (y, ground arith)
    | inl f ↦ elim (In-cons m) [
      | inl i ↦ (z, ground (arith, (e.eqb_iff (key z) (key x)).1 (sym (ap key i))))
      | inr n ↦ let (y, g) = In-find_last xs n in absurd (ground arith)
    ]
  ]

  -- No two entries share a key.
  abbrev pub Distinct : List A → Type 0
  Distinct [] = Unit
  Distinct (x ∷ xs) = (contains (key x) (map key xs) ≡ false) × Distinct xs

  pub find_last-Distinct :
      {x : A} (xs : List A) → Distinct xs → In x xs → find_last (key x) xs ≡ some x
  unfolding find_last
  find_last-Distinct [] d m = elim m [ ]
  find_last-Distinct {x} (y ∷ ys) d (there m) = rw (find_last-Distinct ys d.1 m, find_last)
  find_last-Distinct {x} (y ∷ ys) d (here i) = elim (Option-cases (find_last (key x) ys)) [
    | inl f ↦ ground (arith, (e.eqb_iff (key y) (key x)).1 (sym (ap key i)), i)
    | inr (z, f) ↦
        let (m, j) = find_last-In (key x) ys f in
        let inside = In-contains (map key ys) (In-map key m) in
        absurd (ground (arith, inside, j, ap key i, d.0))
  ]
