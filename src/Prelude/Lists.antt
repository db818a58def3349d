-- ===== src/Prelude/Lists.antt =====
-- Lists with Boolean membership, the Python comprehensions over them, and a stable sort.
use Prim.Native.Nat.{ℕ, suc, ◌+◌}
use mathlib.Core.Path.{◌≡◌, refl, ap, subst, ◌∙◌}
use mathlib.Core.Logic.{◌⊎◌, inl, inr}
use mathlib.Core.Bool.{Bool, true, false, ◌&&◌, ◌||◌, not}
use mathlib.Core.List.{List, [], ◌∷◌, ◌++◌, map}
use native.Mathlib.Omega.{arith}
use pgrls.Prelude.Tests.{Bool-cases, if◌then◌else◌}

module _ {ℓ} {A : Type ℓ} where
  abbrev pub length : List A → ℕ
  length [] = 0
  length (x ∷ xs) = suc (length xs)

  pub length-append : (xs ys : List A) → length (xs ++ ys) ≡ length xs + length ys
  length-append [] ys = omega arith
  length-append (x ∷ xs) ys = omega (arith, length-append xs ys)

  abbrev pub is_empty : List A → Bool
  is_empty [] = true
  is_empty (x ∷ xs) = false

  unfoldable pub any : (A → Bool) → List A → Bool
  any p [] = false
  any p (x ∷ xs) = p x || any p xs

  unfoldable pub all : (A → Bool) → List A → Bool
  all p [] = true
  all p (x ∷ xs) = p x && all p xs

  -- `[x for x in xs if p(x)]`
  unfoldable pub filter : (A → Bool) → List A → List A
  filter p [] = []
  filter p (x ∷ xs) = let rest = filter p xs in if p x then x ∷ rest else rest

  pub is_empty-append : (xs ys : List A) → is_empty (xs ++ ys) ≡ (is_empty xs && is_empty ys)
  is_empty-append [] ys = refl
  is_empty-append (x ∷ xs) ys = refl

  pub any-append : (p : A → Bool) (xs ys : List A) → any p (xs ++ ys) ≡ (any p xs || any p ys)
  unfolding any
  any-append p [] ys = refl
  any-append p (x ∷ xs) ys = ground (arith, any-append p xs ys)

  pub all-append : (p : A → Bool) (xs ys : List A) → all p (xs ++ ys) ≡ (all p xs && all p ys)
  unfolding all
  all-append p [] ys = refl
  all-append p (x ∷ xs) ys = ground (arith, all-append p xs ys)

  pub is_empty-filter : (p : A → Bool) (xs : List A) → is_empty (filter p xs) ≡ not (any p xs)
  unfolding filter any
  is_empty-filter p [] = refl
  is_empty-filter p (x ∷ xs) = ground (arith, is_empty-filter p xs)

  -- The elements of a list as a type: a position and what stands there.
  pub data In (x : A) : List A → Type ℓ where
    here : {y : A} {ys : List A} → x ≡ y → In x (y ∷ ys)
    there : {y : A} {ys : List A} → In x ys → In x (y ∷ ys)

  pub In-cons : {x y : A} {ys : List A} → In x (y ∷ ys) → (x ≡ y) ⊎ In x ys
  In-cons (here i) = inl i
  In-cons (there m) = inr m

  -- Membership grows under a shared head.
  pub In-cons_mono :
      {x y : A} {xs ys : List A} → (In x xs → In x ys) → In x (y ∷ xs) → In x (y ∷ ys)
  In-cons_mono f (here i) = here i
  In-cons_mono f (there m) = there (f m)

  pub In-swap : {x y z : A} {ys : List A} → In x (y ∷ z ∷ ys) → In x (z ∷ y ∷ ys)
  In-swap (here i) = there (here i)
  In-swap (there (here i)) = here i
  In-swap (there (there m)) = there (there m)

  pub In-append : {x : A} (xs ys : List A) → In x (xs ++ ys) → In x xs ⊎ In x ys
  In-append [] ys h = inr h
  In-append (z ∷ xs) ys (here e) = inl (here e)
  In-append (z ∷ xs) ys (there h) = elim (In-append xs ys h) [
    | inl k ↦ inl (there k)
    | inr k ↦ inr k
  ]

  pub In-append_left : {x : A} (xs ys : List A) → In x xs → In x (xs ++ ys)
  In-append_left [] ys h = elim h [ ]
  In-append_left (z ∷ xs) ys (here e) = here e
  In-append_left (z ∷ xs) ys (there h) = there (In-append_left xs ys h)

  pub In-append_right : {x : A} (xs ys : List A) → In x ys → In x (xs ++ ys)
  In-append_right [] ys h = h
  In-append_right (z ∷ xs) ys h = there (In-append_right xs ys h)

  pub any-In : (p : A → Bool) (xs : List A) → any p xs ≡ true → (x : A) × In x xs × (p x ≡ true)
  unfolding any
  any-In p [] h = absurd (ground arith)
  any-In p (x ∷ xs) h = elim (Bool-cases (p x)) [
    | inl e ↦ (x, here refl, e)
    | inr e ↦ let (y, m, k) = any-In p xs (ground arith) in (y, there m, k)
  ]

  pub In-any : (p : A → Bool) {x : A} (xs : List A) → In x xs → p x ≡ true → any p xs ≡ true
  unfolding any
  In-any p [] m h = elim m [ ]
  In-any p {x} (y ∷ xs) (here e) h = ground (arith, ap p e)
  In-any p (y ∷ xs) (there m) h = ground (arith, In-any p xs m h)

  pub all-In : (p : A → Bool) {x : A} (xs : List A) → all p xs ≡ true → In x xs → p x ≡ true
  unfolding all
  all-In p [] h m = elim m [ ]
  all-In p {x} (y ∷ xs) h (here e) = ground (arith, ap p e)
  all-In p (y ∷ xs) h (there m) = all-In p xs (ground arith) m

  pub In-all : (p : A → Bool) (xs : List A) → ((x : A) → In x xs → p x ≡ true) → all p xs ≡ true
  unfolding all
  In-all p [] h = refl
  In-all p (x ∷ xs) h = ground (arith, h x (here refl), In-all p xs (λ y m. h y (there m)))

  pub In-filter : (p : A → Bool) {x : A} (xs : List A) → In x (filter p xs) → In x xs × (p x ≡ true)
  unfolding filter
  In-filter p [] h = elim h [ ]
  In-filter p {x} (y ∷ xs) h = elim (Bool-cases (p y)) [
    | inl e ↦ elim (In-cons (rw e at h)) [
      | inl i ↦ (here i, ap p i ∙ e)
      | inr m ↦ let (k, j) = In-filter p xs m in (there k, j)
    ]
    | inr e ↦ let (m, k) = In-filter p xs (rw e at h) in (there m, k)
  ]

  pub filter-In : (p : A → Bool) {x : A} (xs : List A) → In x xs → p x ≡ true → In x (filter p xs)
  unfolding filter
  filter-In p [] m h = elim m [ ]
  filter-In p {x} (y ∷ xs) (here i) h = rw (← i, h) (here refl)
  filter-In p (y ∷ xs) (there m) h = elim (Bool-cases (p y)) [
    | inl e ↦ rw e (there (filter-In p xs m h))
    | inr e ↦ rw e (filter-In p xs m h)
  ]

module _ {ℓ κ} {A : Type ℓ} {B : Type κ} (f : A → B) where
  pub length-map : (xs : List A) → length (map f xs) ≡ length xs
  length-map [] = refl
  length-map (x ∷ xs) = ap suc (length-map xs)

  pub is_empty-map : (xs : List A) → is_empty (map f xs) ≡ is_empty xs
  is_empty-map [] = refl
  is_empty-map (x ∷ xs) = refl

  pub any-map_never :
      (p : B → Bool) (xs : List A) → ((x : A) → p (f x) ≡ false) → any p (map f xs) ≡ false
  unfolding any
  any-map_never p [] h = refl
  any-map_never p (x ∷ xs) h = ground (arith, h x, any-map_never p xs h)

  pub In-map : {x : A} {xs : List A} → In x xs → In (f x) (map f xs)
  In-map (here i) = here (ap f i)
  In-map (there m) = there (In-map m)

  pub map-In : {y : B} (xs : List A) → In y (map f xs) → (x : A) × In x xs × (y ≡ f x)
  map-In [] m = elim m [ ]
  map-In (x ∷ xs) m = elim (In-cons m) [
    | inl i ↦ (x, here refl, i)
    | inr n ↦ let (z, k, i) = map-In xs n in (z, there k, i)
  ]

module _ {ℓ κ} {A : Type ℓ} {B : Type κ} (f : A → List B) where
  -- `out.extend(f(x))` for each `x`
  unfoldable pub flat_map : List A → List B
  flat_map [] = []
  flat_map (x ∷ xs) = f x ++ flat_map xs

  pub all-flat_map :
      (p : B → Bool) {x : A} (xs : List A)
      → all p (flat_map xs) ≡ true
      → In x xs
      → all p (f x) ≡ true
  unfolding flat_map
  all-flat_map p [] h m = elim m [ ]
  all-flat_map p {x} (y ∷ xs) h (here i) =
      let both = all-append p (f y) (flat_map xs) in ap (λ z. all p (f z)) i ∙ ground (arith, both)
  all-flat_map p (y ∷ xs) h (there m) =
      let both = all-append p (f y) (flat_map xs) in all-flat_map p xs (ground (arith, both)) m

  pub flat_map-In : {x : A} {y : B} (xs : List A) → In x xs → In y (f x) → In y (flat_map xs)
  unfolding flat_map
  flat_map-In [] m n = elim m [ ]
  flat_map-In {x} {y} (z ∷ xs) (here i) n =
      In-append_left (f z) (flat_map xs) (subst (λ w. In y (f w)) i n)
  flat_map-In (z ∷ xs) (there m) n = In-append_right (f z) (flat_map xs) (flat_map-In xs m n)

  pub In-flat_map : {y : B} (xs : List A) → In y (flat_map xs) → (x : A) × In x xs × In y (f x)
  unfolding flat_map
  In-flat_map [] m = elim m [ ]
  In-flat_map (x ∷ xs) m = elim (In-append (f x) (flat_map xs) m) [
    | inl n ↦ (x, here refl, n)
    | inr n ↦ let (z, i, k) = In-flat_map xs n in (z, there i, k)
  ]
