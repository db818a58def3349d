-- ===== src/Prelude/Unseen.antt =====
-- How much of a finite set a growing visited set has left: the measure of the walks.
use mathlib.Core.Path.{◌≡◌, ap, sym}
use mathlib.Core.Logic.{inl, inr}
use mathlib.Core.Bool.{true, false}
use mathlib.Core.List.{List, [], ◌∷◌}
use native.Mathlib.Omega.{arith}
use Prim.Native.Nat.{ℕ, suc, ◌≤◌, ◌<◌}
use pgrls.Prelude.Tests.{Eq, Bool-cases, if◌then◌else◌}
use pgrls.Prelude.Lists.{length, In, here, there}
use pgrls.Prelude.Sets.{contains}

module _ {ℓ} {A : Type ℓ} ⦃e : Eq A⦄ where
  unfoldable pub unseen : List A → List A → ℕ
  unseen [] seen = 0
  unseen (x ∷ xs) seen = let rest = unseen xs seen in if contains x seen then rest else suc rest

  pub unseen-le-length : (xs seen : List A) → unseen xs seen ≤ length xs
  unfolding unseen
  unseen-le-length [] seen = omega arith
  unseen-le-length (x ∷ xs) seen = ground (arith, unseen-le-length xs seen)

  module _ (s t : List A) (grow : (a : A) → contains a s ≡ true → contains a t ≡ true) where
    pub unseen_mono : (xs : List A) → unseen xs t ≤ unseen xs s
    unfolding unseen
    unseen_mono [] = omega arith
    unseen_mono (x ∷ xs) = elim (Bool-cases (contains x s)) [
      | inl k ↦ rw (k, grow x k) (unseen_mono xs)
      | inr k ↦ ground (arith, unseen_mono xs)
    ]

    -- A new element that the set has makes the measure fall.
    pub unseen_strict :
        {a : A} (xs : List A)
        → In a xs
        → contains a s ≡ false
        → contains a t ≡ true
        → unseen xs t < unseen xs s
    unfolding unseen
    unseen_strict [] m o n = elim m [ ]
    unseen_strict (x ∷ xs) (here i) o n =
        rw (ap (λ w. contains w t) (sym i), ap (λ w. contains w s) (sym i), o, n)
          (omega (arith, unseen_mono xs))
    unseen_strict (x ∷ xs) (there m) o n = elim (Bool-cases (contains x s)) [
      | inl k ↦ rw (k, grow x k) (unseen_strict xs m o n)
      | inr k ↦ ground (arith, unseen_strict xs m o n)
    ]
