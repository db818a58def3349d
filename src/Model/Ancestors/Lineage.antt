-- ===== src/Model/Ancestors/Lineage.antt =====
-- The chain that `Schema.ancestors_of` (src/pgrls/model.py) walks.
use pgrls.Prelude.{
  Bool-cases, Option-cases, nat_eq, string_eq, bool_eq, pair_eq, option_eq, length, In, length-map,
  In-map, contains, contains_head, contains_cons, find_last, find_last-In, unseen, unseen-le-length,
  unseen_strict, ℕ, zero, suc, ◌<◌, String, ◌≡◌, refl, sym, ap, subst, ◌∙◌, ◌⊎◌, inl, inr, false,
  Option, none, some, List, [], ◌∷◌, map, arith,
}
use pgrls.Model.{Table, Schema, dotted, qualified_name}
use pgrls.Model.Ancestors.{Walk, ok, cycle, find_table, cons_walk, climb, ancestors_of}

-- Each table is the parent that the one before it names, is in the schema, and has a name that was
-- not seen before.
abbrev pub IsLineage : Schema → Table → List String → List Table → Type 0
IsLineage s t seen [] = Unit
IsLineage s t seen (p ∷ ps) =
    (contains (qualified_name p) seen ≡ false)
    × In p s.tables
    × ((owner : String × String) × (t.partition_of ≡ some owner)
        × (qualified_name p ≡ dotted owner.0 owner.1))
    × IsLineage s p (qualified_name p ∷ seen) ps

-- What a walk promises: a chain, or a name that was met before.
abbrev Outcome : Schema → Table → List String → Option Walk → Type 0
Outcome s t seen none = ⊥
Outcome s t seen (some (ok ps)) = IsLineage s t seen ps
Outcome s t seen (some (cycle q)) = Unit

module _ (s : Schema) where
  abbrev all_names : List String
  all_names = map qualified_name s.tables

  extend :
      (t p : Table) (a b : String) (seen : List String) (w : Option Walk)
      → t.partition_of ≡ some (a, b)
      → contains (dotted a b) seen ≡ false
      → In p s.tables
      → qualified_name p ≡ dotted a b
      → Outcome s p (dotted a b ∷ seen) w
      → Outcome s t seen (cons_walk p w)
  unfolding cons_walk
  extend t p a b seen none h k m e o = o
  extend t p a b seen (some (cycle q)) h k m e o = tt
  extend t p a b seen (some (ok ps)) h k m e o = (
    ap (λ n. contains n seen) e ∙ k,
    m,
    ((a, b), h, e),
    subst (λ n. IsLineage s p (n ∷ seen) ps) (sym e) o,
  )

  climb_lem :
      (fuel : ℕ) (t : Table) (seen : List String)
      → unseen all_names seen < fuel
      → Outcome s t seen (climb s fuel t seen)
  unfolding climb find_table
  climb_lem zero t seen h = absurd (omega (arith, h))
  climb_lem (suc fuel) t seen h = elim (Option-cases t.partition_of) [
    | inl e ↦ rw (e, climb) tt
    | inr ((a, b), e) ↦ elim (Bool-cases (contains (dotted a b) seen)) [
      | inl k ↦ rw (e, k, climb) tt
      | inr k ↦ elim (Option-cases (find_last qualified_name (dotted a b) s.tables)) [
        | inl f ↦ rw (e, k, f, climb) tt
        | inr (p, f) ↦
            let (m, i) = find_last-In qualified_name (dotted a b) s.tables f in
            let falls =
              unseen_strict seen (dotted a b ∷ seen) (λ x y. contains_cons (dotted a b) seen x y)
                all_names (subst (λ n. In n all_names) i (In-map qualified_name m)) k
                (contains_head (dotted a b) seen) in
            let step : climb s (suc fuel) t seen
                ≡ cons_walk p (climb s fuel p (dotted a b ∷ seen)) =
              rw (e, k, f, climb) refl in
            subst (Outcome s t seen) (sym step) (
              extend t p a b seen (climb s fuel p (dotted a b ∷ seen)) e k m i
                (climb_lem fuel p (dotted a b ∷ seen) (omega (arith, h, falls))))
      ]
    ]
  ]

settled :
    (s : Schema) (t : Table) (seen : List String) (w : Option Walk)
    → Outcome s t seen w
    → ((ps : List Table) × (w ≡ some (ok ps)) × IsLineage s t seen ps)
      ⊎ ((q : String) × (w ≡ some (cycle q)))
settled s t seen none o = elim o [ ]
settled s t seen (some (ok ps)) o = inl (ps, refl, o)
settled s t seen (some (cycle q)) o = inr (q, refl)

-- The walk over the partition parents ends: it reports a cycle, or gives a chain in which each
-- table is the one that its predecessor names, is in the schema, and has a name that was not met
-- before; the fuel is enough.
pub ancestors_of_settles :
    (s : Schema) (t : Table)
    → ((ps : List Table) × (ancestors_of s t ≡ some (ok ps))
        × IsLineage s t (qualified_name t ∷ []) ps)
      ⊎ ((q : String) × (ancestors_of s t ≡ some (cycle q)))
unfolding ancestors_of
ancestors_of_settles s t =
    let enough = unseen-le-length (map qualified_name s.tables) (qualified_name t ∷ []) in
    settled s t (qualified_name t ∷ []) _ (
      climb_lem s (suc (length s.tables)) t (qualified_name t ∷ [])
        (omega (arith, enough, length-map qualified_name s.tables)))
