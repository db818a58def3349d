-- ===== src/Access/Merge/Folds.antt =====
-- Folding a list of doors into a cell, in the order that the code sorts them into.
use pgrls.Prelude.{
  Bool-cases, Bool-ext, nat_eq, string_eq, bool_eq, pair_eq, option_eq, any, In, any-In, In-any,
  here, there, sort_by, sort_by-In, In-sort_by, ◌≤◌, String, ◌≡◌, refl, subst, ◌≢◌, ◌⊎◌, inl, inr,
  Bool, true, ◌||◌, Option, List, [], ◌∷◌, arith,
}
use pgrls.Access.{Verdict, opened, denied, conditional, undecided, rank, Cell, AccessPath}
use pgrls.Access.Merge.{merge, merge_all, door_le, fold}
use pgrls.Access.Merge.Rows.{Reading, covers, IsFaithful, covers-merge, covers-merge_exact}

module _ (dependence : String → Bool × Bool) (me : Option String) where
  rank-merge :
      (cell door : Cell)
      → (rank cell.verdict ≤ rank (merge dependence me cell door).verdict)
        × (rank door.verdict ≤ rank (merge dependence me cell door).verdict)
  unfolding merge
  rank-merge cell door = ground arith

  rank-merge_all :
      (doors : List (Cell × AccessPath)) (cell : Cell)
      → rank cell.verdict ≤ rank (merge_all dependence me cell doors).verdict
  unfolding merge_all
  rank-merge_all [] cell = omega arith
  rank-merge_all ((d, p) ∷ ds) cell =
      omega (arith, rank-merge cell d, rank-merge_all ds (merge dependence me cell d))

  rank-merge_all_In :
      {d : Cell × AccessPath} (doors : List (Cell × AccessPath)) (cell : Cell)
      → In d doors
      → rank d.0.verdict ≤ rank (merge_all dependence me cell doors).verdict
  unfolding merge_all
  rank-merge_all_In [] cell m = elim m [ ]
  rank-merge_all_In ((d, p) ∷ ds) cell (here i) =
      rw i (omega (arith, rank-merge cell d, rank-merge_all ds (merge dependence me cell d)))
  rank-merge_all_In ((d, p) ∷ ds) cell (there m) = rank-merge_all_In ds _ m

  -- The folded verdict is at least as wide as the direct cell's and as that of each door in the
  -- list.
  pub fold_widest :
      (cell : Cell) (doors : List (Cell × AccessPath)) (d : Cell × AccessPath)
      → In d doors
      → (rank cell.verdict ≤ rank (fold dependence me cell doors).verdict)
        × (rank d.0.verdict ≤ rank (fold dependence me cell doors).verdict)
  unfolding fold
  fold_widest cell doors d m = (
    rank-merge_all (sort_by (door_le dependence) doors) cell,
    rank-merge_all_In (sort_by (door_le dependence) doors) cell
        (sort_by-In (door_le dependence) doors m),
  )

undecided_cases : (v : Verdict) → (v ≡ undecided) ⊎ (v ≢ undecided)
undecided_cases undecided = inl refl
undecided_cases opened = inr (λ e. cc)
undecided_cases denied = inr (λ e. cc)
undecided_cases conditional = inr (λ e. cc)

module _ (truth : Reading) where
  covers_opened : (c : Cell) → c.verdict ≡ opened → covers truth c ≡ true
  unfolding covers
  covers_opened c h = ground arith

module _ {truth : Reading} {dependence : String → Bool × Bool} {me : Option String}
    (faithful : IsFaithful truth dependence me) where
  covers-merge_all :
      (doors : List (Cell × AccessPath)) (cell : Cell)
      → covers truth cell ≡ true
      → covers truth (merge_all dependence me cell doors) ≡ true
  unfolding merge_all
  covers-merge_all [] cell h = h
  covers-merge_all ((d, p) ∷ ds) cell h =
      covers-merge_all ds _ (covers-merge faithful cell d (ground arith))

  covers-merge_all_In :
      {d : Cell × AccessPath} (doors : List (Cell × AccessPath)) (cell : Cell)
      → In d doors
      → covers truth d.0 ≡ true
      → covers truth (merge_all dependence me cell doors) ≡ true
  unfolding merge_all
  covers-merge_all_In [] cell m h = elim m [ ]
  covers-merge_all_In ((d, p) ∷ ds) cell (here i) h =
      let e : covers truth d ≡ true = subst (λ w. covers truth w.0 ≡ true) i h in
      covers-merge_all ds _ (covers-merge faithful cell d (ground arith))
  covers-merge_all_In ((d, p) ∷ ds) cell (there m) h = covers-merge_all_In ds _ m h

  -- An undecided cell is overtaken by an open door only.
  stays_undecided :
      (cell door : Cell)
      → cell.verdict ≡ undecided
      → (door.verdict ≡ opened) ⊎ ((merge dependence me cell door).verdict ≡ undecided)
  unfolding merge rank
  stays_undecided cell door h = ground arith

  opened_after :
      (doors : List (Cell × AccessPath)) (cell : Cell)
      → cell.verdict ≡ undecided
      → (merge_all dependence me cell doors).verdict ≢ undecided
      → (d : Cell × AccessPath) × In d doors × (d.0.verdict ≡ opened)
  unfolding merge_all
  opened_after [] cell h n = absurd (n h)
  opened_after ((d, p) ∷ ds) cell h n = elim (stays_undecided cell d h) [
    | inl o ↦ ((d, p), here refl, o)
    | inr u ↦ let (e, m, o) = opened_after ds _ u n in (e, there m, o)
  ]

  merge_all_exact :
      (doors : List (Cell × AccessPath)) (cell : Cell)
      → (merge_all dependence me cell doors).verdict ≢ undecided
      → covers truth (merge_all dependence me cell doors) ≡ true
      → (covers truth cell ≡ true)
        ⊎ ((d : Cell × AccessPath) × In d doors × (covers truth d.0 ≡ true))
  unfolding merge_all
  merge_all_exact [] cell n h = inl h
  merge_all_exact ((d, p) ∷ ds) cell n h =
      elim (merge_all_exact ds (merge dependence me cell d) n h) [
        | inr (e, m, o) ↦ inr (e, there m, o)
        | inl o ↦ elim (undecided_cases (merge dependence me cell d).verdict) [
          | inl u ↦
              let (e, m, k) = opened_after ds (merge dependence me cell d) u n in
              inr (e, there m, covers_opened truth e.0 k)
          | inr v ↦ elim (Bool-cases (covers truth cell)) [
            | inl c ↦ inl c
            | inr c ↦
                let e = covers-merge_exact faithful cell d v in
                inr ((d, p), here refl, ground arith)
          ]
        ]
      ]

  -- A row that the direct cell or one of the doors reaches is covered by the folded cell. The
  -- recorded dependence of each predicate on session and privileges is faithful.
  pub covers-fold :
      (cell : Cell) (doors : List (Cell × AccessPath))
      → (covers truth cell || any (λ (d : Cell × AccessPath). covers truth d.0) doors) ≡ true
      → covers truth (fold dependence me cell doors) ≡ true
  unfolding fold
  covers-fold cell doors h = elim (Bool-cases (covers truth cell)) [
    | inl k ↦ covers-merge_all (sort_by (door_le dependence) doors) cell k
    | inr k ↦
        let (d, m, c) = any-In (λ (d : Cell × AccessPath). covers truth d.0) doors (ground arith) in
        covers-merge_all_In (sort_by (door_le dependence) doors) cell
          (sort_by-In (door_le dependence) doors m) c
  ]

  covered_by :
      (cell : Cell) (doors : List (Cell × AccessPath))
      → (fold dependence me cell doors).verdict ≢ undecided
      → covers truth (fold dependence me cell doors) ≡ true
      → (covers truth cell || any (λ (d : Cell × AccessPath). covers truth d.0) doors) ≡ true
  unfolding fold
  covered_by cell doors n h = elim (merge_all_exact (sort_by (door_le dependence) doors) cell n h) [
    | inl c ↦ ground arith
    | inr (d, m, c) ↦
        let some_door =
          In-any (λ (d : Cell × AccessPath). covers truth d.0) doors
            (In-sort_by (door_le dependence) doors m) c in
        ground arith
  ]

  -- Where the folded cell is not undecided, it covers exactly the rows that the direct cell or
  -- one of the doors reaches. The recorded dependence of each predicate on session and privileges
  -- is faithful.
  pub covers-fold_exact :
      (cell : Cell) (doors : List (Cell × AccessPath))
      → (fold dependence me cell doors).verdict ≢ undecided
      → covers truth (fold dependence me cell doors)
        ≡ (covers truth cell || any (λ (d : Cell × AccessPath). covers truth d.0) doors)
  covers-fold_exact cell doors n = Bool-ext _ _ (covered_by cell doors n) (covers-fold cell doors)
