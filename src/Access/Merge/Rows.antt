-- ===== src/Access/Merge/Rows.antt =====
-- The rows that a cell covers, before and after `_merge` (src/pgrls/access.py).
use pgrls.Prelude.{
  Bool-cases, Option-cases, and_left, and_right, ◌==◌, ==→eq, nat_eq, string_eq, bool_eq, pair_eq,
  option_eq, String, ◌≡◌, refl, sym, ap, ◌∙◌, ◌≢◌, ◌⊎◌, inl, inr, Bool, true, false, ◌&&◌, ◌||◌,
  not, Option, none, some, arith,
}
use pgrls.Access.{opened, denied, conditional, undecided, Cell}
use pgrls.Access.Merge.{norm, alike, merge_filters, merge}

-- `truth p s r`: is the predicate `p` true of the row at hand, where the session is `s` and the
-- sub-selects are read with the privileges of `r` (`none`: the caller)?
abbrev pub Reading : Type 0
Reading = String → Option String → Option String → Bool

-- The rows that a cell may reach: those of its predicate where it is conditional, every row where
-- it is open or undecided.
unfoldable pub covers : Reading → Cell → Bool
covers truth c = elim c.verdict [
  | opened ↦ true
  | undecided ↦ true
  | denied ↦ false
  | conditional ↦ elim c.predicate [ none ↦ true | some p ↦ truth p c.session c.privileges ]
]

-- What `_dependence` promises: a predicate that does not depend on the session, or on the
-- privileges, has one value for all of them; and the role itself evaluates as the caller does.
pub record IsFaithful (truth : Reading) (dependence : String → Bool × Bool) (me : Option String)
    : Type 0 where
  pub session_free :
      (p : String) (s t r : Option String) → (dependence p).0 ≡ false → truth p s r ≡ truth p t r
  pub privilege_free :
      (p : String) (s r q : Option String) → (dependence p).1 ≡ false → truth p s r ≡ truth p s q
  pub own_session : (p : String) (r : Option String) → truth p me r ≡ truth p none r
  pub own_privileges : (p : String) (s : Option String) → truth p s me ≡ truth p s none

module _ {truth : Reading} {dependence : String → Bool × Bool} {me : Option String}
    (faithful : IsFaithful truth dependence me) where
  open faithful use {session_free, privilege_free, own_session, own_privileges}

  norm_session : (p : String) (s r : Option String) → truth p (norm me s) r ≡ truth p s r
  unfolding norm
  norm_session p s r = elim (Bool-cases (s == me)) [
    | inl k ↦ rw k (sym (own_session p r) ∙ ap (λ w. truth p w r) (sym (==→eq s me k)))
    | inr k ↦ rw k
  ]

  norm_privileges : (p : String) (s r : Option String) → truth p s (norm me r) ≡ truth p s r
  unfolding norm
  norm_privileges p s r = elim (Bool-cases (r == me)) [
    | inl k ↦ rw k (sym (own_privileges p s) ∙ ap (λ w. truth p s w) (sym (==→eq r me k)))
    | inr k ↦ rw k
  ]

  same_session :
      (p : String) (s t r : Option String)
      → (not (dependence p).0 || norm me s == norm me t) ≡ true
      → truth p s r ≡ truth p t r
  same_session p s t r h = elim (Bool-cases (dependence p).0) [
    | inr k ↦ session_free p s t r k
    | inl k ↦
        let e = ==→eq (norm me s) (norm me t) (rw k at h) in
        sym (norm_session p s r) ∙ ap (λ w. truth p w r) e ∙ norm_session p t r
  ]

  same_privileges :
      (p : String) (s r q : Option String)
      → (not (dependence p).1 || norm me r == norm me q) ≡ true
      → truth p s r ≡ truth p s q
  same_privileges p s r q h = elim (Bool-cases (dependence p).1) [
    | inr k ↦ privilege_free p s r q k
    | inl k ↦
        let e = ==→eq (norm me r) (norm me q) (rw k at h) in
        sym (norm_privileges p s r) ∙ ap (λ w. truth p s w) e ∙ norm_privileges p s q
  ]

  -- Two filters that pass the test have one value.
  alike_lem :
      (p : String) (cell door : Cell)
      → alike (dependence p) me cell door ≡ true
      → truth p door.session door.privileges ≡ truth p cell.session cell.privileges
  unfolding alike
  alike_lem p cell door h =
      same_session p door.session cell.session door.privileges (and_left _ _ h)
      ∙ same_privileges p cell.session door.privileges cell.privileges (and_right _ _ h)

  covers_filter :
      (c : Cell) (p : String)
      → c.verdict ≡ conditional
      → c.predicate ≡ some p
      → covers truth c ≡ truth p c.session c.privileges
  unfolding covers
  covers_filter c p v e = ground arith

  covers-merge_filters :
      (cell door : Cell)
      → cell.verdict ≡ conditional
      → door.verdict ≡ conditional
      → (covers truth (merge_filters dependence me cell door)
          ≡ (covers truth cell || covers truth door))
        ⊎ ((merge_filters dependence me cell door).verdict ≡ undecided)
  unfolding covers merge_filters
  covers-merge_filters cell door c d = elim (Option-cases door.predicate) [
    | inl k ↦ inr (rw (k, merge_filters) refl)
    | inr (p, k) ↦
        elim (Bool-cases (some p == cell.predicate && alike (dependence p) me cell door)) [
          | inr f ↦ inr (rw (k, merge_filters, f) refl)
          | inl f ↦
              let e = ==→eq (some p) cell.predicate (and_left _ _ f) in
              let mine = covers_filter cell p c (sym e) in
              let theirs = covers_filter door p d k in
              let same = alike_lem p cell door (and_right _ _ f) in
              inl (rw (k, merge_filters, f) (ground (arith, mine, theirs, same)))
        ]
  ]

  -- What a cell or a door covers, the merged cell covers.
  pub covers-merge :
      (cell door : Cell)
      → (covers truth cell || covers truth door) ≡ true
      → covers truth (merge dependence me cell door) ≡ true
  unfolding merge covers
  covers-merge cell door h = ground (arith, covers-merge_filters cell door)

  -- A merged cell that is not undecided covers nothing else.
  pub covers-merge_exact :
      (cell door : Cell)
      → (merge dependence me cell door).verdict ≢ undecided
      → covers truth (merge dependence me cell door) ≡ (covers truth cell || covers truth door)
  unfolding merge covers
  covers-merge_exact cell door h = ground (arith, covers-merge_filters cell door)
