-- ===== src/Verify/Delta.antt =====
-- `diff_verifications` of src/pgrls/verify.py: the leaks that one version has and the other not.
use pgrls.Prelude.{
  if◌then◌else◌, Option-cases, and_left, and_right, nat_eq, string_eq, bool_eq, pair_eq, option_eq,
  length, filter, In, In-filter, filter-In, map-In, dedup, In-dedup, sort_by, In-sort_by, find_last,
  find_last-In, Distinct, find_last-Distinct, str_le, ◌+◌, String, ◌≡◌, refl, sym, ap, subst, ◌∙◌,
  ◌↔◌, inl, inr, Bool, true, false, ◌&&◌, not, Option, none, some, List, [], ◌∷◌, map, arith,
}
use pgrls.Prover.{Verdict, isolated, leak, is_leak, is_unverified}
use pgrls.Verify.{Mode, reachability, PolicyProof, TableVerdict, Verification}

pub record LeakDelta : Type 0 where
  pub mode : Mode
  pub new_leaks : List TableVerdict
  pub preexisting_leaks : List TableVerdict
  pub fixed_leaks : List String
  pub new_unverified : List TableVerdict

abbrev pub is_reachability : Mode → Bool
is_reachability m = elim m [ reachability ↦ true | _ ↦ false ]

-- `proofs[0].policy`
abbrev first_policy : List PolicyProof → Option String
first_policy [] = none
first_policy (p ∷ ps) = some p.policy

-- A door is a table with the view, a table in the other modes.
unfoldable pub door_key : Mode → TableVerdict → String × Option String
door_key mode t = (t.qualified_name, if is_reachability mode then first_policy t.proofs else none)

-- `v is None or v.verdict == "isolated"`
unfoldable pub was_proven : Option TableVerdict → Bool
was_proven none = true
was_proven (some t) = elim t.verdict [ isolated ↦ true | _ ↦ false ]

was_isolated : (t : TableVerdict) → (was_proven (some t) ≡ true) ↔ (t.verdict ≡ isolated)
unfolding was_proven
was_isolated t = (λ h. ground arith, λ h. ground arith)

-- Every door with the key is isolated.
abbrev IsProven : Mode → String × Option String → List TableVerdict → Type 0
IsProven mode k ts = (t : TableVerdict) → In t ts → door_key mode t ≡ k → t.verdict ≡ isolated

was_proven_iff :
    (mode : Mode) (k : String × Option String) (ts : List TableVerdict)
    → Distinct (door_key mode) ts
    → (was_proven (find_last (door_key mode) k ts) ≡ true) ↔ IsProven mode k ts
was_proven_iff mode k ts d = (
  λ h t m e.
      let found : find_last (door_key mode) k ts ≡ some t =
        subst (λ j. find_last (door_key mode) j ts ≡ some t) e
          (find_last-Distinct (door_key mode) ts d m) in
      (was_isolated t).0 (ap was_proven (sym found) ∙ h),
  λ h. elim (Option-cases (find_last (door_key mode) k ts)) [
    | inl f ↦ ap was_proven f ∙ unfold was_proven in refl
    | inr (t, f) ↦
        let (m, e) = find_last-In (door_key mode) k ts f in
        ap was_proven f ∙ (was_isolated t).1 (h t m e)
  ],
)

is_leak_iff : (v : Verdict) → (is_leak v ≡ true) ↔ (v ≡ leak)
is_leak_iff v = ground arith

module _ (base head : Verification) where
  -- `base_by.get(key(head, t))`
  abbrev pub base_of : TableVerdict → Option TableVerdict
  base_of t = find_last (door_key base.mode) (door_key head.mode t) base.tables

  abbrev is_new_leak : TableVerdict → Bool
  is_new_leak t = is_leak t.verdict && was_proven (base_of t)

  abbrev is_preexisting : TableVerdict → Bool
  is_preexisting t = is_leak t.verdict && not (was_proven (base_of t))

  abbrev is_new_unverified : TableVerdict → Bool
  is_new_unverified t = is_unverified t.verdict && was_proven (base_of t)

  abbrev leaked : Option TableVerdict → Bool
  leaked none = false
  leaked (some t) = is_leak t.verdict

  -- The condition on an entry `k, b` of `base_by`.
  abbrev is_fixed : String × Option String → Bool
  is_fixed k =
      leaked (find_last (door_key base.mode) k base.tables)
      && was_proven (find_last (door_key head.mode) k head.tables)

  unfoldable pub diff_verifications : LeakDelta
  diff_verifications = record {
    mode = head.mode;
    new_leaks = filter is_new_leak head.tables;
    preexisting_leaks = filter is_preexisting head.tables;
    fixed_leaks = sort_by str_le (
        dedup (
          map (λ (k : String × Option String). k.0)
            (filter is_fixed (dedup (map (door_key base.mode) base.tables)))));
    new_unverified = filter is_new_unverified head.tables;
  }

  -- A leak is new exactly where it is a leak of the head and every verdict of the base for its
  -- door is isolated. The doors of the base are distinct.
  pub new_leaks_iff :
      (t : TableVerdict)
      → Distinct (door_key base.mode) base.tables
      → In t diff_verifications.new_leaks
        ↔ In t head.tables
          × (t.verdict ≡ leak)
          × ((b : TableVerdict)
              → In b base.tables
              → door_key base.mode b ≡ door_key head.mode t
              → b.verdict ≡ isolated)
  unfolding diff_verifications
  new_leaks_iff t d =
      let proven = was_proven_iff base.mode (door_key head.mode t) base.tables d in
      (
        λ m.
            let (i, h) = In-filter is_new_leak head.tables m in
            (
              i,
              (is_leak_iff t.verdict).0 (and_left _ _ h),
              proven.0 (and_right (is_leak t.verdict) _ h),
            ),
        λ r.
            filter-In is_new_leak head.tables r.0
              (ground (arith, (is_leak_iff t.verdict).1 r.1, proven.1 r.2)),
      )

  -- x
  pub leaks_partitioned :
      length diff_verifications.new_leaks + length diff_verifications.preexisting_leaks
      ≡ length (filter (λ (t : TableVerdict). is_leak t.verdict) head.tables)
  unfolding diff_verifications filter
  leaks_partitioned = go head.tables
    where
      go :
          (ts : List TableVerdict)
          → length (filter is_new_leak ts) + length (filter is_preexisting ts)
            ≡ length (filter (λ (t : TableVerdict). is_leak t.verdict) ts)
      go [] = refl
      go (t ∷ ts) = ground (arith, go ts)

  -- A leak that is called fixed is a leak of the base, and every verdict of the head for its door
  -- is isolated. The doors of the head are distinct.
  pub fixed_leaks_sound :
      (name : String)
      → Distinct (door_key head.mode) head.tables
      → In name diff_verifications.fixed_leaks
      → (b : TableVerdict) × In b base.tables
        × (b.qualified_name ≡ name)
        × (b.verdict ≡ leak)
        × ((t : TableVerdict)
            → In t head.tables
            → door_key head.mode t ≡ door_key base.mode b
            → t.verdict ≡ isolated)
  unfolding diff_verifications
  fixed_leaks_sound name d m =
      let keys = dedup (map (door_key base.mode) base.tables) in
      let (k, i, e) =
        map-In (λ (k : String × Option String). k.0) (filter is_fixed keys)
          (In-dedup _ (In-sort_by str_le _ m)) in
      let (n, h) = In-filter is_fixed keys i in
      elim (Option-cases (find_last (door_key base.mode) k base.tables)) [
        | inl f ↦ absurd (ground (arith, ap leaked f))
        | inr (b, f) ↦
            let (l, j) = find_last-In (door_key base.mode) k base.tables f in
            (
              b,
              l,
              unfold door_key in ap (λ (q : String × Option String). q.0) j ∙ sym e,
              (is_leak_iff b.verdict).0 (ground (arith, ap leaked f)),
              λ t a q. (was_proven_iff head.mode k head.tables d).0 (and_right _ _ h) t a (q ∙ j),
            )
      ]
