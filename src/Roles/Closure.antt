-- ===== src/Roles/Closure.antt =====
-- The closures of src/pgrls/verify.py against chains of INHERIT edges.
use pgrls.Prelude.{
  Bool-cases, nat_eq, string_eq, bool_eq, pair_eq, option_eq, length, In, In-cons, length-map,
  In-map, here, there, contains, contains-In, In-contains, contains_head, contains_cons, unseen,
  unseen-le-length, unseen_mono, unseen_strict, ℕ, zero, suc, ◌<◌, String, ◌≡◌, refl, ◌↔◌, inl, inr,
  Bool, true, false, some, List, [], ◌∷◌, ◌++◌, map, arith,
}
use pgrls.Model.{Schema, RoleMembership}
use pgrls.Roles.{inherit_closure, anon_reachable_roles, adds, scan, close, closure}

-- `r` is in the seed, or a role that inherits it is reached.
pub data Holds (edges : List RoleMembership) (seed : List String) : String → Type 0 where
  seeded : {r : String} → In r seed → Holds edges seed r
  inherited :
      {r : String} (e : RoleMembership)
      → In e edges
      → e.inherit ≡ true
      → Holds edges seed e.member
      → r ≡ e.role
      → Holds edges seed r

adds_parts :
    (e : RoleMembership) (reach : List String)
    → adds e reach ≡ true
    → (e.inherit ≡ true) × (contains e.member reach ≡ true) × (contains e.role reach ≡ false)
unfolding adds
adds_parts e reach h = ground arith

adds_fails :
    (e : RoleMembership) (reach : List String)
    → adds e reach ≡ false
    → e.inherit ≡ true
    → contains e.member reach ≡ true
    → contains e.role reach ≡ true
unfolding adds
adds_fails e reach h i c = ground arith

scan_grows :
    (edges : List RoleMembership) (reach : List String) (ch : Bool) (a : String)
    → contains a reach ≡ true
    → contains a (scan edges reach ch).0 ≡ true
unfolding scan
scan_grows [] reach ch a h = h
scan_grows (e ∷ es) reach ch a h = elim (Bool-cases (adds e reach)) [
  | inl k ↦ rw (k, scan) (scan_grows es (e.role ∷ reach) true a (contains_cons e.role reach a h))
  | inr k ↦ rw (k, scan) (scan_grows es reach ch a h)
]

-- Once set, the flag stays set.
scan_flag : (edges : List RoleMembership) (reach : List String) → (scan edges reach true).1 ≡ true
unfolding scan
scan_flag [] reach = refl
scan_flag (e ∷ es) reach = elim (Bool-cases (adds e reach)) [
  | inl k ↦ rw (k, scan) (scan_flag es (e.role ∷ reach))
  | inr k ↦ rw (k, scan) (scan_flag es reach)
]

-- A pass that adds nothing changes nothing, and its set is closed under the edges.
scan_closed :
    (edges : List RoleMembership) (reach : List String)
    → (scan edges reach false).1 ≡ false
    → ((scan edges reach false).0 ≡ reach)
      × ((e : RoleMembership)
          → In e edges
          → e.inherit ≡ true
          → contains e.member reach ≡ true
          → contains e.role reach ≡ true)
unfolding scan
scan_closed [] reach h = (refl, λ e m. elim m [ ])
scan_closed (x ∷ es) reach h = elim (Bool-cases (adds x reach)) [
  | inl k ↦ absurd (ground (arith, scan_flag es (x.role ∷ reach)))
  | inr k ↦
      let (same, closed) = scan_closed es reach (rw (k, scan) at h) in
      (
        rw (k, scan) same,
        λ e m i c. elim (In-cons m) [
          | inl j ↦ adds_fails e reach (rw j k) i c
          | inr n ↦ closed e n i c
        ],
      )
]

-- A pass that adds a role leaves fewer of the edges' roles unseen.
scan_progress :
    (names : List String) (edges : List RoleMembership) (reach : List String)
    → ((e : RoleMembership) → In e edges → In e.role names)
    → (scan edges reach false).1 ≡ true
    → unseen names (scan edges reach false).0 < unseen names reach
unfolding scan
scan_progress names [] reach sub h = absurd (ground arith)
scan_progress names (x ∷ es) reach sub h = elim (Bool-cases (adds x reach)) [
  | inl k ↦
      let less =
        unseen_strict reach (x.role ∷ reach) (contains_cons x.role reach) names (sub x (here refl))
          (adds_parts x reach k).2 (contains_head x.role reach) in
      let more =
        unseen_mono (x.role ∷ reach) (scan es (x.role ∷ reach) true).0
          (scan_grows es (x.role ∷ reach) true) names in
      rw (k, scan) (omega (arith, less, more))
  | inr k ↦ rw (k, scan) (scan_progress names es reach (λ e m. sub e (there m)) (rw (k, scan) at h))
]

-- What the loop returns is closed under the edges, given enough fuel.
close_closed :
    (fuel : ℕ) (edges : List RoleMembership) (reach : List String)
    → unseen (map (λ e. e.role) edges) reach < fuel
    → (e : RoleMembership) → In e edges
    → e.inherit ≡ true
    → contains e.member (close fuel edges reach) ≡ true
    → contains e.role (close fuel edges reach) ≡ true
unfolding close
close_closed zero edges reach h e m i c = absurd (omega arith)
close_closed (suc fuel) edges reach h e m i c = elim (Bool-cases (scan edges reach false).1) [
  | inl k ↦
      let less = scan_progress _ edges reach (λ x n. In-map (λ y. y.role) n) k in
      rw (k, close)
        (close_closed fuel edges (scan edges reach false).0 (omega (arith, less, h)) e m i
          (rw (k, close) at c))
  | inr k ↦
      let (same, closed) = scan_closed edges reach k in
      rw (k, close, same) (closed e m i (rw (k, close, same) at c))
]

close_grows :
    (fuel : ℕ) (edges : List RoleMembership) (reach : List String) (a : String)
    → contains a reach ≡ true
    → contains a (close fuel edges reach) ≡ true
unfolding close
close_grows zero edges reach a h = h
close_grows (suc fuel) edges reach a h = elim (Bool-cases (scan edges reach false).1) [
  | inl k ↦ rw (k, close) (close_grows fuel edges _ a (scan_grows edges reach false a h))
  | inr k ↦ rw (k, close) (scan_grows edges reach false a h)
]

-- Every role that is put in is held.
module _ (all_edges : List RoleMembership) (seed : List String) where
  abbrev AllHeld : List String → Type 0
  AllHeld reach = (a : String) → In a reach → Holds all_edges seed a

  scan_held :
      (edges : List RoleMembership) (reach : List String) (ch : Bool)
      → ((e : RoleMembership) → In e edges → In e all_edges)
      → AllHeld reach
      → AllHeld (scan edges reach ch).0
  unfolding scan
  scan_held [] reach ch sub h = h
  scan_held (e ∷ es) reach ch sub h = elim (Bool-cases (adds e reach)) [
    | inl k ↦
        let (i, c, _) = adds_parts e reach k in
        rw (k, scan)
          (scan_held es (e.role ∷ reach) true (λ x m. sub x (there m))
            (λ a m. elim (In-cons m) [
              | inl j ↦
                  inherited e (sub e (here refl)) i (h e.member (contains-In e.member reach c)) j
              | inr n ↦ h a n
            ]))
    | inr k ↦ rw (k, scan) (scan_held es reach ch (λ x m. sub x (there m)) h)
  ]

  close_held :
      (fuel : ℕ) (reach : List String) → AllHeld reach → AllHeld (close fuel all_edges reach)
  unfolding close
  close_held zero reach h = h
  close_held (suc fuel) reach h = elim (Bool-cases (scan all_edges reach false).1) [
    | inl k ↦ rw (k, close) (close_held fuel _ (scan_held all_edges reach false (λ e m. m) h))
    | inr k ↦ rw (k, close) (scan_held all_edges reach false (λ e m. m) h)
  ]

closure_complete :
    (edges : List RoleMembership) (seed : List String) {r : String}
    → Holds edges seed r
    → contains r (closure edges seed) ≡ true
unfolding closure
closure_complete edges seed (seeded m) =
    close_grows (suc (length edges)) edges seed _ (In-contains seed m)
closure_complete edges seed (inherited e m i h j) =
    let enough = unseen-le-length (map (λ e. e.role) edges) seed in
    rw j (
      close_closed (suc (length edges)) edges seed
        (omega (arith, enough, length-map (λ (x : RoleMembership). x.role) edges)) e m i
        (closure_complete edges seed h))

-- The computed closure holds exactly the roles that the seed reaches through INHERIT edges.
pub closure_iff :
    (edges : List RoleMembership) (seed : List String) (r : String)
    → (contains r (closure edges seed) ≡ true) ↔ Holds edges seed r
unfolding closure
closure_iff edges seed r = (
  λ h. close_held edges seed (suc (length edges)) seed (λ a m. seeded m) r (contains-In r _ h),
  closure_complete edges seed,
)

-- Where the role graph was captured, the closure of a role is found, and holds a role exactly
-- where a chain of INHERIT memberships leads to it from the first; the fuel of the loop is
-- enough.
pub inherit_closure_iff :
    (s : Schema) (edges : List RoleMembership) (role : String)
    → s.role_memberships ≡ some edges
    → (roles : List String) × (inherit_closure s role ≡ some roles)
      × ((r : String) → (contains r roles ≡ true) ↔ Holds edges (role ∷ []) r)
unfolding inherit_closure
inherit_closure_iff s edges role e =
    (closure edges (role ∷ []), rw (e, inherit_closure), closure_iff edges (role ∷ []))

-- Where the role graph was captured, the answer is called complete, and a role is in it exactly
-- where a chain of INHERIT memberships leads to it from an anonymous role or from PUBLIC; the
-- fuel of the loop is enough.
pub anon_reachable_roles_iff :
    (s : Schema) (edges : List RoleMembership) (anon_roles : List String)
    → s.role_memberships ≡ some edges
    → (r : String)
    → ((anon_reachable_roles s anon_roles).1 ≡ true)
      × ((contains r (anon_reachable_roles s anon_roles).0 ≡ true)
          ↔ Holds edges (anon_roles ++ "PUBLIC" ∷ []) r)
unfolding anon_reachable_roles
anon_reachable_roles_iff s edges anon_roles e r =
    rw (e, anon_reachable_roles) (refl, closure_iff edges (anon_roles ++ "PUBLIC" ∷ []) r)
