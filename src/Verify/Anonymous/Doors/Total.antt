-- ===== src/Verify/Anonymous/Doors/Total.antt =====
-- `_anon_reads_every_row` of src/pgrls/verify.py beside the rows that the policies admit.
use pgrls.Prelude.{
  Bool-cases, Option-cases, and_left, and_right, nat_eq, string_eq, bool_eq, pair_eq, option_eq,
  is_empty, any, all, In, In-cons, In-append_right, any-In, In-any, In-all, filter-In, is_empty-map,
  map-In, here, contains, intersects, In-contains, intersects-In, In-intersects, String, ◌≡◌, refl,
  sym, ap, subst, ◌∙◌, ◌↔◌, inl, inr, Bool, true, false, ◌&&◌, not, none, some, List, [], ◌∷◌, ◌++◌,
  map, arith,
}
use pgrls.Model.{Policy, Table, Schema, RoleMembership, command_eq, select}
use pgrls.Sql.{Sql, Node, parse_expr}
use pgrls.Sql.Truth.{Truth, admits}
use pgrls.Rls.{applies, admitted, grants_row, lets_row, clause_for, clause_holds, target_roles}
use pgrls.Roles.{anon_reachable_roles}
use pgrls.Roles.Closure.{Holds, seeded, anon_reachable_roles_iff}
use pgrls.Verify.Anonymous.Exempt.{unreachable_applies}
use pgrls.Access.Cells.Clauses.{clause_truth}
use pgrls.Verify.{anon, mode_commands}
use pgrls.Verify.Gates.{checked_ast}
use pgrls.Verify.Gates.Sound.{admits-compose_with_floor, for_command}
use pgrls.Verify.Anonymous.{
  anon_session_exempt, anon_policy_reachability, canonical_role, reachable, unreachable,
}
use pgrls.Verify.Anonymous.Doors.{
  reads, restrictives, all_asts, under_floor, opens_every_row, anon_reads_every_row, is_unreached,
}

-- The prover's answer that a predicate leaks every row is right of the row at hand.
abbrev pub OpensRow : (Node → Bool) → (String → Truth) → Type 0
OpensRow is_total value = (n : Node) → is_total n ≡ true → admits value n ≡ true

-- No role is a spelling of PUBLIC other than PUBLIC itself.
abbrev pub HasCanonical : Sql → List Policy → Type 0
HasCanonical sql ps =
    (p : Policy) → In p ps → (r : String) → In r p.roles → canonical_role sql r ≡ r

parse_none : (sql : Sql) → parse_expr sql none ≡ none
unfolding parse_expr
parse_none sql = refl

reads_select : (p : Policy) → contains p.command (mode_commands anon) ≡ for_command p select
unfolding contains mode_commands
reads_select p = ground arith

module _ (sql : Sql) (s : Schema) (is_total : Node → Bool) (anon_roles : List String)
    (value : String → Truth) (unparsed : String → Bool) (targets : List String)
    (opens : OpensRow is_total value) (edges : List RoleMembership)
    (captured : s.role_memberships ≡ some edges)
    (held : (r : String) → In r targets ↔ Holds edges (anon_roles ++ "PUBLIC" ∷ []) r) where
  abbrev truth : String → Bool
  truth = clause_truth sql value unparsed

  -- A clause whose tree is checked is true where the tree admits the row.
  read_clause :
      (p : Policy) (n : Node) (otherwise : Bool)
      → checked_ast sql p anon ≡ some n
      → clause_holds truth otherwise (clause_for p select) ≡ admits value n
  unfolding checked_ast clause_holds clause_for clause_truth
  read_clause p n otherwise e = elim (Option-cases p.using_sql) [
    | inl f ↦ absurd (ground (arith, ap (parse_expr sql) f, parse_none sql))
    | inr (c, f) ↦
        let parsed : parse_expr sql (some c) ≡ some n = sym (ap (parse_expr sql) f) ∙ e in
        ap (clause_holds truth otherwise) f
        ∙ ap (λ o. elim o [ none ↦ unparsed c | some m ↦ admits value m ]) parsed
  ]

  floors_hold :
      (rs : List Policy) (ns : List Node) (r : Policy)
      → all_asts sql s is_total anon_roles rs ≡ some ns
      → all (admits value) ns ≡ true
      → In r rs
      → (n : Node) × (checked_ast sql r anon ≡ some n) × (admits value n ≡ true)
  unfolding all_asts all
  floors_hold [] ns r e a m = elim m [ ]
  floors_hold (q ∷ qs) ns r e a m = elim (Option-cases (checked_ast sql q anon)) [
    | inl f ↦ absurd (ground arith)
    | inr (n, f) ↦ elim (Option-cases (all_asts sql s is_total anon_roles qs)) [
      | inl g ↦ absurd (ground arith)
      | inr (ms, g) ↦
          let same : n ∷ ms ≡ ns = ground arith in
          let both : (admits value n && all (admits value) ms) ≡ true =
            ap (all (admits value)) same ∙ a in
          elim (In-cons m) [
            | inl i ↦ (n, ap (λ (z : Policy). checked_ast sql z anon) i ∙ f, and_left _ _ both)
            | inr k ↦ floors_hold qs ms r g (and_right _ _ both) k
          ]
    ]
  ]

  -- A policy that is called reachable is for a role of the session.
  reached :
      (p : Policy)
      → ((r : String) → In r p.roles → canonical_role sql r ≡ r)
      → anon_policy_reachability sql s p anon_roles ≡ reachable
      → intersects (target_roles p) targets ≡ true
  unfolding anon_policy_reachability target_roles
  reached p canonical e = elim (Bool-cases (is_empty p.roles)) [
    | inl k ↦
        rw (k, target_roles)
          (In-intersects ("PUBLIC" ∷ []) targets (here refl)
            ((held "PUBLIC").1 (seeded (In-append_right anon_roles _ (here refl)))))
    | inr k ↦
        let reach = (anon_reachable_roles s anon_roles).0 in
        let meets : intersects (map (canonical_role sql) p.roles) reach ≡ true =
          ground (arith, is_empty-map (canonical_role sql) p.roles) in
        let (x, m, n) = intersects-In (map (canonical_role sql) p.roles) reach meets in
        let (y, i, j) = map-In (canonical_role sql) p.roles m in
        let same : x ≡ y = j ∙ canonical y i in
        let known = (anon_reachable_roles_iff s edges anon_roles captured x).1 in
        rw (k, target_roles)
          (In-intersects p.roles targets i
            (subst (λ z. In z targets) same ((held x).1 (known.0 (In-contains reach n)))))
  ]

  unreached :
      (p : Policy)
      → anon_policy_reachability sql s p anon_roles ≡ unreachable
      → applies p select targets ≡ false
  unreached p e =
      unreachable_applies sql s edges captured p select anon_roles targets e (λ r. (held r).0)

  under_floor-admits :
      (floors : List Node) (n : Node)
      → admits value (under_floor sql s is_total anon_roles floors n) ≡ true
      → (admits value n ≡ true) × (all (admits value) floors ≡ true)
  unfolding all
  under_floor-admits [] n a = (a, refl)
  under_floor-admits (f ∷ fs) n a =
      let both = admits-compose_with_floor value n (f ∷ fs) in ground (arith, both)

  policy_opens :
      (floors : List Node) (p : Policy)
      → ((r : String) → In r p.roles → canonical_role sql r ≡ r)
      → opens_every_row sql s is_total anon_roles floors p ≡ true
      → (grants_row truth select targets p ≡ true) × (all (admits value) floors ≡ true)
  unfolding opens_every_row grants_row applies
  policy_opens floors p canonical e = elim (Option-cases (checked_ast sql p anon)) [
    | inl f ↦ absurd (ground arith)
    | inr (n, f) ↦
        let total : is_total (under_floor sql s is_total anon_roles floors n) ≡ true =
          ground arith in
        let (one, rest) = under_floor-admits floors n (opens _ total) in
        let at : anon_policy_reachability sql s p anon_roles ≡ reachable = ground arith in
        (ground (arith, reads_select p, reached p canonical at, read_clause p n false f), rest)
  ]

  let_through :
      (t : Table) (floors : List Node) (r : Policy)
      → In r t.policies
      → all_asts sql s is_total anon_roles (restrictives sql s is_total anon_roles t) ≡ some floors
      → all (admits value) floors ≡ true
      → lets_row truth select targets r ≡ true
  unfolding lets_row applies
  let_through t floors r m e a =
      let test = λ (p : Policy).
        reads sql s is_total anon_roles p
        && (not p.permissive && not (is_unreached (anon_policy_reachability sql s p anon_roles))) in
      elim (Bool-cases (test r)) [
        | inl k ↦
            let (n, f, h) =
              floors_hold (restrictives sql s is_total anon_roles t) floors r e a
                (filter-In test t.policies m k) in
            ground (arith, read_clause r n true f)
        | inr k ↦ elim (Bool-cases (is_unreached (anon_policy_reachability sql s r anon_roles))) [
          | inl u ↦
              let at : anon_policy_reachability sql s r anon_roles ≡ unreachable = ground arith in
              ground (arith, unreached r at)
          | inr u ↦ ground (arith, reads_select r)
        ]
      ]

  -- Where the direct anonymous read is said to return every row of a table that does not exempt
  -- the session, the policies admit the row at hand to a session that holds the roles of the
  -- closure. The role graph was captured, no role is another spelling of PUBLIC, and a predicate
  -- that is said to leak every row admits this one.
  pub anon_reads_every_row_sound :
      (t : Table)
      → HasCanonical sql t.policies
      → anon_session_exempt sql s t anon_roles ≡ false
      → anon_reads_every_row sql s is_total anon_roles t ≡ true
      → admitted truth select targets t.policies ≡ true
  unfolding anon_reads_every_row admitted
  anon_reads_every_row_sound t canonical x e =
      let asts = all_asts sql s is_total anon_roles (restrictives sql s is_total anon_roles t) in
      elim (Option-cases asts) [
        | inl f ↦ absurd (ground arith)
        | inr (floors, f) ↦
            let some_open : any (opens_every_row sql s is_total anon_roles floors) t.policies
                ≡ true =
              ground arith in
            let (p, m, o) = any-In _ t.policies some_open in
            let (g, a) = policy_opens floors p (canonical p m) o in
            ground (
              arith,
              In-any (grants_row truth select targets) t.policies m g,
              In-all (lets_row truth select targets) t.policies
                  (λ r n. let_through t floors r n f a),
            )
      ]
