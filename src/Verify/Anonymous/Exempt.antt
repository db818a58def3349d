-- ===== src/Verify/Anonymous/Exempt.antt =====
-- `_anon_session_exempt` and `_anon_policy_reachability` of src/pgrls/verify.py beside what
-- PostgreSQL grants a session of an anonymous role.
use pgrls.Prelude.{
  Bool-cases, Bool-ext, ◌==◌, ==→eq, nat_eq, string_eq, bool_eq, pair_eq, option_eq, is_empty,
  filter, In, In-append_right, filter-In, is_empty-map, In-map, flat_map, flat_map-In, here,
  contains, intersects, contains-In, In-contains, intersects-In, In-intersects, String, ◌≡◌, refl,
  sym, ◌∙◌, inl, inr, Bool, true, false, ◌&&◌, ◌||◌, not, some, List, [], ◌∷◌, ◌++◌, map, arith,
}
use pgrls.Model.{Policy, Table, Schema, Role, RoleMembership, Command}
use pgrls.Sql.{Sql}
use pgrls.Rls.{is_owner, applies, target_roles}
use pgrls.Roles.{closure, anon_reachable_roles}
use pgrls.Roles.Closure.{Holds, seeded, inherited, closure_iff, anon_reachable_roles_iff}
use pgrls.Verify.Anonymous.{
  anon_session_exempt, anon_priv_closure, owner_in, bypass_names, is_public, unreachable,
  canonical_role, anon_policy_reachability,
}

-- More seeds hold more.
pub Holds_mono :
    (edges : List RoleMembership) (a b : List String) {r : String}
    → ((x : String) → In x a → In x b)
    → Holds edges a r
    → Holds edges b r
Holds_mono edges a b f (seeded m) = seeded (f _ m)
Holds_mono edges a b f (inherited e m i h k) = inherited e m i (Holds_mono edges a b f h) k

-- What PostgreSQL gives a session of the role: the privileges of the role, and those of the roles
-- that it inherits from.
abbrev pub IsHeldBy : List RoleMembership → String → List String → Type 0
IsHeldBy edges role held = (r : String) → In r held → Holds edges (role ∷ []) r

-- Every role that skips row security is listed as one.
abbrev pub IsListed : Schema → Role → Type 0
IsListed s role =
    (role.superuser || role.bypassrls) ≡ true → contains role.name (bypass_names s) ≡ true

module _ (sql : Sql) (s : Schema) (edges : List RoleMembership)
    (captured : s.role_memberships ≡ some edges) where
  pub priv_closure_captured :
      (anon_roles : List String)
      → anon_priv_closure sql s anon_roles
        ≡ some (
            flat_map (λ r. closure edges (r ∷ [])) (filter (λ r. not (is_public sql r)) anon_roles))
  unfolding anon_priv_closure
  priv_closure_captured anon_roles = rw captured

  -- A role that is held by an anonymous role is in the closure of the privileges.
  pub closure_has :
      (r : String) (anon_roles : List String) (name : String)
      → In name anon_roles
      → is_public sql name ≡ false
      → Holds edges (name ∷ []) r
      → owner_in r (anon_priv_closure sql s anon_roles) ≡ true
  closure_has r anon_roles name m p holds =
      let at_role : In name (filter (λ r. not (is_public sql r)) anon_roles) =
        filter-In (λ r. not (is_public sql r)) anon_roles m (ground arith) in
      let inside = contains-In r _ ((closure_iff edges (name ∷ []) r).1 holds) in
      rw (priv_closure_captured anon_roles)
        (In-contains _ (flat_map-In (λ r. closure edges (r ∷ [])) _ at_role inside))

  pub owner_reached :
      (owner : String) (anon_roles : List String) (role : Role) (held : List String)
      → In role.name anon_roles
      → is_public sql role.name ≡ false
      → IsHeldBy edges role.name held
      → is_owner role owner held ≡ true
      → owner_in owner (anon_priv_closure sql s anon_roles) ≡ true
  unfolding is_owner
  owner_reached owner anon_roles role held m p h o =
      closure_has owner anon_roles role.name m p (elim (Bool-cases (owner == role.name)) [
        | inl k ↦ seeded (here (==→eq owner role.name k))
        | inr k ↦ h owner (contains-In owner held (ground arith))
      ])

  listed_free :
      (skips : Bool) (name : String) (anon_roles : List String)
      → intersects (bypass_names s) anon_roles ≡ false
      → In name anon_roles
      → (skips ≡ true → contains name (bypass_names s) ≡ true)
      → skips ≡ false
  listed_free false name anon_roles free m l = refl
  listed_free true name anon_roles free m l = absurd (
      ground (
        arith,
        In-intersects (bypass_names s) anon_roles (contains-In name (bypass_names s) (l refl)) m,
      ))

  -- x
  pub anon_session_exempt_sound :
      (t : Table) (anon_roles : List String) (role : Role) (held : List String)
      → anon_session_exempt sql s t anon_roles ≡ false
      → In role.name anon_roles
      → is_public sql role.name ≡ false
      → IsListed s role
      → IsHeldBy edges role.name held
      → ((role.superuser || role.bypassrls) ≡ false)
        × ((is_owner role t.owner held && not t.force_rls) ≡ false)
  unfolding anon_session_exempt is_owner
  anon_session_exempt_sound t anon_roles role held e m p l h =
      let free : intersects (bypass_names s) anon_roles ≡ false = ground arith in
      (
        listed_free (role.superuser || role.bypassrls) role.name anon_roles free m l,
        ground (arith, owner_reached t.owner anon_roles role held m p h),
      )

  met :
      (p : Policy) (anon_roles targets : List String)
      → intersects (map (canonical_role sql) p.roles) (anon_reachable_roles s anon_roles).0 ≡ false
      → ((r : String) → In r targets → Holds edges (anon_roles ++ "PUBLIC" ∷ []) r)
      → intersects p.roles targets ≡ false
  met p anon_roles targets apart h =
      let reach = (anon_reachable_roles s anon_roles).0 in
      let reached = λ (r : String) (k : Holds edges (anon_roles ++ "PUBLIC" ∷ []) r).
        contains-In r reach (((anon_reachable_roles_iff s edges anon_roles captured r).1).1 k) in
      Bool-ext _ false
        (λ i.
          let (x, a, b) = intersects-In p.roles targets i in
          sym apart
          ∙ In-intersects (map (canonical_role sql) p.roles) reach (In-map (canonical_role sql) a)
              (elim (Bool-cases (sql.lower x == "public")) [
                | inl k ↦
                    rw k (reached "PUBLIC" (seeded (In-append_right anon_roles _ (here refl))))
                | inr k ↦ rw k (reached x (h x b))
              ]))
        (λ f. absurd (ground arith))

  -- x
  pub unreachable_applies :
      (p : Policy) (command : Command) (anon_roles targets : List String)
      → anon_policy_reachability sql s p anon_roles ≡ unreachable
      → ((r : String) → In r targets → Holds edges (anon_roles ++ "PUBLIC" ∷ []) r)
      → applies p command targets ≡ false
  unfolding anon_policy_reachability applies target_roles
  unreachable_applies p command anon_roles targets e h =
      let reach = (anon_reachable_roles s anon_roles).0 in
      let apart : intersects (map (canonical_role sql) p.roles) reach ≡ false = ground arith in
      let named : is_empty p.roles ≡ false =
        sym (is_empty-map (canonical_role sql) p.roles) ∙ ground arith in
      ground (arith, met p anon_roles targets apart h)
