-- ===== src/Verify/Anonymous.antt =====
-- src/pgrls/verify.py: the sessions of an anonymous caller, and which tables row security does not
-- keep from it.
pub mod Exempt
pub mod Doors
use pgrls.Prelude.{
  ltb, leb, nat_eqb, nat_eqb_iff, if◌then◌else◌, Bool-cases, Option-cases, Bool-ext, and_left,
  and_right, Eq, ◌==◌, ==→eq, ==_refl, nat_eq, string_eq, bool_eqb, bool_eqb_iff, bool_eq, pair_eqb,
  pair_eqb_iff, pair_eq, option_eqb, option_eqb_iff, option_eq, length, length-append, is_empty,
  any, all, filter, is_empty-append, any-append, all-append, is_empty-filter, In, In-cons,
  In-cons_mono, In-swap, In-append, In-append_left, In-append_right, any-In, In-any, all-In, In-all,
  In-filter, filter-In, length-map, is_empty-map, any-map_never, In-map, map-In, flat_map,
  all-flat_map, flat_map-In, In-flat_map, here, there, contains, dedup, difference, subset,
  same_set, strict_subset, intersects, contains-In, In-contains, contains_head, contains_cons,
  contains-append, In-subset, subset-In, intersects-In, In-intersects, In-dedup, dedup-In,
  is_empty-dedup, insert_by, sort_by, is_empty-sort_by, sort_by-In, In-sort_by, find_last,
  find_last-In, In-find_last, Distinct, find_last-Distinct, concat, join, str_le, unseen,
  unseen-le-length, unseen_mono, unseen_strict, ℕ, zero, suc, ◌+◌, ◌-◌, ◌*◌, ◌/◌, ◌%◌, ◌≤◌, ◌<◌,
  String, ◌≡◌, refl, sym, ap, subst, ◌∙◌, ◌≢◌, ◌↔◌, ◌⊎◌, inl, inr, Bool, true, false, ◌&&◌, ◌||◌,
  not, Option, none, some, List, [], ◌∷◌, ◌++◌, map, arith, eq_iff,
}
use pgrls.Model.{Policy, Table, Schema, RoleMembership, BypassRlsRole, Grant, ColumnGrant}
use pgrls.Sql.{Sql}
use pgrls.Roles.{closure, inherit_closure, anon_reachable_roles}

-- `anon_roles if anon_roles else {"anon", "PUBLIC"}`
unfoldable pub resolved_anon_roles : List String → List String
resolved_anon_roles anon_roles = if is_empty anon_roles then "anon" ∷ "PUBLIC" ∷ [] else anon_roles

abbrev pub turned : RoleMembership → RoleMembership
turned e = record { member = e.role; role = e.member; inherit = true }

abbrev pub owner_in : String → Option (List String) → Bool
owner_in owner none = false
owner_in owner (some roles) = contains owner roles

abbrev pub bypass_names : Schema → List String
bypass_names s = map (λ (r : BypassRlsRole). r.name) s.bypassrls_roles

-- A dict of settings: the names with their values, each name once.
abbrev pub GucState : Type 0
GucState = List (String × Option String)

-- `state[name] = value`
unfoldable pub put_guc : String → Option String → GucState → GucState
put_guc n v [] = (n, v) ∷ []
put_guc n v ((m, w) ∷ state) =
    let rest = put_guc n v state in if m == n then (m, v) ∷ state else (m, w) ∷ rest

-- The answers of `_anon_policy_reachability`.
pub data Reach : Type 0 where
  reachable unreachable unknown : Reach

module _ (sql : Sql) where
  -- `state.update({n.lower(): v for n, v in settings})`
  unfoldable pub update_gucs : GucState → List (String × Option String) → GucState
  unfolding put_guc
  update_gucs state [] = state
  update_gucs state ((n, v) ∷ settings) = update_gucs (put_guc (sql.lower n) v state) settings

  abbrev pub is_public : String → Bool
  is_public r = sql.upper r == "PUBLIC"

  -- `_anon_login_roles`: the loop is that of `closure`, along every edge and from the role to its
  -- members.
  unfoldable pub anon_login_roles : Schema → List String → List String
  anon_login_roles s anon_roles =
      let named = if is_empty anon_roles then "anon" ∷ [] else anon_roles in
      let seed = filter (λ r. not (is_public r)) named in
      elim s.role_memberships [ none ↦ seed | some edges ↦ closure (map turned edges) seed ]

  abbrev pub settings_of : Schema → String → List (String × Option String)
  settings_of s role =
      map (λ (g : String × (String × Option String)). g.1)
        (filter (λ (g : String × (String × Option String)). g.0 == role) s.role_set_gucs)

  -- The loop over the login roles: a state is kept once.
  unfoldable pub guc_states : Schema → GucState → List GucState → List String → List GucState
  unfolding update_gucs
  guc_states s base states [] = states
  guc_states s base states (role ∷ roles) =
      let state = update_gucs base (settings_of s role) in
      let seen = any (λ old. same_set state old) states in
      guc_states s base (if seen then states else states ++ state ∷ []) roles

  -- `_anon_set_gucs`
  unfoldable pub anon_set_gucs : Schema → List String → List GucState
  unfolding guc_states
  anon_set_gucs s anon_roles =
      let base = update_gucs [] s.set_gucs in
      let states = guc_states s base [] (sort_by str_le (dedup (anon_login_roles s anon_roles))) in
      if is_empty states then base ∷ [] else states

  -- `_anon_priv_closure`: `none` where the graph was not captured
  unfoldable pub anon_priv_closure : Schema → List String → Option (List String)
  anon_priv_closure s anon_roles = elim s.role_memberships [
    | none ↦ none
    | some edges ↦
        some (flat_map (λ r. closure edges (r ∷ [])) (filter (λ r. not (is_public r)) anon_roles))
  ]

  -- `_anon_exempting_roles`
  unfoldable pub anon_exempting_roles : Schema → Table → List String → List String
  anon_exempting_roles s t anon_roles =
      let named = filter (λ r. not (is_public r)) anon_roles in
      let out = filter (λ r. contains r (bypass_names s)) named in
      if not t.force_rls && not (t.owner == "")
      then out ++ filter (λ r. owner_in t.owner (anon_priv_closure s (r ∷ []))) named
      else out

  -- `_anon_session_exempt`
  unfoldable pub anon_session_exempt : Schema → Table → List String → Bool
  anon_session_exempt s t anon_roles =
      if intersects (bypass_names s) anon_roles
      then true
      else if t.force_rls || t.owner == ""
      then false
      else owner_in t.owner (anon_priv_closure s anon_roles)

  abbrev pub canonical_role : String → String
  canonical_role r = if sql.lower r == "public" then "PUBLIC" else r

  unfoldable pub anon_policy_reachability : Schema → Policy → List String → Reach
  unfolding anon_reachable_roles
  anon_policy_reachability s p anon_roles =
      let reach = anon_reachable_roles s anon_roles in
      let roles = map canonical_role p.roles in
      if is_empty roles || intersects roles reach.0
      then reachable
      else if reach.1
      then unreachable
      else unknown
