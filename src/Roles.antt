-- ===== src/Roles.antt =====
-- src/pgrls/verify.py, `_inherit_closure` and `_anon_reachable_roles`: the roles whose privileges a
-- session holds. Sets of roles are lists read by `contains`.
pub mod Closure
use pgrls.Prelude.{
  ltb, leb, nat_eqb, nat_eqb_iff, if◌then◌else◌, Bool-cases, Option-cases, Bool-ext, Eq, ◌==◌,
  ==→eq, ==_refl, nat_eq, string_eq, bool_eqb, bool_eqb_iff, bool_eq, pair_eqb, pair_eqb_iff,
  pair_eq, option_eqb, option_eqb_iff, option_eq, length, length-append, is_empty, any, all, filter,
  In, In-cons, In-cons_mono, In-swap, In-append, In-append_left, In-append_right, any-In, In-any,
  all-In, In-all, In-filter, filter-In, length-map, In-map, map-In, here, there, contains, dedup,
  difference, subset, same_set, strict_subset, intersects, contains-In, In-contains, contains_head,
  contains_cons, contains-append, In-subset, subset-In, intersects-In, In-intersects, In-dedup,
  dedup-In, insert_by, sort_by, sort_by-In, In-sort_by, find_last, find_last-In, In-find_last,
  concat, join, str_le, unseen, unseen-le-length, unseen_mono, unseen_strict, ℕ, zero, suc, ◌+◌,
  ◌-◌, ◌*◌, ◌/◌, ◌%◌, ◌≤◌, ◌<◌, String, ◌≡◌, refl, sym, ap, subst, ◌∙◌, ◌≢◌, ◌↔◌, ◌⊎◌, inl, inr,
  Bool, true, false, ◌&&◌, ◌||◌, not, Option, none, some, List, [], ◌∷◌, ◌++◌, map, arith, eq_iff,
}
use pgrls.Model.{RoleMembership, Schema}

-- The test of the inner loop.
unfoldable pub adds : RoleMembership → List String → Bool
adds edge reach = edge.inherit && contains edge.member reach && not (contains edge.role reach)

-- One pass of `for edge in schema.role_memberships`, with the flag `changed`.
unfoldable pub scan : List RoleMembership → List String → Bool → List String × Bool
unfolding adds
scan [] reach changed = (reach, changed)
scan (edge ∷ edges) reach changed = elim (adds edge reach) [
  | true ↦ scan edges (edge.role ∷ reach) true
  | false ↦ scan edges reach changed
]

-- `while changed`. The fuel is the number of edges and one more; `Closure` shows that it is enough.
unfoldable pub close : ℕ → List RoleMembership → List String → List String
unfolding scan
close zero edges reach = reach
close (suc fuel) edges reach =
    let pass = scan edges reach false in
    elim pass.1 [ true ↦ close fuel edges pass.0 | false ↦ pass.0 ]

unfoldable pub closure : List RoleMembership → List String → List String
unfolding close
closure edges seed = close (suc (length edges)) edges seed

-- `none` where the graph was not captured
unfoldable pub inherit_closure : Schema → String → Option (List String)
unfolding closure
inherit_closure s role = elim s.role_memberships [
  | none ↦ none
  | some edges ↦ some (closure edges (role ∷ []))
]

-- The roles, and whether the set is complete.
unfoldable pub anon_reachable_roles : Schema → List String → List String × Bool
unfolding closure
anon_reachable_roles s anon_roles =
    let seed = anon_roles ++ "PUBLIC" ∷ [] in
    elim s.role_memberships [ none ↦ (seed, false) | some edges ↦ (closure edges seed, true) ]
