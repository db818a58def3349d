-- ===== src/Verify/Gates.antt =====
-- src/pgrls/verify.py: the tree that is checked for a policy (`effective_write_check`,
-- `old_row_write_gate`, `_or_gates`, `checked_ast`, `_compose_with_floor`), and which restrictive
-- policies join it (`_write_ops`, `_floor_applies`). The trees of a policy are those of its texts.
pub mod Sound
pub mod Floors
use pgrls.Prelude.{
  ltb, leb, nat_eqb, nat_eqb_iff, if◌then◌else◌, Bool-cases, Option-cases, Bool-ext, and_left,
  and_right, Eq, ◌==◌, ==→eq, ==_refl, nat_eq, string_eq, bool_eqb, bool_eqb_iff, bool_eq, pair_eqb,
  pair_eqb_iff, pair_eq, option_eqb, option_eqb_iff, option_eq, length, length-append, is_empty,
  any, all, filter, is_empty-append, any-append, all-append, is_empty-filter, In, In-cons,
  In-cons_mono, In-swap, In-append, In-append_left, In-append_right, any-In, In-any, all-In, In-all,
  In-filter, filter-In, length-map, is_empty-map, any-map_never, In-map, map-In, flat_map,
  all-flat_map, flat_map-In, In-flat_map, here, there, contains, dedup, difference, subset,
  same_set, strict_subset, intersects, contains-In, In-contains, contains_head, contains_cons,
  contains-append, In-subset, subset-In, intersects-In, In-intersects, In-dedup, dedup-In,
  is_empty-dedup, insert_by, sort_by, is_empty-sort_by, sort_by-In, In-sort_by, find_last,
  find_last-In, In-find_last, Distinct, find_last-Distinct, concat, join, str_le, unseen,
  unseen-le-length, unseen_mono, unseen_strict, ℕ, zero, suc, ◌+◌, ◌-◌, ◌*◌, ◌/◌, ◌%◌, ◌≤◌, ◌<◌,
  String, ◌≡◌, refl, sym, ap, subst, ◌∙◌, ◌≢◌, ◌↔◌, ◌⊎◌, inl, inr, Bool, true, false, ◌&&◌, ◌||◌,
  not, Option, none, some, List, [], ◌∷◌, ◌++◌, map, arith, eq_iff,
}
use pgrls.Model.{Policy, Command, command_eq, for_all, select, insert, update, delete}
use pgrls.Sql.{
  Sql, Node, Nodes, node_eq, bool_expr, nil, cons, and_expr, or_expr, of_list, parse_expr,
}
use pgrls.Verify.{Mode, is_write}

-- `_WRITE_COMMANDS`
unfoldable pub write_commands : List Command
write_commands = for_all ∷ insert ∷ update ∷ delete ∷ []

abbrev pub missing : {A : Type 0} → Option A → Bool
missing none = true
missing (some a) = false

module _ (sql : Sql) where
  abbrev pub using_ast : Policy → Option Node
  using_ast p = parse_expr sql p.using_sql

  abbrev pub with_check_ast : Policy → Option Node
  with_check_ast p = parse_expr sql p.with_check_sql

  unfoldable pub effective_write_check : Policy → Option Node
  unfolding write_commands
  effective_write_check p =
      if not (contains p.command write_commands) then none else elim (with_check_ast p) [
        | some n ↦ some n
        | none ↦ if p.command == update || p.command == for_all then using_ast p else none
      ]

  unfoldable pub old_row_write_gate : Policy → Option Node
  old_row_write_gate p =
      if p.command == update || (p.command == delete || p.command == for_all)
      then using_ast p
      else none

-- `[g for g in gates if g is not None]`
unfoldable pub present : List (Option Node) → List Node
present [] = []
present (none ∷ gs) = present gs
present (some g ∷ gs) = g ∷ present gs

-- The gates that are not seen yet, in order.
unfoldable pub first_seen : List Node → List Node → List Node
first_seen seen [] = []
first_seen seen (g ∷ gs) =
    let skip = first_seen seen gs in
    let keep = g ∷ first_seen (g ∷ seen) gs in if contains g seen then skip else keep

unfoldable pub one_or_any : List Node → Option Node
one_or_any [] = none
one_or_any (g ∷ []) = some g
one_or_any (g ∷ h ∷ gs) = some (bool_expr or_expr (of_list (g ∷ h ∷ gs)))

-- `_or_gates`
unfoldable pub or_gates : List (Option Node) → Option Node
unfolding one_or_any
or_gates gates = one_or_any (first_seen [] (present gates))

module _ (sql : Sql) where
  -- A clause that exists and does not parse is never read as one that is absent.
  unfoldable pub checked_ast : Policy → Mode → Option Node
  checked_ast p mode =
      if not (is_write mode)
      then using_ast sql p
      else if not (missing p.with_check_sql) && missing (with_check_ast sql p)
      then none
      else if (p.command == update || (p.command == delete || p.command == for_all))
          && (not (missing p.using_sql) && missing (using_ast sql p))
      then none
      else or_gates (effective_write_check sql p ∷ old_row_write_gate sql p ∷ [])

-- `_compose_with_floor`
unfoldable pub compose_with_floor : Node → List Node → Node
compose_with_floor permissive floor_asts = bool_expr and_expr (cons permissive (of_list floor_asts))

-- `_write_ops`
unfoldable pub write_ops : Command → List Command
write_ops c = if c == for_all then insert ∷ update ∷ delete ∷ [] else c ∷ []

-- `_floor_applies`
unfoldable pub floor_applies : Policy → Policy → Mode → Bool
floor_applies permissive restrictive mode =
    if not (contains "PUBLIC" restrictive.roles)
      && (contains "PUBLIC" permissive.roles || not (subset permissive.roles restrictive.roles))
    then false
    else if is_write mode
    then subset (write_ops permissive.command) (write_ops restrictive.command)
    else true
