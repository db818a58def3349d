-- ===== src/Access/Merge.antt =====
-- `_merge` and `_fold` of src/pgrls/access.py. `_dependence`, which parses a predicate and asks what
-- it reads, is the parameter `dependence`: does the predicate depend on who is `current_user`, and
-- on whose privileges read its sub-selects.
pub mod Rows
pub mod Folds
use pgrls.Prelude.{
  ltb, leb, nat_eqb, nat_eqb_iff, if◌then◌else◌, Bool-cases, Option-cases, Bool-ext, Eq, ◌==◌,
  ==→eq, ==_refl, nat_eq, string_eq, bool_eqb, bool_eqb_iff, bool_eq, pair_eqb, pair_eqb_iff,
  pair_eq, option_eqb, option_eqb_iff, option_eq, length, length-append, is_empty, any, all, filter,
  In, In-cons, In-cons_mono, In-swap, In-append, In-append_left, In-append_right, any-In, In-any,
  all-In, In-all, In-filter, filter-In, length-map, In-map, map-In, here, there, contains, dedup,
  difference, subset, same_set, strict_subset, intersects, contains-In, In-contains, contains_head,
  contains_cons, contains-append, In-subset, subset-In, intersects-In, In-intersects, In-dedup,
  dedup-In, insert_by, sort_by, sort_by-In, In-sort_by, find_last, find_last-In, In-find_last,
  concat, join, str_le, unseen, unseen-le-length, unseen_mono, unseen_strict, ℕ, zero, suc, ◌+◌,
  ◌-◌, ◌*◌, ◌/◌, ◌%◌, ◌≤◌, ◌<◌, String, ◌≡◌, refl, sym, ap, subst, ◌∙◌, ◌≢◌, ◌↔◌, ◌⊎◌, inl, inr,
  Bool, true, false, ◌&&◌, ◌||◌, not, Option, none, some, List, [], ◌∷◌, ◌++◌, map, arith, eq_iff,
}
use pgrls.Access.{Verdict, opened, denied, conditional, undecided, rank, Cell, noted, AccessPath}

abbrev pub is_denied : Verdict → Bool
is_denied denied = true
is_denied _ = false

abbrev pub is_conditional : Verdict → Bool
is_conditional conditional = true
is_conditional _ = false

-- `if text:` for a text or None
abbrev pub has_text : Option String → Bool
has_text none = false
has_text (some s) = not (s == "")

-- A value inside an f-string.
abbrev pub shown : Option String → String
shown none = "None"
shown (some s) = s

-- `a or b`
abbrev pub or_else : Option String → Option String → Option String
or_else a b = if has_text a then a else b

unfoldable pub norm : Option String → Option String → Option String
norm me who = if who == me then none else who

-- "; ".join(n for n in (cell.note, also) if n) or None
unfoldable pub joined_note : Option String → Option String → Option String
joined_note note door_note =
    if has_text note
    then (if has_text door_note
        then some (concat (shown note ∷ "; also " ∷ shown door_note ∷ []))
        else note)
    else if has_text door_note
    then some (concat ("also " ∷ shown door_note ∷ []))
    else none

unfoldable pub first_path : Cell → String
first_path cell =
    if has_text cell.predicate && not (has_text cell.note)
    then concat ("directly where " ∷ shown cell.predicate ∷ [])
    else shown (or_else cell.note cell.predicate)

unfoldable pub two_filters : Cell → Cell → Cell
unfolding first_path
two_filters cell door = noted undecided (
    concat (
      "two filtered paths — "
      ∷ first_path cell
      ∷ "; and "
      ∷ shown (or_else door.note door.predicate)
      ∷ " — whose union cannot be bounded"
      ∷ []))

-- The test that two equal predicates are evaluated alike.
unfoldable pub alike : Bool × Bool → Option String → Cell → Cell → Bool
unfolding norm
alike (on_session, on_relations) me cell door =
    (not on_session || norm me door.session == norm me cell.session)
    && (not on_relations || norm me door.privileges == norm me cell.privileges)

module _ (dependence : String → Bool × Bool) where
  unfoldable pub merge_filters : Option String → Cell → Cell → Cell
  unfolding joined_note two_filters alike
  merge_filters me cell door = elim door.predicate [
    | none ↦ two_filters cell door
    | some p ↦
        if some p == cell.predicate && alike (dependence p) me cell door
        then record cell { note = joined_note cell.note door.note }
        else two_filters cell door
  ]

  -- `me` is the role whose cell this is.
  unfoldable pub merge : Option String → Cell → Cell → Cell
  unfolding merge_filters rank
  merge me cell door =
      if is_denied door.verdict
      then cell
      else if ltb (rank cell.verdict) (rank door.verdict)
      then door
      else if is_conditional cell.verdict && is_conditional door.verdict
      then merge_filters me cell door
      else cell

  -- The sort key: (-RANK, note or "", via or "").
  unfoldable pub door_le : Cell × AccessPath → Cell × AccessPath → Bool
  door_le (c, p) (d, q) =
      let note_c = shown (or_else c.note (some "")) in
      let note_d = shown (or_else d.note (some "")) in
      if not (rank c.verdict == rank d.verdict)
      then ltb (rank d.verdict) (rank c.verdict)
      else if not (note_c == note_d)
      then str_le note_c note_d
      else str_le (shown (or_else p.via (some ""))) (shown (or_else q.via (some "")))

  unfoldable pub merge_all : Option String → Cell → List (Cell × AccessPath) → Cell
  unfolding merge
  merge_all me cell [] = cell
  merge_all me cell ((door, path) ∷ doors) = merge_all me (merge me cell door) doors

  unfoldable pub fold : Option String → Cell → List (Cell × AccessPath) → Cell
  unfolding merge_all door_le
  fold me cell doors = merge_all me cell (sort_by door_le doors)
