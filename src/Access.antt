-- ===== src/Access.antt =====
-- src/pgrls/access.py: what one role reaches of one table, and how the ways to it are merged.
pub mod Privileges
pub mod Cells
pub mod Merge
use pgrls.Prelude.{
  ltb, leb, nat_eqb, nat_eqb_iff, if◌then◌else◌, Bool-cases, Option-cases, Bool-ext, Eq, ◌==◌,
  ==→eq, ==_refl, nat_eq, string_eq, bool_eqb, bool_eqb_iff, bool_eq, pair_eqb, pair_eqb_iff,
  pair_eq, option_eqb, option_eqb_iff, option_eq, length, length-append, is_empty, any, all, filter,
  In, In-cons, In-cons_mono, In-swap, In-append, In-append_left, In-append_right, any-In, In-any,
  all-In, In-all, In-filter, filter-In, length-map, In-map, map-In, here, there, contains, dedup,
  difference, subset, same_set, strict_subset, intersects, contains-In, In-contains, contains_head,
  contains_cons, contains-append, In-subset, subset-In, intersects-In, In-intersects, In-dedup,
  dedup-In, insert_by, sort_by, sort_by-In, In-sort_by, find_last, find_last-In, In-find_last,
  concat, join, str_le, unseen, unseen-le-length, unseen_mono, unseen_strict, ℕ, zero, suc, ◌+◌,
  ◌-◌, ◌*◌, ◌/◌, ◌%◌, ◌≤◌, ◌<◌, String, ◌≡◌, refl, sym, ap, subst, ◌∙◌, ◌≢◌, ◌↔◌, ◌⊎◌, inl, inr,
  Bool, true, false, ◌&&◌, ◌||◌, not, Option, none, some, List, [], ◌∷◌, ◌++◌, map, arith, eq_iff,
}
use pgrls.Model.{Command, Grant, ColumnGrant, Table}

pub data Verdict : Type 0 where
  opened denied conditional undecided : Verdict

-- Widest first.
unfoldable pub rank : Verdict → ℕ
rank opened = 3
rank undecided = 2
rank conditional = 1
rank denied = 0

pub record Cell : Type 0 where
  pub verdict : Verdict
  pub predicate : Option String
  pub note : Option String
  pub session : Option String
  pub privileges : Option String

-- `Cell(verdict, note=note)`
abbrev pub noted : Verdict → String → Cell
noted v note = record {
  verdict = v;
  predicate = none;
  note = some note;
  session = none;
  privileges = none;
}

-- `Cell(verdict)`
abbrev pub bare : Verdict → Cell
bare v = record { verdict = v; predicate = none; note = none; session = none; privileges = none }

-- `Cell("conditional", predicate=predicate)`
abbrev pub filtered : String → Cell
filtered p = record {
  verdict = conditional;
  predicate = some p;
  note = none;
  session = none;
  privileges = none;
}

pub data PathKind : Type 0 where
  superuser data_role owner owner_member grant public_grant column_grant view function : PathKind
  trigger rule parent foreign_key : PathKind

pub record AccessPath : Type 0 where
  pub kind : PathKind
  pub via : Option String
  pub columns : Option (List String)
  pub hops : List String

abbrev pub via_path : PathKind → String → AccessPath
via_path k v = record { kind = k; via = some v; columns = none; hops = [] }

-- What a privilege check reads of a table or a view.
pub record Relation : Type 0 where
  pub owner : String
  pub grants : List Grant
  pub column_grants : List ColumnGrant

abbrev pub relation_of : Table → Relation
relation_of t = record { owner = t.owner; grants = t.grants; column_grants = t.column_grants }
