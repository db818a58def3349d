-- ===== src/Diff.antt =====
-- src/pgrls/diff/differ.py: the changes between two schemas, by kind and classification.
pub mod Predicates
pub mod Policies
pub mod Shapes
pub mod Grants
pub mod Renames
pub mod Schemas
use pgrls.Prelude.{
  ltb, leb, nat_eqb, nat_eqb_iff, if◌then◌else◌, Bool-cases, Option-cases, Bool-ext, and_left,
  and_right, Eq, ◌==◌, ==→eq, ==_refl, nat_eq, string_eq, bool_eqb, bool_eqb_iff, bool_eq, pair_eqb,
  pair_eqb_iff, pair_eq, option_eqb, option_eqb_iff, option_eq, length, length-append, is_empty,
  any, all, filter, is_empty-append, any-append, is_empty-filter, In, In-cons, In-cons_mono,
  In-swap, In-append, In-append_left, In-append_right, any-In, In-any, all-In, In-all, In-filter,
  filter-In, length-map, is_empty-map, any-map_never, In-map, map-In, here, there, contains, dedup,
  difference, subset, same_set, strict_subset, intersects, contains-In, In-contains, contains_head,
  contains_cons, contains-append, In-subset, subset-In, intersects-In, In-intersects, In-dedup,
  dedup-In, is_empty-dedup, insert_by, sort_by, is_empty-sort_by, sort_by-In, In-sort_by, find_last,
  find_last-In, In-find_last, Distinct, find_last-Distinct, concat, join, str_le, unseen,
  unseen-le-length, unseen_mono, unseen_strict, ℕ, zero, suc, ◌+◌, ◌-◌, ◌*◌, ◌/◌, ◌%◌, ◌≤◌, ◌<◌,
  String, ◌≡◌, refl, sym, ap, subst, ◌∙◌, ◌≢◌, ◌↔◌, ◌⊎◌, inl, inr, Bool, true, false, ◌&&◌, ◌||◌,
  not, Option, none, some, List, [], ◌∷◌, ◌++◌, map, arith, eq_iff,
}

-- The classification of a change.
pub data Classification : Type 0 where
  safe breaking review dangerous : Classification

abbrev pub is_safe : Classification → Bool
is_safe safe = true
is_safe breaking = false
is_safe review = false
is_safe dangerous = false

pub data ChangeKind : Type 0 where
  rls_flipped force_rls_flipped : ChangeKind
  table_added_with_rls table_added_without_rls table_dropped : ChangeKind
  policy_added_restrictive policy_added_permissive : ChangeKind
  policy_dropped_restrictive policy_dropped_permissive policy_renamed : ChangeKind
  permissive_flag_tightened permissive_flag_loosened : ChangeKind
  command_broadened command_narrowed : ChangeKind
  roles_widened roles_narrowed roles_disjoint_replaced : ChangeKind
  using_tightened using_loosened using_requires_review : ChangeKind
  with_check_tightened with_check_loosened with_check_requires_review : ChangeKind
  column_dropped_referenced : ChangeKind
  grant_revoked grant_added grant_public_no_rls : ChangeKind

pub record Change : Type 0 where
  pub kind : ChangeKind
  pub classification : Classification
  pub location : String
  pub message : String
  pub before_sql : Option String
  pub after_sql : Option String
  pub counterexample : Option (List (String × String))

-- A change with no SQL pair and no counterexample.
unfoldable pub change : ChangeKind → Classification → String → String → Change
change kind classification location message = record {
  kind = kind;
  classification = classification;
  location = location;
  message = message;
  before_sql = none;
  after_sql = none;
  counterexample = none;
}

unfoldable pub all_safe : List Change → Bool
all_safe cs = all (λ (c : Change). is_safe c.classification) cs
