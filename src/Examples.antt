-- ===== src/Examples.antt =====
-- Concrete values: a parser of a few clauses, two versions of a table, a role graph and a solver.
pub mod Clauses
pub mod Changes
pub mod Cells
pub mod Floors
pub mod Findings
pub mod Provers
pub mod Verdicts
pub mod Doors
pub mod Deltas
pub mod Covered
use pgrls.Prelude.{
  ltb, leb, nat_eqb, nat_eqb_iff, if◌then◌else◌, Bool-cases, Option-cases, Bool-ext, and_left,
  and_right, Eq, ◌==◌, ==→eq, ==_refl, nat_eq, string_eq, bool_eqb, bool_eqb_iff, bool_eq, pair_eqb,
  pair_eqb_iff, pair_eq, option_eqb, option_eqb_iff, option_eq, length, length-append, is_empty,
  any, all, filter, is_empty-append, any-append, all-append, is_empty-filter, In, In-cons,
  In-cons_mono, In-swap, In-append, In-append_left, In-append_right, any-In, In-any, all-In, In-all,
  In-filter, filter-In, length-map, is_empty-map, any-map_never, In-map, map-In, flat_map,
  all-flat_map, flat_map-In, In-flat_map, here, there, contains, dedup, difference, subset,
  same_set, strict_subset, intersects, contains-In, In-contains, contains_head, contains_cons,
  contains-append, In-subset, subset-In, intersects-In, In-intersects, In-dedup, dedup-In,
  is_empty-dedup, insert_by, sort_by, is_empty-sort_by, sort_by-In, In-sort_by, find_last,
  find_last-In, In-find_last, Distinct, find_last-Distinct, concat, join, str_le, unseen,
  unseen-le-length, unseen_mono, unseen_strict, ℕ, zero, suc, ◌+◌, ◌-◌, ◌*◌, ◌/◌, ◌%◌, ◌≤◌, ◌<◌,
  String, ◌≡◌, refl, sym, ap, subst, ◌∙◌, ◌≢◌, ◌↔◌, ◌⊎◌, inl, inr, Bool, true, false, ◌&&◌, ◌||◌,
  not, Option, none, some, List, [], ◌∷◌, ◌++◌, map, arith, eq_iff,
}
use Prim.Native.String.{◌++◌ as ◌+++◌, count}
use text.Mathlib.TextLemmas.{length-append as count-append}
use pgrls.Model.{
  Policy, Table, Grant, Role, RoleMembership, Schema, Command, for_all, select, insert,
}
use pgrls.Sql.{
  Sql, parse_expr, Node, Nodes, bool_expr, leaf, and_expr, or_expr, not_expr, nil, cons, to_list,
}
use pgrls.Sql.Truth.{Truth, holds, fails, null, is_true}
use pgrls.Sql.Keys.{TellsApart, key_text, tagged, tree}
use pgrls.Sql.Shape.{shape}
use pgrls.Access.Cells.Clauses.{KnowsTrue}
use pgrls.Diff.Predicates.{Solver, and_clauses, or_clauses}
use pgrls.Diff.Predicates.Solved.{SolverLaws, IsNonNull}
use pgrls.Diff.Predicates.Sound.{parts}
use pgrls.Diff.Shapes.Clauses.{Clear}

-- `kind IN (1)`
abbrev pub in_one : Node
in_one = leaf "a"

-- `kind IN (1, 2)`
abbrev pub in_two : Node
in_two = leaf "b"

abbrev pub both : Node
both = bool_expr and_expr (cons in_one (cons in_two nil))

abbrev demo_parse : String → Option Node
demo_parse s = if s == "a AND b" then some both else some (leaf s)

abbrev demo_dump : Node → String
demo_dump (leaf s) = s
demo_dump (bool_expr op ns) = "BoolExpr"

abbrev demo_digest : String → String
demo_digest s = if s == "a" then "1" else if s == "b" then "2" else "3"

-- A printer that renders no node.
abbrev pub demo_sql : Sql
demo_sql = record {
  parse = demo_parse;
  literal_true = λ s. s == "true";
  leaf_refs = λ s. (s ∷ []) ∷ [];
  faithful_sql = λ n. none;
  node_type = λ n. "A_Expr";
  dump = demo_dump;
  digest = demo_digest;
  lower = λ s. if s == "PUBLIC" then "public" else s;
  upper = λ s. if s == "public" then "PUBLIC" else s;
  repr = λ s. s;
  repr_list = λ ss. join ", " ss;
}

-- A row of kind 1.
abbrev pub demo_value : String → Truth
demo_value s =
    if s == "a" then holds else if s == "b" then holds else if s == "true" then holds else null

abbrev pub demo_unparsed : String → Bool
demo_unparsed s = false

pub data Kind : Type 0 where
  first second third : Kind

abbrev pub kind_value : Kind → String → Truth
kind_value first s = demo_value s
kind_value second s = if s == "a" then fails else demo_value s
kind_value third s = if s == "a" then fails else if s == "b" then fails else demo_value s

abbrev known_leaf : String → Option (Kind → Bool)
known_leaf s =
    if s == "a"
    then some (λ k. is_true (kind_value k "a"))
    else if s == "b"
    then some (λ k. is_true (kind_value k "b"))
    else none

abbrev every_kind : (Kind → Bool) → Bool
every_kind f = f first && (f second && f third)

-- Its formulas are sets of rows, and it answers UNSAT of the empty one.
abbrev pub demo_solver : Solver (Kind → Bool) Unit
demo_solver = record {
  available = true;
  fresh = tt;
  leaf_to_z3 = λ ctx s. (known_leaf s, ctx);
  is_bool = λ f. true;
  z3_and = λ fs k. all (λ f. f k) fs;
  z3_or = λ fs k. any (λ f. f k) fs;
  z3_not = λ f k. not (f k);
  is_unsat = λ f. every_kind (λ k. not (f k));
  model_row = λ ctx p q. none;
}

unsat_everywhere : (f : Kind → Bool) → every_kind (λ k. not (f k)) ≡ true → (k : Kind) → f k ≡ false
unsat_everywhere f h first = ground arith
unsat_everywhere f h second = ground arith
unsat_everywhere f h third = ground arith

told :
    (s : String) (k : Kind)
    → elim (known_leaf s) [ none ↦ is_true (kind_value k s) | some g ↦ g k ]
      ≡ is_true (kind_value k s)
told s k = elim (Bool-cases (s == "a")) [
  | inl i ↦ rw i (ap (λ z. is_true (kind_value k z)) (sym (==→eq s "a" i)))
  | inr i ↦ elim (Bool-cases (s == "b")) [
    | inl j ↦ rw (i, j) (ap (λ z. is_true (kind_value k z)) (sym (==→eq s "b" j)))
    | inr j ↦ rw (i, j) refl
  ]
]

leaf_is_met :
    (s : String) (f : Kind → Bool)
    → known_leaf s ≡ some f
    → (k : Kind) → f k ≡ is_true (kind_value k s)
leaf_is_met s f e k =
    sym (
      ap (λ (o : Option (Kind → Bool)). elim o [ none ↦ is_true (kind_value k s) | some g ↦ g k ])
        e)
    ∙ told s k

pub demo_solver_laws : SolverLaws demo_solver
unfolding all any
demo_solver_laws = record {
  World = Kind;
  value = kind_value;
  meets = λ k f. f k;
  and_law = λ k fs. refl;
  or_law = λ k fs. refl;
  not_law = λ k f. refl;
  unsat_law = unsat_everywhere;
  leaf_law = λ ctx s f e b k n. leaf_is_met s f e k;
}

digest_count : (s : String) → count (demo_digest s) ≡ 1
digest_count s = elim (Bool-cases (s == "a")) [
  | inl k ↦ rw k refl
  | inr k ↦ elim (Bool-cases (s == "b")) [ inl l ↦ rw (k, l) refl | inr l ↦ rw (k, l) refl ]
]

no_tag : (s d : String) → "A_Expr" ≢ tagged s d
unfolding tagged concat
no_tag s d h =
    let outer : 6 ≡ count s + count (" /* ast " +++ (d +++ (" */" +++ ""))) =
      ap count h ∙ count-append s (" /* ast " +++ (d +++ (" */" +++ ""))) in
    let inner : count (" /* ast " +++ (d +++ (" */" +++ ""))) ≡ 8 + count (d +++ (" */" +++ "")) =
      count-append " /* ast " (d +++ (" */" +++ "")) in
    absurd (omega (arith, outer, inner))

module _ (nodes : List Node)
    (alike : (m n : Node)
      → In m nodes
      → In n nodes
      → demo_digest (tree demo_sql m) ≡ demo_digest (tree demo_sql n)
      → shape m ≡ shape n) where
  pub told_apart : TellsApart demo_sql nodes
  unfolding key_text
  told_apart = record {
    no_comment = λ n s d. no_tag s d;
    digest_length = λ s t. digest_count s ∙ sym (digest_count t);
    no_collision = alike;
  }

abbrev IsListed : Node → Type 0
IsListed n = (n ≡ in_one) ⊎ (n ≡ in_two)

listed : (z : Node) → In z (parts in_two in_one) → IsListed z
unfolding and_clauses or_clauses
listed z (here e) = inr e
listed z (there (here e)) = inl e
listed z (there (there (here e))) = inr e
listed z (there (there (there (here e)))) = inl e
listed z (there (there (there (there (here e))))) = inr e
listed z (there (there (there (there (there (here e)))))) = inl e
listed z (there (there (there (there (there (there m)))))) = elim m [ ]

same_digest : {m n : Node} → m ≡ n → demo_digest (tree demo_sql m) ≡ demo_digest (tree demo_sql n)
same_digest e = ap (λ z. demo_digest (tree demo_sql z)) e

pub unequal : (s t : String) → (s == t) ≡ false → s ≢ t
unequal s t h e = absurd (ground (arith, ==_refl s, ap (λ z. s == z) e))

-- The digests of the two trees differ.
one_digest :
    (m n : Node)
    → IsListed m
    → IsListed n
    → demo_digest (tree demo_sql m) ≡ demo_digest (tree demo_sql n)
    → shape m ≡ shape n
unfolding tree shape
one_digest m n (inl e) (inl f) k = ap shape (e ∙ sym f)
one_digest m n (inr e) (inr f) k = ap shape (e ∙ sym f)
one_digest m n (inl e) (inr f) k =
    absurd (unequal "1" "2" refl (sym (same_digest e) ∙ k ∙ same_digest f))
one_digest m n (inr e) (inl f) k =
    absurd (unequal "2" "1" refl (sym (same_digest e) ∙ k ∙ same_digest f))

pub parts_apart : TellsApart demo_sql (parts in_two in_one)
parts_apart =
    told_apart (parts in_two in_one) (λ m n i j k. one_digest m n (listed m i) (listed n j) k)

first_known : IsNonNull demo_value in_two × IsNonNull demo_value in_one
first_known = (λ e. absurd (ground arith), λ e. absurd (ground arith))

-- The clauses of the two versions of the policy.
pub demo-Clear : Clear demo_solver demo_sql demo_value (some "b") (some "a")
unfolding parse_expr
demo-Clear m n e f =
    let m_is : in_two ≡ m = ap (λ o. elim o [ none ↦ in_two | some z ↦ z ]) e in
    let n_is : in_one ≡ n = ap (λ o. elim o [ none ↦ in_one | some z ↦ z ]) f in
    (
      subst (λ x. TellsApart demo_sql (parts x n)) m_is
          (subst (λ x. TellsApart demo_sql (parts in_two x)) n_is parts_apart),
      λ r z k. (
        subst (IsNonNull demo_value) m_is first_known.0,
        subst (IsNonNull demo_value) n_is first_known.1,
      ),
    )

abbrev pub own : String → Policy
own clause = record {
  name = "own";
  command = for_all;
  permissive = true;
  roles = "authenticated" ∷ [];
  using_sql = some clause;
  with_check_sql = none;
}

abbrev pub grant_of : String → List String → Grant
grant_of r ps = record { role = r; privileges = ps }

abbrev pub docs : List Policy → List Grant → Table
docs ps gs = record {
  schema = "public";
  name = "docs";
  rls_enabled = true;
  force_rls = false;
  policies = ps;
  columns = "id" ∷ [];
  partition_of = none;
  inherits = [];
  grants = gs;
  column_grants = [];
  owner = "admin";
}

abbrev pub base_docs : Table
base_docs = docs (own "a" ∷ []) (grant_of "authenticated" ("SELECT" ∷ "INSERT" ∷ []) ∷ [])

abbrev pub head_docs : Table
head_docs = docs (own "a AND b" ∷ []) (grant_of "authenticated" ("SELECT" ∷ []) ∷ [])

-- Of the clauses `kind IN (1, 2)` and `kind IN (1)`.
abbrev pub wide_docs : Table
wide_docs = docs (own "b" ∷ []) base_docs.grants

abbrev pub narrow_docs : Table
narrow_docs = docs (own "a" ∷ []) head_docs.grants

abbrev pub session_roles : List String
session_roles = "authenticated" ∷ "PUBLIC" ∷ []

abbrev pub app_role : Role
app_role = record { name = "authenticated"; can_login = true; superuser = false; bypassrls = false }

abbrev pub memberships : List RoleMembership
memberships =
    record { member = "anon"; role = "reader"; inherit = true }
    ∷ record { member = "reader"; role = "auditor"; inherit = true }
    ∷ record { member = "auditor"; role = "admin"; inherit = false }
    ∷ []

abbrev pub demo_schema : Schema
demo_schema = record {
  tables = base_docs ∷ [];
  role_memberships = some memberships;
  bypassrls_roles = [];
  owner_reachable_members = [];
  set_gucs = [];
  role_set_gucs = [];
}

pub known_true : KnowsTrue demo_sql demo_value
known_true s h = ap demo_value (==→eq s "true" h)

pub only : {p q : Policy} → In p (q ∷ []) → p ≡ q
only (here e) = e
only (there i) = elim i [ ]
