-- ===== src/Verify.antt =====
-- src/pgrls/verify.py: the isolation verdicts of tables.
pub mod Gates
pub mod Anonymous
pub mod Tables
pub mod Summary
pub mod Views
pub mod Delta
pub mod Escalation
use pgrls.Prelude.{
  ltb, leb, nat_eqb, nat_eqb_iff, if◌then◌else◌, Bool-cases, Option-cases, Bool-ext, and_left,
  and_right, Eq, ◌==◌, ==→eq, ==_refl, nat_eq, string_eq, bool_eqb, bool_eqb_iff, bool_eq, pair_eqb,
  pair_eqb_iff, pair_eq, option_eqb, option_eqb_iff, option_eq, length, length-append, is_empty,
  any, all, filter, is_empty-append, any-append, all-append, is_empty-filter, In, In-cons,
  In-cons_mono, In-swap, In-append, In-append_left, In-append_right, any-In, In-any, all-In, In-all,
  In-filter, filter-In, length-map, is_empty-map, any-map_never, In-map, map-In, flat_map,
  all-flat_map, flat_map-In, In-flat_map, here, there, contains, dedup, difference, subset,
  same_set, strict_subset, intersects, contains-In, In-contains, contains_head, contains_cons,
  contains-append, In-subset, subset-In, intersects-In, In-intersects, In-dedup, dedup-In,
  is_empty-dedup, insert_by, sort_by, is_empty-sort_by, sort_by-In, In-sort_by, find_last,
  find_last-In, In-find_last, Distinct, find_last-Distinct, concat, join, str_le, unseen,
  unseen-le-length, unseen_mono, unseen_strict, ℕ, zero, suc, ◌+◌, ◌-◌, ◌*◌, ◌/◌, ◌%◌, ◌≤◌, ◌<◌,
  String, ◌≡◌, refl, sym, ap, subst, ◌∙◌, ◌≢◌, ◌↔◌, ◌⊎◌, inl, inr, Bool, true, false, ◌&&◌, ◌||◌,
  not, Option, none, some, List, [], ◌∷◌, ◌++◌, map, arith, eq_iff,
}
use pgrls.Model.{Command, for_all, select, insert, update, delete}
use pgrls.Prover.{Verdict, isolated, leak, unverified, Row, is_leak, is_unverified}

pub data Mode : Type 0 where
  anon cross_tenant write escalation reachability : Mode

-- `_MODE_COMMANDS`; the last two modes are handed on before it is read.
unfoldable pub mode_commands : Mode → List Command
mode_commands anon = for_all ∷ select ∷ []
mode_commands cross_tenant = for_all ∷ select ∷ []
mode_commands write = for_all ∷ insert ∷ update ∷ delete ∷ []
mode_commands escalation = []
mode_commands reachability = []

abbrev pub is_write : Mode → Bool
is_write m = elim m [ write ↦ true | _ ↦ false ]

abbrev pub is_anon : Mode → Bool
is_anon m = elim m [ anon ↦ true | _ ↦ false ]

-- A leak has the row that it exposes, no entry for every row; no claim has its reason.
pub record PolicyProof : Type 0 where
  pub policy : String
  pub verdict : Verdict
  pub witness : Option Row
  pub reason : Option String

pub record TableVerdict : Type 0 where
  pub qualified_name : String
  pub verdict : Verdict
  pub note : Option String
  pub proofs : List PolicyProof

pub record Verification : Type 0 where
  pub tables : List TableVerdict
  pub mode : Mode

unfoldable pub has_leak : Verification → Bool
has_leak v = any (λ (t : TableVerdict). is_leak t.verdict) v.tables

-- `_rollup`
unfoldable pub rollup : List PolicyProof → Verdict
rollup proofs =
    if any (λ (p : PolicyProof). is_leak p.verdict) proofs
    then leak
    else if any (λ (p : PolicyProof). is_unverified p.verdict) proofs
    then unverified
    else isolated

-- A proof that an isolated table rests on.
pub rollup-isolated :
    (proofs : List PolicyProof) {p : PolicyProof}
    → rollup proofs ≡ isolated
    → In p proofs
    → p.verdict ≡ isolated
unfolding rollup
rollup-isolated proofs {p} e m = ground (
  arith,
  In-any (λ (p : PolicyProof). is_leak p.verdict) proofs m,
  In-any (λ (p : PolicyProof). is_unverified p.verdict) proofs m,
)
