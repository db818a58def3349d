-- ===== src/Diff/Shapes/Narrowing.antt =====
-- A diff whose changes are all safe, against PostgreSQL's rules.
use pgrls.Prelude.{
  Bool-cases, Option-cases, and_left, and_right, nat_eq, string_eq, bool_eq, pair_eq, option_eq,
  all, filter, In, In-append_left, In-append_right, any-In, In-any, all-In, In-all, filter-In,
  In-map, all-flat_map, contains, dedup, subset, In-contains, dedup-In, sort_by-In, find_last-In,
  Distinct, find_last-Distinct, concat, str_le, String, ◌≡◌, sym, ap, ◌∙◌, inl, inr, Bool, true,
  false, some, List, [], ◌∷◌, ◌++◌, arith,
}
use pgrls.Model.{Policy, Table, Command, command_eq, qualified_name}
use pgrls.Sql.{Sql}
use pgrls.Sql.Truth.{Truth}
use pgrls.Rls.{applies, grants_row, lets_row, admitted}
use pgrls.Access.Cells.Clauses.{clause_truth}
use pgrls.Diff.{Change, all_safe, change, is_safe}
use pgrls.Diff.Predicates.{Solver}
use pgrls.Diff.Predicates.Solved.{SolverLaws}
use pgrls.Diff.Policies.{by_name, names, one_sided, one_sided_changes, added, dropped}
use pgrls.Diff.Shapes.{policy_changes, two_sided, diff_policy_shapes}
use pgrls.Diff.Shapes.Pairs.{IsIntrospected, Pair, clause_step, fewer_roles, safe-Pair}
use pgrls.Diff.Shapes.Clauses.{Clear}

-- No restrictive policy lost a role.
abbrev pub KeepsRoles : List Policy → List Policy → Type 0
KeepsRoles base head =
    (p q : Policy)
    → In p base
    → In q head
    → p.name ≡ q.name
    → p.permissive ≡ false
    → subset p.roles q.roles ≡ true

granting_permissive :
    (truth : String → Bool) (command : Command) (held : List String) (q : Policy)
    → grants_row truth command held q ≡ true
    → q.permissive ≡ true
unfolding grants_row
granting_permissive truth command held q g = ground arith

permissive_let :
    (truth : String → Bool) (command : Command) (held : List String) (p : Policy)
    → p.permissive ≡ true
    → lets_row truth command held p ≡ true
unfolding lets_row
permissive_let truth command held p k = ground arith

module _ {F C : Type 0} (solver : Solver F C) (sql : Sql) (laws : SolverLaws solver)
    (w : laws.World) (unparsed : String → Bool) where
  abbrev value : String → Truth
  value = laws.value w

  abbrev truth : String → Bool
  truth = clause_truth sql value unparsed

  module _ (base head : Table) (distinct_base : Distinct (λ (p : Policy). p.name) base.policies)
      (distinct_head : Distinct (λ (p : Policy). p.name) head.policies) where
    -- The shape changes of a policy that both sides have are changes of the tables.
    pair_safe :
        {p q : Policy}
        → In p base.policies
        → In q head.policies
        → p.name ≡ q.name
        → all_safe (diff_policy_shapes solver sql base head) ≡ true
        → all_safe
            (policy_changes solver sql (concat (qualified_name base ∷ "." ∷ p.name ∷ [])) p q)
          ≡ true
    unfolding diff_policy_shapes all_safe two_sided
    pair_safe {p} {q} m n i h =
        let key = λ (r : Policy). r.name in
        let found_q : by_name p.name head.policies ≡ some q =
          ap (λ k. by_name k head.policies) i
          ∙ find_last-Distinct key head.policies distinct_head n in
        let found_p : by_name p.name base.policies ≡ some p =
          find_last-Distinct key base.policies distinct_base m in
        let listed : In p.name
            (filter (λ name. contains name (names head.policies)) (dedup (names base.policies))) =
          filter-In _ _ (dedup-In _ (In-map key m))
            (ap (λ k. contains k (names head.policies)) i ∙ In-contains _ (In-map key n)) in
        let here_safe =
          all-flat_map
            (λ name.
              two_sided solver sql (concat (qualified_name base ∷ "." ∷ name ∷ []))
                (by_name name base.policies) (by_name name head.policies))
            (λ (c : Change). is_safe c.classification) _ h (sort_by-In str_le _ listed) in
        rw (found_p, found_q) at here_safe

    one_sided_safe :
        (name : String)
        → In name (names base.policies ++ names head.policies)
        → all_safe (one_sided_changes base head [] []) ≡ true
        → all_safe (
            one_sided base head [] [] name
              (by_name name base.policies)
              (by_name name head.policies))
          ≡ true
    unfolding one_sided_changes all_safe
    one_sided_safe name m h =
        all-flat_map
          (λ name.
            one_sided base head [] [] name (by_name name base.policies)
              (by_name name head.policies))
          (λ (c : Change). is_safe c.classification) _ h (sort_by-In str_le _ (dedup-In _ m))

    -- A permissive policy of the head is one of the base.
    old_policy :
        {q : Policy}
        → In q head.policies
        → q.permissive ≡ true
        → all_safe (one_sided_changes base head [] []) ≡ true
        → (p : Policy) × In p base.policies × (p.name ≡ q.name)
    unfolding one_sided added change all_safe all contains
    old_policy {q} n k h =
        let key = λ (r : Policy). r.name in
        let found : by_name q.name head.policies ≡ some q =
          find_last-Distinct key head.policies distinct_head n in
        let quiet =
          one_sided_safe q.name (In-append_right (names base.policies) _ (In-map key n)) h in
        elim (Option-cases (by_name q.name base.policies)) [
          | inr (p, e) ↦ let (m, i) = find_last-In key q.name base.policies e in (p, m, i)
          | inl e ↦ absurd (ground (arith, quiet, found, e, k))
        ]

    -- A restrictive policy of the base is one of the head.
    kept_policy :
        {p : Policy}
        → In p base.policies
        → p.permissive ≡ false
        → all_safe (one_sided_changes base head [] []) ≡ true
        → (q : Policy) × In q head.policies × (q.name ≡ p.name)
    unfolding one_sided dropped change all_safe all contains
    kept_policy {p} m k h =
        let key = λ (r : Policy). r.name in
        let found : by_name p.name base.policies ≡ some p =
          find_last-Distinct key base.policies distinct_base m in
        let quiet =
          one_sided_safe p.name (In-append_left _ (names head.policies) (In-map key m)) h in
        elim (Option-cases (by_name p.name head.policies)) [
          | inr (q, e) ↦ let (n, i) = find_last-In key p.name head.policies e in (q, n, i)
          | inl e ↦ absurd (ground (arith, quiet, found, e, k))
        ]

    module _ (base_read : (p : Policy) → In p base.policies → IsIntrospected sql p)
        (head_read : (q : Policy) → In q head.policies → IsIntrospected sql q)
        (clear : (p q : Policy)
          → In p base.policies
          → In q head.policies
          → Clear solver sql value p.using_sql q.using_sql
            × Clear solver sql value p.with_check_sql q.with_check_sql)
        (shapes_safe : all_safe (diff_policy_shapes solver sql base head) ≡ true) where
      paired :
          {p q : Policy}
          → In p base.policies
          → In q head.policies
          → p.name ≡ q.name
          → Pair truth p q
      paired {p} {q} m n i =
          let (using_clear, check_clear) = clear p q m n in
          safe-Pair solver sql laws w unparsed _ p q (base_read p m) (head_read q n) using_clear
            check_clear (pair_safe m n i shapes_safe)

      still_granted :
          (command : Command) (held : List String) {p q : Policy}
          → In p base.policies
          → In q head.policies
          → p.name ≡ q.name
          → grants_row truth command held q ≡ true
          → grants_row truth command held p ≡ true
      unfolding grants_row
      still_granted command held {p} {q} m n i t =
          let pair = paired m n i in
          let applies_too =
            fewer_roles p q command held (base_read p m).names_roles (head_read q n).names_roles
              pair.command pair.roles (ground arith) in
          let clause_too = clause_step truth p q pair command false (ground arith) in
          ground (arith, pair.flag, applies_too, clause_too)

      still_let :
          (command : Command) (held : List String) {p q : Policy}
          → In p base.policies
          → In q head.policies
          → p.name ≡ q.name
          → p.permissive ≡ false
          → subset p.roles q.roles ≡ true
          → lets_row truth command held q ≡ true
          → lets_row truth command held p ≡ true
      unfolding lets_row
      still_let command held {p} {q} m n i k s t =
          let pair = paired m n i in
          let applies_too =
            fewer_roles q p command held (head_read q n).names_roles (base_read p m).names_roles
              (sym pair.command) s in
          elim (Bool-cases (applies p command held)) [
            | inl a ↦
                let clause_too =
                  clause_step truth p q pair command true
                    (ground (arith, applies_too a, pair.flag)) in
                ground (arith, clause_too)
            | inr a ↦ ground arith
          ]

      let_too :
          (command : Command) (held : List String) (p : Policy)
          → In p base.policies
          → KeepsRoles base.policies head.policies
          → all_safe (one_sided_changes base head [] []) ≡ true
          → all (lets_row truth command held) head.policies ≡ true
          → lets_row truth command held p ≡ true
      let_too command held p m kept_roles one_safe t = elim (Bool-cases p.permissive) [
        | inl k ↦ permissive_let truth command held p k
        | inr k ↦
            let (q, n, i) = kept_policy m k one_safe in
            still_let command held m n (sym i) k (kept_roles p q m n (sym i) k)
              (all-In (lets_row truth command held) head.policies t n)
      ]

      -- Where every change that the diff reports of the policies of two tables is safe (renames
      -- not matched), each row that the head's policies admit, for any command and any roles, is
      -- one that the base's admitted. The policies are as introspection reads them, with distinct
      -- names and keys that tell the parts of their clauses apart; no restrictive policy lost a
      -- role; Z3 and the translation of the leaves keep their laws; and no leaf of two clauses is
      -- NULL on the row where the solver compared them.
      pub safe_changes_narrow :
          KeepsRoles base.policies head.policies
          → all_safe (one_sided_changes base head [] []) ≡ true
          → (command : Command) (held : List String)
          → admitted truth command held head.policies ≡ true
          → admitted truth command held base.policies ≡ true
      unfolding admitted
      safe_changes_narrow kept_roles one_safe command held t =
          let (q, n, g) = any-In (grants_row truth command held) head.policies (and_left _ _ t) in
          let (p, m, i) = old_policy n (granting_permissive truth command held q g) one_safe in
          let granted_too = still_granted command held m n i g in
          let some_grant = In-any (grants_row truth command held) base.policies m granted_too in
          let all_let : all (lets_row truth command held) base.policies ≡ true =
            In-all (lets_row truth command held) base.policies
              (λ p m. let_too command held p m kept_roles one_safe (and_right _ _ t)) in
          ground (arith, some_grant, all_let)
