-- ===== src/Diff/Shapes/Pairs.antt =====
-- What the safe changes of one policy promise.
use pgrls.Prelude.{
  if◌then◌else◌, Bool-cases, ◌==◌, ==→eq, nat_eq, string_eq, bool_eq, pair_eq, option_eq, is_empty,
  all, all-append, subset, same_set, strict_subset, subset-In, intersects-In, In-intersects, String,
  ◌≡◌, refl, sym, ap, ◌∙◌, inl, inr, Bool, true, false, ◌||◌, not, Option, none, some, List, ◌++◌,
  arith,
}
use pgrls.Model.{Policy, Command, for_all, select, insert, update, delete, truncate, command_eq}
use pgrls.Sql.{Sql}
use pgrls.Sql.Truth.{Truth}
use pgrls.Rls.{target_roles, applies, clause_for, clause_holds}
use pgrls.Access.Cells.Clauses.{clause_truth}
use pgrls.Access.Privileges.{is_some}
use pgrls.Diff.{Change, all_safe, change, is_safe}
use pgrls.Diff.Predicates.{Solver, requires_review}
use pgrls.Diff.Predicates.Solved.{SolverLaws}
use pgrls.Diff.Shapes.{
  flag_change, command_change, command_changes, canonical_roles, roles_change, policy_changes,
  predicate_change, using_result_to_change, with_check_result_to_change,
}
use pgrls.Diff.Shapes.Clauses.{
  Clear, HasText, is_safe_entry, safe_clause, safe_presence, using-IsCautious,
  with_check-IsCautious,
}

-- A policy as introspection reads it: it names its roles, PUBLIC in its canonical spelling, and no
-- clause is the empty text.
pub record IsIntrospected (sql : Sql) (p : Policy) : Type 0 where
  pub names_roles : is_empty p.roles ≡ false
  pub canonical : canonical_roles sql p ≡ p.roles
  pub using_text : HasText p.using_sql
  pub with_check_text : HasText p.with_check_sql

using_asks : is_safe_entry (using_result_to_change requires_review) ≡ false
unfolding using_result_to_change is_safe_entry
using_asks = refl

with_check_asks : is_safe_entry (with_check_result_to_change requires_review) ≡ false
unfolding with_check_result_to_change is_safe_entry
with_check_asks = refl

-- The two versions of a policy, as far as a safe diff knows them.
pub record Pair (truth : String → Bool) (p q : Policy) : Type 0 where
  pub flag : (p.permissive || not q.permissive) ≡ true
  pub command : p.command ≡ q.command
  pub roles : subset q.roles p.roles ≡ true
  pub using_step :
      (o : Bool) → clause_holds truth o q.using_sql ≡ true → clause_holds truth o p.using_sql ≡ true
  pub check_step :
      (o : Bool)
      → clause_holds truth o q.with_check_sql ≡ true
      → clause_holds truth o p.with_check_sql ≡ true
  pub same_check : is_some p.with_check_sql ≡ is_some q.with_check_sql

insert_step :
    (truth : String → Bool) (o a b : Bool) (w v x y : Option String)
    → a ≡ b
    → is_some w ≡ is_some v
    → (clause_holds truth o y ≡ true → clause_holds truth o x ≡ true)
    → (clause_holds truth o v ≡ true → clause_holds truth o w ≡ true)
    → clause_holds truth o (elim v [ some c ↦ some c | none ↦ if b then y else none ]) ≡ true
    → clause_holds truth o (elim w [ some c ↦ some c | none ↦ if a then x else none ]) ≡ true
insert_step truth o a b (some c) (some d) x y i s f g t = g t
insert_step truth o a b (some c) none x y i s f g t = absurd (ground (arith, s))
insert_step truth o a b none (some d) x y i s f g t = absurd (ground (arith, s))
insert_step truth o true true none none x y i s f g t = f t
insert_step truth o false false none none x y i s f g t = t
insert_step truth o true false none none x y i s f g t = absurd (ground (arith, i))
insert_step truth o false true none none x y i s f g t = absurd (ground (arith, i))

pub clause_step :
    (truth : String → Bool) (p q : Policy)
    → Pair truth p q
    → (command : Command) (o : Bool) → clause_holds truth o (clause_for q command) ≡ true
    → clause_holds truth o (clause_for p command) ≡ true
unfolding clause_for
clause_step truth p q r for_all o t = r.using_step o t
clause_step truth p q r select o t = r.using_step o t
clause_step truth p q r update o t = r.using_step o t
clause_step truth p q r delete o t = r.using_step o t
clause_step truth p q r truncate o t = r.using_step o t
clause_step truth p q r insert o t =
    insert_step truth o (p.command == for_all) (q.command == for_all) p.with_check_sql
      q.with_check_sql p.using_sql q.using_sql (ap (λ c. c == for_all) r.command) r.same_check
      (r.using_step o) (r.check_step o) t

pub fewer_roles :
    (p q : Policy) (command : Command) (held : List String)
    → is_empty p.roles ≡ false
    → is_empty q.roles ≡ false
    → p.command ≡ q.command
    → subset q.roles p.roles ≡ true
    → applies q command held ≡ true
    → applies p command held ≡ true
unfolding applies target_roles
fewer_roles p q command held np nq c s t =
    let (r, m, n) = intersects-In q.roles held (ground arith) in
    let both = In-intersects p.roles held (subset-In q.roles p.roles s m) n in
    ground (arith, both, ap (λ c. c == for_all) c, ap (λ c. c == command) c)

module _ {F C : Type 0} (solver : Solver F C) (sql : Sql) (laws : SolverLaws solver)
    (w : laws.World) (unparsed : String → Bool) where
  abbrev value : String → Truth
  value = laws.value w

  abbrev truth : String → Bool
  truth = clause_truth sql value unparsed

  roles_safe :
      (location : String) (base head : List String)
      → all_safe (roles_change sql location base head) ≡ true
      → subset head base ≡ true
  unfolding roles_change all_safe all same_set strict_subset change
  roles_safe location base head h = ground arith

  flag_safe :
      (location : String) (base head : Bool)
      → all_safe (flag_change location base head) ≡ true
      → (base || not head) ≡ true
  unfolding flag_change all_safe all change
  flag_safe location base head h = ground arith

  command_safe :
      (location : String) (base head : Command)
      → all_safe (command_changes location base head) ≡ true
      → base ≡ head
  unfolding command_changes command_change all_safe all change
  command_safe location base head h = elim (Bool-cases (base == head)) [
    | inl k ↦ ==→eq base head k
    | inr k ↦ absurd (ground arith)
  ]

  all_safe-append :
      (cs ds : List Change)
      → all_safe (cs ++ ds) ≡ true
      → (all_safe cs ≡ true) × (all_safe ds ≡ true)
  unfolding all_safe
  all_safe-append cs ds h =
      let k = all-append (λ (c : Change). is_safe c.classification) cs ds in
      (ground (arith, k), ground (arith, k))

  -- The safe changes of a policy.
  pub safe-Pair :
      (location : String) (p q : Policy)
      → IsIntrospected sql p
      → IsIntrospected sql q
      → Clear solver sql value p.using_sql q.using_sql
      → Clear solver sql value p.with_check_sql q.with_check_sql
      → all_safe (policy_changes solver sql location p q) ≡ true
      → Pair truth p q
  unfolding policy_changes
  safe-Pair location p q ip iq au ac h =
      let checks =
        predicate_change solver sql location "WITH CHECK" with_check_result_to_change
          p.with_check_sql q.with_check_sql in
      let clauses =
        predicate_change solver sql location "USING" using_result_to_change p.using_sql
          q.using_sql in
      let role_changes =
        roles_change sql location (canonical_roles sql p) (canonical_roles sql q) in
      let commands = command_changes location p.command q.command in
      let flags = flag_change location p.permissive q.permissive in
      let (k4, h5) = all_safe-append (flags ++ commands ++ role_changes ++ clauses) checks h in
      let (k3, h4) = all_safe-append (flags ++ commands ++ role_changes) clauses k4 in
      let (k2, h3) = all_safe-append (flags ++ commands) role_changes k3 in
      let (h1, h2) = all_safe-append flags commands k2 in
      record {
        flag = flag_safe location p.permissive q.permissive h1;
        command = command_safe location p.command q.command h2;
        roles =
            (λ i. subset (sym iq.canonical i) (sym ip.canonical i)) ∙ roles_safe location _ _ h3;
        using_step =
            safe_clause solver sql laws w unparsed location "USING" using_result_to_change
              p.using_sql q.using_sql using-IsCautious using_asks au ip.using_text iq.using_text h4;
        check_step =
            safe_clause solver sql laws w unparsed location "WITH CHECK" with_check_result_to_change
              p.with_check_sql q.with_check_sql with_check-IsCautious with_check_asks ac
              ip.with_check_text iq.with_check_text h5;
        same_check =
            safe_presence solver sql laws w unparsed location "WITH CHECK"
              with_check_result_to_change p.with_check_sql q.with_check_sql with_check_asks
              ip.with_check_text iq.with_check_text h5;
      }
