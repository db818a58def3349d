-- ===== src/Access/Cells/Sound.antt =====
-- The verdict of a cell against PostgreSQL's rules.
use pgrls.Prelude.{
  nat_eq, string_eq, bool_eq, pair_eq, option_eq, is_empty, any, all, In, any-In, In-any, Distinct,
  String, ◌≡◌, refl, sym, ◌∙◌, Bool, true, false, ◌&&◌, some, List, [], ◌∷◌, arith,
}
use pgrls.Model.{Policy, Command, command_eq, Role, Table}
use pgrls.Sql.{Sql}
use pgrls.Sql.Truth.{Truth}
use pgrls.Rls.{admitted, reaches_row}
use pgrls.Access.{Verdict, opened, denied, conditional, undecided}
use pgrls.Access.Privileges.Held.{privilege_paths_iff, owner_path_iff}
use pgrls.Access.Cells.{
  clause_is_open, present_clauses, narrowing_restrictive, verdict_of, policy_cell, cell_for,
}
use pgrls.Access.Cells.Clauses.{
  clause_truth, KnowsTrue, clause_is_open_sound, verdict_of_lem, HasClauses, permissive_of,
  restrictive_of, permissive_rows, restrictive_rows, none_unknown, all-narrowing,
}

-- What a verdict promises of a row.
abbrev pub Promise : Verdict → Bool → Type 0
Promise opened reached = reached ≡ true
Promise denied reached = reached ≡ false
Promise conditional reached = Unit
Promise undecided reached = Unit

module _ (sql : Sql) (value : String → Truth) (unparsed : String → Bool)
    (known : KnowsTrue sql value) where
  abbrev truth : String → Bool
  truth = clause_truth sql value unparsed

  open_holds : (cs : List String) → any (clause_is_open sql) cs ≡ true → any truth cs ≡ true
  open_holds cs h =
      let (c, m, o) = any-In (clause_is_open sql) cs h in
      In-any truth cs m (clause_is_open_sound sql value unparsed known c o)

  -- The row is admitted where a permissive clause is true and every narrowing clause is.
  admitted-clauses :
      (table : Table) (command : Command) (held : List String)
      → Distinct (λ (p : Policy). p.name) table.policies
      → HasClauses command table.policies
      → admitted truth command held table.policies ≡ (
          any truth (
            present_clauses command (
              permissive_of truth command held
                (λ p. verdict_of table.policies command held true p.name)
                table.policies))
          && all truth (
              narrowing_restrictive sql
                (restrictive_of truth command held
                  (λ p. verdict_of table.policies command held true p.name)
                  table.policies)
                command))
  unfolding admitted narrowing_restrictive
  admitted-clauses table command held d n =
      let verdict = λ (p : Policy). verdict_of table.policies command held true p.name in
      let decided =
        λ (p : Policy) (m : In p table.policies). verdict_of_lem table.policies command held d m in
      let rows = permissive_rows truth command held verdict table.policies decided n in
      let floor =
        restrictive_rows truth command held verdict table.policies decided n
        ∙ sym (all-narrowing sql truth (clause_is_open_sound sql value unparsed known) _) in
      λ i. rows i && floor i

  empty_any : (cs : List String) → is_empty cs ≡ true → any truth cs ≡ false
  unfolding any
  empty_any [] h = refl
  empty_any (c ∷ cs) h = absurd (ground arith)

  empty_all : (cs : List String) → is_empty cs ≡ true → all truth cs ≡ true
  unfolding all
  empty_all [] h = refl
  empty_all (c ∷ cs) h = absurd (ground arith)

  no_policies :
      (command : Command) (ps : List Policy)
      → is_empty ps ≡ true
      → is_empty (present_clauses command ps) ≡ true
  unfolding present_clauses
  no_policies command [] h = refl
  no_policies command (p ∷ ps) h = absurd (ground arith)

  -- The verdict of the policies is right for every row: open where they admit it, denied where
  -- they do not. The role graph is captured; policy names are distinct, no clause is the empty
  -- text, and the literal `true` is true.
  pub policy_cell_sound :
      (table : Table) (command : Command) (held : List String)
      → Distinct (λ (p : Policy). p.name) table.policies
      → HasClauses command table.policies
      → Promise
          (policy_cell sql table command held true).0.verdict
          (admitted truth command held table.policies)
  unfolding policy_cell
  policy_cell_sound table command held d n =
      let verdict = λ (p : Policy). verdict_of table.policies command held true p.name in
      let perm =
        present_clauses command (permissive_of truth command held verdict table.policies) in
      let restr =
        narrowing_restrictive sql (restrictive_of truth command held verdict table.policies)
          command in
      ground (
        arith,
        admitted-clauses table command held d n,
        none_unknown truth command held verdict table.policies
            (λ p m. verdict_of_lem table.policies command held d m),
        open_holds perm,
        empty_any perm,
        empty_all restr,
        no_policies command (permissive_of truth command held verdict table.policies),
      )

  -- The verdict of a cell is right for every row: an open cell reaches it and a denied one does
  -- not, by PostgreSQL's rules for privileges and row security. The role graph is captured and
  -- gives `held` and `targets`; policy names are distinct, no clause is the empty text, and the
  -- literal `true` is true.
  pub cell_for_sound :
      (table : Table) (role : Role) (command : Command) (held targets : List String)
      → Distinct (λ (p : Policy). p.name) table.policies
      → HasClauses command table.policies
      → Promise
          (cell_for sql table role command (some held) targets true).0.verdict
          (reaches_row truth role table command held targets)
  unfolding cell_for reaches_row
  cell_for_sound table role command held targets d n = ground (
    arith,
    privilege_paths_iff role table held command,
    owner_path_iff role table held command,
    policy_cell_sound table command targets d n,
  )
