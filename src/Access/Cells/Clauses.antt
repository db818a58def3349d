-- ===== src/Access/Cells/Clauses.antt =====
-- The clauses that `cell_for` collects, against the rows that the policies decide.
use pgrls.Prelude.{
  Bool-cases, Option-cases, nat_eq, string_eq, bool_eq, pair_eq, option_eq, any, all, filter, In,
  any-In, In-any, here, there, contains, Distinct, find_last-Distinct, String, ◌≡◌, refl, ◌∙◌, ◌≢◌,
  inl, inr, Bool, true, false, ◌&&◌, ◌||◌, not, Option, none, some, List, [], ◌∷◌, arith, eq_iff,
}
use pgrls.Model.{Policy, Command, for_all, select, insert, update, delete, truncate, command_eq}
use pgrls.Sql.{Sql, Node, bool_expr, leaf, parse_expr}
use pgrls.Sql.Truth.{Truth, holds, eval, admits}
use pgrls.Sql.Disjuncts.{flatten_or_disjuncts, is_literal_true, admits-flatten}
use pgrls.Rls.{clause_holds, applies, clause_for, grants_row, lets_row}
use pgrls.Access.Cells.{
  effective_clause, policy_applies, clause_is_open, present_clauses, applying, is_unknown,
  verdict_of,
}

-- Is a clause true of the row at hand? A text that pglast cannot parse has the value that
-- `unparsed` gives it.
unfoldable pub clause_truth : Sql → (String → Truth) → (String → Bool) → String → Bool
clause_truth sql value unparsed c = elim (parse_expr sql (some c)) [
  | none ↦ unparsed c
  | some n ↦ admits value n
]

-- The dump of the literal `true` has the value true.
abbrev pub KnowsTrue : Sql → (String → Truth) → Type 0
KnowsTrue sql value = (s : String) → sql.literal_true s ≡ true → value s ≡ holds

literal_admits :
    (sql : Sql) (value : String → Truth) (n : Node)
    → KnowsTrue sql value
    → is_literal_true sql n ≡ true
    → admits value n ≡ true
unfolding is_literal_true admits eval
literal_admits sql value (leaf s) k h = rw (k s h)
literal_admits sql value (bool_expr op ns) k h = absurd (ground arith)

-- A clause that is called open is true of every row, where the literal `true` is true.
pub clause_is_open_sound :
    (sql : Sql) (value : String → Truth) (unparsed : String → Bool)
    → KnowsTrue sql value
    → (c : String) → clause_is_open sql c ≡ true
    → clause_truth sql value unparsed c ≡ true
unfolding clause_is_open clause_truth
clause_is_open_sound sql value unparsed k c h = elim (Option-cases (parse_expr sql (some c))) [
  | inl e ↦ absurd (ground arith)
  | inr (n, e) ↦
      let (d, m, t) =
        any-In (is_literal_true sql) (flatten_or_disjuncts n) (rw (e, clause_is_open) at h) in
      let some_true =
        In-any (admits value) (flatten_or_disjuncts n) m (literal_admits sql value d k t) in
      rw (e, clause_truth) (admits-flatten value n ∙ some_true)
]

pub effective_clause_lem :
    (p : Policy) (command : Command) → effective_clause p command ≡ clause_for p command
unfolding effective_clause clause_for
effective_clause_lem p for_all = refl
effective_clause_lem p select = refl
effective_clause_lem p insert = refl
effective_clause_lem p update = refl
effective_clause_lem p delete = refl
effective_clause_lem p truncate = refl

policy_applies_lem :
    (p : Policy) (command : Command) (held : List String)
    → policy_applies p command held true ≡ some (applies p command held)
unfolding policy_applies applies contains
policy_applies_lem p command held = ground arith

pub verdict_of_lem :
    (ps : List Policy) (command : Command) (held : List String) {p : Policy}
    → Distinct (λ (q : Policy). q.name) ps
    → In p ps
    → verdict_of ps command held true p.name ≡ some (applies p command held)
unfolding verdict_of
verdict_of_lem ps command held {p} d m =
    rw (find_last-Distinct (λ (q : Policy). q.name) ps d m, verdict_of)
      (policy_applies_lem p command held)

-- No clause is the empty text: PostgreSQL stores an expression or nothing.
abbrev pub HasClauses : Command → List Policy → Type 0
HasClauses command ps = (p : Policy) → In p ps → clause_for p command ≢ some ""

module _ (truth : String → Bool) (command : Command) (held : List String)
    (verdict : Policy → Option Bool) where
  abbrev Decides : List Policy → Type 0
  Decides ps = (p : Policy) → In p ps → verdict p ≡ some (applies p command held)

  abbrev pub permissive_of : List Policy → List Policy
  permissive_of ps = filter (λ (p : Policy). p.permissive) (filter (λ p. applying (verdict p)) ps)

  abbrev pub restrictive_of : List Policy → List Policy
  restrictive_of ps =
      filter (λ (p : Policy). not p.permissive) (filter (λ p. applying (verdict p)) ps)

  present_none :
      (p : Policy) (ps : List Policy)
      → clause_for p command ≡ none
      → present_clauses command (p ∷ ps) ≡ present_clauses command ps
  unfolding present_clauses
  present_none p ps e = ground (arith, effective_clause_lem p command)

  present_some :
      (p : Policy) (ps : List Policy) (c : String)
      → clause_for p command ≡ some c
      → clause_for p command ≢ some ""
      → present_clauses command (p ∷ ps) ≡ c ∷ present_clauses command ps
  unfolding present_clauses
  present_some p ps c e n = ground (arith, effective_clause_lem p command, eq_iff c "")

  any_present :
      (p : Policy) (ps : List Policy)
      → clause_for p command ≢ some ""
      → any truth (present_clauses command (p ∷ ps)) ≡ (
          clause_holds truth false (clause_for p command) || any truth (present_clauses command ps))
  unfolding any clause_holds
  any_present p ps n = elim (Option-cases (clause_for p command)) [
    | inl e ↦ rw (present_none p ps e, e) refl
    | inr (c, e) ↦ rw (present_some p ps c e n, e) refl
  ]

  all_present :
      (p : Policy) (ps : List Policy)
      → clause_for p command ≢ some ""
      → all truth (present_clauses command (p ∷ ps))
        ≡ (clause_holds truth true (clause_for p command) && all truth (present_clauses command ps))
  unfolding all clause_holds
  all_present p ps n = elim (Option-cases (clause_for p command)) [
    | inl e ↦ rw (present_none p ps e, e) refl
    | inr (c, e) ↦ rw (present_some p ps c e n, e) refl
  ]

  -- The permissive clauses admit a row exactly where a permissive policy grants it.
  pub permissive_rows :
      (ps : List Policy)
      → Decides ps
      → HasClauses command ps
      → any (grants_row truth command held) ps
        ≡ any truth (present_clauses command (permissive_of ps))
  unfolding any filter grants_row
  permissive_rows [] d n = unfold present_clauses in refl
  permissive_rows (p ∷ ps) d n = ground (
    arith,
    permissive_rows ps (λ q m. d q (there m)) (λ q m. n q (there m)),
    d p (here refl),
    any_present p (permissive_of ps) (n p (here refl)),
  )

  -- The restrictive clauses admit a row exactly where every restrictive policy lets it through.
  pub restrictive_rows :
      (ps : List Policy)
      → Decides ps
      → HasClauses command ps
      → all (lets_row truth command held) ps
        ≡ all truth (present_clauses command (restrictive_of ps))
  unfolding all filter lets_row
  restrictive_rows [] d n = unfold present_clauses in refl
  restrictive_rows (p ∷ ps) d n = ground (
    arith,
    restrictive_rows ps (λ q m. d q (there m)) (λ q m. n q (there m)),
    d p (here refl),
    all_present p (restrictive_of ps) (n p (here refl)),
  )

  -- Where every policy is decided, none is unknown.
  pub none_unknown :
      (ps : List Policy) → Decides ps → filter (λ p. is_unknown (verdict p) && p.permissive) ps ≡ []
  unfolding filter
  none_unknown [] d = refl
  none_unknown (p ∷ ps) d = ground (arith, none_unknown ps (λ q m. d q (there m)), d p (here refl))

-- Dropping the clauses that are true of every row changes nothing.
pub all-narrowing :
    (sql : Sql) (truth : String → Bool)
    → ((c : String) → clause_is_open sql c ≡ true → truth c ≡ true)
    → (cs : List String) → all truth (filter (λ c. not (clause_is_open sql c)) cs) ≡ all truth cs
unfolding all filter
all-narrowing sql truth k [] = refl
all-narrowing sql truth k (c ∷ cs) = elim (Bool-cases (clause_is_open sql c)) [
  | inl e ↦ ground (arith, all-narrowing sql truth k cs, k c e)
  | inr e ↦ ground (arith, all-narrowing sql truth k cs)
]
