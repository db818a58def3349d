-- ===== src/Verify/Gates/Sound.antt =====
-- The checked trees of src/pgrls/verify.py beside the clauses that PostgreSQL decides a row by.
use pgrls.Prelude.{
  Bool-cases, Option-cases, ◌==◌, ==→eq, nat_eq, string_eq, bool_eq, pair_eq, option_eq, any, all,
  In, In-cons, In-any, here, there, contains, contains-In, String, ◌≡◌, refl, sym, ap, subst, ◌∙◌,
  ◌≢◌, ◌⊎◌, inl, inr, Bool, true, false, ◌&&◌, ◌||◌, Option, none, some, List, [], ◌∷◌, arith,
}
use pgrls.Model.{Policy, Command, command_eq, for_all, select, insert, update, delete, truncate}
use pgrls.Sql.{Sql, Node, node_eq, cons, of_list, to_list, to_list-of_list, parse_expr}
use pgrls.Sql.Truth.{Truth, admits, admits-and, admits-or}
use pgrls.Rls.{Check, old_row, new_row, clause_for, clause_of}
use pgrls.Access.Cells.Clauses.{clause_truth}
use pgrls.Verify.{Mode, anon, cross_tenant, write, escalation, reachability, is_write}
use pgrls.Verify.Gates.{
  write_commands, missing, using_ast, with_check_ast, effective_write_check, old_row_write_gate,
  present, first_seen, one_or_any, or_gates, checked_ast, compose_with_floor,
}

first_seen-In : (seen gs : List Node) {g : Node} → In g gs → In g seen ⊎ In g (first_seen seen gs)
unfolding first_seen
first_seen-In seen [] m = elim m [ ]
first_seen-In seen (h ∷ gs) {g} m = elim (Bool-cases (contains h seen)) [
  | inl k ↦ elim (In-cons m) [
    | inl i ↦ inl (subst (λ z. In z seen) (sym i) (contains-In h seen k))
    | inr n ↦ elim (first_seen-In seen gs n) [ inl a ↦ inl a | inr b ↦ inr (rw k b) ]
  ]
  | inr k ↦ elim (In-cons m) [
    | inl i ↦ inr (rw k (here i))
    | inr n ↦ elim (first_seen-In (h ∷ seen) gs n) [
      | inr b ↦ inr (rw k (there b))
      | inl a ↦ elim (In-cons a) [ inl i ↦ inr (rw k (here i)) | inr c ↦ inl c ]
    ]
  ]
]

present-In : (gates : List (Option Node)) {g : Node} → In (some g) gates → In g (present gates)
unfolding present
present-In [] m = elim m [ ]
present-In (none ∷ gs) (here i) = absurd (ground arith)
present-In (none ∷ gs) (there m) = present-In gs m
present-In (some h ∷ gs) (here i) = here (ground arith)
present-In (some h ∷ gs) (there m) = there (present-In gs m)

module _ (value : String → Truth) where
  one_or_any-admits :
      (gs : List Node) (n : Node) → one_or_any gs ≡ some n → admits value n ≡ any (admits value) gs
  unfolding one_or_any any
  one_or_any-admits [] n e = absurd (ground arith)
  one_or_any-admits (g ∷ []) n e =
      ap (λ o. elim o [ none ↦ false | some m ↦ admits value m ]) (sym e) ∙ ground arith
  one_or_any-admits (g ∷ h ∷ gs) n e =
      ap (λ o. elim o [ none ↦ false | some m ↦ admits value m ]) (sym e)
      ∙ admits-or value (of_list (g ∷ h ∷ gs))
      ∙ ap (any (admits value)) (to_list-of_list (g ∷ h ∷ gs))

  -- A gate that admits the row makes the composed tree admit it.
  or_gates-admits :
      (gates : List (Option Node)) (n : Node) {g : Node}
      → or_gates gates ≡ some n
      → In (some g) gates
      → admits value g ≡ true
      → admits value n ≡ true
  unfolding or_gates
  or_gates-admits gates n {g} e m a = elim (first_seen-In [] (present gates) (present-In gates m)) [
    | inl k ↦ elim k [ ]
    | inr k ↦ one_or_any-admits _ n e ∙ In-any (admits value) _ k a
  ]

  pub admits-compose_with_floor :
      (n : Node) (floors : List Node)
      → admits value (compose_with_floor n floors) ≡ (admits value n && all (admits value) floors)
  unfolding compose_with_floor all to_list
  admits-compose_with_floor n floors =
      admits-and value (cons n (of_list floors))
      ∙ ap (λ ms. admits value n && all (admits value) ms) (to_list-of_list floors)

-- The commands that a mode is about.
abbrev pub mode_acts : Mode → List Command
mode_acts anon = select ∷ []
mode_acts cross_tenant = select ∷ []
mode_acts write = insert ∷ update ∷ delete ∷ []
mode_acts escalation = []
mode_acts reachability = []

abbrev pub for_command : Policy → Command → Bool
for_command p command = p.command == for_all || p.command == command

abbrev touches_old_row : Policy → Bool
touches_old_row p = p.command == update || (p.command == delete || p.command == for_all)

-- Every other command meets a row once.
clause_of-select : (check : Check) (p : Policy) → clause_of check p select ≡ p.using_sql
unfolding clause_of clause_for
clause_of-select old_row p = refl
clause_of-select new_row p = refl

pub clause_of-insert : (check : Check) (p : Policy) → clause_of check p insert ≡ clause_for p insert
unfolding clause_of
clause_of-insert old_row p = refl
clause_of-insert new_row p = refl

-- The clause of a row that is written or found: WITH CHECK, or USING, which is the old-row gate of
-- UPDATE, DELETE and ALL.
abbrev Deciding : Policy → String → Type 0
Deciding p c =
    (p.with_check_sql ≡ some c) × (contains p.command write_commands ≡ true)
    ⊎ (p.using_sql ≡ some c) × (touches_old_row p ≡ true)

insert_decides :
    (p : Policy) (c : String)
    → for_command p insert ≡ true
    → clause_for p insert ≡ some c
    → Deciding p c
unfolding clause_for contains write_commands
insert_decides p c f k = elim (Option-cases p.with_check_sql) [
  | inr (d, w) ↦ inl (ground arith, ground arith)
  | inl w ↦ inr (ground arith, ground arith)
]

update_decides :
    (p : Policy) (c : String)
    → for_command p update ≡ true
    → clause_of new_row p update ≡ some c
    → Deciding p c
unfolding clause_of contains write_commands
update_decides p c f k = elim (Option-cases p.with_check_sql) [
  | inr (d, w) ↦ inl (ground arith, ground arith)
  | inl w ↦ inr (ground arith, ground arith)
]

decides :
    (check : Check) (p : Policy) (command : Command) (c : String)
    → contains command (mode_acts write) ≡ true
    → for_command p command ≡ true
    → clause_of check p command ≡ some c
    → Deciding p c
unfolding clause_of clause_for contains
decides check p for_all c m f k = absurd (ground arith)
decides check p select c m f k = absurd (ground arith)
decides check p truncate c m f k = absurd (ground arith)
decides old_row p update c m f k = inr (k, ground arith)
decides old_row p delete c m f k = inr (k, ground arith)
decides old_row p insert c m f k = insert_decides p c f k
decides new_row p update c m f k = update_decides p c f k
decides new_row p delete c m f k = inr (k, ground arith)
decides new_row p insert c m f k = insert_decides p c f k

module _ (sql : Sql) (check : Check) where
  -- The clause that decides a written row, as one of the two gates.
  gate_of :
      (p : Policy) (command : Command) (c : String) (o : Option Node)
      → contains command (mode_acts write) ≡ true
      → for_command p command ≡ true
      → clause_of check p command ≡ some c
      → parse_expr sql (some c) ≡ o
      → (p.with_check_sql ≡ some c)
          × (with_check_ast sql p ≡ o)
          × (contains p.command write_commands ≡ true)
        ⊎ (p.using_sql ≡ some c) × (using_ast sql p ≡ o) × (touches_old_row p ≡ true)
  gate_of p command c o m f k e = elim (decides check p command c m f k) [
    | inl (j, h) ↦ inl (j, ap (parse_expr sql) j ∙ e, h)
    | inr (j, h) ↦ inr (j, ap (parse_expr sql) j ∙ e, h)
  ]

  unparsed_gate :
      (p : Policy) (command : Command) (c : String)
      → contains command (mode_acts write) ≡ true
      → for_command p command ≡ true
      → clause_of check p command ≡ some c
      → parse_expr sql (some c) ≡ none
      → checked_ast sql p write ≡ none
  unfolding checked_ast
  unparsed_gate p command c m f k e = elim (gate_of p command c none m f k e) [
    | inl (i, w, h) ↦ ground (arith, ap missing i, ap missing w)
    | inr (i, w, h) ↦ ground (arith, ap missing i, ap missing w)
  ]

  parsed_gate :
      (p : Policy) (command : Command) (c : String) (g : Node)
      → contains command (mode_acts write) ≡ true
      → for_command p command ≡ true
      → clause_of check p command ≡ some c
      → parse_expr sql (some c) ≡ some g
      → In (some g) (effective_write_check sql p ∷ old_row_write_gate sql p ∷ [])
  unfolding effective_write_check old_row_write_gate
  parsed_gate p command c g m f k e = elim (gate_of p command c (some g) m f k e) [
    | inl (i, w, h) ↦ here (ground arith)
    | inr (i, w, h) ↦ there (here (ground arith))
  ]

  only_select : (command : Command) → contains command (select ∷ []) ≡ true → command ≡ select
  unfolding contains
  only_select command m = ==→eq command select (ground arith)

  pub read_ast :
      (mode : Mode) (p : Policy) (command : Command) (o : Option String)
      → is_write mode ≡ false
      → contains command (mode_acts mode) ≡ true
      → clause_of check p command ≡ o
      → checked_ast sql p mode ≡ parse_expr sql o
  unfolding checked_ast contains
  read_ast anon p command o w m k = ap (parse_expr sql) (
      sym (clause_of-select check p)
      ∙ subst (λ d. clause_of check p d ≡ o) (only_select command m) k)
  read_ast cross_tenant p command o w m k = ap (parse_expr sql) (
      sym (clause_of-select check p)
      ∙ subst (λ d. clause_of check p d ≡ o) (only_select command m) k)
  read_ast write p command o w m k = absurd (ground arith)
  read_ast escalation p command o w m k = absurd (ground arith)
  read_ast reachability p command o w m k = absurd (ground arith)

  write_ast :
      (p : Policy) (n : Node)
      → checked_ast sql p write ≡ some n
      → or_gates (effective_write_check sql p ∷ old_row_write_gate sql p ∷ []) ≡ some n
  unfolding checked_ast
  write_ast p n e = ground arith

  module _ (value : String → Truth) (unparsed : String → Bool) where
    parsed_passes :
        (mode : Mode) (p : Policy) (command : Command) (c : String) (n g : Node)
        → contains command (mode_acts mode) ≡ true
        → for_command p command ≡ true
        → clause_of check p command ≡ some c
        → parse_expr sql (some c) ≡ some g
        → admits value g ≡ true
        → checked_ast sql p mode ≡ some n
        → admits value n ≡ true
    parsed_passes mode p command c n g m f k j a e = elim (Bool-cases (is_write mode)) [
      | inr w ↦
          subst (λ z. admits value z ≡ true)
            (ap (λ o. elim o [ none ↦ n | some z ↦ z ])
              (sym j ∙ sym (read_ast mode p command (some c) w m k) ∙ e))
            a
      | inl w ↦
          let is : mode ≡ write = ground arith in
          or_gates-admits value _ n (write_ast p n (subst (λ z. checked_ast sql p z ≡ some n) is e))
            (parsed_gate p command c g (subst (λ z. contains command (mode_acts z) ≡ true) is m) f k
              j)
            a
    ]

    unparsed_refused :
        (mode : Mode) (p : Policy) (command : Command) (c : String) (n : Node)
        → contains command (mode_acts mode) ≡ true
        → for_command p command ≡ true
        → clause_of check p command ≡ some c
        → parse_expr sql (some c) ≡ none
        → checked_ast sql p mode ≢ some n
    unparsed_refused mode p command c n m f k j e = elim (Bool-cases (is_write mode)) [
      | inr w ↦ absurd (ground (arith, read_ast mode p command (some c) w m k))
      | inl w ↦
          let is : mode ≡ write = ground arith in
          let gone =
            unparsed_gate p command c (subst (λ z. contains command (mode_acts z) ≡ true) is m) f k
              j in
          absurd (ground (arith, gone, subst (λ z. checked_ast sql p z ≡ some n) is e))
    ]

    -- The checked tree admits the row where the clause does that decides the command.
    pub checked_ast-admits :
        (mode : Mode) (p : Policy) (command : Command) (c : String) (n : Node)
        → contains command (mode_acts mode) ≡ true
        → for_command p command ≡ true
        → clause_of check p command ≡ some c
        → clause_truth sql value unparsed c ≡ true
        → checked_ast sql p mode ≡ some n
        → admits value n ≡ true
    unfolding clause_truth
    checked_ast-admits mode p command c n m f k h e =
        elim (Option-cases (parse_expr sql (some c))) [
          | inr (g, j) ↦ parsed_passes mode p command c n g m f k j (rw (j, clause_truth) at h) e
          | inl j ↦ absurd (unparsed_refused mode p command c n m f k j e)
        ]
