-- ===== src/Coverage/Accesses.antt =====
-- `_collect_accesses` of src/pgrls/coverage.py: the relations that a statement touches.
use pgrls.Prelude.{
  if◌then◌else◌, Bool-cases, ◌==◌, ==→eq, In-cons, ◌⊎◌, ◌≢◌, contains-In, contains_head,
  contains_cons, nat_eq, string_eq, bool_eq, pair_eq, option_eq, is_empty, In, In-append, map-In,
  flat_map, In-flat_map, here, there, contains, dedup, contains-append, sort_by, str_le, String,
  ◌≡◌, ap, ◌∙◌, inl, inr, Bool, true, false, ◌&&◌, ◌||◌, Option, none, some, List, [], ◌∷◌, ◌++◌,
  map, arith,
}

abbrev pub RelationName : Type 0
RelationName = Option String × String

-- What the code reads of a statement: `_write_commands`, the common table expressions with their
-- names, the name of the target, and `_own_range_vars`.
mutual
  pub data Stmt : Type 0 where
    stmt : Option (List String) → Ctes → Option RelationName → List RelationName → Stmt

  pub data Ctes : Type 0 where
    no_cte : Ctes
    cte : String → Stmt → Ctes → Ctes

pub record Access : Type 0 where
  pub schema : Option String
  pub relation : String
  pub command : String

-- The names that are not empty.
unfoldable pub own_cte_names : Ctes → List String
own_cte_names no_cte = []
own_cte_names (cte name body rest) =
    let more = own_cte_names rest in if name == "" then more else name ∷ more

abbrev pub is_none : Option String → Bool
is_none none = true
is_none (some s) = false

unfoldable pub target_key : List String → Option RelationName → Option RelationName
target_key write_commands none = none
target_key write_commands (some (s, r)) =
    if is_empty write_commands || r == "" then none else some (s, r)

abbrev pub made : Option String → String → String → Access
made s r c = record { schema = s; relation = r; command = c }

-- The body of the loop over the relations.
unfoldable pub accesses_of :
    List String → List String → Option RelationName → RelationName → List Access
accesses_of scope write_commands key (s, r) =
    if is_none s && contains r scope
    then []
    else if some (s, r) == key
    then map (made s r) (sort_by str_le (dedup write_commands))
    else made s r "SELECT" ∷ []

unfoldable mutual
  pub collect_accesses : Stmt → List String → List Access
  collect_accesses (stmt none ctes target vars) cte_scope = []
  collect_accesses (stmt (some write_commands) ctes target vars) cte_scope =
      let scope = cte_scope ++ own_cte_names ctes in
      collect_ctes ctes scope
      ++ flat_map (accesses_of scope write_commands (target_key write_commands target)) vars

  pub collect_ctes : Ctes → List String → List Access
  collect_ctes no_cte scope = []
  collect_ctes (cte name body rest) scope = collect_accesses body scope ++ collect_ctes rest scope

only_access : {a b : Access} → In a (b ∷ []) → a ≡ b
only_access (here i) = i
only_access (there m) = elim m [ ]

accesses_of-In :
    (scope write_commands : List String) (key : Option RelationName) (v : RelationName) (a : Access)
    → In a (accesses_of scope write_commands key v)
    → (is_none a.schema && contains a.relation scope) ≡ false
unfolding accesses_of
accesses_of-In scope write_commands key (s, r) a m =
    elim (Bool-cases (is_none s && contains r scope)) [
      | inl k ↦ elim (rw k at m) [ ]
      | inr k ↦ elim (Bool-cases (some (s, r) == key)) [
        | inl j ↦
            let (c, i, e) =
              map-In (λ (c : String). made s r c) (sort_by str_le (dedup write_commands))
                (rw (k, j) at m) in
            ap (λ (z : Access). is_none z.schema && contains z.relation scope) e ∙ k
        | inr j ↦
            let e : a ≡ made s r "SELECT" = only_access (rw (k, j) at m) in
            ap (λ (z : Access). is_none z.schema && contains z.relation scope) e ∙ k
      ]
    ]

-- Every name that the statement gives to a common table expression of its own.
abbrev pub cte_names : Ctes → List String
cte_names no_cte = []
cte_names (cte name body rest) = name ∷ cte_names rest

cte_names-In :
    (ctes : Ctes) (r : String)
    → In r (cte_names ctes)
    → (contains r (own_cte_names ctes) ≡ true) ⊎ (r ≡ "")
unfolding own_cte_names
cte_names-In no_cte r m = elim m [ ]
cte_names-In (cte name body rest) r m = elim (Bool-cases (name == "")) [
  | inl k ↦ elim (In-cons m) [
    | inl i ↦ inr (i ∙ ==→eq name "" k)
    | inr n ↦ elim (cte_names-In rest r n) [ inl j ↦ inl (rw (k, own_cte_names) j) | inr j ↦ inr j ]
  ]
  | inr k ↦ elim (In-cons m) [
    | inl i ↦ inl (
        rw (k, own_cte_names)
          (ap (λ z. contains z (name ∷ own_cte_names rest)) i
            ∙ contains_head name (own_cte_names rest)))
    | inr n ↦ elim (cte_names-In rest r n) [
      | inl j ↦ inl (rw (k, own_cte_names) (contains_cons name (own_cte_names rest) r j))
      | inr j ↦ inr j
    ]
  ]
]

own_scope :
    (scope cmds : List String) (key : Option RelationName) (vars : List RelationName) (a : Access)
    → In a (flat_map (accesses_of scope cmds key) vars)
    → a.schema ≡ none
    → contains a.relation scope ≡ false
own_scope scope cmds key vars a m e =
    let (v, i, j) = In-flat_map (accesses_of scope cmds key) vars m in
    ground (arith, accesses_of-In scope cmds key v a j, ap is_none e)

mutual
  unfolding collect_accesses collect_ctes

  accesses_scope :
      (st : Stmt) (scope : List String) (a : Access)
      → In a (collect_accesses st scope)
      → a.schema ≡ none
      → contains a.relation scope ≡ false
  accesses_scope (stmt none ctes target vars) scope a m e = elim m [ ]
  accesses_scope (stmt (some cmds) ctes target vars) scope a m e =
      let inner = scope ++ own_cte_names ctes in
      let key = target_key cmds target in
      let seen = contains-append a.relation scope (own_cte_names ctes) in
      elim (In-append (collect_ctes ctes inner) (flat_map (accesses_of inner cmds key) vars) m) [
        | inl k ↦ ground (arith, collect_ctes_scope ctes inner a k e, seen)
        | inr k ↦ ground (arith, own_scope inner cmds key vars a k e, seen)
      ]

  collect_ctes_scope :
      (ctes : Ctes) (scope : List String) (a : Access)
      → In a (collect_ctes ctes scope)
      → a.schema ≡ none
      → contains a.relation scope ≡ false
  collect_ctes_scope no_cte scope a m e = elim m [ ]
  collect_ctes_scope (cte name body rest) scope a m e =
      elim (In-append (collect_accesses body scope) (collect_ctes rest scope) m) [
        | inl k ↦ accesses_scope body scope a k e
        | inr k ↦ collect_ctes_scope rest scope a k e
      ]

statement_scope :
    (cmds : List String) (ctes : Ctes) (target : Option RelationName) (vars : List RelationName)
    (scope : List String) (a : Access)
    → In a (collect_accesses (stmt (some cmds) ctes target vars) scope)
    → a.schema ≡ none
    → contains a.relation (scope ++ own_cte_names ctes) ≡ false
unfolding collect_accesses
statement_scope cmds ctes target vars scope a m e =
    let inner = scope ++ own_cte_names ctes in
    let key = target_key cmds target in
    elim (In-append (collect_ctes ctes inner) (flat_map (accesses_of inner cmds key) vars) m) [
      | inl k ↦ collect_ctes_scope ctes inner a k e
      | inr k ↦ own_scope inner cmds key vars a k e
    ]

-- An unqualified relation, its name not empty, that a statement is said to touch, in its own
-- clauses or in those of its common table expressions, is named neither like one of these
-- expressions nor like one in the scope around it.
pub collect_accesses_scope :
    (commands : Option (List String)) (ctes : Ctes) (target : Option RelationName)
    (vars : List RelationName) (scope : List String) (a : Access)
    → In a (collect_accesses (stmt commands ctes target vars) scope)
    → a.schema ≡ none
    → a.relation ≢ ""
    → (contains a.relation scope ≡ false) × (contains a.relation (cte_names ctes) ≡ false)
unfolding collect_accesses
collect_accesses_scope none ctes target vars scope a m e n = elim m [ ]
collect_accesses_scope (some cmds) ctes target vars scope a m e n =
    let out = statement_scope cmds ctes target vars scope a m e in
    let split = contains-append a.relation scope (own_cte_names ctes) in
    (
      ground (arith, out, split),
      elim (Bool-cases (contains a.relation (cte_names ctes))) [
        | inr k ↦ k
        | inl k ↦ elim (cte_names-In ctes a.relation (contains-In a.relation (cte_names ctes) k)) [
          | inl j ↦ absurd (ground (arith, out, split, j))
          | inr j ↦ absurd (n j)
        ]
      ],
    )
