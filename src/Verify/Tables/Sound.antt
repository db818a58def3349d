-- ===== src/Verify/Tables/Sound.antt =====
-- The verdict of a table in `build_verification` (src/pgrls/verify.py) beside the rows that its
-- policies admit.
use pgrls.Prelude.{
  Option-cases, Bool-ext, and_left, and_right, nat_eq, string_eq, bool_eq, pair_eq, option_eq,
  is_empty, all, In, In-cons, any-In, all-In, In-filter, filter-In, here, there, contains, String,
  ◌≡◌, refl, sym, ap, ◌∙◌, inl, inr, Bool, true, false, not, Option, some, List, [], ◌∷◌, arith,
}
use pgrls.Model.{Policy, Table, Schema, Command, command_eq}
use pgrls.Sql.{Sql, Node}
use pgrls.Sql.Truth.{Truth}
use pgrls.Rls.{Check, applies, admitted_on, grants_on, lets_on}
use pgrls.Access.Cells.Clauses.{clause_truth}
use pgrls.Prover.{Verdict, isolated, Row}
use pgrls.Verify.{
  Mode, anon, cross_tenant, write, escalation, reachability, mode_commands, PolicyProof,
  TableVerdict, rollup-isolated,
}
use pgrls.Verify.Gates.Sound.{mode_acts, for_command}
use pgrls.Verify.Tables.{
  policy_proof, policy_proofs, relevant, permissives, restrictives_of, policies_verdict,
  table_verdict,
}
use pgrls.Verify.Tables.Policies.{ClearsRow, HasFloor, IsFloor, IsReached, policy_proof_sound}

-- The roles of a policy are written out, PUBLIC among them.
abbrev pub HasRoles : List Policy → Type 0
HasRoles ps = (p : Policy) → In p ps → is_empty p.roles ≡ false

known_command :
    (mode : Mode) (p : Policy) (command : Command)
    → contains command (mode_acts mode) ≡ true
    → for_command p command ≡ true
    → contains p.command (mode_commands mode) ≡ true
unfolding contains mode_commands
known_command anon p command m f = ground arith
known_command cross_tenant p command m f = ground arith
known_command write p command m f = ground arith
known_command escalation p command m f = absurd (ground arith)
known_command reachability p command m f = absurd (ground arith)

module _ (sql : Sql) (s : Schema) (mode : Mode) (prove : Node → Verdict × Option Row)
    (anon_roles : List String) where
  policy_proofs-In :
      (restrictives ps : List Policy) {p : Policy} (x : PolicyProof)
      → In p ps
      → policy_proof sql s mode prove anon_roles restrictives p ≡ some x
      → In x (policy_proofs sql s mode prove anon_roles restrictives ps)
  unfolding policy_proofs
  policy_proofs-In restrictives [] x m e = elim m [ ]
  policy_proofs-In restrictives (q ∷ qs) {p} x m e =
      let policy = policy_proof sql s mode prove anon_roles restrictives in
      elim (In-cons m) [
        | inl i ↦
            let f : policy q ≡ some x = ap policy (sym i) ∙ e in rw (f, policy_proofs) (here refl)
        | inr n ↦ elim (Option-cases (policy q)) [
          | inl f ↦ rw (f, policy_proofs) (policy_proofs-In restrictives qs x n e)
          | inr (y, f) ↦ rw (f, policy_proofs) (there (policy_proofs-In restrictives qs x n e))
        ]
      ]

  module _ (value : String → Truth) (unparsed : String → Bool) (command : Command)
      (targets : List String) (acts : contains command (mode_acts mode) ≡ true)
      (public : contains "PUBLIC" targets ≡ true) (clears : ClearsRow prove value)
      (check : Check) where
    abbrev truth : String → Bool
    truth = clause_truth sql value unparsed

    abbrev Reached : Type 0
    Reached =
        IsReached sql s mode prove anon_roles value unparsed command targets acts public clears
          check

    restrictives_bind :
        (t : Table)
        → HasFloor check mode command t.policies
        → all (lets_on check truth command targets) t.policies ≡ true
        → (r : Policy) → In r (restrictives_of sql s mode prove anon_roles t)
        → IsFloor sql s mode prove anon_roles value unparsed command targets acts public clears
            check r
    restrictives_bind t floors lets r m =
        let (n, perm) =
          In-filter (λ (p : Policy). not p.permissive) (relevant sql s mode prove anon_roles t) m in
        let (k, known) =
          In-filter (λ (p : Policy). contains p.command (mode_commands mode)) t.policies n in
        let bound : r.permissive ≡ false = ground arith in
        (
          bound,
          known,
          all-In (lets_on check truth command targets) t.policies lets k,
          λ w. floors r k w bound,
        )

    listed :
        (t : Table) (p : Policy)
        → In p t.policies
        → grants_on check truth command targets p ≡ true
        → In p (permissives sql s mode prove anon_roles t)
    unfolding grants_on applies
    listed t p m g =
        filter-In (λ (p : Policy). p.permissive) (relevant sql s mode prove anon_roles t)
          (filter-In (λ (p : Policy). contains p.command (mode_commands mode)) t.policies m
            (known_command mode p command acts (ground arith)))
          (ground arith)

    is_listed : {A : Type 0} {a : A} (xs : List A) → In a xs → is_empty xs ≡ false
    is_listed [] m = elim m [ ]
    is_listed (x ∷ xs) m = refl

    -- A verdict without a leak or a doubt proves each policy.
    proved :
        (t : Table) (p : Policy) (x : PolicyProof)
        → In p (permissives sql s mode prove anon_roles t)
        → (policies_verdict sql s mode prove anon_roles t).verdict ≡ isolated
        → policy_proof sql s mode prove anon_roles (restrictives_of sql s mode prove anon_roles t) p
          ≡ some x
        → x.verdict ≡ isolated
    unfolding policies_verdict
    proved t p x m e k =
        let mine = permissives sql s mode prove anon_roles t in
        let others = restrictives_of sql s mode prove anon_roles t in
        rollup-isolated (policy_proofs sql s mode prove anon_roles others mine)
          (ground (arith, is_listed mine m)) (policy_proofs-In others mine x m k)

    policies_sound :
        (t : Table)
        → Reached
        → HasRoles t.policies
        → HasFloor check mode command t.policies
        → (policies_verdict sql s mode prove anon_roles t).verdict ≡ isolated
        → admitted_on check truth command targets t.policies ≡ false
    unfolding admitted_on
    policies_sound t u roles floors e =
        Bool-ext _ false
          (λ a.
            let (p, m, g) =
              any-In (grants_on check truth command targets) t.policies (and_left _ _ a) in
            let none_granted =
              policy_proof_sound sql s mode prove anon_roles value unparsed command targets acts
                public clears check u (restrictives_of sql s mode prove anon_roles t) p (roles p m)
                (restrictives_bind t floors (and_right _ _ a))
                (λ x k. proved t p x (listed t p m g) e k) in
            sym none_granted ∙ g)
          (λ f. absurd (ground arith))

    -- Where the verdict of a table is isolated, its policies do not admit the row at hand for a
    -- command of the mode: SELECT when reading; INSERT, UPDATE or DELETE when writing. For UPDATE
    -- this is shown of the row that it finds and of the row that it leaves. A predicate that the
    -- prover calls isolated does not admit the row, a policy that is called unreachable does not
    -- apply to the session, every policy names its roles, and when writing each restrictive
    -- policy has the clause that decides the command.
    pub table_verdict_sound :
        (skip : Bool) (t : Table) (v : TableVerdict)
        → Reached
        → HasRoles t.policies
        → HasFloor check mode command t.policies
        → table_verdict sql s mode prove anon_roles skip t ≡ some v
        → v.verdict ≡ isolated
        → admitted_on check truth command targets t.policies ≡ false
    unfolding table_verdict
    table_verdict_sound skip t v u roles floors e i = policies_sound t u roles floors (ground arith)
