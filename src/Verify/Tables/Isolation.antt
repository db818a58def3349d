-- ===== src/Verify/Tables/Isolation.antt =====
-- `build_verification` of src/pgrls/verify.py in its anonymous mode, with the prover of
-- src/pgrls/diff/_z3_compare.py, beside what PostgreSQL lets a session of an anonymous role reach.
use pgrls.Prelude.{
  Option-cases, nat_eq, string_eq, bool_eq, pair_eq, option_eq, In, In-cons, In-append,
  In-append_left, In-append_right, here, there, contains, In-contains, contains_head, sort_by,
  sort_by-In, In-sort_by, str_le, String, ◌≡◌, refl, sym, ap, subst, ◌∙◌, ◌↔◌, inl, inr, Bool, true,
  false, Option, some, List, [], ◌∷◌, ◌++◌, arith,
}
use pgrls.Model.{Table, Schema, Role, RoleMembership, command_eq, select, qualified_name}
use pgrls.Sql.{Sql, Node}
use pgrls.Rls.{old_row, admitted_on-old_row, reaches_row}
use pgrls.Roles.Closure.{Holds, seeded}
use pgrls.Access.Cells.Clauses.{clause_truth}
use pgrls.Prover.{Z3, Verdict, isolated, Row, prove_anon_isolation, states_of}
use pgrls.Prover.Kleene.{Laws}
use pgrls.Prover.Sessions.{IsLegal}
use pgrls.Prover.Isolation.{prove_anon_isolation_sound}
use pgrls.Verify.{Mode, anon, TableVerdict}
use pgrls.Verify.Anonymous.{anon_session_exempt, is_public}
use pgrls.Verify.Anonymous.Exempt.{
  Holds_mono, IsHeldBy, IsListed, anon_session_exempt_sound, unreachable_applies,
}
use pgrls.Verify.Tables.{table_verdict, table_verdicts, build_verification}
use pgrls.Verify.Tables.Policies.{ClearsRow}
use pgrls.Verify.Tables.Sound.{HasRoles, table_verdict_sound}

module _ (sql : Sql) (s : Schema) (mode : Mode) (prove : Node → Verdict × Option Row)
    (anon_roles : List String) (skip : Bool) where
  table_verdicts-In :
      (ts : List Table) {t : Table} (v : TableVerdict)
      → In t ts
      → table_verdict sql s mode prove anon_roles skip t ≡ some v
      → In v (table_verdicts sql s mode prove anon_roles skip ts)
  unfolding table_verdicts
  table_verdicts-In [] v m e = elim m [ ]
  table_verdicts-In (q ∷ qs) {t} v m e =
      let verdict = table_verdict sql s mode prove anon_roles skip in
      elim (In-cons m) [
        | inl i ↦
            let f : verdict q ≡ some v = ap verdict (sym i) ∙ e in
            rw (f, table_verdicts) (here refl)
        | inr n ↦ elim (Option-cases (verdict q)) [
          | inl f ↦ rw (f, table_verdicts) (table_verdicts-In qs v n e)
          | inr (y, f) ↦ rw (f, table_verdicts) (there (table_verdicts-In qs v n e))
        ]
      ]

  In-table_verdicts :
      (ts : List Table) (v : TableVerdict)
      → In v (table_verdicts sql s mode prove anon_roles skip ts)
      → (t : Table) × In t ts × (table_verdict sql s mode prove anon_roles skip t ≡ some v)
  unfolding table_verdicts
  In-table_verdicts [] v m = elim m [ ]
  In-table_verdicts (q ∷ qs) v m =
      elim (Option-cases (table_verdict sql s mode prove anon_roles skip q)) [
        | inl f ↦
            let (t, n, e) = In-table_verdicts qs v (rw (f, table_verdicts) at m) in (t, there n, e)
        | inr (y, f) ↦ elim (In-cons (rw (f, table_verdicts) at m)) [
          | inl i ↦ (q, here refl, f ∙ ap some (sym i))
          | inr k ↦ let (t, n, e) = In-table_verdicts qs v k in (t, there n, e)
        ]
      ]

  abbrev name_le : Table → Table → Bool
  name_le a b = str_le (qualified_name a) (qualified_name b)

  -- x
  pub build_verification_iff :
      (v : TableVerdict)
      → In v (build_verification sql s mode prove anon_roles skip).tables ↔ (
          (t : Table) × In t s.tables × (table_verdict sql s mode prove anon_roles skip t ≡ some v))
  unfolding build_verification
  build_verification_iff v = (
    λ m.
        let (t, n, e) = In-table_verdicts (sort_by name_le s.tables) v m in
        (t, In-sort_by name_le s.tables n, e),
    λ r. table_verdicts-In (sort_by name_le s.tables) v (sort_by-In name_le s.tables r.1) r.2,
  )

module _ (sql : Sql) (s : Schema) {F S G : Type 0} {z3 : Z3 F S} (laws : Laws z3)
    (context : G → Bool → S) (unset : G) (set_gucs : List G) (anon_roles : List String)
    (skip : Bool) (edges : List RoleMembership) (captured : s.role_memberships ≡ some edges) where
  walked :
      (prove : Node → Verdict × Option Row) (t : Table) (v : TableVerdict)
      → table_verdict sql s anon prove anon_roles skip t ≡ some v
      → v.verdict ≡ isolated
      → (anon_session_exempt sql s t anon_roles ≡ false) × (t.rls_enabled ≡ true)
  unfolding table_verdict
  walked prove t v e i = ground arith

  session_roles :
      (role : String) (held : List String) (r : String)
      → In role anon_roles
      → IsHeldBy edges role held
      → In r (held ++ "PUBLIC" ∷ [])
      → Holds edges (anon_roles ++ "PUBLIC" ∷ []) r
  session_roles role held r m h k = elim (In-append held ("PUBLIC" ∷ []) k) [
    | inl a ↦
        Holds_mono edges (role ∷ []) (anon_roles ++ "PUBLIC" ∷ [])
          (λ x n. In-append_left anon_roles _ (subst (λ z. In z anon_roles) (sym (only_one n)) m))
          (h r a)
    | inr b ↦ seeded (In-append_right anon_roles _ b)
  ]
    where
      only_one : {x y : String} → In x (y ∷ []) → x ≡ y
      only_one (here i) = i
      only_one (there n) = elim n [ ]

  -- An isolated verdict of a table in the anonymous mode is right: a session of an anonymous
  -- role, in each state of the settings and with an anonymous JWT or without, reaches no row of
  -- the table with SELECT by PostgreSQL's rules for privileges and row security. The role graph
  -- was captured, roles that skip row security are listed, every policy names its roles, and the
  -- solver and the reading of the leaves keep their laws.
  pub anon_verdict_sound :
      (t : Table) (v : TableVerdict) (role : Role) (held : List String) (state : G) (jwt : Bool)
      (w : laws.World) (unparsed : String → Bool)
      → table_verdict sql s anon (prove_anon_isolation z3 context unset set_gucs) anon_roles skip t
        ≡ some v
      → v.verdict ≡ isolated
      → In role.name anon_roles
      → is_public sql role.name ≡ false
      → IsListed s role
      → IsHeldBy edges role.name held
      → HasRoles t.policies
      → In state (states_of unset set_gucs)
      → ((n : Node) → IsLegal laws (context state jwt) n w)
      → reaches_row
          (clause_truth sql (laws.value (context state jwt) w) unparsed)
          role
          t
          select
          held
          (held ++ "PUBLIC" ∷ [])
        ≡ false
  unfolding reaches_row
  anon_verdict_sound t v role held state jwt w unparsed e i m p l h roles n legal =
      let prove = prove_anon_isolation z3 context unset set_gucs in
      let (free, on) = walked prove t v e i in
      let (plain, unowned) =
        anon_session_exempt_sound sql s edges captured t anon_roles role held free m p l h in
      let clears : ClearsRow prove (laws.value (context state jwt) w) = λ node row j.
        prove_anon_isolation_sound laws context unset set_gucs node row state jwt w j n
          (legal node) in
      let public : contains "PUBLIC" (held ++ "PUBLIC" ∷ []) ≡ true =
        In-contains (held ++ "PUBLIC" ∷ []) (In-append_right held ("PUBLIC" ∷ []) (here refl)) in
      let acts : contains select (select ∷ []) ≡ true = contains_head select [] in
      let refused =
        table_verdict_sound sql s anon prove anon_roles (laws.value (context state jwt) w) unparsed
          select (held ++ "PUBLIC" ∷ []) acts public clears old_row skip t v
          (λ q x u.
            unreachable_applies sql s edges captured q select anon_roles (held ++ "PUBLIC" ∷ []) u
              (λ r k. session_roles role.name held r m h k))
          roles (λ q k x. absurd (ground arith)) e i in
      ground (
        arith,
        refused,
        admitted_on-old_row (clause_truth sql (laws.value (context state jwt) w) unparsed) select
            (held ++ "PUBLIC" ∷ []) t.policies,
      )
