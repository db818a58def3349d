-- ===== src/Verify/Escalation/Owners.antt =====
-- The verdicts of `build_escalation` (src/pgrls/verify.py) beside those of the cross-tenant mode.
use pgrls.Prelude.{
  Bool-cases, Option-cases, nat_eq, string_eq, bool_eq, pair_eq, option_eq, is_empty, In, In-cons,
  In-append_left, In-map, In-contains, dedup-In, filter-In, contains, here, there, sort_by-In,
  find_last, find_last-In, Distinct, find_last-Distinct, String, ◌≡◌, refl, sym, ap, subst, ◌∙◌,
  inl, inr, true, false, Option, none, some, List, [], ◌∷◌, arith,
}
use pgrls.Model.{OwnerReachableMember, Table, Schema, qualified_name}
use pgrls.Sql.{Sql, Node}
use pgrls.Prover.{Verdict, isolated, leak, unverified, Row, is_leak}
use pgrls.Verify.{cross_tenant, PolicyProof, TableVerdict}
use pgrls.Verify.Tables.{reachers, build_verification}
use pgrls.Verify.Escalation.{
  first_leaking, leaks_every_row, path_of, escalated, verdict_name, joined, escalation_verdict,
  escalation_verdicts, escalation_tables, build_escalation,
}

first_leaking-In :
    (proofs : List PolicyProof) (p : PolicyProof)
    → first_leaking proofs ≡ some p
    → In p proofs × (p.verdict ≡ leak)
unfolding first_leaking
first_leaking-In [] p e = absurd (ground arith)
first_leaking-In (q ∷ qs) p e = elim (Bool-cases (is_leak q.verdict)) [
  | inl k ↦
      let same : q ≡ p = ground arith in
      (here (sym same), subst (λ z. z.verdict ≡ leak) same (ground arith))
  | inr k ↦ let (m, l) = first_leaking-In qs p (ground arith) in (there m, l)
]

no_entry : (w : Option Row) → elim w [ none ↦ false | some row ↦ is_empty row ] ≡ true → w ≡ some []
no_entry none h = absurd (ground arith)
no_entry (some []) h = refl
no_entry (some (e ∷ row)) h = absurd (ground arith)

every_row :
    (proofs : List PolicyProof)
    → leaks_every_row proofs ≡ true
    → (p : PolicyProof) × In p proofs × (p.verdict ≡ leak) × (p.witness ≡ some [])
unfolding leaks_every_row
every_row proofs h = elim (Option-cases (first_leaking proofs)) [
  | inl f ↦ absurd (ground arith)
  | inr (p, f) ↦
      let (m, l) = first_leaking-In proofs p f in
      let every : elim p.witness [ none ↦ false | some row ↦ is_empty row ] ≡ true =
        ap
          (λ o. elim o [
            | none ↦ false
            | some q ↦ elim q.witness [ none ↦ false | some row ↦ is_empty row ]
          ])
          (sym f)
        ∙ h in
      (p, m, l, no_entry p.witness every)
]

escalated_isolated :
    (t : Table) (path : String) (v : Verdict) (proofs : List PolicyProof)
    → (escalated t path v proofs).verdict ≡ isolated
    → (v ≡ leak) × (leaks_every_row proofs ≡ true)
unfolding escalated
escalated_isolated t path isolated proofs e = absurd (ground arith)
escalated_isolated t path unverified proofs e = absurd (ground arith)
escalated_isolated t path leak proofs e = elim (Bool-cases (leaks_every_row proofs)) [
  | inl a ↦ (refl, a)
  | inr a ↦ absurd (ground arith)
]

joined_isolated :
    (t : Table) (path : String) (o : Option TableVerdict)
    → (joined t path o).verdict ≡ isolated
    → (x : TableVerdict) × (o ≡ some x) × (x.verdict ≡ leak) × (leaks_every_row x.proofs ≡ true)
unfolding joined
joined_isolated t path none e = absurd (ground (arith, escalated_isolated t path isolated [] e))
joined_isolated t path (some x) e =
    let (l, a) = escalated_isolated t path x.verdict x.proofs e in (x, refl, l, a)

-- An owner that can be reached is called harmless only where a cross-tenant verdict of the table
-- is a leak with a proof that every row leaks.
pub escalation_verdict_isolated :
    (s : Schema) (xt : List TableVerdict) (t : Table) (v : TableVerdict)
    → escalation_verdict s xt t ≡ some v
    → v.verdict ≡ isolated
    → (x : TableVerdict) × In x xt
      × (x.qualified_name ≡ qualified_name t)
      × (x.verdict ≡ leak)
      × (p : PolicyProof) × In p x.proofs
      × (p.verdict ≡ leak)
      × (p.witness ≡ some [])
unfolding escalation_verdict
escalation_verdict_isolated s xt t v e i =
    let path = path_of (reachers s t.owner) t.owner in
    let (x, f, l, a) =
      joined_isolated t path (find_last verdict_name (qualified_name t) xt) (ground arith) in
    let (m, n) = find_last-In verdict_name (qualified_name t) xt f in
    let (p, k, j, w) = every_row x.proofs a in (x, m, n, l, p, k, j, w)

module _ (s : Schema) (xt : List TableVerdict) where
  escalation_verdicts-In :
      (ts : List Table) {t : Table} (v : TableVerdict)
      → In t ts
      → escalation_verdict s xt t ≡ some v
      → In v (escalation_verdicts s xt ts)
  unfolding escalation_verdicts
  escalation_verdicts-In [] v m e = elim m [ ]
  escalation_verdicts-In (q ∷ qs) {t} v m e = elim (In-cons m) [
    | inl i ↦
        let f : escalation_verdict s xt q ≡ some v = ap (escalation_verdict s xt) (sym i) ∙ e in
        rw (f, escalation_verdicts) (here refl)
    | inr n ↦ elim (Option-cases (escalation_verdict s xt q)) [
      | inl f ↦ rw (f, escalation_verdicts) (escalation_verdicts-In qs v n e)
      | inr (y, f) ↦ rw (f, escalation_verdicts) (there (escalation_verdicts-In qs v n e))
    ]
  ]

  joined_leak :
      (t : Table) (x : TableVerdict)
      → Distinct verdict_name xt
      → In x xt
      → x.qualified_name ≡ qualified_name t
      → x.verdict ≡ isolated
      → escalated t (path_of (reachers s t.owner) t.owner) isolated x.proofs
        ≡ joined t
            (path_of (reachers s t.owner) t.owner)
            (find_last verdict_name (qualified_name t) xt)
  unfolding joined
  joined_leak t x d m q i =
      let path = path_of (reachers s t.owner) t.owner in
      let found : find_last verdict_name (qualified_name t) xt ≡ some x =
        subst (λ k. find_last verdict_name k xt ≡ some x) q
          (find_last-Distinct verdict_name xt d m) in
      ap (λ v. escalated t path v x.proofs) (sym i) ∙ ap (joined t path) (sym found)

-- A member that reaches the owner by any of its paths is one of the reachers.
reached :
    (s : Schema) (owner : String) (m : OwnerReachableMember)
    → In m s.owner_reachable_members
    → In owner m.via_owners
    → is_empty (reachers s owner) ≡ false
unfolding reachers
reached s owner m n i =
    let mine = λ (x : OwnerReachableMember). contains owner x.via_owners in
    not_empty _ (
      dedup-In _ (
        In-map (λ (x : OwnerReachableMember). x.member)
          (filter-In mine s.owner_reachable_members n (In-contains m.via_owners i))))
  where
    not_empty : {x : String} (xs : List String) → In x xs → is_empty xs ≡ false
    not_empty [] m = elim m [ ]
    not_empty (x ∷ xs) m = refl

-- A table that the cross-tenant mode proves isolated is reported as a leak where row security is
-- on and not forced and some role of low trust has the owner among those that it reaches. The
-- names of the cross-tenant verdicts are distinct.
pub escalation_reports :
    (sql : Sql) (s : Schema) (prove : Node → Verdict × Option Row) (anon_roles : List String)
    (secdef : List TableVerdict) (t : Table) (x : TableVerdict)
    → Distinct verdict_name (build_verification sql s cross_tenant prove anon_roles true).tables
    → In t s.tables
    → In x (build_verification sql s cross_tenant prove anon_roles true).tables
    → x.qualified_name ≡ qualified_name t
    → x.verdict ≡ isolated
    → t.rls_enabled ≡ true
    → t.force_rls ≡ false
    → (member : OwnerReachableMember) → In member s.owner_reachable_members
    → In t.owner member.via_owners
    → (v : TableVerdict) × In v (build_escalation sql s prove anon_roles secdef).tables
      × (v.qualified_name ≡ qualified_name t)
      × (v.verdict ≡ leak)
unfolding build_escalation escalation_tables escalation_verdict escalated
escalation_reports sql s prove anon_roles secdef t x d m k q i r f member n o =
    let xt = (build_verification sql s cross_tenant prove anon_roles true).tables in
    let path = path_of (reachers s t.owner) t.owner in
    let v = escalated t path isolated x.proofs in
    let reported : escalation_verdict s xt t ≡ some v =
      ground (arith, joined_leak s xt t x d k q i, reached s t.owner member n o) in
    (
      v,
      sort_by-In _ _ (
          In-append_left _ secdef
            (escalation_verdicts-In s xt _ v (sort_by-In _ s.tables m) reported)),
      refl,
      refl,
    )
