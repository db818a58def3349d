-- ===== src/Examples/Provers.antt =====
-- A solver over two worlds, one with a public row and one with a private row, and the provers of
-- src/pgrls/diff/_z3_compare.py at it.
use pgrls.Prelude.{
  flat_map, if◌then◌else◌, Bool-cases, ◌==◌, nat_eq, string_eq, bool_eq, pair_eq, option_eq, any,
  all, In, here, contains, dedup, String, ◌≡◌, refl, sym, ap, subst, ◌∙◌, inl, inr, Bool, true,
  false, ◌&&◌, ◌||◌, not, Option, none, some, List, [], ◌∷◌, arith,
}
use pgrls.Sql.{Node, leaf, bool_expr, and_expr, or_expr, not_expr, nil, cons}
use pgrls.Sql.Truth.{Truth, holds, fails, null, eval, admits, is_true}
use pgrls.Prover.{
  Z3, Tv, Term, tv_term, val_term, Answer, sat, unsat, isolated, leak, anon_tv, anon_tvs, combine,
  gather, anon_boolexpr, fold_tvs, kleene_and, kleene_or, kleene_not, session_verdict, answered,
  leak_witness, anon_witness_is_sufficient, and_of, first_leak, any_session, lift_with, lift_to_tv,
  Row, prove_anon_session, anon_sessions, states_of, prove_anon_isolation, anon_leak_is_total, pins,
}
use pgrls.Prover.Kleene.{Laws, TellsTerm, is_null}
use pgrls.Prover.Encoding.{anon_tv_encodes, raised_hold}
use pgrls.Prover.Sessions.{IsLegal, leak_witness_sufficient}
use pgrls.Prover.CrossTenant.{
  Tenancy, SessionLaws, tenant_pairs, session_null_tests, session_null_tests_offaxis, single_pair,
  tenant_axis, axis_verdict, encoded_verdict, prove_cross_tenant_isolation,
  prove_cross_tenant_isolation_sound,
}
use pgrls.Prover.Isolation.{
  prove_anon_isolation_sound, prove_anon_isolation_leak, anon_leak_is_total_sound,
}

-- The session function, the column `b` and the constant.
pub data Kind : Type 0 where
  session_call column constant other : Kind

abbrev pub kind_of : String → Kind
kind_of s =
    if s == "a"
    then session_call
    else if s == "b"
    then column
    else if s == "true"
    then constant
    else other

abbrev pub Formula : Type 0
Formula = Bool → Bool

abbrev pub kind_term : Kind → Option (Term Formula × List Formula)
kind_term session_call = some (tv_term (record { is_true = λ w. false; is_null = λ w. true }), [])
kind_term column =
    some (val_term (record { value = λ w. w; is_null = λ w. false; unset = false }), [])
kind_term constant = some (tv_term (record { is_true = λ w. true; is_null = λ w. false }), [])
kind_term other = none

abbrev pub kind_value : Kind → Bool → Truth
kind_value session_call w = null
kind_value column w = if w then holds else fails
kind_value constant w = holds
kind_value other w = null

unfoldable pub two_worlds : List Formula → Answer
two_worlds fs = if all (λ f. f true) fs || all (λ f. f false) fs then sat else unsat

abbrev pub demo_z3 : Z3 Formula Bool
demo_z3 = record {
  available = true;
  bool_val = λ b w. b;
  and = λ f g w. f w && g w;
  or = λ f g w. f w || g w;
  neg = λ f w. not (f w);
  is_bool = λ f. true;
  check = two_worlds;
  leaf_term = λ session s. kind_term (kind_of s);
  decode = λ session fs. if session then [] else ("b", "true") ∷ [];
  pin = λ session entry. some (λ w. w, λ w. false);
}

abbrev pub reads_world : Bool → Formula → Bool
reads_world w f = f w

pub first_term :
    {x t : Term Formula} {xs raised : List Formula}
    → ◌≡◌ {A = Option (Term Formula × List Formula)} (some (x, xs)) (some (t, raised))
    → x ≡ t
first_term {x} e = ap (λ o. elim o [ none ↦ x | some p ↦ p.0 ]) e

pub kind_law :
    (k : Kind) (t : Term Formula) (raised : List Formula) (w : Bool)
    → kind_term k ≡ some (t, raised)
    → TellsTerm reads_world w t (kind_value k w)
kind_law session_call t raised w e =
    subst (λ z. TellsTerm reads_world w z null) (first_term e) (refl, refl)
kind_law column t raised w e =
    subst (λ z. TellsTerm reads_world w z (if w then holds else fails)) (first_term e)
      (λ u. absurd (ground arith), λ u x. ground arith)
kind_law constant t raised w e =
    subst (λ z. TellsTerm reads_world w z holds) (first_term e) (refl, refl)
kind_law other t raised w e = absurd (ground arith)

pub unsat_worlds :
    (fs : List Formula) → two_worlds fs ≡ unsat → (w : Bool) → all (λ (f : Formula). f w) fs ≡ false
unfolding two_worlds
unsat_worlds fs e true = ground arith
unsat_worlds fs e false = ground arith

pub sat_worlds :
    (fs : List Formula) → two_worlds fs ≡ sat → (w : Bool) × (all (λ (f : Formula). f w) fs ≡ true)
unfolding two_worlds
sat_worlds fs e = elim (Bool-cases (all (λ (f : Formula). f true) fs)) [
  | inl k ↦ (true, k)
  | inr k ↦ (false, ground arith)
]

abbrev pub demo_laws : Laws demo_z3
demo_laws = record {
  World = Bool;
  meets = λ w f. f w;
  value = λ session w s. kind_value (kind_of s) w;
  bool_val_law = λ w b. refl;
  and_law = λ w f g. refl;
  or_law = λ w f g. refl;
  neg_law = λ w f. refl;
  unsat_law = unsat_worlds;
  sat_law = sat_worlds;
  leaf_law = λ session s t raised e w h. kind_law (kind_of s) t raised w e;
}

-- `owner = session user OR NOT public`, whose two leaves are `a` and `b`
abbrev pub own_or_hidden : Node
own_or_hidden =
    bool_expr or_expr (cons (leaf "a") (cons (bool_expr not_expr (cons (leaf "b") nil)) nil))

abbrev pub own_and_public : Node
own_and_public = bool_expr and_expr (cons (leaf "a") (cons (leaf "b") nil))

abbrev pub own_or_public : Node
own_or_public = bool_expr or_expr (cons (leaf "a") (cons (leaf "b") nil))

-- `b OR NOT b`
abbrev pub everything : Node
everything =
    bool_expr or_expr (cons (leaf "b") (cons (bool_expr not_expr (cons (leaf "b") nil)) nil))

-- Without settings, a session is told by its key.
abbrev pub keyed : Row → Bool → Bool
keyed g jwt = jwt

abbrev pub key_only : Row → Bool → Bool
key_only g jwt = true

kind_raised :
    (k : Kind) (tv : Tv Formula) (raised : List Formula) (w : Bool)
    → lift_with demo_z3 (kind_term k) ≡ some (tv, raised)
    → all (reads_world w) raised ≡ true
unfolding lift_with lift_to_tv all
kind_raised session_call tv raised w e =
    ap (λ o. elim o [ none ↦ true | some p ↦ all (reads_world w) p.1 ]) (sym e)
kind_raised column tv raised w e =
    ap (λ o. elim o [ none ↦ true | some p ↦ all (reads_world w) p.1 ]) (sym e) ∙ ground arith
kind_raised constant tv raised w e =
    ap (λ o. elim o [ none ↦ true | some p ↦ all (reads_world w) p.1 ]) (sym e)
kind_raised other tv raised w e = absurd (ground arith)

pub legal : (session : Bool) (n : Node) (w : Bool) → IsLegal demo_laws session n w
legal session n w =
    raised_hold demo_laws session w (λ s tv raised e. kind_raised (kind_of s) tv raised w e) n

anon_tv_encodes_example :
    (true ≡ is_true (eval (λ s. kind_value (kind_of s) false) own_or_hidden))
    × (false ≡ is_null (eval (λ s. kind_value (kind_of s) false) own_or_hidden))
unfolding all anon_tv anon_tvs combine gather lift_with lift_to_tv anon_boolexpr fold_tvs kleene_or
    kleene_not
anon_tv_encodes_example = anon_tv_encodes demo_laws false false own_or_hidden _ _ refl refl

isolated_answer : prove_anon_isolation demo_z3 keyed [] [] own_and_public ≡ (isolated, none)
unfolding prove_anon_isolation anon_sessions states_of flat_map any_session first_leak
    prove_anon_session session_verdict answered two_worlds all any anon_tv anon_tvs combine gather
    lift_with lift_to_tv anon_boolexpr fold_tvs kleene_and leak_witness
isolated_answer = refl

prove_anon_isolation_sound_example :
    admits (λ s. kind_value (kind_of s) true) own_and_public ≡ false
unfolding states_of
prove_anon_isolation_sound_example =
    prove_anon_isolation_sound demo_laws keyed [] [] own_and_public none [] true true
      isolated_answer (here refl) (legal true own_and_public true)

leak_answer :
    prove_anon_isolation demo_z3 keyed [] [] own_or_public ≡ (leak, some (("b", "true") ∷ []))
unfolding prove_anon_isolation anon_sessions states_of flat_map any_session first_leak
    prove_anon_session session_verdict answered two_worlds all any anon_tv anon_tvs combine gather
    lift_with lift_to_tv anon_boolexpr fold_tvs kleene_or leak_witness anon_witness_is_sufficient
    pins and_of
leak_answer = refl

prove_anon_isolation_leak_example :
    (state : Row) × (jwt : Bool) × In state (states_of [] [])
    × (w : Bool) × IsLegal demo_laws jwt own_or_public w
    × (admits (λ s. kind_value (kind_of s) w) own_or_public ≡ true)
prove_anon_isolation_leak_example =
    prove_anon_isolation_leak demo_laws keyed [] [] own_or_public (some (("b", "true") ∷ []))
      leak_answer

session_answer : prove_anon_session demo_z3 false own_or_public ≡ (leak, some (("b", "true") ∷ []))
unfolding prove_anon_session session_verdict answered two_worlds all any anon_tv anon_tvs combine
    gather lift_with lift_to_tv anon_boolexpr fold_tvs kleene_or leak_witness
    anon_witness_is_sufficient pins and_of
session_answer = refl

pinned_columns : pins demo_z3 false (("b", "true") ∷ []) ≡ some ((λ w. w) ∷ (λ w. true) ∷ [])
unfolding pins
pinned_columns = refl

pinned_hold : all (reads_world true) ((λ w. w) ∷ (λ w. true) ∷ []) ≡ true
unfolding all
pinned_hold = refl

leak_witness_sufficient_example : admits (λ s. kind_value (kind_of s) true) own_or_public ≡ true
leak_witness_sufficient_example =
    leak_witness_sufficient demo_laws false own_or_public (("b", "true") ∷ []) _ true session_answer
      pinned_columns (legal false own_or_public true) pinned_hold

total_answer : anon_leak_is_total demo_z3 key_only [] [] everything ≡ true
unfolding anon_leak_is_total anon_sessions states_of flat_map prove_anon_session session_verdict
    answered two_worlds all any anon_tv anon_tvs combine gather lift_with lift_to_tv anon_boolexpr
    fold_tvs kleene_or kleene_not leak_witness anon_witness_is_sufficient pins and_of
total_answer = refl

anon_leak_is_total_sound_example : admits (λ s. kind_value (kind_of s) false) everything ≡ true
unfolding states_of
anon_leak_is_total_sound_example =
    anon_leak_is_total_sound demo_laws key_only [] [] everything [] true false total_answer
      (here refl) (legal true everything false)

-- The column `b` compares a tenant with the session's: the row is the session's own in one world.
abbrev demo_tenancy : Tenancy Formula Bool
demo_tenancy = record {
  leaf_pairs = λ session s. if s == "b" then ("tenant_id", "auth.uid()") ∷ [] else [];
  leaf_null_tests = λ session s. if s == "role_test" then "auth.role()" ∷ [] else [];
  differs = λ column tenant w. not w;
  differs_from_model = λ fs column w. true;
  axis_name = λ column. column;
  is_placeholder = λ s. false;
}

tenant_answer :
    prove_cross_tenant_isolation demo_z3 demo_tenancy ("tenant_id" ∷ []) false (leaf "b")
    ≡ (isolated, none)
unfolding prove_cross_tenant_isolation encoded_verdict axis_verdict session_null_tests_offaxis
    session_null_tests tenant_axis tenant_pairs single_pair dedup contains any all answered
    two_worlds anon_tv lift_with lift_to_tv
tenant_answer = refl

-- The session has a tenant and no role, so that `auth.role() IS NULL` holds in it.
roleless : SessionLaws demo_laws demo_tenancy
unfolding all
roleless = record {
  has_identity = λ w name. name == "auth.uid()";
  actual = λ session w s. if s == "role_test" then holds else kind_value (kind_of s) w;
  strict_law = λ session s w h. elim (Bool-cases (s == "role_test")) [
    | inl k ↦ absurd (ground arith)
    | inr k ↦ inr (rw k refl)
  ];
}

prove_cross_tenant_isolation_sound_example :
    (column : String) × (tenant : String) × (tenant_axis demo_z3 demo_tenancy
        ("tenant_id" ∷ [])
        false
        (leaf "b")
      ≡ some (column, tenant))
    × (contains column ("tenant_id" ∷ []) ≡ true)
    × ((tenant == "auth.uid()"
          && (true
              && admits
                  (λ s. if s == "role_test" then holds else kind_value (kind_of s) false)
                  (leaf "b")))
        ≡ false)
unfolding roleless
prove_cross_tenant_isolation_sound_example =
    prove_cross_tenant_isolation_sound demo_laws demo_tenancy ("tenant_id" ∷ []) roleless false
      (leaf "b") none false tenant_answer (legal false (leaf "b") false)
