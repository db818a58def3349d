-- ===== src/Prover/Isolation.antt =====
-- `prove_anon_isolation` and `anon_leak_is_total` of src/pgrls/diff/_z3_compare.py beside the rows
-- that the sessions read.
use pgrls.Prelude.{
  Bool, flat_map-In, In-flat_map, ◌∙◌, here, there, Option-cases, and_right, nat_eq, string_eq,
  bool_eq, pair_eq, option_eq, any, all, In, all-In, In-map, map-In, here, there, ◌≡◌, refl, sym,
  ap, ◌∙◌, inl, inr, true, false, Option, none, some, List, [], ◌∷◌, map, arith,
}
use pgrls.Sql.{Node}
use pgrls.Sql.Truth.{admits}
use pgrls.Prover.{
  Z3, Verdict, isolated, leak, unverified, Row, pins, prove_anon_session, is_unverified, first_leak,
  any_session, prove_anon_isolation, anon_sessions, states_of, is_total, anon_leak_is_total,
}
use pgrls.Prover.Kleene.{Laws}
use pgrls.Prover.Sessions.{IsLegal, isolated_session, leaking_session, leak_witness_sufficient}

total_cases : (v : Verdict × Option Row) → is_total v ≡ true → v ≡ (leak, some [])
total_cases (leak, some []) h = refl
total_cases (leak, some (e ∷ row)) h = absurd (ground arith)
total_cases (leak, none) h = absurd (ground arith)
total_cases (isolated, row) h = absurd (ground arith)
total_cases (unverified, row) h = absurd (ground arith)

first_leak-In :
    (vs : List (Verdict × Option Row)) (row : Option Row)
    → first_leak vs ≡ some row
    → In (leak, row) vs
unfolding first_leak
first_leak-In [] row e = absurd (ground arith)
first_leak-In ((leak, w) ∷ vs) row e = here (ground arith)
first_leak-In ((isolated, w) ∷ vs) row e = there (first_leak-In vs row e)
first_leak-In ((unverified, w) ∷ vs) row e = there (first_leak-In vs row e)

no_first_leak :
    (vs : List (Verdict × Option Row)) (v : Verdict × Option Row)
    → first_leak vs ≡ none
    → any (λ (v : Verdict × Option Row). is_unverified v.0) vs ≡ false
    → In v vs
    → v.0 ≡ isolated
unfolding first_leak any
no_first_leak [] v e u m = elim m [ ]
no_first_leak ((leak, w) ∷ vs) v e u m = absurd (ground arith)
no_first_leak ((unverified, w) ∷ vs) v e u m = absurd (ground arith)
no_first_leak ((isolated, w) ∷ vs) v e u (here i) = ap (λ (p : Verdict × Option Row). p.0) i
no_first_leak ((isolated, w) ∷ vs) v e u (there m) = no_first_leak vs v e u m

any_session_leak :
    (vs : List (Verdict × Option Row)) (row : Option Row)
    → any_session vs ≡ (leak, row)
    → In (leak, row) vs
unfolding any_session
any_session_leak vs row e = elim (Option-cases (first_leak vs)) [
  | inr (w, f) ↦ let same : w ≡ row = ground arith in first_leak-In vs row (f ∙ ap some same)
  | inl f ↦ absurd (ground arith)
]

any_session_isolated :
    (vs : List (Verdict × Option Row)) (row : Option Row) (v : Verdict × Option Row)
    → any_session vs ≡ (isolated, row)
    → In v vs
    → v.0 ≡ isolated
unfolding any_session
any_session_isolated vs row v e m = elim (Option-cases (first_leak vs)) [
  | inr (w, f) ↦ absurd (ground arith)
  | inl f ↦ no_first_leak vs v f (ground arith) m
]

session_listed :
    {G S F : Type 0} (z3 : Z3 F S) (context : G → Bool → S) (unset : G) (states : List G)
    {state : G} (jwt : Bool)
    → In state states
    → In (context state jwt) (anon_sessions z3 context unset states)
unfolding anon_sessions
session_listed z3 context unset states true m =
    flat_map-In (λ g. context g false ∷ context g true ∷ []) states m (there (here refl))
session_listed z3 context unset states false m =
    flat_map-In (λ g. context g false ∷ context g true ∷ []) states m (here refl)

listed_session :
    {G S F : Type 0} (z3 : Z3 F S) (context : G → Bool → S) (unset : G) (states : List G)
    (session : S)
    → In session (anon_sessions z3 context unset states)
    → (state : G) × (jwt : Bool) × In state states × (context state jwt ≡ session)
unfolding anon_sessions
listed_session z3 context unset states session m =
    let (state, n, k) = In-flat_map (λ g. context g false ∷ context g true ∷ []) states m in
    one_of state n k
  where
    one_of :
        (state : _)
        → In state states
        → In session (context state false ∷ context state true ∷ [])
        → (state : _) × (jwt : Bool) × In state states × (context state jwt ≡ session)
    one_of state n (here i) = (state, false, n, sym i)
    one_of state n (there (here i)) = (state, true, n, sym i)
    one_of state n (there (there i)) = elim i [ ]

module _ {F S G : Type 0} {z3 : Z3 F S} (laws : Laws z3) (context : G → Bool → S) (unset : G)
    (set_gucs : List G) (n : Node) where
  open laws use {World, value}

  -- A predicate that is proved isolated admits no row in any state of the settings, with an
  -- anonymous JWT or without, for a world that meets what its encoding asserts. The solver keeps
  -- its laws.
  pub prove_anon_isolation_sound :
      (row : Option Row) (state : G) (jwt : Bool) (w : World)
      → prove_anon_isolation z3 context unset set_gucs n ≡ (isolated, row)
      → In state (states_of unset set_gucs)
      → IsLegal laws (context state jwt) n w
      → admits (value (context state jwt) w) n ≡ false
  unfolding prove_anon_isolation
  prove_anon_isolation_sound row state jwt w e m l =
      let prove = λ (s : S). prove_anon_session z3 s n in
      let sessions = anon_sessions z3 context unset (states_of unset set_gucs) in
      let session = context state jwt in
      let q =
        any_session_isolated (map prove sessions) row (prove session) (ground arith)
          (In-map prove (session_listed z3 context unset (states_of unset set_gucs) jwt m)) in
      isolated_session laws session n (prove session).1 w (λ i. (q i, (prove session).1)) l

  -- A leak is real: in one of the states of the settings, with an anonymous JWT or without, some
  -- world meets what the encoding of the predicate asserts, and the predicate admits its row. The
  -- solver keeps its laws.
  pub prove_anon_isolation_leak :
      (row : Option Row)
      → prove_anon_isolation z3 context unset set_gucs n ≡ (leak, row)
      → (state : G) × (jwt : Bool) × In state (states_of unset set_gucs)
        × (w : World) × IsLegal laws (context state jwt) n w
        × (admits (value (context state jwt) w) n ≡ true)
  unfolding prove_anon_isolation
  prove_anon_isolation_leak row e =
      let prove = λ (s : S). prove_anon_session z3 s n in
      let sessions = anon_sessions z3 context unset (states_of unset set_gucs) in
      let (s, m, i) =
        map-In prove sessions (any_session_leak (map prove sessions) row (ground arith)) in
      let (state, jwt, k, same) = listed_session z3 context unset (states_of unset set_gucs) s m in
      let (w, l, a) = leaking_session laws (context state jwt) n row (ap prove same ∙ sym i) in
      (state, jwt, k, w, l, a)

  -- Where the leak is called total, the predicate admits every row in each of the sessions.
  pub anon_leak_is_total_sound :
      (state : G) (jwt : Bool) (w : World)
      → anon_leak_is_total z3 context unset set_gucs n ≡ true
      → In state (states_of unset set_gucs)
      → IsLegal laws (context state jwt) n w
      → admits (value (context state jwt) w) n ≡ true
  unfolding anon_leak_is_total pins all
  anon_leak_is_total_sound state jwt w e m l =
      let sessions = anon_sessions z3 context unset (states_of unset set_gucs) in
      let one =
        all-In (λ s. is_total (prove_anon_session z3 s n)) sessions (and_right _ _ e)
          (session_listed z3 context unset (states_of unset set_gucs) jwt m) in
      leak_witness_sufficient laws (context state jwt) n [] [] w (total_cases _ one) refl l refl
