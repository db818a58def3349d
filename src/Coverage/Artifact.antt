-- ===== src/Coverage/Artifact.antt =====
-- The artifact of src/pgrls/coverage.py (`CoverageData.from_dict`, `write_artifact`), as a JSON value.
use pgrls.Prelude.{
  if◌then◌else◌, Option-cases, Bool-ext, ◌==◌, nat_eq, string_eq, bool_eq, pair_eq, option_eq, any,
  In, any-In, In-any, In-map, map-In, dedup, In-dedup, dedup-In, sort_by, sort_by-In, In-sort_by,
  str_le, String, ◌≡◌, refl, sym, ap, subst, ◌∙◌, ◌⊎◌, inl, inr, Bool, true, false, ◌&&◌, not,
  Option, none, some, List, [], ◌∷◌, map, arith,
}
use pgrls.Model.{Table, Policy}
use pgrls.Baseline.{
  Json, Members, null, boolean, number, string, array, object, end, member, get, is_version,
  location_json,
}
use pgrls.Coverage.{ExercisedTuple, credits, is_policy_covered}

-- Each of them is a ValueError.
pub data CoverageError : Type 0 where
  not_an_object unsupported_version malformed : CoverageError

-- A value that a frozen set can hold.
abbrev pub is_hashable : Json → Bool
is_hashable null = true
is_hashable (boolean b) = true
is_hashable (number n) = true
is_hashable (string s) = true
is_hashable (array ms) = false
is_hashable (object ms) = false

abbrev or_null : Option Json → Json
or_null none = null
or_null (some j) = j

unfoldable pub tuple_of_fields :
    Json → Option Json → Option Json → Option Json → Option ExercisedTuple
tuple_of_fields schema (some relation) (some role) (some command) =
    if is_hashable schema && (is_hashable relation && (is_hashable role && is_hashable command))
    then some (record { schema = schema; relation = relation; role = role; command = command })
    else none
tuple_of_fields schema _ _ _ = none

-- A row; `none` where Python raises KeyError, TypeError or AttributeError.
unfoldable pub tuple_of : Json → Option ExercisedTuple
unfolding tuple_of_fields get
tuple_of (object ms) =
    tuple_of_fields (or_null (get "schema" ms)) (get "relation" ms) (get "role" ms)
      (get "command" ms)
tuple_of null = none
tuple_of (boolean b) = none
tuple_of (number n) = none
tuple_of (string s) = none
tuple_of (array ms) = none

unfoldable pub tuples_of : Members → Option (List ExercisedTuple)
unfolding tuple_of
tuples_of end = some []
tuples_of (member n j rest) =
    let more = tuples_of rest in
    elim (tuple_of j) [ none ↦ none | some x ↦ elim more [ none ↦ none | some xs ↦ some (x ∷ xs) ] ]

-- `payload.get("exercised") or []`, and the loop over it.
unfoldable pub exercised_of : Option Json → Option (List ExercisedTuple)
unfolding tuples_of
exercised_of none = some []
exercised_of (some null) = some []
exercised_of (some (boolean b)) = if b then none else some []
exercised_of (some (number n)) = if n == 0 then some [] else none
exercised_of (some (string s)) = if s == "" then some [] else none
exercised_of (some (array ms)) = tuples_of ms
exercised_of (some (object end)) = some []
exercised_of (some (object (member n j ms))) = none

unfoldable pub from_dict : Json → List ExercisedTuple ⊎ CoverageError
unfolding exercised_of is_version get
from_dict (object ms) =
    if not (is_version (get "pgrls_coverage_version" ms))
    then inr unsupported_version
    else elim (exercised_of (get "exercised" ms)) [ none ↦ inr malformed | some xs ↦ inl xs ]
from_dict null = inr not_an_object
from_dict (boolean b) = inr not_an_object
from_dict (number n) = inr not_an_object
from_dict (string s) = inr not_an_object
from_dict (array ms) = inr not_an_object

-- What a test run records.
abbrev pub Recorded : Type 0
Recorded = Option String × (String × (String × String))

abbrev or_text : Option String → String
or_text none = ""
or_text (some s) = s

-- Tuples of texts compare from the first on.
unfoldable pub recorded_le : Recorded → Recorded → Bool
recorded_le (s, (t, (r, c))) (s', (t', (r', c'))) =
    if or_text s == or_text s'
    then (if t == t' then (if r == r' then str_le c c' else str_le r r') else str_le t t')
    else str_le (or_text s) (or_text s')

unfoldable pub row_of : Recorded → Json
row_of (s, (t, (r, c))) = object (
    member "schema" (location_json s)
      (member "relation" (string t) (member "role" (string r) (member "command" (string c) end))))

unfoldable pub rows_json : List Recorded → Members
unfolding row_of
rows_json [] = end
rows_json (x ∷ xs) = member "" (row_of x) (rows_json xs)

-- The payload of `write_artifact`.
unfoldable pub artifact : String → List Recorded → Json
unfolding rows_json
artifact generated_at exercised = object (
    member "pgrls_coverage_version" (number 1) (
      member "generated_at" (string generated_at)
        (member "exercised" (array (rows_json (sort_by recorded_le (dedup exercised)))) end)))

-- The tuple that a record stands for.
unfoldable pub exercised_tuple : Recorded → ExercisedTuple
exercised_tuple (s, (t, (r, c))) = record {
  schema = location_json s;
  relation = string t;
  role = string r;
  command = string c;
}

tuple_of-row_of : (x : Recorded) → tuple_of (row_of x) ≡ some (exercised_tuple x)
unfolding tuple_of row_of exercised_tuple get
tuple_of-row_of (none, (t, (r, c))) = refl
tuple_of-row_of (some s, (t, (r, c))) = refl

tuples_of-rows_json :
    (xs : List Recorded) → tuples_of (rows_json xs) ≡ some (map exercised_tuple xs)
unfolding tuples_of rows_json
tuples_of-rows_json [] = refl
tuples_of-rows_json (x ∷ xs) = rw (tuple_of-row_of x, tuples_of-rows_json xs, tuples_of) refl

any_alike :
    (p : ExercisedTuple → Bool) (xs ys : List ExercisedTuple)
    → ((x : ExercisedTuple) → In x xs → In x ys)
    → ((x : ExercisedTuple) → In x ys → In x xs)
    → any p xs ≡ any p ys
any_alike p xs ys f g =
    Bool-ext _ _ (λ h. let (x, m, k) = any-In p xs h in In-any p ys (f x m) k)
      (λ h. let (x, m, k) = any-In p ys h in In-any p xs (g x m) k)

-- A set and the list that it was made of have the same elements.
any_set :
    (p : ExercisedTuple → Bool) (xs : List Recorded)
    → any p (map exercised_tuple (sort_by recorded_le (dedup xs))) ≡ any p (map exercised_tuple xs)
any_set p xs =
    let kept = sort_by recorded_le (dedup xs) in
    any_alike p (map exercised_tuple kept) (map exercised_tuple xs)
      (λ y m.
        let (x, i, e) = map-In exercised_tuple kept m in
        subst (λ z. In z (map exercised_tuple xs)) (sym e)
          (In-map exercised_tuple (In-dedup xs (In-sort_by recorded_le (dedup xs) i))))
      (λ y m.
        let (x, i, e) = map-In exercised_tuple xs m in
        subst (λ z. In z (map exercised_tuple kept)) (sym e)
          (In-map exercised_tuple (sort_by-In recorded_le (dedup xs) (dedup-In xs i))))

-- An artifact that is written for some tuples is read again, and the tuples read cover a policy
-- exactly where those written do.
pub from_dict-artifact :
    (generated_at : String) (exercised : List Recorded) (ambiguous : List String) (t : Table)
    (p : Policy)
    → (read : List ExercisedTuple) × (from_dict (artifact generated_at exercised) ≡ inl read)
      × (is_policy_covered ambiguous t p read
          ≡ is_policy_covered ambiguous t p (map exercised_tuple exercised))
unfolding from_dict artifact is_policy_covered exercised_of is_version get
from_dict-artifact generated_at exercised ambiguous t p = (
  map exercised_tuple (sort_by recorded_le (dedup exercised)),
  rw (tuples_of-rows_json (sort_by recorded_le (dedup exercised))) refl,
  any_set (credits ambiguous t p) exercised,
)

-- A row of the list.
abbrev pub HasRow : Json → Members → Type 0
HasRow j end = ⊥
HasRow j (member n k rest) = (j ≡ k) ⊎ HasRow j rest

bad_row : (ms : Members) (j : Json) → HasRow j ms → tuple_of j ≡ none → tuples_of ms ≡ none
unfolding tuples_of
bad_row end j m e = elim m [ ]
bad_row (member n k rest) j (inl i) e = rw (ap tuple_of (sym i) ∙ e, tuples_of)
bad_row (member n k rest) j (inr m) e = elim (Option-cases (tuple_of k)) [
  | inl f ↦ rw (f, tuples_of)
  | inr (x, f) ↦ rw (f, bad_row rest j m e, tuples_of)
]

-- The field is absent, or its value is one that a set cannot hold.
abbrev pub Unfit : Option Json → Type 0
Unfit none = Unit
Unfit (some j) = is_hashable j ≡ false

-- The row is no object, or one of its fields is missing or unfit.
abbrev pub IsMalformed : Json → Type 0
IsMalformed (object ms) =
    Unfit (get "relation" ms) ⊎ Unfit (get "role" ms) ⊎ Unfit (get "command" ms)
IsMalformed null = Unit
IsMalformed (boolean b) = Unit
IsMalformed (number n) = Unit
IsMalformed (string s) = Unit
IsMalformed (array ms) = Unit

Unfit-fields :
    (schema : Json) (relation role command : Option Json)
    → Unfit relation ⊎ Unfit role ⊎ Unfit command
    → tuple_of_fields schema relation role command ≡ none
unfolding tuple_of_fields
Unfit-fields schema none role command u = refl
Unfit-fields schema (some r) none command u = refl
Unfit-fields schema (some r) (some o) none u = refl
Unfit-fields schema (some r) (some o) (some c) (inl u) = ground (arith, u)
Unfit-fields schema (some r) (some o) (some c) (inr (inl u)) = ground (arith, u)
Unfit-fields schema (some r) (some o) (some c) (inr (inr u)) = ground (arith, u)

unread : (j : Json) → IsMalformed j → tuple_of j ≡ none
unfolding tuple_of
unread (object ms) u =
    Unfit-fields (or_null (get "schema" ms)) (get "relation" ms) (get "role" ms) (get "command" ms)
      u
unread null u = refl
unread (boolean b) u = refl
unread (number n) u = refl
unread (string s) u = refl
unread (array ms) u = refl

-- An artifact of the right version with a row that is no object, that lacks a relation, a role or
-- a command, or that has one that a set cannot hold, is refused as malformed, wherever the row
-- stands.
pub from_dict_malformed :
    (ms rows : Members) (j : Json)
    → is_version (get "pgrls_coverage_version" ms) ≡ true
    → get "exercised" ms ≡ some (array rows)
    → HasRow j rows
    → IsMalformed j
    → from_dict (object ms) ≡ inr malformed
unfolding from_dict exercised_of
from_dict_malformed ms rows j v g m u =
    let none_read : exercised_of (get "exercised" ms) ≡ none =
      ap exercised_of g ∙ bad_row rows j m (unread j u) in
    ground arith
