-- ===== src/Baseline.antt =====
-- src/pgrls/baseline.py, with the finding of src/pgrls/violations.py: the accepted findings of a
-- file. The JSON library is two functions, a printer and a parser.
pub mod RoundTrip
use pgrls.Prelude.{
  ltb, leb, nat_eqb, nat_eqb_iff, if◌then◌else◌, Bool-cases, Option-cases, Bool-ext, and_left,
  and_right, Eq, ◌==◌, ==→eq, ==_refl, nat_eq, string_eq, bool_eqb, bool_eqb_iff, bool_eq, pair_eqb,
  pair_eqb_iff, pair_eq, option_eqb, option_eqb_iff, option_eq, length, length-append, is_empty,
  any, all, filter, is_empty-append, any-append, all-append, is_empty-filter, In, In-cons,
  In-cons_mono, In-swap, In-append, In-append_left, In-append_right, any-In, In-any, all-In, In-all,
  In-filter, filter-In, length-map, is_empty-map, any-map_never, In-map, map-In, flat_map,
  all-flat_map, flat_map-In, In-flat_map, here, there, contains, dedup, difference, subset,
  same_set, strict_subset, intersects, contains-In, In-contains, contains_head, contains_cons,
  contains-append, In-subset, subset-In, intersects-In, In-intersects, In-dedup, dedup-In,
  is_empty-dedup, insert_by, sort_by, is_empty-sort_by, sort_by-In, In-sort_by, find_last,
  find_last-In, In-find_last, Distinct, find_last-Distinct, concat, join, str_le, unseen,
  unseen-le-length, unseen_mono, unseen_strict, ℕ, zero, suc, ◌+◌, ◌-◌, ◌*◌, ◌/◌, ◌%◌, ◌≤◌, ◌<◌,
  String, ◌≡◌, refl, sym, ap, subst, ◌∙◌, ◌≢◌, ◌↔◌, ◌⊎◌, inl, inr, Bool, true, false, ◌&&◌, ◌||◌,
  not, Option, none, some, List, [], ◌∷◌, ◌++◌, map, arith, eq_iff,
}

pub record Violation : Type 0 where
  pub rule_id : String
  pub severity : String
  pub title : String
  pub message : String
  pub location : Option String

-- JSON values. A list and an object hold a chain of members; those of a list have no name.
mutual
  pub data Json : Type 0 where
    null : Json
    boolean : Bool → Json
    number : ℕ → Json
    string : String → Json
    array : Members → Json
    object : Members → Json

  pub data Members : Type 0 where
    end : Members
    member : String → Json → Members → Members

pub data BaselineError : Type 0 where
  invalid_json not_an_object other_version findings_not_a_list bad_finding : BaselineError
  -- Python's KeyError, which the loader does not catch
  key_error : BaselineError

abbrev pub Key : Type 0
Key = String × Option String

unfoldable pub finding_key : Violation → Key
finding_key v = (v.rule_id, v.location)

-- `d.get(name)`
unfoldable pub get : String → Members → Option Json
get name end = none
get name (member n j rest) =
    let later = get name rest in
    elim later [ some k ↦ some k | none ↦ if n == name then some j else none ]

abbrev pub or_empty : Option String → String
or_empty none = ""
or_empty (some s) = s

-- The sort key: (rule_id or "", location or "").
unfoldable pub key_le : Key → Key → Bool
key_le (r, l) (s, m) = if r == s then str_le (or_empty l) (or_empty m) else str_le r s

abbrev pub location_json : Option String → Json
location_json none = null
location_json (some s) = string s

unfoldable pub entry_of : Key → Json
entry_of (rule, location) =
    object (member "rule_id" (string rule) (member "location" (location_json location) end))

unfoldable pub entries : List Key → Members
unfolding entry_of
entries [] = end
entries (k ∷ ks) = member "" (entry_of k) (entries ks)

unfoldable pub payload : String → List Violation → Json
unfolding entries
payload tool_version vs = object (
    member "version" (number 1) (
      member "generated_by" (string (concat ("pgrls " ∷ tool_version ∷ [])))
        (member "findings" (array (entries (sort_by key_le (map finding_key vs)))) end)))

-- `payload.get("version") != BASELINE_VERSION`; `true` is 1 in Python.
unfoldable pub is_version : Option Json → Bool
is_version (some (number n)) = n == 1
is_version (some (boolean b)) = b
is_version (some null) = false
is_version (some (string s)) = false
is_version (some (array ms)) = false
is_version (some (object ms)) = false
is_version none = false

-- The guards of an entry, then `(entry["rule_id"], entry["location"])`.
unfoldable pub key_of_fields : Option Json → Option Json → Key ⊎ BaselineError
key_of_fields (some (string rule)) (some (string l)) = inl (rule, some l)
key_of_fields (some (string rule)) (some null) = inl (rule, none)
key_of_fields (some (string rule)) none = inr key_error
key_of_fields _ _ = inr bad_finding

unfoldable pub key_of : Json → Key ⊎ BaselineError
unfolding key_of_fields get
key_of (object ms) = key_of_fields (get "rule_id" ms) (get "location" ms)
key_of null = inr bad_finding
key_of (boolean b) = inr bad_finding
key_of (number n) = inr bad_finding
key_of (string s) = inr bad_finding
key_of (array ms) = inr bad_finding

-- A bad entry stops the loop.
unfoldable pub add_key : Key ⊎ BaselineError → List Key ⊎ BaselineError → List Key ⊎ BaselineError
add_key (inr e) rest = inr e
add_key (inl k) (inr e) = inr e
add_key (inl k) (inl ks) = inl (k ∷ ks)

unfoldable pub keys_of : Members → List Key ⊎ BaselineError
unfolding add_key key_of
keys_of end = inl []
keys_of (member n j rest) = add_key (key_of j) (keys_of rest)

unfoldable pub keys_of_findings : Option Json → List Key ⊎ BaselineError
keys_of_findings (some (array ms)) = keys_of ms
keys_of_findings _ = inr findings_not_a_list

unfoldable pub load_payload : Option Json → List Key ⊎ BaselineError
unfolding is_version keys_of_findings get
load_payload (some (object ms)) =
    if not (is_version (get "version" ms))
    then inr other_version
    else keys_of_findings (get "findings" ms)
load_payload none = inr invalid_json
load_payload (some _) = inr not_an_object

-- The text that is written, and its reading.
unfoldable pub write_baseline : (Json → String) → String → List Violation → String
write_baseline dumps tool_version vs = concat (dumps (payload tool_version vs) ∷ "\n" ∷ [])

unfoldable pub load_baseline : (String → Option Json) → String → List Key ⊎ BaselineError
load_baseline loads raw = load_payload (loads raw)

-- The loop of `partition`, with the two lists so far.
unfoldable pub partition_from :
    List Key → List Violation → List Violation → List Violation → List Violation × List Violation
partition_from baseline new baselined [] = (new, baselined)
partition_from baseline new baselined (v ∷ vs) = elim (contains (finding_key v) baseline) [
  | true ↦ partition_from baseline new (baselined ++ v ∷ []) vs
  | false ↦ partition_from baseline (new ++ v ∷ []) baselined vs
]

unfoldable pub partition : List Violation → List Key → List Violation × List Violation
unfolding partition_from
partition vs baseline = partition_from baseline [] [] vs

unfoldable pub stale_keys : List Violation → List Key → List Key
stale_keys vs baseline = difference baseline (map finding_key vs)
