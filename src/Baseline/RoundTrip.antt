-- ===== src/Baseline/RoundTrip.antt =====
-- A baseline that was written for some findings, read again.
use pgrls.Prelude.{
  Bool-cases, nat_eq, string_eq, bool_eq, pair_eq, option_eq, filter, In, In-map, here, there,
  contains, difference, In-contains, sort_by, sort_by-In, In-sort_by, String, ◌≡◌, refl, ap, ◌∙◌,
  inl, inr, Bool, true, false, not, Option, none, some, List, [], ◌∷◌, ◌++◌, map,
}
use pgrls.Baseline.{
  Violation, Json, Key, finding_key, get, key_le, entry_of, entries, payload, is_version,
  key_of_fields, key_of, add_key, keys_of, keys_of_findings, load_payload, write_baseline,
  load_baseline, partition_from, partition, stale_keys,
}

key_of-entry_of : (k : Key) → key_of (entry_of k) ≡ inl k
unfolding key_of entry_of key_of_fields get
key_of-entry_of (rule, none) = refl
key_of-entry_of (rule, some l) = refl

keys_of-entries : (ks : List Key) → keys_of (entries ks) ≡ inl ks
unfolding keys_of entries add_key
keys_of-entries [] = refl
keys_of-entries (k ∷ ks) = rw (key_of-entry_of k, keys_of-entries ks) refl

load-payload :
    (tool : String) (vs : List Violation)
    → load_payload (some (payload tool vs)) ≡ inl (sort_by key_le (map finding_key vs))
unfolding load_payload payload get is_version keys_of_findings
load-payload tool vs = keys_of-entries (sort_by key_le (map finding_key vs))

append_end {ℓ} : {A : Type ℓ} (xs : List A) → xs ≡ xs ++ []
append_end [] = refl
append_end (x ∷ xs) = ap (λ ys. x ∷ ys) (append_end xs)

append_one {ℓ} :
    {A : Type ℓ} (xs : List A) (x : A) (ys : List A) → (xs ++ x ∷ []) ++ ys ≡ xs ++ x ∷ ys
append_one [] x ys = refl
append_one (y ∷ xs) x ys = ap (λ zs. y ∷ zs) (append_one xs x ys)

filter_all {ℓ} :
    {A : Type ℓ} (p : A → Bool) (xs : List A) → ((x : A) → In x xs → p x ≡ true) → filter p xs ≡ xs
unfolding filter
filter_all p [] h = refl
filter_all p (x ∷ xs) h =
    rw (h x (here refl)) (ap (λ ys. x ∷ ys) (filter_all p xs (λ y m. h y (there m))))

filter_none {ℓ} :
    {A : Type ℓ} (p : A → Bool) (xs : List A) → ((x : A) → In x xs → p x ≡ false) → filter p xs ≡ []
unfolding filter
filter_none p [] h = refl
filter_none p (x ∷ xs) h = rw (h x (here refl)) (filter_none p xs (λ y m. h y (there m)))

abbrev accepted : List Key → Violation → Bool
accepted baseline v = contains (finding_key v) baseline

partition_from_lem :
    (baseline : List Key) (new old vs : List Violation)
    → partition_from baseline new old vs
      ≡ (new ++ filter (λ v. not (accepted baseline v)) vs, old ++ filter (accepted baseline) vs)
unfolding partition_from filter
partition_from_lem baseline new old [] = λ i. (append_end new i, append_end old i)
partition_from_lem baseline new old (v ∷ vs) = elim (Bool-cases (accepted baseline v)) [
  | inl k ↦
      rw (k, partition_from)
        (partition_from_lem baseline new (old ++ v ∷ []) vs
          ∙ ap (λ ys. (new ++ filter (λ v. not (accepted baseline v)) vs, ys))
              (append_one old v (filter (accepted baseline) vs)))
  | inr k ↦
      rw (k, partition_from)
        (partition_from_lem baseline (new ++ v ∷ []) old vs
          ∙ ap (λ ys. (ys, old ++ filter (accepted baseline) vs))
              (append_one new v (filter (λ v. not (accepted baseline v)) vs)))
]

-- The new findings are those whose key the baseline does not have, and the baselined ones those
-- whose key it has, each in the order of the findings.
pub partition-filter :
    (vs : List Violation) (baseline : List Key)
    → partition vs baseline ≡ (
      filter (λ v. not (contains (finding_key v) baseline)) vs,
      filter (λ v. contains (finding_key v) baseline) vs,
    )
unfolding partition
partition-filter vs baseline = partition_from_lem baseline [] [] vs

abbrev written : List Violation → List Key
written vs = sort_by key_le (map finding_key vs)

all_accepted : (vs : List Violation) (v : Violation) → In v vs → accepted (written vs) v ≡ true
all_accepted vs v m = In-contains _ (sort_by-In key_le _ (In-map finding_key m))

none_stale : (vs : List Violation) → stale_keys vs (written vs) ≡ []
unfolding stale_keys difference
none_stale vs =
    filter_none (λ k. not (contains k (map finding_key vs))) (written vs)
      (λ k m. ap not (In-contains _ (In-sort_by key_le _ m)))

nothing_is_new : (vs : List Violation) → partition vs (written vs) ≡ ([], vs)
nothing_is_new vs = partition-filter vs (written vs) ∙ (λ i. (
  filter_none (λ v. not (accepted (written vs) v)) vs (λ v m. ap not (all_accepted vs v m)) i,
  filter_all (accepted (written vs)) vs (all_accepted vs) i,
))

-- A baseline that is written for some findings is read again, makes none of them new, keeps them
-- all in order, and has no stale key, where the JSON parser gives back the payload that the
-- printer printed.
pub load_baseline-write_baseline :
    (dumps : Json → String) (loads : String → Option Json) (tool_version : String)
    (vs : List Violation)
    → loads (write_baseline dumps tool_version vs) ≡ some (payload tool_version vs)
    → (keys : List Key) × (load_baseline loads (write_baseline dumps tool_version vs) ≡ inl keys)
      × (partition vs keys ≡ ([], vs))
      × (stale_keys vs keys ≡ [])
unfolding load_baseline
load_baseline-write_baseline dumps loads tool vs h =
    (written vs, ap load_payload h ∙ load-payload tool vs, nothing_is_new vs, none_stale vs)
