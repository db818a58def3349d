-- ===== src/Diff/Policies.antt =====
-- src/pgrls/diff/policies.py, `_diff_policies`: the policies that one side alone has. The names
-- that the matching of renames consumed (Renames) are arguments.
use pgrls.Prelude.{
  if◌then◌else◌, nat_eq, string_eq, bool_eq, pair_eq, option_eq, flat_map, contains, dedup, sort_by,
  find_last, concat, str_le, String, not, Option, none, some, List, [], ◌∷◌, ◌++◌, map,
}
use pgrls.Model.{Policy, Table, qualified_name}
use pgrls.Diff.{
  Change, change, safe, breaking, dangerous, policy_added_restrictive, policy_added_permissive,
  policy_dropped_restrictive, policy_dropped_permissive,
}

-- `{p.name: p for p in policies}.get(name)`
abbrev pub by_name : String → List Policy → Option Policy
by_name name ps = find_last (λ (p : Policy). p.name) name ps

abbrev pub names : List Policy → List String
names ps = map (λ (p : Policy). p.name) ps

unfoldable pub added : Table → Policy → List Change
added head p =
    let location = concat (qualified_name head ∷ "." ∷ p.name ∷ []) in
    if not p.permissive
    then change policy_added_restrictive safe location
        (concat ("Policy " ∷ location ∷ " (RESTRICTIVE) added." ∷ []))
      ∷ []
    else change policy_added_permissive dangerous location (
        concat (
          "Policy " ∷ location
          ∷ " (PERMISSIVE) added — broadens the row set; previously-blocked rows may become visible."
          ∷ []))
      ∷ []

unfoldable pub dropped : Table → Policy → List Change
dropped base p =
    let location = concat (qualified_name base ∷ "." ∷ p.name ∷ []) in
    if not p.permissive
    then change policy_dropped_restrictive dangerous location
        (concat ("Policy " ∷ location ∷ " (RESTRICTIVE) dropped — removes a constraint." ∷ []))
      ∷ []
    else change policy_dropped_permissive breaking location (
        concat (
          "Policy " ∷ location ∷ " (PERMISSIVE) dropped — previously-visible rows may no longer be."
          ∷ []))
      ∷ []

module _ (base head : Table) (consumed_base consumed_head : List String) where
  -- One name of the loop, with the policy that each side has for it.
  unfoldable pub one_sided : String → Option Policy → Option Policy → List Change
  one_sided name none none = []
  one_sided name none (some p) = if contains name consumed_head then [] else added head p
  one_sided name (some p) none = if contains name consumed_base then [] else dropped base p
  one_sided name (some p) (some q) = []

  unfoldable pub one_sided_changes : List Change
  unfolding one_sided
  one_sided_changes =
      flat_map (λ name. one_sided name (by_name name base.policies) (by_name name head.policies))
        (sort_by str_le (dedup (names base.policies ++ names head.policies)))
