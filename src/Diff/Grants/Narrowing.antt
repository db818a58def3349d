-- ===== src/Diff/Grants/Narrowing.antt =====
-- What the changes of the grants say of the privileges.
use pgrls.Prelude.{
  if◌then◌else◌, Bool-cases, and_left, and_right, ◌==◌, ==→eq, ==_refl, nat_eq, string_eq, bool_eq,
  pair_eq, option_eq, is_empty, all, all-append, is_empty-filter, In, In-append_right, any-In,
  In-any, In-map, all-flat_map, flat_map-In, In-flat_map, contains, difference, contains-In,
  In-contains, dedup-In, sort_by-In, str_le, String, ◌≡◌, refl, ap, inl, inr, Bool, true, false,
  ◌&&◌, ◌||◌, not, List, [], ◌∷◌, ◌++◌, arith,
}
use pgrls.Model.{Grant, ColumnGrant, Table}
use pgrls.Sql.{Sql}
use pgrls.Rls.{granted, column_granted, granted_on_column}
use pgrls.Diff.{Change, change, is_safe, all_safe}
use pgrls.Diff.Grants.{
  privileges_of, column_privileges_of, role_changes, column_changes, key_le, grant_roles,
  grant_keys, key_of, diff_column_grants, diff_table_grants, diff_grants,
}

holding :
    (privilege role : String) (gs : List Grant)
    → In privilege (privileges_of role gs)
    → (g : Grant) × In g gs × (g.role ≡ role) × In privilege g.privileges
unfolding privileges_of
holding privilege role gs m =
    let (g, n, k) = In-flat_map (λ (g : Grant). if g.role == role then g.privileges else []) gs m in
    elim (Bool-cases (g.role == role)) [
      | inl e ↦ (g, n, ==→eq g.role role e, rw e at k)
      | inr e ↦ elim (rw e at k) [ ]
    ]

held :
    {privilege : String} {g : Grant} (gs : List Grant)
    → In g gs
    → In privilege g.privileges
    → In privilege (privileges_of g.role gs)
unfolding privileges_of
held {privilege} {g} gs n m =
    flat_map-In (λ (h : Grant). if h.role == g.role then h.privileges else []) gs n
      (rw (==_refl g.role) m)

column_holding :
    (privilege : String) (key : String × String) (gs : List ColumnGrant)
    → In privilege (column_privileges_of key gs)
    → (g : ColumnGrant) × In g gs × (key_of g ≡ key) × In privilege g.privileges
unfolding column_privileges_of
column_holding privilege key gs m =
    let (g, n, k) =
      In-flat_map (λ (g : ColumnGrant). if key_of g == key then g.privileges else []) gs m in
    elim (Bool-cases (key_of g == key)) [
      | inl e ↦ (g, n, ==→eq (key_of g) key e, rw e at k)
      | inr e ↦ elim (rw e at k) [ ]
    ]

column_held :
    {privilege : String} {g : ColumnGrant} (gs : List ColumnGrant)
    → In g gs
    → In privilege g.privileges
    → In privilege (column_privileges_of (key_of g) gs)
unfolding column_privileges_of
column_held {privilege} {g} gs n m =
    flat_map-In (λ (h : ColumnGrant). if key_of h == key_of g then h.privileges else []) gs n
      (rw (==_refl (key_of g)) m)

both_safe :
    (cs ds : List Change) → all_safe (cs ++ ds) ≡ true → (all_safe cs ≡ true) × (all_safe ds ≡ true)
unfolding all_safe
both_safe cs ds h =
    let both = all-append (λ (c : Change). is_safe c.classification) cs ds in
    (ground (arith, both), ground (arith, both))

last_safe : (cs ds : List Change) → all_safe (cs ++ ds) ≡ true → all_safe ds ≡ true
unfolding all_safe
last_safe cs ds h =
    let both = all-append (λ (c : Change). is_safe c.classification) cs ds in ground (arith, both)

-- The change that names the privileges gained is safe only where there is none.
gained_safe :
    (none_gained public : Bool) (a b : Change)
    → is_safe a.classification ≡ false
    → is_safe b.classification ≡ false
    → all_safe (if none_gained then [] else if public then a ∷ [] else b ∷ []) ≡ true
    → none_gained ≡ true
unfolding all_safe all
gained_safe true public a b f g h = refl
gained_safe false true a b f g h = absurd (ground arith)
gained_safe false false a b f g h = absurd (ground arith)

role_safe :
    (head : Table) (role : String) (base_privs head_privs : List String)
    → all_safe (role_changes head role base_privs head_privs) ≡ true
    → is_empty (difference head_privs base_privs) ≡ true
unfolding role_changes change
role_safe head role base_privs head_privs h =
    gained_safe _ (role == "PUBLIC" && not head.rls_enabled) _ _ refl refl (last_safe _ _ h)

column_safe :
    (sql : Sql) (head : Table) (key : String × String) (base_privs head_privs : List String)
    → all_safe (column_changes sql head key base_privs head_privs) ≡ true
    → is_empty (difference head_privs base_privs) ≡ true
unfolding column_changes change
column_safe sql head (role, column) base_privs head_privs h =
    gained_safe _ (role == "PUBLIC" && not head.rls_enabled) _ _ refl refl (last_safe _ _ h)

-- Nothing is new where the difference is empty.
nothing_new :
    {x : String} (xs ys : List String) → is_empty (difference xs ys) ≡ true → In x xs → In x ys
unfolding difference
nothing_new {x} xs ys h m = elim (Bool-cases (contains x ys)) [
  | inl k ↦ contains-In x ys k
  | inr k ↦
      let some_new = In-any (λ x. not (contains x ys)) xs m (ap not k) in
      absurd (ground (arith, is_empty-filter (λ x. not (contains x ys)) xs, some_new))
]

-- A privilege that a grant of the head gives its role is one that a grant of the base gave it.
old_grant :
    {privilege : String} {g : Grant} (base head : Table)
    → all_safe (diff_table_grants base head) ≡ true
    → In g head.grants
    → In privilege g.privileges
    → (b : Grant) × In b base.grants × (b.role ≡ g.role) × In privilege b.privileges
unfolding diff_table_grants all_safe
old_grant {privilege} {g} base head h n m =
    let key = λ (g : Grant). g.role in
    let in_loop =
      sort_by-In str_le _
        (dedup-In _ (In-append_right (grant_roles base.grants) _ (In-map key n))) in
    let quiet =
      all-flat_map
        (λ role.
          role_changes head role (privileges_of role base.grants) (privileges_of role head.grants))
        (λ (c : Change). is_safe c.classification) _ h in_loop in
    holding privilege g.role base.grants
      (nothing_new _ _ (role_safe head g.role _ _ quiet) (held head.grants n m))

old_column_grant :
    {privilege : String} {g : ColumnGrant} (sql : Sql) (base head : Table)
    → all_safe (diff_column_grants sql base head) ≡ true
    → In g head.column_grants
    → In privilege g.privileges
    → (b : ColumnGrant) × In b base.column_grants
      × (b.role ≡ g.role)
      × (b.column ≡ g.column)
      × In privilege b.privileges
unfolding diff_column_grants all_safe
old_column_grant {privilege} {g} sql base head h n m =
    let key = key_of in
    let in_loop =
      sort_by-In key_le _
        (dedup-In _ (In-append_right (grant_keys base.column_grants) _ (In-map key n))) in
    let quiet =
      all-flat_map
        (λ key.
          column_changes sql head key (column_privileges_of key base.column_grants)
            (column_privileges_of key head.column_grants))
        (λ (c : Change). is_safe c.classification) _ h in_loop in
    let (b, i, e, k) = column_holding privilege (key_of g) base.column_grants (
      nothing_new _ _ (column_safe sql head (key_of g) _ _ quiet)
        (column_held head.column_grants n m)) in
    (b, i, ap (λ p. p.0) e, ap (λ p. p.1) e, k)

abbrev to_session : List String → String → Bool
to_session roles role = role == "PUBLIC" || contains role roles

abbrev grants_it : String → List String → Grant → Bool
grants_it privilege roles g = contains privilege g.privileges && to_session roles g.role

abbrev grants_column : String → List String → ColumnGrant → Bool
grants_column privilege roles g = contains privilege g.privileges && to_session roles g.role

-- Where every change of the grants is safe, a session holds by the head's grants no privilege on
-- the table that it did not hold by the base's.
pub safe_grants_narrow :
    (sql : Sql) (base head : Table)
    → all_safe (diff_grants sql base head) ≡ true
    → (privilege : String) (roles : List String) → granted privilege roles head.grants ≡ true
    → granted privilege roles base.grants ≡ true
unfolding diff_grants granted
safe_grants_narrow sql base head h privilege roles t =
    let (first, second) =
      both_safe (diff_table_grants base head) (diff_column_grants sql base head) h in
    let (g, n, k) = any-In (grants_it privilege roles) head.grants t in
    let (b, m, e, i) =
      old_grant base head first n
        (contains-In privilege g.privileges (and_left _ (to_session roles g.role) k)) in
    In-any (grants_it privilege roles) base.grants m (
      ground (
        arith,
        In-contains b.privileges i,
        and_right (contains privilege g.privileges) (to_session roles g.role) k,
        ap (λ r. r == "PUBLIC" || contains r roles) e,
      ))

-- Where every change of the grants is safe, a session holds by the head's column grants no
-- privilege on a column that it did not hold on the same column by the base's.
pub safe_column_grants_narrow :
    (sql : Sql) (base head : Table)
    → all_safe (diff_grants sql base head) ≡ true
    → (privilege column : String) (roles : List String)
    → granted_on_column privilege column roles head.column_grants ≡ true
    → granted_on_column privilege column roles base.column_grants ≡ true
unfolding diff_grants granted_on_column
safe_column_grants_narrow sql base head h privilege column roles t =
    let (first, second) =
      both_safe (diff_table_grants base head) (diff_column_grants sql base head) h in
    let on_it = λ (g : ColumnGrant). g.column == column && grants_column privilege roles g in
    let (g, n, k) = any-In on_it head.column_grants t in
    let given = and_right (g.column == column) (grants_column privilege roles g) k in
    let (b, m, e, c, i) =
      old_column_grant sql base head second n
        (contains-In privilege g.privileges (and_left _ (to_session roles g.role) given)) in
    In-any on_it base.column_grants m (
      ground (
        arith,
        In-contains b.privileges i,
        and_left (g.column == column) (grants_column privilege roles g) k,
        ap (λ z. z == column) c,
        and_right (contains privilege g.privileges) (to_session roles g.role) given,
        ap (λ r. r == "PUBLIC" || contains r roles) e,
      ))

some_column :
    (privilege : String) (roles : List String) (gs : List ColumnGrant)
    → column_granted privilege roles gs ≡ true
    → (column : String) × (granted_on_column privilege column roles gs ≡ true)
unfolding column_granted granted_on_column
some_column privilege roles gs t =
    let (g, n, k) = any-In (grants_column privilege roles) gs t in
    (
      g.column,
      In-any (λ (h : ColumnGrant). h.column == g.column && grants_column privilege roles h) gs n
          (ground (arith, k, ==_refl g.column)),
    )

of_column :
    (privilege column : String) (roles : List String) (gs : List ColumnGrant)
    → granted_on_column privilege column roles gs ≡ true
    → column_granted privilege roles gs ≡ true
unfolding column_granted granted_on_column
of_column privilege column roles gs t =
    let (g, n, k) =
      any-In (λ (h : ColumnGrant). h.column == column && grants_column privilege roles h) gs t in
    In-any (grants_column privilege roles) gs n
      (and_right (g.column == column) (grants_column privilege roles g) k)

-- The same of a privilege on some column.
pub safe_some_column :
    (sql : Sql) (base head : Table)
    → all_safe (diff_grants sql base head) ≡ true
    → (privilege : String) (roles : List String)
    → column_granted privilege roles head.column_grants ≡ true
    → column_granted privilege roles base.column_grants ≡ true
safe_some_column sql base head h privilege roles t =
    let (column, k) = some_column privilege roles head.column_grants t in
    of_column privilege column roles base.column_grants
      (safe_column_grants_narrow sql base head h privilege column roles k)
