-- ===== src/Sql/Keys.antt =====
-- src/pgrls/ast_utils.py, `_tree`, `_same_tree` and `canonical_key`: the text under which two
-- clauses are compared.
use Prim.Native.String.{◌++◌ as ◌+++◌, count}
use text.Mathlib.TextLemmas.{
  append_inj, append_cancel_left, append_cancel_right, length-append as count-append,
}
use pgrls.Prelude.{
  if◌then◌else◌, Bool-cases, Option-cases, ◌==◌, ==→eq, nat_eq, string_eq, bool_eq, pair_eq,
  option_eq, In, concat, ◌+◌, String, ◌≡◌, sym, ap, ◌∙◌, ◌≢◌, inl, inr, Bool, true, false, none,
  some, List, [], ◌∷◌, arith,
}
use pgrls.Sql.{Sql, Node}
use pgrls.Sql.Truth.{Truth, eval, admits, is_true}
use pgrls.Sql.Shape.{shape, eval-shape}

unfoldable pub tree : Sql → Node → String
tree sql n = sql.dump (shape n)

-- `_quiet_parse` reads a text as `parse_expr` does.
unfoldable pub same_tree : Sql → String → Node → Bool
same_tree sql s n = elim (sql.parse s) [ none ↦ false | some m ↦ tree sql m == tree sql n ]

-- The rendering, or the name of the node's type where pglast cannot render it.
unfoldable pub key_text : Sql → Node → String
key_text sql n = elim (sql.faithful_sql n) [ none ↦ sql.node_type n | some s ↦ s ]

unfoldable pub tagged : String → String → String
tagged s d = concat (s ∷ " /* ast " ∷ d ∷ " */" ∷ [])

unfoldable pub canonical_key : Sql → Node → String
unfolding key_text
canonical_key sql n =
    if same_tree sql (key_text sql n) n
    then key_text sql n
    else tagged (key_text sql n) (sql.digest (tree sql n))

-- What is asked of the rendering and of the digest: a rendering has no comment, so it never looks
-- tagged; a digest has its length; and the digests of the trees at hand do not collide.
pub record TellsApart (sql : Sql) (nodes : List Node) : Type 0 where
  pub no_comment : (n : Node) (s d : String) → key_text sql n ≢ tagged s d
  pub digest_length : (s t : String) → count (sql.digest s) ≡ count (sql.digest t)
  pub no_collision :
      (m n : Node)
      → In m nodes
      → In n nodes
      → sql.digest (tree sql m) ≡ sql.digest (tree sql n)
      → shape m ≡ shape n

rest_lengths :
    (d e : String)
    → count d ≡ count e
    → count (" /* ast " +++ (d +++ (" */" +++ ""))) ≡ count (" /* ast " +++ (e +++ (" */" +++ "")))
rest_lengths d e n =
    count-append " /* ast " (d +++ (" */" +++ ""))
    ∙ ap (λ k. count " /* ast " + k)
        (count-append d (" */" +++ "")
          ∙ ap (λ k. k + count (" */" +++ "")) n
          ∙ sym (count-append e (" */" +++ "")))
    ∙ sym (count-append " /* ast " (e +++ (" */" +++ "")))

tagged_inj : (s t d e : String) → count d ≡ count e → tagged s d ≡ tagged t e → d ≡ e
unfolding tagged concat
tagged_inj s t d e n k =
    let rest = λ (x : String). " /* ast " +++ (x +++ (" */" +++ "")) in
    let lengths : count (rest d) ≡ count (rest e) = rest_lengths d e n in
    let total : count s + count (rest d) ≡ count t + count (rest e) =
      sym (count-append s (rest d)) ∙ ap count k ∙ count-append t (rest e) in
    let same : count s ≡ count t = omega arith in
    let (heads, tails) = append_inj k same in
    append_cancel_right d e _ (append_cancel_left " /* ast " _ _ tails)

same_tree_lem :
    (sql : Sql) (s : String) (m n : Node)
    → same_tree sql s m ≡ true
    → same_tree sql s n ≡ true
    → tree sql m ≡ tree sql n
unfolding same_tree
same_tree_lem sql s m n h k = elim (Option-cases (sql.parse s)) [
  | inl e ↦ absurd (ground arith)
  | inr (p, e) ↦
      sym (==→eq (tree sql p) (tree sql m) (rw (e, same_tree) at h))
      ∙ ==→eq (tree sql p) (tree sql n) (rw (e, same_tree) at k)
]

module _ {sql : Sql} {nodes : List Node} (laws : TellsApart sql nodes) where
  open laws use {no_comment, digest_length, no_collision}

  same_key_shape :
      (m n : Node)
      → In m nodes
      → In n nodes
      → canonical_key sql m ≡ canonical_key sql n
      → shape m ≡ shape n
  unfolding canonical_key
  same_key_shape m n i j h = elim (Bool-cases (same_tree sql (key_text sql m) m)) [
    | inl a ↦ elim (Bool-cases (same_tree sql (key_text sql n) n)) [
      | inl b ↦
          let k : key_text sql m ≡ key_text sql n = (rw (a, b) at h) in
          no_collision m n i j (ap sql.digest (same_tree_lem sql (key_text sql m) m n a (rw k b)))
      | inr b ↦ absurd (no_comment m _ _ (rw (a, b) at h))
    ]
    | inr a ↦ elim (Bool-cases (same_tree sql (key_text sql n) n)) [
      | inl b ↦ absurd (no_comment n _ _ (sym (rw (a, b) at h)))
      | inr b ↦ no_collision m n i j (tagged_inj _ _ _ _ (digest_length _ _) (rw (a, b) at h))
    ]
  ]

  -- Two of the listed trees with one canonical key are true of the same rows. The rendering and
  -- the digest tell the listed trees apart.
  pub canonical_key_sound :
      (m n : Node)
      → In m nodes
      → In n nodes
      → canonical_key sql m ≡ canonical_key sql n
      → (value : String → Truth) → admits value m ≡ admits value n
  unfolding admits
  canonical_key_sound m n i j h value =
      ap is_true
        (sym (eval-shape value m) ∙ ap (eval value) (same_key_shape m n i j h) ∙ eval-shape value n)
