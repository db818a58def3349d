-- ===== src/Prelude/Text.antt =====
-- Texts: f-strings as concatenations, and the order that `sorted` uses.
use Prim.Native.String.{String, compare, ◌++◌}
use mathlib.Core.Bool.{Bool}
use mathlib.Core.List.{List, [], ◌∷◌}
use text.Mathlib.Text.{is_le}

-- The pieces of an f-string, joined.
unfoldable pub concat : List String → String
concat [] = ""
concat (s ∷ ss) = s ++ concat ss

-- `sep.join(parts)`
unfoldable pub join : String → List String → String
join sep [] = ""
join sep (s ∷ []) = s
join sep (s ∷ t ∷ ss) = s ++ (sep ++ join sep (t ∷ ss))

-- Texts compare by code points.
unfoldable pub str_le : String → String → Bool
str_le s t = is_le (compare s t)
