-- ===== src/Common/Text.antt =====
-- Python's `" ".join(words)` and `a + b` on texts.
use Prim.Native.String.{String, ◌++◌}
use mathlib.Core.List.{List, [], ◌∷◌}

abbrev pub join_to : String → List String → String
join_to acc [] = acc
join_to acc (w ∷ ws) = join_to (acc ++ " " ++ w) ws

abbrev pub join : List String → String
join [] = ""
join (w ∷ ws) = join_to w ws

abbrev pub text_append : String → String → String
text_append = ◌++◌
