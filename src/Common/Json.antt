-- ===== src/Common/Json.antt =====
-- JSON values, the Python values that `json.loads` returns. A number is kept by its Python text,
-- `str(value)`, which is all that the modelled code reads of it.
use mathlib.Core.Bool.{Bool}
use mathlib.Core.List.{List, [], ◌∷◌}
use Prim.Native.String.{String}

mutual
  pub data Json : Type 0 where
    null : Json
    bool : Bool → Json
    number : String → Json
    text : String → Json
    array : Items → Json
    object : Fields → Json

  pub data Items : Type 0 where
    nil : Items
    cons : Json → Items → Items

  pub data Fields : Type 0 where
    end : Fields
    field : String → Json → Fields → Fields

-- a list of texts as a JSON array
unfoldable pub text_items : List String → Items
text_items [] = nil
text_items (x ∷ xs) = cons (text x) (text_items xs)
