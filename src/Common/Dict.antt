-- ===== src/Common/Dict.antt =====
-- Python's `dict` with text keys: an association list in insertion order.
use mathlib.Core.Path.{◌≡◌, refl}
use mathlib.Core.Bool.{Bool}
use mathlib.Core.List.{List, [], ◌∷◌}
use mathlib.Core.Option.{Option, none, some}
use mathlib.Core.Option
use native.Mathlib.Omega.{arith}
use mathlib.Core.Logic.{◌≢◌}
use text.Mathlib.TextPositions.{eq_refl}
use Prim.Native.String.{String}
use text.Mathlib.Text.{◌==◌}
use text.Mathlib.TextEquality.{eq_iff}
use package.nereus_door_loong_magic.Common.Tests.{if◌then◌else◌}
use package.nereus_door_loong_magic.Common.Lists.{contains}

abbrev pub Dict {ℓ} : Type ℓ → Type ℓ
Dict V = List (String × V)

module _ {ℓ} {V : Type ℓ} where
  -- d.get(k)
  unfoldable pub lookup : String → Dict V → Option V
  lookup k [] = none
  lookup k ((j, v) ∷ d) = if j == k then some v else lookup k d

  -- d[k] = v: an existing key keeps its place
  unfoldable pub insert : String → V → Dict V → Dict V
  insert k v [] = (k, v) ∷ []
  insert k v ((j, w) ∷ d) = if j == k then (j, v) ∷ d else (j, w) ∷ insert k v d

  -- d.pop(k, None)
  unfoldable pub remove : String → Dict V → Dict V
  remove k [] = []
  remove k ((j, w) ∷ d) = let rest = remove k d in if j == k then rest else (j, w) ∷ rest

  -- `for v in d.values(): v = f(v)`, and deletion of the entries that fail a test
  unfoldable pub update_values : (V → V) → Dict V → Dict V
  update_values f [] = []
  update_values f ((j, w) ∷ d) = (j, f w) ∷ update_values f d

  -- `[k for k, v in d.items() if p(v)]`, and `for k in ks: del d[k]`
  unfoldable pub keys_where : (V → Bool) → Dict V → List String
  keys_where p [] = []
  keys_where p ((j, w) ∷ d) = let rest = keys_where p d in if p w then j ∷ rest else rest

  unfoldable pub remove_all : List String → Dict V → Dict V
  remove_all [] d = d
  remove_all (k ∷ ks) d = remove_all ks (remove k d)

  unfoldable pub values : Dict V → List V
  values [] = []
  values ((j, w) ∷ d) = w ∷ values d

  pub lookup-insert :
      (k j : String) (v : V) (d : Dict V)
      → lookup j (insert k v d) ≡ (if k == j then some v else lookup j d)
  unfolding lookup insert
  lookup-insert k j v [] = refl
  lookup-insert k j v ((i, w) ∷ d) =
      ground (arith, eq_iff k j, eq_iff i k, eq_iff i j, lookup-insert k j v d)

  pub lookup-remove :
      (k j : String) (d : Dict V) → lookup j (remove k d) ≡ (if k == j then none else lookup j d)
  unfolding lookup remove
  lookup-remove k j [] = ground arith
  lookup-remove k j ((i, w) ∷ d) =
      ground (arith, eq_iff k j, eq_iff i k, eq_iff i j, lookup-remove k j d)

  pub lookup-insert_self : (k : String) (v : V) (d : Dict V) → lookup k (insert k v d) ≡ some v
  lookup-insert_self k v d = rw (lookup-insert k k v d, eq_refl k)

  pub lookup-insert_ne :
      (k j : String) (v : V) (d : Dict V) → k ≢ j → lookup j (insert k v d) ≡ lookup j d
  lookup-insert_ne k j v d h = rw (lookup-insert k j v d) (ground (arith, eq_iff k j))

  pub lookup-update_values :
      (f : V → V) (j : String) (d : Dict V)
      → lookup j (update_values f d) ≡ Option.map f (lookup j d)
  unfolding lookup update_values
  lookup-update_values f j [] = refl
  lookup-update_values f j ((i, w) ∷ d) = ground (arith, lookup-update_values f j d)

  pub lookup-remove_all :
      (ks : List String) (j : String) (d : Dict V)
      → lookup j (remove_all ks d) ≡ (if contains j ks then none else lookup j d)
  unfolding remove_all
  lookup-remove_all [] j d = refl
  lookup-remove_all (k ∷ ks) j d =
      ground
        (arith, lookup-remove_all ks j (remove k d), lookup-remove k j d, eq_iff k j, eq_iff j k)

  -- No key stands twice in a dict: what `insert` and `remove` keep.
  abbrev pub IsUnique : Dict V → Type ℓ
  IsUnique [] = Unit {ℓ}
  IsUnique ((k, v) ∷ d) = (lookup k d ≡ none) × IsUnique d

pub ruleset dict_laws = (lookup-insert, lookup-remove, lookup-update_values)
