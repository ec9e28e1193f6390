-- ===== src/Common/Table.antt =====
-- A table of the database under its integer primary key: rows in the order of insertion.
use Prim.Native.Nat.{ℕ}
use mathlib.Core.Path.{◌≡◌, refl}
use mathlib.Core.List.{List, [], ◌∷◌}
use mathlib.Core.Option.{Option, none, some}
use mathlib.Core.Logic.{inl, inr}
use native.Mathlib.Omega.{arith}
use package.nereus_door_loong_magic.Common.Tests.{if◌then◌else◌, eqb, Bool-cases}

abbrev pub Table {ℓ} : Type ℓ → Type ℓ
Table V = List (ℕ × V)

module _ {ℓ} {V : Type ℓ} where
  -- The row under a key.
  unfoldable pub row : ℕ → Table V → Option V
  row k [] = none
  row k ((j, v) ∷ t) = if eqb j k then some v else row k t

  -- A row in place of the one under its key, or a new one.
  unfoldable pub put : ℕ → V → Table V → Table V
  put k v [] = (k, v) ∷ []
  put k v ((j, w) ∷ t) = if eqb j k then (j, v) ∷ t else (j, w) ∷ put k v t

  unfoldable pub delete : ℕ → Table V → Table V
  delete k [] = []
  delete k ((j, w) ∷ t) = let rest = delete k t in if eqb j k then rest else (j, w) ∷ rest

  pub row-put :
      (k j : ℕ) (v : V) (t : Table V) → row j (put k v t) ≡ (if eqb k j then some v else row j t)
  unfolding row put
  row-put k j v [] = refl
  row-put k j v ((i, w) ∷ t) = ground (arith, row-put k j v t)

  pub row-delete :
      (k j : ℕ) (t : Table V) → row j (delete k t) ≡ (if eqb k j then none else row j t)
  unfolding row delete
  row-delete k j [] = ground arith
  row-delete k j ((i, w) ∷ t) = ground (arith, row-delete k j t)

  -- No key stands twice: what `put` and `delete` keep.
  abbrev pub IsKeyed : Table V → Type ℓ
  IsKeyed [] = Unit {ℓ}
  IsKeyed ((k, v) ∷ t) = (row k t ≡ none) × IsKeyed t

  pub put-IsKeyed : (k : ℕ) (v : V) (t : Table V) → IsKeyed t → IsKeyed (put k v t)
  unfolding row put
  put-IsKeyed k v [] h = (refl, tt)
  put-IsKeyed k v ((i, w) ∷ t) h = elim (Bool-cases (eqb i k)) [
    | inl same ↦ let e : put k v ((i, w) ∷ t) ≡ (i, v) ∷ t = ground arith in rw e h
    | inr other ↦
        let e : put k v ((i, w) ∷ t) ≡ (i, w) ∷ put k v t = ground arith in
        rw e (ground (arith, row-put k i v t), put-IsKeyed k v t h.1)
  ]
