-- ===== src/Common/Unique.antt =====
-- Dictionaries in which no key stands twice: what the loops that collect keys and delete them do.
use nereus_door_loong_magic.Common.{
  ◌≡◌, refl, String, Bool, false, none, some, ◌==◌, inl, inr, List, [], ◌∷◌, arith, eq_iff,
  Option-cases, Bool-cases, contains, if◌then◌else◌,
}
use nereus_door_loong_magic.Common.Dict.{
  Dict, IsUnique, lookup, insert, remove, update_values, keys_where, remove_all, lookup-insert,
  lookup-remove, lookup-remove_all, lookup-update_values,
}

pub absent-keys_where {ℓ} :
    {V : Type ℓ} (p : V → Bool) (k : String) (d : Dict V)
    → lookup k d ≡ none
    → contains k (keys_where p d) ≡ false
unfolding lookup keys_where
absent-keys_where p k [] h = refl
absent-keys_where p k ((j, w) ∷ d) h =
    ground
      (arith, eq_iff j k, eq_iff k j, λ (rest : lookup k d ≡ none). absent-keys_where p k d rest)

-- A key is collected exactly when its value satisfies the test.
pub contains-keys_where {ℓ} :
    {V : Type ℓ} (p : V → Bool) (k : String) (v : V) (d : Dict V)
    → IsUnique d
    → lookup k d ≡ some v
    → contains k (keys_where p d) ≡ p v
unfolding lookup keys_where
contains-keys_where p k v [] u h = absurd (ground arith)
contains-keys_where p k v ((j, w) ∷ d) u h = elim (Bool-cases (j == k)) [
  | inl hit ↦
      let missing : lookup k d ≡ none = ground (arith, u.0, eq_iff j k) in
      ground (arith, eq_iff j k, eq_iff k j, absent-keys_where p k d missing)
  | inr miss ↦
      let found : lookup k d ≡ some v = ground arith in
      ground (arith, eq_iff j k, eq_iff k j, contains-keys_where p k v d u.1 found)
]

pub update_values-IsUnique {ℓ} :
    {V : Type ℓ} (f : V → V) (d : Dict V) → IsUnique d → IsUnique (update_values f d)
unfolding update_values
update_values-IsUnique f [] u = tt
update_values-IsUnique f ((j, w) ∷ d) u =
    (ground (arith, u.0, lookup-update_values f j d), update_values-IsUnique f d u.1)

-- The deletion loops, on any table.
pub swept {ℓ} :
    {V : Type ℓ} (p : V → Bool) (k : String) (d : Dict V)
    → IsUnique d
    → lookup k (remove_all (keys_where p d) d)
      ≡ elim (lookup k d) [ none ↦ none | some v ↦ if p v then none else some v ]
swept p k d u = elim (Option-cases (lookup k d)) [
  | inl none_ ↦ ground (arith, lookup-remove_all (keys_where p d) k d)
  | inr (v, found) ↦
      ground (arith, lookup-remove_all (keys_where p d) k d, contains-keys_where p k v d u found)
]

pub insert-IsUnique {ℓ} :
    {V : Type ℓ} (k : String) (v : V) (d : Dict V) → IsUnique d → IsUnique (insert k v d)
unfolding insert lookup
insert-IsUnique k v [] u = (refl, tt)
insert-IsUnique k v ((j, w) ∷ d) u = elim (Bool-cases (j == k)) [
  | inl hit ↦ rw hit (u.0, u.1)
  | inr miss ↦ rw miss (
    ground (arith, lookup-insert k j v d, eq_iff j k, eq_iff k j, u.0),
    insert-IsUnique k v d u.1,
  )
]

pub remove-IsUnique {ℓ} :
    {V : Type ℓ} (k : String) (d : Dict V) → IsUnique d → IsUnique (remove k d)
unfolding remove
remove-IsUnique k [] u = tt
remove-IsUnique k ((j, w) ∷ d) u = elim (Bool-cases (j == k)) [
  | inl hit ↦ rw hit (remove-IsUnique k d u.1)
  | inr miss ↦
      rw miss (ground (arith, lookup-remove k j d, eq_iff k j, u.0), remove-IsUnique k d u.1)
]

pub remove_all-IsUnique {ℓ} :
    {V : Type ℓ} (ks : List String) (d : Dict V) → IsUnique d → IsUnique (remove_all ks d)
unfolding remove_all
remove_all-IsUnique [] d u = u
remove_all-IsUnique (k ∷ ks) d u = remove_all-IsUnique ks (remove k d) (remove-IsUnique k d u)
