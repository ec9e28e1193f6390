-- ===== src/Context/Units.antt =====
-- The units of messages that compressHistory of agent/context_mgmt/compressor.py never cuts.
use nereus_door_loong_magic.Common.{
  ◌≡◌, inl, inr, true, Option, none, some, List, [], ◌∷◌, ◌++◌, refl, arith, ap, Bool-cases, All,
}
use nereus_door_loong_magic.Context.{Message, opens_unit, is_tool, group_from, flatten}

abbrev pub unit_of : Option (List Message) → List Message
unit_of none = []
unit_of (some unit) = unit

pub append_assoc : (a b c : List Message) → (a ++ b) ++ c ≡ a ++ (b ++ c)
append_assoc [] b c = refl
append_assoc (m ∷ a) b c = ap (λ t. m ∷ t) (append_assoc a b c)

pub append_nil : (a : List Message) → a ++ [] ≡ a
append_nil [] = refl
append_nil (m ∷ a) = ap (λ t. m ∷ t) (append_nil a)

pub flatten-group_from :
    (unit : Option (List Message)) (ms : List Message)
    → flatten (group_from unit ms) ≡ unit_of unit ++ ms
unfolding group_from
flatten-group_from none [] = refl
flatten-group_from (some unit) [] = refl
flatten-group_from none (m ∷ ms) = elim (Bool-cases (opens_unit m)) [
  | inl opens ↦ ground (arith, flatten-group_from (some (m ∷ [])) ms)
  | inr plain ↦ ground (arith, flatten-group_from none ms)
]
flatten-group_from (some unit) (m ∷ ms) = elim (Bool-cases (is_tool m)) [
  | inl tool ↦
      ground (arith, flatten-group_from (some (unit ++ (m ∷ []))) ms, append_assoc unit (m ∷ []) ms)
  | inr other ↦ elim (Bool-cases (opens_unit m)) [
    | inl opens ↦ ground (arith, flatten-group_from (some (m ∷ [])) ms)
    | inr plain ↦ ground (arith, flatten-group_from none ms)
  ]
]

-- A message that calls tools, followed by tool messages only, or a message alone.
abbrev pub IsUnit : List Message → Type 0
IsUnit [] = ⊥
IsUnit (m ∷ []) = Unit {0}
IsUnit (m ∷ n ∷ rest) = (opens_unit m ≡ true) × All (λ t. is_tool t ≡ true) (n ∷ rest)

-- A unit that may still take tool messages.
abbrev pub IsOpen : List Message → Type 0
IsOpen [] = ⊥
IsOpen (m ∷ tools) = (opens_unit m ≡ true) × All (λ t. is_tool t ≡ true) tools

pub IsOpen-IsUnit : (unit : List Message) → IsOpen unit → IsUnit unit
IsOpen-IsUnit [] h = h
IsOpen-IsUnit (m ∷ []) h = tt
IsOpen-IsUnit (m ∷ n ∷ rest) h = h

pub All-snoc :
    (m : Message) (tools : List Message)
    → All (λ t. is_tool t ≡ true) tools
    → is_tool m ≡ true
    → All (λ t. is_tool t ≡ true) (tools ++ (m ∷ []))
All-snoc m [] h k = (k, tt)
All-snoc m (t ∷ tools) h k = (h.0, All-snoc m tools h.1 k)

pub IsOpen-snoc :
    (m : Message) (unit : List Message) → IsOpen unit → is_tool m ≡ true → IsOpen (unit ++ (m ∷ []))
IsOpen-snoc m [] h k = absurd h
IsOpen-snoc m (o ∷ tools) h k = (h.0, All-snoc m tools h.1 k)

abbrev pub MayTake : Option (List Message) → Type 0
MayTake none = Unit {0}
MayTake (some unit) = IsOpen unit

pub group_from-IsUnit :
    (unit : Option (List Message)) (ms : List Message)
    → MayTake unit
    → All IsUnit (group_from unit ms)
unfolding group_from
group_from-IsUnit none [] h = tt
group_from-IsUnit (some unit) [] h = (IsOpen-IsUnit unit h, tt)
group_from-IsUnit none (m ∷ ms) h = elim (Bool-cases (opens_unit m)) [
  | inl opens ↦
      let e : group_from none (m ∷ ms) ≡ group_from (some (m ∷ [])) ms = ground arith in
      rw e (group_from-IsUnit (some (m ∷ [])) ms (opens, tt))
  | inr plain ↦
      let e : group_from none (m ∷ ms) ≡ (m ∷ []) ∷ group_from none ms = ground arith in
      rw e (tt, group_from-IsUnit none ms tt)
]
group_from-IsUnit (some unit) (m ∷ ms) h = elim (Bool-cases (is_tool m)) [
  | inl tool ↦
      let e : group_from (some unit) (m ∷ ms) ≡ group_from (some (unit ++ (m ∷ []))) ms =
        ground arith in
      rw e (group_from-IsUnit (some (unit ++ (m ∷ []))) ms (IsOpen-snoc m unit h tool))
  | inr other ↦ elim (Bool-cases (opens_unit m)) [
    | inl opens ↦
        let e : group_from (some unit) (m ∷ ms) ≡ unit ∷ group_from (some (m ∷ [])) ms =
          ground arith in
        rw e (IsOpen-IsUnit unit h, group_from-IsUnit (some (m ∷ [])) ms (opens, tt))
    | inr plain ↦
        let e : group_from (some unit) (m ∷ ms) ≡ unit ∷ (m ∷ []) ∷ group_from none ms =
          ground arith in
        rw e (IsOpen-IsUnit unit h, (tt, group_from-IsUnit none ms tt))
  ]
]
