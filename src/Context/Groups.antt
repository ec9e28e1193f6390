-- ===== src/Context/Groups.antt =====
-- What compressHistory of agent/context_mgmt/compressor.py keeps of a conversation.
use nereus_door_loong_magic.Common.{
  ℕ, zero, suc, ◌-◌, ◌/◌, ◌≤◌, ◌≡◌, ◌⊎◌, inl, inr, Bool, false, ◌&&◌, List-cases, not, Option, none,
  some, List, [], ◌∷◌, ◌++◌, refl, arith, ap, sym, ◌∙◌, Bool-cases, length, take, drop, keep, leb,
  All,
}
use nereus_door_loong_magic.Context.{
  Message, Texts, opens_unit, is_tool, is_system, group_from, group_messages, flatten, total_chars,
  older_units, recent_units, summarised, compress_history,
}
use nereus_door_loong_magic.Context.Units.{
  append_assoc, append_nil, flatten-group_from, IsUnit, IsOpen, IsOpen-snoc, MayTake,
  group_from-IsUnit,
}

flatten-append : (a b : List (List Message)) → flatten (a ++ b) ≡ flatten a ++ flatten b
flatten-append [] b = refl
flatten-append (u ∷ a) b =
    ap (λ t. u ++ t) (flatten-append a b) ∙ sym (append_assoc u (flatten a) (flatten b))

take-drop : (k : ℕ) (units : List (List Message)) → take k units ++ drop k units ≡ units
take-drop zero units = refl
take-drop (suc k) [] = refl
take-drop (suc k) (u ∷ units) = ap (λ t. u ∷ t) (take-drop k units)

All-take : (k : ℕ) (units : List (List Message)) → All IsUnit units → All IsUnit (take k units)
All-take zero units h = tt
All-take (suc k) [] h = tt
All-take (suc k) (u ∷ units) h = (h.0, All-take k units h.1)

All-drop : (k : ℕ) (units : List (List Message)) → All IsUnit units → All IsUnit (drop k units)
All-drop zero units h = h
All-drop (suc k) [] h = tt
All-drop (suc k) (u ∷ units) h = All-drop k units h.1

length-drop_le : (k : ℕ) (units : List (List Message)) → length (drop k units) ≤ length units - k
length-drop_le zero units = omega arith
length-drop_le (suc k) [] = omega arith
length-drop_le (suc k) (u ∷ units) = omega (arith, length-drop_le k units)

-- A message that calls tools is not cut off from a tool message that follows it.
abbrev pub joins : List Message → List Message → Bool
joins [] v = false
joins (m ∷ u) [] = false
joins (m ∷ u) (n ∷ v) = opens_unit m && is_tool n

abbrev pub Apart : List (List Message) → Type 0
Apart [] = Unit {0}
Apart (u ∷ []) = Unit {0}
Apart (u ∷ v ∷ units) = (joins u v ≡ false) × Apart (v ∷ units)

-- The first of the units, whatever is still added to the open one, starts with its message.
Apart-plain :
    (m : Message) (ms : List Message)
    → opens_unit m ≡ false
    → Apart (group_from none ms)
    → Apart ((m ∷ []) ∷ group_from none ms)
Apart-plain m ms plain apart = elim (List-cases (group_from none ms)) [
  | inl empty ↦ rw empty tt
  | inr ([], units, there) ↦ rw there (refl, rw there at apart)
  | inr (n ∷ v, units, there) ↦ rw there (ground arith, rw there at apart)
]

starts-with-open :
    (unit : List Message) (ms : List Message)
    → IsOpen unit
    → (v : List Message) × (units : List (List Message)) × (group_from (some unit) ms
        ≡ (unit ++ v) ∷ units)
unfolding group_from
starts-with-open unit [] h = ([], [], ap (λ u. u ∷ []) (sym (append_nil unit)))
starts-with-open unit (m ∷ ms) h = elim (Bool-cases (is_tool m)) [
  | inl tool ↦
      let (v, units, e) = starts-with-open (unit ++ (m ∷ [])) ms (IsOpen-snoc m unit h tool) in
      (m ∷ v, units, ground (arith, e, append_assoc unit (m ∷ []) v))
  | inr other ↦ elim (Bool-cases (opens_unit m)) [
    | inl opens ↦ ([], group_from (some (m ∷ [])) ms, ground (arith, append_nil unit))
    | inr plain ↦ ([], (m ∷ []) ∷ group_from none ms, ground (arith, append_nil unit))
  ]
]

Apart-before :
    (unit : List Message) (m : Message) (v : List Message) (units : List (List Message))
    → is_tool m ≡ false
    → Apart ((m ∷ v) ∷ units)
    → Apart (unit ∷ (m ∷ v) ∷ units)
Apart-before [] m v units other apart = (refl, apart)
Apart-before (o ∷ unit) m v units other apart = (ground arith, apart)

group_from-Apart :
    (unit : Option (List Message)) (ms : List Message) → MayTake unit → Apart (group_from unit ms)
unfolding group_from
group_from-Apart none [] h = tt
group_from-Apart (some unit) [] h = tt
group_from-Apart none (m ∷ ms) h = elim (Bool-cases (opens_unit m)) [
  | inl opens ↦
      let e : group_from none (m ∷ ms) ≡ group_from (some (m ∷ [])) ms = ground arith in
      rw e (group_from-Apart (some (m ∷ [])) ms (opens, tt))
  | inr plain ↦
      let e : group_from none (m ∷ ms) ≡ (m ∷ []) ∷ group_from none ms = ground arith in
      rw e (Apart-plain m ms plain (group_from-Apart none ms tt))
]
group_from-Apart (some unit) (m ∷ ms) h = elim (Bool-cases (is_tool m)) [
  | inl tool ↦
      let e : group_from (some unit) (m ∷ ms) ≡ group_from (some (unit ++ (m ∷ []))) ms =
        ground arith in
      rw e (group_from-Apart (some (unit ++ (m ∷ []))) ms (IsOpen-snoc m unit h tool))
  | inr other ↦ elim (Bool-cases (opens_unit m)) [
    | inl opens ↦
        let e : group_from (some unit) (m ∷ ms) ≡ unit ∷ group_from (some (m ∷ [])) ms =
          ground arith in
        let (v, units, starts) = starts-with-open (m ∷ []) ms (opens, tt) in
        let apart = group_from-Apart (some (m ∷ [])) ms (opens, tt) in
        rw (e, starts) (Apart-before unit m v units other (rw starts at apart))
    | inr plain ↦
        let e : group_from (some unit) (m ∷ ms) ≡ unit ∷ (m ∷ []) ∷ group_from none ms =
          ground arith in
        rw e (
          Apart-before unit m [] (group_from none ms) other
            (Apart-plain m ms plain (group_from-Apart none ms tt)))
  ]
]

-- How the messages of a conversation but its system messages are cut in two.
pub record IsCut (n : ℕ) (others : List Message) (older recent : List (List Message)) : Type 0 where
  pub whole : others ≡ flatten older ++ flatten recent
  pub older_units_whole : All IsUnit older
  pub recent_units_whole : All IsUnit recent
  pub apart : Apart (older ++ recent)
  pub recent_few : (n ≡ 0) ⊎ (length recent ≤ n)

cut :
    (n : ℕ) (others : List Message)
    → IsCut n others
        (older_units n (group_messages others))
        (recent_units n (group_messages others))
unfolding older_units recent_units group_messages
cut zero others = record {
  whole = sym (flatten-group_from none others);
  older_units_whole = tt;
  recent_units_whole = group_from-IsUnit none others tt;
  apart = group_from-Apart none others tt;
  recent_few = inl refl;
}
cut (suc n) others =
    let units = group_messages others in
    let k = length units - suc n in
    let sound = group_from-IsUnit none others tt in
    record {
      whole =
          sym (flatten-group_from none others)
          ∙ ap flatten (sym (take-drop k units))
          ∙ flatten-append (take k units) (drop k units);
      older_units_whole = All-take k units sound;
      recent_units_whole = All-drop k units sound;
      apart = rw (take-drop k units) (group_from-Apart none others tt);
      recent_few = inr (omega (arith, length-drop_le k units));
    }

-- compressHistory either returns the conversation as it is, or the system messages, a summary of the
-- older messages (if there are any) and the recent messages in their order, where the older and the
-- recent messages make up all the others, a message that calls tools stands in one part
-- with all the tool messages that follow it, and the recent part is at most `max_recent` units (all of them for 0).
pub compress_history-IsCut :
    (x : Texts) (max_recent threshold_tokens : ℕ) (ms : List Message)
    → (compress_history x max_recent threshold_tokens ms ≡ ms)
      ⊎ ((older : List (List Message)) × (recent : List (List Message)) × IsCut max_recent
            (keep (λ m. not (is_system m)) ms)
            older
            recent
          × (compress_history x max_recent threshold_tokens ms
              ≡ keep is_system ms ++ (summarised x (flatten older) ++ flatten recent)))
unfolding compress_history
compress_history-IsCut x n threshold ms =
    let others = keep (λ m. not (is_system m)) ms in
    elim (Bool-cases (leb (total_chars others / 2) threshold)) [
      | inl small ↦ inl (rw small)
      | inr large ↦ inr (
        older_units n (group_messages others),
        recent_units n (group_messages others),
        cut n others,
        rw large,
      )
    ]
