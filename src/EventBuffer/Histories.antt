-- ===== src/EventBuffer/Histories.antt =====
-- Numbered events and the ends of lists, for the buffer of gateway/service/AgentEventBuffer.py.
use nereus_door_loong_magic.Common.{
  ℕ, zero, suc, ◌+◌, ◌-◌, ◌≤◌, ◌<◌, ◌≡◌, false, List, [], ◌∷◌, ◌++◌, length, keep, ltb, drop, refl,
  arith, length-append, ltb→lt, ap, ◌∙◌, sym, Bool-cases, inl, inr,
}
use nereus_door_loong_magic.Common.Json.{Json}
use nereus_door_loong_magic.EventBuffer.{Event, shrink, Call, push_event}

-- The events that the calls push, in their order.
abbrev pub pushed : List Call → List Json
pushed [] = []
pushed (push_event e ∷ calls) = e ∷ pushed calls
pushed (_ ∷ calls) = pushed calls

-- Events numbered from `n`.
abbrev pub stamp_from : ℕ → List Json → List Event
stamp_from n [] = []
stamp_from n (e ∷ events) = (n, e) ∷ stamp_from (suc n) events

-- The last `n` items.
abbrev pub last_of : {A : Type 0} → ℕ → List A → List A
last_of n xs = drop (length xs - n) xs

pub not_more : (m n : ℕ) → ltb m n ≡ false → n ≤ m
not_more m n h = ground arith

module _ {A : Type 0} where
  pub drop_none : (m : ℕ) (xs : List A) → length xs ≤ m → last_of m xs ≡ xs
  drop_none m xs h = let zero_ : length xs - m ≡ 0 = omega (arith, h) in rw zero_

  pub drop_more :
      (m : ℕ) (x : A) (xs : List A) → m < length (x ∷ xs) → last_of m xs ≡ last_of m (x ∷ xs)
  drop_more m x xs h =
      let next : length (x ∷ xs) - m ≡ suc (length xs - m) = omega (arith, h) in rw next

  pub length-drop : (k : ℕ) (xs : List A) → length (drop k xs) ≡ length xs - k
  length-drop zero xs = omega arith
  length-drop (suc k) [] = omega arith
  length-drop (suc k) (x ∷ xs) = omega (arith, length-drop k xs)

  pub drop_empty : (k : ℕ) → drop {A = A} k [] ≡ []
  drop_empty zero = refl
  drop_empty (suc k) = refl

  pub drop-append : (k : ℕ) (xs ys : List A) → k ≤ length xs → drop k (xs ++ ys) ≡ drop k xs ++ ys
  drop-append zero xs ys h = refl
  drop-append (suc k) [] ys h = absurd (omega (arith, h))
  drop-append (suc k) (x ∷ xs) ys h = drop-append k xs ys (omega (arith, h))

  pub drop-drop : (j k : ℕ) (xs : List A) → drop j (drop k xs) ≡ drop (k + j) xs
  drop-drop j zero xs = ap (λ n. drop n xs) (omega arith)
  drop-drop zero (suc k) [] = sym (drop_empty (suc k + 0))
  drop-drop (suc j) (suc k) [] = sym (drop_empty (suc k + suc j))
  drop-drop j (suc k) (x ∷ xs) =
      let next : suc k + j ≡ suc (k + j) = omega arith in rw next (drop-drop j k xs)

  -- Pushing on the window is pushing on the whole.
  pub last_of-snoc :
      (m : ℕ) (xs : List A) (x : A)
      → last_of m (last_of m xs ++ (x ∷ [])) ≡ last_of m (xs ++ (x ∷ []))
  last_of-snoc m xs x =
      let k = length xs - m in
      let ys = drop k xs ++ (x ∷ []) in
      let same : drop k (xs ++ (x ∷ [])) ≡ ys = drop-append k xs (x ∷ []) (omega arith) in
      let size : length ys ≡ (length xs - k) + 1 =
        omega (arith, length-append (drop k xs) (x ∷ []), length-drop k xs) in
      let total : k + (length ys - m) ≡ length (xs ++ (x ∷ [])) - m =
        omega (arith, size, length-append xs (x ∷ [])) in
      let both = drop-drop (length ys - m) k (xs ++ (x ∷ [])) in
      sym (ap (λ zs. drop (length ys - m) zs) same) ∙ both ∙ ap (λ n. drop n (xs ++ (x ∷ []))) total

-- The loop leaves the last `max_size` events.
pub shrink-last_of :
    (fuel max_size : ℕ) (events : List Event)
    → length events ≤ fuel
    → shrink fuel max_size events ≡ last_of max_size events
unfolding shrink
shrink-last_of zero m [] h = sym (drop_empty (0 - m))
shrink-last_of zero m (e ∷ events) h = absurd (omega (arith, h))
shrink-last_of (suc fuel) m [] h = sym (drop_empty (0 - m))
shrink-last_of (suc fuel) m (e ∷ events) h =
    let rest = shrink-last_of fuel m events (omega (arith, h)) in
    elim (Bool-cases (ltb m (length (e ∷ events)))) [
      | inl more ↦ ground (arith, rest, drop_more m e events (ltb→lt m (length (e ∷ events)) more))
      | inr fits ↦
          ground
            (arith, drop_none m (e ∷ events) (omega (arith, not_more m (length (e ∷ events)) fits)))
    ]

pub stamp_from-snoc :
    (n : ℕ) (h : List Json) (e : Json)
    → stamp_from n (h ++ (e ∷ [])) ≡ stamp_from n h ++ ((n + length h, e) ∷ [])
stamp_from-snoc n [] e = ap (λ k. (k, e) ∷ []) (omega arith)
stamp_from-snoc n (x ∷ h) e =
    let next : suc n + length h ≡ n + length (x ∷ h) = omega arith in
    rw⁻¹ next (ap (λ t. (n, x) ∷ t) (stamp_from-snoc (suc n) h e))

pub length-stamp_from : (n : ℕ) (h : List Json) → length (stamp_from n h) ≡ length h
length-stamp_from n [] = refl
length-stamp_from n (x ∷ h) = ap suc (length-stamp_from (suc n) h)

pub drop-stamp_from :
    (k n : ℕ) (h : List Json) → drop k (stamp_from n h) ≡ stamp_from (n + k) (drop k h)
drop-stamp_from zero n h = ap (λ j. stamp_from j h) (omega arith)
drop-stamp_from (suc k) n [] = refl
drop-stamp_from (suc k) n (x ∷ h) =
    let next : suc n + k ≡ n + suc k = omega arith in rw⁻¹ next (drop-stamp_from k (suc n) h)

pub not_less : (a b : ℕ) → ltb a b ≡ false → b ≤ a
not_less a b h = ground arith

-- Reading past `l` drops the events that are numbered up to `l`.
pub keep-stamp_from :
    (l n : ℕ) (h : List Json)
    → keep (λ e. ltb l e.0) (stamp_from n h) ≡ drop ((l + 1) - n) (stamp_from n h)
keep-stamp_from l n [] = sym (drop_empty ((l + 1) - n))
keep-stamp_from l n (x ∷ h) =
    let rest = keep-stamp_from l (suc n) h in
    elim (Bool-cases (ltb l n)) [
      | inl newer ↦
          let none_seen : (l + 1) - n ≡ 0 = omega (arith, ltb→lt l n newer) in
          let none_later : (l + 1) - suc n ≡ 0 = omega (arith, ltb→lt l n newer) in
          let kept : keep (λ e. ltb l e.0) (stamp_from (suc n) h) ≡ stamp_from (suc n) h =
            rw none_later at rest in
          rw none_seen (ground (arith, newer, kept))
      | inr seen ↦
          let one : (l + 1) - n ≡ suc ((l + 1) - suc n) = omega (arith, not_less l n seen) in
          rw one (ground (arith, seen, rest))
    ]
