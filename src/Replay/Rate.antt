-- ===== src/Replay/Rate.antt =====
-- The rate limiter of privileged_agent/server.py keeps its bound in every window.
use nereus_door_loong_magic.Common.{
  ℕ, ◌+◌, ◌≤◌, ◌<◌, ◌≡◌, String, Bool, true, ◌&&◌, ◌==◌, inl, inr, List, [], ◌∷◌, ◌++◌, arith,
  eq_iff, Bool-cases, refl, ltb, leb, if◌then◌else◌, keep, length, All, keep-append, length-keep-le,
  keep-keep, length-append,
}
use nereus_door_loong_magic.Common.Dict.{Dict, lookup, lookup-insert}
use nereus_door_loong_magic.Replay.{bucket_of, check_rate}

abbrev pub in_window : ℕ → ℕ → ℕ → Bool
in_window window t ts = ltb t (ts + window) && leb ts t

abbrev live : ℕ → ℕ → ℕ → Bool
live window now ts = ltb now (ts + window)

-- The instants at which checks of the action were accepted, after those of `acc`.
unfoldable pub accepted :
    (max_per_window window : ℕ) → String → List ℕ → List (String × ℕ) → Dict (List ℕ) → List ℕ
accepted m w action acc [] d = acc
accepted m w action acc ((other, now) ∷ checks) d =
    let (ok, d') = check_rate m w other now d in
    accepted m w action (if (other == action) && ok then acc ++ now ∷ [] else acc) checks d'

-- The instants of the checks do not go back.
abbrev pub IsOrdered : ℕ → List (String × ℕ) → Type 0
IsOrdered last [] = Unit {0}
IsOrdered last ((action, now) ∷ checks) = (last ≤ now) × IsOrdered now checks

module _ (m w : ℕ) (action : String) where
  -- The bucket still holds what counts from `last` on, and every window so far is within bounds.
  record Inv (last : ℕ) (acc : List ℕ) (d : Dict (List ℕ)) : Type 0 where
    past : All (λ ts. ts ≤ last) acc
    held : (now : ℕ) → last ≤ now → keep (live w now) (bucket_of action d) ≡ keep (live w now) acc
    bounded : (t : ℕ) → length (keep (in_window w t) acc) ≤ m

  All-later :
      (last now : ℕ) (acc : List ℕ)
      → last ≤ now
      → All (λ ts. ts ≤ last) acc
      → All (λ ts. ts ≤ now) acc
  All-later last now [] h p = tt
  All-later last now (x ∷ xs) h p = (omega arith, All-later last now xs h p.1)

  All-snoc :
      (now : ℕ) (acc : List ℕ) → All (λ ts. ts ≤ now) acc → All (λ ts. ts ≤ now) (acc ++ now ∷ [])
  All-snoc now [] p = (omega arith, tt)
  All-snoc now (x ∷ xs) p = (p.0, All-snoc now xs p.1)

  bucket-check :
      (other : String) (now : ℕ) (d : Dict (List ℕ))
      → bucket_of action (check_rate m w other now d).1 ≡ (
          if other == action
          then (if (check_rate m w other now d).0
              then keep (live w now) (bucket_of action d) ++ now ∷ []
              else keep (live w now) (bucket_of action d))
          else bucket_of action d)
  unfolding check_rate
  bucket-check other now d =
      let recent = keep (live w now) (bucket_of other d) in
      ground (
        arith,
        eq_iff other action,
        lookup-insert other action recent d,
        lookup-insert other action (recent ++ now ∷ []) d,
      )

  accepts-room :
      (now : ℕ) (d : Dict (List ℕ))
      → (check_rate m w action now d).0 ≡ true
      → length (keep (live w now) (bucket_of action d)) < m
  unfolding check_rate
  accepts-room now d h = ground arith

  -- A window that reaches past the new instant counts only what was live at it.
  window_live : (now t ts : ℕ) → now ≤ t → in_window w t ts ≡ true → live w now ts ≡ true
  window_live now t ts h p = ground arith

  length-window-snoc :
      (now t : ℕ) (acc : List ℕ)
      → length (keep (live w now) acc) < m
      → length (keep (in_window w t) acc) ≤ m
      → length (keep (in_window w t) (acc ++ now ∷ [])) ≤ m
  length-window-snoc now t acc room old = rw (keep-append (in_window w t) acc (now ∷ [])) (
      rw (length-append (keep (in_window w t) acc) (keep (in_window w t) (now ∷ [])))
        (elim (Bool-cases (leb now t)) [
          | inl reaches ↦ ground (
            arith,
            length-keep-le (in_window w t) (live w now) acc
                (λ ts. window_live now t ts (ground arith)),
          )
          | inr before ↦ ground arith
        ]))

  later_live : (now later ts : ℕ) → now ≤ later → live w later ts ≡ true → live w now ts ≡ true
  later_live now later ts h p = ground arith

  -- What one check does to the bucket and to the accepted instants of the action.
  Inv-accept :
      (last now : ℕ) (acc : List ℕ) (d d' : Dict (List ℕ))
      → last ≤ now
      → Inv last acc d
      → bucket_of action d' ≡ keep (live w now) (bucket_of action d) ++ now ∷ []
      → length (keep (live w now) (bucket_of action d)) < m
      → Inv now (acc ++ now ∷ []) d'
  Inv-accept last now acc d d' h inv e room = record {
    past = All-snoc now acc (All-later last now acc h inv.past);
    held = λ later k. rw (
      e,
      keep-append (live w later) (keep (live w now) (bucket_of action d)) (now ∷ []),
      keep-append (live w later) acc (now ∷ []),
      keep-keep (live w later) (live w now) (bucket_of action d) (λ ts. later_live now later ts k),
      inv.held later (omega arith),
    );
    bounded = λ t. length-window-snoc now t acc (rw (← inv.held now h) room) (inv.bounded t);
  }

  Inv-refuse :
      (last now : ℕ) (acc : List ℕ) (d d' : Dict (List ℕ))
      → last ≤ now
      → Inv last acc d
      → bucket_of action d' ≡ keep (live w now) (bucket_of action d)
      → Inv now acc d'
  Inv-refuse last now acc d d' h inv e = record {
    past = All-later last now acc h inv.past;
    held = λ later k.
        rw
          (
            e,
            keep-keep (live w later) (live w now) (bucket_of action d)
                (λ ts. later_live now later ts k),
          )
          (inv.held later (omega arith));
    bounded = inv.bounded;
  }

  Inv-other :
      (last now : ℕ) (acc : List ℕ) (d d' : Dict (List ℕ))
      → last ≤ now
      → Inv last acc d
      → bucket_of action d' ≡ bucket_of action d
      → Inv now acc d'
  Inv-other last now acc d d' h inv e = record {
    past = All-later last now acc h inv.past;
    held = λ later k. rw e (inv.held later (omega arith));
    bounded = inv.bounded;
  }

  accepted-Inv :
      (checks : List (String × ℕ)) (last : ℕ) (acc : List ℕ) (d : Dict (List ℕ))
      → IsOrdered last checks
      → Inv last acc d
      → (t : ℕ) → length (keep (in_window w t) (accepted m w action acc checks d)) ≤ m
  unfolding accepted
  accepted-Inv [] last acc d ordered inv = inv.bounded
  accepted-Inv ((other, now) ∷ checks) last acc d ordered inv =
      let (ok, d') = check_rate m w other now d in
      elim (Bool-cases (other == action)) [
        | inr miss ↦ rw miss (
            accepted-Inv checks now acc d' ordered.1 (
              Inv-other last now acc d d' ordered.0 inv (ground (arith, bucket-check other now d))))
        | inl hit ↦ elim (Bool-cases ok) [
          | inr refused ↦
              rw (hit, refused)
                (accepted-Inv checks now acc d' ordered.1 (
                  Inv-refuse last now acc d d' ordered.0 inv
                    (ground (arith, bucket-check other now d))))
          | inl passed ↦
              rw (hit, passed)
                (accepted-Inv checks now (acc ++ now ∷ []) d' ordered.1 (
                  Inv-accept last now acc d d' ordered.0 inv
                    (ground (arith, bucket-check other now d))
                    (let same : other ≡ action = (eq_iff other action).0 hit in
                      accepts-room now d (rw same at passed))))
        ]
      ]

-- However many checks of whatever actions come in, at instants that do not go back, every window
-- of the given length, at any instant, holds at most the allowed number of accepted checks of one
-- action.
pub check_rate-bounded :
    (max_per_window window : ℕ) (action : String) (checks : List (String × ℕ)) (t : ℕ)
    → IsOrdered 0 checks
    → length (keep (in_window window t) (accepted max_per_window window action [] checks []))
      ≤ max_per_window
unfolding lookup
check_rate-bounded m w action checks t ordered =
    accepted-Inv m w action checks 0 [] [] ordered
      (record { past = tt; held = λ now h. refl; bounded = λ u. omega arith }) t
