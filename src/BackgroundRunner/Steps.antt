-- ===== src/BackgroundRunner/Steps.antt =====
-- What can happen to a session of gateway/service/AgentBackgroundRunner.py, in any order.
use nereus_door_loong_magic.Common.{◌≡◌, String, Bool, true, none, some, List, ◌∷◌, ◌++◌}
use nereus_door_loong_magic.BackgroundRunner.{
  Loop, Runner, submit, cancel, end_round, abort_round, wind_up,
}

-- One section of code that runs; `c` tells whether the session may be cancelled.
pub data Step (c : Bool) : Runner → Runner → Type 0 where
  submits : {s t : Runner} → (message : String) → t ≡ submit message s → Step c s t
  cancels : {s t : Runner} → c ≡ true → t ≡ cancel s → Step c s t
  ends :
      {s t : Runner}
      → (before after : List Loop) (l : Loop) (message : String) → s.loops ≡ before ++ (l ∷ after)
      → l.message ≡ some message
      → t ≡ end_round before l after s
      → Step c s t
  aborts :
      {s t : Runner}
      → (before after : List Loop) (l : Loop) (message : String) → s.loops ≡ before ++ (l ∷ after)
      → l.message ≡ some message
      → t ≡ abort_round before l after s
      → Step c s t
  winds_up :
      {s t : Runner}
      → (before after : List Loop) (l : Loop) → s.loops ≡ before ++ (l ∷ after)
      → l.message ≡ none
      → t ≡ wind_up before after s
      → Step c s t

-- Any number of sections, one after the other.
pub data Reaches (c : Bool) (s : Runner) : Runner → Type 0 where
  here : {t : Runner} → t ≡ s → Reaches c s t
  later : {t u : Runner} → Reaches c s t → Step c t u → Reaches c s u
