-- ===== src/Replay/Tests.antt =====
-- Concrete runs of the rate limiter, and the theorem applied to one.
use nereus_door_loong_magic.Common.{ℕ, ◌≤◌, ◌≡◌, String, List, [], ◌∷◌, refl, arith, keep, length}
use nereus_door_loong_magic.Common.Dict.{lookup, insert}
use nereus_door_loong_magic.Replay.{check_rate}
use nereus_door_loong_magic.Replay.Rate.{in_window, accepted, check_rate-bounded}

abbrev burst : List (String × ℕ)
burst = ("a", 100) ∷ ("a", 110) ∷ ("b", 115) ∷ ("a", 120) ∷ ("a", 161) ∷ []

-- Two in each minute: the third is refused, and the first has left the window at 161.
burst-accepted : accepted 2 60 "a" [] burst [] ≡ 100 ∷ 110 ∷ 161 ∷ []
unfolding accepted check_rate lookup insert
burst-accepted = refl

check_rate-bounded_example : length (keep (in_window 60 161) (accepted 2 60 "a" [] burst [])) ≤ 2
check_rate-bounded_example = check_rate-bounded 2 60 "a" burst 161 (omega arith)
