-- ===== src/EventBuffer/Tests.antt =====
-- A concrete run of the event buffer, and the theorems applied to it.
use nereus_door_loong_magic.Common.{◌≡◌, none, some, List, [], ◌∷◌, refl, arith, drop}
use nereus_door_loong_magic.Common.Json.{text}
use nereus_door_loong_magic.EventBuffer.{
  new_buffer, shrink, push, read_since, mark_done, reset_for_new_round, get_state, Call, push_event,
  finish, new_round, consume, get_nowait, step, after, consumed,
}
use nereus_door_loong_magic.EventBuffer.Histories.{pushed, stamp_from}
use nereus_door_loong_magic.EventBuffer.Window.{IsWindow, after-IsWindow, read_since-resumes}

program : Unit {0}
unfolding shrink push read_since mark_done reset_for_new_round get_state get_nowait step after
    consumed
program = tt

abbrev calls : List Call
calls =
    push_event (text "a")
    ∷ push_event (text "b")
    ∷ consume
    ∷ finish "idle"
    ∷ new_round
    ∷ push_event (text "c")
    ∷ []

reads : read_since none (after calls (new_buffer 2)) ≡ (1, text "b") ∷ (2, text "c") ∷ []
unfolding program
reads = refl

after-IsWindow_example :
    IsWindow 2 (pushed calls) (consumed calls (new_buffer 2)) (after calls (new_buffer 2))
after-IsWindow_example = after-IsWindow 2 calls

read_since-resumes_example :
    read_since (some 1) (after calls (new_buffer 2)) ≡ drop 2 (stamp_from 0 (pushed calls))
read_since-resumes_example = read_since-resumes 2 1 calls (omega arith)
