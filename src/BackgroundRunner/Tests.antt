-- ===== src/BackgroundRunner/Tests.antt =====
-- Sessions and rounds on concrete input, and the theorems applied to them.
use nereus_door_loong_magic.Common.{◌≡◌, false, none, some, List, [], ◌∷◌, refl, length}
use nereus_door_loong_magic.Common.Json.{text}
use nereus_door_loong_magic.EventBuffer.{new_buffer, push, shrink, mark_done, reset_for_new_round}
use nereus_door_loong_magic.BackgroundRunner.{
  Loop, Runner, new_session, submit, cancel, end_round, abort_round, wind_up,
}
use nereus_door_loong_magic.BackgroundRunner.Steps.{submits, aborts, winds_up, Reaches, here, later}
use nereus_door_loong_magic.BackgroundRunner.Order.{IsOrderly, Reaches-IsOrderly}
use nereus_door_loong_magic.BackgroundRunner.Events.{
  AgentEvent, text_delta, tool_calling, tool_result, plan_rejected, done, SessionRow, Format,
  add_message, update_tool_response, persist, handle_event, handle_events, run_round,
}

program : Unit {0}
unfolding push shrink mark_done reset_for_new_round submit cancel end_round abort_round wind_up
    add_message update_tool_response persist handle_event handle_events run_round
program = tt

abbrev working : Loop
working = record { number = 0; message = some "a"; cancelled = false }

abbrev left : Loop
left = record working { message = none }

-- Two messages, the second while the first is at work; then the first one fails.
abbrev busy : Runner
busy = submit "b" (submit "a" new_session)

abbrev failed : Runner
failed = abort_round [] working [] busy

abbrev restarted : Runner
restarted = wind_up [] [] failed

failed-restarted : Reaches false new_session restarted
unfolding program
failed-restarted =
    later
      (later (later (later (here refl) (submits "a" refl)) (submits "b" refl))
        (aborts [] [] working "a" refl refl refl))
      (winds_up [] [] left refl refl refl)

new_session-IsOrderly : IsOrderly new_session
new_session-IsOrderly = record {
  single = refl;
  idle = λ off. refl;
  order = refl;
  unfinished = λ h. refl;
}

Reaches-IsOrderly_example : IsOrderly restarted
Reaches-IsOrderly_example =
    Reaches-IsOrderly new_session restarted failed-restarted new_session-IsOrderly

restarted_order : (restarted.taken ≡ "a" ∷ "b" ∷ []) × (restarted.queue ≡ [])
unfolding program
restarted_order = (refl, refl)

-- After a cancellation, a message that comes before the cancelled loop has ended starts a second one.
cancelled_doubles : length (submit "c" (cancel busy)).loops ≡ 2
unfolding program
cancelled_doubles = refl

-- The loop that the `finally` block started is not the stored task, and is not cancelled.
restarted_survives : (cancel restarted).loops ≡ restarted.loops
unfolding program
restarted_survives = refl

abbrev format : Format
format = record { format = λ e. text "event"; is_timeout = λ t. false; joined = λ ts. "ok" }

abbrev events : List AgentEvent
events =
    tool_calling (text "call" ∷ []) none
    ∷ tool_result "waiting" "c1" "proposePlan"
    ∷ plan_rejected "" "c1"
    ∷ text_delta "ok"
    ∷ done
    ∷ []

abbrev session : SessionRow
session = record {
  status = "running";
  mode = "plan";
  last_error = none;
  pending_approval = none;
  pending_choice = none;
  messages = [];
}

round_messages :
    length (run_round format 1 "go" events session (new_buffer 10)).session.messages ≡ 4
unfolding program
round_messages = refl
