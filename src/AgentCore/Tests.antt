-- ===== src/AgentCore/Tests.antt =====
-- A round of calls on concrete input, and the theorems applied to it.
use nereus_door_loong_magic.Common.{
  ℕ, ◌≡◌, String, true, false, none, some, List, [], ◌∷◌, refl, arith, All, map, ◌==◌,
  if◌then◌else◌, eqb,
}
use nereus_door_loong_magic.Common.Dict.{lookup, insert, remove}
use nereus_door_loong_magic.Common.Json.{text, Fields, end, field}
use nereus_door_loong_magic.Safety.{
  read_only, dangerous, agent, occurs_in, get_allowed_risk_levels, scan, check_level,
  flatten_values, policy_patterns, check_tool_call_with_reason, dangerous_patterns,
}
use nereus_door_loong_magic.Preauthorization.{get}
use nereus_door_loong_magic.AgentCore.{
  Call, Answer, Decision, approved, timed_out, Core, Round, new_round, pop,
}
use nereus_door_loong_magic.AgentCore.Output.{
  fit_tool_output_for_model, sanitize, append_tool_message, answer,
}
use nereus_door_loong_magic.AgentCore.Calls.{
  ask_choice, submit_plan, skip_call, ask_reason, refuse, report, run_tool, handle_approval,
  request_authorization, confirm, check_call, process_call, go_on, process_calls,
}
use nereus_door_loong_magic.AgentCore.Justified.{IsAuthorised, executed-IsAuthorised}
use nereus_door_loong_magic.AgentCore.Answered.{message_ids, result_ids}
use nereus_door_loong_magic.AgentCore.Rounds.{answered_ids, AllUnblocked, round-answered}
use nereus_door_loong_magic.AgentCore.Approvals.{
  Verdict, Approvals, no_verdict, or_refused, last_for, register, resolve_approval, resolve_all,
  wake, time_out, IsSettled, approval-last_decides,
}
use nereus_door_loong_magic.Common.{any, length}
use nereus_door_loong_magic.Safety.{plan}
use nereus_door_loong_magic.AgentCore.Plans.{
  Planner, decide_plan, has_answer, update_answer, start_wait, plan_timed_out, plan_decided,
}
use nereus_door_loong_magic.AgentCore.PlanOutcome.{
  decide_all, last_of, plan_answer, IsOver, plan-IsOver,
}

program : Unit {0}
unfolding decide_plan update_answer start_wait plan_timed_out plan_decided decide_all lookup insert
    remove occurs_in get_allowed_risk_levels scan check_level flatten_values policy_patterns
    check_tool_call_with_reason dangerous_patterns get pop fit_tool_output_for_model sanitize
    append_tool_message answer ask_choice submit_plan skip_call ask_reason refuse report run_tool
    handle_approval request_authorization confirm check_call process_call go_on process_calls
    register resolve_approval resolve_all wake time_out
program = tt

abbrev core : Core
core = record {
  regex = record { compiles = λ p. true; escape = λ p. p; search = λ p ignore_case t. false };
  safety = record { block_patterns = []; protected_paths = []; require_approval = [] };
  texts = record {
    find_paths = λ t. [];
    has_control = λ t. false;
    rstrip_punctuation = λ t. t;
    rstrip_slash = λ t. t;
    strip = λ t. t;
    clip = λ t. t;
    repr = λ v. "";
    is_zero = λ t. t == "0";
  };
  risk_of = λ name. if name == "deleteFile" then dangerous else read_only;
  mode = agent;
  max_tool_calls_per_round = 0;
  non_interactive_approvals = false;
  auto_approve_scheduled = false;
  scheduled_approval_policy = record {
    allowed_tools = [];
    allowed_privileged_commands = [];
    allowed_commands = none;
    denied_paths = [];
    allowed_paths = [];
  };
  grants = λ s t u. some [];
  run = record { session_id = none; task_id = none; source = none };
  plan_error = λ args. none;
  flagged = λ t. false;
  decimal = λ n. "9";
  take = λ n t. "";
}

abbrev say : Decision → Answer
say d = record {
  drawn = "id";
  choice = "";
  decision = d;
  output = "done";
  request_code = "";
  classified = none;
  cancelled = false;
}

-- The user approves the second call, and leaves the third one unanswered.
abbrev answers : ℕ → Answer
answers i = if eqb i 1 then say approved else say timed_out

abbrev reasoned : Fields
reasoned = field "path" (text "/srv/a") (field "reason" (text "old") end)

abbrev calls : List Call
calls =
    record { id = "c0"; name = "readFile"; args = field "path" (text "/srv/a") end }
    ∷ record { id = "c1"; name = "deleteFile"; args = reasoned }
    ∷ record { id = "c2"; name = "deleteFile"; args = reasoned }
    ∷ record { id = "c3"; name = "submitPlan"; args = end }
    ∷ record { id = "c4"; name = "readFile"; args = end }
    ∷ []

abbrev round : Round
round = process_calls core answers 0 calls new_round

-- The first two run, and the call behind the plan gets no message.
runs :
    (map (λ e. e.index) round.executed ≡ 0 ∷ 1 ∷ [])
    × (message_ids round ≡ "c0" ∷ "c1" ∷ "c2" ∷ "c3" ∷ [])
unfolding program
runs = (refl, refl)

executed-IsAuthorised_example :
    All (IsAuthorised core answers calls) (process_calls core answers 0 calls new_round).executed
executed-IsAuthorised_example = executed-IsAuthorised core answers calls

-- A blocked call of a session whose reader cancels the loop leaves a result and an error, and no message.
abbrev stopped : Round
stopped =
    process_calls (record core { mode = plan }) (λ i. record (say approved) { cancelled = true }) 1
      (record { id = "c1"; name = "deleteFile"; args = reasoned }
        ∷ record { id = "c2"; name = "readFile"; args = end }
        ∷ [])
      new_round

blocked_stops :
    (message_ids stopped ≡ [])
    × (result_ids stopped ≡ "c1" ∷ [])
    × (length stopped.errors ≡ 1)
    × (stopped.executed ≡ [])
unfolding program
blocked_stops = (refl, refl, refl, refl)

calls-AllUnblocked : AllUnblocked core calls
unfolding program
calls-AllUnblocked = (
  (λ h. absurd (ground arith)),
  (
    (λ h. absurd (ground arith)),
    (
      (λ h. absurd (ground arith)),
      ((λ h. absurd (ground arith)), ((λ h. absurd (ground arith)), tt)),
    ),
  ),
)

round-answered_example :
    (message_ids (process_calls core answers 0 calls new_round) ≡ answered_ids core answers 0 calls)
    × (result_ids (process_calls core answers 0 calls new_round)
        ≡ answered_ids core answers 0 calls)
round-answered_example = round-answered core answers calls calls-AllUnblocked

abbrev yes_ : Verdict
yes_ = record { approved = true; reason = "" }

abbrev idle : Approvals
idle = record { pending = []; decisions = [] }

abbrev decisions : List (String × Verdict)
decisions = ("other", no_verdict) ∷ ("act", yes_) ∷ []

idle-fresh : lookup "act" idle.decisions ≡ none
unfolding program
idle-fresh = refl

wakes_approved : (wake "act" (resolve_all decisions (register "act" idle))).0 ≡ yes_
unfolding program
wakes_approved = refl

approval-last_decides_example :
    IsSettled "act"
      (or_refused (last_for "act" none decisions))
      (wake "act" (resolve_all decisions (register "act" idle)))
    × IsSettled "act" no_verdict (time_out "act" (resolve_all decisions (register "act" idle)))
approval-last_decides_example = approval-last_decides "act" decisions idle idle-fresh

abbrev planner : Planner
planner = record {
  mode = plan;
  messages =
      record { role = "assistant"; tool_call_id = none; content = "" }
      ∷ record { role = "tool"; tool_call_id = some "c3"; content = "[计划已提交，等待审批]" }
      ∷ [];
  waits = false;
  decision = none;
}

planner-asked : any (has_answer "c3") planner.messages ≡ true
unfolding program
planner-asked = refl

-- Before a plan waits, a decision is refused.
too_early : decide_plan yes_ planner ≡ (false, planner)
unfolding program
too_early = refl

plan-IsOver_example :
    ((t : Planner) × (plan_decided "c3" "1. look"
          (decide_all (no_verdict ∷ yes_ ∷ []) (start_wait planner))
        ≡ some t)
      × IsOver "c3"
          (if (last_of no_verdict (yes_ ∷ [])).approved then agent else planner.mode)
          (plan_answer (last_of no_verdict (yes_ ∷ [])))
          t)
    × IsOver "c3" agent "[计划审批超时，已跳过]"
        (plan_timed_out "c3" (decide_all (no_verdict ∷ yes_ ∷ []) (start_wait planner)))
plan-IsOver_example = plan-IsOver "c3" "1. look" no_verdict (yes_ ∷ []) planner planner-asked
