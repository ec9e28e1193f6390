-- ===== src/AgentCore.antt =====
-- agent/agent_core/agent_loop.py: what AgentCore does with the calls of tools that the language model
-- asks for in one round. The rules, the preauthorization and the user's decisions are those of Safety
-- and Preauthorization.
pub mod Output
pub mod Calls
pub mod Justified
pub mod Answered
pub mod Rounds
pub mod Approvals
pub mod Plans
pub mod PlanOutcome
mod Tests
use Prim.Native.String.{count}
use nereus_door_loong_magic.Common.{
  ℕ, ◌+◌, String, Bool, true, false, not, Option, none, some, List, [], ◌∷◌, ◌++◌, if◌then◌else◌,
  ◌==◌,
}
use nereus_door_loong_magic.Common.Json.{
  Json, null, bool, number, text, array, object, nil, cons, Fields, end, field,
}
use nereus_door_loong_magic.Safety.{RiskLevel, Mode, Regex, Policy}
use nereus_door_loong_magic.Preauthorization.{Texts, ApprovalPolicy}
use nereus_door_loong_magic.Preauthorization.Decision.{Lookup, Run}

-- An entry of response.tool_calls.
pub record Call : Type 0 where
  pub id : String
  pub name : String
  pub args : Fields

-- What the user answers to a request for approval, or that the time is over.
pub data Decision : Type 0 where
  approved : Decision
  rejected : (reason : String) → Decision
  timed_out : Decision

-- What comes from outside while a call is handled: the id drawn for a call without one, the answer to
-- a multiple choice as JSON text, the decision of the user, what _executeTool returns, the code of an
-- authorization request, and the confidence with which the classifier, where it looks at the output,
-- takes it for an injection. `cancelled` says that the task of the loop is cancelled at the end of the
-- call: AgentSession.submit does so where its reader of the stream has seen an ERROR event.
pub record Answer : Type 0 where
  pub drawn : String
  pub choice : String
  pub decision : Decision
  pub output : String
  pub request_code : String
  pub classified : Option String
  pub cancelled : Bool

-- The fields of AgentCore that a round reads; `risk_of` is getRiskLevel of the registry, `plan_error`
-- the ValueError of planFromSubmitArgs, `flagged` is checkPromptInjection, `decimal` is str of a
-- number and `take n` is text[:n].
pub record Core : Type 0 where
  pub regex : Regex
  pub safety : Policy
  pub texts : Texts
  pub risk_of : String → RiskLevel
  pub mode : Mode
  pub max_tool_calls_per_round : ℕ
  pub non_interactive_approvals : Bool
  pub auto_approve_scheduled : Bool
  pub scheduled_approval_policy : ApprovalPolicy
  pub grants : Lookup
  pub run : Run
  pub plan_error : Fields → Option String
  pub flagged : String → Bool
  pub decimal : ℕ → String
  pub take : ℕ → String → String

-- A call of _executeTool: the number of the tool call, its name and its arguments.
pub record Execution : Type 0 where
  pub index : ℕ
  pub name : String
  pub args : Fields

-- A TOOL_RESULT event.
pub record Result : Type 0 where
  pub call_id : String
  pub success : Bool
  pub output : String

-- The state of the round: totalToolOutputChars, the messages of tools that were appended (the id of
-- the call, and the text), the TOOL_RESULT events, the tools executed, the call id of a plan that waits, and the ERROR events.
pub record Round : Type 0 where
  pub total : ℕ
  pub messages : List (String × String)
  pub results : List Result
  pub executed : List Execution
  pub pending_plan : Option String
  pub errors : List String

-- The start of the state EXECUTING.
abbrev pub new_round : Round
new_round = record {
  total = 0;
  messages = [];
  results = [];
  executed = [];
  pending_plan = none;
  errors = [];
}

-- `if value` of a JSON value
abbrev pub truthy : Texts → Json → Bool
truthy x null = false
truthy x (bool b) = b
truthy x (number n) = not (x.is_zero n)
truthy x (text t) = not (t == "")
truthy x (array nil) = false
truthy x (array (cons v items)) = true
truthy x (object end) = false
truthy x (object (field k v fields)) = true

-- `args.pop(key)`: what is left
unfoldable pub pop : String → Fields → Fields
pop k end = end
pop k (field j v fields) = let rest = pop k fields in if j == k then rest else field j v rest
