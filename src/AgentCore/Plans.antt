-- ===== src/AgentCore/Plans.antt =====
-- The plan that agent/agent_core/agent_loop.py waits for: approvePlan and rejectPlan leave a decision,
-- and _waitForPlanApproval switches the mode and writes the outcome into the history.
use nereus_door_loong_magic.Common.{
  String, Bool, true, false, ◌&&◌, Option, none, some, List, [], ◌∷◌, ◌++◌, ◌==◌, if◌then◌else◌,
  text_append,
}
use nereus_door_loong_magic.Safety.{Mode, agent}
use nereus_door_loong_magic.AgentCore.Approvals.{Verdict}

-- An entry of the history.
pub record Message : Type 0 where
  pub role : String
  pub tool_call_id : Option String
  pub content : String

-- _mode, _msgs, whether _pendingPlanApproval is set, and _planApprovalDecision.
pub record Planner : Type 0 where
  pub mode : Mode
  pub messages : List Message
  pub waits : Bool
  pub decision : Option Verdict

-- approvePlan and rejectPlan, by the verdict
unfoldable pub decide_plan : Verdict → Planner → Bool × Planner
decide_plan v s = if s.waits then (true, record s { decision = some v }) else (false, s)

abbrev pub has_answer : String → Message → Bool
has_answer call_id m = elim m.tool_call_id [
  | none ↦ false
  | some id ↦ m.role == "tool" && id == call_id
]

-- _updateToolResponse: the first message of the tool call
unfoldable pub update_answer : String → String → List Message → List Message
update_answer call_id content [] = []
update_answer call_id content (m ∷ ms) =
    let rest = update_answer call_id content ms in
    if has_answer call_id m then record m { content = content } ∷ ms else m ∷ rest

abbrev pub say : String → String → Message
say role content = record { role = role; tool_call_id = none; content = content }

-- The start of _waitForPlanApproval.
unfoldable pub start_wait : Planner → Planner
start_wait s = record s { waits = true }

-- The three ends of _waitForPlanApproval; `plan` is formatPlanForPrompt of the plan.
unfoldable pub plan_timed_out : String → Planner → Planner
unfolding update_answer
plan_timed_out call_id s = record {
  mode = agent;
  messages =
      update_answer call_id "[计划审批超时，已跳过]" s.messages
      ++ (say "system" "计划审批超时，已切换到标准模式。请直接告诉用户你需要做什么。" ∷ []);
  waits = false;
  decision = none;
}

abbrev pub plan_approved : String → String → Planner → Planner
plan_approved call_id plan s = record {
  mode = agent;
  messages =
      update_answer call_id "[计划已批准，开始执行]" s.messages
      ++ (say "system" (text_append "## 已批准的执行计划\n\n" plan) ∷ say "user" "开始实施" ∷ []);
  waits = false;
  decision = none;
}

abbrev pub plan_rejected : String → String → Planner → Planner
plan_rejected call_id reason s =
    let feedback : String = if reason == "" then "请调整计划" else reason in
    record {
      mode = s.mode;
      messages =
          update_answer call_id (text_append "[计划被拒绝] " feedback) s.messages
          ++ (say "user" (text_append "计划需要修改：" (text_append feedback "\n\n请根据反馈重新生成计划。")) ∷ []);
      waits = false;
      decision = none;
    }

-- The event was set, so that there is a decision; `none` stands for the TypeError where there is none.
unfoldable pub plan_decided : String → String → Planner → Option Planner
unfolding update_answer
plan_decided call_id plan s = elim s.decision [
  | none ↦ none
  | some v ↦
      some (if v.approved then plan_approved call_id plan s else plan_rejected call_id v.reason s)
]
