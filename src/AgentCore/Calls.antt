-- ===== src/AgentCore/Calls.antt =====
-- The state EXECUTING of _runLoop in agent/agent_core/agent_loop.py: one call of a tool after the
-- other.
use nereus_door_loong_magic.Common.{
  ℕ, suc, String, Bool, true, false, not, ◌&&◌, ◌||◌, none, some, List, [], ◌∷◌, ◌++◌,
  if◌then◌else◌, ◌==◌, eqb, leb, text_append, contains,
}
use nereus_door_loong_magic.Common.Json.{object, Fields}
use nereus_door_loong_magic.Safety.{
  read_only, Verdict, allow, require_confirm, block, risk_eq, check_tool_call_with_reason,
}
use nereus_door_loong_magic.Preauthorization.{get}
use nereus_door_loong_magic.Preauthorization.Decision.{is_pre_authorized_tool_call}
use nereus_door_loong_magic.AgentCore.{
  Call, approved, rejected, timed_out, Answer, Core, Round, truthy, pop,
}
use nereus_door_loong_magic.AgentCore.Output.{append_tool_message, answer}

abbrev pub call_id : Call → Answer → String
call_id c a = if c.id == "" then a.drawn else c.id

-- `stream.emit(EventType.TOOL_RESULT, ...)`
abbrev pub emit_result : String → Bool → String → Round → Round
emit_result id success output r = record r {
  results = r.results ++ (record { call_id = id; success = success; output = output } ∷ []);
}

-- _executeTool, with what it returns
abbrev pub execute_tool : ℕ → String → Fields → Round → Round
execute_tool index name args r = record r {
  executed = r.executed ++ (record { index = index; name = name; args = args } ∷ []);
}

-- The branch of ask_choice.
unfoldable pub ask_choice : Core → Call → Answer → Round → Round
unfolding answer
ask_choice k c a r = answer k a (call_id c a) a.choice (emit_result (call_id c a) true a.choice r)

-- The branch of submitPlan.
unfoldable pub submit_plan : Core → Call → Answer → Round → Round
unfolding append_tool_message
submit_plan k c a r =
    let id = call_id c a in
    elim (k.plan_error c.args) [
      | some error ↦
          let output : String = text_append "[计划格式错误] " error in
          append_tool_message k a id output (emit_result id false output r)
      | none ↦
          let output : String = "[计划已提交，等待审批]" in
          record (append_tool_message k a id output (emit_result id true output r)) {
            pending_plan = some id;
          }
    ]

-- The branch of a call beyond the limit of calls in a round.
unfoldable pub skip_call : Core → Call → Answer → Round → Round
unfolding append_tool_message
skip_call k c a r =
    let output : String =
      text_append "[跳过] 本轮工具调用数量超过上限 "
        (text_append (k.decimal k.max_tool_calls_per_round) "，请分批继续测试。") in
    append_tool_message k a (call_id c a) output (emit_result (call_id c a) false output r)

abbrev pub native_reason_tools : List String
native_reason_tools =
    "submitElevation" ∷ "runPrivileged" ∷ "writePrivilegedFile" ∷ "nginxWriteStaticFile" ∷ []

abbrev pub needs_reason : Core → Call → Bool
needs_reason k c = not (risk_eq (k.risk_of c.name) read_only)

-- The arguments that the rules see and the tool gets.
abbrev pub stripped_args : Core → Call → Fields
stripped_args k c =
    if needs_reason k c && not (contains c.name native_reason_tools)
    then pop "reason" c.args
    else c.args

abbrev pub has_reason : Core → Call → Bool
has_reason k c = truthy k.texts (get "reason" c.args)

-- The branch of a call that gives no reason.
unfoldable pub ask_reason : Core → Call → Answer → Round → Round
unfolding answer
ask_reason k c a r =
    let output : String =
      text_append "[缺少 reason 参数] 调用 "
        (text_append c.name " 时必须填写 reason 参数说明调用原因和目的，请补充 reason 后重新调用。") in
    answer k a (call_id c a) output (emit_result (call_id c a) false output r)

-- `stream.emit(EventType.ERROR, ...)`
abbrev pub emit_error : String → Round → Round
emit_error message r = record r { errors = r.errors ++ (message ∷ []) }

-- The branch of a call that the rules block. The ERROR event ends the stream for its reader; where the
-- cancellation that follows comes before _appendToolMessage is done, the call gets no message.
unfoldable pub refuse : Core → Call → Answer → String → Round → Round
unfolding answer
refuse k c a reason r =
    let output : String = text_append "[阻塞] " reason in
    let r' = emit_error output (emit_result (call_id c a) false output r) in
    if a.cancelled then r' else answer k a (call_id c a) output r'

-- The end of a call that ran, or that the user did not approve.
unfoldable pub report : Core → Call → Answer → String → Round → Round
unfolding answer
report k c a output r =
    answer k a (call_id c a) output (emit_result (call_id c a) true (k.take 2000 output) r)

-- _executeTool and the end of the call
unfoldable pub run_tool : Core → ℕ → Call → Answer → Round → Round
unfolding report
run_tool k index c a r = report k c a a.output (execute_tool index c.name (stripped_args k c) r)

-- _handleApproval and the end of the call
unfoldable pub handle_approval : Core → ℕ → Call → Answer → Round → Round
unfolding run_tool
handle_approval k index c a r = elim a.decision [
  | approved ↦ run_tool k index c a r
  | rejected reason ↦
      report k c a
        (text_append "[用户拒绝] 工具 " (
          text_append c.name (text_append " 未执行。原因: " (if reason == "" then "用户拒绝执行" else reason))))
        r
  | timed_out ↦ report k c a (text_append "[审批超时] 工具 " (text_append c.name " 未在规定时间内获得批准，已跳过执行")) r
]

-- The branch of a call that the policy of an unattended run does not cover.
unfoldable pub request_authorization : Core → Call → Answer → String → String → Round → Round
unfolding answer
request_authorization k c a reason policy_reason r =
    let output : String = text_append "[授权请求已提交] 工具 " (
      text_append c.name (
        text_append " 不在预授权范围内，本次跳过未执行；管理员批准后后续运行将自动放行。\n审批命令: sudo nereus approve " (
          text_append a.request_code (
            text_append "\n安全原因: "
              (text_append reason (text_append "; 匹配结果: " policy_reason)))))) in
    answer k a (call_id c a) output (emit_result (call_id c a) false output r)

abbrev pub is_unattended : Core → Bool
is_unattended k = k.non_interactive_approvals || k.auto_approve_scheduled

abbrev pub pre_authorized : Core → Call → Bool × String
pre_authorized k c =
    is_pre_authorized_tool_call k.texts k.scheduled_approval_policy k.grants k.run c.name
      (stripped_args k c)

-- The branch of a call that wants a confirmation.
unfoldable pub confirm : Core → ℕ → Call → Answer → String → Round → Round
unfolding run_tool handle_approval request_authorization
confirm k index c a reason r =
    if is_unattended k
    then (let (allowed, policy_reason) = pre_authorized k c in
        if allowed
        then run_tool k index c a r
        else request_authorization k c a reason policy_reason r)
    else handle_approval k index c a r

abbrev pub verdict_of : Core → Call → Verdict × String
verdict_of k c =
    check_tool_call_with_reason k.regex k.safety c.name (k.risk_of c.name)
      (object (stripped_args k c)) k.mode

-- A call behind the special tools, by the verdict of the rules.
unfoldable pub check_call : Core → ℕ → Call → Answer → Round → Round
unfolding ask_reason refuse confirm run_tool check_tool_call_with_reason
check_call k index c a r =
    if needs_reason k c && not (has_reason k c)
    then ask_reason k c a r
    else elim (verdict_of k c).0 [
      | block ↦ refuse k c a (verdict_of k c).1 r
      | require_confirm ↦ confirm k index c a (verdict_of k c).1 r
      | allow ↦ run_tool k index c a r
    ]

abbrev pub is_beyond : Core → ℕ → Bool
is_beyond k index = not (eqb k.max_tool_calls_per_round 0) && leb k.max_tool_calls_per_round index

-- The body of the loop over the calls.
unfoldable pub process_call : Core → ℕ → Call → Answer → Round → Round
unfolding ask_choice submit_plan skip_call check_call
process_call k index c a r =
    if c.name == "ask_choice"
    then ask_choice k c a r
    else if c.name == "submitPlan"
    then submit_plan k c a r
    else if is_beyond k index
    then skip_call k c a r
    else check_call k index c a r

-- An ERROR event was emitted, and the task is cancelled.
abbrev pub is_cancelled : Answer → Round → Bool
is_cancelled a r = a.cancelled && (elim r.errors [ [] ↦ false | message ∷ errors ↦ true ])

-- What follows a call: `rest` is the round after the calls behind it.
unfoldable pub go_on : Answer → Round → Round → Round
go_on a r rest = elim r.pending_plan [ none ↦ if is_cancelled a r then r else rest | some id ↦ r ]

-- The loop, which a plan that was accepted ends, and the cancellation after an ERROR event.
unfoldable pub process_calls : Core → (ℕ → Answer) → ℕ → List Call → Round → Round
unfolding process_call go_on
process_calls k answers index [] r = r
process_calls k answers index (c ∷ calls) r =
    let r' = process_call k index c (answers index) r in
    let rest = process_calls k answers (suc index) calls r' in go_on (answers index) r' rest
