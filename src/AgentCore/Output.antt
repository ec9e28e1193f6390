-- ===== src/AgentCore/Output.antt =====
-- How the texts of tools reach the model in agent/agent_core/agent_loop.py.
use Prim.Native.String.{count}
use nereus_door_loong_magic.Common.{
  ℕ, ◌+◌, ◌-◌, min, String, Option, none, some, [], ◌∷◌, ◌++◌, if◌then◌else◌, leb, eqb, text_append,
}
use nereus_door_loong_magic.AgentCore.{Core, Answer, Round}

-- MAX_TOOL_OUTPUT_CHARS_FOR_MODEL and MAX_TOTAL_TOOL_OUTPUT_CHARS_PER_ROUND
abbrev pub max_tool_output : ℕ
max_tool_output = 1200

abbrev pub max_total_output : ℕ
max_total_output = 6000

abbrev pub omitted_text : String
omitted_text = "[工具输出省略] 本轮工具结果总量已达到回传模型上限。"

abbrev pub cut_text : String
cut_text = "[工具输出截断] 输出过长。"

abbrev pub truncated_text : Core → ℕ → String → String
truncated_text k limit t =
    text_append (k.take (limit - 60) t)
      (text_append "\n...[工具输出截断，原始长度 " (text_append (k.decimal (count t)) " 字符]"))

-- _fitToolOutputForModel; a budget that is used up is 0 here, and at most 0 there.
unfoldable pub fit_tool_output_for_model : Core → String → ℕ → ℕ → String
fit_tool_output_for_model k t per_tool remaining =
    let limit = min per_tool remaining in
    if eqb remaining 0
    then omitted_text
    else if leb (count t) limit
    then t
    else if leb limit 80
    then cut_text
    else truncated_text k limit t

-- What _appendToolMessage writes in place of an output that looks like an injection.
unfoldable pub sanitize : Core → Option String → String → String
sanitize k classified content =
    if k.flagged content then "[工具输出已过滤] 检测到输出包含提示词注入特征，未回传模型。" else elim classified [
      | none ↦ content
      | some confidence ↦
          text_append "[工具输出已过滤] 安全检测判定输出包含提示词注入意图（置信度 " (text_append confidence "），未回传模型。")
    ]

-- _appendToolMessage
unfoldable pub append_tool_message : Core → Answer → String → String → Round → Round
unfolding sanitize
append_tool_message k a call_id content r = record r {
  messages = r.messages ++ ((call_id, sanitize k a.classified content) ∷ []);
}

-- The end of most branches: the text is fitted, counted and appended.
unfoldable pub answer : Core → Answer → String → String → Round → Round
unfolding fit_tool_output_for_model append_tool_message
answer k a call_id output r =
    let fitted = fit_tool_output_for_model k output max_tool_output (max_total_output - r.total) in
    append_tool_message k a call_id fitted (record r { total = r.total + count fitted })
