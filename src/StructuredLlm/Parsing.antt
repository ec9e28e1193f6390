-- ===== src/StructuredLlm/Parsing.antt =====
-- parseJsonObject of agent/llm_structured.py.
use nereus_door_loong_magic.Common.{
  String, Bool, not, ◌||◌, Option, none, some, if◌then◌else◌, ◌==◌, starts_with,
}
use nereus_door_loong_magic.Common.Json.{Json, object, Fields}
use nereus_door_loong_magic.StructuredLlm.{Parsed, value, invalid}

-- What the parser uses of texts: text.strip(), text.rstrip(), text.lower(), text.partition("\n") where
-- the separator is there, text.removeprefix("```"), text.endswith("```"), text[:-3], text[:4000],
-- text[:200], json.loads (`none` is the JSONDecodeError), and whether a number lies between 0 and 1.
pub record Tools : Type 0 where
  pub strip : String → String
  pub rstrip : String → String
  pub lower : String → String
  pub partition : String → Option (String × String)
  pub without_fence : String → String
  pub ends_with_fence : String → Bool
  pub drop_fence : String → String
  pub clip_text : String → String
  pub clip_reason : String → String
  pub loads : String → Option Json
  pub is_unit : String → Bool

abbrev pub load_object : Tools → String → Parsed Fields
load_object x t = elim (x.loads t) [
  | none ↦ invalid "不是合法 JSON"
  | some (object fields) ↦ value fields
  | some _ ↦ invalid "JSON 顶层必须是对象"
]

abbrev pub is_json_label : Tools → String → Bool
is_json_label x line =
    let label = x.lower (x.strip (x.without_fence line)) in label == "" || label == "json"

-- The text inside a block of code.
abbrev pub load_block : Tools → String → Parsed Fields
load_block x t = elim (x.partition t) [
  | none ↦ invalid "JSON 代码块缺少内容"
  | some (first_line, remainder) ↦
      if not (is_json_label x first_line)
      then invalid "代码块不是 JSON"
      else if not (x.ends_with_fence (x.rstrip remainder))
      then invalid "JSON 代码块未闭合"
      else load_object x (x.strip (x.drop_fence (x.rstrip remainder)))
]

-- parseJsonObject
unfoldable pub parse_json_object : Tools → String → Parsed Fields
parse_json_object x raw =
    let t = x.strip raw in
    if t == ""
    then invalid "响应内容为空"
    else if starts_with t "```"
    then load_block x t
    else load_object x t
