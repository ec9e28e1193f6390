-- ===== src/Context.antt =====
-- agent/context_mgmt/compressor.py: compressHistory with _groupMessages and _buildSummary.
pub mod Units
pub mod Groups
mod Tests
use nereus_door_loong_magic.Common.{
  ℕ, zero, suc, ◌+◌, ◌-◌, ◌/◌, String, Bool, true, false, not, ◌&&◌, Option, none, some, List, [],
  ◌∷◌, ◌++◌, if◌then◌else◌, ◌==◌, leb, length, take, drop, keep, text_append,
}

-- A message, as far as the compressor reads it: whether `tool_calls` is there and not empty, and
-- str(content) with its length.
pub record Message : Type 0 where
  pub role : String
  pub has_tool_calls : Bool
  pub tool_call_id : String
  pub content : String
  pub size : ℕ

pub record Texts : Type 0 where
  -- text[:n]
  pub clip : ℕ → String → String
  -- text.strip()
  pub strip : String → String
  -- str(n)
  pub decimal : ℕ → String

abbrev pub opens_unit : Message → Bool
opens_unit m = m.role == "assistant" && m.has_tool_calls

abbrev pub is_tool : Message → Bool
is_tool m = m.role == "tool"

abbrev pub is_system : Message → Bool
is_system m = m.role == "system"

-- The loops of _groupMessages: the unit that takes the tool messages that come next, if one is open,
-- and the messages from the index on.
unfoldable pub group_from : Option (List Message) → List Message → List (List Message)
group_from none [] = []
group_from (some unit) [] = unit ∷ []
group_from none (m ∷ ms) = elim (opens_unit m) [
  | true ↦ group_from (some (m ∷ [])) ms
  | false ↦ (m ∷ []) ∷ group_from none ms
]
group_from (some unit) (m ∷ ms) = elim (is_tool m) [
  | true ↦ group_from (some (unit ++ (m ∷ []))) ms
  | false ↦ elim (opens_unit m) [
    | true ↦ unit ∷ group_from (some (m ∷ [])) ms
    | false ↦ unit ∷ (m ∷ []) ∷ group_from none ms
  ]
]

-- _groupMessages
unfoldable pub group_messages : List Message → List (List Message)
unfolding group_from
group_messages ms = group_from none ms

abbrev pub flatten : List (List Message) → List Message
flatten [] = []
flatten (unit ∷ units) = unit ++ flatten units

abbrev pub total_chars : List Message → ℕ
total_chars [] = 0
total_chars (m ∷ ms) = m.size + total_chars ms

-- units[:-n] and units[-n:]; -0 is 0, so that n = 0 keeps every unit as recent
unfoldable pub older_units : ℕ → List (List Message) → List (List Message)
older_units zero units = []
older_units (suc n) units = take (length units - suc n) units

unfoldable pub recent_units : ℕ → List (List Message) → List (List Message)
recent_units zero units = units
recent_units (suc n) units = drop (length units - suc n) units

abbrev pub topics_of : Texts → List Message → List String
topics_of x [] = []
topics_of x (m ∷ ms) =
    if m.role == "user" && not (x.clip 80 m.content == "")
    then x.clip 50 (x.clip 80 m.content) ∷ topics_of x ms
    else topics_of x ms

abbrev pub semicolon_join : List String → String
semicolon_join [] = ""
semicolon_join (t ∷ []) = t
semicolon_join (t ∷ ts) = text_append t (text_append "; " (semicolon_join ts))

abbrev pub topic_text : List String → String
topic_text [] = "无"
topic_text (t ∷ ts) = semicolon_join (take 5 (t ∷ ts))

abbrev pub tool_text : Texts → ℕ → String
tool_text x zero = ""
tool_text x (suc n) = text_append "使用了 " (text_append (x.decimal (suc n)) " 个工具")

-- _buildSummary
unfoldable pub build_summary : Texts → List Message → String
build_summary x ms = x.strip (
    text_append "用户之前询问了: " (
      text_append (topic_text (topics_of x ms))
        (text_append ". " (text_append (tool_text x (length (keep is_tool ms))) "."))))

-- The message that stands for the older ones; its length is not read again.
abbrev pub summary_message : Texts → List Message → Message
summary_message x older = record {
  role = "system";
  has_tool_calls = false;
  tool_call_id = "";
  content = text_append "[对话历史摘要] " (build_summary x older);
  size = 0;
}

abbrev pub summarised : Texts → List Message → List Message
summarised x [] = []
summarised x (m ∷ older) = summary_message x (m ∷ older) ∷ []

-- compressHistory, with int(maxTokens * compressionThreshold) as the argument `threshold_tokens`
unfoldable pub compress_history :
    Texts → (max_recent threshold_tokens : ℕ) → List Message → List Message
unfolding group_messages older_units recent_units build_summary
compress_history x max_recent threshold_tokens messages =
    let others = keep (λ m. not (is_system m)) messages in
    let units = group_messages others in
    if leb (total_chars others / 2) threshold_tokens
    then messages
    else keep is_system messages
      ++ (summarised x (flatten (older_units max_recent units))
          ++ flatten (recent_units max_recent units))
