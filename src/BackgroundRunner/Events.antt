-- ===== src/BackgroundRunner/Events.antt =====
-- What _runAgentLoop of gateway/service/AgentBackgroundRunner.py does with the events of one round of
-- the agent: the row of the session, its messages, and the buffer.
use nereus_door_loong_magic.Common.{
  ℕ, String, Bool, ◌&&◌, Option, none, some, List, [], ◌∷◌, ◌++◌, map, if◌then◌else◌, ◌==◌,
  text_append,
}
use nereus_door_loong_magic.Common.Json.{Json}
use nereus_door_loong_magic.EventBuffer.{Buffer, push}

-- class AgentEvent by its type, with the keys of `data` that are read; "" is the default of a key.
pub data AgentEvent : Type 0 where
  text_delta : (content : String) → AgentEvent
  tool_calling : (tool_calls : List Json) (usage : Option Json) → AgentEvent
  tool_result : (output call_id tool_name : String) → AgentEvent
  approval_required : (data_ : Json) → AgentEvent
  approval_resolved : AgentEvent
  error : (message : String) → AgentEvent
  choice_required : (data_ : Json) → AgentEvent
  choice_resolved : AgentEvent
  plan_proposed : AgentEvent
  plan_approved : (call_id tool_response : String) → AgentEvent
  plan_rejected : (reason call_id : String) → AgentEvent
  text_done : (usage : Option Json) → AgentEvent
  done : AgentEvent
  other : AgentEvent

-- class AgentMessageOrm
pub record Message : Type 0 where
  pub role : String
  pub content : Option String
  pub tool_call_id : Option String
  pub tool_calls : List Json
  pub round_index : ℕ

-- The columns of AgentSessionOrm that a round writes, and the session's messages.
pub record SessionRow : Type 0 where
  pub status : String
  pub mode : String
  pub last_error : Option String
  pub pending_approval : Option Json
  pub pending_choice : Option Json
  pub messages : List Message

-- The variables of a round; `usage` is `none` for an empty dict.
pub record Round : Type 0 where
  pub session : SessionRow
  pub buffer : Buffer
  pub assistant_parts : List String
  pub usage : Option Json

-- _formatAgentEvent, `"超时" in reason`, and `"".join(parts).strip()`
pub record Format : Type 0 where
  pub format : AgentEvent → Json
  pub is_timeout : String → Bool
  pub joined : List String → String

-- addMessage
unfoldable pub add_message : Message → SessionRow → SessionRow
add_message m r = record r { messages = r.messages ++ (m ∷ []) }

abbrev pub set_content : String → String → Message → Message
set_content call_id content m = elim m.tool_call_id [
  | none ↦ m
  | some id ↦ if m.role == "tool" && id == call_id then record m { content = some content } else m
]

-- updateToolResponse
unfoldable pub update_tool_response : String → String → SessionRow → SessionRow
update_tool_response call_id content r = record r {
  messages = map (set_content call_id content) r.messages;
}

abbrev pub user_message : ℕ → String → Message
user_message index text = record {
  role = "user";
  content = some text;
  tool_call_id = none;
  tool_calls = [];
  round_index = index;
}

abbrev pub assistant_message : ℕ → Option String → List Json → Message
assistant_message index text calls = record {
  role = "assistant";
  content = text;
  tool_call_id = none;
  tool_calls = calls;
  round_index = index;
}

abbrev pub tool_message : ℕ → String → String → Message
tool_message index output call_id = record {
  role = "tool";
  content = some output;
  tool_call_id = some call_id;
  tool_calls = [];
  round_index = index;
}

abbrev pub plan_answer : String → String
plan_answer reason = if reason == "" then "[计划被拒绝]" else text_append "[计划被拒绝] " reason

abbrev pub answer_call : String → String → SessionRow → SessionRow
answer_call call_id content r = if call_id == "" then r else update_tool_response call_id content r

-- What an event writes into the database.
unfoldable pub persist : Format → ℕ → AgentEvent → SessionRow → SessionRow
unfolding add_message update_tool_response
persist x index (tool_calling [] usage) r = r
persist x index (tool_calling (c ∷ calls) usage) r =
    add_message (assistant_message index none (c ∷ calls)) r
persist x index (tool_result output call_id name) r =
    add_message (tool_message index output call_id) r
persist x index (approval_required data_) r = record r {
  status = "waiting_approval";
  pending_approval = some data_;
}
persist x index approval_resolved r = record r { status = "running"; pending_approval = none }
persist x index (error message) r = record r {
  status = "error";
  last_error = some message;
  pending_approval = none;
}
persist x index (choice_required data_) r = record r {
  status = "waiting_choice";
  pending_choice = some data_;
}
persist x index choice_resolved r = record r { status = "running"; pending_choice = none }
persist x index plan_proposed r = record r { status = "waiting_plan" }
persist x index (plan_approved call_id response) r =
    answer_call call_id response (record r { mode = "agent"; status = "running" })
persist x index (plan_rejected reason call_id) r =
    let r' = answer_call call_id (plan_answer reason) (record r { status = "running" }) in
    if x.is_timeout reason then record r' { mode = "agent" } else r'
persist x index done r = record r { pending_approval = none }
persist x index _ r = r

abbrev pub parts_after : AgentEvent → List String → List String
parts_after (text_delta content) parts = parts ++ (content ∷ [])
parts_after _ parts = parts

abbrev pub usage_after : AgentEvent → Option Json → Option Json
usage_after (tool_calling calls usage) old = usage
usage_after (text_done usage) none = usage
usage_after _ old = old

-- The body of the loop over the events.
unfoldable pub handle_event : Format → ℕ → AgentEvent → Round → Round
unfolding persist
handle_event x index e s = record {
  session = persist x index e s.session;
  buffer = (push (x.format e) s.buffer).1;
  assistant_parts = parts_after e s.assistant_parts;
  usage = usage_after e s.usage;
}

unfoldable pub handle_events : Format → ℕ → List AgentEvent → Round → Round
unfolding handle_event
handle_events x index [] s = s
handle_events x index (e ∷ events) s = handle_events x index events (handle_event x index e s)

-- The final text of the assistant, where it is not empty.
abbrev pub add_final_text : Format → ℕ → Round → Round
add_final_text x index s =
    let text = x.joined s.assistant_parts in
    if text == ""
    then s
    else record s { session = add_message (assistant_message index (some text) []) s.session }

-- A round without an exception: the user's message, the events, and the final text.
unfoldable pub run_round : Format → ℕ → String → List AgentEvent → SessionRow → Buffer → Round
unfolding handle_events add_message
run_round x index text events r b = add_final_text x index (
    handle_events x index events (record {
      session = add_message (user_message index text) r;
      buffer = b;
      assistant_parts = [];
      usage = none;
    }))
