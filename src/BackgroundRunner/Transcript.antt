-- ===== src/BackgroundRunner/Transcript.antt =====
-- The messages that a round of gateway/service/AgentBackgroundRunner.py leaves in the session.
use nereus_door_loong_magic.Common.{
  ℕ, ◌≡◌, String, Bool, false, not, ◌&&◌, Option, none, some, text_append, List, [], ◌∷◌, ◌++◌, map,
  if◌then◌else◌, ◌==◌,
}
use nereus_door_loong_magic.Common.Json.{Json}
use nereus_door_loong_magic.EventBuffer.{Buffer, push}
use nereus_door_loong_magic.BackgroundRunner.Events.{
  AgentEvent, text_delta, tool_calling, tool_result, plan_approved, plan_rejected, Message,
  SessionRow, Round, Format,
}

abbrev message :
    (role : String) (text call_id : Option String) (calls : List Json) (index : ℕ) → Message
message role text call_id calls index = record {
  role = role;
  content = text;
  tool_call_id = call_id;
  tool_calls = calls;
  round_index = index;
}

-- The message that an event adds.
abbrev pub left_by : ℕ → AgentEvent → List Message
left_by index (tool_calling (c ∷ calls) usage) =
    message "assistant" none none (c ∷ calls) index ∷ []
left_by index (tool_result output call_id name) =
    message "tool" (some output) (some call_id) [] index ∷ []
left_by index _ = []

abbrev answers_call : String → Message → Bool
answers_call call_id m = elim m.tool_call_id [
  | none ↦ false
  | some id ↦ m.role == "tool" && id == call_id
]

-- The answer of a tool with the text in its place, if it answers that call.
abbrev with_text : String → String → Message → Message
with_text call_id text m =
    if not (call_id == "") && answers_call call_id m then record m { content = some text } else m

-- What the decision on a plan makes of an earlier message.
abbrev pub decided : AgentEvent → Message → Message
decided (plan_approved call_id response) m = with_text call_id response m
decided (plan_rejected reason call_id) m =
    with_text call_id (if reason == "" then "[计划被拒绝]" else text_append "[计划被拒绝] " reason) m
decided _ m = m

abbrev pub decided_by : List AgentEvent → Message → Message
decided_by [] m = m
decided_by (e ∷ events) m = decided_by events (decided e m)

-- The messages that the events add, as the events behind each leave it.
abbrev pub all_left_by : ℕ → List AgentEvent → List Message
all_left_by index [] = []
all_left_by index (e ∷ events) =
    map (decided_by events) (left_by index e) ++ all_left_by index events

abbrev pub deltas : List AgentEvent → List String
deltas [] = []
deltas (text_delta content ∷ events) = content ∷ deltas events
deltas (_ ∷ events) = deltas events

abbrev pub final_message : Format → ℕ → List AgentEvent → List Message
final_message x index events =
    let text = x.joined (deltas events) in
    if text == "" then [] else message "assistant" (some text) none [] index ∷ []

-- The buffer after events were pushed, one after the other.
abbrev pub push_all : List Json → Buffer → Buffer
push_all [] b = b
push_all (e ∷ events) b = push_all events (push e b).1

-- What a round leaves: the messages of the session and the user's, as the decisions on plans leave
-- them, the messages of the events, and the text of the assistant; the parts of that text; and the
-- buffer with the events pushed in their order.
pub record IsTranscript (x : Format) (index : ℕ) (text : String) (events : List AgentEvent)
    (r : SessionRow) (b : Buffer) (s : Round) : Type 0 where
  pub messages :
      s.session.messages
      ≡ map (decided_by events) (r.messages ++ (message "user" (some text) none [] index ∷ []))
        ++ (all_left_by index events ++ final_message x index events)
  pub parts : s.assistant_parts ≡ deltas events
  pub pushed_ : s.buffer ≡ push_all (map x.format events) b
