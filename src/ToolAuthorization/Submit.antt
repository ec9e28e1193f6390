-- ===== src/ToolAuthorization/Submit.antt =====
-- submitRequest of gateway/service/ToolAuthorizationService.py.
use nereus_door_loong_magic.Common.{
  ℕ, String, Bool, true, false, ◌||◌, Option, none, some, List, [], ◌∷◌, any, if◌then◌else◌, ◌==◌,
  text_append, or_text,
}
use nereus_door_loong_magic.Crypto.{Primitives, hash_cmd}
use nereus_door_loong_magic.Elevation.{Command}
use nereus_door_loong_magic.Elevation.Codes
use nereus_door_loong_magic.Elevation.Codes.{generate_code}
use nereus_door_loong_magic.Common.Json.{Fields}
use nereus_door_loong_magic.Preauthorization.{
  Texts, is_command_tool, extract_command_line, paths_of,
}
use nereus_door_loong_magic.ToolAuthorization.{Row, Service, find_pending, pending}

-- submitRequest, its arguments, and the code that the elevation service draws.
pub record Submission : Type 0 where
  pub session_id : String
  pub tool_name : String
  pub paths : List String
  pub command_line : Option String
  pub reason : Option String
  pub source_type : String
  pub task_id : Option ℕ
  pub ttl_seconds : ℕ
  pub max_runs : ℕ
  pub drawn : String

-- The command line of a command tool, which goes through the channel of inline commands.
abbrev pub inline_of : Submission → Option String
inline_of q =
    if q.tool_name == "runShellCommand" || q.tool_name == "runCommand"
    then (elim q.command_line [ none ↦ none | some c ↦ if c == "" then none else some c ])
    else none

abbrev pub commands_of : Option String → List Command
commands_of none = []
commands_of (some c) = record { command = some "exec_arbitrary_cmd"; args = some (c ∷ []) } ∷ []

abbrev pub code_request : Primitives → Submission → Codes.Request
code_request c q = record {
  session_id = q.session_id;
  commands = commands_of (inline_of q);
  reason = or_text q.reason (text_append "工具授权请求: " q.tool_name);
  ttl_seconds = q.ttl_seconds;
  max_ops = q.max_runs;
  code = none;
  drawn = q.drawn;
  inline_cmd = inline_of q;
  inline_cmd_hash = elim (inline_of q) [ none ↦ none | some cmd ↦ some (hash_cmd c cmd) ];
  script_path = none;
  script_hash = none;
  request_type = "tool_authorization";
  task_id = q.task_id;
  approval_policy = none;
  expire_previous = false;
}

-- createRequest
abbrev pub new_row : Submission → String → ℕ → Row
new_row q code now = record {
  code = code;
  session_id = q.session_id;
  source_type = q.source_type;
  task_id = q.task_id;
  tool_name = q.tool_name;
  paths = q.paths;
  command_line = q.command_line;
  status = pending;
  ttl_seconds = q.ttl_seconds;
  max_runs = q.max_runs;
  created_at = now;
  approved_by = none;
  reject_reason = none;
  token_id = none;
  grant = none;
}

-- submitRequest: the code, and whether it was created; `none` is the error of the table's unique
-- index, where the code that was drawn is taken.
unfoldable pub submit_request :
    Primitives → Submission → ℕ → Service → Option (String × Bool) × Service
unfolding find_pending
submit_request c q now s = elim (find_pending q.session_id q.tool_name q.command_line s.rows) [
  | some r ↦ (some (r.code, false), s)
  | none ↦
      let (e, elevation) = generate_code (code_request c q) now s.elevation in
      if any (λ r. e.code == r.code) s.rows then (none, record s { elevation = elevation }) else (
        some (e.code, true),
        record s { rows = new_row q e.code now ∷ s.rows; elevation = elevation },
      )
]

-- _submitAuthorizationRequest of agent/agent_core/agent_loop.py, which hands over neither a source
-- nor a task: the request of a call that the policy does not cover.
abbrev pub command_line_of : Texts → String → Fields → Option String
command_line_of x name args =
    let cmd = if is_command_tool name then extract_command_line x args else "" in
    if cmd == "" then none else some cmd

abbrev pub submission_of : Texts → String → Fields → String → String → ℕ → ℕ → String → Submission
submission_of x name args session reason ttl runs drawn = record {
  session_id = session;
  tool_name = name;
  paths = paths_of x args;
  command_line = command_line_of x name args;
  reason = some reason;
  source_type = "manual";
  task_id = none;
  ttl_seconds = ttl;
  max_runs = runs;
  drawn = drawn;
}
