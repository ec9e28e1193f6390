-- ===== src/Preauthorization/Decision.antt =====
-- _matchApprovedGrant and _isPreAuthorizedToolCall of agent/agent_core/agent_loop.py.
use nereus_door_loong_magic.Common.{
  ℕ, zero, suc, String, Bool, true, false, not, ◌&&◌, ◌||◌, Option, none, some, List, [], ◌++◌, any,
  if◌then◌else◌, ◌==◌, text_append,
}
use nereus_door_loong_magic.Common.Json.{Fields}
use nereus_door_loong_magic.Safety.{occurs_in}
use nereus_door_loong_magic.Preauthorization.{
  Texts, ApprovalPolicy, Grant, flatten_argument_values, extract_path_like_values, path_within,
  extract_command_line, command_matches, is_command_tool, paths_of, non_empty, is_nil,
}
use nereus_door_loong_magic.Preauthorization.Checks.{check_static_preauthorization}

-- The body of the loop of _matchApprovedGrant, for one grant.
unfoldable pub grant_covers : Texts → String → List String → String → Grant → Bool
unfolding path_within
grant_covers x name paths cmd g =
    if not (g.tool_name == name)
    then false
    else let granted_paths = non_empty g.paths in
      if not (is_nil granted_paths)
        && not (is_nil paths)
        && not (any (λ p. any (path_within x p) granted_paths) paths)
      then false
      else if not (g.command_line == "")
          && not (cmd == "")
          && not (command_matches cmd g.command_line)
      then false
      else true

-- _matchApprovedGrant
unfoldable pub match_approved_grant : Texts → List Grant → String → Fields → Bool
unfolding grant_covers extract_path_like_values flatten_argument_values extract_command_line
match_approved_grant x grants name args =
    let paths = paths_of x args in
    let cmd = if is_command_tool name then extract_command_line x args else "" in
    any (grant_covers x name paths cmd) grants

-- ToolAuthorizationService().listApprovedGrants(sessionId, taskId, sourceType); `none` is an exception
abbrev pub Lookup : Type 0
Lookup = Option String → Option ℕ → Option String → Option (List Grant)

-- What the core knows of its run: sessionId, _autoRunTaskId and _autoRunSource.
pub record Run : Type 0 where
  pub session_id : Option String
  pub task_id : Option ℕ
  pub source : Option String

abbrev pub append_grants : Option (List Grant) → Option (List Grant) → Option (List Grant)
append_grants (some gs) (some hs) = some (gs ++ hs)
append_grants _ _ = none

-- source == "inspection"
abbrev pub is_inspection : Option String → Bool
is_inspection none = false
is_inspection (some s) = s == "inspection"

-- The grants of the session, of the task and of the inspection that apply to the run.
unfoldable pub collect_grants : Lookup → Run → Option (List Grant)
collect_grants service r =
    let in_session : Option (List Grant) = elim r.session_id [
      | none ↦ some []
      | some s ↦ if s == "" then some [] else service (some s) none none
    ] in
    let of_task : Option (List Grant) = elim r.task_id [
      | none ↦ some []
      | some t ↦ service none (some t) (some "scheduled")
    ] in
    let of_inspection : Option (List Grant) =
      if is_inspection r.source then service none none (some "inspection") else some [] in
    append_grants (append_grants in_session of_task) of_inspection

abbrev pub is_text : Option String → Bool
is_text none = false
is_text (some s) = not (s == "")

abbrev pub is_task : Option ℕ → Bool
is_task none = false
is_task (some zero) = false
is_task (some (suc n)) = true

-- _isPreAuthorizedToolCall
unfoldable pub is_pre_authorized_tool_call :
    Texts → ApprovalPolicy → Lookup → Run → String → Fields → Bool × String
unfolding check_static_preauthorization collect_grants match_approved_grant occurs_in
is_pre_authorized_tool_call x p service r name args =
    let (ok, reason) = check_static_preauthorization x p name args in
    if ok
    then (true, reason)
    else if occurs_in "deniedPaths" reason
    then (false, reason)
    else if not (is_text r.session_id || is_task r.task_id || is_text r.source)
    then (false, reason)
    else elim (collect_grants service r) [
      | none ↦ (false, reason)
      | some grants ↦
          if match_approved_grant x grants name args
          then (true, text_append "命中已批准的授权请求（静态: " (text_append reason "）"))
          else (false, reason)
    ]
