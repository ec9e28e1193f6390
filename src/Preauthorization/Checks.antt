-- ===== src/Preauthorization/Checks.antt =====
-- _checkStaticPreauthorization of agent/agent_core/agent_loop.py.
use nereus_door_loong_magic.Common.{
  String, Bool, true, false, not, ◌&&◌, Option, none, some, List, [], ◌∷◌, any, keep, contains,
  if◌then◌else◌, ◌==◌, text_append,
}
use nereus_door_loong_magic.Common.Json.{Fields}
use nereus_door_loong_magic.Preauthorization.{
  Texts, ApprovalPolicy, flatten_argument_values, extract_path_like_values, path_within,
  extract_privileged_commands, extract_command_line, command_matches, is_command_tool, paths_of,
  non_empty, is_nil,
}

-- ", ".join(words)
abbrev pub comma_join : List String → String
comma_join [] = ""
comma_join (w ∷ []) = w
comma_join (w ∷ ws) = text_append w (text_append ", " (comma_join ws))

-- The check of allowedPrivilegedCommands; `none` passes.
unfoldable pub check_privileged : Texts → ApprovalPolicy → String → Fields → Option String
unfolding extract_privileged_commands
check_privileged x p name args =
    if not (not (is_nil p.allowed_privileged_commands) && name == "submitElevation")
    then none
    else let requested = extract_privileged_commands x args in
      if is_nil requested
      then some "无法识别 submitElevation 请求的特权命令"
      else let denied = keep (λ cmd. not (contains cmd p.allowed_privileged_commands)) requested in
        if is_nil denied then none else some (text_append "特权命令未授权: " (comma_join denied))

-- The check of allowedCommands; `none` passes.
unfoldable pub check_commands : Texts → ApprovalPolicy → String → Fields → Option String
unfolding extract_command_line
check_commands x p name args = elim p.allowed_commands [
  | none ↦ none
  | some allowed ↦
      if not (is_command_tool name)
      then none
      else let cmd = extract_command_line x args in
        if cmd == ""
        then some "无法识别命令执行工具的命令内容"
        else if not (any (command_matches cmd) allowed)
        then some (text_append "命令未命中 allowedCommands 白名单: " (x.clip cmd))
        else if name == "runShellCommand" && x.has_control cmd
        then some (text_append "命令包含 shell 控制字符，不满足预授权放行: " (x.clip cmd))
        else none
]

-- The first of the denied paths that the path lies in.
unfoldable pub find_denied : Texts → List String → String → Option String
unfolding path_within
find_denied x [] path = none
find_denied x (d ∷ denied) path =
    let rest = find_denied x denied path in
    if path_within x path d
    then some (text_append "路径 " (text_append path (text_append " 命中 deniedPaths: " d)))
    else rest

unfoldable pub check_denied : Texts → List String → List String → Option String
unfolding find_denied
check_denied x denied [] = none
check_denied x denied (path ∷ paths) = elim (find_denied x denied path) [
  | none ↦ check_denied x denied paths
  | some reason ↦ some reason
]

unfoldable pub check_allowed : Texts → List String → List String → Option String
unfolding path_within
check_allowed x allowed [] = none
check_allowed x allowed (path ∷ paths) =
    let rest = check_allowed x allowed paths in
    if any (path_within x path) allowed
    then rest
    else some (text_append "路径 " (text_append path " 不在 allowedPaths 中"))

-- The checks of deniedPaths and allowedPaths; `none` passes.
unfoldable pub check_paths : Texts → ApprovalPolicy → Fields → Option String
unfolding extract_path_like_values flatten_argument_values check_denied check_allowed
check_paths x p args =
    let paths = paths_of x args in
    let allowed = non_empty p.allowed_paths in
    elim (check_denied x (non_empty p.denied_paths) paths) [
      | some reason ↦ some reason
      | none ↦
          if not (is_nil allowed) && not (is_nil paths) then check_allowed x allowed paths else none
    ]

-- _checkStaticPreauthorization
unfoldable pub check_static_preauthorization :
    Texts → ApprovalPolicy → String → Fields → Bool × String
unfolding check_privileged check_commands check_paths
check_static_preauthorization x p name args =
    if not (contains name p.allowed_tools)
    then (false, text_append "工具 " (text_append name " 不在 allowedTools 中"))
    else elim (check_privileged x p name args) [
      | some reason ↦ (false, reason)
      | none ↦ elim (check_commands x p name args) [
        | some reason ↦ (false, reason)
        | none ↦ elim (check_paths x p args) [
          | some reason ↦ (false, reason)
          | none ↦ (true, "工具和路径匹配 approvalPolicy")
        ]
      ]
    ]
