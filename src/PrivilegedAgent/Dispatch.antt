-- ===== src/PrivilegedAgent/Dispatch.antt =====
-- privileged_agent/server.py: _dispatch_v2_command.
use nereus_door_loong_magic.Common.{
  String, true, Option, none, some, List, [], ◌∷◌, if◌then◌else◌, ◌==◌, inl, inr, join,
}
use nereus_door_loong_magic.Common.Json.{
  Json, text, bool, number, array, object, field, end, text_items,
}
use nereus_door_loong_magic.PrivilegedAgent.Validator.{Rule, is_given}
use nereus_door_loong_magic.PrivilegedAgent.Scripts.{
  internal_error, unknown_action, Finished, System, TextTools, Action, run_process, write_file,
  Outcome, done, failed, run_command, run_script,
}

-- rule.command_line.split(), a text method
pub record Splitter : Type 0 where
  pub split : String → List String

abbrev pub first_arg : List String → String
first_arg [] = ""
first_arg (a ∷ args) = a

abbrev pub second_arg : List String → String
second_arg (a ∷ b ∷ args) = b
second_arg _ = ""

-- Run one command, and build the answer from its result.
abbrev pub run_then : System → List String → (Finished → Json) → Outcome × List Action
run_then sys argv answer = elim (run_command sys argv) [
  | inl f ↦ (done (answer f), run_process argv ∷ [])
  | inr code ↦ (failed code, run_process argv ∷ [])
]

-- {"command": ..., "args": ..., KEY: True}
abbrev pub flagged : String → List String → String → Json
flagged command args key = object (
    field "command" (text command)
      (field "args" (array (text_items args)) (field key (bool true) end)))

-- {"serviceName": ..., "action": ..., KEY: True}
abbrev pub service_done : String → String → String → Json
service_done service action key =
    object (
      field "serviceName" (text service) (field "action" (text action) (field key (bool true) end)))

abbrev pub output_of : TextTools → String → Finished → Json
output_of tools command f = object (
    field "command" (text command) (
      field "stdout" (text (tools.strip f.stdout)) (
        field "stderr" (text (tools.strip f.stderr))
          (field "returnCode" (number f.returncode) end))))

unfoldable pub dispatch_write_file : System → List String → Outcome × List Action
dispatch_write_file sys args =
    let path = first_arg args in
    let content = second_arg args in
    (
      (if sys.write_text path content
          then done (
              object (
                field "targetPath" (text (sys.path_text path)) (
                  field "isSaved" (bool true)
                    (field "fileSize" (number (sys.length_text content)) end))))
          else failed internal_error),
      write_file path content ∷ [],
    )

-- The commands with no fixed command line, by their names.
unfoldable pub dispatch_named : System → TextTools → String → List String → Outcome × List Action
unfolding dispatch_write_file text_items
dispatch_named sys tools command args =
    if command == "mkdir"
    then run_then sys ("mkdir" ∷ args) (λ _. flagged command args "isCreated")
    else if command == "write_file"
    then dispatch_write_file sys args
    else if command == "chmod"
    then run_then sys ("chmod" ∷ args) (λ _. flagged command args "isSet")
    else if command == "touch"
    then run_then sys ("touch" ∷ args) (λ _. flagged command args "isCreated")
    else if command == "rm"
    then run_then sys ("rm" ∷ args) (λ _. flagged command args "isDeleted")
    else if command == "nginx_test"
    then run_then sys ("nginx" ∷ "-t" ∷ []) (λ f.
      object (field "isValid" (bool true) (field "stdout" (text (tools.strip f.stdout)) end)))
    else if command == "nginx_reload"
    then run_then sys ("systemctl" ∷ "reload" ∷ "nginx" ∷ [])
        (λ _. service_done "nginx" "reload" "isReloaded")
    else if command == "nginx_restart"
    then run_then sys ("systemctl" ∷ "restart" ∷ "nginx" ∷ [])
        (λ _. service_done "nginx" "restart" "isRestarted")
    else if command == "systemctl"
    then run_then sys ("systemctl" ∷ args) (λ _. flagged "systemctl" args "isExecuted")
    else if command == "firewall_cmd"
    then run_then sys ("firewall-cmd" ∷ args) (λ _. flagged "firewall_cmd" args "isExecuted")
    else if command == "cat"
    then run_then sys ("cat" ∷ args) (λ f. object (field "content" (text f.stdout) end))
    else if command == "ls"
    then run_then sys ("ls" ∷ args) (λ f. object (field "output" (text f.stdout) end))
    else if command == "certbot"
    then run_then sys ("certbot" ∷ args) (λ _. flagged "certbot" args "isExecuted")
    else if command == "mysql_exec"
    then run_then sys ("mysql" ∷ "-e" ∷ join args ∷ [])
        (λ f. object (field "stdout" (text (tools.strip f.stdout)) end))
    else if command == "docker_daemon"
    then run_then sys ("systemctl" ∷ "restart" ∷ "docker" ∷ [])
        (λ _. service_done "docker" "restart" "isRestarted")
    else if command == "exec_arbitrary_cmd"
    then run_then sys ("/bin/bash" ∷ "-c" ∷ join args ∷ []) (output_of tools command)
    else if command == "exec_arbitrary_script"
    then run_script sys tools (first_arg args)
    else (failed unknown_action, [])

abbrev pub line_of : Option String → String
line_of none = ""
line_of (some line) = line

-- _dispatch_v2_command, for the rule that the registry has for the command
unfoldable pub dispatch_v2_command :
    System → TextTools → Splitter → Rule → String → List String → Outcome × List Action
unfolding dispatch_named
dispatch_v2_command sys tools sp rule command args =
    if is_given rule.command_line
    then run_then sys (sp.split (line_of rule.command_line)) (output_of tools command)
    else dispatch_named sys tools command args
