-- ===== src/Preauthorization/Tests.antt =====
-- Concrete calls of an unattended run, and the theorems applied to them.
use nereus_door_loong_magic.Common.{
  ◌≡◌, ◌↔◌, ◌⊎◌, String, true, false, some, List, [], ◌∷◌, ◌++◌, refl, ◌==◌, starts_with,
  if◌then◌else◌,
}
use nereus_door_loong_magic.Common.Json.{text, Fields, field, end}
use nereus_door_loong_magic.Safety.{occurs_in}
use nereus_door_loong_magic.Preauthorization.{
  Texts, ApprovalPolicy, Grant, get, flatten_argument_values, add_matches, add_values,
  extract_path_like_values, path_within, commands_of_items, extract_privileged_commands,
  extract_command_line,
}
use nereus_door_loong_magic.Preauthorization.Checks.{
  check_privileged, check_commands, find_denied, check_denied, check_allowed, check_paths,
  check_static_preauthorization,
}
use nereus_door_loong_magic.Preauthorization.Decision.{
  Lookup, Run, grant_covers, match_approved_grant, collect_grants, is_pre_authorized_tool_call,
}
use nereus_door_loong_magic.Preauthorization.Static.{IsPreauthorized, static-IsPreauthorized}
use nereus_door_loong_magic.Preauthorization.Paths.{IsGranted, authorised-IsJustified}

program : Unit {0}
unfolding get flatten_argument_values add_matches add_values extract_path_like_values path_within
    commands_of_items extract_privileged_commands extract_command_line check_privileged
    check_commands find_denied check_denied check_allowed check_paths check_static_preauthorization
    grant_covers match_approved_grant collect_grants is_pre_authorized_tool_call occurs_in
program = tt

-- A text is a path where it starts with a slash.
abbrev texts : Texts
unfolding occurs_in
texts = record {
  find_paths = λ t. if starts_with t "/" then t ∷ [] else [];
  has_control = λ t. occurs_in ";" t;
  rstrip_punctuation = λ t. t;
  rstrip_slash = λ t. t;
  strip = λ t. t;
  clip = λ t. t;
  repr = λ v. "";
  is_zero = λ t. t == "0";
}

abbrev policy : ApprovalPolicy
policy = record {
  allowed_tools = "runShellCommand" ∷ "readFile" ∷ [];
  allowed_privileged_commands = [];
  allowed_commands = some ("df" ∷ []);
  denied_paths = "/srv/vault" ∷ [];
  allowed_paths = "/srv" ∷ [];
}

abbrev no_grants : Lookup
no_grants = λ session task source. some []

-- The administrator approved a command in the session.
abbrev one_grant : Lookup
one_grant = λ session task source.
    some (record { tool_name = "runShellCommand"; paths = []; command_line = "uptime" } ∷ [])

abbrev run : Run
run = record { session_id = some "s1"; task_id = some 7; source = some "scheduled" }

abbrev command : String → Fields
command c = field "command" (text c) end

abbrev file : String → Fields
file p = field "path" (text p) end

decisions :
    ((is_pre_authorized_tool_call texts policy no_grants run "runShellCommand" (command "df -h")).0
      ≡ true)
    × ((is_pre_authorized_tool_call texts policy no_grants run "runShellCommand"
          (command "df -h ; reboot")).0
        ≡ false)
    × ((is_pre_authorized_tool_call texts policy no_grants run "readFile" (file "/srv/www")).0
        ≡ true)
    × ((is_pre_authorized_tool_call texts policy no_grants run "readFile" (file "/srv/vault/key")).0
        ≡ false)
    × ((is_pre_authorized_tool_call texts policy no_grants run "readFile" (file "/etc")).0 ≡ false)
unfolding program
decisions = (refl, refl, refl, refl, refl)

granted :
    (is_pre_authorized_tool_call texts policy one_grant run "runShellCommand"
      (command "uptime -p")).0
    ≡ true
unfolding program
granted = refl

-- A granted command line does not stop what follows it in the shell.
granted_and_more :
    (is_pre_authorized_tool_call texts policy one_grant run "runShellCommand"
      (command "uptime ; reboot")).0
    ≡ true
unfolding program
granted_and_more = refl

static-IsPreauthorized_example :
    ((check_static_preauthorization texts policy "runShellCommand" (command "df -h")).0 ≡ true)
    ↔ IsPreauthorized texts policy "runShellCommand" (command "df -h")
static-IsPreauthorized_example =
    static-IsPreauthorized texts policy "runShellCommand" (command "df -h")

authorised-IsJustified_example :
    IsPreauthorized texts policy "runShellCommand" (command "uptime -p")
    ⊎ ((g : Grant) × (before : List Grant) × (rest : List Grant) × (collect_grants one_grant run
          ≡ some (before ++ (g ∷ rest)))
        × IsGranted texts g "runShellCommand" (command "uptime -p"))
authorised-IsJustified_example =
    authorised-IsJustified texts policy one_grant run "runShellCommand" (command "uptime -p")
      granted
