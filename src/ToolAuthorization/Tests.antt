-- ===== src/ToolAuthorization/Tests.antt =====
-- A concrete request for a tool, and the theorems applied to it.
use nereus_door_loong_magic.Common.{◌≡◌, String, true, false, Option, none, some, [], ◌∷◌, refl}
use nereus_door_loong_magic.Common.Dict.{lookup, insert, keys_where, remove_all, update_values}
use nereus_door_loong_magic.Crypto.{hash_cmd}
use nereus_door_loong_magic.Crypto.Sample.{sample}
use nereus_door_loong_magic.Elevation.{start, entry_is_expired}
use nereus_door_loong_magic.Elevation.Codes.{new_entry, expire_code, expire_previous, generate_code}
use nereus_door_loong_magic.Preauthorization.{ApprovalPolicy}
use nereus_door_loong_magic.ToolAuthorization.{
  approved, Fragment, Row, Service, is_pending, find_by_code, find_pending, update_status,
}
use nereus_door_loong_magic.ToolAuthorization.Submit.{Submission, submit_request}
use nereus_door_loong_magic.ToolAuthorization.Merging.{
  build_grant, merge_grant, Sessions, resolve_source, write_back, grant_to_scheduled_task,
  grant_to_inspection_policy, with_prefix,
}
use nereus_door_loong_magic.ToolAuthorization.Decisions.{
  approve, reject, expire, expire_rows, list_pending, list_approved_grants,
}
use nereus_door_loong_magic.ToolAuthorization.Grants.{IsMerged, merge_grant-IsMerged}
use nereus_door_loong_magic.ToolAuthorization.Requests.{approve-once, submit_request-reuses}
use nereus_door_loong_magic.Common.{◌==◌, ◌⊎◌, inr, starts_with, if◌then◌else◌}
use nereus_door_loong_magic.Common.Json.{text, Fields, field, end}
use nereus_door_loong_magic.Safety.{occurs_in}
use nereus_door_loong_magic.Preauthorization.{
  Texts, get, flatten_argument_values, add_matches, add_values, extract_path_like_values,
  path_within, commands_of_items, extract_privileged_commands, extract_command_line,
}
use nereus_door_loong_magic.Preauthorization.Checks.{
  check_privileged, check_commands, find_denied, check_denied, check_allowed, check_paths,
  check_static_preauthorization,
}
use nereus_door_loong_magic.Preauthorization.Decision.{
  Run, grant_covers, match_approved_grant, collect_grants, is_pre_authorized_tool_call,
}
use nereus_door_loong_magic.ToolAuthorization.Submit.{new_row, submission_of}
use nereus_door_loong_magic.ToolAuthorization.Authorised.{lookup_in, approved-IsAuthorised}

-- A text is a path where it starts with a slash.
abbrev texts : Texts
unfolding occurs_in
texts = record {
  find_paths = λ t. if starts_with t "/" then t ∷ [] else [];
  has_control = λ t. occurs_in ";" t;
  rstrip_punctuation = λ t. t;
  rstrip_slash = λ t. t;
  strip = λ t. t;
  clip = λ t. t;
  repr = λ v. "";
  is_zero = λ t. t == "0";
}

program : Unit {0}
unfolding get flatten_argument_values add_matches add_values extract_path_like_values path_within
    commands_of_items extract_privileged_commands extract_command_line check_privileged
    check_commands find_denied check_denied check_allowed check_paths check_static_preauthorization
    grant_covers match_approved_grant collect_grants is_pre_authorized_tool_call occurs_in lookup
    insert keys_where remove_all update_values sample hash_cmd entry_is_expired new_entry
    expire_code expire_previous generate_code find_by_code find_pending update_status submit_request
    build_grant merge_grant resolve_source write_back grant_to_scheduled_task
    grant_to_inspection_policy approve reject expire expire_rows list_pending list_approved_grants
program = tt

abbrev policy : ApprovalPolicy
policy = record {
  allowed_tools = "readFile" ∷ [];
  allowed_privileged_commands = [];
  allowed_commands = none;
  denied_paths = "/srv/vault" ∷ [];
  allowed_paths = "/srv" ∷ [];
}

abbrev service : Service
service = record {
  rows = [];
  elevation = start "key";
  tasks = (7, record { is_deleted = false; approval_policy = policy }) ∷ [];
  inspection_policy = policy;
}

abbrev db : Sessions
db = record { run_task = λ session. some 7; has_report = λ session. false }

abbrev ask : Submission
ask = record {
  session_id = "s1";
  tool_name = "runShellCommand";
  paths = [];
  command_line = some "uptime";
  reason = none;
  source_type = "scheduled";
  task_id = some 7;
  ttl_seconds = 25200;
  max_runs = 100;
  drawn = "AAAA-BBBB";
}

abbrev submitted : Service
submitted = (submit_request sample ask 100 service).1

submits : (submit_request sample ask 100 service).0 ≡ some ("AAAA-BBBB", true)
unfolding program
submits = refl

approves : (approve db "AAAA-BBBB" "root" "tok" none submitted).0 ≡ true
unfolding program
approves = refl

-- The grant is there for the session, and in the policy of the task.
grants :
    (list_approved_grants
        (some "s1")
        none
        none
        (approve db "AAAA-BBBB" "root" "tok" none submitted).1.rows
      ≡ record { tool_name = "runShellCommand"; paths = []; command_line = "uptime" } ∷ [])
    × ((approve db "AAAA-BBBB" "root" "tok" none submitted).1.tasks
        ≡ (
          7,
          record {
            is_deleted = false;
            approval_policy = record policy {
              allowed_tools = "readFile" ∷ "runShellCommand" ∷ [];
              allowed_commands = some ("uptime" ∷ []);
            };
          },
        )
          ∷ [])
unfolding program
grants = (refl, refl)

-- A rejection that follows an approval takes it back.
rejects_approved :
    list_approved_grants
      (some "s1")
      none
      none
      (reject "AAAA-BBBB" "no" (approve db "AAAA-BBBB" "root" "tok" none submitted).1).1.rows
    ≡ []
unfolding program
rejects_approved = refl

abbrev fragment : Fragment
fragment = record {
  tool_name = "runShellCommand";
  paths = "/var/log" ∷ [];
  command_line = some "uptime";
}

merge_grant-IsMerged_example : IsMerged policy fragment (merge_grant policy fragment)
merge_grant-IsMerged_example = merge_grant-IsMerged policy fragment

approve-once_example :
    (r : Row) × (r' : Row) × (find_by_code "AAAA-BBBB" submitted.rows ≡ some r)
    × (is_pending r.status ≡ true)
    × (find_by_code "AAAA-BBBB" (approve db "AAAA-BBBB" "root" "tok" none submitted).1.rows
        ≡ some r')
    × (r'.status ≡ approved)
    × (r'.grant ≡ some (with_prefix none (build_grant r)))
    × ((db' : Sessions) (by' tid' : String) (prefix' : Option String)
        → approve db' "AAAA-BBBB" by' tid' prefix'
            (approve db "AAAA-BBBB" "root" "tok" none submitted).1
          ≡ (false, (approve db "AAAA-BBBB" "root" "tok" none submitted).1))
approve-once_example = approve-once db "AAAA-BBBB" "root" "tok" none submitted approves

submit_request-reuses_example :
    submit_request sample (record ask { drawn = "CCCC-DDDD" }) 200 submitted
    ≡ (some ("AAAA-BBBB", false), submitted)
submit_request-reuses_example =
    submit_request-reuses sample ask "CCCC-DDDD" 100 200 service "AAAA-BBBB" true submits

-- The core asks for a command that its policy does not list.
abbrev call : Fields
call = field "command" (text "uptime") end

abbrev requested : Service
requested =
    (submit_request sample
      (submission_of texts "runShellCommand" call "s1" "look" 25200 100 "AAAA-BBBB") 100 service).1

abbrev run : Run
run = record { session_id = some "s1"; task_id = some 7; source = some "scheduled" }

asks :
    find_by_code "AAAA-BBBB" requested.rows
    ≡ some (
        new_row
          (submission_of texts "runShellCommand" call "s1" "look" 25200 100 "AAAA-BBBB")
          "AAAA-BBBB"
          100)
unfolding program
asks = refl

approves_call : (approve db "AAAA-BBBB" "root" "tok" none requested).0 ≡ true
unfolding program
approves_call = refl

undenied :
    ((check_static_preauthorization texts policy "runShellCommand" call).0 ≡ true)
    ⊎ (occurs_in "deniedPaths" (check_static_preauthorization texts policy "runShellCommand" call).1
        ≡ false)
unfolding program
undenied = inr refl

-- Before the approval the call is refused.
refused_before :
    (is_pre_authorized_tool_call texts policy
      (lookup_in requested.rows)
      run
      "runShellCommand"
      call).0
    ≡ false
unfolding program
refused_before = refl

approved-IsAuthorised_example :
    (is_pre_authorized_tool_call texts policy
      (lookup_in (approve db "AAAA-BBBB" "root" "tok" none requested).1.rows)
      run
      "runShellCommand"
      call).0
    ≡ true
approved-IsAuthorised_example =
    approved-IsAuthorised texts policy "runShellCommand" call "s1" "look" 25200 100 "AAAA-BBBB"
      "AAAA-BBBB" 100 db "root" "tok" requested run asks approves_call refl refl undenied
