-- ===== src/ScheduledTask/Tests.antt =====
-- A few tasks of one user, and the theorems applied to them.
use nereus_door_loong_magic.Common.{◌≡◌, ◌⊎◌, List, true, false, Option, none, some, [], ◌∷◌, refl}
use nereus_door_loong_magic.Common.Dict.{lookup, insert}
use nereus_door_loong_magic.Common.Json.{object, end}
use nereus_door_loong_magic.Common.Table.{row, put, delete as delete_row}
use nereus_door_loong_magic.Elevation
use nereus_door_loong_magic.Elevation.Codes.{new_entry, expire_code, expire_previous, generate_code}
use nereus_door_loong_magic.ScheduledTask.{
  TaskStatus, pending_approval, TaskPolicy, Task, Service, Host, get_task, update_row, get_or_raise,
}
use nereus_door_loong_magic.ScheduledTask.Jobs.{
  validate_cron_expression, schedule_task, remove_task, refresh_task, schedule_all, start, shutdown,
  set_inspection_interval,
}
use nereus_door_loong_magic.ScheduledTask.Approvals.{
  Reply, returned, approval_request, issue_approval_code, reissue_approval,
  approve_scheduled_task_policy, reject_scheduled_task_policy,
}
use nereus_door_loong_magic.ScheduledTask.Operations.{
  TaskCreate, TaskUpdate, new_task, apply_changes, create_task, change_task, update_task,
  pause_task, resume_row, resume_task, delete_task,
}
use nereus_door_loong_magic.ScheduledTask.Runs.{
  Outcome, completed, begin_run, finish_run, mark_last_run, end_run, refused, run_task,
}
use nereus_door_loong_magic.ScheduledTask.Steps.{
  Call, create, pause, resume, delete, approve, step, after,
}
use nereus_door_loong_magic.ScheduledTask.Synced.{IsSynced}
use nereus_door_loong_magic.ScheduledTask.Reload.{after-IsSynced}
use nereus_door_loong_magic.ScheduledTask.Running.{IsRun, admits, run_task-branches}
use nereus_door_loong_magic.ScheduledTask.Resumed.{resume-admits}
use nereus_door_loong_magic.Common.{◌≤◌, ◌+◌, ◌==◌, arith}
use nereus_door_loong_magic.Crypto.Sample.{sample}
use nereus_door_loong_magic.ScheduledTask.Approvals.{or_default}
use nereus_door_loong_magic.ScheduledTask.Admin.{approved_task, approve_by_code}
use nereus_door_loong_magic.ScheduledTask.Granted.{IsGranted, issued-activates}

program : Unit {0}
unfolding lookup insert row put delete_row new_entry expire_code expire_previous generate_code
    get_task update_row get_or_raise validate_cron_expression schedule_task remove_task refresh_task
    schedule_all start shutdown set_inspection_interval approval_request issue_approval_code
    reissue_approval approve_scheduled_task_policy reject_scheduled_task_policy new_task
    apply_changes create_task change_task update_task pause_task resume_task delete_task begin_run
    finish_run mark_last_run end_run run_task step after
program = tt

abbrev host : Host
host = record {
  split = λ e. "0" ∷ "3" ∷ "*" ∷ "*" ∷ "*" ∷ [];
  from_crontab = λ e. true;
  next_run_time = λ e now. some 500;
  decimal = λ n. "1";
  dump = λ p. object end;
}

abbrev empty : Service
empty = record {
  tasks = [];
  next_task = 1;
  runs = [];
  next_run = 1;
  elevation = Elevation.start "key";
  jobs = some [];
  inspection_interval_minutes = 30;
  inspection_job = none;
}

abbrev policy : TaskPolicy
policy = record {
  lists = record {
    allowed_tools = "readFile" ∷ [];
    allowed_privileged_commands = [];
    allowed_commands = some [];
    denied_paths = [];
    allowed_paths = [];
  };
  ttl_seconds = 25200;
  max_runs = 100;
}

abbrev backup : TaskCreate
backup = record {
  name = "backup";
  cron_expression = "0 3 * * *";
  task_description = "back up";
  approval_policy = none;
}

abbrev guarded : TaskCreate
guarded = record backup { approval_policy = some policy }

abbrev add_policy : TaskUpdate
add_policy = record {
  name = none;
  cron_expression = none;
  task_description = none;
  approval_policy = some policy;
}

abbrev calls : List Call
calls =
    create 7 backup "AAAA-BBBB" 100
    ∷ create 7 guarded "CCCC-DDDD" 110
    ∷ approve 2 "root" "tok" 120
    ∷ pause 1 (some 7)
    ∷ resume 1 (some 7) 130
    ∷ []

-- A free task and a guarded one, both active.
abbrev service : Service
service = after host calls empty

-- The guarded task has not been approved.
abbrev waiting : Service
waiting = after host (create 7 guarded "CCCC-DDDD" 110 ∷ []) empty

has_jobs : service.jobs ≡ some ((2, "0 3 * * *") ∷ (1, "0 3 * * *") ∷ [])
unfolding program
has_jobs = refl

waits : (waiting.jobs ≡ some []) × ((begin_run 1 waiting).0 ≡ Reply.invalid_param)
unfolding program
waits = (refl, refl)

-- A rejected task is approved with its code all the same.
rejected_approves :
    (approve_scheduled_task_policy host 1 "root" "tok" 130
      (reject_scheduled_task_policy 1 "no" waiting).1).0
    ≡ true
unfolding program
rejected_approves = refl

abbrev status_of : Option Task → Option TaskStatus
status_of none = none
status_of (some t) = some t.status

abbrev removed : Service
removed = after host (delete 1 none ∷ []) service

-- A policy brings a deleted task back.
deleted_returns :
    (get_or_raise 1 none removed.tasks ≡ none)
    × (status_of
          (get_or_raise 1 none (update_task host 1 none add_policy "EEEE-FFFF" 140 removed).1.tasks)
        ≡ some pending_approval)
unfolding program
deleted_returns = (refl, refl)

empty-IsSynced : IsSynced host empty
unfolding row
empty-IsSynced = record { keyed = tt; fresh = λ j le. refl; jobs = λ j. refl }

after-IsSynced_example : IsSynced host (after host calls empty)
after-IsSynced_example = after-IsSynced host calls empty empty-IsSynced

abbrev waiting_task : Task
waiting_task = record (new_task 7 guarded) { approval_code = some "CCCC-DDDD" }

abbrev free_task : Task
free_task = record (new_task 7 backup) { next_run_at = some 500 }

abbrev done : Outcome
done = completed "s1" "done" (some "ok") none none

waiting-seen : get_or_raise 1 none waiting.tasks ≡ some waiting_task
unfolding program
waiting-seen = refl

free-seen : get_or_raise 1 none service.tasks ≡ some free_task
unfolding program
free-seen = refl

run_task-branches_example :
    ((admits 1 done 200 service ≡ true) × IsRun 1 done 200 service (run_task 1 done 200 service))
    ⊎ ((admits 1 done 200 service ≡ false) × (run_task 1 done 200 service ≡ (refused, service)))
run_task-branches_example = run_task-branches 1 done 200 service

-- The guarded task is refused, the free one runs.
admissions : (admits 1 done 200 waiting ≡ false) × (admits 1 done 200 service ≡ true)
unfolding program
admissions = (refl, refl)

-- Nobody has approved the guarded task; once it is resumed it runs.
resumed_runs :
    ((resume_task host 1 none 130 waiting).0 ≡ returned (resume_row waiting_task))
    × ((begin_run 1 (resume_task host 1 none 130 waiting).1).0 ≡ returned waiting.next_run)
resumed_runs = resume-admits host 1 none 130 waiting waiting_task waiting-seen

guarded-cron : validate_cron_expression host guarded.cron_expression ≡ true
unfolding program
guarded-cron = refl

code-named : ("CCCC-DDDD" == "") ≡ false
code-named = refl

in_time : 120 ≤ 110 + or_default policy.ttl_seconds 3600
in_time = omega arith

issued-activates_example :
    (t : Task) × ((approve_by_code sample host "CCCC-DDDD" "root" "tok" 120
        (create_task host 7 guarded "CCCC-DDDD" 110 empty).1).0
      ≡ approved_task "tok")
    × (row 1
          (approve_by_code sample host "CCCC-DDDD" "root" "tok" 120
            (create_task host 7 guarded "CCCC-DDDD" 110 empty).1).1.tasks
        ≡ some t)
    × IsGranted policy "root" "tok" 120 t
    × ((begin_run 1
          (approve_by_code sample host "CCCC-DDDD" "root" "tok" 120
            (create_task host 7 guarded "CCCC-DDDD" 110 empty).1).1).0
        ≡ returned
            (approve_by_code sample host "CCCC-DDDD" "root" "tok" 120
              (create_task host 7 guarded "CCCC-DDDD" 110 empty).1).1.next_run)
issued-activates_example =
    issued-activates sample host 7 guarded "CCCC-DDDD" "root" "tok" 110 120 empty policy
      guarded-cron refl code-named in_time
