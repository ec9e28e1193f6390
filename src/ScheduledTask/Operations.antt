-- ===== src/ScheduledTask/Operations.antt =====
-- createTask, updateTask, pauseTask, resumeTask and deleteTask of ScheduledTaskService.
use nereus_door_loong_magic.Common.{
  ℕ, suc, String, Bool, true, not, ◌&&◌, Option, none, some, if◌then◌else◌,
}
use nereus_door_loong_magic.Common.Table.{put}
use nereus_door_loong_magic.ScheduledTask.{
  active, paused, deleted, pending_approval, pending, TaskPolicy, Task, Service, Host, update_row,
  get_or_raise,
}
use nereus_door_loong_magic.ScheduledTask.Jobs.{validate_cron_expression, remove_task, refresh_task}
use nereus_door_loong_magic.ScheduledTask.Approvals.{
  Reply, returned, invalid_param, reply_task, issue_approval_code, is_given,
}

-- ScheduledTaskCreate
pub record TaskCreate : Type 0 where
  pub name : String
  pub cron_expression : String
  pub task_description : String
  pub approval_policy : Option TaskPolicy

-- createTask of the table
unfoldable pub new_task : ℕ → TaskCreate → Task
new_task user body = record {
  name = body.name;
  cron_expression = body.cron_expression;
  task_description = body.task_description;
  status = if is_given body.approval_policy then pending_approval else active;
  created_by = user;
  approval_policy = body.approval_policy;
  approval_code = none;
  approval_status = if is_given body.approval_policy then some pending else none;
  approval_approved_at = none;
  approval_approved_by = none;
  approval_token_id = none;
  approval_rejected_reason = none;
  next_run_at = none;
  last_run_at = none;
}

abbrev pub insert_task : Task → Service → Service
insert_task t s = record s { tasks = put s.next_task t s.tasks; next_task = suc s.next_task }

-- createTask; it answers with the row as it was before the scheduler wrote its next time.
unfoldable pub create_task : Host → ℕ → TaskCreate → String → ℕ → Service → Reply Task × Service
unfolding issue_approval_code refresh_task new_task
create_task h user body drawn now s =
    if validate_cron_expression h body.cron_expression
    then (let t = new_task user body in
        let s' = insert_task t s in
        if is_given body.approval_policy
        then issue_approval_code h s.next_task drawn now s'
        else (returned t, refresh_task h s.next_task t now s'))
    else (invalid_param, s)

-- ScheduledTaskUpdate
pub record TaskUpdate : Type 0 where
  pub name : Option String
  pub cron_expression : Option String
  pub task_description : Option String
  pub approval_policy : Option TaskPolicy

abbrev pub or_old {ℓ} : {A : Type ℓ} → Option A → A → A
or_old none old = old
or_old (some new) old = new

abbrev pub is_empty : TaskUpdate → Bool
is_empty body =
    not (is_given body.name)
    && not (is_given body.cron_expression)
    && not (is_given body.task_description)
    && not (is_given body.approval_policy)

abbrev pub reset_approval : TaskPolicy → Task → Task
reset_approval p t = record t {
  approval_policy = some p;
  status = pending_approval;
  next_run_at = none;
  approval_status = some pending;
  approval_approved_at = none;
  approval_approved_by = none;
  approval_token_id = none;
  approval_rejected_reason = none;
}

-- The columns that updateTask writes.
unfoldable pub apply_changes : TaskUpdate → Task → Task
apply_changes body t =
    let t' : Task = record t {
      name = or_old body.name t.name;
      cron_expression = or_old body.cron_expression t.cron_expression;
      task_description = or_old body.task_description t.task_description;
    } in
    elim body.approval_policy [ none ↦ t' | some p ↦ reset_approval p t' ]

abbrev pub cron_accepted : Host → TaskUpdate → Bool
cron_accepted h body = elim body.cron_expression [
  | none ↦ true
  | some e ↦ validate_cron_expression h e
]

-- updateTask behind its first checks
unfoldable pub change_task :
    Host → ℕ → Option ℕ → TaskUpdate → String → ℕ → Service → Reply Task × Service
unfolding get_or_raise update_row apply_changes issue_approval_code remove_task refresh_task
change_task h id user body drawn now s =
    let (found, s') = update_row id user (apply_changes body) s in
    if found
    then elim (get_or_raise id user s'.tasks) [
      | none ↦ (invalid_param, s')
      | some t ↦
          if is_given body.approval_policy
          then issue_approval_code h id drawn now (remove_task id s')
          else (returned t, refresh_task h id t now s')
    ]
    else (invalid_param, s')

-- updateTask
unfoldable pub update_task :
    Host → ℕ → Option ℕ → TaskUpdate → String → ℕ → Service → Reply Task × Service
unfolding change_task
update_task h id user body drawn now s =
    if cron_accepted h body
    then if is_empty body
      then (reply_task (get_or_raise id user s.tasks), s)
      else change_task h id user body drawn now s
    else (invalid_param, s)

abbrev pub pause_row : Task → Task
pause_row t = record t { status = paused; next_run_at = none }

-- pauseTask
unfoldable pub pause_task : ℕ → Option ℕ → Service → Reply Task × Service
unfolding get_or_raise update_row remove_task
pause_task id user s = elim (get_or_raise id user s.tasks) [
  | none ↦ (invalid_param, s)
  | some t ↦
      let s' = (update_row id user pause_row s).1 in
      elim (get_or_raise id user s'.tasks) [
        | none ↦ (invalid_param, s')
        | some t' ↦ (returned t', remove_task id s')
      ]
]

abbrev pub resume_row : Task → Task
resume_row t = record t { status = active }

-- resumeTask
unfoldable pub resume_task : Host → ℕ → Option ℕ → ℕ → Service → Reply Task × Service
unfolding get_or_raise update_row refresh_task
resume_task h id user now s = elim (get_or_raise id user s.tasks) [
  | none ↦ (invalid_param, s)
  | some t ↦
      let s' = (update_row id user resume_row s).1 in
      elim (get_or_raise id user s'.tasks) [
        | none ↦ (invalid_param, s')
        | some t' ↦ (returned t', refresh_task h id t' now s')
      ]
]

abbrev pub delete_row : Task → Task
delete_row t = record t { status = deleted; next_run_at = none }

-- deleteTask
unfoldable pub delete_task : ℕ → Option ℕ → Service → Reply Unit × Service
unfolding get_or_raise update_row remove_task
delete_task id user s = elim (get_or_raise id user s.tasks) [
  | none ↦ (invalid_param, s)
  | some t ↦ (returned tt, remove_task id (update_row id user delete_row s).1)
]
