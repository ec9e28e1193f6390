-- ===== src/ScheduledTask/Approvals.antt =====
-- The approval of a task's policy in ScheduledTaskService.
use nereus_door_loong_magic.Common.{
  ℕ, String, Bool, true, false, ◌&&◌, Option, none, some, [], if◌then◌else◌, eqb, text_append,
}
use nereus_door_loong_magic.Common.Json.{object, end}
use nereus_door_loong_magic.Elevation.Codes
use nereus_door_loong_magic.Elevation.Codes.{generate_code}
use nereus_door_loong_magic.ScheduledTask.{
  active, pending, approved, rejected, Task, Service, Host, is_pending_approval, get_task,
  update_row, get_or_raise,
}
use nereus_door_loong_magic.ScheduledTask.Jobs.{remove_task, refresh_task}

-- An operation returns a value, or it raises an InvalidParamException.
pub data Reply (A : Type 0) : Type 0 where
  returned : A → Reply A
  invalid_param : Reply A

-- _getTaskOrRaise at the end of an operation.
abbrev pub reply_task : Option Task → Reply Task
reply_task none = invalid_param
reply_task (some t) = returned t

-- `int(policy.get(key) or default)`
abbrev pub or_default : ℕ → ℕ → ℕ
or_default value default_ = if eqb value 0 then default_ else value

-- The arguments that _issueApprovalCode hands to generate_code, which expires the code that the
-- session of the task had.
unfoldable pub approval_request : Host → ℕ → Task → String → Codes.Request
approval_request h id t drawn = record {
  session_id = text_append "scheduled_task:" (h.decimal id);
  commands = [];
  reason = text_append "定时任务预授权: " t.name;
  ttl_seconds = elim t.approval_policy [ none ↦ 3600 | some p ↦ or_default p.ttl_seconds 3600 ];
  max_ops = elim t.approval_policy [ none ↦ 100 | some p ↦ or_default p.max_runs 100 ];
  code = none;
  drawn = drawn;
  inline_cmd = none;
  inline_cmd_hash = none;
  script_path = none;
  script_hash = none;
  request_type = "scheduled_task_policy";
  task_id = some id;
  approval_policy = some (elim t.approval_policy [ none ↦ object end | some p ↦ h.dump p ]);
  expire_previous = true;
}

abbrev pub with_code : String → Task → Task
with_code code t = record t {
  approval_code = some code;
  approval_status = some pending;
  approval_rejected_reason = none;
}

-- _issueApprovalCode
unfoldable pub issue_approval_code : Host → ℕ → String → ℕ → Service → Reply Task × Service
unfolding get_or_raise update_row approval_request
issue_approval_code h id drawn now s = elim (get_or_raise id none s.tasks) [
  | none ↦ (invalid_param, s)
  | some t ↦
      let (entry, elevation) = generate_code (approval_request h id t drawn) now s.elevation in
      let s' = (update_row id none (with_code entry.code) (record s { elevation = elevation })).1 in
      (reply_task (get_or_raise id none s'.tasks), s')
]

abbrev pub is_given {ℓ} : {A : Type ℓ} → Option A → Bool
is_given none = false
is_given (some a) = true

-- reissueApproval
unfoldable pub reissue_approval : Host → ℕ → String → ℕ → Service → Reply Task × Service
unfolding get_or_raise issue_approval_code
reissue_approval h id drawn now s = elim (get_or_raise id none s.tasks) [
  | none ↦ (invalid_param, s)
  | some t ↦
      if is_pending_approval t.status && is_given t.approval_policy
      then issue_approval_code h id drawn now s
      else (invalid_param, s)
]

abbrev pub approve_row : String → String → ℕ → Task → Task
approve_row by tid now t = record t {
  status = active;
  approval_status = some approved;
  approval_approved_at = some now;
  approval_approved_by = some by;
  approval_token_id = some tid;
  approval_rejected_reason = none;
}

-- approveScheduledTaskPolicy; the task that it read is there again, so that nothing is raised.
unfoldable pub approve_scheduled_task_policy :
    Host → ℕ → String → String → ℕ → Service → Bool × Service
unfolding get_task get_or_raise update_row refresh_task
approve_scheduled_task_policy h id by tid now s = elim (get_task id none s.tasks) [
  | none ↦ (false, s)
  | some t ↦
      if is_pending_approval t.status
      then (let s' = (update_row id none (approve_row by tid now) s).1 in
          elim (get_or_raise id none s'.tasks) [
            | none ↦ (false, s')
            | some t' ↦ (true, refresh_task h id t' now s')
          ])
      else (false, s)
]

abbrev pub reject_row : String → Task → Task
reject_row reason t = record t {
  approval_status = some rejected;
  approval_rejected_reason = some reason;
}

-- rejectScheduledTaskPolicy: the status stays `pending_approval`.
unfoldable pub reject_scheduled_task_policy : ℕ → String → Service → Bool × Service
unfolding get_task update_row remove_task
reject_scheduled_task_policy id reason s = elim (get_task id none s.tasks) [
  | none ↦ (false, s)
  | some t ↦
      if is_pending_approval t.status
      then (true, remove_task id (update_row id none (reject_row reason) s).1)
      else (false, s)
]
