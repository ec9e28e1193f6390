-- ===== src/ScheduledTask/Steps.antt =====
-- The calls that reach the tasks: those of the web interface, of the administrator who approves or
-- rejects a code or grants a request for authorization, of the scheduler's jobs, and the start and the end of the scheduler.
use nereus_door_loong_magic.Common.{ℕ, String, Option, List, [], ◌∷◌}
use nereus_door_loong_magic.ScheduledTask.{Service, Host}
use nereus_door_loong_magic.ScheduledTask.Jobs.{start, shutdown, set_inspection_interval}
use nereus_door_loong_magic.ScheduledTask.Operations.{
  TaskCreate, TaskUpdate, create_task, update_task, pause_task, resume_task, delete_task,
}
use nereus_door_loong_magic.ScheduledTask.Approvals.{
  reissue_approval, approve_scheduled_task_policy, reject_scheduled_task_policy,
}
use nereus_door_loong_magic.ToolAuthorization.{Fragment}
use nereus_door_loong_magic.ScheduledTask.Grants.{grant_to_scheduled_task}
use nereus_door_loong_magic.ScheduledTask.Runs.{Outcome, begin_run, end_run}

pub data Call : Type 0 where
  create : (user : ℕ) → TaskCreate → (drawn : String) (now : ℕ) → Call
  update : (id : ℕ) (user : Option ℕ) → TaskUpdate → (drawn : String) (now : ℕ) → Call
  pause : (id : ℕ) (user : Option ℕ) → Call
  resume : (id : ℕ) (user : Option ℕ) (now : ℕ) → Call
  delete : (id : ℕ) (user : Option ℕ) → Call
  reissue : (id : ℕ) (drawn : String) (now : ℕ) → Call
  approve : (id : ℕ) (by tid : String) (now : ℕ) → Call
  reject : (id : ℕ) (reason : String) → Call
  begin : (id : ℕ) → Call
  finish : (id run : ℕ) → Outcome → (now : ℕ) → Call
  start_scheduler : (now : ℕ) → Call
  stop_scheduler : Call
  set_interval : (minutes : ℕ) → Call
  grant : (id : ℕ) → Fragment → Call

unfoldable pub step : Host → Call → Service → Service
step h (create user body drawn now) s = (create_task h user body drawn now s).1
step h (update id user body drawn now) s = (update_task h id user body drawn now s).1
step h (pause id user) s = (pause_task id user s).1
step h (resume id user now) s = (resume_task h id user now s).1
step h (delete id user) s = (delete_task id user s).1
step h (reissue id drawn now) s = (reissue_approval h id drawn now s).1
step h (approve id by tid now) s = (approve_scheduled_task_policy h id by tid now s).1
step h (reject id reason) s = (reject_scheduled_task_policy id reason s).1
step h (begin id) s = (begin_run id s).1
step h (finish id run outcome now) s = end_run id run outcome now s
step h (start_scheduler now) s = start h now s
step h stop_scheduler s = shutdown s
step h (set_interval minutes) s = set_inspection_interval minutes s
step h (grant id g) s = (grant_to_scheduled_task id g s).1

unfoldable pub after : Host → List Call → Service → Service
unfolding step
after h [] s = s
after h (call ∷ calls) s = after h calls (step h call s)
