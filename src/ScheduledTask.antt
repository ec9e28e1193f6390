-- ===== src/ScheduledTask.antt =====
-- gateway/service/ScheduledTaskService.py, gateway/dao/ScheduledTaskDaoOrm.py and
-- gateway/scheduler/scheduler.py: the tables of tasks and runs, and the jobs of the scheduler.
-- The columns createdAt and updatedAt, which nothing decides by, are left out.
pub mod Jobs
pub mod Approvals
pub mod Operations
pub mod Runs
pub mod Grants
pub mod Steps
pub mod Synced
mod Scheduled
mod InStep
pub mod Reload
pub mod Running
mod Cleared
mod Approval
pub mod Admin
pub mod Resumed
pub mod Approved
pub mod Granted
mod Tests
use nereus_door_loong_magic.Common.{
  ℕ, ◌+◌, String, Bool, true, false, not, Option, none, some, List, if◌then◌else◌, eqb, length,
  ◌&&◌,
}
use nereus_door_loong_magic.Common.Json.{Json}
use nereus_door_loong_magic.Common.Table.{Table, row, put}
use nereus_door_loong_magic.Preauthorization.{ApprovalPolicy}
use nereus_door_loong_magic.Elevation

-- TASK_STATUS_*
pub data TaskStatus : Type 0 where
  active paused deleted pending_approval : TaskStatus

-- APPROVAL_STATUS_*
pub data ApprovalStatus : Type 0 where
  pending approved rejected : ApprovalStatus

-- class ScheduledTaskApprovalPolicy
pub record TaskPolicy : Type 0 where
  pub lists : ApprovalPolicy
  pub ttl_seconds : ℕ
  pub max_runs : ℕ

-- class ScheduledTaskOrm; the id is the key of the table.
pub record Task : Type 0 where
  pub name : String
  pub cron_expression : String
  pub task_description : String
  pub status : TaskStatus
  pub created_by : ℕ
  pub approval_policy : Option TaskPolicy
  pub approval_code : Option String
  pub approval_status : Option ApprovalStatus
  pub approval_approved_at : Option ℕ
  pub approval_approved_by : Option String
  pub approval_token_id : Option String
  pub approval_rejected_reason : Option String
  pub next_run_at : Option ℕ
  pub last_run_at : Option ℕ

-- class ScheduledTaskRunOrm; the usage of tokens is its JSON text.
pub record Run : Type 0 where
  pub task_id : ℕ
  pub session_id : Option String
  pub status : String
  pub finished_at : Option ℕ
  pub result_summary : Option String
  pub error_message : Option String
  pub token_usage : Option String

-- The tables with their next keys, the elevation service, and the state of AgentScheduler: `jobs`
-- is the cron expression of each task's job, and `none` where APScheduler does not run;
-- `inspection_job` is the interval of the inspection's job.
pub record Service : Type 0 where
  pub tasks : Table Task
  pub next_task : ℕ
  pub runs : Table Run
  pub next_run : ℕ
  pub elevation : Elevation.Service
  pub jobs : Option (Table String)
  pub inspection_interval_minutes : ℕ
  pub inspection_job : Option ℕ

-- str.split, CronTrigger.from_crontab (whether it accepts the text), the next time of a trigger, str
-- of a number, and model_dump of a policy.
pub record Host : Type 0 where
  pub split : String → List String
  pub from_crontab : String → Bool
  pub next_run_time : String → ℕ → Option ℕ
  pub decimal : ℕ → String
  pub dump : TaskPolicy → Json

abbrev pub is_active : TaskStatus → Bool
is_active active = true
is_active _ = false

abbrev pub is_deleted : TaskStatus → Bool
is_deleted deleted = true
is_deleted _ = false

abbrev pub is_pending_approval : TaskStatus → Bool
is_pending_approval pending_approval = true
is_pending_approval _ = false

-- The filter on `createdBy`, which is there where a user is given.
abbrev pub owns : Option ℕ → Task → Bool
owns none t = true
owns (some user) t = eqb t.created_by user

-- ScheduledTaskDaoOrm.getTask
unfoldable pub get_task : ℕ → Option ℕ → Table Task → Option Task
get_task id user tasks = elim (row id tasks) [
  | none ↦ none
  | some t ↦ if owns user t then some t else none
]

-- ScheduledTaskDaoOrm.updateTask with the columns that a dict writes: whether a row was there. The
-- status of the row does not matter.
unfoldable pub update_row : ℕ → Option ℕ → (Task → Task) → Service → Bool × Service
unfolding get_task
update_row id user f s = elim (get_task id user s.tasks) [
  | none ↦ (false, s)
  | some t ↦ (true, record s { tasks = put id (f t) s.tasks })
]

-- _getTaskOrRaise; `none` is the InvalidParamException.
unfoldable pub get_or_raise : ℕ → Option ℕ → Table Task → Option Task
unfolding get_task
get_or_raise id user tasks = elim (get_task id user tasks) [
  | none ↦ none
  | some t ↦ if is_deleted t.status then none else some t
]
