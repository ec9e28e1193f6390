-- ===== src/ScheduledTask/Jobs.antt =====
-- gateway/scheduler/scheduler.py: AgentScheduler.
use nereus_door_loong_magic.Common.{
  ℕ, max, String, Bool, Option, none, some, [], ◌∷◌, if◌then◌else◌, eqb, length, ◌&&◌,
}
use nereus_door_loong_magic.Common.Table.{Table, put, delete}
use nereus_door_loong_magic.ScheduledTask.{Task, Service, Host, is_active, update_row}

-- validateCronExpression: _buildCronTrigger raises nothing.
unfoldable pub validate_cron_expression : Host → String → Bool
validate_cron_expression h e = eqb (length (h.split e)) 5 && h.from_crontab e

-- setNextRunAt
abbrev pub set_next_run_at : ℕ → Option ℕ → Service → Service
set_next_run_at id time s = (update_row id none (λ t. record t { next_run_at = time }) s).1

-- scheduleTask: what raises is logged, and changes nothing.
unfoldable pub schedule_task : Host → ℕ → Task → ℕ → Service → Service
unfolding validate_cron_expression update_row
schedule_task h id t now s = elim s.jobs [
  | none ↦ s
  | some jobs ↦
      if validate_cron_expression h t.cron_expression
      then set_next_run_at id (h.next_run_time t.cron_expression now)
          (record s { jobs = some (put id t.cron_expression jobs) })
      else s
]

-- removeTask
unfoldable pub remove_task : ℕ → Service → Service
remove_task id s = elim s.jobs [ none ↦ s | some jobs ↦ record s { jobs = some (delete id jobs) } ]

-- refreshTask
unfoldable pub refresh_task : Host → ℕ → Task → ℕ → Service → Service
unfolding schedule_task remove_task
refresh_task h id t now s =
    let s' = remove_task id s in if is_active t.status then schedule_task h id t now s' else s'

-- The loop of reloadTasks over the rows of listActiveTasks, the newest first.
unfoldable pub schedule_all : Host → ℕ → Table Task → Service → Service
unfolding schedule_task
schedule_all h now [] s = s
schedule_all h now ((id, t) ∷ tasks) s =
    let s' = schedule_all h now tasks s in
    if is_active t.status then schedule_task h id t now s' else s'

-- setInspectionInterval, and the part of _registerInspectionJob that replaces the job.
unfoldable pub set_inspection_interval : ℕ → Service → Service
set_inspection_interval minutes s =
    let interval = max 1 minutes in
    record s {
      inspection_interval_minutes = interval;
      inspection_job = elim s.jobs [ none ↦ s.inspection_job | some jobs ↦ some interval ];
    }

-- start, where APScheduler is installed: the loop runs over the rows as they were read.
unfoldable pub start : Host → ℕ → Service → Service
unfolding schedule_all
start h now s = elim s.jobs [
  | some jobs ↦ s
  | none ↦
      schedule_all h now s.tasks
        (record s { jobs = some []; inspection_job = some s.inspection_interval_minutes })
]

-- shutdown
unfoldable pub shutdown : Service → Service
shutdown s = record s { jobs = none; inspection_job = none }
