-- ===== src/ScheduledTask/Resumed.antt =====
-- What a new job and resumeTask of gateway/service/ScheduledTaskService.py leave of a task.
use nereus_door_loong_magic.Common.{
  ℕ, ◌≡◌, true, Option, some, refl, arith, Bool-cases, Option-cases, inl, inr,
}
use nereus_door_loong_magic.Common.Table.{row, row-put}
use nereus_door_loong_magic.ScheduledTask.{
  Task, Service, Host, is_active, owns, get_task, update_row, get_or_raise,
}
use nereus_door_loong_magic.ScheduledTask.Jobs.{
  validate_cron_expression, remove_task, refresh_task, schedule_task,
}
use nereus_door_loong_magic.ScheduledTask.Approvals.{returned}
use nereus_door_loong_magic.ScheduledTask.Operations.{resume_row, resume_task}
use nereus_door_loong_magic.ScheduledTask.Runs.{begin_run}
use nereus_door_loong_magic.ScheduledTask.Synced.{row-update_row}

-- A job that is registered anew changes the time of the task's next run, and nothing else of it.
pub row-refresh_task :
    (h : Host) (id : ℕ) (t : Task) (now : ℕ) (s : Service)
    → row id s.tasks ≡ some t
    → (time : Option ℕ) × (row id (refresh_task h id t now s).tasks
        ≡ some (record t { next_run_at = time }))
      × ((refresh_task h id t now s).next_run ≡ s.next_run)
unfolding refresh_task schedule_task remove_task update_row get_task
row-refresh_task h id t now s found =
    let time : Option ℕ = h.next_run_time t.cron_expression now in
    elim (Option-cases s.jobs) [
      | inl off ↦ (t.next_run_at, ground arith, ground arith)
      | inr (jobs, on) ↦ elim (Bool-cases (is_active t.status)) [
        | inr idle ↦ (t.next_run_at, ground arith, ground arith)
        | inl live ↦ elim (Bool-cases (validate_cron_expression h t.cron_expression)) [
          | inr bad ↦ (t.next_run_at, ground arith, ground arith)
          | inl good ↦ (
            time,
            ground (arith, row-put id id (record t { next_run_at = time }) s.tasks),
            ground arith,
          )
        ]
      ]
    ]

-- resumeTask looks at no approval: it makes every task that its user can see active, one that waits
-- for its approval or was rejected too, and runTask then admits it.
pub resume-admits :
    (h : Host) (id : ℕ) (user : Option ℕ) (now : ℕ) (s : Service) (t : Task)
    → get_or_raise id user s.tasks ≡ some t
    → ((resume_task h id user now s).0 ≡ returned (resume_row t))
      × ((begin_run id (resume_task h id user now s).1).0 ≡ returned s.next_run)
unfolding resume_task begin_run get_or_raise get_task
resume-admits h id user now s t seen =
    let found : row id s.tasks ≡ some t = ground arith in
    let mine : owns user t ≡ true = ground arith in
    let s' : Service = (update_row id user resume_row s).1 in
    let here : row id s'.tasks ≡ some (resume_row t) =
      ground (arith, row-update_row id user resume_row s t found mine id) in
    let e : resume_task h id user now s
        ≡ (returned (resume_row t), refresh_task h id (resume_row t) now s') =
      ground arith in
    let same : s'.next_run ≡ s.next_run = ground arith in
    let (time, there, next) = row-refresh_task h id (resume_row t) now s' here in
    rw e (refl, ground arith)
