-- ===== src/ScheduledTask/Reload.antt =====
-- reloadTasks of gateway/scheduler/scheduler.py, and every run of calls, keep jobs and tasks in step.
use nereus_door_loong_magic.Common.{
  ℕ, ◌≡◌, String, true, Option, none, some, List, [], ◌∷◌, refl, arith, Bool-cases, Option-cases,
  inl, inr,
}
use nereus_door_loong_magic.Common.Table.{Table, row, put, row-put, IsKeyed}
use nereus_door_loong_magic.ScheduledTask.{
  is_deleted, Task, Service, Host, is_active, get_task, update_row,
}
use nereus_door_loong_magic.ScheduledTask.Jobs.{
  validate_cron_expression, schedule_task, schedule_all, start, shutdown, set_inspection_interval,
}
use nereus_door_loong_magic.ScheduledTask.Runs.{
  Outcome, completed, failed, begin_run, finish_run, mark_last_run, end_run,
}
use nereus_door_loong_magic.ScheduledTask.Running.{
  IsFramed, begin_run-IsFramed, finish_run-IsFramed,
}
use nereus_door_loong_magic.ToolAuthorization.{Fragment}
use nereus_door_loong_magic.ScheduledTask.Grants.{with_grant, grant_to_scheduled_task}
use nereus_door_loong_magic.ScheduledTask.Steps.{
  Call, create, update, pause, resume, delete, reissue, approve, reject, begin, finish,
  start_scheduler, stop_scheduler, set_interval, grant, step, after,
}
use nereus_door_loong_magic.ScheduledTask.Synced.{
  IsSynced, due_of, update_row-IsSynced, schedule_task-IsKeyed,
}
use nereus_door_loong_magic.ScheduledTask.Scheduled.{
  pause-IsSynced, resume-IsSynced, delete-IsSynced, approve-IsSynced, reject-IsSynced,
  reissue-IsSynced,
}
use nereus_door_loong_magic.ScheduledTask.InStep.{create-IsSynced, update-IsSynced}

module _ (h : Host) (now : ℕ) where
  -- The loop has gone over the rows `tasks` of the service `s`, and has reached `s'`.
  record IsReloaded (tasks : Table Task) (s s' : Service) : Type 0 where
    keyed : IsKeyed s'.tasks
    next : s'.next_task ≡ s.next_task
    jobs : Table String
    on : s'.jobs ≡ some jobs
    owed : (j : ℕ) → row j jobs ≡ due_of h (row j tasks)
    absent : (j : ℕ) → row j s.tasks ≡ none → row j s'.tasks ≡ none
    same : (j : ℕ) → due_of h (row j s'.tasks) ≡ due_of h (row j s.tasks)

  -- A row that is owed no job leaves the scheduler as it is.
  kept :
      (id : ℕ) (t : Task) (tasks : Table Task) (s s' : Service)
      → IsKeyed ((id, t) ∷ tasks)
      → IsReloaded tasks s s'
      → due_of h (some t) ≡ none
      → IsReloaded ((id, t) ∷ tasks) s s'
  unfolding row
  kept id t tasks s s' k r idle = record {
    keyed = r.keyed;
    next = r.next;
    jobs = r.jobs;
    on = r.on;
    owed = λ j. ground (arith, r.owed j, k.0);
    absent = r.absent;
    same = r.same;
  }

  -- A row that is owed a job gets it, and its next time is written into the table.
  added :
      (id : ℕ) (t : Task) (tasks : Table Task) (s s' : Service)
      → IsKeyed ((id, t) ∷ tasks)
      → IsReloaded tasks s s'
      → is_active t.status ≡ true
      → validate_cron_expression h t.cron_expression ≡ true
      → IsReloaded ((id, t) ∷ tasks) s (schedule_task h id t now s')
  unfolding schedule_task update_row get_task row
  added id t tasks s s' k r live good =
      let jobs : Table String = put id t.cron_expression r.jobs in
      let time : Option ℕ = h.next_run_time t.cron_expression now in
      let kept_ : IsKeyed (schedule_task h id t now s').tasks =
        schedule_task-IsKeyed h id t now s' r.keyed in
      elim (Option-cases (row id s'.tasks)) [
        | inl missing ↦ record {
          keyed = kept_;
          next = ground (arith, r.next, r.on);
          jobs = jobs;
          on = ground (arith, r.on);
          owed = λ j. ground (arith, r.owed j, row-put id j t.cron_expression r.jobs);
          absent = λ j none_. ground (arith, r.absent j, r.on);
          same = λ j. ground (arith, r.same j, r.on);
        }
        | inr (t', there) ↦ record {
          keyed = kept_;
          next = ground (arith, r.next, r.on);
          jobs = jobs;
          on = ground (arith, r.on);
          owed = λ j. ground (arith, r.owed j, row-put id j t.cron_expression r.jobs);
          absent = λ j none_.
              ground
                (arith, r.absent j, r.on, row-put id j (record t' { next_run_at = time }) s'.tasks);
          same = λ j.
              ground
                (arith, r.same j, r.on, row-put id j (record t' { next_run_at = time }) s'.tasks);
        }
      ]

  schedule_all-IsReloaded :
      (tasks : Table Task) (s : Service)
      → IsKeyed tasks
      → IsKeyed s.tasks
      → s.jobs ≡ some []
      → IsReloaded tasks s (schedule_all h now tasks s)
  unfolding schedule_all schedule_task update_row get_task row
  schedule_all-IsReloaded [] s k ks on = record {
    keyed = ks;
    next = refl;
    jobs = [];
    on = on;
    owed = λ j. refl;
    absent = λ j none_. none_;
    same = λ j. refl;
  }
  schedule_all-IsReloaded ((id, t) ∷ tasks) s k ks on =
      let s' : Service = schedule_all h now tasks s in
      let r : IsReloaded tasks s s' = schedule_all-IsReloaded tasks s k.1 ks on in
      let all : Service = schedule_all h now ((id, t) ∷ tasks) s in
      elim (Bool-cases (is_active t.status)) [
        | inr off ↦
            let e : all ≡ s' = ground arith in rw e (kept id t tasks s s' k r (ground arith))
        | inl live ↦ elim (Bool-cases (validate_cron_expression h t.cron_expression)) [
          | inr bad ↦
              let e : all ≡ s' = ground (arith, r.on) in
              rw e (kept id t tasks s s' k r (ground arith))
          | inl good ↦
              let e : all ≡ schedule_task h id t now s' = ground arith in
              rw e (added id t tasks s s' k r live good)
        ]
      ]

  start-IsSynced : (s : Service) → IsSynced h s → IsSynced h (start h now s)
  unfolding start row
  start-IsSynced s ok = elim (Option-cases s.jobs) [
    | inr (jobs, on) ↦ let e : start h now s ≡ s = ground arith in rw e ok
    | inl off ↦
        let s0 : Service = record s {
          jobs = some [];
          inspection_job = some s.inspection_interval_minutes;
        } in
        let r : IsReloaded s.tasks s0 (schedule_all h now s.tasks s0) =
          schedule_all-IsReloaded s.tasks s0 ok.keyed ok.keyed refl in
        let e : start h now s ≡ schedule_all h now s.tasks s0 = ground arith in
        rw e (record {
          keyed = r.keyed;
          fresh = λ j le. r.absent j (ok.fresh j (rw (← r.next) le));
          jobs = λ j. ground (arith, r.on, r.owed j, r.same j);
        })
  ]

module _ (h : Host) where
  shutdown-IsSynced : (s : Service) → IsSynced h s → IsSynced h (shutdown s)
  unfolding shutdown
  shutdown-IsSynced s ok = record { keyed = ok.keyed; fresh = ok.fresh; jobs = λ j. refl }

  framed : (s s' : Service) → IsFramed s s' → IsSynced h s → IsSynced h s'
  framed s s' f ok = record {
    keyed = rw f.tasks ok.keyed;
    fresh = λ j le. ground (arith, f.tasks, f.next_task, ok.fresh j);
    jobs = λ j. ground (arith, f.tasks, f.jobs, ok.jobs j);
  }

  begin-IsSynced : (id : ℕ) (s : Service) → IsSynced h s → IsSynced h (begin_run id s).1
  begin-IsSynced id s ok = framed s (begin_run id s).1 (begin_run-IsFramed id s) ok

  finish-IsSynced :
      (id run : ℕ) (outcome : Outcome) (now : ℕ) (s : Service)
      → IsSynced h s
      → IsSynced h (end_run id run outcome now s)
  unfolding end_run mark_last_run
  finish-IsSynced id run (completed session status summary error usage) now s ok =
      let outcome : Outcome = completed session status summary error usage in
      let s' : Service = finish_run run outcome now s in
      let ok' : IsSynced h s' = framed s s' (finish_run-IsFramed run outcome now s) ok in
      update_row-IsSynced h id s' none (λ t. record t { last_run_at = some now }) (λ t. refl)
        (λ t. refl) ok'
  finish-IsSynced id run (failed message) now s ok =
      framed s (finish_run run (failed message) now s)
        (finish_run-IsFramed run (failed message) now s) ok

  grant-IsSynced :
      (id : ℕ) (g : Fragment) (s : Service)
      → IsSynced h s
      → IsSynced h (grant_to_scheduled_task id g s).1
  unfolding grant_to_scheduled_task with_grant
  grant-IsSynced id g s ok = elim (Option-cases (row id s.tasks)) [
    | inl absent ↦ let e : (grant_to_scheduled_task id g s).1 ≡ s = ground arith in rw e ok
    | inr (t, found) ↦ elim (Bool-cases (is_deleted t.status)) [
      | inl gone ↦ let e : (grant_to_scheduled_task id g s).1 ≡ s = ground arith in rw e ok
      | inr kept ↦
          let e : (grant_to_scheduled_task id g s).1 ≡ (update_row id none (with_grant g) s).1 =
            ground arith in
          rw e (update_row-IsSynced h id s none (with_grant g) (λ t. refl) (λ t. refl) ok)
    ]
  ]

  step-IsSynced : (call : Call) (s : Service) → IsSynced h s → IsSynced h (step h call s)
  unfolding step set_inspection_interval
  step-IsSynced (create user body drawn now) s ok = create-IsSynced h user body drawn now s ok
  step-IsSynced (update id user body drawn now) s ok = update-IsSynced h id user body drawn now s ok
  step-IsSynced (pause id user) s ok = pause-IsSynced h id user s ok
  step-IsSynced (resume id user now) s ok = resume-IsSynced h id user now s ok
  step-IsSynced (delete id user) s ok = delete-IsSynced h id user s ok
  step-IsSynced (reissue id drawn now) s ok = reissue-IsSynced h id drawn now s ok
  step-IsSynced (approve id by tid now) s ok = approve-IsSynced h id by tid now s ok
  step-IsSynced (reject id reason) s ok = reject-IsSynced h id reason s ok
  step-IsSynced (begin id) s ok = begin-IsSynced id s ok
  step-IsSynced (finish id run outcome now) s ok = finish-IsSynced id run outcome now s ok
  step-IsSynced (start_scheduler now) s ok = start-IsSynced h now s ok
  step-IsSynced stop_scheduler s ok = shutdown-IsSynced s ok
  step-IsSynced (grant id g) s ok = grant-IsSynced id g s ok
  step-IsSynced (set_interval minutes) s ok = record {
    keyed = ok.keyed;
    fresh = ok.fresh;
    jobs = ok.jobs;
  }

-- After every run of calls, starts and stops of the scheduler among them, the jobs are exactly those
-- that the tasks are owed, if they were so before: while the scheduler runs, a task has a job if and
-- only if its status is active and its cron expression valid, and the job has the task's present
-- expression.
pub after-IsSynced :
    (h : Host) (calls : List Call) (s : Service) → IsSynced h s → IsSynced h (after h calls s)
unfolding after
after-IsSynced h [] s ok = ok
after-IsSynced h (call ∷ calls) s ok =
    after-IsSynced h calls (step h call s) (step-IsSynced h call s ok)
