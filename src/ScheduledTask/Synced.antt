-- ===== src/ScheduledTask/Synced.antt =====
-- The jobs of gateway/scheduler/scheduler.py against the table of tasks.
use nereus_door_loong_magic.Common.{
  ℕ, ◌≤◌, ◌≡◌, String, true, false, Option, none, some, arith, ◌&&◌, if◌then◌else◌, eqb, Bool-cases,
  Option-cases, inl, inr,
}
use nereus_door_loong_magic.Common.Table.{
  row, put, delete, row-put, row-delete, IsKeyed, put-IsKeyed,
}
use nereus_door_loong_magic.ScheduledTask.{
  Task, Service, Host, is_active, get_task, owns, update_row,
}
use nereus_door_loong_magic.ScheduledTask.Jobs.{
  validate_cron_expression, set_next_run_at, schedule_task, remove_task, refresh_task,
}

-- The cron expression of the job of a task, if it has a job.
abbrev pub job_of : ℕ → Service → Option String
job_of j s = elim s.jobs [ none ↦ none | some jobs ↦ row j jobs ]

abbrev pub due_of : Host → Option Task → Option String
due_of h none = none
due_of h (some t) =
    if is_active t.status && validate_cron_expression h t.cron_expression
    then some t.cron_expression
    else none

-- What the scheduler owes a task: the job of an active task with a valid cron expression, while the
-- scheduler runs.
abbrev pub due : Host → ℕ → Service → Option String
due h j s = elim s.jobs [ none ↦ none | some jobs ↦ due_of h (row j s.tasks) ]

-- No key stands twice, the table has no row beyond the next key, and the jobs are those that the tasks are owed.
pub record IsSynced (h : Host) (s : Service) : Type 0 where
  pub keyed : IsKeyed s.tasks
  pub fresh : (j : ℕ) → s.next_task ≤ j → row j s.tasks ≡ none
  pub jobs : (j : ℕ) → job_of j s ≡ due h j s

-- The same but for one task.
pub record IsSyncedBut (h : Host) (id : ℕ) (s : Service) : Type 0 where
  pub keyed : IsKeyed s.tasks
  pub fresh : (j : ℕ) → s.next_task ≤ j → row j s.tasks ≡ none
  pub jobs : (j : ℕ) → eqb id j ≡ false → job_of j s ≡ due h j s

pub row-update_row :
    (id : ℕ) (user : Option ℕ) (f : Task → Task) (s : Service) (t : Task)
    → row id s.tasks ≡ some t
    → owns user t ≡ true
    → (j : ℕ)
    → row j (update_row id user f s).1.tasks ≡ (if eqb id j then some (f t) else row j s.tasks)
unfolding update_row get_task
row-update_row id user f s t found mine j = ground (arith, row-put id j (f t) s.tasks)

-- The calls keep the keys of the table apart.
pub update_row-IsKeyed :
    (id : ℕ) (user : Option ℕ) (f : Task → Task) (s : Service)
    → IsKeyed s.tasks
    → IsKeyed (update_row id user f s).1.tasks
unfolding update_row get_task
update_row-IsKeyed id user f s ok = elim (Option-cases (row id s.tasks)) [
  | inl absent ↦ let e : (update_row id user f s).1 ≡ s = ground arith in rw e ok
  | inr (t, found) ↦ elim (Bool-cases (owns user t)) [
    | inr other ↦ let e : (update_row id user f s).1 ≡ s = ground arith in rw e ok
    | inl mine ↦
        let e : (update_row id user f s).1.tasks ≡ put id (f t) s.tasks = ground arith in
        rw e (put-IsKeyed id (f t) s.tasks ok)
  ]
]

pub tasks-remove_task : (id : ℕ) (s : Service) → (remove_task id s).tasks ≡ s.tasks
unfolding remove_task
tasks-remove_task id s = elim (Option-cases s.jobs) [
  | inl off ↦ ground arith
  | inr (jobs, on) ↦ ground arith
]

pub schedule_task-IsKeyed :
    (h : Host) (id : ℕ) (t : Task) (now : ℕ) (s : Service)
    → IsKeyed s.tasks
    → IsKeyed (schedule_task h id t now s).tasks
unfolding schedule_task
schedule_task-IsKeyed h id t now s ok = elim (Option-cases s.jobs) [
  | inl off ↦ let e : schedule_task h id t now s ≡ s = ground arith in rw e ok
  | inr (jobs, on) ↦ elim (Bool-cases (validate_cron_expression h t.cron_expression)) [
    | inr bad ↦ let e : schedule_task h id t now s ≡ s = ground arith in rw e ok
    | inl good ↦
        let s' : Service = record s { jobs = some (put id t.cron_expression jobs) } in
        let time : Option ℕ = h.next_run_time t.cron_expression now in
        let e : schedule_task h id t now s ≡ set_next_run_at id time s' = ground arith in
        rw e (update_row-IsKeyed id none (λ t. record t { next_run_at = time }) s' ok)
  ]
]

module _ (h : Host) (id : ℕ) (s : Service) where
  pub update_row-IsSyncedBut :
      (user : Option ℕ) (f : Task → Task)
      → IsSynced h s
      → IsSyncedBut h id (update_row id user f s).1
  unfolding update_row get_task
  update_row-IsSyncedBut user f ok = elim (Option-cases (row id s.tasks)) [
    | inl absent ↦ ground (arith, ok.keyed, ok.fresh, ok.jobs)
    | inr (t, found) ↦ elim (Bool-cases (owns user t)) [
      | inr other ↦ ground (arith, ok.keyed, ok.fresh, ok.jobs)
      | inl mine ↦ record {
        keyed = update_row-IsKeyed id user f s ok.keyed;
        fresh = λ j le. ground (arith, ok.fresh id, ok.fresh j, row-put id j (f t) s.tasks);
        jobs = λ j ne. ground (arith, ok.jobs j, row-put id j (f t) s.tasks);
      }
    ]
  ]

  pub remove_task-IsSynced : IsSyncedBut h id s → due h id s ≡ none → IsSynced h (remove_task id s)
  unfolding remove_task
  remove_task-IsSynced ok idle =
      let same : IsKeyed (remove_task id s).tasks = rw (tasks-remove_task id s) ok.keyed in
      elim (Option-cases s.jobs) [
        | inl off ↦ record {
          keyed = same;
          fresh = λ j le. ground (arith, ok.fresh j);
          jobs = λ j. ground arith;
        }
        | inr (jobs, on) ↦ record {
          keyed = same;
          fresh = λ j le. ground (arith, ok.fresh j);
          jobs = λ j. ground (arith, ok.jobs j, row-delete id j jobs);
        }
      ]

  -- An update that leaves the status and the cron expression alone.
  pub update_row-IsSynced :
      (user : Option ℕ) (f : Task → Task)
      → ((t : Task) → (f t).status ≡ t.status)
      → ((t : Task) → (f t).cron_expression ≡ t.cron_expression)
      → IsSynced h s
      → IsSynced h (update_row id user f s).1
  unfolding update_row get_task
  update_row-IsSynced user f same_status same_cron ok = elim (Option-cases (row id s.tasks)) [
    | inl absent ↦ ground (arith, ok.keyed, ok.fresh, ok.jobs)
    | inr (t, found) ↦ elim (Bool-cases (owns user t)) [
      | inr other ↦ ground (arith, ok.keyed, ok.fresh, ok.jobs)
      | inl mine ↦ record {
        keyed = update_row-IsKeyed id user f s ok.keyed;
        fresh = λ j le. ground (arith, ok.fresh id, ok.fresh j, row-put id j (f t) s.tasks);
        jobs =
            λ j. ground (arith, ok.jobs j, row-put id j (f t) s.tasks, same_status t, same_cron t);
      }
    ]
  ]

  schedule_task-IsSynced :
      (t : Task) (now : ℕ)
      → IsSyncedBut h id s
      → row id s.tasks ≡ some t
      → is_active t.status ≡ true
      → IsSynced h (schedule_task h id t now (remove_task id s))
  unfolding remove_task schedule_task update_row get_task
  schedule_task-IsSynced t now ok found on =
      let s' : Service = remove_task id s in
      let same : IsKeyed s'.tasks = rw (tasks-remove_task id s) ok.keyed in
      let kept : IsKeyed (schedule_task h id t now s').tasks =
        schedule_task-IsKeyed h id t now s' same in
      elim (Option-cases s.jobs) [
        | inl off ↦ record {
          keyed = kept;
          fresh = λ j le. ground (arith, ok.fresh j);
          jobs = λ j. ground arith;
        }
        | inr (jobs, run) ↦ elim (Bool-cases (validate_cron_expression h t.cron_expression)) [
          | inr bad ↦ record {
            keyed = kept;
            fresh = λ j le. ground (arith, ok.fresh j);
            jobs = λ j. ground (arith, ok.jobs j, row-delete id j jobs);
          }
          | inl good ↦
              let t' : Task = record t { next_run_at = h.next_run_time t.cron_expression now } in
              record {
                keyed = kept;
                fresh = λ j le. ground (arith, ok.fresh id, ok.fresh j, row-put id j t' s.tasks);
                jobs = λ j. ground (
                  arith,
                  ok.jobs j,
                  row-delete id j jobs,
                  row-put id j t.cron_expression (delete id jobs),
                  row-put id j t' s.tasks,
                );
              }
        ]
      ]

  pub refresh_task-IsSynced :
      (t : Task) (now : ℕ)
      → IsSyncedBut h id s
      → row id s.tasks ≡ some t
      → IsSynced h (refresh_task h id t now s)
  unfolding refresh_task
  refresh_task-IsSynced t now ok found = elim (Bool-cases (is_active t.status)) [
    | inl on ↦ rw on (schedule_task-IsSynced t now ok found on)
    | inr off ↦ rw off (remove_task-IsSynced ok (ground arith))
  ]
