-- ===== src/ScheduledTask/InStep.antt =====
-- The jobs of gateway/scheduler/scheduler.py stay in step with the table through every run of calls.
use nereus_door_loong_magic.Common.{
  ℕ, ◌≡◌, String, true, false, Option, some, arith, eqb, Bool-cases, Option-cases, inl, inr,
}
use nereus_door_loong_magic.Common.Table.{row, row-put, put-IsKeyed}
use nereus_door_loong_magic.ScheduledTask.{
  Task, Service, Host, is_active, is_deleted, owns, get_task, update_row, get_or_raise,
}
use nereus_door_loong_magic.ScheduledTask.Jobs.{validate_cron_expression, remove_task, refresh_task}
use nereus_door_loong_magic.ScheduledTask.Operations.{
  TaskCreate, TaskUpdate, is_empty, cron_accepted, new_task, insert_task, apply_changes,
  create_task, change_task, update_task,
}
use nereus_door_loong_magic.ScheduledTask.Approvals.{is_given, issue_approval_code}
use nereus_door_loong_magic.ScheduledTask.Synced.{
  IsSynced, IsSyncedBut, due, job_of, update_row-IsSyncedBut, remove_task-IsSynced,
  refresh_task-IsSynced, row-update_row,
}
use nereus_door_loong_magic.ScheduledTask.Scheduled.{issue-IsSynced}

module _ (h : Host) where
  insert_task-IsSyncedBut :
      (t : Task) (s : Service) → IsSynced h s → IsSyncedBut h s.next_task (insert_task t s)
  insert_task-IsSyncedBut t s ok = record {
    keyed = put-IsKeyed s.next_task t s.tasks ok.keyed;
    fresh = λ j le. ground (arith, ok.fresh j, row-put s.next_task j t s.tasks);
    jobs = λ j ne. ground (arith, ok.jobs j, row-put s.next_task j t s.tasks);
  }

  -- A new task that is not active needs no job, and has none.
  insert_task-IsSynced :
      (t : Task) (s : Service)
      → is_active t.status ≡ false
      → IsSynced h s
      → IsSynced h (insert_task t s)
  insert_task-IsSynced t s off ok = record {
    keyed = put-IsKeyed s.next_task t s.tasks ok.keyed;
    fresh = (insert_task-IsSyncedBut t s ok).fresh;
    jobs = λ j. ground (arith, ok.jobs j, ok.fresh s.next_task, row-put s.next_task j t s.tasks);
  }

  pub create-IsSynced :
      (user : ℕ) (body : TaskCreate) (drawn : String) (now : ℕ) (s : Service)
      → IsSynced h s
      → IsSynced h (create_task h user body drawn now s).1
  unfolding create_task new_task
  create-IsSynced user body drawn now s ok =
      let t : Task = new_task user body in
      elim (Bool-cases (validate_cron_expression h body.cron_expression)) [
        | inr bad ↦ let e : (create_task h user body drawn now s).1 ≡ s = ground arith in rw e ok
        | inl good ↦ elim (Bool-cases (is_given body.approval_policy)) [
          | inl asks ↦
              let e : (create_task h user body drawn now s).1
                  ≡ (issue_approval_code h s.next_task drawn now (insert_task t s)).1 =
                ground arith in
              rw e (
                issue-IsSynced h s.next_task drawn now (insert_task t s)
                  (insert_task-IsSynced t s (ground arith) ok))
          | inr free ↦
              let e : (create_task h user body drawn now s).1
                  ≡ refresh_task h s.next_task t now (insert_task t s) =
                ground arith in
              rw e (
                refresh_task-IsSynced h s.next_task (insert_task t s) t now
                  (insert_task-IsSyncedBut t s ok)
                  (ground (arith, row-put s.next_task s.next_task t s.tasks)))
        ]
      ]

  pub complete-IsSynced :
      (id : ℕ) (s : Service) → IsSyncedBut h id s → job_of id s ≡ due h id s → IsSynced h s
  complete-IsSynced id s but this = record {
    keyed = but.keyed;
    fresh = but.fresh;
    jobs = λ j. elim (Bool-cases (eqb id j)) [
      | inl same ↦ ground (arith, this)
      | inr other ↦ but.jobs j other
    ];
  }

  -- The changes of updateTask to a visible task, each of its three ends.
  change_found-IsSynced :
      (id : ℕ) (user : Option ℕ) (body : TaskUpdate) (drawn : String) (now : ℕ) (s : Service)
      (t : Task)
      → IsSynced h s
      → row id s.tasks ≡ some t
      → owns user t ≡ true
      → IsSynced h (change_task h id user body drawn now s).1
  unfolding change_task get_or_raise get_task apply_changes
  change_found-IsSynced id user body drawn now s t ok found mine =
      let f : Task → Task = apply_changes body in
      let s' : Service = (update_row id user f s).1 in
      let written : (update_row id user f s).0 ≡ true = ground arith in
      let but : IsSyncedBut h id s' = update_row-IsSyncedBut h id s user f ok in
      let here : row id s'.tasks ≡ some (f t) =
        ground (arith, row-update_row id user f s t found mine id) in
      elim (Option-cases body.approval_policy) [
        | inr (p, given) ↦
            let e : (change_task h id user body drawn now s).1
                ≡ (issue_approval_code h id drawn now (remove_task id s')).1 =
              ground arith in
            rw e (
              issue-IsSynced h id drawn now (remove_task id s')
                (remove_task-IsSynced h id s' but (ground arith)))
        | inl free ↦ elim (Bool-cases (is_deleted t.status)) [
          | inl gone ↦
              let e : (change_task h id user body drawn now s).1 ≡ s' = ground arith in
              rw e (complete-IsSynced id s' but (ground (arith, ok.jobs id)))
          | inr kept ↦
              let e : (change_task h id user body drawn now s).1 ≡ refresh_task h id (f t) now s' =
                ground arith in
              rw e (refresh_task-IsSynced h id s' (f t) now but here)
        ]
      ]

  pub update-IsSynced :
      (id : ℕ) (user : Option ℕ) (body : TaskUpdate) (drawn : String) (now : ℕ) (s : Service)
      → IsSynced h s
      → IsSynced h (update_task h id user body drawn now s).1
  unfolding update_task change_task update_row get_task
  update-IsSynced id user body drawn now s ok = elim (Bool-cases (cron_accepted h body)) [
    | inr bad ↦ let e : (update_task h id user body drawn now s).1 ≡ s = ground arith in rw e ok
    | inl good ↦ elim (Bool-cases (is_empty body)) [
      | inl same ↦ let e : (update_task h id user body drawn now s).1 ≡ s = ground arith in rw e ok
      | inr some_ ↦ elim (Option-cases (get_task id user s.tasks)) [
        | inl absent ↦
            let e : (update_task h id user body drawn now s).1 ≡ s = ground arith in rw e ok
        | inr (t, seen) ↦
            let found : row id s.tasks ≡ some t = ground arith in
            let mine : owns user t ≡ true = ground arith in
            let e : (update_task h id user body drawn now s).1
                ≡ (change_task h id user body drawn now s).1 =
              ground arith in
            rw e (change_found-IsSynced id user body drawn now s t ok found mine)
      ]
    ]
  ]
