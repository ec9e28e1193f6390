-- ===== src/ScheduledTask/Scheduled.antt =====
-- Every call of gateway/service/ScheduledTaskService.py keeps the jobs of the scheduler in step with
-- the table of tasks.
use nereus_door_loong_magic.Common.{
  ℕ, ◌≡◌, String, true, false, Option, none, some, refl, arith, ◌&&◌, Bool-cases, Option-cases, inl,
  inr,
}
use nereus_door_loong_magic.Common.Table.{row}
use nereus_door_loong_magic.Elevation.Codes.{generate_code}
use nereus_door_loong_magic.ScheduledTask.{
  Task, Service, Host, is_active, is_pending_approval, owns, get_task, update_row, get_or_raise,
}
use nereus_door_loong_magic.ScheduledTask.Jobs.{remove_task, refresh_task}
use nereus_door_loong_magic.ScheduledTask.Operations.{
  pause_task, resume_task, delete_task, pause_row, resume_row, delete_row,
}
use nereus_door_loong_magic.ScheduledTask.Approvals.{
  is_given, approval_request, issue_approval_code, with_code, reissue_approval, reject_row,
  approve_row, approve_scheduled_task_policy, reject_scheduled_task_policy,
}
use nereus_door_loong_magic.ScheduledTask.Synced.{
  IsSynced, update_row-IsSynced, update_row-IsSyncedBut, remove_task-IsSynced,
  refresh_task-IsSynced, row-update_row,
}

module _ (h : Host) where
  pub issue-IsSynced :
      (id : ℕ) (drawn : String) (now : ℕ) (s : Service)
      → IsSynced h s
      → IsSynced h (issue_approval_code h id drawn now s).1
  unfolding issue_approval_code
  issue-IsSynced id drawn now s ok = elim (Option-cases (get_or_raise id none s.tasks)) [
    | inl absent ↦ let e : (issue_approval_code h id drawn now s).1 ≡ s = ground arith in rw e ok
    | inr (t, found) ↦
        let (entry, elevation) = generate_code (approval_request h id t drawn) now s.elevation in
        let s' : Service = record s { elevation = elevation } in
        let e : (issue_approval_code h id drawn now s).1
            ≡ (update_row id none (with_code entry.code) s').1 =
          ground arith in
        rw e (
          update_row-IsSynced h id s' none (with_code entry.code) (λ t. refl) (λ t. refl)
            (record { keyed = ok.keyed; fresh = ok.fresh; jobs = ok.jobs }))
  ]

  -- A visible task gets a status that is not active, and its job is removed.
  pub stop-IsSynced :
      (id : ℕ) (user : Option ℕ) (f : Task → Task) (s : Service) (t : Task)
      → IsSynced h s
      → row id s.tasks ≡ some t
      → owns user t ≡ true
      → is_active (f t).status ≡ false
      → IsSynced h (remove_task id (update_row id user f s).1)
  stop-IsSynced id user f s t ok found mine off =
      let s' : Service = (update_row id user f s).1 in
      let here : row id s'.tasks ≡ some (f t) =
        ground (arith, row-update_row id user f s t found mine id) in
      remove_task-IsSynced h id s' (update_row-IsSyncedBut h id s user f ok) (ground arith)

  -- A visible task is changed, and its job is registered anew where it is active.
  pub renew-IsSynced :
      (id : ℕ) (user : Option ℕ) (f : Task → Task) (now : ℕ) (s : Service) (t : Task)
      → IsSynced h s
      → row id s.tasks ≡ some t
      → owns user t ≡ true
      → IsSynced h (refresh_task h id (f t) now (update_row id user f s).1)
  renew-IsSynced id user f now s t ok found mine =
      let s' : Service = (update_row id user f s).1 in
      refresh_task-IsSynced h id s' (f t) now (update_row-IsSyncedBut h id s user f ok)
        (ground (arith, row-update_row id user f s t found mine id))

  pub pause-IsSynced :
      (id : ℕ) (user : Option ℕ) (s : Service) → IsSynced h s → IsSynced h (pause_task id user s).1
  unfolding pause_task get_or_raise get_task
  pause-IsSynced id user s ok = elim (Option-cases (get_or_raise id user s.tasks)) [
    | inl absent ↦ let e : (pause_task id user s).1 ≡ s = ground arith in rw e ok
    | inr (t, seen) ↦
        let found : row id s.tasks ≡ some t = ground arith in
        let mine : owns user t ≡ true = ground arith in
        let e : (pause_task id user s).1 ≡ remove_task id (update_row id user pause_row s).1 =
          ground (arith, row-update_row id user pause_row s t found mine id) in
        rw e (stop-IsSynced id user pause_row s t ok found mine refl)
  ]

  pub resume-IsSynced :
      (id : ℕ) (user : Option ℕ) (now : ℕ) (s : Service)
      → IsSynced h s
      → IsSynced h (resume_task h id user now s).1
  unfolding resume_task get_or_raise get_task
  resume-IsSynced id user now s ok = elim (Option-cases (get_or_raise id user s.tasks)) [
    | inl absent ↦ let e : (resume_task h id user now s).1 ≡ s = ground arith in rw e ok
    | inr (t, seen) ↦
        let found : row id s.tasks ≡ some t = ground arith in
        let mine : owns user t ≡ true = ground arith in
        let s' : Service = (update_row id user resume_row s).1 in
        let e : (resume_task h id user now s).1 ≡ refresh_task h id (resume_row t) now s' =
          ground (arith, row-update_row id user resume_row s t found mine id) in
        rw e (renew-IsSynced id user resume_row now s t ok found mine)
  ]

  pub delete-IsSynced :
      (id : ℕ) (user : Option ℕ) (s : Service) → IsSynced h s → IsSynced h (delete_task id user s).1
  unfolding delete_task get_or_raise get_task
  delete-IsSynced id user s ok = elim (Option-cases (get_or_raise id user s.tasks)) [
    | inl absent ↦ let e : (delete_task id user s).1 ≡ s = ground arith in rw e ok
    | inr (t, seen) ↦
        let found : row id s.tasks ≡ some t = ground arith in
        let mine : owns user t ≡ true = ground arith in
        let e : (delete_task id user s).1 ≡ remove_task id (update_row id user delete_row s).1 =
          ground arith in
        rw e (stop-IsSynced id user delete_row s t ok found mine refl)
  ]

  pub approve-IsSynced :
      (id : ℕ) (by tid : String) (now : ℕ) (s : Service)
      → IsSynced h s
      → IsSynced h (approve_scheduled_task_policy h id by tid now s).1
  unfolding approve_scheduled_task_policy get_or_raise get_task
  approve-IsSynced id by tid now s ok = elim (Option-cases (row id s.tasks)) [
    | inl absent ↦
        let e : (approve_scheduled_task_policy h id by tid now s).1 ≡ s = ground arith in rw e ok
    | inr (t, found) ↦ elim (Bool-cases (is_pending_approval t.status)) [
      | inr other ↦
          let e : (approve_scheduled_task_policy h id by tid now s).1 ≡ s = ground arith in rw e ok
      | inl waiting ↦
          let f : Task → Task = approve_row by tid now in
          let s' : Service = (update_row id none f s).1 in
          let e : (approve_scheduled_task_policy h id by tid now s).1
              ≡ refresh_task h id (f t) now s' =
            ground (arith, row-update_row id none f s t found refl id) in
          rw e (renew-IsSynced id none f now s t ok found refl)
    ]
  ]

  pub reject-IsSynced :
      (id : ℕ) (reason : String) (s : Service)
      → IsSynced h s
      → IsSynced h (reject_scheduled_task_policy id reason s).1
  unfolding reject_scheduled_task_policy get_task
  reject-IsSynced id reason s ok = elim (Option-cases (row id s.tasks)) [
    | inl absent ↦
        let e : (reject_scheduled_task_policy id reason s).1 ≡ s = ground arith in rw e ok
    | inr (t, found) ↦ elim (Bool-cases (is_pending_approval t.status)) [
      | inr other ↦
          let e : (reject_scheduled_task_policy id reason s).1 ≡ s = ground arith in rw e ok
      | inl waiting ↦
          let e : (reject_scheduled_task_policy id reason s).1
              ≡ remove_task id (update_row id none (reject_row reason) s).1 =
            ground arith in
          rw e (stop-IsSynced id none (reject_row reason) s t ok found refl (ground arith))
    ]
  ]

  pub reissue-IsSynced :
      (id : ℕ) (drawn : String) (now : ℕ) (s : Service)
      → IsSynced h s
      → IsSynced h (reissue_approval h id drawn now s).1
  unfolding reissue_approval
  reissue-IsSynced id drawn now s ok = elim (Option-cases (get_or_raise id none s.tasks)) [
    | inl absent ↦ let e : (reissue_approval h id drawn now s).1 ≡ s = ground arith in rw e ok
    | inr (t, seen) ↦
        elim (Bool-cases (is_pending_approval t.status && is_given t.approval_policy)) [
          | inr refused ↦
              let e : (reissue_approval h id drawn now s).1 ≡ s = ground arith in rw e ok
          | inl ready ↦
              let e : (reissue_approval h id drawn now s).1
                  ≡ (issue_approval_code h id drawn now s).1 =
                ground arith in
              rw e (issue-IsSynced id drawn now s ok)
        ]
  ]
