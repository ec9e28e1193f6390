-- ===== src/ScheduledTask/Approval.antt =====
-- The approval of policies in gateway/service/ScheduledTaskService.py, along every run of calls.
use nereus_door_loong_magic.Common.{
  ℕ, ◌≡◌, String, true, false, Option, none, some, refl, arith, ◌&&◌, Bool-cases, Option-cases, inl,
  inr,
}
use nereus_door_loong_magic.Common.Table.{row}
use nereus_door_loong_magic.Elevation.Codes.{generate_code}
use nereus_door_loong_magic.ScheduledTask.{
  Task, Service, Host, is_active, is_pending_approval, owns, get_task, update_row, get_or_raise,
}
use nereus_door_loong_magic.ScheduledTask.Jobs.{remove_task, refresh_task}
use nereus_door_loong_magic.ScheduledTask.Approvals.{
  is_given, approval_request, with_code, issue_approval_code, reissue_approval, approve_row,
  approve_scheduled_task_policy, reject_row, reject_scheduled_task_policy,
}
use nereus_door_loong_magic.ScheduledTask.Operations.{
  pause_row, pause_task, resume_row, resume_task, delete_row, delete_task,
}
use nereus_door_loong_magic.ScheduledTask.Synced.{row-update_row}
use nereus_door_loong_magic.ScheduledTask.Cleared.{
  settled, AllCleared, update_row-AllCleared, remove_task-AllCleared, refresh_task-AllCleared,
}

module _ (h : Host) where
  -- A code is issued for a task that does not run.
  pub issue-AllCleared :
      (id : ℕ) (drawn : String) (now : ℕ) (s : Service)
      → ((t : Task) → row id s.tasks ≡ some t → is_active t.status ≡ false)
      → AllCleared s
      → AllCleared (issue_approval_code h id drawn now s).1
  unfolding issue_approval_code
  issue-AllCleared id drawn now s idle ok = elim (Option-cases (get_or_raise id none s.tasks)) [
    | inl absent ↦ let e : (issue_approval_code h id drawn now s).1 ≡ s = ground arith in rw e ok
    | inr (t, found) ↦
        let (entry, elevation) = generate_code (approval_request h id t drawn) now s.elevation in
        let s' : Service = record s { elevation = elevation } in
        let e : (issue_approval_code h id drawn now s).1
            ≡ (update_row id none (with_code entry.code) s').1 =
          ground arith in
        rw e (
          update_row-AllCleared id none (with_code entry.code) s'
            (λ t' there. ground (arith, idle t')) ok)
  ]

  pub pause-AllCleared :
      (id : ℕ) (user : Option ℕ) (s : Service) → AllCleared s → AllCleared (pause_task id user s).1
  unfolding pause_task get_or_raise get_task
  pause-AllCleared id user s ok = elim (Option-cases (get_or_raise id user s.tasks)) [
    | inl absent ↦ let e : (pause_task id user s).1 ≡ s = ground arith in rw e ok
    | inr (t, seen) ↦
        let found : row id s.tasks ≡ some t = ground arith in
        let mine : owns user t ≡ true = ground arith in
        let s' : Service = (update_row id user pause_row s).1 in
        let e : (pause_task id user s).1 ≡ remove_task id s' =
          ground (arith, row-update_row id user pause_row s t found mine id) in
        rw e (
          remove_task-AllCleared id s'
            (update_row-AllCleared id user pause_row s (λ t' there. refl) ok))
  ]

  -- A task is resumed that is settled.
  pub resume-AllCleared :
      (id : ℕ) (user : Option ℕ) (now : ℕ) (s : Service)
      → ((t : Task) → row id s.tasks ≡ some t → settled t ≡ true)
      → AllCleared s
      → AllCleared (resume_task h id user now s).1
  unfolding resume_task get_or_raise get_task
  resume-AllCleared id user now s fine ok = elim (Option-cases (get_or_raise id user s.tasks)) [
    | inl absent ↦ let e : (resume_task h id user now s).1 ≡ s = ground arith in rw e ok
    | inr (t, seen) ↦
        let found : row id s.tasks ≡ some t = ground arith in
        let mine : owns user t ≡ true = ground arith in
        let s' : Service = (update_row id user resume_row s).1 in
        let e : (resume_task h id user now s).1 ≡ refresh_task h id (resume_row t) now s' =
          ground (arith, row-update_row id user resume_row s t found mine id) in
        rw e (
          refresh_task-AllCleared h id (resume_row t) now s'
            (update_row-AllCleared id user resume_row s fine ok))
  ]

  pub delete-AllCleared :
      (id : ℕ) (user : Option ℕ) (s : Service) → AllCleared s → AllCleared (delete_task id user s).1
  unfolding delete_task
  delete-AllCleared id user s ok = elim (Option-cases (get_or_raise id user s.tasks)) [
    | inl absent ↦ let e : (delete_task id user s).1 ≡ s = ground arith in rw e ok
    | inr (t, seen) ↦
        let s' : Service = (update_row id user delete_row s).1 in
        let e : (delete_task id user s).1 ≡ remove_task id s' = ground arith in
        rw e (
          remove_task-AllCleared id s'
            (update_row-AllCleared id user delete_row s (λ t' there. refl) ok))
  ]

  pub approve-AllCleared :
      (id : ℕ) (by tid : String) (now : ℕ) (s : Service)
      → AllCleared s
      → AllCleared (approve_scheduled_task_policy h id by tid now s).1
  unfolding approve_scheduled_task_policy get_or_raise get_task
  approve-AllCleared id by tid now s ok = elim (Option-cases (row id s.tasks)) [
    | inl absent ↦
        let e : (approve_scheduled_task_policy h id by tid now s).1 ≡ s = ground arith in rw e ok
    | inr (t, found) ↦ elim (Bool-cases (is_pending_approval t.status)) [
      | inr other ↦
          let e : (approve_scheduled_task_policy h id by tid now s).1 ≡ s = ground arith in rw e ok
      | inl waiting ↦
          let f : Task → Task = approve_row by tid now in
          let s' : Service = (update_row id none f s).1 in
          let e : (approve_scheduled_task_policy h id by tid now s).1
              ≡ refresh_task h id (f t) now s' =
            ground (arith, row-update_row id none f s t found refl id) in
          rw e (
            refresh_task-AllCleared h id (f t) now s'
              (update_row-AllCleared id none f s (λ t' there. ground arith) ok))
    ]
  ]

  pub reject-AllCleared :
      (id : ℕ) (reason : String) (s : Service)
      → AllCleared s
      → AllCleared (reject_scheduled_task_policy id reason s).1
  unfolding reject_scheduled_task_policy get_task
  reject-AllCleared id reason s ok = elim (Option-cases (row id s.tasks)) [
    | inl absent ↦
        let e : (reject_scheduled_task_policy id reason s).1 ≡ s = ground arith in rw e ok
    | inr (t, found) ↦ elim (Bool-cases (is_pending_approval t.status)) [
      | inr other ↦
          let e : (reject_scheduled_task_policy id reason s).1 ≡ s = ground arith in rw e ok
      | inl waiting ↦
          let s' : Service = (update_row id none (reject_row reason) s).1 in
          let e : (reject_scheduled_task_policy id reason s).1 ≡ remove_task id s' = ground arith in
          rw e (
            remove_task-AllCleared id s'
              (update_row-AllCleared id none (reject_row reason) s (λ t' there. ground arith) ok))
    ]
  ]

  pub reissue-AllCleared :
      (id : ℕ) (drawn : String) (now : ℕ) (s : Service)
      → AllCleared s
      → AllCleared (reissue_approval h id drawn now s).1
  unfolding reissue_approval get_or_raise get_task
  reissue-AllCleared id drawn now s ok = elim (Option-cases (get_or_raise id none s.tasks)) [
    | inl absent ↦ let e : (reissue_approval h id drawn now s).1 ≡ s = ground arith in rw e ok
    | inr (t, seen) ↦
        let found : row id s.tasks ≡ some t = ground arith in
        elim (Bool-cases (is_pending_approval t.status && is_given t.approval_policy)) [
          | inr refused ↦
              let e : (reissue_approval h id drawn now s).1 ≡ s = ground arith in rw e ok
          | inl ready ↦
              let e : (reissue_approval h id drawn now s).1
                  ≡ (issue_approval_code h id drawn now s).1 =
                ground arith in
              rw e (issue-AllCleared id drawn now s (λ t' there. ground arith) ok)
        ]
  ]
