-- ===== src/ScheduledTask/Cleared.antt =====
-- Which tasks of gateway/service/ScheduledTaskService.py run with a policy that was approved.
use nereus_door_loong_magic.Common.{
  ℕ, ◌≡◌, Bool, true, false, Option, none, some, [], ◌∷◌, arith, ◌&&◌, if◌then◌else◌, Bool-cases,
  Option-cases, inl, inr,
}
use nereus_door_loong_magic.Common.Table.{Table, row, put, row-put}
use nereus_door_loong_magic.ScheduledTask.{
  Task, Service, Host, ApprovalStatus, approved, is_active, owns, get_task, update_row,
}
use nereus_door_loong_magic.ScheduledTask.Jobs.{
  validate_cron_expression, set_next_run_at, schedule_task, remove_task, refresh_task, schedule_all,
  start,
}
use nereus_door_loong_magic.ScheduledTask.Approvals.{is_given}
use nereus_door_loong_magic.ScheduledTask.Synced.{tasks-remove_task}

abbrev pub is_approved : Option ApprovalStatus → Bool
is_approved (some approved) = true
is_approved _ = false

-- A task without a policy, or one whose policy an administrator approved with a token.
abbrev pub settled : Task → Bool
settled t =
    if is_given t.approval_policy
    then is_approved t.approval_status
      && is_given t.approval_approved_by
      && is_given t.approval_token_id
    else true

abbrev pub cleared : Task → Bool
cleared t = if is_active t.status then settled t else true

abbrev pub cleared_of : Option Task → Bool
cleared_of none = true
cleared_of (some t) = cleared t

-- Every active task is settled.
abbrev pub AllCleared : Service → Type 0
AllCleared s = (j : ℕ) → cleared_of (row j s.tasks) ≡ true

pub update_row-AllCleared :
    (id : ℕ) (user : Option ℕ) (f : Task → Task) (s : Service)
    → ((t : Task) → row id s.tasks ≡ some t → cleared (f t) ≡ true)
    → AllCleared s
    → AllCleared (update_row id user f s).1
unfolding update_row get_task
update_row-AllCleared id user f s good ok = elim (Option-cases (row id s.tasks)) [
  | inl absent ↦ λ j. ground (arith, ok j)
  | inr (t, found) ↦ elim (Bool-cases (owns user t)) [
    | inr other ↦ λ j. ground (arith, ok j)
    | inl mine ↦ λ j. ground (arith, ok j, good t found, row-put id j (f t) s.tasks)
  ]
]

pub remove_task-AllCleared : (id : ℕ) (s : Service) → AllCleared s → AllCleared (remove_task id s)
remove_task-AllCleared id s ok j = rw (tasks-remove_task id s) (ok j)

module _ (h : Host) where
  pub schedule_task-AllCleared :
      (id : ℕ) (t : Task) (now : ℕ) (s : Service)
      → AllCleared s
      → AllCleared (schedule_task h id t now s)
  unfolding schedule_task
  schedule_task-AllCleared id t now s ok = elim (Option-cases s.jobs) [
    | inl off ↦ let e : schedule_task h id t now s ≡ s = ground arith in rw e ok
    | inr (jobs, on) ↦ elim (Bool-cases (validate_cron_expression h t.cron_expression)) [
      | inr bad ↦ let e : schedule_task h id t now s ≡ s = ground arith in rw e ok
      | inl good ↦
          let s' : Service = record s { jobs = some (put id t.cron_expression jobs) } in
          let time : Option ℕ = h.next_run_time t.cron_expression now in
          let e : schedule_task h id t now s ≡ set_next_run_at id time s' = ground arith in
          rw e (
            update_row-AllCleared id none (λ t. record t { next_run_at = time }) s'
              (λ t' found. ground (arith, ok id)) ok)
    ]
  ]

  pub refresh_task-AllCleared :
      (id : ℕ) (t : Task) (now : ℕ) (s : Service)
      → AllCleared s
      → AllCleared (refresh_task h id t now s)
  unfolding refresh_task
  refresh_task-AllCleared id t now s ok = elim (Bool-cases (is_active t.status)) [
    | inl on ↦
        rw on
          (schedule_task-AllCleared id t now (remove_task id s) (remove_task-AllCleared id s ok))
    | inr off ↦ rw off (remove_task-AllCleared id s ok)
  ]

  schedule_all-AllCleared :
      (now : ℕ) (tasks : Table Task) (s : Service)
      → AllCleared s
      → AllCleared (schedule_all h now tasks s)
  unfolding schedule_all
  schedule_all-AllCleared now [] s ok = ok
  schedule_all-AllCleared now ((id, t) ∷ tasks) s ok =
      let rest = schedule_all-AllCleared now tasks s ok in
      elim (Bool-cases (is_active t.status)) [
        | inl on ↦ rw on (schedule_task-AllCleared id t now (schedule_all h now tasks s) rest)
        | inr off ↦ rw off rest
      ]

  pub start-AllCleared : (now : ℕ) (s : Service) → AllCleared s → AllCleared (start h now s)
  unfolding start
  start-AllCleared now s ok = elim (Option-cases s.jobs) [
    | inr (jobs, on) ↦ let e : start h now s ≡ s = ground arith in rw e ok
    | inl off ↦
        let s0 : Service = record s {
          jobs = some [];
          inspection_job = some s.inspection_interval_minutes;
        } in
        let e : start h now s ≡ schedule_all h now s.tasks s0 = ground arith in
        rw e (schedule_all-AllCleared now s.tasks s0 ok)
  ]
