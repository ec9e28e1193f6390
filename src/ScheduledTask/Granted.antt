-- ===== src/ScheduledTask/Granted.antt =====
-- The whole way of a policy: createTask, the code that it issues, the administrator's approval of that
-- code, and runTask.
use nereus_door_loong_magic.Common.{
  ℕ, ◌+◌, ◌≤◌, ◌≡◌, String, true, false, Option, none, some, [], refl, arith, ◌==◌, Option-cases,
  inl, inr,
}
use nereus_door_loong_magic.Common.Dict.{lookup, insert, lookup-insert_self}
use nereus_door_loong_magic.Common.Table.{row, row-put}
use nereus_door_loong_magic.Crypto.{Primitives}
use nereus_door_loong_magic.Elevation
use nereus_door_loong_magic.Elevation.{
  Entry, Token, entry_is_expired, new_token, bind_commands, issue_time,
}
use nereus_door_loong_magic.Elevation.Codes
use nereus_door_loong_magic.Elevation.Codes.{
  is_pending, new_entry, expire_if_open, expire_previous, approve_entry, generate_code, get_code,
  approve_code,
}
use nereus_door_loong_magic.ScheduledTask.{
  active, approved, Task, TaskPolicy, Service, Host, is_pending_approval, get_task, update_row,
  get_or_raise,
}
use nereus_door_loong_magic.ScheduledTask.Jobs.{validate_cron_expression, refresh_task}
use nereus_door_loong_magic.ScheduledTask.Approvals.{
  returned, or_default, approval_request, with_code, issue_approval_code, approve_row,
  approve_scheduled_task_policy,
}
use nereus_door_loong_magic.ScheduledTask.Operations.{
  TaskCreate, new_task, insert_task, create_task,
}
use nereus_door_loong_magic.ScheduledTask.Runs.{begin_run}
use nereus_door_loong_magic.ScheduledTask.Synced.{row-update_row}
use nereus_door_loong_magic.ScheduledTask.Resumed.{row-refresh_task}
use nereus_door_loong_magic.ScheduledTask.Admin.{approved_task, approve_by_code}

-- The elevation service grants a token for a pending code that asks for no commands.
module _ (c : Primitives) (code by tid : String) (now : ℕ) (e : Entry) where
  token-approve_code :
      (s : Elevation.Service)
      → lookup code s.codes ≡ some e
      → is_pending e.status ≡ true
      → entry_is_expired e now ≡ false
      → e.commands ≡ []
      → (t : Token) × ((get_code code now s).0 ≡ some e)
        × (t.token_id ≡ tid)
        × ((approve_code c code by tid now (get_code code now s).1).0 ≡ Codes.returned (some t))
  unfolding get_code approve_code new_token bind_commands
  token-approve_code s found open_ early bare =
      let same : expire_if_open now e ≡ e = ground arith in
      let s' : Elevation.Service = record s { codes = insert code e s.codes } in
      let got : get_code code now s ≡ (some e, s') = ground arith in
      let there : lookup code s'.codes ≡ some e = lookup-insert_self code e s.codes in
      let granted : Entry = approve_entry by tid now e in
      let none_asked : bind_commands c granted.commands ≡ some [] = rw bare refl in
      elim (Option-cases (new_token c tid granted now)) [
        | inl malformed ↦ absurd (ground arith)
        | inr (t, built) ↦ rw got (t, refl, ground arith, ground arith)
      ]

-- A task that waits is made active, and runTask admits it.
module _ (h : Host) (id : ℕ) (by tid : String) (now : ℕ) (s : Service) (t : Task) where
  approve-admits :
      row id s.tasks ≡ some t
      → is_pending_approval t.status ≡ true
      → (time : Option ℕ) × ((approve_scheduled_task_policy h id by tid now s).0 ≡ true)
        × (row id (approve_scheduled_task_policy h id by tid now s).1.tasks
            ≡ some (record (approve_row by tid now t) { next_run_at = time }))
  unfolding approve_scheduled_task_policy get_or_raise get_task
  approve-admits found waiting =
      let f : Task → Task = approve_row by tid now in
      let s' : Service = (update_row id none f s).1 in
      let here : row id s'.tasks ≡ some (f t) =
        ground (arith, row-update_row id none f s t found refl id) in
      let e : approve_scheduled_task_policy h id by tid now s
          ≡ (true, refresh_task h id (f t) now s') =
        ground arith in
      let (time, there, next) = row-refresh_task h id (f t) now s' here in rw e (time, refl, there)

-- What createTask leaves of a task with a policy.
module _ (h : Host) (user : ℕ) (body : TaskCreate) (drawn : String) (now : ℕ) (s : Service)
    (p : TaskPolicy) where
  abbrev created : Service
  created = (create_task h user body drawn now s).1

  created-waits :
      validate_cron_expression h body.cron_expression ≡ true
      → body.approval_policy ≡ some p
      → (row s.next_task created.tasks ≡ some (with_code drawn (new_task user body)))
        × (lookup drawn created.elevation.codes
            ≡ some (new_entry (approval_request h s.next_task (new_task user body) drawn) now))
  unfolding create_task issue_approval_code get_or_raise get_task generate_code new_task
      approval_request new_entry
  created-waits good asks =
      let t : Task = new_task user body in
      let id : ℕ = s.next_task in
      let r : Codes.Request = approval_request h id t drawn in
      let s' : Service = record (insert_task t s) {
        elevation = (generate_code r now s.elevation).1;
      } in
      let there : row id s'.tasks ≡ some t = ground (arith, row-put id id t s.tasks) in
      let e : created ≡ (update_row id none (with_code drawn) s').1 = ground arith in
      let kept : (update_row id none (with_code drawn) s').1.elevation ≡ s'.elevation =
        ground arith in
      (
        rw e (ground (arith, row-update_row id none (with_code drawn) s' t there refl id)),
        rw (e, kept) (lookup-insert_self drawn (new_entry r now) (expire_previous r s.elevation)),
      )

-- A task that is active by an approval: with its policy, the administrator's name, the time and the
-- token.
pub record IsGranted (p : TaskPolicy) (by tid : String) (now : ℕ) (t : Task) : Type 0 where
  pub active_ : t.status ≡ active
  pub approved_ : t.approval_status ≡ some approved
  pub by_ : t.approval_approved_by ≡ some by
  pub at_ : t.approval_approved_at ≡ some now
  pub token : t.approval_token_id ≡ some tid
  pub policy : t.approval_policy ≡ some p

-- createTask with a valid cron expression and a policy issues a code that an administrator can approve
-- until its time is over: the approval by that code succeeds, the task is then active with its policy,
-- the status approved, the administrator's name, the time of the approval and the token, and runTask
-- admits it.
pub issued-activates :
    (c : Primitives) (h : Host) (user : ℕ) (body : TaskCreate) (drawn by tid : String)
    (now later : ℕ) (s : Service) (p : TaskPolicy)
    → validate_cron_expression h body.cron_expression ≡ true
    → body.approval_policy ≡ some p
    → (drawn == "") ≡ false
    → later ≤ now + or_default p.ttl_seconds 3600
    → (t : Task) × ((approve_by_code c h drawn by tid later
          (create_task h user body drawn now s).1).0
        ≡ approved_task tid)
      × (row s.next_task
            (approve_by_code c h drawn by tid later (create_task h user body drawn now s).1).1.tasks
          ≡ some t)
      × IsGranted p by tid later t
      × ((begin_run s.next_task
            (approve_by_code c h drawn by tid later (create_task h user body drawn now s).1).1).0
          ≡ returned
              (approve_by_code c h drawn by tid later
                (create_task h user body drawn now s).1).1.next_run)
unfolding approve_by_code begin_run get_or_raise get_task new_task new_entry approval_request
    entry_is_expired
issued-activates c h user body drawn by tid now later s p good asks named early =
    let id : ℕ = s.next_task in
    let t : Task = with_code drawn (new_task user body) in
    let s1 : Service = (create_task h user body drawn now s).1 in
    let e : Entry = new_entry (approval_request h id (new_task user body) drawn) now in
    let (waiting, coded) = created-waits h user body drawn now s p good asks in
    let (token, got, number, granted) =
      token-approve_code c drawn by tid later e s1.elevation coded refl (ground arith) refl in
    let s2 : Service = record s1 {
      elevation = (approve_code c drawn by tid later (get_code drawn later s1.elevation).1).1;
    } in
    let (time, ok, there) = approve-admits h id by tid later s2 t waiting (ground arith) in
    let o : approve_by_code c h drawn by tid later s1
        ≡ (approved_task tid, (approve_scheduled_task_policy h id by tid later s2).1) =
      ground arith in
    let t' : Task = record (approve_row by tid later t) { next_run_at = time } in
    let granted' : IsGranted p by tid later t' = record {
      active_ = refl;
      approved_ = refl;
      by_ = refl;
      at_ = refl;
      token = refl;
      policy = ground arith;
    } in
    rw o (t', refl, there, granted', ground arith)
