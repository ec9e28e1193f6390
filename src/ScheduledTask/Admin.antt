-- ===== src/ScheduledTask/Admin.antt =====
-- The approval of a task's policy by its code: approve_code of gateway/controller/AdminController.py,
-- which joins gateway/service/elevation_service.py to gateway/service/ScheduledTaskService.py.
use nereus_door_loong_magic.Common.{ℕ, String, Option, none, some, if◌then◌else◌, ◌==◌}
use nereus_door_loong_magic.Crypto.{Primitives}
use nereus_door_loong_magic.Elevation.{Entry}
use nereus_door_loong_magic.Elevation.Codes.{get_code, approve_code}
use nereus_door_loong_magic.Elevation.Codes
use nereus_door_loong_magic.ScheduledTask.{Service, Host}
use nereus_door_loong_magic.ScheduledTask.Approvals.{approve_scheduled_task_policy}

-- The answers of the handler: an error where there is no code, or the code gives no token, or the task
-- does not wait for its approval; the exception of approve_code; and for a code of another kind, the
-- branches that are left to that kind.
pub data AdminReply : Type 0 where
  approved_task : (token : String) → AdminReply
  no_code : AdminReply
  no_token : AdminReply
  no_task : AdminReply
  died : AdminReply
  other_request : AdminReply

abbrev pub task_of : Option Entry → Option ℕ
task_of none = none
task_of (some e) = if e.request_type == "scheduled_task_policy" then e.task_id else none

-- approve_code, for the code of a scheduled task; `tid` is the id of the new token.
unfoldable pub approve_by_code :
    Primitives → Host → String → String → String → ℕ → Service → AdminReply × Service
unfolding get_code approve_code approve_scheduled_task_policy
approve_by_code c h code by tid now s =
    if code == ""
    then (no_code, s)
    else (let (entry, found) = get_code code now s.elevation in
        let (reply, approved_) = approve_code c code by tid now found in
        let s' : Service = record s { elevation = approved_ } in
        elim reply [
          | Codes.raised ↦ (died, s')
          | Codes.returned none ↦ (no_token, s')
          | Codes.returned (some token) ↦ elim (task_of entry) [
            | none ↦ (other_request, s')
            | some id ↦
                let (ok, s'') = approve_scheduled_task_policy h id by token.token_id now s' in
                if ok then (approved_task token.token_id, s'') else (no_task, s'')
          ]
        ])
