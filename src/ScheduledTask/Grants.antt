-- ===== src/ScheduledTask/Grants.antt =====
-- _grantToScheduledTask of gateway/service/ToolAuthorizationService.py, over the tables of the tasks:
-- the administrator's approval of a request for authorization widens the policy of the task.
use nereus_door_loong_magic.Common.{ℕ, Bool, true, false, Option, none, some, [], if◌then◌else◌}
use nereus_door_loong_magic.Common.Table.{row}
use nereus_door_loong_magic.ToolAuthorization.{Fragment}
use nereus_door_loong_magic.ToolAuthorization.Merging.{merge_grant}
use nereus_door_loong_magic.ScheduledTask.{TaskPolicy, Task, Service, is_deleted, update_row}

-- `dict(task.approvalPolicy or {})`; a number that is missing reads as 0.
abbrev pub policy_or_empty : Option TaskPolicy → TaskPolicy
policy_or_empty (some p) = p
policy_or_empty none = record {
  lists = record {
    allowed_tools = [];
    allowed_privileged_commands = [];
    allowed_commands = none;
    denied_paths = [];
    allowed_paths = [];
  };
  ttl_seconds = 0;
  max_runs = 0;
}

-- The policy is the only column that is written: neither the status nor the approval changes.
unfoldable pub with_grant : Fragment → Task → Task
with_grant g t =
    let p = policy_or_empty t.approval_policy in
    record t { approval_policy = some (record p { lists = merge_grant p.lists g }) }

unfoldable pub grant_to_scheduled_task : ℕ → Fragment → Service → Bool × Service
unfolding with_grant update_row
grant_to_scheduled_task id g s = elim (row id s.tasks) [
  | none ↦ (false, s)
  | some t ↦
      if is_deleted t.status then (false, s) else (true, (update_row id none (with_grant g) s).1)
]
