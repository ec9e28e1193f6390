-- ===== src/ScheduledTask/Approved.antt =====
-- Every run of calls of gateway/service/ScheduledTaskService.py activates approved policies only,
-- but for resumeTask and for a grant to an active task without a policy.
use nereus_door_loong_magic.Common.{◌≡◌, Bool, true, if◌then◌else◌, none, some, List, [], ◌∷◌}
use nereus_door_loong_magic.Common.Table.{row}
use nereus_door_loong_magic.ScheduledTask.{Task, Service, Host, is_active}
use nereus_door_loong_magic.ScheduledTask.Approvals.{is_given}
use nereus_door_loong_magic.ScheduledTask.Cleared.{settled}
use nereus_door_loong_magic.ScheduledTask.Steps.{Call, resume, grant, step}

-- A grant that is written into this task gives no policy to an active task that had none.
abbrev pub takes_grant : Task → Bool
takes_grant t = if is_active t.status then is_given t.approval_policy else true

-- A call resumes no task whose policy was not approved, and grants nothing to an active task that has
-- no policy.
abbrev pub is_vetted : Call → Service → Bool
is_vetted (resume id user now) s = elim (row id s.tasks) [ none ↦ true | some t ↦ settled t ]
is_vetted (grant id g) s = elim (row id s.tasks) [ none ↦ true | some t ↦ takes_grant t ]
is_vetted _ s = true

abbrev pub AllVetted : Host → List Call → Service → Type 0
AllVetted h [] s = Unit {0}
AllVetted h (call ∷ calls) s = (is_vetted call s ≡ true) × AllVetted h calls (step h call s)
