-- ===== src/ToolAuthorization/Merging.antt =====
-- The grants of gateway/service/ToolAuthorizationService.py, and how they are written back to the
-- policies: _buildGrant, _mergeGrant, _grantToScheduledTask, _grantToInspectionPolicy and
-- _resolveSource.
use nereus_door_loong_magic.Common.{
  ℕ, String, Bool, Option, none, some, List, [], ◌∷◌, ◌++◌, map, contains, if◌then◌else◌, ◌==◌, eqb,
}
use nereus_door_loong_magic.Preauthorization.{ApprovalPolicy}
use nereus_door_loong_magic.ToolAuthorization.{Fragment, Row, Task, Service}

-- list(dict.fromkeys(paths)), the first occurrences
abbrev pub distinct_to : List String → List String → List String
distinct_to seen [] = seen
distinct_to seen (p ∷ ps) = distinct_to (if contains p seen then seen else seen ++ (p ∷ [])) ps

-- _buildGrant
unfoldable pub build_grant : Row → Fragment
build_grant r = record {
  tool_name = r.tool_name;
  paths = distinct_to [] r.paths;
  command_line = elim r.command_line [ none ↦ none | some c ↦ if c == "" then none else some c ];
}

-- `if x not in xs: xs.append(x)`
abbrev pub add_new : String → List String → List String
add_new x xs = if contains x xs then xs else xs ++ (x ∷ [])

abbrev pub add_all : List String → List String → List String
add_all [] xs = xs
add_all (p ∷ ps) xs = add_all ps (add_new p xs)

abbrev pub listed : Option (List String) → List String
listed none = []
listed (some xs) = xs

-- _mergeGrant
unfoldable pub merge_grant : ApprovalPolicy → Fragment → ApprovalPolicy
merge_grant p g = record p {
  allowed_tools =
      if g.tool_name == "" then p.allowed_tools else add_new g.tool_name p.allowed_tools;
  allowed_paths = add_all g.paths p.allowed_paths;
  allowed_commands = elim g.command_line [
    | none ↦ p.allowed_commands
    | some c ↦ if c == "" then p.allowed_commands else some (add_new c (listed p.allowed_commands))
  ];
}

abbrev pub task_of : ℕ → List (ℕ × Task) → Option Task
task_of t [] = none
task_of t (e ∷ tasks) = if eqb t e.0 then some e.1 else task_of t tasks

-- _grantToScheduledTask
unfoldable pub grant_to_scheduled_task : ℕ → Fragment → Service → Service
unfolding merge_grant
grant_to_scheduled_task t g s = elim (task_of t s.tasks) [
  | none ↦ s
  | some task ↦
      if task.is_deleted
      then s
      else let merged = record task { approval_policy = merge_grant task.approval_policy g } in
        record s { tasks = map (λ e. if eqb t e.0 then (e.0, merged) else e) s.tasks }
]

-- _grantToInspectionPolicy
unfoldable pub grant_to_inspection_policy : Fragment → Service → Service
unfolding merge_grant
grant_to_inspection_policy g s = record s { inspection_policy = merge_grant s.inspection_policy g }

-- What _resolveSource finds of a session in the tables of runs and of inspection reports.
pub data Source : Type 0 where
  scheduled : ℕ → Source
  inspection manual : Source

pub record Sessions : Type 0 where
  -- findRunBySessionId(session).taskId, if there is such a run with a task
  pub run_task : String → Option ℕ
  -- findBySessionId(session) is not None
  pub has_report : String → Bool

-- _resolveSource; a lookup that fails is one that finds nothing
unfoldable pub resolve_source : Sessions → String → Source
resolve_source db session = elim (db.run_task session) [
  | some t ↦ scheduled t
  | none ↦ if db.has_report session then inspection else manual
]

unfoldable pub write_back : Source → Fragment → Service → Service
unfolding grant_to_scheduled_task grant_to_inspection_policy
write_back (scheduled t) g s = grant_to_scheduled_task t g s
write_back inspection g s = grant_to_inspection_policy g s
write_back manual g s = s

-- `if path_prefix: grant["paths"] = [path_prefix]`
abbrev pub with_prefix : Option String → Fragment → Fragment
with_prefix none g = g
with_prefix (some prefix_) g = if prefix_ == "" then g else record g { paths = prefix_ ∷ [] }
