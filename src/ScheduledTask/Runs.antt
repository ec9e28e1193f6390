-- ===== src/ScheduledTask/Runs.antt =====
-- runTask of gateway/service/ScheduledTaskService.py. Between its two halves the agent runs, and
-- other operations may come.
use nereus_door_loong_magic.Common.{ℕ, suc, String, Option, none, some, if◌then◌else◌, ◌||◌}
use nereus_door_loong_magic.Common.Table.{row, put}
use nereus_door_loong_magic.ScheduledTask.{
  Run, Service, is_deleted, is_pending_approval, get_or_raise, update_row,
}
use nereus_door_loong_magic.ScheduledTask.Approvals.{Reply, returned, invalid_param}

-- createRun
abbrev pub new_run : ℕ → Run
new_run task = record {
  task_id = task;
  session_id = none;
  status = "running";
  finished_at = none;
  result_summary = none;
  error_message = none;
  token_usage = none;
}

-- runTask up to the run of the agent: the number of the run.
unfoldable pub begin_run : ℕ → Service → Reply ℕ × Service
unfolding get_or_raise
begin_run id s = elim (get_or_raise id none s.tasks) [
  | none ↦ (invalid_param, s)
  | some t ↦ if is_deleted t.status || is_pending_approval t.status then (invalid_param, s) else (
    returned s.next_run,
    record s { runs = put s.next_run (new_run id) s.runs; next_run = suc s.next_run },
  )
]

-- What createEphemeralRun returns or raises.
pub data Outcome : Type 0 where
  completed : (session status : String) (summary error usage : Option String) → Outcome
  failed : (message : String) → Outcome

-- finishRun
abbrev pub finished_run : Outcome → ℕ → Run → Run
finished_run (completed session status summary error usage) now r = record r {
  session_id = some session;
  status = status;
  finished_at = some now;
  result_summary = summary;
  error_message = error;
  token_usage = usage;
}
finished_run (failed message) now r = record r {
  session_id = none;
  status = "error";
  finished_at = some now;
  result_summary = none;
  error_message = some message;
  token_usage = none;
}

unfoldable pub finish_run : ℕ → Outcome → ℕ → Service → Service
finish_run run outcome now s = elim (row run s.runs) [
  | none ↦ s
  | some r ↦ record s { runs = put run (finished_run outcome now r) s.runs }
]

-- markLastRun
unfoldable pub mark_last_run : ℕ → ℕ → Service → Service
unfolding update_row
mark_last_run id now s = (update_row id none (λ t. record t { last_run_at = some now }) s).1

-- runTask after the run of the agent.
unfoldable pub end_run : ℕ → ℕ → Outcome → ℕ → Service → Service
unfolding finish_run mark_last_run
end_run id run (completed session status summary error usage) now s =
    mark_last_run id now (finish_run run (completed session status summary error usage) now s)
end_run id run (failed message) now s = finish_run run (failed message) now s

-- What runTask gives back: the row of the run, or the exception raised again.
pub data RunReply : Type 0 where
  ran : Option Run → RunReply
  refused : RunReply
  raised : String → RunReply

-- runTask with no other operation in between.
unfoldable pub run_task : ℕ → Outcome → ℕ → Service → RunReply × Service
unfolding begin_run end_run
run_task id outcome now s =
    let (reply, s') = begin_run id s in
    elim reply [
      | invalid_param ↦ (refused, s')
      | returned run ↦
          let s'' = end_run id run outcome now s' in
          elim outcome [
            | completed session status summary error usage ↦ (ran (row run s''.runs), s'')
            | failed message ↦ (raised message, s'')
          ]
    ]
