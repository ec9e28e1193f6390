-- ===== src/ScheduledTask/Running.antt =====
-- What runTask of gateway/service/ScheduledTaskService.py refuses, and what it leaves in the tables.
use nereus_door_loong_magic.Common.{
  ℕ, suc, ◌≡◌, ◌⊎◌, Bool, true, false, none, some, refl, arith, ◌||◌, if◌then◌else◌, eqb,
  Bool-cases, Option-cases, inl, inr,
}
use nereus_door_loong_magic.Common.Table.{Table, row, put, row-put}
use nereus_door_loong_magic.ScheduledTask.{
  Task, Run, Service, is_deleted, is_pending_approval, get_task, update_row, get_or_raise,
}
use nereus_door_loong_magic.ScheduledTask.Approvals.{returned}
use nereus_door_loong_magic.ScheduledTask.Runs.{
  Outcome, completed, failed, new_run, begin_run, finished_run, finish_run, mark_last_run, end_run,
  RunReply, ran, refused, raised, run_task,
}

-- The halves of runTask leave the tasks and the scheduler alone, but for the time of the last run.
pub record IsFramed (s s' : Service) : Type 0 where
  pub tasks : s'.tasks ≡ s.tasks
  pub next_task : s'.next_task ≡ s.next_task
  pub jobs : s'.jobs ≡ s.jobs

pub begin_run-IsFramed : (id : ℕ) (s : Service) → IsFramed s (begin_run id s).1
unfolding begin_run
begin_run-IsFramed id s = elim (Option-cases (get_or_raise id none s.tasks)) [
  | inl absent ↦ ground arith
  | inr (t, found) ↦ elim (Bool-cases (is_deleted t.status || is_pending_approval t.status)) [
    | inl barred ↦ ground arith
    | inr free ↦ ground arith
  ]
]

pub finish_run-IsFramed :
    (run : ℕ) (outcome : Outcome) (now : ℕ) (s : Service)
    → IsFramed s (finish_run run outcome now s)
unfolding finish_run
finish_run-IsFramed run outcome now s = elim (Option-cases (row run s.runs)) [
  | inl absent ↦ ground arith
  | inr (r, found) ↦ ground arith
]

mark_last_run-keeps :
    (id now : ℕ) (s : Service)
    → ((mark_last_run id now s).runs ≡ s.runs) × ((mark_last_run id now s).next_run ≡ s.next_run)
unfolding mark_last_run update_row get_task
mark_last_run-keeps id now s = elim (Option-cases (row id s.tasks)) [
  | inl absent ↦ (ground arith, ground arith)
  | inr (t, found) ↦ (ground arith, ground arith)
]

-- The second half of runTask writes the row of the run.
runs-end_run :
    (id run : ℕ) (outcome : Outcome) (now : ℕ) (s : Service) (r : Run)
    → row run s.runs ≡ some r
    → ((end_run id run outcome now s).runs ≡ put run (finished_run outcome now r) s.runs)
      × ((end_run id run outcome now s).next_run ≡ s.next_run)
unfolding end_run finish_run
runs-end_run id run (completed session status summary error usage) now s r there =
    let outcome : Outcome = completed session status summary error usage in
    let keeps = mark_last_run-keeps id now (finish_run run outcome now s) in
    (ground (arith, keeps.0), ground (arith, keeps.1))
runs-end_run id run (failed message) now s r there = (ground arith, ground arith)

-- A task that may run: one that is neither deleted nor waits for its approval.
abbrev pub may_run : Task → Bool
may_run t = if is_deleted t.status || is_pending_approval t.status then false else true

-- The row of a run that has ended: the result of the agent, or the status error and the message.
abbrev pub Ended : Outcome → (now task : ℕ) → Run → Type 0
Ended (completed session status summary error usage) now task r = r ≡ record {
  task_id = task;
  session_id = some session;
  status = status;
  finished_at = some now;
  result_summary = summary;
  error_message = error;
  token_usage = usage;
}
Ended (failed message) now task r = r ≡ record {
  task_id = task;
  session_id = none;
  status = "error";
  finished_at = some now;
  result_summary = none;
  error_message = some message;
  token_usage = none;
}

finished-Ended :
    (outcome : Outcome) (now task : ℕ)
    → Ended outcome now task (finished_run outcome now (new_run task))
finished-Ended (completed session status summary error usage) now task = refl
finished-Ended (failed message) now task = refl

abbrev pub answer_of : Outcome → Run → RunReply
answer_of (completed session status summary error usage) r = ran (some r)
answer_of (failed message) r = raised message

-- What a run that was begun leaves: one new row, finished as the outcome says.
pub record IsRun (id : ℕ) (outcome : Outcome) (now : ℕ) (s : Service) (o : RunReply × Service)
    : Type 0 where
  pub run : Run
  pub finished : row s.next_run o.1.runs ≡ some run
  pub ended : Ended outcome now id run
  pub others : (j : ℕ) → eqb s.next_run j ≡ false → row j o.1.runs ≡ row j s.runs
  pub next : o.1.next_run ≡ suc s.next_run
  pub answer : o.0 ≡ answer_of outcome run

-- runTask is its second half after a first half that refuses nothing.
run_task-begun :
    (id run : ℕ) (outcome : Outcome) (now : ℕ) (s s' : Service) (r : Run)
    → begin_run id s ≡ (returned run, s')
    → row run (end_run id run outcome now s').runs ≡ some r
    → run_task id outcome now s ≡ (answer_of outcome r, end_run id run outcome now s')
unfolding run_task
run_task-begun id run (completed session status summary error usage) now s s' r start there =
    ground arith
run_task-begun id run (failed message) now s s' r start there = ground arith

module _ (id : ℕ) (outcome : Outcome) (now : ℕ) (s : Service) where
  run_task-refused :
      get_or_raise id none s.tasks ≡ none
        ⊎ ((t : Task) × (get_or_raise id none s.tasks ≡ some t) × (may_run t ≡ false))
      → run_task id outcome now s ≡ (refused, s)
  unfolding run_task begin_run
  run_task-refused (inl absent) = ground arith
  run_task-refused (inr (t, found, barred)) = ground arith

  run_task-IsRun :
      (t : Task)
      → get_or_raise id none s.tasks ≡ some t
      → may_run t ≡ true
      → IsRun id outcome now s (run_task id outcome now s)
  unfolding run_task begin_run
  run_task-IsRun t found free =
      let r : Run = finished_run outcome now (new_run id) in
      let begun : Table Run = put s.next_run (new_run id) s.runs in
      let s' : Service = record s { runs = begun; next_run = suc s.next_run } in
      let start : begin_run id s ≡ (returned s.next_run, s') = ground arith in
      let there : row s.next_run begun ≡ some (new_run id) =
        ground (arith, row-put s.next_run s.next_run (new_run id) s.runs) in
      let ends = runs-end_run id s.next_run outcome now s' (new_run id) there in
      let here : row s.next_run (put s.next_run r begun) ≡ some r =
        ground (arith, row-put s.next_run s.next_run r begun) in
      let e : run_task id outcome now s
          ≡ (answer_of outcome r, end_run id s.next_run outcome now s') =
        run_task-begun id s.next_run outcome now s s' r start (rw ends.0 here) in
      rw e (record {
        run = r;
        finished = rw ends.0 here;
        ended = finished-Ended outcome now id;
        others = λ j ne. rw ends.0 (
            ground (arith, row-put s.next_run j r begun, row-put s.next_run j (new_run id) s.runs));
        next = ends.1;
        answer = refl;
      })

  -- A task that may run: one that is there, is not deleted and does not wait for its approval.
  abbrev pub admits : Bool
  admits = elim (get_or_raise id none s.tasks) [ none ↦ false | some t ↦ may_run t ]

  -- runTask of a task that is there, is neither deleted nor waits for its approval, makes one row of
  -- the table of runs and ends it with the outcome of the agent: its result, or the status error and
  -- the message of the exception, which is raised again; no other run changes. For every other task
  -- it raises the exception of an invalid parameter and changes nothing.
  pub run_task-branches :
      ((admits ≡ true) × IsRun id outcome now s (run_task id outcome now s))
      ⊎ ((admits ≡ false) × (run_task id outcome now s ≡ (refused, s)))
  run_task-branches = elim (Option-cases (get_or_raise id none s.tasks)) [
    | inl absent ↦ inr (ground arith, run_task-refused (inl absent))
    | inr (t, found) ↦ elim (Bool-cases (may_run t)) [
      | inl free ↦ inl (ground arith, run_task-IsRun t found free)
      | inr kept ↦ inr (ground arith, run_task-refused (inr (t, found, kept)))
    ]
  ]
