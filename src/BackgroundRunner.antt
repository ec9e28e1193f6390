-- ===== src/BackgroundRunner.antt =====
-- gateway/service/AgentBackgroundRunner.py: the loops that work on the messages of one session.
-- An asyncio task runs from one await to the next without interruption, and submit, cancel and the
-- `finally` block hold the lock; the operations below are these sections.
pub mod Steps
pub mod Order
pub mod Events
pub mod Transcript
mod Tests
use nereus_door_loong_magic.Common.{
  ℕ, suc, String, Bool, true, false, not, ◌&&◌, Option, none, some, List, [], ◌∷◌, ◌++◌, map, eqb,
  if◌then◌else◌,
}
use nereus_door_loong_magic.EventBuffer.{Buffer, new_buffer, mark_done, reset_for_new_round}

-- One task of _runAgentLoop: the message that it works on, or `none` behind the loop over the
-- messages, where only the `finally` block is left.
pub record Loop : Type 0 where
  pub number : ℕ
  pub message : Option String
  pub cancelled : Bool

-- An entry of `_sessions`, the tasks that are alive, and the status of the session's row.
-- `submitted` lists the messages that submit was given, `taken` those that a loop began to work on.
pub record Runner : Type 0 where
  pub running : Bool
  pub queue : List String
  pub task : Option ℕ
  pub buffer : Buffer
  pub status : String
  pub loops : List Loop
  pub next_loop : ℕ
  pub submitted : List String
  pub taken : List String

-- A session that submit has just entered.
abbrev pub new_session : Runner
new_session = record {
  running = false;
  queue = [];
  task = none;
  buffer = new_buffer 1000;
  status = "idle";
  loops = [];
  next_loop = 0;
  submitted = [];
  taken = [];
}

abbrev pub new_loop : ℕ → String → Loop
new_loop n message = record { number = n; message = some message; cancelled = false }

-- `asyncio.create_task(self._runAgentLoop(sessionId, message))`
abbrev pub start_loop : String → Runner → Runner
start_loop message s = record s {
  loops = s.loops ++ (new_loop s.next_loop message ∷ []);
  next_loop = suc s.next_loop;
  taken = s.taken ++ (message ∷ []);
}

-- submit
unfoldable pub submit : String → Runner → Runner
submit message s0 =
    let s : Runner = record s0 { submitted = s0.submitted ++ (message ∷ []) } in
    if s.running
    then record s { queue = s.queue ++ (message ∷ []) }
    else start_loop message (record s {
      running = true;
      buffer = reset_for_new_round s.buffer;
      task = some s.next_loop;
    })

abbrev pub cancel_loop : Option ℕ → Loop → Loop
cancel_loop none l = l
cancel_loop (some n) l = if eqb n l.number then record l { cancelled = true } else l

-- cancel, of a session that is known
unfoldable pub cancel : Runner → Runner
cancel s = record s { loops = map (cancel_loop s.task) s.loops; queue = []; running = false }

-- What follows the loop over the messages: `updateStatus(sessionId, "idle")` and `markDone("idle")`.
abbrev pub leave : List Loop → Loop → List Loop → Runner → Runner
leave before l after s = record s {
  status = "idle";
  buffer = mark_done "idle" s.buffer;
  loops = before ++ (record l { message = none } ∷ after);
}

-- The end of a round without an exception: the loop takes the next message of the queue.
unfoldable pub end_round : List Loop → Loop → List Loop → Runner → Runner
end_round before l after s = elim s.queue [
  | [] ↦ leave before l after s
  | message ∷ queue ↦ record s {
    queue = queue;
    loops = before ++ (record l { message = some message } ∷ after);
    taken = s.taken ++ (message ∷ []);
  }
]

-- A round that is cancelled or fails, or for which there is no runtime: `break`.
unfoldable pub abort_round : List Loop → Loop → List Loop → Runner → Runner
abort_round before l after s = leave before l after s

-- The `finally` block; the task that it starts is not stored.
unfoldable pub wind_up : List Loop → List Loop → Runner → Runner
wind_up before after s = elim s.queue [
  | [] ↦ record s { running = false; loops = before ++ after }
  | message ∷ queue ↦ start_loop message (record s {
    running = true;
    queue = queue;
    buffer = reset_for_new_round s.buffer;
    loops = before ++ after;
  })
]
