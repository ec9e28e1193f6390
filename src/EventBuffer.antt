-- ===== src/EventBuffer.antt =====
-- gateway/service/AgentEventBuffer.py: class AgentEventBuffer. Every operation holds the lock from
-- its first to its last line, so that a run of the buffer is a sequence of operations. The
-- sequence numbers are kept beside the events that they stamp, and the time stamps are left out.
-- The real-time queue has no bound, so that put_nowait does not fail.
pub mod Histories
pub mod Window
mod Tests
use nereus_door_loong_magic.Common.{
  ℕ, zero, suc, ◌+◌, ◌-◌, String, Bool, true, false, Option, none, some, List, [], ◌∷◌, ◌++◌,
  length, keep, ltb, drop,
}
use nereus_door_loong_magic.Common.Json.{Json}

-- An event with its _seq.
abbrev pub Event : Type 0
Event = ℕ × Json

pub record Buffer : Type 0 where
  pub max_size : ℕ
  pub events : List Event
  pub queue : List Event
  pub total_emitted : ℕ
  pub done : Bool
  pub final_status : Option String

-- __init__
abbrev pub new_buffer : ℕ → Buffer
new_buffer max_size = record {
  max_size = max_size;
  events = [];
  queue = [];
  total_emitted = 0;
  done = false;
  final_status = none;
}

-- while len(events) > maxSize: events.popleft(); the fuel is the length, which falls by one each
-- time, and on an empty deque the test fails.
unfoldable pub shrink : (fuel : ℕ) → ℕ → List Event → List Event
shrink zero max_size events = events
shrink (suc fuel) max_size [] = []
shrink (suc fuel) max_size (e ∷ events) =
    let rest = shrink fuel max_size events in
    elim (ltb max_size (length (e ∷ events))) [ true ↦ rest | false ↦ e ∷ events ]

-- push
unfoldable pub push : Json → Buffer → ℕ × Buffer
unfolding shrink
push event b =
    let seq = b.total_emitted in
    let stamped : Event = (seq, event) in
    let events = b.events ++ (stamped ∷ []) in
    (
      seq,
      record b {
        events = shrink (length events) b.max_size events;
        queue = b.queue ++ (stamped ∷ []);
        total_emitted = b.total_emitted + 1;
      },
    )

-- readSince(lastSeq); `none` is the default -1, the start
unfoldable pub read_since : Option ℕ → Buffer → List Event
read_since none b = b.events
read_since (some last_seq) b = keep (λ e. ltb last_seq e.0) b.events

-- markDone
unfoldable pub mark_done : String → Buffer → Buffer
mark_done status b = record b { done = true; final_status = some status }

-- resetForNewRound
unfoldable pub reset_for_new_round : Buffer → Buffer
reset_for_new_round b = record b { done = false; final_status = none }

-- queue.get_nowait, the consumer of the events of a round: the first item, or QueueEmpty
unfoldable pub get_nowait : Buffer → Option Event × Buffer
get_nowait b = elim b.queue [ [] ↦ (none, b) | e ∷ rest ↦ (some e, record b { queue = rest }) ]

pub record State : Type 0 where
  pub total : ℕ
  pub buffered_count : ℕ
  pub is_done : Bool
  pub status : Option String

-- getState
unfoldable pub get_state : Buffer → State
get_state b = record {
  total = b.total_emitted;
  buffered_count = length b.events;
  is_done = b.done;
  status = b.final_status;
}

pub data Call : Type 0 where
  push_event : Json → Call
  finish : String → Call
  new_round : Call
  consume : Call

unfoldable pub step : Call → Buffer → Buffer
unfolding push mark_done reset_for_new_round get_nowait
step (push_event event) b = (push event b).1
step (finish status) b = mark_done status b
step new_round b = reset_for_new_round b
step consume b = (get_nowait b).1

-- The operations, one after the other.
unfoldable pub after : List Call → Buffer → Buffer
unfolding step
after [] b = b
after (c ∷ calls) b = after calls (step c b)

abbrev pub add_got : Option Event → List Event → List Event
add_got none rest = rest
add_got (some e) rest = e ∷ rest

-- What the consumer got.
unfoldable pub consumed : List Call → Buffer → List Event
unfolding step get_nowait
consumed [] b = []
consumed (consume ∷ calls) b = add_got (get_nowait b).0 (consumed calls (step consume b))
consumed (c ∷ calls) b = consumed calls (step c b)
