-- ===== src/EventBuffer/Window.antt =====
-- The buffer of gateway/service/AgentEventBuffer.py is a window on the history of pushed events.
use nereus_door_loong_magic.Common.{
  ℕ, ◌+◌, ◌-◌, ◌≤◌, ◌≡◌, Option, none, subst, some, List, [], ◌∷◌, ◌++◌, length, drop, refl, arith,
  length-append, ap, ◌∙◌, sym, inl, inr, List-cases,
}
use nereus_door_loong_magic.Common.Json.{Json}
use nereus_door_loong_magic.EventBuffer.{
  Event, Buffer, new_buffer, push, read_since, mark_done, reset_for_new_round, Call, push_event,
  finish, new_round, consume, get_nowait, add_got, step, after, consumed,
}
use nereus_door_loong_magic.EventBuffer.Histories.{
  pushed, stamp_from, last_of, drop_empty, drop-drop, last_of-snoc, shrink-last_of, stamp_from-snoc,
  length-stamp_from, drop-stamp_from, keep-stamp_from,
}

-- The buffer, of a size, after a history of events, of which the consumer got those of `out`.
pub record IsWindow (m : ℕ) (h : List Json) (out : List Event) (b : Buffer) : Type 0 where
  pub size : b.max_size ≡ m
  pub kept : b.events ≡ last_of m (stamp_from 0 h)
  pub queued : out ++ b.queue ≡ stamp_from 0 h
  pub counted : b.total_emitted ≡ length h

append_assoc : {A : Type 0} (h g k : List A) → (h ++ g) ++ k ≡ h ++ (g ++ k)
append_assoc [] g k = refl
append_assoc (x ∷ h) g k = ap (λ t. x ∷ t) (append_assoc h g k)

IsWindow-push :
    (m : ℕ) (h : List Json) (out : List Event) (b : Buffer) (e : Json)
    → IsWindow m h out b
    → IsWindow m (h ++ (e ∷ [])) out (push e b).1
unfolding push
IsWindow-push m h out b e w =
    let stamped : Event = (b.total_emitted, e) in
    let events = b.events ++ (stamped ∷ []) in
    let snoc : stamp_from 0 h ++ (stamped ∷ []) ≡ stamp_from 0 (h ++ (e ∷ [])) =
      let number : b.total_emitted ≡ 0 + length h = omega (arith, w.counted) in
      rw number (sym (stamp_from-snoc 0 h e)) in
    let shrunk = shrink-last_of (length events) b.max_size events (omega arith) in
    let window = last_of-snoc m (stamp_from 0 h) stamped in
    record {
      size = w.size;
      kept = rw (shrunk, w.size, w.kept) (window ∙ ap (last_of m) snoc);
      queued = cc (w.queued, snoc, append_assoc out b.queue (stamped ∷ []));
      counted = omega (arith, w.counted, length-append h (e ∷ []));
    }

append_nil : {A : Type 0} (h : List A) → h ++ [] ≡ h
append_nil [] = refl
append_nil (x ∷ h) = ap (λ t. x ∷ t) (append_nil h)

IsWindow-get :
    (m : ℕ) (h : List Json) (out : List Event) (b : Buffer) (e : Event) (rest : List Event)
    → b.queue ≡ e ∷ rest
    → IsWindow m h out b
    → IsWindow m h (out ++ (e ∷ [])) (record b { queue = rest })
IsWindow-get m h out b e rest there w = record {
  size = w.size;
  kept = w.kept;
  queued = append_assoc out (e ∷ []) rest ∙ ap (λ q. out ++ q) (sym there) ∙ w.queued;
  counted = w.counted;
}

get_nowait-none : (b : Buffer) → b.queue ≡ [] → get_nowait b ≡ (none, b)
unfolding get_nowait
get_nowait-none b empty = ground arith

get_nowait-some :
    (b : Buffer) (e : Event) (rest : List Event)
    → b.queue ≡ e ∷ rest
    → get_nowait b ≡ (some e, record b { queue = rest })
unfolding get_nowait
get_nowait-some b e rest there = ground arith

IsWindow-after :
    (m : ℕ) (calls : List Call) (h : List Json) (out : List Event) (b : Buffer)
    → IsWindow m h out b
    → IsWindow m (h ++ pushed calls) (out ++ consumed calls b) (after calls b)
unfolding after consumed step mark_done reset_for_new_round
IsWindow-after m [] h out b w = rw (append_nil h, append_nil out) w
IsWindow-after m (push_event e ∷ calls) h out b w =
    rw⁻¹ (append_assoc h (e ∷ []) (pushed calls))
      (IsWindow-after m calls (h ++ (e ∷ [])) out (push e b).1 (IsWindow-push m h out b e w))
IsWindow-after m (finish t ∷ calls) h out b w =
    IsWindow-after m calls h out (mark_done t b)
      (record { size = w.size; kept = w.kept; queued = w.queued; counted = w.counted })
IsWindow-after m (new_round ∷ calls) h out b w =
    IsWindow-after m calls h out (reset_for_new_round b)
      (record { size = w.size; kept = w.kept; queued = w.queued; counted = w.counted })
IsWindow-after m (consume ∷ calls) h out b w =
    let P : Option Event × Buffer → Type 0 = λ o.
      IsWindow m (h ++ pushed calls) (out ++ add_got o.0 (consumed calls o.1)) (after calls o.1) in
    elim (List-cases b.queue) [
      | inl empty ↦ subst P (sym (get_nowait-none b empty)) (IsWindow-after m calls h out b w)
      | inr (e, rest, there) ↦
          let b' : Buffer = record b { queue = rest } in
          let w' = IsWindow-get m h out b e rest there w in
          subst P (sym (get_nowait-some b e rest there)) (
            rw⁻¹ (append_assoc out (e ∷ []) (consumed calls b'))
              (IsWindow-after m calls h (out ++ (e ∷ [])) b' w'))
    ]

-- After any sequence of operations, the buffer holds the last `m` of all events ever pushed, numbered
-- consecutively from 0; what the consumer of the queue got, followed by what is still in the queue, is
-- all of them in their order; and the counter is their number.
pub after-IsWindow :
    (m : ℕ) (calls : List Call)
    → IsWindow m (pushed calls) (consumed calls (new_buffer m)) (after calls (new_buffer m))
after-IsWindow m calls =
    IsWindow-after m calls [] [] (new_buffer m)
      (record { size = refl; kept = sym (drop_empty (0 - m)); queued = refl; counted = refl })

-- A client that has the events up to `last`, and reconnects before the buffer has dropped one that it
-- misses, reads exactly the events after `last`, each once and in order.
pub read_since-resumes :
    (m last : ℕ) (calls : List Call)
    → length (pushed calls) ≤ last + 1 + m
    → read_since (some last) (after calls (new_buffer m))
      ≡ drop (last + 1) (stamp_from 0 (pushed calls))
unfolding read_since
read_since-resumes m last calls close =
    let h = pushed calls in
    let w = after-IsWindow m calls in
    let k = length (stamp_from 0 h) - m in
    let size = length-stamp_from 0 h in
    let shifted : drop k (stamp_from 0 h) ≡ stamp_from (0 + k) (drop k h) = drop-stamp_from k 0 h in
    let read = keep-stamp_from last (0 + k) (drop k h) in
    let total : k + ((last + 1) - (0 + k)) ≡ last + 1 = omega (arith, size, close) in
    let both = drop-drop ((last + 1) - (0 + k)) k (stamp_from 0 h) in
    rw w.kept (rw shifted (read ∙ rw⁻¹ shifted (both ∙ ap (λ n. drop n (stamp_from 0 h)) total)))
