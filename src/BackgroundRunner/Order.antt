-- ===== src/BackgroundRunner/Order.antt =====
-- The order in which gateway/service/AgentBackgroundRunner.py takes the messages of a session that
-- nobody cancels.
use mathlib.Core.List.{append_assoc, append-nil}
use nereus_door_loong_magic.Common.{
  ◌≡◌, String, Bool, true, false, none, some, List, [], ◌∷◌, ◌++◌, refl, arith, Bool-cases,
  List-cases, inl, inr,
}
use nereus_door_loong_magic.EventBuffer.{mark_done, reset_for_new_round}
use nereus_door_loong_magic.BackgroundRunner.{
  Loop, Runner, leave, submit, end_round, abort_round, wind_up,
}
use nereus_door_loong_magic.BackgroundRunner.Steps.{
  Step, submits, cancels, ends, aborts, winds_up, Reaches, here, later,
}

-- One loop where the session runs, and none where it does not.
abbrev pub is_single : Bool → List Loop → Bool
is_single true (l ∷ []) = true
is_single false [] = true
is_single _ _ = false

-- A loop works on a message.
abbrev pub works : List Loop → Bool
works [] = false
works (l ∷ loops) = elim l.message [ none ↦ works loops | some message ↦ true ]

pub record IsOrderly (s : Runner) : Type 0 where
  pub single : is_single s.running s.loops ≡ true
  pub idle : s.running ≡ false → s.queue ≡ []
  pub order : s.taken ++ s.queue ≡ s.submitted
  pub unfinished : works s.loops ≡ true → s.buffer.done ≡ false

-- The loop that a section belongs to is the only one.
alone :
    (running : Bool) (before after : List Loop) (l : Loop)
    → is_single running (before ++ (l ∷ after)) ≡ true
    → (running ≡ true) × (before ≡ []) × (after ≡ [])
alone true [] [] l h = (refl, refl, refl)
alone true [] (m ∷ after) l h = absurd (ground arith)
alone true (b ∷ []) after l h = absurd (ground arith)
alone true (b ∷ c ∷ before) after l h = absurd (ground arith)
alone false [] after l h = absurd (ground arith)
alone false (b ∷ before) after l h = absurd (ground arith)

no_loops : (loops : List Loop) → is_single false loops ≡ true → loops ≡ []
no_loops [] h = refl
no_loops (l ∷ loops) h = absurd (ground arith)

submit-IsOrderly : (message : String) (s : Runner) → IsOrderly s → IsOrderly (submit message s)
unfolding submit reset_for_new_round
submit-IsOrderly message s ok = elim (Bool-cases s.running) [
  | inl on ↦
      let e : submit message s ≡ record s {
        submitted = s.submitted ++ (message ∷ []);
        queue = s.queue ++ (message ∷ []);
      } =
        ground arith in
      rw e (record {
        single = ok.single;
        idle = λ off. absurd (ground arith);
        order = ground (arith, append_assoc s.taken s.queue (message ∷ []), ok.order);
        unfinished = ok.unfinished;
      })
  | inr off ↦
      let empty : s.loops ≡ [] = no_loops s.loops (ground (arith, ok.single)) in
      let drained : s.queue ≡ [] = ok.idle off in
      let all : s.taken ≡ s.submitted = ground (arith, ok.order, append-nil s.taken) in
      record {
        single = ground arith;
        idle = λ off'. absurd (ground arith);
        order = ground (arith, append-nil (s.taken ++ (message ∷ [])));
        unfinished = λ h. ground arith;
      }
]

-- What a section of the only loop finds.
module _ (before after : List Loop) (l : Loop) (s : Runner) where
  leave-IsOrderly :
      s.loops ≡ before ++ (l ∷ after) → IsOrderly s → IsOrderly (leave before l after s)
  unfolding mark_done
  leave-IsOrderly there ok =
      let (on, none_before, none_after) =
        alone s.running before after l (ground (arith, ok.single)) in
      record {
        single = ground arith;
        idle = λ off. absurd (ground arith);
        order = ok.order;
        unfinished = λ h. absurd (ground arith);
      }

  end_round-IsOrderly :
      s.loops ≡ before ++ (l ∷ after)
      → works (l ∷ []) ≡ true
      → IsOrderly s
      → IsOrderly (end_round before l after s)
  unfolding end_round
  end_round-IsOrderly there busy ok =
      let (on, none_before, none_after) =
        alone s.running before after l (ground (arith, ok.single)) in
      elim (List-cases s.queue) [
        | inl empty ↦
            let e : end_round before l after s ≡ leave before l after s = ground arith in
            rw e (leave-IsOrderly there ok)
        | inr (m, queue, next) ↦ record {
          single = ground arith;
          idle = λ off. absurd (ground arith);
          order = ground (arith, ok.order, append_assoc s.taken (m ∷ []) queue);
          unfinished = λ h. ground (arith, ok.unfinished);
        }
      ]

  wind_up-IsOrderly :
      s.loops ≡ before ++ (l ∷ after) → IsOrderly s → IsOrderly (wind_up before after s)
  unfolding wind_up reset_for_new_round
  wind_up-IsOrderly there ok =
      let (on, none_before, none_after) =
        alone s.running before after l (ground (arith, ok.single)) in
      elim (List-cases s.queue) [
        | inl empty ↦ record {
          single = ground arith;
          idle = λ off. ground arith;
          order = ground (arith, ok.order);
          unfinished = λ h. absurd (ground arith);
        }
        | inr (m, queue, next) ↦ record {
          single = ground arith;
          idle = λ off. absurd (ground arith);
          order = ground (arith, ok.order, append_assoc s.taken (m ∷ []) queue);
          unfinished = λ h. ground arith;
        }
      ]

Step-IsOrderly : {s t : Runner} → Step false s t → IsOrderly s → IsOrderly t
unfolding abort_round
Step-IsOrderly {s} (submits message e) ok = rw e (submit-IsOrderly message s ok)
Step-IsOrderly (cancels may e) ok = absurd (ground arith)
Step-IsOrderly {s} (ends before after l message there busy e) ok =
    rw e (end_round-IsOrderly before after l s there (ground arith) ok)
Step-IsOrderly {s} (aborts before after l message there busy e) ok =
    rw e (leave-IsOrderly before after l s there ok)
Step-IsOrderly {s} (winds_up before after l there left e) ok =
    rw e (wind_up-IsOrderly before after l s there ok)

-- In a session that nobody cancels, whatever the order in which messages are submitted and rounds end
-- or fail: one loop is alive while the session is marked as running and none otherwise; the messages
-- that were taken, followed by those in the queue, are all that were submitted, in their order;
-- nothing waits when no loop is alive; and the buffer is not done while a loop works on a message.
pub Reaches-IsOrderly : (s t : Runner) → Reaches false s t → IsOrderly s → IsOrderly t
Reaches-IsOrderly s t (here e) ok = rw e ok
Reaches-IsOrderly s t (later {t = m} before step) ok =
    Step-IsOrderly step (Reaches-IsOrderly s m before ok)
