-- ===== src/AgentCore/PlanOutcome.antt =====
-- How the wait for a plan ends in agent/agent_core/agent_loop.py.
use nereus_door_loong_magic.Common.{
  ◌≡◌, String, true, false, Option, none, some, List, [], ◌∷◌, ◌++◌, refl, arith, ◌==◌,
  if◌then◌else◌, Bool-cases, inl, inr, any, text_append,
}
use nereus_door_loong_magic.Safety.{Mode, agent}
use nereus_door_loong_magic.AgentCore.Approvals.{Verdict}
use nereus_door_loong_magic.AgentCore.Plans.{
  Message, Planner, decide_plan, has_answer, update_answer, start_wait, plan_timed_out,
  plan_approved, plan_rejected, plan_decided,
}

-- The text that the history has for a tool call.
abbrev pub answer_of : String → List Message → Option String
answer_of call_id [] = none
answer_of call_id (m ∷ ms) = if has_answer call_id m then some m.content else answer_of call_id ms

-- Calls of approvePlan and rejectPlan, the first of the list first.
unfoldable pub decide_all : List Verdict → Planner → Planner
unfolding decide_plan
decide_all [] s = s
decide_all (v ∷ vs) s = decide_all vs (decide_plan v s).1

abbrev pub last_of : Verdict → List Verdict → Verdict
last_of v [] = v
last_of v (w ∷ vs) = last_of w vs

-- What the history says of a decision.
abbrev pub plan_answer : Verdict → String
plan_answer v =
    if v.approved
    then "[计划已批准，开始执行]"
    else text_append "[计划被拒绝] " (if v.reason == "" then "请调整计划" else v.reason)

-- Nothing waits, the mode and the answer of the call are those given, and a late decision is refused.
pub record IsOver (call_id : String) (mode : Mode) (answer : String) (s : Planner) : Type 0 where
  pub same_mode : s.mode ≡ mode
  pub answered : answer_of call_id s.messages ≡ some answer
  pub cleared : (s.waits ≡ false) × (s.decision ≡ none)
  pub late : (v : Verdict) → decide_plan v s ≡ (false, s)

answer_of-updated :
    (call_id content : String) (ms xs : List Message)
    → any (has_answer call_id) ms ≡ true
    → answer_of call_id (update_answer call_id content ms ++ xs) ≡ some content
unfolding update_answer
answer_of-updated call_id content [] xs there = absurd (ground arith)
answer_of-updated call_id content (m ∷ ms) xs there = elim (Bool-cases (has_answer call_id m)) [
  | inl this ↦
      let m' : Message = record m { content = content } in
      let same : has_answer call_id m' ≡ true = this in
      let e : update_answer call_id content (m ∷ ms) ++ xs ≡ m' ∷ (ms ++ xs) = ground arith in
      rw e (ground (arith, same))
  | inr other ↦
      let e : update_answer call_id content (m ∷ ms) ++ xs
          ≡ m ∷ (update_answer call_id content ms ++ xs) =
        ground arith in
      rw e (ground (arith, answer_of-updated call_id content ms xs (ground arith)))
]

module _ (call_id plan : String) where
  decide_all-last :
      (v : Verdict) (vs : List Verdict) (s : Planner)
      → s.waits ≡ true
      → decide_all (v ∷ vs) s ≡ record s { decision = some (last_of v vs) }
  unfolding decide_all decide_plan
  decide_all-last v [] s waits = ground arith
  decide_all-last v (w ∷ vs) s waits =
      let s' : Planner = record s { decision = some v } in
      let e : decide_all (v ∷ w ∷ vs) s ≡ decide_all (w ∷ vs) s' = ground arith in
      rw e (decide_all-last w vs s' waits)

  timed_out-IsOver :
      (s : Planner)
      → any (has_answer call_id) s.messages ≡ true
      → IsOver call_id agent "[计划审批超时，已跳过]" (plan_timed_out call_id s)
  unfolding plan_timed_out decide_plan
  timed_out-IsOver s asked = record {
    same_mode = refl;
    answered = answer_of-updated call_id _ s.messages _ asked;
    cleared = (refl, refl);
    late = λ v. refl;
  }

  decided-IsOver :
      (v : Verdict) (s : Planner)
      → any (has_answer call_id) s.messages ≡ true
      → IsOver call_id
          (if v.approved then agent else s.mode)
          (plan_answer v)
          (if v.approved then plan_approved call_id plan s else plan_rejected call_id v.reason s)
  unfolding decide_plan
  decided-IsOver v s asked = elim (Bool-cases v.approved) [
    | inl yes_ ↦ rw yes_ (record {
      same_mode = refl;
      answered = answer_of-updated call_id _ s.messages _ asked;
      cleared = (refl, refl);
      late = λ w. refl;
    })
    | inr no_ ↦ rw no_ (record {
      same_mode = refl;
      answered = answer_of-updated call_id _ s.messages _ asked;
      cleared = (refl, refl);
      late = λ w. refl;
    })
  ]

  -- A plan whose call has an answer in the history waits, and gets one decision or more. The last
  -- one counts: the wait ends with a result, an approved plan switches to the mode agent and a rejected
  -- one keeps the mode, and the answer of the call says so. Where the time is over, the mode is agent.
  -- Either way nothing waits afterwards, and a later approvePlan or rejectPlan returns False and
  -- changes nothing.
  pub plan-IsOver :
      (v : Verdict) (vs : List Verdict) (s : Planner)
      → any (has_answer call_id) s.messages ≡ true
      → ((t : Planner) × (plan_decided call_id plan (decide_all (v ∷ vs) (start_wait s)) ≡ some t)
          × IsOver call_id
              (if (last_of v vs).approved then agent else s.mode)
              (plan_answer (last_of v vs))
              t)
        × IsOver call_id agent "[计划审批超时，已跳过]"
            (plan_timed_out call_id (decide_all (v ∷ vs) (start_wait s)))
  unfolding plan_decided start_wait
  plan-IsOver v vs s asked =
      let w : Verdict = last_of v vs in
      let s' : Planner = record s { waits = true; decision = some w } in
      let e : decide_all (v ∷ vs) (start_wait s) ≡ s' =
        decide_all-last v vs (record s { waits = true }) refl in
      rw e (
        (
          if w.approved then plan_approved call_id plan s' else plan_rejected call_id w.reason s',
          refl,
          decided-IsOver w s' asked,
        ),
        timed_out-IsOver s' asked,
      )
