-- ===== src/AgentCore/Rounds.antt =====
-- The history after a whole round of agent/agent_core/agent_loop.py.
use mathlib.Core.List.{append_assoc, append-nil}
use nereus_door_loong_magic.Common.{
  ℕ, suc, ◌≡◌, ◌≢◌, All, String, none, some, List, [], ◌∷◌, ◌++◌, refl, sym, arith, if◌then◌else◌,
  Bool-cases, inl, inr,
}
use nereus_door_loong_magic.Safety.{block}
use nereus_door_loong_magic.AgentCore.{Call, Answer, Core, Round, new_round}
use nereus_door_loong_magic.AgentCore.Calls.{
  call_id, process_call, process_calls, verdict_of, go_on,
}
use nereus_door_loong_magic.AgentCore.Answered.{
  message_ids, result_ids, is_plan, process_call-IsAnswer,
}

-- The ids of the calls up to and with the first plan that is accepted.
abbrev pub answered_ids : Core → (ℕ → Answer) → ℕ → List Call → List String
answered_ids k answers index [] = []
answered_ids k answers index (c ∷ calls) =
    call_id c (answers index)
    ∷ (if is_plan k c then [] else answered_ids k answers (suc index) calls)

-- The rules block none of the calls.
abbrev pub AllUnblocked : Core → List Call → Type 0
AllUnblocked k calls = All (λ c. (verdict_of k c).0 ≢ block) calls

go_on-plan :
    (a : Answer) (r rest : Round) (id : String) → r.pending_plan ≡ some id → go_on a r rest ≡ r
unfolding go_on
go_on-plan a r rest id waits = ground arith

go_on-free :
    (a : Answer) (r rest : Round) → r.pending_plan ≡ none → r.errors ≡ [] → go_on a r rest ≡ rest
unfolding go_on
go_on-free a r rest idle quiet = ground arith

module _ (k : Core) (answers : ℕ → Answer) where
  ids-process_calls :
      (calls : List Call) (index : ℕ) (r : Round)
      → AllUnblocked k calls
      → r.pending_plan ≡ none
      → r.errors ≡ []
      → (message_ids (process_calls k answers index calls r)
          ≡ message_ids r ++ answered_ids k answers index calls)
        × (result_ids (process_calls k answers index calls r)
            ≡ result_ids r ++ answered_ids k answers index calls)
  unfolding process_calls
  ids-process_calls [] index r free idle quiet =
      (sym (append-nil (message_ids r)), sym (append-nil (result_ids r)))
  ids-process_calls (c ∷ calls) index r free idle quiet =
      let id : String = call_id c (answers index) in
      let r' : Round = process_call k index c (answers index) r in
      let (h, plan) = process_call-IsAnswer k index c (answers index) r free.0 in
      let whole : Round = process_calls k answers index (c ∷ calls) r in
      elim (Bool-cases (is_plan k c)) [
        | inl proposed ↦
            let waits : r'.pending_plan ≡ some id = ground arith in
            let e : whole ≡ r' = go_on-plan (answers index) r' _ id waits in
            rw (e, proposed) (h.messages, h.results)
        | inr other ↦
            let quiet' : r'.errors ≡ [] = ground (arith, h.errors, quiet) in
            let idle' : r'.pending_plan ≡ none = ground arith in
            let e : whole ≡ process_calls k answers (suc index) calls r' =
              go_on-free (answers index) r' _ idle' quiet' in
            let rest = ids-process_calls calls (suc index) r' free.1 idle' quiet' in
            let ids : List String = answered_ids k answers (suc index) calls in
            rw (e, other)
              (
                ground (arith, rest.0, h.messages, append_assoc (message_ids r) (id ∷ []) ids),
                ground (arith, rest.1, h.results, append_assoc (result_ids r) (id ∷ []) ids),
              )
      ]

  -- After a round in which the rules block no call, the history has one message and the stream one result for each call, under its id
  -- and in order, up to the first submitPlan whose plan is well formed, that one included; the calls
  -- behind it get none.
  pub round-answered :
      (calls : List Call)
      → AllUnblocked k calls
      → (message_ids (process_calls k answers 0 calls new_round) ≡ answered_ids k answers 0 calls)
        × (result_ids (process_calls k answers 0 calls new_round) ≡ answered_ids k answers 0 calls)
  round-answered calls free = ids-process_calls calls 0 new_round free refl refl
