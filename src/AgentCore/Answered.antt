-- ===== src/AgentCore/Answered.antt =====
-- What each call of a round of agent/agent_core/agent_loop.py leaves in the history.
use Prim.Native.String.{count}
use nereus_door_loong_magic.Common.{
  ℕ, ◌+◌, ◌-◌, ◌≡◌, ◌≢◌, ◌⊎◌, String, Bool, true, false, not, ◌&&◌, none, some, List, [], ◌∷◌, ◌++◌,
  map, refl, ap, eq_iff, arith, if◌then◌else◌, ◌==◌, Bool-cases, Option-cases, inl, inr,
}
use nereus_door_loong_magic.Safety.{block}
use nereus_door_loong_magic.AgentCore.{Call, Answer, Core, Round}
use nereus_door_loong_magic.AgentCore.Output.{
  max_tool_output, max_total_output, fit_tool_output_for_model, sanitize, append_tool_message,
  answer,
}
use nereus_door_loong_magic.AgentCore.Calls.{
  call_id, needs_reason, has_reason, is_unattended, pre_authorized, verdict_of, is_beyond,
  stripped_args, execute_tool, emit_result, ask_choice, submit_plan, skip_call, ask_reason, report,
  run_tool, handle_approval, request_authorization, confirm, check_call, process_call,
}
use nereus_door_loong_magic.AgentCore.Justified.{Decision-cases, Verdict-cases}

abbrev pub message_ids : Round → List String
message_ids r = map (λ m. m.0) r.messages

abbrev pub result_ids : Round → List String
result_ids r = map (λ e. e.call_id) r.results

-- One message and one event with the id, and the count of characters for the model.
pub record IsAnswer (k : Core) (id : String) (r r' : Round) : Type 0 where
  pub messages : message_ids r' ≡ message_ids r ++ (id ∷ [])
  pub results : result_ids r' ≡ result_ids r ++ (id ∷ [])
  pub total :
      (r'.total ≡ r.total)
      ⊎ ((output : String) × (r'.total
            ≡ r.total
              + count (
                  fit_tool_output_for_model k output max_tool_output (max_total_output - r.total))))
  pub errors : r'.errors ≡ r.errors

map-snoc :
    {A : Type 0} (f : A → String) (xs : List A) (x : A)
    → map f (xs ++ (x ∷ [])) ≡ map f xs ++ (f x ∷ [])
map-snoc f [] x = refl
map-snoc f (y ∷ xs) x = ap (λ l. f y ∷ l) (map-snoc f xs x)

-- A plan that is accepted for approval.
abbrev pub is_plan : Core → Call → Bool
is_plan k c =
    c.name == "submitPlan" && (elim (k.plan_error c.args) [ none ↦ true | some error ↦ false ])

-- A call that was handled, and no plan waits that did not wait before.
abbrev Handles : Core → String → Round → Round → Type 0
Handles k id r r' = IsAnswer k id r r' × (r'.pending_plan ≡ r.pending_plan)

module _ (k : Core) (index : ℕ) (c : Call) (a : Answer) where
  -- Where an event was emitted, `answer` completes the call.
  answer-Handles :
      (success : Bool) (shown output : String) (r : Round)
      → Handles k
          (call_id c a)
          r
          (answer k a (call_id c a) output (emit_result (call_id c a) success shown r))
  unfolding answer append_tool_message
  answer-Handles success shown output r = (
    record {
      messages =
          map-snoc (λ m. m.0) r.messages
            (
              call_id c a,
              sanitize k a.classified
                  (fit_tool_output_for_model k output max_tool_output (max_total_output - r.total)),
            );
      results =
          map-snoc (λ e. e.call_id) r.results
            (record { call_id = call_id c a; success = success; output = shown });
      total = inr (output, refl);
      errors = refl;
    },
    refl,
  )

  append-Handles :
      (success : Bool) (output : String) (r : Round)
      → Handles k (call_id c a) r (
          append_tool_message k a (call_id c a) output (emit_result (call_id c a) success output r))
  unfolding append_tool_message
  append-Handles success output r = (
    record {
      messages = map-snoc (λ m. m.0) r.messages (call_id c a, sanitize k a.classified output);
      results =
          map-snoc (λ e. e.call_id) r.results
            (record { call_id = call_id c a; success = success; output = output });
      total = inl refl;
      errors = refl;
    },
    refl,
  )

  run_tool-Handles : (r : Round) → Handles k (call_id c a) r (run_tool k index c a r)
  unfolding run_tool report
  run_tool-Handles r =
      let r' : Round = execute_tool index c.name (stripped_args k c) r in
      let h = answer-Handles true (k.take 2000 a.output) a.output r' in
      (
        record {
          messages = h.0.messages;
          results = h.0.results;
          total = h.0.total;
          errors = h.0.errors;
        },
        h.1,
      )

  report-Handles : (output : String) (r : Round) → Handles k (call_id c a) r (report k c a output r)
  unfolding report
  report-Handles output r = answer-Handles true (k.take 2000 output) output r

  handle_approval-Handles : (r : Round) → Handles k (call_id c a) r (handle_approval k index c a r)
  unfolding handle_approval
  handle_approval-Handles r = elim (Decision-cases a.decision) [
    | inl granted ↦ rw granted (run_tool-Handles r)
    | inr (inl late) ↦ rw late (report-Handles _ r)
    | inr (inr (why, refused)) ↦ rw refused (report-Handles _ r)
  ]

  request_authorization-Handles :
      (reason policy_reason : String) (r : Round)
      → Handles k (call_id c a) r (request_authorization k c a reason policy_reason r)
  unfolding request_authorization
  request_authorization-Handles reason policy_reason r = answer-Handles false _ _ r

  confirm-Handles :
      (reason : String) (r : Round) → Handles k (call_id c a) r (confirm k index c a reason r)
  unfolding confirm
  confirm-Handles reason r = elim (Bool-cases (is_unattended k)) [
    | inr attended ↦ rw attended (handle_approval-Handles r)
    | inl alone ↦ elim (Bool-cases (pre_authorized k c).0) [
      | inl covered ↦ rw (alone, covered) (run_tool-Handles r)
      | inr open_ ↦
          rw (alone, open_) (request_authorization-Handles reason (pre_authorized k c).1 r)
    ]
  ]

  check_call-Handles :
      (r : Round)
      → ((verdict_of k c).0 ≢ block)
      → Handles k (call_id c a) r (check_call k index c a r)
  unfolding check_call ask_reason
  check_call-Handles r free = elim (Bool-cases (needs_reason k c && not (has_reason k c))) [
    | inl silent ↦ rw silent (answer-Handles false _ _ r)
    | inr given ↦ elim (Verdict-cases (verdict_of k c).0) [
      | inl stop ↦ absurd (free stop)
      | inr (inl ask) ↦ rw (given, ask) (confirm-Handles (verdict_of k c).1 r)
      | inr (inr open_) ↦ rw (given, open_) (run_tool-Handles r)
    ]
  ]

  submit_plan-IsAnswer : (r : Round) → IsAnswer k (call_id c a) r (submit_plan k c a r)
  unfolding submit_plan
  submit_plan-IsAnswer r = elim (Option-cases (k.plan_error c.args)) [
    | inr (why, bad) ↦ rw (bad, submit_plan) (append-Handles false _ r).0
    | inl fine ↦
        let text : String = "[计划已提交，等待审批]" in
        let h = (append-Handles true text r).0 in
        let r' : Round =
          append_tool_message k a (call_id c a) text (emit_result (call_id c a) true text r) in
        let e : submit_plan k c a r ≡ record r' { pending_plan = some (call_id c a) } =
          ground arith in
        rw e (record {
          messages = h.messages;
          results = h.results;
          total = h.total;
          errors = h.errors;
        })
  ]

  submit_plan-plan :
      (r : Round)
      → (submit_plan k c a r).pending_plan
        ≡ (elim (k.plan_error c.args) [ none ↦ some (call_id c a) | some error ↦ r.pending_plan ])
  unfolding submit_plan append_tool_message
  submit_plan-plan r = elim (Option-cases (k.plan_error c.args)) [
    | inr (why, bad) ↦ ground arith
    | inl fine ↦ ground arith
  ]

  -- Every call that the rules do not block gets one message and one event, and a plan waits after a plan that was accepted.
  pub process_call-IsAnswer :
      (r : Round)
      → ((verdict_of k c).0 ≢ block)
      → IsAnswer k (call_id c a) r (process_call k index c a r)
        × ((process_call k index c a r).pending_plan
            ≡ (if is_plan k c then some (call_id c a) else r.pending_plan))
  unfolding process_call ask_choice skip_call
  process_call-IsAnswer r unblocked = elim (Bool-cases (c.name == "ask_choice")) [
    | inl asks ↦
        let name : c.name ≡ "ask_choice" = (eq_iff c.name "ask_choice").0 asks in
        let other : (c.name == "submitPlan") ≡ false = rw name refl in
        rw (asks, other) (answer-Handles true _ _ r)
    | inr other ↦ elim (Bool-cases (c.name == "submitPlan")) [
      | inl plans ↦
          let e : process_call k index c a r ≡ submit_plan k c a r = ground arith in
          rw e (
            submit_plan-IsAnswer r,
            elim (Option-cases (k.plan_error c.args)) [
              | inl fine ↦ ground (arith, submit_plan-plan r)
              | inr (why, bad) ↦ ground (arith, submit_plan-plan r)
            ],
          )
      | inr tool ↦ elim (Bool-cases (is_beyond k index)) [
        | inl late ↦ rw (other, tool, late) (append-Handles false _ r)
        | inr early ↦ rw (other, tool, early) (check_call-Handles r unblocked)
      ]
    ]
  ]
