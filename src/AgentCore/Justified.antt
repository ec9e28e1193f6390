-- ===== src/AgentCore/Justified.antt =====
-- Which tools a round of agent/agent_core/agent_loop.py executes.
use nereus_door_loong_magic.Common.{
  ℕ, suc, ◌≤◌, ◌≡◌, ◌⊎◌, String, true, false, not, ◌&&◌, Option, none, some, List, [], ◌∷◌, ◌++◌,
  refl, arith, if◌then◌else◌, ◌==◌, eqb, Bool-cases, Option-cases, inl, inr, All,
}
use nereus_door_loong_magic.Safety.{Verdict, allow, require_confirm, block}
use nereus_door_loong_magic.AgentCore.{
  Call, Decision, approved, rejected, timed_out, Answer, Core, Execution, Round, new_round,
}
use nereus_door_loong_magic.AgentCore.Output.{append_tool_message, answer}
use nereus_door_loong_magic.AgentCore.Calls.{
  needs_reason, has_reason, stripped_args, is_unattended, pre_authorized, verdict_of, is_beyond,
  ask_choice, submit_plan, skip_call, ask_reason, refuse, report, run_tool, handle_approval,
  request_authorization, confirm, check_call, process_call, process_calls, is_cancelled, go_on,
}

-- The rules allow the call, or they want a confirmation and it was given: by the policy of an
-- unattended run, or by the user. A tool that is not read-only has a reason.
pub record IsJustified (k : Core) (c : Call) (a : Answer) : Type 0 where
  pub reason : needs_reason k c ≡ true → has_reason k c ≡ true
  pub allowed :
      ((verdict_of k c).0 ≡ allow)
      ⊎ (((verdict_of k c).0 ≡ require_confirm)
          × (((is_unattended k ≡ true) × ((pre_authorized k c).0 ≡ true))
              ⊎ ((is_unattended k ≡ false) × (a.decision ≡ approved))))

abbrev pub execution : Core → ℕ → Call → Execution
execution k index c = record { index = index; name = c.name; args = stripped_args k c }

-- What a call does to the tools executed.
abbrev Executes : Core → ℕ → Call → Answer → Round → Round → Type 0
Executes k index c a r r' =
    (r'.executed ≡ r.executed)
    ⊎ ((r'.executed ≡ r.executed ++ (execution k index c ∷ [])) × IsJustified k c a)

pub Decision-cases :
    (d : Decision)
    → (d ≡ approved) ⊎ ((d ≡ timed_out) ⊎ ((reason : String) × (d ≡ rejected reason)))
Decision-cases approved = inl refl
Decision-cases timed_out = inr (inl refl)
Decision-cases (rejected reason) = inr (inr (reason, refl))

pub Verdict-cases : (v : Verdict) → (v ≡ block) ⊎ ((v ≡ require_confirm) ⊎ (v ≡ allow))
Verdict-cases block = inl refl
Verdict-cases require_confirm = inr (inl refl)
Verdict-cases allow = inr (inr refl)

module _ (k : Core) (index : ℕ) (c : Call) (a : Answer) (r : Round) where
  executed-run_tool : (run_tool k index c a r).executed ≡ r.executed ++ (execution k index c ∷ [])
  unfolding run_tool report answer append_tool_message
  executed-run_tool = refl

  executed-handle_approval :
      ((verdict_of k c).0 ≡ require_confirm)
      → is_unattended k ≡ false
      → (needs_reason k c ≡ true → has_reason k c ≡ true)
      → Executes k index c a r (handle_approval k index c a r)
  unfolding handle_approval report answer append_tool_message
  executed-handle_approval v attended reason = elim (Decision-cases a.decision) [
    | inl yes_ ↦ inr (
      ground (arith, executed-run_tool),
      record { reason = reason; allowed = inr (v, inr (attended, yes_)) },
    )
    | inr (inl late) ↦ inl (ground arith)
    | inr (inr (why, no_)) ↦ inl (ground arith)
  ]

  executed-confirm :
      ((verdict_of k c).0 ≡ require_confirm)
      → (needs_reason k c ≡ true → has_reason k c ≡ true)
      → Executes k index c a r (confirm k index c a (verdict_of k c).1 r)
  unfolding confirm request_authorization answer append_tool_message
  executed-confirm v reason = elim (Bool-cases (is_unattended k)) [
    | inl alone ↦ elim (Bool-cases (pre_authorized k c).0) [
      | inl covered ↦ inr (
        ground (arith, executed-run_tool),
        record { reason = reason; allowed = inr (v, inl (alone, covered)) },
      )
      | inr open_ ↦ inl (ground arith)
    ]
    | inr attended ↦
        let e : confirm k index c a (verdict_of k c).1 r ≡ handle_approval k index c a r =
          ground arith in
        rw e (executed-handle_approval v attended reason)
  ]

  executed-check_call : Executes k index c a r (check_call k index c a r)
  unfolding check_call ask_reason refuse answer append_tool_message
  executed-check_call = elim (Bool-cases (needs_reason k c && not (has_reason k c))) [
    | inl silent ↦ inl (ground arith)
    | inr given ↦
        let reason : needs_reason k c ≡ true → has_reason k c ≡ true = λ h. ground arith in
        elim (Verdict-cases (verdict_of k c).0) [
          | inl stop ↦ inl (ground arith)
          | inr (inl ask) ↦
              let e : check_call k index c a r ≡ confirm k index c a (verdict_of k c).1 r =
                ground arith in
              rw e (executed-confirm ask reason)
          | inr (inr free) ↦
              inr
                (ground (arith, executed-run_tool), record { reason = reason; allowed = inl free })
        ]
  ]

  executed-process_call : Executes k index c a r (process_call k index c a r)
  unfolding process_call ask_choice submit_plan skip_call answer append_tool_message
  executed-process_call = elim (Bool-cases (c.name == "ask_choice")) [
    | inl asks ↦ inl (ground arith)
    | inr other ↦ elim (Bool-cases (c.name == "submitPlan")) [
      | inl plans ↦ elim (Option-cases (k.plan_error c.args)) [
        | inl fine ↦ inl (ground arith)
        | inr (error, bad) ↦ inl (ground arith)
      ]
      | inr tool ↦ elim (Bool-cases (is_beyond k index)) [
        | inl late ↦ inl (ground arith)
        | inr early ↦
            let e : process_call k index c a r ≡ check_call k index c a r = ground arith in
            rw e executed-check_call
      ]
    ]
  ]

-- The call with a number, in a list whose first call has the number `start`.
abbrev pub call_at : ℕ → ℕ → List Call → Option Call
call_at start i [] = none
call_at start i (c ∷ calls) = if eqb start i then some c else call_at (suc start) i calls

-- An execution of one of the calls, with the arguments that the rules looked at, and justified.
pub record IsAuthorised (k : Core) (answers : ℕ → Answer) (calls : List Call) (e : Execution)
    : Type 0 where
  pub call : Call
  pub asked : call_at 0 e.index calls ≡ some call
  pub name : e.name ≡ call.name
  pub args : e.args ≡ stripped_args k call
  pub justified : IsJustified k call (answers e.index)

All-snoc :
    (P : Execution → Type 0) (es : List Execution) (e : Execution)
    → All P es
    → P e
    → All P (es ++ (e ∷ []))
All-snoc P [] e all this = (this, tt)
All-snoc P (f ∷ es) e all this = (all.0, All-snoc P es e all.1 this)

call_at-le :
    (start i : ℕ) (calls : List Call) (c : Call) → call_at start i calls ≡ some c → start ≤ i
call_at-le start i [] c h = absurd (ground arith)
call_at-le start i (d ∷ calls) c h = elim (Bool-cases (eqb start i)) [
  | inl same ↦ ground arith
  | inr other ↦ ground (arith, call_at-le (suc start) i calls c (ground arith))
]

go_on-cases : (a : Answer) (r rest : Round) → (go_on a r rest ≡ r) ⊎ (go_on a r rest ≡ rest)
unfolding go_on
go_on-cases a r rest = elim (Option-cases r.pending_plan) [
  | inr (id, waits) ↦ inl (ground arith)
  | inl idle ↦ elim (Bool-cases (is_cancelled a r)) [
    | inl stopped ↦ inl (ground arith)
    | inr free ↦ inr (ground arith)
  ]
]

module _ (k : Core) (answers : ℕ → Answer) (P : Execution → Type 0) where
  process_calls-All :
      (calls : List Call) (start : ℕ) (r : Round)
      → ((i : ℕ) (c : Call)
          → call_at start i calls ≡ some c
          → IsJustified k c (answers i)
          → P (execution k i c))
      → All P r.executed
      → All P (process_calls k answers start calls r).executed
  unfolding process_calls
  process_calls-All [] start r good all = all
  process_calls-All (c ∷ calls) start r good all =
      let r' : Round = process_call k start c (answers start) r in
      let all' : All P r'.executed = elim (executed-process_call k start c (answers start) r) [
        | inl same ↦ rw same all
        | inr (one, ok) ↦
            rw one
              (All-snoc P r.executed (execution k start c) all (good start c (ground arith) ok))
      ] in
      let rest : Round = process_calls k answers (suc start) calls r' in
      elim (go_on-cases (answers start) r' rest) [
        | inl stops ↦ rw stops all'
        | inr goes_on ↦ rw goes_on (
            process_calls-All calls (suc start) r'
              (λ i d there ok. good i d (ground (arith, call_at-le (suc start) i calls d there)) ok)
              all')
      ]

-- Every tool that a round executes was asked for by one of its calls, under the name and with the
-- arguments that the rules judged, and the call was justified: the rules allowed it, or they wanted a
-- confirmation and either the run is unattended and its policy or a grant covers the call, or it is
-- attended and the user approved it in time. A tool that writes or is dangerous had a reason. What the
-- rules blocked, what gave no reason, what the user rejected or left unanswered is not executed.
pub executed-IsAuthorised :
    (k : Core) (answers : ℕ → Answer) (calls : List Call)
    → All (IsAuthorised k answers calls) (process_calls k answers 0 calls new_round).executed
executed-IsAuthorised k answers calls =
    process_calls-All k answers (IsAuthorised k answers calls) calls 0 new_round
      (λ i c there ok. record { call = c; asked = there; name = refl; args = refl; justified = ok })
      tt
