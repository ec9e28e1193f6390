-- ===== src/AgentCore/Approvals.antt =====
-- The approvals that agent/agent_core/agent_loop.py waits for: _handleApproval registers an action and
-- waits; approve and reject, called from outside, leave a decision and wake it up.
use nereus_door_loong_magic.Common.{
  ◌≡◌, String, Bool, true, false, Option, none, some, List, [], ◌∷◌, refl, arith, ◌==◌,
  if◌then◌else◌, eq_iff, Option-cases, Bool-cases, inl, inr,
}
use nereus_door_loong_magic.Common.Dict.{Dict, lookup, insert, remove, lookup-insert, lookup-remove}

-- An entry of _approvalDecisions.
pub record Verdict : Type 0 where
  pub approved : Bool
  pub reason : String

-- _pendingApprovals, where the value tells whether the asyncio.Event is set, and
-- _approvalDecisions.
pub record Approvals : Type 0 where
  pub pending : Dict Bool
  pub decisions : Dict Verdict

-- The start of _handleApproval; `id` is a new action id.
unfoldable pub register : String → Approvals → Approvals
register id s = record s { pending = insert id false s.pending }

-- _resolveApproval, which approve and reject call.
unfoldable pub resolve_approval : String → Verdict → Approvals → Bool × Approvals
resolve_approval id v s = elim (lookup id s.pending) [
  | none ↦ (false, s)
  | some is_set ↦
      (true, record s { pending = insert id true s.pending; decisions = insert id v s.decisions })
]

abbrev pub no_verdict : Verdict
no_verdict = record { approved = false; reason = "" }

abbrev pub or_refused : Option Verdict → Verdict
or_refused none = no_verdict
or_refused (some v) = v

-- _handleApproval behind its wait: the decision, and what is left. Time that is over counts as a
-- refusal.
unfoldable pub wake : String → Approvals → Verdict × Approvals
wake id s = (
  or_refused (lookup id s.decisions),
  record { pending = remove id s.pending; decisions = remove id s.decisions },
)

unfoldable pub time_out : String → Approvals → Verdict × Approvals
time_out id s =
    (no_verdict, record { pending = remove id s.pending; decisions = remove id s.decisions })

-- Calls of approve and reject, the first of the list first.
unfoldable pub resolve_all : List (String × Verdict) → Approvals → Approvals
unfolding resolve_approval
resolve_all [] s = s
resolve_all ((id, v) ∷ calls) s = resolve_all calls (resolve_approval id v s).1

-- The last decision of a list for an action, or the one before the list.
abbrev pub last_for : String → Option Verdict → List (String × Verdict) → Option Verdict
last_for id old [] = old
last_for id old ((j, v) ∷ calls) = last_for id (if j == id then some v else old) calls

abbrev pub is_waiting : String → Approvals → Bool
is_waiting id s = elim (lookup id s.pending) [ none ↦ false | some is_set ↦ true ]

resolve-keeps :
    (id j : String) (v : Verdict) (s : Approvals)
    → is_waiting id s ≡ true
    → (is_waiting id (resolve_approval j v s).1 ≡ true)
      × (lookup id (resolve_approval j v s).1.decisions
          ≡ (if j == id then some v else lookup id s.decisions))
unfolding resolve_approval
resolve-keeps id j v s waits = elim (Option-cases (lookup j s.pending)) [
  | inl unknown ↦ elim (Bool-cases (j == id)) [
    | inl same ↦
        let e : j ≡ id = (eq_iff j id).0 same in
        let none_ : lookup id s.pending ≡ none = rw e at unknown in absurd (ground arith)
    | inr other ↦ (ground arith, ground arith)
  ]
  | inr (b, known) ↦ (
    ground (arith, lookup-insert j id true s.pending),
    ground (arith, lookup-insert j id v s.decisions),
  )
]

resolve_all-last :
    (id : String) (calls : List (String × Verdict)) (s : Approvals)
    → is_waiting id s ≡ true
    → lookup id (resolve_all calls s).decisions ≡ last_for id (lookup id s.decisions) calls
unfolding resolve_all
resolve_all-last id [] s waits = refl
resolve_all-last id ((j, v) ∷ calls) s waits =
    let kept = resolve-keeps id j v s waits in
    let rest = resolve_all-last id calls (resolve_approval j v s).1 kept.0 in rw (← kept.1) rest

-- The result of a wait, and that nothing of it is left.
pub record IsSettled (id : String) (v : Verdict) (o : Verdict × Approvals) : Type 0 where
  pub verdict : o.0 ≡ v
  pub pending : lookup id o.1.pending ≡ none
  pub decisions : lookup id o.1.decisions ≡ none
  pub late : (w : Verdict) → resolve_approval id w o.1 ≡ (false, o.1)

-- An action for which no decision is kept is registered, then approve and reject are called any number
-- of times for any actions. When the wait ends, its verdict is the last one that was given for this
-- action, and a refusal where there is none; when its time is over, it is a refusal. Either way the
-- action is not pending and no decision for it is kept afterwards, and a later approve or reject of it
-- returns False and changes nothing.
pub approval-last_decides :
    (id : String) (calls : List (String × Verdict)) (s : Approvals)
    → lookup id s.decisions ≡ none
    → IsSettled id
        (or_refused (last_for id none calls))
        (wake id (resolve_all calls (register id s)))
      × IsSettled id no_verdict (time_out id (resolve_all calls (register id s)))
unfolding register wake time_out resolve_approval
approval-last_decides id calls s fresh =
    let s' : Approvals = resolve_all calls (register id s) in
    let waits : is_waiting id (register id s) ≡ true =
      ground (arith, lookup-insert id id false s.pending, eq_iff id id) in
    let last : lookup id s'.decisions ≡ last_for id none calls =
      rw (← fresh) (resolve_all-last id calls (register id s) waits) in
    let gone : lookup id (remove id s'.pending) ≡ none =
      ground (arith, lookup-remove id id s'.pending, eq_iff id id) in
    let clean : lookup id (remove id s'.decisions) ≡ none =
      ground (arith, lookup-remove id id s'.decisions, eq_iff id id) in
    (
      record {
        verdict = rw last refl;
        pending = gone;
        decisions = clean;
        late = λ w. ground arith;
      },
      record { verdict = refl; pending = gone; decisions = clean; late = λ w. ground arith },
    )
