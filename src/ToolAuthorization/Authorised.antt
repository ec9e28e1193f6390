-- ===== src/ToolAuthorization/Authorised.antt =====
-- From an approval in gateway/service/ToolAuthorizationService.py to the next call in
-- agent/agent_core/agent_loop.py.
use nereus_door_loong_magic.Common.{
  ℕ, ◌≡◌, String, Bool, true, false, ◌&&◌, none, some, List, [], ◌∷◌, ◌++◌, refl, arith, any,
  Bool-cases, Option-cases, inl, inr, ◌⊎◌, if◌then◌else◌, ◌==◌, eq_self, ap,
}
use nereus_door_loong_magic.Common.Json.{Fields}
use nereus_door_loong_magic.Preauthorization.{
  Texts, ApprovalPolicy, Grant, extract_command_line, is_command_tool, paths_of,
}
use nereus_door_loong_magic.Safety.{occurs_in}
use nereus_door_loong_magic.Preauthorization.Checks.{check_static_preauthorization}
use nereus_door_loong_magic.Preauthorization.Decision.{
  grant_covers, match_approved_grant, Lookup, Run, collect_grants, is_inspection, is_text,
  is_pre_authorized_tool_call,
}
use nereus_door_loong_magic.ToolAuthorization.{
  Row, Service, is_approved, first_where, find_by_code, apply_update,
}
use nereus_door_loong_magic.ToolAuthorization.Submit.{new_row, submission_of}
use nereus_door_loong_magic.ToolAuthorization.Merging.{build_grant, Sessions}
use nereus_door_loong_magic.ToolAuthorization.Decisions.{
  approve, in_session, from_source, list_approved_grants,
}
use nereus_door_loong_magic.ToolAuthorization.Requests.{approval, approve-updates}
use nereus_door_loong_magic.ToolAuthorization.Covers.{any-grants_of, own_grant-covers}

-- When the administrator approves the request that the core submitted for a call, without another
-- path prefix, the grants of the session then cover the same call.
pub approved-covers :
    (x : Texts) (name : String) (args : Fields) (session reason : String) (ttl runs : ℕ)
    (drawn code : String) (now : ℕ) (db : Sessions) (by tid : String) (s : Service)
    → find_by_code code s.rows
      ≡ some (new_row (submission_of x name args session reason ttl runs drawn) code now)
    → (approve db code by tid none s).0 ≡ true
    → match_approved_grant x
        (list_approved_grants (some session) none none (approve db code by tid none s).1.rows)
        name
        args
      ≡ true
unfolding match_approved_grant list_approved_grants find_by_code
approved-covers x name args session reason ttl runs drawn code now db by tid s asked ok =
    let row = new_row (submission_of x name args session reason ttl runs drawn) code now in
    let (r, found, open_, after_) = approve-updates db code by tid none s ok in
    let same : r ≡ row = ground (arith, found, asked) in
    let g = build_grant row in
    let r' = apply_update (approval by tid g) row in
    let after' : first_where (λ q. code == q.code) (approve db code by tid none s).1.rows
        ≡ some r' =
      rw same at after_ in
    any-grants_of
      (λ q. is_approved q.status && in_session (some session) q && from_source none none q)
      (λ q. code == q.code)
      (grant_covers x name (paths_of x args)
        (if is_command_tool name then extract_command_line x args else ""))
      (approve db code by tid none s).1.rows r' g after' (ground (arith, eq_self session)) refl
      (own_grant-covers x name args session reason ttl runs drawn code now)

any-append : (q : Grant → Bool) (gs hs : List Grant) → any q gs ≡ true → any q (gs ++ hs) ≡ true
any-append q [] hs h = absurd (ground arith)
any-append q (g ∷ gs) hs h = elim (Bool-cases (q g)) [
  | inl y ↦ ground arith
  | inr n ↦ ground (arith, any-append q gs hs (ground arith))
]

-- listApprovedGrants over a table, as the core calls it.
abbrev pub lookup_in : List Row → Lookup
lookup_in rows session task source = some (list_approved_grants session task source rows)

append_nil : (gs : List Grant) → gs ++ [] ≡ gs
append_nil [] = refl
append_nil (g ∷ gs) = ap (λ hs. g ∷ hs) (append_nil gs)

append_assoc : (a b c : List Grant) → (a ++ b) ++ c ≡ a ++ (b ++ c)
append_assoc [] b c = refl
append_assoc (g ∷ a) b c = ap (λ hs. g ∷ hs) (append_assoc a b c)

-- The grants of the session come first among those that are collected.
collect_grants-in :
    (rows : List Row) (r : Run) (session : String)
    → r.session_id ≡ some session
    → (session == "") ≡ false
    → (more : List Grant) × (collect_grants (lookup_in rows) r
        ≡ some (list_approved_grants (some session) none none rows ++ more))
unfolding collect_grants
collect_grants-in rows r session has full = elim (Option-cases r.task_id) [
  | inl untasked ↦ elim (Bool-cases (is_inspection r.source)) [
    | inl y ↦ (
      list_approved_grants none none (some "inspection") rows,
      ground (arith, append_nil (list_approved_grants (some session) none none rows)),
    )
    | inr n ↦ ([], ground (arith, append_nil (list_approved_grants (some session) none none rows)))
  ]
  | inr (t, tasked) ↦ elim (Bool-cases (is_inspection r.source)) [
    | inl y ↦ (
      list_approved_grants none (some t) (some "scheduled") rows
          ++ list_approved_grants none none (some "inspection") rows,
      ground (
        arith,
        append_assoc (list_approved_grants (some session) none none rows)
            (list_approved_grants none (some t) (some "scheduled") rows)
            (list_approved_grants none none (some "inspection") rows),
      ),
    )
    | inr n ↦ (
      list_approved_grants none (some t) (some "scheduled") rows,
      ground (
        arith,
        append_nil (
            list_approved_grants (some session) none none rows
            ++ list_approved_grants none (some t) (some "scheduled") rows),
      ),
    )
  ]
]

-- A run whose session's grants cover a call may make it, unless the policy denies one of its paths.
covered-passes :
    (x : Texts) (p : ApprovalPolicy) (service : Lookup) (r : Run) (name : String) (args : Fields)
    (grants : List Grant)
    → is_text r.session_id ≡ true
    → ((check_static_preauthorization x p name args).0 ≡ true)
      ⊎ (occurs_in "deniedPaths" (check_static_preauthorization x p name args).1 ≡ false)
    → collect_grants service r ≡ some grants
    → match_approved_grant x grants name args ≡ true
    → (is_pre_authorized_tool_call x p service r name args).0 ≡ true
unfolding is_pre_authorized_tool_call
covered-passes x p service r name args grants known undenied found matched =
    elim (Bool-cases (check_static_preauthorization x p name args).0) [
      | inl passes ↦ ground arith
      | inr fails ↦ elim undenied [
        | inl passes ↦ absurd (ground arith)
        | inr fine ↦ ground (arith, known, found, matched)
      ]
    ]

-- When the administrator approves the request that the core submitted for a call, without another
-- path prefix, the same call is authorised, over the table that this approval leaves and in every run
-- of the session, unless the static check of its policy names denied paths in its refusal. A later
-- decision on the same request can change that.
pub approved-IsAuthorised :
    (x : Texts) (p : ApprovalPolicy) (name : String) (args : Fields) (session reason : String)
    (ttl runs : ℕ) (drawn code : String) (now : ℕ) (db : Sessions) (by tid : String) (s : Service)
    (r : Run)
    → find_by_code code s.rows
      ≡ some (new_row (submission_of x name args session reason ttl runs drawn) code now)
    → (approve db code by tid none s).0 ≡ true
    → r.session_id ≡ some session
    → (session == "") ≡ false
    → ((check_static_preauthorization x p name args).0 ≡ true)
      ⊎ (occurs_in "deniedPaths" (check_static_preauthorization x p name args).1 ≡ false)
    → (is_pre_authorized_tool_call x p
        (lookup_in (approve db code by tid none s).1.rows)
        r
        name
        args).0
      ≡ true
unfolding match_approved_grant
approved-IsAuthorised x p name args session reason ttl runs drawn code now db by tid s r asked ok
      has full undenied =
    let rows = (approve db code by tid none s).1.rows in
    let (more, found) = collect_grants-in rows r session has full in
    let own = list_approved_grants (some session) none none rows in
    let covers =
      grant_covers x name (paths_of x args)
        (if is_command_tool name then extract_command_line x args else "") in
    let covered =
      approved-covers x name args session reason ttl runs drawn code now db by tid s asked ok in
    covered-passes x p (lookup_in rows) r name args (own ++ more) (ground (arith, has, full))
      undenied found (any-append covers own more covered)
