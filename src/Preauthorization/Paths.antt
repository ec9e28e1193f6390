-- ===== src/Preauthorization/Paths.antt =====
-- What authorises a call of an unattended run, in _isPreAuthorizedToolCall of
-- agent/agent_core/agent_loop.py.
use nereus_door_loong_magic.Common.{
  ◌≡◌, ◌⊎◌, inl, inr, String, Bool, true, false, ◌||◌, some, List, [], ◌∷◌, ◌++◌, refl, arith, any,
  Bool-cases, Option-cases, if◌then◌else◌, ◌==◌, eq_iff,
}
use nereus_door_loong_magic.Common.Json.{Fields}
use nereus_door_loong_magic.Safety.{occurs_in}
use nereus_door_loong_magic.Preauthorization.{
  Texts, ApprovalPolicy, Grant, path_within, extract_command_line, command_matches, is_command_tool,
  paths_of, non_empty, is_nil,
}
use nereus_door_loong_magic.Preauthorization.Checks.{check_static_preauthorization}
use nereus_door_loong_magic.Preauthorization.Decision.{
  Lookup, Run, is_text, is_task, grant_covers, match_approved_grant, collect_grants,
  is_pre_authorized_tool_call,
}
use nereus_door_loong_magic.Preauthorization.Static.{IsPreauthorized, static-IsPreauthorized}

-- A grant that was approved for the tool: a path of the call lies in a granted path, where both
-- have paths, and the command line is the granted one or goes on after it and a space, where both
-- have one.
pub record IsGranted (x : Texts) (g : Grant) (name : String) (args : Fields) : Type 0 where
  pub tool : g.tool_name ≡ name
  pub path :
      is_nil (non_empty g.paths) ≡ false
      → is_nil (paths_of x args) ≡ false
      → any (λ p. any (path_within x p) (non_empty g.paths)) (paths_of x args) ≡ true
  pub command :
      is_command_tool name ≡ true
      → (g.command_line == "") ≡ false
      → (extract_command_line x args == "") ≡ false
      → command_matches (extract_command_line x args) g.command_line ≡ true

grant_covers-IsGranted :
    (x : Texts) (g : Grant) (name : String) (args : Fields)
    → grant_covers x name
        (paths_of x args)
        (if is_command_tool name then extract_command_line x args else "")
        g
      ≡ true
    → IsGranted x g name args
unfolding grant_covers
grant_covers-IsGranted x g name args h = record {
  tool = ground (arith, eq_iff g.tool_name name);
  path = λ granted asked. ground (arith, eq_iff g.tool_name name);
  command = λ tool given asked. ground (arith, eq_iff g.tool_name name);
}

any-found :
    {A : Type 0} (q : A → Bool) (xs : List A)
    → any q xs ≡ true
    → (a : A) × (before : List A) × (rest : List A) × (xs ≡ before ++ (a ∷ rest)) × (q a ≡ true)
any-found q [] h = absurd (ground arith)
any-found q (a ∷ xs) h = elim (Bool-cases (q a)) [
  | inl y ↦ (a, [], xs, refl, y)
  | inr n ↦
      let (b, before, rest, e, y) = any-found q xs (ground arith) in (b, a ∷ before, rest, cc e, y)
]

-- Where the policy alone does not pass, a lookup has succeeded and one of its grants has matched.
fallback :
    (x : Texts) (p : ApprovalPolicy) (service : Lookup) (r : Run) (name : String) (args : Fields)
    → (check_static_preauthorization x p name args).0 ≡ false
    → (is_pre_authorized_tool_call x p service r name args).0 ≡ true
    → (grants : List Grant) × (collect_grants service r ≡ some grants)
      × (match_approved_grant x grants name args ≡ true)
unfolding is_pre_authorized_tool_call
fallback x p service r name args bad h =
    let st = check_static_preauthorization x p name args in
    elim (Bool-cases (occurs_in "deniedPaths" st.1)) [
      | inl denied ↦ absurd (ground arith)
      | inr fine ↦
          elim (Bool-cases (is_text r.session_id || is_task r.task_id || is_text r.source)) [
            | inr bare ↦ absurd (ground arith)
            | inl context ↦ elim (Option-cases (collect_grants service r)) [
              | inl failed ↦ absurd (ground arith)
              | inr (grants, found) ↦ elim (Bool-cases (match_approved_grant x grants name args)) [
                | inl matched ↦ (grants, found, matched)
                | inr missed ↦ absurd (ground arith)
              ]
            ]
          ]
    ]

-- A call of an unattended run is authorised only by the policy, or by a grant that the store
-- returned for the run's own session, task or source and that covers the call.
pub authorised-IsJustified :
    (x : Texts) (p : ApprovalPolicy) (service : Lookup) (r : Run) (name : String) (args : Fields)
    → (is_pre_authorized_tool_call x p service r name args).0 ≡ true
    → IsPreauthorized x p name args
      ⊎ ((g : Grant) × (before : List Grant) × (rest : List Grant) × (collect_grants service r
            ≡ some (before ++ (g ∷ rest)))
          × IsGranted x g name args)
unfolding match_approved_grant
authorised-IsJustified x p service r name args h =
    elim (Bool-cases (check_static_preauthorization x p name args).0) [
      | inl ok ↦ inl ((static-IsPreauthorized x p name args).0 ok)
      | inr bad ↦
          let (grants, found, matched) = fallback x p service r name args bad h in
          let (g, before, rest, e, covers) =
            any-found
              (grant_covers x name (paths_of x args)
                (if is_command_tool name then extract_command_line x args else ""))
              grants matched in
          inr (g, before, rest, cc (found, e), grant_covers-IsGranted x g name args covers)
    ]
