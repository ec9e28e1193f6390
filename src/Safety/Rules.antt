-- ===== src/Safety/Rules.antt =====
-- What RuleEngine.checkToolCall of agent/safety/rule_engine.py allows and what it blocks.
use nereus_door_loong_magic.Common.{
  ◌≡◌, ◌≢◌, ◌↔◌, ◌⊎◌, inl, inr, String, true, false, none, [], ◌∷◌, refl, arith, All, Bool-cases,
  Option-cases, contains,
}
use nereus_door_loong_magic.Common.Json.{Json}
use nereus_door_loong_magic.Safety.{
  RiskLevel, read_only, write, dangerous, allow, block, Mode, read_only_mode, plan, agent,
  break_glass, executing, Regex, Policy, dangerous_patterns, flatten_values, policy_patterns,
  is_break_glass, scan, hits_protected, try_protected, try_danger, try_policy, check_level,
  check_tool_call_with_reason, check_tool_call, get_allowed_risk_levels, level_in,
}
use nereus_door_loong_magic.Safety.Misses.{
  scan-none, protected_agrees, danger_agrees, policy_agrees,
}

-- No value of the arguments contains a protected path, and none matches a dangerous pattern or a
-- pattern of the policy.
pub record IsClean (e : Regex) (p : Policy) (arguments : Json) : Type 0 where
  pub no_path :
      All
        (λ v. All (λ path. hits_protected path v ≡ false) p.protected_paths)
        (flatten_values arguments)
  pub no_danger :
      All
        (λ v. All (λ d. e.search d.regex d.ignore_case v ≡ false) dangerous_patterns)
        (flatten_values arguments)
  pub no_pattern :
      All
        (λ v. All (λ pat. e.search pat.0 true v ≡ false) (policy_patterns e p))
        (flatten_values arguments)

-- The mode is one that reads only, and the tool is not.
abbrev pub IsGated : Mode → RiskLevel → Type 0
IsGated mode risk_level = ((mode ≡ read_only_mode) ⊎ (mode ≡ plan)) × (risk_level ≢ read_only)

-- The risk level alone needs no approval.
abbrev pub IsReleased : Policy → RiskLevel → Type 0
IsReleased p risk_level =
    (risk_level ≡ read_only)
    ⊎ ((risk_level ≡ write) × (contains "all_write" p.require_approval ≡ false))

level-IsReleased :
    (p : Policy) (tool : String) (risk_level : RiskLevel)
    → ((check_level p tool risk_level).0 ≡ allow) ↔ IsReleased p risk_level
unfolding check_level
level-IsReleased p tool read_only = ((λ _. inl refl), (λ _. refl))
level-IsReleased p tool write = elim (Bool-cases (contains "all_write" p.require_approval)) [
  | inl y ↦ ((λ h. absurd (ground arith)), (λ l. absurd (ground arith)))
  | inr n ↦ ((λ _. inr (refl, n)), (λ _. ground arith))
]
level-IsReleased p tool dangerous = elim (Bool-cases (contains "all_write" p.require_approval)) [
  | inl y ↦ ((λ h. absurd (ground arith)), (λ l. absurd (ground arith)))
  | inr n ↦ ((λ h. absurd (ground arith)), (λ l. absurd (ground arith)))
]

level_not_blocked :
    (p : Policy) (tool : String) (risk_level : RiskLevel)
    → (check_level p tool risk_level).0 ≢ block
unfolding check_level
level_not_blocked p tool read_only h = absurd (ground arith)
level_not_blocked p tool write h = absurd (ground arith)
level_not_blocked p tool dangerous h = absurd (ground arith)

every_level :
    (risk_level : RiskLevel) → level_in risk_level (read_only ∷ write ∷ dangerous ∷ []) ≡ true
every_level read_only = refl
every_level write = refl
every_level dangerous = refl

only_reading :
    (risk_level : RiskLevel)
    → (level_in risk_level (read_only ∷ []) ≡ false) ↔ (risk_level ≢ read_only)
only_reading read_only = ((λ h. absurd (ground arith)), (λ g. absurd (g refl)))
only_reading write = ((λ _ h. absurd (ground arith)), (λ _. refl))
only_reading dangerous = ((λ _ h. absurd (ground arith)), (λ _. refl))

gate-IsGated :
    (mode : Mode) (risk_level : RiskLevel)
    → (level_in risk_level (get_allowed_risk_levels mode) ≡ false) ↔ IsGated mode risk_level
unfolding get_allowed_risk_levels
gate-IsGated read_only_mode r =
    ((λ h. (inl refl, (only_reading r).0 h)), (λ g. (only_reading r).1 g.1))
gate-IsGated plan r = ((λ h. (inr refl, (only_reading r).0 h)), (λ g. (only_reading r).1 g.1))
gate-IsGated agent r = (
  (λ h. absurd (ground (arith, every_level r))),
  (λ g. elim g.0 [ inl q ↦ absurd (ground arith) | inr q ↦ absurd (ground arith) ]),
)
gate-IsGated break_glass r = (
  (λ h. absurd (ground (arith, every_level r))),
  (λ g. elim g.0 [ inl q ↦ absurd (ground arith) | inr q ↦ absurd (ground arith) ]),
)
gate-IsGated executing r = (
  (λ h. absurd (ground (arith, every_level r))),
  (λ g. elim g.0 [ inl q ↦ absurd (ground arith) | inr q ↦ absurd (ground arith) ]),
)

glass : (mode : Mode) → (is_break_glass mode ≡ true) ↔ (mode ≡ break_glass)
glass read_only_mode = ((λ h. absurd (ground arith)), (λ h. absurd (ground arith)))
glass plan = ((λ h. absurd (ground arith)), (λ h. absurd (ground arith)))
glass agent = ((λ h. absurd (ground arith)), (λ h. absurd (ground arith)))
glass break_glass = ((λ _. refl), (λ _. refl))
glass executing = ((λ h. absurd (ground arith)), (λ h. absurd (ground arith)))

-- The rule engine blocks a call exactly where the mode is READ_ONLY or PLAN and the tool is not
-- read-only. No policy and no argument blocks one, so that a forbidden path or a dangerous command leads
-- to a confirmation at most, and break-glass blocks nothing; what the texts around the engine promise
-- of hard rules that block directly, it does not do.
pub blocks-IsGated :
    (e : Regex) (p : Policy) (tool : String) (risk_level : RiskLevel) (arguments : Json)
    (mode : Mode)
    → (check_tool_call e p tool risk_level arguments mode ≡ block) ↔ IsGated mode risk_level
unfolding check_tool_call check_tool_call_with_reason
blocks-IsGated e p tool risk_level arguments mode =
    let gate = gate-IsGated mode risk_level in
    let values = flatten_values arguments in
    elim (Bool-cases (level_in risk_level (get_allowed_risk_levels mode))) [
      | inr out ↦ ((λ _. gate.0 out), (λ _. ground arith))
      | inl allowed ↦ (
        (λ h. absurd (elim (Bool-cases (is_break_glass mode)) [
          | inl glass_ ↦ ground arith
          | inr normal ↦ elim (Option-cases (scan try_protected p.protected_paths values)) [
            | inr (a, x) ↦ ground arith
            | inl x ↦ elim (Option-cases (scan (try_danger e) dangerous_patterns values)) [
              | inr (a, y) ↦ ground arith
              | inl y ↦ elim (Option-cases (scan (try_policy e) (policy_patterns e p) values)) [
                | inr (a, z) ↦ ground arith
                | inl z ↦ level_not_blocked p tool risk_level (ground arith)
              ]
            ]
          ]
        ])),
        (λ g. absurd (ground (arith, gate.1 g))),
      )
    ]

scans-IsClean :
    (e : Regex) (p : Policy) (arguments : Json)
    → ((scan try_protected p.protected_paths (flatten_values arguments) ≡ none)
        × (scan (try_danger e) dangerous_patterns (flatten_values arguments) ≡ none)
        × (scan (try_policy e) (policy_patterns e p) (flatten_values arguments) ≡ none))
      ↔ IsClean e p arguments
scans-IsClean e p arguments =
    let values = flatten_values arguments in
    let a = scan-none try_protected hits_protected protected_agrees p.protected_paths values in
    let b =
      scan-none (try_danger e) (λ d. e.search d.regex d.ignore_case) (danger_agrees e)
        dangerous_patterns values in
    let c =
      scan-none (try_policy e) (λ pat. e.search pat.0 true) (policy_agrees e) (policy_patterns e p)
        values in
    (
      (λ h. record { no_path = a.0 h.0; no_danger = b.0 h.1; no_pattern = c.0 h.2 }),
      (λ k. (a.1 k.no_path, b.1 k.no_danger, c.1 k.no_pattern)),
    )

-- The rule engine allows a call without approval exactly where the mode admits its risk level and
-- the mode is break-glass, or the arguments are clean and the risk level alone is released.
pub allows-IsClean :
    (e : Regex) (p : Policy) (tool : String) (risk_level : RiskLevel) (arguments : Json)
    (mode : Mode)
    → (check_tool_call e p tool risk_level arguments mode ≡ allow) ↔ (
        (¬ IsGated mode risk_level)
        × ((mode ≡ break_glass) ⊎ (IsClean e p arguments × IsReleased p risk_level)))
unfolding check_tool_call check_tool_call_with_reason
allows-IsClean e p tool risk_level arguments mode =
    let gate = gate-IsGated mode risk_level in
    let values = flatten_values arguments in
    (
      (λ h. elim (Bool-cases (level_in risk_level (get_allowed_risk_levels mode))) [
        | inr out ↦ absurd (ground arith)
        | inl allowed ↦ (
          (λ g. absurd (ground (arith, gate.1 g))),
          (elim (Bool-cases (is_break_glass mode)) [
            | inl broken ↦ inl ((glass mode).0 broken)
            | inr normal ↦ elim (Option-cases (scan try_protected p.protected_paths values)) [
              | inr (a, x) ↦ absurd (ground arith)
              | inl x ↦ elim (Option-cases (scan (try_danger e) dangerous_patterns values)) [
                | inr (a, y) ↦ absurd (ground arith)
                | inl y ↦ elim (Option-cases (scan (try_policy e) (policy_patterns e p) values)) [
                  | inr (a, z) ↦ absurd (ground arith)
                  | inl z ↦ inr (
                    (scans-IsClean e p arguments).0 (x, y, z),
                    (level-IsReleased p tool risk_level).0 (ground arith),
                  )
                ]
              ]
            ]
          ]),
        )
      ]),
      (λ (admits, why). elim (Bool-cases (level_in risk_level (get_allowed_risk_levels mode))) [
        | inr out ↦ absurd (admits (gate.0 out))
        | inl allowed ↦ elim why [
          | inl broken ↦ ground (arith, (glass mode).1 broken)
          | inr (clean, released) ↦
              let (x, y, z) = (scans-IsClean e p arguments).1 clean in
              let level = (level-IsReleased p tool risk_level).1 released in
              elim (Bool-cases (is_break_glass mode)) [
                | inl broken ↦ ground arith
                | inr normal ↦ ground (arith, x, y, z, level)
              ]
        ]
      ]),
    )
