-- ===== src/Safety/Score.antt =====
-- What agent/safety/risk_scorer.py can answer.
use nereus_door_loong_magic.Common.{
  ℕ, ◌+◌, ◌≤◌, ◌<◌, ◌≡◌, ◌≢◌, Bool, true, false, arith, ltb, if◌then◌else◌, refl,
}
use nereus_door_loong_magic.Common.Json.{Fields}
use nereus_door_loong_magic.Safety.{RiskLevel, Verdict, allow, require_confirm, block, Regex}
use nereus_door_loong_magic.Safety.Risk.{
  RiskProfile, calculate_risk_score, classify_by, thresholds, classify_risk, profile_from_tool_call,
  score_tool_call,
}

-- allow < require_confirm < block
abbrev pub severity : Verdict → ℕ
severity allow = 0
severity require_confirm = 1
severity block = 2

-- The verdict by the score, with no table.
abbrev pub verdict_of : ℕ → Verdict
verdict_of score =
    if ltb score 4000 then allow else if ltb score 8000 then require_confirm else block

classified : (score : ℕ) → (classify_risk score).verdict ≡ verdict_of score
unfolding classify_risk classify_by thresholds
classified score = ground arith

verdict_monotone : (a b : ℕ) → a ≤ b → severity (verdict_of a) ≤ severity (verdict_of b)
verdict_monotone a b h = ground arith

score_bound : (p : RiskProfile) → calculate_risk_score p ≤ 10000
unfolding calculate_risk_score
score_bound p = omega arith

-- A score with no dimension below another's is not below it.
score_monotone :
    (p q : RiskProfile)
    → p.intent_risk ≤ q.intent_risk
    → p.command_risk ≤ q.command_risk
    → p.path_risk ≤ q.path_risk
    → p.privilege_risk ≤ q.privilege_risk
    → p.exfiltration_risk ≤ q.exfiltration_risk
    → p.injection_risk ≤ q.injection_risk
    → calculate_risk_score p ≤ calculate_risk_score q
unfolding calculate_risk_score
score_monotone p q a b c d e f = omega arith

module _ (e : Regex) (r : RiskLevel) (arguments : Fields) where
  intent_le : (i : Bool) → (profile_from_tool_call e r arguments i).intent_risk ≤ 80
  unfolding profile_from_tool_call
  intent_le i = ground arith

  command_le : (i : Bool) → (profile_from_tool_call e r arguments i).command_risk ≤ 85
  unfolding profile_from_tool_call
  command_le i = ground arith

  path_le : (i : Bool) → (profile_from_tool_call e r arguments i).path_risk ≤ 90
  unfolding profile_from_tool_call
  path_le i = ground arith

  privilege_le : (i : Bool) → (profile_from_tool_call e r arguments i).privilege_risk ≤ 75
  unfolding profile_from_tool_call
  privilege_le i = ground arith

  exfiltration_le : (i : Bool) → (profile_from_tool_call e r arguments i).exfiltration_risk ≤ 70
  unfolding profile_from_tool_call
  exfiltration_le i = ground arith

  -- The score without an injection stays below the threshold of the level critical.
  uninjected-never-blocks : (score_tool_call e r arguments false).1.verdict ≢ block
  unfolding score_tool_call calculate_risk_score
  uninjected-never-blocks h =
      let p = profile_from_tool_call e r arguments false in
      let s = calculate_risk_score p in
      let none_injected : p.injection_risk ≡ 0 = refl in
      let low : s < 8000 = omega (
        arith,
        none_injected,
        intent_le false,
        command_le false,
        path_le false,
        privilege_le false,
        exfiltration_le false,
      ) in
      let v = classified s in ground (arith, v, low, h)

  injection-raises :
      ((score_tool_call e r arguments true).0 ≡ (score_tool_call e r arguments false).0 + 1000)
      × (severity (score_tool_call e r arguments false).1.verdict
          ≤ severity (score_tool_call e r arguments true).1.verdict)
  unfolding score_tool_call calculate_risk_score
  injection-raises =
      let p = profile_from_tool_call e r arguments false in
      let q = profile_from_tool_call e r arguments true in
      let a : p.injection_risk ≡ 0 = refl in
      let b : q.injection_risk ≡ 100 = refl in
      let raised : calculate_risk_score q ≡ calculate_risk_score p + 1000 = omega (
        arith,
        a,
        b,
        intent_le false,
        command_le false,
        path_le false,
        privilege_le false,
        exfiltration_le false,
      ) in
      let milder =
        verdict_monotone (calculate_risk_score p) (calculate_risk_score q)
          (omega (arith, raised)) in
      (raised, rw (classified (calculate_risk_score p), classified (calculate_risk_score q)) milder)

  -- The scorer blocks no call for which no injection was detected upstream. A detected injection
  -- raises the score of a call by exactly 10 points, and never makes the verdict milder.
  pub injection-decides :
      ((score_tool_call e r arguments false).1.verdict ≢ block)
      × ((score_tool_call e r arguments true).0 ≡ (score_tool_call e r arguments false).0 + 1000)
      × (severity (score_tool_call e r arguments false).1.verdict
          ≤ severity (score_tool_call e r arguments true).1.verdict)
  injection-decides = (uninjected-never-blocks, injection-raises.0, injection-raises.1)
