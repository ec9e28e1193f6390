-- ===== src/Safety/Risk.antt =====
-- agent/safety/risk_scorer.py. A score is counted in hundredths, as the code rounds it to two
-- places, and the weights in percent. The dimensions are the whole numbers that
-- profileFromToolCall gives.
use nereus_door_loong_magic.Common.{
  ℕ, ◌+◌, ◌*◌, min, max, String, Bool, true, false, List, [], ◌∷◌, ltb, if◌then◌else◌, join,
}
use nereus_door_loong_magic.Common.Json.{bool, number, text, Fields, end, field}
use nereus_door_loong_magic.Safety.{
  RiskLevel, write, dangerous, Verdict, allow, require_confirm, block, Regex, risk_eq, occurs_in,
}

pub record RiskProfile : Type 0 where
  pub intent_risk : ℕ
  pub command_risk : ℕ
  pub path_risk : ℕ
  pub privilege_risk : ℕ
  pub exfiltration_risk : ℕ
  pub injection_risk : ℕ

unfoldable pub calculate_risk_score : RiskProfile → ℕ
calculate_risk_score p =
    let score =
      30 * p.command_risk
      + 20 * p.path_risk
      + 15 * p.privilege_risk
      + 15 * p.intent_risk
      + 10 * p.exfiltration_risk
      + 10 * p.injection_risk in
    min 10000 (max 0 score)

pub record Grade : Type 0 where
  pub level : String
  pub verdict : Verdict
  pub reason : String

pub record Threshold : Type 0 where
  pub upper : ℕ
  pub grade : Grade

abbrev threshold : ℕ → String → Verdict → String → Threshold
threshold upper level verdict reason = record {
  upper = upper;
  grade = record { level = level; verdict = verdict; reason = reason };
}

-- _THRESHOLDS
unfoldable pub thresholds : List Threshold
thresholds =
    threshold 2000 "safe" allow "低风险，自动执行"
    ∷ threshold 4000 "low" allow "较低风险，执行并记录日志"
    ∷ threshold 6000 "medium" require_confirm "中等风险，需要人工审批"
    ∷ threshold 8000 "high" require_confirm "高风险，强烈建议人工复核"
    ∷ threshold 10001 "critical" block "严重风险，默认阻断"
    ∷ []

unfoldable pub classify_by : List Threshold → ℕ → Grade
classify_by [] score = record { level = "critical"; verdict = block; reason = "评分越界" }
classify_by (t ∷ ts) score = if ltb score t.upper then t.grade else classify_by ts score

-- classifyRisk; the text of the score that ends the reason is left out
unfoldable pub classify_risk : ℕ → Grade
unfolding classify_by thresholds
classify_risk score = classify_by thresholds score

-- The values of `arguments` that are texts, numbers or Booleans, by their Python text.
unfoldable pub scalar_texts : Fields → List String
scalar_texts end = []
scalar_texts (field k (text t) fs) = t ∷ scalar_texts fs
scalar_texts (field k (number t) fs) = t ∷ scalar_texts fs
scalar_texts (field k (bool true) fs) = "True" ∷ scalar_texts fs
scalar_texts (field k (bool false) fs) = "False" ∷ scalar_texts fs
scalar_texts (field k _ fs) = scalar_texts fs

abbrev high_risk_privilege : String
high_risk_privilege = "\\b(sudo|su|chmod|chown|setcap|visudo)\\b"

abbrev exfil : String
exfil = "\\b(curl|wget|scp|nc|ncat|ftp|rsync)\\b"

abbrev destructive : String
destructive = "\\b(rm|mkfs|dd|wipefs|shred|truncate|fdisk|parted)\\b"

abbrev sensitive_path : String
sensitive_path = "(/etc/(shadow|passwd|sudoers)|/boot|/dev/(sd|nvme|vd)|~?/\\.ssh|/root)\\b"

abbrev system_path : String
system_path = "^/(etc|usr|lib|sbin|bin|proc|sys|boot)\\b"

-- profileFromToolCall
unfoldable pub profile_from_tool_call : Regex → RiskLevel → Fields → Bool → RiskProfile
unfolding scalar_texts
profile_from_tool_call e risk_level arguments injection_detected =
    let blob = join (scalar_texts arguments) in
    record {
      intent_risk =
          if risk_eq risk_level dangerous then 80 else if risk_eq risk_level write then 40 else 5;
      command_risk =
          if e.search destructive true blob
          then 85
          else if risk_eq risk_level dangerous
          then 60
          else if risk_eq risk_level write
          then 35
          else 5;
      path_risk =
          if e.search sensitive_path false blob
          then 90
          else if e.search system_path false blob
          then 65
          else if occurs_in ".." blob
          then 50
          else 10;
      privilege_risk = if e.search high_risk_privilege true blob then 75 else 10;
      exfiltration_risk =
          if e.search exfil true blob then (if occurs_in "|" blob then 70 else 45) else 5;
      injection_risk = if injection_detected then 100 else 0;
    }

-- scoreToolCall
unfoldable pub score_tool_call : Regex → RiskLevel → Fields → Bool → ℕ × Grade
unfolding profile_from_tool_call calculate_risk_score classify_risk
score_tool_call e risk_level arguments injection_detected =
    let score =
      calculate_risk_score (profile_from_tool_call e risk_level arguments injection_detected) in
    (score, classify_risk score)
