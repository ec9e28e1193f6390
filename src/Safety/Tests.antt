-- ===== src/Safety/Tests.antt =====
-- Concrete calls to the rule engine and the risk scorer, and the theorems applied to them.
use nereus_door_loong_magic.Common.{◌+◌, ◌≤◌, ◌≡◌, ◌≢◌, ◌↔◌, ◌⊎◌, true, false, [], ◌∷◌, refl}
use nereus_door_loong_magic.Common.Json.{text, object, Fields, field, end}
use nereus_door_loong_magic.Safety.{
  write, dangerous, allow, require_confirm, block, plan, agent, break_glass, Regex, Policy,
  get_allowed_risk_levels, dangerous_patterns, occurs_in, flatten_values, compile_pattern,
  policy_patterns, first_of, scan, check_level, check_tool_call_with_reason, check_tool_call,
}
use nereus_door_loong_magic.Safety.Risk.{
  scalar_texts, calculate_risk_score, thresholds, classify_by, classify_risk,
  profile_from_tool_call, score_tool_call,
}
use nereus_door_loong_magic.Safety.Rules.{
  IsGated, IsClean, IsReleased, blocks-IsGated, allows-IsClean,
}
use nereus_door_loong_magic.Safety.Score.{severity, injection-decides}

program : Unit {0}
unfolding get_allowed_risk_levels dangerous_patterns occurs_in flatten_values compile_pattern
    policy_patterns first_of scan check_level check_tool_call_with_reason check_tool_call
    scalar_texts calculate_risk_score thresholds classify_by classify_risk profile_from_tool_call
    score_tool_call
program = tt

-- Patterns that are looked up literally.
abbrev literally : Regex
unfolding occurs_in
literally = record { compiles = λ p. true; escape = λ p. p; search = λ p i t. occurs_in p t }

abbrev policy : Policy
policy = record {
  block_patterns = "DROP TABLE" ∷ [];
  protected_paths = "/srv/vault" ∷ [];
  require_approval = [];
}

abbrev arguments : Fields
arguments = field "path" (text "/srv/www") end

abbrev vault : Fields
vault = field "path" (text "/srv/vault/key") end

verdicts :
    (check_tool_call literally policy "writeFile" write (object arguments) agent ≡ allow)
    × (check_tool_call literally policy "writeFile" write (object vault) agent ≡ require_confirm)
    × (check_tool_call literally policy "writeFile" write (object vault) break_glass ≡ allow)
    × (check_tool_call literally policy "writeFile" write (object arguments) plan ≡ block)
unfolding program
verdicts = (refl, refl, refl, refl)

scores : (score_tool_call literally dangerous arguments false).0 ≡ 3400
unfolding program
scores = refl

blocks-IsGated_example :
    (check_tool_call literally policy "writeFile" write (object arguments) plan ≡ block)
    ↔ IsGated plan write
blocks-IsGated_example = blocks-IsGated literally policy "writeFile" write (object arguments) plan

allows-IsClean_example :
    (check_tool_call literally policy "writeFile" write (object arguments) agent ≡ allow) ↔ (
      (¬ IsGated agent write)
      × ((agent ≡ break_glass)
          ⊎ (IsClean literally policy (object arguments) × IsReleased policy write)))
allows-IsClean_example = allows-IsClean literally policy "writeFile" write (object arguments) agent

injection-decides_example :
    ((score_tool_call literally dangerous vault false).1.verdict ≢ block)
    × ((score_tool_call literally dangerous vault true).0
        ≡ (score_tool_call literally dangerous vault false).0 + 1000)
    × (severity (score_tool_call literally dangerous vault false).1.verdict
        ≤ severity (score_tool_call literally dangerous vault true).1.verdict)
injection-decides_example = injection-decides literally dangerous vault
