-- ===== src/Safety.antt =====
-- agent/safety/rule_engine.py, AgentRouter.getAllowedRiskLevels of agent/agent_router/router.py,
-- and the enums of agent/shared/types.py. Regular expressions are the parameter `Regex`.
mod Misses
mod Rules
pub mod Risk
mod Score
mod Tests
use Prim.Native.Char.{Char}
use nereus_door_loong_magic.Common.{
  String, Bool, true, false, not, ◌&&◌, ◌||◌, Option, none, some, List, [], ◌∷◌, ◌++◌, map, keep,
  contains, if◌then◌else◌, ◌==◌, starts_with, text_append,
}
use nereus_door_loong_magic.Common.Json.{
  Json, null, bool, number, text, array, object, Items, nil, cons, Fields, end, field,
}

-- ToolRiskLevel
pub data RiskLevel : Type 0 where
  read_only write dangerous : RiskLevel

-- SafetyVerdict
pub data Verdict : Type 0 where
  allow require_confirm block : Verdict

-- AgentMode
pub data Mode : Type 0 where
  read_only_mode plan agent break_glass executing : Mode

pub record Regex : Type 0 where
  -- re.compile(pattern) does not raise re.error
  pub compiles : String → Bool
  -- re.escape(pattern)
  pub escape : String → String
  -- re.compile(pattern, flags).search(text), with the case ignored where the flag says so
  pub search : (pattern : String) (ignore_case : Bool) → String → Bool

-- SafetyPolicy, the fields that the rule engine reads
pub record Policy : Type 0 where
  pub block_patterns : List String
  pub protected_paths : List String
  pub require_approval : List String

abbrev pub risk_eq : RiskLevel → RiskLevel → Bool
risk_eq read_only read_only = true
risk_eq write write = true
risk_eq dangerous dangerous = true
risk_eq _ _ = false

abbrev pub is_break_glass : Mode → Bool
is_break_glass break_glass = true
is_break_glass _ = false

-- AgentRouter.getAllowedRiskLevels
unfoldable pub get_allowed_risk_levels : Mode → List RiskLevel
get_allowed_risk_levels read_only_mode = read_only ∷ []
get_allowed_risk_levels plan = read_only ∷ []
get_allowed_risk_levels _ = read_only ∷ write ∷ dangerous ∷ []

-- `level in levels`
abbrev pub level_in : RiskLevel → List RiskLevel → Bool
level_in r [] = false
level_in r (l ∷ ls) = risk_eq r l || level_in r ls

-- One entry of _DANGEROUS_PATTERNS.
pub record Danger : Type 0 where
  pub regex : String
  pub ignore_case : Bool
  pub reason : String

abbrev danger : String → Bool → String → Danger
danger regex ignore_case reason = record {
  regex = regex;
  ignore_case = ignore_case;
  reason = reason;
}

-- _DANGEROUS_PATTERNS
unfoldable pub dangerous_patterns : List Danger
dangerous_patterns =
    danger "(^|[/\\\\])\\.\\.\\s*$" false "路径包含 .. 可能导致目录穿越"
    ∷ danger "^/$" false "操作根目录 / 极其危险"
    ∷ danger "^/(etc|boot|usr|lib|sbin|bin|proc|sys)\\b" false "操作系统关键目录"
    ∷ danger "^/home$" false "操作 /home 根目录"
    ∷ danger "/etc/(shadow|passwd|sudoers|gshadow)\\b" false "操作认证/权限关键文件"
    ∷ danger "~?/\\.ssh\\b" false "操作 SSH 密钥目录"
    ∷ danger "\\b777\\b" false "chmod 777 权限过于宽松"
    ∷ danger "\\b000\\b" false "chmod 000 会导致文件不可访问"
    ∷ danger "\\bchmod\\s+-R\\s" true "递归修改权限风险高"
    ∷ danger "\\bchown\\s+(-R\\s+)?root\\b" true "变更属主为 root"
    ∷ danger "\\b(SIGKILL|9)\\b" false "SIGKILL 无法被进程捕获，可能导致数据丢失"
    ∷ danger "\\brm\\s+(-\\w*[rRfF]\\w*\\s+)+/(\\s|$|\\*)" false "rm -rf 作用于根/系统路径"
    ∷ danger "\\bmkfs\\.\\w+" false "格式化文件系统"
    ∷ danger "\\bdd\\s+if=\\S*\\s+of=/dev/(sd|nvme|vd|hd)" true "dd 直接写裸磁盘设备"
    ∷ danger ">\\s*/dev/(sd|nvme|vd|hd)\\w*" false "重定向覆盖磁盘设备"
    ∷ danger "\\bwipefs\\b" false "擦除文件系统签名"
    ∷ danger "\\b(curl|wget)\\b.+\\|\\s*(ba|z|k)?sh\\b" true "下载内容直接管道执行（远程代码执行风险）"
    ∷ danger "\\biptables\\s+-F\\b" true "清空防火墙规则"
    ∷ danger "\\bnc\\b.+-e\\b" true "netcat 反弹 shell 风险"
    ∷ danger "\\bsudo\\s+su\\b" true "提权到 root 交互式 shell"
    ∷ danger "\\bsu\\s+-\\s*root\\b" true "切换到 root 用户"
    ∷ danger ":\\(\\)\\s*\\{\\s*:\\s*\\|\\s*:\\s*&\\s*\\}\\s*;\\s*:" false "fork bomb"
    ∷ danger "\\b(python|perl|ruby|php)\\d?\\s+-c\\b" true "解释器 -c 执行任意代码"
    ∷ danger "\\beval\\b" true "eval 执行动态拼接命令"
    ∷ danger "\\b(shutdown|reboot|halt|poweroff)\\b" true "关机/重启系统"
    ∷ danger "\\bsystemctl\\s+(stop|disable|mask)\\b" true "停用关键系统服务"
    ∷ []

-- `needle in hay` over texts
unfoldable pub occurs_in : String → String → Bool
occurs_in needle String.[] = needle == ""
occurs_in needle (String.◌∷◌ c hay) = starts_with (String.◌∷◌ c hay) needle || occurs_in needle hay

abbrev bool_text : Bool → String
bool_text true = "True"
bool_text false = "False"

-- _flattenValues: the keys of a dict count too.
unfoldable mutual
  pub flatten_values : Json → List String
  flatten_values null = []
  flatten_values (bool b) = bool_text b ∷ []
  flatten_values (number t) = t ∷ []
  flatten_values (text t) = t ∷ []
  flatten_values (array xs) = flatten_items xs
  flatten_values (object fs) = flatten_fields fs

  pub flatten_items : Items → List String
  flatten_items nil = []
  flatten_items (cons x xs) = flatten_values x ++ flatten_items xs

  pub flatten_fields : Fields → List String
  flatten_fields end = []
  flatten_fields (field key item fs) = (key ∷ flatten_values item) ++ flatten_fields fs

-- _compilePattern: a pattern that does not compile is taken literally. The pair is the expression
-- that is searched, with the case ignored, and the text of the policy.
unfoldable pub compile_pattern : Regex → String → String × String
compile_pattern e pattern =
    if e.compiles pattern then (pattern, pattern) else (e.escape pattern, pattern)

-- self._policyPatterns
unfoldable pub policy_patterns : Regex → Policy → List (String × String)
unfolding compile_pattern
policy_patterns e p = map (compile_pattern e) (
    keep (λ pat. not (pat == "") && not (pat == "all_write"))
      (p.block_patterns ++ p.require_approval))

-- The nested loops: the first test, in the order of the values and then of the tests, that a value
-- meets, as the reason that it gives.
unfoldable pub first_of :
    {A : Type 0} → (A → String → Option String) → List A → String → Option String
first_of try [] value = none
first_of try (a ∷ tests) value = elim (try a value) [
  | none ↦ first_of try tests value
  | some reason ↦ some reason
]

unfoldable pub scan :
    {A : Type 0} → (A → String → Option String) → List A → List String → Option String
unfolding first_of
scan try tests [] = none
scan try tests (v ∷ values) = elim (first_of try tests v) [
  | none ↦ scan try tests values
  | some reason ↦ some reason
]

abbrev pub hits_protected : String → String → Bool
hits_protected path value = not (path == "") && occurs_in path value

abbrev pub try_protected : String → String → Option String
try_protected path value =
    if hits_protected path value then some (text_append "参数触发安全策略: 访问受保护路径 " path) else none

abbrev pub try_danger : Regex → Danger → String → Option String
try_danger e d value =
    if e.search d.regex d.ignore_case value then some (text_append "参数触发安全规则: " d.reason) else none

abbrev pub try_policy : Regex → String × String → String → Option String
try_policy e pat value =
    if e.search pat.0 true value then some (text_append "参数触发安全策略: " pat.1) else none

abbrev pub mode_value : Mode → String
mode_value read_only_mode = "read_only"
mode_value plan = "plan"
mode_value agent = "agent"
mode_value break_glass = "break_glass"
mode_value executing = "executing"

abbrev pub level_value : RiskLevel → String
level_value read_only = "read_only"
level_value write = "write"
level_value dangerous = "dangerous"

-- Step 6 of checkToolCallWithReason.
unfoldable pub check_level : Policy → String → RiskLevel → Verdict × String
check_level p tool_name risk_level =
    if risk_eq risk_level read_only
    then (allow, "只读操作，自动放行")
    else if contains "all_write" p.require_approval && level_in risk_level (write ∷ dangerous ∷ [])
    then (require_confirm, "安全策略要求所有写入/高危操作审批")
    else if risk_eq risk_level dangerous
    then (require_confirm, text_append "高危操作 [" (text_append tool_name "] 需要人工确认"))
    else (allow, "校验通过")

-- checkToolCallWithReason
unfoldable pub check_tool_call_with_reason :
    Regex → Policy → String → RiskLevel → Json → Mode → Verdict × String
unfolding get_allowed_risk_levels scan check_level flatten_values policy_patterns
check_tool_call_with_reason e p tool_name risk_level arguments mode =
    if not (level_in risk_level (get_allowed_risk_levels mode))
    then (
      block,
      text_append "当前模式 [" (
          text_append (mode_value mode)
            (text_append "] 不允许 " (text_append (level_value risk_level) " 操作"))),
    )
    else if is_break_glass mode
    then (allow, "紧急模式，操作已放行")
    else let values = flatten_values arguments in
      elim (scan try_protected p.protected_paths values) [
        | some reason ↦ (require_confirm, reason)
        | none ↦ elim (scan (try_danger e) dangerous_patterns values) [
          | some reason ↦ (require_confirm, reason)
          | none ↦ elim (scan (try_policy e) (policy_patterns e p) values) [
            | some reason ↦ (require_confirm, reason)
            | none ↦ check_level p tool_name risk_level
          ]
        ]
      ]

-- checkToolCall
unfoldable pub check_tool_call : Regex → Policy → String → RiskLevel → Json → Mode → Verdict
unfolding check_tool_call_with_reason
check_tool_call e p tool_name risk_level arguments mode =
    (check_tool_call_with_reason e p tool_name risk_level arguments mode).0
