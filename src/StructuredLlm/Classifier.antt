-- ===== src/StructuredLlm/Classifier.antt =====
-- agent/safety/llm_classifier.py: the second opinion of a language model on a text.
use nereus_door_loong_magic.Common.{
  ℕ, String, Bool, true, false, ◌||◌, Option, none, some, List, [], ◌∷◌, if◌then◌else◌, ◌==◌,
}
use nereus_door_loong_magic.Common.Json.{Json, null, bool, number, text, Fields, end, field}
use nereus_door_loong_magic.StructuredLlm.{
  Message, Reply, Parsed, value, invalid, Outcome, result, gave_up, provider_error, value_error,
  call_structured_llm,
}
use nereus_door_loong_magic.StructuredLlm.Parsing.{Tools, parse_json_object}

-- The modes of VALID_MODES; any other text is sampling.
pub data ClassifierMode : Type 0 where
  off sampling full : ClassifierMode

-- What _parseStructured returns.
pub record Opinion : Type 0 where
  pub injection : Bool
  pub confidence : String
  pub reason : String

-- class ClassifierVerdict; the confidence is the text of the number.
pub record ClassifierVerdict : Type 0 where
  pub injection : Bool
  pub confidence : String
  pub reason : String
  pub checked : Bool
  pub error : String

-- Fail open: ClassifierVerdict(error=...)
abbrev pub unchecked : String → ClassifierVerdict
unchecked error = record {
  injection = false;
  confidence = "0.0";
  reason = "";
  checked = false;
  error = error;
}

-- data.get(key, default)
abbrev get_or : Json → String → Fields → Json
get_or default_ key end = default_
get_or default_ key (field k v fields) = if key == k then v else get_or default_ key fields

abbrev check_opinion : Tools → Json → Json → Json → Parsed Opinion
check_opinion x (bool b) (number n) (text t) =
    if x.is_unit n
    then value (record { injection = b; confidence = n; reason = t })
    else invalid "confidence 必须是 0 到 1 之间的数字"
check_opinion x (bool b) (number n) other =
    if x.is_unit n then invalid "reason 必须是字符串" else invalid "confidence 必须是 0 到 1 之间的数字"
check_opinion x (bool b) other reason = invalid "confidence 必须是 0 到 1 之间的数字"
check_opinion x other confidence reason = invalid "injection 必须是 boolean"

-- _parseStructured
unfoldable pub parse_structured : Tools → String → Parsed Opinion
unfolding parse_json_object
parse_structured x raw = elim (parse_json_object x raw) [
  | invalid error ↦ invalid error
  | value fields ↦
      check_opinion x (get_or null "injection" fields) (get_or null "confidence" fields)
        (get_or (text "") "reason" fields)
]

-- class InjectionClassifier; `provider` is `none` where there is none, `render` is renderPrompt, and
-- `draw` says that the random number is below the sampling rate.
pub record Classifier : Type 0 where
  pub provider : Option (ℕ → List Message → Reply)
  pub mode : ClassifierMode
  pub render : String → String
  pub tools : Tools

-- shouldCheck
unfoldable pub should_check : Classifier → (draw : Bool) → Bool
should_check c draw = elim c.provider [
  | none ↦ false
  | some provider ↦ elim c.mode [ off ↦ false | full ↦ true | sampling ↦ draw ]
]

abbrev pub verdict_of : Tools → Outcome Opinion → ClassifierVerdict
verdict_of x (result o raw attempts) = record {
  injection = o.injection;
  confidence = o.confidence;
  reason = x.clip_reason o.reason;
  checked = true;
  error = "";
}
verdict_of x gave_up = unchecked "classifier_parse_failed_after_5_attempts"
verdict_of x (provider_error error) = unchecked error
verdict_of x value_error = unchecked "classifier_error: ValueError"

abbrev pub is_off : ClassifierMode → Bool
is_off off = true
is_off _ = false

-- classify
unfoldable pub classify : Classifier → String → ClassifierVerdict
unfolding call_structured_llm parse_structured
classify c t = elim c.provider [
  | none ↦ unchecked ""
  | some provider ↦
      if is_off c.mode || c.tools.strip t == ""
      then unchecked ""
      else verdict_of c.tools
          (call_structured_llm provider (parse_structured c.tools) c.tools.clip_text 5
            (record { role = "user"; content = c.render (c.tools.clip_text t) } ∷ [])).1
]
