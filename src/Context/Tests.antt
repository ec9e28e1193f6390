-- ===== src/Context/Tests.antt =====
-- A concrete conversation, and the theorem applied to it.
use nereus_door_loong_magic.Common.{
  ◌≡◌, ◌⊎◌, String, Bool, true, false, not, List, [], ◌∷◌, ◌++◌, refl, keep,
}
use nereus_door_loong_magic.Context.{
  Message, Texts, is_system, group_from, group_messages, flatten, older_units, recent_units,
  build_summary, summarised, compress_history,
}
use nereus_door_loong_magic.Context.Groups.{IsCut, compress_history-IsCut}

program : Unit {0}
unfolding group_from group_messages older_units recent_units build_summary compress_history
program = tt

abbrev texts : Texts
texts = record { clip = λ n t. t; strip = λ t. t; decimal = λ n. "1" }

abbrev said : String → Bool → String → Message
said role calls content = record {
  role = role;
  has_tool_calls = calls;
  tool_call_id = "";
  content = content;
  size = 10;
}

abbrev talk : List Message
talk =
    said "system" false "be careful"
    ∷ said "user" false "disk?"
    ∷ said "assistant" true ""
    ∷ said "tool" false "42%"
    ∷ said "assistant" false "fine"
    ∷ []

-- The last two units are the tool call with its answer, and the reply.
keeps_pairs :
    compress_history texts 2 5 talk
    ≡ said "system" false "be careful"
      ∷ record {
        role = "system";
        has_tool_calls = false;
        tool_call_id = "";
        content = "[对话历史摘要] 用户之前询问了: disk?. .";
        size = 0;
      }
      ∷ said "assistant" true ""
      ∷ said "tool" false "42%"
      ∷ said "assistant" false "fine"
      ∷ []
unfolding program
keeps_pairs = refl

compress_history-IsCut_example :
    (compress_history texts 2 5 talk ≡ talk)
    ⊎ ((older : List (List Message)) × (recent : List (List Message)) × IsCut 2
          (keep (λ m. not (is_system m)) talk)
          older
          recent
        × (compress_history texts 2 5 talk
            ≡ keep is_system talk ++ (summarised texts (flatten older) ++ flatten recent)))
compress_history-IsCut_example = compress_history-IsCut texts 2 5 talk
