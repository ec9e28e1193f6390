-- ===== src/StructuredLlm/Attempts.antt =====
-- The attempts of callStructuredLLM in agent/llm_structured.py.
use nereus_door_loong_magic.Common.{ℕ, suc, ◌+◌, ◌≤◌, ◌≡◌, String, List, [], ◌∷◌, length}
use nereus_door_loong_magic.StructuredLlm.{
  Message, Reply, content, failed, Parsed, value, invalid, Outcome, result, gave_up, provider_error,
  value_error, retry_messages,
}

module _ {A : Type 0} (provider : ℕ → List Message → Reply) (parser : String → Parsed A)
    (clip : String → String) where
  -- The answers that failed their check, each with the text and the message of the error, from the
  -- attempt `attempt` on: each retry hands both to the provider.
  abbrev pub Rejected : (attempt : ℕ) → List Message → List (String × String) → Type 0
  Rejected attempt messages [] = Unit {0}
  Rejected attempt messages ((raw, error) ∷ rest) =
      (provider attempt messages ≡ content raw)
      × (parser raw ≡ invalid error)
      × Rejected (suc attempt) (retry_messages clip error raw messages) rest

  -- The conversation after those answers.
  abbrev pub conversation : List Message → List (String × String) → List Message
  conversation messages [] = messages
  conversation messages ((raw, error) ∷ rest) =
      conversation (retry_messages clip error raw messages) rest

  -- What an outcome says of the calls and of the last one, the attempt `last`; `left` is the number of
  -- attempts, and `failures` of them failed.
  abbrev pub Explains : (left last failures calls : ℕ) → List Message → Outcome A → Type 0
  Explains left last failures calls messages (result v raw n) =
      (provider last messages ≡ content raw)
      × (parser raw ≡ value v)
      × (n ≡ last)
      × (calls ≡ suc failures)
  Explains left last failures calls messages gave_up = (failures ≡ left) × (calls ≡ left)
  Explains left last failures calls messages (provider_error error) =
      (provider last messages ≡ failed error) × (calls ≡ suc failures)
  Explains left last failures calls messages value_error = ⊥

  -- How a run of the loop ended.
  pub record Ends (left attempt : ℕ) (messages : List Message) (o : ℕ × Outcome A) : Type 0 where
    pub few : o.0 ≤ left
    pub failures : List (String × String)
    pub rejected : Rejected attempt messages failures
    pub explained :
        Explains left
          (attempt + length failures)
          (length failures)
          o.0
          (conversation messages failures)
          o.1
