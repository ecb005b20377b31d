-- ===== src/Services/Ai.antt =====
-- brain-python/services/ai_runtime.py: the answer of the language model.
pub mod Setup
pub mod Prompt
pub mod Bounded
pub mod Privacy
unfoldable pub use Setup.*
unfoldable pub use Prompt.*
use test_bot.Base.{
  List, Option, [], false, if◌then◌else◌, is_empty, length, none, not, some, true, ◌++◌, ◌∷◌,
}
use test_bot.Text.{Text, codes, join, strip}
use test_bot.Value.{
  Fields, Float, Items, Runtime, Value, arr, cons, end, field, int, nil, or_text, str,
}
use test_bot.Env.{Env}
use test_bot.Schemas.{BrainResponse, ChatRequest, reply_messages, text_message}
use test_bot.Base.Dict.{keys}
use test_bot.Base.Int.{pos}
use test_bot.Modules.Command.{ModuleContext}

-- The model's endpoint: what a `POST` of a payload to an address gives, decoded; `none` for a
-- failed connection, a status that is an error, and a body that is no JSON.
abbrev pub Upstream : Type 0
Upstream = Text → Fields → Float → Fields → Option Value

-- The outcome: an answer or none, or an exception that the caller gets.
pub data Built : Type 0 where
  built : Option BrainResponse → Built
  raised : Built

-- What the code does outside: it reads the memories and the state of the conversation for a text, or
-- sends a request to an address.
pub data Act : Type 0 where
  reads : ChatRequest → Text → Act
  posts : (url : Text) (payload : Fields) → Act

-- `_text_response`
unfoldable pub text_response : Text → Fields → BrainResponse
text_response text metadata = record {
  handled = true;
  should_reply = not (is_empty text);
  messages = reply_messages text;
  reply = text;
  tool_calls = [];
  job_id = none;
  metadata = some metadata;
}

abbrev ai_metadata : Text → Value → Fields → Fields
ai_metadata key value rest = field (codes "module") (str (codes "ai")) (field key value rest)

abbrev texts : List Text → Items
texts [] = nil
texts (t ∷ ts) = cons (str t) (texts ts)

abbrev pub incomplete : List Text → BrainResponse
incomplete keys = text_response (codes "AI 配置不完整：缺少 " ++ (join (codes ", ") keys ++ codes "。")) (
    ai_metadata (codes "error") (str (codes "missing_config"))
      (field (codes "missing") (arr (texts keys)) end))

abbrev pub error_response : Text → Text → BrainResponse
error_response text error = text_response text (ai_metadata (codes "error") (str error) end)

-- What a trigger gets that cannot be served: an explanation for a command, else nothing.
abbrev pub explain : Trigger → BrainResponse → Built
explain command response = built (some response)
explain trigger response = built none

abbrev trigger_name : Trigger → Text
trigger_name command = codes "command"
trigger_name mention = codes "mention"
trigger_name reply = codes "reply"

abbrev prompt_version : Recall → Text
prompt_version recall = elim recall.state_summary [
  | none ↦ codes "ai-memory-v1"
  | some summary ↦ codes "ai-memory-state-v1"
]

-- The answer for a reply of the model that is stripped.
unfoldable pub replied : Config → Trigger → Recall → Text → BrainResponse
replied c trigger recall [] = record {
  handled = true;
  should_reply = false;
  messages = [];
  reply = [];
  tool_calls = [];
  job_id = none;
  metadata = some (ai_metadata (codes "reason") (str (codes "empty_reply")) end);
}
replied c trigger recall (x ∷ xs) = record {
  handled = true;
  should_reply = true;
  messages = text_message (x ∷ xs) ∷ [];
  reply = x ∷ xs;
  tool_calls = [];
  job_id = none;
  metadata = some (
      ai_metadata (codes "model") (str c.model) (
        field (codes "trigger") (str (trigger_name trigger)) (
          field (codes "memory_count") (int (pos (length recall.memories))) (
            field (codes "recent_message_count") (int (pos (length recall.recent_messages)))
              (field (codes "prompt_version") (str (prompt_version recall)) end)))));
}

abbrev pub unavailable : BrainResponse
unavailable = error_response (codes "AI 暂时不可用。") (codes "upstream_unavailable")

abbrev headers : Config → Fields
headers c = field (codes "Content-Type") (str (codes "application/json")) (
    if is_empty c.api_key
    then end
    else field (codes "Authorization") (str (codes "Bearer " ++ c.api_key)) end)

module _ (rt : Runtime) (upstream : Upstream) (recall : ChatRequest → Text → Recall) where
  -- What is made of the model's answer.
  abbrev pub answered : Config → Trigger → Recall → Option Value → Built
  answered c trigger known none = explain trigger unavailable
  answered c trigger known (some answer) = elim (extract_reply answer) [
    | reply_text text ↦ built (some (replied c trigger known (strip text)))
    | type_error ↦ explain trigger unavailable
    | attribute_error ↦ raised
  ]

  -- The request to the model, what is made of its answer, and what was done for it.
  unfoldable pub ask_model : Config → Trigger → ChatRequest → Text → Built × List Act
  unfolding chat_payload extract_reply
  ask_model c trigger request user_text =
      let known = recall request user_text in
      let payload = chat_payload rt c request user_text known in
      (
        answered c trigger known
            (upstream (chat_completions_url c.base_url) (headers c) c.timeout payload),
        reads request user_text ∷ posts (chat_completions_url c.base_url) payload ∷ [],
      )

  -- The text that the user says to the model.
  unfoldable pub user_text : Env → Trigger → Text → Text
  user_text env trigger text =
      let said : Text = elim trigger [ command ↦ strip_ai_command env text | _ ↦ strip text ] in
      or_text said (codes "继续。")

  -- The part of `build_ai_response` behind the trigger.
  unfoldable pub serve : Env → Trigger → ChatRequest → Text → ModuleContext → Built × List Act
  unfolding group_allowed ai_enabled config missing
  serve env trigger request text context =
      let c = config rt env in
      if not (group_allowed env context)
      then (
        explain trigger (error_response (codes "AI 未在当前群启用。") (codes "group_policy_denied")),
        [],
      )
      else if not (ai_enabled env)
      then (explain trigger (error_response (codes "AI 当前未启用。") (codes "disabled")), [])
      else if not (is_empty (missing c))
      then (explain trigger (incomplete (missing c)), [])
      else ask_model c trigger request (user_text env trigger text)

  -- `build_ai_response`: the outcome, and what was done for it, in order.
  unfoldable pub build_ai_response : Env → ChatRequest → Text → ModuleContext → Built × List Act
  unfolding detect_trigger
  build_ai_response env request text context = elim (detect_trigger env request text) [
    | none ↦ (built none, [])
    | some trigger ↦ serve env trigger request text context
  ]
