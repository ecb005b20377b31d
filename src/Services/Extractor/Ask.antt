-- ===== src/Services/Extractor/Ask.antt =====
-- brain-python/services/memory_extractor.py: the configuration, the prompt, and the answer of the model.
use test_bot.Services.Ai.{config}
use test_bot.Base.{
  List, [], false, if◌then◌else◌, int_eq, is_empty, list_eq, ltb, map, max, min, nat_eq, none, not,
  some, take, ℕ, ◌%◌, ◌*◌, ◌++◌, ◌+◌, ◌/◌, ◌==◌, ◌^◌, ◌∷◌,
}
use test_bot.Text.{Text, codes, join, rstrip_by, show_nat, strip}
use test_bot.Value.{
  Fields, Float, Items, Runtime, Value, arr, cons, dict, end, field, fin, find_field, float, get,
  int, nil, or_text, str,
}
use test_bot.Env.{Env, env_first, env_int, env_unless_off, getenv}
use test_bot.Base.Int.{pos, ℤ}
use test_bot.Floats.{zero_float}
use test_bot.Services.Extractor.{Attempt, GroupMessage, string_column}
use test_bot.Services.Ai.{
  chat_completions_url, concat_map, extract_reply, reply_text, type_error, attribute_error,
}
use test_bot.Base.Result.{Result, raise, return}
use test_bot.Services.Memory.Errors.{
  MemoryError, other, extractor_configuration, extractor_upstream,
}

pub record ExtractorConfig : Type 0 where
  pub base_url : Text
  pub api_key : Text
  pub model : Text
  pub timeout : Float
  pub batch_size : ℤ
  pub max_candidates : ℕ

-- `_env_float`
unfoldable pub env_float : Runtime → Env → Text → Float → Float
env_float rt env key default =
    let raw = strip (getenv env key []) in
    if is_empty raw then default else elim (rt.float_of raw) [ none ↦ default | some x ↦ x ]

-- `max(1, n)`
abbrev at_least_one : ℤ → ℕ
at_least_one (pos n) = max 1 n
at_least_one n = 1

abbrev base_url_of : Env → Text
base_url_of env =
    rstrip_by (λ c. c == b'/')
      (env_first env (codes "MEMORY_EXTRACTOR_BASE_URL" ∷ codes "AI_BASE_URL" ∷ []))

abbrev model_of : Env → Text
model_of env = env_first env (codes "MEMORY_EXTRACTOR_MODEL" ∷ codes "AI_MODEL" ∷ [])

abbrev missing_settings : Env → List Text
missing_settings env =
    (if is_empty (base_url_of env)
      then codes "MEMORY_EXTRACTOR_BASE_URL or AI_BASE_URL" ∷ []
      else [])
    ++ (if is_empty (model_of env) then codes "MEMORY_EXTRACTOR_MODEL or AI_MODEL" ∷ [] else [])

-- `config_from_env`
unfoldable pub extractor_config_from_env : Runtime → Env → Attempt ExtractorConfig
unfolding env_unless_off env_first env_int env_float rstrip_by nat_eq
extractor_config_from_env rt env =
    let lacking = missing_settings env in
    if not (env_unless_off env (codes "MEMORY_EXTRACTOR_ENABLED") false)
    then raise (extractor_configuration (codes "MEMORY_EXTRACTOR_ENABLED is false"))
    else if not (is_empty lacking)
    then raise (extractor_configuration (codes "missing " ++ join (codes ", ") lacking))
    else return (record {
      base_url = base_url_of env;
      api_key = env_first env (codes "MEMORY_EXTRACTOR_API_KEY" ∷ codes "AI_API_KEY" ∷ []);
      model = model_of env;
      timeout = env_float rt env (codes "MEMORY_EXTRACTOR_TIMEOUT") (fin (pos (30 * 2 ^ 1074)));
      batch_size = env_int env (codes "MEMORY_EXTRACTOR_BATCH_SIZE") (pos 80);
      max_candidates =
          at_least_one (env_int env (codes "MEMORY_EXTRACTOR_MAX_CANDIDATES") (pos 12));
    })

-- `max(10, min(200, n))`
abbrev clamp_batch : ℤ → ℕ
clamp_batch (pos n) = max 10 (min 200 n)
clamp_batch n = 10

-- `_batch_size`; a limit of `none` and one of zero both leave the configured size.
unfoldable pub batch_size : ℕ → ℤ → ℕ
unfolding int_eq nat_eq
batch_size limit configured =
    if not (limit == 0)
    then clamp_batch (pos limit)
    else if not (configured == pos 0)
    then clamp_batch configured
    else clamp_batch (pos 80)

-- `_system_prompt`
abbrev pub extractor_system_prompt : Text
extractor_system_prompt =
    codes "你是 TestBot 的长期记忆抽取器。只输出严格 JSON 对象，格式为 {\"memories\": [...]}。"
    ++ codes "只抽取长期有价值的信息：用户偏好、稳定事实、群规/群风格、用户关系、常聊主题、需要避免的 warning。"
    ++ codes "跳过临时闲聊、一次性请求、猜测、没有证据的信息、密钥/token/密码等敏感内容。"
    ++ codes "每条 memory 必须能由 evidence_message_ids 指向的消息直接支持。"

abbrev hex_digit : ℕ → ℕ
hex_digit n = if ltb n 10 then b'0' + n else 87 + n

-- One character in a text of `json.dumps(..., ensure_ascii=False)`.
abbrev escaped : ℕ → Text
escaped c =
    if c == b'"'
    then codes "\\\""
    else if c == b'\\'
    then codes "\\\\"
    else if c == 10
    then codes "\\n"
    else if c == 13
    then codes "\\r"
    else if c == 9
    then codes "\\t"
    else if c == 12
    then codes "\\f"
    else if c == 8
    then codes "\\b"
    else if ltb c 32
    then codes "\\u00" ++ (hex_digit (c / 16) ∷ hex_digit (c % 16) ∷ [])
    else c ∷ []

abbrev quoted : Text → Text
quoted text = codes "\"" ++ (concat_map escaped text ++ codes "\"")

abbrev member : Text → Text → Text
member key value = quoted key ++ (codes ": " ++ value)

-- The line of a message in `_input_prompt`.
unfoldable pub message_line : GroupMessage → Text
unfolding show_nat
message_line m =
    let sender_name = or_text (string_column m.sender_card) (string_column m.sender_nickname) in
    codes "{"
    ++ (join (codes ", ") (
          member (codes "id") (show_nat m.id)
          ∷ member (codes "user_id") (quoted (string_column m.sender_user_id))
          ∷ member (codes "name") (quoted sender_name)
          ∷ member (codes "text") (quoted (take 500 (string_column m.text)))
          ∷ member (codes "created_at") (quoted (elim m.created_at [ none ↦ [] | some at ↦ at ]))
          ∷ [])
        ++ codes "}")

-- `_input_prompt`
unfoldable pub input_prompt : Text → List GroupMessage → ℕ → Text
unfolding message_line show_nat
input_prompt group_id messages max_candidates = join (codes "\n") (
    (codes "group_id: " ++ group_id)
    ∷ (codes "最多输出 " ++ (show_nat max_candidates ++ codes " 条 memory。"))
    ∷ codes "允许 scope: group, user, relationship。不要输出 global。"
    ∷ codes "允许 memory_type: preference, fact, style, relationship, topic, summary, warning。"
    ∷ codes "允许 memory_class: episodic, semantic, procedural, affective, social, persona。"
    ∷ codes
        "每条 memory 字段：scope, memory_type, memory_class, content, confidence, importance, evidence_message_ids, group_id, user_id, target_user_id。"
    ∷ codes "messages:"
    ∷ map (λ m. message_line m) messages)

-- The model's endpoint: the decoded body of a `POST`, or the text of the `httpx.HTTPError` or
-- `ValueError`; and the texts of the exceptions that the interpreter raises on an answer.
pub record Endpoint : Type 0 where
  pub post : Text → Fields → Float → Fields → Result Text Value
  pub loads_error : Text → Text
  pub type_text : Text
  pub attribute_text : Text

abbrev prompt_message : Text → Text → Value
prompt_message role content =
    dict (field (codes "role") (str role) (field (codes "content") (str content) end))

abbrev headers_of : ExtractorConfig → Fields
headers_of config = field (codes "Content-Type") (str (codes "application/json")) (
    if is_empty config.api_key
    then end
    else field (codes "Authorization") (str (codes "Bearer " ++ config.api_key)) end)

-- The request to the model.
unfoldable pub extractor_payload : ExtractorConfig → Text → List GroupMessage → Fields
unfolding input_prompt
extractor_payload config group_id messages = field (codes "model") (str config.model) (
    field (codes "messages")
      (arr (
        cons (prompt_message (codes "system") extractor_system_prompt) (
          cons
            (prompt_message (codes "user") (input_prompt group_id messages config.max_candidates))
            nil)))
      (field (codes "temperature") (float zero_float) (
        field (codes "max_tokens") (int (pos 1200)) (
          field (codes "response_format")
            (dict (field (codes "type") (str (codes "json_object")) end)) end))))

abbrev dicts : Items → List Fields
dicts nil = []
dicts (cons (dict fields) vs) = fields ∷ dicts vs
dicts (cons v vs) = dicts vs

abbrev no_array : MemoryError
no_array = extractor_upstream (codes "extractor response must contain a memories array")

-- The array of the parsed reply.
unfoldable pub memories_of : Value → Attempt (List Fields)
unfolding find_field
memories_of (dict parsed) = elim (get (codes "memories") parsed) [
  | arr memories ↦ return (dicts memories)
  | _ ↦ raise no_array
]
memories_of v = raise no_array

-- The reply of an answer, parsed.
unfoldable pub read_reply : Runtime → Endpoint → Value → Attempt (List Fields)
unfolding extract_reply memories_of
read_reply rt endpoint answer = elim (extract_reply answer) [
  | type_error ↦ raise (extractor_upstream endpoint.type_text)
  | attribute_error ↦ raise (other (codes "AttributeError") endpoint.attribute_text)
  | reply_text text ↦ elim (rt.loads (strip text)) [
    | none ↦ raise (extractor_upstream (endpoint.loads_error (strip text)))
    | some parsed ↦ memories_of parsed
  ]
]

-- `_call_extractor_model`
unfoldable pub call_extractor_model :
    Runtime → Endpoint → ExtractorConfig → Text → List GroupMessage → Attempt (List Fields)
unfolding extractor_payload read_reply
call_extractor_model rt endpoint config group_id messages =
    elim (endpoint.post (chat_completions_url config.base_url) (headers_of config) config.timeout
      (extractor_payload config group_id messages)) [
        | raise text ↦ raise (extractor_upstream text)
        | return answer ↦ read_reply rt endpoint answer
      ]

-- The arguments of `_run_extract_background` in brain-python/services/memory.py; a limit of zero is none.
pub record ExtractionJob : Type 0 where
  pub group_id : Text
  pub limit : ℕ
  pub config : ExtractorConfig
  pub job_id : Text
