-- ===== src/Services/Ai/Setup.antt =====
-- brain-python/services/ai_runtime.py: what makes the AI answer, and its configuration.
use test_bot.Base.{
  Bool, List, Option, [], contains, false, if◌then◌else◌, is_empty, list_eq, map, nat_eq, none, not,
  some, true, ◌&&◌, ◌*◌, ◌++◌, ◌==◌, ◌^◌, ◌∷◌,
}
use test_bot.Text.{Text, codes, rstrip_by, strip, words_by}
use test_bot.Value.{Float, Runtime, fin, ltb_float, or_text, string_id, truthy_id}
use test_bot.Env.{Env, env_if_on, env_positive_int, getenv, id_set, is_separator}
use test_bot.Schemas.{ChatRequest}
use test_bot.Base.Int.{pos, ℤ}
use test_bot.Modules.Policy.{lists_allow}
use test_bot.Modules.Command.{CommandInvocation, ModuleContext, or_list, parse_command_invocation}

pub data Trigger : Type 0 where
  command mention reply : Trigger

abbrev pub default_ai_command_aliases : List Text
default_ai_command_aliases = codes "ai" ∷ codes "chat" ∷ codes "聊天" ∷ []

-- `_ai_command_aliases`
unfoldable pub ai_command_aliases : Env → List Text
unfolding words_by
ai_command_aliases env =
    let raw = strip (getenv env (codes "AI_COMMAND_ALIASES") []) in
    if is_empty raw
    then default_ai_command_aliases
    else or_list (map strip (words_by is_separator raw)) default_ai_command_aliases

-- `_parse_ai_invocation`
unfoldable pub parse_ai_invocation : Env → Text → Option CommandInvocation
parse_ai_invocation env text = parse_command_invocation env text (ai_command_aliases env)

-- `_strip_ai_command`
unfoldable pub strip_ai_command : Env → Text → Text
strip_ai_command env text = elim (parse_ai_invocation env text) [
  | none ↦ strip text
  | some invocation ↦ strip invocation.argument
]

-- `_is_mentioned`
unfoldable pub is_mentioned : ChatRequest → Bool
unfolding list_eq nat_eq
is_mentioned request =
    let self_id = string_id request.self_id in
    not (is_empty self_id) && contains (map (λ id. string_id (some id)) request.at_user_ids) self_id

-- `_detect_trigger`
unfoldable pub detect_trigger : Env → ChatRequest → Text → Option Trigger
unfolding parse_ai_invocation is_mentioned env_if_on truthy_id
detect_trigger env request text = elim (parse_ai_invocation env text) [
  | some invocation ↦ some command
  | none ↦
      if env_if_on env (codes "AI_MENTION_TRIGGER_ENABLED") true && is_mentioned request
      then some mention
      else if env_if_on env (codes "AI_REPLY_TRIGGER_ENABLED") false
          && truthy_id request.reply_to_message_id
      then some reply
      else none
]

-- `_group_allowed`
unfoldable pub group_allowed : Env → ModuleContext → Bool
group_allowed env context =
    lists_allow (id_set (getenv env (codes "AI_GROUP_BLOCKLIST") []))
      (id_set (getenv env (codes "AI_GROUP_ALLOWLIST") [])) context

unfoldable pub ai_enabled : Env → Bool
ai_enabled env = env_if_on env (codes "AI_ENABLED") false

-- `_env_float`
unfoldable pub env_float : Runtime → Env → Text → Float → Float
unfolding ltb_float
env_float rt env key default =
    let raw = strip (getenv env key []) in
    if is_empty raw then default else elim (rt.float_of raw) [
      | none ↦ default
      | some value ↦ if ltb_float (fin (pos 0)) value then value else default
    ]

pub record Config : Type 0 where
  pub base_url : Text
  pub api_key : Text
  pub model : Text
  pub timeout : Float
  pub temperature : Float
  pub max_tokens : ℤ
  pub system_prompt : Text

-- 20.0 and the double next to 0.7.
abbrev pub default_ai_timeout : Float
default_ai_timeout = fin (pos (20 * 2 ^ 1074))

abbrev default_temperature : Float
default_temperature = fin (pos (6305039478318694 * 2 ^ 1021))

abbrev pub default_system_prompt : Text
default_system_prompt =
    codes "你是群聊里的 TestBot。回复要自然、简短、像真人聊天；"
    ++ (codes "不要编造你没有依据的事实。可以参考给你的近期上下文和长期记忆，" ++ codes "但不要在回复中主动暴露“我读取了记忆”。")

-- `_config`
unfoldable pub config : Runtime → Env → Config
unfolding env_float rstrip_by nat_eq
config rt env = record {
  base_url = rstrip_by (λ c. c == b'/') (strip (getenv env (codes "AI_BASE_URL") []));
  api_key = strip (getenv env (codes "AI_API_KEY") []);
  model = strip (getenv env (codes "AI_MODEL") []);
  timeout = env_float rt env (codes "AI_TIMEOUT") default_ai_timeout;
  temperature = env_float rt env (codes "AI_TEMPERATURE") default_temperature;
  max_tokens = env_positive_int env (codes "AI_MAX_TOKENS") (pos 800);
  system_prompt =
      or_text (strip (getenv env (codes "AI_SYSTEM_PROMPT") default_system_prompt))
        default_system_prompt;
}

-- The keys of `missing`, in their order.
unfoldable pub missing : Config → List Text
missing c =
    (if is_empty c.base_url then codes "base_url" ∷ [] else [])
    ++ (if is_empty c.model then codes "model" ∷ [] else [])
