-- ===== src/Tests/Ai.antt =====
-- brain-python/services/ai_runtime.py at concrete inputs.
use test_bot.Modules.Policy.{lists_allow}
use test_bot.Services.Ai.{ask_model, serve}
use test_bot.Env.{env_if_on}
use test_bot.Base.{false, sym, true, ◌∙◌, ◌≢◌}
use test_bot.Value.{Fields, Value, string_id}
use test_bot.Env.{id_set}
use test_bot.Schemas.{BrainResponse}
use test_bot.Modules.Command.{parse_command_invocation}
use test_bot.Base.{
  All, [], if◌then◌else◌, length, list_eq, nat_eq, none, refl, some, ◌==◌, ◌∷◌, ◌≡◌,
}
use test_bot.Text.{Text, codes, is_space, lstrip_by, rstrip_by, strip_by}
use test_bot.Value.{arr, cons, dict, end, field, int_id, nil, str, text_id}
use test_bot.Env.{Env}
use test_bot.Schemas.{ChatRequest, empty_request}
use test_bot.Base.Int.{pos}
use test_bot.Tests.Sample.{runtime, in_group}
use test_bot.Base.{◌≤◌}
use test_bot.Services.Ai.{
  Built, Recall, Upstream, ai_enabled, recent_line, bound_text, build_ai_response, built,
  chat_completions_url, command, config, detect_trigger, mention, raised, replied, group_allowed,
}
use test_bot.Services.Ai.Bounded.{IsInLine, recent_line-IsInLine}
use test_bot.Services.Ai.Privacy.{
  FromModel, MayAsk, build_ai_response-FromModel, build_ai_response_private,
}

abbrev raw : Text
raw = codes " one\ntwo \r three "

bound_text_run : bound_text 6 raw ≡ codes "one t…"
unfolding bound_text strip_by is_space rstrip_by lstrip_by nat_eq
bound_text_run = refl

-- A message with line breaks in its sender and its text.
abbrev said_so : Fields
said_so = field (codes "sender") (str raw) (field (codes "text") (str raw) end)

recent_line-IsInLine_example :
    All (λ line. (length line ≤ 292) × All IsInLine line) (recent_line runtime said_so)
recent_line-IsInLine_example = recent_line-IsInLine runtime said_so

abbrev nothing_known : ChatRequest → Text → Recall
nothing_known request text = record { recent_messages = []; memories = []; state_summary = none }

-- A model that says one text, and one whose answer is a list.
abbrev says : Text → Upstream
says text url headers timeout payload = some (
    dict
      (field (codes "choices") (arr (cons (dict (field (codes "text") (str text) end)) nil)) end))

abbrev says_list : Upstream
says_list url headers timeout payload = some (arr nil)

abbrev ai_on : Env
ai_on key =
    if key == codes "AI_ENABLED"
    then some (codes "yes")
    else if key == codes "AI_BASE_URL"
    then some (codes "http://ai/v1/")
    else if key == codes "AI_MODEL"
    then some (codes "m")
    else none

-- The bot is mentioned.
abbrev mentioning : ChatRequest
mentioning = record empty_request {
  self_id = some (int_id (pos 9));
  at_user_ids = text_id (codes "9") ∷ [];
  text = codes "hi";
}

-- The exception of a list is not caught.
list_raised :
    (build_ai_response runtime says_list nothing_known ai_on mentioning (codes "hi") in_group).0
    ≡ raised
unfolding build_ai_response list_eq nat_eq test_bot.Modules.Command.parse_command_invocation
    test_bot.Value.string_id test_bot.Services.Ai.serve test_bot.Modules.Policy.lists_allow
    test_bot.Env.id_set test_bot.Services.Ai.ask_model
list_raised = refl

abbrev hello : BrainResponse
hello =
    replied (config runtime ai_on) mention (nothing_known mentioning (codes "hi")) (codes "hello")

hello_built :
    (build_ai_response runtime
      (says (codes " hello "))
      nothing_known
      ai_on
      mentioning
      (codes "hi")
      in_group).0
    ≡ built (some hello)
unfolding build_ai_response list_eq nat_eq test_bot.Modules.Command.parse_command_invocation
    test_bot.Value.string_id test_bot.Services.Ai.serve test_bot.Modules.Policy.lists_allow
    test_bot.Env.id_set test_bot.Services.Ai.ask_model
hello_built = refl

mentioned : detect_trigger ai_on mentioning (codes "hi") ≡ some mention
unfolding detect_trigger list_eq nat_eq parse_command_invocation string_id
mentioned = refl

mention-ne-command : mention ≢ command
mention-ne-command e = cc

build_ai_response-FromModel_example :
    FromModel runtime ai_on mentioning
      (codes "hi")
      in_group
      (says (codes " hello "))
      nothing_known
      mention
      hello
build_ai_response-FromModel_example =
    build_ai_response-FromModel runtime ai_on mentioning (codes "hi") in_group
      (says (codes " hello ")) nothing_known mention hello mentioned mention-ne-command hello_built

abbrev ai_off : Env
ai_off key = none

switched_off : ai_enabled ai_off ≡ false
unfolding ai_enabled test_bot.Env.env_if_on
switched_off = refl

may_not_ask : ¬ MayAsk ai_off mentioning (codes "hi") in_group
may_not_ask m = false-ne-true (sym switched_off ∙ m.enabled)
  where
    false-ne-true : false ≢ true
    false-ne-true e = cc

build_ai_response_private_example :
    ((build_ai_response runtime
        (says (codes "x"))
        nothing_known
        ai_off
        mentioning
        (codes "hi")
        in_group).1
      ≡ [])
    × (build_ai_response runtime
          (says (codes "x"))
          nothing_known
          ai_off
          mentioning
          (codes "hi")
          in_group
        ≡ build_ai_response runtime says_list nothing_known ai_off mentioning (codes "hi") in_group)
build_ai_response_private_example =
    build_ai_response_private runtime ai_off mentioning (codes "hi") in_group (says (codes "x"))
      says_list nothing_known nothing_known may_not_ask
