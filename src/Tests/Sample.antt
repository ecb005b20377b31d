-- ===== src/Tests/Sample.antt =====
-- Data that the tests share.
use test_bot.Base.{[], if◌then◌else◌, list_eq, nat_eq, none, some, true, ◌==◌, ◌∷◌}
use test_bot.Text.{codes}
use test_bot.Value.{Runtime, end}
use test_bot.Env.{Env}
use test_bot.Schemas.{BrainResponse, ToolDefinition, reply_messages}
use test_bot.Modules.Command.{ModuleContext}
use test_bot.Modules.Remote.{Http, failed, answered}

-- An interpreter for data that holds no floats, lists or dicts as text.
abbrev pub runtime : Runtime
runtime = record { repr = λ v. codes "?"; float_of = λ s. none; loads = λ s. none }

abbrev pub answer : BrainResponse
answer = record {
  handled = true;
  should_reply = true;
  messages = reply_messages (codes "sunny");
  reply = codes "sunny";
  tool_calls = [];
  job_id = none;
  metadata = none;
}

-- Two services; the second one answers and offers two tools.
abbrev pub environment : Env
environment key =
    if key == codes "BRAIN_MODULE_SERVICE_DEFAULTS"
    then some (codes "ts=http://ts:1/, weather=http://w:2,broken")
    else if key == codes "BRAIN_MODULE_SERVICES"
    then some (codes "weather=http://w:3//")
    else if key == codes "TS_GROUP_BLOCKLIST"
    then some (codes "7, 8")
    else none

abbrev pub forecast : ToolDefinition
forecast = record { name = codes "forecast"; description = []; input_schema = end }

abbrev pub fake_echo : ToolDefinition
fake_echo = record { name = codes "echo"; description = []; input_schema = end }

abbrev pub http : Http
http = record {
  post_handle = λ url timeout request.
      if url == codes "http://w:3/handle" then answered 200 (some answer) else failed;
  get_tools = λ url timeout.
      if url == codes "http://w:3/tools"
      then answered 200 (some (forecast ∷ fake_echo ∷ []))
      else answered 500 none;
  post_tool_call = λ url timeout request. answered 404 none;
}

abbrev pub in_group : ModuleContext
in_group = record { group_id = codes "7"; user_id = codes "1"; message_type = codes "group" }
