-- ===== src/Modules/Echo.antt =====
-- brain-python/modules/echo.py, and the protocol of in-core modules (modules/base.py).
use test_bot.Base.{Bool, true, false, not, none, some, List, [], ◌∷◌, is_empty}
use test_bot.Text.{Text, codes}
use test_bot.Value.{Runtime, Fields, end, field, str, get_or, find_field, str_of}
use test_bot.Schemas.{BrainResponse, reply_messages}
use test_bot.Env.{Env}
use test_bot.Modules.Command.{parse_command_invocation}

-- `DeterministicModule`
pub record DeterministicModule : Type 0 where
  pub name : Text
  pub detect : Text → Bool
  pub parse : Text → Fields
  pub call : Fields → Fields
  pub present : Fields → BrainResponse

abbrev command_aliases : List Text
command_aliases = codes "tool-echo" ∷ []

echo_detect : Env → Text → Bool
echo_detect env text = elim (parse_command_invocation env text command_aliases) [
  | none ↦ false
  | some _ ↦ true
]

echo_parse : Env → Text → Fields
echo_parse env text = elim (parse_command_invocation env text command_aliases) [
  | none ↦ field (codes "text") (str []) end
  | some invocation ↦ field (codes "text") (str invocation.argument) end
]

echo_call : Runtime → Fields → Fields
unfolding str_of find_field
echo_call rt arguments =
    field (codes "text") (str (str_of rt (get_or (codes "text") (str []) arguments))) end

echo_present : Runtime → Fields → BrainResponse
unfolding str_of find_field
echo_present rt result =
    let reply = str_of rt (get_or (codes "text") (str []) result) in
    record {
      handled = true;
      should_reply = not (is_empty reply);
      messages = reply_messages reply;
      reply = reply;
      tool_calls = [];
      job_id = none;
      metadata = none;
    }

-- `ToolEchoModule`
unfoldable pub tool_echo_module : Runtime → Env → DeterministicModule
unfolding echo_detect echo_parse echo_call echo_present parse_command_invocation
tool_echo_module rt env = record {
  name = codes "tool_echo";
  detect = echo_detect env;
  parse = echo_parse env;
  call = echo_call rt;
  present = echo_present rt;
}
