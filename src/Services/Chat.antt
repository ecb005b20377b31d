-- ===== src/Services/Chat.antt =====
-- brain-python/services/chat.py: the route of a request through memory, modules, tools and the AI.
pub mod Texts
pub mod Distinct
pub mod Route
pub mod Echo
unfoldable pub use Texts.*
use test_bot.Base.Result.{Result, raise, return}
use test_bot.Services.Extractor.{Attempt}
use test_bot.Services.Ai.{Built, Recall, Upstream, build_ai_response, built, raised}
use test_bot.Services.Memory.Errors.{MemoryError, other}
use test_bot.Services.Memory.Store.{World}
use test_bot.Services.Memory.Command.{Tools as MemoryTools}
use test_bot.Services.Memory.Admin.{handle_memory_command}
use test_bot.Modules.Command.{ModuleContext, parse_command_invocation}
use test_bot.Modules.Remote.{Http}
use test_bot.Base.{
  List, Option, [], false, if◌then◌else◌, is_empty, none, not, some, true, ◌&&◌, ◌∷◌,
}
use test_bot.Text.{Text, codes}
use test_bot.Value.{Fields, Runtime, end, field, find_field, get_or, str, str_of}
use test_bot.Env.{Env}
use test_bot.Schemas.{BrainResponse, ChatRequest, ToolCallRequest, ToolResult, reply_messages}
use test_bot.Services.Tools
use test_bot.Modules.Registry.{default_registry, handle}

-- How a call ends that reads and writes a state and may raise.
abbrev pub Ends : Type 0 → Type 0 → Type 0 → Type 0
Ends S E A = Result E A × S

-- Who may answer: `handle_memory_command`, `default_registry.handle`, `call_tool` and
-- `build_ai_response`. The memory commands and the AI use the store and may raise.
pub record Responders (S E : Type 0) : Type 0 where
  pub memory : ChatRequest → Text → S → Ends S E (Option BrainResponse)
  pub modules : Text → ModuleContext → ChatRequest → Option BrainResponse
  pub tool : ToolCallRequest → ModuleContext → ToolResult
  pub ai : ChatRequest → Text → ModuleContext → S → Ends S E (Option BrainResponse)

-- The registry and the tools of the program.
unfoldable pub with_modules :
    {S E : Type 0}
    → Runtime
    → Http
    → Env
    → (ChatRequest → Text → S → Ends S E (Option BrainResponse))
    → (ChatRequest → Text → ModuleContext → S → Ends S E (Option BrainResponse))
    → Responders S E
with_modules rt http env memory ai = record {
  memory = memory;
  modules = λ text context request.
      handle rt http env (default_registry rt env) text context (some request);
  tool = λ request context. Tools.call_tool rt http env request (some context);
  ai = ai;
}

module _ {S E : Type 0} where
  -- What follows a call of the memory commands for a text.
  abbrev pub or_module :
      Option BrainResponse
      → (S → Ends S E (Option BrainResponse))
      → Ends S E (Option BrainResponse)
      → Ends S E (Option BrainResponse)
  or_module reply rest (raise e, s) = (raise e, s)
  or_module reply rest (return (some response), s) = (return (some response), s)
  or_module (some response) rest (return none, s) = (return (some response), s)
  or_module none rest (return none, s) = rest s

  -- The loop of `_build_chat_response`.
  unfoldable pub ask_modules :
      Responders S E → ChatRequest → ModuleContext → List Text → S → Ends S E (Option BrainResponse)
  ask_modules by request context [] s = (return none, s)
  ask_modules by request context (text ∷ texts) s =
      or_module (by.modules text context request) (ask_modules by request context texts)
        (by.memory request text s)

-- `_plan_tool_call`
unfoldable pub plan_tool_call : Env → Text → Option ToolCallRequest
unfolding parse_command_invocation
plan_tool_call env text = elim (parse_command_invocation env text (codes "echo" ∷ [])) [
  | none ↦ none
  | some invocation ↦ some (record {
    name = codes "echo";
    arguments = field (codes "text") (str invocation.argument) end;
    message_type = none;
    group_id = none;
    user_id = none;
  })
]

abbrev pub silence : Option Fields → BrainResponse
silence metadata = record {
  handled = false;
  should_reply = false;
  messages = [];
  reply = [];
  tool_calls = [];
  job_id = none;
  metadata = metadata;
}

-- The answer after the planned tool call.
unfoldable pub planned_response : Runtime → ToolCallRequest → ToolResult → BrainResponse
unfolding str_of find_field
planned_response rt request result =
    let reply =
      if result.ok then str_of rt (get_or (codes "text") (str []) result.payload) else [] in
    record {
      handled = true;
      should_reply = not (is_empty reply);
      messages = reply_messages reply;
      reply = reply;
      tool_calls = record { id = none; name = request.name; arguments = request.arguments } ∷ [];
      job_id = none;
      metadata = some (field (codes "planner") (str (codes "fake")) end);
    }

abbrev pub no_route : BrainResponse
no_route = silence (some (field (codes "reason") (str (codes "no_route")) end))

-- The answer, or that there is none.
abbrev pub or_no_route : {S E : Type 0} → Ends S E (Option BrainResponse) → Ends S E BrainResponse
or_no_route (raise e, s) = (raise e, s)
or_no_route (return (some response), s) = (return response, s)
or_no_route (return none, s) = (return no_route, s)

module _ {S E : Type 0} (rt : Runtime) (env : Env) (by : Responders S E)
    (request : ChatRequest) where
  -- The planned tool, then the AI, for a text that is there.
  abbrev pub planned_or_ai :
      Text → ModuleContext → Option ToolCallRequest → S → Ends S E BrainResponse
  planned_or_ai text context (some planned) s =
      (return (planned_response rt planned (by.tool planned context)), s)
  planned_or_ai text context none s = or_no_route (by.ai request text context s)

  -- What follows the loop.
  unfoldable pub plan_or_ai : Text → ModuleContext → S → Ends S E BrainResponse
  unfolding plan_tool_call planned_response
  plan_or_ai [] context s = (return no_route, s)
  plan_or_ai (c ∷ cs) context s = planned_or_ai (c ∷ cs) context (plan_tool_call env (c ∷ cs)) s

  abbrev pub or_plan :
      Text → ModuleContext → Ends S E (Option BrainResponse) → Ends S E BrainResponse
  or_plan text context (raise e, s) = (raise e, s)
  or_plan text context (return (some response), s) = (return response, s)
  or_plan text context (return none, s) = plan_or_ai text context s

  -- `_build_chat_response` with the text, its context and the texts for the modules.
  abbrev pub route : Text → ModuleContext → List Text → S → Ends S E BrainResponse
  route [] context [] s = (return (silence none), s)
  route text context texts s = or_plan text context (ask_modules by request context texts s)

  -- `_build_chat_response`
  unfoldable pub build_chat_response : S → Ends S E BrainResponse
  unfolding request_text_and_context request_module_texts ask_modules plan_or_ai
  build_chat_response s =
      let (text, context) = request_text_and_context request in
      route text context (request_module_texts rt request text) s

-- `handle_memory_command` and `build_ai_response`, which share the tables: the AI reads them as `recall` says.
-- The uncaught `AttributeError` of the AI is an error of its own.
abbrev pub of_built : Built → Attempt (Option BrainResponse)
of_built (built response) = return response
of_built raised = raise (other (codes "AttributeError") [])

unfoldable pub program :
    Runtime
    → Http
    → Env
    → MemoryTools
    → Upstream
    → (World → ChatRequest → Text → Recall)
    → Responders World MemoryError
unfolding with_modules handle_memory_command build_ai_response
program rt http env tools upstream recall =
    with_modules rt http env (handle_memory_command rt env tools) (λ request text context w.
      (of_built (build_ai_response rt upstream (recall w) env request text context).0, w))
