-- ===== src/Tests/Chat.antt =====
-- brain-python/services/chat.py at concrete inputs.
use test_bot.Modules.Policy.{module_group_allowed}
use test_bot.Modules.Remote.{module_services_from_env}
use test_bot.Modules.Registry.{Registry, ask_services, remote_modules, resolve}
use test_bot.Value.{Value, string_id}
use test_bot.Text.{lower}
use test_bot.Base.{List, [], list_eq, map, nat_eq, none, refl, ◌∷◌, ◌≡◌}
use test_bot.Text.{Text, codes, is_space, strip, strip_by}
use test_bot.Schemas.{ChatRequest, empty_request}
use test_bot.Modules.Remote.{Http}
use test_bot.Tests.Sample.{runtime, environment, http}
use test_bot.Modules.Remote.{failed}
use test_bot.Modules.Command.{CommandInvocation, parse_command_invocation}
use test_bot.Modules.Registry.{handle, default_registry}
use test_bot.Services.Chat.{Ends, Responders, of_built, program}
use test_bot.Base.{Option}
use test_bot.Services.Ai.{Recall, Upstream, build_ai_response}
use test_bot.Services.Memory.Errors.{MemoryError}
use test_bot.Services.Memory.Store.{World}
use test_bot.Tests.Memory.{tools}
use test_bot.Services.Memory.Admin.{handle_memory_command}
use test_bot.Modules.Command.{ModuleContext}
use test_bot.Schemas.{BrainResponse}
use test_bot.Services.Chat.Route.{next, no_texts}
use test_bot.Services.Chat.{
  build_chat_response, dedupe_texts, filled, request_module_texts, request_text_and_context,
  with_modules,
}
use test_bot.Services.Chat.Distinct.{first_places, dedupe_texts_lem}
use test_bot.Services.Chat.Route.{
  Selected, request_text_and_context-Selected, Route, build_chat_response-Route,
}
use test_bot.Services.Chat.Echo.{EchoedIn, build_chat_response-Echoed}

abbrev texts : List Text
texts = codes " a" ∷ codes "" ∷ codes "b" ∷ codes "a " ∷ []

dedupe_texts_run : dedupe_texts texts ≡ codes "a" ∷ codes "b" ∷ []
unfolding dedupe_texts list_eq nat_eq strip_by is_space
dedupe_texts_run = refl

dedupe_texts_lem_example : dedupe_texts texts ≡ first_places (filled (map strip texts))
dedupe_texts_lem_example = dedupe_texts_lem texts

-- No service is there.
abbrev offline : Http
offline = record http { post_handle = λ url timeout request. failed }

-- The content wins over the text, since it comes later.
abbrev request : ChatRequest
request = record empty_request { text = codes "hello"; content = codes " /echo Hi you " }

abbrev invocation : CommandInvocation
invocation = record { prefix = codes "/"; name = codes "echo"; argument = codes "Hi you" }

request_text_and_context-Selected_example : Selected request (request_text_and_context request)
request_text_and_context-Selected_example = request_text_and_context-Selected request

-- An empty store, and a program on it whose model cannot be reached.
abbrev store : World
store = record {
  tables = record {
    rows = [];
    next_id = 1;
    runs = [];
    next_run = 1;
    settings = [];
    messages = λ g. [];
    embeddings = [];
  };
  database_url = none;
  clock = record { now = 9; iso = [] };
  faults = [];
  jobs = [];
  violation = [];
}

abbrev no_model : Upstream
no_model url headers timeout payload = none

abbrev unknown : World → ChatRequest → Text → Recall
unknown w asked_by text = record { recent_messages = []; memories = []; state_summary = none }

abbrev bot : Responders World MemoryError
bot = program runtime offline environment tools no_model unknown

build_chat_response-Route_example :
    Route runtime environment bot request
      (request_text_and_context request).1
      (request_text_and_context request).0
      (request_module_texts runtime request (request_text_and_context request).0)
      store
      (build_chat_response runtime environment bot request store)
build_chat_response-Route_example = build_chat_response-Route runtime environment bot request store

-- The memory commands and the AI of the program.
abbrev memory_commands : ChatRequest → Text → World → Ends World MemoryError (Option BrainResponse)
memory_commands = handle_memory_command runtime environment tools

abbrev ask_ai :
    ChatRequest → Text → ModuleContext → World → Ends World MemoryError (Option BrainResponse)
ask_ai request text context w = (
  of_built (build_ai_response runtime no_model (unknown w) environment request text context).0,
  w,
)

build_chat_response-Echoed_example :
    EchoedIn runtime offline environment invocation memory_commands ask_ai request store (
      build_chat_response runtime environment
        (with_modules runtime offline environment memory_commands ask_ai)
        request
        store)
unfolding request_module_texts request_text_and_context strip_by is_space with_modules handle lower
    parse_command_invocation list_eq nat_eq test_bot.Modules.Registry.resolve default_registry
    test_bot.Modules.Registry.ask_services test_bot.Modules.Registry.remote_modules
    test_bot.Modules.Remote.module_services_from_env test_bot.Modules.Policy.module_group_allowed
    test_bot.Value.string_id test_bot.Modules.Remote.handle handle_memory_command
build_chat_response-Echoed_example =
    build_chat_response-Echoed runtime offline environment invocation memory_commands ask_ai request
      store store (next refl refl no_texts) refl
