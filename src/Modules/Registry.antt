-- ===== src/Modules/Registry.antt =====
-- brain-python/modules/registry.py: the registry of in-core modules and remote services.
pub mod Routing
use test_bot.Base.{Bool, true, false, not, ◌||◌, Option, none, some, List, [], ◌∷◌, find}
use test_bot.Base.{◌==◌, nat_eq, list_eq, if◌then◌else◌}
use test_bot.Text.{Text, codes}
use test_bot.Value.{Runtime, str, end, field}
use test_bot.Schemas.{BrainResponse, ChatRequest}
use test_bot.Env.{Env}
use test_bot.Modules.Command.{ModuleContext}
use test_bot.Modules.Policy.{module_group_allowed}
use test_bot.Modules.Echo.{DeterministicModule, tool_echo_module}
use test_bot.Modules.Remote
use test_bot.Modules.Remote.{Http, RemoteModuleService, module_services_from_env}

-- `DeterministicModuleRegistry`; the services are read from the environment if none are given.
pub record Registry : Type 0 where
  pub modules : List DeterministicModule
  pub remote_services : Option (List RemoteModuleService)

-- `DeterministicModuleRegistry()`
unfoldable pub default_registry : Runtime → Env → Registry
unfolding tool_echo_module
default_registry rt env = record { modules = tool_echo_module rt env ∷ []; remote_services = none }

unfoldable pub resolve : Registry → Text → Option DeterministicModule
resolve registry text = find (λ m. m.detect text) registry.modules

-- `_blocked_response`
unfoldable pub blocked_response : Text → ModuleContext → BrainResponse
blocked_response module_name context = record {
  handled = true;
  should_reply = false;
  messages = [];
  reply = [];
  tool_calls = [];
  job_id = none;
  metadata = some (
      field (codes "module") (str module_name) (
        field (codes "group_policy") (str (codes "blocked"))
          (field (codes "group_id") (str context.group_id) end)));
}

-- `_request_copy(request, text) if text != request.text else request`
unfoldable pub remote_request : ChatRequest → Text → ChatRequest
unfolding list_eq nat_eq
remote_request request text =
    if not (text == request.text) then record request { text = text } else request

-- The loop over the remote services.
unfoldable pub ask_services :
    Http → Env → ModuleContext → ChatRequest → List RemoteModuleService → Option BrainResponse
ask_services http env context request [] = none
ask_services http env context request (service ∷ services) =
    let rest = ask_services http env context request services in
    if not (module_group_allowed env service.name context)
    then rest
    else elim (Remote.handle http service request) [
      | none ↦ rest
      | some response ↦ if response.handled || response.should_reply then some response else rest
    ]

-- `_remote_modules`
unfoldable pub remote_modules : Runtime → Env → Registry → List RemoteModuleService
remote_modules rt env registry = elim registry.remote_services [
  | none ↦ module_services_from_env rt env
  | some services ↦ services
]

-- The branch of `handle` for a detected module.
unfoldable pub run_module : Env → DeterministicModule → Text → ModuleContext → BrainResponse
run_module env m text context =
    if not (module_group_allowed env m.name context)
    then blocked_response m.name context
    else m.present (m.call (m.parse text))

-- `handle`; the context is the empty one if the caller gives none.
unfoldable pub handle :
    Runtime
    → Http
    → Env
    → Registry
    → Text
    → ModuleContext
    → Option ChatRequest
    → Option BrainResponse
handle rt http env registry text context request = elim (resolve registry text) [
  | some m ↦ some (run_module env m text context)
  | none ↦ elim request [
    | none ↦ none
    | some r ↦
        ask_services http env context (remote_request r text) (remote_modules rt env registry)
  ]
]
