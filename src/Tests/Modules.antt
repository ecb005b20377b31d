-- ===== src/Tests/Modules.antt =====
-- brain-python/modules and brain-python/services/tools.py at concrete inputs.
use test_bot.Base.{All, List, contains, keep, none, true, ◌↔◌, ◌≢◌, ◌⊎◌}
use test_bot.Value.{end}
use test_bot.Schemas.{ToolCallRequest, empty_request}
use test_bot.Base.Dict.{NodupKeys}
use test_bot.Base.{[], false, list_eq, nat_eq, refl, some, ◌∷◌, ◌≡◌}
use test_bot.Text.{codes, is_space, lower, strip_by}
use test_bot.Tests.Sample.{runtime, environment, http, in_group, answer}
use test_bot.Modules.Command.{CommandInvocation, command_prefixes, parse_command_invocation}
use test_bot.Modules.Command.Sound.{
  Reads, parse_command_invocation-Reads, parse_command_invocation-written,
}
use test_bot.Modules.Policy.{env_module_name, module_group_allowed}
use test_bot.Modules.Policy.Exact.{module_group_allowed_iff, Permitted}
use test_bot.Modules.Echo.{tool_echo_module}
use test_bot.Modules.Registry.{
  default_registry, handle, resolve, ask_services, remote_request, remote_modules,
}
use test_bot.Modules.Registry.Routing.{Routed, handle-Routed, handle_without_blocked}
use test_bot.Services.Tools.{
  list_tools, remote_tool_owner, call_tool, request_with_context, echo_tool,
}
use test_bot.Services.Tools.Owners.{
  names, NodupNames, list_tools-NodupNames, list_tools-iff_owned, Dispatched, call_tool-Dispatched,
}
use test_bot.Modules.Remote
use test_bot.Modules.Remote.{
  service_dict, explicit_services, default_services, RemoteModuleService, module_services_from_env,
}
use test_bot.Modules.Remote.Config.{IsTrimmed, service_dict-IsTrimmed}
use test_bot.Base.Dict.{keys}

invocation : CommandInvocation
invocation = record { prefix = codes "/"; name = codes "tool-echo"; argument = codes "a b" }

parsed :
    parse_command_invocation environment (codes " /TOOL-echo  a b ") (codes "tool-echo" ∷ [])
    ≡ some invocation
unfolding parse_command_invocation invocation list_eq nat_eq
parsed = refl

parse_command_invocation-Reads_example :
    Reads
      (command_prefixes environment)
      (codes "tool-echo" ∷ [])
      (codes "/TOOL-echo  a b")
      invocation
unfolding lower strip_by is_space nat_eq
parse_command_invocation-Reads_example =
    parse_command_invocation-Reads environment (codes " /TOOL-echo  a b ") (codes "tool-echo" ∷ [])
      invocation parsed

parse_command_invocation-written_example :
    parse_command_invocation environment (codes "/TOOL-echo  a b") (codes "tool-echo" ∷ [])
    ≡ some invocation
unfolding invocation list_eq nat_eq lower strip_by is_space command_prefixes
parse_command_invocation-written_example =
    parse_command_invocation-written environment (codes "tool-echo" ∷ []) [] (codes "." ∷ [])
      (codes "/") (codes "TOOL-echo") (codes " a b") refl tt
      (refl, (refl, (refl, (refl, (refl, (refl, (refl, (refl, (refl, tt))))))))) refl (λ e. cc) refl

env_module_name_test : env_module_name (codes "ts-person.x ") ≡ codes "TS_PERSON_X"
unfolding env_module_name
env_module_name_test = refl

blocked_test : module_group_allowed environment (codes "ts") in_group ≡ false
unfolding module_group_allowed list_eq nat_eq
blocked_test = refl

services_test : keys (service_dict runtime environment) ≡ codes "ts" ∷ codes "weather" ∷ []
unfolding service_dict list_eq nat_eq
services_test = refl

module_group_allowed_iff_example :
    (module_group_allowed environment (codes "ts") in_group ≡ true)
    ↔ Permitted environment (env_module_name (codes "ts")) in_group
module_group_allowed_iff_example = module_group_allowed_iff environment (codes "ts") in_group

service_dict-IsTrimmed_example :
    NodupKeys (service_dict runtime environment) × All IsTrimmed (service_dict runtime environment)
service_dict-IsTrimmed_example = service_dict-IsTrimmed runtime environment

weather_answers :
    handle runtime http environment
      (default_registry runtime environment)
      (codes "rain?")
      in_group
      (some empty_request)
    ≡ some answer
unfolding handle default_registry tool_echo_module resolve ask_services remote_request
    remote_modules module_services_from_env module_group_allowed Remote.handle list_eq nat_eq
weather_answers = refl

undetected : resolve (default_registry runtime environment) (codes "rain?") ≡ none
unfolding resolve default_registry list_eq nat_eq
undetected = refl

handle-Routed_example :
    Routed http environment in_group
      (remote_request empty_request (codes "rain?"))
      (remote_modules runtime environment (default_registry runtime environment))
      (handle runtime http environment
        (default_registry runtime environment)
        (codes "rain?")
        in_group
        (some empty_request))
handle-Routed_example =
    handle-Routed runtime http environment (default_registry runtime environment) (codes "rain?")
      in_group empty_request undetected

abbrev services : List RemoteModuleService
services = module_services_from_env runtime environment

handle_without_blocked_example :
    handle runtime http environment
      (record { modules = []; remote_services = some services })
      (codes "rain?")
      in_group
      (some empty_request)
    ≡ handle runtime http environment
        (record {
          modules = [];
          remote_services =
              some (keep (λ s. module_group_allowed environment s.name in_group) services);
        })
        (codes "rain?")
        in_group
        (some empty_request)
handle_without_blocked_example =
    handle_without_blocked runtime http environment
      (record { modules = []; remote_services = none }) (codes "rain?") services in_group
      (some empty_request)

tools_test : names (list_tools runtime http environment) ≡ codes "echo" ∷ codes "forecast" ∷ []
unfolding list_tools module_services_from_env Remote.list_tools list_eq nat_eq
tools_test = refl

list_tools-NodupNames_example : NodupNames (list_tools runtime http environment)
list_tools-NodupNames_example = list_tools-NodupNames runtime http environment

list_tools-iff_owned_example :
    (contains (names (list_tools runtime http environment)) (codes "forecast") ≡ true) ↔ (
      (codes "forecast" ≡ echo_tool.name)
      ⊎ (remote_tool_owner runtime http environment (codes "forecast") ≢ none))
list_tools-iff_owned_example = list_tools-iff_owned runtime http environment (codes "forecast")

abbrev forecast_call : ToolCallRequest
forecast_call = record {
  name = codes "forecast";
  arguments = end;
  message_type = none;
  group_id = none;
  user_id = none;
}

call_tool-Dispatched_example :
    Dispatched runtime http environment
      (request_with_context forecast_call (some in_group))
      (call_tool runtime http environment forecast_call (some in_group))
call_tool-Dispatched_example =
    call_tool-Dispatched runtime http environment forecast_call (some in_group)
