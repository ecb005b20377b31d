-- ===== src/Services/Tools.antt =====
-- brain-python/services/tools.py: the tools of the program and of the remote services.
pub mod Owners
use test_bot.Base.{contains, if◌then◌else◌, list_eq, nat_eq, ◌==◌}
use test_bot.Text.{Text, codes}
use test_bot.Value.{find_field, get_or, str_of, string_id, text_id, text_or_empty, truthy_id}
use test_bot.Env.{Env}
use test_bot.Schemas.{ToolCallRequest, ToolDefinition, ToolResult}
use test_bot.Base.{Bool, true, false, not, Option, none, some, List, [], ◌∷◌, ◌++◌}
use test_bot.Base.Dict.{Dict, lookup, setdefault}
use test_bot.Value.{Runtime, Value, Fields, str, dict, arr, cons, nil, end, field}
use test_bot.Modules.Command.{ModuleContext}
use test_bot.Modules.Policy.{module_group_allowed}
use test_bot.Modules.Remote
use test_bot.Modules.Remote.{
  Http, RemoteModuleService, module_services_from_env, failed_tool_result,
}

-- `_ECHO_TOOL`
abbrev pub echo_tool : ToolDefinition
echo_tool = record {
  name = codes "echo";
  description = codes "Fake tool that returns the provided text.";
  input_schema = field (codes "type") (str (codes "object")) (
      field (codes "properties")
        (dict (
          field (codes "text")
            (dict (
              field (codes "type") (str (codes "string"))
                (field (codes "description") (str (codes "Text to echo back.")) end)))
            end))
        (field (codes "required") (arr (cons (str (codes "text")) nil)) end));
}

-- The tools of the services, in the order in which the two loops meet them.
unfoldable pub remote_tools : Http → List RemoteModuleService → List ToolDefinition
remote_tools http [] = []
remote_tools http (service ∷ services) =
    Remote.list_tools http service ++ remote_tools http services

-- The tools whose name has not been seen.
unfoldable pub unseen : List Text → List ToolDefinition → List ToolDefinition
unfolding list_eq nat_eq
unseen seen [] = []
unseen seen (tool ∷ tools) =
    let old = unseen seen tools in
    let new = tool ∷ unseen (tool.name ∷ seen) tools in if contains seen tool.name then old else new

unfoldable pub list_remote_tools : Runtime → Http → Env → List ToolDefinition
unfolding unseen remote_tools
list_remote_tools rt http env =
    unseen (echo_tool.name ∷ []) (remote_tools http (module_services_from_env rt env))

unfoldable pub list_tools : Runtime → Http → Env → List ToolDefinition
unfolding list_remote_tools
list_tools rt http env = echo_tool ∷ list_remote_tools rt http env

-- The inner loop of `_remote_tool_owner`.
unfoldable pub add_owners :
    RemoteModuleService
    → List ToolDefinition
    → Dict Text RemoteModuleService
    → Dict Text RemoteModuleService
unfolding setdefault list_eq nat_eq
add_owners service [] owners = owners
add_owners service (tool ∷ tools) owners =
    add_owners service tools (setdefault tool.name service owners)

unfoldable pub owners_of :
    Http → List RemoteModuleService → Dict Text RemoteModuleService → Dict Text RemoteModuleService
unfolding add_owners
owners_of http [] owners = owners
owners_of http (service ∷ services) owners =
    owners_of http services (add_owners service (Remote.list_tools http service) owners)

-- `_remote_tool_owner`
unfoldable pub remote_tool_owner : Runtime → Http → Env → Text → Option RemoteModuleService
unfolding owners_of lookup list_eq nat_eq
remote_tool_owner rt http env tool_name =
    lookup tool_name (owners_of http (module_services_from_env rt env) [])

-- `a or b` for an optional text and a text.
abbrev or_some_text : Option Text → Text → Option Text
or_some_text none b = some b
or_some_text (some []) b = some b
or_some_text (some (c ∷ cs)) b = some (c ∷ cs)

-- `_request_with_context`
unfoldable pub request_with_context : ToolCallRequest → Option ModuleContext → ToolCallRequest
unfolding truthy_id
request_with_context request none = request
request_with_context request (some context) = record request {
  message_type = or_some_text request.message_type context.message_type;
  group_id =
      if truthy_id request.group_id then request.group_id else some (text_id context.group_id);
  user_id = if truthy_id request.user_id then request.user_id else some (text_id context.user_id);
}

-- `_context_from_request`
unfoldable pub context_from_request : ToolCallRequest → ModuleContext
unfolding string_id
context_from_request request = record {
  group_id = string_id request.group_id;
  user_id = string_id request.user_id;
  message_type = text_or_empty request.message_type;
}

-- The end of `call_tool`, for a tool that is not the program's own.
unfoldable pub call_remote_tool :
    Http → Env → Option RemoteModuleService → ToolCallRequest → ToolResult
call_remote_tool http env none request =
    failed_tool_result request.name (codes "unknown tool: " ++ request.name)
call_remote_tool http env (some owner) request =
    if not (module_group_allowed env owner.name (context_from_request request))
    then failed_tool_result request.name (codes "group_policy_denied")
    else Remote.call_tool http owner request

abbrev pub echo_result : Runtime → ToolCallRequest → ToolResult
echo_result rt request = record {
  tool_name = echo_tool.name;
  ok = true;
  payload =
      field (codes "text") (str (str_of rt (get_or (codes "text") (str []) request.arguments))) end;
  error = none;
}

unfoldable pub call_tool :
    Runtime → Http → Env → ToolCallRequest → Option ModuleContext → ToolResult
call_tool rt http env request context =
    let r = request_with_context request context in
    if r.name == echo_tool.name
    then echo_result rt r
    else call_remote_tool http env (remote_tool_owner rt http env r.name) r
