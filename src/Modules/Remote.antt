-- ===== src/Modules/Remote.antt =====
-- brain-python/modules/remote.py: the HTTP module services and their configuration.
pub mod Config
use test_bot.Base.{
  ℕ, ◌*◌, ◌^◌, ◌++◌, Bool, true, false, not, ◌||◌, Option, none, some, List, [], ◌∷◌, map, keep,
}
use test_bot.Base.{◌==◌, nat_eq, list_eq, if◌then◌else◌, is_empty, leb, ltb}
use test_bot.Base.Int.{pos}
use test_bot.Base.Dict.{Dict, insert, update, values}
use test_bot.Text.{Text, codes, strip, strip_by, rstrip_by, is_space, partition, split_at, show_nat}
use test_bot.Value.{Runtime, Float, fin, ltb_float, end}
use test_bot.Schemas.{BrainResponse, ChatRequest, ToolCallRequest, ToolDefinition, ToolResult}
use test_bot.Env.{Env, getenv}

-- The outcome of one HTTP exchange: an `httpx.HTTPError`, or a status with the body, which is
-- `none` if it is no JSON or pydantic refuses it.
pub data HttpReply (A : Type 0) : Type 0 where
  failed : HttpReply A
  answered : ℕ → Option A → HttpReply A

-- The network. Each exchange is a function of its address, its timeout and its payload.
pub record Http : Type 0 where
  pub post_handle : Text → Float → ChatRequest → HttpReply BrainResponse
  pub get_tools : Text → Float → HttpReply (List ToolDefinition)
  pub post_tool_call : Text → Float → ToolCallRequest → HttpReply ToolResult

pub record RemoteModuleService : Type 0 where
  pub name : Text
  pub base_url : Text
  pub timeout : Float

-- 5.0
abbrev pub default_module_timeout : Float
default_module_timeout = fin (pos (5 * 2 ^ 1074))

-- `response.status_code < 200 or response.status_code >= 300`
abbrev pub is_http_error : ℕ → Bool
is_http_error status = ltb status 200 || leb 300 status

unfoldable pub handle : Http → RemoteModuleService → ChatRequest → Option BrainResponse
handle http service request =
    elim (http.post_handle (service.base_url ++ codes "/handle") service.timeout request) [
      | failed ↦ none
      | answered status body ↦ if is_http_error status then none else body
    ]

unfoldable pub list_tools : Http → RemoteModuleService → List ToolDefinition
list_tools http service =
    elim (http.get_tools (service.base_url ++ codes "/tools") service.timeout) [
      | failed ↦ []
      | answered status body ↦
          if is_http_error status then [] else elim body [ none ↦ [] | some tools ↦ tools ]
    ]

abbrev pub failed_tool_result : Text → Text → ToolResult
failed_tool_result tool_name error = record {
  tool_name = tool_name;
  ok = false;
  payload = end;
  error = some error;
}

unfoldable pub call_tool : Http → RemoteModuleService → ToolCallRequest → ToolResult
unfolding show_nat
call_tool http service request =
    elim (http.post_tool_call (service.base_url ++ codes "/tools/call") service.timeout request) [
      | failed ↦ failed_tool_result request.name (codes "module_unavailable")
      | answered status body ↦
          if is_http_error status
          then failed_tool_result request.name (codes "module_http_" ++ show_nat status)
          else elim body [
            | none ↦ failed_tool_result request.name (codes "bad_module_response")
            | some result ↦ result
          ]
    ]

-- `_split_services`
unfoldable pub split_services : Text → List Text
unfolding strip_by is_space split_at nat_eq
split_services value = keep (λ part. not (is_empty part)) (map strip (split_at b',' value))

-- The body of the loop of `_service_map`.
unfoldable pub add_service :
    Float → Text → Dict Text RemoteModuleService → Dict Text RemoteModuleService
unfolding strip_by rstrip_by is_space partition insert list_eq nat_eq
add_service timeout entry services =
    let parts = partition b'=' entry in
    let name = strip parts.before in
    let url = rstrip_by (λ c. c == b'/') (strip parts.after) in
    if not parts.found
    then services
    else if is_empty name || is_empty url
    then services
    else insert name (record { name = name; base_url = url; timeout = timeout }) services

unfoldable pub add_services :
    Float → List Text → Dict Text RemoteModuleService → Dict Text RemoteModuleService
unfolding add_service
add_services timeout [] services = services
add_services timeout (entry ∷ entries) services =
    add_services timeout entries (add_service timeout entry services)

-- `_service_map`
unfoldable pub service_map : Float → Text → Dict Text RemoteModuleService
unfolding split_services add_services
service_map timeout value = add_services timeout (split_services value) []

-- `_module_timeout`
unfoldable pub module_timeout : Runtime → Env → Float
unfolding strip_by is_space ltb_float
module_timeout rt env =
    let raw = strip (getenv env (codes "BRAIN_MODULE_TIMEOUT") []) in
    if is_empty raw then default_module_timeout else elim (rt.float_of raw) [
      | none ↦ default_module_timeout
      | some timeout ↦ if ltb_float (fin (pos 0)) timeout then timeout else default_module_timeout
    ]

abbrev default_module_service_defaults : Text
default_module_service_defaults =
    codes "bilibili=http://module-bilibili:8011,"
    ++ (codes "tsperson=http://module-tsperson:8012," ++ codes "weather=http://module-weather:8013")

-- The two dicts of `module_services_from_env` before they are joined.
abbrev pub default_services : Runtime → Env → Dict Text RemoteModuleService
default_services rt env =
    service_map (module_timeout rt env)
      (getenv env (codes "BRAIN_MODULE_SERVICE_DEFAULTS") default_module_service_defaults)

abbrev pub explicit_services : Runtime → Env → Dict Text RemoteModuleService
explicit_services rt env =
    service_map (module_timeout rt env) (getenv env (codes "BRAIN_MODULE_SERVICES") [])

unfoldable pub service_dict : Runtime → Env → Dict Text RemoteModuleService
unfolding service_map module_timeout update list_eq nat_eq
service_dict rt env = update (default_services rt env) (explicit_services rt env)

-- `module_services_from_env`
unfoldable pub module_services_from_env : Runtime → Env → List RemoteModuleService
unfolding service_dict
module_services_from_env rt env = values (service_dict rt env)
