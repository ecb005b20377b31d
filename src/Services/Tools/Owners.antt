-- ===== src/Services/Tools/Owners.antt =====
-- Which tools are listed, and which service a call goes to.
use test_bot.Base.{Bool-cases, Option-cases, inl, inr, not, ◌==◌}
use test_bot.Base.{Option}
use test_bot.Text.{codes}
use test_bot.Schemas.{ToolCallRequest, ToolResult}
use test_bot.Base.{list_eq, nat_eq}
use test_bot.Base.{
  Bool, List, [], arith, contains, false, find, if◌then◌else◌, none, refl, some, true, ◌++◌, ◌||◌,
  ◌↔◌, ◌∷◌, ◌≡◌, ◌≢◌, ◌⊎◌,
}
use test_bot.Text.{Text}
use test_bot.Value.{Runtime}
use test_bot.Env.{Env}
use test_bot.Schemas.{ToolDefinition}
use test_bot.Base.Dict.{Dict, lookup, setdefault, lookup-setdefault, or_else}
use test_bot.Modules.Command.{ModuleContext}
use test_bot.Modules.Policy.{module_group_allowed}
use test_bot.Modules.Remote
use test_bot.Modules.Remote.{
  Http, RemoteModuleService, module_services_from_env, failed_tool_result,
}
use test_bot.Services.Tools.{
  echo_tool, remote_tools, unseen, list_tools, add_owners, owners_of, remote_tool_owner,
  request_with_context, call_tool, call_remote_tool, echo_result, context_from_request,
}

abbrev pub names : List ToolDefinition → List Text
names [] = []
names (tool ∷ tools) = tool.name ∷ names tools

-- The service lists the tool.
abbrev pub lists : Http → Text → RemoteModuleService → Bool
lists http name service = contains (names (Remote.list_tools http service)) name

lookup-add_owners :
    (name : Text) (service : RemoteModuleService) (tools : List ToolDefinition)
    (owners : Dict Text RemoteModuleService)
    → lookup name (add_owners service tools owners)
      ≡ or_else (lookup name owners) (if contains (names tools) name then some service else none)
unfolding add_owners
lookup-add_owners name service [] owners = ground arith
lookup-add_owners name service (tool ∷ tools) owners = ground (
  arith,
  lookup-add_owners name service tools (setdefault tool.name service owners),
  lookup-setdefault name tool.name service owners,
)

lookup-owners_of :
    (http : Http) (name : Text) (services : List RemoteModuleService)
    (owners : Dict Text RemoteModuleService)
    → lookup name (owners_of http services owners)
      ≡ or_else (lookup name owners) (find (lists http name) services)
unfolding owners_of
lookup-owners_of http name [] owners = ground arith
lookup-owners_of http name (service ∷ services) owners = ground (
  arith,
  lookup-owners_of http name services (add_owners service (Remote.list_tools http service) owners),
  lookup-add_owners name service (Remote.list_tools http service) owners,
)

-- A tool belongs to the first configured service that lists it.
pub remote_tool_owner-eq-find :
    (rt : Runtime) (http : Http) (env : Env) (name : Text)
    → remote_tool_owner rt http env name ≡ find (lists http name) (module_services_from_env rt env)
unfolding remote_tool_owner lookup
remote_tool_owner-eq-find rt http env name =
    lookup-owners_of http name (module_services_from_env rt env) []

abbrev Fresh : List Text → List ToolDefinition → Type 0
Fresh seen [] = Unit
Fresh seen (tool ∷ tools) = (contains seen tool.name ≡ false) × Fresh (tool.name ∷ seen) tools

unseen-Fresh : (seen : List Text) (tools : List ToolDefinition) → Fresh seen (unseen seen tools)
unfolding unseen
unseen-Fresh seen [] = tt
unseen-Fresh seen (tool ∷ tools) =
    ground (arith, unseen-Fresh seen tools, unseen-Fresh (tool.name ∷ seen) tools)

contains-names-unseen :
    (seen : List Text) (tools : List ToolDefinition) (name : Text)
    → (contains seen name || contains (names (unseen seen tools)) name)
      ≡ (contains seen name || contains (names tools) name)
unfolding unseen
contains-names-unseen seen [] name = refl
contains-names-unseen seen (tool ∷ tools) name = ground (
  arith,
  contains-names-unseen seen tools name,
  contains-names-unseen (tool.name ∷ seen) tools name,
)

contains-names-append :
    (xs ys : List ToolDefinition) (name : Text)
    → contains (names (xs ++ ys)) name ≡ (contains (names xs) name || contains (names ys) name)
contains-names-append [] ys name = refl
contains-names-append (x ∷ xs) ys name = ground (arith, contains-names-append xs ys name)

contains-remote_tools :
    (http : Http) (services : List RemoteModuleService) (name : Text)
    → (contains (names (remote_tools http services)) name ≡ true)
      ↔ (find (lists http name) services ≢ none)
unfolding remote_tools
contains-remote_tools http [] name = (λ h. cc, λ h. absurd (h refl))
contains-remote_tools http (service ∷ services) name = ground (
  arith,
  contains-remote_tools http services name,
  contains-names-append (Remote.list_tools http service) (remote_tools http services) name,
)

-- No two tools of the list have one name.
abbrev pub NodupNames : List ToolDefinition → Type 0
NodupNames [] = Unit
NodupNames (tool ∷ tools) = (contains (names tools) tool.name ≡ false) × NodupNames tools

Fresh-contains :
    (seen : List Text) (tools : List ToolDefinition) (name : Text)
    → Fresh seen tools
    → contains seen name ≡ true
    → contains (names tools) name ≡ false
Fresh-contains seen [] name h k = refl
Fresh-contains seen (tool ∷ tools) name (h, hs) k =
    ground (arith, Fresh-contains (tool.name ∷ seen) tools name hs)

Fresh-NodupNames :
    (seen : List Text) (tools : List ToolDefinition) → Fresh seen tools → NodupNames tools
Fresh-NodupNames seen [] h = tt
Fresh-NodupNames seen (tool ∷ tools) (h, hs) = (
  Fresh-contains (tool.name ∷ seen) tools tool.name hs (ground arith),
  Fresh-NodupNames (tool.name ∷ seen) tools hs,
)

-- No two listed tools have one name, whatever the services list.
pub list_tools-NodupNames :
    (rt : Runtime) (http : Http) (env : Env) → NodupNames (list_tools rt http env)
unfolding list_tools
list_tools-NodupNames rt http env =
    let seen = echo_tool.name ∷ [] in
    Fresh-NodupNames [] (list_tools rt http env)
      (refl, unseen-Fresh seen (remote_tools http (module_services_from_env rt env)))

-- A tool is listed exactly when a call of it is answered by the program or has an owner, whatever
-- the services reply.
pub list_tools-iff_owned :
    (rt : Runtime) (http : Http) (env : Env) (name : Text)
    → (contains (names (list_tools rt http env)) name ≡ true)
      ↔ ((name ≡ echo_tool.name) ⊎ (remote_tool_owner rt http env name ≢ none))
unfolding list_tools
list_tools-iff_owned rt http env name =
    let services = module_services_from_env rt env in
    ground (
      arith,
      remote_tool_owner-eq-find rt http env name,
      contains-remote_tools http services name,
      contains-names-unseen (echo_tool.name ∷ []) (remote_tools http services) name,
    )

-- The two ways to write a test and its negation.
if_not {ℓ} : {A : Type ℓ} (b : Bool) (x y : A) → (if not b then x else y) ≡ (if b then y else x)
if_not true x y = refl
if_not false x y = refl

-- The outcome of a call, by the services' own lists and the policy.
abbrev pub Dispatched : Runtime → Http → Env → ToolCallRequest → ToolResult → Type 0
Dispatched rt http env r result =
    ((r.name ≡ echo_tool.name) × (result ≡ echo_result rt r))
    ⊎ ((r.name ≢ echo_tool.name)
        × (find (lists http r.name) (module_services_from_env rt env) ≡ none)
        × (result ≡ failed_tool_result r.name (codes "unknown tool: " ++ r.name)))
    ⊎ ((owner : RemoteModuleService) × (r.name ≢ echo_tool.name)
        × (find (lists http r.name) (module_services_from_env rt env) ≡ some owner)
        × (result ≡ (
            if module_group_allowed env owner.name (context_from_request r)
            then Remote.call_tool http owner r
            else failed_tool_result r.name (codes "group_policy_denied"))))

-- A call goes to the program for its own tool; else to the first service that lists the tool, if
-- the group policy admits that service, and is denied if not; and is unknown if none lists it.
pub call_tool-Dispatched :
    (rt : Runtime) (http : Http) (env : Env) (request : ToolCallRequest)
    (context : Option ModuleContext)
    → Dispatched rt http env
        (request_with_context request context)
        (call_tool rt http env request context)
unfolding call_tool call_remote_tool
call_tool-Dispatched rt http env request context =
    let r = request_with_context request context in
    let owned = remote_tool_owner-eq-find rt http env r.name in
    elim (Bool-cases (r.name == echo_tool.name)) [
      | inl same ↦ inl (ground arith, rw same)
      | inr other ↦
          elim (Option-cases (find (lists http r.name) (module_services_from_env rt env))) [
            | inl absent ↦ inr (inl (ground arith, absent, rw (other, owned, absent)))
            | inr (owner, found) ↦ inr (
                inr (
                  owner,
                  ground arith,
                  found,
                  rw (other, owned, found)
                      (if_not (module_group_allowed env owner.name (context_from_request r)) _ _),
                ))
          ]
    ]
