-- ===== src/Services/Chat/Echo.antt =====
-- brain-python/services/chat.py: `_plan_tool_call` and the call of the echo tool.
use test_bot.Text.{lstrip_by, rstrip_by, strip_by}
use test_bot.Base.{Option}
use test_bot.Schemas.{BrainResponse}
use test_bot.Base.{List, [], is_empty, none, not, refl, some, ◌∷◌, ◌≡◌}
use test_bot.Text.{Text, codes}
use test_bot.Value.{Runtime, end, field, str}
use test_bot.Env.{Env}
use test_bot.Schemas.{ChatRequest, ToolCallRequest, reply_messages}
use test_bot.Modules.Remote.{Http}
use test_bot.Modules.Command.{CommandInvocation, parse_command_invocation, ModuleContext}
use test_bot.Services.Tools
use test_bot.Services.Chat.{
  Responders, ask_modules, build_chat_response, plan_or_ai, plan_tool_call, with_modules,
  planned_response, request_module_texts, request_text_and_context,
}
use test_bot.Base.Result.{raise, return}
use test_bot.Services.Chat.{Ends, route}
use test_bot.Services.Chat.Route.{Passed, next, no_texts}

module _ {S E : Type 0} (by : Responders S E) (rt : Runtime) (env : Env) (request : ChatRequest)
    (context : ModuleContext) where
  ask_modules-none :
      (texts : List Text) (s s' : S)
      → Passed rt env by request context texts s s'
      → ask_modules by request context texts s ≡ (return none, s')
  unfolding ask_modules
  ask_modules-none [] s s' no_texts = refl
  ask_modules-none (text ∷ texts) s s' (next silent unknown passed) =
      rw (silent, unknown, ask_modules) (ask_modules-none texts _ s' passed)

module _ (rt : Runtime) (http : Http) (env : Env) (invocation : CommandInvocation) where
  abbrev echo_call : ToolCallRequest
  echo_call = record {
    name = codes "echo";
    arguments = field (codes "text") (str invocation.argument) end;
    message_type = none;
    group_id = none;
    user_id = none;
  }

  planned_echo :
      (context : ModuleContext)
      → let r =
          planned_response rt echo_call (Tools.call_tool rt http env echo_call (some context)) in
        (r.reply ≡ invocation.argument)
        × (r.should_reply ≡ not (is_empty invocation.argument))
        × (r.messages ≡ reply_messages invocation.argument)
  unfolding planned_response Tools.call_tool Tools.request_with_context
  planned_echo context = (refl, refl, refl)

  abbrev pub Echoed : BrainResponse → Type 0
  Echoed r =
      (r.reply ≡ invocation.argument)
      × (r.should_reply ≡ not (is_empty invocation.argument))
      × (r.messages ≡ reply_messages invocation.argument)

  module _ {S E : Type 0} (memory : ChatRequest → Text → S → Ends S E (Option BrainResponse))
      (ai : ChatRequest → Text → ModuleContext → S → Ends S E (Option BrainResponse))
      (request : ChatRequest) where
    abbrev pub with_program : Responders S E
    with_program = with_modules rt http env memory ai

    -- The request ends with that answer, in a state.
    abbrev pub EchoedIn : S → Ends S E BrainResponse → Type 0
    EchoedIn s (raise e, s') = ⊥
    EchoedIn s (return r, s') = (s' ≡ s) × Echoed r

    empty_parse : ¬ (parse_command_invocation env [] (codes "echo" ∷ []) ≡ some invocation)
    unfolding parse_command_invocation strip_by lstrip_by rstrip_by
    empty_parse parsed = cc

    plan_or_ai-Echoed :
        (text : Text) (context : ModuleContext) (s : S)
        → parse_command_invocation env text (codes "echo" ∷ []) ≡ some invocation
        → EchoedIn s (plan_or_ai rt env with_program request text context s)
    unfolding with_modules plan_or_ai plan_tool_call
    plan_or_ai-Echoed [] context s parsed = absurd (empty_parse parsed)
    plan_or_ai-Echoed (c ∷ cs) context s parsed =
        rw (parsed, plan_or_ai, plan_tool_call) (refl, planned_echo context)

    -- An echo command that no memory command, module or service answers is answered with its
    -- argument by the tool of the program, and with silence if it has none, whatever the AI says; the
    -- state is the one that the memory commands left.
    pub build_chat_response-Echoed :
        let (text, context) = request_text_and_context request in
        (s s' : S)
        → Passed rt env with_program request context (request_module_texts rt request text) s s'
        → parse_command_invocation env text (codes "echo" ∷ []) ≡ some invocation
        → EchoedIn s' (build_chat_response rt env with_program request s)
    unfolding build_chat_response
    build_chat_response-Echoed s s' passed parsed =
        let (text, context) = request_text_and_context request in
        let texts = request_module_texts rt request text in
        echoed text context texts
          (ask_modules-none with_program rt env request context texts s s' passed) parsed
      where
        echoed :
            (text : Text) (context : ModuleContext) (texts : List Text)
            → ask_modules with_program request context texts s ≡ (return none, s')
            → parse_command_invocation env text (codes "echo" ∷ []) ≡ some invocation
            → EchoedIn s' (route rt env with_program request text context texts s)
        echoed [] context texts silent p = absurd (empty_parse p)
        echoed (c ∷ cs) context texts silent p = rw silent (plan_or_ai-Echoed (c ∷ cs) context s' p)
