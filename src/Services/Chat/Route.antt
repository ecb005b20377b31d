-- ===== src/Services/Chat/Route.antt =====
-- brain-python/services/chat.py: `_request_text_and_context` and `_build_chat_response`.
use test_bot.Base.{
  All, List, Option, [], false, if◌then◌else◌, is_empty, none, refl, some, true, ◌++◌, ◌∷◌, ◌≡◌,
  ◌≢◌,
}
use test_bot.Base.Result.{raise, return}
use test_bot.Text.{Text, strip}
use test_bot.Value.{Runtime}
use test_bot.Env.{Env}
use test_bot.Schemas.{BrainResponse, ChatRequest, ToolCallRequest}
use test_bot.Modules.Command.{ModuleContext}
use test_bot.Base.{ap, Bool-cases, inl, inr}
use test_bot.Services.Chat.{
  Ends, Responders, ask_modules, build_chat_response, or_module, or_no_route, or_plan,
  planned_or_ai, route, no_route, plan_or_ai, plan_tool_call, planned_response,
  request_module_texts, silence, Candidate, candidates, last_filled, request_text_and_context,
  top_level_context,
}

abbrev pub Blank : Candidate → Type 0
Blank c = strip c.0 ≡ []

-- The last candidate with a text that is not blank, its text stripped.
pub record LastFilled (cs : List Candidate) (found : Candidate) : Type 0 where
  pub earlier : List Candidate
  pub chosen : Candidate
  pub later : List Candidate
  pub order : cs ≡ earlier ++ (chosen ∷ later)
  pub blank : All Blank later
  pub filled : strip chosen.0 ≢ []
  pub result : found ≡ (strip chosen.0, chosen.1)

abbrev Last : List Candidate → Option Candidate → Type 0
Last cs none = All Blank cs
Last cs (some found) = LastFilled cs found

is_empty_eq : (s : Text) → is_empty s ≡ true → s ≡ []
is_empty_eq [] h = refl
is_empty_eq (c ∷ cs) h = cc

is_empty-false : (s : Text) → is_empty s ≡ false → s ≢ []
is_empty-false [] h e = cc
is_empty-false (c ∷ cs) h e = cc

last_filled-Last : (cs : List Candidate) → Last cs (last_filled cs)
unfolding last_filled
last_filled-Last [] = tt
last_filled-Last (c ∷ cs) = extend (last_filled cs) (last_filled-Last cs)
  where
    extend :
        (o : Option Candidate)
        → Last cs o
        → Last (c ∷ cs) (elim o [
          | some found ↦ some found
          | none ↦ if is_empty (strip c.0) then none else some (strip c.0, c.1)
        ])
    extend (some found) l = record {
      earlier = c ∷ l.earlier;
      chosen = l.chosen;
      later = l.later;
      order = ap (λ rest. c ∷ rest) l.order;
      blank = l.blank;
      filled = l.filled;
      result = l.result;
    }
    extend none l = elim (Bool-cases (is_empty (strip c.0))) [
      | inl blank ↦ rw blank (is_empty_eq (strip c.0) blank, l)
      | inr full ↦ rw full (record {
        earlier = [];
        chosen = c;
        later = cs;
        order = refl;
        blank = l;
        filled = is_empty-false (strip c.0) full;
        result = refl;
      })
    ]

pub data Selected (request : ChatRequest) : Candidate → Type 0 where
  latest : (found : Candidate) → LastFilled (candidates request) found → Selected request found
  blank_request : All Blank (candidates request) → Selected request ([], top_level_context request)

-- The text of a request is that of the last of its text, its content, its message and its messages
-- that is not blank, stripped and in that message's context; and is empty, in the context of the
-- request, only if all of them are blank.
pub request_text_and_context-Selected :
    (request : ChatRequest) → Selected request (request_text_and_context request)
unfolding request_text_and_context
request_text_and_context-Selected request =
    select (last_filled (candidates request)) (last_filled-Last (candidates request))
  where
    select :
        (o : Option Candidate)
        → Last (candidates request) o
        → Selected request (elim o [ none ↦ ([], top_level_context request) | some found ↦ found ])
    select none l = blank_request l
    select (some found) l = latest found l

module _ {S E : Type 0} (rt : Runtime) (env : Env) (by : Responders S E) (request : ChatRequest)
    (context : ModuleContext) where
  -- Neither the memory commands nor a module or service answers any of the texts, one after another
  -- from a state to a state.
  pub data Passed : List Text → S → S → Type 0 where
    no_texts : {s : S} → Passed [] s s
    next :
        {text : Text} {texts : List Text} {s s' s'' : S}
        → by.memory request text s ≡ (return none, s')
        → by.modules text context request ≡ none
        → Passed texts s' s''
        → Passed (text ∷ texts) s s''

  -- The loop over the texts: all are passed, or one is answered, or its memory command raises.
  pub data Asked : List Text → S → Ends S E (Option BrainResponse) → Type 0 where
    all_passed :
        {texts : List Text} {s s' : S} → Passed texts s s' → Asked texts s (return none, s')
    by_memory :
        (earlier : List Text) (text : Text) (later : List Text) {s s' s'' : S}
        {response : BrainResponse}
        → Passed earlier s s'
        → by.memory request text s' ≡ (return (some response), s'')
        → Asked (earlier ++ (text ∷ later)) s (return (some response), s'')
    memory_raises :
        (earlier : List Text) (text : Text) (later : List Text) {s s' s'' : S} {e : E}
        → Passed earlier s s'
        → by.memory request text s' ≡ (raise e, s'')
        → Asked (earlier ++ (text ∷ later)) s (raise e, s'')
    by_module :
        (earlier : List Text) (text : Text) (later : List Text) {s s' s'' : S}
        {response : BrainResponse}
        → Passed earlier s s'
        → by.memory request text s' ≡ (return none, s'')
        → by.modules text context request ≡ some response
        → Asked (earlier ++ (text ∷ later)) s (return (some response), s'')

  -- How a request with a text and texts for the modules ends.
  pub data Route (text : Text) (texts : List Text) (s : S) : Ends S E BrainResponse → Type 0 where
    nothing : text ≡ [] → texts ≡ [] → Route text texts s (return (silence none), s)
    replied :
        (response : BrainResponse) (s' : S)
        → Asked texts s (return (some response), s')
        → Route text texts s (return response, s')
    loop_raised : (e : E) (s' : S) → Asked texts s (raise e, s') → Route text texts s (raise e, s')
    planned :
        (call : ToolCallRequest) (s' : S)
        → Passed texts s s'
        → plan_tool_call env text ≡ some call
        → Route text texts s (return (planned_response rt call (by.tool call context)), s')
    by_ai :
        (response : BrainResponse) (s' s'' : S)
        → Passed texts s s'
        → plan_tool_call env text ≡ none
        → text ≢ []
        → by.ai request text context s' ≡ (return (some response), s'')
        → Route text texts s (return response, s'')
    ai_raised :
        (e : E) (s' s'' : S)
        → Passed texts s s'
        → plan_tool_call env text ≡ none
        → text ≢ []
        → by.ai request text context s' ≡ (raise e, s'')
        → Route text texts s (raise e, s'')
    ai_silent :
        (s' s'' : S)
        → Passed texts s s'
        → plan_tool_call env text ≡ none
        → by.ai request text context s' ≡ (return none, s'')
        → Route text texts s (return no_route, s'')
    no_text : (s' : S) → Passed texts s s' → text ≡ [] → Route text texts s (return no_route, s')

  one_more :
      (text : Text) (texts : List Text) (s s' : S) (o : Ends S E (Option BrainResponse))
      → by.memory request text s ≡ (return none, s')
      → by.modules text context request ≡ none
      → Asked texts s' o
      → Asked (text ∷ texts) s o
  one_more text texts s s' o silent unknown (all_passed passed) =
      all_passed (next silent unknown passed)
  one_more text texts s s' o silent unknown (by_memory earlier t later passed reply) =
      by_memory (text ∷ earlier) t later (next silent unknown passed) reply
  one_more text texts s s' o silent unknown (memory_raises earlier t later passed raises) =
      memory_raises (text ∷ earlier) t later (next silent unknown passed) raises
  one_more text texts s s' o silent unknown (by_module earlier t later passed quiet reply) =
      by_module (text ∷ earlier) t later (next silent unknown passed) quiet reply

  or_module-Asked :
      (text : Text) (texts : List Text) (s : S) (o : Ends S E (Option BrainResponse))
      (reply : Option BrainResponse) (rest : S → Ends S E (Option BrainResponse))
      → by.memory request text s ≡ o
      → by.modules text context request ≡ reply
      → ((s' : S) → Asked texts s' (rest s'))
      → Asked (text ∷ texts) s (or_module reply rest o)
  or_module-Asked text texts s (raise e, s') reply rest memory module_ h =
      memory_raises [] text texts no_texts memory
  or_module-Asked text texts s (return (some r), s') reply rest memory module_ h =
      by_memory [] text texts no_texts memory
  or_module-Asked text texts s (return none, s') (some r) rest memory module_ h =
      by_module [] text texts no_texts memory module_
  or_module-Asked text texts s (return none, s') none rest memory module_ h =
      one_more text texts s s' (rest s') memory module_ (h s')

  ask_modules-Asked :
      (texts : List Text) (s : S) → Asked texts s (ask_modules by request context texts s)
  unfolding ask_modules
  ask_modules-Asked [] s = all_passed no_texts
  ask_modules-Asked (text ∷ texts) s =
      or_module-Asked text texts s (by.memory request text s) (by.modules text context request)
        (ask_modules by request context texts) refl refl (ask_modules-Asked texts)

  planned_or_ai-Route :
      (text : Text) (texts : List Text) (s s' : S) (plan : Option ToolCallRequest)
      → text ≢ []
      → plan_tool_call env text ≡ plan
      → Passed texts s s'
      → Route text texts s (planned_or_ai rt env by request text context plan s')
  planned_or_ai-Route text texts s s' (some call) filled plan passed = planned call s' passed plan
  planned_or_ai-Route text texts s s' none filled plan passed =
      by_the_ai (by.ai request text context s') refl
    where
      by_the_ai :
          (o : Ends S E (Option BrainResponse))
          → by.ai request text context s' ≡ o
          → Route text texts s (or_no_route o)
      by_the_ai (raise e, s'') asked = ai_raised e s' s'' passed plan filled asked
      by_the_ai (return (some r), s'') asked = by_ai r s' s'' passed plan filled asked
      by_the_ai (return none, s'') asked = ai_silent s' s'' passed plan asked

  -- The states of a loop that passed all texts.
  Passed-Asked :
      (texts : List Text) (s s' : S) → Asked texts s (return none, s') → Passed texts s s'
  Passed-Asked texts s s' (all_passed passed) = passed

  or_plan-Route :
      (text : Text) (texts : List Text) (s : S) (o : Ends S E (Option BrainResponse))
      → Asked texts s o
      → Route text texts s (or_plan rt env by request text context o)
  unfolding plan_or_ai
  or_plan-Route text texts s (raise e, s') asked = loop_raised e s' asked
  or_plan-Route text texts s (return (some r), s') asked = replied r s' asked
  or_plan-Route [] texts s (return none, s') asked = no_text s' (Passed-Asked texts s s' asked) refl
  or_plan-Route (c ∷ cs) texts s (return none, s') asked =
      planned_or_ai-Route (c ∷ cs) texts s s' (plan_tool_call env (c ∷ cs)) (λ e. cc) refl
        (Passed-Asked texts s s' asked)

  route-Route :
      (text : Text) (texts : List Text) (s : S)
      → Route text texts s (route rt env by request text context texts s)
  route-Route [] [] s = nothing refl refl
  route-Route [] (t ∷ texts) s = or_plan-Route [] (t ∷ texts) s _ (ask_modules-Asked (t ∷ texts) s)
  route-Route (c ∷ cs) texts s = or_plan-Route (c ∷ cs) texts s _ (ask_modules-Asked texts s)

-- A request is answered by the first of its texts that a memory command, or else a module or a
-- service, answers; else by the echo tool if its text asks for it; else by the AI, if there is a text
-- and the AI wants to answer; and by silence otherwise. The first memory command that raises ends it
-- with that error, before any later text is looked at, and so does an AI that raises; each responder
-- starts from the state that the one before it left.
pub build_chat_response-Route :
    {S E : Type 0} (rt : Runtime) (env : Env) (by : Responders S E) (request : ChatRequest) (s : S)
    → Route rt env by request
        (request_text_and_context request).1
        (request_text_and_context request).0
        (request_module_texts rt request (request_text_and_context request).0)
        s
        (build_chat_response rt env by request s)
unfolding build_chat_response
build_chat_response-Route rt env by request s =
    let (text, context) = request_text_and_context request in
    route-Route rt env by request context text (request_module_texts rt request text) s
