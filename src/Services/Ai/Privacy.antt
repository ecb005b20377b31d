-- ===== src/Services/Ai/Privacy.antt =====
-- brain-python/services/ai_runtime.py: when the model is asked.
use test_bot.Base.{List, [], is_empty}
use test_bot.Text.{codes}
use test_bot.Base.{Bool, false, if◌then◌else◌, not}
use test_bot.Base.{Option}
use test_bot.Text.{strip}
use test_bot.Value.{Value}
use test_bot.Schemas.{BrainResponse}
use test_bot.Base.{none, refl, some, true, ◌≡◌, ◌≢◌}
use test_bot.Text.{Text}
use test_bot.Value.{Runtime}
use test_bot.Env.{Env}
use test_bot.Schemas.{ChatRequest}
use test_bot.Base.{sym, ◌∙◌, Bool-cases, Option-cases, inl, inr}
use test_bot.Modules.Command.{ModuleContext}
use test_bot.Services.Ai.{
  Act, Built, Recall, Trigger, Upstream, ai_enabled, ask_model, build_ai_response, built,
  chat_completions_url, chat_payload, command, config, detect_trigger, explain, extract_reply,
  group_allowed, headers, mention, missing, raised, replied, reply_text, serve, type_error,
  attribute_error, Extracted, unavailable, error_response, incomplete, user_text,
}

-- The policy admits the chat, the AI is on, and something triggers it.
pub record MayAsk (env : Env) (request : ChatRequest) (text : Text) (context : ModuleContext)
    : Type 0 where
  pub triggered : detect_trigger env request text ≢ none
  pub admitted : group_allowed env context ≡ true
  pub enabled : ai_enabled env ≡ true

module _ (rt : Runtime) (env : Env) (request : ChatRequest) (text : Text)
    (context : ModuleContext) where
  -- For a chat that does not trigger the AI, that the policy does not admit, or with the AI switched
  -- off, nothing is sent to the model and no memories are read, and the outcome is one and the same
  -- whatever the model and the memories are.
  pub build_ai_response_private :
      (upstream other : Upstream) (recall recall' : ChatRequest → Text → Recall)
      → ¬ MayAsk env request text context
      → ((build_ai_response rt upstream recall env request text context).1 ≡ [])
        × (build_ai_response rt upstream recall env request text context
            ≡ build_ai_response rt other recall' env request text context)
  unfolding build_ai_response serve
  build_ai_response_private upstream other recall recall' h =
      elim (Option-cases (detect_trigger env request text)) [
        | inl quiet ↦ rw (quiet, build_ai_response) (refl, refl)
        | inr (trigger, e) ↦ rw (e, build_ai_response) (served trigger e)
      ]
    where
      served :
          (trigger : Trigger)
          → detect_trigger env request text ≡ some trigger
          → ((serve rt upstream recall env trigger request text context).1 ≡ [])
            × (serve rt upstream recall env trigger request text context
                ≡ serve rt other recall' env trigger request text context)
      served trigger e = elim (Bool-cases (group_allowed env context)) [
        | inr denied ↦ rw (denied, serve) (refl, refl)
        | inl admitted ↦ elim (Bool-cases (ai_enabled env)) [
          | inr off ↦ rw (admitted, off, serve) (refl, refl)
          | inl on ↦ absurd (h (record { triggered = λ n. cc; admitted = admitted; enabled = on }))
        ]
      ]

  module _ (upstream : Upstream) (recall : ChatRequest → Text → Recall) (trigger : Trigger) where
    abbrev said : Text
    said = user_text rt upstream recall env trigger text

    -- The response is the model's, to the prompt for this request.
    pub record FromModel (response : BrainResponse) : Type 0 where
      pub answer : Value
      pub reply : Text
      pub asked :
          upstream
            (chat_completions_url (config rt env).base_url)
            (headers (config rt env))
            (config rt env).timeout
            (chat_payload rt (config rt env) request said (recall request said))
          ≡ some answer
      pub read : extract_reply answer ≡ reply_text reply
      pub given : response ≡ replied (config rt env) trigger (recall request said) (strip reply)

    unexplained : (a b : BrainResponse) → trigger ≢ command → explain trigger a ≢ built (some b)
    unexplained a b h e = explained trigger h e
      where
        explained : (t : Trigger) → t ≢ command → explain t a ≢ built (some b)
        explained command h e = h refl
        explained mention h e = cc
        explained Trigger.reply h e = cc

    ask_model-FromModel :
        (response : BrainResponse)
        → trigger ≢ command
        → (ask_model rt upstream recall (config rt env) trigger request said).0
          ≡ built (some response)
        → FromModel response
    unfolding ask_model
    ask_model-FromModel response h e =
        heard
          (upstream (chat_completions_url (config rt env).base_url) (headers (config rt env))
            (config rt env).timeout
            (chat_payload rt (config rt env) request said (recall request said)))
          refl e
      where
        read_reply :
            (answer : Value)
            → upstream
                (chat_completions_url (config rt env).base_url)
                (headers (config rt env))
                (config rt env).timeout
                (chat_payload rt (config rt env) request said (recall request said))
              ≡ some answer
            → (x : Extracted) → extract_reply answer ≡ x
            → elim x as (λ y. Built) [
              | reply_text t ↦
                  built (some (replied (config rt env) trigger (recall request said) (strip t)))
              | type_error ↦ explain trigger unavailable
              | attribute_error ↦ raised
            ]
              ≡ built (some response)
            → FromModel response
        read_reply answer asked (reply_text t) read e = record {
          answer = answer;
          reply = t;
          asked = asked;
          read = read;
          given = cc;
        }
        read_reply answer asked type_error read e = absurd (unexplained unavailable response h e)
        read_reply answer asked attribute_error read e = cc

        heard :
            (o : Option Value)
            → upstream
                (chat_completions_url (config rt env).base_url)
                (headers (config rt env))
                (config rt env).timeout
                (chat_payload rt (config rt env) request said (recall request said))
              ≡ o
            → elim o as (λ y. Built) [
              | none ↦ explain trigger unavailable
              | some answer ↦ elim (extract_reply answer) as (λ y. Built) [
                | reply_text t ↦
                    built (some (replied (config rt env) trigger (recall request said) (strip t)))
                | type_error ↦ explain trigger unavailable
                | attribute_error ↦ raised
              ]
            ]
              ≡ built (some response)
            → FromModel response
        heard none asked e = absurd (unexplained unavailable response h e)
        heard (some answer) asked e = read_reply answer asked (extract_reply answer) refl e

    -- A guarded outcome that is an answer is the outcome behind the guards.
    behind_guards :
        (a b c : Bool) (x y z response : BrainResponse) (asked : Built × List Act)
        → trigger ≢ command
        → (if not a
            then (explain trigger x, [])
            else if not b
            then (explain trigger y, [])
            else if not c
            then (explain trigger z, [])
            else asked).0
          ≡ built (some response)
        → asked.0 ≡ built (some response)
    behind_guards false b c x y z response asked h e = absurd (unexplained x response h e)
    behind_guards true false c x y z response asked h e = absurd (unexplained y response h e)
    behind_guards true true false x y z response asked h e = absurd (unexplained z response h e)
    behind_guards true true true x y z response asked h e = e

    -- A message that only mentions the bot or replies to it gets nothing but an answer of the
    -- model to the prompt for it: no error is ever explained to a chat that gave no command.
    pub build_ai_response-FromModel :
        (response : BrainResponse)
        → detect_trigger env request text ≡ some trigger
        → trigger ≢ command
        → (build_ai_response rt upstream recall env request text context).0 ≡ built (some response)
        → FromModel response
    unfolding build_ai_response serve
    build_ai_response-FromModel response triggered h e = ask_model-FromModel response h (
        behind_guards (group_allowed env context) (ai_enabled env)
          (is_empty (missing (config rt env)))
          (error_response (codes "AI 未在当前群启用。") (codes "group_policy_denied"))
          (error_response (codes "AI 当前未启用。") (codes "disabled"))
          (incomplete (missing (config rt env))) response
          (ask_model rt upstream recall (config rt env) trigger request said) h
          (sym (after (detect_trigger env request text) triggered) ∙ e))
      where
        after :
            (o : Option Trigger)
            → o ≡ some trigger
            → (elim o as (λ y. Built × List Act) [
              | none ↦ (built none, [])
              | some t ↦ serve rt upstream recall env t request text context
            ]).0
              ≡ (serve rt upstream recall env trigger request text context).0
        after o p = rw p refl
