-- ===== src/Modules/Registry/Routing.antt =====
-- Which module or service answers a text.
use test_bot.Base.{Option, [], none}
use test_bot.Text.{Text}
use test_bot.Value.{Runtime}
use mathlib.Core.Path.{subst}
use test_bot.Base.{
  sym, refl, ap, keep, ◌≡◌, ◌⊎◌, inl, inr, true, ◌||◌, some, List, ◌∷◌, ◌++◌, All, arith,
}
use test_bot.Base.{Bool-cases, Option-cases}
use test_bot.Schemas.{BrainResponse, ChatRequest}
use test_bot.Env.{Env}
use test_bot.Modules.Command.{ModuleContext}
use test_bot.Modules.Policy.{module_group_allowed}
use test_bot.Modules.Remote
use test_bot.Modules.Remote.{Http, RemoteModuleService}
use test_bot.Modules.Registry.{
  Registry, resolve, ask_services, remote_request, remote_modules, run_module, handle,
}

module _ (http : Http) (env : Env) (context : ModuleContext) (request : ChatRequest) where
  -- The policy admits the service, it answers, and it handles the text or wants a reply.
  pub record Answers (service : RemoteModuleService) (response : BrainResponse) : Type 0 where
    pub admitted : module_group_allowed env service.name context ≡ true
    pub answer : Remote.handle http service request ≡ some response
    pub useful : (response.handled ≡ true) ⊎ (response.should_reply ≡ true)

  -- The service gives no answer.
  abbrev pub Passes : RemoteModuleService → Type 0
  Passes service = (response : BrainResponse) → ¬ Answers service response

  -- A list of services splits at the first one that answers.
  pub record FirstAnswer (services : List RemoteModuleService) (response : BrainResponse)
      : Type 0 where
    pub earlier : List RemoteModuleService
    pub service : RemoteModuleService
    pub later : List RemoteModuleService
    pub order : services ≡ earlier ++ (service ∷ later)
    pub passed : All Passes earlier
    pub answers : Answers service response

  -- One step of the loop: the service answers, or the loop goes on.
  data Turn (service : RemoteModuleService) (services : List RemoteModuleService) : Type 0 where
    taken :
        (response : BrainResponse)
        → Answers service response
        → ask_services http env context request (service ∷ services) ≡ some response
        → Turn service services
    skipped :
        Passes service
        → ask_services http env context request (service ∷ services)
          ≡ ask_services http env context request services
        → Turn service services

  turn :
      (service : RemoteModuleService) (services : List RemoteModuleService) → Turn service services
  unfolding ask_services
  turn service services = elim (Bool-cases (module_group_allowed env service.name context)) [
    | inr denied ↦ skipped (λ r a. ground (arith, a.admitted)) (rw denied)
    | inl admitted ↦ elim (Option-cases (Remote.handle http service request)) [
      | inl silent ↦ skipped (λ r a. ground (arith, a.answer)) (rw (admitted, silent))
      | inr (response, answer) ↦ elim (Bool-cases (response.handled || response.should_reply)) [
        | inl useful ↦
            taken response (record { admitted = admitted; answer = answer; useful = ground arith })
              (rw (admitted, answer, useful))
        | inr useless ↦
            skipped (λ r a. ground (arith, a.answer, a.useful)) (rw (admitted, answer, useless))
      ]
    ]
  ]

  FirstAnswer-cons :
      (service : RemoteModuleService) (services : List RemoteModuleService) (r : BrainResponse)
      → Passes service
      → FirstAnswer services r
      → FirstAnswer (service ∷ services) r
  FirstAnswer-cons service services r passes f = record {
    earlier = service ∷ f.earlier;
    service = f.service;
    later = f.later;
    order = ap (λ rest. service ∷ rest) f.order;
    passed = (passes, f.passed);
    answers = f.answers;
  }

  abbrev pub Routed : List RemoteModuleService → Option BrainResponse → Type 0
  Routed services none = All Passes services
  Routed services (some r) = FirstAnswer services r

  ask_services-Routed :
      (services : List RemoteModuleService)
      → Routed services (ask_services http env context request services)
  unfolding ask_services
  ask_services-Routed [] = tt
  ask_services-Routed (service ∷ services) = elim (turn service services) [
    | taken r a e ↦ subst (Routed (service ∷ services)) (sym e) (record {
      earlier = [];
      service = service;
      later = services;
      order = refl;
      passed = tt;
      answers = a;
    })
    | skipped passes e ↦ subst (Routed (service ∷ services)) (sym e) (
        extend (ask_services http env context request services) passes
          (ask_services-Routed services))
  ]
    where
      extend :
          (o : Option BrainResponse)
          → Passes service
          → Routed services o
          → Routed (service ∷ services) o
      extend none passes h = (passes, h)
      extend (some r) passes h = FirstAnswer-cons service services r passes h

  ask_services-keep :
      (services : List RemoteModuleService)
      → ask_services http env context request services
        ≡ ask_services http env context request
            (keep (λ s. module_group_allowed env s.name context) services)
  unfolding ask_services
  ask_services-keep [] = refl
  ask_services-keep (service ∷ services) = ground (arith, ask_services-keep services)

module _ (rt : Runtime) (http : Http) (env : Env) (registry : Registry) (text : Text) where
  -- A text that no in-core module detects is answered by the first remote service, in the order
  -- of the configuration, that the group policy admits and that handles it or wants a reply; and
  -- by nothing only if no service is such.
  pub handle-Routed :
      (context : ModuleContext) (request : ChatRequest)
      → resolve registry text ≡ none
      → Routed http env context
          (remote_request request text)
          (remote_modules rt env registry)
          (handle rt http env registry text context (some request))
  unfolding handle
  handle-Routed context request unknown =
      rw (unknown, handle)
        (ask_services-Routed http env context (remote_request request text)
          (remote_modules rt env registry))

  -- What a service that the group policy blocks would say makes no difference: the registry
  -- answers as if such services were not configured.
  pub handle_without_blocked :
      (services : List RemoteModuleService) (context : ModuleContext) (request : Option ChatRequest)
      → let only =
          λ (ss : List RemoteModuleService). record registry { remote_services = some ss } in
        handle rt http env (only services) text context request
        ≡ handle rt http env
            (only (keep (λ s. module_group_allowed env s.name context) services))
            text
            context
            request
  unfolding handle resolve remote_modules
  handle_without_blocked services context none = refl
  handle_without_blocked services context (some request) =
      ap
        (λ (answer : Option BrainResponse). elim (resolve registry text) [
          | none ↦ answer
          | some m ↦ some (run_module env m text context)
        ])
        (ask_services-keep http env context (remote_request request text) services)
