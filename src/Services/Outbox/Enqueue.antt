-- ===== src/Services/Outbox/Enqueue.antt =====
-- Which requests `enqueue` takes, and what it stores.
use mathlib.Core.Option.{some-ne-none}
use test_bot.Services.Outbox.{pending}
use test_bot.Base.{sym, ◌∙◌, ℕ}
use test_bot.Base.{
  All, List, Option-cases, [], arith, inl, inr, none, refl, some, ◌++◌, ◌+◌, ◌↔◌, ◌∷◌, ◌≡◌, ◌≢◌,
  ◌⊎◌,
}
use test_bot.Text.{Text, codes, lower, strip}
use test_bot.Value.{Runtime, string_id}
use test_bot.Schemas.{BrainMessage, OutboxEnqueueRequest}
use test_bot.Services.Outbox.{
  OutboxItem, OutboxError, Table, Call, Result, ok, err, TargetType, group, private, enqueue,
  prepare, requested_row, fetch_all, single_row, normalized_target_type, optional_id,
  validate_target, validate_message, validate_each, validate_messages, message_text, message_file,
  configuration,
}
use test_bot.Services.Outbox.Invariant.{Result-cases}

-- A message that can be delivered: a text with something to say, or a picture or film with a file.
abbrev pub IsDeliverable : Runtime → BrainMessage → Type 0
IsDeliverable rt m =
    ((lower (strip m.type) ≡ codes "text") × (message_text rt m ≢ []))
    ⊎ (((lower (strip m.type) ≡ codes "image") ⊎ (lower (strip m.type) ≡ codes "video"))
        × (message_file rt m ≢ []))

abbrev pub Names : TargetType → Text → Type 0
Names group text = lower (strip text) ≡ codes "group"
Names private text = lower (strip text) ≡ codes "private"

abbrev pub HasTarget : TargetType → OutboxEnqueueRequest → Type 0
HasTarget group request = string_id request.group_id ≢ []
HasTarget private request = string_id request.user_id ≢ []

abbrev pub IsAccepted : Runtime → TargetType → OutboxEnqueueRequest → Type 0
IsAccepted rt type request =
    Names type request.message_type
    × HasTarget type request
    × (request.messages ≢ [])
    × All (IsDeliverable rt) request.messages

validate_message_iff :
    (rt : Runtime) (m : BrainMessage) → (validate_message rt m ≡ ok tt) ↔ IsDeliverable rt m
unfolding validate_message
validate_message_iff rt m = ground arith

validate_each_iff :
    (rt : Runtime) (ms : List BrainMessage)
    → (validate_each rt ms ≡ ok tt) ↔ All (IsDeliverable rt) ms
unfolding validate_each
validate_each_iff rt [] = (λ h. tt, λ h. refl)
validate_each_iff rt (m ∷ ms) = ground (arith, validate_message_iff rt m, validate_each_iff rt ms)

validate_messages_iff :
    (rt : Runtime) (ms : List BrainMessage)
    → (validate_messages rt ms ≡ ok tt) ↔ ((ms ≢ []) × All (IsDeliverable rt) ms)
unfolding validate_messages
validate_messages_iff rt [] = ground arith
validate_messages_iff rt (m ∷ ms) = ground (arith, validate_each_iff rt (m ∷ ms))

normalized_target_type_iff :
    (text : Text) (type : TargetType) → (normalized_target_type text ≡ ok type) ↔ Names type text
unfolding normalized_target_type
normalized_target_type_iff text group = ground arith
normalized_target_type_iff text private = ground arith

validate_target_iff :
    (type : TargetType) (request : OutboxEnqueueRequest)
    → (validate_target type (optional_id request.user_id) (optional_id request.group_id) ≡ ok tt)
      ↔ HasTarget type request
unfolding validate_target optional_id
validate_target_iff group request = ground arith
validate_target_iff private request = ground arith

-- A request passes the checks with a type exactly when it names that type in any case, the target
-- of the type is there, and it has messages each of which can be delivered.
pub prepare_iff :
    (rt : Runtime) (request : OutboxEnqueueRequest) (type : TargetType)
    → (prepare rt request ≡ ok type) ↔ IsAccepted rt type request
unfolding prepare
prepare_iff rt request type = ground (
  arith,
  normalized_target_type_iff request.message_type group,
  normalized_target_type_iff request.message_type private,
  validate_target_iff type request,
  validate_messages_iff rt request.messages,
)

-- A row that waits for its first delivery, with the content of a request.
pub record IsNew (call : Call) (request : OutboxEnqueueRequest) (type : TargetType) (id : ℕ)
    (r : OutboxItem) : Type 0 where
  pub numbered : r.id ≡ id
  pub target_type : r.message_type ≡ type
  pub user : r.user_id ≡ optional_id request.user_id
  pub group : r.group_id ≡ optional_id request.group_id
  pub content : (r.messages ≡ request.messages) × (r.metadata ≡ request.metadata)
  pub waits : (r.status ≡ pending) × (r.next_attempt_at ≡ call.now) × (r.locked_until ≡ none)
  pub untried : (r.attempts ≡ 0) × (r.max_attempts ≡ request.max_attempts) × (r.last_error ≡ none)
  pub unsettled : (r.sent_at ≡ none) × (r.failed_at ≡ none)
  pub dated : (r.created_at ≡ call.now) × (r.updated_at ≡ call.now)

-- Why `enqueue` may fail.
abbrev pub Excused : Runtime → Call → OutboxEnqueueRequest → Type 0
Excused rt call request =
    ((type : TargetType) → ¬ IsAccepted rt type request)
    ⊎ (call.database_url ≡ none)
    ⊎ (call.fault ≢ none)

-- What `enqueue` leaves: nothing new and an error, or one new row at the end, which it returns.
abbrev pub Enqueued :
    Runtime → Call → OutboxEnqueueRequest → Table → Result OutboxItem × Table → Type 0
Enqueued rt call request t outcome =
    ((e : OutboxError) × (outcome ≡ (err e, t)) × Excused rt call request)
    ⊎ ((type : TargetType) × (r : OutboxItem) × IsAccepted rt type request
        × IsNew call request type t.next_id r
        × (outcome ≡ (ok r, record { rows = t.rows ++ (r ∷ []); next_id = t.next_id + 1 })))

requested_row-IsNew :
    (call : Call) (request : OutboxEnqueueRequest) (type : TargetType) (id : ℕ)
    → IsNew call request type id (requested_row request call.now type id)
requested_row-IsNew call request type id = record {
  numbered = refl;
  target_type = refl;
  user = refl;
  group = refl;
  content = (refl, refl);
  waits = (refl, refl, refl);
  untried = (refl, refl, refl);
  unsettled = (refl, refl);
  dated = (refl, refl);
}

refused-Excused :
    (rt : Runtime) (request : OutboxEnqueueRequest) (e : OutboxError)
    → prepare rt request ≡ err e
    → (type : TargetType) → ¬ IsAccepted rt type request
refused-Excused rt request e refused type accepted =
    err-ne-ok e type (sym refused ∙ (prepare_iff rt request type).1 accepted)
  where
    err-ne-ok : (e : OutboxError) (type : TargetType) → ¬ (err e ≡ ok type)
    err-ne-ok e type h = cc

-- `enqueue` either fails and changes nothing, which it does only for a request that is not accepted,
-- without an address, or where the database fails; or it has accepted the request, and adds at the
-- end one row under the next id, which it returns: pending, due at once, without attempts, and with
-- the messages, the metadata, the target and the bound of attempts of the request.
pub enqueue-Enqueued :
    (rt : Runtime) (call : Call) (request : OutboxEnqueueRequest) (t : Table)
    → Enqueued rt call request t (enqueue rt call request t)
unfolding enqueue fetch_all single_row
enqueue-Enqueued rt call request t = elim (Result-cases (prepare rt request)) [
  | inl (e, refused) ↦
      inl (e, rw (refused, enqueue) refl, inl (refused-Excused rt request e refused))
  | inr (type, found) ↦ elim (Option-cases call.database_url) [
    | inl missing ↦ inl (
      configuration (codes "DATABASE_URL is not configured"),
      rw (found, enqueue) (rw (missing, fetch_all)),
      inr (inl missing),
    )
    | inr (url, there) ↦ elim (Option-cases call.fault) [
      | inr (e, broken) ↦ inl (
        e,
        rw (found, enqueue) (rw (there, fetch_all) (rw (broken, fetch_all))),
        inr (inr (λ fine. some-ne-none e (sym broken ∙ fine))),
      )
      | inl fine ↦ inr (
        type,
        requested_row request call.now type t.next_id,
        (prepare_iff rt request type).0 found,
        requested_row-IsNew call request type t.next_id,
        rw (found, enqueue) (rw (there, fetch_all) (rw (fine, fetch_all))),
      )
    ]
  ]
]

-- With a database that answers, an accepted request is stored.
pub enqueue_accepted :
    (rt : Runtime) (call : Call) (request : OutboxEnqueueRequest) (t : Table) (type : TargetType)
    (url : Text)
    → call.database_url ≡ some url
    → call.fault ≡ none
    → IsAccepted rt type request
    → (enqueue rt call request t).0 ≡ ok (requested_row request call.now type t.next_id)
unfolding enqueue fetch_all single_row
enqueue_accepted rt call request t type url there fine h =
    rw ((prepare_iff rt request type).1 h, enqueue) (rw (there, fetch_all) (rw (fine, fetch_all)))
