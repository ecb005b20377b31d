-- ===== src/Services/Outbox/Invariant.antt =====
-- What holds of every item in every state of the outbox.
use test_bot.Base.{Bool, contains, false, list_eq, nat_eq, ◌++◌, ◌+◌, ◌⊎◌}
use mathlib.Core.Path.{subst}
use test_bot.Base.{List, Option-cases, inl, inr, refl, ◌∷◌}
use test_bot.Value.{Ident, Runtime}
use test_bot.Schemas.{BrainMessage, OutboxEnqueueRequest}
use test_bot.Base.{All, Option, [], arith, none, some, true, ℕ, ◌<◌, ◌↔◌, ◌≡◌, ◌≢◌, ◌≤◌}
use test_bot.Text.{Text}
use test_bot.Services.Outbox.{
  OutboxItem, Table, Call, OutboxError, insert_statement, requested_row, processing, sent, failed,
  Result, ok, err, TargetType, group, private, fetch_all, update_rows, enqueue, prepare, new_row,
  pull, picked, is_due, lease, ack, can_ack, acked, fail, can_fail, failed_row, trim_error,
  optional_id, validate_target, validate_messages, normalized_target_type, ids, ◌>>=◌,
}
use test_bot.Services.Outbox.Rows.{
  In, NodupIds, NodupIds-update_rows, All-update_rows, NodupIds-append, All-append,
}
use test_bot.Services.Outbox.Pick.{picked-IsDue}
use test_bot.Services.Outbox.Run.{
  Event, enqueued, pulled, acked_item, failed_item, step, run, empty_table,
}

-- The target that the type of the message asks for is there.
abbrev pub IsAddressed : TargetType → Option Text → Option Text → Type 0
IsAddressed group user_id group_id = (g : Text) × (group_id ≡ some g) × (g ≢ [])
IsAddressed private user_id group_id = (u : Text) × (user_id ≡ some u) × (u ≢ [])

pub record IsValidItem (r : OutboxItem) : Type 0 where
  pub room : r.attempts ≤ r.max_attempts
  pub exhausted : (r.status ≡ failed) ↔ (r.attempts ≡ r.max_attempts)
  pub leased : (r.status ≡ processing) ↔ (r.locked_until ≢ none)
  pub delivered : (r.status ≡ sent) ↔ (r.sent_at ≢ none)
  pub given_up : (r.status ≡ failed) ↔ (r.failed_at ≢ none)
  pub addressed : IsAddressed r.message_type r.user_id r.group_id
  pub filled : r.messages ≢ []

pub record IsValid (t : Table) : Type 0 where
  pub unique : NodupIds t.rows
  pub fresh : All (λ r. r.id < t.next_id) t.rows
  pub items : All IsValidItem t.rows

failed_row-id : (now : ℕ) (error : Text) (r : OutboxItem) → (failed_row now error r).id ≡ r.id
unfolding failed_row
failed_row-id now error r = refl

lease-IsValidItem :
    (now lease_seconds : ℕ) (r : OutboxItem)
    → is_due now r ≡ true
    → IsValidItem r
    → IsValidItem (lease now lease_seconds r)
unfolding is_due
lease-IsValidItem now lease_seconds r due v = record {
  room = v.room;
  exhausted = ground (arith, v.exhausted);
  leased = ground arith;
  delivered = ground (arith, v.delivered);
  given_up = ground (arith, v.given_up, v.exhausted);
  addressed = v.addressed;
  filled = v.filled;
}

acked-IsValidItem :
    (item_id now : ℕ) (r : OutboxItem)
    → can_ack item_id r ≡ true
    → IsValidItem r
    → IsValidItem (acked now r)
unfolding can_ack
acked-IsValidItem item_id now r can v = record {
  room = v.room;
  exhausted = ground (arith, v.exhausted);
  leased = ground arith;
  delivered = ground arith;
  given_up = ground (arith, v.given_up);
  addressed = v.addressed;
  filled = v.filled;
}

failed_row-IsValidItem :
    (item_id now : ℕ) (error : Text) (r : OutboxItem)
    → can_fail item_id r ≡ true
    → IsValidItem r
    → IsValidItem (failed_row now error r)
unfolding can_fail failed_row
failed_row-IsValidItem item_id now error r can v = record {
  room = ground arith;
  exhausted = ground arith;
  leased = ground arith;
  delivered = ground (arith, v.delivered);
  given_up = ground (arith, v.given_up);
  addressed = v.addressed;
  filled = v.filled;
}

module _ {ℓ κ} {A : Type ℓ} {B : Type κ} where
  bind_parts :
      {value : B} (next : A → Result B) (checks : Result A) (e : checks >>= next ≡ ok value)
      → (passed : A) × (checks ≡ ok passed) × (next passed ≡ ok value)
  bind_parts next (err reason) e = cc
  bind_parts next (ok passed) e = (passed, refl, e)

pub Result-cases {ℓ} :
    {A : Type ℓ} (m : Result A) → ((e : OutboxError) × (m ≡ err e)) ⊎ ((a : A) × (m ≡ ok a))
Result-cases (err e) = inl (e, refl)
Result-cases (ok a) = inr (a, refl)

optional_id_full : (id : Option Ident) (text : Text) → optional_id id ≡ some text → text ≢ []
unfolding optional_id
optional_id_full id text h = ground arith

validate_target-IsAddressed :
    (type : TargetType) (user_id group_id : Option Ident)
    → validate_target type (optional_id user_id) (optional_id group_id) ≡ ok tt
    → IsAddressed type (optional_id user_id) (optional_id group_id)
unfolding validate_target
validate_target-IsAddressed group user_id group_id h = elim (Option-cases (optional_id group_id)) [
  | inl missing ↦ absurd (ground arith)
  | inr (g, found) ↦ (g, found, optional_id_full group_id g found)
]
validate_target-IsAddressed private user_id group_id h = elim (Option-cases (optional_id user_id)) [
  | inl missing ↦ absurd (ground arith)
  | inr (u, found) ↦ (u, found, optional_id_full user_id u found)
]

validate_messages_full :
    (rt : Runtime) (messages : List BrainMessage)
    → validate_messages rt messages ≡ ok tt
    → messages ≢ []
unfolding validate_messages
validate_messages_full rt [] h = cc
validate_messages_full rt (m ∷ ms) h = λ e. cc

new_row-IsValidItem :
    (id now : ℕ) (type : TargetType) (user_id group_id : Option Text)
    (request : OutboxEnqueueRequest)
    → 0 < request.max_attempts
    → IsAddressed type user_id group_id
    → request.messages ≢ []
    → IsValidItem (new_row id now type user_id group_id request)
new_row-IsValidItem id now type user_id group_id request h addressed filled = record {
  room = omega arith;
  exhausted = ground arith;
  leased = ground arith;
  delivered = ground arith;
  given_up = ground arith;
  addressed = addressed;
  filled = filled;
}

prepare-IsValidItem :
    (rt : Runtime) (request : OutboxEnqueueRequest) (id now : ℕ) (type : TargetType)
    → 0 < request.max_attempts
    → prepare rt request ≡ ok type
    → IsValidItem (requested_row request now type id)
unfolding prepare
prepare-IsValidItem rt request id now type h e =
    let u = optional_id request.user_id in
    let g = optional_id request.group_id in
    let (type', _, checks) = bind_parts _ (normalized_target_type request.message_type) e in
    let (_, target, check) = bind_parts _ (validate_target type' u g) checks in
    let (_, filled, done) = bind_parts _ (validate_messages rt request.messages) check in
    let same : type' ≡ type = cc in
    new_row-IsValidItem id now type u g request h
      (subst (λ k. IsAddressed k u g) same
        (validate_target-IsAddressed type' request.user_id request.group_id target))
      (validate_messages_full rt request.messages filled)

-- A statement leaves a valid table valid, if each row that it selects stays valid under it.
update-IsValid :
    (p : OutboxItem → Bool) (f : OutboxItem → OutboxItem) (t : Table)
    → ((r : OutboxItem) → (f r).id ≡ r.id)
    → ((r : OutboxItem) → In r t.rows → p r ≡ true → IsValidItem r → IsValidItem (f r))
    → IsValid t
    → IsValid (record t { rows = update_rows p f t.rows })
update-IsValid p f t same keeps v = record {
  unique = NodupIds-update_rows p f t.rows same v.unique;
  fresh = All-update_rows (λ r. r.id < t.next_id) p f t.rows (λ r m c h. rw (same r) h) v.fresh;
  items = All-update_rows IsValidItem p f t.rows keeps v.items;
}

fresh_id :
    (n : ℕ) (rows : List OutboxItem) → All (λ r. r.id < n) rows → contains (ids rows) n ≡ false
fresh_id n [] h = refl
fresh_id n (r ∷ rs) (h, hs) = ground (arith, fresh_id n rs hs)

lt-suc : (n : ℕ) (rows : List OutboxItem) → All (λ r. r.id < n) rows → All (λ r. r.id < n + 1) rows
lt-suc n [] h = tt
lt-suc n (r ∷ rs) (h, hs) = (omega arith, lt-suc n rs hs)

insert-IsValid :
    (t : Table) (row : ℕ → OutboxItem)
    → (row t.next_id).id ≡ t.next_id
    → IsValidItem (row t.next_id)
    → IsValid t
    → IsValid (record { rows = t.rows ++ (row t.next_id ∷ []); next_id = t.next_id + 1 })
insert-IsValid t row e h v = record {
  unique =
      NodupIds-append t.rows (row t.next_id) v.unique (rw e (fresh_id t.next_id t.rows v.fresh));
  fresh =
      All-append (λ r. r.id < t.next_id + 1) t.rows (row t.next_id)
        (lt-suc t.next_id t.rows v.fresh) (omega (arith, e));
  items = All-append IsValidItem t.rows (row t.next_id) v.items h;
}

-- A statement that fails, or that cannot be sent, changes nothing.
fetch_all-IsValid :
    (call : Call) (statement : Table → List OutboxItem × Table) (t : Table)
    → IsValid t
    → IsValid (statement t).1
    → IsValid (fetch_all call statement t).1
unfolding fetch_all
fetch_all-IsValid call statement t v w = elim (Option-cases call.database_url) [
  | inl missing ↦ rw missing v
  | inr (url, there) ↦ elim (Option-cases call.fault) [
    | inl fine ↦ rw (there, fine) w
    | inr (e, broken) ↦ rw (there, broken) v
  ]
]

-- The bounds that pydantic puts on the requests (brain-python/schemas.py).
abbrev pub IsAdmissible : Event → Type 0
IsAdmissible (enqueued request) = 0 < request.max_attempts
IsAdmissible _ = Unit

enqueue-IsValid :
    (rt : Runtime) (call : Call) (request : OutboxEnqueueRequest) (t : Table)
    → 0 < request.max_attempts
    → IsValid t
    → IsValid (enqueue rt call request t).1
unfolding enqueue
enqueue-IsValid rt call request t h v = elim (Result-cases (prepare rt request)) [
  | inl (e, refused) ↦ rw (refused, enqueue) v
  | inr (type, found) ↦
      rw (found, enqueue)
        (fetch_all-IsValid call (insert_statement (requested_row request call.now type)) t v (
          insert-IsValid t (requested_row request call.now type) refl
            (prepare-IsValidItem rt request t.next_id call.now type h found) v))
]

pub step-IsValid :
    (rt : Runtime) (call : Call) (event : Event) (t : Table)
    → IsAdmissible event
    → IsValid t
    → IsValid (step rt call event t)
unfolding step pull ack fail
step-IsValid rt call (enqueued request) t h v = enqueue-IsValid rt call request t h v
step-IsValid rt call (pulled held limit lease_seconds) t h v = fetch_all-IsValid call _ t v (
    update-IsValid (λ r. contains (ids (picked call.now held limit t.rows)) r.id)
      (lease call.now lease_seconds) t (λ r. refl)
      (λ r m c w.
        lease-IsValidItem call.now lease_seconds r
          (picked-IsDue call.now held limit t.rows r v.unique m c).0 w)
      v)
step-IsValid rt call (acked_item item_id) t h v = fetch_all-IsValid call _ t v (
    update-IsValid (can_ack item_id) (acked call.now) t (λ r. refl)
      (λ r m c w. acked-IsValidItem item_id call.now r c w) v)
step-IsValid rt call (failed_item item_id error) t h v =
    let f = failed_row call.now (trim_error error) in
    fetch_all-IsValid call _ t v (
      update-IsValid (can_fail item_id) f t (failed_row-id call.now (trim_error error))
        (λ r m c w. failed_row-IsValidItem item_id call.now (trim_error error) r c w) v)

-- Calls in any order, at any times and with any failures of the database, whose requests have the
-- bounds that the schemas ask for, lead from a valid table to a valid one: ids are distinct and
-- below the next id, and each item is consistent. Its attempts stay within the bound, and reach it
-- exactly if it has failed; it has a lease exactly while it is processed, a time of delivery
-- exactly if it is sent and a time of failure exactly if it has failed; it has messages and the
-- target that its type asks for.
pub run-IsValid :
    (rt : Runtime) (events : List (Call × Event)) (t : Table)
    → All (λ e. IsAdmissible e.1) events
    → IsValid t
    → IsValid (run rt events t)
unfolding run
run-IsValid rt [] t h v = v
run-IsValid rt ((call, event) ∷ events) t (h, hs) v =
    run-IsValid rt events (step rt call event t) hs (step-IsValid rt call event t h v)

pub IsValid-empty_table : IsValid empty_table
IsValid-empty_table = record { unique = tt; fresh = tt; items = tt }
