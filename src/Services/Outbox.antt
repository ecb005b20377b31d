-- ===== src/Services/Outbox.antt =====
-- brain-python/services/outbox.py: the store of messages that wait for delivery. The SQL statements
-- are functions on the rows of `message_outbox` (database/migrations/000003_message_outbox.up.sql).
mod Request
pub mod Rows
pub mod Pick
pub mod Run
pub mod Invariant
pub mod Lease
pub mod Enqueue
pub mod Retry
pub mod Queue
pub mod Refines
pub mod Drain
pub mod Delivery
pub mod Worker
unfoldable pub use Request.*
use test_bot.Value.{Fields}
use test_bot.Base.{
  Bool, List, Option, [], contains, false, if◌then◌else◌, keep, leb, list_eq, ltb, nat_eq, none,
  not, some, take, true, ℕ, ◌&&◌, ◌*◌, ◌++◌, ◌+◌, ◌==◌, ◌||◌, ◌∷◌,
}
use test_bot.Text.{Text, codes}
use test_bot.Value.{Runtime}
use test_bot.Schemas.{BrainMessage, OutboxEnqueueRequest}
use test_bot.Base.Dict.{or_else}

pub data Status : Type 0 where
  pending processing sent failed : Status

-- A row, and the item that `_row_to_item` returns. Times are in microseconds.
pub record OutboxItem : Type 0 where
  pub id : ℕ
  pub message_type : TargetType
  pub user_id : Option Text
  pub group_id : Option Text
  pub messages : List BrainMessage
  pub metadata : Fields
  pub status : Status
  pub attempts : ℕ
  pub max_attempts : ℕ
  pub last_error : Option Text
  pub next_attempt_at : ℕ
  pub locked_until : Option ℕ
  pub sent_at : Option ℕ
  pub failed_at : Option ℕ
  pub created_at : ℕ
  pub updated_at : ℕ

-- The rows and the sequence of the ids.
pub record Table : Type 0 where
  pub rows : List OutboxItem
  pub next_id : ℕ

-- What surrounds one call: the configured address (`none` if it is empty), the error that the
-- connection or the statement raises, if any, and the time of the transaction, `now()`.
pub record Call : Type 0 where
  pub database_url : Option Text
  pub fault : Option OutboxError
  pub now : ℕ

abbrev pub Outcome : Type 0 → Type 0
Outcome A = Result A × Table

-- `_fetch_all`: a statement changes the table and returns rows; a failed one changes nothing.
unfoldable pub fetch_all :
    Call → (Table → List OutboxItem × Table) → Table → Outcome (List OutboxItem)
fetch_all call statement t = elim call.database_url [
  | none ↦ (err (configuration (codes "DATABASE_URL is not configured")), t)
  | some _ ↦ elim call.fault [ some e ↦ (err e, t) | none ↦ (ok (statement t).0, (statement t).1) ]
]

-- `_single_row`
unfoldable pub single_row : Text → Result (List OutboxItem) → Result OutboxItem
single_row operation (err e) = err e
single_row operation (ok []) = err (not_found (codes "outbox item not found for " ++ operation))
single_row operation (ok (row ∷ rows)) = ok row

-- `UPDATE ... SET f WHERE p`, and its `RETURNING *`.
unfoldable pub update_rows :
    (OutboxItem → Bool) → (OutboxItem → OutboxItem) → List OutboxItem → List OutboxItem
update_rows p f [] = []
update_rows p f (r ∷ rs) = (if p r then f r else r) ∷ update_rows p f rs

unfoldable pub returning :
    (OutboxItem → Bool) → (OutboxItem → OutboxItem) → List OutboxItem → List OutboxItem
returning p f [] = []
returning p f (r ∷ rs) = let rest = returning p f rs in if p r then f r ∷ rest else rest

abbrev pub update_statement :
    (OutboxItem → Bool) → (OutboxItem → OutboxItem) → Table → List OutboxItem × Table
update_statement p f t = (returning p f t.rows, record t { rows = update_rows p f t.rows })

-- The row that `enqueue` inserts, with the defaults of the table.
abbrev pub new_row :
    ℕ → ℕ → TargetType → Option Text → Option Text → OutboxEnqueueRequest → OutboxItem
new_row id now message_type user_id group_id request = record {
  id = id;
  message_type = message_type;
  user_id = user_id;
  group_id = group_id;
  messages = request.messages;
  metadata = request.metadata;
  status = pending;
  attempts = 0;
  max_attempts = request.max_attempts;
  last_error = none;
  next_attempt_at = now;
  locked_until = none;
  sent_at = none;
  failed_at = none;
  created_at = now;
  updated_at = now;
}

abbrev insert_statement : (ℕ → OutboxItem) → Table → List OutboxItem × Table
insert_statement row t =
    (row t.next_id ∷ [], record { rows = t.rows ++ (row t.next_id ∷ []); next_id = t.next_id + 1 })

-- The checks of `enqueue`; the result is the normalized type.
unfoldable pub prepare : Runtime → OutboxEnqueueRequest → Result TargetType
prepare rt request = do
  message_type ← normalized_target_type request.message_type
  validate_target message_type (optional_id request.user_id) (optional_id request.group_id)
  validate_messages rt request.messages
  ok message_type

abbrev pub requested_row : OutboxEnqueueRequest → ℕ → TargetType → ℕ → OutboxItem
requested_row request now message_type id =
    new_row id now message_type (optional_id request.user_id) (optional_id request.group_id) request

unfoldable pub enqueue : Runtime → Call → OutboxEnqueueRequest → Table → Outcome OutboxItem
enqueue rt call request t = elim (prepare rt request) [
  | err e ↦ (err e, t)
  | ok message_type ↦
      let statement = insert_statement (requested_row request call.now message_type) in
      let (rows, t') = fetch_all call statement t in (single_row (codes "enqueue") rows, t')
]

-- The `WHERE` of the inner `SELECT` of `pull`.
unfoldable pub is_due : ℕ → OutboxItem → Bool
is_due now r = ltb r.attempts r.max_attempts && elim r.status [
  | pending ↦ leb r.next_attempt_at now
  | processing ↦ elim r.locked_until [ none ↦ true | some until ↦ leb until now ]
  | sent ↦ false
  | failed ↦ false
]

-- `ORDER BY created_at, id`
unfoldable pub before : OutboxItem → OutboxItem → Bool
before r s = ltb r.created_at s.created_at || (r.created_at == s.created_at && leb r.id s.id)

unfoldable pub insert_by_age : OutboxItem → List OutboxItem → List OutboxItem
insert_by_age r [] = r ∷ []
insert_by_age r (s ∷ ss) = if before r s then r ∷ (s ∷ ss) else s ∷ insert_by_age r ss

unfoldable pub sort_by_age : List OutboxItem → List OutboxItem
sort_by_age [] = []
sort_by_age (r ∷ rs) = insert_by_age r (sort_by_age rs)

abbrev pub ids : List OutboxItem → List ℕ
ids [] = []
ids (r ∷ rs) = r.id ∷ ids rs

-- The rows that `picked` selects: those that are due and that no other transaction holds
-- (`FOR UPDATE SKIP LOCKED`), the oldest first, `limit` of them at most.
unfoldable pub picked : ℕ → List ℕ → ℕ → List OutboxItem → List OutboxItem
picked now held limit rows =
    take limit (sort_by_age (keep (λ r. is_due now r && not (contains held r.id)) rows))

abbrev pub second : ℕ
second = 1000000

abbrev pub lease : ℕ → ℕ → OutboxItem → OutboxItem
lease now lease_seconds r = record r {
  status = processing;
  locked_until = some (now + lease_seconds * second);
  updated_at = now;
}

unfoldable pub pull : Call → List ℕ → ℕ → ℕ → Table → Outcome (List OutboxItem)
pull call held limit lease_seconds t =
    let chosen = ids (picked call.now held limit t.rows) in
    fetch_all call (update_statement (λ r. contains chosen r.id) (lease call.now lease_seconds)) t

-- The `WHERE` of `ack`.
unfoldable pub can_ack : ℕ → OutboxItem → Bool
can_ack item_id r = r.id == item_id && elim r.status [ failed ↦ false | _ ↦ true ]

abbrev pub acked : ℕ → OutboxItem → OutboxItem
acked now r = record r {
  status = sent;
  locked_until = none;
  sent_at = or_else r.sent_at (some now);
  updated_at = now;
}

unfoldable pub ack : Call → ℕ → Table → Outcome OutboxItem
ack call item_id t =
    let (rows, t') = fetch_all call (update_statement (can_ack item_id) (acked call.now)) t in
    (single_row (codes "ack") rows, t')

-- The `WHERE` of `fail`.
unfoldable pub can_fail : ℕ → OutboxItem → Bool
can_fail item_id r =
    r.id == item_id
    && (elim r.status [ pending ↦ true | processing ↦ true | sent ↦ false | failed ↦ false ]
        && ltb r.attempts r.max_attempts)

unfoldable pub failed_row : ℕ → Text → OutboxItem → OutboxItem
failed_row now error r =
    let last = leb r.max_attempts (r.attempts + 1) in
    record r {
      attempts = r.attempts + 1;
      status = if last then failed else pending;
      locked_until = none;
      last_error = some error;
      next_attempt_at = now;
      failed_at = if last then or_else r.failed_at (some now) else r.failed_at;
      updated_at = now;
    }

unfoldable pub fail : Call → ℕ → Text → Table → Outcome OutboxItem
fail call item_id error t =
    let (rows, t') =
      fetch_all call (update_statement (can_fail item_id) (failed_row call.now (trim_error error)))
        t in
    (single_row (codes "fail") rows, t')
