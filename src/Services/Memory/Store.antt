-- ===== src/Services/Memory/Store.antt =====
-- brain-python/services/memory.py: the tables of the memory store, its statements in sequence, and the runs of the extraction
-- (database/migrations/000004_memory.up.sql).
use test_bot.Services.Extractor.Ask.{ExtractionJob}
use test_bot.Services.Outbox.Run.{run}
use test_bot.Base.{
  Bool, List, Option, [], false, if◌then◌else◌, is_empty, keep, length, list_eq, map, nat_eq, none,
  not, some, take, true, ℕ, ◌++◌, ◌+◌, ◌==◌, ◌∷◌,
}
use test_bot.Text.{Text, codes}
use test_bot.Value.{Fields, Float, end, field}
use test_bot.Base.Dict.{Dict, insert, lookup}
use test_bot.Base.Int.{pos}
use test_bot.Floats.{add, float_of_int}
use test_bot.Services.Memory.{MemoryRow, put_field, update_where}
use test_bot.Services.Extractor.{Attempt, GroupMessage}
use test_bot.Services.Embedding.{Vector}
use test_bot.Services.Ai.{last_items}
use test_bot.Services.Memory.Score.{age_days, decay_score_for}
use test_bot.Services.Memory.Ageing.{Fate}
use test_bot.Services.Memory.Errors.{MemoryError, other, memory_configuration, memory_error}
use test_bot.Services.Memory.Ageing.{
  sort_by_age, Clock, as_record, aged_row, fate, goes_stale, is_archived, lives, can_decay,
}
use test_bot.Base.Result.{raise, return}

pub data RunStatus : Type 0 where
  running succeeded failed : RunStatus

-- A row of `memory_runs`.
pub record MemoryRun : Type 0 where
  pub id : ℕ
  pub conversation_id : ℕ
  pub group_id : Text
  pub status : RunStatus
  pub model : Text
  pub input_message_ids : List ℕ
  pub output_memory_ids : List ℕ
  pub error : Option Text
  pub metadata : Fields
  pub finished_at : Option ℕ

-- A row of `memory_embeddings`: a memory has one for each model at most.
pub record MemoryEmbedding : Type 0 where
  pub memory_id : ℕ
  pub embedding_model : Text
  pub embedding : Vector
  pub content_hash : Text
  pub updated_at : ℕ

-- The tables. A group has one setting (`UNIQUE (scope, group_id)`); the messages of a group stand in the order of
-- their times.
pub record Memories : Type 0 where
  pub rows : List MemoryRow
  pub next_id : ℕ
  pub runs : List MemoryRun
  pub next_run : ℕ
  pub settings : Dict Text Bool
  pub messages : Text → List GroupMessage
  pub embeddings : List MemoryEmbedding

-- How a statement can fail: `psycopg.errors.UndefinedTable`, or another `psycopg.Error` with its text.
pub data Fault : Type 0 where
  undefined_table : Fault
  database_error : Text → Fault

-- The tables, the configured address (`none` if it is empty), the time, and what the
-- next statements raise, if anything; those behind the end of the list raise nothing.
pub record World : Type 0 where
  pub tables : Memories
  pub database_url : Option Text
  pub clock : Clock
  pub faults : List (Option Fault)
  -- The background threads that were started.
  pub jobs : List ExtractionJob
  -- The text with which a `CHECK` of the tables refuses a row.
  pub violation : Text

abbrev pub Action {ℓ} : Type ℓ → Type ℓ
Action A = World → Attempt A × World

abbrev pub done {ℓ} : {A : Type ℓ} → A → Action A
done a w = (return a, w)

abbrev pub throw {ℓ} : {A : Type ℓ} → MemoryError → Action A
throw e w = (raise e, w)

abbrev pub after {ℓ κ} :
    {A : Type ℓ} {B : Type κ} → Attempt A × World → (A → Action B) → Attempt B × World
after (raise e, w) next = (raise e, w)
after (return a, w) next = next a w

infixl 5 ◌>>=◌
abbrev pub ◌>>=◌ {ℓ κ} : {A : Type ℓ} {B : Type κ} → Action A → (A → Action B) → Action B
(act >>= next) w = after (act w) next

abbrev database_failure : Text → MemoryError
database_failure text = memory_error (codes "memory database error: " ++ text)

abbrev pub error_of : Fault → MemoryError
error_of undefined_table =
    memory_configuration (codes "memory tables are missing; run database migrations")
error_of (database_error text) = database_failure text

-- The tables after a statement that succeeds, and the refusal of one that breaks a `CHECK`.
abbrev pub settle {ℓ} : {A : Type ℓ} → Option (A × Memories) → World → Attempt A × World
settle none w = (raise (database_failure w.violation), w)
settle (some (a, tables)) w = (return a, record w { tables = tables })

abbrev pub run_statement {ℓ} :
    {A : Type ℓ} → List (Option Fault) → (Memories → Option (A × Memories)) → Action A
run_statement [] change w = settle (change w.tables) w
run_statement (none ∷ faults) change w = settle (change w.tables) (record w { faults = faults })
run_statement (some fault ∷ faults) change w =
    (raise (error_of fault), record w { faults = faults })

abbrev pub not_configured : MemoryError
not_configured = memory_configuration (codes "DATABASE_URL is not configured")

abbrev pub sent_to {ℓ} : {A : Type ℓ} → Option Text → (Memories → Option (A × Memories)) → Action A
sent_to none change w = (raise not_configured, w)
sent_to (some url) change w = run_statement w.faults change w

-- `_fetch_all` of a statement, which gives `none` for a row that a `CHECK` refuses.
unfoldable pub checked_statement {ℓ} : {A : Type ℓ} → (Memories → Option (A × Memories)) → Action A
checked_statement change w = sent_to w.database_url change w

abbrev pub statement {ℓ} : {A : Type ℓ} → (Memories → A × Memories) → Action A
statement change = checked_statement (λ tables. some (change tables))

-- A statement that only reads.
abbrev pub query {ℓ} : {A : Type ℓ} → (Memories → A) → Action A
query look = statement (λ tables. (look tables, tables))

-- A statement on `memory_items`.
abbrev pub on_rows {ℓ} : {A : Type ℓ} → (List MemoryRow → A × List MemoryRow) → Action A
on_rows change =
    statement (λ tables. let (a, rows) = change tables.rows in (a, record tables { rows = rows }))

-- The setting of a group, which is on where there is none.
abbrev pub setting_of : Text → Memories → Bool
setting_of group_id tables = elim (lookup group_id tables.settings) [ none ↦ true | some b ↦ b ]

-- `group_memory_enabled`, with the configured address.
abbrev pub enabled_at : Option Text → Text → Action Bool
enabled_at none group_id = done true
enabled_at (some url) group_id =
    if is_empty group_id then done true else query (setting_of group_id)

-- `group_memory_enabled`
unfoldable pub group_memory_enabled : Text → Action Bool
unfolding checked_statement lookup list_eq nat_eq
group_memory_enabled group_id w = enabled_at w.database_url group_id w

-- `set_group_memory_enabled`
unfoldable pub set_group_memory_enabled : Text → Bool → Action (Unit {0})
unfolding checked_statement insert list_eq nat_eq
set_group_memory_enabled group_id enabled =
    statement (λ tables. (tt, record tables { settings = insert group_id enabled tables.settings }))

-- `recent_group_messages_for_extraction`, of the messages whose text is not empty.
abbrev has_text : GroupMessage → Bool
has_text m = elim m.text [ none ↦ false | some t ↦ not (is_empty t) ]

unfoldable pub recent_group_messages_for_extraction : Text → ℕ → Action (List GroupMessage)
unfolding checked_statement
recent_group_messages_for_extraction group_id limit =
    query (λ tables. last_items limit (keep has_text (tables.messages group_id)))

abbrev pub new_run : ℕ → Text → ℕ → List ℕ → Text → Fields → MemoryRun
new_run id group_id conversation_id input_message_ids model metadata = record {
  id = id;
  conversation_id = conversation_id;
  group_id = group_id;
  status = running;
  model = model;
  input_message_ids = input_message_ids;
  output_memory_ids = [];
  error = none;
  metadata = metadata;
  finished_at = none;
}

-- The `INSERT` of a run.
abbrev pub opening : (ℕ → MemoryRun) → Memories → ℕ × Memories
opening run tables = (
  tables.next_run,
  record tables {
    runs = tables.runs ++ (run tables.next_run ∷ []);
    next_run = tables.next_run + 1;
  },
)

-- `create_memory_run`
unfoldable pub create_memory_run : Text → ℕ → List ℕ → Text → Fields → Action ℕ
unfolding checked_statement
create_memory_run group_id conversation_id input_message_ids model metadata =
    statement (opening (λ id. new_run id group_id conversation_id input_message_ids model metadata))

-- `metadata || fields`
unfoldable pub put_fields : Fields → Fields → Fields
unfolding put_field
put_fields fields end = fields
put_fields fields (field k v more) = put_fields (put_field k v fields) more

unfoldable pub finished_run : ℕ → RunStatus → List ℕ → Text → Fields → MemoryRun → MemoryRun
unfolding put_fields
finished_run now status output_memory_ids error metadata r = record r {
  status = status;
  finished_at = some now;
  output_memory_ids = output_memory_ids;
  error = if is_empty error then none else some error;
  metadata = put_fields r.metadata metadata;
}

abbrev pub update_runs : ℕ → (MemoryRun → MemoryRun) → List MemoryRun → List MemoryRun
update_runs run_id f = map (λ r. if r.id == run_id then f r else r)

-- `finish_memory_run`
unfoldable pub finish_memory_run : ℕ → RunStatus → List ℕ → Text → Fields → Action (Unit {0})
unfolding checked_statement finished_run
finish_memory_run run_id status output_memory_ids error metadata w =
    statement
      (λ tables. (
        tt,
        record tables {
          runs =
              update_runs run_id (finished_run w.clock.now status output_memory_ids error metadata)
                tables.runs;
        },
      ))
      w

-- The results of `apply_decay`.
pub record Decayed : Type 0 where
  pub scanned : ℕ
  pub stale : ℕ
  pub archived : ℕ

abbrev pub counted : Fate → Decayed → Decayed
counted lives d = d
counted goes_stale d = record d { stale = d.stale + 1 }
counted is_archived d = record d { archived = d.archived + 1 }

-- The loop of `apply_decay`; too many days for a double are an `OverflowError`.
unfoldable pub decay_each : Float → List MemoryRow → Decayed → Action Decayed
unfolding checked_statement update_where aged_row fate as_record decay_score_for age_days add
decay_each days [] result w = (return result, w)
decay_each days (r ∷ rs) result w =
    let old = as_record r in
    let age = add (age_days r.last_seen_at w.clock.now) days in
    let decay = decay_score_for old.memory_class age in
    let ends = fate old.lifecycle_status age decay in
    let aged = update_where (λ s. s.id == r.id) (aged_row w.clock.now old decay ends) in
    after (on_rows {A = Unit {0}} (λ rows. (tt, aged rows)) w)
      (λ wrote. decay_each days rs (counted ends result))

-- The rows that `apply_decay` selects.
unfoldable pub scanned_rows : Text → Memories → List MemoryRow
unfolding can_decay sort_by_age
scanned_rows group_id tables = take 500 (sort_by_age (keep (can_decay group_id) tables.rows))

-- The loop for a number of days as a double, which may be too large for one.
abbrev pub decay_by : Option Float → List MemoryRow → Action Decayed
decay_by none rows =
    throw (other (codes "OverflowError") (codes "int too large to convert to float"))
decay_by (some days) rows =
    decay_each days rows (record { scanned = length rows; stale = 0; archived = 0 })

-- `apply_decay` behind the selection.
unfoldable pub decay_rows : ℕ → List MemoryRow → Action Decayed
unfolding decay_each float_of_int
decay_rows days [] = done (record { scanned = 0; stale = 0; archived = 0 })
decay_rows days (r ∷ rs) = decay_by (float_of_int (pos days)) (r ∷ rs)

-- `apply_decay`
unfoldable pub apply_decay : Text → ℕ → Action Decayed
unfolding checked_statement scanned_rows decay_rows
apply_decay group_id days w = after (query (scanned_rows group_id) w) (decay_rows days)
