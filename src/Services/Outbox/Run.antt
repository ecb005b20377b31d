-- ===== src/Services/Outbox/Run.antt =====
-- Sequences of calls on one store.
use test_bot.Base.{List, [], ℕ, ◌∷◌}
use test_bot.Text.{Text}
use test_bot.Value.{Runtime}
use test_bot.Schemas.{OutboxEnqueueRequest}
use test_bot.Services.Outbox.{Table, Call, enqueue, pull, ack, fail}

-- The four routes of brain-python/main.py on the outbox, with their arguments.
pub data Event : Type 0 where
  enqueued : OutboxEnqueueRequest → Event
  pulled : (held : List ℕ) (limit lease_seconds : ℕ) → Event
  acked_item : (item_id : ℕ) → Event
  failed_item : (item_id : ℕ) (error : Text) → Event

-- The table after one call, also one that raises.
unfoldable pub step : Runtime → Call → Event → Table → Table
step rt call (enqueued request) t = (enqueue rt call request t).1
step rt call (pulled held limit lease_seconds) t = (pull call held limit lease_seconds t).1
step rt call (acked_item item_id) t = (ack call item_id t).1
step rt call (failed_item item_id error) t = (fail call item_id error t).1

unfoldable pub run : Runtime → List (Call × Event) → Table → Table
run rt [] t = t
run rt ((call, event) ∷ events) t = run rt events (step rt call event t)

abbrev pub empty_table : Table
empty_table = record { rows = []; next_id = 1 }
