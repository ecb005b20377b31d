-- ===== src/Tests/Outbox.antt =====
-- brain-python/services/outbox.py at concrete inputs.
use test_bot.Base.{if◌then◌else◌, keep}
use test_bot.Services.Outbox.{acked}
use test_bot.Services.Outbox.Drain.{drain}
use test_bot.Services.Outbox.Worker.{drain-delivers}
use test_bot.Base.{◌++◌}
use test_bot.Base.{All, arith, contains, false, inl, inr, length, true, ◌↔◌, ◌≤◌}
use test_bot.Text.{is_space, lower, strip_by}
use test_bot.Value.{string_id}
use test_bot.Base.{List, [], list_eq, nat_eq, none, refl, some, ℕ, ◌∷◌, ◌≡◌}
use test_bot.Text.{codes}
use test_bot.Value.{end, int_id}
use test_bot.Schemas.{OutboxEnqueueRequest, text_message}
use test_bot.Base.Int.{pos}
use test_bot.Tests.Sample.{runtime}
use test_bot.Services.Outbox.{
  can_ack, OutboxItem, Table, Call, ok, group, pending, processing, sent, failed, enqueue, prepare,
  pull, ack, fetch_all, picked, is_due, ids, update_rows, normalized_target_type, validate_target,
  optional_id, validate_messages, validate_message, message_text, sort_by_age, insert_by_age,
  before,
}
use test_bot.Services.Outbox.Run.{Event, enqueued, pulled, acked_item, step, run, empty_table}
use test_bot.Services.Outbox.Invariant.{IsValid, run-IsValid, step-IsValid, IsValid-empty_table}
use test_bot.Services.Outbox.Pick.{picked_oldest, OldestFirst, Older}
use test_bot.Services.Outbox.Lease.{deliveries, run-keeps_leased, run-settled, SameEnd}
use test_bot.Services.Outbox.Enqueue.{IsAccepted, Enqueued, prepare_iff, enqueue-Enqueued}
use test_bot.Services.Outbox.Retry.{failures, run-failures}
use test_bot.Services.Outbox.Queue.{Runs}
use test_bot.Services.Outbox.Refines.{jobs_of, run-Runs}
use test_bot.Services.Outbox.Rows.{In}

abbrev at : ℕ → Call
at time = record { database_url = some (codes "postgres://"); fault = none; now = time }

abbrev request : OutboxEnqueueRequest
request = record {
  message_type = codes " Group";
  user_id = none;
  group_id = some (int_id (pos 42));
  messages = text_message (codes "hi") ∷ [];
  metadata = end;
  max_attempts = 2;
}

-- Two messages, and the older of them pulled for thirty seconds at time 10.
abbrev history : List (Call × Event)
history = (at 1, enqueued request) ∷ (at 2, enqueued request) ∷ (at 10, pulled [] 1 30) ∷ []

abbrev item : ℕ → ℕ → OutboxItem
item id now = record {
  id = id;
  message_type = group;
  user_id = none;
  group_id = some (codes "42");
  messages = text_message (codes "hi") ∷ [];
  metadata = end;
  status = pending;
  attempts = 0;
  max_attempts = 2;
  last_error = none;
  next_attempt_at = now;
  locked_until = none;
  sent_at = none;
  failed_at = none;
  created_at = now;
  updated_at = now;
}

abbrev leased_item : OutboxItem
leased_item = record (item 1 1) {
  status = processing;
  locked_until = some 30000010;
  updated_at = 10;
}

state : Table
unfolding run step enqueue prepare pull fetch_all picked is_due update_rows normalized_target_type
    lower strip_by is_space validate_target optional_id string_id validate_messages validate_message
    message_text sort_by_age insert_by_age before list_eq nat_eq
state = run runtime history empty_table

state_test : state ≡ record { rows = leased_item ∷ item 2 2 ∷ []; next_id = 3 }
unfolding state
state_test = refl

state-IsValid : IsValid state
unfolding state
state-IsValid =
    run-IsValid runtime history empty_table (omega arith, (omega arith, (tt, tt)))
      IsValid-empty_table

run-IsValid_example : IsValid (run runtime history empty_table)
run-IsValid_example =
    run-IsValid runtime history empty_table (omega arith, (omega arith, (tt, tt)))
      IsValid-empty_table

leased_there : In leased_item state.rows
unfolding state
leased_there = inl refl

abbrev meanwhile : List (Call × Event)
meanwhile =
    (at 20, pulled [] 5 30)
    ∷ (at 21, acked_item 2)
    ∷ (at 22, enqueued request)
    ∷ (at 23, pulled [] 1 60)
    ∷ []

run-keeps_leased_example :
    In leased_item (run runtime meanwhile state).rows × (deliveries runtime 1 meanwhile state ≡ 0)
run-keeps_leased_example =
    run-keeps_leased runtime meanwhile state leased_item 30000010 state-IsValid
      (tt, (tt, (omega arith, (tt, tt)))) leased_there refl refl
      (omega arith, (omega arith, (tt, (omega arith, tt))))

abbrev sent_item : OutboxItem
sent_item = record leased_item {
  status = sent;
  locked_until = none;
  sent_at = some 15;
  updated_at = 15;
}

settled : Table
unfolding state ack can_ack
settled = step runtime (at 15) (acked_item 1) state

settled-IsValid : IsValid settled
unfolding settled
settled-IsValid = step-IsValid runtime (at 15) (acked_item 1) state tt state-IsValid

sent_there : In sent_item settled.rows
unfolding settled
sent_there = inl refl

run-settled_example :
    ((s : OutboxItem) × In s (run runtime meanwhile settled).rows × SameEnd sent_item s)
    × (deliveries runtime 1 meanwhile settled ≡ 0)
run-settled_example =
    run-settled runtime meanwhile settled sent_item settled-IsValid
      (tt, (tt, (omega arith, (tt, tt)))) sent_there (inl refl)

run-failures_example :
    (s : OutboxItem) × In s
      (run runtime (failures 1 ((at 11, []) ∷ (at 12, codes "lost") ∷ [])) state).rows
    × (s.id ≡ 1)
    × (s.attempts ≡ 2)
    × (s.status ≡ failed)
run-failures_example =
    run-failures runtime ((at 11, []) ∷ (at 12, codes "lost") ∷ []) state leased_item
      (((codes "postgres://", refl), refl), (((codes "postgres://", refl), refl), tt)) state-IsValid
      leased_there (inr refl) (omega arith) (omega arith)

picked_oldest_example :
    let chosen = picked 10 [] 1 state.rows in
    (length chosen ≤ 1)
    × OldestFirst chosen
    × ((r : OutboxItem)
        → In r state.rows
        → is_due 10 r ≡ true
        → contains [] r.id ≡ false
        → contains (ids chosen) r.id ≡ false
        → All (λ s. Older s r) chosen × (length chosen ≡ 1))
picked_oldest_example = picked_oldest 10 [] 1 state.rows

prepare_iff_example : (prepare runtime request ≡ ok group) ↔ IsAccepted runtime group request
prepare_iff_example = prepare_iff runtime request group

enqueue-Enqueued_example :
    Enqueued runtime (at 5) request state (enqueue runtime (at 5) request state)
enqueue-Enqueued_example = enqueue-Enqueued runtime (at 5) request state

run-Runs_example :
    Runs
      (history ++ meanwhile)
      (jobs_of empty_table)
      (jobs_of (run runtime (history ++ meanwhile) empty_table))
run-Runs_example =
    run-Runs runtime (history ++ meanwhile) empty_table
      (omega arith, (omega arith, (tt, (tt, (tt, (omega arith, (tt, tt))))))) IsValid-empty_table

due_at_most_two : length (keep (is_due 40000000) state.rows) ≤ 2
unfolding state is_due
due_at_most_two = omega arith

-- Two items are due, and the worker pulls one at a time.
drain-delivers_example :
    let t' = drain runtime (at 40000000) 1 30 2 state in
    All (λ r. is_due 40000000 r ≡ false) t'.rows
    × ((r : OutboxItem)
        → In r state.rows
        → In (if is_due 40000000 r then acked 40000000 r else r) t'.rows)
drain-delivers_example =
    drain-delivers runtime (at 40000000) 1 30 2 state ((codes "postgres://", refl), refl)
      (omega arith) state-IsValid due_at_most_two
