-- ===== src/Services/Outbox/Refines.antt =====
-- The statements of brain-python/services/outbox.py implement the queue of jobs.
use test_bot.Base.{false, ◌≢◌}
use test_bot.Services.Outbox.Queue.{
  Job, Moves, Phase, Runs, Turns, delivered, done, given_out, given_up, gives_up, goes_out, moves,
  new_job, no_more, one_more, settles, stays, then_, waiting, waits_again,
}
use test_bot.Base.{
  ==-true, All, Bool, Bool-cases, List, Option-cases, [], arith, contains, inl, inr, leb, list_eq,
  map, nat_eq, refl, true, ℕ, ◌++◌, ◌+◌, ◌∷◌, ◌≡◌,
}
use test_bot.Text.{Text}
use test_bot.Value.{Runtime}
use test_bot.Schemas.{OutboxEnqueueRequest}
use mathlib.Core.Path.{subst}
use test_bot.Services.Outbox.{
  Call, OutboxItem, Status, Table, ack, acked, can_ack, can_fail, enqueue, fail, failed_row,
  fetch_all, ids, is_due, lease, pending, picked, prepare, processing, pull, requested_row, sent,
  trim_error, update_rows,
}
use test_bot.Services.Outbox.Invariant.{IsAdmissible, IsValid, Result-cases, step-IsValid}
use test_bot.Services.Outbox.{failed}
use test_bot.Services.Outbox.Queue.{done}
use test_bot.Services.Outbox.Run.{run, step}
use test_bot.Services.Outbox.Pick.{picked-IsDue}
use test_bot.Services.Outbox.Rows.{In}
use test_bot.Services.Outbox.Run.{Event, enqueued, pulled, acked_item, failed_item}

abbrev phase_of : Status → Phase
phase_of pending = waiting
phase_of processing = given_out
phase_of sent = delivered
phase_of failed = given_up

-- The job of a row.
abbrev pub job_of : OutboxItem → Job
job_of r = record {
  id = r.id;
  attempts = r.attempts;
  max_attempts = r.max_attempts;
  phase = phase_of r.status;
}

abbrev pub jobs_of : Table → List Job
jobs_of t = map job_of t.rows

Turns-same : (e : Event) (rows : List OutboxItem) → Turns e (map job_of rows) (map job_of rows)
Turns-same e [] = no_more
Turns-same e (r ∷ rs) = moves stays (Turns-same e rs)

Turns-update_rows :
    (e : Event) (p : OutboxItem → Bool) (f : OutboxItem → OutboxItem) (rows : List OutboxItem)
    → ((r : OutboxItem) → In r rows → p r ≡ true → Moves e (job_of r) (job_of (f r)))
    → Turns e (map job_of rows) (map job_of (update_rows p f rows))
unfolding update_rows
Turns-update_rows e p f [] h = no_more
Turns-update_rows e p f (r ∷ rs) h =
    let rest = Turns-update_rows e p f rs (λ q m. h q (inr m)) in
    elim (Bool-cases (p r)) [
      | inl chosen ↦ rw chosen (moves (h r (inl refl) chosen) rest)
      | inr other ↦ rw other (moves stays rest)
    ]

Turns-append :
    (request : OutboxEnqueueRequest) (rows : List OutboxItem) (r : OutboxItem)
    → job_of r ≡ new_job r.id request.max_attempts
    → Turns (enqueued request) (map job_of rows) (map job_of (rows ++ (r ∷ [])))
Turns-append request [] r e = rw e one_more
Turns-append request (q ∷ qs) r e = moves stays (Turns-append request qs r e)

-- A statement that fails moves nothing.
Turns-fetch_all :
    (e : Event) (call : Call) (statement : Table → List OutboxItem × Table) (t : Table)
    → Turns e (jobs_of t) (jobs_of (statement t).1)
    → Turns e (jobs_of t) (jobs_of (fetch_all call statement t).1)
unfolding fetch_all
Turns-fetch_all e call statement t h = elim (Option-cases call.database_url) [
  | inl lacking ↦ rw lacking (Turns-same e t.rows)
  | inr (url, there) ↦ elim (Option-cases call.fault) [
    | inl fine ↦ rw (there, fine) h
    | inr (e', broken) ↦ rw (there, broken) (Turns-same e t.rows)
  ]
]

lease-Moves :
    (now lease_seconds : ℕ) (held : List ℕ) (limit : ℕ) (r : OutboxItem)
    → is_due now r ≡ true
    → Moves (pulled held limit lease_seconds) (job_of r) (job_of (lease now lease_seconds r))
unfolding is_due
lease-Moves now lease_seconds held limit r h = goes_out (ground arith)

ack_settles :
    (r : OutboxItem)
    → elim r.status as (λ s. Bool) [ failed ↦ false | _ ↦ true ] ≡ true
    → phase_of r.status ≢ given_up
ack_settles r h = ground arith

acked-Moves :
    (item_id now : ℕ) (r : OutboxItem)
    → can_ack item_id r ≡ true
    → Moves (acked_item item_id) (job_of r) (job_of (acked now r))
unfolding can_ack
acked-Moves item_id now r h =
    subst (λ i. Moves (acked_item i) (job_of r) (job_of (acked now r)))
      (==-true r.id item_id (ground arith)) (settles (ack_settles r (ground arith)))

failed_row-Moves :
    (item_id now : ℕ) (error : Text) (r : OutboxItem)
    → can_fail item_id r ≡ true
    → Moves (failed_item item_id error) (job_of r) (job_of (failed_row now (trim_error error) r))
unfolding can_fail failed_row
failed_row-Moves item_id now error r h =
    subst
      (λ i. Moves (failed_item i error) (job_of r) (job_of (failed_row now (trim_error error) r)))
      (==-true r.id item_id (ground arith))
      (elim (Bool-cases (leb r.max_attempts (r.attempts + 1))) [
        | inl last ↦ rw last (gives_up (ground arith) (ground arith))
        | inr more ↦ rw more (waits_again (ground arith) (ground arith))
      ])

enqueue-Turns :
    (rt : Runtime) (call : Call) (request : OutboxEnqueueRequest) (t : Table)
    → Turns (enqueued request) (jobs_of t) (jobs_of (enqueue rt call request t).1)
unfolding enqueue
enqueue-Turns rt call request t = elim (Result-cases (prepare rt request)) [
  | inl (e, refused) ↦ rw (refused, enqueue) (Turns-same (enqueued request) t.rows)
  | inr (type, found) ↦
      rw (found, enqueue)
        (Turns-fetch_all (enqueued request) call _ t
          (Turns-append request t.rows (requested_row request call.now type t.next_id) refl))
]

step-Turns :
    (rt : Runtime) (call : Call) (event : Event) (t : Table)
    → IsValid t
    → Turns event (jobs_of t) (jobs_of (step rt call event t))
unfolding step pull ack fail
step-Turns rt call (enqueued request) t v = enqueue-Turns rt call request t
step-Turns rt call (pulled held limit lease_seconds) t v = Turns-fetch_all _ call _ t (
    Turns-update_rows _ (λ r. contains (ids (picked call.now held limit t.rows)) r.id)
      (lease call.now lease_seconds) t.rows
      (λ r m c.
        lease-Moves call.now lease_seconds held limit r
          (picked-IsDue call.now held limit t.rows r v.unique m c).0))
step-Turns rt call (acked_item item_id) t v = Turns-fetch_all _ call _ t (
    Turns-update_rows _ (can_ack item_id) (acked call.now) t.rows
      (λ r m c. acked-Moves item_id call.now r c))
step-Turns rt call (failed_item item_id error) t v = Turns-fetch_all _ call _ t (
    Turns-update_rows _ (can_fail item_id) (failed_row call.now (trim_error error)) t.rows
      (λ r m c. failed_row-Moves item_id call.now error r c))

-- The outbox refines the queue of jobs: whatever calls come, in any order, at any times and with any
-- failures of the database, what they do to the jobs of a valid table is what the queue allows. A job is given out by a pull and only
-- while it is live, delivered by an acknowledgement of it, waits again or is given up
-- after a failure of it, which counts, and no call does anything else to a job, drops one or reorders them.
pub run-Runs :
    (rt : Runtime) (events : List (Call × Event)) (t : Table)
    → All (λ e. IsAdmissible e.1) events
    → IsValid t
    → Runs events (jobs_of t) (jobs_of (run rt events t))
unfolding run
run-Runs rt [] t a v = done
run-Runs rt ((call, event) ∷ events) t (a, rest) v =
    then_ (step-Turns rt call event t v)
      (run-Runs rt events (step rt call event t) rest (step-IsValid rt call event t a v))
