-- ===== src/Services/Outbox/Queue.antt =====
-- What the outbox promises: a queue of jobs that move from one phase to another, without times,
-- leases, targets and messages.
use test_bot.Base.{List, [], ℕ, ◌+◌, ◌<◌, ◌∷◌, ◌≡◌, ◌≢◌, ◌⊎◌}
use test_bot.Text.{Text}
use test_bot.Schemas.{OutboxEnqueueRequest}
use test_bot.Services.Outbox.{Call}
use test_bot.Services.Outbox.Run.{Event, enqueued, pulled, acked_item, failed_item}

pub data Phase : Type 0 where
  waiting given_out delivered given_up : Phase

pub record Job : Type 0 where
  pub id : ℕ
  pub attempts : ℕ
  pub max_attempts : ℕ
  pub phase : Phase

-- A job that can still be delivered.
abbrev pub IsLive : Job → Type 0
IsLive j = ((j.phase ≡ waiting) ⊎ (j.phase ≡ given_out)) × (j.attempts < j.max_attempts)

-- What one call may do to one job: nothing; `pull` gives a live job out; `ack` of its id settles it, unless
-- it is given up; `fail` of its id counts, and lets it wait again or gives it up.
pub data Moves : Event → Job → Job → Type 0 where
  stays : {e : Event} {j : Job} → Moves e j j
  goes_out :
      {held : List ℕ} {limit lease_seconds : ℕ} {j : Job}
      → IsLive j
      → Moves (pulled held limit lease_seconds) j (record j { phase = given_out })
  settles :
      {j : Job} → (j.phase ≢ given_up) → Moves (acked_item j.id) j (record j { phase = delivered })
  waits_again :
      {error : Text} {j : Job}
      → IsLive j
      → j.attempts + 1 < j.max_attempts
      → Moves (failed_item j.id error) j (record j { attempts = j.attempts + 1; phase = waiting })
  gives_up :
      {error : Text} {j : Job}
      → IsLive j
      → j.attempts + 1 ≡ j.max_attempts
      → Moves (failed_item j.id error) j (record j { attempts = j.attempts + 1; phase = given_up })

abbrev pub new_job : ℕ → ℕ → Job
new_job id max_attempts = record {
  id = id;
  attempts = 0;
  max_attempts = max_attempts;
  phase = waiting;
}

-- What one call may do to the queue: each job moves, and `enqueue` may add one at the end.
pub data Turns : Event → List Job → List Job → Type 0 where
  no_more : {e : Event} → Turns e [] []
  one_more :
      {request : OutboxEnqueueRequest} {id : ℕ}
      → Turns (enqueued request) [] (new_job id request.max_attempts ∷ [])
  moves :
      {e : Event} {j k : Job} {js ks : List Job}
      → Moves e j k
      → Turns e js ks
      → Turns e (j ∷ js) (k ∷ ks)

-- What a sequence of calls may do to it.
pub data Runs : List (Call × Event) → List Job → List Job → Type 0 where
  done : {js : List Job} → Runs [] js js
  then_ :
      {call : Call} {e : Event} {events : List (Call × Event)} {js ks ls : List Job}
      → Turns e js ks
      → Runs events ks ls
      → Runs ((call, e) ∷ events) js ls
