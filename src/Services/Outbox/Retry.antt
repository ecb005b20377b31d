-- ===== src/Services/Outbox/Retry.antt =====
-- Failed deliveries: each counts, and the last one that is allowed gives the item up.
use test_bot.Base.{◌∙◌}
use mathlib.Core.Path.{subst, ap₂}
use test_bot.Base.{
  All, List, [], arith, if◌then◌else◌, inl, leb, length, none, some, true, ℕ, ◌+◌, ◌<◌, ◌∷◌, ◌≡◌,
  ◌≤◌, ◌⊎◌,
}
use test_bot.Text.{Text}
use test_bot.Value.{Runtime}
use test_bot.Services.Outbox.{
  OutboxItem, Table, Call, pending, processing, failed, fail, can_fail, failed_row, fetch_all,
  trim_error,
}
use test_bot.Services.Outbox.Rows.{In, All-In}
use test_bot.Services.Outbox.Run.{Event, failed_item, step, run}
use test_bot.Services.Outbox.Invariant.{IsValid, IsValidItem, step-IsValid}
use test_bot.Services.Outbox.Lease.{In-update_rows}

-- A call that reaches the database.
abbrev pub IsHealthy : Call → Type 0
IsHealthy call = ((url : Text) × (call.database_url ≡ some url)) × (call.fault ≡ none)

-- An item that waits or is being delivered.
abbrev pub IsOpen : OutboxItem → Type 0
IsOpen r = (r.status ≡ pending) ⊎ (r.status ≡ processing)

open_can_fail : (r : OutboxItem) → IsValidItem r → IsOpen r → can_fail r.id r ≡ true
unfolding can_fail
open_can_fail r v h = ground (arith, v.room, v.exhausted)

step_fail :
    (rt : Runtime) (call : Call) (error : Text) (t : Table) (r : OutboxItem)
    → IsHealthy call
    → IsValidItem r
    → IsOpen r
    → In r t.rows
    → In (failed_row call.now (trim_error error) r) (step rt call (failed_item r.id error) t).rows
unfolding step fail fetch_all
step_fail rt call error t r ((url, there), fine) v h m =
    rw (there, fetch_all)
      (rw (fine, fetch_all)
        (rw (open_can_fail r v h) at
          (In-update_rows (can_fail r.id) (failed_row call.now (trim_error error)) r t.rows m)))

-- The failures of one item, one call each.
abbrev pub failures : ℕ → List (Call × Text) → List (Call × Event)
failures i [] = []
failures i ((call, error) ∷ calls) = (call, failed_item i error) ∷ failures i calls

failed_row-status :
    (now : ℕ) (error : Text) (r : OutboxItem)
    → ((failed_row now error r).attempts ≡ r.attempts + 1)
      × ((failed_row now error r).max_attempts ≡ r.max_attempts)
      × ((failed_row now error r).id ≡ r.id)
      × ((r.attempts + 1 ≡ r.max_attempts) → (failed_row now error r).status ≡ failed)
      × ((r.attempts + 1 < r.max_attempts) → (failed_row now error r).status ≡ pending)
unfolding failed_row
failed_row-status now error r = ground arith

-- An open item of a valid table has failed for good after as many failed deliveries as it has
-- attempts left, and is open before: after fewer it is pending again with each of them counted.
pub run-failures :
    (rt : Runtime) (calls : List (Call × Text)) (t : Table) (r : OutboxItem)
    → All (λ c. IsHealthy c.0) calls
    → IsValid t
    → In r t.rows
    → IsOpen r
    → 0 < length calls
    → r.attempts + length calls ≤ r.max_attempts
    → (s : OutboxItem) × In s (run rt (failures r.id calls) t).rows
      × (s.id ≡ r.id)
      × (s.attempts ≡ r.attempts + length calls)
      × (s.status ≡ (if leb r.max_attempts (r.attempts + length calls) then failed else pending))
unfolding run
run-failures rt [] t r healthy v m h n k = absurd (omega arith)
run-failures rt ((call, error) ∷ []) t r (healthy, _) v m h n k =
    let f = failed_row call.now (trim_error error) r in
    let facts = failed_row-status call.now (trim_error error) r in
    (
      f,
      step_fail rt call error t r healthy (All-In IsValidItem r t.rows v.items m) h m,
      facts.2,
      omega (arith, facts.0),
      ground (arith, facts.3, facts.4),
    )
run-failures rt ((call, error) ∷ next ∷ calls) t r (healthy, rest) v m h n k =
    let f = failed_row call.now (trim_error error) r in
    let facts = failed_row-status call.now (trim_error error) r in
    let there = step_fail rt call error t r healthy (All-In IsValidItem r t.rows v.items m) h m in
    let (s, at_end, same, count, status) =
      run-failures rt (next ∷ calls) (step rt call (failed_item r.id error) t) f rest
        (step-IsValid rt call (failed_item r.id error) t tt v) there (inl (facts.4 (omega arith)))
        (omega arith) (omega (arith, facts.0, facts.1)) in
    (
      s,
      subst
          (λ i.
            In s
              (run rt (failures i (next ∷ calls)) (step rt call (failed_item r.id error) t)).rows)
          facts.2 at_end,
      same ∙ facts.2,
      omega (arith, count, facts.0),
      status
          ∙ ap₂ (λ most used. if leb most used then failed else pending) facts.1
              (omega (arith, facts.0)),
    )
