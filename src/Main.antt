-- ===== src/Main.antt =====
-- brain-python/main.py: the endpoints of the outbox, with their token and their status codes.
pub mod Access
use test_bot.Base.{
  Bool, List, Option, [], false, if◌then◌else◌, is_empty, list_eq, ltb, nat_eq, none, not, some,
  true, ℕ, ◌&&◌, ◌==◌, ◌||◌, ◌∷◌,
}
use test_bot.Text.{Text, codes, lower, partition, strip}
use test_bot.Value.{Runtime, or_text, text_or_empty}
use test_bot.Env.{Env, getenv}
use test_bot.Schemas.{OutboxEnqueueRequest}
use test_bot.Services.Outbox.{
  Call, OutboxError, OutboxItem, Outcome, Result, Table, ack, configuration, database, enqueue, err,
  fail, invalid, not_found, ok, pull,
}

-- What a client gets: a body, an `HTTPException` with its status and detail, or the status 500 of
-- an exception that no handler names.
pub data Reply {ℓ} (A : Type ℓ) : Type ℓ where
  body : A → Reply A
  refused : ℕ → Text → Reply A
  crashed : Reply A

abbrev pub is_ascii : Text → Bool
is_ascii [] = true
is_ascii (c ∷ cs) = ltb c 128 && is_ascii cs

-- `hmac.compare_digest` of two texts, which raises `TypeError` unless both are ASCII.
unfoldable pub compare_digest : Text → Text → Option Bool
unfolding list_eq nat_eq
compare_digest a b = if is_ascii a && is_ascii b then some (a == b) else none

-- `_bearer_token`
unfoldable pub bearer_token : Option Text → Text
unfolding partition lower list_eq nat_eq
bearer_token none = []
bearer_token (some authorization) =
    let parts = partition b' ' (strip authorization) in
    if not parts.found || not (lower parts.before == codes "bearer") then [] else strip parts.after

abbrev pub expected_token : Env → Text
expected_token env = strip (getenv env (codes "OUTBOX_TOKEN") [])

abbrev pub provided_token : Option Text → Option Text → Text
provided_token authorization x_outbox_token =
    or_text (bearer_token authorization) (strip (text_or_empty x_outbox_token))

abbrev pub invalid_token : Reply (Unit {0})
invalid_token = refused 401 (codes "invalid outbox token")

-- The tests of `require_outbox_token` on the expected and the provided token.
unfoldable pub check_token : Text → Text → Reply (Unit {0})
unfolding compare_digest
check_token expected provided =
    if is_empty expected
    then refused 503 (codes "OUTBOX_TOKEN is not configured")
    else if is_empty provided
    then invalid_token
    else elim (compare_digest provided expected) [
      | none ↦ crashed
      | some true ↦ body tt
      | some false ↦ invalid_token
    ]

-- `require_outbox_token`; the arguments are the two headers.
unfoldable pub require_outbox_token : Env → Option Text → Option Text → Reply (Unit {0})
require_outbox_token env authorization x_outbox_token =
    check_token (expected_token env) (provided_token authorization x_outbox_token)

abbrev detail_of : OutboxError → Text
detail_of (database detail) = detail
detail_of (configuration detail) = detail
detail_of (not_found detail) = detail
detail_of (invalid detail) = detail

-- The status of an exception in each endpoint: `except OutboxError` takes what is not named.
abbrev pub enqueue_status : OutboxError → ℕ
enqueue_status (invalid detail) = 422
enqueue_status (configuration detail) = 503
enqueue_status e = 500

abbrev pub pull_status : OutboxError → ℕ
pull_status (configuration detail) = 503
pull_status e = 500

abbrev pub item_status : OutboxError → ℕ
item_status (not_found detail) = 404
item_status (configuration detail) = 503
item_status e = 500

abbrev pub reply_of {ℓ} : {A : Type ℓ} → (OutboxError → ℕ) → Result A → Reply A
reply_of status (ok a) = body a
reply_of status (err e) = refused (status e) (detail_of e)

-- The endpoints; FastAPI calls one after its dependency `require_outbox_token` returns.
abbrev answered_by : {A : Type 0} → (OutboxError → ℕ) → Outcome A → Reply A × Table
answered_by status (outcome, t) = (reply_of status outcome, t)

module _ (call : Call) where
  unfoldable pub outbox_enqueue : Runtime → OutboxEnqueueRequest → Table → Reply OutboxItem × Table
  unfolding enqueue
  outbox_enqueue rt request t = answered_by enqueue_status (enqueue rt call request t)

  unfoldable pub outbox_pull : List ℕ → ℕ → ℕ → Table → Reply (List OutboxItem) × Table
  unfolding pull
  outbox_pull held limit lease_seconds t =
      answered_by pull_status (pull call held limit lease_seconds t)

  unfoldable pub outbox_ack : ℕ → Table → Reply OutboxItem × Table
  unfolding ack
  outbox_ack item_id t = answered_by item_status (ack call item_id t)

  unfoldable pub outbox_fail : ℕ → Text → Table → Reply OutboxItem × Table
  unfolding fail
  outbox_fail item_id error t = answered_by item_status (fail call item_id error t)
