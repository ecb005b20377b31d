-- ===== src/Services/Outbox/Drain.antt =====
-- A worker on the outbox: it pulls, and acknowledges what it got.
use test_bot.Base.{Option, arith, none, some}
use test_bot.Base.Dict.{or_else}
use test_bot.Services.Outbox.Lease.{delivered_items}
use test_bot.Base.{
  Bool, Bool-cases, List, [], ap, contains, false, if◌then◌else◌, inl, inr, list_eq, map, nat_eq,
  refl, suc, sym, true, zero, ℕ, ◌==◌, ◌∙◌, ◌∷◌, ◌≡◌,
}
use test_bot.Value.{Runtime, items}
use test_bot.Services.Outbox.{
  Call, OutboxItem, Outcome, Table, ack, acked, can_ack, fetch_all, ids, lease, pull, returning,
  update_rows, update_statement,
}
use test_bot.Services.Outbox.Retry.{IsHealthy}
use test_bot.Services.Outbox.{ok, Outcome}
use test_bot.Services.Outbox.Run.{run, step}
use test_bot.Services.Outbox.Run.{Event, acked_item}

abbrev pub acks : Call → List ℕ → List (Call × Event)
acks call [] = []
acks call (i ∷ is) = (call, acked_item i) ∷ acks call is

-- One round of the worker.
unfoldable pub round_of : Runtime → Call → ℕ → ℕ → Table → Table
unfolding run
round_of rt call limit lease_seconds t =
    let (items, t') = pull call [] limit lease_seconds t in
    run rt (acks call (ids (delivered_items items))) t'

-- A number of rounds.
unfoldable pub drain : Runtime → Call → ℕ → ℕ → ℕ → Table → Table
drain rt call limit lease_seconds zero t = t
drain rt call limit lease_seconds (suc n) t =
    drain rt call limit lease_seconds n (round_of rt call limit lease_seconds t)

-- What a round does to a row.
abbrev pub settled_row : ℕ → List ℕ → OutboxItem → OutboxItem
settled_row now chosen r = if contains chosen r.id then acked now r else r

-- A row under the acknowledgements of some ids.
abbrev pub ack_row : ℕ → List ℕ → OutboxItem → OutboxItem
ack_row now [] r = r
ack_row now (i ∷ is) r = ack_row now is (if can_ack i r then acked now r else r)

pub update_rows-map :
    (p : OutboxItem → Bool) (f : OutboxItem → OutboxItem) (rows : List OutboxItem)
    → update_rows p f rows ≡ map (λ r. if p r then f r else r) rows
unfolding update_rows
update_rows-map p f [] = refl
update_rows-map p f (r ∷ rs) = ap (λ rest. (if p r then f r else r) ∷ rest) (update_rows-map p f rs)

pub map-map :
    (f g : OutboxItem → OutboxItem) (rows : List OutboxItem)
    → map f (map g rows) ≡ map (λ r. f (g r)) rows
map-map f g [] = refl
map-map f g (r ∷ rs) = ap (λ rest. f (g r) ∷ rest) (map-map f g rs)

map-id : (rows : List OutboxItem) → map (λ r. r) rows ≡ rows
map-id [] = refl
map-id (r ∷ rs) = ap (λ rest. r ∷ rest) (map-id rs)

-- A statement of a healthy call.
pub healthy_rows :
    (call : Call) (p : OutboxItem → Bool) (f : OutboxItem → OutboxItem) (t : Table)
    → IsHealthy call
    → fetch_all call (update_statement p f) t
      ≡ (ok (returning p f t.rows), record t { rows = map (λ r. if p r then f r else r) t.rows })
unfolding fetch_all
healthy_rows call p f t ((url, there), fine) =
    rw (there, fine)
      (ap (λ rows. (ok (returning p f t.rows), record t { rows = rows }))
        (update_rows-map p f t.rows))

pub run-acks :
    (rt : Runtime) (call : Call) (is : List ℕ) (t : Table)
    → IsHealthy call
    → run rt (acks call is) t ≡ record t { rows = map (ack_row call.now is) t.rows }
unfolding run step ack
run-acks rt call [] t h = ap (λ rows. record t { rows = rows }) (sym (map-id t.rows))
run-acks rt call (i ∷ is) t h =
    ap (λ (o : Outcome (List OutboxItem)). run rt (acks call is) o.1)
      (healthy_rows call (can_ack i) (acked call.now) t h)
    ∙ (run-acks rt call is _ h
        ∙ ap (λ rows. record t { rows = rows }) (map-map (ack_row call.now is) _ t.rows))

or_else_twice :
    (s : Option ℕ) (now : ℕ) → or_else (or_else s (some now)) (some now) ≡ or_else s (some now)
or_else_twice none now = refl
or_else_twice (some at) now = refl

acked_twice : (now : ℕ) (r : OutboxItem) → acked now (acked now r) ≡ acked now r
acked_twice now r = ap (λ s. record (acked now r) { sent_at = s }) (or_else_twice r.sent_at now)

pub ack_row-sent :
    (now : ℕ) (is : List ℕ) (r : OutboxItem) → ack_row now is (acked now r) ≡ acked now r
unfolding can_ack
ack_row-sent now [] r = refl
ack_row-sent now (i ∷ is) r = elim (Bool-cases (can_ack i (acked now r))) [
  | inl can ↦ rw (can, can_ack) (ap (ack_row now is) (acked_twice now r) ∙ ack_row-sent now is r)
  | inr differs ↦ rw (differs, can_ack) (ack_row-sent now is r)
]

pub ack_row-leased :
    (now lease_seconds : ℕ) (is : List ℕ) (r : OutboxItem)
    → contains is r.id ≡ true
    → ack_row now is (lease now lease_seconds r) ≡ acked now r
unfolding can_ack
ack_row-leased now lease_seconds [] r h = cc
ack_row-leased now lease_seconds (i ∷ is) r h = elim (Bool-cases (r.id == i)) [
  | inl same ↦ rw (same, can_ack) (ack_row-sent now is (lease now lease_seconds r))
  | inr differs ↦ rw (differs, can_ack) (ack_row-leased now lease_seconds is r (ground arith))
]

pub ack_row-elsewhere :
    (now : ℕ) (is : List ℕ) (r : OutboxItem) → contains is r.id ≡ false → ack_row now is r ≡ r
unfolding can_ack
ack_row-elsewhere now [] r h = refl
ack_row-elsewhere now (i ∷ is) r h = elim (Bool-cases (r.id == i)) [
  | inl same ↦ absurd (ground arith)
  | inr differs ↦ rw (differs, can_ack) (ack_row-elsewhere now is r (ground arith))
]
