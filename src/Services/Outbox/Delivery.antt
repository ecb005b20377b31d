-- ===== src/Services/Outbox/Delivery.antt =====
-- A worker that keeps pulling and acknowledging delivers every item that is due.
use test_bot.Base.{Bool, not, suc, take, zero, ◌&&◌}
use mathlib.Core.Path.{subst}
use test_bot.Services.Outbox.{picked, sort_by_age}
use test_bot.Services.Outbox.Pick.{All-insert_by_age, picked_oldest}
use test_bot.Base.{
  All, Bool-cases, List, [], ap, arith, contains, false, if◌then◌else◌, inl, inr, keep, length,
  list_eq, map, nat_eq, refl, true, ℕ, ◌<◌, ◌∙◌, ◌∷◌, ◌≡◌, ◌≤◌, ◌⊎◌,
}
use test_bot.Value.{Runtime}
use test_bot.Services.Outbox.{Call, OutboxItem, Table, acked, ids, is_due, lease, pull, returning}
use mathlib.Core.Path.{ap₂}
use test_bot.Services.Outbox.Drain.{
  ack_row, ack_row-elsewhere, ack_row-leased, acks, healthy_rows, map-map, run-acks, settled_row,
}
use test_bot.Services.Outbox.Retry.{IsHealthy}
use test_bot.Services.Outbox.Lease.{chosen_ids, delivered_items, not_returned}
use test_bot.Services.Outbox.Run.{run}
use test_bot.Services.Outbox.Rows.{In}
use test_bot.Services.Outbox.{Outcome}
use test_bot.Services.Outbox.Drain.{round_of}

map-same :
    (f g : OutboxItem → OutboxItem) (rows : List OutboxItem)
    → ((r : OutboxItem) → In r rows → f r ≡ g r)
    → map f rows ≡ map g rows
map-same f g [] h = refl
map-same f g (r ∷ rs) h =
    ap₂ (λ q qs. q ∷ qs) (h r (inl refl)) (map-same f g rs (λ q m. h q (inr m)))

pub In-map :
    (f : OutboxItem → OutboxItem) (r : OutboxItem) (rows : List OutboxItem)
    → In r rows
    → In (f r) (map f rows)
In-map f r [] m = absurd m
In-map f r (s ∷ ss) (inl e) = inl (ap f e)
In-map f r (s ∷ ss) (inr m) = inr (In-map f r ss m)

returned :
    (chosen : List ℕ) (f : OutboxItem → OutboxItem) (rows : List OutboxItem) (r : OutboxItem)
    → ((q : OutboxItem) → (f q).id ≡ q.id)
    → In r rows
    → contains chosen r.id ≡ true
    → contains (ids (returning (λ q. contains chosen q.id) f rows)) r.id ≡ true
unfolding returning
returned chosen f [] r same m h = absurd m
returned chosen f (s ∷ ss) r same (inl e) h =
    ground
      (arith, same s, ap (λ (q : OutboxItem). q.id) e, subst (λ q. contains chosen q.id ≡ true) e h)
returned chosen f (s ∷ ss) r same (inr m) h = ground (arith, returned chosen f ss r same m h)

-- A round settles the rows that the pull picks, and changes no other.
pub round_of-rows :
    (rt : Runtime) (call : Call) (limit lease_seconds : ℕ) (t : Table)
    → IsHealthy call
    → round_of rt call limit lease_seconds t
      ≡ record t { rows = map (settled_row call.now (chosen_ids call [] limit t)) t.rows }
unfolding round_of pull
round_of-rows rt call limit lease_seconds t h =
    let chosen = chosen_ids call [] limit t in
    let f = lease call.now lease_seconds in
    let given_out = ids (returning (λ r. contains chosen r.id) f t.rows) in
    ap (λ (o : Outcome (List OutboxItem)). run rt (acks call (ids (delivered_items o.0))) o.1)
      (healthy_rows call (λ r. contains chosen r.id) f t h)
    ∙ (run-acks rt call given_out _ h
        ∙ ap (λ rows. record t { rows = rows })
            (map-map (ack_row call.now given_out) (λ r. if contains chosen r.id then f r else r)
                t.rows
              ∙ map-same _ (settled_row call.now chosen) t.rows (λ r m.
                elim (Bool-cases (contains chosen r.id)) [
                  | inl picked_ ↦ rw picked_ (
                      ack_row-leased call.now lease_seconds given_out r
                        (returned chosen f t.rows r (λ q. refl) m picked_))
                  | inr left ↦ rw left (
                      ack_row-elsewhere call.now given_out r
                        (not_returned chosen f t.rows r.id (λ q. refl) left))
                ])))

module _ (now : ℕ) where
  abbrev pub due_count : List OutboxItem → ℕ
  due_count rows = length (keep (is_due now) rows)

  pub acked-not_due : (r : OutboxItem) → is_due now (acked now r) ≡ false
  unfolding is_due
  acked-not_due r = ground arith

  pub settled-not_more :
      (chosen : List ℕ) (rows : List OutboxItem)
      → due_count (map (settled_row now chosen) rows) ≤ due_count rows
  settled-not_more chosen [] = omega arith
  settled-not_more chosen (r ∷ rs) = elim (Bool-cases (contains chosen r.id)) [
    | inl picked_ ↦ rw (picked_, acked-not_due r) (ground (arith, settled-not_more chosen rs))
    | inr left ↦ rw left (ground (arith, settled-not_more chosen rs))
  ]

  pub settled-fewer :
      (chosen : List ℕ) (r : OutboxItem) (rows : List OutboxItem)
      → In r rows
      → is_due now r ≡ true
      → contains chosen r.id ≡ true
      → due_count (map (settled_row now chosen) rows) < due_count rows
  settled-fewer chosen r [] m due c = absurd m
  settled-fewer chosen r (s ∷ ss) (inl e) due c =
      rw
        (
          subst (λ q. contains chosen q.id ≡ true) e c,
          acked-not_due s,
          subst (λ q. is_due now q ≡ true) e due,
        )
        (ground (arith, settled-not_more chosen ss))
  settled-fewer chosen r (s ∷ ss) (inr m) due c = elim (Bool-cases (contains chosen s.id)) [
    | inl picked_ ↦
        rw (picked_, acked-not_due s) (ground (arith, settled-fewer chosen r ss m due c))
    | inr left ↦ rw left (ground (arith, settled-fewer chosen r ss m due c))
  ]

  pub due_or_none :
      (rows : List OutboxItem)
      → All (λ r. is_due now r ≡ false) rows
        ⊎ ((r : OutboxItem) × In r rows × (is_due now r ≡ true))
  due_or_none [] = inl tt
  due_or_none (r ∷ rs) = elim (Bool-cases (is_due now r)) [
    | inl due ↦ inr (r, inl refl, due)
    | inr waits ↦ elim (due_or_none rs) [
      | inl none_due ↦ inl (waits, none_due)
      | inr (q, m, due) ↦ inr (q, inr m, due)
    ]
  ]

  pub due_counted :
      (r : OutboxItem) (rows : List OutboxItem)
      → In r rows
      → is_due now r ≡ true
      → 0 < due_count rows
  due_counted r [] m due = absurd m
  due_counted r (s ∷ ss) (inl e) due = rw (subst (λ q. is_due now q ≡ true) e due) (ground arith)
  due_counted r (s ∷ ss) (inr m) due = ground (arith, due_counted r ss m due)

In-keep_inside :
    (p : OutboxItem → Bool) (rows all : List OutboxItem)
    → ((r : OutboxItem) → In r rows → In r all)
    → All (λ r. In r all × (p r ≡ true)) (keep p rows)
In-keep_inside p [] all h = tt
In-keep_inside p (r ∷ rs) all h = elim (Bool-cases (p r)) [
  | inl keeps ↦ rw keeps ((h r (inl refl), keeps), In-keep_inside p rs all (λ q m. h q (inr m)))
  | inr drops ↦ rw drops (In-keep_inside p rs all (λ q m. h q (inr m)))
]

All-sort_by_age :
    (P : OutboxItem → Type 0) (rows : List OutboxItem) → All P rows → All P (sort_by_age rows)
unfolding sort_by_age
All-sort_by_age P [] a = tt
All-sort_by_age P (r ∷ rs) (k, ks) =
    All-insert_by_age P r (sort_by_age rs) k (All-sort_by_age P rs ks)

All-take :
    (P : OutboxItem → Type 0) (n : ℕ) (rows : List OutboxItem) → All P rows → All P (take n rows)
All-take P zero rows a = tt
All-take P (suc n) [] a = tt
All-take P (suc n) (r ∷ rs) (k, ks) = (k, All-take P n rs ks)

head_of :
    (n : ℕ) (rows : List OutboxItem)
    → length rows ≡ suc n
    → (r : OutboxItem) × (contains (ids rows) r.id ≡ true)
      × ((P : OutboxItem → Type 0) → All P rows → P r)
head_of n [] e = absurd (omega (arith, e))
head_of n (r ∷ rs) e = (r, ground arith, λ P a. a.0)

-- If an item is due, a pull of at least one picks one that is due.
pub picks_due :
    (now limit : ℕ) (rows : List OutboxItem) (r : OutboxItem)
    → In r rows
    → is_due now r ≡ true
    → (s : OutboxItem) × In s rows
      × (is_due now s ≡ true)
      × (contains (ids (picked now [] (suc limit) rows)) s.id ≡ true)
unfolding picked
picks_due now limit rows r m due =
    elim (Bool-cases (contains (ids (picked now [] (suc limit) rows)) r.id)) [
      | inl there ↦ (r, m, due, there)
      | inr left ↦
          let full = ((picked_oldest now [] (suc limit) rows).2 r m due refl left).1 in
          let free = λ (s : OutboxItem). is_due now s && not (contains [] s.id) in
          let (s, there, holds) = head_of limit (picked now [] (suc limit) rows) full in
          let facts = holds _ (
            All-take _ (suc limit) (sort_by_age (keep free rows))
              (All-sort_by_age _ (keep free rows) (In-keep_inside free rows rows (λ q n. n)))) in
          (s, facts.0, ground (arith, facts.1), there)
    ]
