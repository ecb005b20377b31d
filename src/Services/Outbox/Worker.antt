-- ===== src/Services/Outbox/Worker.antt =====
-- Everything that is due is delivered.
use test_bot.Base.{◌∷◌}
use test_bot.Services.Outbox.Delivery.{settled-not_more}
use test_bot.Base.{
  All, Bool-cases, List, [], ap, arith, contains, false, if◌then◌else◌, inl, inr, keep, length,
  list_eq, map, nat_eq, refl, suc, sym, true, zero, ℕ, ◌<◌, ◌∙◌, ◌≡◌, ◌≤◌,
}
use test_bot.Value.{Runtime}
use mathlib.Core.Path.{subst}
use test_bot.Services.Outbox.{Call, OutboxItem, Table, acked, is_due}
use test_bot.Services.Outbox.Drain.{settled_row, update_rows-map}
use test_bot.Services.Outbox.Delivery.{
  In-map, acked-not_due, due_count, due_counted, due_or_none, picks_due, round_of-rows,
  settled-fewer,
}
use test_bot.Services.Outbox.Retry.{IsHealthy}
use test_bot.Services.Outbox.Invariant.{IsValid}
use test_bot.Services.Outbox.Lease.{chosen_ids, not_due-chosen}
use test_bot.Services.Outbox.Rows.{In, NodupIds, NodupIds-update_rows}
use test_bot.Services.Outbox.Drain.{round_of, drain}

none_counted :
    (now : ℕ) (rows : List OutboxItem)
    → All (λ r. is_due now r ≡ false) rows
    → due_count now rows ≡ 0
none_counted now [] a = refl
none_counted now (r ∷ rs) (waits, a) = rw waits (none_counted now rs a)

module _ (rt : Runtime) (call : Call) (limit lease_seconds : ℕ) (healthy : IsHealthy call) where
  abbrev after : Table → Table
  after t = round_of rt call (suc limit) lease_seconds t

  abbrev picks : Table → List ℕ
  picks t = chosen_ids call [] (suc limit) t

  rows_after : (t : Table) → (after t).rows ≡ map (settled_row call.now (picks t)) t.rows
  rows_after t =
      ap (λ (u : Table). u.rows) (round_of-rows rt call (suc limit) lease_seconds t healthy)

  NodupIds-after : (t : Table) → NodupIds t.rows → NodupIds (after t).rows
  NodupIds-after t u =
      subst NodupIds
        (update_rows-map (λ r. contains (picks t) r.id) (acked call.now) t.rows
          ∙ sym (rows_after t))
        (NodupIds-update_rows (λ r. contains (picks t) r.id) (acked call.now) t.rows (λ r. refl) u)

  In-after :
      (t : Table) (r : OutboxItem)
      → In r t.rows
      → In (settled_row call.now (picks t) r) (after t).rows
  In-after t r m =
      subst (In (settled_row call.now (picks t) r)) (sym (rows_after t))
        (In-map (settled_row call.now (picks t)) r t.rows m)

  fewer_after :
      (n : ℕ) (t : Table)
      → due_count call.now t.rows ≤ suc n
      → due_count call.now (after t).rows ≤ n
  fewer_after n t h = elim (due_or_none call.now t.rows) [
    | inl none_due ↦ rw (rows_after t) (
        omega (
          arith,
          settled-not_more call.now (picks t) t.rows,
          none_counted call.now t.rows none_due,
        ))
    | inr (r, m, due) ↦
        let (s, there, s_due, chosen) = picks_due call.now limit t.rows r m due in
        rw (rows_after t)
          (omega (arith, settled-fewer call.now (picks t) s t.rows there s_due chosen))
  ]

  -- A row that is not due stays as it is.
  drain-keeps :
      (n : ℕ) (t : Table) (r : OutboxItem)
      → NodupIds t.rows
      → In r t.rows
      → is_due call.now r ≡ false
      → In r (drain rt call (suc limit) lease_seconds n t).rows
  unfolding drain
  drain-keeps zero t r u m waits = m
  drain-keeps (suc n) t r u m waits =
      let left = not_due-chosen call [] (suc limit) t r u m waits in
      drain-keeps n (after t) r (NodupIds-after t u) (rw left at (In-after t r m)) waits

  drain-delivers_one :
      (n : ℕ) (t : Table) (r : OutboxItem)
      → NodupIds t.rows
      → due_count call.now t.rows ≤ n
      → In r t.rows
      → is_due call.now r ≡ true
      → In (acked call.now r) (drain rt call (suc limit) lease_seconds n t).rows
  unfolding drain
  drain-delivers_one zero t r u h m due =
      absurd (omega (arith, due_counted call.now r t.rows m due))
  drain-delivers_one (suc n) t r u h m due = elim (Bool-cases (contains (picks t) r.id)) [
    | inl chosen ↦
        drain-keeps n (after t) (acked call.now r) (NodupIds-after t u)
          (rw chosen at (In-after t r m)) (acked-not_due call.now r)
    | inr left ↦
        drain-delivers_one n (after t) r (NodupIds-after t u) (fewer_after n t h)
          (rw left at (In-after t r m)) due
  ]

  drain-none_due :
      (n : ℕ) (t : Table)
      → due_count call.now t.rows ≤ n
      → All (λ r. is_due call.now r ≡ false) (drain rt call (suc limit) lease_seconds n t).rows
  unfolding drain
  drain-none_due zero t h = elim (due_or_none call.now t.rows) [
    | inl none_due ↦ none_due
    | inr (r, m, due) ↦ absurd (omega (arith, due_counted call.now r t.rows m due))
  ]
  drain-none_due (suc n) t h = drain-none_due n (after t) (fewer_after n t h)

-- A worker that pulls one item or more at a time and acknowledges what it gets delivers everything,
-- while the database answers and nobody else holds rows: after as many rounds as
-- items are due, none is due any more, each that was due is sent, and a row that was not due is as it was.
pub drain-delivers :
    (rt : Runtime) (call : Call) (limit lease_seconds rounds : ℕ) (t : Table)
    → IsHealthy call
    → 0 < limit
    → IsValid t
    → length (keep (is_due call.now) t.rows) ≤ rounds
    → let t' = drain rt call limit lease_seconds rounds t in
      All (λ r. is_due call.now r ≡ false) t'.rows
      × ((r : OutboxItem)
          → In r t.rows
          → In (if is_due call.now r then acked call.now r else r) t'.rows)
drain-delivers rt call zero lease_seconds rounds t healthy positive v h = absurd (omega arith)
drain-delivers rt call (suc limit) lease_seconds rounds t healthy positive v h = (
  drain-none_due rt call limit lease_seconds healthy rounds t h,
  λ r m. elim (Bool-cases (is_due call.now r)) [
    | inl due ↦
        rw due (drain-delivers_one rt call limit lease_seconds healthy rounds t r v.unique h m due)
    | inr waits ↦
        rw waits (drain-keeps rt call limit lease_seconds healthy rounds t r v.unique m waits)
  ],
)
