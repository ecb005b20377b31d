-- ===== src/Services/Outbox/Lease.antt =====
-- Leases and final states over sequences of calls: when an item can be delivered again.
use test_bot.Base.{All, Bool-cases, some, ◌<◌, ◌∙◌, ◌≢◌}
use test_bot.Base.{
  Bool, List, Option-cases, [], ap, arith, contains, false, if◌then◌else◌, inl, inr, list_eq,
  nat_eq, refl, true, ℕ, ◌++◌, ◌+◌, ◌∷◌, ◌≡◌, ◌⊎◌,
}
use test_bot.Value.{Runtime, items}
use test_bot.Schemas.{OutboxEnqueueRequest}
use test_bot.Services.Outbox.{
  OutboxItem, Table, Call, Result, ok, err, processing, sent, failed, fetch_all, update_rows,
  returning, update_statement, ids, enqueue, prepare, pull, picked, is_due, lease, ack, can_ack,
  acked, fail, can_fail, failed_row, trim_error,
}
use test_bot.Services.Outbox.Rows.{In, NodupIds, All-In}
use test_bot.Services.Outbox.Pick.{picked-IsDue}
use test_bot.Services.Outbox.Run.{Event, enqueued, pulled, acked_item, failed_item, step, run}
use test_bot.Services.Outbox.Invariant.{
  IsValid, IsValidItem, IsAdmissible, step-IsValid, Result-cases,
}

-- The items that a call delivers: those that `pull` returns.
abbrev pub delivered_items : Result (List OutboxItem) → List OutboxItem
delivered_items (ok items) = items
delivered_items (err e) = []

unfoldable pub delivers : Call → Event → Table → ℕ → Bool
delivers call (pulled held limit lease_seconds) t i =
    contains (ids (delivered_items (pull call held limit lease_seconds t).0)) i
delivers call _ t i = false

-- How many of the calls deliver the item.
unfoldable pub deliveries : Runtime → ℕ → List (Call × Event) → Table → ℕ
deliveries rt i [] t = 0
deliveries rt i ((call, event) ∷ events) t =
    (if delivers call event t i then 1 else 0) + deliveries rt i events (step rt call event t)

pub In-append : (r s : OutboxItem) (rows : List OutboxItem) → In r rows → In r (rows ++ (s ∷ []))
In-append r s [] m = absurd m
In-append r s (q ∷ qs) (inl e) = inl e
In-append r s (q ∷ qs) (inr m) = inr (In-append r s qs m)

-- A row under a statement: the same row if the statement does not select it, else the updated one.
pub In-update_rows :
    (p : OutboxItem → Bool) (f : OutboxItem → OutboxItem) (r : OutboxItem) (rows : List OutboxItem)
    → In r rows
    → In (if p r then f r else r) (update_rows p f rows)
unfolding update_rows
In-update_rows p f r [] m = absurd m
In-update_rows p f r (s ∷ ss) (inl e) = inl (ap (λ q. if p q then f q else q) e)
In-update_rows p f r (s ∷ ss) (inr m) = inr (In-update_rows p f r ss m)

-- What one statement does to a row of the table, by the error of the call.
fetch_all-In :
    (call : Call) (p : OutboxItem → Bool) (f : OutboxItem → OutboxItem) (t : Table) (r : OutboxItem)
    → In r t.rows
    → In r (fetch_all call (update_statement p f) t).1.rows
      ⊎ In (if p r then f r else r) (fetch_all call (update_statement p f) t).1.rows
unfolding fetch_all
fetch_all-In call p f t r m = elim (Option-cases call.database_url) [
  | inl missing ↦ inl (rw missing m)
  | inr (url, there) ↦ elim (Option-cases call.fault) [
    | inl fine ↦ inr (rw (there, fine) (In-update_rows p f r t.rows m))
    | inr (e, broken) ↦ inl (rw (there, broken) m)
  ]
]

In-fetch_all_unselected :
    (call : Call) (p : OutboxItem → Bool) (f : OutboxItem → OutboxItem) (t : Table) (r : OutboxItem)
    → p r ≡ false
    → In r t.rows
    → In r (fetch_all call (update_statement p f) t).1.rows
In-fetch_all_unselected call p f t r h m = elim (fetch_all-In call p f t r m) [
  | inl same ↦ same
  | inr changed ↦ rw h at changed
]

In-enqueue :
    (rt : Runtime) (call : Call) (request : OutboxEnqueueRequest) (t : Table) (r : OutboxItem)
    → In r t.rows
    → In r (enqueue rt call request t).1.rows
unfolding enqueue fetch_all
In-enqueue rt call request t r m = elim (Result-cases (prepare rt request)) [
  | inl (e, refused) ↦ rw (refused, enqueue) m
  | inr (type, found) ↦ elim (Option-cases call.database_url) [
    | inl missing ↦ rw (found, enqueue) (rw (missing, fetch_all) m)
    | inr (url, there) ↦ elim (Option-cases call.fault) [
      | inl fine ↦
          rw (found, enqueue)
            (rw (there, fetch_all) (rw (fine, fetch_all) (In-append r _ t.rows m)))
      | inr (e, broken) ↦ rw (found, enqueue) (rw (there, fetch_all) (rw (broken, fetch_all) m))
    ]
  ]
]

returning-ids :
    (chosen : List ℕ) (f : OutboxItem → OutboxItem) (rows : List OutboxItem) (i : ℕ)
    → ((r : OutboxItem) → (f r).id ≡ r.id)
    → contains (ids (returning (λ r. contains chosen r.id) f rows)) i ≡ true
    → contains chosen i ≡ true
unfolding returning
returning-ids chosen f [] i same h = cc
returning-ids chosen f (r ∷ rs) i same h = ground (arith, same r, returning-ids chosen f rs i same)

abbrev pub chosen_ids : Call → List ℕ → ℕ → Table → List ℕ
chosen_ids call held limit t = ids (picked call.now held limit t.rows)

pub not_due-chosen :
    (call : Call) (held : List ℕ) (limit : ℕ) (t : Table) (r : OutboxItem)
    → NodupIds t.rows
    → In r t.rows
    → is_due call.now r ≡ false
    → contains (chosen_ids call held limit t) r.id ≡ false
not_due-chosen call held limit t r u m h =
    elim (Bool-cases (contains (chosen_ids call held limit t) r.id)) [
      | inl chosen ↦ absurd (ground (arith, picked-IsDue call.now held limit t.rows r u m chosen))
      | inr other ↦ other
    ]

pub not_returned :
    (chosen : List ℕ) (f : OutboxItem → OutboxItem) (rows : List OutboxItem) (i : ℕ)
    → ((r : OutboxItem) → (f r).id ≡ r.id)
    → contains chosen i ≡ false
    → contains (ids (returning (λ r. contains chosen r.id) f rows)) i ≡ false
not_returned chosen f rows i same h =
    elim (Bool-cases (contains (ids (returning (λ r. contains chosen r.id) f rows)) i)) [
      | inl there ↦ absurd (ground (arith, returning-ids chosen f rows i same there))
      | inr other ↦ other
    ]

-- A row that is not due is not delivered.
not_due-delivers :
    (call : Call) (event : Event) (t : Table) (r : OutboxItem)
    → NodupIds t.rows
    → In r t.rows
    → is_due call.now r ≡ false
    → delivers call event t r.id ≡ false
unfolding delivers pull fetch_all
not_due-delivers call (pulled held limit lease_seconds) t r u m h =
    let other = not_due-chosen call held limit t r u m h in
    elim (Option-cases call.database_url) [
      | inl missing ↦ rw (missing, fetch_all)
      | inr (url, there) ↦ elim (Option-cases call.fault) [
        | inr (e, broken) ↦ rw (there, fetch_all) (rw (broken, fetch_all))
        | inl fine ↦
            rw (there, fetch_all)
              (rw (fine, fetch_all)
                (not_returned (chosen_ids call held limit t) (lease call.now lease_seconds) t.rows
                  r.id (λ q. refl) other))
      ]
    ]
not_due-delivers call _ t r u m h = refl

-- A call that comes before the lease ends and does not settle the item.
abbrev pub Quiet : ℕ → ℕ → Call × Event → Type 0
Quiet i until (call, pulled held limit lease_seconds) = call.now < until
Quiet i until (call, acked_item item_id) = item_id ≢ i
Quiet i until (call, failed_item item_id error) = item_id ≢ i
Quiet i until (call, enqueued request) = Unit

leased-not_due :
    (now until : ℕ) (r : OutboxItem)
    → r.status ≡ processing
    → r.locked_until ≡ some until
    → now < until
    → is_due now r ≡ false
unfolding is_due
leased-not_due now until r s l h = ground arith

step-keeps_leased :
    (rt : Runtime) (call : Call) (event : Event) (t : Table) (r : OutboxItem) (until : ℕ)
    → NodupIds t.rows
    → In r t.rows
    → r.status ≡ processing
    → r.locked_until ≡ some until
    → Quiet r.id until (call, event)
    → In r (step rt call event t).rows × (delivers call event t r.id ≡ false)
unfolding step delivers pull ack fail can_ack can_fail
step-keeps_leased rt call (enqueued request) t r until u m s l q =
    (In-enqueue rt call request t r m, refl)
step-keeps_leased rt call (pulled held limit lease_seconds) t r until u m s l q =
    let wait = leased-not_due call.now until r s l q in
    (
      In-fetch_all_unselected call (λ r. contains (chosen_ids call held limit t) r.id)
          (lease call.now lease_seconds) t r (not_due-chosen call held limit t r u m wait) m,
      not_due-delivers call (pulled held limit lease_seconds) t r u m wait,
    )
step-keeps_leased rt call (acked_item item_id) t r until u m s l q =
    (In-fetch_all_unselected call (can_ack item_id) (acked call.now) t r (ground arith) m, refl)
step-keeps_leased rt call (failed_item item_id error) t r until u m s l q = (
  In-fetch_all_unselected call (can_fail item_id) (failed_row call.now (trim_error error)) t r
      (ground arith) m,
  refl,
)

-- While an item is leased, no call delivers it again and nothing changes its row: whatever is
-- enqueued, pulled before the lease ends, or acknowledged and failed of other items.
pub run-keeps_leased :
    (rt : Runtime) (events : List (Call × Event)) (t : Table) (r : OutboxItem) (until : ℕ)
    → IsValid t
    → All (λ e. IsAdmissible e.1) events
    → In r t.rows
    → r.status ≡ processing
    → r.locked_until ≡ some until
    → All (Quiet r.id until) events
    → In r (run rt events t).rows × (deliveries rt r.id events t ≡ 0)
unfolding run deliveries
run-keeps_leased rt [] t r until v a m s l q = (m, refl)
run-keeps_leased rt ((call, event) ∷ events) t r until v (a, as_) m s l (q, qs) =
    let kept = step-keeps_leased rt call event t r until v.unique m s l q in
    let rest =
      run-keeps_leased rt events (step rt call event t) r until (step-IsValid rt call event t a v)
        as_ kept.0 s l qs in
    (rest.0, rw (kept.1, rest.1) (omega arith))

-- A delivered or given-up item, and what never changes of it.
abbrev pub IsSettled : OutboxItem → Type 0
IsSettled r = (r.status ≡ sent) ⊎ (r.status ≡ failed)

pub record SameEnd (r s : OutboxItem) : Type 0 where
  pub id : s.id ≡ r.id
  pub status : s.status ≡ r.status
  pub attempts : s.attempts ≡ r.attempts
  pub sent_at : s.sent_at ≡ r.sent_at
  pub failed_at : s.failed_at ≡ r.failed_at
  pub messages : s.messages ≡ r.messages

SameEnd-refl : (r : OutboxItem) → SameEnd r r
SameEnd-refl r = record {
  id = refl;
  status = refl;
  attempts = refl;
  sent_at = refl;
  failed_at = refl;
  messages = refl;
}

SameEnd-trans : (r s t : OutboxItem) → SameEnd r s → SameEnd s t → SameEnd r t
SameEnd-trans r s t h k = record {
  id = k.id ∙ h.id;
  status = k.status ∙ h.status;
  attempts = k.attempts ∙ h.attempts;
  sent_at = k.sent_at ∙ h.sent_at;
  failed_at = k.failed_at ∙ h.failed_at;
  messages = k.messages ∙ h.messages;
}

settled-not_due : (now : ℕ) (r : OutboxItem) → IsSettled r → is_due now r ≡ false
unfolding is_due
settled-not_due now r h = ground arith

settled-acked :
    (item_id now : ℕ) (r : OutboxItem)
    → IsSettled r
    → IsValidItem r
    → SameEnd r (if can_ack item_id r then acked now r else r)
unfolding can_ack
settled-acked item_id now r h v = record {
  id = ground arith;
  status = ground arith;
  attempts = ground arith;
  sent_at = ground (arith, v.delivered);
  failed_at = ground arith;
  messages = ground arith;
}

step-settled :
    (rt : Runtime) (call : Call) (event : Event) (t : Table) (r : OutboxItem)
    → IsValid t
    → In r t.rows
    → IsSettled r
    → ((s : OutboxItem) × In s (step rt call event t).rows × SameEnd r s)
      × (delivers call event t r.id ≡ false)
unfolding step delivers pull ack fail can_fail
step-settled rt call (enqueued request) t r v m h =
    ((r, In-enqueue rt call request t r m, SameEnd-refl r), refl)
step-settled rt call (pulled held limit lease_seconds) t r v m h =
    let wait = settled-not_due call.now r h in
    (
      (
        r,
        In-fetch_all_unselected call (λ r. contains (chosen_ids call held limit t) r.id)
            (lease call.now lease_seconds) t r (not_due-chosen call held limit t r v.unique m wait)
            m,
        SameEnd-refl r,
      ),
      not_due-delivers call (pulled held limit lease_seconds) t r v.unique m wait,
    )
step-settled rt call (acked_item item_id) t r v m h = (
  elim (fetch_all-In call (can_ack item_id) (acked call.now) t r m) [
    | inl same ↦ (r, same, SameEnd-refl r)
    | inr changed ↦ (
      if can_ack item_id r then acked call.now r else r,
      changed,
      settled-acked item_id call.now r h (All-In IsValidItem r t.rows v.items m),
    )
  ],
  refl,
)
step-settled rt call (failed_item item_id error) t r v m h = (
  (
    r,
    In-fetch_all_unselected call (can_fail item_id) (failed_row call.now (trim_error error)) t r
        (ground arith) m,
    SameEnd-refl r,
  ),
  refl,
)

-- An item that is sent or has failed stays so under all calls: none delivers it again, and its
-- status, its attempts, its messages and the time of its end stay as they are.
pub run-settled :
    (rt : Runtime) (events : List (Call × Event)) (t : Table) (r : OutboxItem)
    → IsValid t
    → All (λ e. IsAdmissible e.1) events
    → In r t.rows
    → IsSettled r
    → ((s : OutboxItem) × In s (run rt events t).rows × SameEnd r s)
      × (deliveries rt r.id events t ≡ 0)
unfolding run deliveries
run-settled rt [] t r v a m h = ((r, m, SameEnd-refl r), refl)
run-settled rt ((call, event) ∷ events) t r v (a, as_) m h =
    let ((s, n, e), quiet) = step-settled rt call event t r v m h in
    let ((q, k, e'), rest) =
      run-settled rt events (step rt call event t) s (step-IsValid rt call event t a v) as_ n
        (rw e.status h) in
    ((q, k, SameEnd-trans r s q e e'), rw (quiet, (rw e.id at rest)) (omega arith))
