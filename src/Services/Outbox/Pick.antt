-- ===== src/Services/Outbox/Pick.antt =====
-- The rows that one `pull` selects.
use test_bot.Base.{length, length-take, sym, ◌∙◌}
use test_bot.Base.{
  All, Bool, Bool-cases, List, [], ap, arith, contains, drop, false, inl, inr, keep, list_eq,
  nat_eq, not, refl, suc, take, true, zero, ℕ, ◌&&◌, ◌<◌, ◌==◌, ◌||◌, ◌∷◌, ◌≡◌, ◌≤◌, ◌⊎◌,
}
use test_bot.Services.Outbox.{OutboxItem, ids, before, insert_by_age, sort_by_age, picked, is_due}
use test_bot.Services.Outbox.Rows.{In, All-In, In-ids, NodupIds, contains-ids-keep}

module _ (i : ℕ) where
  contains-ids-insert :
      (r : OutboxItem) (rows : List OutboxItem)
      → contains (ids (insert_by_age r rows)) i ≡ (i == r.id || contains (ids rows) i)
  unfolding insert_by_age
  contains-ids-insert r [] = refl
  contains-ids-insert r (s ∷ ss) = ground (arith, contains-ids-insert r ss)

  contains-ids-sort :
      (rows : List OutboxItem) → contains (ids (sort_by_age rows)) i ≡ contains (ids rows) i
  unfolding sort_by_age
  contains-ids-sort [] = refl
  contains-ids-sort (r ∷ rs) =
      ground (arith, contains-ids-insert r (sort_by_age rs), contains-ids-sort rs)

  contains-ids-take :
      (n : ℕ) (rows : List OutboxItem)
      → contains (ids (take n rows)) i ≡ true
      → contains (ids rows) i ≡ true
  contains-ids-take zero rows h = cc
  contains-ids-take (suc n) [] h = h
  contains-ids-take (suc n) (r ∷ rs) h = ground (arith, contains-ids-take n rs)

-- A row of a table of distinct ids that a `pull` picks is due, and no other transaction holds it.
pub picked-IsDue :
    (now : ℕ) (held : List ℕ) (limit : ℕ) (rows : List OutboxItem) (r : OutboxItem)
    → NodupIds rows
    → In r rows
    → contains (ids (picked now held limit rows)) r.id ≡ true
    → (is_due now r ≡ true) × (contains held r.id ≡ false)
unfolding picked
picked-IsDue now held limit rows r u m h =
    let free = λ (s : OutboxItem). is_due now s && not (contains held s.id) in
    let kept = keep free rows in
    ground (
      arith,
      contains-ids-take r.id limit (sort_by_age kept),
      contains-ids-sort r.id kept,
      contains-ids-keep free rows r u m,
    )

-- The order of `ORDER BY created_at, id`.
abbrev pub Older : OutboxItem → OutboxItem → Type 0
Older r s = (r.created_at < s.created_at) ⊎ ((r.created_at ≡ s.created_at) × (r.id ≤ s.id))

abbrev pub OldestFirst : List OutboxItem → Type 0
OldestFirst [] = Unit
OldestFirst (r ∷ rs) = All (Older r) rs × OldestFirst rs

before-Older : (r s : OutboxItem) → before r s ≡ true → Older r s
unfolding before
before-Older r s h = ground arith

not_before-Older : (r s : OutboxItem) → before r s ≡ false → Older s r
unfolding before
not_before-Older r s h = ground arith

Older-trans : (r s t : OutboxItem) → Older r s → Older s t → Older r t
Older-trans r s t h k = ground arith

All-Older :
    (r s : OutboxItem) (rows : List OutboxItem)
    → Older r s
    → All (Older s) rows
    → All (Older r) rows
All-Older r s [] h a = tt
All-Older r s (t ∷ ts) h (k, ks) = (Older-trans r s t h k, All-Older r s ts h ks)

pub All-insert_by_age :
    (P : OutboxItem → Type 0) (r : OutboxItem) (rows : List OutboxItem)
    → P r
    → All P rows
    → All P (insert_by_age r rows)
unfolding insert_by_age
All-insert_by_age P r [] h a = (h, tt)
All-insert_by_age P r (s ∷ ss) h (k, ks) = ground (arith, All-insert_by_age P r ss h ks)

insert_by_age-OldestFirst :
    (r : OutboxItem) (rows : List OutboxItem)
    → OldestFirst rows
    → OldestFirst (insert_by_age r rows)
unfolding insert_by_age
insert_by_age-OldestFirst r [] o = (tt, tt)
insert_by_age-OldestFirst r (s ∷ ss) (a, o) = elim (Bool-cases (before r s)) [
  | inl older ↦
      rw older ((before-Older r s older, All-Older r s ss (before-Older r s older) a), (a, o))
  | inr younger ↦ rw younger (
    All-insert_by_age (Older s) r ss (not_before-Older r s younger) a,
    insert_by_age-OldestFirst r ss o,
  )
]

sort_by_age-OldestFirst : (rows : List OutboxItem) → OldestFirst (sort_by_age rows)
unfolding sort_by_age
sort_by_age-OldestFirst [] = tt
sort_by_age-OldestFirst (r ∷ rs) =
    insert_by_age-OldestFirst r (sort_by_age rs) (sort_by_age-OldestFirst rs)

-- A list, oldest first, is its first rows, and others that are younger than each of them.
All-take-drop :
    (n : ℕ) (r : OutboxItem) (rows : List OutboxItem)
    → All (Older r) rows
    → All (Older r) (take n rows) × All (Older r) (drop n rows)
All-take-drop zero r rows a = (tt, a)
All-take-drop (suc n) r [] a = (tt, tt)
All-take-drop (suc n) r (s ∷ ss) (k, ks) =
    ((k, (All-take-drop n r ss ks).0), (All-take-drop n r ss ks).1)

take-OldestFirst :
    (n : ℕ) (rows : List OutboxItem)
    → OldestFirst rows
    → OldestFirst (take n rows) × All (λ r. All (Older r) (drop n rows)) (take n rows)
take-OldestFirst zero rows o = (tt, tt)
take-OldestFirst (suc n) [] o = (tt, tt)
take-OldestFirst (suc n) (r ∷ rs) (a, o) =
    let rest = take-OldestFirst n rs o in
    let parts = All-take-drop n r rs a in ((parts.0, rest.0), (parts.1, rest.1))

In-take-drop :
    (n : ℕ) (r : OutboxItem) (rows : List OutboxItem)
    → In r rows
    → In r (take n rows) ⊎ (In r (drop n rows) × (length (take n rows) ≡ n))
In-take-drop zero r rows m = inr (m, refl)
In-take-drop (suc n) r [] m = absurd m
In-take-drop (suc n) r (s ∷ ss) (inl e) = inl (inl e)
In-take-drop (suc n) r (s ∷ ss) (inr m) = elim (In-take-drop n r ss m) [
  | inl taken ↦ inl (inr taken)
  | inr (left, full) ↦ inr (left, ap suc full)
]

In-keep :
    (p : OutboxItem → Bool) (r : OutboxItem) (rows : List OutboxItem)
    → In r rows
    → p r ≡ true
    → In r (keep p rows)
In-keep p r [] m h = absurd m
In-keep p r (s ∷ ss) (inl e) h = rw (ap p (sym e) ∙ h) (inl e)
In-keep p r (s ∷ ss) (inr m) h = elim (Bool-cases (p s)) [
  | inl kept ↦ rw kept (inr (In-keep p r ss m h))
  | inr gone ↦ rw gone (In-keep p r ss m h)
]

In-insert_by_age :
    (r s : OutboxItem) (rows : List OutboxItem) → (r ≡ s) ⊎ In r rows → In r (insert_by_age s rows)
unfolding insert_by_age
In-insert_by_age r s [] m = m
In-insert_by_age r s (t ∷ ts) (inl e) = elim (Bool-cases (before s t)) [
  | inl older ↦ rw older (inl e)
  | inr younger ↦ rw younger (inr (In-insert_by_age r s ts (inl e)))
]
In-insert_by_age r s (t ∷ ts) (inr (inl e)) = elim (Bool-cases (before s t)) [
  | inl older ↦ rw older (inr (inl e))
  | inr younger ↦ rw younger (inl e)
]
In-insert_by_age r s (t ∷ ts) (inr (inr m)) = elim (Bool-cases (before s t)) [
  | inl older ↦ rw older (inr (inr m))
  | inr younger ↦ rw younger (inr (In-insert_by_age r s ts (inr m)))
]

In-sort_by_age : (r : OutboxItem) (rows : List OutboxItem) → In r rows → In r (sort_by_age rows)
unfolding sort_by_age
In-sort_by_age r [] m = m
In-sort_by_age r (s ∷ ss) (inl e) = In-insert_by_age r s (sort_by_age ss) (inl e)
In-sort_by_age r (s ∷ ss) (inr m) =
    In-insert_by_age r s (sort_by_age ss) (inr (In-sort_by_age r ss m))

All-map :
    (P Q : OutboxItem → Type 0) (rows : List OutboxItem)
    → ((r : OutboxItem) → P r → Q r)
    → All P rows
    → All Q rows
All-map P Q [] f a = tt
All-map P Q (r ∷ rs) f (k, ks) = (f r k, All-map P Q rs f ks)

-- A `pull` picks `limit` rows at most, the oldest first. A row that is due, that no other
-- transaction holds and that is not picked is younger than every picked row, and is left only
-- since `limit` rows are picked.
pub picked_oldest :
    (now : ℕ) (held : List ℕ) (limit : ℕ) (rows : List OutboxItem)
    → let chosen = picked now held limit rows in
      (length chosen ≤ limit)
      × OldestFirst chosen
      × ((r : OutboxItem)
          → In r rows
          → is_due now r ≡ true
          → contains held r.id ≡ false
          → contains (ids chosen) r.id ≡ false
          → All (λ s. Older s r) chosen × (length chosen ≡ limit))
unfolding picked
picked_oldest now held limit rows =
    let free = λ (s : OutboxItem). is_due now s && not (contains held s.id) in
    let sorted = sort_by_age (keep free rows) in
    let order = take-OldestFirst limit sorted (sort_by_age-OldestFirst (keep free rows)) in
    (
      omega (arith, length-take limit sorted),
      order.0,
      λ r m due unheld left.
          elim (In-take-drop limit r sorted
            (In-sort_by_age r (keep free rows) (In-keep free r rows m (rw (due, unheld))))) [
              | inl taken ↦ absurd (ground (arith, In-ids r (take limit sorted) taken))
              | inr (behind, full) ↦ (
                All-map (λ s. All (Older s) (drop limit sorted)) (λ s. Older s r)
                    (take limit sorted) (λ s a. All-In (Older s) r (drop limit sorted) a behind)
                    order.1,
                full,
              )
            ],
    )
