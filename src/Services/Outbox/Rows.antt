-- ===== src/Services/Outbox/Rows.antt =====
-- Rows under `UPDATE`, and the ids of a table.
use test_bot.Base.{sym}
use mathlib.Core.Path.{subst}
use test_bot.Base.{
  All, Bool, Bool-cases, List, [], ap, arith, contains, false, inl, inr, keep, list_eq, nat_eq,
  refl, true, ℕ, ◌++◌, ◌==◌, ◌||◌, ◌∷◌, ◌≡◌, ◌⊎◌,
}
use test_bot.Services.Outbox.{OutboxItem, update_rows, ids}

abbrev pub In : OutboxItem → List OutboxItem → Type 0
In r [] = ⊥
In r (s ∷ ss) = (r ≡ s) ⊎ In r ss

abbrev pub NodupIds : List OutboxItem → Type 0
NodupIds [] = Unit
NodupIds (r ∷ rs) = (contains (ids rs) r.id ≡ false) × NodupIds rs

pub In-ids : (r : OutboxItem) (rows : List OutboxItem) → In r rows → contains (ids rows) r.id ≡ true
In-ids r [] m = absurd m
In-ids r (s ∷ ss) (inl e) = ground (arith, ap (λ (q : OutboxItem). q.id) e)
In-ids r (s ∷ ss) (inr m) = ground (arith, In-ids r ss m)

contains-ids_of_keep :
    (p : OutboxItem → Bool) (rows : List OutboxItem) (i : ℕ)
    → contains (ids (keep p rows)) i ≡ true
    → contains (ids rows) i ≡ true
contains-ids_of_keep p [] i h = h
contains-ids_of_keep p (r ∷ rs) i h = ground (arith, contains-ids_of_keep p rs i)

-- Among rows of distinct ids, one whose id is that of a kept row is kept.
pub contains-ids-keep :
    (p : OutboxItem → Bool) (rows : List OutboxItem) (r : OutboxItem)
    → NodupIds rows
    → In r rows
    → contains (ids (keep p rows)) r.id ≡ true
    → p r ≡ true
contains-ids-keep p [] r u m h = absurd m
contains-ids-keep p (s ∷ ss) r (fresh, u) (inl e) h = elim (Bool-cases (p s)) [
  | inl chosen ↦ rw e chosen
  | inr other ↦ ground (arith, ap (λ (q : OutboxItem). q.id) e, contains-ids_of_keep p ss r.id)
]
contains-ids-keep p (s ∷ ss) r (fresh, u) (inr m) h =
    ground (arith, In-ids r ss m, contains-ids-keep p ss r u m)

pub ids-update_rows :
    (p : OutboxItem → Bool) (f : OutboxItem → OutboxItem) (rows : List OutboxItem)
    → ((r : OutboxItem) → (f r).id ≡ r.id)
    → ids (update_rows p f rows) ≡ ids rows
unfolding update_rows
ids-update_rows p f [] h = refl
ids-update_rows p f (r ∷ rs) h = ground (arith, h r, ids-update_rows p f rs h)

pub NodupIds-update_rows :
    (p : OutboxItem → Bool) (f : OutboxItem → OutboxItem) (rows : List OutboxItem)
    → ((r : OutboxItem) → (f r).id ≡ r.id)
    → NodupIds rows
    → NodupIds (update_rows p f rows)
unfolding update_rows
NodupIds-update_rows p f [] h u = tt
NodupIds-update_rows p f (r ∷ rs) h (fresh, u) =
    ground (arith, h r, ids-update_rows p f rs h, NodupIds-update_rows p f rs h u)

-- A statement keeps what holds of each row, if it keeps it of the rows that it selects.
pub All-update_rows {κ} :
    (P : OutboxItem → Type κ) (p : OutboxItem → Bool) (f : OutboxItem → OutboxItem)
    (rows : List OutboxItem)
    → ((r : OutboxItem) → In r rows → p r ≡ true → P r → P (f r))
    → All P rows
    → All P (update_rows p f rows)
unfolding update_rows
All-update_rows P p f [] h a = tt
All-update_rows P p f (r ∷ rs) h (k, ks) = (
  elim (Bool-cases (p r)) [
    | inl chosen ↦ rw chosen (h r (inl refl) chosen k)
    | inr other ↦ rw other k
  ],
  All-update_rows P p f rs (λ q m. h q (inr m)) ks,
)

contains-ids-append :
    (rows : List OutboxItem) (r : OutboxItem) (i : ℕ)
    → contains (ids (rows ++ (r ∷ []))) i ≡ (contains (ids rows) i || i == r.id)
contains-ids-append [] r i = ground arith
contains-ids-append (q ∷ qs) r i = ground (arith, contains-ids-append qs r i)

pub NodupIds-append :
    (rows : List OutboxItem) (r : OutboxItem)
    → NodupIds rows
    → contains (ids rows) r.id ≡ false
    → NodupIds (rows ++ (r ∷ []))
NodupIds-append [] r u h = (refl, tt)
NodupIds-append (s ∷ ss) r (fresh, u) h =
    ground (arith, contains-ids-append ss r s.id, NodupIds-append ss r u)

pub All-append {κ} :
    (P : OutboxItem → Type κ) (rows : List OutboxItem) (r : OutboxItem)
    → All P rows
    → P r
    → All P (rows ++ (r ∷ []))
All-append P [] r a h = (h, tt)
All-append P (s ∷ ss) r (k, ks) h = (k, All-append P ss r ks h)

pub All-In :
    (P : OutboxItem → Type 0) (r : OutboxItem) (rows : List OutboxItem)
    → All P rows
    → In r rows
    → P r
All-In P r [] a m = absurd m
All-In P r (s ∷ ss) (k, ks) (inl e) = subst P (sym e) k
All-In P r (s ∷ ss) (k, ks) (inr m) = All-In P r ss ks m
