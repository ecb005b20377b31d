-- ===== src/Services/Memory/Decaying.antt =====
-- brain-python/services/memory.py: ageing changes memories of the group and global ones alone.
use test_bot.Base.{Option, none, some}
use test_bot.Value.{Float}
use test_bot.Services.Memory.Store.{decay_by}
use test_bot.Base.{sym}
use test_bot.Base.Int.{pos}
use mathlib.Core.Path.{subst}
use test_bot.Floats.{float_of_int}
use test_bot.Services.Extractor.{Attempt}
use test_bot.Services.Extractor.Tried.{Ran, statement-Ran}
use test_bot.Services.Memory.Inside.{In-scanned, SparesBy, decay_each-Spares}
use test_bot.Base.{
  All, Bool, Bool-cases, List, [], arith, contains, false, inl, inr, is_empty_ne, keep, leb,
  list_eq, ltb, nat_eq, refl, suc, take, true, zero, ℕ, ◌&&◌, ◌==◌, ◌||◌, ◌∷◌, ◌≡◌, ◌≢◌,
}
use test_bot.Text.{Text}
use test_bot.Services.Memory.Inside.{UniqueIds, memory_ids}
use test_bot.Services.Memory.{MemoryRow}
use test_bot.Services.Memory.Inside.{In, Outside, SparesTables}
use test_bot.Services.Memory.Ageing.{sort_by_age, insert_by_age, within, can_decay}
use test_bot.Services.Memory.Store.{World, Memories, after, scanned_rows, decay_rows, apply_decay}
use test_bot.Base.Result.{raise, return}

In-keep :
    (p : MemoryRow → Bool) (rows all : List MemoryRow)
    → ((r : MemoryRow) → In r rows → In r all)
    → All (λ r. In r all × (p r ≡ true)) (keep p rows)
In-keep p [] all h = tt
In-keep p (r ∷ rs) all h = elim (Bool-cases (p r)) [
  | inl keeps ↦ rw keeps ((h r (inl refl), keeps), In-keep p rs all (λ q m. h q (inr m)))
  | inr drops ↦ rw drops (In-keep p rs all (λ q m. h q (inr m)))
]

module _ (P : MemoryRow → Type 0) where
  All-insert_by_age :
      (r : MemoryRow) (rows : List MemoryRow) → P r → All P rows → All P (insert_by_age r rows)
  unfolding insert_by_age
  All-insert_by_age r [] h a = (h, tt)
  All-insert_by_age r (s ∷ ss) h (k, ks) =
      elim (Bool-cases (
        ltb r.last_seen_at s.last_seen_at || (r.last_seen_at == s.last_seen_at && leb r.id s.id))) [
          | inl first ↦ rw first (h, (k, ks))
          | inr behind_ ↦ rw behind_ (k, All-insert_by_age r ss h ks)
        ]

  All-sort_by_age : (rows : List MemoryRow) → All P rows → All P (sort_by_age rows)
  unfolding sort_by_age
  All-sort_by_age [] a = tt
  All-sort_by_age (r ∷ rs) (k, ks) = All-insert_by_age r (sort_by_age rs) k (All-sort_by_age rs ks)

  All-take : (n : ℕ) (rows : List MemoryRow) → All P rows → All P (take n rows)
  All-take zero rows a = tt
  All-take (suc n) [] a = tt
  All-take (suc n) (r ∷ rs) (k, ks) = (k, All-take n rs ks)

module _ (group_id : Text) (named : group_id ≢ []) where
  Outside-not_within : (r : MemoryRow) → Outside group_id r → within group_id r ≡ false
  unfolding within
  Outside-not_within r out = ground (arith, is_empty_ne group_id named, out.0, out.1)

  within_of : (r : MemoryRow) → can_decay group_id r ≡ true → within group_id r ≡ true
  unfolding can_decay
  within_of r h = ground arith

  both_ways : {b : Bool} → b ≡ true → b ≡ false → ⊥
  both_ways h k = cc

  Outside-not_scanned :
      (t : Memories) (r : MemoryRow)
      → UniqueIds t.rows
      → Outside group_id r
      → In r t.rows
      → contains (memory_ids (scanned_rows group_id t)) r.id ≡ false
  unfolding scanned_rows can_decay
  Outside-not_scanned t r unique out m =
      elim (Bool-cases (contains (memory_ids (scanned_rows group_id t)) r.id)) [
        | inr fine ↦ fine
        | inl there ↦
            let kept = In-keep (can_decay group_id) t.rows t.rows (λ q n. n) in
            let all =
              All-take _ 500 _ (All-sort_by_age _ (keep (can_decay group_id) t.rows) kept) in
            let (q, facts, same) = In-scanned _ (scanned_rows group_id t) r.id all there in
            let inside =
              subst (λ (s : MemoryRow). can_decay group_id s ≡ true) (unique q r facts.0 m same)
                facts.1 in
            absurd (both_ways (within_of r inside) (Outside-not_within r out))
      ]

  decay_by-Spares :
      (days : Option Float) (rows : List MemoryRow)
      → SparesBy (λ s. contains (memory_ids rows) s.id ≡ false) (decay_by days rows)
  decay_by-Spares none rows w = λ r kept m. m
  decay_by-Spares (some days) rows w = decay_each-Spares days rows _ w

  decay_rows-Spares :
      (days : ℕ) (rows : List MemoryRow)
      → SparesBy (λ s. contains (memory_ids rows) s.id ≡ false) (decay_rows days rows)
  unfolding decay_rows
  decay_rows-Spares days [] w = λ s kept m. m
  decay_rows-Spares days (r ∷ rs) w = decay_by-Spares (float_of_int (pos days)) (r ∷ rs) w

  scanned-Spares :
      (days : ℕ) (w : World) (o : Attempt (List MemoryRow) × World)
      → UniqueIds w.tables.rows
      → Ran (λ t. (scanned_rows group_id t, t)) w o
      → SparesTables (Outside group_id) w.tables (after o (decay_rows days)).1.tables
  scanned-Spares days w (raise e, w') unique h =
      λ r out m. subst (λ (t : Memories). In r t.rows) (sym h.tables) m
  scanned-Spares days w (return rows, w') unique (same, tables, healthy_) = λ r out m.
      subst (λ (rs : List MemoryRow). In r (decay_rows days rs w').1.tables.rows) (sym same)
        (decay_rows-Spares days (scanned_rows group_id w.tables) w' r
          (Outside-not_scanned w.tables r unique out m)
          (subst (λ (t : Memories). In r t.rows) (sym tables) m))

  pub apply_decay-Spares :
      (days : ℕ) (w : World)
      → UniqueIds w.tables.rows
      → SparesTables (Outside group_id) w.tables (apply_decay group_id days w).1.tables
  unfolding apply_decay
  apply_decay-Spares days w unique =
      scanned-Spares days w _ unique (statement-Ran (λ t. (scanned_rows group_id t, t)) w)
