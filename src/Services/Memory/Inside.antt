-- ===== src/Services/Memory/Inside.antt =====
-- brain-python/services/memory.py: which memories a command of a group's administrator can change.
use test_bot.Base.{==-true, All, Bool-cases, sym}
use test_bot.Floats.{add}
use test_bot.Services.Memory.Score.{age_days, decay_score_for}
use test_bot.Services.Memory.Ageing.{aged_row, as_record, fate}
use test_bot.Services.Memory.Store.{counted}
use test_bot.Base.{contains, list_eq, map, nat_eq, ◌==◌}
use test_bot.Value.{Float}
use test_bot.Services.Memory.{archived_row, group_rows, removed, user_rows}
use test_bot.Services.Memory.Ageing.{can_stale, confirmed_row, stale_row}
use test_bot.Services.Memory.Store.{Decayed, decay_each}
use test_bot.Base.{arith, ℕ}
use test_bot.Services.Memory.Ageing.{Clock, confirm_memory, mark_stale}
use test_bot.Base.{
  Bool, List, Option, [], false, if◌then◌else◌, inl, inr, none, some, true, ◌∷◌, ◌≡◌, ◌⊎◌,
}
use test_bot.Text.{Text}
use mathlib.Core.Path.{subst}
use test_bot.Services.Outbox.{before}
use test_bot.Services.Extractor.{Attempt}
use test_bot.Services.Memory.{
  MemoryRow, equals, update_where, delete_memory, delete_user, delete_group, archive_memory,
  addressed,
}
use test_bot.Services.Memory.Store.{
  World, Action, Memories, Fault, after, settle, run_statement, sent_to, done, query, on_rows,
  checked_statement,
}
use test_bot.Services.Memory.Ageing.{is_global}
use test_bot.Base.Result.{raise, return}

-- A row of another group or of none that is not global.
abbrev pub Outside : Text → MemoryRow → Type 0
Outside group_id r = (equals r.group_id group_id ≡ false) × (is_global r ≡ false)

abbrev pub In : MemoryRow → List MemoryRow → Type 0
In r [] = ⊥
In r (s ∷ ss) = (r ≡ s) ⊎ In r ss

-- Every row of a kind stays.
abbrev pub Spares : (MemoryRow → Type 0) → List MemoryRow → List MemoryRow → Type 0
Spares Kept before after_ = (r : MemoryRow) → Kept r → In r before → In r after_

module _ (Kept : MemoryRow → Type 0) where
  pub update_where-Spares :
      (p : MemoryRow → Bool) (f : MemoryRow → MemoryRow) (rows : List MemoryRow)
      → ((r : MemoryRow) → Kept r → p r ≡ false)
      → Spares Kept rows (update_where p f rows)
  unfolding update_where
  update_where-Spares p f [] h r out m = m
  update_where-Spares p f (s ∷ ss) h r out (inl e) =
      inl (rw (subst (λ q. p q ≡ false) e (h r out)) e)
  update_where-Spares p f (s ∷ ss) h r out (inr m) = inr (update_where-Spares p f ss h r out m)

  abbrev pub SparesTables : Memories → Memories → Type 0
  SparesTables t t' = Spares Kept t.rows t'.rows

  module _ {ℓ} {A : Type ℓ} where
    abbrev pub SparesResult : Memories → Option (A × Memories) → Type 0
    SparesResult t none = Unit
    SparesResult t (some (a, t')) = SparesTables t t'

    settle-Spares :
        (o : Option (A × Memories)) (w : World)
        → SparesResult w.tables o
        → SparesTables w.tables (settle o w).1.tables
    settle-Spares none w h = λ r out m. m
    settle-Spares (some (a, t')) w h = h

    run_statement-Spares :
        (faults : List (Option Fault)) (change : Memories → Option (A × Memories)) (w : World)
        → SparesResult w.tables (change w.tables)
        → SparesTables w.tables (run_statement faults change w).1.tables
    run_statement-Spares [] change w h = settle-Spares (change w.tables) w h
    run_statement-Spares (none ∷ faults) change w h =
        settle-Spares (change w.tables) (record w { faults = faults }) h
    run_statement-Spares (some fault ∷ faults) change w h = λ r out m. m

    sent_to-Spares :
        (url : Option Text) (change : Memories → Option (A × Memories)) (w : World)
        → SparesResult w.tables (change w.tables)
        → SparesTables w.tables (sent_to url change w).1.tables
    sent_to-Spares none change w h = λ r out m. m
    sent_to-Spares (some url) change w h = run_statement-Spares w.faults change w h

    -- What an action leaves of the rows outside.
    abbrev pub SparesBy : Action A → Type 0
    SparesBy act = (w : World) → SparesTables w.tables (act w).1.tables

    pub checked_statement-Spares :
        (change : Memories → Option (A × Memories)) (w : World)
        → SparesResult w.tables (change w.tables)
        → SparesTables w.tables (checked_statement change w).1.tables
    unfolding checked_statement
    checked_statement-Spares change w h = sent_to-Spares w.database_url change w h

    pub query-Spares : (look : Memories → A) → SparesBy (query look)
    query-Spares look w = checked_statement-Spares _ w (λ r out m. m)

    pub done-Spares : (a : A) → SparesBy (done a)
    done-Spares a w r out m = m

    pub if-Spares :
        (test : Bool) (yes_ no_ : Action A)
        → SparesBy yes_
        → SparesBy no_
        → SparesBy (if test then yes_ else no_)
    if-Spares true yes_ no_ h k = h
    if-Spares false yes_ no_ h k = k

    pub after-Spares {κ} :
        {B : Type κ} (w : World) (o : Attempt B × World) (next : B → Action A)
        → SparesTables w.tables o.1.tables
        → ((b : B) → SparesBy (next b))
        → SparesTables w.tables (after o next).1.tables
    after-Spares w (raise e, w') next h k = h
    after-Spares w (return b, w') next h k = λ r out m. k b w' r out (h r out m)
        -- A statement on the rows.

    pub on_rows-Spares :
        (change : List MemoryRow → A × List MemoryRow) (w : World)
        → Spares Kept w.tables.rows (change w.tables.rows).1
        → SparesTables w.tables (on_rows change w).1.tables
    on_rows-Spares change w h = checked_statement-Spares _ w h

module _ (group_id : Text) where
  pub delete_memory-Spares :
      (now memory_id : ℕ) (rows : List MemoryRow)
      → Spares (Outside group_id) rows (delete_memory now memory_id group_id false rows).1
  unfolding delete_memory addressed
  delete_memory-Spares now memory_id rows =
      update_where-Spares (Outside group_id) (addressed memory_id group_id false) (removed now) rows
        (λ r out. ground (arith, out.0))

  pub archive_memory-Spares :
      (now memory_id : ℕ) (iso actor_id : Text) (rows : List MemoryRow)
      → Spares
          (Outside group_id)
          rows
          (archive_memory now iso memory_id group_id false actor_id rows).1
  unfolding archive_memory addressed
  archive_memory-Spares now memory_id iso actor_id rows =
      update_where-Spares (Outside group_id) (addressed memory_id group_id false)
        (archived_row now actor_id iso) rows (λ r out. ground (arith, out.0))

  pub confirm_memory-Spares :
      (clock : Clock) (memory_id : ℕ) (actor_id : Text) (rows : List MemoryRow)
      → Spares
          (Outside group_id)
          rows
          (confirm_memory clock memory_id group_id false actor_id rows).1
  unfolding confirm_memory addressed
  confirm_memory-Spares clock memory_id actor_id rows =
      update_where-Spares (Outside group_id) (addressed memory_id group_id false)
        (confirmed_row clock actor_id) rows (λ r out. ground (arith, out.0))

  pub mark_stale-Spares :
      (clock : Clock) (memory_id : ℕ) (actor_id : Text) (rows : List MemoryRow)
      → Spares (Outside group_id) rows (mark_stale clock memory_id group_id false actor_id rows).1
  unfolding mark_stale
  mark_stale-Spares clock memory_id actor_id rows =
      update_where-Spares (Outside group_id) (can_stale memory_id group_id false)
        (stale_row clock actor_id) rows (λ r out. ground (arith, out.0))

  pub delete_user-Spares :
      (now : ℕ) (user_id : Text) (rows : List MemoryRow)
      → Spares (Outside group_id) rows (delete_user now group_id user_id rows).1
  unfolding delete_user
  delete_user-Spares now user_id rows =
      update_where-Spares (Outside group_id) (user_rows group_id user_id) (removed now) rows
        (λ r out. ground (arith, out.0))

  pub delete_group-Spares :
      (now : ℕ) (rows : List MemoryRow)
      → Spares (Outside group_id) rows (delete_group now group_id rows).1
  unfolding delete_group
  delete_group-Spares now rows =
      update_where-Spares (Outside group_id) (group_rows group_id) (removed now) rows
        (λ r out. ground (arith, out.0))

abbrev pub memory_ids : List MemoryRow → List ℕ
memory_ids rows = map (λ (r : MemoryRow). r.id) rows

-- The loop of the decay changes the rows that were scanned.
pub decay_each-Spares :
    (days : Float) (rs : List MemoryRow) (result : Decayed)
    → SparesBy (λ s. contains (memory_ids rs) s.id ≡ false) (decay_each days rs result)
unfolding decay_each
decay_each-Spares days [] result w = λ r kept m. m
decay_each-Spares days (q ∷ rs) result w =
    let old = as_record q in
    let age = add (age_days q.last_seen_at w.clock.now) days in
    let decay = decay_score_for old.memory_class age in
    let ends = fate old.lifecycle_status age decay in
    let aged = update_where (λ s. s.id == q.id) (aged_row w.clock.now old decay ends) in
    after-Spares (λ s. contains (memory_ids (q ∷ rs)) s.id ≡ false) w
      (on_rows {A = Unit {0}} (λ rows. (tt, aged rows)) w)
      (λ wrote. decay_each days rs (counted ends result))
      (on_rows-Spares (λ s. contains (memory_ids (q ∷ rs)) s.id ≡ false) (λ rows. (tt, aged rows)) w
        (update_where-Spares (λ s. contains (memory_ids (q ∷ rs)) s.id ≡ false) (λ s. s.id == q.id)
          (aged_row w.clock.now old decay ends) w.tables.rows (λ s kept. ground arith)))
      (λ wrote w' r kept m. decay_each-Spares days rs (counted ends result) w' r (ground arith) m)

-- No two rows have one id (`PRIMARY KEY`).
abbrev pub UniqueIds : List MemoryRow → Type 0
UniqueIds rows = (q r : MemoryRow) → In q rows → In r rows → q.id ≡ r.id → q ≡ r

pub In-scanned :
    (P : MemoryRow → Type 0) (rows : List MemoryRow) (id : ℕ)
    → All P rows
    → contains (memory_ids rows) id ≡ true
    → (q : MemoryRow) × P q × (q.id ≡ id)
In-scanned P [] id a h = cc
In-scanned P (q ∷ qs) id (k, ks) h = elim (Bool-cases (id == q.id)) [
  | inl same ↦ (q, k, sym (==-true id q.id same))
  | inr differs ↦ In-scanned P qs id ks (ground arith)
]
