-- ===== src/Services/Extractor/Steps.antt =====
-- brain-python/services/memory.py: what statements that are not on runs leave of them.
use test_bot.Services.Memory.Upsert.{allowed, first_seen, seen_again, stored_again, stored_first}
use test_bot.Services.Memory.Ageing.{as_record}
use test_bot.Base.{Bool, false, if◌then◌else◌, true}
use test_bot.Base.{Bool-cases, is_empty, list_eq, nat_eq, ◌==◌, ◌||◌}
use test_bot.Text.{strip}
use test_bot.Value.{Runtime}
use test_bot.Services.Memory.{MemoryRow, normalize_memory_content}
use test_bot.Services.Extractor.{Item}
use test_bot.Services.Memory.Upsert.{
  conflict_id, find_matching_memory, mark_contradicted_memory, store_memory,
  upsert_extracted_memory,
}
use test_bot.Services.Memory.Store.{on_rows, query, sent_to}
use test_bot.Base.{List, none, ◌∷◌}
use test_bot.Services.Memory.Store.{Fault, run_statement}
use test_bot.Base.{Option, [], inl, inr, refl, some, ◌∙◌, ◌≡◌}
use test_bot.Text.{Text}
use test_bot.Services.Extractor.{Attempt}
use test_bot.Base.Result.{raise, return}
use test_bot.Services.Memory.Store.{World, Memories, Action, after, settle, checked_statement}

-- The database answers: the address is configured and no statement raises.
abbrev pub IsHealthy : World → Type 0
IsHealthy w = ((url : Text) × (w.database_url ≡ some url)) × (w.faults ≡ [])

-- The runs stay, and so does the health of the database.
pub record KeepsRuns (w w' : World) : Type 0 where
  pub runs : w'.tables.runs ≡ w.tables.runs
  pub next_run : w'.tables.next_run ≡ w.tables.next_run
  pub health : IsHealthy w → IsHealthy w'

pub KeepsRuns-refl : (w : World) → KeepsRuns w w
KeepsRuns-refl w = record { runs = refl; next_run = refl; health = λ h. h }

pub KeepsRuns-trans : (u v w : World) → KeepsRuns u v → KeepsRuns v w → KeepsRuns u w
KeepsRuns-trans u v w h k = record {
  runs = k.runs ∙ h.runs;
  next_run = k.next_run ∙ h.next_run;
  health = λ healthy. k.health (h.health healthy);
}

pub not_both {ℓ} : {A : Type ℓ} {xs ys : List A} {y : A} → xs ≡ y ∷ ys → xs ≡ [] → ⊥
not_both e h = cc

pub faulty :
    (w : World) (fault : Option Fault) (faults : List (Option Fault))
    → w.faults ≡ fault ∷ faults
    → KeepsRuns w (record w { faults = faults })
faulty w fault faults e = record {
  runs = refl;
  next_run = refl;
  health = λ h. absurd (not_both e h.1);
}

module _ {ℓ} {A : Type ℓ} where
  -- The runs of the result are those of the tables.
  abbrev pub RunsOf : Memories → Option (A × Memories) → Type 0
  RunsOf t none = Unit
  RunsOf t (some (a, t')) = (t'.runs ≡ t.runs) × (t'.next_run ≡ t.next_run)

  abbrev pub Careful : (Memories → Option (A × Memories)) → Type 0
  Careful change = (t : Memories) → RunsOf t (change t)

  pub RunsOf-if :
      (t : Memories) (test : Bool) (o : Option (A × Memories))
      → RunsOf t o
      → RunsOf t (if test then o else none)
  RunsOf-if t true o h = h
  RunsOf-if t false o h = tt

  settle-KeepsRuns :
      (o : Option (A × Memories)) (w : World) → RunsOf w.tables o → KeepsRuns w (settle o w).1
  settle-KeepsRuns none w h = KeepsRuns-refl w
  settle-KeepsRuns (some (a, t')) w (runs, next_run) = record {
    runs = runs;
    next_run = next_run;
    health = λ h. h;
  }

  run_statement-KeepsRuns :
      (faults : List (Option Fault)) (change : Memories → Option (A × Memories)) (w : World)
      → w.faults ≡ faults
      → Careful change
      → KeepsRuns w (run_statement faults change w).1
  run_statement-KeepsRuns [] change w e careful =
      settle-KeepsRuns (change w.tables) w (careful w.tables)
  run_statement-KeepsRuns (none ∷ faults) change w e careful =
      KeepsRuns-trans w (record w { faults = faults }) _ (faulty w none faults e)
        (settle-KeepsRuns (change w.tables) (record w { faults = faults }) (careful w.tables))
  run_statement-KeepsRuns (some fault ∷ faults) change w e careful = faulty w (some fault) faults e

  sent_to-KeepsRuns :
      (database_url : Option Text) (change : Memories → Option (A × Memories)) (w : World)
      → Careful change
      → KeepsRuns w (sent_to database_url change w).1
  sent_to-KeepsRuns none change w careful = KeepsRuns-refl w
  sent_to-KeepsRuns (some url) change w careful =
      run_statement-KeepsRuns w.faults change w refl careful

  pub checked_statement-KeepsRuns :
      (change : Memories → Option (A × Memories)) (w : World)
      → Careful change
      → KeepsRuns w (checked_statement change w).1
  unfolding checked_statement
  checked_statement-KeepsRuns change w careful = sent_to-KeepsRuns w.database_url change w careful

  pub after-KeepsRuns {κ} :
      {B : Type κ} (w : World) (o : Attempt B × World) (next : B → Action A)
      → KeepsRuns w o.1
      → ((b : B) (w' : World) → KeepsRuns w' (next b w').1)
      → KeepsRuns w (after o next).1
  after-KeepsRuns w (raise e, w') next h k = h
  after-KeepsRuns w (return b, w') next h k = KeepsRuns-trans w w' _ h (k b w')

-- Statements on memories and queries do not touch the runs.
on_rows-KeepsRuns {ℓ} :
    {A : Type ℓ} (change : List MemoryRow → A × List MemoryRow) (w : World)
    → KeepsRuns w (on_rows change w).1
on_rows-KeepsRuns change w = checked_statement-KeepsRuns _ w (λ t. (refl, refl))

pub query-KeepsRuns {ℓ} :
    {A : Type ℓ} (look : Memories → A) (w : World) → KeepsRuns w (query look w).1
query-KeepsRuns look w = checked_statement-KeepsRuns _ w (λ t. (refl, refl))

mark_contradicted_memory-KeepsRuns :
    (item : Item) (w : World) → KeepsRuns w (mark_contradicted_memory item w).1
unfolding mark_contradicted_memory
mark_contradicted_memory-KeepsRuns item w =
    elim (Bool-cases (conflict_id item.metadata == 0 || is_empty (strip item.group_id))) [
      | inl nothing ↦ rw nothing (KeepsRuns-refl w)
      | inr conflict ↦ rw conflict (on_rows-KeepsRuns _ w)
    ]

store_memory-KeepsRuns :
    (item : Item) (normalized_content : Text) (existing : Option MemoryRow) (w : World)
    → KeepsRuns w (store_memory item normalized_content existing w).1
unfolding store_memory
store_memory-KeepsRuns item normalized_content (some existing) w =
    let row = seen_again w.clock.now item normalized_content (as_record existing) existing in
    checked_statement-KeepsRuns _ w
      (λ t. RunsOf-if t (allowed row) (some (stored_again existing row t)) (refl, refl))
store_memory-KeepsRuns item normalized_content none w = checked_statement-KeepsRuns _ w (λ t.
    let row = first_seen w.clock.now item normalized_content t.next_id in
    RunsOf-if t (allowed row) (some (stored_first row t)) (refl, refl))

pub upsert-KeepsRuns :
    (rt : Runtime) (item : Item) (w : World) → KeepsRuns w (upsert_extracted_memory rt item w).1
unfolding upsert_extracted_memory find_matching_memory
upsert-KeepsRuns rt item w =
    after-KeepsRuns w (mark_contradicted_memory item w) _
      (mark_contradicted_memory-KeepsRuns item w)
      (λ marked w'.
        after-KeepsRuns w' (find_matching_memory rt item (normalize_memory_content item.content) w')
          _ (query-KeepsRuns _ w')
          (λ existing w''.
            store_memory-KeepsRuns item (normalize_memory_content item.content) existing w''))
