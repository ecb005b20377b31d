-- ===== src/Services/Extractor/Tried.antt =====
-- brain-python/services/memory_extractor.py: the steps of an extraction and its run.
use test_bot.Services.Extractor.Run.{store_accepted, store_candidates}
use test_bot.Base.{==-same, arith, list_eq, nat_eq, ◌==◌}
use test_bot.Base.{All, ◌++◌, ◌<◌}
use test_bot.Services.Extractor.Run.{result_of, success_metadata}
use test_bot.Base.{length}
use test_bot.Services.Extractor.{GroupMessage, validate_candidates}
use test_bot.Services.Extractor.Ask.{Endpoint, ExtractorConfig, call_extractor_model}
use test_bot.Services.Extractor.Run.{attempt_extraction, no_tally, tallied}
use test_bot.Services.Extractor.Steps.{KeepsRuns-trans}
use test_bot.Services.Ai.{config}
use test_bot.Base.{ap, none, sym, ◌∙◌}
use test_bot.Services.Extractor.Run.{ExtractionResult, conclude}
use test_bot.Services.Extractor.Clean.{none-some}
use test_bot.Services.Extractor.Steps.{faulty, not_both}
use test_bot.Services.Memory.Store.{run_statement, statement}
use test_bot.Base.{List, Option, [], false, refl, some, ℕ, ◌∷◌, ◌≡◌}
use test_bot.Text.{Text}
use test_bot.Value.{Fields, Runtime, items}
use test_bot.Services.Extractor.{Attempt, Item}
use test_bot.Services.Extractor.Run.{Tally, store_items}
use test_bot.Services.Extractor.Steps.{KeepsRuns, KeepsRuns-refl, after-KeepsRuns, upsert-KeepsRuns}
use test_bot.Services.Memory.Upsert.{upsert_extracted_memory}
use test_bot.Services.Memory.Errors.{MemoryError, is_extractor_error}
use test_bot.Services.Memory.Store.{
  Fault, Memories, RunStatus, database_error, error_of, finish_memory_run, finished_run, sent_to,
  undefined_table, update_runs,
}
use test_bot.Base.Result.{raise, return}
use test_bot.Services.Extractor.Steps.{IsHealthy}
use test_bot.Services.Memory.Store.{World, Action, after, succeeded, checked_statement, MemoryRun}

store_items-KeepsRuns :
    (rt : Runtime) (items : List Item) (t : Tally) (w : World)
    → KeepsRuns w (store_items rt items t w).1
unfolding store_items
store_items-KeepsRuns rt [] t w = KeepsRuns-refl w
store_items-KeepsRuns rt (item ∷ items) t w =
    after-KeepsRuns w (upsert_extracted_memory rt item w) _ (upsert-KeepsRuns rt item w)
      (λ stored w'. store_items-KeepsRuns rt items (tallied stored t) w')

-- A statement that raises keeps the runs, raises no error of the extractor, and does not happen in a healthy database.
pub record Broken (w : World) (e : MemoryError) (w' : World) : Type 0 where
  pub tables : w'.tables ≡ w.tables
  pub kept : KeepsRuns w w'
  pub foreign : is_extractor_error e ≡ false
  pub unhealthy : IsHealthy w → ⊥

error_of-foreign : (fault : Fault) → is_extractor_error (error_of fault) ≡ false
error_of-foreign undefined_table = refl
error_of-foreign (database_error text) = refl

module _ {A : Type 0} (change : Memories → A × Memories) where
  -- How a statement without a `CHECK` ends.
  abbrev pub Ran : World → Attempt A × World → Type 0
  Ran w (raise e, w') = Broken w e w'
  Ran w (return a, w') =
      (a ≡ (change w.tables).0) × (w'.tables ≡ (change w.tables).1) × (IsHealthy w → IsHealthy w')

  run_statement-Ran :
      (faults : List (Option Fault)) (w : World)
      → w.faults ≡ faults
      → Ran w (run_statement faults (λ tables. some (change tables)) w)
  run_statement-Ran [] w e = (refl, refl, λ h. h)
  run_statement-Ran (none ∷ faults) w e = (refl, refl, λ h. absurd (not_both e h.1))
  run_statement-Ran (some fault ∷ faults) w e = record {
    tables = refl;
    kept = faulty w (some fault) faults e;
    foreign = error_of-foreign fault;
    unhealthy = λ h. not_both e h.1;
  }

  sent_to-Ran :
      (url : Option Text) (w : World)
      → w.database_url ≡ url
      → Ran w (sent_to url (λ tables. some (change tables)) w)
  sent_to-Ran none w e = record {
    tables = refl;
    kept = KeepsRuns-refl w;
    foreign = refl;
    unhealthy = λ h. none-some (sym e ∙ h.0.1);
  }
  sent_to-Ran (some url) w e = run_statement-Ran w.faults w refl

  pub statement-Ran : (w : World) → Ran w (statement change w)
  unfolding checked_statement
  statement-Ran w = sent_to-Ran w.database_url w refl

-- A run, closed with a status, an output and an error.
pub record Finishes (run_id : ℕ) (status : RunStatus) (output : List ℕ) (error : Text)
    (w w' : World) : Type 0 where
  pub now : ℕ
  pub metadata : Fields
  pub runs :
      w'.tables.runs
      ≡ update_runs run_id (finished_run now status output error metadata) w.tables.runs

abbrev pub Finished : ℕ → RunStatus → List ℕ → Text → World → Attempt (Unit {0}) × World → Type 0
Finished run_id status output error w (raise e, w') = Broken w e w'
Finished run_id status output error w (return a, w') = Finishes run_id status output error w w'

abbrev finishing : ℕ → ℕ → RunStatus → List ℕ → Text → Fields → Memories → Unit {0} × Memories
finishing now run_id status output error metadata tables = (
  tt,
  record tables {
    runs = update_runs run_id (finished_run now status output error metadata) tables.runs;
  },
)

Ran-Finished :
    (now run_id : ℕ) (status : RunStatus) (output : List ℕ) (error : Text) (metadata : Fields)
    (w : World) (o : Attempt (Unit {0}) × World)
    → Ran (finishing now run_id status output error metadata) w o
    → Finished run_id status output error w o
Ran-Finished now run_id status output error metadata w (raise e, w') h = h
Ran-Finished now run_id status output error metadata w (return a, w') h = record {
  now = now;
  metadata = metadata;
  runs = ap (λ (t : Memories). t.runs) h.1;
}

pub finish-Finished :
    (run_id : ℕ) (status : RunStatus) (output : List ℕ) (error : Text) (metadata : Fields)
    (w : World)
    → Finished run_id status output error w
        (finish_memory_run run_id status output error metadata w)
unfolding finish_memory_run
finish-Finished run_id status output error metadata w =
    Ran-Finished w.clock.now run_id status output error metadata w _
      (statement-Ran (finishing w.clock.now run_id status output error metadata) w)

-- The `try` block: its result closes the run; what it raises leaves the runs as they are.
abbrev pub Tried : ℕ → World → Attempt ExtractionResult × World → Type 0
Tried run_id w (raise e, w') = KeepsRuns w w'
Tried run_id w (return result, w') =
    (result.run_id ≡ run_id) × Finishes run_id succeeded result.memory_ids [] w w'

Finished-Tried :
    (run_id : ℕ) (result : ExtractionResult) (w : World) (o : Attempt (Unit {0}) × World)
    → result.run_id ≡ run_id
    → Finished run_id succeeded result.memory_ids [] w o
    → Tried run_id w (after o (λ finished w'. (return result, w')))
Finished-Tried run_id result w (raise e, w') same h = h.kept
Finished-Tried run_id result w (return a, w') same h = (same, h)

conclude-Tried :
    (run_id message_count candidate_count skipped : ℕ) (t : Tally) (w : World)
    → Tried run_id w (conclude run_id message_count candidate_count skipped t w)
unfolding conclude
conclude-Tried run_id message_count candidate_count skipped t w =
    let metadata = success_metadata t skipped candidate_count in
    Finished-Tried run_id (result_of run_id message_count skipped t) w
      (finish_memory_run run_id succeeded t.memory_ids [] metadata w) refl
      (finish-Finished run_id succeeded t.memory_ids [] metadata w)

-- The `try` block behind steps that keep the runs.
Tried-later :
    (run_id : ℕ) (w w' : World) (o : Attempt ExtractionResult × World)
    → KeepsRuns w w'
    → Tried run_id w' o
    → Tried run_id w o
Tried-later run_id w w' (raise e, w'') h k = KeepsRuns-trans w w' w'' h k
Tried-later run_id w w' (return result, w'') h (same, k) = (
  same,
  record {
    now = k.now;
    metadata = k.metadata;
    runs =
        k.runs
        ∙ ap (update_runs run_id (finished_run k.now succeeded result.memory_ids [] k.metadata))
            h.runs;
  },
)

after-Tried :
    {A : Type 0} (run_id : ℕ) (w : World) (o : Attempt A × World)
    (next : A → Action ExtractionResult)
    → KeepsRuns w o.1
    → ((a : A) (w' : World) → Tried run_id w' (next a w'))
    → Tried run_id w (after o next)
after-Tried run_id w (raise e, w') next h k = h
after-Tried run_id w (return a, w') next h k = Tried-later run_id w w' _ h (k a w')

store_accepted-Tried :
    (rt : Runtime) (endpoint : Endpoint) (run_id message_count candidate_count : ℕ)
    (valid : Attempt (List Item × ℕ)) (w : World)
    → Tried run_id w (store_accepted rt endpoint run_id message_count candidate_count valid w)
unfolding store_accepted
store_accepted-Tried rt endpoint run_id message_count candidate_count (raise e) w = KeepsRuns-refl w
store_accepted-Tried rt endpoint run_id message_count candidate_count (return (accepted, skipped))
      w =
    after-Tried run_id w (store_items rt accepted no_tally w) _
      (store_items-KeepsRuns rt accepted no_tally w)
      (λ t w'. conclude-Tried run_id message_count candidate_count skipped t w')

store_candidates-Tried :
    (rt : Runtime) (endpoint : Endpoint) (config : ExtractorConfig) (group_id : Text)
    (messages : List GroupMessage) (run_id : ℕ) (found : Attempt (List Fields)) (w : World)
    → Tried run_id w (store_candidates rt endpoint config group_id messages run_id found w)
unfolding store_candidates
store_candidates-Tried rt endpoint config group_id messages run_id (raise e) w = KeepsRuns-refl w
store_candidates-Tried rt endpoint config group_id messages run_id (return found) w =
    store_accepted-Tried rt endpoint run_id (length messages) (length found)
      (validate_candidates rt found group_id messages config.max_candidates) w

pub attempt_extraction-Tried :
    (rt : Runtime) (endpoint : Endpoint) (config : ExtractorConfig) (group_id : Text)
    (messages : List GroupMessage) (run_id : ℕ) (w : World)
    → Tried run_id w (attempt_extraction rt endpoint config group_id messages run_id w)
unfolding attempt_extraction
attempt_extraction-Tried rt endpoint config group_id messages run_id w =
    store_candidates-Tried rt endpoint config group_id messages run_id
      (call_extractor_model rt endpoint config group_id messages) w

-- A closed run behind the others.
pub update_runs-last :
    (run_id : ℕ) (f : MemoryRun → MemoryRun) (runs : List MemoryRun) (r : MemoryRun)
    → All (λ q. q.id < run_id) runs
    → r.id ≡ run_id
    → update_runs run_id f (runs ++ (r ∷ [])) ≡ runs ++ (f r ∷ [])
update_runs-last run_id f [] r a e = ap (λ q. q ∷ []) (rw (==-same r.id run_id e) refl)
update_runs-last run_id f (q ∷ qs) r (less, a) e =
    let differs : (q.id == run_id) ≡ false = ground arith in
    rw differs (ap (λ rest. q ∷ rest) (update_runs-last run_id f qs r a e))
