-- ===== src/Services/Extractor/Closed.antt =====
-- brain-python/services/memory_extractor.py: an extraction closes the run that it opens.
use test_bot.Services.Extractor.Tried.{attempt_extraction-Tried, statement-Ran}
use test_bot.Services.Extractor.Run.{extract_group_memories}
use test_bot.Services.Extractor.Steps.{query-KeepsRuns}
use test_bot.Services.Memory.Store.{opening, recent_group_messages_for_extraction}
use test_bot.Base.{Bool-cases, List, inl, inr, map}
use test_bot.Text.{Text}
use test_bot.Value.{Runtime}
use mathlib.Core.Path.{subst}
use test_bot.Services.Extractor.{GroupMessage}
use test_bot.Services.Extractor.Ask.{batch_size, Endpoint, ExtractorConfig}
use test_bot.Services.Extractor.Tried.{Ran}
use test_bot.Services.Extractor.Run.{extract_from, failure_metadata, run_metadata}
use test_bot.Services.Ai.{config}
use test_bot.Services.Memory.Store.{Memories, create_memory_run, finish_memory_run, new_run}
use test_bot.Base.{All, [], ap, false, refl, sym, true, ℕ, ◌++◌, ◌<◌, ◌∙◌, ◌∷◌, ◌≡◌}
use test_bot.Services.Extractor.{Attempt}
use test_bot.Services.Extractor.Tried.{Finished, Tried, finish-Finished, update_runs-last}
use test_bot.Services.Extractor.Run.{ExtractionResult, as_extractor_error, give_up, or_give_up}
use test_bot.Services.Extractor.Steps.{KeepsRuns}
use test_bot.Services.Memory.Errors.{MemoryError, is_extractor_error, text_of}
use test_bot.Services.Memory.Store.{finished_run, update_runs}
use test_bot.Base.Result.{raise, return}
use test_bot.Services.Extractor.Steps.{IsHealthy}
use test_bot.Services.Memory.Store.{World, Action, after, succeeded, failed, running, MemoryRun}

-- How an extraction can end.
pub data Ended (w : World) : Attempt ExtractionResult × World → Type 0 where
  not_opened :
      {e : MemoryError} {w' : World} → w'.tables.runs ≡ w.tables.runs → Ended w (raise e, w')
  with_success :
      {result : ExtractionResult} {w' : World} (run : MemoryRun)
      → w'.tables.runs ≡ w.tables.runs ++ (run ∷ [])
      → run.status ≡ succeeded
      → run.id ≡ result.run_id
      → run.output_memory_ids ≡ result.memory_ids
      → Ended w (return result, w')
  with_failure :
      {e : MemoryError} {w' : World} (run : MemoryRun)
      → w'.tables.runs ≡ w.tables.runs ++ (run ∷ [])
      → run.status ≡ failed
      → is_extractor_error e ≡ true
      → Ended w (raise e, w')
  left_running :
      {e : MemoryError} {w' : World} (run : MemoryRun)
      → w'.tables.runs ≡ w.tables.runs ++ (run ∷ [])
      → run.status ≡ running
      → is_extractor_error e ≡ false
      → (IsHealthy w → ⊥)
      → Ended w (raise e, w')

-- The world behind the statement that opens a run.
record Opened (run_id : ℕ) (w w' : World) : Type 0 where
  pub run : MemoryRun
  pub appended : w'.tables.runs ≡ w.tables.runs ++ (run ∷ [])
  pub number : run.id ≡ run_id
  pub status : run.status ≡ running
  pub others : All (λ q. q.id < run_id) w.tables.runs
  pub health : IsHealthy w → IsHealthy w'

closed_runs :
    (run_id : ℕ) (w w' w'' : World) (o : Opened run_id w w') (f : MemoryRun → MemoryRun)
    → w''.tables.runs ≡ update_runs run_id f w'.tables.runs
    → w''.tables.runs ≡ w.tables.runs ++ (f o.run ∷ [])
closed_runs run_id w w' w'' o f e =
    e
    ∙ (ap (update_runs run_id f) o.appended
        ∙ update_runs-last run_id f w.tables.runs o.run o.others o.number)

as_extractor_error-known : (e : MemoryError) → is_extractor_error (as_extractor_error e) ≡ true
as_extractor_error-known e = elim (Bool-cases (is_extractor_error e)) [
  | inl known ↦ rw known known
  | inr foreign ↦ rw foreign refl
]

given_up-Ended :
    (run_id : ℕ) (e : MemoryError) (w w' w'' : World) (finish : Attempt (Unit {0}) × World)
    → Opened run_id w w'
    → KeepsRuns w' w''
    → Finished run_id failed [] (text_of e) w'' finish
    → Ended w (after finish (λ finished v. (raise (as_extractor_error e), v)))
unfolding finished_run
given_up-Ended run_id e w w' w'' (raise e', v) o h k =
    left_running o.run (k.kept.runs ∙ (h.runs ∙ o.appended)) o.status k.foreign
      (λ healthy. k.unhealthy (h.health (o.health healthy)))
given_up-Ended run_id e w w' w'' (return a, v) o h k =
    with_failure (finished_run k.now failed [] (text_of e) k.metadata o.run)
      (closed_runs run_id w w' v o _ (k.runs ∙ ap (update_runs run_id _) h.runs)) refl
      (as_extractor_error-known e)

Tried-Ended :
    (run_id : ℕ) (w w' : World) (o : Attempt ExtractionResult × World)
    → Opened run_id w w'
    → Tried run_id w' o
    → Ended w (or_give_up run_id o)
unfolding give_up finished_run
Tried-Ended run_id w w' (raise e, w'') o h =
    given_up-Ended run_id e w w' w''
      (finish_memory_run run_id failed [] (text_of e) (failure_metadata e) w'') o h
      (finish-Finished run_id failed [] (text_of e) (failure_metadata e) w'')
Tried-Ended run_id w w' (return result, w'') o (same, k) =
    with_success (finished_run k.now succeeded result.memory_ids [] k.metadata o.run)
      (closed_runs run_id w w' w'' o _ k.runs) refl (o.number ∙ sym same) refl

Opened-Ended :
    (w : World) (run : MemoryRun) (change : Memories → ℕ × Memories) (o : Attempt ℕ × World)
    (next : ℕ → Action ExtractionResult)
    → (change w.tables).0 ≡ run.id
    → (change w.tables).1.runs ≡ w.tables.runs ++ (run ∷ [])
    → run.status ≡ running
    → All (λ q. q.id < run.id) w.tables.runs
    → Ran change w o
    → ((run_id : ℕ) (w' : World) → Opened run_id w w' → Ended w (next run_id w'))
    → Ended w (after o next)
Opened-Ended w run change (raise e, w') next number appended status others h k =
    not_opened h.kept.runs
Opened-Ended w run change (return run_id, w') next number appended status others
      (same, tables, health) k =
    k run_id w' (record {
      run = run;
      appended = ap (λ (t : Memories). t.runs) tables ∙ appended;
      number = sym (same ∙ number);
      status = status;
      others = subst (λ i. All (λ q. q.id < i) w.tables.runs) (sym (same ∙ number)) others;
      health = health;
    })

Ended-later :
    (w w' : World) (o : Attempt ExtractionResult × World) → KeepsRuns w w' → Ended w' o → Ended w o
Ended-later w w' _ h (not_opened runs) = not_opened (runs ∙ h.runs)
Ended-later w w' _ h (with_success run runs status number output) =
    with_success run (runs ∙ ap (λ rs. rs ++ (run ∷ [])) h.runs) status number output
Ended-later w w' _ h (with_failure run runs status known) =
    with_failure run (runs ∙ ap (λ rs. rs ++ (run ∷ [])) h.runs) status known
Ended-later w w' _ h (left_running run runs status foreign unhealthy) =
    left_running run (runs ∙ ap (λ rs. rs ++ (run ∷ [])) h.runs) status foreign
      (λ healthy. unhealthy (h.health healthy))

module _ (rt : Runtime) (endpoint : Endpoint) (config : ExtractorConfig) (group_id : Text) where
  extract_from-Ended :
      (batch : ℕ) (messages : List GroupMessage) (w : World)
      → All (λ q. q.id < w.tables.next_run) w.tables.runs
      → Ended w (extract_from rt endpoint config group_id batch messages w)
  unfolding extract_from create_memory_run
  extract_from-Ended batch [] w others = not_opened refl
  extract_from-Ended batch (m ∷ ms) w others =
      let run = λ (id : ℕ).
        new_run id group_id m.conversation_id (map (λ (n : GroupMessage). n.id) (m ∷ ms))
          config.model (run_metadata batch config) in
      Opened-Ended w (run w.tables.next_run) (opening run) _ _ refl refl refl others
        (statement-Ran (opening run) w)
        (λ run_id w' o.
          Tried-Ended run_id w w' _ o
            (attempt_extraction-Tried rt endpoint config group_id (m ∷ ms) run_id w'))

  queried-Ended :
      (w : World) (o : Attempt (List GroupMessage) × World) (batch : ℕ)
      → KeepsRuns w o.1
      → All (λ q. q.id < w.tables.next_run) w.tables.runs
      → Ended w (after o (extract_from rt endpoint config group_id batch))
  queried-Ended w (raise e, w') batch h others = not_opened h.runs
  queried-Ended w (return messages, w') batch h others =
      Ended-later w w' _ h (extract_from-Ended batch messages w' (rw (h.runs, h.next_run) others))

-- However an extraction ends - whatever the model answers, and whichever statements of the database fail - it opens one run at most,
-- behind the ones that there are, which it leaves alone. With a result the run has succeeded, under the number and with the memories of the
-- result. With an error of the extractor no run is open: either none was opened or it has failed. A run is left running only
-- with another error, and never while the database answers.
pub extract_group_memories-Ended :
    (rt : Runtime) (endpoint : Endpoint) (config : ExtractorConfig) (group_id : Text) (limit : ℕ)
    (w : World)
    → All (λ q. q.id < w.tables.next_run) w.tables.runs
    → Ended w (extract_group_memories rt endpoint config group_id limit w)
unfolding extract_group_memories recent_group_messages_for_extraction
extract_group_memories-Ended rt endpoint config group_id limit w others =
    queried-Ended rt endpoint config group_id w _ (batch_size limit config.batch_size)
      (query-KeepsRuns _ w) others
