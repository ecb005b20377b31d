-- ===== src/Services/Extractor/Run.antt =====
-- brain-python/services/memory_extractor.py: one extraction on the store.
use test_bot.Services.Ai.{config}
use test_bot.Base.{List, [], if◌then◌else◌, length, map, ℕ, ◌++◌, ◌+◌, ◌∷◌}
use test_bot.Text.{Text, codes}
use test_bot.Value.{Fields, Runtime, end, field, int, items, str}
use test_bot.Base.Int.{pos}
use test_bot.Services.Extractor.{Attempt, GroupMessage, Item, validate_candidates}
use test_bot.Services.Extractor.Ask.{batch_size, Endpoint, ExtractorConfig, call_extractor_model}
use test_bot.Services.Memory.Upsert.{Stored, upsert_extracted_memory}
use test_bot.Services.Memory.Errors.{class_of, is_extractor_error, text_of}
use test_bot.Services.Memory.Store.{
  create_memory_run, finish_memory_run, recent_group_messages_for_extraction,
}
use test_bot.Base.Result.{raise, return}
use test_bot.Services.Memory.Errors.{MemoryError, extractor_no_messages, extractor_upstream}
use test_bot.Services.Memory.Store.{World, Action, after, succeeded, failed}
use test_bot.Services.Memory.Upsert.{inserted, updated}

pub record ExtractionResult : Type 0 where
  pub run_id : ℕ
  pub input_message_count : ℕ
  pub inserted_count : ℕ
  pub updated_count : ℕ
  pub skipped_count : ℕ
  pub memory_ids : List ℕ

-- The stored items: their ids, and how many were inserted and updated.
pub record Tally : Type 0 where
  pub memory_ids : List ℕ
  pub inserted_count : ℕ
  pub updated_count : ℕ

abbrev pub tallied : ℕ × Stored → Tally → Tally
tallied (id, inserted) t = record t {
  memory_ids = t.memory_ids ++ (id ∷ []);
  inserted_count = t.inserted_count + 1;
}
tallied (id, updated) t = record t {
  memory_ids = t.memory_ids ++ (id ∷ []);
  updated_count = t.updated_count + 1;
}

-- The loop over the accepted items.
unfoldable pub store_items : Runtime → List Item → Tally → Action Tally
unfolding upsert_extracted_memory
store_items rt [] t w = (return t, w)
store_items rt (item ∷ items) t w =
    after (upsert_extracted_memory rt item w) (λ stored. store_items rt items (tallied stored t))

abbrev pub success_metadata : Tally → ℕ → ℕ → Fields
success_metadata t skipped candidate_count = field (codes "inserted") (int (pos t.inserted_count)) (
    field (codes "updated") (int (pos t.updated_count)) (
      field (codes "skipped") (int (pos skipped))
        (field (codes "candidate_count") (int (pos candidate_count)) end)))

abbrev pub result_of : ℕ → ℕ → ℕ → Tally → ExtractionResult
result_of run_id message_count skipped t = record {
  run_id = run_id;
  input_message_count = message_count;
  inserted_count = t.inserted_count;
  updated_count = t.updated_count;
  skipped_count = skipped;
  memory_ids = t.memory_ids;
}

-- The end of the `try` block.
unfoldable pub conclude : ℕ → ℕ → ℕ → ℕ → Tally → Action ExtractionResult
unfolding finish_memory_run
conclude run_id message_count candidate_count skipped t w =
    after
      (finish_memory_run run_id succeeded t.memory_ids []
        (success_metadata t skipped candidate_count) w)
      (λ finished w'. (return (result_of run_id message_count skipped t), w'))

abbrev pub no_tally : Tally
no_tally = record { memory_ids = []; inserted_count = 0; updated_count = 0 }

abbrev pub as_extractor_error : MemoryError → MemoryError
as_extractor_error e = if is_extractor_error e then e else extractor_upstream (text_of e)

abbrev pub failure_metadata : MemoryError → Fields
failure_metadata e = field (codes "error_type") (str (class_of e)) end

-- The `except` block.
unfoldable pub give_up : ℕ → MemoryError → Action ExtractionResult
unfolding finish_memory_run
give_up run_id e w =
    after (finish_memory_run run_id failed [] (text_of e) (failure_metadata e) w)
      (λ finished w'. (raise (as_extractor_error e), w'))

abbrev pub or_give_up : ℕ → Attempt ExtractionResult × World → Attempt ExtractionResult × World
or_give_up run_id (raise e, w) = give_up run_id e w
or_give_up run_id (return result, w) = (return result, w)

abbrev pub run_metadata : ℕ → ExtractorConfig → Fields
run_metadata batch config = field (codes "batch_size") (int (pos batch)) (
    field (codes "max_candidates") (int (pos config.max_candidates))
      (field (codes "version") (str (codes "memory-extractor-mvp")) end))

module _ (rt : Runtime) (endpoint : Endpoint) where
  -- The `try` block behind the validation.
  unfoldable pub store_accepted : ℕ → ℕ → ℕ → Attempt (List Item × ℕ) → Action ExtractionResult
  unfolding store_items conclude
  store_accepted run_id message_count candidate_count (raise e) w = (raise e, w)
  store_accepted run_id message_count candidate_count (return (accepted, skipped)) w =
      after (store_items rt accepted no_tally w)
        (conclude run_id message_count candidate_count skipped)

  -- The `try` block behind the call of the model.
  unfoldable pub store_candidates :
      ExtractorConfig
      → Text
      → List GroupMessage
      → ℕ
      → Attempt (List Fields)
      → Action ExtractionResult
  unfolding validate_candidates store_accepted
  store_candidates config group_id messages run_id (raise e) w = (raise e, w)
  store_candidates config group_id messages run_id (return found) w =
      store_accepted run_id (length messages) (length found)
        (validate_candidates rt found group_id messages config.max_candidates) w

  -- The `try` block.
  unfoldable pub attempt_extraction :
      ExtractorConfig → Text → List GroupMessage → ℕ → Action ExtractionResult
  unfolding call_extractor_model store_candidates
  attempt_extraction config group_id messages run_id =
      store_candidates config group_id messages run_id
        (call_extractor_model rt endpoint config group_id messages)

  -- The part behind the test for messages.
  unfoldable pub extract_from :
      ExtractorConfig → Text → ℕ → List GroupMessage → Action ExtractionResult
  unfolding attempt_extraction give_up create_memory_run
  extract_from config group_id batch [] w =
      (raise (extractor_no_messages (codes "no text messages available")), w)
  extract_from config group_id batch (m ∷ ms) w =
      after
        (create_memory_run group_id m.conversation_id (map (λ (n : GroupMessage). n.id) (m ∷ ms))
          config.model (run_metadata batch config) w)
        (λ run_id w'. or_give_up run_id (attempt_extraction config group_id (m ∷ ms) run_id w'))

  -- `extract_group_memories` with a configuration; a limit of zero is none.
  unfoldable pub extract_group_memories : ExtractorConfig → Text → ℕ → Action ExtractionResult
  unfolding batch_size recent_group_messages_for_extraction extract_from
  extract_group_memories config group_id limit w =
      let batch = batch_size limit config.batch_size in
      after (recent_group_messages_for_extraction group_id batch w)
        (extract_from config group_id batch)
