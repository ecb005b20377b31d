-- ===== src/Services/Memory/Indexing.antt =====
-- brain-python/services/memory.py: the embeddings of memories and `/memory embedding`.
use test_bot.Base.{
  Bool, List, Option, [], false, if◌then◌else◌, is_empty, keep, leb, length, list_eq, ltb, map,
  nat_eq, none, not, some, suc, take, true, ℕ, ◌&&◌, ◌++◌, ◌+◌, ◌-◌, ◌==◌, ◌||◌, ◌∷◌,
}
use test_bot.Base.Int.{ℤ, negsuc, pos}
use test_bot.Base.Result.{Result, raise, return}
use test_bot.Text.{Text, codes, lower, show_nat}
use test_bot.Value.{Fields, Runtime, bool, end, field, int, str, string_id}
use test_bot.Env.{Env, env_int}
use test_bot.Schemas.{BrainResponse, ChatRequest}
use test_bot.Services.Embedding.{
  EmbeddingConfig, EmbeddingError, Vector, config_from_env, configuration, embed_texts, failure,
  overflow, success, upstream_error, Result as Answered,
}
use test_bot.Services.Extractor.{Attempt}
use test_bot.Services.Memory.{MemoryRow, recall_eligible}
use test_bot.Services.Memory.Ageing.{as_record, within}
use test_bot.Services.Memory.Errors.{text_of}
use test_bot.Services.Memory.Recall.{by_greater, sort_first}
use test_bot.Services.Memory.Store.{
  Action, Memories, MemoryEmbedding, World, after, checked_statement, done, query,
}
use test_bot.Services.Memory.Command.{
  Tools, answer, command_field, error_field, is_number, number, replied_with, yes_no,
}

-- `count_memory_embeddings`
unfoldable pub count_memory_embeddings : Text → Action ℕ
unfolding checked_statement list_eq nat_eq
count_memory_embeddings model = query (λ tables. length (
    keep (λ (e : MemoryEmbedding). is_empty model || e.embedding_model == model) tables.embeddings))

abbrev is_embedded : Text → List MemoryEmbedding → ℕ → Bool
is_embedded model [] id = false
is_embedded model (e ∷ es) id =
    (e.memory_id == id && e.embedding_model == model) || is_embedded model es id

-- The `WHERE` of the memories that lack an embedding.
unfoldable pub lacks_embedding : Env → Text → Text → List MemoryEmbedding → MemoryRow → Bool
unfolding recall_eligible within list_eq nat_eq
lacks_embedding env model group_id embeddings r =
    recall_eligible env r && within group_id r && not (is_embedded model embeddings r.id)

-- `count_memories_missing_embeddings`
unfoldable pub count_memories_missing_embeddings : Env → Text → Text → Action ℕ
unfolding checked_statement lacks_embedding
count_memories_missing_embeddings env model group_id = query (λ tables.
    length (keep (λ r. lacks_embedding env model group_id tables.embeddings r) tables.rows))

-- `quality_score DESC, importance DESC, last_seen_at DESC, id DESC`
abbrev by_quality : MemoryRow → MemoryRow → Bool
by_quality r s = by_greater r.quality_score s.quality_score (
    by_greater r.importance s.importance
      (ltb s.last_seen_at r.last_seen_at || (r.last_seen_at == s.last_seen_at && leb s.id r.id)))

-- The rows for a limit; a negative one is an error of the database.
abbrev pub within_limit : ℤ → List MemoryRow → Memories → Option (List MemoryRow × Memories)
within_limit (pos n) rows tables = some (map as_record (take n rows), tables)
within_limit (negsuc n) rows tables = none

-- `list_memories_missing_embeddings`
unfoldable pub list_memories_missing_embeddings : Env → Text → ℤ → Text → Action (List MemoryRow)
unfolding checked_statement lacks_embedding sort_first as_record
list_memories_missing_embeddings env model limit group_id = checked_statement (λ tables.
    within_limit limit
      (sort_first by_quality
        (keep (λ r. lacks_embedding env model group_id tables.embeddings r) tables.rows))
      tables)

abbrev put_embedding : MemoryEmbedding → List MemoryEmbedding → List MemoryEmbedding
put_embedding e [] = e ∷ []
put_embedding e (f ∷ fs) =
    let rest = put_embedding e fs in
    if f.memory_id == e.memory_id && f.embedding_model == e.embedding_model
    then e ∷ fs
    else f ∷ rest

-- The tables with a vector that the column holds; one that it refuses is an error of the database.
abbrev pub embedding_put :
    (Vector → MemoryEmbedding) → Option Vector → Memories → Option (Unit {0} × Memories)
embedding_put row none tables = none
embedding_put row (some v) tables =
    some (tt, record tables { embeddings = put_embedding (row v) tables.embeddings })

-- `upsert_memory_embedding`
unfoldable pub upsert_memory_embedding : Tools → ℕ → Text → Text → Vector → Action (Unit {0})
unfolding checked_statement list_eq nat_eq
upsert_memory_embedding tools memory_id model content_hash embedding w =
    checked_statement
      (embedding_put
        (λ v. record {
          memory_id = memory_id;
          embedding_model = model;
          embedding = v;
          content_hash = content_hash;
          updated_at = w.clock.now;
        })
        (tools.as_column embedding))
      w

-- The dictionary that `_index_missing_memory_embeddings` returns; no text is an absent key.
pub record Indexed : Type 0 where
  pub error : Text
  pub scanned : ℕ
  pub indexed : ℕ
  pub failed : ℕ
  pub model : Text

module _ (rt : Runtime) (env : Env) (tools : Tools) where
  -- `str(exc)`
  abbrev embedding_text : EmbeddingError → Text
  embedding_text (configuration text) = text
  embedding_text (upstream_error []) = tools.connection_error
  embedding_text (upstream_error (c ∷ cs)) = c ∷ cs
  embedding_text overflow = tools.overflow_error

  abbrev checked_config : EmbeddingConfig → Result Text EmbeddingConfig
  checked_config c =
      if c.enabled && is_empty c.model
      then raise (codes "MEMORY_EMBEDDING_MODEL is not configured")
      else return c

  abbrev config_or_text : Answered EmbeddingConfig → Result Text EmbeddingConfig
  config_or_text (failure e) = raise (embedding_text e)
  config_or_text (success c) = checked_config c

  -- `_memory_embedding_config`
  unfoldable pub memory_embedding_config : Result Text EmbeddingConfig
  unfolding config_from_env
  memory_embedding_config = config_or_text (config_from_env rt env)

  abbrev failed_index : Text → ℕ → Text → Indexed
  failed_index error count model = record {
    error = error;
    scanned = count;
    indexed = 0;
    failed = count;
    model = model;
  }

  -- The loop over the memories and their embeddings; the numbers are those before it.
  unfoldable pub index_each : Text → List MemoryRow → List Vector → ℕ → ℕ → World → (ℕ × ℕ) × World
  unfolding upsert_memory_embedding
  index_each model [] vectors indexed failed w = ((indexed, failed), w)
  index_each model (r ∷ rs) [] indexed failed w = ((indexed, failed), w)
  index_each model (r ∷ rs) (v ∷ vs) indexed failed w =
      let stored = upsert_memory_embedding tools r.id model (tools.sha256 r.content) v w in
      let fine = elim stored.0 as (λ o. Bool) [ return done_ ↦ true | raise e ↦ false ] in
      index_each model rs vs (if fine then suc indexed else indexed)
        (if fine then failed else suc failed) stored.1

  abbrev pub index_embedded :
      Text → List MemoryRow → Answered (List Vector) → World → Indexed × World
  index_embedded model records (failure e) w =
      (failed_index (embedding_text e) (length records) model, w)
  index_embedded model records (success vectors) w =
      let ((indexed, failed), w') = index_each model records vectors 0 0 w in
      (
        record {
          error = [];
          scanned = length records;
          indexed = indexed;
          failed = failed + (length records - length vectors);
          model = model;
        },
        w',
      )

  -- What follows the list of the memories.
  abbrev pub index_listed : EmbeddingConfig → Attempt (List MemoryRow) × World → Indexed × World
  index_listed c (raise e, w) = (failed_index (text_of e) 0 c.model, w)
  index_listed c (return [], w) =
      (record { error = []; scanned = 0; indexed = 0; failed = 0; model = c.model }, w)
  index_listed c (return (r ∷ rs), w) =
      index_embedded c.model (r ∷ rs)
        (embed_texts tools.exact tools.upstream (map (λ (m : MemoryRow). m.content) (r ∷ rs)) c) w

  abbrev pub index_with : Text → ℤ → Result Text EmbeddingConfig → World → Indexed × World
  index_with group_id limit (raise error) w = (failed_index error 0 [], w)
  index_with group_id limit (return c) w =
      if not c.enabled
      then (failed_index (codes "MEMORY_EMBEDDING_ENABLED is false") 0 [], w)
      else if is_empty c.model
      then (failed_index (codes "MEMORY_EMBEDDING_MODEL is not configured") 0 [], w)
      else index_listed c (list_memories_missing_embeddings env c.model limit group_id w)

  -- `_index_missing_memory_embeddings`
  unfoldable pub index_missing_memory_embeddings : Text → ℤ → World → Indexed × World
  unfolding memory_embedding_config list_memories_missing_embeddings index_each embed_texts
  index_missing_memory_embeddings group_id limit = index_with group_id limit memory_embedding_config

  abbrev action_fields : Text → Fields → Fields
  action_fields action rest =
      command_field (codes "embedding") (field (codes "action") (str action) rest)

  -- `**result`
  abbrev index_fields : Indexed → Fields
  index_fields i =
      let numbers = field (codes "scanned") (int (pos i.scanned)) (
        field (codes "indexed") (int (pos i.indexed)) (
          field (codes "failed") (int (pos i.failed))
            (if is_empty i.model then end else field (codes "model") (str i.model) end))) in
      if is_empty i.error then numbers else field (codes "error") (str i.error) numbers

  abbrev pub index_response : Indexed → BrainResponse
  index_response i =
      if not (is_empty i.error)
      then answer (codes "Embedding 索引不可用：" ++ i.error)
          (action_fields (codes "index") (index_fields i))
      else answer
          (codes "Embedding 索引完成：扫描 "
            ++ (show_nat i.scanned
                ++ (codes " 条，写入 "
                    ++ (show_nat i.indexed
                        ++ (codes " 条，失败 " ++ (show_nat i.failed ++ codes " 条。"))))))
          (action_fields (codes "index") (index_fields i))

  -- `_embedding_index_limit_arg`
  unfoldable pub embedding_index_limit_arg : List Text → Option ℤ
  unfolding env_int
  embedding_index_limit_arg [] = some (env_int env (codes "MEMORY_EMBEDDING_BATCH_SIZE") (pos 32))
  embedding_index_limit_arg (part ∷ parts) =
      if not (is_number part)
      then none
      else if ltb (number part) 1 || ltb 500 (number part)
      then none
      else some (pos (number part))

  abbrev pub as_reply : Indexed × World → Attempt BrainResponse × World
  as_reply (i, w) = (return (index_response i), w)

  -- `/memory embedding index` with the limit that was read.
  abbrev pub index_within : Text → Option ℤ → Action BrainResponse
  index_within group_id none w =
      done
        (answer (codes "数量必须是 1 到 500 之间的整数。")
          (action_fields (codes "index") (error_field (codes "invalid_limit"))))
        w
  index_within group_id (some limit) w = as_reply (index_missing_memory_embeddings group_id limit w)

  abbrev pub embedding_counts : EmbeddingConfig → ℕ → ℕ → BrainResponse
  embedding_counts c indexed missing =
      answer
        (codes "Embedding 状态："
          ++ (yes_no c.enabled
              ++ (codes "，model="
                  ++ ((if is_empty c.model then codes "-" else c.model)
                      ++ (codes "，indexed="
                          ++ (show_nat indexed ++ (codes "，missing=" ++ show_nat missing)))))))
        (action_fields (codes "status") (
          field (codes "available") (bool true) (
            field (codes "configured") (bool true) (
              field (codes "enabled") (bool c.enabled) (
                field (codes "model") (str c.model) (
                  field (codes "indexed") (int (pos indexed))
                    (field (codes "missing") (int (pos missing)) end)))))))

  -- `/memory embedding status` with the configuration that was read.
  abbrev pub embedding_status : Text → Result Text EmbeddingConfig → Action BrainResponse
  embedding_status group_id (raise error) w =
      done
        (answer (codes "Embedding 配置不可用：" ++ error) (
          action_fields (codes "status")
            (field (codes "available") (bool true) (field (codes "configured") (bool false) end))))
        w
  embedding_status group_id (return c) w = after (count_memory_embeddings c.model w) (λ indexed w'.
      replied_with (embedding_counts c indexed) (
        (if is_empty c.model
            then done 0
            else count_memories_missing_embeddings env c.model group_id)
          w'))

  -- `_handle_embedding_command` with the action in lower case.
  unfoldable pub embedding_action : Text → Text → List Text → Action BrainResponse
  unfolding memory_embedding_config count_memory_embeddings count_memories_missing_embeddings
      index_missing_memory_embeddings embedding_index_limit_arg list_eq nat_eq show_nat
  embedding_action group_id action arguments =
      if action == codes "status"
      then embedding_status group_id memory_embedding_config
      else if action == codes "index"
      then index_within group_id (embedding_index_limit_arg arguments)
      else done (
          answer (codes "用法：/memory embedding status|index [limit]")
            (command_field (codes "embedding") (error_field (codes "unknown_action"))))

  -- `_handle_embedding_command`
  unfoldable pub handle_embedding_command : ChatRequest → List Text → Action BrainResponse
  unfolding embedding_action lower
  handle_embedding_command request [] =
      embedding_action (string_id request.group_id) (codes "status") []
  handle_embedding_command request (part ∷ parts) =
      embedding_action (string_id request.group_id) (lower part) parts
