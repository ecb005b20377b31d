-- ===== src/Services/Memory/Unharmed.antt =====
-- brain-python/services/memory.py: what the commands of the embeddings leave alone.
use test_bot.Services.Memory.Indexing.{Indexed}
use test_bot.Services.Memory.Command.{replied_with}
use test_bot.Services.Embedding.{vectors}
use test_bot.Services.Memory.Store.{MemoryEmbedding}
use test_bot.Base.{
  Bool, List, Option, [], false, if◌then◌else◌, is_empty, list_eq, nat_eq, none, not, some, true, ℕ,
  ◌==◌, ◌∷◌, map,
}
use test_bot.Base.Int.{ℤ, pos, negsuc}
use test_bot.Base.Result.{Result, raise, return}
use test_bot.Text.{Text, codes, lower}
use test_bot.Value.{Runtime, string_id}
use test_bot.Env.{Env}
use test_bot.Schemas.{ChatRequest}
use test_bot.Services.Embedding.{
  EmbeddingConfig, Vector, failure, success, embed_texts, Result as Answered,
}
use test_bot.Services.Extractor.{Attempt}
use test_bot.Services.Memory.{MemoryRow}
use test_bot.Services.Memory.Store.{Memories, World, done}
use test_bot.Services.Memory.Indexing.{
  count_memories_missing_embeddings, count_memory_embeddings, embedding_action, embedding_counts,
  embedding_index_limit_arg, embedding_put, embedding_status, handle_embedding_command, index_each,
  index_embedded, index_listed, index_missing_memory_embeddings, index_with, index_within,
  list_memories_missing_embeddings, memory_embedding_config, upsert_memory_embedding, within_limit,
}
use test_bot.Services.Memory.Command.{Tools}
use test_bot.Services.Memory.Inside.{
  SparesBy, SparesResult, SparesTables, after-Spares, checked_statement-Spares, if-Spares,
  query-Spares,
}

module _ (Kept : MemoryRow → Type 0) where
  within_limit-Spares :
      (limit : ℤ) (rows : List MemoryRow) (tables : Memories)
      → SparesResult Kept tables (within_limit limit rows tables)
  within_limit-Spares (pos n) rows tables = λ r out m. m
  within_limit-Spares (negsuc n) rows tables = tt

  put-Spares :
      (row : Vector → MemoryEmbedding) (column : Option Vector) (tables : Memories)
      → SparesResult Kept tables (embedding_put row column tables)
  put-Spares row none tables = tt
  put-Spares row (some v) tables = λ r out m. m

  module _ (rt : Runtime) (env : Env) (tools : Tools) where
    upsert_memory_embedding-Spares :
        (memory_id : ℕ) (model content_hash : Text) (v : Vector)
        → SparesBy Kept (upsert_memory_embedding tools memory_id model content_hash v)
    unfolding upsert_memory_embedding
    upsert_memory_embedding-Spares memory_id model content_hash v w =
        checked_statement-Spares Kept _ w (put-Spares _ (tools.as_column v) w.tables)

    -- The loop writes embeddings alone.
    index_each-Spares :
        (model : Text) (records : List MemoryRow) (vectors : List Vector) (indexed failed : ℕ)
        (w : World)
        → SparesTables Kept w.tables
            (index_each rt env tools model records vectors indexed failed w).1.tables
    unfolding index_each
    index_each-Spares model [] vectors indexed failed w r out m = m
    index_each-Spares model (q ∷ qs) [] indexed failed w r out m = m
    index_each-Spares model (q ∷ qs) (v ∷ vs) indexed failed w r out m =
        index_each-Spares model qs vs _ _
          (upsert_memory_embedding tools q.id model (tools.sha256 q.content) v w).1 r out
          (upsert_memory_embedding-Spares q.id model (tools.sha256 q.content) v w r out m)

    index_embedded-Spares :
        (model : Text) (records : List MemoryRow) (embedded : Answered (List Vector)) (w : World)
        → SparesTables Kept w.tables (index_embedded rt env tools model records embedded w).1.tables
    index_embedded-Spares model records (failure e) w = λ r out m. m
    index_embedded-Spares model records (success vectors) w =
        index_each-Spares model records vectors 0 0 w

    index_listed-Spares :
        (c : EmbeddingConfig) (w : World) (o : Attempt (List MemoryRow) × World)
        → SparesTables Kept w.tables o.1.tables
        → SparesTables Kept w.tables (index_listed rt env tools c o).1.tables
    index_listed-Spares c w (raise e, w') h = h
    index_listed-Spares c w (return [], w') h = h
    index_listed-Spares c w (return (q ∷ qs), w') h = λ r out m.
        index_embedded-Spares c.model (q ∷ qs)
          (embed_texts tools.exact tools.upstream (map (λ (m : MemoryRow). m.content) (q ∷ qs)) c)
          w' r out (h r out m)

    list_memories_missing_embeddings-Spares :
        (model : Text) (limit : ℤ) (group_id : Text)
        → SparesBy Kept (list_memories_missing_embeddings env model limit group_id)
    unfolding list_memories_missing_embeddings
    list_memories_missing_embeddings-Spares model limit group_id w =
        checked_statement-Spares Kept _ w (within_limit-Spares limit _ w.tables)

    index_configured-Spares :
        (off unnamed : Bool) (x y : Indexed) (w : World) (o : Indexed × World)
        → SparesTables Kept w.tables o.1.tables
        → SparesTables Kept w.tables
            (if off then (x, w) else if unnamed then (y, w) else o).1.tables
    index_configured-Spares true unnamed x y w o h = λ r out m. m
    index_configured-Spares false true x y w o h = λ r out m. m
    index_configured-Spares false false x y w o h = h

    index_with-Spares :
        (group_id : Text) (limit : ℤ) (config : Result Text EmbeddingConfig) (w : World)
        → SparesTables Kept w.tables (index_with rt env tools group_id limit config w).1.tables
    index_with-Spares group_id limit (raise error) w = λ r out m. m
    index_with-Spares group_id limit (return c) w =
        index_configured-Spares (not c.enabled) (is_empty c.model) _ _ w
          (index_listed rt env tools c
            (list_memories_missing_embeddings env c.model limit group_id w))
          (index_listed-Spares c w (list_memories_missing_embeddings env c.model limit group_id w)
            (list_memories_missing_embeddings-Spares c.model limit group_id w))

    index_within-Spares :
        (group_id : Text) (limit : Option ℤ)
        → SparesBy Kept (index_within rt env tools group_id limit)
    unfolding index_missing_memory_embeddings
    index_within-Spares group_id none w = λ r out m. m
    index_within-Spares group_id (some limit) w =
        index_with-Spares group_id limit (memory_embedding_config rt env tools) w

    counted-Spares :
        (c : EmbeddingConfig) (indexed : ℕ) (group_id : Text) (w : World)
        → SparesTables Kept w.tables
            (replied_with (embedding_counts rt env tools c indexed) (
              (if is_empty c.model
                  then done 0
                  else count_memories_missing_embeddings env c.model group_id)
                w)).1.tables
    unfolding count_memories_missing_embeddings
    counted-Spares c indexed group_id w =
        after-Spares Kept w
          ((if is_empty c.model
              then done 0
              else count_memories_missing_embeddings env c.model group_id)
            w)
          _
          (if-Spares Kept (is_empty c.model) (done 0)
            (count_memories_missing_embeddings env c.model group_id) (λ w r out m. m)
            (query-Spares Kept _) w)
          (λ a w' r out m. m)

    embedding_status-Spares :
        (group_id : Text) (config : Result Text EmbeddingConfig)
        → SparesBy Kept (embedding_status rt env tools group_id config)
    unfolding count_memory_embeddings
    embedding_status-Spares group_id (raise error) w = λ r out m. m
    embedding_status-Spares group_id (return c) w =
        after-Spares Kept w (count_memory_embeddings c.model w) _ (query-Spares Kept _ w)
          (λ indexed. counted-Spares c indexed group_id)

    embedding_action-Spares :
        (group_id action : Text) (arguments : List Text)
        → SparesBy Kept (embedding_action rt env tools group_id action arguments)
    unfolding embedding_action
    embedding_action-Spares group_id action arguments =
        if-Spares Kept (action == codes "status") _ _
          (embedding_status-Spares group_id (memory_embedding_config rt env tools))
          (if-Spares Kept (action == codes "index") _ _
            (index_within-Spares group_id (embedding_index_limit_arg rt env tools arguments))
            (λ w r out m. m))

    pub handle_embedding_command-Spares :
        (request : ChatRequest) (parts : List Text)
        → SparesBy Kept (handle_embedding_command rt env tools request parts)
    unfolding handle_embedding_command
    handle_embedding_command-Spares request [] =
        embedding_action-Spares (string_id request.group_id) (codes "status") []
    handle_embedding_command-Spares request (part ∷ parts) =
        embedding_action-Spares (string_id request.group_id) (lower part) parts
