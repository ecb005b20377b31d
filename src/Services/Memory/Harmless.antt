-- ===== src/Services/Memory/Harmless.antt =====
-- brain-python/services/memory.py: what `debug recall` leaves alone.
use test_bot.Env.{env_int}
use test_bot.Services.Memory.Ranking.{at_least}
use test_bot.Base.{◌||◌}
use test_bot.Env.{env_unless_off}
use test_bot.Base.{
  Bool, List, Option, false, if◌then◌else◌, is_empty, list_eq, nat_eq, none, not, some, true, ℕ,
}
use test_bot.Base.Int.{ℤ, pos}
use test_bot.Base.Result.{raise, return}
use test_bot.Text.{Text, codes, strip}
use test_bot.Value.{Runtime, string_id}
use test_bot.Env.{Env}
use test_bot.Schemas.{ChatRequest}
use test_bot.Services.Embedding.{EmbeddingConfig, Vector, config_from_env}
use test_bot.Services.Extractor.{Attempt}
use test_bot.Services.Memory.{MemoryRow}
use test_bot.Services.Memory.Store.{Memories, World}
use test_bot.Services.Memory.Recall.{
  fts_candidates, keyword_candidates, limited, unchanged, vector_candidates,
}
use test_bot.Services.Memory.Relevance.{MemoryCandidate}
use test_bot.Services.Memory.Ranking.{
  debug_recall, or_no_candidates, safe_vector_candidates, search_vector, usable_config,
}
use test_bot.Services.Memory.Debug.{debug_recall_response}
use test_bot.Services.Memory.Command.{Tools}
use test_bot.Services.Memory.Inside.{
  SparesBy, SparesResult, SparesTables, after-Spares, checked_statement-Spares, query-Spares,
}

module _ (Kept : MemoryRow → Type 0) where
  branch-Spares :
      {A : Type 0} (test : Bool) (w : World) (x y : Attempt A × World)
      → SparesTables Kept w.tables x.1.tables
      → SparesTables Kept w.tables y.1.tables
      → SparesTables Kept w.tables (if test then x else y).1.tables
  branch-Spares true w x y h k = h
  branch-Spares false w x y h k = k

  unchanged-Spares :
      (env : Env) (tools : Tools) (tables : Memories) (found : Option (List MemoryCandidate))
      → SparesResult Kept tables (unchanged env tools.searches tables found)
  unchanged-Spares env tools tables none = tt
  unchanged-Spares env tools tables (some found) = λ r out m. m

  keyword_candidates-Spares :
      (env : Env) (tools : Tools) (group_id user_id text : Text) (limit : ℕ) (include_ : Bool)
      → SparesBy Kept (keyword_candidates env tools.searches group_id user_id text limit include_)
  unfolding keyword_candidates
  keyword_candidates-Spares env tools group_id user_id text limit include_ w = query-Spares Kept _ w

  fts_candidates-Spares :
      (env : Env) (tools : Tools) (group_id user_id text : Text) (limit : ℕ) (include_ : Bool)
      → SparesBy Kept (fts_candidates env tools.searches group_id user_id text limit include_)
  unfolding fts_candidates
  fts_candidates-Spares env tools group_id user_id text limit include_ w =
      branch-Spares (is_empty (strip text)) w _ _ (λ r out m. m) (query-Spares Kept _ w)

  vector_candidates-Spares :
      (env : Env) (tools : Tools) (group_id user_id : Text) (wanted : Vector) (model : Text)
      (limit : ℤ) (include_ : Bool)
      → SparesBy Kept
          (vector_candidates env tools.searches group_id user_id wanted model limit include_)
  unfolding vector_candidates
  vector_candidates-Spares env tools group_id user_id wanted model limit include_ w =
      branch-Spares (is_empty wanted || is_empty model) w _ _ (λ r out m. m)
        (checked_statement-Spares Kept _ w
          (unchanged-Spares env tools w.tables (limited env tools.searches limit _)))

  or_no_candidates-Spares :
      (w : World) (o : Attempt (List MemoryCandidate) × World)
      → SparesTables Kept w.tables o.1.tables
      → SparesTables Kept w.tables (or_no_candidates o).1.tables
  or_no_candidates-Spares w (raise e, w') h = h
  or_no_candidates-Spares w (return found, w') h = h

  module _ (rt : Runtime) (env : Env) (tools : Tools) where
    search_vector-Spares :
        (group_id user_id text : Text) (include_ : Bool) (c : Option EmbeddingConfig)
        → SparesBy Kept (
            search_vector rt tools.exact tools.upstream env tools.searches group_id user_id text
              include_ c)
    search_vector-Spares group_id user_id text include_ none w = λ r out m. m
    search_vector-Spares group_id user_id text include_ (some c) w =
        or_no_candidates-Spares w _
          (vector_candidates-Spares env tools group_id user_id _ c.model _ include_ w)

    safe_vector_candidates-Spares :
        (group_id user_id text : Text) (include_ : Bool)
        → SparesBy Kept (
            safe_vector_candidates rt tools.exact tools.upstream env tools.searches group_id user_id
              text include_)
    unfolding safe_vector_candidates
    safe_vector_candidates-Spares group_id user_id text include_ w =
        branch-Spares (not (env_unless_off env (codes "MEMORY_VECTOR_RECALL_ENABLED") false)) w _ _
          (λ r out m. m)
          (search_vector-Spares group_id user_id text include_
            (usable_config (config_from_env rt env)) w)

    debug_recall-Spares :
        (request : ChatRequest) (text : Text) (limit : ℕ) (include_ : Bool)
        → SparesBy Kept (
            debug_recall rt tools.exact tools.upstream env tools.searches request text limit
              include_)
    unfolding debug_recall
    debug_recall-Spares request text limit include_ w =
        let group_id = string_id request.group_id in
        let user_id = string_id request.user_id in
        let candidate_limit =
          at_least limit (env_int env (codes "MEMORY_KEYWORD_RECALL_LIMIT") (pos 50)) in
        after-Spares Kept w
          (keyword_candidates env tools.searches group_id user_id text candidate_limit include_ w) _
          (keyword_candidates-Spares env tools group_id user_id text candidate_limit include_ w)
          (λ words w'.
            after-Spares Kept w'
              (fts_candidates env tools.searches group_id user_id text candidate_limit include_ w')
              _ (fts_candidates-Spares env tools group_id user_id text candidate_limit include_ w')
              (λ texts w''.
                after-Spares Kept w''
                  (safe_vector_candidates rt tools.exact tools.upstream env tools.searches group_id
                    user_id text include_ w'')
                  _ (safe_vector_candidates-Spares group_id user_id text include_ w'')
                  (λ vectors v r out m. m)))

    pub debug_recall_response-Spares :
        (request : ChatRequest) (text : Text)
        → SparesBy Kept (debug_recall_response rt env tools request text)
    unfolding debug_recall_response
    debug_recall_response-Spares request text w =
        after-Spares Kept w
          (debug_recall rt tools.exact tools.upstream env tools.searches request text 10 true w) _
          (debug_recall-Spares request text 10 true w) (λ scored w' r out m. m)
