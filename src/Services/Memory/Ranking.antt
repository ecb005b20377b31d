-- ===== src/Services/Memory/Ranking.antt =====
-- brain-python/services/memory.py: `debug_recall` and `recall` over the three searches.
use test_bot.Base.{
  Bool, List, Option, [], false, if◌then◌else◌, is_empty, keep, ltb, map, max, none, not, some,
  take, true, ℕ, ◌++◌, ◌||◌, ◌∷◌,
}
use test_bot.Base.Int.{ℤ, pos}
use test_bot.Base.Result.{raise, return}
use test_bot.Text.{Text, codes}
use test_bot.Value.{Float, Runtime, ltb_float, string_id}
use test_bot.Env.{Env, env_int, env_unless_off}
use test_bot.Schemas.{ChatRequest}
use test_bot.Services.Ai.{Upstream}
use test_bot.Services.Embedding.{
  EmbeddingConfig, Vector, config_from_env, embed_texts, failure, success, Result as Answered,
}
use test_bot.Services.Extractor.{Attempt}
use test_bot.Services.Memory.{MemoryRow, recall_eligible}
use test_bot.Services.Memory.Store.{Action, World, after}
use test_bot.Services.Memory.Relevance.{
  MemoryCandidate, MemoryScore, Searches, memory_score, merge_from, merge_memory_candidates,
}
use test_bot.Services.Memory.Recall.{
  fts_candidates, keyword_candidates, sort_first, vector_candidates,
}

-- `except Exception: return []`
abbrev pub or_no_candidates :
    Attempt (List MemoryCandidate) × World → Attempt (List MemoryCandidate) × World
or_no_candidates (raise e, w) = (return [], w)
or_no_candidates (return found, w) = (return found, w)

-- `_memory_embedding_config`: an enabled one needs a model.
abbrev pub usable_config : Answered EmbeddingConfig → Option EmbeddingConfig
usable_config (failure e) = none
usable_config (success c) = if not c.enabled || is_empty c.model then none else some c

abbrev pub first_vector : Answered (List Vector) → Vector
first_vector (failure e) = []
first_vector (success []) = []
first_vector (success (v ∷ vs)) = v

abbrev pub at_least : ℕ → ℤ → ℕ
at_least limit (pos n) = max limit n
at_least limit n = limit

-- A record before another: `sort(key=(total, quality_score, last_seen_at), reverse=True)`.
abbrev greater_or : Float → Float → Bool → Bool
greater_or a b rest = if ltb_float b a then true else if ltb_float a b then false else rest

abbrev pub scores_before : MemoryRow × MemoryScore → MemoryRow × MemoryScore → Bool
scores_before (r, a) (s, b) =
    greater_or a.total b.total
      (greater_or r.quality_score s.quality_score (not (ltb r.last_seen_at s.last_seen_at)))

module _ (rt : Runtime) (exact : ℤ → Option Float) (upstream : Upstream) (env : Env)
    (searches : Searches) where
  -- The search for the first vector of the text; a failure to embed gives none, as does a failure of the search.
  abbrev pub search_vector :
      Text → Text → Text → Bool → Option EmbeddingConfig → Action (List MemoryCandidate)
  search_vector group_id user_id text include_ineligible none w = (return [], w)
  search_vector group_id user_id text include_ineligible (some c) w = or_no_candidates (
      vector_candidates env searches group_id user_id
        (first_vector (embed_texts exact upstream (text ∷ []) c)) c.model
        (env_int env (codes "MEMORY_VECTOR_RECALL_LIMIT") (pos 20)) include_ineligible w)

  -- `_safe_vector_candidates`
  unfoldable pub safe_vector_candidates : Text → Text → Text → Bool → Action (List MemoryCandidate)
  unfolding env_unless_off config_from_env embed_texts env_int vector_candidates
  safe_vector_candidates group_id user_id text include_ineligible w =
      if not (env_unless_off env (codes "MEMORY_VECTOR_RECALL_ENABLED") false)
      then (return [], w)
      else search_vector group_id user_id text include_ineligible
          (usable_config (config_from_env rt env)) w

  -- The end of `debug_recall`: the candidates merged, scored and sorted.
  unfoldable pub ranked :
      ℕ → ChatRequest → ℕ → Bool → List MemoryCandidate → List (MemoryRow × MemoryScore)
  unfolding merge_from memory_score sort_first recall_eligible ltb_float
  ranked now request limit include_ineligible found = take limit (
      sort_first scores_before (
        map (λ (c : MemoryCandidate). (c.memory, memory_score now c request))
          (keep (λ (c : MemoryCandidate). include_ineligible || recall_eligible env c.memory)
            (merge_memory_candidates found))))

  -- `debug_recall`
  unfoldable pub debug_recall :
      ChatRequest → Text → ℕ → Bool → Action (List (MemoryRow × MemoryScore))
  unfolding keyword_candidates fts_candidates safe_vector_candidates ranked env_int
  debug_recall request text limit include_ineligible w =
      let group_id = string_id request.group_id in
      let user_id = string_id request.user_id in
      let candidate_limit =
        at_least limit (env_int env (codes "MEMORY_KEYWORD_RECALL_LIMIT") (pos 50)) in
      after
        (keyword_candidates env searches group_id user_id text candidate_limit include_ineligible w)
        (λ words w'.
          after
            (fts_candidates env searches group_id user_id text candidate_limit include_ineligible
              w')
            (λ texts w''.
              after (safe_vector_candidates group_id user_id text include_ineligible w'')
                (λ vectors w'''. (
                  return (
                      ranked w'''.clock.now request limit include_ineligible
                        (words ++ (texts ++ vectors))),
                  w''',
                ))))

  -- `recall`
  unfoldable pub recall : ChatRequest → Text → Action (List MemoryRow)
  unfolding debug_recall
  recall request text w =
      after (debug_recall request text 50 false w)
        (λ scored w'. (return (map (λ s. s.0) (take 8 scored)), w'))
