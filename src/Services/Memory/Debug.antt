-- ===== src/Services/Memory/Debug.antt =====
-- brain-python/services/memory.py: `_debug_recall_response`.
use test_bot.Base.{List, [], if◌then◌else◌, is_empty, length, map, true, ◌++◌, ◌∷◌}
use test_bot.Base.Int.{pos}
use test_bot.Text.{Text, codes, join, show_nat}
use test_bot.Value.{Fields, Float, Runtime, end, field, int}
use test_bot.Env.{Env}
use test_bot.Floats.{show_2f}
use test_bot.Schemas.{BrainResponse, ChatRequest}
use test_bot.Services.Memory.{MemoryRow, recall_eligible}
use test_bot.Services.Memory.Ageing.{lifecycle_name}
use test_bot.Services.Memory.Store.{Action}
use test_bot.Services.Memory.Command.{Tools, answer, command_field, replied_with}
use test_bot.Services.Memory.Relevance.{MemoryScore}
use test_bot.Services.Memory.Ranking.{debug_recall}

abbrev named_score : Text → Float → Text
named_score name score = codes " " ++ (name ++ (codes "=" ++ show_2f score))

-- The line of a scored memory.
unfoldable pub debug_line : Env → MemoryRow × MemoryScore → Text
unfolding recall_eligible show_2f show_nat
debug_line env (r, score) =
    codes "#"
    ++ (show_nat r.id
        ++ (named_score (codes "score") score.total
            ++ (codes " eligible="
                ++ ((if recall_eligible env r then codes "yes" else codes "no")
                    ++ (codes " lifecycle="
                        ++ (lifecycle_name r.lifecycle_status
                            ++ (codes " sources="
                                ++ ((if is_empty score.sources
                                      then codes "-"
                                      else join (codes ",") score.sources)
                                    ++ (named_score (codes "keyword") score.keyword_match
                                        ++ (named_score (codes "fts") score.fts_rank
                                            ++ (named_score (codes "vector") score.vector_similarity
                                                ++ (named_score (codes "entity")
                                                      score.entity_relevance
                                                    ++ (named_score (codes "scope")
                                                          score.scope_relevance
                                                        ++ (named_score (codes "quality")
                                                            score.quality_score
                                                            ++ (named_score (codes "recency")
                                                            score.recency_weight
                                                            ++ (codes " "
                                                            ++ r.content))))))))))))))))

abbrev counted_scores : List (MemoryRow × MemoryScore) → Fields
counted_scores scored =
    command_field (codes "debug_recall") (field (codes "count") (int (pos (length scored))) end)

unfoldable pub scored_response : Env → List (MemoryRow × MemoryScore) → BrainResponse
unfolding debug_line
scored_response env [] = answer (codes "召回调试：无候选") (counted_scores [])
scored_response env (s ∷ scored) =
    answer (join (codes "\n") (codes "召回调试：" ∷ map (λ x. debug_line env x) (s ∷ scored)))
      (counted_scores (s ∷ scored))

-- `_debug_recall_response`
unfoldable pub debug_recall_response :
    Runtime → Env → Tools → ChatRequest → Text → Action BrainResponse
unfolding debug_recall scored_response
debug_recall_response rt env tools request text w =
    replied_with (λ scored. scored_response env scored)
      (debug_recall rt tools.exact tools.upstream env tools.searches request text 10 true w)
