-- ===== src/Services/Memory/Recall.antt =====
-- brain-python/services/memory.py: the three searches of a recall, `debug_recall` and `recall`.
use test_bot.Base.{
  Bool, List, Option, [], false, if◌then◌else◌, is_empty, keep, leb, list_eq, ltb, map, nat_eq,
  none, some, take, true, ℕ, ◌&&◌, ◌++◌, ◌==◌, ◌||◌, ◌∷◌,
}
use test_bot.Base.Int.{ℤ, pos, negsuc}
use test_bot.Base.Result.{return}
use test_bot.Text.{Text, codes, strip}
use test_bot.Value.{Float, nan, ltb_float}
use test_bot.Env.{Env}
use test_bot.Floats.{clamp, one, subtract, zero_float}
use test_bot.Services.Embedding.{Vector}
use test_bot.Services.Memory.{MemoryRow, in_scope, is_kept, recall_eligible}
use test_bot.Services.Memory.Ageing.{as_record}
use test_bot.Services.Memory.Score.{least_greatest}
use test_bot.Services.Memory.Search.{ranks_before}
use test_bot.Services.Memory.Store.{MemoryEmbedding, Action, Memories, checked_statement, query}
use test_bot.Services.Memory.Relevance.{MemoryCandidate, Searches, keyword_match_score, keywords}

-- A sort that keeps the order of equal elements.
unfoldable pub insert_first {ℓ} : {A : Type ℓ} → (A → A → Bool) → A → List A → List A
insert_first goes_first x [] = x ∷ []
insert_first goes_first x (y ∷ ys) =
    let rest = insert_first goes_first x ys in if goes_first x y then x ∷ y ∷ ys else y ∷ rest

unfoldable pub sort_first {ℓ} : {A : Type ℓ} → (A → A → Bool) → List A → List A
unfolding insert_first
sort_first goes_first [] = []
sort_first goes_first (x ∷ xs) = insert_first goes_first x (sort_first goes_first xs)

-- `a < b` in SQL, where `NaN` is above every number.
unfoldable pub ltb_sql : Float → Float → Bool
unfolding ltb_float
ltb_sql nan b = false
ltb_sql a nan = true
ltb_sql a b = ltb_float a b

-- Descending by a first value, then by what is given.
abbrev pub by_greater : Float → Float → Bool → Bool
by_greater a b rest = if ltb_sql b a then true else if ltb_sql a b then false else rest

module _ (env : Env) (searches : Searches) where
  -- The `WHERE` that the three searches share.
  unfoldable pub is_searched : Bool → Text → Text → MemoryRow → Bool
  unfolding recall_eligible in_scope
  is_searched include_ineligible group_id user_id r =
      (if include_ineligible then is_kept r.status else recall_eligible env r)
      && in_scope group_id user_id r

  abbrev pub matches_one : List Text → Text → Bool
  matches_one [] content = false
  matches_one (word ∷ words) content =
      searches.ilike content (codes "%" ++ (word ++ codes "%")) || matches_one words content

  abbrev from_keywords : List Text → MemoryRow → MemoryCandidate
  from_keywords words r = record {
    memory = as_record r;
    sources = codes "keyword" ∷ [];
    keyword_match = keyword_match_score r.content words;
    fts_rank = zero_float;
    vector_similarity = zero_float;
  }

  -- `keyword_candidates`
  unfoldable pub keyword_candidates : Text → Text → Text → ℕ → Bool → Action (List MemoryCandidate)
  unfolding is_searched keywords sort_first ranks_before as_record keyword_match_score
  keyword_candidates group_id user_id text limit include_ineligible =
      let words = keywords searches.is_word text in
      let p : MemoryRow → Bool = λ r.
        is_searched include_ineligible group_id user_id r
        && (is_empty words || matches_one words r.content) in
      query (λ tables.
        map (from_keywords words) (take limit (sort_first ranks_before (keep p tables.rows))))

  abbrev pub with_value :
      Option Float → MemoryRow → List (Float × MemoryRow) → List (Float × MemoryRow)
  with_value none r rest = rest
  with_value (some x) r rest = (x, r) ∷ rest

  -- The rows that have a value, with it.
  abbrev pub valued : (MemoryRow → Option Float) → List MemoryRow → List (Float × MemoryRow)
  valued f [] = []
  valued f (r ∷ rs) = with_value (f r) r (valued f rs)

  -- `fts_rank DESC, quality_score DESC, importance DESC, last_seen_at DESC, id DESC`
  abbrev pub by_fts_rank : Float × MemoryRow → Float × MemoryRow → Bool
  by_fts_rank (x, r) (y, s) = by_greater x y (
      by_greater r.quality_score s.quality_score (
        by_greater r.importance s.importance (
          ltb s.last_seen_at r.last_seen_at
          || (r.last_seen_at == s.last_seen_at && leb s.id r.id))))

  abbrev from_text : Float × MemoryRow → MemoryCandidate
  from_text (rank, r) = record {
    memory = as_record r;
    sources = codes "fts" ∷ [];
    keyword_match = zero_float;
    fts_rank = clamp rank;
    vector_similarity = zero_float;
  }

  -- `fts_candidates`
  unfoldable pub fts_candidates : Text → Text → Text → ℕ → Bool → Action (List MemoryCandidate)
  unfolding is_searched sort_first as_record clamp ltb_sql ltb_float list_eq nat_eq
  fts_candidates group_id user_id text limit include_ineligible w =
      let wanted = strip text in
      if is_empty wanted
      then (return [], w)
      else query
          (λ tables. map from_text (
            take limit (
              sort_first by_fts_rank (
                valued (λ r. searches.full_text wanted r.content)
                  (keep (is_searched include_ineligible group_id user_id) tables.rows)))))
          w

  -- The memories and vectors of a model.
  abbrev pub embedded : Text → List MemoryEmbedding → List (ℕ × Vector)
  embedded model [] = []
  embedded model (e ∷ es) =
      let rest = embedded model es in
      if e.embedding_model == model then (e.memory_id, e.embedding) ∷ rest else rest

  -- The join of `memory_embeddings` with `memory_items`: the distances of the rows.
  abbrev pub with_id : ℕ → Float → List MemoryRow → List (Float × MemoryRow)
  with_id id x [] = []
  with_id id x (r ∷ rs) = let rest = with_id id x rs in if r.id == id then (x, r) ∷ rest else rest

  abbrev pub distances : Vector → List (ℕ × Vector) → List MemoryRow → List (Float × MemoryRow)
  distances wanted [] rows = []
  distances wanted ((id, v) ∷ vs) rows =
      with_id id (searches.distance v wanted) rows ++ distances wanted vs rows

  -- `distance, quality_score DESC, importance DESC, id DESC`
  abbrev pub by_distance : Float × MemoryRow → Float × MemoryRow → Bool
  by_distance (x, r) (y, s) = by_greater y x (
      by_greater r.quality_score s.quality_score
        (by_greater r.importance s.importance (leb s.id r.id)))

  -- `GREATEST(0.0, LEAST(1.0, 1.0 - distance))`
  abbrev from_vector : Float × MemoryRow → MemoryCandidate
  from_vector (x, r) = record {
    memory = as_record r;
    sources = codes "vector" ∷ [];
    keyword_match = zero_float;
    fts_rank = zero_float;
    vector_similarity = clamp (least_greatest (subtract one x));
  }

  -- The result of the search for a limit; a negative one is an error of the database.
  abbrev pub limited : ℤ → List (Float × MemoryRow) → Option (List MemoryCandidate)
  limited (pos n) found = some (map from_vector (take n found))
  limited (negsuc n) found = none

  abbrev pub unchanged :
      Memories → Option (List MemoryCandidate) → Option (List MemoryCandidate × Memories)
  unchanged tables none = none
  unchanged tables (some found) = some (found, tables)

  -- `vector_candidates`
  unfoldable pub vector_candidates :
      Text → Text → Vector → Text → ℤ → Bool → Action (List MemoryCandidate)
  unfolding checked_statement is_searched sort_first as_record clamp ltb_sql ltb_float list_eq
      nat_eq
  vector_candidates group_id user_id wanted model limit include_ineligible w =
      if is_empty wanted || is_empty model
      then (return [], w)
      else checked_statement
          (λ tables. unchanged tables (
            limited limit (
              sort_first by_distance (
                distances wanted (embedded model tables.embeddings)
                  (keep (is_searched include_ineligible group_id user_id) tables.rows)))))
          w
