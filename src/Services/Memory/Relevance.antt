-- ===== src/Services/Memory/Relevance.antt =====
-- brain-python/services/memory.py: the candidates of a recall, how they are merged and what they score.
use test_bot.Base.{
  Bool, List, Option, [], contains, false, if◌then◌else◌, is_empty, keep, leb, length, list_eq, ltb,
  nat_eq, not, take, true, ℕ, ◌&&◌, ◌++◌, ◌==◌, ◌||◌, ◌∷◌,
}
use test_bot.Text.{Text, lower, starts_with, strip}
use test_bot.Value.{Float, ltb_float, string_id}
use test_bot.Schemas.{ChatRequest}
use test_bot.Floats.{
  add, clamp, divide, leb_float, max_float, multiply, one, quotient, round4, subtract, zero_float,
}
use test_bot.Services.Embedding.{Vector}
use test_bot.Services.Memory.{MemoryRow, global, in_group, of_relationship, of_user}
use test_bot.Services.Memory.Score.{age_days}
use test_bot.Services.Memory.Search.{Ilike}
use test_bot.Services.Memory.Upsert.{coalesced}

-- What PostgreSQL and the interpreter compute: `ILIKE`; for a query and a text the `ts_rank_cd` where
-- `@@` holds; `<=>`; and which characters are `\w`.
pub record Searches : Type 0 where
  pub ilike : Ilike
  pub full_text : Text → Text → Option Float
  pub distance : Vector → Vector → Float
  pub is_word : ℕ → Bool

pub record MemoryCandidate : Type 0 where
  pub memory : MemoryRow
  pub sources : List Text
  pub keyword_match : Float
  pub fts_rank : Float
  pub vector_similarity : Float

pub record MemoryScore : Type 0 where
  pub total : Float
  pub keyword_match : Float
  pub fts_rank : Float
  pub vector_similarity : Float
  pub entity_relevance : Float
  pub scope_relevance : Float
  pub quality_score : Float
  pub recency_weight : Float
  pub sources : List Text

-- The runs of word characters.
abbrev with_char : Bool → ℕ → List Text → List Text
with_char true c [] = (c ∷ []) ∷ []
with_char true c (run ∷ runs) = (c ∷ run) ∷ runs
with_char false c runs = [] ∷ runs

unfoldable pub word_runs : (ℕ → Bool) → Text → List Text
word_runs is_word [] = []
word_runs is_word (c ∷ cs) =
    let runs = word_runs is_word cs in with_char (is_word c || (leb 19968 c && leb c 40959)) c runs

-- `_keywords`
unfoldable pub keywords : (ℕ → Bool) → Text → List Text
unfolding word_runs
keywords is_word text = take 6 (keep (λ run. leb 2 (length run)) (word_runs is_word text))

-- `keyword in content`
unfoldable pub occurs : Text → Text → Bool
unfolding starts_with
occurs keyword [] = is_empty keyword
occurs keyword (c ∷ cs) = starts_with (c ∷ cs) keyword || occurs keyword cs

-- `_keyword_match_score`
unfoldable pub keyword_match_score : Text → List Text → Float
unfolding lower occurs quotient clamp
keyword_match_score content [] = zero_float
keyword_match_score content (word ∷ words) =
    let all = word ∷ words in
    clamp (
      quotient (length (keep (λ keyword. occurs (lower keyword) (lower content)) all)) (length all))

abbrev scored_if : Bool → ℕ → Float → Float
scored_if test hundredths score = if test then add score (quotient hundredths 100) else score

-- A column of a record, as `_row_to_memory` reads it.
abbrev column : Option Text → Text
column c = strip (coalesced c)

-- `_entity_relevance_score`
unfoldable pub entity_relevance_score : MemoryRow → ChatRequest → Float
unfolding list_eq nat_eq add quotient clamp
entity_relevance_score r request =
    let group_id = string_id request.group_id in
    let user_id = string_id request.user_id in
    let grouped =
      scored_if (not (is_empty group_id) && column r.group_id == group_id) 45 zero_float in
    let owned = scored_if (not (is_empty user_id) && column r.user_id == user_id) 45 grouped in
    let aimed = scored_if (not (is_empty user_id) && column r.target_user_id == user_id) 35 owned in
    elim r.scope [ global ↦ quotient 2 10 | _ ↦ clamp aimed ]

-- `_scope_relevance_score`
unfoldable pub scope_relevance_score : MemoryRow → ChatRequest → Float
unfolding list_eq nat_eq quotient
scope_relevance_score r request =
    let user_id = string_id request.user_id in
    let about = column r.user_id == user_id || column r.target_user_id == user_id in
    elim r.scope [
      | of_user ↦ if about then one else quotient 1 2
      | of_relationship ↦ if about then one else quotient 1 2
      | in_group ↦ quotient 75 100
      | global ↦ quotient 4 10
    ]

-- `_recency_weight`
unfoldable pub recency_weight : ℕ → ℕ → Float
unfolding age_days leb_float quotient divide multiply clamp
recency_weight value now =
    let age = age_days value now in
    if leb_float age (quotient 30 1)
    then one
    else if leb_float (quotient 180 1) age
    then quotient 2 10
    else clamp (subtract one (multiply (divide (subtract age (quotient 30 1)) 150) (quotient 8 10)))

-- The sum of the products with hundredths, from the left.
abbrev weighted : Float → Float → ℕ → Float
weighted total part hundredths = add total (multiply part (quotient hundredths 100))

-- `memory_score` of a candidate.
unfoldable pub memory_score : ℕ → MemoryCandidate → ChatRequest → MemoryScore
unfolding add multiply quotient clamp round4 entity_relevance_score scope_relevance_score
    recency_weight
memory_score now c request =
    let entity = entity_relevance_score c.memory request in
    let scope = scope_relevance_score c.memory request in
    let recency = recency_weight c.memory.last_seen_at now in
    let matched = multiply c.keyword_match (quotient 18 100) in
    let total = clamp (
      weighted
        (weighted
          (weighted
            (weighted (weighted (weighted matched c.fts_rank 12) c.vector_similarity 25) entity 18)
            scope 12)
          c.memory.quality_score 10)
        recency 5) in
    record {
      total = round4 total;
      keyword_match = round4 c.keyword_match;
      fts_rank = round4 c.fts_rank;
      vector_similarity = round4 c.vector_similarity;
      entity_relevance = round4 entity;
      scope_relevance = round4 scope;
      quality_score = round4 c.memory.quality_score;
      recency_weight = round4 recency;
      sources = c.sources;
    }

-- `_preferred_candidate_record`; the doubles of two times differ where the times do.
unfoldable pub preferred_candidate_record : MemoryRow → MemoryRow → MemoryRow
unfolding ltb_float
preferred_candidate_record left right =
    if ltb_float left.quality_score right.quality_score
    then right
    else if leb_float left.quality_score right.quality_score
        && leb_float right.quality_score left.quality_score
        && ltb left.last_seen_at right.last_seen_at
    then right
    else left

abbrev pub joined : MemoryCandidate → MemoryCandidate → MemoryCandidate
joined existing candidate = record {
  memory = preferred_candidate_record existing.memory candidate.memory;
  sources = existing.sources ++ keep (λ s. not (contains existing.sources s)) candidate.sources;
  keyword_match = max_float existing.keyword_match candidate.keyword_match;
  fts_rank = max_float existing.fts_rank candidate.fts_rank;
  vector_similarity = max_float existing.vector_similarity candidate.vector_similarity;
}

-- The loop of `_merge_memory_candidates`: `merged[id]` of a candidate, in the order of insertion.
unfoldable pub merge_one : MemoryCandidate → List MemoryCandidate → List MemoryCandidate
unfolding nat_eq list_eq preferred_candidate_record ltb_float
merge_one c [] = c ∷ []
merge_one c (d ∷ ds) =
    let rest = merge_one c ds in if d.memory.id == c.memory.id then joined d c ∷ ds else d ∷ rest

unfoldable pub merge_from : List MemoryCandidate → List MemoryCandidate → List MemoryCandidate
unfolding merge_one
merge_from merged [] = merged
merge_from merged (c ∷ cs) = merge_from (merge_one c merged) cs

-- `_merge_memory_candidates`
abbrev pub merge_memory_candidates : List MemoryCandidate → List MemoryCandidate
merge_memory_candidates = merge_from []
