-- ===== src/Services/Memory/Score.antt =====
-- brain-python/services/memory.py: the scores of memories, and the life that a score earns.
use test_bot.Base.{if◌then◌else◌, leb, list_eq, nat_eq, ◌&&◌, ◌*◌, ◌-◌, ◌==◌, ◌||◌}
use test_bot.Text.{Text, codes, lower, strip}
use test_bot.Value.{Float, ltb_float, nan}
use test_bot.Floats.{
  add, clamp, divide, leb_float, max_float, multiply, one, quotient, round4, subtract, zero_float,
}
use test_bot.Services.Memory.{
  Lifecycle, MemoryRow, weak, confirmed, reinforced, contradicted, retired,
}
use test_bot.Base.{min, ℕ}

-- What `compute_quality_score` reads of a record.
pub record Scores : Type 0 where
  pub confidence : Float
  pub importance : Float
  pub stability : Float
  pub decay_score : Float
  pub source_count : ℕ
  pub contradiction_count : ℕ

abbrev pub scores_of : MemoryRow → Scores
scores_of r = record {
  confidence = r.confidence;
  importance = r.importance;
  stability = r.stability;
  decay_score = r.decay_score;
  source_count = r.source_count;
  contradiction_count = r.contradiction_count;
}

-- `compute_quality_score`
unfoldable pub compute_quality_score : Scores → Float
unfolding multiply add quotient clamp round4
compute_quality_score s = round4 (
    clamp (
      subtract
        (add
          (add
            (add
              (add (multiply s.confidence (quotient 35 100))
                (multiply s.importance (quotient 25 100)))
              (multiply s.stability (quotient 15 100)))
            (multiply (quotient (min s.source_count 5) 5) (quotient 15 100)))
          (multiply s.decay_score (quotient 1 10)))
        (multiply (quotient (min s.contradiction_count 3) 1) (quotient 1 10))))

-- `LEAST(1.0, GREATEST(0.0, x))`, where `NaN` is above every number.
abbrev pub least_greatest : Float → Float
least_greatest nan = one
least_greatest x = if ltb_float x zero_float then zero_float else if ltb_float one x then one else x

-- `_quality_score_sql`: the factors of counts are exact numbers, which become doubles in the sum.
unfoldable pub quality_score_sql : Scores → Float
unfolding multiply add quotient ltb_float
quality_score_sql s = least_greatest (
    subtract
      (add
        (add
          (add
            (add (multiply s.confidence (quotient 35 100))
              (multiply s.importance (quotient 25 100)))
            (multiply s.stability (quotient 15 100)))
          (quotient (3 * min s.source_count 5) 100))
        (multiply s.decay_score (quotient 1 10)))
      (quotient (min s.contradiction_count 3) 10))

-- `half_life_days`
unfoldable pub half_life_days : Text → ℕ
unfolding list_eq nat_eq
half_life_days memory_class =
    if memory_class == codes "episodic"
    then 30
    else if memory_class == codes "procedural"
    then 365
    else if memory_class == codes "social"
    then 120
    else if memory_class == codes "persona"
    then 730
    else 180

-- `decay_score_for`
unfoldable pub decay_score_for : Text → Float → Float
unfolding half_life_days add divide ltb_float clamp round4
decay_score_for memory_class age_days =
    round4
      (clamp (subtract one (divide (max_float zero_float age_days) (half_life_days memory_class))))

-- `_age_days`, of two times in microseconds.
unfoldable pub age_days : ℕ → ℕ → Float
unfolding quotient divide
age_days value now = divide (quotient (now - value) 1000000) 86400

-- `initial_lifecycle_status` of an item that names no status.
unfoldable pub initial_lifecycle_status : Text → Float → Float → ℕ → Lifecycle
unfolding leb_float quotient list_eq nat_eq
initial_lifecycle_status memory_type confidence importance source_count =
    if lower (strip memory_type) == codes "warning" && leb_float (quotient 7 10) confidence
    then confirmed
    else if leb_float (quotient 78 100) confidence
        && leb_float (quotient 55 100) importance
        && leb 2 source_count
    then confirmed
    else weak

-- The branches of `_reinforced_lifecycle_status` on the existing status, for the status of a new item.
abbrev pub promoted : Lifecycle → Lifecycle → Lifecycle
promoted confirmed candidate = confirmed
promoted existing candidate = candidate

-- Its end.
abbrev pub strengthened : Float → ℕ → Lifecycle → Lifecycle
strengthened stability source_count confirmed =
    if leb 3 source_count || leb_float (quotient 75 100) stability then reinforced else confirmed
strengthened stability source_count candidate = candidate

-- `_reinforced_lifecycle_status`
unfoldable pub reinforced_lifecycle_status :
    Lifecycle → Text → Float → Float → ℕ → Float → Lifecycle
unfolding initial_lifecycle_status
reinforced_lifecycle_status contradicted memory_type confidence importance source_count stability =
    contradicted
reinforced_lifecycle_status reinforced memory_type confidence importance source_count stability =
    reinforced
reinforced_lifecycle_status retired memory_type confidence importance source_count stability =
    retired
reinforced_lifecycle_status existing memory_type confidence importance source_count stability =
    strengthened stability source_count
      (promoted existing (initial_lifecycle_status memory_type confidence importance source_count))
