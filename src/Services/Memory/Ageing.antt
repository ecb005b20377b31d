-- ===== src/Services/Memory/Ageing.antt =====
-- brain-python/services/memory.py: confirming, ageing, counting and searching memories.
use test_bot.Base.{contains, max}
use test_bot.Floats.{clamp}
use test_bot.Services.Memory.{class_for_type}
use test_bot.Services.Extractor.{memory_classes}
use test_bot.Base.{
  Bool, List, [], false, if◌then◌else◌, is_empty, keep, leb, length, list_eq, ltb, nat_eq, not,
  some, true, ◌&&◌, ◌==◌, ◌||◌, ◌∷◌,
}
use test_bot.Text.{Text, codes}
use test_bot.Value.{Fields, Float, ltb_float, nan}
use test_bot.Base.Dict.{Dict, or_else}
use test_bot.Floats.{float_of_int, max_float, one, quotient}
use test_bot.Services.Memory.{addressed, equals, is_active, is_kept, is_retired}
use test_bot.Services.Memory.Score.{compute_quality_score, quality_score_sql, scores_of}
use test_bot.Services.Tools.Owners.{names}
use test_bot.Services.Memory.{
  Lifecycle, MemoryRow, weak, confirmed, reinforced, stale, contradicted, retired, active, archived,
  global, update_where, put_field, lifecycle_action,
}
use test_bot.Base.{ℕ}

-- `now` and the ISO text of it, which the metadata keep.
pub record Clock : Type 0 where
  pub now : ℕ
  pub iso : Text

-- `GREATEST(stability, 0.65)`
abbrev raised_stability : Float → Float
raised_stability nan = nan
raised_stability s = max_float s (quotient 65 100)

abbrev noted : Text → Text → Clock → MemoryRow → Fields
noted action actor_id clock r =
    put_field (codes "last_admin_lifecycle_action") (lifecycle_action action actor_id clock.iso)
      r.metadata

unfoldable pub confirmed_row : Clock → Text → MemoryRow → MemoryRow
unfolding put_field quality_score_sql ltb_float quotient
confirmed_row clock actor_id r =
    let stability = raised_stability r.stability in
    record r {
      status = active;
      lifecycle_status = confirmed;
      last_confirmed_at = some clock.now;
      stability = stability;
      decay_score = one;
      quality_score =
          quality_score_sql (record (scores_of r) { stability = stability; decay_score = one });
      metadata = noted (codes "confirm") actor_id clock r;
      updated_at = clock.now;
    }

-- `confirm_memory`
unfoldable pub confirm_memory :
    Clock → ℕ → Text → Bool → Text → List MemoryRow → Bool × List MemoryRow
unfolding addressed update_where confirmed_row
confirm_memory clock memory_id group_id allow_global actor_id rows =
    let p = addressed memory_id group_id allow_global in
    (not (is_empty (keep p rows)), update_where p (confirmed_row clock actor_id) rows)

unfoldable pub stale_row : Clock → Text → MemoryRow → MemoryRow
unfolding put_field quality_score_sql
stale_row clock actor_id r = record r {
  lifecycle_status = stale;
  quality_score = quality_score_sql (scores_of r);
  metadata = noted (codes "stale") actor_id clock r;
  updated_at = clock.now;
}

-- The `WHERE` of `mark_stale`.
abbrev pub can_stale : ℕ → Text → Bool → MemoryRow → Bool
can_stale memory_id group_id allow_global r =
    r.id == memory_id && is_active r.status && (allow_global || equals r.group_id group_id)

-- `mark_stale`
unfoldable pub mark_stale : Clock → ℕ → Text → Bool → Text → List MemoryRow → Bool × List MemoryRow
unfolding list_eq nat_eq update_where stale_row
mark_stale clock memory_id group_id allow_global actor_id rows =
    let p = can_stale memory_id group_id allow_global in
    (not (is_empty (keep p rows)), update_where p (stale_row clock actor_id) rows)

abbrev pub is_global : MemoryRow → Bool
is_global r = elim r.scope [ global ↦ true | _ ↦ false ]

-- `%s = '' OR group_id = %s OR scope = 'global'`
unfoldable pub within : Text → MemoryRow → Bool
unfolding list_eq nat_eq
within group_id r = is_empty group_id || (equals r.group_id group_id || is_global r)

-- `count_active`
unfoldable pub count_active : Text → List MemoryRow → ℕ
unfolding within
count_active group_id rows = length (
    keep (λ r. is_active r.status && not (is_retired r.lifecycle_status) && within group_id r) rows)

abbrev pub lifecycle_name : Lifecycle → Text
lifecycle_name weak = codes "weak"
lifecycle_name confirmed = codes "confirmed"
lifecycle_name reinforced = codes "reinforced"
lifecycle_name stale = codes "stale"
lifecycle_name contradicted = codes "contradicted"
lifecycle_name retired = codes "archived"

-- One count of `lifecycle_counts`.
unfoldable pub lifecycle_count : Text → Text → List MemoryRow → ℕ
unfolding within list_eq nat_eq
lifecycle_count group_id name rows = length (
    keep (λ r. is_kept r.status && within group_id r && lifecycle_name r.lifecycle_status == name)
      rows)

-- `lifecycle_counts`, in the order of the sorted names.
abbrev counts_of : Text → List MemoryRow → List Text → Dict Text ℕ
counts_of group_id rows [] = []
counts_of group_id rows (name ∷ names) =
    (name, lifecycle_count group_id name rows) ∷ counts_of group_id rows names

unfoldable pub lifecycle_counts : Text → List MemoryRow → Dict Text ℕ
unfolding lifecycle_count
lifecycle_counts group_id rows = counts_of group_id rows (
    codes "archived"
    ∷ codes "confirmed"
    ∷ codes "contradicted"
    ∷ codes "reinforced"
    ∷ codes "stale"
    ∷ codes "weak"
    ∷ [])

-- `status IN ('weak', 'confirmed', 'reinforced')`
abbrev decays : Lifecycle → Bool
decays weak = true
decays confirmed = true
decays reinforced = true
decays l = false

-- The `WHERE` of `apply_decay`.
unfoldable pub can_decay : Text → MemoryRow → Bool
unfolding within
can_decay group_id r = is_active r.status && decays r.lifecycle_status && within group_id r

-- `ORDER BY last_seen_at ASC, id ASC`
unfoldable pub insert_by_age : MemoryRow → List MemoryRow → List MemoryRow
insert_by_age r [] = r ∷ []
insert_by_age r (s ∷ ss) =
    if ltb r.last_seen_at s.last_seen_at || (r.last_seen_at == s.last_seen_at && leb r.id s.id)
    then r ∷ s ∷ ss
    else s ∷ insert_by_age r ss

unfoldable pub sort_by_age : List MemoryRow → List MemoryRow
sort_by_age [] = []
sort_by_age (r ∷ rs) = insert_by_age r (sort_by_age rs)

-- What happens to a record of an age.
pub data Fate : Type 0 where
  lives goes_stale is_archived : Fate

unfoldable pub fate : Lifecycle → Float → Float → Fate
unfolding ltb_float float_of_int quotient
fate weak age decay = if ltb_float (quotient 14 1) age then is_archived else lives
fate confirmed age decay = if ltb_float decay (quotient 25 100) then goes_stale else lives
fate reinforced age decay = if ltb_float decay (quotient 15 100) then goes_stale else lives
fate l age decay = lives

-- `_row_to_memory` with `MemoryRecord.__post_init__`, on the columns whose values they change.
unfoldable pub as_record : MemoryRow → MemoryRow
unfolding list_eq nat_eq class_for_type clamp
as_record r = record r {
  memory_class =
      if contains memory_classes r.memory_class
      then r.memory_class
      else class_for_type r.memory_type;
  confidence = clamp r.confidence;
  importance = clamp r.importance;
  stability = clamp r.stability;
  decay_score = clamp r.decay_score;
  quality_score = clamp r.quality_score;
  source_count =
      if r.source_count == 0 then max 1 (length r.evidence_message_ids) else r.source_count;
}

-- The `UPDATE` of `apply_decay` for a record, on the row with its id.
unfoldable pub aged_row : ℕ → MemoryRow → Float → Fate → MemoryRow → MemoryRow
unfolding compute_quality_score
aged_row now record_ decay ends r = record r {
  status = elim ends [ is_archived ↦ archived | _ ↦ record_.status ];
  lifecycle_status = elim ends [
    | is_archived ↦ retired
    | goes_stale ↦ stale
    | lives ↦ record_.lifecycle_status
  ];
  decay_score = decay;
  quality_score = compute_quality_score (record (scores_of record_) { decay_score = decay });
  archived_at = elim ends [ is_archived ↦ or_else r.archived_at (some now) | _ ↦ r.archived_at ];
  updated_at = now;
}
