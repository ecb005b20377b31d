-- ===== src/Services/Memory/Upsert.antt =====
-- brain-python/services/memory.py: storing an extracted memory.
use test_bot.Base.{
  Bool, List, Option, [], contains, find, if◌then◌else◌, is_empty, keep, leb, length, list_eq, ltb,
  max, nat_eq, none, not, some, take, ℕ, ◌&&◌, ◌++◌, ◌+◌, ◌==◌, ◌||◌, ◌∷◌,
}
use test_bot.Text.{Text, codes, lower, strip}
use test_bot.Value.{
  Fields, Float, Items, Runtime, arr, cons, dict, end, field, find_field, get, int, ltb_float, nil,
  str, str_of,
}
use test_bot.Base.Int.{pos, ℤ}
use test_bot.Floats.{add, clamp, leb_float, max_float, one, quotient, zero_float}
use test_bot.Services.Memory.{
  class_for_type, global, is_active, is_retired, merge_evidence, normalize_memory_content,
  put_field, recallable, update_where,
}
use test_bot.Services.Ai.{or_value, truthy}
use test_bot.Services.Extractor.{Item, memory_classes}
use test_bot.Services.Memory.Score.{
  compute_quality_score, initial_lifecycle_status, quality_score_sql, reinforced_lifecycle_status,
  scores_of,
}
use test_bot.Services.Memory.Ageing.{Clock, as_record}
use test_bot.Services.Memory.Store.{put_fields}
use test_bot.Services.Memory.{
  MemoryScope, MemoryRow, active, contradicted, in_group, of_user, of_relationship,
}
use test_bot.Services.Memory.Store.{Action, Memories, after, checked_statement, on_rows, query}
use test_bot.Base.Result.{return}

abbrev pub scope_name : MemoryScope → Text
scope_name in_group = codes "group"
scope_name of_user = codes "user"
scope_name of_relationship = codes "relationship"
scope_name global = codes "global"

-- The scope of an item, which is one of three.
abbrev pub scope_of : Text → MemoryScope
scope_of scope =
    if scope == codes "user"
    then of_user
    else if scope == codes "relationship"
    then of_relationship
    else in_group

-- `COALESCE(column, '') = value`
abbrev pub coalesced : Option Text → Text
coalesced none = []
coalesced (some text) = text

-- `_int_value(metadata.get("conflicts_with_memory_id"), 0)`, of metadata that `_clean_candidate` made.
unfoldable pub conflict_id : Fields → ℕ
unfolding find_field
conflict_id metadata = elim (get (codes "conflicts_with_memory_id") metadata) [
  | int (pos n) ↦ n
  | _ ↦ 0
]

abbrev ints : List ℤ → Items
ints [] = nil
ints (n ∷ ns) = cons (int n) (ints ns)

abbrev contradiction : Item → Text → Fields
contradiction item iso =
    field (codes "last_contradiction")
      (dict (
        field (codes "candidate_content") (str item.content) (
          field (codes "evidence_message_ids") (arr (ints item.evidence_message_ids)) (
            field (codes "conflicts_with") (get (codes "conflicts_with") item.metadata)
              (field (codes "at") (str iso) end)))))
      end

unfoldable pub contradicted_row : Clock → Item → MemoryRow → MemoryRow
unfolding put_fields quality_score_sql find_field
contradicted_row clock item r = record r {
  lifecycle_status = contradicted;
  contradiction_count = r.contradiction_count + 1;
  quality_score =
      quality_score_sql (record (scores_of r) { contradiction_count = r.contradiction_count + 1 });
  metadata = put_fields r.metadata (contradiction item clock.iso);
  updated_at = clock.now;
}

-- The `WHERE` of `_mark_contradicted_memory`.
abbrev pub is_conflict : ℕ → Text → MemoryRow → Bool
is_conflict id group_id r = r.id == id && is_active r.status && coalesced r.group_id == group_id

-- `_mark_contradicted_memory`
unfoldable pub mark_contradicted_memory : Item → Action (Unit {0})
unfolding checked_statement conflict_id update_where contradicted_row list_eq nat_eq
mark_contradicted_memory item w =
    let id = conflict_id item.metadata in
    if id == 0 || is_empty (strip item.group_id)
    then (return tt, w)
    else on_rows
        (λ rows. (
          tt,
          update_where (is_conflict id (strip item.group_id)) (contradicted_row w.clock item) rows,
        ))
        w

-- `_memory_class_from_item`
unfoldable pub memory_class_from_item : Item → Text
unfolding lower list_eq nat_eq class_for_type
memory_class_from_item item =
    let explicit = lower (strip item.memory_class) in
    if contains memory_classes explicit then explicit else class_for_type item.memory_type

-- The `WHERE` of `_find_matching_memory`.
unfoldable pub is_alike : Item → MemoryRow → Bool
unfolding list_eq nat_eq memory_class_from_item
is_alike item r =
    is_active r.status
    && scope_name r.scope == item.scope
    && coalesced r.group_id == item.group_id
    && coalesced r.user_id == item.user_id
    && coalesced r.target_user_id == item.target_user_id
    && r.memory_class == memory_class_from_item item
    && r.memory_type == item.memory_type
    && not (is_retired r.lifecycle_status)

-- `ORDER BY last_seen_at DESC, id DESC`
unfoldable pub insert_by_recency : MemoryRow → List MemoryRow → List MemoryRow
insert_by_recency r [] = r ∷ []
insert_by_recency r (s ∷ ss) =
    if ltb s.last_seen_at r.last_seen_at || (r.last_seen_at == s.last_seen_at && leb s.id r.id)
    then r ∷ s ∷ ss
    else s ∷ insert_by_recency r ss

unfoldable pub sort_by_recency : List MemoryRow → List MemoryRow
sort_by_recency [] = []
sort_by_recency (r ∷ rs) = insert_by_recency r (sort_by_recency rs)

-- Whether a row has the content, or was stored for it.
unfoldable pub same_content : Runtime → Text → MemoryRow → Bool
unfolding find_field truthy str_of list_eq nat_eq normalize_memory_content
same_content rt normalized_content r =
    str_of rt (or_value (get (codes "normalized_content") r.metadata) (str []))
      == normalized_content
    || normalize_memory_content r.content == normalized_content

-- `_find_matching_memory`
unfoldable pub find_matching_memory : Runtime → Item → Text → Action (Option MemoryRow)
unfolding checked_statement is_alike sort_by_recency same_content
find_matching_memory rt item normalized_content = query (λ tables.
    find (same_content rt normalized_content)
      (take 100 (sort_by_recency (keep (is_alike item) tables.rows))))

abbrev stored_metadata : Item → Text → Fields → Fields
stored_metadata item normalized_content known = put_fields known (
    put_field (codes "extractor") (str (codes "memory-extractor-mvp"))
      (put_field (codes "normalized_content") (str normalized_content) item.metadata))

abbrev small_step : Float → ℕ → Float
small_step x hundredths = clamp (add x (quotient hundredths 100))

-- What `upsert_extracted_memory` writes into a row that it found: `found` is the record of the row.
unfoldable pub seen_again : ℕ → Item → Text → MemoryRow → MemoryRow → MemoryRow
unfolding merge_evidence clamp add quotient ltb_float put_field put_fields memory_class_from_item
    reinforced_lifecycle_status compute_quality_score
seen_again now item normalized_content found r =
    let evidence = merge_evidence [] (found.evidence_message_ids ++ item.evidence_message_ids) in
    let news = ltb (length found.evidence_message_ids) (length evidence) in
    let higher = max_float found.confidence item.confidence in
    let confidence = if news then small_step higher 3 else higher in
    let stability = if news then small_step found.stability 5 else found.stability in
    let importance = max_float found.importance item.importance in
    record r {
      memory_class = memory_class_from_item item;
      confidence = confidence;
      importance = importance;
      evidence_message_ids = evidence;
      source_count = length evidence;
      stability = stability;
      decay_score = one;
      lifecycle_status =
          reinforced_lifecycle_status found.lifecycle_status item.memory_type confidence importance
            (length evidence) stability;
      quality_score = compute_quality_score (record {
        confidence = clamp confidence;
        importance = clamp importance;
        stability = clamp stability;
        decay_score = one;
        source_count = max 1 (length evidence);
        contradiction_count = found.contradiction_count;
      });
      last_confirmed_at = if news then some now else r.last_confirmed_at;
      metadata = stored_metadata item normalized_content found.metadata;
      last_seen_at = now;
      updated_at = now;
    }

-- `value or None`
abbrev or_null : Text → Option Text
or_null text = if is_empty text then none else some text

abbrev half : Float
half = quotient 1 2

-- The row that `upsert_extracted_memory` inserts.
unfoldable pub first_seen : ℕ → Item → Text → ℕ → MemoryRow
unfolding put_field put_fields clamp quotient memory_class_from_item initial_lifecycle_status
    compute_quality_score
first_seen now item normalized_content id =
    let source_count = max 1 (length item.evidence_message_ids) in
    let lifecycle_status =
      initial_lifecycle_status item.memory_type item.confidence item.importance
        (length item.evidence_message_ids) in
    record {
      id = id;
      scope = scope_of item.scope;
      group_id = or_null item.group_id;
      user_id = or_null item.user_id;
      target_user_id = or_null item.target_user_id;
      memory_type = item.memory_type;
      memory_class = memory_class_from_item item;
      content = item.content;
      confidence = item.confidence;
      importance = item.importance;
      stability = half;
      decay_score = one;
      quality_score = compute_quality_score (record {
        confidence = clamp item.confidence;
        importance = clamp item.importance;
        stability = half;
        decay_score = one;
        source_count = source_count;
        contradiction_count = 0;
      });
      contradiction_count = 0;
      source_count = source_count;
      evidence_message_ids = item.evidence_message_ids;
      status = active;
      lifecycle_status = lifecycle_status;
      last_seen_at = now;
      last_confirmed_at = if recallable lifecycle_status then some now else none;
      archived_at = none;
      metadata = stored_metadata item normalized_content end;
      updated_at = now;
    }

-- The `CHECK`s on scores; a `NaN` is above one.
abbrev in_range : Float → Bool
in_range score = leb_float zero_float score && leb_float score one

abbrev pub allowed : MemoryRow → Bool
allowed r = in_range r.confidence && in_range r.importance && in_range r.quality_score

pub data Stored : Type 0 where
  inserted updated : Stored

abbrev pub stored_again : MemoryRow → MemoryRow → Memories → (ℕ × Stored) × Memories
stored_again existing row tables = (
  (existing.id, updated),
  record tables { rows = update_where (λ r. r.id == existing.id) (λ r. row) tables.rows },
)

abbrev pub stored_first : MemoryRow → Memories → (ℕ × Stored) × Memories
stored_first row tables = (
  (tables.next_id, inserted),
  record tables { rows = tables.rows ++ (row ∷ []); next_id = tables.next_id + 1 },
)

-- `upsert_extracted_memory` behind the search for a row.
unfoldable pub store_memory : Item → Text → Option MemoryRow → Action (ℕ × Stored)
unfolding checked_statement as_record seen_again first_seen leb_float update_where list_eq nat_eq
store_memory item normalized_content (some existing) w =
    let row = seen_again w.clock.now item normalized_content (as_record existing) existing in
    checked_statement
      (λ tables. if allowed row then some (stored_again existing row tables) else none) w
store_memory item normalized_content none w =
    checked_statement
      (λ tables.
        let row = first_seen w.clock.now item normalized_content tables.next_id in
        if allowed row then some (stored_first row tables) else none)
      w

-- `upsert_extracted_memory`
unfoldable pub upsert_extracted_memory : Runtime → Item → Action (ℕ × Stored)
unfolding mark_contradicted_memory normalize_memory_content find_matching_memory store_memory
upsert_extracted_memory rt item w =
    let normalized_content = normalize_memory_content item.content in
    after (mark_contradicted_memory item w) (λ marked w'.
      after (find_matching_memory rt item normalized_content w')
        (store_memory item normalized_content))
