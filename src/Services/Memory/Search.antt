-- ===== src/Services/Memory/Search.antt =====
-- brain-python/services/memory.py: searching memories, and the texts that show them.
use test_bot.Base.{
  Bool, List, Option, [], contains, false, if◌then◌else◌, is_empty, keep, leb, length, list_eq, ltb,
  map, nat_eq, none, not, some, take, true, ℕ, ◌&&◌, ◌++◌, ◌==◌, ◌||◌, ◌∷◌,
}
use test_bot.Text.{Text, codes, join, lower, show_int, show_nat, strip}
use test_bot.Value.{Fields, Float, Value, bool, dict, end, field, int, ltb_float, str}
use test_bot.Env.{Env}
use test_bot.Schemas.{BrainResponse, reply_messages}
use test_bot.Base.Dict.{Dict, lookup}
use test_bot.Base.Int.{pos, ℤ}
use test_bot.Floats.{show_2f}
use test_bot.Services.Memory.{equals, in_scope, is_active, is_kept, is_retired, recall_eligible}
use test_bot.Services.Memory.{lifecycle_names, MemoryRow, MemoryStatus, active, archived, deleted}
use test_bot.Services.Memory.Store.{Action, query}
use test_bot.Services.Memory.Upsert.{scope_name, coalesced}
use test_bot.Services.Memory.Ageing.{lifecycle_name, as_record}

-- `content ILIKE pattern`, which the database computes.
abbrev pub Ilike : Type 0
Ilike = Text → Text → Bool

-- `_memory_status_filter`
unfoldable pub memory_status_filter : Env → Text → MemoryRow → Bool
unfolding recall_eligible lower list_eq nat_eq
memory_status_filter env status r =
    let normalized = if is_empty status then codes "active" else lower (strip status) in
    if normalized == codes "active" || normalized == codes "recallable"
    then recall_eligible env r
    else if normalized == codes "all"
    then is_kept r.status
    else if normalized == codes "archived"
    then is_kept r.status
      && (elim r.status [ archived ↦ true | _ ↦ false ] || is_retired r.lifecycle_status)
    else if contains lifecycle_names normalized
    then is_active r.status && lifecycle_name r.lifecycle_status == normalized
    else recall_eligible env r

-- The first value that differs decides.
abbrev by_score : Float → Float → Bool → Bool
by_score a b rest = if ltb_float b a then true else if ltb_float a b then false else rest

-- `quality_score DESC, importance DESC, confidence DESC, last_seen_at DESC, id DESC`
unfoldable pub ranks_before : MemoryRow → MemoryRow → Bool
unfolding ltb_float
ranks_before r s = by_score r.quality_score s.quality_score (
    by_score r.importance s.importance (
      by_score r.confidence s.confidence
        (ltb s.last_seen_at r.last_seen_at || (r.last_seen_at == s.last_seen_at && leb s.id r.id))))

unfoldable pub insert_by_rank : MemoryRow → List MemoryRow → List MemoryRow
insert_by_rank r [] = r ∷ []
insert_by_rank r (s ∷ ss) = if ranks_before r s then r ∷ s ∷ ss else s ∷ insert_by_rank r ss

unfoldable pub sort_by_rank : List MemoryRow → List MemoryRow
sort_by_rank [] = []
sort_by_rank (r ∷ rs) = insert_by_rank r (sort_by_rank rs)

-- `search`
unfoldable pub search : Ilike → Env → Text → Text → Text → Text → Action (List MemoryRow)
unfolding memory_status_filter in_scope sort_by_rank
search ilike env text group_id user_id status = query (λ tables. take 10 (
    sort_by_rank (
      keep
        (λ r.
          memory_status_filter env status r
          && ilike r.content (codes "%" ++ (text ++ codes "%"))
          && in_scope group_id user_id r)
        tables.rows)))

-- `list_user`
unfoldable pub list_user : Env → Text → Text → Action (List MemoryRow)
unfolding memory_status_filter sort_by_rank list_eq nat_eq
list_user env group_id user_id = query (λ tables. take 20 (
    sort_by_rank (
      keep
        (λ r.
          memory_status_filter env (codes "active") r
          && equals r.group_id group_id
          && equals r.user_id user_id)
        tables.rows)))

-- `_text_response`
unfoldable pub memory_response : Text → Fields → BrainResponse
memory_response text metadata = record {
  handled = true;
  should_reply = not (is_empty text);
  messages = reply_messages text;
  reply = text;
  tool_calls = [];
  job_id = none;
  metadata = some metadata;
}

abbrev concat : List Text → Text
concat [] = []
concat (t ∷ ts) = t ++ concat ts

-- The line of a record in `_records_response`.
unfoldable pub record_line : MemoryRow → Text
unfolding show_nat show_2f
record_line r = concat (
    codes "#"
    ∷ show_nat r.id
    ∷ codes " ["
    ∷ scope_name r.scope
    ∷ codes "/"
    ∷ r.memory_type
    ∷ codes "/"
    ∷ lifecycle_name r.lifecycle_status
    ∷ codes "] c="
    ∷ show_2f r.confidence
    ∷ codes " i="
    ∷ show_2f r.importance
    ∷ codes " q="
    ∷ show_2f r.quality_score
    ∷ codes " "
    ∷ r.content
    ∷ [])

-- `_records_response`, with metadata that do not name a count.
unfoldable pub records_response : List MemoryRow → Text → (Value → Fields) → BrainResponse
unfolding record_line memory_response as_record
records_response [] title metadata = memory_response (title ++ codes "：无") (metadata (int (pos 0)))
records_response (r ∷ rs) title metadata =
    memory_response
      (join (codes "\n") ((title ++ codes "：") ∷ map (λ s. record_line (as_record s)) (r ∷ rs)))
      (metadata (int (pos (length (r ∷ rs)))))

abbrev or_dash : Text → Text
or_dash text = if is_empty text then codes "-" else text

abbrev status_name : MemoryStatus → Text
status_name active = codes "active"
status_name archived = codes "archived"
status_name deleted = codes "deleted"

-- `str` of a list of integers.
abbrev show_ints : List ℤ → Text
show_ints ns = codes "[" ++ (join (codes ", ") (map (λ n. show_int n) ns) ++ codes "]")

abbrev named_column : Option Text → Text
named_column value = or_dash (strip (coalesced value))

-- `_memory_detail_response`, of a record.
unfoldable pub memory_detail_response : MemoryRow → BrainResponse
unfolding show_nat show_int show_2f memory_response
memory_detail_response r =
    memory_response
      (join (codes "\n") (
        (codes "记忆 #" ++ show_nat r.id)
        ∷ concat (
            codes "scope="
            ∷ scope_name r.scope
            ∷ codes " group="
            ∷ named_column r.group_id
            ∷ codes " user="
            ∷ named_column r.user_id
            ∷ codes " target="
            ∷ named_column r.target_user_id
            ∷ [])
        ∷ concat (codes "class/type=" ∷ r.memory_class ∷ codes "/" ∷ r.memory_type ∷ [])
        ∷ concat (
            codes "status="
            ∷ status_name r.status
            ∷ codes " lifecycle="
            ∷ lifecycle_name r.lifecycle_status
            ∷ [])
        ∷ concat (
            codes "confidence="
            ∷ show_2f r.confidence
            ∷ codes " importance="
            ∷ show_2f r.importance
            ∷ codes " stability="
            ∷ show_2f r.stability
            ∷ codes " decay="
            ∷ show_2f r.decay_score
            ∷ codes " quality="
            ∷ show_2f r.quality_score
            ∷ [])
        ∷ concat (
            codes "sources="
            ∷ show_nat r.source_count
            ∷ codes " contradictions="
            ∷ show_nat r.contradiction_count
            ∷ codes " evidence="
            ∷ show_ints r.evidence_message_ids
            ∷ [])
        ∷ (codes "content=" ++ r.content)
        ∷ []))
      (field (codes "module") (str (codes "memory")) (
        field (codes "command") (str (codes "show"))
          (field (codes "id") (int (pos r.id)) (field (codes "found") (bool true) end))))

-- The fields of `_lifecycle_counts_response`.
abbrev count_fields : Dict Text ℕ → Fields
count_fields [] = end
count_fields ((name, n) ∷ counts) = field name (int (pos n)) (count_fields counts)

abbrev count_line : Dict Text ℕ → Text → Text
count_line counts name =
    name ++ (codes ": " ++ show_nat (elim (lookup name counts) [ none ↦ 0 | some n ↦ n ]))

-- `_lifecycle_counts_response`
unfoldable pub lifecycle_counts_response : Dict Text ℕ → BrainResponse
unfolding show_nat memory_response lookup list_eq nat_eq
lifecycle_counts_response counts =
    memory_response
      (join (codes "\n") (codes "记忆生命周期：" ∷ map (λ name. count_line counts name) lifecycle_names))
      (field (codes "module") (str (codes "memory")) (
        field (codes "command") (str (codes "lifecycle")) (
          field (codes "action") (str (codes "status"))
            (field (codes "counts") (dict (count_fields counts)) end))))
