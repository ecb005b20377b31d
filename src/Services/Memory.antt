-- ===== src/Services/Memory.antt =====
-- brain-python/services/memory.py: the memories as rows of `memory_items`
-- (database/migrations/000004_memory.up.sql and 000005_memory_lifecycle.up.sql), who sees them, and
-- the statements that remove them.
pub mod Errors
pub mod Removal
pub mod Scope
pub mod Score
pub mod Ageing
pub mod Store
pub mod Upsert
pub mod Search
pub mod Relevance
pub mod Recall
pub mod Sorted
pub mod Ranking
pub mod Merged
pub mod Answers
pub mod Recalled
pub mod Command
pub mod Debug
pub mod Indexing
pub mod Admin
pub mod Inside
pub mod Decaying
pub mod Guarded
pub mod Harmless
pub mod Unharmed
pub mod Restricted
pub mod Consistent
use test_bot.Base.{
  Bool, List, Option, [], contains, false, find, if◌then◌else◌, int_eq, is_empty, keep, length,
  list_eq, nat_eq, none, not, some, true, ℕ, ◌&&◌, ◌++◌, ◌==◌, ◌||◌, ◌∷◌,
}
use test_bot.Text.{Text, codes, is_space, join, lower, strip}
use test_bot.Value.{Fields, Float, Value, dict, end, field, str, string_id}
use test_bot.Env.{Env, env_unless_off, getenv, id_set}
use test_bot.Schemas.{BrainSender, ChatRequest}
use test_bot.Base.Dict.{or_else, values}
use test_bot.Base.Int.{ℤ}

pub data MemoryScope : Type 0 where
  in_group of_user of_relationship global : MemoryScope

pub data MemoryStatus : Type 0 where
  active archived deleted : MemoryStatus

pub data Lifecycle : Type 0 where
  weak confirmed reinforced stale contradicted retired : Lifecycle

-- A row of `memory_items`. Times are in microseconds.
pub record MemoryRow : Type 0 where
  pub id : ℕ
  pub scope : MemoryScope
  pub group_id : Option Text
  pub user_id : Option Text
  pub target_user_id : Option Text
  pub memory_type : Text
  pub memory_class : Text
  pub content : Text
  pub confidence : Float
  pub importance : Float
  pub stability : Float
  pub decay_score : Float
  pub quality_score : Float
  pub contradiction_count : ℕ
  pub source_count : ℕ
  pub evidence_message_ids : List ℤ
  pub status : MemoryStatus
  pub lifecycle_status : Lifecycle
  pub last_seen_at : ℕ
  pub last_confirmed_at : Option ℕ
  pub archived_at : Option ℕ
  pub metadata : Fields
  pub updated_at : ℕ

-- `column = value`, which `NULL` is not.
abbrev pub equals : Option Text → Text → Bool
equals none value = false
equals (some text) value = text == value

abbrev pub is_active : MemoryStatus → Bool
is_active active = true
is_active s = false

-- `status <> 'deleted'`
abbrev pub is_kept : MemoryStatus → Bool
is_kept deleted = false
is_kept s = true

abbrev pub recallable : Lifecycle → Bool
recallable confirmed = true
recallable reinforced = true
recallable l = false

abbrev pub is_retired : Lifecycle → Bool
is_retired retired = true
is_retired l = false

-- `_recall_status_filter`, and `recall_eligible`, which makes the same tests.
unfoldable pub recall_eligible : Env → MemoryRow → Bool
recall_eligible env r =
    is_active r.status
    && (if env_unless_off env (codes "MEMORY_RECALL_LIFECYCLE_FILTER_ENABLED") true
        then recallable r.lifecycle_status
        else not (is_retired r.lifecycle_status))

-- `_memory_scope_filter` with `_memory_scope_params`.
unfoldable pub in_scope : Text → Text → MemoryRow → Bool
unfolding list_eq nat_eq
in_scope group_id user_id r = elim r.scope [
  | global ↦ true
  | in_group ↦ not (is_empty group_id) && equals r.group_id group_id
  | of_user ↦
      not (is_empty group_id)
      && equals r.group_id group_id
      && not (is_empty user_id)
      && equals r.user_id user_id
  | of_relationship ↦
      not (is_empty group_id)
      && equals r.group_id group_id
      && not (is_empty user_id)
      && (equals r.user_id user_id || equals r.target_user_id user_id)
]

-- The `WHERE` that the statements on one memory share.
unfoldable pub addressed : ℕ → Text → Bool → MemoryRow → Bool
unfolding list_eq nat_eq
addressed memory_id group_id allow_global r =
    r.id == memory_id && is_kept r.status && (allow_global || equals r.group_id group_id)

-- `get_memory`
unfoldable pub get_memory : ℕ → Text → Bool → List MemoryRow → Option MemoryRow
unfolding addressed
get_memory memory_id group_id allow_global = find (addressed memory_id group_id allow_global)

-- `UPDATE ... SET f WHERE p`
unfoldable pub update_where :
    (MemoryRow → Bool) → (MemoryRow → MemoryRow) → List MemoryRow → List MemoryRow
update_where p f [] = []
update_where p f (r ∷ rs) = (if p r then f r else r) ∷ update_where p f rs

-- What the three statements of deletion set.
unfoldable pub removed : ℕ → MemoryRow → MemoryRow
removed now r = record r {
  status = deleted;
  lifecycle_status = retired;
  archived_at = or_else r.archived_at (some now);
  updated_at = now;
}

-- `delete_memory`: whether a row was there, and the rows.
unfoldable pub delete_memory : ℕ → ℕ → Text → Bool → List MemoryRow → Bool × List MemoryRow
unfolding addressed update_where removed
delete_memory now memory_id group_id allow_global rows =
    let p = addressed memory_id group_id allow_global in
    (not (is_empty (keep p rows)), update_where p (removed now) rows)

abbrev pub user_rows : Text → Text → MemoryRow → Bool
user_rows group_id user_id r =
    is_active r.status && equals r.group_id group_id && equals r.user_id user_id

-- `delete_user`: how many rows there were, and the rows.
unfoldable pub delete_user : ℕ → Text → Text → List MemoryRow → ℕ × List MemoryRow
unfolding list_eq nat_eq update_where removed
delete_user now group_id user_id rows = (
  length (keep (user_rows group_id user_id) rows),
  update_where (user_rows group_id user_id) (removed now) rows,
)

abbrev pub group_rows : Text → MemoryRow → Bool
group_rows group_id r = is_active r.status && equals r.group_id group_id

-- `delete_group`
unfoldable pub delete_group : ℕ → Text → List MemoryRow → ℕ × List MemoryRow
unfolding list_eq nat_eq update_where removed
delete_group now group_id rows = (
  length (keep (group_rows group_id) rows),
  update_where (group_rows group_id) (removed now) rows,
)

-- `metadata || {key: value}`
unfoldable pub put_field : Text → Value → Fields → Fields
unfolding list_eq nat_eq
put_field key value end = field key value end
put_field key value (field k v fs) =
    let rest = put_field key value fs in if k == key then field k value fs else field k v rest

-- `_admin_lifecycle_metadata`, for the action, the actor and the time as a text.
abbrev lifecycle_action : Text → Text → Text → Value
lifecycle_action action actor_id at = dict (
    field (codes "action") (str action)
      (field (codes "actor_id") (str actor_id) (field (codes "at") (str at) end)))

unfoldable pub archived_row : ℕ → Text → Text → MemoryRow → MemoryRow
unfolding put_field
archived_row now actor_id at r = record r {
  status = archived;
  lifecycle_status = retired;
  archived_at = some now;
  metadata =
      put_field (codes "last_admin_lifecycle_action")
        (lifecycle_action (codes "archive") actor_id at) r.metadata;
  updated_at = now;
}

-- `archive_memory`
unfoldable pub archive_memory :
    ℕ → Text → ℕ → Text → Bool → Text → List MemoryRow → Bool × List MemoryRow
unfolding addressed update_where archived_row
archive_memory now at memory_id group_id allow_global actor_id rows =
    let p = addressed memory_id group_id allow_global in
    (not (is_empty (keep p rows)), update_where p (archived_row now actor_id at) rows)

-- `_is_configured_memory_admin`
unfoldable pub is_configured_memory_admin : Env → ChatRequest → Bool
unfolding id_set list_eq nat_eq
is_configured_memory_admin env request =
    let user_id = string_id request.user_id in
    not (is_empty user_id)
    && contains (id_set (getenv env (codes "MEMORY_ADMIN_USER_IDS") [])) user_id

abbrev role_of : Option BrainSender → Text
role_of none = []
role_of (some sender) = sender.role

-- `_is_memory_admin`
unfoldable pub is_memory_admin : Env → ChatRequest → Bool
unfolding is_configured_memory_admin lower list_eq nat_eq
is_memory_admin env request =
    is_configured_memory_admin env request
    || contains (codes "admin" ∷ codes "owner" ∷ []) (lower (strip (role_of request.sender)))

abbrev lifecycle_names : List Text
lifecycle_names =
    codes "weak"
    ∷ codes "confirmed"
    ∷ codes "reinforced"
    ∷ codes "stale"
    ∷ codes "contradicted"
    ∷ codes "archived"
    ∷ []

-- The loop of `_parse_search_parts`: the words of the query, the status, and whether it was given.
unfoldable pub search_parts : List Text → Text → Bool → List Text → Option (List Text × Text × Bool)
unfolding lower list_eq nat_eq
search_parts words status explicit [] = some (words, status, explicit)
search_parts words status explicit (part ∷ []) =
    if part == codes "--status" then none else some (words ++ (part ∷ []), status, explicit)
search_parts words status explicit (part ∷ next ∷ parts) =
    let named = lower (strip next) in
    let after = search_parts words named true parts in
    let rest = search_parts (words ++ (part ∷ [])) status explicit (next ∷ parts) in
    if part == codes "--status"
    then (if named == codes "all" || contains lifecycle_names named then after else none)
    else rest

-- `_parse_search_parts`
unfoldable pub parse_search_parts : List Text → Option (Text × Text × Bool)
unfolding search_parts
parse_search_parts parts = elim (search_parts [] (codes "active") false parts) [
  | none ↦ none
  | some (words, status, explicit) ↦
      let query = strip (join (codes " ") words) in
      if is_empty query then none else some (query, status, explicit)
]

-- `_normalize_memory_content`, of a text.
unfoldable pub normalize_memory_content : Text → Text
unfolding lower
normalize_memory_content value = keep (λ c. not (is_space c)) (lower (strip value))

-- The loop of `_merge_evidence_ids`, on the values that are integers.
unfoldable pub merge_evidence : List ℤ → List ℤ → List ℤ
unfolding int_eq nat_eq
merge_evidence merged [] = merged
merge_evidence merged (value ∷ values) = elim (contains merged value) [
  | true ↦ merge_evidence merged values
  | false ↦ merge_evidence (merged ++ (value ∷ [])) values
]

-- `class_for_type`
unfoldable pub class_for_type : Text → Text
unfolding lower list_eq nat_eq
class_for_type memory_type =
    let normalized = lower (strip memory_type) in
    if contains (codes "style" ∷ codes "preference" ∷ codes "warning" ∷ []) normalized
    then codes "procedural"
    else if normalized == codes "relationship"
    then codes "social"
    else codes "semantic"
