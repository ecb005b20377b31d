-- ===== src/Services/Extractor/Candidate.antt =====
-- brain-python/services/memory_extractor.py: which of the candidates that the model names are kept.
use test_bot.Base.{
  Bool, List, Option, [], contains, false, if◌then◌else◌, int_eq, is_empty, length, list_eq, ltb,
  nat_eq, none, not, some, true, ℕ, ◌++◌, ◌==◌, ◌||◌, ◌∷◌,
}
use test_bot.Text.{Text, codes, int_of, is_space, lower, strip}
use test_bot.Value.{
  Fields, Float, Items, Runtime, Value, arr, bool, cons, dict, end, field, fin, find_field, float,
  get, int, ltb_float, nan, neg_inf, nil, null, pos_inf, str, str_of,
}
use test_bot.Base.Dict.{Dict, lookup}
use test_bot.Base.Int.{pos, ℤ}
use test_bot.Base.Result.{Result, ◌>>=◌, raise, return}
use test_bot.Floats.{zero_float, one, float_of_int, truncate}
use test_bot.Services.Memory.Errors.{MemoryError, other}

abbrev pub Attempt {ℓ} : Type ℓ → Type ℓ
Attempt A = Result MemoryError A

-- A row of `recent_group_messages_for_extraction`; `created_at` in ISO format.
pub record GroupMessage : Type 0 where
  pub id : ℕ
  pub conversation_id : ℕ
  pub sender_user_id : Option Text
  pub sender_nickname : Option Text
  pub sender_card : Option Text
  pub text : Option Text
  pub created_at : Option Text

-- What `_clean_candidate` returns.
pub record Item : Type 0 where
  pub scope : Text
  pub memory_type : Text
  pub memory_class : Text
  pub content : Text
  pub confidence : Float
  pub importance : Float
  pub evidence_message_ids : List ℤ
  pub group_id : Text
  pub user_id : Text
  pub target_user_id : Text
  pub metadata : Fields

-- `_string_id`, of a value and of a column.
unfoldable pub string_value : Runtime → Value → Text
unfolding str_of
string_value rt null = []
string_value rt v = strip (str_of rt v)

abbrev pub string_column : Option Text → Text
string_column none = []
string_column (some s) = strip s

abbrev infinity_to_int : MemoryError
infinity_to_int = other (codes "OverflowError") (codes "cannot convert float infinity to integer")

-- `_int_id`: `ValueError` and `TypeError` give `None`, the `OverflowError` of an infinity is raised.
unfoldable pub int_id_of : Value → Attempt (Option ℤ)
unfolding int_of
int_id_of (bool b) = return (some (pos (if b then 1 else 0)))
int_id_of (int n) = return (some n)
int_id_of (float nan) = return none
int_id_of (float pos_inf) = raise infinity_to_int
int_id_of (float neg_inf) = raise infinity_to_int
int_id_of (float (fin k)) = return (some (truncate k))
int_id_of (str s) = return (int_of s)
int_id_of v = return none

-- The loop of `_evidence_ids`.
unfoldable pub evidence_from : List ℤ → Items → Attempt (List ℤ)
unfolding int_id_of int_eq nat_eq
evidence_from out nil = return out
evidence_from out (cons v vs) = do
  parsed ← int_id_of v
  elim parsed [
    | none ↦ evidence_from out vs
    | some n ↦ if contains out n then evidence_from out vs else evidence_from (out ++ (n ∷ [])) vs
  ]

-- `_evidence_ids`
unfoldable pub evidence_ids : Value → Attempt (List ℤ)
unfolding evidence_from
evidence_ids (arr vs) = evidence_from [] vs
evidence_ids v = return []

abbrev pub in_unit : Float → Option Float
in_unit score = if ltb_float score zero_float || ltb_float one score then none else some score

-- `_bounded_score`
unfoldable pub bounded_score : Runtime → Value → Attempt (Option Float)
unfolding ltb_float float_of_int
bounded_score rt (bool b) = return (some (if b then one else zero_float))
bounded_score rt (int n) = elim (float_of_int n) [
  | none ↦ raise (other (codes "OverflowError") (codes "int too large to convert to float"))
  | some score ↦ return (in_unit score)
]
bounded_score rt (float score) = return (in_unit score)
bounded_score rt (str s) = elim (rt.float_of s) [
  | none ↦ return none
  | some score ↦ return (in_unit score)
]
bounded_score rt v = return none

abbrev begins_space : Text → Bool
begins_space [] = false
begins_space (c ∷ cs) = is_space c

-- `re.sub(r"\s+", " ", s)`
unfoldable pub single_spaces : Text → Text
single_spaces [] = []
single_spaces (c ∷ cs) =
    let rest = single_spaces cs in
    if is_space c then (if begins_space cs then rest else b' ' ∷ rest) else c ∷ rest

abbrev pub allowed_scopes : List Text
allowed_scopes = codes "group" ∷ codes "user" ∷ codes "relationship" ∷ []

-- `VALID_MEMORY_TYPES`
abbrev pub valid_memory_types : List Text
valid_memory_types =
    codes "preference"
    ∷ codes "fact"
    ∷ codes "style"
    ∷ codes "relationship"
    ∷ codes "topic"
    ∷ codes "summary"
    ∷ codes "warning"
    ∷ []

-- `ALLOWED_MEMORY_CLASSES`
abbrev pub memory_classes : List Text
memory_classes =
    codes "episodic"
    ∷ codes "semantic"
    ∷ codes "procedural"
    ∷ codes "affective"
    ∷ codes "social"
    ∷ codes "persona"
    ∷ []

-- `MEMORY_CLASS_BY_TYPE`
abbrev pub memory_class_by_type : Dict Text Text
memory_class_by_type =
    (codes "fact", codes "semantic")
    ∷ (codes "topic", codes "semantic")
    ∷ (codes "summary", codes "semantic")
    ∷ (codes "style", codes "procedural")
    ∷ (codes "preference", codes "procedural")
    ∷ (codes "relationship", codes "social")
    ∷ (codes "warning", codes "procedural")
    ∷ []

-- `_memory_class`
unfoldable pub memory_class_of : Runtime → Value → Text → Option Text
unfolding string_value lower list_eq nat_eq lookup
memory_class_of rt value memory_type =
    let named = lower (string_value rt value) in
    if is_empty named
    then lookup memory_type memory_class_by_type
    else if contains memory_classes named
    then some named
    else none

abbrev pub max_memory_content_chars : ℕ
max_memory_content_chars = 300

abbrev has_field : Text → Fields → Bool
has_field key fs = elim (find_field key fs) [ none ↦ false | some v ↦ true ]

-- The metadata of an item.
unfoldable pub item_metadata : Fields → Attempt Fields
unfolding find_field int_id_of
item_metadata candidate = do
  conflict ← int_id_of (get (codes "conflicts_with_memory_id") candidate)
  let raw = field (codes "raw_candidate") (dict candidate)
  let with_text =
      if has_field (codes "conflicts_with") candidate
      then field (codes "conflicts_with") (get (codes "conflicts_with") candidate) end
      else end
  elim conflict [
    | none ↦ return (raw with_text)
    | some n ↦
        if has_field (codes "conflicts_with_memory_id") candidate
        then return (raw (field (codes "conflicts_with_memory_id") (int n) with_text))
        else return (raw with_text)
  ]

-- The users of an item of a scope, and `none` where one that the scope needs is missing.
unfoldable pub scope_users : Text → Text → Text → Option (Text × Text)
unfolding list_eq nat_eq
scope_users scope user_id target_user_id =
    if scope == codes "group"
    then some ([], [])
    else if scope == codes "user"
    then (if is_empty user_id then none else some (user_id, []))
    else if is_empty user_id || is_empty target_user_id
    then none
    else some (user_id, target_user_id)

-- The end of `_clean_candidate`, after the tests of the texts.
unfoldable pub finish_candidate :
    Runtime → Fields → Text → Text → Text → Text → Text → Attempt (Option Item)
unfolding evidence_ids bounded_score scope_users item_metadata string_value find_field
finish_candidate rt candidate group_id scope memory_type memory_class content = do
  evidence ← evidence_ids (get (codes "evidence_message_ids") candidate)
  confidence ← bounded_score rt (get (codes "confidence") candidate)
  importance ← bounded_score rt (get (codes "importance") candidate)
  let user_id = string_value rt (get (codes "user_id") candidate)
  let target_user_id = string_value rt (get (codes "target_user_id") candidate)
  elim confidence [
    | none ↦ return none
    | some c ↦ elim importance [
      | none ↦ return none
      | some i ↦ elim (scope_users scope user_id target_user_id) [
        | none ↦ return none
        | some (user, target) ↦ do
          metadata ← item_metadata candidate
          return (
              some (record {
                scope = scope;
                memory_type = memory_type;
                memory_class = memory_class;
                content = content;
                confidence = c;
                importance = i;
                evidence_message_ids = evidence;
                group_id = group_id;
                user_id = user;
                target_user_id = target;
                metadata = metadata;
              }))
      ]
    ]
  ]

-- `_clean_candidate`
unfoldable pub clean_candidate : Runtime → Fields → Text → Attempt (Option Item)
unfolding string_value find_field lower list_eq nat_eq memory_class_of single_spaces
clean_candidate rt candidate group_id =
    let scope = lower (string_value rt (get (codes "scope") candidate)) in
    let memory_type = lower (string_value rt (get (codes "memory_type") candidate)) in
    let content = strip (single_spaces (string_value rt (get (codes "content") candidate))) in
    let candidate_group_id = string_value rt (get (codes "group_id") candidate) in
    if not (contains allowed_scopes scope)
    then return none
    else if not (contains valid_memory_types memory_type)
    then return none
    else elim (memory_class_of rt (get (codes "memory_class") candidate) memory_type) [
      | none ↦ return none
      | some memory_class ↦
          if not (candidate_group_id == group_id)
          then return none
          else if is_empty content || ltb max_memory_content_chars (length content)
          then return none
          else finish_candidate rt candidate group_id scope memory_type memory_class content
    ]
