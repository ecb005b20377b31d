-- ===== src/Services/Chat/Texts.antt =====
-- brain-python/services/chat.py: the texts that a request holds, and the context of each.
use test_bot.Modules.Command.{ModuleContext}
use test_bot.Base.{contains, if◌then◌else◌, is_empty, keep, list_eq, nat_eq}
use test_bot.Text.{Text, codes, join, strip}
use test_bot.Value.{
  Fields, Items, Runtime, Value, arr, cons, dict, end, field, nil, or_text, str, string_id,
  text_or_empty,
}
use test_bot.Schemas.{BrainJsonMessage, BrainMessage, ChatRequest}
use test_bot.Base.Dict.{values}
use test_bot.Base.{true, false, not, ◌||◌, Option, none, some, List, [], ◌∷◌, ◌++◌, map}

-- `_json_string_values`
unfoldable mutual
  pub string_values : Value → List Text
  string_values (str s) = s ∷ []
  string_values (dict fs) = field_strings fs
  string_values (arr vs) = item_strings vs
  string_values v = []

  pub item_strings : Items → List Text
  item_strings nil = []
  item_strings (cons v vs) = string_values v ++ item_strings vs

  pub field_strings : Fields → List Text
  field_strings end = []
  field_strings (field k v fs) = string_values v ++ field_strings fs

-- The loop of `_dedupe_texts`.
unfoldable pub dedupe_from : List Text → List Text → List Text
unfolding list_eq nat_eq
dedupe_from seen [] = []
dedupe_from seen (value ∷ values) =
    let text = strip value in
    elim (is_empty text || contains seen text) [
      | true ↦ dedupe_from seen values
      | false ↦ text ∷ dedupe_from (text ∷ seen) values
    ]

-- `_dedupe_texts`
unfoldable pub dedupe_texts : List Text → List Text
unfolding dedupe_from
dedupe_texts values = dedupe_from [] values

-- The texts of the raw part: those of the decoded value, or the part itself if it is no JSON.
unfoldable pub raw_texts : Runtime → Text → List Text
unfolding string_values
raw_texts rt [] = []
raw_texts rt (c ∷ cs) = elim (rt.loads (c ∷ cs)) [
  | none ↦ (c ∷ cs) ∷ []
  | some decoded ↦ string_values decoded
]

-- `_json_message_text`
unfoldable pub json_message_text : Runtime → BrainJsonMessage → Text
unfolding raw_texts string_values dedupe_texts
json_message_text rt m =
    join (codes "\n") (dedupe_texts (string_values (dict m.parsed) ++ raw_texts rt m.raw))

abbrev pub filled : List Text → List Text
filled = keep (λ text. not (is_empty text))

-- `_request_module_texts`
unfoldable pub request_module_texts : Runtime → ChatRequest → Text → List Text
unfolding dedupe_texts json_message_text
request_module_texts rt request selected = dedupe_texts (
    filled (selected ∷ [])
    ++ filled (map strip request.text_segments)
    ++ filled (map (json_message_text rt) request.json_messages))

-- `_message_text`
abbrev pub message_text : BrainMessage → Text
message_text m = or_text m.text m.content

-- `_top_level_context`
unfoldable pub top_level_context : ChatRequest → ModuleContext
top_level_context request = record {
  group_id = string_id request.group_id;
  user_id = string_id request.user_id;
  message_type = text_or_empty request.message_type;
}

-- `_message_context`
unfoldable pub message_context : BrainMessage → ModuleContext → ModuleContext
message_context m fallback = record {
  group_id = or_text (string_id m.group_id) fallback.group_id;
  user_id = or_text (string_id m.user_id) fallback.user_id;
  message_type = or_text (text_or_empty m.message_type) fallback.message_type;
}

abbrev pub Candidate : Type 0
Candidate = Text × ModuleContext

abbrev pub message_candidate : ModuleContext → BrainMessage → Candidate
message_candidate top m = (message_text m, message_context m top)

abbrev single_message : Option BrainMessage → List BrainMessage
single_message none = []
single_message (some m) = m ∷ []

-- The candidates of `_request_text_and_context`, in their order.
unfoldable pub candidates : ChatRequest → List Candidate
unfolding top_level_context message_context
candidates request =
    let top = top_level_context request in
    (request.text, top)
    ∷ (request.content, top)
    ∷ map (message_candidate top) (single_message request.message ++ request.messages)

-- The loop over `reversed(candidates)`: the later candidates come first.
unfoldable pub last_filled : List Candidate → Option Candidate
last_filled [] = none
last_filled (c ∷ cs) =
    let text = strip c.0 in
    elim (last_filled cs) [
      | some found ↦ some found
      | none ↦ if is_empty text then none else some (text, c.1)
    ]

-- `_request_text_and_context`
unfoldable pub request_text_and_context : ChatRequest → Candidate
unfolding candidates last_filled top_level_context
request_text_and_context request = elim (last_filled (candidates request)) [
  | none ↦ ([], top_level_context request)
  | some found ↦ found
]
