-- ===== src/Services/Outbox/Request.antt =====
-- brain-python/services/outbox.py: the checks of a request, and the errors.
use test_bot.Value.{Fields, null}
use test_bot.Base.{if◌then◌else◌, list_eq, nat_eq, take, ◌==◌}
use test_bot.Text.{Text, codes, lower, strip}
use test_bot.Value.{Ident, Runtime, get, or_text, str_of, string_id}
use test_bot.Schemas.{BrainMessage}
use test_bot.Base.Dict.{keys}
use test_bot.Base.{◌++◌, Bool, true, false, not, ◌||◌, Option, none, some, List, [], ◌∷◌, is_empty}

pub data OutboxError : Type 0 where
  database : Text → OutboxError
  configuration : Text → OutboxError
  not_found : Text → OutboxError
  invalid : Text → OutboxError

pub data Result {ℓ} (A : Type ℓ) : Type ℓ where
  err : OutboxError → Result A
  ok : A → Result A

infixl 5 ◌>>=◌
abbrev pub ◌>>=◌ {ℓ κ} : {A : Type ℓ} {B : Type κ} → Result A → (A → Result B) → Result B
err reason >>= next = err reason
ok value >>= next = next value

infixl 5 ◌>>◌
abbrev pub ◌>>◌ {κ} : {B : Type κ} → Result (Unit {0}) → Result B → Result B
checks >> rest = checks >>= λ done. rest

-- `if not test: raise OutboxValidationError(message)`
abbrev pub require : Bool → Text → Result (Unit {0})
require true message = ok tt
require false message = err (invalid message)

pub data TargetType : Type 0 where
  group private : TargetType

-- `_normalized_target_type`
unfoldable pub normalized_target_type : Text → Result TargetType
normalized_target_type message_type =
    let value = lower (strip message_type) in
    if value == codes "group"
    then ok group
    else if value == codes "private"
    then ok private
    else err (invalid (codes "message_type must be 'group' or 'private'"))

-- `_string_id`
unfoldable pub optional_id : Option Ident → Option Text
optional_id id = let text = string_id id in if is_empty text then none else some text

abbrev is_some {ℓ} : {A : Type ℓ} → Option A → Bool
is_some none = false
is_some (some a) = true

-- `_validate_target`
unfoldable pub validate_target : TargetType → Option Text → Option Text → Result (Unit {0})
validate_target group user_id group_id =
    require (is_some group_id) (codes "group outbox items require group_id")
validate_target private user_id group_id =
    require (is_some user_id) (codes "private outbox items require user_id")

-- `_data_value`
unfoldable pub data_value : Runtime → Fields → List Text → Text
data_value rt fields [] = []
data_value rt fields (key ∷ keys) =
    let rest = data_value rt fields keys in
    elim (get key fields) [ null ↦ rest | value ↦ str_of rt value ]

abbrev text_keys : List Text
text_keys = codes "text" ∷ codes "content" ∷ []

abbrev file_keys : List Text
file_keys = codes "file" ∷ codes "url" ∷ codes "path" ∷ []

-- `_message_text`
unfoldable pub message_text : Runtime → BrainMessage → Text
message_text rt m = or_text m.text (
    or_text m.content
      (or_text (data_value rt m.payload text_keys) (data_value rt m.metadata text_keys)))

-- `_message_file`
unfoldable pub message_file : Runtime → BrainMessage → Text
message_file rt m = or_text m.file (
    or_text m.url (
      or_text m.path
        (or_text (data_value rt m.payload file_keys) (data_value rt m.metadata file_keys))))

-- The body of the loop of `_validate_messages`.
unfoldable pub validate_message : Runtime → BrainMessage → Result (Unit {0})
validate_message rt m =
    let type = lower (strip m.type) in
    let has_file = not (is_empty (message_file rt m)) in
    if type == codes "text"
    then require (not (is_empty (message_text rt m)))
        (codes "text outbox messages require text or content")
    else if type == codes "image" || type == codes "video"
    then require has_file (type ++ codes " outbox messages require file, url, or path")
    else err (invalid (codes "outbox messages must be text, image, or video"))

unfoldable pub validate_each : Runtime → List BrainMessage → Result (Unit {0})
validate_each rt [] = ok tt
validate_each rt (m ∷ ms) = do validate_message rt m; validate_each rt ms

-- `_validate_messages`
unfoldable pub validate_messages : Runtime → List BrainMessage → Result (Unit {0})
unfolding validate_each
validate_messages rt [] = err (invalid (codes "messages must not be empty"))
validate_messages rt (m ∷ ms) = validate_each rt (m ∷ ms)

-- `_trim_error`
unfoldable pub trim_error : Text → Text
trim_error error =
    let text = strip error in
    if is_empty text then codes "gateway_delivery_failed" else take 1000 text
