-- ===== src/Services/Extractor.antt =====
-- brain-python/services/memory_extractor.py: the extraction of memories from a group's messages.
pub mod Candidate
pub mod Ask
pub mod Run
pub mod Steps
pub mod Tried
pub mod Closed
pub mod Clean
pub mod Supported
unfoldable pub use Candidate.*
use test_bot.Base.{
  Bool, List, [], contains, false, if◌then◌else◌, int_eq, is_empty, keep, length, list_eq, map,
  nat_eq, none, not, some, take, true, ℕ, ◌&&◌, ◌+◌, ◌-◌, ◌==◌, ◌∷◌,
}
use test_bot.Text.{Text, codes}
use test_bot.Value.{Fields, Runtime}
use test_bot.Base.Int.{pos, ℤ}
use test_bot.Base.Result.{Result, ◌>>=◌, raise, return}

abbrev pub message_ids : List GroupMessage → List ℤ
message_ids = map (λ m. pos m.id)

abbrev pub sender_ids : List GroupMessage → List Text
sender_ids messages =
    keep (λ s. not (is_empty s)) (map (λ m. string_column m.sender_user_id) messages)

abbrev pub all_known : List ℤ → List ℤ → Bool
all_known known [] = true
all_known known (id ∷ ids) = contains known id && all_known known ids

-- The tests of `_validate_candidates` on the users of an item.
unfoldable pub users_known : List Text → Item → Bool
unfolding list_eq nat_eq
users_known senders item =
    if item.scope == codes "user" && not (contains senders item.user_id)
    then false
    else if item.scope == codes "relationship"
    then contains senders item.user_id
      && contains senders item.target_user_id
      && not (item.user_id == item.target_user_id)
    else true

-- The tests of `_validate_candidates` on an item.
unfoldable pub is_supported : List GroupMessage → Item → Bool
unfolding int_eq nat_eq users_known
is_supported messages item =
    not (is_empty item.evidence_message_ids)
    && all_known (message_ids messages) item.evidence_message_ids
    && users_known (sender_ids messages) item

-- The loop of `_validate_candidates`: the accepted items and the number of the others.
unfoldable pub validate_each :
    Runtime → Text → List GroupMessage → List Fields → Attempt (List Item × ℕ)
unfolding clean_candidate is_supported
validate_each rt group_id messages [] = return ([], 0)
validate_each rt group_id messages (candidate ∷ candidates) = do
  cleaned ← clean_candidate rt candidate group_id
  rest ← validate_each rt group_id messages candidates
  elim cleaned [
    | none ↦ return (rest.0, rest.1 + 1)
    | some item ↦
        if is_supported messages item
        then return (item ∷ rest.0, rest.1)
        else return (rest.0, rest.1 + 1)
  ]

-- `_validate_candidates`
unfoldable pub validate_candidates :
    Runtime → List Fields → Text → List GroupMessage → ℕ → Attempt (List Item × ℕ)
unfolding validate_each
validate_candidates rt candidates group_id messages max_candidates = do
  checked ← validate_each rt group_id messages (take max_candidates candidates)
  return (checked.0, checked.1 + (length candidates - max_candidates))
