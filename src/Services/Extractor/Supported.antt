-- ===== src/Services/Extractor/Supported.antt =====
-- brain-python/services/memory_extractor.py: the accepted items of a batch.
use test_bot.Base.{is_empty, length-take}
use test_bot.Base.{Bool, false, not, suc, ◌&&◌, ◌==◌}
use test_bot.Services.Outbox.{second}
use test_bot.Base.{
  ==-same, Bool-cases, Option, ap, arith, if◌then◌else◌, inl, inr, none, refl, some, take, ◌∙◌, ◌≤◌,
}
use test_bot.Base.Int.{ℤ}
use mathlib.Core.Path.{subst}
use test_bot.Services.Extractor.{Attempt, all_known, users_known}
use test_bot.Services.Outbox.{ids}
use test_bot.Services.Extractor.Clean.{clean_candidate-IsClean}
use test_bot.Base.{All, List, [], contains, length, list_eq, nat_eq, true, ℕ, ◌+◌, ◌∷◌, ◌≡◌, ◌≢◌}
use test_bot.Text.{Text, codes}
use test_bot.Value.{Fields, Runtime}
use test_bot.Services.Extractor.{
  GroupMessage, Item, clean_candidate, is_supported, message_ids, sender_ids,
}
use test_bot.Services.Extractor.Clean.{IsClean, both_return}
use test_bot.Services.Chat.{candidates}
use test_bot.Base.{int_eq, list_eq, nat_eq}
use test_bot.Services.Extractor.{validate_each, validate_candidates}
use test_bot.Base.Result.{return}

return_injective {ℓ} : {A : Type ℓ} {x y : A} → Path (Attempt A) (return x) (return y) → x ≡ y
return_injective e = cc

-- An item that the messages of the batch support.
pub record IsSupported (messages : List GroupMessage) (item : Item) : Type 0 where
  pub some_evidence : item.evidence_message_ids ≢ []
  pub evidence : All (λ id. contains (message_ids messages) id ≡ true) item.evidence_message_ids
  pub subject : item.scope ≡ codes "user" → contains (sender_ids messages) item.user_id ≡ true
  pub pair :
      item.scope ≡ codes "relationship"
      → (contains (sender_ids messages) item.user_id ≡ true)
        × (contains (sender_ids messages) item.target_user_id ≡ true)
        × (item.user_id ≢ item.target_user_id)

all_known-All :
    (known ids : List ℤ) → all_known known ids ≡ true → All (λ id. contains known id ≡ true) ids
all_known-All known [] h = tt
all_known-All known (id ∷ ids) h = (ground arith, all_known-All known ids (ground arith))

pair_tests :
    (first second equal : Bool)
    → (first && second && not equal) ≡ true
    → (first ≡ true) × (second ≡ true) × (equal ≡ false)
pair_tests first second equal h = ground arith

module _ (senders : List Text) (item : Item) where
  known_subject :
      users_known senders item ≡ true
      → item.scope ≡ codes "user"
      → contains senders item.user_id ≡ true
  unfolding users_known
  known_subject h s = ground (arith, ==-same item.scope (codes "user") s)

  known_pair :
      users_known senders item ≡ true
      → item.scope ≡ codes "relationship"
      → (contains senders item.user_id ≡ true)
        × (contains senders item.target_user_id ≡ true)
        × (item.user_id ≢ item.target_user_id)
  unfolding users_known
  known_pair h s =
      let tests =
        pair_tests (contains senders item.user_id) (contains senders item.target_user_id)
          (item.user_id == item.target_user_id) (rw (s, users_known) at h) in
      (
        tests.0,
        tests.1,
        λ same. ground (arith, tests.2, ==-same item.user_id item.target_user_id same),
      )

is_supported-IsSupported :
    (messages : List GroupMessage) (item : Item)
    → is_supported messages item ≡ true
    → IsSupported messages item
unfolding is_supported
is_supported-IsSupported messages item e = record {
  some_evidence = (λ none_named. ground (arith, ap (λ (ids : List ℤ). is_empty ids) none_named));
  evidence = all_known-All _ _ (ground arith);
  subject = known_subject (sender_ids messages) item (ground arith);
  pair = known_pair (sender_ids messages) item (ground arith);
}

-- What is shown of the accepted items and of the number of the others.
abbrev AreSupported : Text → List GroupMessage → ℕ → List Item × ℕ → Type 0
AreSupported group_id messages total (accepted, skipped) =
    All (λ item. IsClean group_id item × IsSupported messages item) accepted
    × (length accepted + skipped ≡ total)

module _ (group_id : Text) (messages : List GroupMessage) (total : ℕ) (rest : List Item × ℕ) where
  one_more :
      (cleaned : Option Item)
      → ((item : Item) → cleaned ≡ some item → IsClean group_id item)
      → AreSupported group_id messages total rest
      → {result : List Item × ℕ}
      → elim cleaned as (λ c. Attempt (List Item × ℕ)) [
        | none ↦ return (rest.0, rest.1 + 1)
        | some item ↦
            if is_supported messages item
            then return (item ∷ rest.0, rest.1)
            else return (rest.0, rest.1 + 1)
      ]
        ≡ return result
      → AreSupported group_id messages (suc total) result
  one_more none clean (all, count) e =
      subst (AreSupported group_id messages (suc total)) (return_injective e) (all, omega arith)
  one_more (some item) clean (all, count) e = elim (Bool-cases (is_supported messages item)) [
    | inl yes_ ↦
        subst (AreSupported group_id messages (suc total)) (return_injective (rw yes_ at e))
          (((clean item refl, is_supported-IsSupported messages item yes_), all), omega arith)
    | inr no_ ↦
        subst (AreSupported group_id messages (suc total)) (return_injective (rw no_ at e))
          (all, omega arith)
  ]

validate_each-AreSupported :
    (rt : Runtime) (group_id : Text) (messages : List GroupMessage) (candidates : List Fields)
    {result : List Item × ℕ}
    → validate_each rt group_id messages candidates ≡ return result
    → AreSupported group_id messages (length candidates) result
unfolding validate_each
validate_each-AreSupported rt group_id messages [] e =
    subst (AreSupported group_id messages 0) (return_injective e) (tt, refl)
validate_each-AreSupported rt group_id messages (candidate ∷ candidates) e =
    let cleaned = both_return (clean_candidate rt candidate group_id) _ e in
    let rest = both_return (validate_each rt group_id messages candidates) _ cleaned.rest in
    one_more group_id messages (length candidates) rest.value cleaned.value
      (λ item found.
        clean_candidate-IsClean rt candidate group_id item (cleaned.given ∙ ap return found))
      (validate_each-AreSupported rt group_id messages candidates rest.given) rest.rest

-- Whatever JSON objects the model answers with, each candidate of the answer is either accepted or counted as skipped, and every
-- accepted item is one of the store: of the group, of a known scope, type and class, with a content
-- of 1 to 300 characters, scores that are not outside of 0 to 1 and the users that its scope asks for.
-- Its evidence is not empty and names messages of the batch only; the user of an
-- item of a user has sent one of them, and so have both users of an item of a relationship, who differ.
pub validate_candidates-IsSupported :
    (rt : Runtime) (candidates : List Fields) (group_id : Text) (messages : List GroupMessage)
    (max_candidates : ℕ) (accepted : List Item) (skipped : ℕ)
    → validate_candidates rt candidates group_id messages max_candidates
      ≡ return (accepted, skipped)
    → All (λ item. IsClean group_id item × IsSupported messages item) accepted
      × (length accepted + skipped ≡ length candidates)
      × (length accepted ≤ max_candidates)
unfolding validate_candidates
validate_candidates-IsSupported rt candidates group_id messages max_candidates accepted skipped e =
    let checked =
      both_return (validate_each rt group_id messages (take max_candidates candidates)) _ e in
    let all =
      validate_each-AreSupported rt group_id messages (take max_candidates candidates)
        checked.given in
    subst
      (λ (r : List Item × ℕ).
        All (λ item. IsClean group_id item × IsSupported messages item) r.0
        × (length r.0 + r.1 ≡ length candidates)
        × (length r.0 ≤ max_candidates))
      (return_injective checked.rest)
      (
        all.0,
        ground (arith, all.1, length-take max_candidates candidates),
        ground (arith, all.1, length-take max_candidates candidates),
      )
