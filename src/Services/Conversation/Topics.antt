-- ===== src/Services/Conversation/Topics.antt =====
-- brain-python/services/conversation_state.py: `_active_topics`.
use test_bot.Base.{
  List, [], contains, false, length, length-take, list_eq, map, nat_eq, refl, take, ◌+◌, ◌==◌, ◌∷◌,
  ◌≡◌,
}
use test_bot.Text.{Text}
use test_bot.Base.{arith, Bool-cases, inl, inr, suc, zero, ℕ, ◌≤◌, Distinct}
use test_bot.Services.Conversation.{
  RecentMessage, Topic, active_topics, count_rows, count_token, count_tokens, insert_topic,
  ranks_before, sort_topics, topic_limit, topic_tokens,
}

abbrev tokens : List Topic → List Text
tokens = map (λ t. t.token)

count_token_new :
    (index : ℕ) (token other : Text) (ts : List Topic)
    → (other == token) ≡ false
    → contains (tokens ts) other ≡ false
    → contains (tokens (count_token index token ts)) other ≡ false
unfolding count_token
count_token_new index token other [] h k = ground arith
count_token_new index token other (t ∷ ts) h k =
    ground (arith, count_token_new index token other ts h)

count_token-Distinct :
    (index : ℕ) (token : Text) (ts : List Topic)
    → Distinct (tokens ts)
    → Distinct (tokens (count_token index token ts))
unfolding count_token
count_token-Distinct index token [] d = (refl, tt)
count_token-Distinct index token (t ∷ ts) (new, d) = elim (Bool-cases (t.token == token)) [
  | inl same ↦ rw same (new, d)
  | inr other ↦
      rw other
        (count_token_new index token t.token ts other new, count_token-Distinct index token ts d)
]

count_tokens-Distinct :
    (index : ℕ) (ws : List Text) (ts : List Topic)
    → Distinct (tokens ts)
    → Distinct (tokens (count_tokens index ws ts))
unfolding count_tokens
count_tokens-Distinct index [] ts d = d
count_tokens-Distinct index (w ∷ ws) ts d =
    count_tokens-Distinct index ws (count_token index w ts) (count_token-Distinct index w ts d)

count_rows-Distinct :
    (index : ℕ) (rows : List RecentMessage) (ts : List Topic)
    → Distinct (tokens ts)
    → Distinct (tokens (count_rows index rows ts))
unfolding count_rows
count_rows-Distinct index [] ts d = d
count_rows-Distinct index (row ∷ rows) ts d =
    count_rows-Distinct (index + 1) rows (count_tokens index (topic_tokens row.text) ts)
      (count_tokens-Distinct index (topic_tokens row.text) ts d)

insert_topic_new :
    (t : Topic) (other : Text) (us : List Topic)
    → (other == t.token) ≡ false
    → contains (tokens us) other ≡ false
    → contains (tokens (insert_topic t us)) other ≡ false
unfolding insert_topic
insert_topic_new t other [] h k = ground arith
insert_topic_new t other (u ∷ us) h k = elim (Bool-cases (ranks_before t u)) [
  | inl before ↦ rw before (ground (arith, h, k))
  | inr after ↦ rw after (ground (arith, k, insert_topic_new t other us h (ground (arith, k))))
]

insert_topic-Distinct :
    (t : Topic) (us : List Topic)
    → contains (tokens us) t.token ≡ false
    → Distinct (tokens us)
    → Distinct (tokens (insert_topic t us))
unfolding insert_topic
insert_topic-Distinct t [] new d = (refl, tt)
insert_topic-Distinct t (u ∷ us) new (first, d) = elim (Bool-cases (ranks_before t u)) [
  | inl before ↦ rw before (new, (first, d))
  | inr after ↦ rw after (
    insert_topic_new t u.token us (ground (arith, new)) first,
    insert_topic-Distinct t us (ground (arith, new)) d,
  )
]

sort_topics_new :
    (ts : List Topic) (other : Text)
    → contains (tokens ts) other ≡ false
    → contains (tokens (sort_topics ts)) other ≡ false
unfolding sort_topics
sort_topics_new [] other k = refl
sort_topics_new (t ∷ ts) other k =
    insert_topic_new t other (sort_topics ts) (ground (arith, k))
      (sort_topics_new ts other (ground (arith, k)))

sort_topics-Distinct : (ts : List Topic) → Distinct (tokens ts) → Distinct (tokens (sort_topics ts))
unfolding sort_topics
sort_topics-Distinct [] d = d
sort_topics-Distinct (t ∷ ts) (new, d) =
    insert_topic-Distinct t (sort_topics ts) (sort_topics_new ts t.token new)
      (sort_topics-Distinct ts d)

take_new :
    (n : ℕ) (xs : List Text) (y : Text) → contains xs y ≡ false → contains (take n xs) y ≡ false
take_new zero xs y k = refl
take_new (suc n) [] y k = refl
take_new (suc n) (x ∷ xs) y k = ground (arith, take_new n xs y)

take-Distinct : (n : ℕ) (xs : List Text) → Distinct xs → Distinct (take n xs)
take-Distinct zero xs d = tt
take-Distinct (suc n) [] d = tt
take-Distinct (suc n) (x ∷ xs) (new, d) = (take_new n xs x new, take-Distinct n xs d)

-- At most eight topics are active, and none of them twice.
pub active_topics-Distinct :
    (rows : List RecentMessage)
    → (length (active_topics rows) ≤ topic_limit) × Distinct (active_topics rows)
unfolding active_topics
active_topics-Distinct rows =
    let ranked = tokens (sort_topics (count_rows 0 rows [])) in
    (
      omega (arith, length-take topic_limit ranked),
      take-Distinct topic_limit ranked
          (sort_topics-Distinct (count_rows 0 rows []) (count_rows-Distinct 0 rows [] tt)),
    )
