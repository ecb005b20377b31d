-- ===== src/Services/Conversation.antt =====
-- brain-python/services/conversation_state.py: the state that is derived from recent messages.
pub mod Speakers
pub mod Topics
use test_bot.Base.{
  Bool, List, Option, [], contains, false, if◌then◌else◌, is_empty, keep, leb, length, list_eq, ltb,
  map, nat_eq, none, not, some, suc, take, true, zero, ℕ, ◌&&◌, ◌*◌, ◌++◌, ◌+◌, ◌-◌, ◌==◌, ◌||◌,
  ◌∷◌,
}
use test_bot.Text.{Text, codes, join, lower, show_nat, strip, strip_by}
use test_bot.Value.{Fields, end, field, int, str, string_id, text_or_empty}
use test_bot.Schemas.{ChatRequest}
use test_bot.Base.Int.{pos}

-- A row of the recent messages, the newest first. Times are in microseconds.
pub record RecentMessage : Type 0 where
  pub text : Option Text
  pub sender_user_id : Option Text
  pub created_at : ℕ

pub record ConversationState : Type 0 where
  pub conversation_id : ℕ
  pub active_topics : List Text
  pub mood : Text
  pub conversation_velocity : Text
  pub current_speaker_ids : List Text
  pub last_bot_reply_at : Option ℕ
  pub bot_reply_count_1h : ℕ
  pub bot_reply_count_24h : ℕ
  pub should_avoid_long_reply : Bool
  pub metadata : Fields
  pub updated_at : Option ℕ

-- The counts of the bot's replies, from the aggregate query.
pub record BotStats : Type 0 where
  pub bot_reply_count_1h : ℕ
  pub bot_reply_count_24h : ℕ
  pub last_bot_reply_at : Option ℕ

-- `_conversation_key`, and `conversation_key` of services/persistence.py.
unfoldable pub conversation_key : ChatRequest → Text × Text
unfolding lower list_eq nat_eq
conversation_key request =
    let message_type = lower (strip (text_or_empty request.message_type)) in
    let group_id = string_id request.group_id in
    let user_id = string_id request.user_id in
    if message_type == codes "group" || not (is_empty group_id)
    then (codes "group", group_id)
    else if message_type == codes "private" || not (is_empty user_id)
    then (codes "private", user_id)
    else ([], [])

-- `_velocity`
unfoldable pub velocity : ℕ → Text
velocity message_count =
    if leb 25 message_count
    then codes "burst"
    else if leb 12 message_count
    then codes "active"
    else if leb 4 message_count
    then codes "normal"
    else codes "quiet"

abbrev pub speaker_limit : ℕ
speaker_limit = 12

abbrev pub speaker : RecentMessage → Text
speaker row = strip (text_or_empty row.sender_user_id)

-- The loop of `_recent_speakers`, with the room that is left: it ends when there is none.
unfoldable pub speakers_from : ℕ → List Text → List RecentMessage → List Text
unfolding list_eq nat_eq
speakers_from zero seen rows = []
speakers_from (suc room) seen [] = []
speakers_from (suc room) seen (row ∷ rows) =
    elim (is_empty (speaker row) || contains seen (speaker row)) [
      | true ↦ speakers_from (suc room) seen rows
      | false ↦ speaker row ∷ speakers_from room (speaker row ∷ seen) rows
    ]

-- `_recent_speakers`
unfoldable pub recent_speakers : List RecentMessage → List Text
unfolding speakers_from
recent_speakers rows = speakers_from speaker_limit [] rows

-- The classes of characters of `TOPIC_RE`; 0 is neither.
unfoldable pub topic_class : ℕ → ℕ
topic_class c =
    if leb b'a' c && leb c b'z'
      || leb b'A' c && leb c b'Z'
      || leb b'0' c && leb c b'9'
      || contains (codes "_+#.-") c
    then 1
    else if leb 0x4e00 c && leb c 0x9fff
    then 2
    else 0

-- The runs of characters of one class.
unfoldable pub class_runs : Text → List (ℕ × Text)
unfolding topic_class nat_eq
class_runs [] = []
class_runs (c ∷ cs) =
    let kind = topic_class c in
    elim (class_runs cs) [
      | [] ↦ (kind, c ∷ []) ∷ []
      | run ∷ runs ↦ if kind == run.0 then (kind, c ∷ run.1) ∷ runs else (kind, c ∷ []) ∷ run ∷ runs
    ]

abbrev is_match : ℕ × Text → Bool
is_match run = not (run.0 == 0) && leb 2 (length run.1)

-- `TOPIC_RE.finditer`: the classes share no character, so a match is a whole run.
unfoldable pub topic_matches : Text → List Text
unfolding class_runs nat_eq
topic_matches text = map (λ run. run.1) (keep is_match (class_runs text))

abbrev pub stopwords : List Text
stopwords =
    codes "the"
    ∷ codes "and"
    ∷ codes "for"
    ∷ codes "you"
    ∷ codes "with"
    ∷ codes "this"
    ∷ codes "that"
    ∷ codes "http"
    ∷ codes "https"
    ∷ codes "com"
    ∷ codes "www"
    ∷ codes "我"
    ∷ codes "你"
    ∷ codes "他"
    ∷ codes "她"
    ∷ codes "它"
    ∷ codes "我们"
    ∷ codes "你们"
    ∷ codes "他们"
    ∷ codes "这个"
    ∷ codes "那个"
    ∷ codes "一下"
    ∷ codes "什么"
    ∷ codes "可以"
    ∷ codes "还是"
    ∷ codes "就是"
    ∷ []

abbrev is_edge : ℕ → Bool
is_edge c = contains (codes "._-") c

-- The loop of `_topic_tokens`.
unfoldable pub tokens_from : List Text → List Text → List Text
unfolding list_eq nat_eq
tokens_from seen [] = []
tokens_from seen (m ∷ ms) =
    let token = strip_by is_edge m in
    elim (ltb (length token) 2 || (contains stopwords token || contains seen token)) [
      | true ↦ tokens_from seen ms
      | false ↦ token ∷ tokens_from (token ∷ seen) ms
    ]

-- `_topic_tokens`
unfoldable pub topic_tokens : Option Text → List Text
unfolding topic_matches tokens_from lower
topic_tokens value = tokens_from [] (topic_matches (lower (text_or_empty value)))

-- An entry of `counts` and `first_seen`.
pub record Topic : Type 0 where
  pub token : Text
  pub count : ℕ
  pub first_seen : ℕ

unfoldable pub count_token : ℕ → Text → List Topic → List Topic
unfolding list_eq nat_eq
count_token index token [] = record { token = token; count = 1; first_seen = index } ∷ []
count_token index token (t ∷ ts) =
    let rest = count_token index token ts in
    if t.token == token then record t { count = t.count + 1 } ∷ ts else t ∷ rest

unfoldable pub count_tokens : ℕ → List Text → List Topic → List Topic
count_tokens index [] topics = topics
count_tokens index (token ∷ tokens) topics =
    count_tokens index tokens (count_token index token topics)

-- The loop of `_active_topics`.
unfoldable pub count_rows : ℕ → List RecentMessage → List Topic → List Topic
unfolding count_tokens topic_tokens
count_rows index [] topics = topics
count_rows index (row ∷ rows) topics =
    count_rows (index + 1) rows (count_tokens index (topic_tokens row.text) topics)

-- `a <= b` for texts.
unfoldable pub leb_text : Text → Text → Bool
unfolding nat_eq
leb_text [] t = true
leb_text (c ∷ cs) [] = false
leb_text (c ∷ cs) (d ∷ ds) = ltb c d || (c == d && leb_text cs ds)

-- The order of the key `(-counts[token], first_seen[token], token)`.
unfoldable pub ranks_before : Topic → Topic → Bool
unfolding leb_text nat_eq
ranks_before a b =
    ltb b.count a.count
    || (a.count == b.count
        && (ltb a.first_seen b.first_seen
            || (a.first_seen == b.first_seen && leb_text a.token b.token)))

unfoldable pub insert_topic : Topic → List Topic → List Topic
insert_topic t [] = t ∷ []
insert_topic t (u ∷ us) = if ranks_before t u then t ∷ (u ∷ us) else u ∷ insert_topic t us

unfoldable pub sort_topics : List Topic → List Topic
unfolding insert_topic
sort_topics [] = []
sort_topics (t ∷ ts) = insert_topic t (sort_topics ts)

abbrev pub topic_limit : ℕ
topic_limit = 8

-- `_active_topics`
unfoldable pub active_topics : List RecentMessage → List Text
unfolding count_rows sort_topics
active_topics rows = take topic_limit (map (λ t. t.token) (sort_topics (count_rows 0 rows [])))

abbrev bot_recent_reply_seconds : ℕ
bot_recent_reply_seconds = 180

-- `_recent_datetime`; `now` is the clock's time.
unfoldable pub recent_datetime : ℕ → Option ℕ → ℕ → Bool
recent_datetime now none seconds = false
recent_datetime now (some value) seconds = leb value now && leb now (value + seconds * 1000000)

-- `derive_state`
unfoldable pub derive_state : ℕ → ℕ → List RecentMessage → BotStats → ConversationState
unfolding recent_speakers velocity active_topics recent_datetime list_eq nat_eq
derive_state now conversation_id recent_messages bot_stats =
    let speakers = recent_speakers recent_messages in
    let speed = velocity (length recent_messages) in
    record {
      conversation_id = conversation_id;
      active_topics = active_topics recent_messages;
      mood = codes "neutral";
      conversation_velocity = speed;
      current_speaker_ids = speakers;
      last_bot_reply_at = bot_stats.last_bot_reply_at;
      bot_reply_count_1h = bot_stats.bot_reply_count_1h;
      bot_reply_count_24h = bot_stats.bot_reply_count_24h;
      should_avoid_long_reply =
          contains (codes "active" ∷ codes "burst" ∷ []) speed
          || leb 4 (length speakers)
          || leb 5 bot_stats.bot_reply_count_1h
          || recent_datetime now bot_stats.last_bot_reply_at bot_recent_reply_seconds;
      metadata = field (codes "recent_window") (str (codes "10 minutes")) (
          field (codes "recent_message_count") (int (pos (length recent_messages)))
            (field (codes "speaker_count") (int (pos (length speakers))) end));
      updated_at = none;
    }

abbrev bool_name : Bool → Text
bool_name true = codes "true"
bool_name false = codes "false"

-- `summarize_for_prompt`
unfoldable pub summarize_for_prompt : Option ConversationState → Text
unfolding show_nat
summarize_for_prompt none = []
summarize_for_prompt (some state) = join (codes "\n") (
    codes "当前群聊状态："
    ∷ (codes "- velocity: " ++ state.conversation_velocity)
    ∷ (codes "- mood: " ++ state.mood)
    ∷ (codes "- current_speaker_count: " ++ show_nat (length state.current_speaker_ids))
    ∷ (codes "- bot_reply_count_1h: " ++ show_nat state.bot_reply_count_1h)
    ∷ (codes "- bot_reply_count_24h: " ++ show_nat state.bot_reply_count_24h)
    ∷ (codes "- should_avoid_long_reply: " ++ bool_name state.should_avoid_long_reply)
    ∷ ((if is_empty state.active_topics
          then []
          else (codes "- active_topics: "
              ++ join (codes ", ") (take topic_limit state.active_topics))
            ∷ [])
        ++ (if state.should_avoid_long_reply
            then codes "- reply_guidance: 当前群聊较快或 bot 最近已回复，优先短回复。" ∷ []
            else [])))
