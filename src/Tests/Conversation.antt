-- ===== src/Tests/Conversation.antt =====
-- brain-python/services/conversation_state.py at concrete inputs.
use test_bot.Base.{List, [], length, list_eq, map, nat_eq, refl, some, take, ◌∷◌, ◌≡◌}
use test_bot.Text.{codes, is_space, strip_by}
use Prim.Native.String.{String}
use test_bot.Base.{◌≤◌, Distinct}
use test_bot.Services.Chat.{filled}
use test_bot.Services.Chat.Distinct.{first_places}
use test_bot.Services.Conversation.{
  RecentMessage, active_topics, conversation_key, recent_speakers, speaker, speaker_limit,
  topic_limit, topic_tokens,
}
use test_bot.Services.Conversation.Speakers.{recent_speakers_lem}
use test_bot.Services.Conversation.Topics.{active_topics-Distinct}

abbrev said : String → String → RecentMessage
said who what = record {
  text = some (codes what);
  sender_user_id = some (codes who);
  created_at = 0;
}

abbrev rows : List RecentMessage
rows = said "7" "The c++ cafe" ∷ said " 8" "群聊 cafe!" ∷ said "7" "x y" ∷ []

active_topics_run : active_topics rows ≡ codes "cafe" ∷ codes "c++" ∷ codes "群聊" ∷ []
unfolding active_topics list_eq nat_eq strip_by test_bot.Services.Conversation.count_token
    test_bot.Services.Conversation.ranks_before
active_topics_run = refl

recent_speakers_run : recent_speakers rows ≡ codes "7" ∷ codes "8" ∷ []
unfolding recent_speakers list_eq nat_eq strip_by is_space
recent_speakers_run = refl

recent_speakers_lem_example :
    recent_speakers rows ≡ take speaker_limit (first_places (filled (map speaker rows)))
recent_speakers_lem_example = recent_speakers_lem rows

active_topics-Distinct_example :
    (length (active_topics rows) ≤ topic_limit) × Distinct (active_topics rows)
active_topics-Distinct_example = active_topics-Distinct rows
