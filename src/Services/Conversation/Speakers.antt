-- ===== src/Services/Conversation/Speakers.antt =====
-- brain-python/services/conversation_state.py: `_recent_speakers`.
use test_bot.Base.{List, [], contains, keep, list_eq, map, nat_eq, refl, take, ◌∷◌, ◌≡◌}
use test_bot.Text.{Text}
use test_bot.Base.{sym, ap, ◌∙◌, Bool-cases, inl, inr, is_empty, suc, zero, ℕ}
use test_bot.Services.Chat.{filled}
use test_bot.Services.Chat.Distinct.{first_places, keep_all, keep_both, keep_seen, unseen}
use test_bot.Services.Conversation.{
  RecentMessage, recent_speakers, speaker, speaker_limit, speakers_from,
}

speakers_from_lem :
    (room : ℕ) (seen : List Text) (rows : List RecentMessage)
    → speakers_from room seen rows
      ≡ take room (keep (unseen seen) (first_places (filled (map speaker rows))))
unfolding speakers_from first_places
speakers_from_lem zero seen rows = refl
speakers_from_lem (suc room) seen [] = refl
speakers_from_lem (suc room) seen (row ∷ rows) =
    let tail = first_places (filled (map speaker rows)) in
    elim (Bool-cases (is_empty (speaker row))) [
      | inl blank ↦ rw (blank, speakers_from) (speakers_from_lem (suc room) seen rows)
      | inr text ↦ elim (Bool-cases (contains seen (speaker row))) [
        | inl known ↦
            rw (text, known, speakers_from)
              (speakers_from_lem (suc room) seen rows
                ∙ ap (take (suc room)) (sym (keep_seen (speaker row) seen tail known)))
        | inr new ↦
            rw (text, new, speakers_from)
              (ap (λ rest. speaker row ∷ rest)
                (speakers_from_lem room (speaker row ∷ seen) rows
                  ∙ ap (take room) (keep_both (speaker row) seen tail)))
      ]
    ]

-- The recent speakers are the first twelve of the senders that have an id, each at the place of
-- their newest message.
pub recent_speakers_lem :
    (rows : List RecentMessage)
    → recent_speakers rows ≡ take speaker_limit (first_places (filled (map speaker rows)))
unfolding recent_speakers
recent_speakers_lem rows =
    speakers_from_lem speaker_limit [] rows ∙ ap (take speaker_limit) (keep_all _)
