-- ===== src/Tests/Recall.antt =====
-- brain-python/services/memory.py: recalls at concrete inputs.
use test_bot.Base.{All, false}
use test_bot.Base.{List, [], int_eq, list_eq, map, nat_eq, refl, ℕ, ◌∷◌, ◌≡◌}
use test_bot.Base.Result.{raise, return}
use test_bot.Text.{codes, is_space, lower, starts_with, strip_by}
use test_bot.Value.{string_id}
use test_bot.Services.Extractor.{Attempt}
use test_bot.Services.Memory.{MemoryRow, equals}
use test_bot.Services.Memory.Answers.{Answers}
use test_bot.Services.Memory.Ranking.{recall}
use test_bot.Services.Memory.Recalled.{
  IsRecall, MayRecall, recall-Answers, recall-delete_group, without_group,
}
use test_bot.Services.Memory.Store.{World}
use test_bot.Tests.Memory.{by_role, environment, no_double, searches, unreachable, world}
use test_bot.Tests.Sample.{runtime}

recall-Answers_example : Answers (IsRecall (MayRecall environment (codes "7"))) world (
    recall runtime no_double unreachable environment searches
      (by_role "member")
      (codes "tea")
      world)
unfolding string_id nat_eq
recall-Answers_example =
    recall-Answers runtime no_double unreachable environment searches (by_role "member")
      (codes "tea") world

abbrev deleted_world : World
deleted_world =
    without_group runtime no_double unreachable environment searches (by_role "member")
      (codes "tea") 9 (codes "7") world

recall-delete_group_example :
    Answers (All (λ r. equals r.group_id (codes "7") ≡ false)) deleted_world (
      recall runtime no_double unreachable environment searches
        (by_role "member")
        (codes "tea")
        deleted_world)
recall-delete_group_example =
    recall-delete_group runtime no_double unreachable environment searches (by_role "member")
      (codes "tea") 9 (codes "7") world

abbrev recalled_ids : Attempt (List MemoryRow) × World → List ℕ
recalled_ids (raise e, w) = []
recalled_ids (return rows, w) = map (λ (r : MemoryRow). r.id) rows

-- Of the two rows, that of the group that asks is recalled, once.
recalls_own :
    recalled_ids (
      recall runtime no_double unreachable environment searches
        (by_role "member")
        (codes "tea")
        world)
    ≡ 1 ∷ []
unfolding recall string_id nat_eq list_eq lower strip_by is_space starts_with
recalls_own = refl
