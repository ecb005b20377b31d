-- ===== src/Tests/Embedding.antt =====
-- brain-python/services/memory_embedding.py at concrete inputs.
use test_bot.Base.{
  All, List, Option, [], int_eq, length, list_eq, nat_eq, none, refl, some, true, ◌∷◌, ◌≡◌,
}
use test_bot.Text.{codes}
use test_bot.Value.{Float, arr, cons, dict, end, field, float, items, nan, nil, pos_inf}
use test_bot.Base.Int.{pos, ℤ}
use test_bot.Services.Ai.{Upstream}
use test_bot.Services.Embedding.{EmbeddingConfig, Vector, embed_texts, success}
use test_bot.Services.Embedding.Shape.{HasDimensions, embed_texts-HasDimensions}

abbrev exact : ℤ → Option Float
exact n = none

abbrev answers : Upstream
answers url headers timeout payload = some (
    dict (
      field (codes "data")
        (arr (
          cons
            (dict
              (field (codes "embedding") (arr (cons (float pos_inf) (cons (float nan) nil))) end))
            nil))
        end))

abbrev two_dimensions : EmbeddingConfig
two_dimensions = record {
  enabled = true;
  base_url = codes "http://e";
  api_key = [];
  model = codes "m";
  dimensions = pos 2;
  timeout = pos_inf;
  batch_size = pos 32;
}

abbrev embedded : List Vector
embedded = (pos_inf ∷ nan ∷ []) ∷ []

embed_run : embed_texts exact answers (codes "hi" ∷ []) two_dimensions ≡ success embedded
unfolding embed_texts list_eq nat_eq int_eq items test_bot.Services.Embedding.item_vector
    test_bot.Services.Embedding.number
embed_run = refl

embed_texts-HasDimensions_example :
    (length embedded ≡ 1) × All (HasDimensions exact (pos 2)) embedded
embed_texts-HasDimensions_example =
    embed_texts-HasDimensions exact answers (codes "hi" ∷ []) two_dimensions embedded embed_run
