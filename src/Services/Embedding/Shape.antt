-- ===== src/Services/Embedding/Shape.antt =====
-- brain-python/services/memory_embedding.py: the shape of the embeddings.
use test_bot.Base.{none, some}
use test_bot.Base.{if◌then◌else◌, is_empty, ◌||◌, ◌⊎◌}
use test_bot.Base.{Bool, false, nat_eq, not, ℕ}
use test_bot.Text.{Text, codes}
use test_bot.Value.{arr, bool, dict, float, get, int, null, str}
use test_bot.Base.{All, List, Option, [], length, refl, true, ◌∷◌, ◌≡◌}
use test_bot.Value.{Float, Items, Value, cons, items, nil}
use test_bot.Base.Int.{ℤ}
use mathlib.Core.Path.{subst}
use test_bot.Base.{sym, ap, ◌∙◌, arith, inl, inr, suc}
use test_bot.Services.Ai.{Upstream}
use test_bot.Services.Embedding.{
  EmbeddingConfig, EmbeddingError, configuration, post_texts, read_answer, Result, Vector, ◌>>=◌,
  array_vector, check_upstream, count_is, data_vectors, embed_texts, extract_embeddings, failure,
  item_vector, length_is, number, numbers, success, vectors,
}

module _ {ℓ κ} {A : Type ℓ} {B : Type κ} where
  both_succeed :
      (first : Result A) (next : A → Result B) {y : B}
      → (first >>= next) ≡ success y
      → record { value : A; given : first ≡ success value; rest : next value ≡ success y }
  both_succeed (failure error) next e = cc
  both_succeed (success x) next e = record { value = x; given = refl; rest = e }

success_injective : {A : Type 0} (a b : A) → Path (Result A) (success a) (success b) → a ≡ b
success_injective a b e = cc

checked : (b : Bool) (message : Text) → check_upstream b message ≡ success tt → b ≡ true
checked false message e = cc
checked true message e = refl

module _ (float_of_int : ℤ → Option Float) where
  numbers-length :
      (vs : Items) (xs : Vector)
      → numbers float_of_int vs ≡ success xs
      → length xs ≡ length (items vs)
  unfolding numbers items
  numbers-length nil [] e = refl
  numbers-length nil (x ∷ xs) e = cc
  numbers-length (cons v vs) xs e =
      let p = both_succeed (number float_of_int v) _ e in
      let q = both_succeed (numbers float_of_int vs) _ p.rest in
      ap length (sym (success_injective _ _ q.rest)) ∙ ap suc (numbers-length vs q.value q.given)

  abbrev pub HasDimensions : ℤ → Vector → Type 0
  HasDimensions dimensions v = length_is dimensions (length v) ≡ true

  array_vector-HasDimensions :
      (dimensions : ℤ) (v : Value) (xs : Vector)
      → array_vector float_of_int dimensions v ≡ success xs
      → HasDimensions dimensions xs
  unfolding array_vector
  array_vector-HasDimensions dimensions (arr vs) xs e =
      let p =
        both_succeed
          (check_upstream (length_is dimensions (length (items vs)))
            (codes "embedding dimension does not match configuration"))
          _ e in
      ap (length_is dimensions) (numbers-length vs xs p.rest) ∙ checked _ _ p.given
  array_vector-HasDimensions dimensions null xs e = cc
  array_vector-HasDimensions dimensions (bool b) xs e = cc
  array_vector-HasDimensions dimensions (int n) xs e = cc
  array_vector-HasDimensions dimensions (float x) xs e = cc
  array_vector-HasDimensions dimensions (str s) xs e = cc
  array_vector-HasDimensions dimensions (dict fs) xs e = cc

  item_vector-HasDimensions :
      (dimensions : ℤ) (v : Value) (xs : Vector)
      → item_vector float_of_int dimensions v ≡ success xs
      → HasDimensions dimensions xs
  unfolding item_vector
  item_vector-HasDimensions dimensions (dict item) xs e =
      array_vector-HasDimensions dimensions (get (codes "embedding") item) xs e
  item_vector-HasDimensions dimensions null xs e = cc
  item_vector-HasDimensions dimensions (bool b) xs e = cc
  item_vector-HasDimensions dimensions (int n) xs e = cc
  item_vector-HasDimensions dimensions (float x) xs e = cc
  item_vector-HasDimensions dimensions (str s) xs e = cc
  item_vector-HasDimensions dimensions (arr vs) xs e = cc

  vectors-HasDimensions :
      (dimensions : ℤ) (vs : Items) (xs : List Vector)
      → vectors float_of_int dimensions vs ≡ success xs
      → (length xs ≡ length (items vs)) × All (HasDimensions dimensions) xs
  unfolding vectors items
  vectors-HasDimensions dimensions nil [] e = (refl, tt)
  vectors-HasDimensions dimensions nil (x ∷ xs) e = cc
  vectors-HasDimensions dimensions (cons v vs) xs e =
      let p = both_succeed (item_vector float_of_int dimensions v) _ e in
      let q = both_succeed (vectors float_of_int dimensions vs) _ p.rest in
      let rest = vectors-HasDimensions dimensions vs q.value q.given in
      subst (λ ys. (length ys ≡ suc (length (items vs))) × All (HasDimensions dimensions) ys)
        (success_injective _ _ q.rest)
        (ap suc rest.0, (item_vector-HasDimensions dimensions v p.value p.given, rest.1))

  data_vectors-HasDimensions :
      (count : ℕ) (dimensions : ℤ) (v : Value) (xs : List Vector)
      → data_vectors float_of_int count dimensions v ≡ success xs
      → (length xs ≡ count) × All (HasDimensions dimensions) xs
  unfolding data_vectors nat_eq
  data_vectors-HasDimensions count dimensions (arr vs) xs e =
      let p =
        both_succeed
          (check_upstream (count_is count (length (items vs)))
            (codes "embedding response count does not match input count"))
          _ e in
      let rest = vectors-HasDimensions dimensions vs xs p.rest in
      let counted = checked (count_is count (length (items vs))) _ p.given in
      (rest.0 ∙ ground (arith, counted), rest.1)
  data_vectors-HasDimensions count dimensions null xs e = cc
  data_vectors-HasDimensions count dimensions (bool b) xs e = cc
  data_vectors-HasDimensions count dimensions (int n) xs e = cc
  data_vectors-HasDimensions count dimensions (float x) xs e = cc
  data_vectors-HasDimensions count dimensions (str s) xs e = cc
  data_vectors-HasDimensions count dimensions (dict fs) xs e = cc

  extract_embeddings-HasDimensions :
      (count : ℕ) (dimensions : ℤ) (v : Value) (xs : List Vector)
      → extract_embeddings float_of_int count dimensions v ≡ success xs
      → (length xs ≡ count) × All (HasDimensions dimensions) xs
  unfolding extract_embeddings
  extract_embeddings-HasDimensions count dimensions (dict payload) xs e =
      data_vectors-HasDimensions count dimensions (get (codes "data") payload) xs e
  extract_embeddings-HasDimensions count dimensions null xs e = cc
  extract_embeddings-HasDimensions count dimensions (bool b) xs e = cc
  extract_embeddings-HasDimensions count dimensions (int n) xs e = cc
  extract_embeddings-HasDimensions count dimensions (float x) xs e = cc
  extract_embeddings-HasDimensions count dimensions (str s) xs e = cc
  extract_embeddings-HasDimensions count dimensions (arr vs) xs e = cc

  behind_checks :
      (disabled incomplete idle : Bool) (e f : EmbeddingError) (asked : Result (List Vector))
      (xs : List Vector)
      → (if disabled
          then failure e
          else if incomplete
          then failure f
          else if idle
          then success []
          else asked)
        ≡ success xs
      → (idle ≡ true) × (xs ≡ []) ⊎ (asked ≡ success xs)
  behind_checks true incomplete idle e f asked xs h = cc
  behind_checks false true idle e f asked xs h = cc
  behind_checks false false true e f asked xs h = inl (refl, sym (success_injective _ _ h))
  behind_checks false false false e f asked xs h = inr h

  read_answer-HasDimensions :
      (count : ℕ) (dimensions : ℤ) (o : Option Value) (xs : List Vector)
      → read_answer float_of_int count dimensions o ≡ success xs
      → (length xs ≡ count) × All (HasDimensions dimensions) xs
  unfolding read_answer
  read_answer-HasDimensions count dimensions none xs e = cc
  read_answer-HasDimensions count dimensions (some v) xs e =
      extract_embeddings-HasDimensions count dimensions v xs e

  no_texts : (texts : List Text) → is_empty texts ≡ true → 0 ≡ length texts
  no_texts [] h = refl
  no_texts (t ∷ ts) h = cc

  -- Embedding texts fails, or gives one vector for each text, each of the configured dimension,
  -- whatever the remote model answers.
  pub embed_texts-HasDimensions :
      (upstream : Upstream) (texts : List Text) (c : EmbeddingConfig) (xs : List Vector)
      → embed_texts float_of_int upstream texts c ≡ success xs
      → (length xs ≡ length texts) × All (HasDimensions c.dimensions) xs
  unfolding embed_texts
  embed_texts-HasDimensions upstream texts c xs e =
      elim (behind_checks (not c.enabled) (is_empty c.base_url || is_empty c.model) (is_empty texts)
        (configuration (codes "MEMORY_EMBEDDING_ENABLED is false"))
        (configuration (codes "embedding config is incomplete"))
        (read_answer float_of_int (length texts) c.dimensions
          (post_texts float_of_int upstream texts c))
        xs e) [
          | inl (idle, none_given) ↦
              subst (λ ys. (length ys ≡ length texts) × All (HasDimensions c.dimensions) ys)
                (sym none_given) (no_texts texts idle, tt)
          | inr asked ↦
              read_answer-HasDimensions (length texts) c.dimensions
                (post_texts float_of_int upstream texts c) xs asked
        ]
