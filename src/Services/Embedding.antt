-- ===== src/Services/Embedding.antt =====
-- brain-python/services/memory_embedding.py: the embeddings of texts by a remote model.
pub mod Shape
use test_bot.Base.{
  Bool, List, Option, [], false, if◌then◌else◌, int_eq, is_empty, length, list_eq, nat_eq, none,
  not, some, true, ℕ, ◌*◌, ◌++◌, ◌==◌, ◌^◌, ◌||◌, ◌∷◌,
}
use test_bot.Text.{Text, codes, join, rstrip_by, strip}
use test_bot.Value.{Float, Items, Runtime, Value, fin, find_field, get, items}
use test_bot.Env.{Env, env_if_on, env_positive_int, getenv}
use test_bot.Base.Dict.{values}
use test_bot.Base.Int.{pos, ℤ}
use test_bot.Value.{null, bool, int, float, str, arr, dict, nil, cons, end, field}
use test_bot.Services.Ai.{Upstream, ends_with, env_float}

-- `MemoryEmbeddingConfigurationError`, `MemoryEmbeddingUpstreamError`, and the `OverflowError` of
-- an integer that no double is near.
pub data EmbeddingError : Type 0 where
  configuration : Text → EmbeddingError
  upstream_error : Text → EmbeddingError
  overflow : EmbeddingError

pub data Result {ℓ} (A : Type ℓ) : Type ℓ where
  failure : EmbeddingError → Result A
  success : A → Result A

infixl 5 ◌>>=◌
abbrev pub ◌>>=◌ {ℓ κ} : {A : Type ℓ} {B : Type κ} → Result A → (A → Result B) → Result B
failure error >>= next = failure error
success value >>= next = next value

infixl 5 ◌>>◌
abbrev pub ◌>>◌ {κ} : {B : Type κ} → Result (Unit {0}) → Result B → Result B
guards >> rest = guards >>= λ done. rest

-- `if not test: raise MemoryEmbeddingUpstreamError(message)`
abbrev pub check_upstream : Bool → Text → Result (Unit {0})
check_upstream false message = failure (upstream_error message)
check_upstream true message = success tt

abbrev pub Vector : Type 0
Vector = List Float

pub record EmbeddingConfig : Type 0 where
  pub enabled : Bool
  pub base_url : Text
  pub api_key : Text
  pub model : Text
  pub dimensions : ℤ
  pub timeout : Float
  pub batch_size : ℤ

abbrev strip_slashes : Text → Text
strip_slashes = rstrip_by (λ c. c == b'/')

abbrev default_timeout : Float
default_timeout = fin (pos (20 * 2 ^ 1074))

abbrev missing_keys : EmbeddingConfig → List Text
missing_keys c =
    (if is_empty c.base_url then codes "MEMORY_EMBEDDING_BASE_URL" ∷ [] else [])
    ++ (if is_empty c.model then codes "MEMORY_EMBEDDING_MODEL" ∷ [] else [])

-- `config_from_env`
unfoldable pub config_from_env : Runtime → Env → Result EmbeddingConfig
unfolding env_if_on env_positive_int env_float
config_from_env rt env =
    let c : EmbeddingConfig = record {
      enabled = env_if_on env (codes "MEMORY_EMBEDDING_ENABLED") false;
      base_url = strip_slashes (strip (getenv env (codes "MEMORY_EMBEDDING_BASE_URL") []));
      api_key = strip (getenv env (codes "MEMORY_EMBEDDING_API_KEY") []);
      model = strip (getenv env (codes "MEMORY_EMBEDDING_MODEL") []);
      dimensions = env_positive_int env (codes "MEMORY_EMBEDDING_DIMENSIONS") (pos 1536);
      timeout = env_float rt env (codes "MEMORY_EMBEDDING_TIMEOUT") default_timeout;
      batch_size = env_positive_int env (codes "MEMORY_EMBEDDING_BATCH_SIZE") (pos 32);
    } in
    if not c.enabled || is_empty (missing_keys c)
    then success c
    else failure (configuration (codes "missing " ++ join (codes ", ") (missing_keys c)))

-- `embeddings_url`
unfoldable pub embeddings_url : Text → Text
unfolding ends_with
embeddings_url base_url =
    let normalized = strip_slashes (strip base_url) in
    if ends_with normalized (codes "/v1/embeddings")
    then normalized
    else if ends_with normalized (codes "/v1")
    then normalized ++ codes "/embeddings"
    else normalized ++ codes "/v1/embeddings"

abbrev pub length_is : ℤ → ℕ → Bool
length_is n k = n == pos k

abbrev pub count_is : ℕ → ℕ → Bool
count_is expected n = n == expected

-- `float` of an integer is a parameter; `none` is its `OverflowError`.
module _ (float_of_int : ℤ → Option Float) where
  -- One value of an embedding.
  unfoldable pub number : Value → Result Float
  number (float x) = success x
  number (int n) = elim (float_of_int n) [ none ↦ failure overflow | some x ↦ success x ]
  number v = failure (upstream_error (codes "embedding values must be numbers"))

  unfoldable pub numbers : Items → Result Vector
  numbers nil = success []
  numbers (cons v vs) = do x ← number v; xs ← numbers vs; success (x ∷ xs)

  -- The array of an item.
  unfoldable pub array_vector : ℤ → Value → Result Vector
  unfolding int_eq nat_eq numbers
  array_vector dimensions (arr embedding) = do
    check_upstream (length_is dimensions (length (items embedding)))
        (codes "embedding dimension does not match configuration")
    numbers embedding
  array_vector dimensions v =
      failure (upstream_error (codes "embedding response items must contain embedding arrays"))

  -- One item of the data.
  unfoldable pub item_vector : ℤ → Value → Result Vector
  unfolding array_vector find_field
  item_vector dimensions (dict item) = array_vector dimensions (get (codes "embedding") item)
  item_vector dimensions v =
      failure (upstream_error (codes "embedding response items must be objects"))

  unfoldable pub vectors : ℤ → Items → Result (List Vector)
  vectors dimensions nil = success []
  vectors dimensions (cons v vs) = do
    x ← item_vector dimensions v
    xs ← vectors dimensions vs
    success (x ∷ xs)

  -- The data of the response.
  unfoldable pub data_vectors : ℕ → ℤ → Value → Result (List Vector)
  unfolding nat_eq vectors
  data_vectors expected_count dimensions (arr data_items) = do
    check_upstream (count_is expected_count (length (items data_items)))
        (codes "embedding response count does not match input count")
    vectors dimensions data_items
  data_vectors expected_count dimensions v =
      failure (upstream_error (codes "embedding response must contain a data array"))

  -- `_extract_embeddings`
  unfoldable pub extract_embeddings : ℕ → ℤ → Value → Result (List Vector)
  unfolding data_vectors find_field
  extract_embeddings expected_count dimensions (dict payload) =
      data_vectors expected_count dimensions (get (codes "data") payload)
  extract_embeddings expected_count dimensions v =
      failure (upstream_error (codes "embedding response must be an object"))

  abbrev text_items : List Text → Items
  text_items [] = nil
  text_items (t ∷ ts) = cons (str t) (text_items ts)

  -- The request of `embed_texts`.
  abbrev pub post_texts : Upstream → List Text → EmbeddingConfig → Option Value
  post_texts upstream texts c =
      upstream (embeddings_url c.base_url)
        (field (codes "Content-Type") (str (codes "application/json")) (
          if is_empty c.api_key
          then end
          else field (codes "Authorization") (str (codes "Bearer " ++ c.api_key)) end))
        c.timeout
        (field (codes "model") (str c.model) (field (codes "input") (arr (text_items texts)) end))

  -- What is made of the answer; the text of an error of the connection is left empty.
  unfoldable pub read_answer : ℕ → ℤ → Option Value → Result (List Vector)
  unfolding extract_embeddings
  read_answer expected_count dimensions none = failure (upstream_error [])
  read_answer expected_count dimensions (some parsed) =
      extract_embeddings expected_count dimensions parsed

  -- `embed_texts`
  unfoldable pub embed_texts : Upstream → List Text → EmbeddingConfig → Result (List Vector)
  unfolding read_answer
  embed_texts upstream texts c =
      if not c.enabled
      then failure (configuration (codes "MEMORY_EMBEDDING_ENABLED is false"))
      else if is_empty c.base_url || is_empty c.model
      then failure (configuration (codes "embedding config is incomplete"))
      else if is_empty texts
      then success []
      else read_answer (length texts) c.dimensions (post_texts upstream texts c)
