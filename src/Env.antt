-- ===== src/Env.antt =====
-- Environment variables, and the readers of them that the modules declare.
use test_bot.Base.{ℕ, Bool, not, ◌||◌, Option, none, some, List, [], ◌∷◌}
use test_bot.Base.{◌==◌, nat_eq, list_eq, contains, if◌then◌else◌, is_empty, All}
use test_bot.Base.Int.{ℤ, pos, leb_int}
use test_bot.Text.{
  Text, codes, strip, strip_by, is_space, lower, words_by, IsWord, words_by-IsWord, int_of,
}

abbrev pub Env : Type 0
Env = Text → Option Text

-- `os.getenv(key, default)`
abbrev pub getenv : Env → Text → Text → Text
getenv env key default = elim (env key) [ none ↦ default | some value ↦ value ]

-- `[\s,;]`
abbrev pub is_separator : ℕ → Bool
is_separator c = is_space c || (c == b',' || c == b';')

-- `{part for part in re.split(r"[\s,;]+", raw.strip()) if part}`; the order is that of the text.
unfoldable pub id_set : Text → List Text
unfolding words_by strip_by is_space
id_set raw = words_by is_separator (strip raw)

-- Every id of a set is a nonempty text without separators.
pub id_set-IsWord : (raw : Text) → All (IsWord is_separator) (id_set raw)
unfolding id_set
id_set-IsWord raw = words_by-IsWord is_separator (strip raw)

-- `_env_bool` of services/memory.py and services/memory_extractor.py.
unfoldable pub env_unless_off : Env → Text → Bool → Bool
unfolding lower strip_by is_space list_eq nat_eq
env_unless_off env key default =
    let raw = lower (strip (getenv env key [])) in
    if is_empty raw
    then default
    else not (contains (codes "0" ∷ codes "false" ∷ codes "no" ∷ codes "off" ∷ []) raw)

-- `_env_bool` of services/ai_runtime.py and services/memory_embedding.py.
unfoldable pub env_if_on : Env → Text → Bool → Bool
unfolding lower strip_by is_space list_eq nat_eq
env_if_on env key default =
    let raw = lower (strip (getenv env key [])) in
    if is_empty raw
    then default
    else contains (codes "1" ∷ codes "true" ∷ codes "yes" ∷ codes "on" ∷ []) raw

-- `_env_int` of services/memory.py and services/memory_extractor.py.
unfoldable pub env_int : Env → Text → ℤ → ℤ
unfolding int_of strip_by is_space
env_int env key default =
    let raw = strip (getenv env key []) in
    if is_empty raw then default else elim (int_of raw) [ none ↦ default | some n ↦ n ]

-- `_env_int` of services/ai_runtime.py and services/memory_embedding.py.
unfoldable pub env_positive_int : Env → Text → ℤ → ℤ
unfolding int_of strip_by is_space
env_positive_int env key default =
    let raw = strip (getenv env key []) in
    if is_empty raw
    then default
    else elim (int_of raw) [ none ↦ default | some n ↦ if leb_int n (pos 0) then default else n ]

-- `_env_first`
unfoldable pub env_first : Env → List Text → Text
unfolding strip_by is_space
env_first env [] = []
env_first env (key ∷ keys) =
    let value = strip (getenv env key []) in if is_empty value then env_first env keys else value
