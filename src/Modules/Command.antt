-- ===== src/Modules/Command.antt =====
-- brain-python/modules/base.py: contexts and the parsing of command texts.
pub mod Sound
use test_bot.Base.{ℕ, Bool, true, false, ◌||◌, Option, none, some, List, [], ◌∷◌, map}
use test_bot.Base.{◌==◌, nat_eq, list_eq, contains, if◌then◌else◌, is_empty, length, drop}
use test_bot.Text.{Text, codes, strip, strip_by, is_space, lower, starts_with, words_by, partition}
use test_bot.Env.{Env, getenv, is_separator}

pub record ModuleContext : Type 0 where
  pub group_id : Text
  pub user_id : Text
  pub message_type : Text

pub record CommandInvocation : Type 0 where
  pub prefix : Text
  pub name : Text
  pub argument : Text

-- `ModuleContext()`
abbrev pub empty_context : ModuleContext
empty_context = record { group_id = []; user_id = []; message_type = [] }

abbrev pub default_command_prefixes : List Text
default_command_prefixes = codes "/" ∷ codes "." ∷ []

-- `xs or ys` for tuples.
abbrev pub or_list {ℓ} : {A : Type ℓ} → List A → List A → List A
or_list [] ys = ys
or_list (x ∷ xs) ys = x ∷ xs

unfoldable pub command_prefixes : Env → List Text
unfolding strip_by is_space words_by
command_prefixes env =
    let raw = getenv env (codes "BRAIN_COMMAND_PREFIXES") [] in
    if is_empty (strip raw)
    then default_command_prefixes
    else or_list (map strip (words_by is_separator raw)) default_command_prefixes

-- The loop of `parse_command_invocation` over the prefixes.
unfoldable pub find_invocation : List Text → Text → List Text → Option CommandInvocation
unfolding strip_by is_space lower starts_with partition list_eq nat_eq
find_invocation [] stripped aliases = none
find_invocation (prefix ∷ prefixes) stripped aliases =
    let rest = find_invocation prefixes stripped aliases in
    let parts = partition b' ' (drop (length prefix) stripped) in
    let name = lower (strip parts.before) in
    if starts_with stripped prefix
    then (if contains aliases name
        then some (record { prefix = prefix; name = name; argument = strip parts.after })
        else rest)
    else rest

unfoldable pub parse_command_invocation : Env → Text → List Text → Option CommandInvocation
unfolding find_invocation command_prefixes strip_by is_space lower
parse_command_invocation env text aliases =
    let stripped = strip text in
    if is_empty stripped
    then none
    else find_invocation (command_prefixes env) stripped (map lower aliases)
