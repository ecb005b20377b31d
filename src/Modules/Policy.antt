-- ===== src/Modules/Policy.antt =====
-- The group policy of brain-python/modules/registry.py: allow and block lists by module.
pub mod Exact
use test_bot.Base.{ℕ, ◌-◌, Bool, true, false, not, ◌&&◌, ◌||◌, List, [], ◌∷◌, ◌++◌}
use test_bot.Base.{◌==◌, nat_eq, list_eq, contains, if◌then◌else◌, is_empty, leb}
use test_bot.Text.{Text, codes, strip, strip_by, is_space}
use test_bot.Env.{Env, getenv, id_set}
use test_bot.Modules.Command.{ModuleContext}

-- `str.upper` of one character. The letters of ASCII, and every letter outside ASCII whose upper
-- case holds an ASCII letter; other letters are kept.
unfoldable pub upper_char : ℕ → Text
upper_char c =
    if leb b'a' c && leb c b'z'
    then (c - 32) ∷ []
    else if c == 0xdf
    then codes "SS"
    else if c == 0x131
    then codes "I"
    else if c == 0x17f
    then codes "S"
    else if c == 0x149
    then 0x2bc ∷ b'N' ∷ []
    else if c == 0x1f0
    then b'J' ∷ 0x30c ∷ []
    else if c == 0x1e96
    then b'H' ∷ 0x331 ∷ []
    else if c == 0x1e97
    then b'T' ∷ 0x308 ∷ []
    else if c == 0x1e98
    then b'W' ∷ 0x30a ∷ []
    else if c == 0x1e99
    then b'Y' ∷ 0x30a ∷ []
    else if c == 0x1e9a
    then b'A' ∷ 0x2be ∷ []
    else if c == 0xfb00
    then codes "FF"
    else if c == 0xfb01
    then codes "FI"
    else if c == 0xfb02
    then codes "FL"
    else if c == 0xfb03
    then codes "FFI"
    else if c == 0xfb04
    then codes "FFL"
    else if c == 0xfb05 || c == 0xfb06
    then codes "ST"
    else c ∷ []

unfoldable pub upper : Text → Text
unfolding upper_char nat_eq
upper [] = []
upper (c ∷ cs) = upper_char c ++ upper cs

-- `[^A-Z0-9]`
abbrev pub is_other : ℕ → Bool
is_other c = not (leb b'A' c && leb c b'Z' || leb b'0' c && leb c b'9')

abbrev pub is_underscore : ℕ → Bool
is_underscore c = c == b'_'

abbrev begins_other : Text → Bool
begins_other [] = false
begins_other (c ∷ cs) = is_other c

-- `re.sub(r"[^A-Z0-9]+", "_", s)`: one underscore for each run.
unfoldable pub underscore_runs : Text → Text
underscore_runs [] = []
underscore_runs (c ∷ cs) =
    let rest = underscore_runs cs in
    if is_other c then (if begins_other cs then rest else b'_' ∷ rest) else c ∷ rest

-- `_env_module_name`
unfoldable pub env_module_name : Text → Text
unfolding upper underscore_runs strip_by nat_eq
env_module_name name = strip_by is_underscore (underscore_runs (upper name))

-- `_group_set`
unfoldable pub group_set : Env → List Text → List Text
unfolding id_set
group_set env [] = []
group_set env (key ∷ keys) = id_set (getenv env key []) ++ group_set env keys

abbrev pub blocklist_keys : Text → List Text
blocklist_keys name =
    (codes "BRAIN_MODULE_" ++ (name ++ codes "_GROUP_BLOCKLIST"))
    ∷ (name ++ codes "_GROUP_BLOCKLIST")
    ∷ codes "BRAIN_GROUP_BLOCKLIST"
    ∷ []

abbrev pub allowlist_keys : Text → List Text
allowlist_keys name =
    (codes "BRAIN_MODULE_" ++ (name ++ codes "_GROUP_ALLOWLIST"))
    ∷ (name ++ codes "_GROUP_ALLOWLIST")
    ∷ codes "BRAIN_GROUP_ALLOWLIST"
    ∷ []

-- The tests of a policy on the two lists, as `_module_group_allowed` and the AI runtime make them.
unfoldable pub lists_allow : List Text → List Text → ModuleContext → Bool
unfolding list_eq nat_eq strip_by is_space
lists_allow blocklist allowlist context =
    let group_id = strip context.group_id in
    if not (context.message_type == codes "group") && is_empty group_id
    then true
    else if not (is_empty group_id) && contains blocklist group_id
    then false
    else if not (is_empty allowlist) && not (contains allowlist group_id)
    then false
    else true

-- `_module_group_allowed`
unfoldable pub module_group_allowed : Env → Text → ModuleContext → Bool
unfolding env_module_name group_set lists_allow
module_group_allowed env module_name context =
    let normalized = env_module_name module_name in
    lists_allow (group_set env (blocklist_keys normalized))
      (group_set env (allowlist_keys normalized)) context
