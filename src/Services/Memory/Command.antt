-- ===== src/Services/Memory/Command.antt =====
-- brain-python/services/memory.py: the commands of an administrator.
use test_bot.Value.{Float}
use test_bot.Services.Embedding.{Vector}
use test_bot.Base.{
  Option, [], contains, false, if◌then◌else◌, list_eq, nat_eq, none, true, ◌++◌, ◌==◌, ◌∷◌,
}
use test_bot.Text.{lower, show_nat}
use test_bot.Value.{bool, int}
use test_bot.Env.{Env}
use test_bot.Services.Memory.{archive_memory, get_memory, parse_search_parts}
use test_bot.Services.Memory.Search.{
  lifecycle_counts_response, memory_detail_response, records_response,
}
use test_bot.Services.Memory.Ageing.{
  as_record, confirm_memory, count_active, lifecycle_counts, mark_stale,
}
use test_bot.Services.Memory.Store.{apply_decay, group_memory_enabled}
use test_bot.Base.{Bool, List, is_empty, not, some, ℕ, ◌&&◌}
use test_bot.Text.{Text, codes, int_of, is_digit}
use test_bot.Value.{Fields, end, field, str}
use test_bot.Schemas.{BrainResponse}
use test_bot.Base.Int.{ℤ, pos}
use test_bot.Services.Ai.{Upstream}
use test_bot.Services.Memory.Relevance.{Searches}
use test_bot.Services.Extractor.{Attempt}
use test_bot.Services.Memory.Store.{
  World, Action, after, done, query, on_rows, checked_statement, Decayed,
}
use test_bot.Services.Memory.Search.{Ilike, search, memory_response}
use test_bot.Base.Result.{return}

-- What PostgreSQL, the interpreter, hashlib and the embedding model give to the commands: a column
-- of vectors holds the vector that `as_column` gives, or refuses it; the last two are the texts of a
-- failed connection and of the `OverflowError` of an embedding.
pub record Tools : Type 0 where
  pub searches : Searches
  pub as_column : Vector → Option Vector
  pub exact : ℤ → Option Float
  pub upstream : Upstream
  pub sha256 : Text → Text
  pub connection_error : Text
  pub overflow_error : Text

abbrev all_chars : (ℕ → Bool) → Text → Bool
all_chars p [] = true
all_chars p (c ∷ cs) = p c && all_chars p cs

-- `str.isdigit`, of digits of ASCII.
abbrev pub is_number : Text → Bool
is_number s = not (is_empty s) && all_chars is_digit s

-- `int(s)` of digits.
abbrev pub number : Text → ℕ
number s = elim (int_of s) [ some (pos n) ↦ n | _ ↦ 0 ]

abbrev pub base : Fields → Fields
base rest = field (codes "module") (str (codes "memory")) rest

abbrev pub answer : Text → Fields → BrainResponse
answer text metadata = memory_response text (base metadata)

abbrev pub error_field : Text → Fields
error_field error = field (codes "error") (str error) end

abbrev pub command_field : Text → Fields → Fields
command_field command rest = field (codes "command") (str command) rest

abbrev pub replied_with {ℓ} :
    {A : Type ℓ} → (A → BrainResponse) → Attempt A × World → Attempt BrainResponse × World
replied_with f o = after o (λ a w. (return (f a), w))

abbrev pub group_required : Text → BrainResponse
group_required text = answer text (error_field (codes "group_required"))

abbrev pub yes_no : Bool → Text
yes_no enabled = if enabled then codes "启用" else codes "禁用"

-- `/memory status`
unfoldable pub status_command : Text → Action BrainResponse
unfolding checked_statement count_active group_memory_enabled memory_response show_nat
status_command group_id w =
    after (query (λ tables. count_active group_id tables.rows) w) (λ count w'.
      replied_with
        (λ enabled.
          answer
            (codes "记忆状态：" ++ (yes_no enabled ++ (codes "，当前范围 active memory=" ++ show_nat count)))
            (command_field (codes "status") (
              field (codes "count") (int (pos count))
                (field (codes "enabled") (bool enabled) end))))
        (group_memory_enabled group_id w'))

-- `/memory search` with the arguments that were parsed.
unfoldable pub search_parsed :
    Ilike → Env → Text → Text → Option (Text × Text × Bool) → Action BrainResponse
unfolding search records_response memory_response
search_parsed ilike env group_id user_id none w = (
  return (
      answer
        (codes
          "用法：/memory search <关键词> [--status weak|confirmed|reinforced|stale|contradicted|archived|all]")
        (command_field (codes "search") (error_field (codes "invalid_args")))),
  w,
)
search_parsed ilike env group_id user_id (some (text, status, explicit)) w =
    replied_with
      (λ found. records_response found (codes "搜索结果") (λ count. base (
        command_field (codes "search")
          (field (codes "status") (str status) (field (codes "count") count end)))))
      (search ilike env text group_id user_id (if explicit then status else codes "active") w)

-- `/memory search`
unfoldable pub search_command : Ilike → Env → Text → Text → List Text → Action BrainResponse
unfolding parse_search_parts search_parsed
search_command ilike env group_id user_id parts =
    search_parsed ilike env group_id user_id (parse_search_parts parts)

-- `/memory show`
unfoldable pub show_command : ℕ → Text → Bool → Action BrainResponse
unfolding checked_statement get_memory memory_detail_response memory_response as_record
show_command memory_id group_id allow_global w =
    replied_with
      (λ found. elim found [
        | none ↦
            answer (codes "没有找到记忆。")
              (command_field (codes "show") (field (codes "found") (bool false) end))
        | some r ↦ memory_detail_response (as_record r)
      ])
      (query (λ tables. get_memory memory_id group_id allow_global tables.rows) w)

abbrev pub lifecycle_error : Text → Text → BrainResponse
lifecycle_error text error = answer text (command_field (codes "lifecycle") (error_field error))

abbrev pub changed_response : Text → ℕ → Text → Text → Bool → BrainResponse
changed_response action memory_id good bad changed = answer (if changed then good else bad) (
    command_field (codes "lifecycle") (
      field (codes "action") (str action)
        (field (codes "id") (int (pos memory_id)) (field (codes "changed") (bool changed) end))))

-- `/memory lifecycle confirm|archive|stale <id>`
unfoldable pub change_command : Text → ℕ → Text → Bool → Text → Action BrainResponse
unfolding checked_statement confirm_memory archive_memory mark_stale list_eq nat_eq
change_command action memory_id group_id allow_global actor_id w =
    if action == codes "confirm"
    then replied_with (changed_response action memory_id (codes "已确认。") (codes "没有找到可确认的记忆。"))
        (on_rows (confirm_memory w.clock memory_id group_id allow_global actor_id) w)
    else if action == codes "archive"
    then replied_with (changed_response action memory_id (codes "已归档。") (codes "没有找到可归档的记忆。")) (
        on_rows (archive_memory w.clock.now w.clock.iso memory_id group_id allow_global actor_id) w)
    else replied_with
        (changed_response action memory_id (codes "已标记为 stale。") (codes "没有找到可标记的记忆。"))
        (on_rows (mark_stale w.clock memory_id group_id allow_global actor_id) w)

abbrev pub decay_response : ℕ → Decayed → BrainResponse
decay_response days d =
    answer
      (codes "记忆衰减完成：扫描 "
        ++ (show_nat d.scanned
            ++ (codes " 条，置为 stale "
                ++ (show_nat d.stale ++ (codes " 条，归档 " ++ (show_nat d.archived ++ codes " 条。"))))))
      (command_field (codes "lifecycle") (
        field (codes "action") (str (codes "decay")) (
          field (codes "scanned") (int (pos d.scanned)) (
            field (codes "stale") (int (pos d.stale)) (
              field (codes "archived") (int (pos d.archived))
                (field (codes "days") (int (pos days)) end))))))

-- `/memory lifecycle decay [days]`
unfoldable pub decay_command : Text → ℕ → Action BrainResponse
unfolding apply_decay memory_response show_nat
decay_command group_id days w = replied_with (decay_response days) (apply_decay group_id days w)

abbrev pub first_part : List Text → Text
first_part [] = codes "status"
first_part (part ∷ parts) = lower part

abbrev pub changes_one : Text → Bool
changes_one command = contains (codes "confirm" ∷ codes "archive" ∷ codes "stale" ∷ []) command

-- The argument behind the command, if it is a number.
abbrev pub number_argument : List Text → Option ℕ
number_argument (command ∷ part ∷ parts) = if is_number part then some (number part) else none
number_argument parts = none

abbrev pub has_argument : List Text → Bool
has_argument (command ∷ part ∷ parts) = true
has_argument parts = false

abbrev pub change_with : Text → Text → Bool → Text → Option ℕ → Action BrainResponse
change_with command group_id allow_global actor_id none =
    done (
      lifecycle_error (codes "用法：/memory lifecycle confirm|archive|stale <id>")
        (codes "invalid_id"))
change_with command group_id allow_global actor_id (some memory_id) =
    change_command command memory_id group_id allow_global actor_id

abbrev pub decay_with : Text → Bool → Option ℕ → Action BrainResponse
decay_with group_id given none =
    if given
    then done (lifecycle_error (codes "天数必须是非负整数。") (codes "invalid_days"))
    else decay_command group_id 0
decay_with group_id given (some days) = decay_command group_id days

-- `_handle_lifecycle_command`, for the group, the actor and whether the actor may change global memories.
unfoldable pub handle_lifecycle_command : Text → Text → Bool → List Text → Action BrainResponse
unfolding checked_statement lifecycle_counts lifecycle_counts_response change_command decay_command
    lower list_eq nat_eq int_of memory_response
handle_lifecycle_command group_id actor_id allow_global parts =
    let command = first_part parts in
    if command == codes "status"
    then (λ w.
        replied_with (λ counts. lifecycle_counts_response counts)
          (query (λ tables. lifecycle_counts group_id tables.rows) w))
    else if changes_one command
    then change_with command group_id allow_global actor_id (number_argument parts)
    else if command == codes "decay"
    then decay_with group_id (has_argument parts) (number_argument parts)
    else done (
        lifecycle_error
          (codes "用法：/memory lifecycle status|confirm <id>|archive <id>|stale <id>|decay [days]")
          (codes "unknown_action"))
