-- ===== src/Services/Memory/Admin.antt =====
-- brain-python/services/memory.py: `_handle_admin_command` and who may use it.
use test_bot.Modules.Command.{CommandInvocation}
use test_bot.Base.{
  Bool, List, Option, [], contains, false, if◌then◌else◌, is_empty, leb, list_eq, nat_eq, none, not,
  some, true, ℕ, ◌&&◌, ◌++◌, ◌==◌, ◌||◌, ◌∷◌,
}
use test_bot.Text.{Text, codes, int_of, is_space, join, lower, show_int, show_nat, words_by}
use test_bot.Value.{Runtime, bool, end, field, int, str, string_id}
use test_bot.Env.{Env}
use test_bot.Schemas.{BrainResponse, ChatRequest}
use test_bot.Base.Int.{pos}
use test_bot.Modules.Command.{parse_command_invocation}
use test_bot.Services.Memory.{delete_group, delete_memory, delete_user}
use test_bot.Services.Extractor.{Attempt}
use test_bot.Services.Extractor.Ask.{ExtractionJob, ExtractorConfig, extractor_config_from_env}
use test_bot.Services.Ai.{config}
use test_bot.Services.Memory.Debug.{debug_recall_response}
use test_bot.Services.Memory.Indexing.{handle_embedding_command}
use test_bot.Services.Memory.Command.{
  handle_lifecycle_command, search_command, show_command, status_command,
}
use test_bot.Services.Memory.Search.{list_user, memory_response, records_response}
use test_bot.Services.Memory.Store.{group_memory_enabled, set_group_memory_enabled}
use test_bot.Services.Memory.{is_memory_admin, is_configured_memory_admin}
use test_bot.Services.Memory.Store.{World, Action, after, done, on_rows, checked_statement}
use test_bot.Services.Memory.Command.{
  Tools, number, answer, base, command_field, error_field, replied_with, group_required, is_number,
  yes_no,
}
use test_bot.Services.Memory.Errors.{MemoryError, text_of, is_memory_error}
use test_bot.Base.Result.{raise, return}

-- `/memory user`
unfoldable pub user_command : Env → Text → Text → Action BrainResponse
unfolding list_user records_response memory_response
user_command env group_id user_id =
    if is_empty group_id then done (group_required (codes "只有群聊可以查询用户记忆。")) else (λ w.
      replied_with
        (λ found.
          records_response found (codes "用户 " ++ (user_id ++ codes " 的记忆"))
            (λ count. base (command_field (codes "user") (field (codes "count") count end))))
        (list_user env group_id user_id w))

-- `_extract_limit_arg`: `none` for an argument that is refused, zero for none.
unfoldable pub extract_limit_arg : List Text → Option ℕ
unfolding int_of
extract_limit_arg [] = some 0
extract_limit_arg (part ∷ parts) =
    if is_number part && (leb 10 (number part) && leb (number part) 200)
    then some (number part)
    else none

-- `_memory_extract_job_id`
unfoldable pub memory_extract_job_id : Text → ℕ → Text
unfolding show_nat
memory_extract_job_id group_id limit =
    codes "memory-extract:"
    ++ (group_id ++ (codes ":" ++ (if limit == 0 then codes "default" else show_nat limit)))

abbrev pub extract_error : Text → Text → BrainResponse
extract_error text error = answer text (command_field (codes "extract") (error_field error))

-- The answer to a job that has begun.
abbrev pub queued : ExtractionJob → BrainResponse
queued job =
    let shown =
      if job.limit == 0
      then codes "默认 " ++ show_int job.config.batch_size
      else show_nat job.limit in
    record (answer (codes "记忆抽取已开始，正在处理当前群最近 " ++ (shown ++ codes " 条文本消息。完成后会在群里通知。")) (
      command_field (codes "extract") (
        field (codes "status") (str (codes "queued")) (
          field (codes "job_id") (str job.job_id) (
            field (codes "limit")
              (int (if job.limit == 0 then job.config.batch_size else pos job.limit))
              (field (codes "async") (bool true) end)))))) { job_id = some job.job_id }

-- `_handle_extract_command` for an enabled group: the thread is one more job.
unfoldable pub start_extraction : Text → ℕ → Attempt ExtractorConfig → Action BrainResponse
unfolding memory_response memory_extract_job_id show_int show_nat
start_extraction group_id limit (raise e) w =
    (return (extract_error (codes "记忆抽取配置不可用：" ++ text_of e) (codes "configuration")), w)
start_extraction group_id limit (return config) w =
    let job : ExtractionJob = record {
      group_id = group_id;
      limit = limit;
      config = config;
      job_id = memory_extract_job_id group_id limit;
    } in
    (return (queued job), record w { jobs = w.jobs ++ (job ∷ []) })

-- `_handle_extract_command`
unfoldable pub handle_extract_command : Runtime → Env → Text → ℕ → Action BrainResponse
unfolding group_memory_enabled extractor_config_from_env start_extraction memory_response
handle_extract_command rt env group_id limit w = after (group_memory_enabled group_id w) (λ enabled.
    if enabled
    then start_extraction group_id limit (extractor_config_from_env rt env)
    else done (extract_error (codes "当前群记忆已禁用。") (codes "group_disabled")))

-- `/memory extract` with the limit that was read.
abbrev pub extract_within : Runtime → Env → Text → Option ℕ → Action BrainResponse
extract_within rt env group_id none =
    done (answer (codes "数量必须是 10 到 200 之间的整数。") (error_field (codes "invalid_limit")))
extract_within rt env group_id (some limit) = handle_extract_command rt env group_id limit

-- `/memory extract`
unfoldable pub extract_command : Runtime → Env → Text → List Text → Action BrainResponse
unfolding extract_limit_arg handle_extract_command memory_response
extract_command rt env group_id parts =
    if is_empty group_id
    then done (group_required (codes "只有群聊可以抽取记忆。"))
    else extract_within rt env group_id (extract_limit_arg parts)

-- `/memory forget`
unfoldable pub forget_command : ℕ → Text → Bool → Action BrainResponse
unfolding checked_statement delete_memory memory_response
forget_command memory_id group_id allow_global w =
    replied_with
      (λ deleted_.
        answer (if deleted_ then codes "已删除。" else codes "没有找到可删除的记忆。")
          (command_field (codes "forget") (field (codes "deleted") (bool deleted_) end)))
      (on_rows (delete_memory w.clock.now memory_id group_id allow_global) w)

abbrev pub count_response : Text → Text → Text → ℕ → BrainResponse
count_response command before_count behind_count count =
    answer (before_count ++ (show_nat count ++ behind_count))
      (command_field command (field (codes "count") (int (pos count)) end))

-- `/memory forget-user`
unfoldable pub forget_user_command : Text → Text → Action BrainResponse
unfolding checked_statement delete_user memory_response show_nat
forget_user_command group_id user_id =
    if is_empty group_id then done (group_required (codes "只有群聊可以删除用户记忆。")) else (λ w.
      replied_with (count_response (codes "forget-user") (codes "已删除 ") (codes " 条用户记忆。"))
        (on_rows (delete_user w.clock.now group_id user_id) w))

-- `/memory forget-group`
unfoldable pub forget_group_command : Text → Action BrainResponse
unfolding checked_statement delete_group memory_response show_nat
forget_group_command group_id =
    if is_empty group_id then done (group_required (codes "只有群聊可以删除群记忆。")) else (λ w.
      replied_with (count_response (codes "forget-group") (codes "已删除 ") (codes " 条群记忆。"))
        (on_rows (delete_group w.clock.now group_id) w))

-- `/memory enable` and `/memory disable`
unfoldable pub enable_command : Text → Text → Action BrainResponse
unfolding set_group_memory_enabled memory_response list_eq nat_eq
enable_command command group_id =
    let enabled = command == codes "enable" in
    if is_empty group_id then done (group_required (codes "只有群聊可以启用或禁用群记忆。")) else (λ w.
      replied_with
        (λ set.
          answer (codes "群记忆已" ++ (yes_no enabled ++ codes "。"))
            (command_field command (field (codes "enabled") (bool enabled) end)))
        (set_group_memory_enabled group_id enabled w))

abbrev pub help_text : Text
help_text =
    codes
      "记忆命令：/memory status | show <id> | search <关键词> [--status ...] | user <QQ> | lifecycle status|confirm|archive|stale|decay | debug recall <文本> | embedding status|index [数量] | extract [数量] | forget <id> | forget-user <QQ> | forget-group | enable | disable"

abbrev pub help : BrainResponse
help = answer help_text (command_field (codes "help") end)

abbrev pub asks_recall : List Text → Bool
asks_recall (word ∷ more ∷ rest) = lower word == codes "recall"
asks_recall words = false

abbrev pub changes_or_decays : Text → Bool
changes_or_decays command =
    contains (codes "confirm" ∷ codes "archive" ∷ codes "stale" ∷ codes "decay" ∷ []) command

abbrev pub tail : List Text → List Text
tail [] = []
tail (part ∷ parts) = parts

abbrev pub no_permission : BrainResponse
no_permission = answer (codes "需要管理员权限。") (error_field (codes "permission_denied"))

module _ (rt : Runtime) (env : Env) (tools : Tools) where
  -- The commands with one argument, or the help.
  unfoldable pub with_argument : ChatRequest → Text → Text → Action BrainResponse
  unfolding show_command user_command forget_command forget_user_command list_eq nat_eq int_of
      is_configured_memory_admin memory_response
  with_argument request command part =
      let group_id = string_id request.group_id in
      if command == codes "show" && is_number part
      then show_command (number part) group_id (is_configured_memory_admin env request)
      else if command == codes "user"
      then user_command env group_id part
      else if command == codes "forget" && is_number part
      then forget_command (number part) group_id (is_configured_memory_admin env request)
      else if command == codes "forget-user"
      then forget_user_command group_id part
      else done help

  abbrev pub with_arguments : ChatRequest → Text → List Text → Action BrainResponse
  with_arguments request command [] = done help
  with_arguments request command (part ∷ parts) = with_argument request command part

  -- `_handle_admin_command` behind the split: the command in lower case, its arguments, and all parts.
  unfoldable pub dispatch : ChatRequest → Text → List Text → List Text → Action BrainResponse
  unfolding debug_recall_response handle_embedding_command status_command search_command
      handle_lifecycle_command extract_command forget_group_command enable_command with_argument
      list_eq nat_eq is_configured_memory_admin memory_response
  dispatch request command arguments parts =
      let group_id = string_id request.group_id in
      let user_id = string_id request.user_id in
      let allow_global = is_configured_memory_admin env request in
      if command == codes "status"
      then status_command group_id
      else if command == codes "search" && not (is_empty arguments)
      then search_command tools.searches.ilike env group_id user_id arguments
      else if command == codes "debug" && asks_recall arguments
      then debug_recall_response rt env tools request (join (codes " ") (tail arguments))
      else if command == codes "embedding"
      then handle_embedding_command rt env tools request arguments
      else if command == codes "lifecycle"
      then handle_lifecycle_command group_id user_id allow_global arguments
      else if changes_or_decays command
      then handle_lifecycle_command group_id user_id allow_global parts
      else if command == codes "extract"
      then extract_command rt env group_id arguments
      else if command == codes "forget-group"
      then forget_group_command group_id
      else if command == codes "enable" || command == codes "disable"
      then enable_command command group_id
      else with_arguments request command arguments

  abbrev pub dispatch_parts : ChatRequest → List Text → Action BrainResponse
  dispatch_parts request [] = dispatch request (codes "status") [] []
  dispatch_parts request (part ∷ parts) = dispatch request (lower part) parts (part ∷ parts)

  -- `_handle_admin_command`
  unfoldable pub handle_admin_command : ChatRequest → Text → Action BrainResponse
  unfolding words_by is_space lower dispatch
  handle_admin_command request argument = dispatch_parts request (words_by is_space argument)

  abbrev pub failure : MemoryError → Attempt BrainResponse
  failure e =
      if is_memory_error e
      then return
          (answer (codes "记忆模块不可用：" ++ text_of e) (error_field (codes "memory_unavailable")))
      else raise e

  abbrev mapped : Attempt BrainResponse → Attempt (Option BrainResponse)
  mapped (raise e) = raise e
  mapped (return r) = return (some r)

  abbrev pub caught : Attempt BrainResponse × World → Attempt (Option BrainResponse) × World
  caught (raise e, w) = (mapped (failure e), w)
  caught (return r, w) = (return (some r), w)

  -- `handle_memory_command` behind the test of the permission, with the configured address.
  abbrev pub with_store : ChatRequest → Text → Option Text → Action (Option BrainResponse)
  with_store request argument none w = (
    return (
        some
          (answer (codes "记忆数据库未配置 DATABASE_URL。") (error_field (codes "missing_database_url")))),
    w,
  )
  with_store request argument (some url) w = caught (handle_admin_command request argument w)

  -- `handle_memory_command` of a text that was parsed.
  unfoldable pub with_invocation :
      ChatRequest → Option CommandInvocation → Action (Option BrainResponse)
  unfolding is_memory_admin handle_admin_command memory_response
  with_invocation request none w = (return none, w)
  with_invocation request (some invocation) w =
      if not (is_memory_admin env request)
      then (return (some no_permission), w)
      else with_store request invocation.argument w.database_url w

  -- `handle_memory_command`
  unfoldable pub handle_memory_command : ChatRequest → Text → Action (Option BrainResponse)
  unfolding parse_command_invocation with_invocation
  handle_memory_command request text =
      with_invocation request (parse_command_invocation env text (codes "memory" ∷ codes "记忆" ∷ []))
