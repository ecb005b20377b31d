-- ===== src/Services/Memory/Restricted.antt =====
-- brain-python/services/memory.py: an administrator of a group is restricted to the group.
use test_bot.Services.Memory.Guarded.{either-Spares}
use test_bot.Services.Memory.Harmless.{debug_recall_response-Spares}
use test_bot.Services.Memory.Unharmed.{handle_embedding_command-Spares}
use test_bot.Base.{Option, none, some}
use test_bot.Schemas.{BrainResponse}
use test_bot.Modules.Command.{CommandInvocation, parse_command_invocation}
use test_bot.Services.Extractor.{Attempt}
use test_bot.Services.Memory.Admin.{caught, with_invocation, with_store}
use test_bot.Base.{List, [], false, is_empty, list_eq, nat_eq, not, ◌&&◌, ◌==◌, ◌||◌, ◌∷◌, ◌≡◌, ◌≢◌}
use test_bot.Text.{Text, codes, is_space, lower, words_by}
use test_bot.Value.{Runtime, string_id}
use test_bot.Env.{Env}
use test_bot.Schemas.{ChatRequest}
use test_bot.Services.Memory.Command.{is_number}
use test_bot.Services.Memory.Admin.{asks_recall, changes_or_decays, dispatch_parts, with_arguments}
use test_bot.Services.Memory.Guarded.{
  Guards, enable_command-Guards, extract_command-Guards, forget_command-Guards,
  forget_group_command-Guards, forget_user_command-Guards, handle_lifecycle_command-Guards,
  if-Guards, search_command-Guards, show_command-Guards, status_command-Guards, user_command-Guards,
}
use test_bot.Services.Memory.{is_configured_memory_admin, is_memory_admin}
use test_bot.Services.Memory.Inside.{Outside, Spares, SparesTables, UniqueIds}
use test_bot.Services.Memory.Store.{World}
use test_bot.Services.Memory.Command.{number, Tools, handle_lifecycle_command}
use test_bot.Services.Memory.Admin.{
  handle_admin_command, handle_memory_command, dispatch, with_argument,
}
use test_bot.Base.Result.{raise, return}

module _ (rt : Runtime) (env : Env) (tools : Tools) (request : ChatRequest)
    (named : string_id request.group_id ≢ [])
    (plain : is_configured_memory_admin env request ≡ false) where
  abbrev group : Text
  group = string_id request.group_id

  with_argument-Guards :
      (command part : Text) → Guards group named (with_argument rt env tools request command part)
  unfolding with_argument
  with_argument-Guards command part =
      if-Guards group named (command == codes "show" && is_number part) _ _
        (show_command-Guards group named (number part) _)
        (if-Guards group named (command == codes "user") _ _
          (user_command-Guards group named env part)
          (if-Guards group named (command == codes "forget" && is_number part) _ _
            (rw plain (forget_command-Guards group named (number part)))
            (if-Guards group named (command == codes "forget-user") _ _
              (forget_user_command-Guards group named part) (λ w unique r out m. m))))

  with_arguments-Guards :
      (command : Text) (parts : List Text)
      → Guards group named (with_arguments rt env tools request command parts)
  with_arguments-Guards command [] w unique = λ r out m. m
  with_arguments-Guards command (part ∷ parts) w unique = with_argument-Guards command part w unique

  dispatch-Guards :
      (command : Text) (arguments parts : List Text)
      → Guards group named (dispatch rt env tools request command arguments parts)
  unfolding dispatch
  dispatch-Guards command arguments parts =
      if-Guards group named (command == codes "status") _ _ (status_command-Guards group named) (
        if-Guards group named (command == codes "search" && not (is_empty arguments)) _ _
          (search_command-Guards group named tools.searches.ilike env (string_id request.user_id)
            arguments)
          (if-Guards group named (command == codes "debug" && asks_recall arguments) _ _
            (λ w unique. debug_recall_response-Spares (Outside group) rt env tools request _ w)
            (if-Guards group named (command == codes "embedding") _ _
              (λ w unique.
                handle_embedding_command-Spares (Outside group) rt env tools request arguments w)
              (if-Guards group named (command == codes "lifecycle") _ _ (lifecycle arguments) (
                if-Guards group named (changes_or_decays command) _ _ (lifecycle parts) (
                  if-Guards group named (command == codes "extract") _ _
                    (extract_command-Guards group named rt env arguments)
                    (if-Guards group named (command == codes "forget-group") _ _
                      (forget_group_command-Guards group named)
                      (if-Guards group named
                        (command == codes "enable" || command == codes "disable") _ _
                        (enable_command-Guards group named command)
                        (with_arguments-Guards command arguments)))))))))
    where
      lifecycle :
          (words : List Text)
          → Guards group named (
              handle_lifecycle_command group
                (string_id request.user_id)
                (is_configured_memory_admin env request)
                words)
      lifecycle words =
          rw plain (handle_lifecycle_command-Guards group named (string_id request.user_id) words)

  dispatch_parts-Guards :
      (parts : List Text) → Guards group named (dispatch_parts rt env tools request parts)
  dispatch_parts-Guards [] = dispatch-Guards (codes "status") [] []
  dispatch_parts-Guards (part ∷ parts) = dispatch-Guards (lower part) parts (part ∷ parts)

  handle_admin_command-Guards :
      (argument : Text) → Guards group named (handle_admin_command rt env tools request argument)
  unfolding handle_admin_command
  handle_admin_command-Guards argument = dispatch_parts-Guards (words_by is_space argument)

  caught-Spares :
      (w : World) (o : Attempt BrainResponse × World)
      → SparesTables (Outside group) w.tables o.1.tables
      → SparesTables (Outside group) w.tables (caught rt env tools o).1.tables
  caught-Spares w (raise e, w') h = h
  caught-Spares w (return r, w') h = h

  with_store-Guards :
      (argument : Text) (url : Option Text)
      → Guards group named (with_store rt env tools request argument url)
  with_store-Guards argument none w unique = λ r out m. m
  with_store-Guards argument (some url) w unique =
      caught-Spares w (handle_admin_command rt env tools request argument w)
        (handle_admin_command-Guards argument w unique)

  with_invocation-Guards :
      (invocation : Option CommandInvocation)
      → Guards group named (with_invocation rt env tools request invocation)
  unfolding with_invocation
  with_invocation-Guards none w unique = λ r out m. m
  with_invocation-Guards (some invocation) w unique =
      either-Spares group named (not (is_memory_admin env request)) w _ _ (λ r out m. m)
        (with_store-Guards invocation.argument w.database_url w unique)

-- With any message in a group, whoever is no configured administrator of the memories leaves every
-- memory that is neither of that group nor global as it was, whichever statements of the database
-- fail. (The tables have unique ids.)
pub handle_memory_command-Restricted :
    (rt : Runtime) (env : Env) (tools : Tools) (request : ChatRequest) (text : Text) (w : World)
    → (named : string_id request.group_id ≢ []) → is_configured_memory_admin env request ≡ false
    → UniqueIds w.tables.rows
    → Spares
        (Outside (string_id request.group_id))
        w.tables.rows
        (handle_memory_command rt env tools request text w).1.tables.rows
unfolding handle_memory_command
handle_memory_command-Restricted rt env tools request text w named plain unique =
    with_invocation-Guards rt env tools request named plain
      (parse_command_invocation env text (codes "memory" ∷ codes "记忆" ∷ [])) w unique
