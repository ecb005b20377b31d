-- ===== src/Services/Memory/Guarded.antt =====
-- brain-python/services/memory.py: what the commands of a group's administrator leave alone.
use test_bot.Services.Memory.Command.{search_parsed}
use test_bot.Services.Extractor.Ask.{extractor_config_from_env}
use test_bot.Services.Memory.Command.{
  change_with, changes_one, decay_with, first_part, has_argument, number_argument,
}
use test_bot.Services.Memory.Admin.{extract_limit_arg, extract_within}
use test_bot.Services.Memory.Ageing.{lifecycle_counts}
use test_bot.Base.{List}
use test_bot.Value.{Runtime}
use test_bot.Env.{Env}
use test_bot.Services.Memory.{
  delete_group, delete_memory, delete_user, get_memory, parse_search_parts,
}
use test_bot.Services.Extractor.Ask.{ExtractorConfig}
use test_bot.Services.Ai.{config}
use test_bot.Services.Memory.Admin.{
  enable_command, extract_command, forget_command, forget_group_command, forget_user_command,
  handle_extract_command, start_extraction, user_command,
}
use test_bot.Services.Memory.Search.{Ilike, list_user, search}
use test_bot.Services.Memory.Inside.{
  checked_statement-Spares, delete_group-Spares, delete_memory-Spares, delete_user-Spares,
  done-Spares, if-Spares,
}
use test_bot.Services.Memory.Store.{set_group_memory_enabled}
use test_bot.Base.{Option, is_empty, list_eq, nat_eq, none, some, ◌==◌}
use test_bot.Text.{codes}
use test_bot.Services.Memory.{archive_memory}
use test_bot.Services.Memory.Command.{decay_response}
use test_bot.Services.Memory.Ageing.{confirm_memory, count_active, mark_stale}
use test_bot.Services.Memory.Inside.{
  archive_memory-Spares, confirm_memory-Spares, mark_stale-Spares, on_rows-Spares, query-Spares,
}
use test_bot.Services.Memory.Store.{enabled_at, setting_of}
use test_bot.Base.{Bool, [], false, if◌then◌else◌, true, ℕ, ◌≢◌}
use test_bot.Text.{Text}
use test_bot.Schemas.{BrainResponse}
use test_bot.Services.Extractor.{Attempt}
use test_bot.Services.Memory.Command.{replied_with}
use test_bot.Services.Memory.Inside.{SparesBy, after-Spares}
use test_bot.Services.Memory.Decaying.{apply_decay-Spares}
use test_bot.Services.Memory.Store.{group_memory_enabled}
use test_bot.Services.Memory.Inside.{Outside, SparesTables, UniqueIds}
use test_bot.Services.Memory.Store.{World, Action, query, done, apply_decay, on_rows}
use test_bot.Services.Memory.Command.{
  status_command, search_command, show_command, change_command, decay_command,
  handle_lifecycle_command,
}
use test_bot.Base.Result.{raise, return}

module _ (group_id : Text) (named : group_id ≢ []) where
  -- An action on tables with unique ids leaves the rows outside of the group.
  abbrev pub Guards {ℓ} : {A : Type ℓ} → Action A → Type 0
  Guards act =
      (w : World)
      → UniqueIds w.tables.rows
      → SparesTables (Outside group_id) w.tables (act w).1.tables

  module _ {ℓ} {A : Type ℓ} where
    guards : (act : Action A) → SparesBy (Outside group_id) act → Guards act
    guards act h w unique = h w

    pub if-Guards :
        (test : Bool) (yes_ no_ : Action A)
        → Guards yes_
        → Guards no_
        → Guards (if test then yes_ else no_)
    if-Guards true yes_ no_ h k = h
    if-Guards false yes_ no_ h k = k

    pub done-Guards : (a : A) → Guards (done a)
    done-Guards a w unique = λ r out m. m

  pub replied-Spares :
      {A : Type 0} (f : A → BrainResponse) (w : World) (o : Attempt A × World)
      → SparesTables (Outside group_id) w.tables o.1.tables
      → SparesTables (Outside group_id) w.tables (replied_with f o).1.tables
  replied-Spares f w o h =
      after-Spares (Outside group_id) w o (λ a w. (return (f a), w)) h (λ a w'. λ r out m. m)

  pub either-Spares :
      {A : Type 0} (test : Bool) (w : World) (x y : Attempt A × World)
      → SparesTables (Outside group_id) w.tables x.1.tables
      → SparesTables (Outside group_id) w.tables y.1.tables
      → SparesTables (Outside group_id) w.tables (if test then x else y).1.tables
  either-Spares true w x y h k = h
  either-Spares false w x y h k = k

  enabled_at-Spares : (url : Option Text) → SparesBy (Outside group_id) (enabled_at url group_id)
  enabled_at-Spares none = done-Spares (Outside group_id) true
  enabled_at-Spares (some url) =
      if-Spares (Outside group_id) (is_empty group_id) _ _ (done-Spares (Outside group_id) true)
        (query-Spares (Outside group_id) (setting_of group_id))

  group_memory_enabled-Spares : SparesBy (Outside group_id) (group_memory_enabled group_id)
  unfolding group_memory_enabled
  group_memory_enabled-Spares w = enabled_at-Spares w.database_url w

  pub change_command-Guards :
      (action : Text) (memory_id : ℕ) (actor_id : Text)
      → Guards (change_command action memory_id group_id false actor_id)
  unfolding change_command
  change_command-Guards action memory_id actor_id w unique =
      either-Spares (action == codes "confirm") w _ _
        (replied-Spares _ w (on_rows (confirm_memory w.clock memory_id group_id false actor_id) w) (
          on_rows-Spares (Outside group_id) _ w
            (confirm_memory-Spares group_id w.clock memory_id actor_id w.tables.rows)))
        (either-Spares (action == codes "archive") w _ _
          (replied-Spares _ w
            (on_rows (archive_memory w.clock.now w.clock.iso memory_id group_id false actor_id) w)
            (on_rows-Spares (Outside group_id) _ w (
              archive_memory-Spares group_id w.clock.now memory_id w.clock.iso actor_id
                w.tables.rows)))
          (replied-Spares _ w (on_rows (mark_stale w.clock memory_id group_id false actor_id) w) (
            on_rows-Spares (Outside group_id) _ w
              (mark_stale-Spares group_id w.clock memory_id actor_id w.tables.rows))))

  pub decay_command-Guards : (days : ℕ) → Guards (decay_command group_id days)
  unfolding decay_command
  decay_command-Guards days w unique =
      replied-Spares (decay_response days) w (apply_decay group_id days w)
        (apply_decay-Spares group_id named days w unique)

  pub status_command-Guards : Guards (status_command group_id)
  unfolding status_command
  status_command-Guards w unique =
      after-Spares (Outside group_id) w (query (λ tables. count_active group_id tables.rows) w) _
        (query-Spares (Outside group_id) (λ tables. count_active group_id tables.rows) w)
        (λ count w'.
          replied-Spares _ w' (group_memory_enabled group_id w') (group_memory_enabled-Spares w'))

  pub search_parsed-Guards :
      (ilike : Ilike) (env : Env) (user_id : Text) (parsed : Option (Text × Text × Bool))
      → Guards (search_parsed ilike env group_id user_id parsed)
  unfolding search_parsed search
  search_parsed-Guards ilike env user_id none w unique = λ r out m. m
  search_parsed-Guards ilike env user_id (some (text, status, explicit)) w unique =
      replied-Spares _ w
        (search ilike env text group_id user_id (if explicit then status else codes "active") w)
        (query-Spares (Outside group_id) _ w)

  pub search_command-Guards :
      (ilike : Ilike) (env : Env) (user_id : Text) (parts : List Text)
      → Guards (search_command ilike env group_id user_id parts)
  unfolding search_command
  search_command-Guards ilike env user_id parts =
      search_parsed-Guards ilike env user_id (parse_search_parts parts)

  pub show_command-Guards :
      (memory_id : ℕ) (allow_global : Bool) → Guards (show_command memory_id group_id allow_global)
  unfolding show_command
  show_command-Guards memory_id allow_global w unique =
      replied-Spares _ w
        (query (λ tables. get_memory memory_id group_id allow_global tables.rows) w)
        (query-Spares (Outside group_id)
          (λ tables. get_memory memory_id group_id allow_global tables.rows) w)

  pub user_command-Guards :
      (env : Env) (user_id : Text) → Guards (user_command env group_id user_id)
  unfolding user_command list_user
  user_command-Guards env user_id =
      if-Guards (is_empty group_id) _ _ (λ w unique r out m. m)
        (λ w unique.
          replied-Spares _ w (list_user env group_id user_id w)
            (query-Spares (Outside group_id) _ w))

  pub forget_command-Guards : (memory_id : ℕ) → Guards (forget_command memory_id group_id false)
  unfolding forget_command
  forget_command-Guards memory_id w unique =
      replied-Spares _ w (on_rows (delete_memory w.clock.now memory_id group_id false) w) (
        on_rows-Spares (Outside group_id) _ w
          (delete_memory-Spares group_id w.clock.now memory_id w.tables.rows))

  pub forget_user_command-Guards : (user_id : Text) → Guards (forget_user_command group_id user_id)
  unfolding forget_user_command
  forget_user_command-Guards user_id =
      if-Guards (is_empty group_id) _ _ (λ w unique r out m. m)
        (λ w unique. replied-Spares _ w (on_rows (delete_user w.clock.now group_id user_id) w) (
          on_rows-Spares (Outside group_id) _ w
            (delete_user-Spares group_id w.clock.now user_id w.tables.rows)))

  pub forget_group_command-Guards : Guards (forget_group_command group_id)
  unfolding forget_group_command
  forget_group_command-Guards =
      if-Guards (is_empty group_id) _ _ (λ w unique r out m. m)
        (λ w unique. replied-Spares _ w (on_rows (delete_group w.clock.now group_id) w) (
          on_rows-Spares (Outside group_id) _ w
            (delete_group-Spares group_id w.clock.now w.tables.rows)))

  pub enable_command-Guards : (command : Text) → Guards (enable_command command group_id)
  unfolding enable_command set_group_memory_enabled
  enable_command-Guards command =
      if-Guards (is_empty group_id) _ _ (λ w unique r out m. m)
        (λ w unique.
          replied-Spares _ w (set_group_memory_enabled group_id (command == codes "enable") w)
            (checked_statement-Spares (Outside group_id) _ w (λ r out m. m)))

  start_extraction-Spares :
      (limit : ℕ) (config : Attempt ExtractorConfig)
      → SparesBy (Outside group_id) (start_extraction group_id limit config)
  unfolding start_extraction
  start_extraction-Spares limit (raise e) w = λ r out m. m
  start_extraction-Spares limit (return config) w = λ r out m. m

  handle_extract_command-Spares :
      (rt : Runtime) (env : Env) (limit : ℕ)
      → SparesBy (Outside group_id) (handle_extract_command rt env group_id limit)
  unfolding handle_extract_command
  handle_extract_command-Spares rt env limit w =
      after-Spares (Outside group_id) w (group_memory_enabled group_id w) _
        (group_memory_enabled-Spares w)
        (λ enabled.
          if-Spares (Outside group_id) enabled _ _
            (start_extraction-Spares limit (extractor_config_from_env rt env)) (λ w r out m. m))

  pub extract_within-Guards :
      (rt : Runtime) (env : Env) (limit : Option ℕ) → Guards (extract_within rt env group_id limit)
  extract_within-Guards rt env none w unique = λ r out m. m
  extract_within-Guards rt env (some limit) w unique = handle_extract_command-Spares rt env limit w

  pub extract_command-Guards :
      (rt : Runtime) (env : Env) (parts : List Text)
      → Guards (extract_command rt env group_id parts)
  unfolding extract_command
  extract_command-Guards rt env parts =
      if-Guards (is_empty group_id) _ _ (λ w unique r out m. m)
        (extract_within-Guards rt env (extract_limit_arg parts))

  pub change_with-Guards :
      (command actor_id : Text) (memory_id : Option ℕ)
      → Guards (change_with command group_id false actor_id memory_id)
  change_with-Guards command actor_id none w unique = λ r out m. m
  change_with-Guards command actor_id (some memory_id) w unique =
      change_command-Guards command memory_id actor_id w unique

  pub decay_with-Guards : (given : Bool) (days : Option ℕ) → Guards (decay_with group_id given days)
  decay_with-Guards given none =
      if-Guards given _ _ (λ w unique r out m. m) (decay_command-Guards 0)
  decay_with-Guards given (some days) = decay_command-Guards days

  pub handle_lifecycle_command-Guards :
      (actor_id : Text) (parts : List Text)
      → Guards (handle_lifecycle_command group_id actor_id false parts)
  unfolding handle_lifecycle_command
  handle_lifecycle_command-Guards actor_id parts =
      if-Guards (first_part parts == codes "status") _ _
        (λ w unique.
          replied-Spares _ w (query (λ tables. lifecycle_counts group_id tables.rows) w)
            (query-Spares (Outside group_id) _ w))
        (if-Guards (changes_one (first_part parts)) _ _
          (change_with-Guards (first_part parts) actor_id (number_argument parts))
          (if-Guards (first_part parts == codes "decay") _ _
            (decay_with-Guards (has_argument parts) (number_argument parts))
            (λ w unique r out m. m)))
