-- ===== src/Tests/Memory.antt =====
-- brain-python/services/memory.py at concrete inputs.
use test_bot.Base.Result.{return}
use test_bot.Schemas.{BrainResponse}
use test_bot.Services.Extractor.{Attempt}
use test_bot.Services.Memory.Indexing.{index_each}
use test_bot.Services.Memory.Store.{Fault, MemoryEmbedding, undefined_table}
use test_bot.Base.{Option}
use test_bot.Base.Int.{ℤ}
use test_bot.Services.Ai.{Upstream}
use test_bot.Services.Memory.Relevance.{Searches}
use test_bot.Base.{is_empty}
use test_bot.Base.{◌≢◌}
use test_bot.Base.{ap, arith}
use test_bot.Value.{Float}
use test_bot.Services.Extractor.{Item}
use test_bot.Services.Memory.Ageing.{Clock}
use test_bot.Text.{Text, join}
use test_bot.Base.Int.{pos}
use test_bot.Floats.{one}
use test_bot.Base.{List, [], false, list_eq, nat_eq, none, refl, some, true, ℕ, ◌∷◌, ◌≡◌}
use test_bot.Text.{codes, is_space, lower, strip_by}
use test_bot.Value.{end}
use test_bot.Env.{Env}
use test_bot.Tests.Sample.{runtime}
use test_bot.Base.{inl, inr, false, sym, ◌∙◌, map}
use test_bot.Schemas.{ChatRequest, empty_request}
use test_bot.Value.{int_id, string_id}
use test_bot.Services.Memory.{is_active, is_configured_memory_admin}
use test_bot.Services.Memory.Store.{World}
use test_bot.Services.Memory.Command.{Tools}
use test_bot.Services.Memory.Admin.{handle_memory_command}
use test_bot.Services.Memory.Inside.{Spares, Outside, UniqueIds}
use test_bot.Services.Memory.Restricted.{handle_memory_command-Restricted}
use Prim.Native.String.{String}
use test_bot.Services.Memory.{
  MemoryRow, MemoryScope, active, archive_memory, confirmed, delete_group, delete_memory,
  delete_user, global, in_group, of_user, parse_search_parts,
}
use test_bot.Services.Memory.Removal.{elsewhere, removal_elsewhere}

abbrev memory : ℕ → MemoryScope → String → String → MemoryRow
memory id scope group user = record {
  id = id;
  scope = scope;
  group_id = some (codes group);
  user_id = some (codes user);
  target_user_id = none;
  memory_type = codes "preference";
  memory_class = codes "procedural";
  content = codes "likes tea";
  confidence = one;
  importance = one;
  stability = one;
  decay_score = one;
  quality_score = one;
  contradiction_count = 0;
  source_count = 1;
  evidence_message_ids = pos 1 ∷ [];
  last_seen_at = 0;
  last_confirmed_at = none;
  status = active;
  lifecycle_status = confirmed;
  archived_at = none;
  metadata = end;
  updated_at = 0;
}

abbrev rows : List MemoryRow
rows = memory 1 in_group "7" "" ∷ memory 2 of_user "7" "3" ∷ memory 3 global "8" "" ∷ []

abbrev pub environment : Env
environment key = none

removal_elsewhere_example :
    (elsewhere (codes "7") (delete_memory 9 2 (codes "7") false rows).1
      ≡ elsewhere (codes "7") rows)
    × (elsewhere (codes "7") (delete_user 9 (codes "7") (codes "3") rows).1
        ≡ elsewhere (codes "7") rows)
    × (elsewhere (codes "7") (delete_group 9 (codes "7") rows).1 ≡ elsewhere (codes "7") rows)
    × (elsewhere (codes "7") (archive_memory 9 (codes "t") 2 (codes "7") false (codes "1") rows).1
        ≡ elsewhere (codes "7") rows)
removal_elsewhere_example =
    removal_elsewhere 9 2 (codes "t") (codes "7") (codes "3") (codes "1") rows

searched :
    parse_search_parts (codes "tea" ∷ codes "--status" ∷ codes "ALL" ∷ codes "time" ∷ [])
    ≡ some (codes "tea time", codes "all", true)
unfolding parse_search_parts lower strip_by is_space list_eq nat_eq test_bot.Text.join
searched = refl

abbrev two_rows : List MemoryRow
two_rows = memory 1 in_group "7" "" ∷ memory 2 in_group "8" "" ∷ []

abbrev pub world : World
world = record {
  tables = record {
    rows = two_rows;
    next_id = 3;
    runs = [];
    next_run = 1;
    settings = [];
    messages = λ g. [];
    embeddings = [];
  };
  database_url = some (codes "postgres://");
  clock = record { now = 9; iso = codes "t" };
  faults = [];
  jobs = [];
  violation = [];
}

abbrev pub no_double : ℤ → Option Float
no_double n = none

abbrev pub unreachable : Upstream
unreachable url headers timeout payload = none

-- A database in which every pattern and every query matches.
abbrev pub searches : Searches
searches = record {
  ilike = λ content pattern. true;
  full_text = λ query content. some one;
  distance = λ v u. one;
  is_word = λ c. true;
}

abbrev pub tools : Tools
tools = record {
  searches = searches;
  as_column = λ v. some v;
  exact = no_double;
  upstream = unreachable;
  sha256 = λ text. text;
  connection_error = codes "ConnectionError()";
  overflow_error = codes "int too large to convert to float";
}

-- An administrator of a group, and a member.
abbrev pub by_role : String → ChatRequest
by_role role = record empty_request {
  user_id = some (int_id (pos 5));
  group_id = some (int_id (pos 7));
  sender = some (record { user_id = none; nickname = []; card = []; role = codes role });
}

two_rows_unique : UniqueIds two_rows
two_rows_unique q r (inl e) (inl f) same = e ∙ sym f
two_rows_unique q r (inl e) (inr (inl f)) same =
    absurd (omega (arith, ap (λ (r : MemoryRow). r.id) e, ap (λ (r : MemoryRow). r.id) f, same))
two_rows_unique q r (inr (inl e)) (inl f) same =
    absurd (omega (arith, ap (λ (r : MemoryRow). r.id) e, ap (λ (r : MemoryRow). r.id) f, same))
two_rows_unique q r (inr (inl e)) (inr (inl f)) same = e ∙ sym f
two_rows_unique q r (inl e) (inr (inr none_left)) same = absurd none_left
two_rows_unique q r (inr (inl e)) (inr (inr none_left)) same = absurd none_left
two_rows_unique q r (inr (inr none_left)) m same = absurd none_left

forgets_group :
    map
      (λ (r : MemoryRow). is_active r.status)
      (handle_memory_command runtime environment tools
        (by_role "owner")
        (codes "/memory forget-group")
        world).1.tables.rows
    ≡ false ∷ true ∷ []
unfolding handle_memory_command string_id
forgets_group = refl

seven_named : string_id (by_role "owner").group_id ≢ []
unfolding string_id nat_eq
seven_named e = absurd (ground (arith, ap is_empty e))

not_configured_owner : is_configured_memory_admin environment (by_role "owner") ≡ false
unfolding is_configured_memory_admin string_id
not_configured_owner = refl

handle_memory_command-Restricted_example :
    Spares
      (Outside (codes "7"))
      two_rows
      (handle_memory_command runtime environment tools
        (by_role "owner")
        (codes "/memory forget-group")
        world).1.tables.rows
unfolding string_id nat_eq
handle_memory_command-Restricted_example =
    handle_memory_command-Restricted runtime environment tools (by_role "owner")
      (codes "/memory forget-group") world seven_named not_configured_owner two_rows_unique

abbrev clock : Clock
clock = record { now = 9; iso = codes "t" }

abbrev tea : Item
tea = record {
  scope = codes "user";
  memory_type = codes "preference";
  memory_class = codes "procedural";
  content = codes "likes tea";
  confidence = one;
  importance = one;
  evidence_message_ids = pos 4 ∷ [];
  group_id = codes "7";
  user_id = codes "3";
  target_user_id = [];
  metadata = end;
}

abbrev embedded_ids : World → List ℕ
embedded_ids w = map (λ (e : MemoryEmbedding). e.memory_id) w.tables.embeddings

abbrev indexed_from : List (Option Fault) → (ℕ × ℕ) × World
indexed_from faults =
    index_each runtime environment tools (codes "m") two_rows ((one ∷ []) ∷ []) 0 0
      (record world { faults = faults })

-- One vector for two memories: the first is stored, unless the statement fails.
stores_first :
    (embedded_ids (indexed_from []).1 ≡ 1 ∷ [])
    × ((indexed_from []).0 ≡ (1, 0))
    × ((indexed_from (some undefined_table ∷ [])).0 ≡ (0, 1))
unfolding index_each
stores_first = (refl, refl, refl)

abbrev reply_text : Attempt (Option BrainResponse) × World → Text
reply_text (return (some r), w) = r.reply
reply_text o = []

-- A limit out of range is refused, whatever the configuration of the embeddings.
refuses_limit :
    reply_text (
      handle_memory_command runtime environment tools
        (by_role "owner")
        (codes "/memory embedding index 501")
        world)
    ≡ codes "数量必须是 1 到 500 之间的整数。"
unfolding handle_memory_command string_id
refuses_limit = refl
