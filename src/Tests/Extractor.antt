-- ===== src/Tests/Extractor.antt =====
-- brain-python/services/memory_extractor.py at concrete inputs.
use test_bot.Base.{List, Option, map}
use test_bot.Value.{Runtime, null}
use test_bot.Services.Extractor.{Attempt}
use test_bot.Services.Extractor.Ask.{Endpoint, ExtractorConfig}
use test_bot.Services.Extractor.Run.{attempt_extraction, extract_from}
use test_bot.Services.Memory.Store.{Fault, MemoryRun, RunStatus}
use test_bot.Base.{All, [], length, none, refl, some, true, ℕ, ◌+◌, ◌∷◌, ◌≡◌, ◌≤◌}
use test_bot.Text.{codes}
use test_bot.Value.{Fields, arr, bool, cons, dict, end, field, int, nil, str}
use test_bot.Base.Int.{pos}
use test_bot.Floats.{one}
use test_bot.Services.Extractor.{
  GroupMessage, Item, clean_candidate, finish_candidate, validate_candidates,
}
use test_bot.Services.Extractor.Supported.{IsSupported, validate_candidates-IsSupported}
use test_bot.Services.Extractor.Clean.{IsClean}
use test_bot.Base.Result.{raise, return}
use test_bot.Tests.Sample.{runtime}
use test_bot.Services.Memory.Store.{World, Memories, succeeded, failed, running, undefined_table}
use test_bot.Services.Extractor.Run.{ExtractionResult, extract_group_memories}
use test_bot.Services.Extractor.Closed.{Ended, extract_group_memories-Ended}
use test_bot.Services.Memory.Errors.{extractor_upstream}
use test_bot.Text.{strip_by, is_space}

abbrev message : GroupMessage
message = record {
  id = 5;
  conversation_id = 1;
  sender_user_id = some (codes "42");
  sender_nickname = none;
  sender_card = some (codes "Ann");
  text = some (codes "I like tea");
  created_at = none;
}

-- A candidate with the message of a number as its evidence.
abbrev candidate : ℕ → Fields
candidate evidence = field (codes "scope") (str (codes " User")) (
    field (codes "memory_type") (str (codes "preference")) (
      field (codes "content") (str (codes "likes  tea ")) (
        field (codes "group_id") (int (pos 7)) (
          field (codes "user_id") (int (pos 42)) (
            field (codes "confidence") (int (pos 1)) (
              field (codes "importance") (bool true) (
                field (codes "evidence_message_ids")
                  (arr (cons (str (codes "5")) (cons (int (pos evidence)) nil))) end)))))))

abbrev accepted_item : Item
accepted_item = record {
  scope = codes "user";
  memory_type = codes "preference";
  memory_class = codes "procedural";
  content = codes "likes tea";
  confidence = one;
  importance = one;
  evidence_message_ids = pos 5 ∷ [];
  group_id = codes "7";
  user_id = codes "42";
  target_user_id = [];
  metadata = field (codes "raw_candidate") (dict (candidate 5)) end;
}

-- The second candidate names a message that is not in the batch, and the third is beyond the limit.
validated :
    validate_candidates runtime
      (candidate 5 ∷ candidate 6 ∷ candidate 5 ∷ [])
      (codes "7")
      (message ∷ [])
      2
    ≡ return (accepted_item ∷ [], 2)
unfolding validate_candidates clean_candidate finish_candidate
validated = refl

validate_candidates-IsSupported_example :
    All (λ item. IsClean (codes "7") item × IsSupported (message ∷ []) item) (accepted_item ∷ [])
    × (length (accepted_item ∷ []) + 2 ≡ 3)
    × (length (accepted_item ∷ []) ≤ 2)
validate_candidates-IsSupported_example =
    validate_candidates-IsSupported runtime (candidate 5 ∷ candidate 6 ∷ candidate 5 ∷ [])
      (codes "7") (message ∷ []) 2 (accepted_item ∷ []) 2 validated

-- An interpreter that reads every text as one memory.
abbrev reader : Runtime
reader = record {
  repr = λ v. codes "?";
  float_of = λ s. none;
  loads = λ s.
      some (dict (field (codes "memories") (arr (cons (dict (candidate 5)) (cons null nil))) end));
}

abbrev config : ExtractorConfig
config = record {
  base_url = codes "http://ai";
  api_key = [];
  model = codes "m";
  timeout = one;
  batch_size = pos 80;
  max_candidates = 12;
}

-- A model that gives a choice, and one that does not answer.
abbrev ready : Endpoint
ready = record {
  post = λ url headers timeout payload. return (
      dict (
        field (codes "choices")
          (arr (cons (dict (field (codes "text") (str (codes "{}")) end)) nil)) end));
  loads_error = λ s. [];
  type_text = [];
  attribute_text = [];
}

abbrev silent : Endpoint
silent = record ready { post = λ url headers timeout payload. raise (codes "timed out") }

abbrev tables : Memories
tables = record {
  rows = [];
  next_id = 1;
  runs = [];
  next_run = 3;
  settings = [];
  messages = λ group_id. message ∷ [];
  embeddings = [];
}

-- A database whose statement of a number, and no other, fails.
abbrev failing : List (Option Fault) → World
failing faults = record {
  tables = tables;
  database_url = some (codes "postgres://");
  clock = record { now = 9; iso = codes "t" };
  faults = faults;
  jobs = [];
  violation = codes "check";
}

abbrev outcome : Endpoint → List (Option Fault) → Attempt ExtractionResult × World
outcome endpoint faults =
    extract_group_memories reader endpoint config (codes "7") 0 (failing faults)

abbrev run_statuses : Attempt ExtractionResult × World → List RunStatus
run_statuses o = map (λ (r : MemoryRun). r.status) o.1.tables.runs

stored : run_statuses (outcome ready []) ≡ succeeded ∷ []
unfolding extract_group_memories extract_from attempt_extraction strip_by is_space finish_candidate
stored = refl

unanswered : (outcome silent []).0 ≡ raise (extractor_upstream (codes "timed out"))
unfolding extract_group_memories extract_from attempt_extraction
unanswered = refl

-- The statement that stores the memory fails.
refused_memory :
    run_statuses (outcome ready (none ∷ none ∷ none ∷ some undefined_table ∷ [])) ≡ failed ∷ []
unfolding extract_group_memories extract_from attempt_extraction strip_by is_space finish_candidate
refused_memory = refl

-- The statement that closes the run as a failure fails.
left_open : run_statuses (outcome silent (none ∷ none ∷ some undefined_table ∷ [])) ≡ running ∷ []
unfolding extract_group_memories extract_from attempt_extraction
left_open = refl

extract_group_memories-Ended_example : Ended (failing []) (outcome ready [])
extract_group_memories-Ended_example =
    extract_group_memories-Ended reader ready config (codes "7") 0 (failing []) tt
