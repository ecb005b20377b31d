-- ===== src/Lib.antt =====
-- TestBot: the Python core ("brain") of a chat bot. A gateway sends every chat message to the core,
-- which answers with messages to send; the core asks its own module, the module services behind
-- HTTP and a language model; whatever wants to speak by itself puts messages into an outbox in
-- PostgreSQL, which the gateway pulls, delivers, and acknowledges or fails. Paths below start at the
-- root of the repository.
--
-- Files
-- - Base: Boolean tests, equality as an instance, results, lists, integers and dictionaries that
--   keep the order of insertion, as Python's do.
-- - Text: `str` as the list of its code points: `strip`, `lower`, `split`, `partition`, `int`.
-- - Floats: the arithmetic of `float`, rounded to the nearest double. Value: JSON values and `float`;
--   `str`, `dict.get` and truth of them. Env: `os.environ`.
-- - Schemas: brain-python/schemas.py, a record for each model. A field `data` is spelled `payload`.
-- - Modules/Command: brain-python/modules/base.py (`parse_command_invocation`, `command_prefixes`).
-- - Modules/Echo: brain-python/modules/echo.py, the in-core module.
-- - Modules/Policy, Modules/Registry: brain-python/modules/registry.py, `_module_group_allowed` and
--   `DeterministicModuleRegistry`.
-- - Modules/Remote: brain-python/modules/remote.py, the configuration and calls of the services.
-- - Services/Tools: brain-python/services/tools.py, `list_tools` and `call_tool`.
-- - Services/Outbox: brain-python/services/outbox.py and the table of
--   database/migrations/000003_message_outbox.up.sql. `enqueue`, `pull`, `ack` and `fail` are
--   functions on the table; Services/Outbox/Run has the step relation of any sequence of calls,
--   Queue the abstract queue of jobs, Drain a worker that pulls and acknowledges in rounds.
-- - Main: brain-python/main.py, the token check of the outbox and the endpoints that FastAPI calls after it.
-- - Services/Chat: brain-python/services/chat.py, the texts of a request and its route through
--   memory commands, modules, the echo tool and the AI. `Responders` is the interface to these: the
--   memory commands and the AI pass on a state and may raise. `with_modules` fills it with the registry
--   and the tools of Modules and Services/Tools, `program` with `handle_memory_command` on the store
--   and `build_ai_response` as well.
-- - Services/Ai: brain-python/services/ai_runtime.py: Setup has triggers, policy and configuration,
--   Prompt the prompt and the reply. `build_ai_response` gives its outcome and the acts on the way, the
--   reading of the memories and the request to the model. `Upstream` is the model's endpoint; `Recall` is the interface
--   to the memories and the state of the conversation.
-- - Services/Conversation: brain-python/services/conversation_state.py, the state that is derived
--   from recent messages and its summary.
-- - Services/Embedding: brain-python/services/memory_embedding.py.
-- - Services/Memory: brain-python/services/memory.py, the rows of `memory_items`: who sees them,
--   which of them a recall may use, and the statements that remove or archive them. The lifecycle
--   status `archived` is spelled `retired`. Errors has the exceptions; Score the scores and the
--   statuses that they earn; Ageing the statements that confirm, age and count; Store the tables of
--   the store, its statements in sequence, and the runs of an extraction; Upsert the storing of
--   extracted memories; Search the searches and the replies with records; Relevance the candidates
--   of a recall, their merging and scores, Recall its three searches and Ranking `recall` itself;
--   Command and Admin the commands of `/memory`, up to `handle_memory_command`, with Debug for
--   `debug recall` and Indexing for the embeddings of memories and the commands on them.
-- - Services/Extractor: brain-python/services/memory_extractor.py: Candidate cleans one candidate of
--   the model, Extractor validates them all, Ask has the configuration, the prompt and the call, and
--   Run the whole of `extract_group_memories` on the store. `Endpoint` is the model's endpoint.
-- Below a component's file stand the files of its theorems; Tests holds concrete inputs.
--
-- How the code is read
-- - Names stay, without the leading underscore. Exceptions are the error of a result type; a class
--   is a record; the environment is an argument, as it is read again on every call.
-- - A number of Python that is never negative is a natural number, any other an integer. A `float`
--   is `nan`, an infinity, or an exact multiple of 2^-1074. `lower` and `upper` treat ASCII and
--   leave other code points, `int` reads ASCII digits; blanks are those of `str.isspace`.
-- - What the environment of the code does is a parameter: `Runtime` has `repr`, `float(text)` and
--   `json.loads`; `Http` has what a service replies to a request, decoded or as the failure that
--   the code tells apart.
-- - Each SQL statement is one transaction and so one step. `Call` says whether an address is
--   configured, whether the database raises, and the time `now()`. `FOR UPDATE SKIP LOCKED` is the
--   list of the ids that other transactions hold. `RETURNING` gives the rows in the table's order.
--   A failed statement leaves the table, and the sequence of its ids, as it was.
-- - The memory store sends one statement after another; `World` holds its tables, and `faults` says
--   which of the next statements fail, so that a theorem for every list of them holds whenever the
--   database fails. The statements of one call share one time. A row that the `CHECK`s of
--   database/migrations/000004_memory.up.sql refuse makes its statement fail with the text `violation`.
--   `Searches` has what PostgreSQL computes for a recall: patterns, the ranks of the full text search,
--   and the distance of two vectors. `Tools` has these, the vector that a column holds, the endpoint of
--   the embedding model, and SHA-256. `str.isdigit` is that of the digits
--   of ASCII. A thread that is started is an entry of `jobs`.
-- - Fuel: that of `show_digits`, the digits of a number, is the number plus one, which is enough since
--   each step divides by ten; that of `exponent`, the exponent of a double, is 2100, which is enough
--   since a double has at most 2098 bits in units of 2^-1074; the rounds of `drain` are
--   at least the due items, by a hypothesis of its theorem.
--
-- Not modelled: `recall_context` around the recall, the notices of the background thread, the storing of messages
-- (brain-python/services/persistence.py) and of the conversation's state; logging, the FastAPI
-- application's wiring with its dependencies, the connection to the database, pydantic's validation of raw bodies (its
-- bounds are hypotheses), the two legacy modules brain-python/modules/bilibili.py and
-- brain-python/modules/tsperson.py, which nothing loads, and the Go gateway.
pub mod Base
pub mod Text
pub mod Value
pub mod Floats
pub mod Schemas
pub mod Env
pub mod Modules
pub mod Services
pub mod Main
mod Tests
