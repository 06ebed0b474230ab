-- ===== src/Lib.antt =====
-- The model of pg_vectorize: a Postgres extension, an HTTP server and a proxy in front of Postgres, which
-- embed the rows of tables and search them, workers that embed the records of jobs, and the core crate
-- that all of them share.
--
-- The program's parts and the files about them:
--
-- Types (core/src/types.rs): models and the sources that serve them, kinds of indexes, jobs and the
-- messages about them. `new_model` is `Model::new`, `parse_source` and `source_of_string` are the two
-- readings of a source, `parse_index` and `index_of_string` those of an index kind. Types/Params has the
-- parameters of the extension's jobs. The errors of core/src/errors.rs stand in Base/Exec.
--
-- Transformers (core/src/transformers): the inputs of an embedding request, their trimming
-- (`trim_inputs`), chunks (`split_vector`) and the pairing of an answer with the inputs
-- (`merge_input_output`). Transformers/Http is http_handler.rs with the client of the HTTP library as the
-- record `Client`. Transformers/Providers is the providers: `get_provider`, and in its child modules the
-- embedding requests (Calls), the dimensions of models (Dimensions) and chat completions (Completions) of
-- each.
--
-- Query (core/src/query.rs): the texts of the statements (Query/Tables, Query/Triggers) and
-- `create_batches` (Query/Batches), whose loop keeps the source's three variables, the filters of
-- the search API (Query/Filters, `visit_str`) and the two search queries (Query/Search).
--
-- Jobs (core/src/init.rs, core/src/db.rs, core/src/guc.rs): the life of a job in the database.
-- Jobs/Create is `initialize_job`, Jobs/Rows reads what is new and enqueues it (`scan_job`), Jobs/Remove
-- is `cleanup_job`, Jobs/Init what is set up before there are jobs, Jobs/Guc the settings that the
-- workers read, and Jobs/Environment the configuration (core/src/config.rs).
--
-- Worker (worker/src): Worker/Executor is `poll_job` and `execute_job`, Worker/Ops the statement that
-- stores embeddings (`build_upsert_query`), Worker/Append the update of a column of the source table,
-- Worker/Health the health record as a state machine, and Worker/Supervisor the loop over polls.
--
-- Server (server/src): Server/Search is `search_internal`, Server/Table the handlers that create and
-- delete a job, Server/Cache the cache of jobs and the listener that refreshes it, Server/State the
-- state with which the server starts, Server/Health the two health routes, Server/Errors the statuses
-- of errors. A handler takes the cache and returns the cache behind it, the map under the source's
-- lock.
--
-- Extension (extension/src): Extension/Workers is the background worker's handling of a message
-- (workers/mod.rs) and Extension/Loop its loop (workers/pg_bgw.rs), Extension/Executor the enqueueing
-- of new rows (executor.rs), Extension/Chat the prompt of a chat and its trimming and Chat/Call the
-- chat (chat/ops.rs), Extension/Settings the settings (guc.rs). Extension/Spi is what runs in the
-- session of the database itself, Extension/Tables the tables, the queue and the schedule of a job
-- (init.rs), Extension/Initial its first messages (job.rs), and Extension/Create with Create/Table
-- `init_table`. Extension/Search has the queries of the searches, Search/Sessions the searches, and
-- Extension/Hybrid how two lists of results are made one (search.rs). Extension/Api, Extension/Chunks
-- and Extension/Imports are the functions of SQL (api.rs).
--
-- Proxy (proxy/src): Proxy/Protocol is protocol.rs, Proxy/MessageParser is message_parser.rs (one
-- function per handler), Proxy/Embeddings is embeddings.rs, Proxy/Stream is the loops of proxy.rs over
-- what a client sends, and Proxy/Cache its map of jobs (cache.rs). Proxy/Buffer has the indexing and
-- slicing of byte buffers.
--
-- Base has what they share: texts, numbers, UTF-8, maps, results, and Base/Session.
--
-- How they interact: the proxy takes a message off the bytes received (`try_parse_complete_message`),
-- asks the provider of a job for embeddings and forwards the message; the server's `table` calls
-- `initialize_job`, which writes the tables of a job, commits, and enqueues messages with the ids of
-- records; `poll_job` reads such a message, embeds the records and stores the embeddings, and the
-- supervisor keeps calling it and reports to the health record; `search_internal` looks a job up in the
-- cache, embeds the text searched for and sends the query; the listener refreshes the cache whenever the
-- database notifies it of a change.
--
-- Conventions. A text is the list of its UTF-8 bytes. A panic is an outcome of its own (`panicked`), as
-- is an error (`err`); arithmetic on machine integers wraps, as in a release build. Code of other
-- libraries is a parameter: the regular expressions, floating-point numbers and embedding services of the
-- proxy are the record `World`, the tokenizer, the texts of database errors and the Unicode tables of the
-- jobs are `Env`, an embedding service of the worker is `Provider`, the HTTP library and the JSON of the
-- providers are `Client`, what the extension calls are the records `Libraries`, `Settings` and `Platform`. A
-- database is an `Oracle`: a function of all requests so far and the next one, so that a theorem for all
-- oracles holds for every behaviour of the database and of the queue. A session is the list of the
-- requests sent, with the outcome. Hash maps are association lists. Times are numbers of nanoseconds.
--
-- Fuel: `messages_loop` runs on the length of its buffer, since a message takes at least one byte off it,
-- and `chunks` on the length of its list. The loops of the worker and of the cache's listener, which end
-- only with the process, run over a list of what each round finds, which is of any length.
--
-- Not modelled: sockets, timeouts, locks and log lines of the proxy and of the server, the start of the
-- processes, the registration of the settings and of the background worker, and the connection options of
-- the extension, which are calls of libraries for the most part; and the restarts of the worker
-- (worker/src/lib.rs), which stand behind a call that never returns.
pub mod Base
pub mod Types
pub mod Transformers
pub mod Query
pub mod Jobs
pub mod Proxy
pub mod Worker
pub mod Server
pub mod Extension
pub mod Examples
