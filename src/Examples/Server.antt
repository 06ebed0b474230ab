-- ===== src/Examples/Server.antt =====
-- Searches and jobs over HTTP.
use pg_vectorize.Proxy.Cache
use pg_vectorize.Proxy.Cache.Agrees.{with_jobmap, listen_for_changes-server}
use pg_vectorize.Proxy.MessageParser.{ProxyConfig}
use pg_vectorize.Base.{
  ℕ, ◌+◌, ◌≡◌, refl, arith, [], ◌∷◌, ◌++◌, none, some, Bytes, codes, concat, length, get_elem?,
  text_eq, if◌then◌else◌,
}
use pg_vectorize.Base.Text.{split, join}
use pg_vectorize.Base.Int.{pos, add_i32}
use pg_vectorize.Base.Map.{Map, get, insert, remove}
use pg_vectorize.Base.Result.{okay, error}
use pg_vectorize.Base.Exec.{ok, other_db_error, VectorizeError, sql_error}
use pg_vectorize.Base.Session.{text, integer, message, run, Oracle}
use pg_vectorize.Types.{VectorizeJob, new_model}
use pg_vectorize.Query.Tables.{is_identifier_byte, create_fts_index_query}
use pg_vectorize.Query.Triggers.{update_search_tokens_trigger_queries}
use pg_vectorize.Query.Filters.{FilterValue, FilterValueType, greater_than}
use pg_vectorize.Query.Search.Placeholders.{condition, conditions}
use pg_vectorize.Jobs.Rows.{job_from_row, get_column_datatype}
use pg_vectorize.Jobs.Create.{initialize_job}
use pg_vectorize.Jobs.Remove.{cleanup_job}
use pg_vectorize.Worker.Executor.{Provider}
use pg_vectorize.Server.Errors.{internal_error}
use pg_vectorize.Server.Search.{
  embeddings_from, search_query, SearchRequest, bind_value, search_values, search_internal,
  json_results, check_request, job_lookup, default_limit, default_window_size,
}
use pg_vectorize.Server.Search.Requests.{
  search_values-placeholders, search_internal-invalid, query_for, search_internal-written_through,
}
use pg_vectorize.Server.Table.{table, delete_table}
use pg_vectorize.Server.Table.Cached.{delete_table-table}
use pg_vectorize.Server.Cache.{taken, listen_for_changes}
use pg_vectorize.Server.Cache.Refresh.{
  Keeps, answer, listen_for_changes-Keeps, search_internal-taken,
}
use pg_vectorize.Examples.Jobs.{env, job, job_row, two_rows}

abbrev provider : Provider ℕ
provider = record {
  get_provider = λ source. ok tt;
  generate_embedding = λ source request. ok ((1 ∷ []) ∷ []);
  serialize = λ vector. codes "[]";
}

abbrev digit : ℕ → Bytes
digit n = n ∷ []

abbrev filter : FilterValue ℕ
filter = record { operator = greater_than; value = FilterValueType.integer (pos 7) }

abbrev request : Bytes → SearchRequest ℕ
request name = record {
  job_name = name;
  query = codes "pen";
  window_size = default_window_size;
  limit = default_limit;
  rrf_k = 60;
  semantic_wt = 1;
  fts_wt = 1;
  filters = (codes "price", filter) ∷ [];
}

abbrev known : Map VectorizeJob
known = (codes "job", job) ∷ []

search_values-placeholders_example :
    ((front behind : Bytes) × (search_query digit
          (record (request (codes "job")) { filters = [] })
          job
        ≡ front ++ behind)
      × (search_query digit (request (codes "job")) job
          ≡ front ++ (concat (conditions 3 (request (codes "job")).filters) ++ behind)))
    × (get_elem? (conditions 3 (request (codes "job")).filters) 0
        ≡ some (condition (codes "price") filter (0 + 3)))
    × (get_elem? (search_values digit (request (codes "job")) (1 ∷ [])) (0 + 2)
        ≡ some (bind_value digit filter.value))
    × (length (conditions 3 (request (codes "job")).filters)
        ≡ length (request (codes "job")).filters)
search_values-placeholders_example =
    search_values-placeholders env provider digit digit (request (codes "job")) job (1 ∷ []) 0
      (codes "price") filter (omega arith) refl

search_internal-invalid_example :
    (e : Bytes) × (search_internal env provider digit digit
        (request (codes "a;b"))
        known
        two_rows
        []
      ≡ ([], ok (known, error (internal_error e))))
unfolding is_identifier_byte
search_internal-invalid_example =
    search_internal-invalid env provider digit digit (request (codes "a;b")) known two_rows [] refl

-- The record of the job is found, and the query returns a document.
abbrev found : Oracle
found sent (run query (text name ∷ [])) = okay (job_row ∷ [])
found sent _ = okay ((text (codes "{}") ∷ []) ∷ [])

search_internal-written_through_example :
    (behind : Map VectorizeJob) × (search_internal env provider digit digit
        (request (codes "job"))
        []
        found
        []
      ≡ (
        job_lookup (codes "job")
            ∷ query_for env provider digit digit (request (codes "job")) job (1 ∷ [])
            ∷ [],
        ok (behind, okay (codes "{}" ∷ [])),
      ))
    × ((name : Bytes)
        → get name behind ≡ (if text_eq (codes "job") name then some job else get name []))
unfolding embeddings_from check_request get json_results job_from_row job_lookup new_model split
    text_eq join search_values
search_internal-written_through_example =
    search_internal-written_through env provider digit digit (request (codes "job")) [] job job_row
      [] ((text (codes "{}") ∷ []) ∷ []) (1 ∷ []) [] (codes "{}" ∷ []) found [] refl refl refl refl
      refl refl refl

-- Every column is a timestamp, the job is found, and there are two rows.
abbrev timestamps : Oracle
timestamps sent (run query []) = two_rows sent (run query [])
timestamps sent (run query (text name ∷ [])) = okay (job_row ∷ [])
timestamps sent (run query (message name ids ∷ [])) = okay ((integer (pos 1) ∷ []) ∷ [])
timestamps sent _ = okay ((text (codes "timestamp with time zone") ∷ []) ∷ [])

abbrev others : Map VectorizeJob
others = (codes "other", job) ∷ []

delete_table-table_example :
    get (codes "other") (remove (codes "job") (insert (codes "job") job others))
    ≡ (if text_eq (codes "job") (codes "other") then none else get (codes "other") others)
unfolding table delete_table get_column_datatype initialize_job cleanup_job text_eq
    create_fts_index_query update_search_tokens_trigger_queries add_i32 split
delete_table-table_example =
    delete_table-table env (λ source name. ok 384) job others (insert (codes "job") job others)
      (remove (codes "job") (insert (codes "job") job others)) timestamps [] _ _
      (codes "timestamp with time zone")
      (record {
        job_name = codes "job";
        message = concat (codes "Successfully deleted job '" ∷ codes "job" ∷ codes "'" ∷ []);
      })
      refl refl (codes "other")

-- The connection to the database is lost.
abbrev closed : VectorizeError
closed = sql_error (other_db_error (codes "closed"))

listen_for_changes-Keeps_example :
    Keeps env found [] closed known
      (listen_for_changes env (codes "{}" ∷ codes "x" ∷ []) closed known found [])
listen_for_changes-Keeps_example =
    listen_for_changes-Keeps env found (codes "{}" ∷ codes "x" ∷ []) closed known []

search_internal-taken_example :
    answer env provider digit digit
      (request (codes "job"))
      (search_internal env provider digit digit (request (codes "job")) known found [])
    ≡ answer env provider digit digit (request (codes "job")) (
        search_internal env provider digit digit
          (request (codes "job"))
          ((codes "job", taken job) ∷ [])
          found
          [])
unfolding get text_eq
search_internal-taken_example =
    search_internal-taken env provider digit digit (request (codes "job")) known
      ((codes "job", taken job) ∷ []) job found [] refl refl

abbrev proxy_config : ProxyConfig
proxy_config = record { jobmap = known; prepared_statements = [] }

listen_for_changes-server_example :
    Cache.listen_for_changes env (codes "{}" ∷ codes "x" ∷ []) closed proxy_config found []
    ≡ with_jobmap proxy_config
        (listen_for_changes env (codes "{}" ∷ codes "x" ∷ []) closed known found [])
listen_for_changes-server_example =
    listen_for_changes-server env found (codes "{}" ∷ codes "x" ∷ []) closed proxy_config []
