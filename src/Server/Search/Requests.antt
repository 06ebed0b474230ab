-- ===== src/Server/Search/Requests.antt =====
-- What a search sends to the database, and what it leaves in the cache.
use pg_vectorize.Base.{
  ℕ, Bool, get_elem?-map, suc, ◌+◌, ◌^◌, ◌≤◌, ◌≡◌, refl, ap, sym, ◌∙◌, arith, true, false, ◌&&◌,
  all, List, [], ◌∷◌, ◌++◌, append_assoc, none, some, Bytes, codes, concat, concat-append, length,
  get_elem?,
}
use pg_vectorize.Base.Int.{pos}
use pg_vectorize.Base.{text_eq, if◌then◌else◌}
use pg_vectorize.Base.Map.{Map, get, insert, get-insert}
use pg_vectorize.Base.Result.{Result, okay, error, and_then}
use pg_vectorize.Base.Exec.{ok}
use pg_vectorize.Base.Session.{
  Value, Request, run, Oracle, done, then_run, attempt, then_run-ok, after,
}
use pg_vectorize.Types.{VectorizeJob}
use pg_vectorize.Transformers.{prepare_generic_embedding_request}
use pg_vectorize.Query.Tables.{is_identifier_byte, check_input}
use pg_vectorize.Query.Filters.{FilterValue}
use pg_vectorize.Query.Search.{
  where_filter_from, hybrid_search_front, hybrid_search_behind, hybrid_search_query,
}
use pg_vectorize.Query.Search.Placeholders.{
  condition, conditions, length-conditions, conditions-get, where_filter_from-conditions,
}
use pg_vectorize.Jobs.Rows.{Env, job_from_row}
use pg_vectorize.Worker.Executor.{Provider}
use pg_vectorize.Server.Errors.{internal_error}
use pg_vectorize.Server.Search.{
  embeddings_from, SearchRequest, check_keys, check_request, bind_value, search_query,
  search_values, json_results, answer_search, query_rows, search_job, job_of_answer, job_lookup,
  looked_up, get_vectorize_job, write_through, with_cached, search_internal,
}

-- The name of the job and the keys of the filters hold letters, digits and underscores only.
abbrev pub has_plain_names : {Float : Type 0} → SearchRequest Float → Bool
has_plain_names {Float = Float} payload =
    all is_identifier_byte payload.job_name
    && all (λ (entry : Bytes × FilterValue Float). all is_identifier_byte entry.0) payload.filters

-- A name is refused, or what is behind it is.
check-and_then :
    (name : Bytes) (rest : Result Bytes (Unit {0})) (b : Bool)
    → (all is_identifier_byte name && b) ≡ false
    → (b ≡ false → (e : Bytes) × (rest ≡ error e))
    → (e : Bytes) × (and_then (check_input name) (λ _. rest) ≡ error e)
unfolding check_input
check-and_then name rest b h later = split (all is_identifier_byte name) refl
  where
    split :
        (c : Bool)
        → all is_identifier_byte name ≡ c
        → (e : Bytes) × (and_then (check_input name) (λ _. rest) ≡ error e)
    split true valid = rw valid (later (sym (ap (λ c. c && b) valid) ∙ h))
    split false invalid = (codes "Invalid Input: " ++ name, rw invalid refl)

check_keys-invalid :
    {Float : Type 0} (filters : Map (FilterValue Float))
    → all (λ (entry : Bytes × FilterValue Float). all is_identifier_byte entry.0) filters ≡ false
    → (e : Bytes) × (check_keys filters ≡ error e)
unfolding check_keys
check_keys-invalid [] h = cc
check_keys-invalid ((key, value) ∷ filters) h =
    check-and_then key (check_keys filters) _ h (check_keys-invalid filters)

check_request-invalid :
    {Float : Type 0} (payload : SearchRequest Float)
    → has_plain_names payload ≡ false
    → (e : Bytes) × (check_request payload ≡ error e)
unfolding check_request
check_request-invalid payload h =
    check-and_then payload.job_name (check_keys payload.filters) _ h
      (check_keys-invalid payload.filters)

module _ {Float : Type 0} (env : Env) (provider : Provider Float)
    (display_float encode : Float → Bytes) (payload : SearchRequest Float) where
  -- The search for the filters `filters`, with everything else as in `payload`.
  abbrev pub filtered_by : Map (FilterValue Float) → SearchRequest Float
  filtered_by filters = record payload { filters = filters }

  -- The text in front of the conditions of the filters, and the one behind them.
  abbrev pub front_of : VectorizeJob → Bytes
  front_of job =
      concat (
        hybrid_search_front display_float payload.job_name job.src_schema job.src_table
          job.primary_key (codes "*" ∷ []) payload.window_size payload.rrf_k payload.semantic_wt
          payload.fts_wt)
      ++ codes "WHERE 1=1"

  search_query-conditions :
      (job : VectorizeJob) (filters : Map (FilterValue Float))
      → 3 + length filters ≤ 2 ^ 15
      → search_query display_float (filtered_by filters) job
        ≡ front_of job
          ++ (concat (conditions 3 filters) ++ concat (hybrid_search_behind payload.limit))
  unfolding search_query hybrid_search_query
  search_query-conditions job filters few =
      concat-append
        (hybrid_search_front display_float payload.job_name job.src_schema job.src_table
          job.primary_key (codes "*" ∷ []) payload.window_size payload.rrf_k payload.semantic_wt
          payload.fts_wt)
        (where_filter_from 3 filters ∷ hybrid_search_behind payload.limit)
      ∙ (ap
            (λ w.
              concat (
                hybrid_search_front display_float payload.job_name job.src_schema job.src_table
                  job.primary_key (codes "*" ∷ []) payload.window_size payload.rrf_k
                  payload.semantic_wt payload.fts_wt)
              ++ (w ++ concat (hybrid_search_behind payload.limit)))
            (where_filter_from-conditions 3 filters few)
          ∙ sym (
              append_assoc
                (concat (
                  hybrid_search_front display_float payload.job_name job.src_schema job.src_table
                    job.primary_key (codes "*" ∷ []) payload.window_size payload.rrf_k
                    payload.semantic_wt payload.fts_wt))
                (codes "WHERE 1=1")
                (concat (conditions 3 filters) ++ concat (hybrid_search_behind payload.limit))))

  -- The query of a search is the query of the same search without filters, with one condition for
  -- each filter inserted at one place of the text. The condition of filter `i` has the placeholder
  -- `$(i + 3)`, and the value that the search binds at this place, behind the embedding and the text
  -- searched for, is the one of the same filter, as long as no number of a placeholder exceeds an
  -- i16.
  pub search_values-placeholders :
      (job : VectorizeJob) (embedding : List Float) (i : ℕ) (column : Bytes)
      (filter : FilterValue Float)
      → 3 + length payload.filters ≤ 2 ^ 15
      → get_elem? payload.filters i ≡ some (column, filter)
      → ((front behind : Bytes) × (search_query display_float (record payload { filters = [] }) job
            ≡ front ++ behind)
          × (search_query display_float payload job
              ≡ front ++ (concat (conditions 3 payload.filters) ++ behind)))
        × (get_elem? (conditions 3 payload.filters) i ≡ some (condition column filter (i + 3)))
        × (get_elem? (search_values encode payload embedding) (i + 2)
            ≡ some (bind_value encode filter.value))
        × (length (conditions 3 payload.filters) ≡ length payload.filters)
  unfolding search_values
  search_values-placeholders job embedding i column filter few e = (
    (
      front_of job,
      concat (hybrid_search_behind payload.limit),
      search_query-conditions job [] (omega arith),
      search_query-conditions job payload.filters few,
    ),
    conditions-get 3 i column filter payload.filters e
        ∙ ap (λ n. some (condition column filter n)) (omega arith),
    ap (get_elem? (search_values encode payload embedding)) shifted
        ∙ get_elem?-map (λ (entry : Bytes × FilterValue Float). bind_value encode entry.1.value) i
            (column, filter) payload.filters e,
    length-conditions 3 payload.filters,
  )
    where
      shifted : i + 2 ≡ suc (suc i)
      shifted = omega arith

  -- A search with another name of a job, or with a key of a filter that holds anything but letters,
  -- digits and underscores, sends nothing, leaves the cache, and is refused with an internal error.
  pub search_internal-invalid :
      (cache : Map VectorizeJob) (oracle : Oracle) (sent : List Request)
      → has_plain_names payload ≡ false
      → (e : Bytes) × (search_internal env provider display_float encode payload cache oracle sent
          ≡ (sent, ok (cache, error (internal_error e))))
  unfolding search_internal check_request done
  search_internal-invalid cache oracle sent h =
      let (e, found) = check_request-invalid payload h in (e, rw (found, search_internal) refl)

  -- The query of a search, with its values.
  abbrev pub query_for : VectorizeJob → List Float → Request
  query_for job embedding =
      run (search_query display_float payload job) (search_values encode payload embedding)

  search_job-answers :
      (cache : Map VectorizeJob) (job : VectorizeJob) (rows : List (List Value))
      (embedding : List Float) (others : List (List Float)) (documents : List Bytes)
      (oracle : Oracle) (sent : List Request)
      → embeddings_from provider job.model.source (
          prepare_generic_embedding_request job.model
            (record { record_id = []; inputs = payload.query; token_estimate = pos 0 } ∷ []))
        ≡ ok (embedding ∷ others)
      → json_results rows ≡ ok documents
      → oracle sent
          (run (search_query display_float payload job) (search_values encode payload embedding))
        ≡ okay rows
      → search_job env provider display_float encode payload cache job oracle sent ≡ (
        sent
            ++ run (search_query display_float payload job) (search_values encode payload embedding)
              ∷ [],
        ok (cache, okay documents),
      )
  unfolding search_job query_rows
  search_job-answers cache job rows embedding others documents oracle sent embedded read answered =
      rw embedded (then_run-ok (attempt query) (answer_search cache) oracle sent sends ∙ answers)
    where
      query : Request
      query = run (search_query display_float payload job) (search_values encode payload embedding)

      sends : attempt query oracle sent ≡ (sent ++ query ∷ [], ok (okay rows))
      sends = rw (attempt, answered) refl

      answers :
          answer_search cache (okay rows) oracle (sent ++ query ∷ [])
          ≡ (sent ++ query ∷ [], ok (cache, okay documents))
      answers = rw (answer_search, read) refl

  looked_up_job :
      (job : VectorizeJob) (row : List Value) (more : List (List Value)) (oracle : Oracle)
      (sent : List Request)
      → oracle sent (job_lookup payload.job_name) ≡ okay (row ∷ more)
      → job_from_row env row ≡ ok job
      → get_vectorize_job env payload.job_name oracle sent
        ≡ (sent ++ job_lookup payload.job_name ∷ [], ok (okay job))
  unfolding get_vectorize_job job_lookup
  looked_up_job job row more oracle sent found decoded =
      rw
        (
          get_vectorize_job, then_run, attempt, found, after, looked_up, done, job_of_answer,
          decoded,
        )
        refl

  -- A search for a job that is in the cache sends one request, the query, and leaves the cache.
  search_internal-cached :
      (cache : Map VectorizeJob) (job : VectorizeJob) (rows : List (List Value))
      (embedding : List Float) (others : List (List Float)) (documents : List Bytes)
      (oracle : Oracle) (sent : List Request)
      → check_request payload ≡ okay tt
      → get payload.job_name cache ≡ some job
      → embeddings_from provider job.model.source (
          prepare_generic_embedding_request job.model
            (record { record_id = []; inputs = payload.query; token_estimate = pos 0 } ∷ []))
        ≡ ok (embedding ∷ others)
      → oracle sent (query_for job embedding) ≡ okay rows
      → json_results rows ≡ ok documents
      → search_internal env provider display_float encode payload cache oracle sent
        ≡ (sent ++ query_for job embedding ∷ [], ok (cache, okay documents))
  unfolding search_internal
  search_internal-cached cache job rows embedding others documents oracle sent valid held embedded
        answered read =
      rw (valid, search_internal, held, with_cached)
        (search_job-answers cache job rows embedding others documents oracle sent embedded read
          answered)

  -- If the request is valid, the job is not in the cache, its record is found and can be decoded, the
  -- provider answers, and the query succeeds with rows that can be read, then a search sends two
  -- requests, one for the job's record and the query, and answers with the rows. The cache then holds
  -- the job under the name searched for, and every other name as before.
  pub search_internal-written_through :
      (cache : Map VectorizeJob) (job : VectorizeJob) (row : List Value)
      (more rows : List (List Value)) (embedding : List Float) (others : List (List Float))
      (documents : List Bytes) (oracle : Oracle) (sent : List Request)
      → check_request payload ≡ okay tt
      → get payload.job_name cache ≡ none
      → oracle sent (job_lookup payload.job_name) ≡ okay (row ∷ more)
      → job_from_row env row ≡ ok job
      → embeddings_from provider job.model.source (
          prepare_generic_embedding_request job.model
            (record { record_id = []; inputs = payload.query; token_estimate = pos 0 } ∷ []))
        ≡ ok (embedding ∷ others)
      → oracle (sent ++ job_lookup payload.job_name ∷ []) (query_for job embedding) ≡ okay rows
      → json_results rows ≡ ok documents
      → (behind : Map VectorizeJob) × (search_internal env provider display_float encode payload
            cache oracle sent
          ≡ (
            sent ++ job_lookup payload.job_name ∷ query_for job embedding ∷ [],
            ok (behind, okay documents),
          ))
        × ((name : Bytes)
            → get name behind
              ≡ (if text_eq payload.job_name name then some job else get name cache))
  unfolding search_internal
  search_internal-written_through cache job row more rows embedding others documents oracle sent
        valid absent found decoded embedded answered read =
      (
        insert payload.job_name job cache,
        rw (valid, search_internal, absent, with_cached)
            (then_run-ok (get_vectorize_job env payload.job_name)
                (write_through env provider display_float encode payload cache) oracle sent
                (looked_up_job job row more oracle sent found decoded)
              ∙ (search_job-answers (insert payload.job_name job cache) job rows embedding others
                    documents oracle _ embedded read answered
                  ∙ ap (λ s. (s, ok (insert payload.job_name job cache, okay documents)))
                      (append_assoc sent _ _))),
        λ name. get-insert payload.job_name name job cache,
      )
