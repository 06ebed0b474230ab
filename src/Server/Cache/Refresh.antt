-- ===== src/Server/Cache/Refresh.antt =====
-- What the cache holds behind refreshes, and that a search cannot tell.
use pg_vectorize.Base.{
  ℕ, ◌*◌, ◌≤◌, ◌≡◌, refl, ap, ◌∙◌, arith, Bool, true, false, List, [], ◌∷◌, ◌++◌, Option, none,
  some, append-nil, append_assoc, sym, Bytes, text_eq, if◌then◌else◌, All, min, ◌⊎◌, inl, inr,
}
use pg_vectorize.Base.Map.{Map, get, insert, get-insert}
use pg_vectorize.Base.Result.{Result, okay, error}
use pg_vectorize.Base.Exec.{DbError, Exec, ok, err, panicked, VectorizeError}
use pg_vectorize.Base.Session.{
  run, Value, Request, Oracle, done, then_run, after, caught, kept, send, attempt,
}
use pg_vectorize.Types.{VectorizeJob}
use pg_vectorize.Jobs.Rows.{Env}
use pg_vectorize.Worker.Executor.{Provider}
use pg_vectorize.Server.Errors.{ServerError, Handled}
use pg_vectorize.Server.Search.{
  SearchRequest, search_values, json_results, answer_search, query_rows, search_job, search_query,
  check_request, with_cached, search_internal,
}
use pg_vectorize.Server.Cache.{
  select_jobs, taken, collect_jobs, jobs_of_rows, load_initial_job_cache, replaced,
  refresh_job_cache, next_notification, listen_for_changes, listener_pauses,
}

-- The last job of a name; `otherwise` if there is none.
abbrev pub last_named : Bytes → Option VectorizeJob → List VectorizeJob → Option VectorizeJob
last_named name otherwise [] = otherwise
last_named name otherwise (job ∷ jobs) =
    last_named name (if text_eq job.job_name name then some (taken job) else otherwise) jobs

get-collect_from :
    (name : Bytes) (jobmap : Map VectorizeJob) (jobs : List VectorizeJob)
    → get name (collect_jobs jobmap jobs) ≡ last_named name (get name jobmap) jobs
unfolding collect_jobs
get-collect_from name jobmap [] = refl
get-collect_from name jobmap (job ∷ jobs) =
    get-collect_from name (insert job.job_name (taken job) jobmap) jobs
    ∙ ap (λ found. last_named name found jobs) (get-insert job.job_name name (taken job) jobmap)

-- The map `behind` holds the jobs of an answer of the database: the query for the jobs is one of the
-- requests sent behind `start`, and its answer was `rows`, which are read as `jobs`.
abbrev pub IsAnswered : Env → Oracle → (start sent : List Request) → Map VectorizeJob → Type 0
IsAnswered env oracle start sent behind =
    (before later : List Request) × (rows : List (List Value)) × (jobs : List VectorizeJob) × (sent
      ≡ (start ++ before) ++ select_jobs ∷ later)
    × (oracle (start ++ before) select_jobs ≡ okay rows)
    × (jobs_of_rows env rows ≡ ok jobs)
    × ((name : Bytes) → get name behind ≡ last_named name none jobs)

-- The map before, or one of an answer; `sent` extends `start`.
abbrev pub IsRefreshed :
    Env → Oracle → (start sent : List Request) → (before behind : Map VectorizeJob) → Type 0
IsRefreshed env oracle start sent before behind =
    ((more : List Request) × (sent ≡ start ++ more))
    × ((behind ≡ before) ⊎ IsAnswered env oracle start sent behind)

-- A listener that has ended returned the error of its connection, with such a map.
abbrev pub Keeps :
    Env
    → Oracle
    → (start : List Request) → VectorizeError
    → Map VectorizeJob
    → List Request × Exec (Map VectorizeJob × Result VectorizeError (Unit {0}))
    → Type 0
Keeps env oracle start closed before (sent, ok (behind, r)) =
    (r ≡ error closed) × IsRefreshed env oracle start sent before behind
Keeps env oracle start closed before (sent, err e) = ⊥
Keeps env oracle start closed before (sent, panicked) = Unit

-- The same of a refresh, whose map goes on.
abbrev Refreshes :
    Env → Oracle → List Request → Map VectorizeJob → List Request × Exec (Map VectorizeJob) → Type 0
Refreshes env oracle start before (sent, ok behind) =
    IsRefreshed env oracle start sent before behind
Refreshes env oracle start before (sent, err e) = ⊥
Refreshes env oracle start before (sent, panicked) = Unit

module _ (env : Env) (oracle : Oracle) where
  -- What `load_initial_job_cache` returns: it sends one request.
  abbrev Loads : List Request → List Request × Exec (Map VectorizeJob) → Type 0
  Loads start (sent, ok jobmap) =
      (sent ≡ start ++ select_jobs ∷ []) × IsAnswered env oracle start sent jobmap
  Loads start (sent, err e) = sent ≡ start ++ select_jobs ∷ []
  Loads start (sent, panicked) = Unit

  load-Loads : (start : List Request) → Loads start (load_initial_job_cache env oracle start)
  unfolding load_initial_job_cache then_run after done send get
  load-Loads start = answered (oracle start select_jobs) refl
    where
      decoded :
          (rows : List (List Value)) (r : Exec (List VectorizeJob))
          → oracle start select_jobs ≡ okay rows
          → jobs_of_rows env rows ≡ r
          → Loads start (
              after
                (λ jobs. done (ok (collect_jobs [] jobs)))
                oracle
                (start ++ select_jobs ∷ [], r))
      decoded rows (ok jobs) a e = (
        refl,
        (
          [],
          [],
          rows,
          jobs,
          ap (λ s. s ++ select_jobs ∷ []) (sym (append-nil start)),
          ap (λ s. oracle s select_jobs) (append-nil start) ∙ a,
          e,
          λ name. get-collect_from name [] jobs,
        ),
      )
      decoded rows (err x) a e = refl
      decoded rows panicked a e = tt

      answered :
          (a : Result DbError (List (List Value)))
          → oracle start select_jobs ≡ a
          → Loads start (load_initial_job_cache env oracle start)
      answered (okay rows) a =
          rw (a, load_initial_job_cache, then_run, send)
            (decoded rows (jobs_of_rows env rows) a refl)
      answered (error x) a = rw (a, load_initial_job_cache, then_run, send) refl

  refresh-Refreshes :
      (cache : Map VectorizeJob) (start : List Request)
      → Refreshes env oracle start cache
          (then_run (refresh_job_cache env cache) next_notification oracle start)
  unfolding refresh_job_cache then_run after caught kept replaced next_notification done
  refresh-Refreshes cache start =
      refreshed (load_initial_job_cache env oracle start) (load-Loads start)
    where
      refreshed :
          (r : List Request × Exec (Map VectorizeJob))
          → Loads start r
          → Refreshes env oracle start cache
              (after next_notification oracle (after (replaced cache) oracle (kept r)))
      refreshed (s, ok jobmap) (sends, h) = ((_, sends), inr h)
      refreshed (s, err e) sends = ((_, sends), inl refl)
      refreshed (s, panicked) h = tt

  -- What a later part of the session makes of a map and of the requests.
  IsRefreshed-trans :
      (start mid sent : List Request) (before between behind : Map VectorizeJob)
      → IsRefreshed env oracle start mid before between
      → IsRefreshed env oracle mid sent between behind
      → IsRefreshed env oracle start sent before behind
  IsRefreshed-trans start mid sent before between behind ((m, em), h) ((n, en), k) =
      ((m ++ n, extended n en), later h k)
    where
      extended : (n : List Request) → sent ≡ mid ++ n → sent ≡ start ++ (m ++ n)
      extended n e = e ∙ (ap (λ s. s ++ n) em ∙ append_assoc start m n)

      later :
          (between ≡ before) ⊎ IsAnswered env oracle start mid between
          → (behind ≡ between) ⊎ IsAnswered env oracle mid sent behind
          → (behind ≡ before) ⊎ IsAnswered env oracle start sent behind
      later (inl e) (inl e') = inl (e' ∙ e)
      later (inr (b, l, rows, jobs, split, a, r, same)) (inl e') = inr (
        b,
        l ++ n,
        rows,
        jobs,
        en ∙ (ap (λ s. s ++ n) split ∙ append_assoc (start ++ b) (select_jobs ∷ l) n),
        a,
        r,
        λ name. ap (get name) e' ∙ same name,
      )
      later _ (inr (b, l, rows, jobs, split, a, r, same)) = inr (
        m ++ b,
        l,
        rows,
        jobs,
        split ∙ ap (λ s. s ++ select_jobs ∷ l) (joined b),
        ap (λ s. oracle s select_jobs) (sym (joined b)) ∙ a,
        r,
        same,
      )
        where
          joined : (b : List Request) → mid ++ b ≡ start ++ (m ++ b)
          joined b = ap (λ s. s ++ b) em ∙ append_assoc start m b

  -- Whatever notifications are received and whatever the database answers, the listener ends only
  -- with the error of its connection or a panic. In the first case the cache behind it is the one
  -- before, or it is filled from the rows of one answer of the database to a query for the jobs that
  -- the listener sent: under each name it holds the last job of this name, and nothing else.
  pub listen_for_changes-Keeps :
      (notifications : List Bytes) (closed : VectorizeError) (cache : Map VectorizeJob)
      (sent : List Request)
      → Keeps env oracle sent closed cache
          (listen_for_changes env notifications closed cache oracle sent)
  unfolding listen_for_changes done then_run after
  listen_for_changes-Keeps [] closed cache sent = (refl, (([], sym (append-nil sent)), inl refl))
  listen_for_changes-Keeps (payload ∷ notifications) closed cache sent =
      go (then_run (refresh_job_cache env cache) next_notification oracle sent)
        (refresh-Refreshes cache sent) (listen_for_changes-Keeps notifications closed)
    where
      ended :
          (mid : List Request) (between : Map VectorizeJob)
          (r : List Request × Exec (Map VectorizeJob × Result VectorizeError (Unit {0})))
          → IsRefreshed env oracle sent mid cache between
          → Keeps env oracle mid closed between r
          → Keeps env oracle sent closed cache r
      ended mid between (s, ok (behind, r)) h (e, k) =
          (e, IsRefreshed-trans sent mid s cache between behind h k)
      ended mid between (s, err e) h k = k
      ended mid between (s, panicked) h k = tt

      go :
          (r : List Request × Exec (Map VectorizeJob))
          → Refreshes env oracle sent cache r
          → ((c : Map VectorizeJob) (s : List Request)
              → Keeps env oracle s closed c
                  (listen_for_changes env notifications closed c oracle s))
          → Keeps env oracle sent closed cache
              (after (listen_for_changes env notifications closed) oracle r)
      go (s, ok between) h next = ended s between _ h (next between s)
      go (s, err e) h next = h
      go (s, panicked) h next = tt

-- The pauses of the listener between its attempts last from one to sixty seconds, whatever becomes of
-- the attempts.
pauses-bounded :
    (delay : ℕ) (outcomes : List Bool)
    → 1 ≤ delay
    → delay ≤ 60
    → All (λ p. (1 ≤ p) × (p ≤ 60)) (listener_pauses delay outcomes)
unfolding listener_pauses
pauses-bounded delay [] low high = tt
pauses-bounded delay (true ∷ outcomes) low high =
    pauses-bounded 1 outcomes (omega arith) (omega arith)
pauses-bounded delay (false ∷ outcomes) low high =
    ((low, high), pauses-bounded (min (delay * 2) 60) outcomes (omega arith) (omega arith))

module _ {Float : Type 0} (env : Env) (provider : Provider Float)
    (display_float encode : Float → Bytes) (payload : SearchRequest Float) where
  -- A handler's outcome without the cache.
  abbrev pub answer :
      List Request × Exec (Handled (List Bytes))
      → List Request × Exec (Result ServerError (List Bytes))
  answer (sent, ok (cache, r)) = (sent, ok r)
  answer (sent, err e) = (sent, err e)
  answer (sent, panicked) = (sent, panicked)

  answer_search-answer :
      (c d : Map VectorizeJob) (r : Result DbError (List (List Value))) (oracle : Oracle)
      (sent : List Request)
      → answer (answer_search c r oracle sent) ≡ answer (answer_search d r oracle sent)
  unfolding answer_search done
  answer_search-answer c d (error e) oracle sent = refl
  answer_search-answer c d (okay rows) oracle sent = read (json_results rows) refl
    where
      read :
          (r : Exec (List Bytes))
          → json_results rows ≡ r
          → answer (answer_search c (okay rows) oracle sent)
            ≡ answer (answer_search d (okay rows) oracle sent)
      read (ok documents) e = rw (e, answer_search) refl
      read (err x) e = rw (e, answer_search) refl
      read panicked e = rw (e, answer_search) refl

  query_rows-answer :
      (c d : Map VectorizeJob) (job : VectorizeJob) (r : Exec (List (List Float))) (oracle : Oracle)
      (sent : List Request)
      → answer (query_rows env provider display_float encode payload c job r oracle sent)
        ≡ answer (query_rows env provider display_float encode payload d (taken job) r oracle sent)
  unfolding query_rows then_run attempt after done search_query taken
  query_rows-answer c d job (err e) oracle sent = refl
  query_rows-answer c d job panicked oracle sent = refl
  query_rows-answer c d job (ok []) oracle sent = refl
  query_rows-answer c d job (ok (v ∷ vs)) oracle sent =
      let query = run (search_query display_float payload job) (search_values encode payload v) in
      answer_search-answer c d (oracle sent query) oracle (sent ++ query ∷ [])

  -- A search sends the same and answers the same whether the cache holds the job as it was created or
  -- as a refresh leaves it, without its name.
  pub search_internal-taken :
      (created refreshed : Map VectorizeJob) (job : VectorizeJob) (oracle : Oracle)
      (sent : List Request)
      → get payload.job_name created ≡ some job
      → get payload.job_name refreshed ≡ some (taken job)
      → answer (search_internal env provider display_float encode payload created oracle sent)
        ≡ answer (search_internal env provider display_float encode payload refreshed oracle sent)
  unfolding search_internal with_cached search_job taken
  search_internal-taken created refreshed job oracle sent held blank =
      checked (check_request payload) refl
    where
      checked :
          (r : Result Bytes (Unit {0}))
          → check_request payload ≡ r
          → answer (search_internal env provider display_float encode payload created oracle sent)
            ≡ answer
                (search_internal env provider display_float encode payload refreshed oracle sent)
      checked (error e) refused = rw (refused, search_internal) refl
      checked (okay _) valid =
          rw (valid, search_internal, held, blank)
            (query_rows-answer created refreshed job _ oracle sent)
