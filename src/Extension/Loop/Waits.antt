-- ===== src/Extension/Loop/Waits.antt =====
-- extension/src/workers/pg_bgw.rs: what the background worker does before there is a job.
use pg_vectorize.Base.{
  ℕ, zero, suc, ◌≡◌, refl, ap, sym, ◌∙◌, List, [], ◌∷◌, ◌++◌, append-nil, append_assoc, false,
}
use pg_vectorize.Base.Result.{okay}
use pg_vectorize.Base.Exec.{ok}
use pg_vectorize.Base.Session.{boolean, Request, Oracle, done, then_run-ok, attempt}
use pg_vectorize.Jobs.Rows.{Env}
use pg_vectorize.Extension.Workers.{Libraries}
use pg_vectorize.Extension.Loop.{
  at_start, ready_request, set_ready, wake, wake_times, background_worker_main,
}

-- The query for the tables, some times over.
abbrev pub ready_requests : ℕ → List Request
ready_requests zero = []
ready_requests (suc n) = ready_request ∷ ready_requests n

module _ {Float : Type 0} (env : Env) (libraries : Libraries Float) where
  wake-waits :
      (oracle : Oracle) (sent : List Request)
      → oracle sent ready_request ≡ okay ((boolean false ∷ []) ∷ [])
      → wake env libraries at_start oracle sent ≡ (sent ++ ready_request ∷ [], ok at_start)
  unfolding wake attempt set_ready done
  wake-waits oracle sent e =
      then_run-ok (attempt ready_request) (set_ready at_start) oracle sent
        {a = okay ((boolean false ∷ []) ∷ [])} (ap (λ a. (sent ++ ready_request ∷ [], ok a)) e)
      ∙ refl

  -- While the tables of the extension and of its queue are not there, the background worker only asks
  -- for them, once whenever it wakes up: it reads no message, and its state stays the one at the start.
  pub background_worker_main-waits :
      (n : ℕ) (oracle : Oracle) (sent : List Request)
      → ((s : List Request) → oracle s ready_request ≡ okay ((boolean false ∷ []) ∷ []))
      → background_worker_main env libraries n oracle sent ≡ (sent ++ ready_requests n, ok at_start)
  unfolding background_worker_main wake_times done
  background_worker_main-waits zero oracle sent missing =
      ap (λ s. (s, ok at_start)) (sym (append-nil sent))
  background_worker_main-waits (suc n) oracle sent missing =
      then_run-ok (wake env libraries at_start) (wake_times env libraries n) oracle sent
        (wake-waits oracle sent (missing sent))
      ∙ (background_worker_main-waits n oracle (sent ++ ready_request ∷ []) missing
          ∙ ap (λ s. (s, ok at_start)) (append_assoc sent (ready_request ∷ []) (ready_requests n)))
