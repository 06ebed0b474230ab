-- ===== src/Extension/Loop.antt =====
-- extension/src/workers/pg_bgw.rs and extension/src/util.rs: the loop of the background worker. The
-- latch wakes the worker some number of times, until the server ends it.
pub mod Waits
use pg_vectorize.Base.{ℕ, zero, suc, List, [], ◌∷◌, Option, codes, Bool, false, if◌then◌else◌}
use pg_vectorize.Base.Result.{Result, okay, error}
use pg_vectorize.Base.Exec.{Exec, ok, err, panicked, ◌>>=◌, DbError, VectorizeError}
use pg_vectorize.Base.Session.{
  Value, boolean, Request, run, Session, done, then_run, attempt, caught,
}
use pg_vectorize.Jobs.Rows.{Env}
use pg_vectorize.Extension.Workers.{Libraries, run_worker, wait_duration}

-- `ext_ready` and the milliseconds of `wait_duration`.
pub record LoopState : Type 0 where
  pub ext_ready : Bool
  pub wait_for : ℕ

abbrev pub at_start : LoopState
at_start = record { ext_ready = false; wait_for = 6000 }

unfoldable pub ready_request : Request
ready_request =
    run
      (codes
        "SELECT EXISTS (\n            SELECT 1\n            FROM pg_tables\n            WHERE schemaname = 'vectorize'\n        ) AND EXISTS (\n            SELECT 1\n            FROM pg_tables\n            WHERE schemaname = 'pgmq'\n            AND tablename = 'q_vectorize_jobs'\n        ) AS both_exist;")
      []

-- An error panics (`expect`).
unfoldable pub ready : Result DbError (List (List Value)) → Exec Bool
ready (okay ((boolean b ∷ []) ∷ rows)) = ok b
ready _ = panicked

unfoldable pub set_ready : LoopState → Result DbError (List (List Value)) → Session LoopState
unfolding done ready
set_ready s answer = done (ready answer >>= λ b. ok (record s { ext_ready = b }))

unfoldable pub waited : LoopState → Result VectorizeError (Option (Unit {0})) → Session LoopState
unfolding done wait_duration
waited s (okay polled) =
    done (wait_duration (ok polled) >>= λ wait_dur. ok (record s { wait_for = wait_dur }))
waited s (error e) =
    done (wait_duration (err e) >>= λ wait_dur. ok (record s { wait_for = wait_dur }))

module _ {Float : Type 0} (env : Env) (libraries : Libraries Float) where
  -- One round of the loop.
  unfoldable pub wake : LoopState → Session LoopState
  unfolding then_run attempt ready_request set_ready caught run_worker waited
  wake s =
      if s.ext_ready
      then then_run (caught (run_worker env libraries (codes "vectorize_jobs"))) (waited s)
      else then_run (attempt ready_request) (set_ready s)

  -- The loop from a state on, over the times that the latch wakes it.
  unfoldable pub wake_times : ℕ → LoopState → Session LoopState
  unfolding then_run done wake
  wake_times zero s = done (ok s)
  wake_times (suc n) s = then_run (wake s) (wake_times n)

  unfoldable pub background_worker_main : ℕ → Session LoopState
  unfolding wake_times
  background_worker_main n = wake_times n at_start
