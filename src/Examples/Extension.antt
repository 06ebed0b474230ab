-- ===== src/Examples/Extension.antt =====
-- A prompt, texts cut into batches, and a queue whose job was removed.
use pg_vectorize.Extension.Loop.{at_start, ready_request, background_worker_main}
use pg_vectorize.Extension.Loop.Waits.{background_worker_main-waits}
use pg_vectorize.Base.{
  ℕ, ◌≤◌, ◌≡◌, refl, arith, none, true, false, List, [], ◌∷◌, ◌++◌, some, Bytes, codes, concat, map,
  length, take, drop, All,
}
use pg_vectorize.Base.Text.{join}
use pg_vectorize.Base.Int.{pos, wrap_i32, sub_i32}
use pg_vectorize.Base.Result.{okay, error}
use pg_vectorize.Base.Exec.{ok, err, model_not_found}
use pg_vectorize.Base.Session.{caught, read_queue, Oracle, boolean}
use pg_vectorize.Extension.Chat
use pg_vectorize.Extension.Chat.{
  ContextualSearch, RenderedPrompt, tokens_in, combined_string, render_user_message,
  remaining_tokens,
}
use pg_vectorize.Extension.Chat.Trimmed.{prepared, prepared_prompt-trimmed}
use pg_vectorize.Extension.Executor.{batch_texts, select_meta}
use pg_vectorize.Extension.Executor.Batches.{batch_limit, batch_texts_lem}
use pg_vectorize.Extension.Workers
use pg_vectorize.Extension.Workers.{run_worker}
use pg_vectorize.Extension.Workers.Deletes.{deletions, run_worker-deletes}
use pg_vectorize.Examples.Jobs.{env}
use pg_vectorize.Examples.Worker.{serialize, queued, msg}

-- A token is a byte, and a prompt is the template, the context and the query.
abbrev libraries : Chat.Libraries
libraries = record {
  encode_ordinary = λ s. length s;
  split_by_token = λ s. okay (map (λ c. c ∷ []) s);
  render_template = λ template context query. okay (template ++ context ++ query);
}

abbrev searches : List ContextualSearch
searches = record { record_id = codes "1"; content = codes "abcdef"; token_ct = pos 6 } ∷ []

-- Twelve tokens are allowed, of which seven remain, and the message has nine.
prepared_prompt-trimmed_example :
    (prepared libraries searches (codes "sys") (codes "U:") (codes "?") (pos 12) true
      ≡ okay (record { sys_rendered = codes "sys"; user_rendered = codes "U:abcd?" }))
    × (concat (take 4 (map (λ c. c ∷ []) (codes "abcdef")))
          ++ concat (drop 4 (map (λ c. c ∷ []) (codes "abcdef")))
        ≡ codes "abcdef")
unfolding render_user_message join remaining_tokens wrap_i32 sub_i32
prepared_prompt-trimmed_example =
    prepared_prompt-trimmed libraries searches (codes "sys") (codes "U:") (codes "?") (pos 12)
      (codes "U:abcdef?") (codes "U:abcd?") (map (λ c. c ∷ []) (codes "abcdef")) 2 refl refl refl
      refl refl (omega arith) (omega arith) refl

abbrev ids : List Bytes
ids = codes "a" ∷ codes "b" ∷ codes "c" ∷ []

batch_texts_lem_example :
    (concat (batch_texts ids (pos 2)) ≡ ids)
    × All (λ b. length b ≤ batch_limit (pos 2) ids) (batch_texts ids (pos 2))
batch_texts_lem_example = batch_texts_lem ids (pos 2)

abbrev services : Workers.Libraries ℕ
services = record {
  environment = record { var = λ name. error (codes "not there"); parse_url = λ url. none };
  generate_embedding = λ provider request. err (model_not_found (codes "m"));
  serialize = serialize;
  parse_params = λ document. error (codes "no document");
  display = λ e. codes "error";
}

-- The queue returns a message that was read for the first time, and the job has no record.
abbrev one_message : Oracle
one_message sent (read_queue name hidden) = okay (queued (pos 1))
one_message sent _ = okay []

run_worker-deletes_example : run_worker env services (codes "vectorize_jobs") one_message [] ≡ (
  (read_queue (codes "vectorize_jobs") (pos 180) ∷ select_meta (codes "job") ∷ [])
      ++ deletions env services (codes "vectorize_jobs") (msg (pos 1)) one_message [] (okay tt),
  ok (some tt),
)
unfolding Workers.message_of_answer caught Workers.execute_job
run_worker-deletes_example =
    run_worker-deletes env services (codes "vectorize_jobs") (msg (pos 1)) one_message []
      (queued (pos 1))
      (read_queue (codes "vectorize_jobs") (pos 180) ∷ select_meta (codes "job") ∷ []) (okay tt)
      refl refl refl

abbrev no_tables : Oracle
no_tables sent r = okay ((boolean false ∷ []) ∷ [])

background_worker_main-waits_example :
    background_worker_main env services 2 no_tables []
    ≡ (ready_request ∷ ready_request ∷ [], ok at_start)
background_worker_main-waits_example =
    background_worker_main-waits env services 2 no_tables [] (λ s. refl)
