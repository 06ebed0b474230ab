-- ===== src/Extension/Chat/Call.antt =====
-- extension/src/chat/ops.rs and extension/src/api.rs: a chat about the results of a search.
use pg_vectorize.Base.{List, [], ◌∷◌, Option, none, some, Bytes, codes, concat, ℕ, Bool}
use pg_vectorize.Base.Int.{ℤ, pos, wrap_i32}
use pg_vectorize.Base.Result.{Result, okay, error}
use pg_vectorize.Base.Exec.{
  Exec, ok, err, panicked, ◌>>=◌, row_not_found, sql_error, internal_error,
}
use pg_vectorize.Base.Session.{Value, text, Request, run, Session, done, then_run}
use pg_vectorize.Types.{
  Model, api_name, open_ai, sentence_transformers, cohere, ollama, portkey, voyage,
}
use pg_vectorize.Types.Params.{JobParams}
use pg_vectorize.Transformers.Http.{ChatMessageRequest, Client}
use pg_vectorize.Transformers.Providers.{
  EmbeddingProvider, openai_provider, portkey_provider, ollama_provider, new_openai, new_portkey,
  new_ollama,
}
use pg_vectorize.Transformers.Providers.Completions.{
  openai_generate_response, portkey_generate_response, ollama_generate_response,
}
use pg_vectorize.Jobs.Guc.{ModelGucConfig}
use pg_vectorize.Extension.Settings.{get_guc_configs}
use pg_vectorize.Extension.Spi.{spi_run, get_vectorize_meta_spi, parsed_model}
use pg_vectorize.Extension.Create.{raised}
use pg_vectorize.Extension.Search.Sessions
use pg_vectorize.Extension.Search.Sessions.{searched_params, search}
use pg_vectorize.Extension.Chat
use pg_vectorize.Extension.Chat.{ContextualSearch, RenderedPrompt, tokens_in, prepared_prompt}

-- The HTTP library; the tokenizer of a model with the templates, and the size of its context; and a
-- field of a document, as the text of a document.
pub record Services (Float : Type 0) : Type 1 where
  pub searches : Sessions.Libraries Float
  pub client : Client Float
  pub tokenizer : Bytes → Option Chat.Libraries
  pub get_context_size : Bytes → ℕ
  pub field : Bytes → Bytes → Option Bytes

pub record PromptTemplate : Type 0 where
  pub sys_prompt : Bytes
  pub user_prompt : Bytes

pub record ChatResponse : Type 0 where
  pub context : List ContextualSearch
  pub chat_response : Bytes

unfoldable pub prompts_request : (task : Bytes) → Request
prompts_request task =
    run
      (concat
        (codes "select * from vectorize.prompts where prompt_type = '" ∷ task ∷ codes "'" ∷ []))
      []

-- The loop over the rows, of which the last one counts; a NULL panics.
unfoldable pub template_of_rows : PromptTemplate → List (List Value) → Exec PromptTemplate
template_of_rows template [] = ok template
template_of_rows template ((prompt_type ∷ text sys_prompt ∷ text user_prompt ∷ []) ∷ rows) =
    template_of_rows (record { sys_prompt = sys_prompt; user_prompt = user_prompt }) rows
template_of_rows template ((prompt_type ∷ v ∷ w ∷ []) ∷ rows) = err (sql_error row_not_found)
template_of_rows template (row ∷ rows) = panicked

unfoldable pub chat_messages : RenderedPrompt → List ChatMessageRequest
chat_messages prompts =
    record { role = codes "system"; content = prompts.sys_rendered }
    ∷ record { role = codes "user"; content = prompts.user_rendered }
    ∷ []

-- `columns[0]` panics if there is none.
unfoldable pub content_column : JobParams → Exec Bytes
content_column job_params = elim job_params.columns [ c ∷ columns ↦ ok c | [] ↦ panicked ]

unfoldable pub prompt_of_result : Result Bytes RenderedPrompt → Exec RenderedPrompt
prompt_of_result (okay prompt) = ok prompt
prompt_of_result (error e) = err (internal_error e)

module _ {Float : Type 0} (services : Services Float) where
  open services.searches use {settings, environment, tables}

  unfoldable pub generate_response :
      EmbeddingProvider → Bytes → List ChatMessageRequest → Exec Bytes
  unfolding openai_generate_response portkey_generate_response ollama_generate_response
  generate_response (openai_provider url key) model messages =
      (openai_generate_response services.client url key model messages []).1
  generate_response (portkey_provider url key virtual_key) model messages =
      (portkey_generate_response services.client url key virtual_key model messages []).1
  generate_response (ollama_provider host port) model messages =
      (ollama_generate_response services.client host port model messages []).1
  generate_response _ model messages = panicked

  -- Three of the sources raise an error.
  unfoldable pub chat_provider : Model → ModelGucConfig → Exec EmbeddingProvider
  unfolding new_openai new_portkey new_ollama
  chat_provider model guc_configs = elim model.source [
    | open_ai ↦ new_openai environment guc_configs.service_url guc_configs.api_key
    | portkey ↦
        new_portkey environment guc_configs.service_url guc_configs.api_key guc_configs.virtual_key
    | ollama ↦ new_ollama environment guc_configs.service_url
    | sentence_transformers ↦ panicked
    | cohere ↦ panicked
    | voyage ↦ panicked
  ]

  unfoldable pub call_chat_completions : RenderedPrompt → Model → ModelGucConfig → Exec Bytes
  unfolding chat_provider generate_response api_name chat_messages
  call_chat_completions prompts model guc_configs = chat_provider model guc_configs >>= λ provider.
      generate_response provider (api_name model) (chat_messages prompts)

  unfoldable pub known_tokenizer : Bytes → Exec Chat.Libraries
  known_tokenizer name = elim (services.tokenizer name) [ some bpe ↦ ok bpe | none ↦ panicked ]

  -- The tokenizer for the estimates.
  unfoldable pub tokenizer_of : Model → Exec Chat.Libraries
  unfolding known_tokenizer
  tokenizer_of chat_model = elim chat_model.source [
    | ollama ↦ known_tokenizer (codes "gpt-3.5-turbo")
    | open_ai ↦ known_tokenizer chat_model.name
    | portkey ↦ known_tokenizer chat_model.name
    | voyage ↦ known_tokenizer chat_model.name
    | sentence_transformers ↦ panicked
    | cohere ↦ panicked
  ]

  -- A field that is not there raises an error.
  unfoldable pub present_field : Bytes → Bytes → Exec Bytes
  present_field row_js name = elim (services.field row_js name) [ some v ↦ ok v | none ↦ panicked ]

  unfoldable pub contextual_searches :
      Chat.Libraries → (pk content_column : Bytes) → List Bytes → Exec (List ContextualSearch)
  unfolding present_field
  contextual_searches bpe pk content_column [] = ok []
  contextual_searches bpe pk content_column (row_js ∷ raw_search) =
      present_field row_js pk >>= λ record_id. present_field row_js content_column >>= λ content.
      contextual_searches bpe pk content_column raw_search >>= λ search_results. ok (
        record { record_id = record_id; content = content; token_ct = tokens_in bpe content }
        ∷ search_results)

  -- From the search's results on.
  unfoldable pub answer_chat :
      (query : Bytes) (chat_model : Model) (task : Bytes) (force_trim : Bool)
      → Chat.Libraries
      → List ContextualSearch
      → Session ChatResponse
  unfolding then_run spi_run prompts_request done template_of_rows prompt_of_result prepared_prompt
      get_guc_configs call_chat_completions
  answer_chat query chat_model task force_trim bpe search_results =
      then_run (spi_run (prompts_request task)) λ rows.
        then_run (done (template_of_rows (record { sys_prompt = []; user_prompt = [] }) rows))
          λ template. done (
            prompt_of_result (
              prepared_prompt bpe search_results template.sys_prompt template.user_prompt query
                force_trim (wrap_i32 (pos (services.get_context_size chat_model.name))))
            >>= λ rendered_prompt. get_guc_configs settings chat_model.source >>= λ guc_configs.
                call_chat_completions rendered_prompt chat_model guc_configs >>= λ chat_response.
                ok (record { context = search_results; chat_response = chat_response }))

  -- From the parameters of the job on; the key that is passed is the one of the search.
  unfoldable pub search_context :
      (job_name query : Bytes) (chat_model : Model) (task : Bytes) (api_key : Option Bytes)
      (num_context : ℤ) (force_trim : Bool)
      → JobParams
      → Session ChatResponse
  unfolding then_run done tokenizer_of content_column search contextual_searches answer_chat
  search_context job_name query chat_model task api_key num_context force_trim job_params =
      then_run (done (tokenizer_of chat_model)) λ bpe.
        then_run (done (content_column job_params)) λ column.
          then_run
            (search services.searches job_name query api_key (job_params.primary_key ∷ column ∷ [])
              num_context none)
            λ raw_search.
              then_run (done (contextual_searches bpe job_params.primary_key column raw_search))
                (answer_chat query chat_model task force_trim bpe)

  unfoldable pub call_chat :
      (job_name query : Bytes) (chat_model : Model) (task : Bytes) (api_key : Option Bytes)
      (num_context : ℤ) (force_trim : Bool)
      → Session ChatResponse
  unfolding then_run get_vectorize_meta_spi done raised searched_params search_context
  call_chat job_name query chat_model task api_key num_context force_trim =
      then_run (get_vectorize_meta_spi tables job_name) λ project_meta.
        then_run (done (raised (searched_params services.searches project_meta)))
          (search_context job_name query chat_model task api_key num_context force_trim)

  unfoldable pub rag :
      (job_name query chat_model task : Bytes) (api_key : Option Bytes) (num_context : ℤ)
      (force_trim : Bool)
      → Session ChatResponse
  unfolding then_run done parsed_model call_chat
  rag job_name query chat_model task api_key num_context force_trim =
      then_run (done (parsed_model tables chat_model))
        λ model. call_chat job_name query model task api_key num_context force_trim

  -- A key that is passed takes the place of the one among the settings.
  abbrev pub with_key : Option Bytes → ModelGucConfig → ModelGucConfig
  with_key (some k) guc_configs = record guc_configs { api_key = some k }
  with_key none guc_configs = guc_configs

  unfoldable pub generate : (input model : Bytes) (api_key : Option Bytes) → Exec Bytes
  unfolding parsed_model get_guc_configs call_chat_completions
  generate input model api_key = parsed_model tables model >>= λ m.
      get_guc_configs settings m.source >>= λ guc_configs.
      call_chat_completions (record { sys_rendered = []; user_rendered = input }) m
        (with_key api_key guc_configs)
