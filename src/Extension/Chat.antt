-- ===== src/Extension/Chat.antt =====
-- extension/src/chat/ops.rs: the prompt of a chat, with the results of a search as its context. The
-- tokenizer and the templates are libraries; a token count is an `i32` that wraps.
pub mod Call
pub mod Trimmed
use pg_vectorize.Base.{
  ℕ, Bool, not, ◌&&◌, List, [], ◌∷◌, Bytes, codes, concat, map, length, take, if◌then◌else◌,
}
use pg_vectorize.Base.Int.{ℤ, pos, ltb_ℤ, sub_i32, wrap_i32, i32_as_usize}
use pg_vectorize.Base.Text.{join}
use pg_vectorize.Base.Result.{Result, okay, error, and_then}
use pg_vectorize.Query.Search.{display_i32}

pub record ContextualSearch : Type 0 where
  pub record_id : Bytes
  pub content : Bytes
  pub token_ct : ℤ

pub record RenderedPrompt : Type 0 where
  pub sys_rendered : Bytes
  pub user_rendered : Bytes

-- The number of tokens of a text and the texts of its tokens, or an error; and a template filled with
-- a context and a query, or an error.
pub record Libraries : Type 0 where
  pub encode_ordinary : Bytes → ℕ
  pub split_by_token : Bytes → Result Bytes (List Bytes)
  pub render_template : (template context query : Bytes) → Result Bytes Bytes

module _ (libraries : Libraries) where
  abbrev pub tokens_in : Bytes → ℤ
  tokens_in text = wrap_i32 (pos (libraries.encode_ordinary text))

  unfoldable pub render_user_message :
      (user_prompt_template context query : Bytes) → Result Bytes Bytes
  render_user_message = libraries.render_template

  -- The first `to_index` tokens, or the error.
  unfoldable pub take_tokens : List Bytes → ℤ → Result Bytes Bytes
  take_tokens tokens overage =
      let token_ct = wrap_i32 (pos (length tokens)) in
      let to_index = sub_i32 token_ct overage in
      if ltb_ℤ to_index (pos 0)
      then error (
          concat (
            codes "prompt template exceeds context limit: "
            ∷ display_i32 token_ct
            ∷ codes " > "
            ∷ display_i32 to_index
            ∷ []))
      else okay (concat (take (i32_as_usize to_index) tokens))

  unfoldable pub trim_context : Bytes → ℤ → Result Bytes Bytes
  unfolding take_tokens
  trim_context context overage =
      and_then (libraries.split_by_token context) λ tokens. take_tokens tokens overage

  -- `remaining_tokens`.
  unfoldable pub remaining_tokens : (max_context_length : ℤ) (sys user : Bytes) → ℤ
  remaining_tokens max_context_length sys_prompt_template user_prompt_template =
      sub_i32 (sub_i32 max_context_length (tokens_in sys_prompt_template))
        (tokens_in user_prompt_template)

  abbrev pub combined_string : List ContextualSearch → Bytes
  combined_string searches =
      join (codes "\n\n") (map (λ (s : ContextualSearch). s.content) searches)

  -- What follows the first rendering.
  unfoldable pub fit_prompt :
      (context sys_prompt_template user_prompt_template query : Bytes)
      → (force_trim : Bool) → (remaining : ℤ) → (user_message : Bytes) → Result Bytes RenderedPrompt
  unfolding trim_context render_user_message
  fit_prompt context sys_prompt_template user_prompt_template query force_trim remaining
        user_message =
      let user_message_ct = tokens_in user_message in
      let overage = not (ltb_ℤ user_message_ct remaining) in
      if overage && not force_trim
      then error (
          concat (
            codes "context exceeds limit: "
            ∷ display_i32 user_message_ct
            ∷ codes " > "
            ∷ display_i32 remaining
            ∷ []))
      else if not overage
      then okay (record { sys_rendered = sys_prompt_template; user_rendered = user_message })
      else and_then (trim_context context (sub_i32 user_message_ct remaining)) λ trimmed_context.
        and_then (render_user_message user_prompt_template trimmed_context query) λ user_message.
          okay (record { sys_rendered = sys_prompt_template; user_rendered = user_message })

  unfoldable pub prepared_prompt :
      List ContextualSearch
      → (sys_prompt_template user_prompt_template query : Bytes) → (force_trim : Bool)
      → (max_context_length : ℤ) → Result Bytes RenderedPrompt
  unfolding join render_user_message remaining_tokens fit_prompt
  prepared_prompt searches sys_prompt_template user_prompt_template query force_trim
        max_context_length =
      let context = combined_string searches in
      and_then (render_user_message user_prompt_template context query) λ user_message.
        fit_prompt context sys_prompt_template user_prompt_template query force_trim
          (remaining_tokens max_context_length sys_prompt_template user_prompt_template)
          user_message
