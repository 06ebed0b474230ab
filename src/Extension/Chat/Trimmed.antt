-- ===== src/Extension/Chat/Trimmed.antt =====
-- When the context of a prompt is kept, refused or trimmed.
use mathlib.Core.Path.{subst}
use pg_vectorize.Base.{
  ℕ, ◌-◌, ◌^◌, ◌≤◌, ◌<◌, ◌≡◌, refl, ap, sym, ◌∙◌, inl, inr, Bool, true, false, Bool-cases, List,
  ◌++◌, Bytes, concat, concat-append, length, take, drop, take-append-drop,
}
use pg_vectorize.Base.Int.{
  ℤ, pos, ltb_ℤ, sub_i32, wrap_i32-pos, sub_i32-pos, not_ltb_ℤ, i32_as_usize,
}
use pg_vectorize.Base.Result.{Result, okay, error}
use pg_vectorize.Extension.Chat.{
  ContextualSearch, RenderedPrompt, Libraries, tokens_in, render_user_message, take_tokens,
  trim_context, remaining_tokens, combined_string, fit_prompt, prepared_prompt,
}

take_tokens_lem :
    (libraries : Libraries) (tokens : List Bytes) (k : ℕ)
    → length tokens < 2 ^ 31
    → k ≤ length tokens
    → take_tokens libraries tokens (pos k) ≡ okay (concat (take (length tokens - k) tokens))
unfolding take_tokens i32_as_usize
take_tokens_lem libraries tokens k short few =
    rw
      (
        wrap_i32-pos (length tokens) short,
        sub_i32-pos (length tokens) k few short,
        not_ltb_ℤ (length tokens - k),
      )
      refl

abbrev IsRefused : Result Bytes RenderedPrompt → Type 0
IsRefused (error e) = Unit
IsRefused (okay prompt) = ⊥

module _ (libraries : Libraries) (searches : List ContextualSearch)
    (sys_prompt_template user_prompt_template query : Bytes) (max_context_length : ℤ) where
  abbrev pub remaining : ℤ
  remaining = remaining_tokens libraries max_context_length sys_prompt_template user_prompt_template

  abbrev pub prepared : Bool → Result Bytes RenderedPrompt
  prepared force_trim =
      prepared_prompt libraries searches sys_prompt_template user_prompt_template query force_trim
        max_context_length

  -- A prompt that is returned where trimming is not allowed holds the whole context, and its message
  -- has fewer tokens than remain.
  prepared_prompt-untrimmed :
      (prompt : RenderedPrompt)
      → prepared false ≡ okay prompt
      → (prompt.sys_rendered ≡ sys_prompt_template)
        × (render_user_message libraries user_prompt_template
              (combined_string libraries searches)
              query
            ≡ okay prompt.user_rendered)
        × (ltb_ℤ (tokens_in libraries prompt.user_rendered) remaining ≡ true)
  unfolding prepared_prompt fit_prompt
  prepared_prompt-untrimmed prompt h =
      rendered
        (render_user_message libraries user_prompt_template (combined_string libraries searches)
          query)
        refl
    where
      HoldsAll : Result Bytes Bytes → RenderedPrompt → Type 0
      HoldsAll r p =
          (p.sys_rendered ≡ sys_prompt_template)
          × (r ≡ okay p.user_rendered)
          × (ltb_ℤ (tokens_in libraries p.user_rendered) remaining ≡ true)

      rendered :
          (r : Result Bytes Bytes)
          → render_user_message libraries user_prompt_template
              (combined_string libraries searches)
              query
            ≡ r
          → HoldsAll r prompt
      rendered (error e) failed =
          let refused : prepared false ≡ error e = rw (failed, prepared_prompt) refl in cc refused
      rendered (okay message) done =
          elim (Bool-cases (ltb_ℤ (tokens_in libraries message) remaining)) [
            | inl fits ↦
                let whole : RenderedPrompt = record {
                  sys_rendered = sys_prompt_template;
                  user_rendered = message;
                } in
                let returned : prepared false ≡ okay whole =
                  rw (done, prepared_prompt, fit_prompt, fits) refl in
                let same : whole ≡ prompt = cc returned in
                subst (HoldsAll (okay message)) same (refl, refl, fits)
            | inr long ↦
                let refused : IsRefused (prepared false) =
                  rw (done, prepared_prompt, fit_prompt, long) tt in
                absurd (subst IsRefused h refused)
          ]

  -- If the message with the whole context can be rendered and has not fewer tokens than remain, but
  -- `over` more, if the context is split into fewer than 2^31 tokens, which make it up and of which
  -- there are at least `over`, if the message with all but the last `over` of them can be rendered,
  -- and if trimming is allowed, then this message is what is returned. What is left out of the
  -- context is exactly the text of its last `over` tokens.
  pub prepared_prompt-trimmed :
      (user_message trimmed_message : Bytes) (tokens : List Bytes) (over : ℕ)
      → render_user_message libraries user_prompt_template
          (combined_string libraries searches)
          query
        ≡ okay user_message
      → ltb_ℤ (tokens_in libraries user_message) remaining ≡ false
      → sub_i32 (tokens_in libraries user_message) remaining ≡ pos over
      → libraries.split_by_token (combined_string libraries searches) ≡ okay tokens
      → concat tokens ≡ combined_string libraries searches
      → length tokens < 2 ^ 31
      → over ≤ length tokens
      → render_user_message libraries user_prompt_template
          (concat (take (length tokens - over) tokens))
          query
        ≡ okay trimmed_message
      → (prepared true
          ≡ okay (record { sys_rendered = sys_prompt_template; user_rendered = trimmed_message }))
        × (concat (take (length tokens - over) tokens)
              ++ concat (drop (length tokens - over) tokens)
            ≡ combined_string libraries searches)
  unfolding prepared_prompt fit_prompt trim_context
  prepared_prompt-trimmed user_message trimmed_message tokens over rendered long excess split whole
        short few again =
      (
        rw
            (
              rendered,
              prepared_prompt,
              fit_prompt,
              long,
              excess,
              split,
              take_tokens_lem libraries tokens over short few,
              again,
            )
            refl,
        sym (
              concat-append (take (length tokens - over) tokens)
                (drop (length tokens - over) tokens))
            ∙ (ap concat (take-append-drop (length tokens - over) tokens) ∙ whole),
      )
