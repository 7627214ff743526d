-- ===== src/Context/Structure.antt =====
-- What `build` puts into a request.
use yellowbullv.Shared.{
  ℕ, ◌+◌, ◌-◌, ◌≤◌, min, max, ◌≡◌, String, some, false, ◌⊎◌, arith, length, List, [], ◌∷◌, ◌++◌,
  All, last_slice,
}
use yellowbullv.Llm.{Role, LlmMessage, plain}
use yellowbullv.Context.{
  Tools, CompressionConfig, count_tokens, total_tokens, group_turns, flat, body,
}
use yellowbullv.Context.Turns.{IsUserTurn}

module _ (tools : Tools) (system_prompt : String) (window_size : ℕ) (c : CompressionConfig)
    (msgs : List LlmMessage) where
  abbrev available : ℕ
  available = max (window_size - (count_tokens tools system_prompt + 4)) 100

  abbrev k : ℕ
  k = c.min_turns_to_keep

  abbrev turns : List (List LlmMessage)
  turns = group_turns [] [] msgs

  abbrev budget : ℕ
  budget = min c.max_summary_tokens (available - total_tokens tools (flat (last_slice k turns)))

  -- The shortened history: the turns that are left out and those that are kept make up the whole, the
  -- kept ones are the last `k`, each opened by the user, and at most one system message, the summary,
  -- stands before them.
  pub record Shortened : Type 0 where
    pub left_out : List (List LlmMessage)
    pub kept : List (List LlmMessage)
    pub whole : flat left_out ++ flat kept ≡ msgs
    pub opened : All IsUserTurn kept
    pub as_many : length kept ≡ k
    pub shape :
        (body tools system_prompt window_size c msgs ≡ flat kept)
        ⊎ ((text : String) × (body tools system_prompt window_size c msgs
              ≡ plain Role.system (some text) ∷ flat kept))

  -- The request holds the whole history where compression is off, where the history fits into the
  -- tokens that are available, or where it has no more turns than are to be kept.
  pub body-whole :
      (c.enabled ≡ false) ⊎ (total_tokens tools msgs ≤ available) ⊎ (length turns ≤ k)
      → body tools system_prompt window_size c msgs ≡ msgs
  unfolding body
  body-whole h = ground arith
