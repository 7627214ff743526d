-- ===== src/Llm/Anthropic/Responses.antt =====
-- What is read of a response.
use yellowbullv.Shared.{
  ℕ, String, ◌≡◌, ap, ◌∙◌, Option, Bool, List, [], ◌∷◌, ◌++◌, append_assoc, append-nil, cat,
}
use text.Mathlib.TextLemmas
use yellowbullv.Shared.Json.{Json}
use yellowbullv.Session.{ToolCall}
use yellowbullv.Llm.Anthropic.{
  Answered, said, used, skipped, read_blocks, parse_response, or_none, input_text,
}

-- The texts of the blocks joined, and their calls.
abbrev pub text_of : List Answered → String
text_of [] = ""
text_of (said text ∷ bs) = cat text (text_of bs)
text_of (used id name v ∷ bs) = text_of bs
text_of (skipped ∷ bs) = text_of bs

module _ (dumps : Json → String) (zero_float : String → Bool) where
  abbrev pub tools_of : List Answered → List ToolCall
  tools_of [] = []
  tools_of (said text ∷ bs) = tools_of bs
  tools_of (used id name v ∷ bs) =
      record { id = id; name = name; arguments = input_text dumps zero_float v } ∷ tools_of bs
  tools_of (skipped ∷ bs) = tools_of bs

  read_blocks_lem :
      (bs : List Answered) (content : String) (calls : List ToolCall)
      → read_blocks dumps zero_float bs content calls
        ≡ (cat content (text_of bs), calls ++ tools_of bs)
  unfolding read_blocks
  read_blocks_lem [] content calls = rw (TextLemmas.append-nil content, append-nil calls)
  read_blocks_lem (said text ∷ bs) content calls =
      read_blocks_lem bs (cat content text) calls
      ∙ ap (λ s. (s, calls ++ tools_of bs)) (TextLemmas.append_assoc content text (text_of bs))
  read_blocks_lem (used id name v ∷ bs) content calls =
      read_blocks_lem bs content
        (calls ++ record { id = id; name = name; arguments = input_text dumps zero_float v } ∷ [])
      ∙ ap (λ cs. (cat content (text_of bs), cs)) (append_assoc calls _ (tools_of bs))
  read_blocks_lem (skipped ∷ bs) content calls = read_blocks_lem bs content calls

  -- A response that is read back has the texts of its blocks joined in order as its content, `None`
  -- if that is empty, and the tool calls of its blocks in their order.
  pub parse_response_lem :
      (bs : List Answered) (usage : Option (ℕ × ℕ))
      → ((parse_response dumps zero_float bs usage).content ≡ or_none (text_of bs))
        × ((parse_response dumps zero_float bs usage).tool_calls ≡ tools_of bs)
  unfolding parse_response
  parse_response_lem bs usage =
      let e = read_blocks_lem bs "" [] in
      (ap (λ x. or_none x.0) e ∙ ap or_none (TextLemmas.nil-append (text_of bs)), ap (λ x. x.1) e)
