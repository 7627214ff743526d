-- ===== src/Context.antt =====
-- core/context_builder.py: from a session to the messages of a request. The token counter of the
-- tiktoken package, where it is installed, and `json.dumps` are arguments.
pub mod Turns
pub mod Summary
pub mod Structure
mod Tests
use yellowbullv.Shared.{
  ℕ, zero, suc, ◌+◌, ◌-◌, ◌/◌, min, max, String, Option, none, some, Bool, true, false, List, [],
  ◌∷◌, ◌++◌, ◌&&◌, ◌||◌, not, ltb, leb, if◌then◌else◌, str_length, is_empty, or_empty, concat, join,
  cat, show_nat, take, take_text, split_words, any_between, length, is_nonempty, last_slice,
  init_slice, map,
}
use yellowbullv.Shared.Json.{Json, str}
use yellowbullv.Llm.{Role, LlmMessage, plain}
use yellowbullv.Session.{MessageRole, Message, ToolCall, Session, get_context_messages}

-- What stands outside the source: the encoder's count, `none` where tiktoken cannot be used, and
-- the JSON text of a value.
pub record Tools : Type 0 where
  pub tiktoken : Option (String → ℕ)
  pub dumps : Json → String

pub record CompressionConfig : Type 0 where
  pub enabled : Bool
  pub max_summary_tokens : ℕ
  pub min_turns_to_keep : ℕ

abbrev pub default_compression : CompressionConfig
default_compression = record { enabled = true; max_summary_tokens = 300; min_turns_to_keep = 6 }

module _ (tools : Tools) where
  -- `_count_tokens`
  unfoldable pub count_tokens : String → ℕ
  count_tokens text = elim tools.tiktoken [
    | none ↦ max 1 (str_length text / (if any_between 0x4e00 0x9fff text then 2 else 4))
    | some encoded ↦ encoded text
  ]

  -- the tokens of the calls of a message
  call_tokens : List ToolCall → ℕ
  call_tokens [] = 0
  call_tokens (c ∷ cs) =
      max 1 (str_length c.name / 4 + str_length (tools.dumps (str c.arguments)) / 4)
      + call_tokens cs

  calls_or_none : Option (List ToolCall) → List ToolCall
  calls_or_none none = []
  calls_or_none (some cs) = cs

  -- `_message_tokens`
  unfoldable pub message_tokens : LlmMessage → ℕ
  unfolding call_tokens calls_or_none
  message_tokens m =
      4 + max 1 (count_tokens (or_empty m.content) + call_tokens (calls_or_none m.tool_calls))

  unfoldable pub total_tokens : List LlmMessage → ℕ
  total_tokens [] = 0
  total_tokens (m ∷ ms) = message_tokens m + total_tokens ms

  -- The user's and the assistant's text of a turn, the last of each.
  turn_texts : String → String → List LlmMessage → String × String
  turn_texts user_text assistant_text [] = (user_text, assistant_text)
  turn_texts user_text assistant_text (m ∷ ms) = elim m.role [
    | Role.user ↦ turn_texts (or_empty m.content) assistant_text ms
    | Role.assistant ↦ turn_texts user_text (or_empty m.content) ms
    | _ ↦ turn_texts user_text assistant_text ms
  ]

  shorten : String → String
  shorten text =
      if ltb 100 (count_tokens text)
      then cat (join " " (take 50 (split_words text))) " ..."
      else text

  turn_part : List LlmMessage → String
  unfolding turn_texts shorten
  turn_part turn =
      let (user_text, assistant_text) = turn_texts "" "" turn in
      concat ("User: " ∷ shorten user_text ∷ "\nAssistant: " ∷ assistant_text ∷ [])

  -- `while _count_tokens(summary) > budget and len(summary) > 50: summary = summary[:-20]`, for at
  -- most as many rounds as the fuel.
  unfoldable pub cut_down : ℕ → ℕ → String → String
  cut_down zero budget s = s
  cut_down (suc fuel) budget s =
      let shorter = cut_down fuel budget (take_text (str_length s - 20) s) in
      if ltb budget (count_tokens s) && ltb 50 (str_length s) then shorter else s

  -- `_summarize_turns`. Each round of the loop shortens the text, so its length is fuel enough.
  unfoldable pub summarize_turns : List (List LlmMessage) → ℕ → String
  unfolding turn_part
  summarize_turns turns budget =
      let summary = concat (
        "[Earlier conversation ("
        ∷ show_nat (length turns)
        ∷ " turns):\n"
        ∷ join "\n---\n" (map turn_part turns)
        ∷ "\n]"
        ∷ []) in
      cut_down (str_length summary) budget summary

-- `if work_dir: effective_prompt += …`
unfoldable pub effective_prompt : String → Option String → String
effective_prompt prompt none = prompt
effective_prompt prompt (some dir) =
    if is_empty dir
    then prompt
    else concat (
        prompt ∷ "\n\n## Working Directory\n- Your working directory is: `" ∷ dir
        ∷ "`\n- All file and folder operations MUST be performed within this directory.\n- When creating files or folders, use absolute paths under `"
        ∷ dir ∷ "`.\n- Example: to create a file named `test.py`, the path should be `" ∷ dir
        ∷ "\\test.py` (Windows) or `" ∷ dir ∷ "/test.py` (Linux/Mac).\n" ∷ [])

-- The conversion of one message; a system message has no counterpart.
unfoldable pub to_llm : Message → Option LlmMessage
to_llm m = elim m.role [
  | MessageRole.user ↦ some (plain Role.user m.content)
  | MessageRole.assistant ↦ some (record {
    role = Role.assistant;
    content = m.content;
    tool_calls = m.tool_calls;
    tool_call_id = none;
  })
  | MessageRole.tool ↦ some (record {
    role = Role.tool;
    content = m.content;
    tool_calls = none;
    tool_call_id = m.tool_call_id;
  })
  | MessageRole.system ↦ none
]

abbrev pub also_message : Option LlmMessage → List LlmMessage → List LlmMessage
also_message none ms = ms
also_message (some m) ms = m ∷ ms

unfoldable pub convert : List Message → List LlmMessage
unfolding to_llm
convert [] = []
convert (m ∷ ms) = also_message (to_llm m) (convert ms)

abbrev pub is_user : LlmMessage → Bool
is_user m = elim m.role [ Role.user ↦ true | _ ↦ false ]

abbrev pub closed : List (List LlmMessage) → List LlmMessage → List (List LlmMessage)
closed turns current = if is_nonempty current then turns ++ current ∷ [] else turns

-- The loop that groups the messages into turns: a user message closes the current turn.
unfoldable pub group_turns :
    List (List LlmMessage) → List LlmMessage → List LlmMessage → List (List LlmMessage)
group_turns turns current [] = closed turns current
group_turns turns current (m ∷ ms) =
    let apart = group_turns (turns ++ current ∷ []) (m ∷ []) ms in
    let together = group_turns turns (current ++ m ∷ []) ms in
    if is_user m && is_nonempty current then apart else together

abbrev pub flat : List (List LlmMessage) → List LlmMessage
flat [] = []
flat (t ∷ ts) = t ++ flat ts

module _ (tools : Tools) (system_prompt : String) where
  -- The messages after the system prompt.
  unfoldable pub body : ℕ → CompressionConfig → List LlmMessage → List LlmMessage
  body window_size compression llm_msgs =
      let available = max (window_size - (count_tokens tools system_prompt + 4)) 100 in
      let turns = group_turns [] [] llm_msgs in
      let min_keep = compression.min_turns_to_keep in
      let new_turns = last_slice min_keep turns in
      let budget =
        min compression.max_summary_tokens (available - total_tokens tools (flat new_turns)) in
      let summary =
        plain Role.system (some (summarize_turns tools (init_slice min_keep turns) budget)) in
      if not compression.enabled || leb (total_tokens tools llm_msgs) available
      then llm_msgs
      else if leb (length turns) min_keep
      then llm_msgs
      else if ltb 50 budget
      then summary ∷ flat new_turns
      else flat new_turns

  -- `build`, with the compression settings that it is given or the default ones.
  unfoldable pub build : Session → ℕ → CompressionConfig → Option String → List LlmMessage
  build session window_size compression work_dir =
      plain Role.system (some (effective_prompt system_prompt work_dir))
      ∷ body window_size compression (convert (get_context_messages window_size session))
